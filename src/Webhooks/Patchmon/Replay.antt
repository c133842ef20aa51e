-- ===== src/Webhooks/Patchmon/Replay.antt =====
-- A request that comes again, while its approval is pending and after its email failed.
use homelab_registry_mcp.Webhooks.Patchmon.{
  Receiver, HostInfo, Request, admit, already_pending, name_host,
}
use homelab_registry_mcp.Patching.Store.{
  pending, same, find_pending, PatchApproval, Rows, minute, is_pending, is_past, create,
  record_outcome, undelivered, undelivered_email, id_of,
}
use homelab_registry_mcp.Prelude.{
  Option, String, [], eq_refl, none, refl, some, true, ℕ, ◌*◌, ◌+◌, ◌∷◌, ◌≡◌, ◌≤◌, and_intro, ap,
  arith, if◌then◌else◌, not, or_else, str_eq, ◌&&◌, ◌∙◌, and_elim, Bool, false, inl, inr, ok, subst,
  sym,
}
use homelab_registry_mcp.Webhooks.Patchmon.Approve.{
  Moment, draft_for, patchmon_webhook, ask_approval, on_payload, on_alert, unless_pending,
}
use homelab_registry_mcp.Webhooks.Schemas.{PatchAlert, Payload}
use homelab_registry_mcp.Table.{first, add, update, has_key}
use homelab_registry_mcp.Table.Laws.{first-append, first-none, update-append, first-update-none}
use homelab_registry_mcp.Webhooks.Normalize.Plain.{Obeys}
use homelab_registry_mcp.Webhooks.Patchmon.Asks.{is_asking, patchmon_webhook-IsAsked, IsAsked}

module _ (w : Receiver) (sha256 : String → String) where
  -- The row that the handler inserts.
  unfoldable pub asked_row : Moment → PatchAlert → PatchApproval
  asked_row m a = record (draft_for m a) {
    approve_token_hash = sha256 m.approve_token;
    cancel_token_hash = sha256 m.cancel_token;
    status = pending;
    expires_at = m.creates + w.ttl_minutes * minute;
  }

  same_refl : (o : Option String) → same o o ≡ true
  same_refl none = refl
  same_refl (some s) = eq_refl s

  not_past : (now expires_at : ℕ) → now ≤ expires_at → not (is_past now expires_at) ≡ true
  not_past now expires_at le = ground arith

  not_past-earlier :
      (now later expires_at : ℕ)
      → now ≤ later
      → not (is_past later expires_at) ≡ true
      → not (is_past now expires_at) ≡ true
  not_past-earlier now later expires_at le h = ground arith

  -- The pending approval of an alert is found again until its time is past, where no other was.
  find_pending-asked_row :
      (m : Moment) (a : PatchAlert) (rows : Rows) (later : ℕ)
      → find_pending later a.event a.target_host a.service a.target_version rows ≡ none
      → later ≤ m.creates + w.ttl_minutes * minute
      → find_pending later a.event a.target_host a.service a.target_version
          (add (asked_row m a) rows)
        ≡ some (asked_row m a)
  unfolding find_pending asked_row first
  find_pending-asked_row m a rows later clear soon =
      let q = λ (r : PatchApproval).
        (is_pending r.status
          && (str_eq r.event a.event
              && (str_eq r.target_host a.target_host
                  && (same r.service a.service && same r.target_version a.target_version))))
        && not (is_past later r.expires_at) in
      let passes =
        and_intro _ _
          (and_intro _ _ (eq_refl a.event) (
            and_intro _ _ (eq_refl a.target_host)
              (and_intro _ _ (same_refl a.service) (same_refl a.target_version))))
          (not_past later (m.creates + w.ttl_minutes * minute) soon) in
      first-append q rows (asked_row m a ∷ [])
      ∙ ap (λ o. or_else o (first q (asked_row m a ∷ []))) clear
      ∙ ap (λ b. if b then some (asked_row m a) else none) passes

  -- What was not found pending is not found pending later.
  find_pending-later :
      (now later : ℕ) (event target_host : String) (service target_version : Option String)
      (rows : Rows)
      → now ≤ later
      → find_pending now event target_host service target_version rows ≡ none
      → find_pending later event target_host service target_version rows ≡ none
  unfolding find_pending
  find_pending-later now later event target_host service target_version rows le h =
      first-none _ _ rows
        (λ r hit.
          let (alike, soon) = and_elim _ (not (is_past later r.expires_at)) hit in
          and_intro _ _ alike (not_past-earlier now later r.expires_at le soon))
        h

  -- The approvals once the email could not be sent.
  unfoldable pub undelivered_rows : Moment → PatchAlert → Rows → Rows
  unfolding record_outcome asked_row
  undelivered_rows m a rows =
      record_outcome m.records m.id undelivered none (some undelivered_email)
        (add (asked_row m a) rows)

  find_pending-undelivered :
      (m : Moment) (a : PatchAlert) (rows : Rows) (later : ℕ)
      → find_pending later a.event a.target_host a.service a.target_version rows ≡ none
      → find_pending later a.event a.target_host a.service a.target_version
          (undelivered_rows m a rows)
        ≡ none
  unfolding find_pending undelivered_rows record_outcome asked_row update first
  find_pending-undelivered m a rows later clear =
      let q : PatchApproval → Bool = λ r.
        (is_pending r.status
          && (str_eq r.event a.event
              && (str_eq r.target_host a.target_host
                  && (same r.service a.service && same r.target_version a.target_version))))
        && not (is_past later r.expires_at) in
      let f : PatchApproval → PatchApproval = λ r. record r {
        status = undelivered;
        executed_via = none;
        detail = some undelivered_email;
        resolved_at = or_else r.resolved_at (some m.records);
      } in
      let p = has_key id_of m.id in
      let row = asked_row m a in
      ap (first q) (update-append p f rows (row ∷ []))
      ∙ first-append q (update p f rows) (update p f (row ∷ []))
      ∙ ap (λ o. or_else o (first q (update p f (row ∷ []))))
          (first-update-none q p f rows (λ r. refl) clear)
      ∙ ap (λ b. first q ((if b then f row else row) ∷ [])) (eq_refl m.id)

  -- The webhook, by what its steps gave.
  patchmon_webhook-steps :
      (patchmon : Option (String → HostInfo)) (delivered : Bool) (m : Moment)
      (meanwhile later : Rows → Rows) (r : Request) (rows : Rows) {p : Payload} {a : PatchAlert}
      {found : Option PatchApproval}
      → admit w r ≡ ok p
      → name_host w patchmon p ≡ ok a
      → find_pending m.finds a.event a.target_host a.service a.target_version rows ≡ found
      → patchmon_webhook w sha256 patchmon delivered m meanwhile later r rows
        ≡ unless_pending w sha256 delivered m meanwhile later a found rows
  unfolding patchmon_webhook on_payload on_alert
  patchmon_webhook-steps patchmon delivered m meanwhile later r rows {a = a} passed named found =
      ap (λ o. on_payload w sha256 patchmon delivered m meanwhile later o rows) passed
      ∙ ap (λ o. on_alert w sha256 delivered m meanwhile later o rows) named
      ∙ ap (λ o. unless_pending w sha256 delivered m meanwhile later a o rows) found

  module _ (patchmon patchmon' : Option (String → HostInfo)) (delivered : Bool) (m m' : Moment)
      (meanwhile later : Rows → Rows) (r : Request) (rows : Rows) where
    -- Where a constrained string matches its pattern: a request that asked for an approval, with
    -- nothing else done meanwhile and its email sent, comes again while that approval is in time,
    -- and PatchMon, where it is asked for the host's details, names the same host as it did before:
    -- it is told that the approval is pending, and the approvals stay as they are.
    pub patchmon_webhook-replayed :
        Obeys w.builtins
        → ((p : Payload) → admit w r ≡ ok p → name_host w patchmon' p ≡ name_host w patchmon p)
        → m.finds ≤ m'.finds
        → m'.finds ≤ m.creates + w.ttl_minutes * minute
        → let out = patchmon_webhook w sha256 patchmon true m (λ t. t) (λ t. t) r rows in
          is_asking out.0 ≡ true
          → patchmon_webhook w sha256 patchmon' delivered m' meanwhile later r out.1
            ≡ (already_pending m.id, out.1)
    unfolding ask_approval create unless_pending asked_row
    patchmon_webhook-replayed obeys alike le soon asked =
        elim (patchmon_webhook-IsAsked w sha256 patchmon true m (λ t. t) (λ t. t) r rows obeys) [
          | inl (same, silent) ↦ absurd cc
          | inr (a, k, asks) ↦
              let was : (patchmon_webhook w sha256 patchmon true m (λ t. t) (λ t. t) r rows).1
                  ≡ add (asked_row m a) rows =
                ap (λ o. o.1) asks in
              subst
                (λ t.
                  patchmon_webhook w sha256 patchmon' delivered m' meanwhile later r t
                  ≡ (already_pending m.id, t))
                (sym was)
                (patchmon_webhook-steps patchmon' delivered m' meanwhile later r
                  (add (asked_row m a) rows) k.passed (alike _ k.passed ∙ k.named)
                  (find_pending-asked_row m a rows m'.finds
                    (find_pending-later m.finds m'.finds a.event a.target_host a.service
                      a.target_version rows le k.fresh)
                    soon))
        ]

    -- Where a constrained string matches its pattern: if the email of a request that asked for an
    -- approval could not be sent and nothing else was done meanwhile, the same request, coming again
    -- later, asks for a new approval of the same alert, if PatchMon, where it is asked for the
    -- host's details, names the same host as it did before.
    pub patchmon_webhook-retried :
        Obeys w.builtins
        → ((p : Payload) → admit w r ≡ ok p → name_host w patchmon' p ≡ name_host w patchmon p)
        → m.finds ≤ m'.finds
        → let out = patchmon_webhook w sha256 patchmon false m (λ t. t) (λ t. t) r rows in
          is_asking out.0 ≡ true
          → (a : PatchAlert) × IsAsked w sha256 patchmon m.finds r rows a
            × (patchmon_webhook w sha256 patchmon' delivered m' meanwhile later r out.1
                ≡ ask_approval w sha256 delivered m' later a (meanwhile out.1))
    unfolding ask_approval create unless_pending asked_row undelivered_rows
    patchmon_webhook-retried obeys alike le asked =
        elim (patchmon_webhook-IsAsked w sha256 patchmon false m (λ t. t) (λ t. t) r rows obeys) [
          | inl (same, silent) ↦ absurd cc
          | inr (a, k, asks) ↦ (
            a,
            k,
            (let was : (patchmon_webhook w sha256 patchmon false m (λ t. t) (λ t. t) r rows).1
                    ≡ undelivered_rows m a rows =
                  ap (λ o. o.1) asks in
                patchmon_webhook-steps patchmon' delivered m' meanwhile later r _ k.passed
                  (alike _ k.passed ∙ k.named)
                  (ap
                      (λ t.
                        find_pending m'.finds a.event a.target_host a.service a.target_version t)
                      was
                    ∙ find_pending-undelivered m a rows m'.finds (
                        find_pending-later m.finds m'.finds a.event a.target_host a.service
                          a.target_version rows le k.fresh))),
          )
        ]
