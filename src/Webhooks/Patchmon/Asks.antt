-- ===== src/Webhooks/Patchmon/Asks.antt =====
-- When the webhook writes to the approvals.
use homelab_registry_mcp.Webhooks.Schemas.{name_matches, PatchAlert, Payload, IgnoredAlert}
use homelab_registry_mcp.Webhooks.Patchmon.{
  declined, already_pending, email_failed, pending_approval, HostInfo, Receiver, Request, admit,
  name_host, Rows, Declined, Answer,
}
use homelab_registry_mcp.Prelude.{
  Bool, Option, Option-cases, Result, String, ap, err, inl, inr, none, ok, refl, true, ℕ, ◌≡◌, ◌⊎◌,
  subst, false,
}
use homelab_registry_mcp.Webhooks.Patchmon.Approve.{
  Moment, on_alert, patchmon_webhook, on_payload, ask_approval, unless_pending,
}
use homelab_registry_mcp.Webhooks.Patchmon.Safety.{IsAdmitted, admit-IsAdmitted, name_host-IsPlain}
use homelab_registry_mcp.Patching.Store.{find_pending}
use homelab_registry_mcp.Webhooks.Normalize.Plain.{Obeys, IsPlain}

-- Whether an answer says that an approval was asked for.
abbrev pub is_asking : Answer → Bool
is_asking (declined d) = false
is_asking (already_pending id) = false
is_asking (email_failed id) = true
is_asking (pending_approval id) = true

module _ (w : Receiver) (sha256 : String → String) where
  -- The request asks for the approval of this alert: it is admitted, its alert names a host by a
  -- plain inventory name, and no approval of it is pending.
  pub record IsAsked (patchmon : Option (String → HostInfo)) (finds : ℕ) (r : Request) (rows : Rows)
      (a : PatchAlert) : Type 0 where
    pub payload : Payload
    pub passed : admit w r ≡ ok payload
    pub admitted : IsAdmitted w r payload
    pub named : name_host w patchmon payload ≡ ok a
    pub plain : name_matches a.target_host ≡ true
    pub fresh : find_pending finds a.event a.target_host a.service a.target_version rows ≡ none

  plain_of :
      {r : Result IgnoredAlert PatchAlert} {a : PatchAlert}
      → r ≡ ok a
      → IsPlain w.builtins r
      → name_matches a.target_host ≡ true
  unfolding IsPlain
  plain_of h k = subst (IsPlain w.builtins) h k

  module _ (patchmon : Option (String → HostInfo)) (delivered : Bool) (m : Moment)
      (meanwhile later : Rows → Rows) where
    -- The approvals are as they were, or the alert is asked for.
    on_alert-cases :
        (named : Result IgnoredAlert PatchAlert) (rows : Rows)
        → (((on_alert w sha256 delivered m meanwhile later named rows).1 ≡ rows)
            × (is_asking (on_alert w sha256 delivered m meanwhile later named rows).0 ≡ false))
          ⊎ ((a : PatchAlert) × (named ≡ ok a)
              × (find_pending m.finds a.event a.target_host a.service a.target_version rows ≡ none)
              × (on_alert w sha256 delivered m meanwhile later named rows
                  ≡ ask_approval w sha256 delivered m later a (meanwhile rows)))
    unfolding on_alert
    on_alert-cases (err ignored) rows = inl (refl, refl)
    on_alert-cases (ok a) rows =
        elim (Option-cases
          (find_pending m.finds a.event a.target_host a.service a.target_version rows)) [
            | inl fresh ↦ inr (
              a,
              refl,
              fresh,
              ap (λ o. unless_pending w sha256 delivered m meanwhile later a o rows) fresh,
            )
            | inr (existing, there) ↦ inl (
              ap (λ o. (unless_pending w sha256 delivered m meanwhile later a o rows).1) there,
              ap (λ o. is_asking (unless_pending w sha256 delivered m meanwhile later a o rows).0)
                  there,
            )
          ]

    on_payload-cases :
        (r : Request) (passed : Result Declined Payload) (rows : Rows)
        → Obeys w.builtins
        → admit w r ≡ passed
        → let out = on_payload w sha256 patchmon delivered m meanwhile later passed rows in
          ((out.1 ≡ rows) × (is_asking out.0 ≡ false))
          ⊎ ((a : PatchAlert) × IsAsked patchmon m.finds r rows a
              × (out ≡ ask_approval w sha256 delivered m later a (meanwhile rows)))
    unfolding on_payload
    on_payload-cases r (err d) rows obeys h = inl (refl, refl)
    on_payload-cases r (ok p) rows obeys h = elim (on_alert-cases (name_host w patchmon p) rows) [
      | inl same ↦ inl same
      | inr (a, named, fresh, asks) ↦
          let admitted = admit-IsAdmitted w r p h in
          inr (
            a,
            record {
              payload = p;
              passed = h;
              admitted = admitted;
              named = named;
              plain = plain_of named (name_host-IsPlain w patchmon r p obeys admitted);
              fresh = fresh;
            },
            asks,
          )
    ]

    -- Whatever request comes, with any answer of PatchMon's API and of the mail server and whatever
    -- other requests do while this one waits: it leaves the approvals as they
    -- are and says that it asked for none, or the server may
    -- write, the body is within the cap and has a matching signature, the payload is a valid one of an
    -- event listened to, the host has a plain inventory name (where a constrained string matches its
    -- pattern), no approval of the alert was pending, and what it does is to ask for that alert's.
    pub patchmon_webhook-IsAsked :
        (r : Request) (rows : Rows)
        → Obeys w.builtins
        → let out = patchmon_webhook w sha256 patchmon delivered m meanwhile later r rows in
          ((out.1 ≡ rows) × (is_asking out.0 ≡ false))
          ⊎ ((a : PatchAlert) × IsAsked patchmon m.finds r rows a
              × (out ≡ ask_approval w sha256 delivered m later a (meanwhile rows)))
    unfolding patchmon_webhook
    patchmon_webhook-IsAsked r rows obeys = on_payload-cases r (admit w r) rows obeys refl
