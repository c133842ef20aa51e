-- ===== src/Patching/Store/Consume.antt =====
-- What `consume` does: alone, and against other callers.
use homelab_registry_mcp.Patching.Store.Claiming.{
  claim-moved, settle-claimed, settle-others, settle-loses, resolve-loses, resolve-invalid,
  check-issued,
}
use homelab_registry_mcp.Table.Unique
use homelab_registry_mcp.Patching.Store.Check.{IsPlausible, check_valid}
use homelab_registry_mcp.Patching.Store.Race.{Statement, run_all, wins_all, claim_after_win}
use homelab_registry_mcp.Prelude.{
  List, String, false, if◌then◌else◌, ltb, refl, some, ℕ, ◌&&◌, ◌<◌, ◌≡◌, ◌≤◌, Bool-cases, Option,
  ap, arith, inl, inr, none, str_eq, ◌||◌, ◌∙◌, ◌⊎◌, true, or_else, ◌≢◌,
}
use homelab_registry_mcp.Patching.Store.{
  ApprovalAction, PatchApproval, Rows, claim, claim_row, consume, has_token, id_of, is_pending,
  is_valid, pending, resolve, settle, valid, TokenState, check, classify, invalid, max_token_chars,
  out_of_time, used, count, Detail, PatchApprovalStatus, record_outcome, approve, approved, cancel,
  cancelled,
}
use homelab_registry_mcp.Table.{first, get, Unique, has_key}
use homelab_registry_mcp.Table.Laws.{first-update, first-test}

-- A click that can act: the token names a pending approval for this action, which is unexpired
-- when it is checked and when it is written.
pub record Acts (sha256 : String → String) (now now' : ℕ) (token : String) (action : ApprovalAction)
    (rows : Rows) (a : PatchApproval) : Type 0 where
  pub plausible : IsPlausible token
  pub issued : first (has_token sha256 token action) rows ≡ some a
  pub open_still : a.status ≡ pending
  pub checked_in_time : now ≤ a.expires_at
  pub written_in_time : now' < a.expires_at

-- The status to which a click on a link moves an approval.
pub data MovesTo : ApprovalAction → PatchApprovalStatus → Type 0 where
  approve_approves : MovesTo approve approved
  cancel_cancels : MovesTo cancel cancelled

MovesTo-row :
    {action : ApprovalAction} {s : PatchApprovalStatus} (now : ℕ)
    → MovesTo action s
    → (a : PatchApproval) → claim_row now action a ≡ record a { status = s; resolved_at = some now }
MovesTo-row now approve_approves a = refl
MovesTo-row now cancel_cancels a = refl

module _ (sha256 : String → String) (now now' : ℕ) (token : String) (action : ApprovalAction) where
  -- A click that can act, through the row that the UPDATE writes.
  pub consume-claims :
      (rows : Rows) (a : PatchApproval)
      → Unique id_of rows
      → Acts sha256 now now' token action rows a
      → ((consume sha256 now now' token action (λ t. t) (λ t. t) rows).0
          ≡ record { state = valid; approval = some (claim_row now' action a) })
        × (get id_of a.id (consume sha256 now now' token action (λ t. t) (λ t. t) rows).1
            ≡ some (claim_row now' action a))
  unfolding consume resolve
  consume-claims rows a u acts =
      let named =
        Unique.get-first id_of (has_token sha256 token action) rows {a = a} u acts.issued in
      rw
        ((check_valid sha256 now token action rows a).1
          (acts.plausible, acts.issued, acts.open_still, acts.checked_in_time))
        (settle-claimed now' action rows a u named acts.open_still acts.written_in_time)

  -- A click that can act leaves the other approvals alone.
  consume-others :
      (rows : Rows) (a : PatchApproval) (k : String)
      → Unique id_of rows
      → Acts sha256 now now' token action rows a
      → k ≢ a.id
      → get id_of k (consume sha256 now now' token action (λ t. t) (λ t. t) rows).1
        ≡ get id_of k rows
  unfolding consume resolve
  consume-others rows a k u acts other =
      let named =
        Unique.get-first id_of (has_token sha256 token action) rows {a = a} u acts.issued in
      rw
        ((check_valid sha256 now token action rows a).1
          (acts.plausible, acts.issued, acts.open_still, acts.checked_in_time))
        (settle-others now' action rows a k u named acts.open_still acts.written_in_time other)

  -- On a table of approvals with different ids and with no other writer, a click that can act (its
  -- token is of a plausible length and names, for its link, a pending approval that is not past its
  -- time at the check and at the UPDATE) moves that approval to `approved` where it is a click on the
  -- Approve link and to `cancelled` where it is one on the Cancel link, stamps the time of the UPDATE,
  -- leaves every other column and every other approval as it was, and returns the approval as it then
  -- is.
  pub consume_valid :
      (s : PatchApprovalStatus) (rows : Rows) (a : PatchApproval)
      → MovesTo action s
      → Unique id_of rows
      → Acts sha256 now now' token action rows a
      → let out = consume sha256 now now' token action (λ t. t) (λ t. t) rows in
        let moved = record a { status = s; resolved_at = some now' } in
        (out.0 ≡ record { state = valid; approval = some moved })
        × (get id_of a.id out.1 ≡ some moved)
        × ((k : String) → k ≢ a.id → get id_of k out.1 ≡ get id_of k rows)
  consume_valid s rows a moves u acts =
      let (seen, stored) = consume-claims rows a u acts in
      let same = MovesTo-row now' moves a in
      (
        seen ∙ ap (λ r. record { state = valid; approval = some r }) same,
        stored ∙ ap some same,
        λ k other. consume-others rows a k u acts other,
      )

  -- On a table of approvals with different ids, a click whose token names an approval that another
  -- statement moves between this click's check and its UPDATE is not accepted.
  pub consume_loses_race :
      (statements : List Statement) (rows : Rows) (a : PatchApproval) (later : Rows → Rows)
      → Unique id_of rows
      → first (has_token sha256 token action) rows ≡ some a
      → wins_all a.id statements rows ≡ 1
      → is_valid (consume sha256 now now' token action (run_all statements) later rows).0.state
        ≡ false
  unfolding consume
  consume_loses_race statements rows a later u issued won =
      elim (check-issued sha256 now token action rows a issued) [
        | inl refused ↦
            rw refused (resolve-invalid now' action later none (run_all statements rows))
        | inr named ↦ rw named (
            resolve-loses now' action later (check sha256 now token action rows).state a
              (run_all statements rows) (claim_after_win now' a.id action statements rows u won))
      ]

-- A row count of one needs the time.
claimed_in_time :
    (now : ℕ) (rid : String) (action : ApprovalAction) (rows : Rows) (a : PatchApproval)
    → a.status ≡ pending
    → (claim now rid action rows).0 ≡ (if is_pending a.status && ltb now a.expires_at then 1 else 0)
    → is_valid (settle rid (claim now rid action rows).0 (claim now rid action rows).1).0.state
      ≡ true
    → now < a.expires_at
claimed_in_time now rid action rows a open_still moved accepted =
    elim (Bool-cases (ltb now a.expires_at)) [
      | inl soon ↦ ground arith
      | inr late ↦
          let unmoved : (claim now rid action rows).0 ≡ 0 = moved ∙ ground arith in
          let lost = settle-loses rid (claim now rid action rows).1 in
          absurd (let again = rw unmoved at accepted in cc)
    ]

classify-cases :
    (now : ℕ) (found : Option PatchApproval)
    → ((a : PatchApproval) × (classify now found ≡ record { state = valid; approval = some a }))
      ⊎ (is_valid (classify now found).state ≡ false)
unfolding classify
classify-cases now none = inr refl
classify-cases now (some a) = elim (Bool-cases (is_valid (classify now (some a)).state)) [
  | inl good ↦ inl (a, ground arith)
  | inr bad ↦ inr bad
]

resolve-refused :
    (now : ℕ) (action : ApprovalAction) (later : Rows → Rows) (s : TokenState)
    (found : Option PatchApproval) (rows : Rows)
    → is_valid s ≡ false
    → is_valid (resolve now action later s found rows).0.state ≡ false
unfolding resolve
resolve-refused now action later valid found rows h = cc
resolve-refused now action later out_of_time none rows h = refl
resolve-refused now action later out_of_time (some a) rows h = refl
resolve-refused now action later invalid none rows h = refl
resolve-refused now action later invalid (some a) rows h = refl
resolve-refused now action later used none rows h = refl
resolve-refused now action later used (some a) rows h = refl

check-cases :
    (sha256 : String → String) (now : ℕ) (token : String) (action : ApprovalAction) (rows : Rows)
    → ((a : PatchApproval) × (check sha256 now token action rows
          ≡ record { state = valid; approval = some a }))
      ⊎ (is_valid (check sha256 now token action rows).state ≡ false)
unfolding check
check-cases sha256 now token action rows =
    elim (Bool-cases (str_eq token "" || ltb max_token_chars (count token))) [
      | inl long ↦ inr (rw long)
      | inr fits ↦ rw fits (classify-cases now (first (has_token sha256 token action) rows))
    ]

module _ (sha256 : String → String) (now now' : ℕ) (token : String) (action : ApprovalAction) where
  -- On a table of approvals with different ids and with no other writer, a token that `consume`
  -- accepts is of a plausible length and names a pending approval for this action that is not past
  -- its time at the check and at the UPDATE.
  pub consume_valid_only :
      (rows : Rows)
      → Unique id_of rows
      → is_valid (consume sha256 now now' token action (λ t. t) (λ t. t) rows).0.state ≡ true
      → (a : PatchApproval) × Acts sha256 now now' token action rows a
  unfolding consume resolve
  consume_valid_only rows u accepted = elim (check-cases sha256 now token action rows) [
    | inr bad ↦ absurd (
        let refused =
          resolve-refused now' action (λ t. t) (check sha256 now token action rows).state
            (check sha256 now token action rows).approval rows bad in
        ground arith)
    | inl (a, good) ↦
        let (plausible, issued, open_still, in_time) =
          (check_valid sha256 now token action rows a).0 good in
        let named = Unique.get-first id_of (has_token sha256 token action) rows {a = a} u issued in
        let moved = claim-moved now' a.id action rows a u named in
        (
          a,
          record {
            plausible = plausible;
            issued = issued;
            open_still = open_still;
            checked_in_time = in_time;
            written_in_time =
                claimed_in_time now' a.id action rows a open_still moved (rw good at accepted);
          },
        )
  ]

-- What `record_outcome` leaves of an approval.
pub get-record_outcome :
    (now : ℕ) (k : String) (s : PatchApprovalStatus) (via : Option String) (detail : Option Detail)
    (a : PatchApproval) (rows : Rows)
    → get id_of k rows ≡ some a
    → get id_of k (record_outcome now k s via detail rows)
      ≡ some (record a {
        status = s;
        executed_via = via;
        detail = detail;
        resolved_at = or_else a.resolved_at (some now);
      })
unfolding record_outcome
get-record_outcome now k s via detail a rows found =
    rw
      (first-update (has_key id_of k) (has_key id_of k)
        (λ r. record r {
          status = s;
          executed_via = via;
          detail = detail;
          resolved_at = or_else r.resolved_at (some now);
        })
        rows (λ r. refl))
      (rw (found, first-test (has_key id_of k) rows found))
