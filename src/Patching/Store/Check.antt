-- ===== src/Patching/Store/Check.antt =====
-- What `check` says of a token.
use homelab_registry_mcp.Prelude.{
  Option, String, arith, false, ltb, none, some, str_eq, ℕ, ◌||◌, ◌↔◌, ◌≡◌, ◌≤◌, Bool-cases, inl,
  inr, sym, [], eq_iff, eq_refl, refl, ◌*◌, ◌+◌, ◌∙◌, ◌∷◌, ◌≢◌, true,
}
use homelab_registry_mcp.Patching.Store.{
  ApprovalAction, PatchApproval, Rows, check, classify, has_token, invalid, max_token_chars,
  pending, valid, count, IssuedApproval, approve, cancel, create, minute,
}
use homelab_registry_mcp.Table.{first}
use homelab_registry_mcp.Table.Laws.{first-append}

-- The tokens that `check` looks up: not empty, and not longer than any token issued.
abbrev pub IsPlausible : String → Type 0
IsPlausible token = (str_eq token "" || ltb max_token_chars (count token)) ≡ false

classify_valid :
    (now : ℕ) (found : Option PatchApproval) (a : PatchApproval)
    → (classify now found ≡ record { state = valid; approval = some a })
      ↔ ((found ≡ some a) × (a.status ≡ pending) × (now ≤ a.expires_at))
unfolding classify
classify_valid now none a = (λ h. cc, λ h. cc (h.0))
classify_valid now (some b) a = (λ h. (ground arith, ground arith, ground arith), λ h. ground arith)

module _ (sha256 : String → String) (now : ℕ) (token : String) (action : ApprovalAction)
    (rows : Rows) where
  -- A token can act exactly when it is of a plausible length and the first approval with its hash,
  -- in the column of that action, is pending and not past its time; and the check names it.
  pub check_valid :
      (a : PatchApproval)
      → (check sha256 now token action rows ≡ record { state = valid; approval = some a }) ↔ (
          IsPlausible token
          × (first (has_token sha256 token action) rows ≡ some a)
          × (a.status ≡ pending)
          × (now ≤ a.expires_at))
  unfolding check
  check_valid a = elim (Bool-cases (str_eq token "" || ltb max_token_chars (count token))) [
    | inl long ↦ (λ h. cc (sym (rw long at h)), λ h. cc (long, h.0))
    | inr fits ↦ (
      λ h.
          let t =
            (classify_valid now (first (has_token sha256 token action) rows) a).0 (rw fits at h) in
          (fits, t.0, t.1, t.2),
      λ h.
          rw fits
            ((classify_valid now (first (has_token sha256 token action) rows) a).1 (h.1, h.2, h.3)),
    )
  ]

  -- A token that no approval of this action was issued is invalid, whatever the others hold.
  pub check_unknown :
      first (has_token sha256 token action) rows ≡ none
      → check sha256 now token action rows ≡ record { state = invalid; approval = none }
  unfolding check classify
  check_unknown h = ground arith

module _ (sha256 : String → String) (now later : ℕ) (approve_token cancel_token : String)
    (a : PatchApproval) (ttl : ℕ) (rows : Rows) where
  abbrev pub issued : IssuedApproval × Rows
  issued = create sha256 now approve_token cancel_token a ttl rows

  -- The new row is the first with a token that no earlier one has.
  new_valid :
      (token : String) (action : ApprovalAction)
      → IsPlausible token
      → first (has_token sha256 token action) rows ≡ none
      → has_token sha256 token action issued.0.approval ≡ true
      → later ≤ now + ttl * minute
      → check sha256 later token action issued.1
        ≡ record { state = valid; approval = some issued.0.approval }
  unfolding create first
  new_valid token action plausible new has soon =
      let found : first (has_token sha256 token action) issued.1 ≡ some issued.0.approval =
        first-append (has_token sha256 token action) rows (issued.0.approval ∷ [])
        ∙ rw (new, has) in
      (check_valid sha256 later token action issued.1 issued.0.approval).1
        (plausible, found, refl, soon)

  new_missing :
      (token : String) (action : ApprovalAction)
      → first (has_token sha256 token action) rows ≡ none
      → has_token sha256 token action issued.0.approval ≡ false
      → first (has_token sha256 token action) issued.1 ≡ none
  unfolding create first
  new_missing token action new lacks =
      first-append (has_token sha256 token action) rows (issued.0.approval ∷ []) ∙ rw (new, lacks)

  ne_false : {s t : String} → s ≢ t → str_eq s t ≡ false
  ne_false {s} {t} differ = ground (arith, eq_iff s t, differ)

  -- While its time lasts, each link of a new approval acts as that approval: the token for approving
  -- is valid for approving and invalid for cancelling, and the token for cancelling is valid for
  -- cancelling and invalid for approving, as long as both are of a plausible length and the two
  -- tokens' hashes differ from one another and from those of the earlier approvals.
  pub check-create :
      IsPlausible approve_token
      → IsPlausible cancel_token
      → first (has_token sha256 approve_token approve) rows ≡ none
      → first (has_token sha256 approve_token cancel) rows ≡ none
      → first (has_token sha256 cancel_token cancel) rows ≡ none
      → first (has_token sha256 cancel_token approve) rows ≡ none
      → sha256 cancel_token ≢ sha256 approve_token
      → later ≤ now + ttl * minute
      → (check sha256 later approve_token approve issued.1
          ≡ record { state = valid; approval = some issued.0.approval })
        × (check sha256 later approve_token cancel issued.1
            ≡ record { state = invalid; approval = none })
        × (check sha256 later cancel_token cancel issued.1
            ≡ record { state = valid; approval = some issued.0.approval })
        × (check sha256 later cancel_token approve issued.1
            ≡ record { state = invalid; approval = none })
  unfolding create
  check-create plausible plausible' new_approve no_cancel new_cancel no_approve differ soon =
      let different = ne_false differ in
      let different' = ne_false (λ e. differ (sym e)) in
      (
        new_valid approve_token approve plausible new_approve (eq_refl (sha256 approve_token)) soon,
        check_unknown sha256 later approve_token cancel issued.1
            (new_missing approve_token cancel no_cancel different),
        new_valid cancel_token cancel plausible' new_cancel (eq_refl (sha256 cancel_token)) soon,
        check_unknown sha256 later cancel_token approve issued.1
            (new_missing cancel_token approve no_approve different'),
      )
