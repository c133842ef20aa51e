-- ===== src/Patching/Store/Race.antt =====
-- Interleavings of clicks, sweeps, alerts and outcomes. `Statement` is one session of one of the
-- methods, and a list of them is an order in which SQLite runs the sessions of any number of callers.
use homelab_registry_mcp.Table.Unique
use homelab_registry_mcp.Table.Budget
use homelab_registry_mcp.Prelude.{
  Bool, Bool-cases, List, Option, Option-cases, String, [], arith, eq_iff, eq_refl, false,
  if◌then◌else◌, inl, inr, is_some, ltb, or_else, refl, some, str_eq, ℕ, ◌&&◌, ◌+◌, ◌∷◌, ◌≡◌, ◌≤◌,
}
use homelab_registry_mcp.Patching.Store.{
  ApprovalAction, PatchApproval, PatchApprovalStatus, Rows, approve, cancel, claim, claim_row,
  claimable, expire, expired, id_of, is_past, is_pending, purge_expired, record_outcome, target_of,
  Detail,
}
use homelab_registry_mcp.Table.{get, Unique, add, has_key}
use homelab_registry_mcp.Table.Laws.{first-update, first-test}

pub data Statement : Type 0 where
  -- the INSERT of `create`
  insert_row : PatchApproval → Statement
  -- the UPDATE of `consume`
  claim_row_for : ℕ → String → ApprovalAction → Statement
  expire_row : String → Statement
  -- `record_outcome`, which no caller gives `pending`
  outcome :
      ℕ
      → String
      → (s : PatchApprovalStatus) → is_pending s ≡ false
      → Option String
      → Option Detail
      → Statement
  purge : ℕ → Statement

-- A second row with an id is refused by SQLite, and nothing is written.
unfoldable pub run_statement : Statement → Rows → Rows
run_statement (insert_row r) rows = if is_some (get id_of r.id rows) then rows else add r rows
run_statement (claim_row_for now rid action) rows = (claim now rid action rows).1
run_statement (expire_row rid) rows = expire rid rows
run_statement (outcome now rid s ends via detail) rows = record_outcome now rid s via detail rows
run_statement (purge now) rows = (purge_expired now rows).0

unfoldable pub run_all : List Statement → Rows → Rows
run_all [] rows = rows
run_all (s ∷ statements) rows = run_all statements (run_statement s rows)

-- How many rows of this id a click has moved off `pending`.
unfoldable pub wins : String → Statement → Rows → ℕ
wins k (claim_row_for now rid action) rows =
    if str_eq rid k then (claim now rid action rows).0 else 0
wins k _ rows = 0

unfoldable pub wins_all : String → List Statement → Rows → ℕ
wins_all k [] rows = 0
wins_all k (s ∷ statements) rows = wins k s rows + wins_all k statements (run_statement s rows)

abbrev still_open : PatchApproval → Bool
still_open r = is_pending r.status

abbrev left : String → Rows → ℕ
left = Budget.left id_of still_open

run_statement-Unique :
    (s : Statement) (rows : Rows) → Unique id_of rows → Unique id_of (run_statement s rows)
unfolding run_statement claim expire record_outcome purge_expired
run_statement-Unique (insert_row r) rows u = elim (Option-cases (get id_of r.id rows)) [
  | inl new ↦ rw new (Unique.Unique-add id_of r rows new u)
  | inr (old, e) ↦ rw e u
]
run_statement-Unique (claim_row_for now rid action) rows u =
    Unique.Unique-update id_of _ (claim_row now action) rows (λ r. refl) u
run_statement-Unique (expire_row rid) rows u =
    Unique.Unique-update id_of _ (λ r. record r { status = expired }) rows (λ r. refl) u
run_statement-Unique (outcome now rid s ends via detail) rows u =
    Unique.Unique-update id_of _ _ rows (λ r. refl) u
run_statement-Unique (purge now) rows u =
    Unique.Unique-sweep id_of (λ r. is_pending r.status) (λ r. is_past now r.expires_at)
      (λ r. record r { status = expired }) rows (λ r. refl) u

pub run_all-Unique :
    (statements : List Statement) (rows : Rows)
    → Unique id_of rows
    → Unique id_of (run_all statements rows)
unfolding run_all
run_all-Unique [] rows u = u
run_all-Unique (s ∷ statements) rows u =
    run_all-Unique statements (run_statement s rows) (run_statement-Unique s rows u)

-- A click shuts the row.
target_of-shut : (action : ApprovalAction) → is_pending (target_of action) ≡ false
target_of-shut approve = refl
target_of-shut cancel = refl

module _ (k : String) where
  claim-left_self :
      (now : ℕ) (action : ApprovalAction) (rows : Rows)
      → Unique id_of rows
      → (claim now k action rows).0 + left k (claim now k action rows).1 ≤ left k rows
  unfolding claim
  claim-left_self now action rows u =
      rw (Unique.rowcount-get id_of k (λ r. is_pending r.status && ltb now r.expires_at) rows u) (
        rw
          (first-update (has_key id_of k) (claimable now k) (claim_row now action) rows (λ r. refl))
          (elim (Option-cases (get id_of k rows)) [
            | inl e ↦ rw e (ground arith)
            | inr (c, e) ↦
                rw e (ground (arith, first-test (has_key id_of k) rows e, target_of-shut action))
          ]))

  claim-left :
      (now : ℕ) (rid : String) (action : ApprovalAction) (rows : Rows)
      → left k (claim now rid action rows).1 ≤ left k rows
  unfolding claim
  claim-left now rid action rows =
      Budget.left-update id_of still_open k (claimable now rid) (claim_row now action) rows
        (λ r. refl) (λ r _. target_of-shut action)

  run_statement-left :
      (s : Statement) (rows : Rows)
      → Unique id_of rows
      → wins k s rows + left k (run_statement s rows) ≤ left k rows
  unfolding wins run_statement expire record_outcome purge_expired
  run_statement-left (insert_row r) rows u =
      ground (arith, Budget.left-add id_of still_open k r rows)
  run_statement-left (claim_row_for now rid action) rows u = elim (Bool-cases (str_eq rid k)) [
    | inl is_k ↦ rw ((eq_iff rid k).0 is_k, eq_refl k) (claim-left_self now action rows u)
    | inr apart ↦ rw apart (omega (arith, claim-left now rid action rows))
  ]
  run_statement-left (expire_row rid) rows u = omega (
    arith,
    Budget.left-update id_of still_open k (λ r. has_key id_of rid r && is_pending r.status)
        (λ r. record r { status = expired }) rows (λ r. refl) (λ r _. refl),
  )
  run_statement-left (outcome now rid s ends via detail) rows u = omega (
    arith,
    Budget.left-update id_of still_open k (has_key id_of rid)
        (λ r. record r {
          status = s;
          executed_via = via;
          detail = detail;
          resolved_at = or_else r.resolved_at (some now);
        })
        rows (λ r. refl) (λ r _. ends),
  )
  run_statement-left (purge now) rows u = omega (
    arith,
    Budget.left-sweep id_of still_open k (λ r. is_pending r.status) (λ r. is_past now r.expires_at)
        (λ r. record r { status = expired }) rows (λ r. refl) (λ r _. refl),
  )

  pub wins_all-left :
      (statements : List Statement) (rows : Rows)
      → Unique id_of rows
      → wins_all k statements rows + left k (run_all statements rows) ≤ left k rows
  unfolding wins_all run_all
  wins_all-left [] rows u = omega arith
  wins_all-left (s ∷ statements) rows u = omega (
    arith,
    run_statement-left s rows u,
    wins_all-left statements (run_statement s rows) (run_statement-Unique s rows u),
  )

-- On a table of approvals with different ids: however clicks on both links, sweeps, new alerts and
-- outcomes are ordered, at most one click moves the approval of one id, so it is approved once or
-- cancelled once, and never both.
pub wins_all-le-one :
    (k : String) (statements : List Statement) (rows : Rows)
    → Unique id_of rows
    → wins_all k statements rows ≤ 1
wins_all-le-one k statements rows u = omega (
  arith,
  wins_all-left k statements rows u,
  Budget.left_of-le-one id_of still_open (get id_of k rows),
)

-- Once a click has moved an approval, no later click moves it.
pub claim_after_win :
    (now : ℕ) (k : String) (action : ApprovalAction) (statements : List Statement) (rows : Rows)
    → Unique id_of rows
    → wins_all k statements rows ≡ 1
    → (claim now k action (run_all statements rows)).0 ≡ 0
claim_after_win now k action statements rows u won = omega (
  arith,
  wins_all-left k statements rows u,
  Budget.left_of-le-one id_of still_open (get id_of k rows),
  claim-left_self k now action (run_all statements rows) (run_all-Unique statements rows u),
)
