-- ===== src/Dockhand/Gate/Race.antt =====
-- Interleavings. Each method issues statements that are atomic by themselves, and any number of
-- connections may issue them in any order; `Statement` is one of them, and the lists are the
-- orders in which SQLite runs them.
use homelab_registry_mcp.Table.Unique
use homelab_registry_mcp.Table.Budget
use homelab_registry_mcp.Prelude.{
  Bool, Bool-cases, List, Option, Option-cases, String, [], arith, false, if◌then◌else◌, inl, inr,
  is_some, refl, str_eq, ℕ, ◌+◌, ◌∷◌, ◌≡◌, ◌≤◌, Result, eq_iff, eq_refl, err, none, ok, true, some,
}
use homelab_registry_mcp.Dockhand.Gate.{
  PendingDockhandAction, PendingDockhandActionStatus, finish, id_of, is_pending, resolve,
  resolve_row, Answer, confirm, confirm_found, executing, resolvable, Summary,
}
use homelab_registry_mcp.Table.{get, Unique, add, has_key}
use homelab_registry_mcp.Dockhand.Gate.Confirm.{resolve-moved, get-resolve}
use homelab_registry_mcp.Table.Laws.{first-test}

pub data Statement : Type 0 where
  -- the INSERT of `request`
  insert_row : PendingDockhandAction → Statement
  -- an UPDATE of `_resolve`; no caller resolves a row to `pending`
  resolve_row_to :
      ℕ
      → String
      → (s : PendingDockhandActionStatus) → is_pending s ≡ false
      → Bool
      → Option Summary
      → Statement
  -- the UPDATE of `finish`
  finish_row : ℕ → String → Bool → Summary → Statement

-- A second row with a key is refused by SQLite, and nothing is written.
unfoldable pub run_statement : Statement → List PendingDockhandAction → List PendingDockhandAction
run_statement (insert_row r) rows = if is_some (get id_of r.id rows) then rows else add r rows
run_statement (resolve_row_to now rid s shut unexpired result) rows =
    (resolve now rid s unexpired result rows).1
run_statement (finish_row now rid succeeded summary) rows = finish now rid succeeded summary rows

unfoldable pub run_all : List Statement → List PendingDockhandAction → List PendingDockhandAction
run_all [] rows = rows
run_all (s ∷ statements) rows = run_all statements (run_statement s rows)

-- 1 if the statement is a `_resolve` of this id that returns True.
unfoldable pub moves : String → Statement → List PendingDockhandAction → ℕ
moves k (resolve_row_to now rid s shut unexpired result) rows =
    if str_eq rid k then if (resolve now rid s unexpired result rows).0 then 1 else 0 else 0
moves k _ rows = 0

unfoldable pub moves_all : String → List Statement → List PendingDockhandAction → ℕ
moves_all k [] rows = 0
moves_all k (s ∷ statements) rows = moves k s rows + moves_all k statements (run_statement s rows)

abbrev still_open : PendingDockhandAction → Bool
still_open r = is_pending r.status

abbrev left : String → List PendingDockhandAction → ℕ
left = Budget.left id_of still_open

run_statement-Unique :
    (s : Statement) (rows : List PendingDockhandAction)
    → Unique id_of rows
    → Unique id_of (run_statement s rows)
unfolding run_statement resolve finish
run_statement-Unique (insert_row r) rows u = elim (Option-cases (get id_of r.id rows)) [
  | inl new ↦ rw new (Unique.Unique-add id_of r rows new u)
  | inr (old, e) ↦ rw e u
]
run_statement-Unique (resolve_row_to now rid s shut unexpired result) rows u =
    Unique.Unique-update id_of _ (resolve_row now s result) rows (λ r. refl) u
run_statement-Unique (finish_row now rid succeeded summary) rows u =
    Unique.Unique-update id_of _ (resolve_row now _ _) rows (λ r. refl) u

module _ (k : String) where
  resolve-left_self :
      (now : ℕ) (s : PendingDockhandActionStatus) (unexpired : Bool) (result : Option Summary)
      (rows : List PendingDockhandAction)
      → Unique id_of rows
      → is_pending s ≡ false
      → (if (resolve now k s unexpired result rows).0 then 1 else 0)
          + left k (resolve now k s unexpired result rows).1
        ≤ left k rows
  resolve-left_self now s unexpired result rows u shut =
      rw (resolve-moved now k s unexpired result rows u) (
        rw (get-resolve now k k s unexpired result rows) (elim (Option-cases (get id_of k rows)) [
          | inl e ↦ rw e (ground arith)
          | inr (c, e) ↦ rw (e) (ground (arith, first-test (has_key id_of k) rows e))
        ]))

  resolve-left :
      (now : ℕ) (rid : String) (s : PendingDockhandActionStatus) (unexpired : Bool)
      (result : Option Summary) (rows : List PendingDockhandAction)
      → is_pending s ≡ false
      → left k (resolve now rid s unexpired result rows).1 ≤ left k rows
  unfolding resolve
  resolve-left now rid s unexpired result rows shut =
      Budget.left-update id_of still_open k (resolvable now rid unexpired)
        (resolve_row now s result) rows (λ r. refl) (λ r _. shut)

  finish-left :
      (now : ℕ) (rid : String) (succeeded : Bool) (summary : Summary)
      (rows : List PendingDockhandAction)
      → left k (finish now rid succeeded summary rows) ≤ left k rows
  unfolding finish
  finish-left now rid succeeded summary rows =
      Budget.left-update id_of still_open k _ (resolve_row now _ _) rows (λ r. refl)
        (λ r _. elim (Bool-cases succeeded) [ inl e ↦ rw e | inr e ↦ rw e ])

  run_statement-left :
      (s : Statement) (rows : List PendingDockhandAction)
      → Unique id_of rows
      → moves k s rows + left k (run_statement s rows) ≤ left k rows
  unfolding moves run_statement
  run_statement-left (insert_row r) rows u =
      ground (arith, Budget.left-add id_of still_open k r rows)
  run_statement-left (resolve_row_to now rid s shut unexpired result) rows u =
      elim (Bool-cases (str_eq rid k)) [
        | inl same ↦
            rw ((eq_iff rid k).0 same, eq_refl k)
              (resolve-left_self now s unexpired result rows u shut)
        | inr apart ↦ rw apart (omega (arith, resolve-left now rid s unexpired result rows shut))
      ]
  run_statement-left (finish_row now rid succeeded summary) rows u =
      omega (arith, finish-left now rid succeeded summary rows)

  moves_all-left :
      (statements : List Statement) (rows : List PendingDockhandAction)
      → Unique id_of rows
      → moves_all k statements rows + left k (run_all statements rows) ≤ left k rows
  unfolding moves_all run_all
  moves_all-left [] rows u = omega arith
  moves_all-left (s ∷ statements) rows u = omega (
    arith,
    run_statement-left s rows u,
    moves_all-left statements (run_statement s rows) (run_statement-Unique s rows u),
  )

-- On a table of actions with different ids: however the statements of any number of callers are
-- ordered, at most one of them moves the row of one id off `pending`: it is claimed, expired or
-- failed once.
pub moves_all-le-one :
    (k : String) (statements : List Statement) (rows : List PendingDockhandAction)
    → Unique id_of rows
    → moves_all k statements rows ≤ 1
moves_all-le-one k statements rows u = omega (
  arith,
  moves_all-left k statements rows u,
  Budget.left_of-le-one id_of still_open (get id_of k rows),
)

run_all-Unique :
    (statements : List Statement) (rows : List PendingDockhandAction)
    → Unique id_of rows
    → Unique id_of (run_all statements rows)
unfolding run_all
run_all-Unique [] rows u = u
run_all-Unique (s ∷ statements) rows u =
    run_all-Unique statements (run_statement s rows) (run_statement-Unique s rows u)

abbrev pub is_ok {ℓ κ} : {E : Type κ} {A : Type ℓ} → Result E A → Bool
is_ok (ok a) = true
is_ok (err e) = false

-- An accepted `confirm` is one whose own claim moved the row.
confirm_found-moved :
    (now now' : ℕ) (rid : String) (answer : Answer) (found : Option PendingDockhandAction)
    (rows : List PendingDockhandAction)
    → is_ok (confirm_found now now' rid answer found rows).0 ≡ true
    → (resolve now' rid executing true none rows).0 ≡ true
unfolding confirm_found
confirm_found-moved now now' rid answer none rows h = cc
confirm_found-moved now now' rid answer (some row) rows h = ground arith

-- Two confirms of one challenge cannot both win: on a table of actions with different ids, if
-- between the read and the UPDATE of this one the other callers' statements include one that moves
-- its row off `pending`, this one raises.
pub confirm_loses_race :
    (now now' : ℕ) (rid : String) (answer : Answer) (statements : List Statement)
    (rows : List PendingDockhandAction)
    → Unique id_of rows
    → moves_all rid statements rows ≡ 1
    → is_ok (confirm now now' rid answer (run_all statements) rows).0 ≡ false
unfolding confirm
confirm_loses_race now now' rid answer statements rows u won =
    elim (Bool-cases (is_ok (confirm now now' rid answer (run_all statements) rows).0)) [
      | inr lost ↦ lost
      | inl again ↦
          let moved =
            confirm_found-moved now now' rid answer (get id_of rid rows) (run_all statements rows)
              again in
          absurd (
            ground (
              arith,
              moved,
              won,
              moves_all-left rid statements rows u,
              Budget.left_of-le-one id_of still_open (get id_of rid rows),
              resolve-left_self rid now' executing true none (run_all statements rows)
                  (run_all-Unique statements rows u) refl,
            ))
    ]
