-- ===== src/Dockhand/Gate/Confirm.antt =====
-- What `confirm` accepts when nothing else writes between its read and its UPDATE, and what an
-- accepted action is.
use mathlib.Core.Option
use homelab_registry_mcp.Table.Unique
use homelab_registry_mcp.Prelude.{
  Bool, List, Option, String, ap, arith, if◌then◌else◌, int_eq_iff, ltb, none, ok, pos, refl, some,
  true, ℕ, ◌&&◌, ◌+◌, ◌<◌, ◌==◌, ◌↔◌, ◌≡◌, ◌≤◌, err,
}
use homelab_registry_mcp.Dockhand.Gate.{
  Answer, PendingDockhandAction, PendingDockhandActionStatus, answers, boolean, claim,
  confirm_found, executing, id_of, integer, is_pending, other, pending, resolvable, resolve,
  resolve_row, already_used, confirm, Summary, executed, failed, finish, is_executing,
}
use homelab_registry_mcp.Table.{get, Unique, has_key}
use homelab_registry_mcp.Table.Laws.{first-update, first-test}
use mathlib.Core.Logic.{◌↔◌}

-- What a caller must get right: the row is open when it is read, and still unexpired when it is
-- written, and the answer is the sum, as an integer.
pub record Claims (now now' : ℕ) (answer : Answer) (row : PendingDockhandAction) : Type 0 where
  pub open_still : row.status ≡ pending
  pub read_in_time : now ≤ row.expires_at
  pub written_in_time : now' < row.expires_at
  pub sum : answer ≡ integer (pos (row.x + row.y))

answers_iff :
    (answer : Answer) (sum : ℕ) → (answers answer sum ≡ true) ↔ (answer ≡ integer (pos sum))
answers_iff (integer n) sum = ground (arith, int_eq_iff n (pos sum))
answers_iff (boolean b) sum = (λ h. cc, λ h. cc)
answers_iff other sum = (λ h. cc, λ h. cc)

-- The row that the UPDATE of `_resolve` leaves under an id.
pub get-resolve :
    (now : ℕ) (k rid : String) (s : PendingDockhandActionStatus) (unexpired : Bool)
    (result : Option Summary) (rows : List PendingDockhandAction)
    → get id_of k (resolve now rid s unexpired result rows).1
      ≡ Option.map
          (λ r. if resolvable now rid unexpired r then resolve_row now s result r else r)
          (get id_of k rows)
unfolding resolve
get-resolve now k rid s unexpired result rows =
    first-update (has_key id_of k) (resolvable now rid unexpired) (resolve_row now s result) rows
      (λ r. refl)

-- An UPDATE by key moves a row exactly if the row of that key meets its condition.
pub resolve-moved :
    (now : ℕ) (rid : String) (s : PendingDockhandActionStatus) (unexpired : Bool)
    (result : Option Summary) (rows : List PendingDockhandAction)
    → Unique id_of rows
    → (resolve now rid s unexpired result rows).0 ≡ (
        Unique.hits
          (λ r. is_pending r.status && (if unexpired then ltb now r.expires_at else true))
          (get id_of rid rows)
        == 1)
unfolding resolve
resolve-moved now rid s unexpired result rows u =
    ap (λ n. n == 1)
      (Unique.rowcount-get id_of rid
        (λ r. is_pending r.status && (if unexpired then ltb now r.expires_at else true)) rows u)

-- The UPDATE of the claim tests the time again.
claim_lem :
    (now : ℕ) (rid : String) (row : PendingDockhandAction) (rows : List PendingDockhandAction)
    → Unique id_of rows
    → get id_of rid rows ≡ some row
    → is_pending row.status ≡ true
    → (claim now rid rows).0 ≡ (
        if ltb now row.expires_at
        then ok (some (resolve_row now executing none row))
        else err already_used)
unfolding claim
claim_lem now rid row rows u e open_still = rw (resolve-moved now rid executing true none rows u) (
    rw (get-resolve now rid rid executing true none rows)
      (rw (e, open_still, first-test (has_key id_of rid) rows e) (ground arith)))

module _ (now now' : ℕ) (rid : String) (answer : Answer) where
  confirm_found-Claims :
      (found : Option PendingDockhandAction) (rows : List PendingDockhandAction)
      (out : Option PendingDockhandAction)
      → Unique id_of rows
      → get id_of rid rows ≡ found
      → ((confirm_found now now' rid answer found rows).0 ≡ ok out) ↔ (
          (row : PendingDockhandAction) × (found ≡ some row)
          × Claims now now' answer row
          × (out ≡ some (resolve_row now' executing none row)))
  unfolding confirm_found claim
  confirm_found-Claims none rows out u e = (λ h. cc, λ h. cc (h.1))
  confirm_found-Claims (some row) rows out u e = (
    λ h. (
      row,
      refl,
      ground (arith, claim_lem now' rid row rows u e, answers_iff answer (row.x + row.y)),
      ground (arith, claim_lem now' rid row rows u e),
    ),
    λ h. ground (arith, claim_lem now' rid row rows u e, answers_iff answer (row.x + row.y)),
  )

  pub confirm-Claims :
      (rows : List PendingDockhandAction) (out : Option PendingDockhandAction)
      → Unique id_of rows
      → ((confirm now now' rid answer (λ t. t) rows).0 ≡ ok out) ↔ (
          (row : PendingDockhandAction) × (get id_of rid rows ≡ some row)
          × Claims now now' answer row
          × (out ≡ some (resolve_row now' executing none row)))
  unfolding confirm
  confirm-Claims rows out u = confirm_found-Claims (get id_of rid rows) rows out u refl

-- What an accepted `confirm` returns is the row as the table now has it.
confirm_found-stores :
    (now now' : ℕ) (rid : String) (answer : Answer) (found : Option PendingDockhandAction)
    (rows : List PendingDockhandAction) {out : Option PendingDockhandAction}
    → (confirm_found now now' rid answer found rows).0 ≡ ok out
    → get id_of rid (confirm_found now now' rid answer found rows).1 ≡ out
unfolding confirm_found claim
confirm_found-stores now now' rid answer none rows h = cc
confirm_found-stores now now' rid answer (some row) rows h = ground arith

pub confirm-stores :
    (now now' : ℕ) (rid : String) (answer : Answer)
    (meanwhile : List PendingDockhandAction → List PendingDockhandAction)
    (rows : List PendingDockhandAction) {out : Option PendingDockhandAction}
    → (confirm now now' rid answer meanwhile rows).0 ≡ ok out
    → get id_of rid (confirm now now' rid answer meanwhile rows).1 ≡ out
unfolding confirm
confirm-stores now now' rid answer meanwhile rows h =
    confirm_found-stores now now' rid answer (get id_of rid rows) (meanwhile rows) h

-- `finish` ends a row that is being executed.
pub get-finish :
    (now : ℕ) (rid : String) (succeeded : Bool) (summary : Summary) (row : PendingDockhandAction)
    (rows : List PendingDockhandAction)
    → get id_of rid rows ≡ some row
    → row.status ≡ executing
    → get id_of rid (finish now rid succeeded summary rows)
      ≡ some (resolve_row now (if succeeded then executed else failed) (some summary) row)
unfolding finish
get-finish now rid succeeded summary row rows found running =
    rw
      (first-update (has_key id_of rid) (λ r. has_key id_of rid r && is_executing r.status)
        (resolve_row now (if succeeded then executed else failed) (some summary)) rows (λ r. refl))
      (rw (found, first-test (has_key id_of rid) rows found, running))
