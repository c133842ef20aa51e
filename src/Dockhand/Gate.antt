-- ===== src/Dockhand/Gate.antt =====
-- src/registry_mcp/models/dockhand_action.py and src/registry_mcp/integrations/dockhand/gate.py.
-- A method takes the table and the clock's readings, in microseconds. `confirm` reads the row and
-- later runs an UPDATE, so it takes what other connections do to the table in between.
pub mod Confirm
pub mod Race
mod Tests
use homelab_registry_mcp.Prelude.{
  Bool, List, Option, Result, String, [], err, false, if◌then◌else◌, int_eq, ltb, none, not, ok,
  pos, some, true, ℕ, ℤ, ◌&&◌, ◌*◌, ◌+◌, ◌==◌, ◌∷◌,
}
use homelab_registry_mcp.Table.{add, has_key, rowcount, get, update, select}
use mathlib.Core.Logic.{◌↔◌}

pub data PendingDockhandActionStatus : Type 0 where
  pending executing executed failed expired wrong_answer : PendingDockhandActionStatus

-- What the `result` column is printed from: the text itself is cut to one line by `_one_line`.
pub data Summary : Type 0 where
  http_status : ℕ → Summary
  dockhand_failure : Summary
  no_result : Summary

pub record PendingDockhandAction : Type 0 where
  pub id : String
  pub kind : String
  pub environment_id : String
  pub target : String
  pub action : String
  pub pull : Bool
  pub x : ℕ
  pub y : ℕ
  pub status : PendingDockhandActionStatus
  pub actor : String
  pub created_at : ℕ
  pub expires_at : ℕ
  pub resolved_at : Option ℕ
  pub result : Option Summary

-- The reasons for which `confirm` raises `DockhandActionGateError`, with what its message quotes.
pub data DockhandActionGateError : Type 0 where
  not_found : String → DockhandActionGateError
  not_pending : PendingDockhandActionStatus → DockhandActionGateError
  challenge_expired : DockhandActionGateError
  incorrect_answer : ℕ → ℕ → DockhandActionGateError
  already_used : DockhandActionGateError

-- What a caller may pass as the answer: Python's `bool` is an `int` too, and is refused.
pub data Answer : Type 0 where
  integer : ℤ → Answer
  boolean : Bool → Answer
  other : Answer

abbrev pub minute : ℕ
minute = 60000000

abbrev pub is_pending : PendingDockhandActionStatus → Bool
is_pending pending = true
is_pending _ = false

abbrev pub is_executing : PendingDockhandActionStatus → Bool
is_executing executing = true
is_executing _ = false

abbrev pub is_past : ℕ → ℕ → Bool
is_past now expires_at = ltb expires_at now

abbrev pub id_of : PendingDockhandAction → String
id_of r = r.id

-- `DockhandActionGateStore.request`.
unfoldable pub request :
    (now : ℕ) (id : String) (x y : ℕ) (kind environment_id target action actor : String)
    (ttl_minutes : ℕ) (pull : Bool)
    → List PendingDockhandAction
    → PendingDockhandAction × List PendingDockhandAction
request now id x y kind environment_id target action actor ttl_minutes pull rows =
    let row : PendingDockhandAction = record {
      id = id;
      kind = kind;
      environment_id = environment_id;
      target = target;
      action = action;
      pull = pull;
      x = x;
      y = y;
      status = pending;
      actor = actor;
      created_at = now;
      expires_at = now + ttl_minutes * minute;
      resolved_at = none;
      result = none;
    } in
    (row, add row rows)

-- The condition of the UPDATE in `_resolve`.
abbrev pub resolvable : ℕ → String → Bool → PendingDockhandAction → Bool
resolvable now request_id only_if_unexpired r =
    has_key id_of request_id r
    && (is_pending r.status && (if only_if_unexpired then ltb now r.expires_at else true))

abbrev pub resolve_row :
    ℕ → PendingDockhandActionStatus → Option Summary → PendingDockhandAction → PendingDockhandAction
resolve_row now status result r = record r {
  status = status;
  resolved_at = some now;
  result = result;
}

-- `_resolve`: whether this call moved the row, and the table.
unfoldable pub resolve :
    (now : ℕ)
    → String
    → PendingDockhandActionStatus
    → (only_if_unexpired : Bool) → Option Summary
    → List PendingDockhandAction
    → Bool × List PendingDockhandAction
resolve now request_id status only_if_unexpired result rows = (
  rowcount (resolvable now request_id only_if_unexpired) rows == 1,
  update (resolvable now request_id only_if_unexpired) (resolve_row now status result) rows,
)

abbrev pub answers : Answer → ℕ → Bool
answers (integer n) sum = int_eq n (pos sum)
answers (boolean b) sum = false
answers other sum = false

-- The end of `confirm`, once the answer is right: claim the row, and read it back.
pub claim :
    (now : ℕ)
    → String
    → List PendingDockhandAction
    → Result DockhandActionGateError (Option PendingDockhandAction) × List PendingDockhandAction
unfolding resolve
claim now request_id rows =
    let (claimed, rows') = resolve now request_id executing true none rows in
    if not claimed then (err already_used, rows') else (ok (get id_of request_id rows'), rows')

pub confirm_found :
    (now now' : ℕ)
    → String
    → Answer
    → Option PendingDockhandAction
    → List PendingDockhandAction
    → Result DockhandActionGateError (Option PendingDockhandAction) × List PendingDockhandAction
unfolding claim resolve
confirm_found now now' request_id answer none rows = (err (not_found request_id), rows)
confirm_found now now' request_id answer (some row) rows =
    if not (is_pending row.status)
    then (err (not_pending row.status), rows)
    else if is_past now row.expires_at
    then (err challenge_expired, (resolve now' request_id expired false none rows).1)
    else if not (answers answer (row.x + row.y))
    then (
      err (incorrect_answer row.x row.y),
      (resolve now' request_id wrong_answer false none rows).1,
    )
    else claim now' request_id rows

-- `confirm`: it reads the row at `now`, other connections do `meanwhile`, and it writes at `now'`.
unfoldable pub confirm :
    (now now' : ℕ)
    → String
    → Answer
    → (meanwhile : List PendingDockhandAction → List PendingDockhandAction)
    → List PendingDockhandAction
    → Result DockhandActionGateError (Option PendingDockhandAction) × List PendingDockhandAction
unfolding confirm_found
confirm now now' request_id answer meanwhile rows =
    confirm_found now now' request_id answer (get id_of request_id rows) (meanwhile rows)

-- `finish`.
pub finish :
    (now : ℕ)
    → String
    → (ok : Bool) → (summary : Summary) → List PendingDockhandAction
    → List PendingDockhandAction
finish now request_id succeeded summary =
    update (λ r. has_key id_of request_id r && is_executing r.status)
      (resolve_row now (if succeeded then executed else failed) (some summary))

-- The loop of `purge_expired`: each selected row has its own UPDATE.
pub purge_rows :
    (now now' : ℕ)
    → List PendingDockhandAction
    → List PendingDockhandAction
    → List PendingDockhandAction × ℕ
unfolding resolve
purge_rows now now' [] rows = (rows, 0)
purge_rows now now' (r ∷ selected) rows =
    let (moved, rows') = resolve now' r.id expired false none rows in
    let overdue = is_past now r.expires_at in
    let (rows'', n) = purge_rows now now' selected (if overdue then rows' else rows) in
    (rows'', (if overdue && moved then 1 else 0) + n)

pub purge_expired : (now now' : ℕ) → List PendingDockhandAction → List PendingDockhandAction × ℕ
unfolding purge_rows
purge_expired now now' rows = purge_rows now now' (select (λ r. is_pending r.status) rows) rows
