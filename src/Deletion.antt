-- ===== src/Deletion.antt =====
-- The arithmetic challenge in front of every hard delete: src/registry_mcp/models/deletion.py and
-- src/registry_mcp/deletion/store.py. A method takes the table, and the clock, the numbers and the
-- id that the source draws; it returns its result beside the new table. Time is in microseconds.
mod Confirm
mod Once
mod Purge
mod Tests
use homelab_registry_mcp.Prelude.{
  ℕ, ◌+◌, ◌*◌, String, Bool, true, false, not, Option, none, some, List, ℤ, pos, int_eq, ltb,
  if◌then◌else◌, Result, ok, err,
}
use homelab_registry_mcp.Table.{update, sweep, add, get, has_key}

pub data DeletionEntityType : Type 0 where
  service hardware_node : DeletionEntityType

pub data PendingDeletionStatus : Type 0 where
  pending confirmed expired failed : PendingDeletionStatus

pub record PendingDeletion : Type 0 where
  pub id : String
  pub entity_type : DeletionEntityType
  pub entity_id : String
  pub entity_label : String
  pub x : ℕ
  pub y : ℕ
  pub status : PendingDeletionStatus
  pub actor : String
  pub created_at : ℕ
  pub expires_at : ℕ

-- The reasons for which `confirm` raises `DeletionGateError`, with what its message quotes.
pub data DeletionGateError : Type 0 where
  not_found : String → DeletionGateError
  other_tool : String → DeletionGateError
  not_pending : PendingDeletionStatus → DeletionGateError
  challenge_expired : DeletionGateError
  incorrect_answer : ℕ → ℕ → DeletionGateError

abbrev pub minute : ℕ
minute = 60000000

abbrev pub same_entity_type : DeletionEntityType → DeletionEntityType → Bool
same_entity_type service service = true
same_entity_type hardware_node hardware_node = true
same_entity_type _ _ = false

abbrev pub is_pending : PendingDeletionStatus → Bool
is_pending pending = true
is_pending _ = false

-- `expires_at < now`. Both sides are UTC, whether or not the row's value has kept its zone.
abbrev pub is_past : ℕ → ℕ → Bool
is_past now expires_at = ltb expires_at now

-- `DeletionGateStore.request`, with the new row's id and the two random digits.
pub request :
    (now : ℕ) (id : String) (x y : ℕ)
    → DeletionEntityType
    → (entity_id entity_label actor : String) (ttl_minutes : ℕ) → List PendingDeletion
    → PendingDeletion × List PendingDeletion
request now id x y entity_type entity_id entity_label actor ttl_minutes rows =
    let challenge : PendingDeletion = record {
      id = id;
      entity_type = entity_type;
      entity_id = entity_id;
      entity_label = entity_label;
      x = x;
      y = y;
      status = pending;
      actor = actor;
      created_at = now;
      expires_at = now + ttl_minutes * minute;
    } in
    (challenge, add challenge rows)

-- The challenge's row, written back with another status.
abbrev pub set_status : PendingDeletionStatus → String → List PendingDeletion → List PendingDeletion
set_status status id = update (has_key (λ r. r.id) id) (λ r. record r { status = status })

-- The body of `confirm` behind its lookup.
unfoldable pub confirm_found :
    (now : ℕ)
    → String
    → DeletionEntityType
    → ℤ
    → Option PendingDeletion
    → List PendingDeletion
    → Result DeletionGateError PendingDeletion × List PendingDeletion
confirm_found now request_id entity_type answer none rows = (err (not_found request_id), rows)
confirm_found now request_id entity_type answer (some c) rows =
    if not (same_entity_type c.entity_type entity_type)
    then (err (other_tool request_id), rows)
    else if not (is_pending c.status)
    then (err (not_pending c.status), rows)
    else if is_past now c.expires_at
    then (err challenge_expired, set_status expired request_id rows)
    else if not (int_eq answer (pos (c.x + c.y)))
    then (err (incorrect_answer c.x c.y), set_status failed request_id rows)
    else (ok (record c { status = confirmed }), set_status confirmed request_id rows)

unfoldable pub confirm :
    (now : ℕ)
    → String
    → DeletionEntityType
    → ℤ
    → List PendingDeletion
    → Result DeletionGateError PendingDeletion × List PendingDeletion
unfolding confirm_found
confirm now request_id entity_type answer rows =
    confirm_found now request_id entity_type answer (get (λ r. r.id) request_id rows) rows

-- `purge_expired`, with the count that it returns.
pub purge_expired : (now : ℕ) → List PendingDeletion → List PendingDeletion × ℕ
purge_expired now =
    sweep (λ r. is_pending r.status) (λ r. is_past now r.expires_at)
      (λ r. record r { status = expired })
