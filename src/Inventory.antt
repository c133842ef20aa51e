-- ===== src/Inventory.antt =====
-- The arithmetic challenge in front of the Ansible inventory write: src/registry_mcp/models/inventory.py
-- and src/registry_mcp/inventory/store.py, in the style of the deletion gate.
mod Same
mod Tests
use homelab_registry_mcp.Deletion.{minute, is_past}
use homelab_registry_mcp.Prelude.{
  Bool, List, Option, Result, String, err, false, if◌then◌else◌, int_eq, none, not, ok, pos, some,
  true, ℕ, ℤ, ◌*◌, ◌+◌,
}
use homelab_registry_mcp.Table.{add, update, get, sweep, has_key}

pub data PendingInventoryWriteStatus : Type 0 where
  pending confirmed expired failed : PendingInventoryWriteStatus

pub record PendingInventoryWrite : Type 0 where
  pub id : String
  pub node_id : String
  pub node_hostname : String
  pub x : ℕ
  pub y : ℕ
  pub status : PendingInventoryWriteStatus
  pub actor : String
  pub created_at : ℕ
  pub expires_at : ℕ

-- The reasons for which `confirm` raises `InventoryGateError`.
pub data InventoryGateError : Type 0 where
  not_found : String → InventoryGateError
  not_pending : PendingInventoryWriteStatus → InventoryGateError
  challenge_expired : InventoryGateError
  incorrect_answer : ℕ → ℕ → InventoryGateError

abbrev pub is_pending : PendingInventoryWriteStatus → Bool
is_pending pending = true
is_pending _ = false

abbrev pub id_of : PendingInventoryWrite → String
id_of r = r.id

-- `InventoryGateStore.request`
pub request :
    (now : ℕ) (id : String) (x y : ℕ) (node_id node_hostname actor : String) (ttl_minutes : ℕ)
    → List PendingInventoryWrite
    → PendingInventoryWrite × List PendingInventoryWrite
request now id x y node_id node_hostname actor ttl_minutes rows =
    let challenge : PendingInventoryWrite = record {
      id = id;
      node_id = node_id;
      node_hostname = node_hostname;
      x = x;
      y = y;
      status = pending;
      actor = actor;
      created_at = now;
      expires_at = now + ttl_minutes * minute;
    } in
    (challenge, add challenge rows)

abbrev pub set_status :
    PendingInventoryWriteStatus → String → List PendingInventoryWrite → List PendingInventoryWrite
set_status status id = update (has_key id_of id) (λ r. record r { status = status })

-- The body of `confirm` behind its lookup.
pub confirm_found :
    (now : ℕ)
    → String
    → ℤ
    → Option PendingInventoryWrite
    → List PendingInventoryWrite
    → Result InventoryGateError PendingInventoryWrite × List PendingInventoryWrite
confirm_found now request_id answer none rows = (err (not_found request_id), rows)
confirm_found now request_id answer (some c) rows =
    if not (is_pending c.status)
    then (err (not_pending c.status), rows)
    else if is_past now c.expires_at
    then (err challenge_expired, set_status expired request_id rows)
    else if not (int_eq answer (pos (c.x + c.y)))
    then (err (incorrect_answer c.x c.y), set_status failed request_id rows)
    else (ok (record c { status = confirmed }), set_status confirmed request_id rows)

pub confirm :
    (now : ℕ)
    → String
    → ℤ
    → List PendingInventoryWrite
    → Result InventoryGateError PendingInventoryWrite × List PendingInventoryWrite
unfolding confirm_found
confirm now request_id answer rows =
    confirm_found now request_id answer (get id_of request_id rows) rows

-- `purge_expired`, with the count that it returns.
pub purge_expired : (now : ℕ) → List PendingInventoryWrite → List PendingInventoryWrite × ℕ
purge_expired now =
    sweep (λ r. is_pending r.status) (λ r. is_past now r.expires_at)
      (λ r. record r { status = expired })
