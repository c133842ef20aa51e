-- ===== src/Inventory/Same.antt =====
-- The inventory gate beside the deletion gate: an inventory challenge read as a deletion challenge
-- of one entity type.
use mathlib.Core.Option
use homelab_registry_mcp.Deletion
use homelab_registry_mcp.Deletion.{
  PendingDeletion, PendingDeletionStatus, DeletionGateError, DeletionEntityType, service,
}
use homelab_registry_mcp.Prelude.{
  List, Option, Result, String, arith, err, map, none, ok, refl, some, ℕ, ℤ, ◌≡◌,
}
use homelab_registry_mcp.Inventory.{
  InventoryGateError, PendingInventoryWrite, PendingInventoryWriteStatus, challenge_expired,
  confirm, confirm_found, confirmed, expired, failed, id_of, incorrect_answer, is_pending,
  not_found, not_pending, pending, set_status,
}
use homelab_registry_mcp.Table.Laws.{update-map, first-map}
use homelab_registry_mcp.Table.{has_key, get}

abbrev pub as_status : PendingInventoryWriteStatus → PendingDeletionStatus
as_status pending = PendingDeletionStatus.pending
as_status confirmed = PendingDeletionStatus.confirmed
as_status expired = PendingDeletionStatus.expired
as_status failed = PendingDeletionStatus.failed

abbrev pub as_deletion : PendingInventoryWrite → PendingDeletion
as_deletion r = record {
  id = r.id;
  entity_type = service;
  entity_id = r.node_id;
  entity_label = r.node_hostname;
  x = r.x;
  y = r.y;
  status = as_status r.status;
  actor = r.actor;
  created_at = r.created_at;
  expires_at = r.expires_at;
}

abbrev pub as_error : InventoryGateError → DeletionGateError
as_error (not_found k) = DeletionGateError.not_found k
as_error (not_pending s) = DeletionGateError.not_pending (as_status s)
as_error challenge_expired = DeletionGateError.challenge_expired
as_error (incorrect_answer x y) = DeletionGateError.incorrect_answer x y

abbrev pub as_result :
    Result InventoryGateError PendingInventoryWrite → Result DeletionGateError PendingDeletion
as_result (ok r) = ok (as_deletion r)
as_result (err e) = err (as_error e)

is_pending-as_status :
    (s : PendingInventoryWriteStatus) → Deletion.is_pending (as_status s) ≡ is_pending s
is_pending-as_status pending = refl
is_pending-as_status confirmed = refl
is_pending-as_status expired = refl
is_pending-as_status failed = refl

set_status-as_deletion :
    (s : PendingInventoryWriteStatus) (k : String) (rows : List PendingInventoryWrite)
    → Deletion.set_status (as_status s) k (map as_deletion rows)
      ≡ map as_deletion (set_status s k rows)
set_status-as_deletion s k rows =
    update-map as_deletion (has_key id_of k) (has_key (λ r. r.id) k) (λ r. record r { status = s })
      (λ r. record r { status = as_status s }) rows (λ r. refl) (λ r. refl)

confirm_found-as_deletion :
    (now : ℕ) (k : String) (answer : ℤ) (found : Option PendingInventoryWrite)
    (rows : List PendingInventoryWrite)
    → Deletion.confirm_found now k service answer
        (Option.map as_deletion found)
        (map as_deletion rows)
      ≡ (
        as_result (confirm_found now k answer found rows).0,
        map as_deletion (confirm_found now k answer found rows).1,
      )
unfolding confirm_found Deletion.confirm_found
confirm_found-as_deletion now k answer none rows = refl
confirm_found-as_deletion now k answer (some c) rows = rw (is_pending-as_status c.status) (
    ground (
      arith,
      set_status-as_deletion expired k rows,
      set_status-as_deletion failed k rows,
      set_status-as_deletion confirmed k rows,
    ))

-- A confirmation of an inventory challenge is the confirmation of the deletion challenge that it
-- is read as: the same result, the same reason for refusal, and the same table afterwards.
pub confirm-as_deletion :
    (now : ℕ) (k : String) (answer : ℤ) (rows : List PendingInventoryWrite)
    → Deletion.confirm now k service answer (map as_deletion rows)
      ≡ (as_result (confirm now k answer rows).0, map as_deletion (confirm now k answer rows).1)
unfolding confirm Deletion.confirm
confirm-as_deletion now k answer rows =
    rw (first-map as_deletion (has_key id_of k) (has_key (λ r. r.id) k) rows (λ r. refl))
      (confirm_found-as_deletion now k answer (get id_of k rows) rows)
