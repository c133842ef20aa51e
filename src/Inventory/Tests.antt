-- ===== src/Inventory/Tests.antt =====
-- Runs of the inventory gate, and its theorem at a concrete input.
use homelab_registry_mcp.Deletion
use homelab_registry_mcp.Deletion.{service}
use homelab_registry_mcp.Inventory.{
  PendingInventoryWrite, request, confirm, pending, failed, incorrect_answer, purge_expired,
  expired,
}
use homelab_registry_mcp.Inventory.Same.{as_deletion, as_result, confirm-as_deletion}
use homelab_registry_mcp.Table.{first, update, sweep}
use homelab_registry_mcp.Prelude.{[], ◌∷◌, ◌≡◌, refl, pos, err, map}

abbrev challenge : PendingInventoryWrite
challenge = record {
  id = "w1";
  node_id = "n-1";
  node_hostname = "pve01";
  x = 2;
  y = 6;
  status = pending;
  actor = "manual";
  created_at = 1000;
  expires_at = 300001000;
}

request_run : request 1000 "w1" 2 6 "n-1" "pve01" "manual" 5 [] ≡ (challenge, challenge ∷ [])
unfolding request
request_run = refl

wrong_answer_run :
    confirm 2000 "w1" (pos 9) (challenge ∷ [])
    ≡ (err (incorrect_answer 2 6), record challenge { status = failed } ∷ [])
unfolding confirm first update
wrong_answer_run = refl

purge_run :
    purge_expired 300001001 (challenge ∷ []) ≡ (record challenge { status = expired } ∷ [], 1)
unfolding purge_expired sweep
purge_run = refl

confirm-as_deletion_example :
    Deletion.confirm 2000 "w1" service (pos 8) (map as_deletion (challenge ∷ [])) ≡ (
      as_result (confirm 2000 "w1" (pos 8) (challenge ∷ [])).0,
      map as_deletion (confirm 2000 "w1" (pos 8) (challenge ∷ [])).1,
    )
confirm-as_deletion_example = confirm-as_deletion 2000 "w1" (pos 8) (challenge ∷ [])
