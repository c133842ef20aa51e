-- ===== src/Deletion/Tests.antt =====
-- Runs of the deletion gate, and the theorems at concrete inputs.
use homelab_registry_mcp.Deletion.{
  request, confirm, PendingDeletion, purge_expired, service, hardware_node, confirmed, pending,
  failed, incorrect_answer, challenge_expired, other_tool,
}
use homelab_registry_mcp.Table.{first, update, sweep}
use homelab_registry_mcp.Prelude.{List, ◌∷◌, [], pos, ◌≡◌, ◌+◌, ok, refl, arith, err, ◌≤◌}
use homelab_registry_mcp.Deletion.Once.{
  accepted_all, Call, accepted, confirm_call, after, purge_call, accepted_all-le-one,
}
use homelab_registry_mcp.Deletion.Confirm.{confirm-request}

abbrev challenge : PendingDeletion
challenge = record {
  id = "c1";
  entity_type = service;
  entity_id = "svc-1";
  entity_label = "jellyfin";
  x = 3;
  y = 4;
  status = pending;
  actor = "manual";
  created_at = 1000;
  expires_at = 300001000;
}

request_run :
    request 1000 "c1" 3 4 service "svc-1" "jellyfin" "manual" 5 [] ≡ (challenge, challenge ∷ [])
unfolding request
request_run = refl

wrong_answer_run :
    confirm 2000 "c1" service (pos 8) (challenge ∷ [])
    ≡ (err (incorrect_answer 3 4), record challenge { status = failed } ∷ [])
unfolding confirm first update
wrong_answer_run = refl

late_run : (confirm 300001001 "c1" service (pos 7) (challenge ∷ [])).0 ≡ err challenge_expired
unfolding confirm first update
late_run = refl

other_tool_run :
    confirm 2000 "c1" hardware_node (pos 7) (challenge ∷ [])
    ≡ (err (other_tool "c1"), challenge ∷ [])
unfolding confirm first update
other_tool_run = refl

confirm-request_example :
    let (c, rows') = request 1000 "c1" 3 4 service "svc-1" "jellyfin" "manual" 5 [] in
    ((confirm 2000 "c1" service (pos (c.x + c.y)) rows').0 ≡ ok (record c { status = confirmed }))
    × (c.entity_id ≡ "svc-1")
    × (c.entity_type ≡ service)
unfolding first
confirm-request_example =
    confirm-request 1000 2000 "c1" 3 4 service "svc-1" "jellyfin" "manual" 5 [] refl (omega arith)

abbrev attempts : List Call
attempts =
    confirm_call 2000 "c1" service (pos 7)
    ∷ purge_call 2500
    ∷ confirm_call 3000 "c1" service (pos 7)
    ∷ []

attempts_run : accepted_all "c1" attempts (challenge ∷ []) ≡ 1
unfolding accepted_all accepted after confirm purge_expired first update sweep
attempts_run = refl

accepted_all-le-one_example : accepted_all "c1" attempts (challenge ∷ []) ≤ 1
accepted_all-le-one_example = accepted_all-le-one "c1" attempts (challenge ∷ [])

abbrev spent : PendingDeletion
spent = record challenge { status = failed }
