-- ===== src/Dockhand/Gate/Tests.antt =====
-- Runs of the Dockhand gate, and its theorems at concrete inputs.
use homelab_registry_mcp.Prelude.{
  List, [], err, none, ok, pos, refl, some, true, ◌↔◌, ◌∷◌, ◌≡◌, ◌≤◌,
}
use homelab_registry_mcp.Dockhand.Gate.{
  PendingDockhandAction, already_used, boolean, confirm, executing, expired, finish, id_of,
  incorrect_answer, integer, pending, purge_expired, request, resolve, resolve_row, http_status,
}
use homelab_registry_mcp.Table.{first, rowcount, update, Unique, select}
use homelab_registry_mcp.Dockhand.Gate.Race.{
  Statement, moves_all, resolve_row_to, moves_all-le-one, moves, finish_row, run_statement,
}
use mathlib.Core.Logic.{◌↔◌}

abbrev row : PendingDockhandAction
row = record {
  id = "r1";
  kind = "stack";
  environment_id = "2";
  target = "media";
  action = "redeploy";
  pull = true;
  x = 5;
  y = 9;
  status = pending;
  actor = "manual:dockhand_stack_action_request";
  created_at = 10;
  expires_at = 300000010;
  resolved_at = none;
  result = none;
}

request_run :
    request 10 "r1" 5 9 "stack" "2" "media" "redeploy" "manual:dockhand_stack_action_request" 5 true
      []
    ≡ (row, row ∷ [])
unfolding request
request_run = refl

confirm_run :
    confirm 20 21 "r1" (integer (pos 14)) (λ t. t) (row ∷ [])
    ≡ (ok (some (resolve_row 21 executing none row)), resolve_row 21 executing none row ∷ [])
unfolding confirm first update rowcount
confirm_run = refl

boolean_run : (confirm 20 21 "r1" (boolean true) (λ t. t) (row ∷ [])).0 ≡ err (incorrect_answer 5 9)
unfolding confirm first update rowcount
boolean_run = refl

-- The challenge may run out between the read and the UPDATE.
expired_between_run :
    (confirm 300000010 300000010 "r1" (integer (pos 14)) (λ t. t) (row ∷ [])).0 ≡ err already_used
unfolding confirm first update rowcount
expired_between_run = refl

purge_run :
    purge_expired 300000011 300000012 (row ∷ []) ≡ (resolve_row 300000012 expired none row ∷ [], 1)
unfolding purge_expired first update rowcount select
purge_run = refl

row-Unique : Unique id_of (row ∷ [])
unfolding rowcount
row-Unique = (refl, tt)

abbrev rival : List Statement
rival =
    resolve_row_to 20 "r1" executing refl true none ∷ finish_row 30 "r1" true (http_status 200) ∷ []

moves_all-le-one_example : moves_all "r1" rival (row ∷ []) ≤ 1
moves_all-le-one_example = moves_all-le-one "r1" rival (row ∷ []) row-Unique

rival_wins : moves_all "r1" rival (row ∷ []) ≡ 1
unfolding moves_all moves run_statement resolve finish rowcount update
rival_wins = refl
