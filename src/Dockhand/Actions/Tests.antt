-- ===== src/Dockhand/Actions/Tests.antt =====
-- Runs of the tools, and their theorems at concrete inputs.
use homelab_registry_mcp.Dockhand.Gate
use homelab_registry_mcp.Dockhand.Client
use homelab_registry_mcp.Dockhand.Client.Safety
use homelab_registry_mcp.Dockhand.Client.Safety.{StaysInPath}
use homelab_registry_mcp.Dockhand.Gate.{
  integer, id_of, executing, executed, failed, pending, resolve_row, PendingDockhandAction,
  http_status,
}
use homelab_registry_mcp.Dockhand.Gate.Confirm.{Claims}
use homelab_registry_mcp.Dockhand.Gate.Race.{is_ok}
use homelab_registry_mcp.Dockhand.Client.{
  Sent, Reply, answered, is_stack_action, is_container_action, check_environment, stack_action,
  container_action,
}
use homelab_registry_mcp.Dockhand.Actions.Run.{summary_of, dockhand_action_confirm-ends}
use Prim.Native.String.{◌++◌ as join}
use homelab_registry_mcp.Prelude.{
  List, [], arith, false, if◌then◌else◌, none, pos, refl, some, str_eq, true, ◌∷◌, ◌≡◌,
}
use homelab_registry_mcp.Dockhand.Actions.{dockhand_action_confirm, run_action}
use homelab_registry_mcp.Table.{rowcount, first, get, Unique}

-- A Dockhand that takes everything.
abbrev willing : Sent → Reply
willing s = answered 200 none

abbrev row : PendingDockhandAction
row = record {
  id = "r1";
  kind = "stack";
  environment_id = "2";
  target = "media";
  action = "redeploy";
  pull = true;
  x = 5;
  y = 9;
  status = pending;
  actor = "manual:dockhand_stack_action_request";
  created_at = 10;
  expires_at = 300000010;
  resolved_at = none;
  result = none;
}

abbrev deploy : Sent
deploy = record {
  path = "stacks/media/deploy";
  env = "2";
  body = some (record { pull = true; build = false; force_recreate = true });
}

row-Unique : Unique id_of (row ∷ [])
unfolding rowcount
row-Unique = (refl, tt)

row-Claims : Claims 20 21 (integer (pos 14)) row
row-Claims = record {
  open_still = refl;
  read_in_time = omega arith;
  written_in_time = omega arith;
  sum = refl;
}

stack_sent_run : (stack_action willing "2" "media" "redeploy" true).1 ≡ deploy ∷ []
unfolding Client.stack_action Client.is_stack_action Client.check_environment Client.check_path_id
stack_sent_run = refl

slash_run : (stack_action willing "2" "../etc" "stop" false).1 ≡ []
unfolding Client.stack_action Client.is_stack_action Client.check_environment Client.check_path_id
slash_run = refl

abbrev restart : Sent
restart = record { path = "containers/c9/restart"; env = "2"; body = none }

container_sent_run : (container_action willing "2" "c9" "restart").1 ≡ restart ∷ []
unfolding Client.container_action Client.is_container_action Client.check_environment
    Client.check_path_id
container_sent_run = refl

stack_action-sends_example :
    (◌≡◌ {A = List Sent} [] [])
    × (is_stack_action "redeploy" ≡ true)
    × (check_environment "2" ≡ none)
    × (deploy.env ≡ "2")
    × (deploy.path
        ≡ join "stacks/" (
            join "media" (if str_eq "redeploy" "redeploy" then "/deploy" else join "/" "redeploy")))
    × StaysInPath "media"
stack_action-sends_example =
    Safety.stack_action-sends willing "2" "media" "redeploy" true deploy [] stack_sent_run

row_found : get id_of "r1" (row ∷ []) ≡ some row
unfolding first
row_found = refl

dockhand_action_confirm-ends_example :
    get id_of "r1"
      (dockhand_action_confirm willing false 20 21 22
        (λ t. t)
        (λ t. t)
        "r1"
        (integer (pos 14))
        (row ∷ [])).1
    ≡ some (
        resolve_row 22
          (if is_ok (run_action willing row).0 then executed else failed)
          (some (summary_of (run_action willing row).0))
          row)
dockhand_action_confirm-ends_example =
    dockhand_action_confirm-ends willing 20 21 22 (λ t. t) "r1" (integer (pos 14)) (row ∷ [])
      row-Unique row row_found row-Claims (λ t. refl)
