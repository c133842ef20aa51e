-- ===== src/Dockhand/Actions.antt =====
-- src/registry_mcp/integrations/dockhand/actions.py: the three tools. A tool returns its reply, the
-- gate's table after it, and what it sent to Dockhand. The replies keep the values that the texts
-- are made of.
pub mod Run
mod Tests
use homelab_registry_mcp.Dockhand.Gate
use homelab_registry_mcp.Dockhand.Gate.{
  PendingDockhandAction, DockhandActionGateError, Answer, Summary, http_status, dockhand_failure,
  no_result, request, confirm, finish,
}
use homelab_registry_mcp.Dockhand.Client.{
  Sent, Reply, ClientError, unsupported_action, unexpected, Act, is_container_action,
  is_stack_action, check_environment, check_path_id, container_action, stack_action,
}
use homelab_registry_mcp.Prelude.{
  Bool, List, Option, Result, String, [], err, false, if◌then◌else◌, none, not, ok, some, str_eq,
  true, ℕ, ◌&&◌,
}

-- What a stack request warns of: every container is recreated, and whether its image is pulled
-- first; or every container is stopped.
pub data Warning : Type 0 where
  recreates : Bool → Warning
  stops : Warning

pub data ToolReply : Type 0 where
  read_only_mode : ToolReply
  invalid : ClientError → ToolReply
  challenged : PendingDockhandAction → Option Warning → ToolReply
  gate_refused : DockhandActionGateError → ToolReply
  action_failed : ClientError → String → ToolReply
  action_executed : String → ℕ → ToolReply
  -- the exception goes on to the caller
  raised : ToolReply

abbrev pub Rows : Type 0
Rows = List PendingDockhandAction

abbrev pub challenge_of : PendingDockhandAction × Rows → Option Warning → ToolReply × Rows
challenge_of (row, rows) warning = (challenged row warning, rows)

-- The first of two checks that raises.
abbrev pub first_error : Option ClientError → Option ClientError → Option ClientError
first_error none e = e
first_error (some e) _ = some e

-- A refusal before the gate is asked, or the request.
abbrev pub unless_error : Option ClientError → Rows → ToolReply × Rows → ToolReply × Rows
unless_error none rows requested = requested
unless_error (some e) rows requested = (invalid e, rows)

-- Everything that a tool call reads from outside: the mode, the clock, the id and the digits.
pub record Context : Type 0 where
  pub read_only : Bool
  pub now : ℕ
  pub id : String
  pub x : ℕ
  pub y : ℕ
  pub ttl_minutes : ℕ

pub dockhand_container_action_request :
    Context → (environment_id container_id action : String) → Rows → ToolReply × Rows
dockhand_container_action_request c environment_id container_id action rows =
    if c.read_only
    then (read_only_mode, rows)
    else if not (is_container_action action)
    then (invalid (unsupported_action action), rows)
    else unless_error
        (first_error (check_environment environment_id) (check_path_id container_id "container id"))
        rows
        (challenge_of
          (request c.now c.id c.x c.y "container" environment_id container_id action
            "manual:dockhand_container_action_request" c.ttl_minutes false rows)
          none)

-- The warning that goes with a stack action.
pub stack_warning : String → Bool → Option Warning
stack_warning action pull =
    if str_eq action "redeploy"
    then some (recreates pull)
    else if str_eq action "stop"
    then some stops
    else none

pub dockhand_stack_action_request :
    Context → (environment_id stack_name action : String) (pull : Bool) → Rows → ToolReply × Rows
unfolding stack_warning
dockhand_stack_action_request c environment_id stack_name action pull rows =
    if c.read_only
    then (read_only_mode, rows)
    else if not (is_stack_action action)
    then (invalid (unsupported_action action), rows)
    else let pulls = pull && str_eq action "redeploy" in
      unless_error
        (first_error (check_environment environment_id) (check_path_id stack_name "stack name"))
        rows
        (challenge_of
          (request c.now c.id c.x c.y "stack" environment_id stack_name action
            "manual:dockhand_stack_action_request" c.ttl_minutes pulls rows)
          (stack_warning action pulls))

-- The stored action, handed to the client.
pub run_action : (Sent → Reply) → PendingDockhandAction → Act
run_action dockhand row =
    if str_eq row.kind "stack"
    then stack_action dockhand row.environment_id row.target row.action row.pull
    else container_action dockhand row.environment_id row.target row.action

-- How an outcome is recorded, and what is replied.
pub report : (now : ℕ) → PendingDockhandAction → Result ClientError ℕ → Rows → ToolReply × Rows
report now row (ok status) rows =
    (action_executed row.id status, finish now row.id true (http_status status) rows)
report now row (err unexpected) rows = (raised, finish now row.id false no_result rows)
report now row (err e) rows =
    (action_failed e row.id, finish now row.id false dockhand_failure rows)

-- What the tool does with what the gate gave it. While it waits for Dockhand, other calls do
-- `elsewhere` to the table.
pub act_on :
    (Sent → Reply)
    → (now : ℕ) → (elsewhere : Rows → Rows)
    → Result DockhandActionGateError (Option PendingDockhandAction)
    → Rows
    → ToolReply × Rows × List Sent
unfolding report
act_on dockhand now elsewhere (err e) rows = (gate_refused e, rows, [])
act_on dockhand now elsewhere (ok none) rows = (raised, rows, [])
act_on dockhand now elsewhere (ok (some row)) rows =
    let (outcome, sent) = run_action dockhand row in
    let (reply, rows') = report now row outcome (elsewhere rows) in (reply, rows', sent)

-- `dockhand_action_confirm`: the gate reads at `now` and claims at `now'`, and the outcome is
-- recorded at `now''`.
pub dockhand_action_confirm :
    (Sent → Reply)
    → (read_only : Bool) → (now now' now'' : ℕ) → (meanwhile elsewhere : Rows → Rows)
    → (request_id : String) → (answer : Answer) → Rows
    → ToolReply × Rows × List Sent
unfolding act_on
dockhand_action_confirm dockhand read_only now now' now'' meanwhile elsewhere request_id answer
      rows =
    if read_only
    then (read_only_mode, rows, [])
    else let (claimed, rows') = confirm now now' request_id answer meanwhile rows in
      act_on dockhand now'' elsewhere claimed rows'
