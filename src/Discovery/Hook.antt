-- ===== src/Discovery/Hook.antt =====
-- `_pass_complete` of src/registry_mcp/discovery/engine.py: the hook that runs once at a time. A task
-- goes on without a switch to another one until it awaits, so a call runs up to the hook's first
-- `await` in one step, and the rest of its loop is a step for each end of the hook. The log, newest
-- first, is not in the source: it says in which order the hook was asked for and started. The
-- cancellation of a task is not modelled. The engine has a hook: without one, `_pass_complete` returns
-- at once.
mod Answers
mod Tests
use homelab_registry_mcp.Prelude.{Bool, List, [], false, if◌then◌else◌, not, true, ◌∷◌}

pub data Mark : Type 0 where
  asked started : Mark

pub record HookState : Type 0 where
  pub locked : Bool
  pub pending : Bool
  pub log : List Mark

abbrev pub fresh_engine : HookState
fresh_engine = record { locked = false; pending = false; log = [] }

-- The body of the loop up to the `await`, behind its test.
pub run_hook : HookState → HookState
run_hook s = record s { locked = true; pending = false; log = started ∷ s.log }

-- `_pass_complete` up to its first `await`, or its return.
pub pass_complete : HookState → HookState
unfolding run_hook
pass_complete s =
    let s' = record s { pending = true; log = asked ∷ s.log } in
    if s.locked then s' else run_hook s'

-- The hook that is running ends, also by an exception: `while self._hook_pending`, and the lock's
-- release. Nothing ends where nothing runs.
pub hook_ends : HookState → HookState
unfolding run_hook
hook_ends s =
    if not s.locked then s else if s.pending then run_hook s else record s { locked = false }

pub data HookStep : Type 0 where
  passes ends : HookStep

unfoldable pub step : HookState → HookStep → HookState
unfolding pass_complete hook_ends
step s passes = pass_complete s
step s ends = hook_ends s

unfoldable pub steps : HookState → List HookStep → HookState
unfolding step
steps s [] = s
steps s (m ∷ ms) = steps (step s m) ms
