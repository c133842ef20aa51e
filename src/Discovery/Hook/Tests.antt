-- ===== src/Discovery/Hook/Tests.antt =====
-- Runs of the hook, and its theorems at concrete inputs.
use homelab_registry_mcp.Discovery.Hook.Answers.{
  steps-waiting, steps-drain, waiting, count_started, count_asked,
}
use homelab_registry_mcp.Prelude.{[], false, refl, ◌&&◌, ◌∷◌, ◌≡◌, ◌≤◌}
use homelab_registry_mcp.Discovery.Hook.{
  asked, ends, fresh_engine, hook_ends, pass_complete, passes, run_hook, started, step, steps,
}

-- Three passes complete while one run lasts: one more run answers them.
coalesced_run :
    (steps fresh_engine (passes ∷ passes ∷ passes ∷ ends ∷ ends ∷ [])).log
    ≡ started ∷ asked ∷ asked ∷ started ∷ asked ∷ []
unfolding steps step pass_complete hook_ends run_hook
coalesced_run = refl

steps-waiting_example :
    let s = steps fresh_engine (passes ∷ passes ∷ []) in
    (waiting s.log ≡ (s.pending && s.locked)) × (count_started s.log ≤ count_asked s.log)
steps-waiting_example = steps-waiting (passes ∷ passes ∷ [])

steps-drain_example :
    let s = hook_ends (hook_ends (steps fresh_engine (passes ∷ passes ∷ []))) in
    (s.locked ≡ false) × (s.pending ≡ false) × (waiting s.log ≡ false)
steps-drain_example = steps-drain (passes ∷ passes ∷ [])
