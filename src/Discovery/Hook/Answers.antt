-- ===== src/Discovery/Hook/Answers.antt =====
-- Every request of `_pass_complete` is answered, and not more often than needed.
use homelab_registry_mcp.Prelude.{
  Bool, List, [], arith, false, if◌then◌else◌, not, refl, true, ℕ, ◌&&◌, ◌+◌, ◌∷◌, ◌≡◌, ◌≤◌,
}
use homelab_registry_mcp.Discovery.Hook.{
  HookState, HookStep, Mark, asked, ends, fresh_engine, hook_ends, pass_complete, passes, run_hook,
  started, step, steps,
}

-- Whether the hook was asked for since it last started.
abbrev pub waiting : List Mark → Bool
waiting [] = false
waiting (asked ∷ log) = true
waiting (started ∷ log) = false

abbrev pub count_asked : List Mark → ℕ
count_asked [] = 0
count_asked (asked ∷ log) = count_asked log + 1
count_asked (started ∷ log) = count_asked log

abbrev pub count_started : List Mark → ℕ
count_started [] = 0
count_started (asked ∷ log) = count_started log
count_started (started ∷ log) = count_started log + 1

-- What holds between the steps.
pub record IsTidy (s : HookState) : Type 0 where
  pub remembered : waiting s.log ≡ s.pending
  pub held : s.pending && not s.locked ≡ false
  pub paid : count_started s.log + (if s.pending then 1 else 0) ≤ count_asked s.log

step-IsTidy : (s : HookState) (m : HookStep) → IsTidy s → IsTidy (step s m)
unfolding step pass_complete hook_ends run_hook
step-IsTidy s passes t = ground arith
step-IsTidy s ends t = ground arith

pub steps-IsTidy : (ms : List HookStep) (s : HookState) → IsTidy s → IsTidy (steps s ms)
unfolding steps
steps-IsTidy [] s t = t
steps-IsTidy (m ∷ ms) s t = steps-IsTidy ms (step s m) (step-IsTidy s m t)

-- However passes and ends of the hook follow one another, a request that the hook has not started
-- for yet finds it running and is remembered for one more run; and the hook is started at most once
-- for each request.
pub steps-waiting :
    (ms : List HookStep)
    → let s = steps fresh_engine ms in
      (waiting s.log ≡ (s.pending && s.locked)) × (count_started s.log ≤ count_asked s.log)
steps-waiting ms =
    let t =
      steps-IsTidy ms fresh_engine
        (record { remembered = refl; held = refl; paid = omega arith }) in
    ground (arith, t.remembered, t.held, t.paid)

-- From any state that the engine reaches, once no more passes complete, the hook ends at most
-- twice more: then nothing runs, and the last run started after the last request.
pub steps-drain :
    (ms : List HookStep)
    → let s = hook_ends (hook_ends (steps fresh_engine ms)) in
      (s.locked ≡ false) × (s.pending ≡ false) × (waiting s.log ≡ false)
unfolding hook_ends run_hook
steps-drain ms =
    let t =
      steps-IsTidy ms fresh_engine
        (record { remembered = refl; held = refl; paid = omega arith }) in
    ground (arith, t.remembered, t.held, t.paid)
