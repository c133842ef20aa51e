-- ===== src/Patching/Executor/Safety.antt =====
-- When the playbook runs, against what, and how its end is recorded.
use text.Mathlib.Text.{starts_with}
use homelab_registry_mcp.Text.{codes}
use homelab_registry_mcp.Patching.Store.{
  PatchApproval, PatchApprovalStatus, executed, failed, Detail,
}
use homelab_registry_mcp.Prelude.{
  ℤ, pos, negsuc, Bool-cases, List, String, [], arith, inl, inr, refl, some, ℕ, ◌&&◌, ◌∷◌, ◌≡◌,
  Option, none, suc, zero, ◌⊎◌,
}
use homelab_registry_mcp.Patching.Executor.{
  Command, PatchExecutor, RunResult, after_listing, execute, exits, is_just, is_set,
  list_hosts_command, not_found, parse_list_hosts, playbook_command, raised, run_if_listed,
  run_playbook, timed_out, Run, read_playbook, result_of,
}

read_playbook-executed :
    (r : RunResult) (d : Detail)
    → read_playbook r ≡ some (executed, d)
    → (stdout : List (List ℕ)) × (r ≡ exits (pos 0) stdout)
unfolding read_playbook
read_playbook-executed not_found d h = cc
read_playbook-executed timed_out d h = cc
read_playbook-executed raised d h = cc
read_playbook-executed (exits (pos zero) stdout) d h = (stdout, refl)
read_playbook-executed (exits (pos (suc n)) stdout) d h = cc
read_playbook-executed (exits (negsuc n) stdout) d h = cc

-- The listing that lets the playbook run.
abbrev pub ListsJust : (Command → RunResult) → String → Type 0
ListsJust run host =
    (rc : ℤ) × ((stdout : List (List ℕ)) × (run (list_hosts_command host) ≡ exits rc stdout)
      × (parse_list_hosts stdout ≡ codes host ∷ []))

module _ (run : Command → RunResult) (e : PatchExecutor) (a : PatchApproval) where
  -- The outcome is `executed` only if both commands were run and the playbook's exit status is 0.
  abbrev pub Succeeded : Run → Type 0
  Succeeded r =
      (stdout : List (List ℕ)) × (run (playbook_command e a) ≡ exits (pos 0) stdout)
      × (r.1 ≡ list_hosts_command a.target_host ∷ playbook_command e a ∷ [])

  run_if_listed-executed :
      (listed : List (List ℕ)) (d : Detail)
      → (run_if_listed run e a listed).0 ≡ some (executed, d)
      → Succeeded (run_if_listed run e a listed)
  unfolding run_if_listed
  run_if_listed-executed listed d h = elim (Bool-cases (is_just (codes a.target_host) listed)) [
    | inr unlike ↦ absurd (let h' = rw unlike at h in cc)
    | inl just ↦
        let h' = rw just at h in
        let (stdout, exit) = read_playbook-executed (run (playbook_command e a)) d h' in
        (stdout, exit, rw just)
  ]

  after_listing-executed :
      (r : RunResult) (d : Detail)
      → (after_listing run e a r).0 ≡ some (executed, d)
      → Succeeded (after_listing run e a r)
  unfolding after_listing
  after_listing-executed not_found d h = cc
  after_listing-executed timed_out d h = cc
  after_listing-executed raised d h = cc
  after_listing-executed (exits rc stdout) d h =
      run_if_listed-executed (parse_list_hosts stdout) d h

  run_playbook-executed :
      (d : Detail)
      → (run_playbook run e a).0 ≡ some (executed, d)
      → Succeeded (run_playbook run e a)
  unfolding run_playbook
  run_playbook-executed d h =
      elim (Bool-cases (is_set e.ansible_cfg_path && is_set e.ssh_key_path)) [
        | inr unset ↦ absurd (let h' = rw unset at h in cc)
        | inl config ↦ elim (Bool-cases (starts_with a.target_host "-")) [
          | inl option ↦ absurd (let h' = rw (config, option) at h in cc)
          | inr plain ↦
              rw (config, plain)
                (after_listing-executed (run (list_hosts_command a.target_host)) d
                  (rw (config, plain) at h))
        ]
      ]

  result_of-executed :
      (r : Option (PatchApprovalStatus × Detail))
      → (result_of run e r).status ≡ executed
      → (d : Detail) × (r ≡ some (executed, d))
  result_of-executed none h = cc
  result_of-executed (some (s, d)) h = (d, ground arith)

  -- A patch is reported as executed only if the two commands that ran are the listing of its host
  -- and the playbook, and the playbook exited with 0.
  pub execute-executed :
      (execute run e a).0.status ≡ executed
      → (stdout : List (List ℕ)) × (run (playbook_command e a) ≡ exits (pos 0) stdout)
        × ((execute run e a).1 ≡ list_hosts_command a.target_host ∷ playbook_command e a ∷ [])
  unfolding execute
  execute-executed h = elim (Bool-cases (is_set e.playbook)) [
    | inr unset ↦ absurd (let h' = rw unset at h in cc)
    | inl set ↦
        let (d, is_r) = result_of-executed (run_playbook run e a).0 (rw set at h) in
        rw set (run_playbook-executed d is_r)
  ]

-- A run ends a patch: it reports `executed` or `failed`, whatever the commands do.
abbrev pub IsEnd : PatchApprovalStatus → Type 0
IsEnd s = (s ≡ executed) ⊎ (s ≡ failed)

-- What `execute` makes of an outcome that ends.
abbrev Ends : Option (PatchApprovalStatus × Detail) → Type 0
Ends none = Unit {0}
Ends (some (s, d)) = IsEnd s

Ends-read_playbook : (r : RunResult) → Ends (read_playbook r)
unfolding read_playbook
Ends-read_playbook not_found = inr refl
Ends-read_playbook timed_out = inr refl
Ends-read_playbook raised = tt
Ends-read_playbook (exits (pos zero) stdout) = inl refl
Ends-read_playbook (exits (pos (suc n)) stdout) = inr refl
Ends-read_playbook (exits (negsuc n) stdout) = inr refl

module _ (run : Command → RunResult) (e : PatchExecutor) (a : PatchApproval) where
  Ends-after_listing : (r : RunResult) → Ends (after_listing run e a r).0
  unfolding after_listing run_if_listed
  Ends-after_listing not_found = inr refl
  Ends-after_listing timed_out = inr refl
  Ends-after_listing raised = tt
  Ends-after_listing (exits rc stdout) =
      elim (Bool-cases (is_just (codes a.target_host) (parse_list_hosts stdout))) [
        | inl just ↦ rw just (Ends-read_playbook (run (playbook_command e a)))
        | inr unlike ↦ rw unlike (inr refl)
      ]

  Ends-run_playbook : Ends (run_playbook run e a).0
  unfolding run_playbook
  Ends-run_playbook = elim (Bool-cases (is_set e.ansible_cfg_path && is_set e.ssh_key_path)) [
    | inr unset ↦ rw unset (inr refl)
    | inl config ↦ elim (Bool-cases (starts_with a.target_host "-")) [
      | inl option ↦ rw (config, option) (inr refl)
      | inr plain ↦ rw (config, plain) (Ends-after_listing (run (list_hosts_command a.target_host)))
    ]
  ]

  IsEnd-result_of :
      (r : Option (PatchApprovalStatus × Detail)) → Ends r → IsEnd (result_of run e r).status
  IsEnd-result_of none h = inr refl
  IsEnd-result_of (some (s, d)) h = h

  -- Whatever its commands do, also if they raise, `execute` returns, with `executed` or `failed`.
  pub execute-IsEnd : IsEnd (execute run e a).0.status
  unfolding execute
  execute-IsEnd = elim (Bool-cases (is_set e.playbook)) [
    | inr unset ↦ rw unset (inr refl)
    | inl set ↦ rw set (IsEnd-result_of (run_playbook run e a).0 Ends-run_playbook)
  ]
