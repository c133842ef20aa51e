-- ===== src/Proposal/Engine/Once.antt =====
-- One open proposal at a time for a finding of a service, over any calls of the engine.
use homelab_registry_mcp.Proposal.Engine.Calls.{
  for_discovery, for_poll, for_service, for_image, for_vulnerability, for_comment, for_cancel,
  EngineCall, run_engine_call, run_engine_calls,
}
use homelab_registry_mcp.Proposal.Engine.{
  Draw, Git, ProposalEngine, Ran, configured_git, create_for_found, create_for_service,
  finding_type_of, on_finding, when_configured, with_git, GitWrite,
}
use homelab_registry_mcp.Proposal.{
  FindingType, Proposal, retire_if_finished, create, find_open, image_update, vulnerability_scan,
  cancelled, get_proposal, list_open,
}
use homelab_registry_mcp.Prelude.{
  Bool, List, Option, String, false, if_lem, none, refl, some, true, ◌≡◌, not, All, [], str_eq, ℕ,
  ◌||◌, ◌∷◌, ◌&&◌,
}
use homelab_registry_mcp.Registry.{Service}
use homelab_registry_mcp.Proposal.Engine.Retires.{retire_if_finished-Retires}
use homelab_registry_mcp.Proposal.Engine.Alerts.{
  record_unfixed, unfixed_on_existing, image_found, vulnerability_found, ImageAlert,
  create_for_image_update, image_context, vulnerability_context, create_for_vulnerability,
}
use homelab_registry_mcp.Proposal.Engine.Review.{cancel_found, cancel}
use homelab_registry_mcp.Registry.Store.{Tables, get_service}
use homelab_registry_mcp.Proposal.Engine.Opening.{
  IsOnce, KeepsOnce, closed_row-IsOnce, Retires-IsOnce, open_proposal-KeepsOnce,
}
use homelab_registry_mcp.Proposal.Engine.Sweeps.{
  retire_each, auto_create_each, with_hosting, after_discovery, should_create, sync_pr_states,
  sweep_verifications,
}
use homelab_registry_mcp.Proposal.Engine.Sweeping.{set_status-IsOnce, sweep_each-IsOnce}

-- A review or a poll opens no proposal, and writes back the one that it was given.
abbrev pub is_review : EngineCall → Bool
is_review (for_comment c p) = true
is_review (for_poll comments) = true
is_review c = false

module _ (e : ProposalEngine) where
  record_unfixed-KeepsOnce :
      (d : Draw) (actor : String) (a : ImageAlert) (s : Service) (rows : List Proposal)
      → IsOnce rows
      → KeepsOnce e (record_unfixed e d actor a s rows)
  unfolding record_unfixed create KeepsOnce
  record_unfixed-KeepsOnce d actor a s rows once = closed_row-IsOnce _ rows refl once

  unfixed_on_existing-KeepsOnce :
      (git : Git) (d : Draw) (actor : String) (a : ImageAlert) (s : Service)
      (existing : Option Proposal) (rows : List Proposal)
      → IsOnce rows
      → KeepsOnce e (unfixed_on_existing e git d actor a s existing rows)
  unfolding unfixed_on_existing KeepsOnce
  unfixed_on_existing-KeepsOnce git d actor a s none rows once =
      record_unfixed-KeepsOnce d actor a s rows once
  unfixed_on_existing-KeepsOnce git d actor a s (some p) rows once =
      let after = retire_if_finished d.now (some git.pr_state) e.repo p rows in
      let r = retire_if_finished-Retires d.now (some git.pr_state) e.repo p rows in
      let still = Retires-IsOnce e rows p after r once in
      if_lem {A = Ran} (λ r. IsOnce r.2) (not after.0) (λ _. still)
        (λ _. record_unfixed-KeepsOnce d actor a s after.1 still)

  with_git-KeepsOnce :
      (run : Git → Ran) (git : Option Git) (rows : List Proposal)
      → IsOnce rows
      → ((g : Git) → KeepsOnce e (run g))
      → KeepsOnce e (with_git e run git rows)
  unfolding KeepsOnce
  with_git-KeepsOnce run none rows once keeps = once
  with_git-KeepsOnce run (some git) rows once keeps = keeps git

  when_configured-KeepsOnce :
      (run : Git → Ran) (rows : List Proposal)
      → IsOnce rows
      → ((g : Git) → KeepsOnce e (run g))
      → KeepsOnce e (when_configured e run rows)
  unfolding when_configured
  when_configured-KeepsOnce run rows once keeps =
      with_git-KeepsOnce run (configured_git e e.git e.repo) rows once keeps

  on_finding-KeepsOnce :
      (git : Git) (d : Draw) (actor : String) (s : Service) (finding : Option FindingType)
      (rows : List Proposal)
      → IsOnce rows
      → KeepsOnce e (on_finding e git d actor s finding rows)
  unfolding on_finding KeepsOnce
  on_finding-KeepsOnce git d actor s none rows once = once
  on_finding-KeepsOnce git d actor s (some finding) rows once =
      open_proposal-KeepsOnce e git d finding s actor "" rows once

  create_for_found-KeepsOnce :
      (git : Git) (d : Draw) (actor : String) (s : Option Service) (rows : List Proposal)
      → IsOnce rows
      → KeepsOnce e (create_for_found e git d actor s rows)
  unfolding create_for_found KeepsOnce
  create_for_found-KeepsOnce git d actor none rows once = once
  create_for_found-KeepsOnce git d actor (some s) rows once =
      on_finding-KeepsOnce git d actor s (finding_type_of s) rows once

  image_found-KeepsOnce :
      (git : Git) (d : Draw) (actor : String) (a : ImageAlert) (s : Option Service)
      (rows : List Proposal)
      → IsOnce rows
      → KeepsOnce e (image_found e git d actor a s rows)
  unfolding image_found KeepsOnce
  image_found-KeepsOnce git d actor a none rows once = once
  image_found-KeepsOnce git d actor a (some s) rows once =
      open_proposal-KeepsOnce e git d image_update s actor (image_context a) rows once

  vulnerability_found-KeepsOnce :
      (git : Git) (d : Draw) (actor : String) (a : ImageAlert) (s : Option Service)
      (rows : List Proposal)
      → IsOnce rows
      → KeepsOnce e (vulnerability_found e git d actor a s rows)
  unfolding vulnerability_found KeepsOnce
  vulnerability_found-KeepsOnce git d actor a none rows once = once
  vulnerability_found-KeepsOnce git d actor a (some s) rows once =
      if_lem {A = Ran} (λ r. IsOnce r.2) (str_eq a.new_tag "")
        (λ _.
          unfixed_on_existing-KeepsOnce git d actor a s (find_open s.id vulnerability_scan rows)
            rows once)
        (λ _.
          open_proposal-KeepsOnce e git d vulnerability_scan s actor (vulnerability_context a) rows
            once)

  cancel_found-KeepsOnce :
      (now : ℕ) (p : Option Proposal) (rows : List Proposal)
      → IsOnce rows
      → IsOnce (cancel_found e now p rows).2
  unfolding cancel_found
  cancel_found-KeepsOnce now none rows once = once
  cancel_found-KeepsOnce now (some p) rows once =
      set_status-IsOnce now p.id cancelled false rows refl once

  create_for_service-IsOnce :
      (d : Draw) (k actor : String) (t : Tables) (rows : List Proposal)
      → IsOnce rows
      → IsOnce (create_for_service e d k actor t rows).2
  unfolding create_for_service KeepsOnce
  create_for_service-IsOnce d k actor t rows once =
      when_configured-KeepsOnce _ rows once
        (λ git. create_for_found-KeepsOnce git d actor (get_service k t) rows once)

  retire_each-IsOnce :
      (git : Git) (now : ℕ) (ps rows : List Proposal)
      → IsOnce rows
      → IsOnce (retire_each e git now ps rows)
  unfolding retire_each
  retire_each-IsOnce git now [] rows once = once
  retire_each-IsOnce git now (p ∷ ps) rows once = retire_each-IsOnce git now ps _ (
      Retires-IsOnce e rows p (retire_if_finished now (some git.pr_state) e.repo p rows)
        (retire_if_finished-Retires now (some git.pr_state) e.repo p rows) once)

  auto_create_each-IsOnce :
      (draws : String → Draw) (t : Tables) (ss : List Service) (rows : List Proposal)
      → IsOnce rows
      → IsOnce (auto_create_each e draws t ss rows).1
  unfolding auto_create_each
  auto_create_each-IsOnce draws t [] rows once = once
  auto_create_each-IsOnce draws t (s ∷ ss) rows once =
      let d = draws s.id in
      let made = create_for_service e d s.id "discovery:auto" t rows in
      if_lem {A = List GitWrite × List Proposal} (λ r. IsOnce r.1) (should_create d.now t s rows)
        (λ _.
          auto_create_each-IsOnce draws t ss made.2
            (create_for_service-IsOnce d s.id "discovery:auto" t rows once))
        (λ _. auto_create_each-IsOnce draws t ss rows once)

  with_hosting-IsOnce :
      (now : ℕ) (draws : String → Draw) (t : Tables) (git : Option Git) (rows : List Proposal)
      → IsOnce rows
      → IsOnce (with_hosting e now draws t git rows).1
  unfolding with_hosting sync_pr_states sweep_verifications
  with_hosting-IsOnce now draws t none rows once = once
  with_hosting-IsOnce now draws t (some git) rows once =
      let swept = sweep_verifications now t (sync_pr_states e git now rows) in
      let still : IsOnce swept =
        sweep_each-IsOnce now t (list_open true (sync_pr_states e git now rows)) _
          (retire_each-IsOnce git now (list_open false rows) rows once) in
      if_lem {A = List GitWrite × List Proposal} (λ r. IsOnce r.1)
        (e.auto_create && not e.read_only)
        (λ _. auto_create_each-IsOnce draws t t.services swept still) (λ _. still)

  run_engine_call-IsOnce :
      (t : Tables) (c : EngineCall) (rows : List Proposal)
      → is_review c ≡ false
      → IsOnce rows
      → IsOnce (run_engine_call e t c rows).1
  unfolding run_engine_call create_for_image_update create_for_vulnerability cancel after_discovery
      KeepsOnce
  run_engine_call-IsOnce t (for_service d k actor) rows h once =
      create_for_service-IsOnce d k actor t rows once
  run_engine_call-IsOnce t (for_image d k actor a) rows h once =
      when_configured-KeepsOnce _ rows once (λ git.
        if_lem {A = Ran} (λ r. IsOnce r.2) (str_eq a.image "" || str_eq a.new_tag "") (λ _. once)
          (λ _. image_found-KeepsOnce git d actor a (get_service k t) rows once))
  run_engine_call-IsOnce t (for_vulnerability d k actor a) rows h once =
      when_configured-KeepsOnce _ rows once (λ git.
        if_lem {A = Ran} (λ r. IsOnce r.2) (str_eq a.image "") (λ _. once)
          (λ _. vulnerability_found-KeepsOnce git d actor a (get_service k t) rows once))
  run_engine_call-IsOnce t (for_comment c p) rows h once = cc
  run_engine_call-IsOnce t (for_poll comments) rows h once = cc
  run_engine_call-IsOnce t (for_discovery now draws) rows h once =
      with_hosting-IsOnce now draws t (configured_git e e.git e.repo) rows once
  run_engine_call-IsOnce t (for_cancel now k) rows h once =
      cancel_found-KeepsOnce now (get_proposal k rows) rows once

  -- Calls of the engine other than reviews of comments and polls for them, one after another, with
  -- any answers of the Git hosting and the generator and any state of the registry: no service ever
  -- has two open proposals for one finding, if that was so at the start.
  pub run_engine_calls-IsOnce :
      (cs : List (Tables × EngineCall)) (rows : List Proposal)
      → All (λ c. is_review c.1 ≡ false) cs
      → IsOnce rows
      → IsOnce (run_engine_calls e cs rows).1
  unfolding run_engine_calls
  run_engine_calls-IsOnce [] rows all once = once
  run_engine_calls-IsOnce ((t, c) ∷ cs) rows (h, all) once =
      run_engine_calls-IsOnce cs (run_engine_call e t c rows).1 all
        (run_engine_call-IsOnce t c rows h once)
