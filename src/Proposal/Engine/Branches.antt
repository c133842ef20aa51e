-- ===== src/Proposal/Engine/Branches.antt =====
-- Which branches the engine writes to, over any calls of it.
use homelab_registry_mcp.Registry.Store.{Tables, get_service}
use homelab_registry_mcp.Proposal.Engine.Calls.{
  for_discovery, for_poll, for_service, for_image, for_vulnerability, for_comment, for_cancel,
  run_engine_call, run_engine_calls, EngineCall,
}
use homelab_registry_mcp.Proposal.Engine.{Git, ProposalEngine, Ran, configured_git}
use homelab_registry_mcp.Prelude.{
  All, List, Option, [], if_lem, none, some, ℕ, ◌∷◌, str_eq, suc, zero, ◌||◌,
}
use homelab_registry_mcp.Proposal.{Proposal, get_proposal}
use homelab_registry_mcp.Proposal.Engine.Alerts.{create_for_image_update, create_for_vulnerability}
use homelab_registry_mcp.Proposal.Engine.Review.{cancel, closing, cancel_found}
use homelab_registry_mcp.Proposal.Engine.Pushing.{AllOnFeature, OnFeature}
use homelab_registry_mcp.Proposal.Engine.Sweeps.{after_discovery}
use homelab_registry_mcp.Proposal.Engine.Creating.{
  create_for_service-AllOnFeature, AllOnFeature-append, when_configured-AllOnFeature, nothing,
  image_found-AllOnFeature, vulnerability_found-AllOnFeature, with_hosting-AllOnFeature,
}
use homelab_registry_mcp.Proposal.Engine.Reviewing.{
  review_call-AllOnFeature, poll_pr_comments-AllOnFeature,
}

module _ (e : ProposalEngine) where
  closing-AllOnFeature : (git : Option Git) (n : Option ℕ) → AllOnFeature e (closing e git n)
  unfolding AllOnFeature
  closing-AllOnFeature (some git) (some (suc n)) = (tt, tt)
  closing-AllOnFeature (some git) (some zero) = tt
  closing-AllOnFeature (some git) none = tt
  closing-AllOnFeature none n = tt

  cancel_found-AllOnFeature :
      (now : ℕ) (p : Option Proposal) (rows : List Proposal)
      → AllOnFeature e (cancel_found e now p rows).1
  unfolding cancel_found AllOnFeature
  cancel_found-AllOnFeature now none rows = tt
  cancel_found-AllOnFeature now (some p) rows =
      closing-AllOnFeature (configured_git e e.git e.repo) p.pr_number

  run_engine_call-AllOnFeature :
      (t : Tables) (c : EngineCall) (rows : List Proposal)
      → AllOnFeature e (run_engine_call e t c rows).0
  unfolding run_engine_call create_for_image_update create_for_vulnerability cancel after_discovery
  run_engine_call-AllOnFeature t (for_service d k actor) rows =
      create_for_service-AllOnFeature e d k actor t rows
  run_engine_call-AllOnFeature t (for_image d k actor a) rows =
      when_configured-AllOnFeature e _ rows (λ git.
        if_lem {A = Ran} (λ r. AllOnFeature e r.1) (str_eq a.image "" || str_eq a.new_tag "")
          (λ _. nothing e) (λ _. image_found-AllOnFeature e git d actor a (get_service k t) rows))
  run_engine_call-AllOnFeature t (for_vulnerability d k actor a) rows =
      when_configured-AllOnFeature e _ rows (λ git.
        if_lem {A = Ran} (λ r. AllOnFeature e r.1) (str_eq a.image "") (λ _. nothing e)
          (λ _. vulnerability_found-AllOnFeature e git d actor a (get_service k t) rows))
  run_engine_call-AllOnFeature t (for_comment c p) rows =
      review_call-AllOnFeature e (configured_git e e.git e.repo) c p rows
  run_engine_call-AllOnFeature t (for_discovery now draws) rows =
      with_hosting-AllOnFeature e now draws t (configured_git e e.git e.repo) rows
  run_engine_call-AllOnFeature t (for_poll comments) rows =
      poll_pr_comments-AllOnFeature e (configured_git e e.git e.repo) comments rows
  run_engine_call-AllOnFeature t (for_cancel now k) rows =
      cancel_found-AllOnFeature now (get_proposal k rows) rows

  -- Over any calls of the engine, with any answers of the Git hosting and the generator and any
  -- state of the registry, every branch that is created, committed to or made a pull request of has a
  -- name and is not the base branch, every branch starts from the base branch, and every pull request
  -- is made against it.
  pub run_engine_calls-OnFeature :
      (cs : List (Tables × EngineCall)) (rows : List Proposal)
      → All (OnFeature e.base_branch) (run_engine_calls e cs rows).0
  unfolding run_engine_calls AllOnFeature
  run_engine_calls-OnFeature [] rows = tt
  run_engine_calls-OnFeature ((t, c) ∷ cs) rows =
      AllOnFeature-append e (run_engine_call e t c rows).0 _ (run_engine_call-AllOnFeature t c rows)
        (run_engine_calls-OnFeature cs (run_engine_call e t c rows).1)
