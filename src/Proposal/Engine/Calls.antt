-- ===== src/Proposal/Engine/Calls.antt =====
-- Calls of the engine of src/registry_mcp/proposal/engine.py in a row.
use homelab_registry_mcp.Registry.Store.{Tables}
use homelab_registry_mcp.Prelude.{List, Option, String, [], none, some, ℕ, ◌++◌, ◌∷◌}
use homelab_registry_mcp.Proposal.{Proposal}
use homelab_registry_mcp.Proposal.Engine.{
  Draw, Git, GitWrite, ProposalEngine, configured_git, create_for_service,
}
use homelab_registry_mcp.Proposal.Engine.Alerts.{
  ImageAlert, create_for_image_update, create_for_vulnerability,
}
use homelab_registry_mcp.Proposal.Engine.Review.{apply_review_feedback, Comment, cancel}
use homelab_registry_mcp.Proposal.Engine.Sweeps.{after_discovery}
use homelab_registry_mcp.Proposal.Engine.Polls.{poll_pr_comments}

-- A call of the engine.
pub data EngineCall : Type 0 where
  for_service : Draw → (service_id actor : String) → EngineCall
  for_image for_vulnerability : Draw → (service_id actor : String) → ImageAlert → EngineCall
  for_comment : Comment → Proposal → EngineCall
  for_discovery : (now : ℕ) → (draws : String → Draw) → EngineCall
  for_poll : (comments : ℕ → Option (List Comment)) → EngineCall
  for_cancel : (now : ℕ) → (proposal_id : String) → EngineCall

module _ (e : ProposalEngine) where
  -- The calls that wrote to Git, and the proposals.
  abbrev pub wrote {ℓ} :
      {A : Type ℓ} → A × List GitWrite × List Proposal → List GitWrite × List Proposal
  wrote (a, writes, rows) = (writes, rows)

  -- A review is only made where the engine is configured.
  unfoldable pub review_call :
      Option Git → Comment → Proposal → List Proposal → List GitWrite × List Proposal
  unfolding apply_review_feedback
  review_call none c p rows = ([], rows)
  review_call (some git) c p rows = wrote (apply_review_feedback e git c p rows)

  unfoldable pub run_engine_call :
      Tables → EngineCall → List Proposal → List GitWrite × List Proposal
  unfolding create_for_service create_for_image_update create_for_vulnerability review_call cancel
      after_discovery poll_pr_comments
  run_engine_call t (for_service d k actor) rows = wrote (create_for_service e d k actor t rows)
  run_engine_call t (for_image d k actor a) rows =
      wrote (create_for_image_update e d k actor a t rows)
  run_engine_call t (for_vulnerability d k actor a) rows =
      wrote (create_for_vulnerability e d k actor a t rows)
  run_engine_call t (for_comment c p) rows = review_call (configured_git e e.git e.repo) c p rows
  run_engine_call t (for_discovery now draws) rows = after_discovery e now draws t rows
  run_engine_call t (for_poll comments) rows =
      poll_pr_comments e (configured_git e e.git e.repo) comments rows
  run_engine_call t (for_cancel now k) rows = wrote (cancel e now k rows)

  -- Calls in a row, the registry changing between them as it may.
  unfoldable pub run_engine_calls :
      List (Tables × EngineCall) → List Proposal → List GitWrite × List Proposal
  unfolding run_engine_call
  run_engine_calls [] rows = ([], rows)
  run_engine_calls ((t, c) ∷ cs) rows =
      let (writes, rows') = run_engine_call t c rows in
      let (more, last) = run_engine_calls cs rows' in (writes ++ more, last)
