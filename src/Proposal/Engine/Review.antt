-- ===== src/Proposal/Engine/Review.antt =====
-- `apply_review_feedback` and `cancel` of src/registry_mcp/proposal/engine.py. The users that may
-- comment are those that the setting lists, already split and stripped.
use homelab_registry_mcp.Proposal.{cancelled, Proposal, get_proposal, save, set_status}
use homelab_registry_mcp.Proposal.Engine.{
  commit_file, close_pr, Git, GitWrite, Patch, ProposalEngine, configured_git, is_feature_branch,
}
use homelab_registry_mcp.Prelude.{
  Bool, List, Option, Result, String, [], err, false, if◌then◌else◌, none, not, ok, or_else, some,
  suc, ℕ, ◌∷◌,
}
use homelab_registry_mcp.Text.{member}

-- A comment on a pull request: its number, its author's login and its text.
pub record Comment : Type 0 where
  pub id : ℕ
  pub login : String
  pub body : String

-- A review's end: the proposal that is returned, or the `GitError` that is raised.
abbrev pub Reviewed : Type 0
Reviewed = Option Proposal × List GitWrite × List Proposal

module _ (e : ProposalEngine) where
  -- `_is_authorized_commenter`
  unfoldable pub is_authorized : Comment → Bool
  unfolding member
  is_authorized c = member c.login e.allowed_users

  abbrev pub saved : List GitWrite → Proposal → List Proposal → Reviewed
  unfolding save
  saved writes p rows = (some p, writes, (save p rows).1)

  -- On the revision that the generator gave.
  unfoldable pub on_revision : Git → Proposal → Result String Patch → List Proposal → Reviewed
  unfolding save
  on_revision git p (err reason) rows = saved [] p rows
  on_revision git p (ok patch) rows =
      let committing = commit_file p.file_path patch.content p.branch in
      if not (git.accepts committing)
      then saved (committing ∷ []) p rows
      else saved (committing ∷ []) (record p { diff = patch.content }) rows

  -- On the file as it is on the branch.
  unfoldable pub on_branch_file :
      Git → Comment → Proposal → Option String → List Proposal → Reviewed
  unfolding on_revision save
  on_branch_file git c p none rows = saved [] (record p { last_comment_id = some c.id }) rows
  on_branch_file git c p (some file) rows =
      on_revision git (record p { last_comment_id = some c.id })
        (e.generator.revise p.file_path file c.body) rows

  -- `apply_review_feedback`
  unfoldable pub apply_review_feedback : Git → Comment → Proposal → List Proposal → Reviewed
  unfolding on_branch_file is_authorized is_feature_branch save
  apply_review_feedback git c p rows =
      if not (is_authorized c)
      then saved [] (record p { last_comment_id = some c.id }) rows
      else if not (is_feature_branch p.branch e.base_branch)
      then (none, [], rows)
      else on_branch_file git c p (git.read_file p.file_path p.branch) rows

  -- The closing of a cancelled proposal's pull request; a `GitError` is only logged.
  abbrev pub closing : Option Git → Option ℕ → List GitWrite
  closing (some git) (some (suc n)) = close_pr (suc n) ∷ []
  closing _ _ = []

  -- `cancel`
  unfoldable pub cancel_found : (now : ℕ) → Option Proposal → List Proposal → Reviewed
  unfolding set_status
  cancel_found now none rows = (none, [], rows)
  cancel_found now (some p) rows =
      let (updated, rows') = set_status now p.id cancelled false rows in
      (or_else updated (some p), closing (configured_git e e.git e.repo) p.pr_number, rows')

  unfoldable pub cancel : (now : ℕ) → String → List Proposal → Reviewed
  unfolding cancel_found
  cancel now proposal_id rows = cancel_found now (get_proposal proposal_id rows) rows
