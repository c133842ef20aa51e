-- ===== src/Proposal/Engine/Comments.antt =====
-- When a comment makes the engine write to a branch.
use homelab_registry_mcp.Proposal.Engine.{
  commit_file, Git, GitWrite, Patch, ProposalEngine, is_feature_branch,
}
use homelab_registry_mcp.Prelude.{
  List, Option, Result, String, [], ap, err, if_lem, none, not, not-false, ok, refl, some, subst,
  true, ◌∙◌, ◌∷◌, ◌≡◌,
}
use homelab_registry_mcp.Proposal.{Proposal}
use homelab_registry_mcp.Proposal.Engine.Review.{
  Comment, on_revision, on_branch_file, apply_review_feedback, Reviewed, is_authorized,
}
use homelab_registry_mcp.Text.{member}

-- The comment's author is listed, the branch is no base branch, and the write commits, to the
-- proposal's file on its branch, what the generator made of the comment and the file as it is there.
pub record IsRevision (e : ProposalEngine) (git : Git) (c : Comment) (p : Proposal)
    (write : GitWrite) : Type 0 where
  pub file : String
  pub patch : Patch
  pub trusted : member c.login e.allowed_users ≡ true
  pub feature : is_feature_branch p.branch e.base_branch ≡ true
  pub current : git.read_file p.file_path p.branch ≡ some file
  pub revised : e.generator.revise p.file_path file c.body ≡ ok patch
  pub commits : write ≡ commit_file p.file_path patch.content p.branch

module _ (e : ProposalEngine) (git : Git) (c : Comment) (p : Proposal) where
  -- A list of writes that is empty, or is one revision.
  Revises : List GitWrite → Type 0
  Revises [] = Unit
  Revises (w ∷ []) = IsRevision e git c p w
  Revises (w ∷ v ∷ ws) = ⊥

  on_revision-Revises :
      (file : String) (q : Proposal) (r : Result String Patch) (rows : List Proposal)
      → q.file_path ≡ p.file_path
      → q.branch ≡ p.branch
      → member c.login e.allowed_users ≡ true
      → is_feature_branch p.branch e.base_branch ≡ true
      → git.read_file p.file_path p.branch ≡ some file
      → e.generator.revise p.file_path file c.body ≡ r
      → Revises (on_revision e git q r rows).1
  unfolding on_revision Revises
  on_revision-Revises file q (err reason) rows same_path same_branch trusted on read made = tt
  on_revision-Revises file q (ok patch) rows same_path same_branch trusted on read made =
      let one : IsRevision e git c p (commit_file q.file_path patch.content q.branch) = record {
        file = file;
        patch = patch;
        trusted = trusted;
        feature = on;
        current = read;
        revised = made;
        commits =
            ap (λ x. commit_file x patch.content q.branch) same_path
            ∙ ap (λ x. commit_file p.file_path patch.content x) same_branch;
      } in
      if_lem {A = Reviewed} (λ r. Revises r.1)
        (not (git.accepts (commit_file q.file_path patch.content q.branch))) (λ _. one) (λ _. one)

  on_branch_file-Revises :
      (file : Option String) (rows : List Proposal)
      → member c.login e.allowed_users ≡ true
      → is_feature_branch p.branch e.base_branch ≡ true
      → git.read_file p.file_path p.branch ≡ file
      → Revises (on_branch_file e git c p file rows).1
  unfolding on_branch_file Revises
  on_branch_file-Revises none rows trusted on read = tt
  on_branch_file-Revises (some file) rows trusted on read =
      on_revision-Revises file (record p { last_comment_id = some c.id })
        (e.generator.revise p.file_path file c.body) rows refl refl trusted on read refl

  review-Revises : (rows : List Proposal) → Revises (apply_review_feedback e git c p rows).1
  unfolding apply_review_feedback is_authorized Revises
  review-Revises rows =
      if_lem {A = Reviewed} (λ r. Revises r.1) (not (member c.login e.allowed_users)) (λ _. tt)
        (λ listed.
          if_lem {A = Reviewed} (λ r. Revises r.1) (not (is_feature_branch p.branch e.base_branch))
            (λ _. tt)
            (λ on.
              on_branch_file-Revises (git.read_file p.file_path p.branch) rows (not-false _ listed)
                (not-false _ on) refl))

  -- A comment makes the engine write to Git at most once, and then only if its author is one of the
  -- listed users, the proposal's branch has a name and is not the base branch, and the write commits
  -- the generator's revision of the file on that branch to it.
  pub apply_review_feedback-IsRevision :
      (rows : List Proposal) (w : GitWrite) (ws : List GitWrite)
      → (apply_review_feedback e git c p rows).1 ≡ w ∷ ws
      → IsRevision e git c p w × (ws ≡ [])
  unfolding Revises
  apply_review_feedback-IsRevision rows w [] h = (subst Revises h (review-Revises rows), refl)
  apply_review_feedback-IsRevision rows w (v ∷ ws) h =
      absurd (subst Revises h (review-Revises rows))
