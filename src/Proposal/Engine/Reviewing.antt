-- ===== src/Proposal/Engine/Reviewing.antt =====
-- Which branches the engine writes to when it reviews comments and polls for them.
use homelab_registry_mcp.Proposal.Engine.Calls.{review_call}
use homelab_registry_mcp.Proposal.Engine.{
  commit_file, Git, GitWrite, Patch, ProposalEngine, is_feature_branch,
}
use homelab_registry_mcp.Prelude.{
  All, List, Option, Result, String, [], err, if_lem, none, not, not-false, ok, some, true, ℕ, ◌∷◌,
  ◌≡◌,
}
use homelab_registry_mcp.Proposal.{Proposal, list_open}
use homelab_registry_mcp.Proposal.Engine.Review.{
  apply_review_feedback, Comment, on_revision, on_branch_file, Reviewed, is_authorized,
}
use homelab_registry_mcp.Proposal.Engine.Pushing.{AllOnFeature, OnFeature}
use homelab_registry_mcp.Proposal.Engine.Polls.{
  after_review, review_each, poll_one, poll_pr, poll_each, poll_pr_comments, new_comments,
  polled_pr,
}
use homelab_registry_mcp.Proposal.Engine.Creating.{nothing, AllOnFeature-append}

module _ (e : ProposalEngine) where
  on_revision-AllOnFeature :
      (git : Git) (p : Proposal) (r : Result String Patch) (rows : List Proposal)
      → is_feature_branch p.branch e.base_branch ≡ true
      → AllOnFeature e (on_revision e git p r rows).1
  unfolding on_revision AllOnFeature
  on_revision-AllOnFeature git p (err reason) rows on = tt
  on_revision-AllOnFeature git p (ok patch) rows on =
      if_lem {A = Reviewed} (λ r. All (OnFeature e.base_branch) r.1)
        (not (git.accepts (commit_file p.file_path patch.content p.branch))) (λ _. (on, tt))
        (λ _. (on, tt))

  on_branch_file-AllOnFeature :
      (git : Git) (c : Comment) (p : Proposal) (file : Option String) (rows : List Proposal)
      → is_feature_branch p.branch e.base_branch ≡ true
      → AllOnFeature e (on_branch_file e git c p file rows).1
  unfolding on_branch_file AllOnFeature
  on_branch_file-AllOnFeature git c p none rows on = tt
  on_branch_file-AllOnFeature git c p (some file) rows on =
      on_revision-AllOnFeature git (record p { last_comment_id = some c.id })
        (e.generator.revise p.file_path file c.body) rows on

  apply_review_feedback-AllOnFeature :
      (git : Git) (c : Comment) (p : Proposal) (rows : List Proposal)
      → AllOnFeature e (apply_review_feedback e git c p rows).1
  unfolding apply_review_feedback AllOnFeature
  apply_review_feedback-AllOnFeature git c p rows =
      if_lem {A = Reviewed} (λ r. All (OnFeature e.base_branch) r.1) (not (is_authorized e c))
        (λ _. tt)
        (λ _.
          if_lem {A = Reviewed} (λ r. All (OnFeature e.base_branch) r.1)
            (not (is_feature_branch p.branch e.base_branch)) (λ _. tt)
            (λ passed.
              on_branch_file-AllOnFeature git c p (git.read_file p.file_path p.branch) rows
                (not-false _ passed)))

  pub review_call-AllOnFeature :
      (git : Option Git) (c : Comment) (p : Proposal) (rows : List Proposal)
      → AllOnFeature e (review_call e git c p rows).0
  unfolding review_call
  review_call-AllOnFeature none c p rows = nothing e
  review_call-AllOnFeature (some git) c p rows = apply_review_feedback-AllOnFeature git c p rows

  after_review-AllOnFeature :
      (writes : List GitWrite) (rows : List Proposal) (reviewed : Option Proposal)
      (next : Proposal → List GitWrite × List Proposal)
      → AllOnFeature e writes
      → ((p : Proposal) → AllOnFeature e (next p).0)
      → AllOnFeature e (after_review writes rows reviewed next).0
  unfolding after_review
  after_review-AllOnFeature writes rows none next all more = all
  after_review-AllOnFeature writes rows (some p) next all more =
      AllOnFeature-append e writes _ all (more p)

  review_each-AllOnFeature :
      (git : Git) (cs : List Comment) (p : Proposal) (rows : List Proposal)
      → AllOnFeature e (review_each e git cs p rows).0
  unfolding review_each
  review_each-AllOnFeature git [] p rows = nothing e
  review_each-AllOnFeature git (c ∷ cs) p rows =
      let r = apply_review_feedback e git c p rows in
      after_review-AllOnFeature r.1 r.2 r.0 (λ p'. review_each e git cs p' r.2)
        (apply_review_feedback-AllOnFeature git c p rows)
        (λ p'. review_each-AllOnFeature git cs p' r.2)

  poll_one-AllOnFeature :
      (git : Git) (comments : Option (List Comment)) (p : Proposal) (rows : List Proposal)
      → AllOnFeature e (poll_one e git comments p rows).0
  unfolding poll_one
  poll_one-AllOnFeature git none p rows = nothing e
  poll_one-AllOnFeature git (some comments) p rows =
      review_each-AllOnFeature git (new_comments p.last_comment_id comments) p rows

  poll_pr-AllOnFeature :
      (git : Git) (comments : ℕ → Option (List Comment)) (number : Option ℕ) (p : Proposal)
      (rows : List Proposal)
      → AllOnFeature e (poll_pr e git comments number p rows).0
  unfolding poll_pr
  poll_pr-AllOnFeature git comments none p rows = nothing e
  poll_pr-AllOnFeature git comments (some number) p rows =
      poll_one-AllOnFeature git (comments number) p rows

  poll_each-AllOnFeature :
      (git : Git) (comments : ℕ → Option (List Comment)) (ps rows : List Proposal)
      → AllOnFeature e (poll_each e git comments ps rows).0
  unfolding poll_each
  poll_each-AllOnFeature git comments [] rows = nothing e
  poll_each-AllOnFeature git comments (p ∷ ps) rows =
      let polled = poll_pr e git comments (polled_pr p) p rows in
      AllOnFeature-append e polled.0 _ (poll_pr-AllOnFeature git comments (polled_pr p) p rows)
        (poll_each-AllOnFeature git comments ps polled.1)

  pub poll_pr_comments-AllOnFeature :
      (git : Option Git) (comments : ℕ → Option (List Comment)) (rows : List Proposal)
      → AllOnFeature e (poll_pr_comments e git comments rows).0
  unfolding poll_pr_comments
  poll_pr_comments-AllOnFeature none comments rows = nothing e
  poll_pr_comments-AllOnFeature (some git) comments rows =
      poll_each-AllOnFeature git comments (list_open true rows) rows
