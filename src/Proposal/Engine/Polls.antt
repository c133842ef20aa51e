-- ===== src/Proposal/Engine/Polls.antt =====
-- The scheduler's poll for comments of src/registry_mcp/proposal/engine.py: `poll_pr_comments`. The
-- comments that the hosting lists are a parameter, none being a `GitError`.
use homelab_registry_mcp.Prelude.{
  List, Option, [], if◌then◌else◌, ltb, none, some, str_eq, true, ℕ, ◌++◌, ◌==◌, ◌||◌, ◌∷◌,
}
use homelab_registry_mcp.Proposal.{Proposal, list_open}
use homelab_registry_mcp.Proposal.Engine.{Git, GitWrite, ProposalEngine}
use homelab_registry_mcp.Proposal.Engine.Review.{Comment, apply_review_feedback}
use homelab_registry_mcp.Table.{select}

unfoldable pub insert_comment : Comment → List Comment → List Comment
insert_comment c [] = c ∷ []
insert_comment c (d ∷ ds) =
    let rest = insert_comment c ds in if ltb c.id d.id then c ∷ d ∷ ds else d ∷ rest

-- In the order of their numbers; equal ones stay in the order they came in.
unfoldable pub by_number : List Comment → List Comment → List Comment
unfolding insert_comment
by_number sorted [] = sorted
by_number sorted (c ∷ cs) = by_number (insert_comment c sorted) cs

-- The number of the last comment that was seen, and 0 for none.
abbrev seen : Option ℕ → ℕ
seen none = 0
seen (some number) = number

-- The comments that `_poll_one` reviews.
unfoldable pub new_comments : (last : Option ℕ) → List Comment → List Comment
unfolding by_number select
new_comments last comments = by_number [] (select (λ c. ltb (seen last) c.id) comments)

-- The pull request that is polled, when the proposal has one and a branch.
unfoldable pub polled_pr : Proposal → Option ℕ
polled_pr p = elim p.pr_number [
  | none ↦ none
  | some number ↦ if number == 0 || str_eq p.branch "" then none else some number
]

-- After a review: nothing more when it raised.
unfoldable pub after_review :
    (writes : List GitWrite)
    → List Proposal
    → Option Proposal
    → (Proposal → List GitWrite × List Proposal)
    → List GitWrite × List Proposal
after_review writes rows none next = (writes, rows)
after_review writes rows (some p) next = let (more, last) = next p in (writes ++ more, last)

module _ (e : ProposalEngine) where
  -- The loop of `_poll_one`.
  unfoldable pub review_each :
      Git → List Comment → Proposal → List Proposal → List GitWrite × List Proposal
  unfolding apply_review_feedback after_review
  review_each git [] p rows = ([], rows)
  review_each git (c ∷ cs) p rows =
      let (reviewed, writes, rows') = apply_review_feedback e git c p rows in
      after_review writes rows' reviewed (λ p'. review_each git cs p' rows')

  -- `_poll_one`
  unfoldable pub poll_one :
      Git → Option (List Comment) → Proposal → List Proposal → List GitWrite × List Proposal
  unfolding review_each new_comments
  poll_one git none p rows = ([], rows)
  poll_one git (some comments) p rows =
      review_each git (new_comments p.last_comment_id comments) p rows

  -- On the pull request that is polled.
  unfoldable pub poll_pr :
      Git
      → (comments : ℕ → Option (List Comment)) → Option ℕ
      → Proposal
      → List Proposal
      → List GitWrite × List Proposal
  unfolding poll_one
  poll_pr git comments none p rows = ([], rows)
  poll_pr git comments (some number) p rows = poll_one git (comments number) p rows

  -- The loop of `poll_pr_comments`.
  unfoldable pub poll_each :
      Git
      → (comments : ℕ → Option (List Comment)) → List Proposal
      → List Proposal
      → List GitWrite × List Proposal
  unfolding poll_pr polled_pr
  poll_each git comments [] rows = ([], rows)
  poll_each git comments (p ∷ ps) rows =
      let (writes, rows') = poll_pr git comments (polled_pr p) p rows in
      let (more, last) = poll_each git comments ps rows' in (writes ++ more, last)

  -- `poll_pr_comments`
  unfoldable pub poll_pr_comments :
      Option Git
      → (comments : ℕ → Option (List Comment)) → List Proposal
      → List GitWrite × List Proposal
  unfolding poll_each list_open
  poll_pr_comments none comments rows = ([], rows)
  poll_pr_comments (some git) comments rows = poll_each git comments (list_open true rows) rows
