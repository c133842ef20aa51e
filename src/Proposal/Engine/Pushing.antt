-- ===== src/Proposal/Engine/Pushing.antt =====
-- Which branches the opening of a proposal writes to.
use homelab_registry_mcp.Registry.{Service}
use homelab_registry_mcp.Proposal.Engine.{
  create_branch, commit_file, open_pr, close_pr, Draw, Git, GitWrite, Patch, ProposalEngine, Ran,
  branch_name, is_feature_branch, on_existing, on_file, on_patch, on_target, open_proposal, push,
  resolve_target,
}
use homelab_registry_mcp.Prelude.{
  All, List, Option, Result, String, err, if_lem, none, not, not-false, ok, refl, some, true, ◌≡◌,
}
use homelab_registry_mcp.Proposal.{FindingType, Proposal, find_open, retire_if_finished}

-- A write goes to a branch that has a name and is not the base branch, and starts from the base.
abbrev pub OnFeature : (base : String) → GitWrite → Type 0
OnFeature base (create_branch branch from) = (is_feature_branch branch base ≡ true) × (from ≡ base)
OnFeature base (commit_file path content branch) = is_feature_branch branch base ≡ true
OnFeature base (open_pr branch into) = (is_feature_branch branch base ≡ true) × (into ≡ base)
OnFeature base (close_pr number) = Unit

module _ (e : ProposalEngine) where
  unfoldable pub AllOnFeature : List GitWrite → Type 0
  AllOnFeature = All (OnFeature e.base_branch)

  push-AllOnFeature :
      (git : Git) (d : Draw) (s : Service) (finding : FindingType) (path actor : String)
      (patch : Patch) (branch : String) (rows : List Proposal)
      → AllOnFeature (push e git d s finding path actor patch branch rows).1
  unfolding push AllOnFeature
  push-AllOnFeature git d s finding path actor patch branch rows =
      let base = e.base_branch in
      if_lem {A = Ran} (λ r. All (OnFeature base) r.1) (not (is_feature_branch branch base))
        (λ _. tt)
        (λ passed.
          let on = not-false _ passed in
          if_lem {A = Ran} (λ r. All (OnFeature base) r.1)
            (not (git.accepts (create_branch branch base))) (λ _. ((on, refl), tt))
            (λ _.
              if_lem {A = Ran} (λ r. All (OnFeature base) r.1)
                (not (git.accepts (commit_file path patch.content branch)))
                (λ _. ((on, refl), (on, tt)))
                (λ _.
                  if_lem {A = Ran} (λ r. All (OnFeature base) r.1)
                    (not (git.accepts (open_pr branch base)))
                    (λ _. ((on, refl), (on, ((on, refl), tt))))
                    (λ _. ((on, refl), (on, ((on, refl), tt)))))))

  on_patch-AllOnFeature :
      (git : Git) (d : Draw) (s : Service) (finding : FindingType) (path actor : String)
      (r : Result String Patch) (rows : List Proposal)
      → AllOnFeature (on_patch e git d s finding path actor r rows).1
  unfolding on_patch AllOnFeature
  on_patch-AllOnFeature git d s finding path actor (err reason) rows = tt
  on_patch-AllOnFeature git d s finding path actor (ok patch) rows =
      if_lem {A = Ran} (λ r. All (OnFeature e.base_branch) r.1) e.dry_run (λ _. tt)
        (λ _.
          push-AllOnFeature git d s finding path actor patch (branch_name finding s.name d.suffix)
            rows)

  on_file-AllOnFeature :
      (git : Git) (d : Draw) (s : Service) (finding : FindingType) (path actor context : String)
      (file : Option String) (rows : List Proposal)
      → AllOnFeature (on_file e git d s finding path actor context file rows).1
  unfolding on_file AllOnFeature
  on_file-AllOnFeature git d s finding path actor context none rows = tt
  on_file-AllOnFeature git d s finding path actor context (some file) rows =
      on_patch-AllOnFeature git d s finding path actor
        (e.generator.generate s finding file path context) rows

  on_target-AllOnFeature :
      (git : Git) (d : Draw) (s : Service) (finding : FindingType) (actor context : String)
      (target : Option String) (rows : List Proposal)
      → AllOnFeature (on_target e git d s finding actor context target rows).1
  unfolding on_target AllOnFeature
  on_target-AllOnFeature git d s finding actor context none rows = tt
  on_target-AllOnFeature git d s finding actor context (some path) rows =
      on_file-AllOnFeature git d s finding path actor context (git.read_file path e.base_branch)
        rows

  on_existing-AllOnFeature :
      (git : Git) (d : Draw) (s : Service) (finding : FindingType) (actor context : String)
      (existing : Option Proposal) (rows : List Proposal)
      → AllOnFeature (on_existing e git d s finding actor context existing rows).1
  unfolding on_existing AllOnFeature
  on_existing-AllOnFeature git d s finding actor context none rows =
      on_target-AllOnFeature git d s finding actor context (resolve_target e s) rows
  on_existing-AllOnFeature git d s finding actor context (some p) rows =
      let after = retire_if_finished d.now (some git.pr_state) e.repo p rows in
      if_lem {A = Ran} (λ r. All (OnFeature e.base_branch) r.1) (not after.0) (λ _. tt)
        (λ _. on_target-AllOnFeature git d s finding actor context (resolve_target e s) after.1)

  pub open_proposal-AllOnFeature :
      (git : Git) (d : Draw) (finding : FindingType) (s : Service) (actor context : String)
      (rows : List Proposal)
      → AllOnFeature (open_proposal e git d finding s actor context rows).1
  unfolding open_proposal
  open_proposal-AllOnFeature git d finding s actor context rows =
      on_existing-AllOnFeature git d s finding actor context (find_open s.id finding rows) rows
