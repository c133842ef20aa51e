-- ===== src/Proposal/Engine/Opening.antt =====
-- Opening a proposal keeps one open proposal at a time for a finding of a service.
use homelab_registry_mcp.Proposal.Engine.{
  create_branch, commit_file, open_pr, Draw, Git, Patch, ProposalEngine, Ran, branch_name,
  is_feature_branch, on_existing, on_file, on_patch, on_target, open_proposal, push, resolve_target,
}
use homelab_registry_mcp.Proposal.{
  auth_mode_conflict, normalization, legacy_adoption, FindingType, Proposal, auth_mode_conflict,
  blocks, is_open, same_finding, retire_if_finished, create, find_open, image_update, is_service,
  vulnerability_scan,
}
use homelab_registry_mcp.Prelude.{
  Bool, List, Option, String, arith, false, if_lem, inl, inr, none, refl, some, true, ◌≡◌, ◌≤◌, ap,
  eq_iff, ◌∙◌, Bool-cases, Result, and_elim, err, not, not-false, ok, subst, sym,
}
use homelab_registry_mcp.Table.{rowcount, first, add}
use homelab_registry_mcp.Table.Laws.{rowcount-add, rowcount-first-none}
use homelab_registry_mcp.Registry.{Service}
use homelab_registry_mcp.Proposal.Engine.Retires.{
  Retires, blocks-closed, retire_if_finished-Retires,
}

-- No service has two open proposals for one finding.
abbrev pub IsOnce : List Proposal → Type 0
IsOnce rows = (k : String) (f : FindingType) → rowcount (blocks k f) rows ≤ 1

same_finding-eq : (a b : FindingType) → same_finding a b ≡ true → a ≡ b
same_finding-eq auth_mode_conflict auth_mode_conflict h = refl
same_finding-eq normalization normalization h = refl
same_finding-eq legacy_adoption legacy_adoption h = refl
same_finding-eq image_update image_update h = refl
same_finding-eq vulnerability_scan vulnerability_scan h = refl
same_finding-eq _ _ h = cc

-- A row that is not open adds none.
pub closed_row-IsOnce :
    (r : Proposal) (rows : List Proposal)
    → is_open r.status ≡ false
    → IsOnce rows
    → IsOnce (add r rows)
closed_row-IsOnce r rows closed once k f =
    ground (arith, rowcount-add (blocks k f) r rows, blocks-closed k f r closed, once k f)

-- A row for a service and a finding that had none open.
open_row-IsOnce :
    (r : Proposal) (k : String) (f : FindingType) (rows : List Proposal)
    → r.service_id ≡ some k
    → r.finding_type ≡ f
    → rowcount (blocks k f) rows ≡ 0
    → IsOnce rows
    → IsOnce (add r rows)
open_row-IsOnce r k f rows of_service of_finding free once j g = elim (Bool-cases (blocks j g r)) [
  | inr apart ↦ ground (arith, rowcount-add (blocks j g) r rows, apart, once j g)
  | inl blocked ↦
      let (both, is_open_one) = and_elim _ (is_open r.status) blocked in
      let (serves, finds) =
        and_elim (is_service j r.service_id) (same_finding r.finding_type g) both in
      let same_k : k ≡ j = (eq_iff k j).0 (sym (ap (is_service j) of_service) ∙ serves) in
      let same_f : f ≡ g = sym of_finding ∙ same_finding-eq r.finding_type g finds in
      let none_open : rowcount (blocks j g) rows ≡ 0 =
        subst (λ x. rowcount (blocks x g) rows ≡ 0) same_k
          (subst (λ x. rowcount (blocks k x) rows ≡ 0) same_f free) in
      ground (arith, rowcount-add (blocks j g) r rows, blocked, none_open)
]

module _ (e : ProposalEngine) where
  -- A run keeps the proposals so.
  unfoldable pub KeepsOnce : Ran → Type 0
  KeepsOnce r = IsOnce r.2

  push-KeepsOnce :
      (git : Git) (d : Draw) (s : Service) (finding : FindingType) (path actor : String)
      (patch : Patch) (branch : String) (rows : List Proposal)
      → rowcount (blocks s.id finding) rows ≡ 0
      → IsOnce rows
      → KeepsOnce (push e git d s finding path actor patch branch rows)
  unfolding push create KeepsOnce
  push-KeepsOnce git d s finding path actor patch branch rows free once =
      let base = e.base_branch in
      if_lem {A = Ran} (λ r. IsOnce r.2) (not (is_feature_branch branch base)) (λ _. once)
        (λ _.
          if_lem {A = Ran} (λ r. IsOnce r.2) (not (git.accepts (create_branch branch base)))
            (λ _. once)
            (λ _.
              if_lem {A = Ran} (λ r. IsOnce r.2)
                (not (git.accepts (commit_file path patch.content branch))) (λ _. once)
                (λ _.
                  if_lem {A = Ran} (λ r. IsOnce r.2) (not (git.accepts (open_pr branch base)))
                    (λ _. once) (λ _. open_row-IsOnce _ s.id finding rows refl refl free once))))

  on_patch-KeepsOnce :
      (git : Git) (d : Draw) (s : Service) (finding : FindingType) (path actor : String)
      (r : Result String Patch) (rows : List Proposal)
      → rowcount (blocks s.id finding) rows ≡ 0
      → IsOnce rows
      → KeepsOnce (on_patch e git d s finding path actor r rows)
  unfolding on_patch create KeepsOnce
  on_patch-KeepsOnce git d s finding path actor (err reason) rows free once =
      closed_row-IsOnce _ rows refl once
  on_patch-KeepsOnce git d s finding path actor (ok patch) rows free once =
      if_lem {A = Ran} (λ r. IsOnce r.2) e.dry_run (λ _. once)
        (λ _.
          push-KeepsOnce git d s finding path actor patch (branch_name finding s.name d.suffix) rows
            free once)

  on_file-KeepsOnce :
      (git : Git) (d : Draw) (s : Service) (finding : FindingType) (path actor context : String)
      (file : Option String) (rows : List Proposal)
      → rowcount (blocks s.id finding) rows ≡ 0
      → IsOnce rows
      → KeepsOnce (on_file e git d s finding path actor context file rows)
  unfolding on_file KeepsOnce
  on_file-KeepsOnce git d s finding path actor context none rows free once = once
  on_file-KeepsOnce git d s finding path actor context (some file) rows free once =
      on_patch-KeepsOnce git d s finding path actor
        (e.generator.generate s finding file path context) rows free once

  on_target-KeepsOnce :
      (git : Git) (d : Draw) (s : Service) (finding : FindingType) (actor context : String)
      (target : Option String) (rows : List Proposal)
      → rowcount (blocks s.id finding) rows ≡ 0
      → IsOnce rows
      → KeepsOnce (on_target e git d s finding actor context target rows)
  unfolding on_target KeepsOnce
  on_target-KeepsOnce git d s finding actor context none rows free once = once
  on_target-KeepsOnce git d s finding actor context (some path) rows free once =
      on_file-KeepsOnce git d s finding path actor context (git.read_file path e.base_branch) rows
        free once

  -- After retiring the open proposal that was found, there is none.
  retired_free :
      (k : String) (f : FindingType) (rows : List Proposal) (p : Proposal)
      (after : Bool × List Proposal)
      → Retires rows p after
      → first (blocks k f) rows ≡ some p
      → IsOnce rows
      → after.0 ≡ true
      → rowcount (blocks k f) after.1 ≡ 0
  retired_free k f rows p after r found once retired =
      let gone = r.gone k f retired found in let one = once k f in omega arith

  pub Retires-IsOnce :
      (rows : List Proposal) (p : Proposal) (after : Bool × List Proposal)
      → Retires rows p after
      → IsOnce rows
      → IsOnce after.1
  Retires-IsOnce rows p after r once k f =
      let fewer = r.fewer k f in let one = once k f in omega arith

  on_existing-KeepsOnce :
      (git : Git) (d : Draw) (s : Service) (finding : FindingType) (actor context : String)
      (existing : Option Proposal) (rows : List Proposal)
      → find_open s.id finding rows ≡ existing
      → IsOnce rows
      → KeepsOnce (on_existing e git d s finding actor context existing rows)
  unfolding on_existing KeepsOnce find_open
  on_existing-KeepsOnce git d s finding actor context none rows found once =
      on_target-KeepsOnce git d s finding actor context (resolve_target e s) rows
        (rowcount-first-none (blocks s.id finding) rows found) once
  on_existing-KeepsOnce git d s finding actor context (some p) rows found once =
      let after = retire_if_finished d.now (some git.pr_state) e.repo p rows in
      let r = retire_if_finished-Retires d.now (some git.pr_state) e.repo p rows in
      let still = Retires-IsOnce rows p after r once in
      if_lem {A = Ran} (λ r. IsOnce r.2) (not after.0) (λ _. still)
        (λ retired.
          on_target-KeepsOnce git d s finding actor context (resolve_target e s) after.1
            (retired_free s.id finding rows p after r found once (not-false _ retired)) still)

  pub open_proposal-KeepsOnce :
      (git : Git) (d : Draw) (finding : FindingType) (s : Service) (actor context : String)
      (rows : List Proposal)
      → IsOnce rows
      → KeepsOnce (open_proposal e git d finding s actor context rows)
  unfolding open_proposal
  open_proposal-KeepsOnce git d finding s actor context rows once =
      on_existing-KeepsOnce git d s finding actor context (find_open s.id finding rows) rows refl
        once
