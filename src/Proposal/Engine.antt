-- ===== src/Proposal/Engine.antt =====
-- The proposal engine of src/registry_mcp/proposal/engine.py: how a proposal is opened. What the Git
-- hosting and the patch generator answer is a parameter, and so are the ids, the random branch
-- suffix, the path template and the clock. The calls that write to Git are logged in their order.
-- A dictionary that the source returns is a constructor; notifications are not modelled.
pub mod Review
pub mod Alerts
pub mod Polls
pub mod Sweeps
pub mod Calls
pub mod Pushing
pub mod Creating
pub mod Reviewing
pub mod Branches
pub mod Retires
pub mod Opening
pub mod Comments
pub mod Sweeping
pub mod Once
mod Tests
use Prim.Native.String.{◌++◌ as join}
use homelab_registry_mcp.Proposal.{
  auth_mode_conflict, normalization, legacy_adoption, image_update, vulnerability_scan, open_status,
  rejected, FindingType, PrState, Proposal, ProposalStatus, create, find_open, retire_if_finished,
}
use homelab_registry_mcp.Registry.{Service}
use homelab_registry_mcp.Registry.Store.{Tables, get_service}
use homelab_registry_mcp.Prelude.{
  Bool, List, Option, Result, String, [], err, if◌then◌else◌, none, not, ok, some, str_eq, ℕ, ◌||◌,
  ◌∷◌,
}

-- A call that writes to the repository.
pub data GitWrite : Type 0 where
  create_branch : (branch base : String) → GitWrite
  commit_file : (path content branch : String) → GitWrite
  open_pr : (branch base : String) → GitWrite
  close_pr : ℕ → GitWrite

-- What the hosting answers: none or false is a `GitError`.
pub record Git : Type 0 where
  pub pr_state : String → ℕ → Option PrState
  pub read_file : (path ref : String) → Option String
  pub accepts : GitWrite → Bool
  pub opened_pr : (branch : String) → String × ℕ

pub record Patch : Type 0 where
  pub content : String
  pub commit_message : String

-- `PatchGenerator`: a patch, or the reason why there is none.
pub record Generator : Type 0 where
  pub generate :
      Service → FindingType → (current_file file_path context : String) → Result String Patch
  pub revise : (file_path current_file feedback : String) → Result String Patch

pub record ProposalEngine : Type 0 where
  pub git : Option Git
  pub repo : Option String
  pub base_branch : String
  pub path_of : (node service : String) → String
  pub generator : Generator
  pub dry_run : Bool
  pub allowed_users : List String
  pub auto_create : Bool
  pub read_only : Bool

-- What a call draws: its time, the new proposal's id and the branch's suffix.
pub record Draw : Type 0 where
  pub now : ℕ
  pub id : String
  pub suffix : String

pub data Outcome : Type 0 where
  not_configured no_service no_finding no_image no_target unreadable git_failed dry_run_only :
      Outcome
  skipped rejected_patch opened : Proposal → Outcome

-- The outcome, the calls that wrote to Git, and the proposals.
abbrev pub Ran : Type 0
Ran = Outcome × List GitWrite × List Proposal

-- `FindingType.value`
abbrev pub finding_value : FindingType → String
finding_value auth_mode_conflict = "auth_mode_conflict"
finding_value normalization = "normalization"
finding_value legacy_adoption = "legacy_adoption"
finding_value image_update = "image_update"
finding_value vulnerability_scan = "vulnerability_scan"

-- `_branch_name`
abbrev pub branch_name : FindingType → (service suffix : String) → String
branch_name finding service suffix =
    join "patch/" (join (finding_value finding) (join "-" (join service (join "-" suffix))))

-- `_assert_feature_branch`, as whether it lets the branch pass.
unfoldable pub is_feature_branch : (branch base : String) → Bool
is_feature_branch branch base = not (str_eq branch "" || str_eq branch base)

-- `_finding_type`
abbrev pub finding_type_of : Service → Option FindingType
finding_type_of s = if s.auth_mode_conflict then some auth_mode_conflict else none

module _ (e : ProposalEngine) where
  -- `_resolve_target`
  unfoldable pub resolve_target : Service → Option String
  resolve_target s = elim s.host [
    | none ↦ none
    | some host ↦ if str_eq host "" then none else some (e.path_of host s.name)
  ]

  -- A proposal as the engine makes them.
  abbrev pub draft :
      Draw
      → Service
      → FindingType
      → (path : String) → ProposalStatus
      → (reason : Option String) → (actor : String) → Proposal
  draft d s finding path status reason actor = record {
    id = d.id;
    service_id = some s.id;
    finding_type = finding;
    pr_url = "";
    pr_number = none;
    branch = "";
    file_path = path;
    diff = "";
    status = status;
    rejection_reason = reason;
    actor = actor;
    last_comment_id = none;
    created_at = d.now;
    resolved_at = none;
  }

  abbrev pub opened_draft :
      Draw → Service → FindingType → (path branch diff url actor : String) → ℕ → Proposal
  opened_draft d s finding path branch diff url actor number =
      record (draft d s finding path open_status none actor) {
        pr_url = url;
        pr_number = some number;
        branch = branch;
        diff = diff;
      }

  -- The three writes, and the proposal that is recorded when none failed.
  unfoldable pub push :
      Git
      → Draw
      → Service
      → FindingType
      → (path actor : String) → Patch
      → (branch : String) → List Proposal
      → Ran
  unfolding create is_feature_branch
  push git d s finding path actor patch branch rows =
      let base = e.base_branch in
      let branching = create_branch branch base in
      let committing = commit_file path patch.content branch in
      let opening = open_pr branch base in
      let (url, number) = git.opened_pr branch in
      let (proposal, rows') =
        create (opened_draft d s finding path branch patch.content url actor number) rows in
      if not (is_feature_branch branch base)
      then (git_failed, [], rows)
      else if not (git.accepts branching)
      then (git_failed, branching ∷ [], rows)
      else if not (git.accepts committing)
      then (git_failed, branching ∷ committing ∷ [], rows)
      else if not (git.accepts opening)
      then (git_failed, branching ∷ committing ∷ opening ∷ [], rows)
      else (opened proposal, branching ∷ committing ∷ opening ∷ [], rows')

  -- `_open_proposal` on what the generator gave.
  unfoldable pub on_patch :
      Git
      → Draw
      → Service
      → FindingType
      → (path actor : String) → Result String Patch
      → List Proposal
      → Ran
  unfolding push create
  on_patch git d s finding path actor (err reason) rows =
      let (proposal, rows') = create (draft d s finding path rejected (some reason) actor) rows in
      (rejected_patch proposal, [], rows')
  on_patch git d s finding path actor (ok patch) rows =
      if e.dry_run
      then (dry_run_only, [], rows)
      else push git d s finding path actor patch (branch_name finding s.name d.suffix) rows

  -- On the file's content.
  unfoldable pub on_file :
      Git
      → Draw
      → Service
      → FindingType
      → (path actor context : String) → Option String
      → List Proposal
      → Ran
  unfolding on_patch
  on_file git d s finding path actor context none rows = (unreadable, [], rows)
  on_file git d s finding path actor context (some file) rows =
      on_patch git d s finding path actor (e.generator.generate s finding file path context) rows

  -- On the target file.
  unfoldable pub on_target :
      Git
      → Draw
      → Service
      → FindingType
      → (actor context : String) → Option String
      → List Proposal
      → Ran
  unfolding on_file
  on_target git d s finding actor context none rows = (no_target, [], rows)
  on_target git d s finding actor context (some path) rows =
      on_file git d s finding path actor context (git.read_file path e.base_branch) rows

  -- On the open proposal that was found, if there was one.
  unfoldable pub on_existing :
      Git
      → Draw
      → Service
      → FindingType
      → (actor context : String) → Option Proposal
      → List Proposal
      → Ran
  unfolding on_target resolve_target retire_if_finished
  on_existing git d s finding actor context none rows =
      on_target git d s finding actor context (resolve_target s) rows
  on_existing git d s finding actor context (some p) rows =
      let (retired, rows') = retire_if_finished d.now (some git.pr_state) e.repo p rows in
      let on = on_target git d s finding actor context (resolve_target s) rows' in
      if not retired then (skipped p, [], rows') else on

  -- `_open_proposal`
  unfoldable pub open_proposal :
      Git → Draw → FindingType → Service → (actor context : String) → List Proposal → Ran
  unfolding on_existing find_open
  open_proposal git d finding s actor context rows =
      on_existing git d s finding actor context (find_open s.id finding rows) rows

  abbrev pub with_git : (Git → Ran) → Option Git → List Proposal → Ran
  with_git run none rows = (not_configured, [], rows)
  with_git run (some git) rows = run git

  -- `configured`, with the provider that it finds.
  abbrev pub configured_git : Option Git → Option String → Option Git
  configured_git git none = none
  configured_git git (some repo) = if str_eq repo "" then none else git

  -- `if not self.configured`
  unfoldable pub when_configured : (Git → Ran) → List Proposal → Ran
  when_configured run rows = with_git run (configured_git e.git e.repo) rows

  -- `create_for_service` on the service's finding.
  unfoldable pub on_finding :
      Git → Draw → (actor : String) → Service → Option FindingType → List Proposal → Ran
  unfolding open_proposal
  on_finding git d actor s none rows = (no_finding, [], rows)
  on_finding git d actor s (some finding) rows = open_proposal git d finding s actor "" rows

  -- On what the registry has.
  unfoldable pub create_for_found :
      Git → Draw → (actor : String) → Option Service → List Proposal → Ran
  unfolding on_finding
  create_for_found git d actor none rows = (no_service, [], rows)
  create_for_found git d actor (some s) rows = on_finding git d actor s (finding_type_of s) rows

  unfoldable pub create_for_service :
      Draw → (service_id actor : String) → Tables → List Proposal → Ran
  unfolding create_for_found get_service when_configured
  create_for_service d service_id actor t rows =
      when_configured (λ git. create_for_found git d actor (get_service service_id t) rows) rows
