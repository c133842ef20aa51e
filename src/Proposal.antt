-- ===== src/Proposal.antt =====
-- The proposals of pull requests: src/registry_mcp/models/proposal.py, proposal/store.py and
-- proposal/lifecycle.py. The field `confidence`, a float that no operation here reads, is left out of
-- the record. What the Git provider answers is a parameter. Time is in microseconds.
pub mod Engine
mod Retire
mod Tests
use homelab_registry_mcp.Prelude.{
  ℕ, String, Bool, true, false, not, Option, none, some, List, [], if◌then◌else◌, leb, str_eq, suc,
  ◌&&◌, ◌==◌, ◌∷◌,
}
use homelab_registry_mcp.Table.{update, add, get, has_key, first, select}

pub data FindingType : Type 0 where
  auth_mode_conflict normalization legacy_adoption image_update vulnerability_scan : FindingType

pub data ProposalStatus : Type 0 where
  open_status merged cancelled snoozed verified rejected : ProposalStatus

pub record Proposal : Type 0 where
  pub id : String
  pub service_id : Option String
  pub finding_type : FindingType
  pub pr_url : String
  pub pr_number : Option ℕ
  pub branch : String
  pub file_path : String
  pub diff : String
  pub status : ProposalStatus
  pub rejection_reason : Option String
  pub actor : String
  pub last_comment_id : Option ℕ
  pub created_at : ℕ
  pub resolved_at : Option ℕ

abbrev finding_rank : FindingType → ℕ
finding_rank auth_mode_conflict = 0
finding_rank normalization = 1
finding_rank legacy_adoption = 2
finding_rank image_update = 3
finding_rank vulnerability_scan = 4

abbrev pub same_finding : FindingType → FindingType → Bool
same_finding a b = finding_rank a == finding_rank b

abbrev pub is_open : ProposalStatus → Bool
is_open open_status = true
is_open _ = false

abbrev pub id_of : Proposal → String
id_of p = p.id

abbrev pub is_service : String → Option String → Bool
is_service k none = false
is_service k (some s) = str_eq s k

-- `ProposalStore.create`
pub create : Proposal → List Proposal → Proposal × List Proposal
create proposal rows = (proposal, add proposal rows)

-- `ProposalStore.save` of a proposal whose row is in the table.
pub save : Proposal → List Proposal → Proposal × List Proposal
save proposal rows = (proposal, update (has_key id_of proposal.id) (λ r. proposal) rows)

-- `ProposalStore.get`
abbrev pub get_proposal : String → List Proposal → Option Proposal
get_proposal k rows = get id_of k rows

-- The rows that a new proposal for the service and finding would duplicate.
abbrev pub blocks : String → FindingType → Proposal → Bool
blocks service_id finding_type r =
    is_service service_id r.service_id
    && same_finding r.finding_type finding_type
    && is_open r.status

-- `ProposalStore.find_open`
pub find_open : String → FindingType → List Proposal → Option Proposal
find_open service_id finding_type rows = first (blocks service_id finding_type) rows

abbrev pub blocks_path : String → FindingType → Proposal → Bool
blocks_path file_path finding_type r =
    str_eq r.file_path file_path && same_finding r.finding_type finding_type && is_open r.status

-- `ProposalStore.find_open_by_path`
pub find_open_by_path : String → FindingType → List Proposal → Option Proposal
find_open_by_path file_path finding_type rows = first (blocks_path file_path finding_type) rows

-- Sorting by `created_at`, the newest first; rows of one time keep their order.
unfoldable pub insert_newest : Proposal → List Proposal → List Proposal
insert_newest p [] = p ∷ []
insert_newest p (q ∷ rows) =
    let rest = insert_newest p rows in
    if leb q.created_at p.created_at then p ∷ q ∷ rows else q ∷ rest

unfoldable pub newest_first : List Proposal → List Proposal
newest_first [] = []
newest_first (p ∷ rows) = insert_newest p (newest_first rows)

-- `ProposalStore.latest`
pub latest : String → FindingType → List Proposal → Option Proposal
latest service_id finding_type rows =
    first (λ r. true)
      (newest_first (
        select (λ r. is_service service_id r.service_id && same_finding r.finding_type finding_type)
          rows))

-- `ProposalStore.list_open`
pub list_open : (exclude_normalization : Bool) → List Proposal → List Proposal
list_open exclude_normalization rows = newest_first (
    select (λ r. not (exclude_normalization && same_finding r.finding_type normalization))
      (select (λ r. is_open r.status) rows))

abbrev pub set_status_found :
    (now : ℕ)
    → ProposalStatus
    → (resolved : Bool) → Option Proposal
    → List Proposal
    → Option Proposal × List Proposal
set_status_found now status resolved none rows = (none, rows)
set_status_found now status resolved (some p) rows =
    let put = λ (r : Proposal). record r {
      status = status;
      resolved_at = if resolved then some now else r.resolved_at;
    } in
    (some (put p), update (has_key id_of p.id) put rows)

-- `ProposalStore.set_status`
pub set_status :
    (now : ℕ)
    → String
    → ProposalStatus
    → (resolved : Bool) → List Proposal
    → Option Proposal × List Proposal
set_status now proposal_id status resolved rows =
    set_status_found now status resolved (get id_of proposal_id rows) rows

-- What `GitProvider.get_pr_state` returns: the states that are told apart.
pub data PrState : Type 0 where
  closed_pr merged_pr other_pr : PrState

-- The status of a proposal whose pull request is in a state, when it has one to move to.
abbrev pub status_after : FindingType → PrState → Option ProposalStatus
status_after finding closed_pr = some cancelled
status_after finding merged_pr =
    if same_finding finding auth_mode_conflict then none else some merged
status_after finding other_pr = none

abbrev pub retire_to :
    (now : ℕ) → Proposal → Option ProposalStatus → List Proposal → Bool × List Proposal
retire_to now p none rows = (false, rows)
retire_to now p (some status) rows = (true, (set_status now p.id status true rows).1)

-- `if not proposal.pr_number or git is None or not repo: return False`
abbrev pub pr_to_read : Option ℕ → Option String → Option (String × ℕ)
pr_to_read (some (suc n)) (some (String.◌∷◌ c s)) = some (String.◌∷◌ c s, suc n)
pr_to_read _ _ = none

abbrev pub retire_on : (now : ℕ) → Proposal → Option PrState → List Proposal → Bool × List Proposal
retire_on now p none rows = (false, rows)
retire_on now p (some state) rows = retire_to now p (status_after p.finding_type state) rows

abbrev pub retire_pr :
    (now : ℕ)
    → (String → ℕ → Option PrState)
    → Proposal
    → Option (String × ℕ)
    → List Proposal
    → Bool × List Proposal
retire_pr now get_pr_state p none rows = (false, rows)
retire_pr now get_pr_state p (some (name, number)) rows =
    retire_on now p (get_pr_state name number) rows

-- `retire_if_finished`. The provider is its `get_pr_state`, or `none` when there is none; `none` from
-- `get_pr_state` is a `GitError`.
pub retire_if_finished :
    (now : ℕ)
    → Option (String → ℕ → Option PrState)
    → (repo : Option String) → Proposal
    → List Proposal
    → Bool × List Proposal
retire_if_finished now none repo p rows = (false, rows)
retire_if_finished now (some get_pr_state) repo p rows =
    retire_pr now get_pr_state p (pr_to_read p.pr_number repo) rows
