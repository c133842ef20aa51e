-- ===== src/Proposal/Engine/Sweeps.antt =====
-- The scheduler's hook of src/registry_mcp/proposal/engine.py: `after_discovery`, with the sweeps and the
-- creation of proposals that it runs.
use homelab_registry_mcp.Registry.{Service, ChangeEvent}
use homelab_registry_mcp.Registry.Store.{Tables, get_service}
use homelab_registry_mcp.Proposal.{
  auth_mode_conflict, cancelled, rejected, verified, Proposal, ProposalStatus, find_open,
  is_service, latest, list_open, retire_if_finished, same_finding, set_status,
}
use homelab_registry_mcp.Prelude.{
  Bool, List, Option, String, [], false, if◌then◌else◌, is_some, leb, ltb, none, not, some, true, ℕ,
  ◌&&◌, ◌++◌, ◌+◌, ◌||◌, ◌∷◌,
}
use homelab_registry_mcp.Proposal.Engine.{
  Draw, Git, GitWrite, ProposalEngine, configured_git, create_for_service,
}

abbrev pub day : ℕ
day = 86400000000

abbrev is_cancelled : ProposalStatus → Bool
is_cancelled cancelled = true
is_cancelled _ = false

abbrev is_rejected : ProposalStatus → Bool
is_rejected rejected = true
is_rejected _ = false

-- Whether the newest change of the service is after a time.
unfoldable pub changed_after : (service_id : String) → (time : ℕ) → List ChangeEvent → Bool
changed_after k time [] = false
changed_after k time (c ∷ cs) =
    (is_service k c.service_id && ltb time c.created_at) || changed_after k time cs

-- `_rejection_worth_retrying`
unfoldable pub worth_retrying : (now : ℕ) → Service → Proposal → List ChangeEvent → Bool
unfolding changed_after
worth_retrying now s p changes =
    changed_after s.id p.created_at changes || leb (p.created_at + day) now

-- What the latest proposal of a finding lets `_auto_create` do.
unfoldable pub latest_allows : (now : ℕ) → Service → Option Proposal → List ChangeEvent → Bool
unfolding worth_retrying
latest_allows now s none changes = true
latest_allows now s (some p) changes =
    not (is_cancelled p.status)
    && not (is_rejected p.status && not (worth_retrying now s p changes))

-- The guards of `_auto_create`.
unfoldable pub should_create : (now : ℕ) → Tables → Service → List Proposal → Bool
unfolding latest_allows find_open latest
should_create now t s rows =
    s.auth_mode_conflict
    && not s.stale
    && not (is_some (find_open s.id auth_mode_conflict rows))
    && latest_allows now s (latest s.id auth_mode_conflict rows) t.changes

-- What `sweep_verifications` does with one open proposal whose service is as the registry has it.
unfoldable pub sweep_service : (now : ℕ) → Proposal → Option Service → List Proposal → List Proposal
unfolding set_status
sweep_service now p none rows = rows
sweep_service now p (some s) rows =
    if s.auth_mode_conflict then rows else (set_status now p.id verified true rows).1

-- By the proposal's service.
unfoldable pub sweep_one :
    (now : ℕ) → Tables → Proposal → Option String → List Proposal → List Proposal
unfolding sweep_service get_service
sweep_one now t p none rows = rows
sweep_one now t p (some k) rows = sweep_service now p (get_service k t) rows

-- The loop of `sweep_verifications`.
unfoldable pub sweep_each : (now : ℕ) → Tables → List Proposal → List Proposal → List Proposal
unfolding sweep_one
sweep_each now t [] rows = rows
sweep_each now t (p ∷ ps) rows = sweep_each now t ps (
    if same_finding p.finding_type auth_mode_conflict
    then sweep_one now t p p.service_id rows
    else rows)

-- `sweep_verifications`
unfoldable pub sweep_verifications : (now : ℕ) → Tables → List Proposal → List Proposal
unfolding sweep_each list_open
sweep_verifications now t rows = sweep_each now t (list_open true rows) rows

module _ (e : ProposalEngine) where
  -- The loop of `sync_pr_states`.
  unfoldable pub retire_each : Git → (now : ℕ) → List Proposal → List Proposal → List Proposal
  unfolding retire_if_finished
  retire_each git now [] rows = rows
  retire_each git now (p ∷ ps) rows =
      retire_each git now ps (retire_if_finished now (some git.pr_state) e.repo p rows).1

  -- `sync_pr_states`
  unfoldable pub sync_pr_states : Git → (now : ℕ) → List Proposal → List Proposal
  unfolding retire_each list_open
  sync_pr_states git now rows = retire_each git now (list_open false rows) rows

  -- The loop of `_auto_create`, with what each creation draws.
  unfoldable pub auto_create_each :
      (draws : String → Draw)
      → Tables
      → List Service
      → List Proposal
      → List GitWrite × List Proposal
  unfolding should_create create_for_service
  auto_create_each draws t [] rows = ([], rows)
  auto_create_each draws t (s ∷ ss) rows =
      let d = draws s.id in
      let (outcome, writes, rows') = create_for_service e d s.id "discovery:auto" t rows in
      let skip = auto_create_each draws t ss rows in
      let (more, last) = auto_create_each draws t ss rows' in
      if should_create d.now t s rows then (writes ++ more, last) else skip

  -- `after_discovery`, where the engine is configured.
  unfoldable pub with_hosting :
      (now : ℕ)
      → (draws : String → Draw) → Tables
      → Option Git
      → List Proposal
      → List GitWrite × List Proposal
  unfolding sync_pr_states sweep_verifications auto_create_each
  with_hosting now draws t none rows = ([], rows)
  with_hosting now draws t (some git) rows =
      let swept = sweep_verifications now t (sync_pr_states git now rows) in
      if e.auto_create && not e.read_only
      then auto_create_each draws t t.services swept
      else ([], swept)

  -- `after_discovery`
  unfoldable pub after_discovery :
      (now : ℕ) → (draws : String → Draw) → Tables → List Proposal → List GitWrite × List Proposal
  unfolding with_hosting
  after_discovery now draws t rows = with_hosting now draws t (configured_git e e.git e.repo) rows
