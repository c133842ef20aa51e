-- ===== src/Proposal/Retire.antt =====
-- Which proposals `retire_if_finished` retires, and what it leaves of the others.
use mathlib.Core.Option
use homelab_registry_mcp.Table.Laws.{first-update, first-test}
use homelab_registry_mcp.Table.{get, has_key}
use homelab_registry_mcp.Prelude.{
  List, Option, String, false, if◌then◌else◌, some, true, ℕ, ◌≡◌, ◌⊎◌, Bool, Bool-cases, arith,
  eq_iff, eq_refl, inl, inr, none, refl, ◌∙◌,
}
use homelab_registry_mcp.Proposal.{
  FindingType, PrState, Proposal, ProposalStatus, auth_mode_conflict, cancelled, closed_pr, id_of,
  is_open, merged_pr, other_pr, retire_if_finished, same_finding, set_status, status_after,
  pr_to_read, retire_on, retire_pr, retire_to,
}

-- The statuses that a finished pull request may give a proposal of a finding: none is open, and a
-- conflict of auth modes is only ever cancelled.
pub record Ends (finding : FindingType) (status : ProposalStatus) : Type 0 where
  pub closes : is_open status ≡ false
  pub waits : (same_finding finding auth_mode_conflict ≡ false) ⊎ (status ≡ cancelled)

status_after-Ends :
    (finding : FindingType) (state : PrState) (status : ProposalStatus)
    → status_after finding state ≡ some status
    → Ends finding status
status_after-Ends finding closed_pr status h = record {
  closes = ground (arith, h);
  waits = inr (ground (arith, h));
}
status_after-Ends finding merged_pr status h =
    elim (Bool-cases (same_finding finding auth_mode_conflict)) [
      | inl same ↦ ground (arith, h, same)
      | inr apart ↦ record { closes = ground (arith, h, apart); waits = inl apart }
    ]
status_after-Ends finding other_pr status h = cc

abbrev pub retired : (now : ℕ) → ProposalStatus → Proposal → Proposal
retired now status r = record r { status = status; resolved_at = some now }

-- The row that retiring the proposal `k` leaves in place of `r`.
abbrev pub retired_row : (now : ℕ) → String → ProposalStatus → Proposal → Proposal
retired_row now k status r = if has_key id_of k r then retired now status r else r

-- What `set_status` with `resolved` makes of the table.
get-set_status :
    (now : ℕ) (k j : String) (status : ProposalStatus) (rows : List Proposal) (p : Proposal)
    → get id_of k rows ≡ some p
    → get id_of j (set_status now k status true rows).1
      ≡ Option.map (retired_row now k status) (get id_of j rows)
unfolding set_status
get-set_status now k j status rows p found = rw found (
    rw ((eq_iff p.id k).0 (first-test (has_key id_of k) rows {r = p} found))
      (first-update (has_key id_of j) (has_key id_of k) (retired now status) rows (λ r. refl)))

-- What a call may do: nothing, or retire the proposal.
abbrev pub Outcome : (now : ℕ) → Proposal → String → List Proposal → Bool × List Proposal → Type 0
Outcome now p j rows result =
    (result ≡ (false, rows))
    ⊎ ((result.0 ≡ true)
        × ((status : ProposalStatus) × Ends p.finding_type status
            × (get id_of p.id result.1 ≡ some (retired now status p))
            × (get id_of j result.1 ≡ Option.map (retired_row now p.id status) (get id_of j rows))))

module _ (now : ℕ) (p : Proposal) (j : String) (rows : List Proposal)
    (found : get id_of p.id rows ≡ some p) where
  retire_to-Outcome :
      (to : Option ProposalStatus)
      → ((status : ProposalStatus) → to ≡ some status → Ends p.finding_type status)
      → Outcome now p j rows (retire_to now p to rows)
  retire_to-Outcome none ends = inl refl
  retire_to-Outcome (some status) ends = inr (
    refl,
    (
      status,
      ends status refl,
      get-set_status now p.id p.id status rows p found ∙ (rw found (rw (eq_refl p.id) refl)),
      get-set_status now p.id j status rows p found,
    ),
  )

  retire_pr-Outcome :
      (get_pr_state : String → ℕ → Option PrState) (read : Option (String × ℕ))
      → Outcome now p j rows (retire_pr now get_pr_state p read rows)
  retire_pr-Outcome get_pr_state none = inl refl
  retire_pr-Outcome get_pr_state (some (name, number)) =
      elim (get_pr_state name number) as (λ o. Outcome now p j rows (retire_on now p o rows)) [
        | none ↦ inl refl
        | some state ↦
            retire_to-Outcome (status_after p.finding_type state)
              (λ status. status_after-Ends p.finding_type state status)
      ]

  -- For a proposal of the table, `retire_if_finished` leaves the table alone and returns False; or it
  -- returns True, and the proposal then has a status that is not open and the time it was resolved,
  -- every row with another id being as before. A proposal for a conflict of auth modes is only
  -- cancelled, never merged.
  pub retire_if_finished_lem :
      (git : Option (String → ℕ → Option PrState)) (repo : Option String)
      → Outcome now p j rows (retire_if_finished now git repo p rows)
  unfolding retire_if_finished
  retire_if_finished_lem none repo = inl refl
  retire_if_finished_lem (some get_pr_state) repo =
      retire_pr-Outcome get_pr_state (pr_to_read p.pr_number repo)
