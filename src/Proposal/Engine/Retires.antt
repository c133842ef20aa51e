-- ===== src/Proposal/Engine/Retires.antt =====
-- What retiring finished proposals does to how many are open.
use homelab_registry_mcp.Proposal.{
  closed_pr, merged_pr, other_pr, FindingType, PrState, Proposal, ProposalStatus,
  auth_mode_conflict, blocks, id_of, is_open, same_finding, set_status_found, status_after,
  pr_to_read, retire_if_finished, retire_on, retire_pr, retire_to, set_status,
}
use homelab_registry_mcp.Prelude.{
  Bool, List, Option, String, arith, false, if_lem, inl, inr, none, refl, some, true, ℕ, ◌+◌, ◌≡◌,
  ◌≤◌, ap, eq_iff, eq_refl, str_eq, ◌∙◌,
}
use homelab_registry_mcp.Table.{rowcount, first, get, has_key}
use homelab_registry_mcp.Table.Laws.{
  rowcount-update_out, rowcount-update-first, first-get-none, first-test,
}

-- A status that is not the open one.
Closes : Option ProposalStatus → Type 0
Closes none = Unit
Closes (some status) = is_open status ≡ false

status_after-Closes : (f : FindingType) (state : PrState) → Closes (status_after f state)
unfolding Closes
status_after-Closes f closed_pr = refl
status_after-Closes f merged_pr =
    if_lem Closes (same_finding f auth_mode_conflict) (λ _. tt) (λ _. refl)
status_after-Closes f other_pr = tt

pub blocks-closed :
    (k : String) (f : FindingType) (r : Proposal) → is_open r.status ≡ false → blocks k f r ≡ false
blocks-closed k f r h = ground (arith, h)

-- What retiring does to the open proposals: they are no more than before; and where it retires the
-- one that was found for a finding, none is left for this finding.
pub record Retires (rows : List Proposal) (p : Proposal) (result : Bool × List Proposal)
    : Type 0 where
  pub fewer :
      (k : String) (f : FindingType) → rowcount (blocks k f) result.1 ≤ rowcount (blocks k f) rows
  pub gone :
      (k : String) (f : FindingType)
      → result.0 ≡ true
      → first (blocks k f) rows ≡ some p
      → rowcount (blocks k f) result.1 + 1 ≤ rowcount (blocks k f) rows

Retires-nothing : (rows : List Proposal) (p : Proposal) → Retires rows p (false, rows)
Retires-nothing rows p = record { fewer = λ k f. omega arith; gone = λ k f h. cc }

found_by_key :
    (rows : List Proposal) (p : Proposal) (k : String) (f : FindingType)
    → get id_of p.id rows ≡ none
    → first (blocks k f) rows ≡ some p
    → ⊥
found_by_key rows p k f got found = elim (first-get-none id_of (blocks k f) rows p got) [
  | inl nothing ↦ ground (arith, nothing, found)
  | inr (b, there, apart) ↦
      let is_p : b ≡ p = ground (arith, there, found) in
      ground (arith, apart, ap (λ r. str_eq r.id p.id) is_p, eq_refl p.id)
]

set_status_found-Retires :
    (now : ℕ) (status : ProposalStatus) (found : Option Proposal) (rows : List Proposal)
    (p : Proposal)
    → is_open status ≡ false
    → get id_of p.id rows ≡ found
    → Retires rows p (true, (set_status_found now status true found rows).1)
set_status_found-Retires now status none rows p closed got = record {
  fewer = λ k f. omega arith;
  gone = λ k f h found. absurd (found_by_key rows p k f got found);
}
set_status_found-Retires now status (some p') rows p closed got =
    let put : Proposal → Proposal = λ r. record r { status = status; resolved_at = some now } in
    let same : has_key id_of p'.id p ≡ true =
      ap (λ j. str_eq p.id j)
        ((eq_iff p'.id p.id).0 (first-test (has_key id_of p.id) rows {r = p'} got))
      ∙ eq_refl p.id in
    record {
      fewer = λ k f.
          rowcount-update_out (blocks k f) (has_key id_of p'.id) _ rows
            (λ r. blocks-closed k f (put r) closed);
      gone = λ k f h found.
          rowcount-update-first (blocks k f) (has_key id_of p'.id) _ rows
            (λ r. blocks-closed k f (put r) closed) found same;
    }

retire_to-Retires :
    (now : ℕ) (p : Proposal) (status : Option ProposalStatus) (rows : List Proposal)
    → Closes status
    → Retires rows p (retire_to now p status rows)
unfolding Closes set_status
retire_to-Retires now p none rows closed = Retires-nothing rows p
retire_to-Retires now p (some status) rows closed =
    set_status_found-Retires now status (get id_of p.id rows) rows p closed refl

retire_on-Retires :
    (now : ℕ) (p : Proposal) (state : Option PrState) (rows : List Proposal)
    → Retires rows p (retire_on now p state rows)
retire_on-Retires now p none rows = Retires-nothing rows p
retire_on-Retires now p (some state) rows =
    retire_to-Retires now p (status_after p.finding_type state) rows
      (status_after-Closes p.finding_type state)

retire_pr-Retires :
    (now : ℕ) (states : String → ℕ → Option PrState) (p : Proposal) (pr : Option (String × ℕ))
    (rows : List Proposal)
    → Retires rows p (retire_pr now states p pr rows)
retire_pr-Retires now states p none rows = Retires-nothing rows p
retire_pr-Retires now states p (some (name, number)) rows =
    retire_on-Retires now p (states name number) rows

pub retire_if_finished-Retires :
    (now : ℕ) (states : Option (String → ℕ → Option PrState)) (repo : Option String) (p : Proposal)
    (rows : List Proposal)
    → Retires rows p (retire_if_finished now states repo p rows)
unfolding retire_if_finished
retire_if_finished-Retires now none repo p rows = Retires-nothing rows p
retire_if_finished-Retires now (some states) repo p rows =
    retire_pr-Retires now states p (pr_to_read p.pr_number repo) rows
