-- ===== src/Proposal/Engine/Sweeping.antt =====
-- The sweeps of verified proposals keep one open proposal for a finding of a service.
use homelab_registry_mcp.Proposal.{
  Proposal, blocks, id_of, set_status, set_status_found, ProposalStatus, auth_mode_conflict,
  is_open, same_finding, verified,
}
use homelab_registry_mcp.Prelude.{
  Bool, List, Option, String, arith, false, if_lem, none, refl, some, true, ◌≡◌, [], ℕ, ◌∷◌,
  if◌then◌else◌,
}
use homelab_registry_mcp.Table.{has_key, get}
use homelab_registry_mcp.Table.Laws.{rowcount-update_out}
use homelab_registry_mcp.Registry.{Service}
use homelab_registry_mcp.Proposal.Engine.Retires.{blocks-closed}
use homelab_registry_mcp.Registry.Store.{Tables, get_service}
use homelab_registry_mcp.Proposal.Engine.Opening.{IsOnce}
use homelab_registry_mcp.Proposal.Engine.Sweeps.{sweep_service, sweep_one, sweep_each}

set_status_found-IsOnce :
    (now : ℕ) (status : ProposalStatus) (resolved : Bool) (found : Option Proposal)
    (rows : List Proposal)
    → is_open status ≡ false
    → IsOnce rows
    → IsOnce (set_status_found now status resolved found rows).1
set_status_found-IsOnce now status resolved none rows closed once k f = once k f
set_status_found-IsOnce now status resolved (some p) rows closed once k f =
    let put : Proposal → Proposal = λ r. record r {
      status = status;
      resolved_at = if resolved then some now else r.resolved_at;
    } in
    let fewer =
      rowcount-update_out (blocks k f) (has_key id_of p.id) put rows
        (λ r. blocks-closed k f (put r) closed) in
    let one = once k f in omega arith

pub set_status-IsOnce :
    (now : ℕ) (j : String) (status : ProposalStatus) (resolved : Bool) (rows : List Proposal)
    → is_open status ≡ false
    → IsOnce rows
    → IsOnce (set_status now j status resolved rows).1
unfolding set_status
set_status-IsOnce now j status resolved rows closed once =
    set_status_found-IsOnce now status resolved (get id_of j rows) rows closed once

sweep_service-IsOnce :
    (now : ℕ) (p : Proposal) (s : Option Service) (rows : List Proposal)
    → IsOnce rows
    → IsOnce (sweep_service now p s rows)
unfolding sweep_service
sweep_service-IsOnce now p none rows once = once
sweep_service-IsOnce now p (some s) rows once =
    if_lem IsOnce s.auth_mode_conflict (λ _. once)
      (λ _. set_status-IsOnce now p.id verified true rows refl once)

sweep_one-IsOnce :
    (now : ℕ) (t : Tables) (p : Proposal) (k : Option String) (rows : List Proposal)
    → IsOnce rows
    → IsOnce (sweep_one now t p k rows)
unfolding sweep_one
sweep_one-IsOnce now t p none rows once = once
sweep_one-IsOnce now t p (some k) rows once = sweep_service-IsOnce now p (get_service k t) rows once

pub sweep_each-IsOnce :
    (now : ℕ) (t : Tables) (ps rows : List Proposal)
    → IsOnce rows
    → IsOnce (sweep_each now t ps rows)
unfolding sweep_each
sweep_each-IsOnce now t [] rows once = once
sweep_each-IsOnce now t (p ∷ ps) rows once = sweep_each-IsOnce now t ps _ (
    if_lem IsOnce (same_finding p.finding_type auth_mode_conflict)
      (λ _. sweep_one-IsOnce now t p p.service_id rows once) (λ _. once))
