-- ===== src/Adoption.antt =====
-- The drafts of a brownfield adoption, which wait for a human decision on the secrets found:
-- src/registry_mcp/models/adoption.py and src/registry_mcp/adoption/store.py. The field `confidence`,
-- a float that no operation reads, is left out of the record. Time is in microseconds.
mod Expiry
mod Tests
use homelab_registry_mcp.Prelude.{
  ℕ, ◌+◌, ◌*◌, String, Bool, true, false, not, Option, none, some, List, ltb, if◌then◌else◌,
}
use homelab_registry_mcp.Table.{update, sweep, add, get, has_key}

pub data AdoptionDraftStatus : Type 0 where
  pending finalized cancelled expired : AdoptionDraftStatus

pub record DetectedSecret : Type 0 where
  pub key : String
  pub live_value : String

pub record AdoptionDraft : Type 0 where
  pub id : String
  pub service_id : String
  pub host : String
  pub ssh_user : String
  pub container_name : String
  pub compose_path : String
  pub target_file_path : String
  pub sanitized_compose : String
  pub detected_secrets : List DetectedSecret
  pub reasoning : String
  pub status : AdoptionDraftStatus
  pub created_at : ℕ
  pub expires_at : ℕ

abbrev pub is_pending : AdoptionDraftStatus → Bool
is_pending pending = true
is_pending _ = false

-- `_is_past`: both sides are UTC, whether or not the row's value has kept its zone.
abbrev pub is_past : ℕ → ℕ → Bool
is_past now expires_at = ltb expires_at now

abbrev pub id_of : AdoptionDraft → String
id_of r = r.id

-- `AdoptionDraftStore.create`
pub create : AdoptionDraft → List AdoptionDraft → AdoptionDraft × List AdoptionDraft
create draft rows = (draft, add draft rows)

-- `AdoptionDraftStore.get`
abbrev pub get_draft : String → List AdoptionDraft → Option AdoptionDraft
get_draft draft_id rows = get id_of draft_id rows

-- What `set_status` does behind its lookup.
abbrev pub set_status_found :
    AdoptionDraftStatus
    → String
    → Option AdoptionDraft
    → List AdoptionDraft
    → Option AdoptionDraft × List AdoptionDraft
set_status_found status draft_id none rows = (none, rows)
set_status_found status draft_id (some draft) rows = (
  some (record draft { status = status }),
  update (has_key id_of draft_id) (λ r. record r { status = status }) rows,
)

-- `AdoptionDraftStore.set_status`
pub set_status :
    String → AdoptionDraftStatus → List AdoptionDraft → Option AdoptionDraft × List AdoptionDraft
set_status draft_id status rows = set_status_found status draft_id (get_draft draft_id rows) rows

-- The body of `get_pending` behind its lookup.
pub get_pending_found :
    (now : ℕ)
    → String
    → Option AdoptionDraft
    → List AdoptionDraft
    → Option AdoptionDraft × List AdoptionDraft
get_pending_found now draft_id none rows = (none, rows)
get_pending_found now draft_id (some draft) rows =
    let marked = (set_status draft_id expired rows).1 in
    if not (is_pending draft.status)
    then (none, rows)
    else if is_past now draft.expires_at
    then (none, marked)
    else (some draft, rows)

-- `AdoptionDraftStore.get_pending`
pub get_pending :
    (now : ℕ) → String → List AdoptionDraft → Option AdoptionDraft × List AdoptionDraft
get_pending now draft_id rows = get_pending_found now draft_id (get_draft draft_id rows) rows

-- `AdoptionDraftStore.purge_expired`, with the count that it returns.
pub purge_expired : (now : ℕ) → List AdoptionDraft → List AdoptionDraft × ℕ
purge_expired now =
    sweep (λ r. is_pending r.status) (λ r. is_past now r.expires_at)
      (λ r. record r { status = expired })

-- `AdoptionDraftStore.ttl_expiry`
abbrev pub ttl_expiry : (now ttl_minutes : ℕ) → ℕ
ttl_expiry now ttl_minutes = now + ttl_minutes * 60000000
