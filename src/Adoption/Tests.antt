-- ===== src/Adoption/Tests.antt =====
-- Runs of the draft store, and its theorems at concrete inputs.
use homelab_registry_mcp.Adoption.{
  AdoptionDraft, create, get_pending, get_pending_found, set_status, pending, purge_expired,
  expired, finalized, ttl_expiry,
}
use homelab_registry_mcp.Adoption.Expiry.{get_pending-purge_expired}
use homelab_registry_mcp.Table.{first, update}
use homelab_registry_mcp.Prelude.{[], ◌∷◌, ◌≡◌, refl, some, none, arith}

abbrev draft : AdoptionDraft
draft = record {
  id = "d1";
  service_id = "svc-1";
  host = "10.0.0.7";
  ssh_user = "root";
  container_name = "jellyfin";
  compose_path = "/opt/jellyfin/docker-compose.yml";
  target_file_path = "stacks/jellyfin/docker-compose.yml";
  sanitized_compose = "services: {}";
  detected_secrets = record { key = "API_KEY"; live_value = "abc" } ∷ [];
  reasoning = "";
  status = pending;
  created_at = 1000;
  expires_at = ttl_expiry 1000 30;
}

pending_run : get_pending 2000 "d1" (create draft []).1 ≡ (some draft, draft ∷ [])
unfolding create get_pending get_pending_found first
pending_run = refl

late_run : get_pending 1800001001 "d1" (draft ∷ []) ≡ (none, record draft { status = expired } ∷ [])
unfolding get_pending get_pending_found set_status first update
late_run = refl

finalized_run :
    get_pending 2000 "d1" (set_status "d1" finalized (draft ∷ [])).1
    ≡ (none, record draft { status = finalized } ∷ [])
unfolding get_pending get_pending_found set_status first update
finalized_run = refl

get_pending-purge_expired_example :
    (get_pending 1800001001 "d1" (purge_expired 2000 (draft ∷ [])).0).0
    ≡ (get_pending 1800001001 "d1" (draft ∷ [])).0
get_pending-purge_expired_example =
    get_pending-purge_expired 2000 1800001001 "d1" (draft ∷ []) (omega arith)
