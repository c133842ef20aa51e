-- ===== src/Registry/Tests.antt =====
-- Runs of the registry, and its theorems at concrete inputs.
use mathlib.Core.Option
use homelab_registry_mcp.Registry.Reconcile.{
  provenance_updates, apply_updates, match_service, from_keys, has_text,
}
use homelab_registry_mcp.Registry.Reconcile.Again.{provenance_updates-again, no_updates}
use homelab_registry_mcp.Registry.Reconcile.Match.{
  match_service-some, apply_updates-demotion, Reason,
}
use homelab_registry_mcp.Registry.Store.{Tables}
use homelab_registry_mcp.Registry.Writes.{edit_all}
use homelab_registry_mcp.Registry.Writes.Log.{replay, replay-edit_all}
use homelab_registry_mcp.Registry.Writes.Names.{
  after_all-Unique, after_all, Call, creates, updates_of, deletes,
}
use homelab_registry_mcp.Registry.Pass.{Outside, merge_all, merge_found, values_of}
use homelab_registry_mcp.Registry.Pass.Items.{curated}
use homelab_registry_mcp.Registry.Missing.{reconcile, start, any_row, still_reports, mark_rows}
use homelab_registry_mcp.Registry.Missing.Stale.{is_stale}
use homelab_registry_mcp.Registry.Missing.Seen.{
  reconcile-curated, reconcile-Unique, reconcile-stale, reconcile-lost,
}
use homelab_registry_mcp.Prelude.{
  List, Option, String, [], false, none, refl, some, true, ◌∷◌, ◌≡◌, ◌⊎◌,
}
use homelab_registry_mcp.Registry.{
  DiscoveredService, Service, ServiceSource, SourceType, forward_auth, id_of, media, name_of,
  no_auth, set_notes, set_stale, traefik,
}
use homelab_registry_mcp.Table.{first, rowcount, get, Unique, update}

abbrev jellyfin : Service
jellyfin = record {
  id = "s1";
  name = "jellyfin";
  display_name = "Jellyfin";
  category = media;
  host = none;
  urls = "https://media.lab" ∷ [];
  traefik_router = some "media";
  authentik_app_slug = some "media";
  auth_mode = forward_auth;
  traefik_auth_mode = none;
  authentik_auth_mode = some forward_auth;
  tags = [];
  notes = "";
  auth_mode_conflict = false;
  hardware_node_id = none;
  manual_link = false;
  authentik_link_manual = false;
  is_manual = true;
  stale = false;
  created_at = 10;
  updated_at = 10;
  last_seen_at = none;
}

abbrev gitea : Service
gitea = record jellyfin { id = "s2"; name = "gitea"; traefik_router = none; urls = [] }

-- Traefik reports the router of the first service without a middleware.
abbrev open_router : DiscoveredService
open_router = record {
  source = traefik;
  external_id = "media@docker";
  name = "media";
  display_name = none;
  category = none;
  host = none;
  urls = "https://tv.lab" ∷ [];
  traefik_router = some "media";
  authentik_app_slug = none;
  auth_mode = some no_auth;
  tags = [];
  raw = "{}";
}

abbrev same_host : String → Option String
same_host url = some url

abbrev as_is : String → String
as_is s = s

abbrev outside : Outside
outside = record {
  hostname = same_host;
  lower = as_is;
  identity_resolver = none;
  metadata_enricher = none;
  new_uuid = λ rows. "new";
}

abbrev row_of : String → SourceType → ServiceSource
row_of k source = record {
  service_id = k;
  source = source;
  external_id = "";
  raw = "{}";
  missed_passes = 1;
  first_seen_at = 10;
  last_seen_at = 10;
}

abbrev tables : Tables
tables = record {
  services = jellyfin ∷ gitea ∷ [];
  sources = row_of "s1" traefik ∷ row_of "s2" traefik ∷ [];
  changes = [];
  discoveries = [];
}

match_run : match_service same_host as_is (gitea ∷ jellyfin ∷ []) open_router ≡ some jellyfin
unfolding match_service first
match_run = refl

provenance_updates-again_example :
    provenance_updates
      (apply_updates (provenance_updates jellyfin open_router) jellyfin)
      open_router
    ≡ no_updates
provenance_updates-again_example = provenance_updates-again jellyfin open_router

match_service-some_example :
    (get id_of "s1" (gitea ∷ jellyfin ∷ []) ≡ some jellyfin)
    × Reason same_host as_is (gitea ∷ jellyfin ∷ []) open_router jellyfin
unfolding match_service first rowcount
match_service-some_example =
    match_service-some same_host as_is (gitea ∷ jellyfin ∷ []) open_router jellyfin
      (refl, (refl, tt)) refl

apply_updates-demotion_example :
    let now = apply_updates (provenance_updates jellyfin open_router) jellyfin in
    (now.auth_mode ≡ forward_auth)
    × (now.traefik_auth_mode ≡ some no_auth)
    × (now.authentik_auth_mode ≡ some forward_auth)
    × (now.auth_mode_conflict ≡ true)
apply_updates-demotion_example =
    apply_updates-demotion jellyfin open_router "media" "media" forward_auth refl refl refl refl
      refl refl refl

replay-edit_all_example :
    replay
      (edit_all 50 "manual" (some (set_notes "4k") ∷ none ∷ some (set_stale true) ∷ []) jellyfin).1
      jellyfin
    ≡ (edit_all 50 "manual" (some (set_notes "4k") ∷ none ∷ some (set_stale true) ∷ []) jellyfin).0
replay-edit_all_example =
    replay-edit_all 50 "manual" (some (set_notes "4k") ∷ none ∷ some (set_stale true) ∷ []) jellyfin

abbrev only_gitea : Tables
only_gitea = record tables { services = gitea ∷ [] }

abbrev calls : List Call
calls = creates jellyfin ∷ updates_of "s1" (some (set_notes "4k") ∷ []) ∷ deletes "s2" ∷ []

after_all-Unique_example : Unique name_of (after_all 20 "manual" calls tables).services
unfolding rowcount
after_all-Unique_example = after_all-Unique 20 "manual" calls tables (refl, (refl, tt))

reconcile-curated_example :
    Option.map curated (
      get id_of "s1"
        (reconcile outside 30 traefik "discovery:traefik" (open_router ∷ []) 2 tables).1.services)
    ≡ some (curated jellyfin)
unfolding first
reconcile-curated_example =
    reconcile-curated outside 30 traefik "discovery:traefik" (open_router ∷ []) 2 tables "s1"
      (curated jellyfin) refl

reconcile-Unique_example :
    Unique name_of
      (reconcile outside 30 traefik "discovery:traefik" (open_router ∷ []) 2 tables).1.services
unfolding rowcount
reconcile-Unique_example =
    reconcile-Unique outside 30 traefik "discovery:traefik" (open_router ∷ []) 2 tables
      (refl, (refl, tt))

-- The second pass that misses both services, with a threshold of two.
missed_run :
    let (counts, after) = reconcile outside 30 traefik "discovery:traefik" [] 2 tables in
    (counts.items_missing ≡ 2)
    × (after.services ≡ record jellyfin { stale = true } ∷ record gitea { stale = true } ∷ [])
unfolding reconcile merge_all mark_rows any_row first update
missed_run = (refl, refl)

seen_run :
    (reconcile outside 30 traefik "discovery:traefik" (open_router ∷ []) 2 tables).0.items_changed
    ≡ 1
unfolding reconcile merge_all merge_found match_service provenance_updates values_of first from_keys
seen_run = refl

reconcile-stale_example :
    let p = merge_all outside 30 traefik "discovery:traefik" [] (start tables) in
    let after = (reconcile outside 30 traefik "discovery:traefik" [] 2 tables).1 in
    (is_stale (get id_of "s2" p.tables.services) ≡ true)
    ⊎ ((has_text "s2" p.seen_ids ≡ false) × (any_row (still_reports 2 "s2") after.sources ≡ false))
unfolding reconcile merge_all mark_rows any_row first update
reconcile-stale_example =
    reconcile-stale outside 30 traefik "discovery:traefik" [] 2 tables "s2" refl

reconcile-lost_example :
    is_stale
      (get id_of "s2" (reconcile outside 30 traefik "discovery:traefik" [] 2 tables).1.services)
    ≡ true
unfolding reconcile merge_all mark_rows any_row first update
reconcile-lost_example =
    reconcile-lost outside 30 traefik "discovery:traefik" [] 2 tables "s2" refl refl refl refl
