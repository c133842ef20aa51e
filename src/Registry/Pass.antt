-- ===== src/Registry/Pass.antt =====
-- One discovery pass: `reconcile`, `_upsert_source` and `_mark_stale` of
-- src/registry_mcp/registry/store.py. The resolver and the enricher that the reasoning layer injects,
-- the uuid drawn for a new service and the URL parser are parameters.
pub mod Items
pub mod Keeps
use homelab_registry_mcp.Registry.Writes.{setattr, getattr, Counts}
use homelab_registry_mcp.Prelude.{
  List, Option, String, [], false, if◌then◌else◌, is_some, none, or_else, some, str_eq, true, ℕ,
  ◌&&◌, ◌++◌, ◌+◌, ◌∷◌,
}
use homelab_registry_mcp.Registry.{
  AuthMode, Category, ChangeEvent, DiscoveredService, FieldValue, Service, ServiceSource,
  SourceType, authentik, created_name, field_name, id_of, said, same_source, set_auth_mode,
  set_authentik_auth_mode, set_conflict, set_host, set_router, set_slug, set_stale,
  set_traefik_auth_mode, set_urls, traefik, unknown_auth,
}
use homelab_registry_mcp.Registry.Reconcile.{
  Updates, reported, or_mine, match_service, provenance_updates,
}
use homelab_registry_mcp.Table.{first, add, update_first, update, has_key}
use homelab_registry_mcp.Registry.Store.{Tables, change}

-- What `metadata_enricher` may return.
pub record Enriched : Type 0 where
  pub display_name : Option String
  pub category : Option Category
  pub auth_mode : Option AuthMode
  pub notes : Option String

abbrev nothing_enriched : Enriched
nothing_enriched = record { display_name = none; category = none; auth_mode = none; notes = none }

pub record Outside : Type 0 where
  pub hostname : String → Option String
  pub lower : String → String
  pub identity_resolver : Option (DiscoveredService → List Service → Option Service)
  pub metadata_enricher : Option (DiscoveredService → Option Enriched)
  pub new_uuid : List Service → String

-- The items of `updates`, in the order in which `provenance_updates` sets them.
abbrev pub entry {ℓ} : {A : Type ℓ} → (A → FieldValue) → Option A → List FieldValue
entry field none = []
entry field (some a) = field a ∷ []

unfoldable pub values_of : Updates → List FieldValue
values_of u =
    entry set_router u.traefik_router
    ++ (entry set_slug u.authentik_app_slug
        ++ (entry set_auth_mode u.auth_mode
            ++ (entry set_host u.host
                ++ (entry set_urls u.urls
                    ++ (entry set_traefik_auth_mode u.traefik_auth_mode
                        ++ (entry set_authentik_auth_mode u.authentik_auth_mode
                            ++ (entry set_conflict u.auth_mode_conflict ++ [])))))))

-- The loop of `reconcile` over `updates.items()`: the service, and the events recorded.
unfoldable pub set_all : (now : ℕ) → String → List FieldValue → Service → Service × List ChangeEvent
set_all now actor [] s = (s, [])
set_all now actor (v ∷ vs) s =
    let (s', events) = set_all now actor vs (setattr v s) in
    (s', change now s.id (field_name v) (getattr v s) (some v) actor ∷ events)

-- `_upsert_source`
unfoldable pub upsert_source :
    (now : ℕ) → String → SourceType → DiscoveredService → List ServiceSource → List ServiceSource
upsert_source now service_id source item rows =
    let mine =
      λ (r : ServiceSource). str_eq r.service_id service_id && same_source r.source source in
    if is_some (first mine rows)
    then update_first mine
        (λ r. record r {
          external_id = item.external_id;
          raw = item.raw;
          last_seen_at = now;
          missed_passes = 0;
        })
        rows
    else add
        (record {
          service_id = service_id;
          source = source;
          external_id = item.external_id;
          raw = item.raw;
          missed_passes = 0;
          first_seen_at = now;
          last_seen_at = now;
        })
        rows

-- What a pass has done so far.
pub record Progress : Type 0 where
  pub tables : Tables
  pub seen_ids : List String
  pub items_new : ℕ
  pub items_changed : ℕ

-- `item.auth_mode if item.source == source and item.auth_mode not in (unknown, None) else None`
abbrev pub mode_from : SourceType → DiscoveredService → Option AuthMode
mode_from source item = if same_source item.source source then reported item.auth_mode else none

module _ (outside : Outside) (now : ℕ) (source : SourceType) (actor : String) where
  abbrev pub enrich : DiscoveredService → Enriched
  enrich item = elim outside.metadata_enricher [
    | none ↦ nothing_enriched
    | some ask ↦ or_mine (ask item) nothing_enriched
  ]

  abbrev pub resolve : DiscoveredService → List Service → Option Service
  resolve item services = elim outside.identity_resolver [
    | none ↦ none
    | some ask ↦ ask item services
  ]

  abbrev pub find_match : DiscoveredService → List Service → Option Service
  find_match item services =
      or_else (match_service outside.hostname outside.lower services item) (resolve item services)

  unfoldable pub new_service : DiscoveredService → List Service → Service
  new_service item services =
      let enriched = enrich item in
      record {
        id = outside.new_uuid services;
        name = item.name;
        display_name =
            or_mine (or_else (said enriched.display_name) (said item.display_name)) item.name;
        category = or_mine (or_else enriched.category item.category) Category.other;
        host = item.host;
        urls = item.urls;
        traefik_router = item.traefik_router;
        authentik_app_slug = item.authentik_app_slug;
        auth_mode = or_mine (or_else enriched.auth_mode item.auth_mode) unknown_auth;
        traefik_auth_mode = mode_from traefik item;
        authentik_auth_mode = mode_from authentik item;
        tags = item.tags;
        notes = or_mine enriched.notes "";
        auth_mode_conflict = false;
        hardware_node_id = none;
        manual_link = false;
        authentik_link_manual = false;
        is_manual = false;
        stale = false;
        created_at = now;
        updated_at = now;
        last_seen_at = some now;
      }

  abbrev pub unstale_events : Service → List ChangeEvent
  unstale_events s =
      if s.stale
      then change now s.id "stale" (some (set_stale true)) (some (set_stale false)) actor ∷ []
      else []

  -- The matched service as a pass that sees it leaves it.
  abbrev pub seen_again : Service → Service
  seen_again s = record s { stale = false; last_seen_at = some now; updated_at = now }

  abbrev pub changed_by : List FieldValue → ℕ
  changed_by [] = 0
  changed_by (v ∷ vs) = 1

  unfoldable pub merge_found : DiscoveredService → Option Service → Progress → Progress
  merge_found item none p =
      let t = p.tables in
      let s = new_service item t.services in
      record p {
        tables = record t {
          services = add s t.services;
          sources = upsert_source now s.id source item t.sources;
          changes =
              add (change now s.id "__created__" none (some (created_name s.name)) actor) t.changes;
        };
        seen_ids = s.id ∷ p.seen_ids;
        items_new = p.items_new + 1;
      }
  merge_found item (some m) p =
      let t = p.tables in
      let updates = values_of (provenance_updates m item) in
      let events = (set_all now actor updates m).1 in
      record p {
        tables = record t {
          services =
              update (has_key id_of m.id) (λ r. seen_again (set_all now actor updates r).0)
                t.services;
          sources = upsert_source now m.id source item t.sources;
          changes = t.changes ++ events ++ unstale_events m;
        };
        seen_ids = m.id ∷ p.seen_ids;
        items_changed = p.items_changed + changed_by updates;
      }

  -- The loop of `reconcile` over the discovered services.
  unfoldable pub merge_all : List DiscoveredService → Progress → Progress
  merge_all [] p = p
  merge_all (item ∷ items) p =
      merge_all items (merge_found item (find_match item p.tables.services) p)
