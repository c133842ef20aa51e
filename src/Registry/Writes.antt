-- ===== src/Registry/Writes.antt =====
-- The edits, deletions and sweeps of the registry: src/registry_mcp/registry/store.py. As in Store, a
-- method takes the tables and the clock and returns its result beside the new tables.
pub mod Log
pub mod Names
use mathlib.Core.Option
use homelab_registry_mcp.Registry.Store.{Tables, change, same_category}
use homelab_registry_mcp.Prelude.{
  Bool, List, Option, String, [], false, if◌then◌else◌, ltb, none, not, some, str_eq, true, ℕ, ◌&&◌,
  ◌*◌, ◌++◌, ◌+◌, ◌∷◌,
}
use homelab_registry_mcp.Registry.{
  ChangeEvent, DiscoveryEvent, DiscoveryStatus, FieldValue, Service, SourceType, created_name,
  deleted_name, field_name, id_of, same_auth, set_auth_mode, set_authentik_auth_mode, set_category,
  set_conflict, set_display_name, set_host, set_link_manual, set_notes, set_router, set_slug,
  set_stale, set_tags, set_traefik_auth_mode, set_urls,
}
use homelab_registry_mcp.Table.{update, get, delete, add, rowcount, has_key}

-- `setattr(service, field, value)`; a name that is created or deleted is no field.
unfoldable pub setattr : FieldValue → Service → Service
setattr (set_display_name v) s = record s { display_name = v }
setattr (set_host v) s = record s { host = some v }
setattr (set_router v) s = record s { traefik_router = some v }
setattr (set_slug v) s = record s { authentik_app_slug = some v }
setattr (set_notes v) s = record s { notes = v }
setattr (set_category v) s = record s { category = v }
setattr (set_urls v) s = record s { urls = v }
setattr (set_tags v) s = record s { tags = v }
setattr (set_auth_mode v) s = record s { auth_mode = v }
setattr (set_traefik_auth_mode v) s = record s { traefik_auth_mode = some v }
setattr (set_authentik_auth_mode v) s = record s { authentik_auth_mode = some v }
setattr (set_link_manual v) s = record s { authentik_link_manual = v }
setattr (set_conflict v) s = record s { auth_mode_conflict = v }
setattr (set_stale v) s = record s { stale = v }
setattr (created_name v) s = s
setattr (deleted_name v) s = s

-- `getattr(service, field)` for the field that a value is of.
pub getattr : FieldValue → Service → Option FieldValue
getattr (set_display_name v) s = some (set_display_name s.display_name)
getattr (set_host v) s = Option.map set_host s.host
getattr (set_router v) s = Option.map set_router s.traefik_router
getattr (set_slug v) s = Option.map set_slug s.authentik_app_slug
getattr (set_notes v) s = some (set_notes s.notes)
getattr (set_category v) s = some (set_category s.category)
getattr (set_urls v) s = some (set_urls s.urls)
getattr (set_tags v) s = some (set_tags s.tags)
getattr (set_auth_mode v) s = some (set_auth_mode s.auth_mode)
getattr (set_traefik_auth_mode v) s = Option.map set_traefik_auth_mode s.traefik_auth_mode
getattr (set_authentik_auth_mode v) s = Option.map set_authentik_auth_mode s.authentik_auth_mode
getattr (set_link_manual v) s = some (set_link_manual s.authentik_link_manual)
getattr (set_conflict v) s = some (set_conflict s.auth_mode_conflict)
getattr (set_stale v) s = some (set_stale s.stale)
getattr (created_name v) s = none
getattr (deleted_name v) s = none

-- `_MUTABLE_FIELDS`
abbrev pub is_mutable : FieldValue → Bool
is_mutable (set_stale v) = false
is_mutable (created_name v) = false
is_mutable (deleted_name v) = false
is_mutable _ = true

abbrev pub same_texts : List String → List String → Bool
same_texts [] [] = true
same_texts (x ∷ xs) (y ∷ ys) = str_eq x y && same_texts xs ys
same_texts _ _ = false

abbrev pub same_flag : Bool → Bool → Bool
same_flag true b = b
same_flag false b = not b

-- `old == value`
abbrev pub same_value : FieldValue → FieldValue → Bool
same_value (set_display_name a) (set_display_name b) = str_eq a b
same_value (set_host a) (set_host b) = str_eq a b
same_value (set_router a) (set_router b) = str_eq a b
same_value (set_slug a) (set_slug b) = str_eq a b
same_value (set_notes a) (set_notes b) = str_eq a b
same_value (set_category a) (set_category b) = same_category a b
same_value (set_urls a) (set_urls b) = same_texts a b
same_value (set_tags a) (set_tags b) = same_texts a b
same_value (set_auth_mode a) (set_auth_mode b) = same_auth a b
same_value (set_traefik_auth_mode a) (set_traefik_auth_mode b) = same_auth a b
same_value (set_authentik_auth_mode a) (set_authentik_auth_mode b) = same_auth a b
same_value (set_link_manual a) (set_link_manual b) = same_flag a b
same_value (set_conflict a) (set_conflict b) = same_flag a b
same_value (set_stale a) (set_stale b) = same_flag a b
same_value _ _ = false

abbrev pub holds : Option FieldValue → FieldValue → Bool
holds none v = false
holds (some old) v = same_value old v

-- The loop of `update_service` over the items of `updates`: the service, and the events recorded.
-- An item is `none` for a field that is not a column of the service, or for the value `None`.
pub edit_all : (now : ℕ) → String → List (Option FieldValue) → Service → Service × List ChangeEvent
edit_all now actor [] s = (s, [])
edit_all now actor (none ∷ vs) s = edit_all now actor vs s
edit_all now actor (some v ∷ vs) s =
    let skip = edit_all now actor vs s in
    let (s', events) = edit_all now actor vs (setattr v s) in
    if not (is_mutable v)
    then skip
    else if holds (getattr v s) v
    then skip
    else (s', change now s.id (field_name v) (getattr v s) (some v) actor ∷ events)

abbrev pub edit_found :
    (now : ℕ)
    → List (Option FieldValue)
    → String
    → Option Service
    → Tables
    → Option Service × Tables
edit_found now updates actor none t = (none, t)
edit_found now updates actor (some s) t =
    let (s', events) = edit_all now actor updates s in
    let edited = record s' { updated_at = now } in
    (
      some edited,
      record t {
        services =
            update (has_key id_of s.id)
              (λ r. record (edit_all now actor updates r).0 { updated_at = now }) t.services;
        changes = t.changes ++ events;
      },
    )

-- `update_service`
pub update_service :
    (now : ℕ) → String → List (Option FieldValue) → String → Tables → Option Service × Tables
update_service now service_id updates actor t =
    edit_found now updates actor (get id_of service_id t.services) t

abbrev pub delete_found : (now : ℕ) → String → Option Service → Tables → Bool × Tables
delete_found now actor none t = (false, t)
delete_found now actor (some s) t = (
  true,
  record t {
    sources = delete (λ r. str_eq r.service_id s.id) t.sources;
    changes = add (change now s.id "__deleted__" (some (deleted_name s.name)) none actor) t.changes;
    services = delete (has_key id_of s.id) t.services;
  },
)

-- `delete_service`
pub delete_service : (now : ℕ) → String → String → Tables → Bool × Tables
delete_service now service_id actor t = delete_found now actor (get id_of service_id t.services) t

pub record Counts : Type 0 where
  pub items_seen : ℕ
  pub items_new : ℕ
  pub items_changed : ℕ
  pub items_missing : ℕ

-- `record_discovery_event`; without counts all four are 0.
pub record_discovery_event :
    SourceType
    → (started_at finished_at : ℕ) → DiscoveryStatus
    → Counts
    → Option String
    → Tables
    → DiscoveryEvent × Tables
record_discovery_event source started_at finished_at status counts error t =
    let event : DiscoveryEvent = record {
      source = source;
      started_at = started_at;
      finished_at = some finished_at;
      status = status;
      items_seen = counts.items_seen;
      items_new = counts.items_new;
      items_changed = counts.items_changed;
      items_missing = counts.items_missing;
      error = error;
    } in
    (event, record t { discoveries = add event t.discoveries })

abbrev pub day : ℕ
day = 86400000000

-- `purge_old_events`; `at < cutoff` is written without the subtraction from the clock.
pub purge_old_events : (now retention_days : ℕ) → Tables → (ℕ × ℕ) × Tables
purge_old_events now retention_days t =
    let is_old = λ (at : ℕ). ltb (at + retention_days * day) now in
    (
      (
        rowcount (λ e. is_old e.created_at) t.changes,
        rowcount (λ e. is_old e.started_at) t.discoveries,
      ),
      record t {
        changes = delete (λ e. is_old e.created_at) t.changes;
        discoveries = delete (λ e. is_old e.started_at) t.discoveries;
      },
    )
