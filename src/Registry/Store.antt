-- ===== src/Registry/Store.antt =====
-- The registry's tables and their CRUD: src/registry_mcp/registry/store.py. A method takes the
-- tables and the clock; it returns its result beside the new tables. A write that raises leaves the
-- tables alone, since its session is never committed.
use mathlib.Core.Option
use homelab_registry_mcp.Registry.Reconcile.{has_text}
use homelab_registry_mcp.Prelude.{
  Bool, List, Option, Result, String, err, false, if◌then◌else◌, is_some, none, ok, or_else, some,
  str_eq, true, ℕ, ◌&&◌, ◌==◌,
}
use homelab_registry_mcp.Registry.{
  Category, ChangeEvent, DiscoveryEvent, FieldValue, Service, ServiceSource, SourceType, app,
  as_str, created_name, id_of, infra, manual, media, monitoring, name_of, same_source, security,
}
use homelab_registry_mcp.Table.{add, get, select, first}

pub record Tables : Type 0 where
  pub services : List Service
  pub sources : List ServiceSource
  pub changes : List ChangeEvent
  pub discoveries : List DiscoveryEvent

pub data DuplicateServiceError : Type 0 where
  already_exists : String → DuplicateServiceError

-- `_record_change`
abbrev pub change :
    (now : ℕ)
    → String
    → (field : String) → Option FieldValue
    → Option FieldValue
    → String
    → ChangeEvent
change now service_id field old new actor = record {
  service_id = some service_id;
  field = field;
  old = Option.map as_str old;
  new = Option.map as_str new;
  actor = actor;
  created_at = now;
}

-- The tables of a session that has created a service.
abbrev pub created : (now : ℕ) → Service → String → Tables → Tables
created now service actor t = record t {
  services = add service t.services;
  sources =
      add
        (record {
          service_id = service.id;
          source = manual;
          external_id = service.name;
          raw = "{}";
          missed_passes = 0;
          first_seen_at = now;
          last_seen_at = now;
        })
        t.sources;
  changes =
      add (change now service.id "__created__" none (some (created_name service.name)) actor)
        t.changes;
}

-- `create_service`
unfoldable pub create_service :
    (now : ℕ) → Service → String → Tables → Result DuplicateServiceError Service × Tables
create_service now service actor t =
    if is_some (get name_of service.name t.services)
    then (err (already_exists service.name), t)
    else (ok service, created now service actor t)

-- `get_service`: by the id, then by the name.
unfoldable pub get_service : String → Tables → Option Service
get_service id_or_name t =
    or_else (get id_of id_or_name t.services) (get name_of id_or_name t.services)

abbrev category_rank : Category → ℕ
category_rank infra = 0
category_rank app = 1
category_rank media = 2
category_rank monitoring = 3
category_rank security = 4
category_rank Category.other = 5

abbrev pub same_category : Category → Category → Bool
same_category a b = category_rank a == category_rank b

-- A filter that is left out passes every row.
abbrev pub passes {ℓ} : {A : Type ℓ} → Option A → (A → Bool) → Bool
passes none test = true
passes (some a) test = test a

abbrev pub is_host : String → Option String → Bool
is_host h none = false
is_host h (some mine) = str_eq mine h

-- `list_services`
pub list_services : Option Category → Option String → Option String → Tables → List Service
list_services wanted_category wanted_host wanted_tag t =
    select (λ s. passes wanted_tag (λ tag. has_text tag s.tags))
      (select
        (λ s.
          passes wanted_category (λ c. same_category s.category c)
          && passes wanted_host (λ h. is_host h s.host))
        t.services)

-- `list_stale_services`
pub list_stale_services : Tables → List Service
list_stale_services t = select (λ s. s.stale) t.services

-- `get_source`
pub get_source : String → SourceType → Tables → Option ServiceSource
get_source service_id source t =
    first (λ r. str_eq r.service_id service_id && same_source r.source source) t.sources
