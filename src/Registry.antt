-- ===== src/Registry.antt =====
-- The service registry's data: src/registry_mcp/models/service.py, models/event.py and
-- discovery/base.py. The uuid of a source row or of an event, which nothing reads, is left out; a
-- `raw` dictionary is kept as its JSON text. Time is in microseconds.
mod Reconcile
pub mod Store
mod Writes
mod Pass
mod Missing
mod Tests
use homelab_registry_mcp.Prelude.{ℕ, String, Bool, true, false, Option, none, some, List, ◌==◌}

pub data Category : Type 0 where
  infra app media monitoring security other : Category

-- `no_auth` is the source's `AuthMode.none`, and `unknown_auth` its `AuthMode.unknown`.
pub data AuthMode : Type 0 where
  no_auth forward_auth oauth2_proxy oauth2_oidc basic internal unknown_auth : AuthMode

pub data SourceType : Type 0 where
  manual traefik docker authentik dockhand : SourceType

pub record Service : Type 0 where
  pub id : String
  pub name : String
  pub display_name : String
  pub category : Category
  pub host : Option String
  pub urls : List String
  pub traefik_router : Option String
  pub authentik_app_slug : Option String
  pub auth_mode : AuthMode
  pub traefik_auth_mode : Option AuthMode
  pub authentik_auth_mode : Option AuthMode
  pub tags : List String
  pub notes : String
  pub auth_mode_conflict : Bool
  pub hardware_node_id : Option String
  pub manual_link : Bool
  pub authentik_link_manual : Bool
  pub is_manual : Bool
  pub stale : Bool
  pub created_at : ℕ
  pub updated_at : ℕ
  pub last_seen_at : Option ℕ

pub record ServiceSource : Type 0 where
  pub service_id : String
  pub source : SourceType
  pub external_id : String
  pub raw : String
  pub missed_passes : ℕ
  pub first_seen_at : ℕ
  pub last_seen_at : ℕ

pub record DiscoveredService : Type 0 where
  pub source : SourceType
  pub external_id : String
  pub name : String
  pub display_name : Option String
  pub category : Option Category
  pub host : Option String
  pub urls : List String
  pub traefik_router : Option String
  pub authentik_app_slug : Option String
  pub auth_mode : Option AuthMode
  pub tags : List String
  pub raw : String

-- A field of a service with a value: what `setattr` is given. The last two are the sentinel fields of
-- a change event, with the name of the service that was created or deleted.
pub data FieldValue : Type 0 where
  set_display_name set_host set_router set_slug set_notes : String → FieldValue
  set_category : Category → FieldValue
  set_urls set_tags : List String → FieldValue
  set_auth_mode set_traefik_auth_mode set_authentik_auth_mode : AuthMode → FieldValue
  set_link_manual set_conflict set_stale : Bool → FieldValue
  created_name deleted_name : String → FieldValue

-- What `str(value)` gives: a text, or the text of a list of texts, of which the list is kept. Python
-- quotes and escapes the elements, so that the texts of different lists differ.
pub data Shown : Type 0 where
  shown : String → Shown
  shown_list : List String → Shown

pub record ChangeEvent : Type 0 where
  pub service_id : Option String
  pub field : String
  pub old : Option Shown
  pub new : Option Shown
  pub actor : String
  pub created_at : ℕ

pub data DiscoveryStatus : Type 0 where
  pass_ok pass_partial pass_failed : DiscoveryStatus

pub record DiscoveryEvent : Type 0 where
  pub source : SourceType
  pub started_at : ℕ
  pub finished_at : Option ℕ
  pub status : DiscoveryStatus
  pub items_seen : ℕ
  pub items_new : ℕ
  pub items_changed : ℕ
  pub items_missing : ℕ
  pub error : Option String

-- `str` of a category and of an authentication mode: their values.
abbrev pub category_text : Category → String
category_text infra = "infra"
category_text app = "app"
category_text media = "media"
category_text monitoring = "monitoring"
category_text security = "security"
category_text other = "other"

abbrev pub auth_text : AuthMode → String
auth_text no_auth = "none"
auth_text forward_auth = "forward_auth"
auth_text oauth2_proxy = "oauth2_proxy"
auth_text oauth2_oidc = "oauth2_oidc"
auth_text basic = "basic"
auth_text internal = "internal"
auth_text unknown_auth = "unknown"

-- `str` of a boolean.
abbrev pub flag_text : Bool → String
flag_text true = "True"
flag_text false = "False"

-- The name of the field that a value is of.
abbrev pub field_name : FieldValue → String
field_name (set_display_name v) = "display_name"
field_name (set_host v) = "host"
field_name (set_router v) = "traefik_router"
field_name (set_slug v) = "authentik_app_slug"
field_name (set_notes v) = "notes"
field_name (set_category v) = "category"
field_name (set_urls v) = "urls"
field_name (set_tags v) = "tags"
field_name (set_auth_mode v) = "auth_mode"
field_name (set_traefik_auth_mode v) = "traefik_auth_mode"
field_name (set_authentik_auth_mode v) = "authentik_auth_mode"
field_name (set_link_manual v) = "authentik_link_manual"
field_name (set_conflict v) = "auth_mode_conflict"
field_name (set_stale v) = "stale"
field_name (created_name v) = "__created__"
field_name (deleted_name v) = "__deleted__"

-- `_as_str` of a value that is not `None`.
abbrev pub as_str : FieldValue → Shown
as_str (set_display_name v) = shown v
as_str (set_host v) = shown v
as_str (set_router v) = shown v
as_str (set_slug v) = shown v
as_str (set_notes v) = shown v
as_str (set_category v) = shown (category_text v)
as_str (set_urls v) = shown_list v
as_str (set_tags v) = shown_list v
as_str (set_auth_mode v) = shown (auth_text v)
as_str (set_traefik_auth_mode v) = shown (auth_text v)
as_str (set_authentik_auth_mode v) = shown (auth_text v)
as_str (set_link_manual v) = shown (flag_text v)
as_str (set_conflict v) = shown (flag_text v)
as_str (set_stale v) = shown (flag_text v)
as_str (created_name v) = shown v
as_str (deleted_name v) = shown v

abbrev auth_rank : AuthMode → ℕ
auth_rank no_auth = 0
auth_rank forward_auth = 1
auth_rank oauth2_proxy = 2
auth_rank oauth2_oidc = 3
auth_rank basic = 4
auth_rank internal = 5
auth_rank unknown_auth = 6

abbrev pub same_auth : AuthMode → AuthMode → Bool
same_auth a b = auth_rank a == auth_rank b

abbrev source_rank : SourceType → ℕ
source_rank manual = 0
source_rank traefik = 1
source_rank docker = 2
source_rank authentik = 3
source_rank dockhand = 4

abbrev pub same_source : SourceType → SourceType → Bool
same_source a b = source_rank a == source_rank b

-- Python's truth test on a text that may be missing: the text, unless it is empty.
abbrev pub said : Option String → Option String
said none = none
said (some String.[]) = none
said (some (String.◌∷◌ c s)) = some (String.◌∷◌ c s)

abbrev pub id_of : Service → String
id_of s = s.id

abbrev pub name_of : Service → String
name_of s = s.name
