-- ===== src/Registry/Writes/Log.antt =====
-- The change events of `update_service`, read back, and the service that it leaves.
use mathlib.Core.Option
use homelab_registry_mcp.Registry.{
  Service, FieldValue, ChangeEvent, Category, AuthMode, infra, app, media, monitoring, security,
  no_auth, forward_auth, oauth2_proxy, oauth2_oidc, basic, internal, unknown_auth, shown,
  shown_list, Shown, set_display_name, set_host, set_router, set_slug, set_notes, set_category,
  set_urls, set_tags, set_auth_mode, set_traefik_auth_mode, set_authentik_auth_mode,
  set_link_manual, set_conflict, set_stale, created_name, deleted_name, as_str, auth_text,
  category_text, field_name, flag_text,
}
use homelab_registry_mcp.Prelude.{
  Bool-cases, List, Option, String, [], inl, inr, none, refl, some, ℕ, ◌∷◌, ◌≡◌, Bool, ap, false,
  if◌then◌else◌, str_eq, true, ◌∙◌,
}
use homelab_registry_mcp.Registry.Writes.{edit_all, getattr, holds, is_mutable, setattr}

-- Readers of the texts of a category, of an authentication mode and of a boolean.
abbrev read_category : String → Option Category
read_category s =
    if str_eq s "infra"
    then some infra
    else if str_eq s "app"
    then some app
    else if str_eq s "media"
    then some media
    else if str_eq s "monitoring"
    then some monitoring
    else if str_eq s "security"
    then some security
    else if str_eq s "other"
    then some Category.other
    else none

abbrev read_auth : String → Option AuthMode
read_auth s =
    if str_eq s "none"
    then some no_auth
    else if str_eq s "forward_auth"
    then some forward_auth
    else if str_eq s "oauth2_proxy"
    then some oauth2_proxy
    else if str_eq s "oauth2_oidc"
    then some oauth2_oidc
    else if str_eq s "basic"
    then some basic
    else if str_eq s "internal"
    then some internal
    else if str_eq s "unknown"
    then some unknown_auth
    else none

abbrev read_flag : String → Option Bool
read_flag s = if str_eq s "True" then some true else if str_eq s "False" then some false else none

-- A list is read by its field alone.
abbrev read_list : (field : String) → List String → Option FieldValue
read_list field xs =
    if str_eq field "urls"
    then some (set_urls xs)
    else if str_eq field "tags"
    then some (set_tags xs)
    else none

-- The value of a field of a service that a text stands for.
abbrev read_text : (field text : String) → Option FieldValue
read_text field s =
    if str_eq field "display_name"
    then some (set_display_name s)
    else if str_eq field "host"
    then some (set_host s)
    else if str_eq field "traefik_router"
    then some (set_router s)
    else if str_eq field "authentik_app_slug"
    then some (set_slug s)
    else if str_eq field "notes"
    then some (set_notes s)
    else if str_eq field "category"
    then Option.map set_category (read_category s)
    else if str_eq field "auth_mode"
    then Option.map set_auth_mode (read_auth s)
    else if str_eq field "traefik_auth_mode"
    then Option.map set_traefik_auth_mode (read_auth s)
    else if str_eq field "authentik_auth_mode"
    then Option.map set_authentik_auth_mode (read_auth s)
    else if str_eq field "authentik_link_manual"
    then Option.map set_link_manual (read_flag s)
    else if str_eq field "auth_mode_conflict"
    then Option.map set_conflict (read_flag s)
    else none

unfoldable pub read_field : (field : String) → Option Shown → Option FieldValue
read_field field none = none
read_field field (some (shown s)) = read_text field s
read_field field (some (shown_list xs)) = read_list field xs

-- The service with a value set, where there is one.
abbrev set_read : Option FieldValue → Service → Service
set_read none s = s
set_read (some v) s = setattr v s

-- The service with the new value of each event set, as its field's name and its text tell it, in the
-- order of the events.
unfoldable pub replay : List ChangeEvent → Service → Service
unfolding read_field
replay [] s = s
replay (e ∷ events) s = replay events (set_read (read_field e.field e.new) s)

read_category-text : (c : Category) → read_category (category_text c) ≡ some c
read_category-text infra = refl
read_category-text app = refl
read_category-text media = refl
read_category-text monitoring = refl
read_category-text security = refl
read_category-text Category.other = refl

read_auth-text : (m : AuthMode) → read_auth (auth_text m) ≡ some m
read_auth-text no_auth = refl
read_auth-text forward_auth = refl
read_auth-text oauth2_proxy = refl
read_auth-text oauth2_oidc = refl
read_auth-text basic = refl
read_auth-text internal = refl
read_auth-text unknown_auth = refl

read_flag-text : (b : Bool) → read_flag (flag_text b) ≡ some b
read_flag-text true = refl
read_flag-text false = refl

-- The name and the text of a field that may be updated tell the value.
read_field-as_str :
    (v : FieldValue) → is_mutable v ≡ true → read_field (field_name v) (some (as_str v)) ≡ some v
unfolding read_field
read_field-as_str (set_display_name v) h = refl
read_field-as_str (set_host v) h = refl
read_field-as_str (set_router v) h = refl
read_field-as_str (set_slug v) h = refl
read_field-as_str (set_notes v) h = refl
read_field-as_str (set_category v) h = ap (Option.map set_category) (read_category-text v)
read_field-as_str (set_urls v) h = refl
read_field-as_str (set_tags v) h = refl
read_field-as_str (set_auth_mode v) h = ap (Option.map set_auth_mode) (read_auth-text v)
read_field-as_str (set_traefik_auth_mode v) h =
    ap (Option.map set_traefik_auth_mode) (read_auth-text v)
read_field-as_str (set_authentik_auth_mode v) h =
    ap (Option.map set_authentik_auth_mode) (read_auth-text v)
read_field-as_str (set_link_manual v) h = ap (Option.map set_link_manual) (read_flag-text v)
read_field-as_str (set_conflict v) h = ap (Option.map set_conflict) (read_flag-text v)
read_field-as_str (set_stale v) h = cc
read_field-as_str (created_name v) h = cc
read_field-as_str (deleted_name v) h = cc

-- The events that an edit records, each read back from its field's name and the text of its new
-- value (the list, where `str` made the text of one), and replayed on the service as it was, give the
-- service that the edit leaves, save for the time of the update.
pub replay-edit_all :
    (now : ℕ) (actor : String) (vs : List (Option FieldValue)) (s : Service)
    → replay (edit_all now actor vs s).1 s ≡ (edit_all now actor vs s).0
unfolding replay edit_all
replay-edit_all now actor [] s = refl
replay-edit_all now actor (none ∷ vs) s = replay-edit_all now actor vs s
replay-edit_all now actor (some v ∷ vs) s = elim (Bool-cases (is_mutable v)) [
  | inr fixed ↦ rw fixed (replay-edit_all now actor vs s)
  | inl free ↦ elim (Bool-cases (holds (getattr v s) v)) [
    | inl same ↦ rw (free, same) (replay-edit_all now actor vs s)
    | inr differs ↦
        rw (free, differs)
          (ap (λ o. replay (edit_all now actor vs (setattr v s)).1 (set_read o s))
              (read_field-as_str v free)
            ∙ replay-edit_all now actor vs (setattr v s))
  ]
]
