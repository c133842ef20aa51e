-- ===== src/Webhooks/Patchmon.antt =====
-- The webhook of src/registry_mcp/webhooks/patchmon.py: what a request does to the approvals and what
-- it is answered. HMAC-SHA256, `str.lower`, `json.loads`, the tokens, the id and the clock are
-- parameters, and so is what PatchMon's API and the mail server answer. The email's text is not
-- modelled, nor is an exception of the database. The approvals are those of Patching.Store.
pub mod Approve
pub mod Safety
pub mod Asks
pub mod Replay
mod Tests
use mathlib.Core.Option
use homelab_registry_mcp.Webhooks.Normalize.{normalize_flat, normalize_native}
use Prim.Native.Char.{code}
use homelab_registry_mcp.Patching.Store.{
  pending, undelivered, undelivered_email, PatchApproval, create, Rows, find_pending,
  record_outcome,
}
use homelab_registry_mcp.Webhooks.Schemas.{
  PatchAlert, Payload, flat, native, NativeAlert, IgnoredAlert, Builtins, Reason, lookup_failed,
  lookup_mismatch, no_hostname, validate_flat, validate_native, is_missing, or_text, FlatAlert,
}
use homelab_registry_mcp.Json.{Json, Fields, object, get_field, as_text}
use homelab_registry_mcp.Prelude.{
  Bool, List, Option, String, if◌then◌else◌, none, not, some, str_eq, ℕ, ◌&&◌, Result, err, false,
  ok, or_else, true, ◌==◌,
}
use homelab_registry_mcp.Text.{strip_text, take_text, drop_text, member}
use homelab_registry_mcp.Webhooks.Common.{read_capped, declared_too_large}

-- What a POST brings. A header that is left out is none.
pub record Request : Type 0 where
  pub content_length : Option (List ℕ)
  pub chunks : List (List ℕ)
  pub signature : Option String
  pub content_type : String

-- What the source imports, and what the routes were registered with.
pub record Receiver : Type 0 where
  pub hmac_hex : (key : String) → (body : List ℕ) → String
  pub lower : String → String
  pub loads : List ℕ → Option Json
  pub builtins : Builtins
  pub read_only : Bool
  pub max_body : ℕ
  pub key : String
  pub events : List String
  pub ttl_minutes : ℕ

-- PatchMon's answer about a host: an error or a time-out, or an object.
pub data HostInfo : Type 0 where
  host_failed : HostInfo
  host_info : Fields → HostInfo

-- Why a request asks for no approval.
pub data Declined : Type 0 where
  read_only_mode too_large bad_signature bad_content_type bad_json bad_payload : Declined
  event_ignored : String → Declined
  alert_ignored : Reason → Declined
  internal_error : Declined

pub data Answer : Type 0 where
  declined : Declined → Answer
  already_pending : (approval_id : String) → Answer
  email_failed : (approval_id : String) → Answer
  pending_approval : (approval_id : String) → Answer

abbrev pub declined_code : Declined → ℕ
declined_code read_only_mode = 403
declined_code too_large = 413
declined_code bad_signature = 401
declined_code bad_content_type = 400
declined_code bad_json = 400
declined_code bad_payload = 422
declined_code (event_ignored event) = 200
declined_code (alert_ignored reason) = 200
declined_code internal_error = 500

abbrev pub status_code : Answer → ℕ
status_code (declined d) = declined_code d
status_code (already_pending id) = 200
status_code (email_failed id) = 502
status_code (pending_approval id) = 202

abbrev pub header_text : Option String → String
header_text none = ""
header_text (some s) = s

-- `value.split(";")[0]`
unfoldable pub until_semicolon : String → String
until_semicolon String.[] = ""
until_semicolon (String.◌∷◌ c s) =
    let rest = until_semicolon s in if code c == b';' then "" else String.◌∷◌ c rest

-- A text that is there, and is that one.
abbrev pub is_text_of : Option String → String → Bool
is_text_of none s = false
is_text_of (some t) s = str_eq t s

-- The event that the filter reads.
abbrev pub event_in : Payload → String
event_in (flat a) = a.event
event_in (native a) = a.event_type

-- The first of the two models that the payload fits.
unfoldable pub first_valid : Option FlatAlert → Option NativeAlert → Option Payload
first_valid (some a) n = some (flat a)
first_valid none (some n) = some (native n)
first_valid none none = none

module _ (w : Receiver) where
  -- The digest that a signature header carries.
  unfoldable pub provided_digest : String → String
  unfolding strip_text take_text drop_text
  provided_digest header =
      let provided = strip_text header in
      w.lower (
        strip_text (
          if str_eq (w.lower (take_text 7 provided)) "sha256="
          then drop_text 7 provided
          else provided))

  -- `signature_matches`
  unfoldable pub signature_matches : (header : String) → (body : List ℕ) → Bool
  unfolding provided_digest
  signature_matches header body =
      not (str_eq (provided_digest header) "")
      && str_eq (provided_digest header) (w.hmac_hex w.key body)

  -- `_parse`
  unfoldable pub parse : Json → Option Payload
  unfolding validate_flat validate_native first_valid
  parse (object fs) = first_valid (validate_flat w.builtins fs) (validate_native w.builtins fs)
  parse j = none

  -- The handler's event filter.
  unfoldable pub admit_payload : Option Payload → Result Declined Payload
  unfolding member
  admit_payload none = err bad_payload
  admit_payload (some p) =
      if not (member (event_in p) w.events) then err (event_ignored (event_in p)) else ok p

  -- On what `json.loads` gave.
  unfoldable pub admit_json : Option Json → Result Declined Payload
  unfolding admit_payload parse
  admit_json none = err bad_json
  admit_json (some j) = admit_payload (parse j)

  -- On what `read_capped` gave.
  unfoldable pub admit_body : Request → Option (List ℕ) → Result Declined Payload
  unfolding signature_matches until_semicolon strip_text admit_json
  admit_body r none = err too_large
  admit_body r (some raw) =
      if not (signature_matches (header_text r.signature) raw)
      then err bad_signature
      else if not (str_eq (strip_text (until_semicolon r.content_type)) "application/json")
      then err bad_content_type
      else admit_json (w.loads raw)

  -- On the request's own Content-Length.
  unfoldable pub admit_declared : Request → Option Bool → Result Declined Payload
  unfolding admit_body read_capped
  admit_declared r none = err internal_error
  admit_declared r (some true) = err too_large
  admit_declared r (some false) = admit_body r (read_capped r.chunks w.max_body)

  -- The handler up to the event filter.
  unfoldable pub admit : Request → Result Declined Payload
  unfolding admit_declared declared_too_large
  admit r =
      if w.read_only
      then err read_only_mode
      else admit_declared r (declared_too_large r.content_length w.max_body)

  -- `_resolve_by_host_id` on the hostname that PatchMon has.
  unfoldable pub resolve_hostname :
      NativeAlert
      → IgnoredAlert
      → (host_id : String) → Option String
      → Result IgnoredAlert PatchAlert
  unfolding normalize_native strip_text
  resolve_hostname a ignored host_id hostname =
      if is_missing (Option.map strip_text hostname)
      then err (record {
        event = ignored.event;
        reason = no_hostname ignored.reason host_id;
        lookup_host_id = none;
      })
      else normalize_native w.builtins a hostname

  -- `_resolve_by_host_id` on what PatchMon answered.
  unfoldable pub resolve_by_host_id :
      NativeAlert → IgnoredAlert → (host_id : String) → HostInfo → Result IgnoredAlert PatchAlert
  unfolding resolve_hostname get_field
  resolve_by_host_id a ignored host_id host_failed = err (record {
    event = ignored.event;
    reason = lookup_failed ignored.reason host_id;
    lookup_host_id = none;
  })
  resolve_by_host_id a ignored host_id (host_info fs) =
      if not (is_text_of (as_text (get_field "id" fs)) host_id)
      then err (record {
        event = ignored.event;
        reason = lookup_mismatch ignored.reason host_id;
        lookup_host_id = none;
      })
      else resolve_hostname a ignored host_id (as_text (get_field "hostname" fs))

  -- The handler's question to PatchMon, where its API is configured.
  unfoldable pub look_up :
      Option (String → HostInfo)
      → NativeAlert
      → Result IgnoredAlert PatchAlert
      → Result IgnoredAlert PatchAlert
  unfolding resolve_by_host_id
  look_up patchmon a (ok alert) = ok alert
  look_up none a (err ignored) = err ignored
  look_up (some ask) a (err ignored) =
      let host_id = or_text ignored.lookup_host_id "" in
      if str_eq host_id "" then err ignored else resolve_by_host_id a ignored host_id (ask host_id)

  -- The alert that a payload makes, or why it makes none.
  unfoldable pub name_host : Option (String → HostInfo) → Payload → Result IgnoredAlert PatchAlert
  unfolding normalize_flat normalize_native look_up
  name_host patchmon (flat a) = ok (normalize_flat w.builtins a)
  name_host patchmon (native a) = look_up patchmon a (normalize_native w.builtins a none)
