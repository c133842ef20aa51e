-- ===== src/Webhooks/Schemas.antt =====
-- src/registry_mcp/webhooks/patchmon_schemas.py. Pydantic is a parameter where it checks a
-- constrained string, and so is Python's `str` of a JSON value. What an ignored alert's reason is
-- printed from is kept.
use mathlib.Core.Option
use homelab_registry_mcp.Webhooks.Common.{one_line}
use homelab_registry_mcp.Json.{Json, Fields, object, text, null, no_fields, get_field}
use homelab_registry_mcp.Prelude.{
  Bool, List, Option, String, [], false, if◌then◌else◌, leb, length, none, some, suc, true, zero, ℕ,
  ◌&&◌, ◌==◌, ◌||◌, ◌∷◌, or_else, str_eq,
}
use homelab_registry_mcp.Text.{every, is_letter, is_digit, codes, strip_text}
use mathlib.Core.Option.{join}

-- How many further code points a pattern allows behind its first one.
abbrev named : (first rest : ℕ → Bool) → (more : ℕ) → List ℕ → Bool
named first rest more [] = false
named first rest more (c ∷ cs) = first c && every rest cs && leb (length cs) more

abbrev is_alnum : ℕ → Bool
is_alnum c = is_letter c || is_digit c

abbrev is_name_code : ℕ → Bool
is_name_code c = is_alnum c || c == b'.' || c == b'_' || c == b'-'

-- `_NAME_PATTERN`
unfoldable pub name_matches : String → Bool
unfolding every
name_matches s = named is_alnum is_name_code 252 (codes s)

-- `_VERSION_PATTERN`
unfoldable pub version_matches : String → Bool
unfolding every
version_matches s =
    named is_alnum (λ c. is_name_code c || c == b'+' || c == b':' || c == b'~') 127 (codes s)

abbrev is_lower_alnum : ℕ → Bool
is_lower_alnum c = (leb b'a' c && leb c b'z') || is_digit c

-- `_EVENT_PATTERN`
unfoldable pub event_matches : String → Bool
unfolding every
event_matches s =
    named is_lower_alnum (λ c. is_lower_alnum c || c == b'_' || c == b'.' || c == b'-') 63 (codes s)

abbrev is_hex : ℕ → Bool
is_hex c = is_digit c || (leb b'a' c && leb c b'f') || (leb b'A' c && leb c b'F')

-- What follows `n` hexadecimal digits.
unfoldable pub after_hex : ℕ → Option (List ℕ) → Option (List ℕ)
after_hex n none = none
after_hex zero (some cs) = some cs
after_hex (suc n) (some []) = none
after_hex (suc n) (some (c ∷ cs)) =
    let rest = after_hex n (some cs) in if is_hex c then rest else none

-- What follows a dash.
abbrev pub after_dash : Option (List ℕ) → Option (List ℕ)
after_dash none = none
after_dash (some []) = none
after_dash (some (c ∷ cs)) = if c == b'-' then some cs else none

abbrev is_end : Option (List ℕ) → Bool
is_end (some []) = true
is_end _ = false

-- A group of digits and its dash.
unfoldable pub group : ℕ → Option (List ℕ) → Option (List ℕ)
unfolding after_hex
group n cs = after_dash (after_hex n cs)

-- `_UUID_RE`
unfoldable pub uuid_matches : String → Bool
unfolding after_hex group
uuid_matches s = is_end (after_hex 12 (group 4 (group 4 (group 4 (group 8 (some (codes s)))))))

pub record PatchAlert : Type 0 where
  pub event : String
  pub target_host : String
  pub service : Option String
  pub current_version : Option String
  pub target_version : Option String
  pub severity : Option String
  pub patchmon_host_id : Option String
  pub summary : Option String

-- What `IgnoredAlert.reason` says.
pub data Reason : Type 0 where
  names_no_host : Reason
  not_plain : (host_name : String) → Reason
  resolved_not_plain : Reason → (host_id : Option String) → (resolved : String) → Reason
  lookup_failed : Reason → (host_id : String) → Reason
  lookup_mismatch : Reason → (host_id : String) → Reason
  no_hostname : Reason → (host_id : String) → Reason

pub record IgnoredAlert : Type 0 where
  pub event : String
  pub reason : Reason
  pub lookup_host_id : Option String

-- `PatchmonWebhookSchema`
pub record FlatAlert : Type 0 where
  pub event : String
  pub target_host : String
  pub service : Option String
  pub current_version : Option String
  pub target_version : Option String
  pub severity : Option String
  pub patchmon_host_id : Option String

-- `PatchmonNativeAlert`, with its `reference` as a type and an id.
pub record NativeAlert : Type 0 where
  pub event_type : String
  pub severity : Option String
  pub title : Option String
  pub message : Option String
  pub reference : Option (Option String × Option String)
  pub metadata : Fields

pub data Payload : Type 0 where
  flat : FlatAlert → Payload
  native : NativeAlert → Payload

-- Pydantic's constrained string, stripped and by a pattern, and lowered where that is asked for:
-- none is a validation error. Python's `str` and zero test of a JSON value.
pub record Builtins : Type 0 where
  pub constrain : (lower : Bool) → (pattern : String → Bool) → Json → Option String
  pub str_of : Json → String
  pub is_zero : String → Bool

-- A field that may be left out or null, by the check of its value.
abbrev pub optional : (Json → Option String) → Option Json → Option (Option String)
optional check none = some none
optional check (some null) = some none
optional check (some j) = Option.map some (check j)

-- `_host_id` of a text.
unfoldable pub host_id_of_text : String → Option String
unfolding strip_text uuid_matches
host_id_of_text s = if uuid_matches (strip_text s) then some (strip_text s) else none

-- `patchmon_host_id: str | None` and its validator.
unfoldable pub check_host_id : Option Json → Option (Option String)
unfolding host_id_of_text
check_host_id none = some none
check_host_id (some null) = some none
check_host_id (some (text s)) = some (host_id_of_text s)
check_host_id (some _) = none

-- `metadata: dict[str, Any] = {}`
unfoldable pub check_metadata : Option Json → Option Fields
check_metadata none = some no_fields
check_metadata (some (object fs)) = some fs
check_metadata (some _) = none

-- A text that may be missing, by Python's truth of it.
abbrev pub or_text : Option String → String → String
or_text none s = s
or_text (some t) s = if str_eq t "" then s else t

-- `not value`, of a text that may be missing.
abbrev pub is_missing : Option String → Bool
is_missing s = str_eq (or_text s "") ""

-- `self.title or self.message`
abbrev pub title_or_message : Option String → Option String → Option String
title_or_message none message = message
title_or_message (some t) message = if str_eq t "" then message else some t

module _ (b : Builtins) where
  -- `_clip`
  unfoldable pub short_text : Option Json → Option String
  unfolding one_line
  short_text none = none
  short_text (some null) = none
  short_text (some j) = some (one_line (b.str_of j) 1000)

  unfoldable pub host_name_of : Json → Option String
  unfolding name_matches
  host_name_of = b.constrain false name_matches

  unfoldable pub version_of : Json → Option String
  unfolding version_matches
  version_of = b.constrain false version_matches

  unfoldable pub event_of : Json → Option String
  unfolding event_matches
  event_of = b.constrain true event_matches

  -- `PatchmonWebhookSchema.model_validate`
  unfoldable pub validate_flat : Fields → Option FlatAlert
  unfolding host_name_of version_of event_of check_host_id short_text get_field
  validate_flat fs = Option.bind (Option.bind (get_field "event" fs) event_of) (λ event.
      Option.bind (Option.bind (get_field "target_host" fs) host_name_of) (λ target_host.
        Option.bind (optional host_name_of (get_field "service" fs)) (λ service.
          Option.bind (optional version_of (get_field "current_version" fs)) (λ current_version.
            Option.bind (optional version_of (get_field "target_version" fs)) (λ target_version.
              Option.bind (check_host_id (get_field "patchmon_host_id" fs)) (λ host_id.
                some (record {
                  event = event;
                  target_host = target_host;
                  service = service;
                  current_version = current_version;
                  target_version = target_version;
                  severity = short_text (get_field "severity" fs);
                  patchmon_host_id = host_id;
                })))))))

  -- `reference: PatchmonReference | None = None`
  unfoldable pub check_reference : Option Json → Option (Option (Option String × Option String))
  unfolding short_text get_field
  check_reference none = some none
  check_reference (some null) = some none
  check_reference (some (object fs)) =
      some (some (short_text (get_field "type" fs), short_text (get_field "id" fs)))
  check_reference (some _) = none

  -- `PatchmonNativeAlert.model_validate`
  unfoldable pub validate_native : Fields → Option NativeAlert
  unfolding event_of check_metadata check_reference short_text get_field
  validate_native fs = Option.bind (Option.bind (get_field "event_type" fs) event_of) (λ event_type.
      Option.bind (check_reference (get_field "reference" fs)) (λ reference.
        Option.bind (check_metadata (get_field "metadata" fs)) (λ metadata. some (record {
          event_type = event_type;
          severity = short_text (get_field "severity" fs);
          title = short_text (get_field "title" fs);
          message = short_text (get_field "message" fs);
          reference = reference;
          metadata = metadata;
        }))))

  -- `_host_id`
  unfoldable pub host_id_of : Option Json → Option String
  unfolding host_id_of_text
  host_id_of none = none
  host_id_of (some null) = none
  host_id_of (some j) = host_id_of_text (b.str_of j)

  -- The host's id by the reference, if that is to a host.
  abbrev pub reference_id : Option (Option String × Option String) → Option String
  reference_id (some (some kind, some id)) = if str_eq kind "host" then host_id_of_text id else none
  reference_id _ = none

  -- `PatchmonNativeAlert.host_id`
  unfoldable pub native_host_id : NativeAlert → Option String
  unfolding host_id_of host_id_of_text get_field
  native_host_id a =
      or_else (host_id_of (get_field "host_id" a.metadata)) (reference_id a.reference)
