-- ===== src/Webhooks/Normalize.antt =====
-- `normalize` of both alerts of src/registry_mcp/webhooks/patchmon_schemas.py.
pub mod Plain
use Prim.Native.String.{◌++◌ as join}
use homelab_registry_mcp.Json.{truthy, Json, get_field}
use homelab_registry_mcp.Webhooks.Schemas.{
  Builtins, FlatAlert, NativeAlert, PatchAlert, IgnoredAlert, names_no_host, not_plain,
  resolved_not_plain, or_text, title_or_message, name_matches, native_host_id, is_missing, Reason,
}
use homelab_registry_mcp.Prelude.{
  Option, Result, String, err, if◌then◌else◌, none, not, ok, some, str_eq, ◌&&◌,
}
use homelab_registry_mcp.Text.{strip_text}

module _ (b : Builtins) where
  -- `PatchmonWebhookSchema.normalize`
  unfoldable pub normalize_flat : FlatAlert → PatchAlert
  normalize_flat a =
      let name = or_text a.service a.target_host in
      record {
        event = a.event;
        target_host = a.target_host;
        service = a.service;
        current_version = a.current_version;
        target_version = a.target_version;
        severity = a.severity;
        patchmon_host_id = a.patchmon_host_id;
        summary = some (
            if is_missing a.target_version
            then name
            else join (join (join (join name " ") (or_text a.current_version "?")) " -> ")
                (or_text a.target_version ""));
      }

  -- `str(metadata.get("host_name") or "").strip()`
  unfoldable pub host_name_in : Option Json → String
  unfolding truthy strip_text
  host_name_in none = ""
  host_name_in (some j) = if truthy b.is_zero j then strip_text (b.str_of j) else ""

  -- The approval's alert, for a host that is named.
  abbrev pub alert_for : NativeAlert → (host_name : String) → (host_id : Option String) → PatchAlert
  alert_for a host_name host_id = record {
    event = a.event_type;
    target_host = host_name;
    service = none;
    current_version = none;
    target_version = none;
    severity = a.severity;
    patchmon_host_id = host_id;
    summary = title_or_message a.title a.message;
  }

  abbrev pub Normalized : Type 0
  Normalized = Result IgnoredAlert PatchAlert

  -- `normalize` by the hostname that was looked up, where the alert's own is no plain one.
  unfoldable pub normalize_resolved :
      NativeAlert → (host_id : Option String) → Reason → (resolved : String) → Normalized
  unfolding name_matches
  normalize_resolved a host_id reason resolved =
      if str_eq resolved ""
      then err (record { event = a.event_type; reason = reason; lookup_host_id = host_id })
      else if not (name_matches resolved)
      then err (record {
        event = a.event_type;
        reason = resolved_not_plain reason host_id resolved;
        lookup_host_id = none;
      })
      else ok (alert_for a resolved host_id)

  -- `PatchmonNativeAlert.normalize`
  unfoldable pub normalize_native : NativeAlert → (resolved_hostname : Option String) → Normalized
  unfolding native_host_id host_name_in name_matches normalize_resolved strip_text get_field
  normalize_native a resolved_hostname =
      let host_name = host_name_in (get_field "host_name" a.metadata) in
      let host_id = native_host_id b a in
      let reason = if str_eq host_name "" then names_no_host else not_plain host_name in
      if str_eq host_name "" && is_missing host_id
      then err (record { event = a.event_type; reason = names_no_host; lookup_host_id = none })
      else if not (name_matches host_name)
      then normalize_resolved a host_id reason (strip_text (or_text resolved_hostname ""))
      else ok (alert_for a host_name host_id)
