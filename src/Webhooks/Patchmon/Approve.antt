-- ===== src/Webhooks/Patchmon/Approve.antt =====
-- `patchmon_webhook` of src/registry_mcp/webhooks/patchmon.py behind its guards: the approval that it
-- creates, the email, and what it records if that could not be sent.
use homelab_registry_mcp.Patching.Store.{
  pending, undelivered, undelivered_email, create, Rows, find_pending, PatchApproval,
  record_outcome,
}
use homelab_registry_mcp.Prelude.{
  Bool, Option, Result, String, err, if◌then◌else◌, none, ok, some, ℕ,
}
use homelab_registry_mcp.Webhooks.Patchmon.{
  Answer, Declined, HostInfo, Receiver, Request, admit, alert_ignored, already_pending, declined,
  email_failed, name_host, pending_approval,
}
use homelab_registry_mcp.Webhooks.Schemas.{PatchAlert, IgnoredAlert, Payload}

-- When the handler looks, writes and records, and what it draws.
pub record Moment : Type 0 where
  pub finds : ℕ
  pub creates : ℕ
  pub records : ℕ
  pub id : String
  pub approve_token : String
  pub cancel_token : String

-- The approval that the handler builds.
abbrev pub draft_for : Moment → PatchAlert → PatchApproval
draft_for m a = record {
  id = m.id;
  event = a.event;
  target_host = a.target_host;
  service = a.service;
  current_version = a.current_version;
  target_version = a.target_version;
  severity = a.severity;
  patchmon_host_id = a.patchmon_host_id;
  summary = a.summary;
  approve_token_hash = "";
  cancel_token_hash = "";
  status = pending;
  created_at = m.creates;
  expires_at = m.creates;
  resolved_at = none;
  executed_via = none;
  detail = none;
}

module _ (w : Receiver) (sha256 : String → String) where
  -- The handler from `create` on, by whether the email was sent.
  unfoldable pub ask_approval :
      (delivered : Bool) → Moment → (later : Rows → Rows) → PatchAlert → Rows → Answer × Rows
  unfolding create record_outcome
  ask_approval delivered m later a rows =
      let (issued, rows') =
        create sha256 m.creates m.approve_token m.cancel_token (draft_for m a) w.ttl_minutes rows in
      if delivered then (pending_approval issued.approval.id, later rows') else (
        email_failed issued.approval.id,
        record_outcome m.records issued.approval.id undelivered none (some undelivered_email)
            (later rows'),
      )

  -- The handler on an approval that `find_pending` found, or did not.
  unfoldable pub unless_pending :
      (delivered : Bool)
      → Moment
      → (meanwhile later : Rows → Rows) → PatchAlert
      → Option PatchApproval
      → Rows
      → Answer × Rows
  unfolding ask_approval
  unless_pending delivered m meanwhile later a (some existing) rows =
      (already_pending existing.id, rows)
  unless_pending delivered m meanwhile later a none rows =
      ask_approval delivered m later a (meanwhile rows)

  -- The handler on the alert.
  unfoldable pub on_alert :
      (delivered : Bool)
      → Moment
      → (meanwhile later : Rows → Rows) → Result IgnoredAlert PatchAlert
      → Rows
      → Answer × Rows
  unfolding unless_pending find_pending
  on_alert delivered m meanwhile later (err ignored) rows =
      (declined (alert_ignored ignored.reason), rows)
  on_alert delivered m meanwhile later (ok a) rows =
      unless_pending delivered m meanwhile later a
        (find_pending m.finds a.event a.target_host a.service a.target_version rows) rows

  -- The handler on what it admitted.
  unfoldable pub on_payload :
      Option (String → HostInfo)
      → (delivered : Bool) → Moment
      → (meanwhile later : Rows → Rows) → Result Declined Payload
      → Rows
      → Answer × Rows
  unfolding on_alert name_host
  on_payload patchmon delivered m meanwhile later (err d) rows = (declined d, rows)
  on_payload patchmon delivered m meanwhile later (ok p) rows =
      on_alert delivered m meanwhile later (name_host w patchmon p) rows

  -- `patchmon_webhook`, with what other requests do to the approvals while it waits for PatchMon's
  -- details of the host, and while it waits for the mail server.
  unfoldable pub patchmon_webhook :
      Option (String → HostInfo)
      → (delivered : Bool) → Moment
      → (meanwhile later : Rows → Rows) → Request
      → Rows
      → Answer × Rows
  unfolding on_payload admit
  patchmon_webhook patchmon delivered m meanwhile later r rows =
      on_payload patchmon delivered m meanwhile later (admit w r) rows
