-- ===== src/Webhooks/Patchmon/Tests.antt =====
-- Runs of the webhook, and the receivers' theorems at concrete inputs.
use mathlib.Core.Option
use homelab_registry_mcp.Table.{first}
use homelab_registry_mcp.Json.{
  Json, Fields, object, text, null, flag, number, array, no_fields, field,
}
use homelab_registry_mcp.Webhooks.Patchmon.{
  declined, already_pending, bad_signature, Answer, Receiver, Request, Rows,
}
use homelab_registry_mcp.Prelude.{
  Bool, Bool-cases, Option, String, [], arith, false, if◌then◌else◌, inl, inr, none, refl, some,
  true, ◌∷◌, ◌≡◌, ◌≤◌, ◌⊎◌,
}
use homelab_registry_mcp.Text.{codes, text_length}
use homelab_registry_mcp.Webhooks.Patchmon.Approve.{Moment, patchmon_webhook, ask_approval}
use homelab_registry_mcp.Webhooks.Patchmon.Asks.{is_asking, IsAsked, patchmon_webhook-IsAsked}
use homelab_registry_mcp.Webhooks.Schemas.{PatchAlert}
use homelab_registry_mcp.Webhooks.Common.{one_line}
use homelab_registry_mcp.Webhooks.Patchmon.Replay.{
  patchmon_webhook-replayed, patchmon_webhook-retried,
}
use homelab_registry_mcp.Webhooks.Common.Bounds.{is_line, one_line-bounded}

-- A string is checked against its pattern as it stands.
check_text : (String → Bool) → Json → Option String
check_text pattern (text s) = if pattern s then some s else none
check_text pattern j = none

check_text-obeys :
    (pattern : String → Bool) (j : Json) (s : String)
    → check_text pattern j ≡ some s
    → pattern s ≡ true
unfolding check_text
check_text-obeys pattern (text t) s h = elim (Bool-cases (pattern t)) [
  | inl passes ↦ ground (arith, h, passes)
  | inr fails ↦ ground (arith, h, fails)
]
check_text-obeys pattern null s h = cc
check_text-obeys pattern (flag b) s h = cc
check_text-obeys pattern (number n) s h = cc
check_text-obeys pattern (array js) s h = cc
check_text-obeys pattern (object fs) s h = cc

abbrev patch_alert : Fields
patch_alert = field "event" (text "patch") (field "target_host" (text "nas") no_fields)

abbrev small_receiver : Receiver
small_receiver = record {
  hmac_hex = λ key body. "aa";
  lower = λ s. s;
  loads = λ body. some (object patch_alert);
  builtins = record {
    constrain = λ lower pattern j. check_text pattern j;
    str_of = λ j. "x";
    is_zero = λ n. false;
  };
  read_only = false;
  max_body = 10;
  key = "k";
  events = "patch" ∷ [];
  ttl_minutes = 1;
}

abbrev signed_request : Request
signed_request = record {
  content_length = some (codes "2");
  chunks = (123 ∷ []) ∷ (125 ∷ []) ∷ [];
  signature = some " sha256=aa";
  content_type = "application/json; charset=utf-8";
}

abbrev first_moment : Moment
first_moment = record {
  finds = 1;
  creates = 2;
  records = 3;
  id = "p1";
  approve_token = "yes";
  cancel_token = "no";
}

abbrev second_moment : Moment
second_moment = record {
  finds = 10;
  creates = 11;
  records = 12;
  id = "p2";
  approve_token = "yes2";
  cancel_token = "no2";
}

abbrev plain_hash : String → String
plain_hash s = s

abbrev first_run : Bool → Answer × Rows
first_run delivered =
    patchmon_webhook small_receiver plain_hash none delivered first_moment (λ t. t) (λ t. t)
      signed_request []

unsigned_run :
    (patchmon_webhook small_receiver plain_hash none true first_moment
      (λ t. t)
      (λ t. t)
      (record signed_request { signature = some "ab" })
      []).0
    ≡ declined bad_signature
unfolding patchmon_webhook
unsigned_run = refl

first_run-asks : (delivered : Bool) → is_asking (first_run delivered).0 ≡ true
unfolding patchmon_webhook check_text Option.bind first
first_run-asks true = refl
first_run-asks false = refl

patchmon_webhook-IsAsked_example :
    let out = first_run true in
    ((out.1 ≡ []) × (is_asking out.0 ≡ false))
    ⊎ ((a : PatchAlert) × IsAsked small_receiver plain_hash none 1 signed_request [] a
        × (out ≡ ask_approval small_receiver plain_hash true first_moment (λ t. t) a []))
patchmon_webhook-IsAsked_example =
    patchmon_webhook-IsAsked small_receiver plain_hash none true first_moment (λ t. t) (λ t. t)
      signed_request [] (check_text-obeys)

patchmon_webhook-replayed_example :
    patchmon_webhook small_receiver plain_hash none true second_moment
      (λ t. t)
      (λ t. t)
      signed_request
      (first_run true).1
    ≡ (already_pending "p1", (first_run true).1)
patchmon_webhook-replayed_example =
    patchmon_webhook-replayed small_receiver plain_hash none none true first_moment second_moment
      (λ t. t) (λ t. t) signed_request [] check_text-obeys (λ p passed. refl) (omega arith)
      (omega arith) (first_run-asks true)

patchmon_webhook-retried_example :
    (a : PatchAlert) × IsAsked small_receiver plain_hash none 1 signed_request [] a
    × (patchmon_webhook small_receiver plain_hash none true second_moment
          (λ t. t)
          (λ t. t)
          signed_request
          (first_run false).1
        ≡ ask_approval small_receiver plain_hash true second_moment (λ t. t) a (first_run false).1)
patchmon_webhook-retried_example =
    patchmon_webhook-retried small_receiver plain_hash none none true first_moment second_moment
      (λ t. t) (λ t. t) signed_request [] check_text-obeys (λ p passed. refl) (omega arith)
      (first_run-asks false)

one_line-bounded_example :
    (text_length (one_line "a link" 3) ≤ 3) × (is_line (one_line "a link" 3) ≡ true)
one_line-bounded_example = one_line-bounded "a link" 3 (omega arith)
