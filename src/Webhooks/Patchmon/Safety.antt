-- ===== src/Webhooks/Patchmon/Safety.antt =====
-- What a request has passed when the webhook asks for an approval.
use mathlib.Core.Option
use homelab_registry_mcp.Json.{Json, null, flag, number, text, array, object, as_text, get_field}
use homelab_registry_mcp.Webhooks.Patchmon.{host_failed, host_info, first_valid, is_text_of}
use homelab_registry_mcp.Webhooks.Schemas.{
  flat, native, Payload, FlatAlert, NativeAlert, IgnoredAlert, PatchAlert, name_matches,
  validate_native, is_missing, or_text,
}
use homelab_registry_mcp.Prelude.{
  Bool, List, Option, false, none, ok, refl, some, true, ℕ, ◌≡◌, Result, ap, err, not, not-false,
  past_guard, subst, String, if_lem, str_eq,
}
use homelab_registry_mcp.Webhooks.Patchmon.{
  Receiver, Request, admit, admit_body, admit_declared, admit_json, admit_payload, event_in,
  header_text, parse, signature_matches, Declined, HostInfo, look_up, name_host, resolve_by_host_id,
  resolve_hostname, flat,
}
use homelab_registry_mcp.Webhooks.Common.{declared_too_large, read_capped}
use homelab_registry_mcp.Text.{member, strip_text}
use homelab_registry_mcp.Webhooks.Normalize.Plain.{
  IsPlain, Obeys, validate_flat-plain, normalize_native-IsPlain,
}
use homelab_registry_mcp.Webhooks.Normalize.{normalize_flat, normalize_native}

abbrev payload_or : Payload → Result Declined Payload → Payload
payload_or p (ok q) = q
payload_or p (err d) = p

module _ (w : Receiver) where
  -- The handler let the request through with this payload: it may write, the body is within the
  -- cap and has a signature, and it is a payload of an event that is listened to.
  pub record IsAdmitted (r : Request) (p : Payload) : Type 0 where
    pub body : List ℕ
    pub document : Json
    pub may_write : w.read_only ≡ false
    pub declared : declared_too_large r.content_length w.max_body ≡ some false
    pub capped : read_capped r.chunks w.max_body ≡ some body
    pub signed : signature_matches w (header_text r.signature) body ≡ true
    pub loaded : w.loads body ≡ some document
    pub parsed : parse w document ≡ some p
    pub listed : member (event_in p) w.events ≡ true

  admit_payload-ok :
      (o : Option Payload) (p : Payload)
      → admit_payload w o ≡ ok p
      → (o ≡ some p) × (member (event_in p) w.events ≡ true)
  unfolding admit_payload
  admit_payload-ok none p h = cc
  admit_payload-ok (some q) p h =
      let (listed, h1) = past_guard (not (member (event_in q) w.events)) _ h in
      let same : q ≡ p = ap (λ r. payload_or q r) h1 in
      (ap some same, subst (λ p. member (event_in p) w.events ≡ true) same (not-false _ listed))

  admit_json-ok :
      (o : Option Json) (p : Payload)
      → admit_json w o ≡ ok p
      → (j : Json) × (o ≡ some j) × (admit_payload w (parse w j) ≡ ok p)
  unfolding admit_json
  admit_json-ok none p h = cc
  admit_json-ok (some j) p h = (j, refl, h)

  admit_body-ok :
      (r : Request) (o : Option (List ℕ)) (p : Payload)
      → admit_body w r o ≡ ok p
      → (body : List ℕ) × (o ≡ some body)
        × (signature_matches w (header_text r.signature) body ≡ true)
        × (admit_json w (w.loads body) ≡ ok p)
  unfolding admit_body
  admit_body-ok r none p h = cc
  admit_body-ok r (some body) p h =
      let (signed, h1) =
        past_guard (not (signature_matches w (header_text r.signature) body)) _ h in
      let (of_type, h2) = past_guard _ _ h1 in (body, refl, not-false _ signed, h2)

  admit_declared-ok :
      (r : Request) (o : Option Bool) (p : Payload)
      → admit_declared w r o ≡ ok p
      → (o ≡ some false) × (admit_body w r (read_capped r.chunks w.max_body) ≡ ok p)
  unfolding admit_declared
  admit_declared-ok r none p h = cc
  admit_declared-ok r (some true) p h = cc
  admit_declared-ok r (some false) p h = (refl, h)

  pub admit-IsAdmitted : (r : Request) (p : Payload) → admit w r ≡ ok p → IsAdmitted r p
  unfolding admit
  admit-IsAdmitted r p h =
      let (may, h0) = past_guard w.read_only _ h in
      let (declared, h1) = admit_declared-ok r _ p h0 in
      let (body, capped, signed, h2) = admit_body-ok r _ p h1 in
      let (j, loaded, h3) = admit_json-ok _ p h2 in
      let (parsed, listed) = admit_payload-ok _ p h3 in
      record {
        body = body;
        document = j;
        may_write = may;
        declared = declared;
        capped = capped;
        signed = signed;
        loaded = loaded;
        parsed = parsed;
        listed = listed;
      }

  -- A payload that names its host itself names it plainly.
  PlainPayload : Option Payload → Type 0
  PlainPayload (some (flat a)) = name_matches a.target_host ≡ true
  PlainPayload (some (native a)) = Unit
  PlainPayload none = Unit

  first_valid-PlainPayload :
      (a : Option FlatAlert) (n : Option NativeAlert)
      → ((m : FlatAlert) → a ≡ some m → name_matches m.target_host ≡ true)
      → PlainPayload (first_valid a n)
  unfolding first_valid PlainPayload
  first_valid-PlainPayload (some a) n named = named a refl
  first_valid-PlainPayload none (some n) named = tt
  first_valid-PlainPayload none none named = tt

  parse-PlainPayload : (j : Json) → Obeys w.builtins → PlainPayload (parse w j)
  unfolding parse PlainPayload
  parse-PlainPayload (object fs) obeys =
      first_valid-PlainPayload _ (validate_native w.builtins fs)
        (λ a h. validate_flat-plain w.builtins fs a obeys h)
  parse-PlainPayload null obeys = tt
  parse-PlainPayload (flag b) obeys = tt
  parse-PlainPayload (number n) obeys = tt
  parse-PlainPayload (text s) obeys = tt
  parse-PlainPayload (array js) obeys = tt

  resolve_by_host_id-IsPlain :
      (a : NativeAlert) (ignored : IgnoredAlert) (host_id : String) (answer : HostInfo)
      → IsPlain w.builtins (resolve_by_host_id w a ignored host_id answer)
  unfolding resolve_by_host_id resolve_hostname IsPlain
  resolve_by_host_id-IsPlain a ignored host_id host_failed = tt
  resolve_by_host_id-IsPlain a ignored host_id (host_info fs) =
      let hostname = as_text (get_field "hostname" fs) in
      if_lem (IsPlain w.builtins) (not (is_text_of (as_text (get_field "id" fs)) host_id)) (λ _. tt)
        (λ _.
          if_lem (IsPlain w.builtins) (is_missing (Option.map strip_text hostname)) (λ _. tt)
            (λ _. normalize_native-IsPlain w.builtins a hostname))

  look_up-IsPlain :
      (patchmon : Option (String → HostInfo)) (a : NativeAlert) (r : Result IgnoredAlert PatchAlert)
      → IsPlain w.builtins r
      → IsPlain w.builtins (look_up w patchmon a r)
  unfolding look_up IsPlain
  look_up-IsPlain patchmon a (ok alert) h = h
  look_up-IsPlain none a (err ignored) h = tt
  look_up-IsPlain (some ask) a (err ignored) h =
      let host_id = or_text ignored.lookup_host_id "" in
      if_lem (IsPlain w.builtins) (str_eq host_id "") (λ _. tt)
        (λ _. resolve_by_host_id-IsPlain a ignored host_id (ask host_id))

  -- The alert of an admitted payload names its host by a plain inventory name.
  pub name_host-IsPlain :
      (patchmon : Option (String → HostInfo)) (r : Request) (p : Payload)
      → Obeys w.builtins
      → IsAdmitted r p
      → IsPlain w.builtins (name_host w patchmon p)
  unfolding name_host normalize_flat IsPlain PlainPayload
  name_host-IsPlain patchmon r (flat a) obeys h =
      subst PlainPayload h.parsed (parse-PlainPayload h.document obeys)
  name_host-IsPlain patchmon r (native a) obeys h =
      look_up-IsPlain patchmon a (normalize_native w.builtins a none)
        (normalize_native-IsPlain w.builtins a none)
