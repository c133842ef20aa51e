-- ===== src/Auth.antt =====
-- The key set of src/registry_mcp/auth/verifier.py: its fetch and its cache. PyJWT and the HTTP transport are parameters, as are Python's
-- `str` and `int` of a JSON value. The clock is in microseconds. The lock around `_key` makes a call
-- one step; a refusal's logged reason is its result here.
pub mod Accepts
pub mod Fetches
pub mod Keys
pub mod Verify
mod Tests
use homelab_registry_mcp.Json.{
  Json, Fields, object, text, null, flag, number, array, no_items, item, no_fields, field, as_text,
  items, get_in, get_field,
}
use Prim.Native.String.{◌++◌ as join}
use Prim.Native.Char.{code}
use homelab_registry_mcp.Prelude.{
  Bool, List, Option, Result, String, [], err, false, if◌then◌else◌, is_some, none, not, ok, some,
  str_eq, true, ℕ, ◌&&◌, ◌*◌, ◌==◌, ◌||◌, ◌∷◌, leb, ◌+◌, ◌++◌,
}
use homelab_registry_mcp.Text.{after_prefix, split_words, codes}

-- `ALGORITHMS`
abbrev pub algorithms : List String
algorithms = "RS256" ∷ "RS384" ∷ "RS512" ∷ "PS256" ∷ "PS384" ∷ "PS512" ∷ "ES256" ∷ "ES384" ∷ []

abbrev pub second : ℕ
second = 1000000

-- `_MIN_REFETCH_SECONDS`
abbrev pub min_refetch : ℕ
min_refetch = 30 * second

-- `JwksUnavailableError`, by what went wrong.
pub data JwksUnavailable : Type 0 where
  request_failed not_json : String → JwksUnavailable
  bad_status : String → ℕ → JwksUnavailable
  no_keys_list no_jwks_uri : JwksUnavailable

-- What the HTTP client gives for a GET: an error of its own, or a status and the body if it is JSON.
pub data HttpAnswer : Type 0 where
  http_error : HttpAnswer
  responded : ℕ → Option Json → HttpAnswer

-- What `jwt.decode` gives.
pub data Decoded : Type 0 where
  claims_of : Fields → Decoded
  expired_signature invalid_audience invalid_issuer : Decoded
  jwt_error : String → Decoded

-- PyJWT, with the leeway and the required claims that the source passes, and Python's `str`, `int` and zero test of a JSON value.
pub record Libraries (Key : Type 0) : Type 0 where
  pub unverified_header : String → Option Fields
  pub load_key : Json → Option Key
  pub algorithm_name : Key → String
  pub decode : (token : String) → Key → (algorithm audience issuer : String) → Decoded
  pub str_of : Json → String
  pub int_of : Json → ℕ
  pub is_zero : String → Bool

pub data Refusal : Type 0 where
  malformed algorithm_not_allowed no_key_id unknown_key_id algorithm_mismatch : Refusal
  jwks_unavailable : JwksUnavailable → Refusal
  expired wrong_audience wrong_issuer : Refusal
  invalid : String → Refusal

pub record AccessToken : Type 0 where
  pub token : String
  pub client_id : String
  pub scopes : List String
  pub expires_at : ℕ
  pub subject : String
  pub claims : Fields

-- `AuthentikTokenVerifier`, less the transport and the clock.
pub record Verifier (Key : Type 0) : Type 0 where
  pub issuer : String
  pub audience : String
  pub jwks_url : Option String
  pub cache_seconds : ℕ
  pub keys : List (String × Key)
  pub fetched_at : Option ℕ

-- `dict.get`: what was put last stands first.
unfoldable pub find_key {ℓ} : {Key : Type ℓ} → String → List (String × Key) → Option Key
find_key kid [] = none
find_key kid ((name, key) ∷ rest) =
    let more = find_key kid rest in if str_eq name kid then some key else more

-- `value.rstrip("/")`
unfoldable pub rstrip_slash : String → String
rstrip_slash String.[] = ""
rstrip_slash (String.◌∷◌ c s) =
    let rest = rstrip_slash s in if code c == b'/' && str_eq rest "" then "" else String.◌∷◌ c rest

-- `url.startswith(("https://", "http://"))`
abbrev is_http_url : String → Bool
is_http_url url =
    is_some (after_prefix (codes "https://") (codes url))
    || is_some (after_prefix (codes "http://") (codes url))

-- `_get_json`
unfoldable pub get_json : (String → HttpAnswer) → (url what : String) → Result JwksUnavailable Json
get_json http url what = elim (http url) [
  | http_error ↦ err (request_failed what)
  | responded status none ↦
      if status == 200 then err (not_json what) else err (bad_status what status)
  | responded status (some body) ↦ if status == 200 then ok body else err (bad_status what status)
]

-- The discovery document's address.
abbrev pub config_url : String → String
config_url issuer = join (rstrip_slash issuer) "/.well-known/openid-configuration"

-- `_discover_jwks_url` on the document, with the address that the verifier keeps.
unfoldable pub read_jwks_uri : Option String → Result JwksUnavailable String
read_jwks_uri none = err no_jwks_uri
read_jwks_uri (some url) = if is_http_url url then ok url else err no_jwks_uri

-- `_discover_jwks_url` on what the document's address gave.
unfoldable pub read_config : Result JwksUnavailable Json → Result JwksUnavailable String
unfolding read_jwks_uri
read_config (ok config) = read_jwks_uri (as_text (get_in "jwks_uri" config))
read_config (err e) = err e

-- A missing text is as false as an empty one.
abbrev pub or_empty : Option String → String
or_empty none = ""
or_empty (some s) = s

-- `entry.get("use", "sig") == "sig"`
unfoldable pub for_signing : Option Json → Bool
for_signing none = true
for_signing (some (text s)) = str_eq s "sig"
for_signing (some j) = false

-- What one attempt leads to: the outcome, the verifier, and the addresses that it asked.
abbrev pub Attempt : Type 0 → Type 0 → Type 0
Attempt Key A = Result JwksUnavailable A × Verifier Key × List String

module _ {Key : Type 0} (lib : Libraries Key) where
  -- `found[kid] = jwt.PyJWK(entry)`, where the key's type can be loaded.
  unfoldable pub put_key : (kid : Option String) → Json → List (String × Key) → List (String × Key)
  put_key none entry found = found
  put_key (some kid) entry found = elim (lib.load_key entry) [
    | none ↦ found
    | some key ↦ (kid, key) ∷ found
  ]

  -- The loop of `_fetch_keys`, from the keys found so far.
  unfoldable pub collect_keys : List Json → List (String × Key) → List (String × Key)
  unfolding put_key for_signing
  collect_keys [] found = found
  collect_keys (object fs ∷ entries) found =
      let found' = put_key (as_text (get_field "kid" fs)) (object fs) found in
      collect_keys entries (if for_signing (get_field "use" fs) then found' else found)
  collect_keys (entry ∷ entries) found = collect_keys entries found

  -- `_fetch_keys` on the body of the key set.
  unfoldable pub parse_jwks : Option Json → Result JwksUnavailable (List (String × Key))
  unfolding collect_keys
  parse_jwks (some (array js)) = ok (collect_keys (items js) [])
  parse_jwks keys = err no_keys_list

  -- `_fetch_keys` on what the key set's address gave.
  unfoldable pub read_jwks :
      Result JwksUnavailable Json → Result JwksUnavailable (List (String × Key))
  unfolding parse_jwks
  read_jwks (ok body) = parse_jwks (get_in "keys" body)
  read_jwks (err e) = err e

  -- `_fetch_keys` once it knows the key set's address.
  unfoldable pub fetch_from :
      (http : String → HttpAnswer)
      → (url : String) → Verifier Key
      → List String
      → Attempt Key (List (String × Key))
  unfolding read_jwks get_json
  fetch_from http url v asked = (read_jwks (get_json http url "jwks"), v, asked ++ url ∷ [])

  -- `_fetch_keys` on what `_discover_jwks_url` found.
  unfoldable pub fetch_found :
      (http : String → HttpAnswer)
      → Verifier Key
      → List String
      → Result JwksUnavailable String
      → Attempt Key (List (String × Key))
  unfolding fetch_from
  fetch_found http v asked (err e) = (err e, v, asked)
  fetch_found http v asked (ok url) = fetch_from http url (record v { jwks_url = some url }) asked

  -- `_fetch_keys` behind a discovery.
  unfoldable pub discover_then_fetch :
      (http : String → HttpAnswer) → Verifier Key → Attempt Key (List (String × Key))
  unfolding get_json read_config rstrip_slash fetch_found
  discover_then_fetch http v =
      let url = config_url v.issuer in
      fetch_found http v (url ∷ []) (read_config (get_json http url "discovery"))

  -- `_fetch_keys`
  unfoldable pub fetch_keys :
      (http : String → HttpAnswer) → Verifier Key → Attempt Key (List (String × Key))
  unfolding fetch_from discover_then_fetch
  fetch_keys http v =
      let url = or_empty v.jwks_url in
      if str_eq url "" then discover_then_fetch http v else fetch_from http url v []

  -- At least `age` has passed since the last fetch, or there was none.
  abbrev pub is_older : (now : ℕ) → Option ℕ → (age : ℕ) → Bool
  is_older now none age = true
  is_older now (some at) age = leb (at + age) now

  -- Whether `_key` asks the issuer.
  unfoldable pub must_fetch : (now : ℕ) → (kid : String) → Verifier Key → Bool
  unfolding find_key
  must_fetch now kid v =
      is_older now v.fetched_at (v.cache_seconds * second)
      || (not (is_some (find_key kid v.keys)) && is_older now v.fetched_at min_refetch)

  -- `_key` behind its fetch.
  unfoldable pub keep_keys :
      (now : ℕ) → (kid : String) → Attempt Key (List (String × Key)) → Attempt Key (Option Key)
  unfolding find_key
  keep_keys now kid (ok keys, v, asked) =
      (ok (find_key kid keys), record v { keys = keys; fetched_at = some now }, asked)
  keep_keys now kid (err e, v, asked) = (err e, v, asked)

  -- `_key`
  unfoldable pub key_for :
      (http : String → HttpAnswer)
      → (now : ℕ) → (kid : String) → Verifier Key
      → Attempt Key (Option Key)
  unfolding fetch_keys must_fetch find_key keep_keys
  key_for http now kid v =
      if must_fetch now kid v
      then keep_keys now kid (fetch_keys http v)
      else (ok (find_key kid v.keys), v, [])

  -- A call of `_key`: the clock, the key id, and what the issuer answers meanwhile.
  abbrev pub Call : Type 0
  Call = ℕ × String × (String → HttpAnswer)

  -- Calls of `_key`, one after another: the verifier at the end, and every address asked.
  unfoldable pub key_calls : List Call → Verifier Key → Verifier Key × List String
  unfolding key_for
  key_calls [] v = (v, [])
  key_calls ((now, kid, http) ∷ calls) v =
      let (found, v', asked) = key_for http now kid v in
      let (last, rest) = key_calls calls v' in (last, asked ++ rest)
