-- ===== src/Auth/Verify.antt =====
-- `verify_token` of src/registry_mcp/auth/verifier.py on the key that `_key` gave, and the group check of
-- src/registry_mcp/auth/middleware.py behind it.
use homelab_registry_mcp.Json.{
  Json, Fields, text, null, array, no_items, item, get_field, as_text, Items,
}
use homelab_registry_mcp.Prelude.{
  Bool, List, Option, Result, String, [], err, false, if◌then◌else◌, none, not, ok, some, str_eq, ℕ,
  ◌&&◌, ◌||◌, ◌∷◌,
}
use homelab_registry_mcp.Auth.{
  AccessToken, Decoded, HttpAnswer, Libraries, Refusal, Verifier, algorithm_mismatch,
  algorithm_not_allowed, algorithms, claims_of, expired, expired_signature, invalid,
  invalid_audience, invalid_issuer, jwks_unavailable, jwt_error, key_for, malformed, no_key_id,
  rstrip_slash, unknown_key_id, wrong_audience, wrong_issuer, Attempt,
}
use homelab_registry_mcp.Text.{split_words, member}
use homelab_registry_mcp.Json.{truthy}

module _ {Key : Type 0} (lib : Libraries Key) where
  -- The result, the verifier, and the addresses asked.
  abbrev pub Answer : Type 0
  Answer = Result Refusal AccessToken × Verifier Key × List String

  -- A claim that is missing reads as `None`.
  abbrev claim : String → Fields → Json
  claim name claims = elim (get_field name claims) [ none ↦ null | some j ↦ j ]

  abbrev scopes_of : Option String → List String
  scopes_of none = []
  scopes_of (some s) = split_words s

  -- The `AccessToken` of accepted claims.
  unfoldable pub access_token : (audience token : String) → Fields → AccessToken
  unfolding truthy split_words
  access_token audience token claims = record {
    token = token;
    client_id =
        if truthy lib.is_zero (claim "azp" claims)
        then lib.str_of (claim "azp" claims)
        else audience;
    scopes = scopes_of (as_text (get_field "scope" claims));
    expires_at = lib.int_of (claim "exp" claims);
    subject = lib.str_of (claim "sub" claims);
    claims = claims;
  }

  -- `verify_token` on what `jwt.decode` gave.
  unfoldable pub read_decoded : (audience token : String) → Decoded → Result Refusal AccessToken
  unfolding access_token
  read_decoded audience token (claims_of claims) = ok (access_token audience token claims)
  read_decoded audience token expired_signature = err expired
  read_decoded audience token invalid_audience = err wrong_audience
  read_decoded audience token invalid_issuer = err wrong_issuer
  read_decoded audience token (jwt_error name) = err (invalid name)

  -- `verify_token` with the key of the token's key id.
  unfoldable pub check_key :
      (audience issuer token alg : String) → Option Key → Result Refusal AccessToken
  unfolding read_decoded
  check_key audience issuer token alg none = err unknown_key_id
  check_key audience issuer token alg (some key) =
      if not (str_eq (lib.algorithm_name key) alg)
      then err algorithm_mismatch
      else read_decoded audience token (lib.decode token key alg audience issuer)

  -- `verify_token` behind `_key`.
  unfoldable pub answer_key :
      (audience issuer token alg : String) → Attempt Key (Option Key) → Answer
  unfolding check_key
  answer_key audience issuer token alg (err e, v, asked) = (err (jwks_unavailable e), v, asked)
  answer_key audience issuer token alg (ok key, v, asked) =
      (check_key audience issuer token alg key, v, asked)

  -- `verify_token` on the header's algorithm and key id.
  unfoldable pub verify_header :
      (http : String → HttpAnswer)
      → (now : ℕ) → (token : String) → (alg kid : Option String) → Verifier Key
      → Answer
  unfolding answer_key key_for member
  verify_header http now token none kid v = (err algorithm_not_allowed, v, [])
  verify_header http now token (some alg) none v =
      if not (member alg algorithms)
      then (err algorithm_not_allowed, v, [])
      else (err no_key_id, v, [])
  verify_header http now token (some alg) (some kid) v =
      if not (member alg algorithms)
      then (err algorithm_not_allowed, v, [])
      else if str_eq kid ""
      then (err no_key_id, v, [])
      else answer_key v.audience v.issuer token alg (key_for lib http now kid v)

  -- `verify_token` on what `jwt.get_unverified_header` gave.
  unfoldable pub verify_parsed :
      (http : String → HttpAnswer)
      → (now : ℕ) → (token : String) → Option Fields
      → Verifier Key
      → Answer
  unfolding verify_header
  verify_parsed http now token none v = (err malformed, v, [])
  verify_parsed http now token (some header) v =
      verify_header http now token (as_text (get_field "alg" header))
        (as_text (get_field "kid" header)) v

  unfoldable pub verify_token :
      (http : String → HttpAnswer) → (now : ℕ) → (token : String) → Verifier Key → Answer
  unfolding verify_parsed
  verify_token http now token v = verify_parsed http now token (lib.unverified_header token) v

  -- Calls one after another, each with its clock and what the issuer answers meanwhile.
  unfoldable pub verify_tokens :
      List (ℕ × String × (String → HttpAnswer)) → Verifier Key → Verifier Key
  unfolding verify_token
  verify_tokens [] v = v
  verify_tokens ((now, token, http) ∷ calls) v =
      verify_tokens calls (verify_token http now token v).1

abbrev is_text : String → Json → Bool
is_text s (text x) = str_eq x s
is_text s _ = false

-- `group in groups`
unfoldable pub lists : String → Items → Bool
lists s no_items = false
lists s (item j js) = is_text s j || lists s js

-- `in_group`, on the `groups` claim.
unfoldable pub in_group : (group : String) → Option Json → Bool
unfolding lists
in_group group (some (array js)) = lists group js
in_group group _ = false

-- A request as the middleware sees it: whether it is HTTP, its path, and its authenticated user.
pub record Scope : Type 0 where
  pub is_http : Bool
  pub path : String
  pub user : Option AccessToken

pub data Passed : Type 0 where
  forwarded forbidden : Passed

-- `RequireGroupMiddleware.__call__`, for the path that its constructor stripped.
unfoldable pub require_group : (group path : String) → Scope → Passed
unfolding in_group rstrip_slash
require_group group path scope =
    if scope.is_http && str_eq (rstrip_slash scope.path) (rstrip_slash path)
    then elim scope.user [
      | none ↦ forwarded
      | some user ↦ if in_group group (get_field "groups" user.claims) then forwarded else forbidden
    ]
    else forwarded
