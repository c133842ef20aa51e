-- ===== src/Auth/Tests.antt =====
-- Runs of the token check on a small library, and its theorems at concrete inputs.
use homelab_registry_mcp.Json.{
  Json, Fields, object, text, no_items, item, no_fields, field, array, get_field, as_text, get_in,
}
use homelab_registry_mcp.Prelude.{
  List, Option, String, [], arith, length, none, refl, some, str_eq, ◌*◌, ◌+◌, ◌∷◌, ◌≡◌, ◌≤◌,
}
use homelab_registry_mcp.Auth.{
  AccessToken, Call, HttpAnswer, Libraries, Verifier, claims_of, http_error, key_calls, or_empty,
  responded,
}
use homelab_registry_mcp.Auth.Accepts.{IsAccepted, verify_token-IsAccepted}
use homelab_registry_mcp.Auth.Fetches.{renewals, key_calls-unreachable, renewals-bounded}
use homelab_registry_mcp.Auth.Verify.{verify_token, verify_tokens}

-- A key is the algorithm that its entry names; a token is signed if it is called so.
abbrev load_alg : Json → Option String
load_alg entry = as_text (get_in "alg" entry)

abbrev claims : Fields
claims = field "sub" (text "me") (field "scope" (text "openid profile") no_fields)

abbrev small_lib : Libraries String
small_lib = record {
  unverified_header =
      λ token. some (field "alg" (text "ES256") (field "kid" (text token) no_fields));
  load_key = load_alg;
  algorithm_name = λ key. key;
  decode = λ token key algorithm audience issuer. claims_of claims;
  str_of = λ j. or_empty (as_text (some j));
  int_of = λ j. 0;
  is_zero = λ n. str_eq n "0";
}

abbrev key_entry : String → Json
key_entry kid = object (field "kid" (text kid) (field "alg" (text "ES256") no_fields))

-- The issuer has one key.
abbrev issuer_up : String → HttpAnswer
issuer_up url =
    responded 200 (some (object (field "keys" (array (item (key_entry "k1") no_items)) no_fields)))

abbrev issuer_down : String → HttpAnswer
issuer_down url = http_error

abbrev new_verifier : Verifier String
new_verifier = record {
  issuer = "https://idp";
  audience = "mcp";
  jwks_url = some "https://idp/jwks";
  cache_seconds = 300;
  keys = [];
  fetched_at = none;
}

abbrev accepted_access : AccessToken
accepted_access = record {
  token = "k1";
  client_id = "mcp";
  scopes = "openid" ∷ "profile" ∷ [];
  expires_at = 0;
  subject = "me";
  claims = claims;
}

-- A made-up key id is refused, and a second one soon after asks nobody.
unknown_ids :
    (verify_token small_lib issuer_up 31000000 "k3"
      (verify_token small_lib issuer_up 30000000 "k2" new_verifier).1).2
    ≡ []
unfolding verify_token get_field verify_tokens get_in
unknown_ids = refl

verify_token-IsAccepted_example :
    IsAccepted small_lib 7000000 "k1" "mcp" "https://idp"
      (verify_token small_lib issuer_up 7000000 "k1"
        (verify_tokens small_lib ((5000000, "k1", issuer_up) ∷ []) new_verifier)).1
      accepted_access
unfolding verify_token get_field verify_tokens get_in
verify_token-IsAccepted_example =
    verify_token-IsAccepted small_lib ((5000000, "k1", issuer_up) ∷ []) new_verifier issuer_up
      7000000 "k1" accepted_access refl refl

abbrev two_calls : List (Call small_lib)
two_calls = (5000000, "k1", issuer_up) ∷ (35000000, "k2", issuer_up) ∷ []

renewals-bounded_example :
    renewals small_lib two_calls new_verifier * 30000000 + 5000000 ≤ 40000000 + 30000000
renewals-bounded_example =
    renewals-bounded small_lib two_calls new_verifier 30000000 5000000 40000000 (omega arith)
      (omega arith) refl (omega arith) (omega arith, (omega arith, tt))
      (omega arith, (omega arith, tt))

key_calls-unreachable_example :
    length
      (key_calls small_lib ((0, "k2", issuer_down) ∷ (1, "k3", issuer_down) ∷ []) new_verifier).1
    ≡ 2
key_calls-unreachable_example =
    key_calls-unreachable small_lib ((0, "k2", issuer_down) ∷ (1, "k3", issuer_down) ∷ [])
      new_verifier refl ((λ url. refl), ((λ url. refl), tt))
