-- ===== src/Auth/Accepts.antt =====
-- What an accepted token has passed.
use homelab_registry_mcp.Prelude.{
  String, some, ℕ, ◌*◌, ◌+◌, ◌<◌, ◌≡◌, Option, Option-cases, false, inl, inr, ok, refl, subst, sym,
  arith, none, str_eq, true, Bool-cases, List, [], ap, err, if_lem, not, ◌∙◌, Result, ◌∷◌,
}
use homelab_registry_mcp.Auth.{
  Libraries, Verifier, second, Attempt, must_fetch, AccessToken, algorithms, claims_of, Decoded,
  HttpAnswer, expired_signature, invalid_audience, invalid_issuer, jwt_error, Refusal, key_for,
}
use homelab_registry_mcp.Auth.Keys.{IsSigning, AllSigning, KeyStep, key_for-KeyStep}
use homelab_registry_mcp.Auth.Keys.{
  KeyStep, cached, fetched, failed, IsSigning, AllSigning, find_key-IsSigning,
}
use homelab_registry_mcp.Json.{Fields, as_text, get_field}
use homelab_registry_mcp.Auth.Verify.{
  Answer, read_decoded, check_key, verify_header, access_token, answer_key, verify_parsed,
  verify_token, verify_tokens,
}
use homelab_registry_mcp.Text.{member}

abbrev claims_in : Fields → Result Refusal AccessToken → Fields
claims_in missing (ok access) = access.claims
claims_in missing (err r) = missing

module _ {Key : Type 0} (lib : Libraries Key) where
  -- The verifier has keys that are young enough to be used.
  pub record IsFresh (now : ℕ) (v : Verifier Key) : Type 0 where
    pub at : ℕ
    pub asked_at : v.fetched_at ≡ some at
    pub young : 0 < v.cache_seconds → now < at + v.cache_seconds * second

  -- What `_key` gave may be used, and the cache holds signing keys only.
  record IsUsable (now : ℕ) (kid : String) (a : Attempt Key (Option Key)) : Type 0 where
    held : AllSigning lib a.1.keys
    signing : (key : Key) → a.0 ≡ ok (some key) → IsSigning lib kid key
    fresh : (key : Option Key) → a.0 ≡ ok key → IsFresh now a.1

  must_fetch-IsFresh :
      (now : ℕ) (kid : String) (v : Verifier Key) → must_fetch lib now kid v ≡ false → IsFresh now v
  unfolding must_fetch
  must_fetch-IsFresh now kid v h = elim (Option-cases v.fetched_at) [
    | inl never ↦ ground (arith, h, never)
    | inr (at, met) ↦ record {
      at = at;
      asked_at = met;
      young = λ aged. ground (arith, h, met, aged);
    }
  ]

  KeyStep-IsUsable :
      {now : ℕ} {kid : String} {v : Verifier Key} {a : Attempt Key (Option Key)}
      → AllSigning lib v.keys
      → KeyStep lib now kid v a
      → IsUsable now kid a
  KeyStep-IsUsable held (cached young) = record {
    held = held;
    signing = λ key h. find_key-IsSigning lib _ _ key held ground (arith, h);
    fresh = λ key h. must_fetch-IsFresh _ _ _ young;
  }
  KeyStep-IsUsable {now = now} {kid = kid} held (fetched keys v' asked due f) = record {
    held = f.all_signing;
    signing = λ key h. find_key-IsSigning lib kid keys key f.all_signing ground (arith, h);
    fresh =
        λ key h. record { at = now; asked_at = refl; young = λ aged. ground (arith, f.same_age) };
  }
  KeyStep-IsUsable held (failed e v' asked due f) = record {
    held = subst (AllSigning lib) (sym f.same_keys) held;
    signing = λ key h. cc;
    fresh = λ key h. cc;
  }

  -- What lets a token pass: a key set young enough has a signing key under the header's key id, for
  -- the header's algorithm, which is an asymmetric one, and PyJWT decodes the token with that key,
  -- for the verifier's audience and issuer.
  pub record IsAccepted (now : ℕ) (token audience issuer : String) (v : Verifier Key)
      (access : AccessToken) : Type 0 where
    pub header : Fields
    pub alg : String
    pub kid : String
    pub key : Key
    pub parsed : lib.unverified_header token ≡ some header
    pub header_alg : as_text (get_field "alg" header) ≡ some alg
    pub asymmetric : member alg algorithms ≡ true
    pub header_kid : as_text (get_field "kid" header) ≡ some kid
    pub signing : IsSigning lib kid key
    pub for_alg : str_eq (lib.algorithm_name key) alg ≡ true
    pub decoded : lib.decode token key alg audience issuer ≡ claims_of access.claims
    pub fresh : IsFresh now v

  -- A call of `verify_token`: it keeps the cache's keys signing ones, and accepts such tokens only.
  record IsSound (now : ℕ) (token audience issuer : String) (a : Answer lib) : Type 0 where
    held : AllSigning lib a.1.keys
    accepted :
        (access : AccessToken) → a.0 ≡ ok access → IsAccepted now token audience issuer a.1 access

  read_decoded-ok :
      (audience token : String) (d : Decoded) (access : AccessToken)
      → read_decoded lib audience token d ≡ ok access
      → d ≡ claims_of access.claims
  unfolding read_decoded access_token
  read_decoded-ok audience token (claims_of claims) access h =
      ap (λ r. claims_of (claims_in claims r)) h
  read_decoded-ok audience token expired_signature access h = cc
  read_decoded-ok audience token invalid_audience access h = cc
  read_decoded-ok audience token invalid_issuer access h = cc
  read_decoded-ok audience token (jwt_error name) access h = cc

  check_key-ok :
      (audience issuer token alg : String) (key : Option Key) (access : AccessToken)
      → check_key lib audience issuer token alg key ≡ ok access
      → (k : Key) × (key ≡ some k)
        × (str_eq (lib.algorithm_name k) alg ≡ true)
        × (lib.decode token k alg audience issuer ≡ claims_of access.claims)
  unfolding check_key
  check_key-ok audience issuer token alg none access h = cc
  check_key-ok audience issuer token alg (some k) access h =
      elim (Bool-cases (str_eq (lib.algorithm_name k) alg)) [
        | inl same ↦
            (k, refl, same, read_decoded-ok audience token _ access (ground (arith, h, same)))
        | inr apart ↦ ground (arith, h, apart)
      ]

  refused-IsSound :
      {now : ℕ} {token audience issuer : String} (r : Refusal) (v : Verifier Key)
      (asked : List String)
      → AllSigning lib v.keys
      → IsSound now token audience issuer (err r, v, asked)
  refused-IsSound r v asked held = record { held = held; accepted = λ access h. cc }

  answer_key-ok :
      (audience issuer token alg : String) (a : Attempt Key (Option Key)) (access : AccessToken)
      → (answer_key lib audience issuer token alg a).0 ≡ ok access
      → (key : Option Key) × (a.0 ≡ ok key)
        × (check_key lib audience issuer token alg key ≡ ok access)
  unfolding answer_key
  answer_key-ok audience issuer token alg (ok key, v, asked) access h = (key, refl, h)
  answer_key-ok audience issuer token alg (err e, v, asked) access h = cc

  answer_key-same :
      (audience issuer token alg : String) (a : Attempt Key (Option Key))
      → (answer_key lib audience issuer token alg a).1 ≡ a.1
  unfolding answer_key
  answer_key-same audience issuer token alg (ok key, v, asked) = refl
  answer_key-same audience issuer token alg (err e, v, asked) = refl

  answer_key-IsSound :
      (http : String → HttpAnswer) (now : ℕ) (token : String) (header : Fields) (alg kid : String)
      (v : Verifier Key)
      → AllSigning lib v.keys
      → lib.unverified_header token ≡ some header
      → as_text (get_field "alg" header) ≡ some alg
      → as_text (get_field "kid" header) ≡ some kid
      → member alg algorithms ≡ true
      → IsSound now token v.audience v.issuer
          (answer_key lib v.audience v.issuer token alg (key_for lib http now kid v))
  answer_key-IsSound http now token header alg kid v held parsed ha hk listed =
      let a = key_for lib http now kid v in
      let u = KeyStep-IsUsable held (key_for-KeyStep lib http now kid v) in
      let same = answer_key-same v.audience v.issuer token alg a in
      record {
        held = subst (λ w. AllSigning lib w.keys) (sym same) u.held;
        accepted = λ access h.
            let (found, gave, checked) = answer_key-ok v.audience v.issuer token alg a access h in
            let (key, is_key, for_alg, decoded) =
              check_key-ok v.audience v.issuer token alg found access checked in
            record {
              header = header;
              alg = alg;
              kid = kid;
              key = key;
              parsed = parsed;
              header_alg = ha;
              asymmetric = listed;
              header_kid = hk;
              signing = u.signing key (gave ∙ ap ok is_key);
              for_alg = for_alg;
              decoded = decoded;
              fresh = subst (IsFresh now) (sym same) (u.fresh found gave);
            };
      }

  verify_header-IsSound :
      (http : String → HttpAnswer) (now : ℕ) (token : String) (header : Fields)
      (alg kid : Option String) (v : Verifier Key)
      → AllSigning lib v.keys
      → lib.unverified_header token ≡ some header
      → as_text (get_field "alg" header) ≡ alg
      → as_text (get_field "kid" header) ≡ kid
      → IsSound now token v.audience v.issuer (verify_header lib http now token alg kid v)
  unfolding verify_header
  verify_header-IsSound http now token header none kid v held parsed ha hk = record {
    held = held;
    accepted = λ access h. cc;
  }
  verify_header-IsSound http now token header (some alg) none v held parsed ha hk =
      if_lem (IsSound now token v.audience v.issuer) (not (member alg algorithms))
        (λ _. refused-IsSound _ v [] held) (λ _. refused-IsSound _ v [] held)
  verify_header-IsSound http now token header (some alg) (some kid) v held parsed ha hk =
      if_lem (IsSound now token v.audience v.issuer) (not (member alg algorithms))
        (λ _. refused-IsSound _ v [] held)
        (λ listed.
          if_lem (IsSound now token v.audience v.issuer) (str_eq kid "")
            (λ _. refused-IsSound _ v [] held)
            (λ _.
              answer_key-IsSound http now token header alg kid v held parsed ha hk
                (ground (arith, listed))))

  verify_parsed-IsSound :
      (http : String → HttpAnswer) (now : ℕ) (token : String) (header : Option Fields)
      (v : Verifier Key)
      → AllSigning lib v.keys
      → lib.unverified_header token ≡ header
      → IsSound now token v.audience v.issuer (verify_parsed lib http now token header v)
  unfolding verify_parsed
  verify_parsed-IsSound http now token none v held h = refused-IsSound _ v [] held
  verify_parsed-IsSound http now token (some header) v held h =
      verify_header-IsSound http now token header _ _ v held h refl refl

  verify_token-IsSound :
      (http : String → HttpAnswer) (now : ℕ) (token : String) (v : Verifier Key)
      → AllSigning lib v.keys
      → IsSound now token v.audience v.issuer (verify_token lib http now token v)
  unfolding verify_token
  verify_token-IsSound http now token v held =
      verify_parsed-IsSound http now token (lib.unverified_header token) v held refl

  verify_tokens-AllSigning :
      (calls : List (ℕ × String × (String → HttpAnswer))) (v : Verifier Key)
      → AllSigning lib v.keys
      → AllSigning lib (verify_tokens lib calls v).keys
  unfolding verify_tokens
  verify_tokens-AllSigning [] v held = held
  verify_tokens-AllSigning ((now, token, http) ∷ calls) v held =
      verify_tokens-AllSigning calls _ (verify_token-IsSound http now token v held).held

  -- Whatever a verifier that starts with no keys was asked before, and whatever the issuer answered,
  -- an accepted token names an allowed asymmetric algorithm and a key id in its header; a key that was
  -- loaded from a signing entry with that id is for this algorithm, and PyJWT decodes the token
  -- with it for the verifier's audience and issuer to the claims of the result; and the key set
  -- then is younger than the cache's time, if that is positive.
  pub verify_token-IsAccepted :
      (calls : List (ℕ × String × (String → HttpAnswer))) (start : Verifier Key)
      (http : String → HttpAnswer) (now : ℕ) (token : String) (access : AccessToken)
      → start.keys ≡ []
      → let v = verify_tokens lib calls start in
        (verify_token lib http now token v).0 ≡ ok access
        → IsAccepted now token v.audience v.issuer (verify_token lib http now token v).1 access
  verify_token-IsAccepted calls start http now token access empty h =
      let v = verify_tokens lib calls start in
      let held = verify_tokens-AllSigning calls start (subst (AllSigning lib) (sym empty) tt) in
      (verify_token-IsSound http now token v held).accepted access h
