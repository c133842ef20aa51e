-- ===== src/Auth/Keys.antt =====
-- Where the cached keys come from, and how old they are.
use homelab_registry_mcp.Json.{
  Json, Fields, object, text, null, flag, number, array, items, get_field, get_in, as_text,
}
use homelab_registry_mcp.Prelude.{
  All, List, String, [], some, true, ◌∷◌, ◌≡◌, Bool-cases, Option, arith, eq_iff, inl, inr, none,
  str_eq, false, refl, Result, err, ok, ℕ, if_lem,
}
use homelab_registry_mcp.Auth.{
  Libraries, find_key, for_signing, collect_keys, put_key, Attempt, HttpAnswer, JwksUnavailable,
  Verifier, discover_then_fetch, fetch_from, fetch_keys, or_empty, parse_jwks, read_jwks,
  fetch_found, get_json, must_fetch, keep_keys, key_for, config_url,
}

module _ {Key : Type 0} (lib : Libraries Key) where
  -- The key is one that a signing entry of a key set gave for the key id.
  pub record IsSigning (kid : String) (key : Key) : Type 0 where
    pub entry : Fields
    pub loaded : lib.load_key (object entry) ≡ some key
    pub named : as_text (get_field "kid" entry) ≡ some kid
    pub signs : for_signing (get_field "use" entry) ≡ true

  abbrev pub AllSigning : List (String × Key) → Type 0
  AllSigning = All (λ k. IsSigning (k.0) (k.1))

  pub find_key-IsSigning :
      (kid : String) (keys : List (String × Key)) (key : Key)
      → AllSigning keys
      → find_key kid keys ≡ some key
      → IsSigning kid key
  unfolding find_key
  find_key-IsSigning kid [] key all h = cc
  find_key-IsSigning kid ((name, k) ∷ keys) key (mine, rest) h =
      elim (Bool-cases (str_eq name kid)) [
        | inl same ↦ record {
          entry = mine.entry;
          loaded = ground (arith, mine.loaded, h, same);
          named = ground (arith, mine.named, (eq_iff name kid).0 same);
          signs = mine.signs;
        }
        | inr apart ↦ find_key-IsSigning kid keys key rest (ground (arith, h, apart))
      ]

  put_loaded :
      (fs : Fields) (kid : String) (key : Option Key) (found : List (String × Key))
      → lib.load_key (object fs) ≡ key
      → as_text (get_field "kid" fs) ≡ some kid
      → for_signing (get_field "use" fs) ≡ true
      → AllSigning found
      → AllSigning (elim key [ none ↦ found | some k ↦ (kid, k) ∷ found ])
  put_loaded fs kid none found loads same signs all = all
  put_loaded fs kid (some k) found loads same signs all =
      (record { entry = fs; loaded = loads; named = same; signs = signs }, all)

  put_key-AllSigning :
      (fs : Fields) (kid : Option String) (found : List (String × Key))
      → as_text (get_field "kid" fs) ≡ kid
      → for_signing (get_field "use" fs) ≡ true
      → AllSigning found
      → AllSigning (put_key lib kid (object fs) found)
  unfolding put_key
  put_key-AllSigning fs none found same signs all = all
  put_key-AllSigning fs (some kid) found same signs all =
      put_loaded fs kid (lib.load_key (object fs)) found refl same signs all

  collect_keys-AllSigning :
      (entries : List Json) (found : List (String × Key))
      → AllSigning found
      → AllSigning (collect_keys lib entries found)
  unfolding collect_keys
  collect_keys-AllSigning [] found all = all
  collect_keys-AllSigning (object fs ∷ entries) found all = collect_keys-AllSigning entries _ (
      if_lem AllSigning (for_signing (get_field "use" fs))
        (λ signs. put_key-AllSigning fs _ found refl signs all) (λ _. all))
  collect_keys-AllSigning (entry ∷ entries) found all = collect_keys-AllSigning entries found all

  -- What a fetch gives, if it gives keys, are signing keys.
  abbrev pub GivesSigning : Result JwksUnavailable (List (String × Key)) → Type 0
  GivesSigning (ok keys) = AllSigning keys
  GivesSigning (err e) = Unit

  -- An attempt keeps the cache as it was.
  pub record IsFetch (v : Verifier Key) (a : Attempt Key (List (String × Key))) : Type 0 where
    pub same_keys : a.1.keys ≡ v.keys
    pub same_time : a.1.fetched_at ≡ v.fetched_at
    pub same_age : a.1.cache_seconds ≡ v.cache_seconds
    pub all_signing : GivesSigning a.0

  parse_jwks-GivesSigning : (found : Option Json) → GivesSigning (parse_jwks lib found)
  unfolding parse_jwks
  parse_jwks-GivesSigning (some (array js)) = collect_keys-AllSigning (items js) [] tt
  parse_jwks-GivesSigning (some null) = tt
  parse_jwks-GivesSigning (some (flag b)) = tt
  parse_jwks-GivesSigning (some (number n)) = tt
  parse_jwks-GivesSigning (some (text s)) = tt
  parse_jwks-GivesSigning (some (object fs)) = tt
  parse_jwks-GivesSigning none = tt

  read_jwks-GivesSigning : (r : Result JwksUnavailable Json) → GivesSigning (read_jwks lib r)
  unfolding read_jwks
  read_jwks-GivesSigning (ok body) = parse_jwks-GivesSigning (get_in "keys" body)
  read_jwks-GivesSigning (err e) = tt

  fetch_found-IsFetch :
      (http : String → HttpAnswer) (v : Verifier Key) (asked : List String)
      (r : Result JwksUnavailable String)
      → IsFetch v (fetch_found lib http v asked r)
  unfolding fetch_found fetch_from
  fetch_found-IsFetch http v asked (ok url) = record {
    same_keys = refl;
    same_time = refl;
    same_age = refl;
    all_signing = read_jwks-GivesSigning (get_json http url "jwks");
  }
  fetch_found-IsFetch http v asked (err e) = record {
    same_keys = refl;
    same_time = refl;
    same_age = refl;
    all_signing = tt;
  }

  pub fetch_keys-IsFetch :
      (http : String → HttpAnswer) (v : Verifier Key) → IsFetch v (fetch_keys lib http v)
  unfolding fetch_keys fetch_from discover_then_fetch
  fetch_keys-IsFetch http v =
      if_lem (IsFetch v) (str_eq (or_empty v.jwks_url) "")
        (λ _. fetch_found-IsFetch http v (config_url v.issuer ∷ []) _)
        (λ _. record {
          same_keys = refl;
          same_time = refl;
          same_age = refl;
          all_signing = read_jwks-GivesSigning (get_json http (or_empty v.jwks_url) "jwks");
        })

  -- The two ways that a call of `_key` goes: it finds the cached keys young enough, or it fetches.
  pub data KeyStep (now : ℕ) (kid : String) (v : Verifier Key)
      : Attempt Key (Option Key) → Type 0 where
    cached : must_fetch lib now kid v ≡ false → KeyStep now kid v (ok (find_key kid v.keys), v, [])
    fetched :
        (keys : List (String × Key)) (v' : Verifier Key) (asked : List String)
        → must_fetch lib now kid v ≡ true
        → IsFetch v (ok keys, v', asked)
        → KeyStep now kid v
            (ok (find_key kid keys), record v' { keys = keys; fetched_at = some now }, asked)
    failed :
        (e : JwksUnavailable) (v' : Verifier Key) (asked : List String)
        → must_fetch lib now kid v ≡ true
        → IsFetch v (err e, v', asked)
        → KeyStep now kid v (err e, v', asked)

  keep_keys-KeyStep :
      (now : ℕ) (kid : String) (v : Verifier Key) (a : Attempt Key (List (String × Key)))
      → must_fetch lib now kid v ≡ true
      → IsFetch v a
      → KeyStep now kid v (keep_keys lib now kid a)
  unfolding keep_keys
  keep_keys-KeyStep now kid v (ok keys, v', asked) due h = fetched keys v' asked due h
  keep_keys-KeyStep now kid v (err e, v', asked) due h = failed e v' asked due h

  pub key_for-KeyStep :
      (http : String → HttpAnswer) (now : ℕ) (kid : String) (v : Verifier Key)
      → KeyStep now kid v (key_for lib http now kid v)
  unfolding key_for
  key_for-KeyStep http now kid v =
      if_lem (KeyStep now kid v) (must_fetch lib now kid v)
        (λ due. keep_keys-KeyStep now kid v _ due (fetch_keys-IsFetch http v))
        (λ young. cached young)
