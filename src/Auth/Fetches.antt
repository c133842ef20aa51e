-- ===== src/Auth/Fetches.antt =====
-- How often the calls of `_key`, in a row, renew the key set, and how often they ask the issuer.
use homelab_registry_mcp.Auth.Keys.{KeyStep, cached, fetched, failed, key_for-KeyStep}
use homelab_registry_mcp.Prelude.{
  Bool, List, Option, Result, String, [], arith, err, false, inl, inr, ok, refl, some, true, ℕ, ◌*◌,
  ◌+◌, ◌∙◌, ◌∷◌, ◌≡◌, ◌≤◌, ◌⊎◌, All, length, none, subst, sym, ap, str_eq, if_lem, suc, ◌++◌,
}
use homelab_registry_mcp.Auth.{
  Attempt, Call, JwksUnavailable, Libraries, Verifier, key_for, min_refetch, must_fetch, second,
  http_error, key_calls, HttpAnswer, config_url, discover_then_fetch, fetch_found, fetch_from,
  fetch_keys, get_json, keep_keys, or_empty, read_config, read_jwks, request_failed, find_key,
}

-- Whether a call of `_key` that had to fetch has a new key set.
abbrev pub renewed {ℓ} : {A : Type ℓ} → (due : Bool) → Result JwksUnavailable A → ℕ
renewed true (ok key) = 1
renewed true (err e) = 0
renewed false r = 0

module _ {Key : Type 0} (lib : Libraries Key) where
  -- How many of the calls renewed the key set.
  unfoldable pub renewals : List (Call lib) → Verifier Key → ℕ
  unfolding key_for must_fetch
  renewals [] v = 0
  renewals ((now, kid, http) ∷ calls) v =
      renewed (must_fetch lib now kid v) (key_for lib http now kid v).0
      + renewals calls (key_for lib http now kid v).1

  -- What a call does to the time of the last fetch, which was at `at`.
  record IsSpaced (m at now : ℕ) (v : Verifier Key) (due : Bool) (a : Attempt Key (Option Key))
      : Type 0 where
    at' : ℕ
    met : a.1.fetched_at ≡ some at'
    spaced : renewed due a.0 * m + at ≤ at'
    timely : (at' ≡ at) ⊎ (at' ≡ now)
    same_age : a.1.cache_seconds ≡ v.cache_seconds

  must_fetch-spaced :
      (now : ℕ) (kid : String) (v : Verifier Key) (m at : ℕ)
      → m ≤ v.cache_seconds * second
      → m ≤ min_refetch
      → v.fetched_at ≡ some at
      → must_fetch lib now kid v ≡ true
      → at + m ≤ now
  unfolding must_fetch
  must_fetch-spaced now kid v m at h k since due = ground (arith, h, k, since, due)

  KeyStep-IsSpaced :
      {now : ℕ} {kid : String} {v : Verifier Key} {a : Attempt Key (Option Key)} (m at : ℕ)
      → m ≤ v.cache_seconds * second
      → m ≤ min_refetch
      → v.fetched_at ≡ some at
      → KeyStep lib now kid v a
      → IsSpaced m at now v (must_fetch lib now kid v) a
  KeyStep-IsSpaced m at h k since (cached young) = record {
    at' = at;
    met = since;
    spaced = ground (arith, young);
    timely = inl refl;
    same_age = refl;
  }
  KeyStep-IsSpaced {now = now} m at h k since (fetched keys v' asked due f) = record {
    at' = now;
    met = refl;
    spaced = ground (arith, due, must_fetch-spaced now _ _ m at h k since due);
    timely = inr refl;
    same_age = f.same_age;
  }
  KeyStep-IsSpaced m at h k since (failed e v' asked due f) = record {
    at' = at;
    met = f.same_time ∙ since;
    spaced = ground (arith, due);
    timely = inl refl;
    same_age = f.same_age;
  }

  renewals-spaced :
      (calls : List (Call lib)) (v : Verifier Key) (m at until : ℕ)
      → m ≤ v.cache_seconds * second
      → m ≤ min_refetch
      → v.fetched_at ≡ some at
      → at ≤ until
      → All (λ c. c.0 ≤ until) calls
      → renewals calls v * m + at ≤ until
  unfolding renewals
  renewals-spaced [] v m at until h k since past timely = ground arith
  renewals-spaced ((now, kid, http) ∷ calls) v m at until h k since past (first, rest) =
      let s = KeyStep-IsSpaced m at h k since (key_for-KeyStep lib http now kid v) in
      let more =
        renewals-spaced calls (key_for lib http now kid v).1 m s.at' until
          (subst (λ c. m ≤ c * second) (sym s.same_age) h) k s.met
          (ground (arith, s.timely, first, past)) rest in
      ground (arith, more, s.spaced)

  -- The first call, where nothing was fetched before.
  IsFirst : (now : ℕ) → Verifier Key → Bool → Attempt Key (Option Key) → Type 0
  IsFirst now v due a =
      (a.1.cache_seconds ≡ v.cache_seconds)
      × (((a.1.fetched_at ≡ none) × (renewed due a.0 ≡ 0))
          ⊎ ((a.1.fetched_at ≡ some now) × (renewed due a.0 ≡ 1)))

  must_fetch-none :
      (now : ℕ) (kid : String) (v : Verifier Key)
      → v.fetched_at ≡ none
      → must_fetch lib now kid v ≡ true
  unfolding must_fetch
  must_fetch-none now kid v never = ground (arith, never)

  KeyStep-IsFirst :
      {now : ℕ} {kid : String} {v : Verifier Key} {a : Attempt Key (Option Key)}
      → v.fetched_at ≡ none
      → KeyStep lib now kid v a
      → IsFirst now v (must_fetch lib now kid v) a
  unfolding IsFirst
  KeyStep-IsFirst never (cached young) = ground (arith, young, must_fetch-none _ _ _ never)
  KeyStep-IsFirst {kid = kid} never (fetched keys v' asked due f) =
      (f.same_age, inr (refl, ap (λ b. renewed {A = Option Key} b (ok (find_key kid keys))) due))
  KeyStep-IsFirst never (failed e v' asked due f) =
      (f.same_age, inl (f.same_time ∙ never, ap (λ b. renewed {A = Option Key} b (err e)) due))

  -- Calls of `_key`, made at times from `since` until `until`, in any order of them and with any
  -- answers of the issuer, on a verifier that has fetched nothing yet: where `m` is at most the cache's
  -- time and at most the 30 seconds, the times the key set is renewed, counted in `m`, take no
  -- longer than the calls do and one `m` more.
  pub renewals-bounded :
      (calls : List (Call lib)) (v : Verifier Key) (m since until : ℕ)
      → m ≤ v.cache_seconds * second
      → m ≤ min_refetch
      → v.fetched_at ≡ none
      → since ≤ until
      → All (λ c. since ≤ c.0) calls
      → All (λ c. c.0 ≤ until) calls
      → renewals calls v * m + since ≤ until + m
  unfolding renewals IsFirst
  renewals-bounded [] v m since until h k never past early timely = ground arith
  renewals-bounded ((now, kid, http) ∷ calls) v m since until h k never past (late, after)
        (first, rest) =
      let (same_age, went) = KeyStep-IsFirst never (key_for-KeyStep lib http now kid v) in
      let h' = subst (λ c. m ≤ c * second) (sym same_age) h in
      let v' = (key_for lib http now kid v).1 in
      elim went [
        | inl (still, no_more) ↦
            ground
              (arith, no_more, renewals-bounded calls v' m since until h' k still past after rest)
        | inr (met, one) ↦
            ground (arith, one, first, renewals-spaced calls v' m now until h' k met first rest)
      ]

  get_json-unreachable :
      (http : String → HttpAnswer) (url what : String)
      → http url ≡ http_error
      → get_json http url what ≡ err (request_failed what)
  unfolding get_json
  get_json-unreachable http url what down = ground (arith, down)

  -- An attempt that asked one address, learnt nothing and kept the verifier.
  IsVain : {A : Type 0} → Verifier Key → Attempt Key A → Type 0
  IsVain {A = A} v a =
      (url : String) × (e : JwksUnavailable) × Path (Attempt Key A) a (err e, v, url ∷ [])

  fetch_keys-unreachable :
      (http : String → HttpAnswer) (v : Verifier Key)
      → ((url : String) → http url ≡ http_error)
      → IsVain v (fetch_keys lib http v)
  unfolding IsVain fetch_keys fetch_from discover_then_fetch fetch_found read_config read_jwks
  fetch_keys-unreachable http v down =
      let config = config_url v.issuer in
      let jwks = or_empty v.jwks_url in
      if_lem (IsVain v) (str_eq (or_empty v.jwks_url) "")
        (λ _. (
          config,
          request_failed "discovery",
          ap (λ r. fetch_found lib http v (config ∷ []) (read_config r))
              (get_json-unreachable http config "discovery" (down config)),
        ))
        (λ _. (
          jwks,
          request_failed "jwks",
          ap (λ r. (read_jwks lib r, v, jwks ∷ []))
              (get_json-unreachable http jwks "jwks" (down jwks)),
        ))

  key_for-unreachable :
      (http : String → HttpAnswer) (now : ℕ) (kid : String) (v : Verifier Key)
      → v.fetched_at ≡ none
      → ((url : String) → http url ≡ http_error)
      → IsVain v (key_for lib http now kid v)
  unfolding IsVain key_for keep_keys
  key_for-unreachable http now kid v never down =
      let (url, e, h) = fetch_keys-unreachable http v down in
      (url, e, ground (arith, must_fetch-none now kid v never, h))

  -- While the issuer can't be reached, each call of `_key` on a verifier with no key set asks it
  -- once: however close together the calls are, there are as many requests as calls.
  pub key_calls-unreachable :
      (calls : List (Call lib)) (v : Verifier Key)
      → v.fetched_at ≡ none
      → All (λ c. (url : String) → c.2 url ≡ http_error) calls
      → length (key_calls lib calls v).1 ≡ length calls
  unfolding key_calls IsVain
  key_calls-unreachable [] v never down = refl
  key_calls-unreachable ((now, kid, http) ∷ calls) v never (down, rest) =
      let (url, e, h) = key_for-unreachable http now kid v never down in
      let more = key_calls-unreachable calls v never rest in
      ap length (ap (λ a. a.2 ++ (key_calls lib calls a.1).1) h) ∙ ap suc more
