-- ===== src/Webhooks/Normalize/Plain.antt =====
-- An alert that is no ignored one names its host by a plain inventory name.
use mathlib.Core.Option
use homelab_registry_mcp.Webhooks.Schemas.{names_no_host, not_plain, or_text}
use homelab_registry_mcp.Webhooks.Schemas.{
  name_matches, host_name_of, validate_flat, event_of, version_of, optional, check_host_id,
  native_host_id, is_missing, Builtins, FlatAlert, IgnoredAlert, NativeAlert, PatchAlert, Reason,
}
use homelab_registry_mcp.Webhooks.Normalize.{normalize_native, normalize_resolved, host_name_in}
use homelab_registry_mcp.Prelude.{
  Bool, Option, Result, String, err, false, if_lem, none, not, not-false, ok, refl, some, str_eq,
  subst, true, ◌&&◌, ◌≡◌, if◌then◌else◌,
}
use homelab_registry_mcp.Json.{Json, Fields, get_field}
use homelab_registry_mcp.Text.{strip_text}

-- What the program relies on of a constrained string that is not lowered: it matches the pattern.
abbrev pub Obeys : Builtins → Type 0
Obeys b =
    (pattern : String → Bool) (j : Json) (s : String)
    → b.constrain false pattern j ≡ some s
    → pattern s ≡ true

abbrev host_in : String → Option FlatAlert → String
host_in missing (some a) = a.target_host
host_in missing none = missing

bind-some {ℓ κ} :
    {A : Type ℓ} {B : Type κ} (o : Option A) {f : A → Option B} {b : B}
    → Option.bind o f ≡ some b
    → (a : A) × (o ≡ some a) × (f a ≡ some b)
unfolding Option.bind
bind-some none h = cc
bind-some (some a) h = (a, refl, h)

module _ (b : Builtins) where
  -- The payload's alert names a host by a plain inventory name.
  pub validate_flat-plain :
      (fs : Fields) (a : FlatAlert)
      → Obeys b
      → validate_flat b fs ≡ some a
      → name_matches a.target_host ≡ true
  unfolding validate_flat host_name_of
  validate_flat-plain fs a obeys h =
      let (event, e1, h1) = bind-some (Option.bind (get_field "event" fs) (event_of b)) h in
      let (host, e2, h2) =
        bind-some (Option.bind (get_field "target_host" fs) (host_name_of b)) h1 in
      let (j, there, checked) = bind-some (get_field "target_host" fs) e2 in
      let (service, e3, h3) = bind-some (optional (host_name_of b) (get_field "service" fs)) h2 in
      let (current, e4, h4) =
        bind-some (optional (version_of b) (get_field "current_version" fs)) h3 in
      let (target, e5, h5) =
        bind-some (optional (version_of b) (get_field "target_version" fs)) h4 in
      let (host_id, e6, h6) = bind-some (check_host_id (get_field "patchmon_host_id" fs)) h5 in
      subst (λ o. name_matches (host_in host o) ≡ true) h6 (obeys name_matches j host checked)

  -- A result that names a host, if it names one, by a plain name.
  unfoldable pub IsPlain : Result IgnoredAlert PatchAlert → Type 0
  IsPlain (ok a) = name_matches a.target_host ≡ true
  IsPlain (err ignored) = Unit

  normalize_resolved-IsPlain :
      (a : NativeAlert) (host_id : Option String) (reason : Reason) (resolved : String)
      → IsPlain (normalize_resolved b a host_id reason resolved)
  unfolding normalize_resolved IsPlain
  normalize_resolved-IsPlain a host_id reason resolved =
      if_lem IsPlain (str_eq resolved "") (λ _. tt)
        (λ _. if_lem IsPlain (not (name_matches resolved)) (λ _. tt) (λ named. not-false _ named))

  pub normalize_native-IsPlain :
      (a : NativeAlert) (resolved : Option String) → IsPlain (normalize_native b a resolved)
  unfolding normalize_native IsPlain
  normalize_native-IsPlain a resolved =
      let host_name = host_name_in b (get_field "host_name" a.metadata) in
      if_lem IsPlain (str_eq host_name "" && is_missing (native_host_id b a)) (λ _. tt)
        (λ _.
          if_lem IsPlain (not (name_matches host_name))
            (λ _.
              normalize_resolved-IsPlain a (native_host_id b a)
                (if str_eq host_name "" then names_no_host else not_plain host_name)
                (strip_text (or_text resolved "")))
            (λ named. not-false _ named))
