-- ===== src/Registry/Reconcile.antt =====
-- The matching and merging of discovered services: src/registry_mcp/registry/reconcile.py. What
-- `urllib.parse.urlparse` makes of a URL and `str.lower` are parameters.
pub mod Again
pub mod Match
use homelab_registry_mcp.Prelude.{
  or_else, Bool, List, Option, String, [], false, if◌then◌else◌, none, not, some, str_eq, true, ℕ,
  ◌&&◌, ◌++◌, ◌==◌, ◌||◌, ◌∷◌,
}
use homelab_registry_mcp.Registry.{
  AuthMode, DiscoveredService, Service, SourceType, authentik, forward_auth, no_auth, oauth2_proxy,
  other, said, same_auth, same_source, traefik, unknown_auth,
}
use homelab_registry_mcp.Text.{codes}
use homelab_registry_mcp.Table.{first}

-- `x in xs` on a list or a set of texts.
abbrev pub has_text : String → List String → Bool
has_text x [] = false
has_text x (y ∷ ys) = str_eq x y || has_text x ys

-- Every element of the first list is one of the second.
abbrev pub within : List String → List String → Bool
within [] ys = true
within (x ∷ xs) ys = has_text x ys && within xs ys

-- `set(xs) == set(ys)`
abbrev pub same_set : List String → List String → Bool
same_set xs ys = within xs ys && within ys xs

-- `list(dict.fromkeys(xs))`, past the keys already taken: each text at its first place.
unfoldable pub from_keys : List String → List String → List String
from_keys taken [] = []
from_keys taken (x ∷ xs) =
    let skip = from_keys taken xs in
    let keep = from_keys (x ∷ taken) xs in if has_text x taken then skip else x ∷ keep

abbrev pub is_proxy : AuthMode → Bool
is_proxy forward_auth = true
is_proxy oauth2_proxy = true
is_proxy _ = false

-- `service.authentik_auth_mode in _PROXY_AUTH_MODES`
abbrev pub is_proxied : Option AuthMode → Bool
is_proxied none = false
is_proxied (some m) = is_proxy m

-- `x != y` for a text `x` and a field that may be missing.
abbrev pub is_text : String → Option String → Bool
is_text x none = false
is_text x (some y) = str_eq x y

abbrev pub is_mode : AuthMode → Option AuthMode → Bool
is_mode m none = false
is_mode m (some n) = same_auth m n

-- An auth mode that is reported: neither `None` nor `unknown`.
abbrev pub reported : Option AuthMode → Option AuthMode
reported none = none
reported (some m) = if same_auth m unknown_auth then none else some m

pub record Updates : Type 0 where
  pub traefik_router : Option String
  pub authentik_app_slug : Option String
  pub auth_mode : Option AuthMode
  pub host : Option String
  pub urls : Option (List String)
  pub traefik_auth_mode : Option AuthMode
  pub authentik_auth_mode : Option AuthMode
  pub auth_mode_conflict : Option Bool

-- A text that discovery reports and the service does not have.
abbrev pub new_text : Option String → Option String → Option String
new_text none mine = none
new_text (some x) mine = if is_text x mine then none else some x

abbrev pub is_demoting : DiscoveredService → Service → AuthMode → Bool
is_demoting d s m =
    same_source d.source traefik && same_auth m no_auth && is_proxied s.authentik_auth_mode

abbrev pub new_auth : DiscoveredService → Service → Option AuthMode → Option AuthMode
new_auth d s none = none
new_auth d s (some m) =
    if same_auth m s.auth_mode then none else if is_demoting d s m then none else some m

abbrev pub new_urls : List String → List String → Option (List String)
new_urls mine [] = none
new_urls mine (u ∷ us) =
    let merged = from_keys [] (mine ++ u ∷ us) in if same_set merged mine then none else some merged

-- The auth mode to store for `source`, when the report is of that source.
abbrev pub new_mode_of :
    SourceType → SourceType → Option AuthMode → Option AuthMode → Option AuthMode
new_mode_of source from none mine = none
new_mode_of source from (some m) mine =
    if same_source from source && not (is_mode m mine) then some m else none

-- The conflict, where both proxies' routes and modes are known.
abbrev pub conflict_of :
    Option String → Option String → Option AuthMode → Option AuthMode → Option Bool
conflict_of (some router) (some slug) (some t) (some a) = some (same_auth t no_auth && is_proxy a)
conflict_of _ _ _ _ = none

abbrev pub new_flag : Option Bool → Bool → Option Bool
new_flag none mine = none
new_flag (some true) true = none
new_flag (some false) false = none
new_flag (some b) _ = some b

unfoldable pub provenance_updates : Service → DiscoveredService → Updates
provenance_updates s d =
    let router = new_text (said d.traefik_router) s.traefik_router in
    let fresh_slug = new_text (said d.authentik_app_slug) s.authentik_app_slug in
    let slug = if s.authentik_link_manual then none else fresh_slug in
    let mode_t = new_mode_of traefik d.source (reported d.auth_mode) s.traefik_auth_mode in
    let mode_a = new_mode_of authentik d.source (reported d.auth_mode) s.authentik_auth_mode in
    record {
      traefik_router = router;
      authentik_app_slug = slug;
      auth_mode = new_auth d s (reported d.auth_mode);
      host = new_text (said d.host) s.host;
      urls = new_urls s.urls d.urls;
      traefik_auth_mode = mode_t;
      authentik_auth_mode = mode_a;
      auth_mode_conflict =
          new_flag
            (conflict_of (said (or_else router s.traefik_router))
              (said (or_else slug s.authentik_app_slug)) (or_else mode_t s.traefik_auth_mode)
              (or_else mode_a s.authentik_auth_mode))
            s.auth_mode_conflict;
    }

abbrev pub or_mine {ℓ} : {A : Type ℓ} → Option A → A → A
or_mine none mine = mine
or_mine (some a) mine = a

-- The service with the updates set: the loop of `setattr` in `reconcile`.
abbrev pub apply_updates : Updates → Service → Service
apply_updates u s = record s {
  traefik_router = or_else u.traefik_router s.traefik_router;
  authentik_app_slug = or_else u.authentik_app_slug s.authentik_app_slug;
  auth_mode = or_mine u.auth_mode s.auth_mode;
  host = or_else u.host s.host;
  urls = or_mine u.urls s.urls;
  traefik_auth_mode = or_else u.traefik_auth_mode s.traefik_auth_mode;
  authentik_auth_mode = or_else u.authentik_auth_mode s.authentik_auth_mode;
  auth_mode_conflict = or_mine u.auth_mode_conflict s.auth_mode_conflict;
}

-- `"//" in url`
abbrev has_slashes : List ℕ → Bool
has_slashes [] = false
has_slashes (a ∷ []) = false
has_slashes (a ∷ b ∷ cs) = (a == b'/' && b == b'/') || has_slashes (b ∷ cs)

abbrev pub with_slashes : String → String
with_slashes url = if has_slashes (codes url) then url else String.◌∷◌ "/" (String.◌∷◌ "/" url)

abbrev pub by_router : Option String → List Service → Option Service
by_router none services = none
by_router (some r) services = first (λ s. is_text r s.traefik_router) services

module _ (hostname : String → Option String) (lower : String → String) where
  -- `_hosts`, with `urlparse(url).hostname` for `hostname url`.
  abbrev pub hosts : List String → List String
  hosts [] = []
  hosts (url ∷ urls) = elim (said (hostname (with_slashes url))) [
    | none ↦ hosts urls
    | some h ↦ lower h ∷ hosts urls
  ]

  -- `wanted & other`, as a truth value.
  abbrev pub meets : List String → List String → Bool
  meets [] theirs = false
  meets (h ∷ wanted) theirs = has_text h theirs || meets wanted theirs

  abbrev pub by_host : List String → List Service → Option Service
  by_host wanted services = first (λ s. meets wanted (hosts s.urls)) services

  unfoldable pub match_service : List Service → DiscoveredService → Option Service
  match_service services d =
      or_else (first (λ s. str_eq s.name d.name) services)
        (or_else (by_router (said d.traefik_router) services) (by_host (hosts d.urls) services))
