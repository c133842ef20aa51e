-- ===== src/Registry/Reconcile/Match.antt =====
-- Which service a discovered one is matched to, and what the merge says of a conflict.
use homelab_registry_mcp.Registry.{
  Service, DiscoveredService, said, id_of, name_of, AuthMode, no_auth, same_source, traefik,
  SourceType, authentik, basic, forward_auth, internal, oauth2_oidc, oauth2_proxy, unknown_auth,
  same_auth,
}
use homelab_registry_mcp.Table.{first, get, Unique, has_key}
use homelab_registry_mcp.Table.Unique
use homelab_registry_mcp.Table.Laws.{first-test}
use homelab_registry_mcp.Prelude.{
  Bool, List, Option, String, none, some, true, ◌≡◌, ◌⊎◌, Option-cases, ap, arith, eq_iff, false,
  inl, inr, refl, sym, or_else, Bool-cases,
}
use homelab_registry_mcp.Registry.Reconcile.{
  apply_updates, conflict_of, hosts, match_service, meets, provenance_updates, by_router, is_text,
  new_flag, or_mine, is_proxy, new_text, is_mode, new_mode_of, is_demoting,
}

is_text-eq : (x : String) (mine : Option String) → is_text x mine ≡ true → mine ≡ some x
is_text-eq x none h = cc
is_text-eq x (some y) h = ap some (sym ((eq_iff x y).0 h))

-- A lookup in the services finds one of them, which passes the test.
first-service :
    (p : Service → Bool) (services : List Service) (s : Service)
    → Unique id_of services
    → first p services ≡ some s
    → (get id_of s.id services ≡ some s) × (p s ≡ true)
first-service p services s u h =
    (Unique.get-first id_of p services {a = s} u h, first-test p services {r = s} h)

or_else-some :
    (a b : Option Service) (s : Service)
    → or_else a b ≡ some s
    → (a ≡ some s) ⊎ ((a ≡ none) × (b ≡ some s))
or_else-some none b s h = inr (refl, h)
or_else-some (some m) b s h = inl h

by_router-some :
    (wanted : Option String) (services : List Service) (s : Service)
    → Unique id_of services
    → by_router wanted services ≡ some s
    → (get id_of s.id services ≡ some s)
      × ((r : String) × (wanted ≡ some r) × (s.traefik_router ≡ some r))
by_router-some none services s u h = cc
by_router-some (some r) services s u h =
    let (mine, same) = first-service (λ t. is_text r t.traefik_router) services s u h in
    (mine, (r, refl, is_text-eq r s.traefik_router same))

module _ (hostname : String → Option String) (lower : String → String) where
  -- Why `s` is the match of `d`: its name; or, when no service has that name, its router or a host.
  abbrev pub Reason : List Service → DiscoveredService → Service → Type 0
  Reason services d s =
      (s.name ≡ d.name)
      ⊎ ((get name_of d.name services ≡ none)
          × (((r : String) × (said d.traefik_router ≡ some r) × (s.traefik_router ≡ some r))
              ⊎ (meets hostname lower (hosts hostname lower d.urls) (hosts hostname lower s.urls)
                  ≡ true)))

  -- Among services with different ids, the match of a discovered service is one of the services;
  -- and it has the discovered name, or else no service has and it has the discovered router or
  -- shares a host.
  pub match_service-some :
      (services : List Service) (d : DiscoveredService) (s : Service)
      → Unique id_of services
      → match_service hostname lower services d ≡ some s
      → (get id_of s.id services ≡ some s) × Reason services d s
  unfolding match_service
  match_service-some services d s u h = elim (or_else-some (get name_of d.name services) _ s h) [
    | inl named ↦
        let (mine, same) = first-service (has_key name_of d.name) services s u named in
        (mine, inl ((eq_iff s.name d.name).0 same))
    | inr (unnamed, h') ↦ elim (or_else-some (by_router (said d.traefik_router) services) _ s h') [
      | inl routed ↦
          let (mine, why) = by_router-some (said d.traefik_router) services s u routed in
          (mine, inr (unnamed, inl why))
      | inr (unrouted, hosted) ↦
          let (mine, meet) =
            first-service
              (λ t.
                meets hostname lower (hosts hostname lower d.urls) (hosts hostname lower t.urls))
              services s u hosted in
          (mine, inr (unnamed, inr meet))
    ]
  ]

  -- No match means that no service has the discovered name.
  pub match_service-none :
      (services : List Service) (d : DiscoveredService)
      → match_service hostname lower services d ≡ none
      → get name_of d.name services ≡ none
  unfolding match_service
  match_service-none services d h = elim (Option-cases (get name_of d.name services)) [
    | inl unnamed ↦ unnamed
    | inr (m, named) ↦ ground (arith, h, named)
  ]

said-said : (x : Option String) {r : String} → said x ≡ some r → said (some r) ≡ some r
said-said none h = cc
said-said (some String.[]) h = cc
said-said (some (String.◌∷◌ c t)) {r} h = ground (arith, h)

or_mine-new_flag : (c mine : Bool) → or_mine (new_flag (some c) mine) mine ≡ c
or_mine-new_flag true true = refl
or_mine-new_flag true false = refl
or_mine-new_flag false true = refl
or_mine-new_flag false false = refl

-- After a merge into a service whose router, slug and both auth modes are then known, the flag says
-- whether Traefik has no middleware where Authentik enforces a proxy.
pub apply_updates-conflict :
    (s : Service) (d : DiscoveredService) (c : Bool)
    → let now = apply_updates (provenance_updates s d) s in
      conflict_of
          (said now.traefik_router)
          (said now.authentik_app_slug)
          now.traefik_auth_mode
          now.authentik_auth_mode
        ≡ some c
      → now.auth_mode_conflict ≡ c
unfolding provenance_updates
apply_updates-conflict s d c h = rw h (or_mine-new_flag c s.auth_mode_conflict)

said-new_text :
    (t mine : Option String) {r : String}
    → said t ≡ some r
    → said (or_else (new_text (said t) mine) mine) ≡ some r
said-new_text t mine {r} h = rw h (elim (Bool-cases (is_text r mine)) [
  | inl same ↦ rw same (rw (is_text-eq r mine same) (said-said t h))
  | inr differs ↦ rw differs (said-said t h)
])

is_mode-no_auth : (mine : Option AuthMode) → is_mode no_auth mine ≡ true → mine ≡ some no_auth
is_mode-no_auth none h = cc
is_mode-no_auth (some no_auth) h = refl
is_mode-no_auth (some forward_auth) h = cc
is_mode-no_auth (some oauth2_proxy) h = cc
is_mode-no_auth (some oauth2_oidc) h = cc
is_mode-no_auth (some basic) h = cc
is_mode-no_auth (some internal) h = cc
is_mode-no_auth (some unknown_auth) h = cc

-- A report of no middleware is kept for its source.
kept-no_auth :
    (wanted from : SourceType) (mine : Option AuthMode)
    → same_source from wanted ≡ true
    → or_else (new_mode_of wanted from (some no_auth) mine) mine ≡ some no_auth
kept-no_auth wanted from mine h = elim (Bool-cases (is_mode no_auth mine)) [
  | inl same ↦ rw (h, same) (is_mode-no_auth mine same)
  | inr differs ↦ rw (h, differs) refl
]

-- When Traefik reports a router with no middleware and no slug, for a service with a slug whose
-- proxy Authentik is known to enforce, the auth mode stays as it was, what Traefik saw is kept
-- beside what Authentik enforces, and the service is flagged as a conflict.
pub apply_updates-demotion :
    (s : Service) (d : DiscoveredService) (router slug : String) (a : AuthMode)
    → same_source d.source traefik ≡ true
    → d.auth_mode ≡ some no_auth
    → said d.traefik_router ≡ some router
    → d.authentik_app_slug ≡ none
    → said s.authentik_app_slug ≡ some slug
    → s.authentik_auth_mode ≡ some a
    → is_proxy a ≡ true
    → let now = apply_updates (provenance_updates s d) s in
      (now.auth_mode ≡ s.auth_mode)
      × (now.traefik_auth_mode ≡ some no_auth)
      × (now.authentik_auth_mode ≡ some a)
      × (now.auth_mode_conflict ≡ true)
unfolding provenance_updates
apply_updates-demotion s d router slug a from open_route routed unsaid linked enforced proxied =
    let now = apply_updates (provenance_updates s d) s in
    let apart : same_source d.source authentik ≡ false = ground (arith, from) in
    let mode_t : now.traefik_auth_mode ≡ some no_auth =
      rw open_route (kept-no_auth traefik d.source s.traefik_auth_mode from) in
    let mode_a : now.authentik_auth_mode ≡ some a = rw (open_route, apart) enforced in
    let router_now : said now.traefik_router ≡ some router =
      said-new_text d.traefik_router s.traefik_router routed in
    let slug_now : said now.authentik_app_slug ≡ some slug =
      elim (Bool-cases s.authentik_link_manual) [
        | inl by_hand ↦ rw by_hand linked
        | inr free ↦ rw (free, unsaid) linked
      ] in
    let held : is_demoting d s no_auth ≡ true = rw (from, enforced) proxied in
    (
      rw open_route (elim (Bool-cases (same_auth no_auth s.auth_mode)) [
        | inl same ↦ rw same refl
        | inr differs ↦ rw (differs, held) refl
      ]),
      mode_t,
      mode_a,
      apply_updates-conflict s d true (rw (router_now, slug_now, mode_t, mode_a) (rw proxied refl)),
    )
