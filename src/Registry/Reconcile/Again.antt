-- ===== src/Registry/Reconcile/Again.antt =====
-- The merge of src/registry_mcp/registry/reconcile.py, made twice with the same discovered service.
use homelab_registry_mcp.Prelude.{
  List, Option, String, [], arith, eq_refl, none, not, or_else, refl, some, true, ◌&&◌, ◌++◌, ◌||◌,
  ◌∷◌, ◌≡◌, Bool-cases, ap, eq_iff, inl, inr, str_eq, sym, ◌∙◌, Bool, false, if◌then◌else◌,
}
use homelab_registry_mcp.Registry.Reconcile.{
  Updates, from_keys, has_text, new_text, new_urls, or_mine, within, same_set, apply_updates,
  new_auth, new_flag, new_mode_of, provenance_updates, is_demoting, reported, conflict_of,
}
use homelab_registry_mcp.Registry.{
  AuthMode, DiscoveredService, Service, SourceType, authentik, said, same_auth, same_source,
  traefik,
}

abbrev pub no_updates : Updates
no_updates = record {
  traefik_router = none;
  authentik_app_slug = none;
  auth_mode = none;
  host = none;
  urls = none;
  traefik_auth_mode = none;
  authentik_auth_mode = none;
  auth_mode_conflict = none;
}

-- A key is kept exactly when it occurs and was not taken before.
has_text-from_keys :
    (x : String) (taken xs : List String)
    → has_text x (from_keys taken xs) ≡ (has_text x xs && not (has_text x taken))
unfolding from_keys
has_text-from_keys x taken [] = refl
has_text-from_keys x taken (y ∷ ys) = elim (Bool-cases (str_eq x y)) [
  | inl same ↦
      let moved = ap (λ z. has_text z taken) ((eq_iff x y).0 same) in
      ground
        (arith, same, moved, has_text-from_keys x taken ys, has_text-from_keys x (y ∷ taken) ys)
  | inr apart ↦
      ground (arith, apart, has_text-from_keys x taken ys, has_text-from_keys x (y ∷ taken) ys)
]

within-intro :
    (xs ys : List String)
    → ((x : String) → has_text x xs ≡ true → has_text x ys ≡ true)
    → within xs ys ≡ true
within-intro [] ys h = refl
within-intro (x ∷ xs) ys h =
    let here = h x (rw (eq_refl x) refl) in
    let later = within-intro xs ys (λ z e. h z (ground (arith, e))) in ground (arith, here, later)

has_text-append :
    (x : String) (xs ys : List String) → has_text x (xs ++ ys) ≡ (has_text x xs || has_text x ys)
has_text-append x [] ys = refl
has_text-append x (z ∷ xs) ys = ground (arith, has_text-append x xs ys)

new_text-again : (t mine : Option String) → new_text t (or_else (new_text t mine) mine) ≡ none
new_text-again none mine = refl
new_text-again (some x) none = rw (eq_refl x) refl
new_text-again (some x) (some y) = ground (arith, eq_refl x)

-- Merging the same URLs again adds none.
same_set-again :
    (mine theirs : List String)
    → let merged = from_keys [] (mine ++ theirs) in
      same_set (from_keys [] (merged ++ theirs)) merged ≡ true
same_set-again mine theirs =
    let merged = from_keys [] (mine ++ theirs) in
    let same : (x : String) → has_text x (from_keys [] (merged ++ theirs)) ≡ has_text x merged =
      λ x. ground (
        arith,
        has_text-from_keys x [] (merged ++ theirs),
        has_text-append x merged theirs,
        has_text-from_keys x [] (mine ++ theirs),
        has_text-append x mine theirs,
      ) in
    let out = within-intro (from_keys [] (merged ++ theirs)) merged (λ x e. sym (same x) ∙ e) in
    let back = within-intro merged (from_keys [] (merged ++ theirs)) (λ x e. same x ∙ e) in
    ground (arith, out, back)

new_urls-again :
    (mine theirs : List String) → new_urls (or_mine (new_urls mine theirs) mine) theirs ≡ none
new_urls-again mine [] = refl
new_urls-again mine (u ∷ us) = elim (Bool-cases (same_set (from_keys [] (mine ++ u ∷ us)) mine)) [
  | inl old ↦ rw old (rw old refl)
  | inr fresh ↦ rw fresh (rw (same_set-again mine (u ∷ us)) refl)
]

new_mode_of-again :
    (wanted from : SourceType) (t mine : Option AuthMode)
    → new_mode_of wanted from t (or_else (new_mode_of wanted from t mine) mine) ≡ none
new_mode_of-again wanted from none mine = refl
new_mode_of-again wanted from (some m) none = ground arith
new_mode_of-again wanted from (some m) (some n) = ground arith

new_flag-again :
    (c : Option Bool) (mine : Bool) → new_flag c (or_mine (new_flag c mine) mine) ≡ none
new_flag-again none mine = refl
new_flag-again (some true) true = refl
new_flag-again (some true) false = refl
new_flag-again (some false) true = refl
new_flag-again (some false) false = refl

-- Only Authentik's own report changes what Authentik is known to enforce, and no such report is
-- held back.
new_auth-again :
    (s : Service) (d : DiscoveredService) (t : Option AuthMode)
    → new_auth d
        (record s {
          auth_mode = or_mine (new_auth d s t) s.auth_mode;
          authentik_auth_mode =
              or_else
                (new_mode_of authentik d.source t s.authentik_auth_mode)
                s.authentik_auth_mode;
        })
        t
      ≡ none
new_auth-again s d none = refl
new_auth-again s d (some m) = elim (Bool-cases (same_auth m s.auth_mode)) [
  | inl same ↦ rw same (rw same refl)
  | inr differs ↦ elim (Bool-cases (is_demoting d s m)) [
    | inl held ↦
        let other_source : same_source d.source authentik ≡ false = ground (arith, held) in
        rw (differs, held) (rw differs (rw other_source (rw held refl)))
    | inr free ↦ rw (differs, free) (ground arith)
  ]
]

abbrev new_slug : Service → DiscoveredService → Option String → Option String
new_slug s d mine =
    if s.authentik_link_manual then none else new_text (said d.authentik_app_slug) mine

slug-again :
    (s : Service) (d : DiscoveredService)
    → new_slug s d (or_else (new_slug s d s.authentik_app_slug) s.authentik_app_slug) ≡ none
slug-again s d = elim (Bool-cases s.authentik_link_manual) [
  | inl by_hand ↦ rw by_hand refl
  | inr free ↦ rw free (new_text-again (said d.authentik_app_slug) s.authentik_app_slug)
]

-- After a discovered service is merged into a service, merging the same discovered service again
-- updates no field.
pub provenance_updates-again :
    (s : Service) (d : DiscoveredService)
    → provenance_updates (apply_updates (provenance_updates s d) s) d ≡ no_updates
unfolding provenance_updates
provenance_updates-again s d =
    let now = apply_updates (provenance_updates s d) s in
    let t = reported d.auth_mode in
    let router = new_text-again (said d.traefik_router) s.traefik_router in
    let slug = slug-again s d in
    let mode_t = new_mode_of-again traefik d.source t s.traefik_auth_mode in
    let mode_a = new_mode_of-again authentik d.source t s.authentik_auth_mode in
    let none_left : new_flag
          (conflict_of
            (said
              (or_else (new_text (said d.traefik_router) now.traefik_router) now.traefik_router))
            (said (or_else (new_slug s d now.authentik_app_slug) now.authentik_app_slug))
            (or_else (new_mode_of traefik d.source t now.traefik_auth_mode) now.traefik_auth_mode)
            (or_else (new_mode_of authentik d.source t now.authentik_auth_mode)
              now.authentik_auth_mode))
          now.auth_mode_conflict
        ≡ none =
      rw (router, slug, mode_t, mode_a)
        (new_flag-again
          (conflict_of (said now.traefik_router) (said now.authentik_app_slug) now.traefik_auth_mode
            now.authentik_auth_mode)
          s.auth_mode_conflict) in
    λ i. record {
      traefik_router = router i;
      authentik_app_slug = slug i;
      auth_mode = new_auth-again s d t i;
      host = new_text-again (said d.host) s.host i;
      urls = new_urls-again s.urls d.urls i;
      traefik_auth_mode = mode_t i;
      authentik_auth_mode = mode_a i;
      auth_mode_conflict = none_left i;
    }
