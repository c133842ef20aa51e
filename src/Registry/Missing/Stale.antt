-- ===== src/Registry/Missing/Stale.antt =====
-- Which services `_mark_stale` marks.
use mathlib.Core.Option
use homelab_registry_mcp.Registry.{Service, ServiceSource, SourceType, id_of, name_of}
use homelab_registry_mcp.Table.{get, has_key, Unique}
use homelab_registry_mcp.Table.Unique
use homelab_registry_mcp.Registry.Pass.Items.{curated}
use homelab_registry_mcp.Registry.Pass.Keeps.{view-update}
use homelab_registry_mcp.Table.Laws.{first-update, first-test}
use homelab_registry_mcp.Prelude.{
  Bool, List, Option, String, [], arith, false, inl, none, refl, some, true, ℕ, ◌++◌, ◌||◌, ◌∷◌,
  ◌≡◌, ◌⊎◌, eq_iff, if◌then◌else◌, str_eq, ◌∙◌, Bool-cases, ap, inr, ◌&&◌, sym,
}
use homelab_registry_mcp.Registry.Missing.{
  any_row, mark_rows, still_reports, mark, goes_stale, is_missing, missed,
}
use homelab_registry_mcp.Registry.Reconcile.{has_text}

pub any_row-append :
    (p : ServiceSource → Bool) (xs ys : List ServiceSource)
    → any_row p (xs ++ ys) ≡ (any_row p xs || any_row p ys)
unfolding any_row
any_row-append p [] ys = refl
any_row-append p (x ∷ xs) ys = ground (arith, any_row-append p xs ys)

abbrev pub is_stale : Option Service → Bool
is_stale none = false
is_stale (some s) = s.stale

-- One turn's mark on the services, made or not.
turn-curated :
    (b : Bool) (j k : String) (services : List Service)
    → Option.map curated (get id_of k (if b then mark j services else services))
      ≡ Option.map curated (get id_of k services)
turn-curated true j k services =
    view-update curated k (has_key id_of j) (λ s. record s { stale = true }) services (λ r. refl)
      (λ r. refl)
turn-curated false j k services = refl

turn-Unique :
    (b : Bool) (j : String) (services : List Service)
    → Unique name_of services
    → Unique name_of (if b then mark j services else services)
turn-Unique true j services u =
    Unique.Unique-update name_of (has_key id_of j) (λ s. record s { stale = true }) services
      (λ r. refl) u
turn-Unique false j services u = u

map-apart :
    (j k : String) (o : Option Service)
    → str_eq j k ≡ false
    → ((s : Service) → o ≡ some s → has_key id_of k s ≡ true)
    → Option.map (λ r. if has_key id_of j r then record r { stale = true } else r) o ≡ o
map-apart j k none apart named = refl
map-apart j k (some s) apart named =
    ground (arith, eq_iff s.id j, eq_iff s.id k, eq_iff j k, named s refl)

turn-apart :
    (b : Bool) (j k : String) (services : List Service)
    → (b ≡ true → str_eq j k ≡ false)
    → get id_of k (if b then mark j services else services) ≡ get id_of k services
turn-apart true j k services apart =
    first-update (has_key id_of k) (has_key id_of j) (λ s. record s { stale = true }) services
      (λ r. refl)
    ∙ map-apart j k (get id_of k services) (apart refl)
        (λ s found. first-test (has_key id_of k) services {r = s} found)
turn-apart false j k services apart = refl

module _ (now : ℕ) (source : SourceType) (seen : List String) (threshold : ℕ) (actor : String) where
  pub mark_rows-curated :
      (rest done : List ServiceSource) (services : List Service) (k : String)
      → Option.map curated
          (get id_of k (mark_rows now source seen threshold actor done rest services).services)
        ≡ Option.map curated (get id_of k services)
  unfolding mark_rows
  mark_rows-curated [] done services k = refl
  mark_rows-curated (r ∷ rest) done services k =
      mark_rows-curated rest _ _ k ∙ turn-curated _ r.service_id k services

  pub mark_rows-Unique :
      (rest done : List ServiceSource) (services : List Service)
      → Unique name_of services
      → Unique name_of (mark_rows now source seen threshold actor done rest services).services
  unfolding mark_rows
  mark_rows-Unique [] done services u = u
  mark_rows-Unique (r ∷ rest) done services u =
      mark_rows-Unique rest _ _ (turn-Unique _ r.service_id services u)

  -- Whether the turn of the row `r` marks its service, as the loop tests it.
  abbrev marks : (rest done : List ServiceSource) (services : List Service) → ServiceSource → Bool
  marks rest done services r =
      let gone = is_missing source seen r in
      let r' = if gone then missed r else r in
      gone && goes_stale threshold (done ++ r' ∷ rest) services r'

  not_seen :
      (rest done : List ServiceSource) (services : List Service) (k : String) (r : ServiceSource)
      → has_text k seen ≡ true
      → marks rest done services r ≡ true
      → str_eq r.service_id k ≡ false
  not_seen rest done services k r h marked = elim (Bool-cases (str_eq r.service_id k)) [
    | inr apart ↦ apart
    | inl same ↦
        let seen_too : has_text r.service_id seen ≡ true =
          ap (λ j. has_text j seen) ((eq_iff r.service_id k).0 same) ∙ h in
        ground (arith, marked, seen_too)
  ]

  -- A service that the pass has seen is left alone.
  pub mark_rows-seen :
      (rest done : List ServiceSource) (services : List Service) (k : String)
      → has_text k seen ≡ true
      → get id_of k (mark_rows now source seen threshold actor done rest services).services
        ≡ get id_of k services
  unfolding mark_rows
  mark_rows-seen [] done services k h = refl
  mark_rows-seen (r ∷ rest) done services k h =
      mark_rows-seen rest _ _ k h
      ∙ turn-apart _ r.service_id k services (λ marked. not_seen rest done services k r h marked)

  any_row-turn :
      (rest done : List ServiceSource) (k : String) (r : ServiceSource)
      → let r' = if is_missing source seen r then missed r else r in
        any_row (still_reports threshold k) (done ++ r ∷ rest) ≡ false
        → any_row (still_reports threshold k) ((done ++ r' ∷ []) ++ rest) ≡ false
  unfolding any_row
  any_row-turn rest done k r h =
      let r' = if is_missing source seen r then missed r else r in
      let p = still_reports threshold k in
      ground (
        arith,
        h,
        any_row-append p (done ++ r' ∷ []) rest,
        any_row-append p done (r' ∷ []),
        any_row-append p done (r ∷ rest),
      )

  -- What no longer reports a service does not report it at the end of the loop.
  mark_rows-any_row :
      (rest done : List ServiceSource) (services : List Service) (k : String)
      → any_row (still_reports threshold k) (done ++ rest) ≡ false
      → any_row
          (still_reports threshold k)
          (mark_rows now source seen threshold actor done rest services).sources
        ≡ false
  unfolding mark_rows any_row
  mark_rows-any_row [] done services k h =
      ground (arith, any_row-append (still_reports threshold k) done [], h)
  mark_rows-any_row (r ∷ rest) done services k h =
      let r' = if is_missing source seen r then missed r else r in
      mark_rows-any_row rest _ _ k (any_row-turn rest done k r h)

  -- A mark is made only when no row of the service still reports it.
  lost :
      (rest done : List ServiceSource) (services : List Service) (k : String) (r : ServiceSource)
      → let r' = if is_missing source seen r then missed r else r in
        r.service_id ≡ k
        → marks rest done services r ≡ true
        → any_row (still_reports threshold k) ((done ++ r' ∷ []) ++ rest) ≡ false
  unfolding any_row
  lost rest done services k r named marked =
      let r' = if is_missing source seen r then missed r else r in
      let p = still_reports threshold r.service_id in
      let here : any_row p ((done ++ r' ∷ []) ++ rest) ≡ false = ground (
        arith,
        marked,
        any_row-append p (done ++ r' ∷ []) rest,
        any_row-append p done (r' ∷ []),
        any_row-append p done (r' ∷ rest),
      ) in
      ap (λ j. any_row (still_reports threshold j) ((done ++ r' ∷ []) ++ rest)) (sym named) ∙ here

  -- A service that is stale at the end was stale before, or none of the discovery sources that
  -- reported it has a row with fewer missed passes than the threshold.
  pub mark_rows-stale :
      (rest done : List ServiceSource) (services : List Service) (k : String)
      → let end = mark_rows now source seen threshold actor done rest services in
        is_stale (get id_of k end.services) ≡ true
        → (is_stale (get id_of k services) ≡ true)
          ⊎ (any_row (still_reports threshold k) end.sources ≡ false)
  unfolding mark_rows
  mark_rows-stale [] done services k h = inl h
  mark_rows-stale (r ∷ rest) done services k h = elim (mark_rows-stale rest _ _ k h) [
    | inr lost ↦ inr lost
    | inl before ↦ elim (Bool-cases (marks rest done services r)) [
      | inr unmarked ↦ inl (rw unmarked at before)
      | inl marked ↦ elim (Bool-cases (str_eq r.service_id k)) [
        | inr apart ↦
            inl (sym (ap is_stale (turn-apart _ r.service_id k services (λ m. apart))) ∙ before)
        | inl same ↦ inr (
            mark_rows-any_row rest _ _ k
              (lost rest done services k r ((eq_iff r.service_id k).0 same) marked))
      ]
    ]
  ]
