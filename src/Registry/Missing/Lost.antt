-- ===== src/Registry/Missing/Lost.antt =====
-- The other way round: which services `_mark_stale` does mark.
use mathlib.Core.Option
use homelab_registry_mcp.Registry.{Service, ServiceSource, SourceType, id_of, manual, same_source}
use homelab_registry_mcp.Table.{get, has_key}
use homelab_registry_mcp.Registry.Missing.Stale.{is_stale, any_row-append}
use homelab_registry_mcp.Table.Laws.{first-update, first-test}
use homelab_registry_mcp.Prelude.{
  Bool, List, Option, Option-cases, String, [], arith, false, if◌then◌else◌, inl, inr, is_some,
  none, refl, some, str_eq, true, ℕ, ◌&&◌, ◌++◌, ◌∙◌, ◌∷◌, ◌≡◌, Bool-cases, eq_iff, sym, eq_refl,
  ltb, ◌+◌,
}
use homelab_registry_mcp.Registry.Missing.{
  any_row, is_missing, mark, mark_rows, missed, still_reports, goes_stale, is_unstale,
}

mark-map :
    (b : Bool) (j k : String) (services : List Service)
    → get id_of k (if b then mark j services else services)
      ≡ Option.map
          (λ s. if b && str_eq s.id j then record s { stale = true } else s)
          (get id_of k services)
mark-map true j k services =
    first-update (has_key id_of k) (has_key id_of j) (λ s. record s { stale = true }) services
      (λ r. refl)
mark-map false j k services = go (get id_of k services)
  where
    go : (o : Option Service) → o ≡ Option.map (λ s. s) o
    go none = refl
    go (some s) = refl

turn-is_some :
    (b : Bool) (j : String) (o : Option Service)
    → is_some (Option.map (λ s. if b && str_eq s.id j then record s { stale = true } else s) o)
      ≡ is_some o
turn-is_some b j none = refl
turn-is_some b j (some s) = refl

turn-stale :
    (b : Bool) (j : String) (o : Option Service)
    → is_stale o ≡ true
    → is_stale (Option.map (λ s. if b && str_eq s.id j then record s { stale = true } else s) o)
      ≡ true
turn-stale b j none h = cc
turn-stale b j (some s) h = ground (arith, h)

was_stale : (o : Option Service) → is_some o ≡ true → is_unstale o ≡ false → is_stale o ≡ true
was_stale none there fresh = cc
was_stale (some s) there fresh = ground (arith, fresh)

-- A mark on the service that the row is of.
turn-marks :
    (j : String) (services : List Service)
    → is_some (get id_of j services) ≡ true
    → is_stale (get id_of j (mark j services)) ≡ true
turn-marks j services h = elim (Option-cases (get id_of j services)) [
  | inl absent ↦ ground (arith, h, absent)
  | inr (s, found) ↦
      rw (mark-map true j j services)
        (rw found (rw (first-test (has_key id_of j) services {r = s} found) refl))
]

-- A row of the service that the pass should have reported and did not.
abbrev pub misses : SourceType → List String → String → ServiceSource → Bool
misses source seen k r = is_missing source seen r && str_eq r.service_id k

module _ (now : ℕ) (source : SourceType) (seen : List String) (threshold : ℕ) (actor : String) where
  keeps_stale :
      (rest done : List ServiceSource) (services : List Service) (k : String)
      → is_stale (get id_of k services) ≡ true
      → is_stale
          (get id_of k (mark_rows now source seen threshold actor done rest services).services)
        ≡ true
  unfolding mark_rows
  keeps_stale [] done services k h = h
  keeps_stale (r ∷ rest) done services k h =
      keeps_stale rest _ _ k (
        rw (mark-map _ r.service_id k services)
          (turn-stale _ r.service_id (get id_of k services) h))

  -- Rows that are not changed report as before.
  unchanged :
      (rest done : List ServiceSource) (services : List Service) (k : String)
      → any_row (misses source seen k) rest ≡ false
      → any_row
          (still_reports threshold k)
          (mark_rows now source seen threshold actor done rest services).sources
        ≡ any_row (still_reports threshold k) (done ++ rest)
  unfolding mark_rows any_row
  unchanged [] done services k h =
      ground (arith, any_row-append (still_reports threshold k) done [])
  unchanged (r ∷ rest) done services k h =
      let r' = if is_missing source seen r then missed r else r in
      let p = still_reports threshold k in
      let later = unchanged rest (done ++ r' ∷ []) _ k (ground (arith, h)) in
      later
      ∙ ground (
        arith,
        h,
        any_row-append p (done ++ r' ∷ []) rest,
        any_row-append p done (r' ∷ []),
        any_row-append p done (r ∷ rest),
      )

  -- The turn of a row that misses a service, when nothing reports it any more.
  last_turn :
      (rest done : List ServiceSource) (services : List Service) (r : ServiceSource)
      → same_source r.source manual ≡ false
      → is_some (get id_of r.service_id services) ≡ true
      → any_row (still_reports threshold r.service_id) ((done ++ missed r ∷ []) ++ rest) ≡ false
      → is_stale (
          get id_of r.service_id (
            if goes_stale threshold (done ++ missed r ∷ rest) services (missed r)
            then mark r.service_id services
            else services))
        ≡ true
  unfolding any_row
  last_turn rest done services r discovery there silent =
      let p = still_reports threshold r.service_id in
      let at_row = any_row-append p done (missed r ∷ []) in
      let at_end = any_row-append p (done ++ missed r ∷ []) rest in
      let silent' : any_row p (done ++ missed r ∷ rest) ≡ false =
        ground (arith, silent, at_row, at_end, any_row-append p done (missed r ∷ rest)) in
      let slow : ltb (r.missed_passes + 1) threshold ≡ false =
        ground (arith, silent, at_row, at_end, discovery, eq_refl r.service_id) in
      elim (Bool-cases (is_unstale (get id_of r.service_id services))) [
        | inl fresh ↦ rw (slow, fresh, silent') (turn-marks r.service_id services there)
        | inr already ↦ rw (mark-map _ r.service_id r.service_id services) (
            turn-stale _ r.service_id (get id_of r.service_id services)
              (was_stale (get id_of r.service_id services) there already))
      ]

  -- A service with a row that the pass should have reported and did not, and that no discovery source
  -- still reports at the end, is stale at the end.
  pub mark_rows-lost :
      (rest done : List ServiceSource) (services : List Service) (k : String)
      → same_source source manual ≡ false
      → is_some (get id_of k services) ≡ true
      → any_row (misses source seen k) rest ≡ true
      → let end = mark_rows now source seen threshold actor done rest services in
        any_row (still_reports threshold k) end.sources ≡ false
        → is_stale (get id_of k end.services) ≡ true
  unfolding mark_rows any_row
  mark_rows-lost [] done services k discovery there missing silent = cc
  mark_rows-lost (r ∷ rest) done services k discovery there missing silent =
      elim (Bool-cases (any_row (misses source seen k) rest)) [
        | inl more ↦
            mark_rows-lost rest _ _ k discovery
              (rw (mark-map _ r.service_id k services)
                (turn-is_some _ r.service_id (get id_of k services) ∙ there))
              more silent
        | inr last ↦
            let here : misses source seen k r ≡ true = ground (arith, missing, last) in
            let gone : is_missing source seen r ≡ true = ground (arith, here) in
            let named : str_eq r.service_id k ≡ true = ground (arith, here) in
            let same = sym ((eq_iff r.service_id k).0 named) in
            let silent' : any_row (still_reports threshold k) ((done ++ missed r ∷ []) ++ rest)
                ≡ false =
              rw gone at (sym (unchanged rest _ _ k last) ∙ silent) in
            keeps_stale rest _ _ k (
              rw gone (
                rw same (
                  last_turn rest done services r (ground (arith, gone, discovery))
                    (rw same at there) (rw same at silent'))))
      ]
