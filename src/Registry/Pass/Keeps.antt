-- ===== src/Registry/Pass/Keeps.antt =====
-- What a discovery pass keeps of the services that it finds in the table.
use mathlib.Core.Option
use homelab_registry_mcp.Registry.{Service, DiscoveredService, SourceType, id_of, name_of}
use homelab_registry_mcp.Registry.Pass.Items.{Curated, curated, set_all-values_of}
use homelab_registry_mcp.Table.Unique
use homelab_registry_mcp.Registry.Reconcile.Match.{match_service-none}
use homelab_registry_mcp.Table.{get, has_key, Unique, update}
use homelab_registry_mcp.Table.Laws.{first-update, first-append}
use homelab_registry_mcp.Prelude.{
  List, Option, String, [], none, some, ℕ, ◌∷◌, ◌≡◌, Bool, Bool-cases, ap, if◌then◌else◌, inl, inr,
  or_else, refl, str_eq, ◌∙◌,
}
use homelab_registry_mcp.Registry.Pass.{
  Outside, Progress, merge_all, merge_found, find_match, new_service, seen_again, set_all,
  values_of,
}
use homelab_registry_mcp.Registry.Reconcile.{provenance_updates}

or_else-none : (a b : Option Service) → or_else a b ≡ none → a ≡ none
or_else-none none b h = refl
or_else-none (some m) b h = cc

map-or_else :
    {A B : Type 0} (f : A → B) (a b : Option A) {c : B}
    → Option.map f a ≡ some c
    → Option.map f (or_else a b) ≡ some c
map-or_else f none b h = cc
map-or_else f (some x) b h = h

-- An UPDATE that keeps what a view shows keeps it for every lookup.
pub view-update :
    {A : Type 0} (view : Service → A) (k : String) (p : Service → Bool) (g : Service → Service)
    (rows : List Service)
    → ((r : Service) → (g r).id ≡ r.id)
    → ((r : Service) → view (g r) ≡ view r)
    → Option.map view (get id_of k (update p g rows)) ≡ Option.map view (get id_of k rows)
view-update view k p g rows same shows =
    rw (first-update (has_key id_of k) p g rows (λ r. ap (λ i. str_eq i k) (same r)))
      (go (get id_of k rows))
  where
    go :
        (o : Option Service)
        → Option.map view (Option.map (λ r. if p r then g r else r) o) ≡ Option.map view o
    go none = refl
    go (some r) = elim (Bool-cases (p r)) [
      | inl hit ↦ rw hit (ap some (shows r))
      | inr miss ↦ rw miss refl
    ]

module _ (outside : Outside) (now : ℕ) (source : SourceType) (actor : String) where
  -- The row of a matched service, as the pass leaves it.
  abbrev pub merged : DiscoveredService → Service → Service → Service
  merged item m r =
      seen_again outside now source actor
        (set_all now actor (values_of (provenance_updates m item)) r).0

  pub id-merged : (item : DiscoveredService) (m r : Service) → (merged item m r).id ≡ r.id
  id-merged item m r = ap (λ s. s.id) (set_all-values_of now actor (provenance_updates m item) r)

  pub curated-merged :
      (item : DiscoveredService) (m r : Service) → curated (merged item m r) ≡ curated r
  curated-merged item m r = ap curated (set_all-values_of now actor (provenance_updates m item) r)

  merge_found-curated :
      (item : DiscoveredService) (found : Option Service) (p : Progress) (k : String) (c : Curated)
      → Option.map curated (get id_of k p.tables.services) ≡ some c
      → Option.map curated
          (get id_of k (merge_found outside now source actor item found p).tables.services)
        ≡ some c
  unfolding merge_found
  merge_found-curated item none p k c h =
      rw
        (first-append (has_key id_of k) p.tables.services
          (new_service outside now source actor item p.tables.services ∷ []))
        (map-or_else curated (get id_of k p.tables.services) _ h)
  merge_found-curated item (some m) p k c h =
      view-update curated k (has_key id_of m.id) (merged item m) p.tables.services
        (id-merged item m) (curated-merged item m)
      ∙ h

  pub merge_all-curated :
      (items : List DiscoveredService) (p : Progress) (k : String) (c : Curated)
      → Option.map curated (get id_of k p.tables.services) ≡ some c
      → Option.map curated
          (get id_of k (merge_all outside now source actor items p).tables.services)
        ≡ some c
  unfolding merge_all
  merge_all-curated [] p k c h = h
  merge_all-curated (item ∷ items) p k c h =
      merge_all-curated items _ k c (merge_found-curated item _ p k c h)

  merge_found-Unique :
      (item : DiscoveredService) (found : Option Service) (p : Progress)
      → (found ≡ none → get name_of item.name p.tables.services ≡ none)
      → Unique name_of p.tables.services
      → Unique name_of (merge_found outside now source actor item found p).tables.services
  unfolding merge_found new_service
  merge_found-Unique item none p new u =
      Unique.Unique-add name_of (new_service outside now source actor item p.tables.services)
        p.tables.services (new refl) u
  merge_found-Unique item (some m) p new u =
      Unique.Unique-update name_of (has_key id_of m.id) (merged item m) p.tables.services
        (λ r. ap (λ c. c.name) (curated-merged item m r)) u

  pub merge_all-Unique :
      (items : List DiscoveredService) (p : Progress)
      → Unique name_of p.tables.services
      → Unique name_of (merge_all outside now source actor items p).tables.services
  unfolding merge_all
  merge_all-Unique [] p u = u
  merge_all-Unique (item ∷ items) p u = merge_all-Unique items _ (
      merge_found-Unique item (find_match outside now source actor item p.tables.services) p
        (λ h.
          match_service-none outside.hostname outside.lower p.tables.services item
            (or_else-none _ _ h))
        u)
