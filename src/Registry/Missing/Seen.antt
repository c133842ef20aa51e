-- ===== src/Registry/Missing/Seen.antt =====
-- What a whole pass keeps, and when it marks a service as stale.
use mathlib.Core.Option
use homelab_registry_mcp.Registry.{
  DiscoveredService, SourceType, id_of, name_of, manual, same_source,
}
use homelab_registry_mcp.Table.{get, Unique}
use homelab_registry_mcp.Registry.Missing.Lost.{misses, mark_rows-lost}
use homelab_registry_mcp.Registry.Missing.Stale.{
  mark_rows-curated, mark_rows-Unique, mark_rows-stale, is_stale, mark_rows-seen,
}
use homelab_registry_mcp.Registry.Pass.Items.{Curated, curated}
use homelab_registry_mcp.Registry.Pass.Keeps.{merge_all-curated, merge_all-Unique}
use homelab_registry_mcp.Registry.Store.{Tables}
use homelab_registry_mcp.Prelude.{
  Bool-cases, List, String, [], ap, false, inl, inr, some, sym, true, ℕ, ◌∙◌, ◌≡◌, ◌⊎◌, is_some,
}
use homelab_registry_mcp.Registry.Missing.{any_row, reconcile, start, still_reports}
use homelab_registry_mcp.Registry.Pass.{Outside, merge_all}
use homelab_registry_mcp.Registry.Reconcile.{has_text}

module _ (outside : Outside) (now : ℕ) (source : SourceType) (actor : String)
    (items : List DiscoveredService) (threshold : ℕ) (t : Tables) where
  -- A discovery pass removes no service, and leaves the name, the display name, the category, the
  -- tags, the notes and the hardware node of every service in the table as they were.
  pub reconcile-curated :
      (k : String) (c : Curated)
      → Option.map curated (get id_of k t.services) ≡ some c
      → Option.map curated
          (get id_of k (reconcile outside now source actor items threshold t).1.services)
        ≡ some c
  unfolding reconcile
  reconcile-curated k c h =
      let p = merge_all outside now source actor items (start t) in
      mark_rows-curated now source p.seen_ids threshold actor p.tables.sources [] p.tables.services
        k
      ∙ merge_all-curated outside now source actor items (start t) k c h

  -- A discovery pass over a table of services with different names leaves such a table, whatever it
  -- discovers and however the reasoning layer resolves it.
  pub reconcile-Unique :
      Unique name_of t.services
      → Unique name_of (reconcile outside now source actor items threshold t).1.services
  unfolding reconcile
  reconcile-Unique u =
      let p = merge_all outside now source actor items (start t) in
      mark_rows-Unique now source p.seen_ids threshold actor p.tables.sources [] p.tables.services
        (merge_all-Unique outside now source actor items (start t) u)

  -- A service that the end of a pass leaves stale was stale when the discovered services were
  -- merged; or else the pass has not seen it, and every row of a discovery source for it has then
  -- missed as many passes as the threshold, at least.
  pub reconcile-stale :
      (k : String)
      → let p = merge_all outside now source actor items (start t) in
        let after = (reconcile outside now source actor items threshold t).1 in
        is_stale (get id_of k after.services) ≡ true
        → (is_stale (get id_of k p.tables.services) ≡ true)
          ⊎ ((has_text k p.seen_ids ≡ false)
              × (any_row (still_reports threshold k) after.sources ≡ false))
  unfolding reconcile
  reconcile-stale k h =
      let p = merge_all outside now source actor items (start t) in
      elim (Bool-cases (has_text k p.seen_ids)) [
        | inl seen ↦ inl (
            sym (
              ap is_stale (
                mark_rows-seen now source p.seen_ids threshold actor p.tables.sources []
                  p.tables.services k seen))
            ∙ h)
        | inr unseen ↦
            elim (mark_rows-stale now source p.seen_ids threshold actor p.tables.sources []
              p.tables.services k h) [ inl before ↦ inl before | inr lost ↦ inr (unseen, lost) ]
      ]

  -- A service that has a row of the pass's source, no manual one, which the pass has not seen, and
  -- that no discovery source has reported within the threshold once the pass has ended, is stale.
  pub reconcile-lost :
      (k : String)
      → let p = merge_all outside now source actor items (start t) in
        let after = (reconcile outside now source actor items threshold t).1 in
        same_source source manual ≡ false
        → is_some (get id_of k p.tables.services) ≡ true
        → any_row (misses source p.seen_ids k) p.tables.sources ≡ true
        → any_row (still_reports threshold k) after.sources ≡ false
        → is_stale (get id_of k after.services) ≡ true
  unfolding reconcile
  reconcile-lost k discovery there missing silent =
      let p = merge_all outside now source actor items (start t) in
      mark_rows-lost now source p.seen_ids threshold actor p.tables.sources [] p.tables.services k
        discovery there missing silent
