-- ===== src/Registry/Missing.antt =====
-- The end of a discovery pass: `_mark_stale`, and `reconcile` as a whole, of
-- src/registry_mcp/registry/store.py. The loop of `_mark_stale` changes rows that a later turn's query
-- reads, so a turn is given the rows already passed, changed, and the rows still to come.
use homelab_registry_mcp.Registry.Pass.{Progress, Outside, merge_all}
use homelab_registry_mcp.Registry.Writes.{Counts}
use homelab_registry_mcp.Registry.Store.{Tables, change}
pub mod Stale
pub mod Lost
pub mod Seen
use homelab_registry_mcp.Prelude.{
  Bool, List, Option, String, [], false, if◌then◌else◌, length, ltb, none, not, some, str_eq, true,
  ℕ, ◌&&◌, ◌++◌, ◌+◌, ◌||◌, ◌∷◌,
}
use homelab_registry_mcp.Registry.{
  ChangeEvent, DiscoveredService, Service, ServiceSource, SourceType, id_of, manual, same_source,
  set_stale,
}
use homelab_registry_mcp.Registry.Reconcile.{has_text}
use homelab_registry_mcp.Table.{get, update, has_key}

pub record Marks : Type 0 where
  pub sources : List ServiceSource
  pub services : List Service
  pub changes : List ChangeEvent
  pub items_missing : ℕ

-- `any(p(row) for row in rows)`
unfoldable pub any_row : (ServiceSource → Bool) → List ServiceSource → Bool
any_row p [] = false
any_row p (r ∷ rows) = p r || any_row p rows

abbrev pub missed : ServiceSource → ServiceSource
missed r = record r { missed_passes = r.missed_passes + 1 }

abbrev pub is_unstale : Option Service → Bool
is_unstale none = false
is_unstale (some s) = not s.stale

-- A row that the pass should have reported and did not.
abbrev pub is_missing : SourceType → List String → ServiceSource → Bool
is_missing source seen r = same_source r.source source && not (has_text r.service_id seen)

-- A row by which a discovery source still reports the service.
abbrev pub still_reports : (stale_threshold : ℕ) → String → ServiceSource → Bool
still_reports stale_threshold k r =
    str_eq r.service_id k
    && not (same_source r.source manual)
    && ltb r.missed_passes stale_threshold

-- Whether the turn of the row `r` marks its service as stale.
abbrev pub goes_stale :
    (stale_threshold : ℕ) → List ServiceSource → List Service → ServiceSource → Bool
goes_stale stale_threshold rows services r =
    not (ltb r.missed_passes stale_threshold)
    && is_unstale (get id_of r.service_id services)
    && not (any_row (still_reports stale_threshold r.service_id) rows)

abbrev pub mark : String → List Service → List Service
mark k services = update (has_key id_of k) (λ s. record s { stale = true }) services

module _ (now : ℕ) (source : SourceType) (seen : List String) (stale_threshold : ℕ)
    (actor : String) where
  -- The loop of `_mark_stale`, past the rows `done`.
  unfoldable pub mark_rows : (done rest : List ServiceSource) → List Service → Marks
  mark_rows done [] services = record {
    sources = done;
    services = services;
    changes = [];
    items_missing = 0;
  }
  mark_rows done (r ∷ rest) services =
      let gone = is_missing source seen r in
      let r' = if gone then missed r else r in
      let stales = gone && goes_stale stale_threshold (done ++ r' ∷ rest) services r' in
      let event =
        change now r.service_id "stale" (some (set_stale false)) (some (set_stale true)) actor in
      let later =
        mark_rows (done ++ r' ∷ []) rest
          (if stales then mark r.service_id services else services) in
      record later {
        changes = if stales then event ∷ later.changes else later.changes;
        items_missing = (if gone then 1 else 0) + later.items_missing;
      }

abbrev pub start : Tables → Progress
start t = record { tables = t; seen_ids = []; items_new = 0; items_changed = 0 }

-- `reconcile`, with the actor `discovery:<source>`.
unfoldable pub reconcile :
    Outside
    → (now : ℕ) → SourceType
    → String
    → List DiscoveredService
    → (stale_threshold : ℕ) → Tables
    → Counts × Tables
reconcile outside now source actor discovered stale_threshold t =
    let p = merge_all outside now source actor discovered (start t) in
    let m =
      mark_rows now source p.seen_ids stale_threshold actor [] p.tables.sources p.tables.services in
    (
      record {
        items_seen = length discovered;
        items_new = p.items_new;
        items_changed = p.items_changed;
        items_missing = m.items_missing;
      },
      record p.tables {
        services = m.services;
        sources = m.sources;
        changes = p.tables.changes ++ m.changes;
      },
    )
