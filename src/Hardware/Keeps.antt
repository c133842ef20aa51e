-- ===== src/Hardware/Keeps.antt =====
-- What a discovery leaves alone, and what is never written.
use mathlib.Core.Option
use homelab_registry_mcp.Hardware.{
  display_name, role, status, ip_address, mac_address, os, cpu_model, cpu_cores, ram_gb, gpu_model,
  storage, storage_pools, tags, notes, location, ups_backed, obtained_at, cluster_member,
  ansible_host, ansible_groups, last_confirmed_at, last_seen_at, Column, Value, HardwareNode,
  is_discovered, same_column, column_rank, HardwareChangeEvent,
}
use homelab_registry_mcp.Prelude.{
  All, Bool, List, Result, String, [], err, false, if_lem, none, not, ok, refl, some, true, ℕ, ◌∷◌,
  ◌≡◌, ==_iff, Bool-cases, ap, if◌then◌else◌, inl, inr, leb, sym, ◌&&◌, ◌++◌, ◌==◌, ◌||◌, ◌∙◌,
  Option, is_some, or_else, str_eq,
}
use homelab_registry_mcp.Hardware.Store.{
  Update, set_cell, edit_all, put_first, same_value, HardwareError, resolve_all, discovered,
  NodeTables, update_resolved, resolve, id_of, edited, edit_found, get_node, seen_again,
  create_node, upsert_found, upsert_from_discovery, hostname_of, update_node,
}
use homelab_registry_mcp.Json.{Json}
use homelab_registry_mcp.Table.{get, has_key}
use homelab_registry_mcp.Table.Laws.{first-update, first-append}

-- The columns that only people set: those a discovery doesn't report.
abbrev is_curated : Column → Bool
is_curated ansible_host = false
is_curated ansible_groups = false
is_curated status = false
is_curated last_confirmed_at = false
is_curated last_seen_at = false
is_curated c = not (is_discovered c)

-- Both nodes are the same but for what discoveries report.
pub record KeepsCurated (n n' : HardwareNode) : Type 0 where
  pub same_id : n'.id ≡ n.id
  pub same_hostname : n'.hostname ≡ n.hostname
  pub same_manual : n'.is_manual ≡ n.is_manual
  pub same_creation : n'.created_at ≡ n.created_at
  pub same_cells : (c : Column) → is_curated c ≡ true → n'.cell c ≡ n.cell c

keeps_itself : (n : HardwareNode) → KeepsCurated n n
keeps_itself n = record {
  same_id = refl;
  same_hostname = refl;
  same_manual = refl;
  same_creation = refl;
  same_cells = λ c h. refl;
}

-- Only columns that discoveries report are named.
abbrev Reported : List (Column × Value) → Type 0
Reported = All (λ u. is_curated u.0 ≡ false)

abbrev Reports : Update → Type 0
Reports (none, v) = Unit
Reports (some c, v) = is_curated c ≡ false

-- The same by the column's rank.
abbrev curated_rank : ℕ → Bool
curated_rank r = leb r 1 || r == 9 || (leb 11 r && leb r 17)

is_curated-rank : (c : Column) → is_curated c ≡ curated_rank (column_rank c)
is_curated-rank display_name = refl
is_curated-rank role = refl
is_curated-rank status = refl
is_curated-rank ip_address = refl
is_curated-rank mac_address = refl
is_curated-rank os = refl
is_curated-rank cpu_model = refl
is_curated-rank cpu_cores = refl
is_curated-rank ram_gb = refl
is_curated-rank gpu_model = refl
is_curated-rank storage = refl
is_curated-rank storage_pools = refl
is_curated-rank tags = refl
is_curated-rank notes = refl
is_curated-rank location = refl
is_curated-rank ups_backed = refl
is_curated-rank obtained_at = refl
is_curated-rank cluster_member = refl
is_curated-rank ansible_host = refl
is_curated-rank ansible_groups = refl
is_curated-rank last_confirmed_at = refl
is_curated-rank last_seen_at = refl

same_column-is_curated : (c d : Column) → same_column c d ≡ true → is_curated c ≡ is_curated d
unfolding same_column
same_column-is_curated c d h =
    is_curated-rank c
    ∙ ap curated_rank ((==_iff (column_rank c) (column_rank d)).0 h)
    ∙ sym (is_curated-rank d)

is_discovered-is_curated : (c : Column) → is_discovered c ≡ true → is_curated c ≡ false
is_discovered-is_curated display_name h = cc
is_discovered-is_curated role h = cc
is_discovered-is_curated status h = refl
is_discovered-is_curated ip_address h = refl
is_discovered-is_curated mac_address h = refl
is_discovered-is_curated os h = refl
is_discovered-is_curated cpu_model h = refl
is_discovered-is_curated cpu_cores h = refl
is_discovered-is_curated ram_gb h = refl
is_discovered-is_curated gpu_model h = cc
is_discovered-is_curated storage h = refl
is_discovered-is_curated storage_pools h = cc
is_discovered-is_curated tags h = cc
is_discovered-is_curated notes h = cc
is_discovered-is_curated location h = cc
is_discovered-is_curated ups_backed h = cc
is_discovered-is_curated obtained_at h = cc
is_discovered-is_curated cluster_member h = cc
is_discovered-is_curated ansible_host h = refl
is_discovered-is_curated ansible_groups h = refl
is_discovered-is_curated last_confirmed_at h = refl
is_discovered-is_curated last_seen_at h = refl

set_cell-elsewhere :
    (c d : Column) (v : Value) (n : HardwareNode)
    → is_curated c ≡ false
    → is_curated d ≡ true
    → (set_cell c v n).cell d ≡ n.cell d
unfolding set_cell same_column
set_cell-elsewhere c d v n h k = elim (Bool-cases (same_column d c)) [
  | inl same ↦ absurd (let wrong : true ≡ false = sym k ∙ same_column-is_curated d c same ∙ h in cc)
  | inr apart ↦ ap (λ b. if b then some v else n.cell d) apart
]

module _ (equal : Json → Json → Bool) where
  set_cell-KeepsCurated :
      (c : Column) (v : Value) (n n' : HardwareNode)
      → is_curated c ≡ false
      → KeepsCurated n n'
      → KeepsCurated n (set_cell c v n')
  unfolding set_cell
  set_cell-KeepsCurated c v n n' h k = record {
    same_id = k.same_id;
    same_hostname = k.same_hostname;
    same_manual = k.same_manual;
    same_creation = k.same_creation;
    same_cells = λ d kept. set_cell-elsewhere c d v n' h kept ∙ k.same_cells d kept;
  }

  edit_all-KeepsCurated :
      (now : ℕ) (actor : String) (vs : List (Column × Value)) (n n' : HardwareNode)
      → Reported vs
      → KeepsCurated n n'
      → KeepsCurated n (edit_all equal now actor vs n').0
  unfolding edit_all
  edit_all-KeepsCurated now actor [] n n' reported k = k
  edit_all-KeepsCurated now actor ((c, v) ∷ vs) n n' (h, reported) k =
      if_lem {A = HardwareNode × List HardwareChangeEvent} (λ p. KeepsCurated n p.0)
        (same_value equal (n'.cell c) v) (λ _. edit_all-KeepsCurated now actor vs n n' reported k)
        (λ _.
          edit_all-KeepsCurated now actor vs n (set_cell c v n') reported
            (set_cell-KeepsCurated c v n n' h k))

  -- A result that names such columns only, if it is one.
  GivesReported : Result HardwareError (List (Column × Value)) → Type 0
  GivesReported (ok us) = Reported us
  GivesReported (err e) = Unit

  put_first-GivesReported :
      (c : Column) (r : Result HardwareError Value)
      (rest : Result HardwareError (List (Column × Value)))
      → is_curated c ≡ false
      → GivesReported rest
      → GivesReported (put_first c r rest)
  unfolding put_first GivesReported
  put_first-GivesReported c (err e) rest h k = tt
  put_first-GivesReported c (ok v) (err e) h k = tt
  put_first-GivesReported c (ok v) (ok us) h k = (h, k)

  resolve_all-GivesReported :
      (updates : List Update) → All Reports updates → GivesReported (resolve_all updates)
  unfolding resolve_all GivesReported
  resolve_all-GivesReported [] all = tt
  resolve_all-GivesReported ((some c, some v) ∷ updates) (h, all) =
      put_first-GivesReported c (resolve c v) (resolve_all updates) h
        (resolve_all-GivesReported updates all)
  resolve_all-GivesReported ((some c, none) ∷ updates) (h, all) =
      resolve_all-GivesReported updates all
  resolve_all-GivesReported ((none, v) ∷ updates) (h, all) = resolve_all-GivesReported updates all

  discovered-Reports :
      (fields more : List Update) → All Reports more → All Reports (discovered equal fields ++ more)
  unfolding discovered
  discovered-Reports [] more all = all
  discovered-Reports ((none, v) ∷ fields) more all = discovered-Reports fields more all
  discovered-Reports ((some c, v) ∷ fields) more all =
      if_lem (λ (us : List Update). All Reports (us ++ more)) (is_discovered c)
        (λ h. (is_discovered-is_curated c h, discovered-Reports fields more all))
        (λ _. discovered-Reports fields more all)

  -- Where an update names such columns only, it keeps the rest of every node.
  KeepsRows : NodeTables → NodeTables → Type 0
  KeepsRows t t' =
      (k : String) (n : HardwareNode)
      → get id_of k t.nodes ≡ some n
      → (n' : HardwareNode) × (get id_of k t'.nodes ≡ some n') × KeepsCurated n n'

  edited-KeepsCurated :
      (now : ℕ) (actor : String) (vs : List (Column × Value)) (n : HardwareNode)
      → Reported vs
      → KeepsCurated n (edited equal now actor vs n)
  edited-KeepsCurated now actor vs n reported =
      let k = edit_all-KeepsCurated now actor vs n n reported (keeps_itself n) in
      record {
        same_id = k.same_id;
        same_hostname = k.same_hostname;
        same_manual = k.same_manual;
        same_creation = k.same_creation;
        same_cells = k.same_cells;
      }

  edit_found-KeepsRows :
      (now : ℕ) (actor : String) (vs : List (Column × Value)) (found : Option HardwareNode)
      (t : NodeTables)
      → Reported vs
      → KeepsRows t (edit_found equal now actor vs found t).1
  unfolding edit_found KeepsRows
  edit_found-KeepsRows now actor vs none t reported k n h = (n, h, keeps_itself n)
  edit_found-KeepsRows now actor vs (some m) t reported k n h =
      let f = edited equal now actor vs in
      let went =
        first-update (has_key id_of k) (has_key id_of m.id) f t.nodes
          (λ r. ap (λ i. str_eq i k) (edited-KeepsCurated now actor vs r reported).same_id) in
      (
        (if has_key id_of m.id n then f n else n),
        went ∙ ap (Option.map (λ r. if has_key id_of m.id r then f r else r)) h,
        if_lem (KeepsCurated n) (has_key id_of m.id n)
            (λ _. edited-KeepsCurated now actor vs n reported) (λ _. keeps_itself n),
      )

  update_resolved-KeepsRows :
      (now : ℕ) (node_id actor : String) (r : Result HardwareError (List (Column × Value)))
      (t : NodeTables)
      → GivesReported r
      → KeepsRows t (update_resolved equal now node_id actor r t).1
  unfolding update_resolved GivesReported KeepsRows
  update_resolved-KeepsRows now node_id actor (err e) t reported k n h = (n, h, keeps_itself n)
  update_resolved-KeepsRows now node_id actor (ok vs) t reported k n h =
      edit_found-KeepsRows now actor vs (get_node node_id t) t reported k n h

  seen_again-Reports :
      (now : ℕ) (host groups : Option Value) (fields : List Update)
      → All Reports (seen_again equal now host groups fields)
  seen_again-Reports now host groups fields =
      discovered-Reports fields _ (refl, (refl, (refl, (refl, (refl, tt)))))

  create_node-KeepsRows :
      (now : ℕ) (node : HardwareNode) (actor : String) (t : NodeTables)
      → KeepsRows t (create_node now node actor t).1
  unfolding create_node KeepsRows
  create_node-KeepsRows now node actor t k n h =
      if_lem {A = Result HardwareError HardwareNode × NodeTables}
        (λ p. (n' : HardwareNode) × (get id_of k p.1.nodes ≡ some n') × KeepsCurated n n')
        (is_some (get hostname_of node.hostname t.nodes)) (λ _. (n, h, keeps_itself n))
        (λ _. (
          n,
          first-append (has_key id_of k) t.nodes (node ∷ [])
              ∙ ap (λ o. or_else o (get id_of k (node ∷ []))) h,
          keeps_itself n,
        ))

  upsert_found-KeepsRows :
      (now : ℕ) (new_id hostname : String) (host groups : Option Value) (fields : List Update)
      (actor : String) (found : Option HardwareNode) (t : NodeTables)
      → KeepsRows t (upsert_found equal now new_id hostname host groups fields actor found t).1
  unfolding upsert_found update_node
  upsert_found-KeepsRows now new_id hostname host groups fields actor none t =
      create_node-KeepsRows now _ actor t
  upsert_found-KeepsRows now new_id hostname host groups fields actor (some m) t =
      update_resolved-KeepsRows now m.id actor _ t
        (resolve_all-GivesReported _ (seen_again-Reports now host groups fields))

  -- Whatever a discovery reports, every node that was there is still there under its id, with its
  -- hostname, its origin and its creation, and with every column that discoveries do not report as
  -- it was.
  pub upsert_from_discovery-keeps :
      (now : ℕ) (new_id hostname : String) (host groups : Option Value) (fields : List Update)
      (actor : String) (t : NodeTables) (k : String) (n : HardwareNode)
      → get id_of k t.nodes ≡ some n
      → (n' : HardwareNode) × (get id_of k
            (upsert_from_discovery equal now new_id hostname host groups fields actor t).1.nodes
          ≡ some n')
        × KeepsCurated n n'
  unfolding upsert_from_discovery KeepsRows
  upsert_from_discovery-keeps now new_id hostname host groups fields actor t =
      upsert_found-KeepsRows now new_id hostname host groups fields actor (get_node hostname t) t
