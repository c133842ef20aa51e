-- ===== src/Hardware/Invariants.antt =====
-- What the calls on the hardware registry, in any order, keep.
use homelab_registry_mcp.Hardware.{
  display_name, role, status, ip_address, mac_address, os, cpu_model, cpu_cores, ram_gb, gpu_model,
  storage, storage_pools, tags, notes, location, ups_backed, obtained_at, cluster_member,
  ansible_host, ansible_groups, last_confirmed_at, last_seen_at, Column, HardwareChangeEvent,
  HardwareNode, NodeRole, Value, confirmed, is_discovered, other_role, read_role, same_column,
  unconfirmed,
}
use homelab_registry_mcp.Hardware.Calls.{
  adds, discovers, updates, deletes, add_with_role, run_call, run_calls, AddedNode,
  hardware_add_node, HardwareCall,
}
use homelab_registry_mcp.Prelude.{
  All, Bool, List, Option, Result, String, [], ap, err, false, if_lem, if◌then◌else◌, is_some, none,
  ok, refl, some, true, ℕ, ◌∙◌, ◌∷◌, ◌≡◌,
}
use homelab_registry_mcp.Hardware.Store.{
  NodeTables, create_node, with_fields, edit_all, edit_found, update_resolved, delete_found,
  upsert_found, HardwareError, discovered, set_cell, edited, update_node, hostname_of, Update,
  same_value, get_node, upsert_from_discovery, id_of, new_cell, delete_node, seen_again,
}
use homelab_registry_mcp.Json.{Json}
use homelab_registry_mcp.Hardware.Typed.{
  IsTyped, Fits, GivesFits, edit_all-IsTyped, resolve_all-GivesFits,
}
use homelab_registry_mcp.Table.{Unique, get, has_key}
use homelab_registry_mcp.Table.Laws.{All-delete, All-update, All-add}
use homelab_registry_mcp.Table.Unique.{Unique-add, Unique-update, Unique-delete}

-- A discovered column is neither the role nor the status.
discovered_apart :
    (c : Column)
    → is_discovered c ≡ true
    → (same_column role c ≡ false) × (same_column status c ≡ false)
unfolding same_column
discovered_apart display_name h = cc
discovered_apart role h = cc
discovered_apart status h = cc
discovered_apart ip_address h = (refl, refl)
discovered_apart mac_address h = (refl, refl)
discovered_apart os h = (refl, refl)
discovered_apart cpu_model h = (refl, refl)
discovered_apart cpu_cores h = (refl, refl)
discovered_apart ram_gb h = (refl, refl)
discovered_apart gpu_model h = cc
discovered_apart storage h = (refl, refl)
discovered_apart storage_pools h = cc
discovered_apart tags h = cc
discovered_apart notes h = cc
discovered_apart location h = cc
discovered_apart ups_backed h = cc
discovered_apart obtained_at h = cc
discovered_apart cluster_member h = cc
discovered_apart ansible_host h = cc
discovered_apart ansible_groups h = cc
discovered_apart last_confirmed_at h = cc
discovered_apart last_seen_at h = cc

-- What holds of the tables: every node is typed, and no two have the same hostname.
pub record IsSound (t : NodeTables) : Type 0 where
  pub all_typed : All IsTyped t.nodes
  pub apart : Unique hostname_of t.nodes

not_some : {A : Type 0} (o : Option A) → is_some o ≡ false → o ≡ none
not_some none h = refl
not_some (some a) h = cc

create_node-IsSound :
    (now : ℕ) (node : HardwareNode) (actor : String) (t : NodeTables)
    → IsTyped node
    → IsSound t
    → IsSound (create_node now node actor t).1
unfolding create_node
create_node-IsSound now node actor t typed sound =
    if_lem {A = Result HardwareError HardwareNode × NodeTables} (λ p. IsSound p.1)
      (is_some (get hostname_of node.hostname t.nodes)) (λ _. sound)
      (λ free. record {
        all_typed = All-add IsTyped node t.nodes sound.all_typed typed;
        apart = Unique-add hostname_of node t.nodes (not_some _ free) sound.apart;
      })

module _ (equal : Json → Json → Bool) where
  with_fields-kept :
      (d : Column) (fields : List Update) (cell : Column → Option Value)
      → ((c : Column) → is_discovered c ≡ true → same_column d c ≡ false)
      → with_fields equal (discovered equal fields) cell d ≡ cell d
  unfolding with_fields discovered
  with_fields-kept d [] cell apart = refl
  with_fields-kept d ((none, v) ∷ fields) cell apart = with_fields-kept d fields cell apart
  with_fields-kept d ((some c, v) ∷ fields) cell apart =
      let rest = with_fields-kept d fields cell apart in
      if_lem (λ (us : List Update). with_fields equal us cell d ≡ cell d) (is_discovered c)
        (λ h.
          ap (λ b. if b then v else with_fields equal (discovered equal fields) cell d) (apart c h)
          ∙ rest)
        (λ _. rest)

  edit_all-hostname :
      (now : ℕ) (actor : String) (vs : List (Column × Value)) (n : HardwareNode)
      → (edit_all equal now actor vs n).0.hostname ≡ n.hostname
  unfolding edit_all set_cell
  edit_all-hostname now actor [] n = refl
  edit_all-hostname now actor ((c, v) ∷ vs) n =
      if_lem {A = HardwareNode × List HardwareChangeEvent} (λ p. p.0.hostname ≡ n.hostname)
        (same_value equal (n.cell c) v) (λ _. edit_all-hostname now actor vs n)
        (λ _. edit_all-hostname now actor vs (set_cell c v n))

  edited-IsTyped :
      (now : ℕ) (actor : String) (vs : List (Column × Value)) (n : HardwareNode)
      → All (λ u. Fits u.0 u.1) vs
      → IsTyped n
      → IsTyped (edited equal now actor vs n)
  edited-IsTyped now actor vs n fits t =
      let k = edit_all-IsTyped equal now actor vs n fits t in
      record { typed_role = k.typed_role; typed_status = k.typed_status }

  edit_found-IsSound :
      (now : ℕ) (actor : String) (vs : List (Column × Value)) (found : Option HardwareNode)
      (t : NodeTables)
      → All (λ u. Fits u.0 u.1) vs
      → IsSound t
      → IsSound (edit_found equal now actor vs found t).1
  unfolding edit_found
  edit_found-IsSound now actor vs none t fits sound = sound
  edit_found-IsSound now actor vs (some n) t fits sound =
      let f = edited equal now actor vs in
      record {
        all_typed =
            All-update IsTyped (has_key id_of n.id) f t.nodes
              (λ r typed. edited-IsTyped now actor vs r fits typed) sound.all_typed;
        apart =
            Unique-update hostname_of (has_key id_of n.id) f t.nodes
              (edit_all-hostname now actor vs) sound.apart;
      }

  update_resolved-IsSound :
      (now : ℕ) (node_id actor : String) (r : Result HardwareError (List (Column × Value)))
      (t : NodeTables)
      → GivesFits r
      → IsSound t
      → IsSound (update_resolved equal now node_id actor r t).1
  unfolding update_resolved GivesFits
  update_resolved-IsSound now node_id actor (err e) t fits sound = sound
  update_resolved-IsSound now node_id actor (ok vs) t fits sound =
      edit_found-IsSound now actor vs (get_node node_id t) t fits sound

  delete_found-IsSound :
      (now : ℕ) (actor : String) (found : Option HardwareNode) (t : NodeTables)
      → IsSound t
      → IsSound (delete_found equal now actor found t).1
  unfolding delete_found
  delete_found-IsSound now actor none t sound = sound
  delete_found-IsSound now actor (some n) t sound = record {
    all_typed = All-delete IsTyped (has_key id_of n.id) t.nodes sound.all_typed;
    apart = Unique-delete hostname_of (has_key id_of n.id) t.nodes sound.apart;
  }

  upsert_found-IsSound :
      (now : ℕ) (new_id hostname : String) (host groups : Option Value) (fields : List Update)
      (actor : String) (found : Option HardwareNode) (t : NodeTables)
      → IsSound t
      → IsSound (upsert_found equal now new_id hostname host groups fields actor found t).1
  unfolding upsert_found update_node
  upsert_found-IsSound now new_id hostname host groups fields actor none t sound =
      create_node-IsSound now _ actor t
        (record {
          typed_role = (
            other_role,
            with_fields-kept role fields (new_cell equal now hostname host groups)
                (λ c h. (discovered_apart c h).0),
          );
          typed_status = (
            confirmed,
            with_fields-kept status fields (new_cell equal now hostname host groups)
                (λ c h. (discovered_apart c h).1),
          );
        })
        sound
  upsert_found-IsSound now new_id hostname host groups fields actor (some n) t sound =
      update_resolved-IsSound now n.id actor _ t
        (resolve_all-GivesFits (seen_again equal now host groups fields)) sound

  add_with_role-IsSound :
      (now : ℕ) (new_id : String) (a : AddedNode) (r : Option NodeRole) (t : NodeTables)
      → IsSound t
      → IsSound (add_with_role now new_id a r t).1
  unfolding add_with_role
  add_with_role-IsSound now new_id a none t sound = sound
  add_with_role-IsSound now new_id a (some r) t sound =
      create_node-IsSound now _ "manual" t
        (record { typed_role = (r, refl); typed_status = (unconfirmed, refl) }) sound

  run_call-IsSound : (c : HardwareCall) (t : NodeTables) → IsSound t → IsSound (run_call equal c t)
  unfolding run_call hardware_add_node upsert_from_discovery update_node delete_node
  run_call-IsSound (adds now new_id a) t sound =
      add_with_role-IsSound now new_id a (read_role a.role_text) t sound
  run_call-IsSound (discovers now new_id hostname host groups fields actor) t sound =
      upsert_found-IsSound now new_id hostname host groups fields actor (get_node hostname t) t
        sound
  run_call-IsSound (updates now node_id us actor) t sound =
      update_resolved-IsSound now node_id actor _ t (resolve_all-GivesFits us) sound
  run_call-IsSound (deletes now node_id actor) t sound =
      delete_found-IsSound now actor (get_node node_id t) t sound

  -- Whatever nodes are added, discovered, updated and deleted, in any order and with any values given
  -- for their fields: every node has a role and a status of the enumerations, never another text,
  -- and no two nodes have the same hostname, if that was so at the start.
  pub run_calls-IsSound :
      (cs : List HardwareCall) (t : NodeTables) → IsSound t → IsSound (run_calls equal cs t)
  unfolding run_calls
  run_calls-IsSound [] t sound = sound
  run_calls-IsSound (c ∷ cs) t sound =
      run_calls-IsSound cs (run_call equal c t) (run_call-IsSound c t sound)
