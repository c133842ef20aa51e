-- ===== src/Hardware/Calls.antt =====
-- The writes of the hardware registry in a row: those of src/registry_mcp/hardware/store.py, where a
-- node is created by the tool `hardware-add-node` of src/registry_mcp/tools/hardware.py or by a
-- discovery.
use homelab_registry_mcp.Hardware.{
  Column, display_name, role, status, storage, storage_pools, tags, notes, ip_address, role_of,
  status_of, plain, unconfirmed, HardwareNode, NodeRole, Value, read_role,
}
use homelab_registry_mcp.Json.{Json}
use homelab_registry_mcp.Prelude.{
  Bool, List, Option, Result, String, [], err, false, none, some, true, ℕ, ◌∷◌,
}
use homelab_registry_mcp.Hardware.Store.{
  named, create_node, NodeTables, Update, upsert_from_discovery, empty_list, HardwareError,
  update_node, invalid_value, delete_node,
}

-- What a node made by hand holds.
abbrev pub manual_cell :
    (name : String)
    → NodeRole
    → (ip : Option Value) → (notes_text tags_list : Json) → Column
    → Option Value
manual_cell name r ip notes_text tags_list display_name = named name
manual_cell name r ip notes_text tags_list role = some (role_of r)
manual_cell name r ip notes_text tags_list status = some (status_of unconfirmed)
manual_cell name r ip notes_text tags_list ip_address = ip
manual_cell name r ip notes_text tags_list notes = some (plain notes_text)
manual_cell name r ip notes_text tags_list tags = some (plain tags_list)
manual_cell name r ip notes_text tags_list storage = empty_list (λ a b. false)
manual_cell name r ip notes_text tags_list storage_pools = empty_list (λ a b. false)
manual_cell name r ip notes_text tags_list c = none

-- The arguments of `hardware_add_node`. The tags that are left out are an empty list.
pub record AddedNode : Type 0 where
  pub hostname : String
  pub name : String
  pub role_text : String
  pub ip : Option Value
  pub notes_text : Json
  pub tags_list : Json

-- `hardware_add_node` on the role that its text names.
unfoldable pub add_with_role :
    (now : ℕ)
    → (new_id : String) → AddedNode
    → Option NodeRole
    → NodeTables
    → Result HardwareError HardwareNode × NodeTables
unfolding create_node
add_with_role now new_id a none t = (err (invalid_value role), t)
add_with_role now new_id a (some r) t =
    create_node now
      (record {
        id = new_id;
        hostname = a.hostname;
        cell = manual_cell a.name r a.ip a.notes_text a.tags_list;
        is_manual = true;
        created_at = now;
        updated_at = now;
      })
      "manual" t

-- `hardware_add_node`
unfoldable pub hardware_add_node :
    (now : ℕ)
    → (new_id : String) → AddedNode
    → NodeTables
    → Result HardwareError HardwareNode × NodeTables
unfolding add_with_role read_role
hardware_add_node now new_id a t = add_with_role now new_id a (read_role a.role_text) t

-- A call, with what it is given.
pub data HardwareCall : Type 0 where
  adds : (now : ℕ) → (new_id : String) → AddedNode → HardwareCall
  discovers :
      (now : ℕ)
      → (new_id hostname : String) → (host groups : Option Value) → List Update
      → String
      → HardwareCall
  updates : (now : ℕ) → (node_id : String) → List Update → String → HardwareCall
  deletes : (now : ℕ) → (node_id actor : String) → HardwareCall

module _ (equal : Json → Json → Bool) where
  unfoldable pub run_call : HardwareCall → NodeTables → NodeTables
  unfolding hardware_add_node upsert_from_discovery update_node delete_node
  run_call (adds now new_id a) t = (hardware_add_node now new_id a t).1
  run_call (discovers now new_id hostname host groups fields actor) t =
      (upsert_from_discovery equal now new_id hostname host groups fields actor t).1
  run_call (updates now node_id us actor) t = (update_node equal now node_id us actor t).1
  run_call (deletes now node_id actor) t = (delete_node equal now node_id actor t).1

  unfoldable pub run_calls : List HardwareCall → NodeTables → NodeTables
  unfolding run_call
  run_calls [] t = t
  run_calls (c ∷ cs) t = run_calls cs (run_call c t)
