-- ===== src/Hardware/Tests.antt =====
-- Runs of the hardware store, and its theorems at concrete inputs.
use homelab_registry_mcp.Json.{Json, text, array, no_items, null}
use homelab_registry_mcp.Hardware.{role, ip_address, notes, plain, nas, HardwareNode}
use homelab_registry_mcp.Hardware.Calls.{
  adds, discovers, updates, deletes, AddedNode, manual_cell, HardwareCall, run_calls,
}
use homelab_registry_mcp.Prelude.{Bool, List, [], err, false, none, refl, some, true, ◌∷◌, ◌≡◌}
use homelab_registry_mcp.Hardware.Store.{
  NodeTables, update_node, invalid_value, id_of, upsert_from_discovery,
}
use homelab_registry_mcp.Table.{first, get}
use homelab_registry_mcp.Hardware.Invariants.{IsSound, run_calls-IsSound}
use homelab_registry_mcp.Hardware.Keeps.{KeepsCurated, upsert_from_discovery-keeps}

abbrev never : Json → Json → Bool
never a b = false

abbrev empty_tables : NodeTables
empty_tables = record { nodes = []; events = [] }

abbrev added : AddedNode
added = record {
  hostname = "nas";
  name = "NAS";
  role_text = "nas";
  ip = none;
  notes_text = text "attic";
  tags_list = array no_items;
}

abbrev nas_node : HardwareNode
nas_node = record {
  id = "n1";
  hostname = "nas";
  cell = manual_cell "NAS" nas none (text "attic") (array no_items);
  is_manual = true;
  created_at = 5;
  updated_at = 5;
}

abbrev one_node : NodeTables
one_node = record { nodes = nas_node ∷ []; events = [] }

-- A role that is none is refused, whatever else is updated.
refused_role :
    update_node never 7 "nas" ((some role, some (plain (text "media_host"))) ∷ []) "manual" one_node
    ≡ (err (invalid_value role), one_node)
unfolding update_node
refused_role = refl

upsert_from_discovery-keeps_example :
    (n' : HardwareNode) × (get id_of "n1"
        (upsert_from_discovery never 9 "n2" "nas" none none
          ((some ip_address, some (plain (text "10.0.0.2"))) ∷ (some notes, some (plain null)) ∷ [])
          "ansible"
          one_node).1.nodes
      ≡ some n')
    × KeepsCurated nas_node n'
unfolding first
upsert_from_discovery-keeps_example =
    upsert_from_discovery-keeps never 9 "n2" "nas" none none
      ((some ip_address, some (plain (text "10.0.0.2"))) ∷ (some notes, some (plain null)) ∷ [])
      "ansible" one_node "n1" nas_node refl

abbrev four_calls : List HardwareCall
four_calls =
    adds 5 "n1" added
    ∷ updates 7 "nas" ((some role, some (plain (text "pve_host"))) ∷ []) "manual"
    ∷ discovers 9 "n2" "pi" none none [] "ansible"
    ∷ deletes 10 "nas" "manual"
    ∷ []

run_calls-IsSound_example : IsSound (run_calls never four_calls empty_tables)
run_calls-IsSound_example =
    run_calls-IsSound never four_calls empty_tables (record { all_typed = tt; apart = tt })
