-- ===== src/Hardware/Store.antt =====
-- src/registry_mcp/hardware/store.py. A method takes the tables and the clock; it returns its result
-- beside the new tables, and a method that raises leaves them alone. Python's `==` on the values
-- that the store only keeps is a parameter, and so is a new node's id.
use homelab_registry_mcp.Json.{Json, text, array, no_items}
use homelab_registry_mcp.Hardware.{
  pve_host, docker_host, nas, workstation, pi, offline, display_name, role, status, tags,
  ansible_host, ansible_groups, last_confirmed_at, last_seen_at, role_of, status_of, time_of, plain,
  column, created, deleted, confirmed, unconfirmed, stale, other_role, storage, storage_pools,
  notes, Column, Field, HardwareChangeEvent, HardwareNode, NodeRole, NodeStatus, Value,
  is_discovered, read_role, read_status, same_column,
}
use homelab_registry_mcp.Prelude.{
  Bool, List, Option, Result, String, [], err, false, if◌then◌else◌, is_some, none, ok, or_else,
  some, true, ℕ, ◌++◌, ◌==◌, ◌∷◌,
}
use homelab_registry_mcp.Table.{get, update, delete, select, add, has_key}

pub record NodeTables : Type 0 where
  pub nodes : List HardwareNode
  pub events : List HardwareChangeEvent

pub data HardwareError : Type 0 where
  duplicate_node : (hostname : String) → HardwareError
  invalid_value : Column → HardwareError

abbrev pub id_of : HardwareNode → String
id_of n = n.id

abbrev pub hostname_of : HardwareNode → String
hostname_of n = n.hostname

-- `_record`
abbrev pub event :
    (now : ℕ) → String → Field → Option Value → Option Value → String → HardwareChangeEvent
event now node_id field old new actor = record {
  node_id = node_id;
  field = field;
  old = old;
  new = new;
  actor = actor;
  created_at = now;
}

abbrev pub named : String → Option Value
named hostname = some (plain (text hostname))

-- `create_node`
unfoldable pub create_node :
    (now : ℕ)
    → HardwareNode
    → (actor : String) → NodeTables
    → Result HardwareError HardwareNode × NodeTables
create_node now node actor t =
    if is_some (get hostname_of node.hostname t.nodes)
    then (err (duplicate_node node.hostname), t)
    else (
      ok node,
      record {
        nodes = add node t.nodes;
        events = add (event now node.id created none (named node.hostname) actor) t.events;
      },
    )

-- `get_node`: by the id, then by the hostname.
unfoldable pub get_node : String → NodeTables → Option HardwareNode
get_node id_or_hostname t =
    or_else (get id_of id_or_hostname t.nodes) (get hostname_of id_or_hostname t.nodes)

-- `enum_type(value)` for a column that holds an enumeration; a value of it is kept.
unfoldable pub resolve : Column → Value → Result HardwareError Value
unfolding read_role read_status
resolve role (role_of r) = ok (role_of r)
resolve role (plain (text s)) = elim (read_role s) [
  | none ↦ err (invalid_value role)
  | some r ↦ ok (role_of r)
]
resolve role v = err (invalid_value role)
resolve status (status_of s) = ok (status_of s)
resolve status (plain (text s)) = elim (read_status s) [
  | none ↦ err (invalid_value status)
  | some r ↦ ok (status_of r)
]
resolve status v = err (invalid_value status)
resolve c v = ok v

-- One value put before those that were resolved behind it, or the first exception.
unfoldable pub put_first :
    Column
    → Result HardwareError Value
    → Result HardwareError (List (Column × Value))
    → Result HardwareError (List (Column × Value))
put_first c (err e) rest = err e
put_first c (ok v) (err e) = err e
put_first c (ok v) (ok rest) = ok ((c, v) ∷ rest)

-- An update: its field, if that is a mutable one, and its value, if that is not `None`.
abbrev pub Update : Type 0
Update = Option Column × Option Value

-- The first loop of `update_node`.
unfoldable pub resolve_all : List Update → Result HardwareError (List (Column × Value))
unfolding put_first resolve
resolve_all [] = ok []
resolve_all ((some c, some v) ∷ updates) = put_first c (resolve c v) (resolve_all updates)
resolve_all (u ∷ updates) = resolve_all updates

-- `setattr(node, field, value)`
unfoldable pub set_cell : Column → Value → HardwareNode → HardwareNode
unfolding same_column
set_cell c v n = record n { cell = λ d. if same_column d c then some v else n.cell d }

abbrev pub role_rank : NodeRole → ℕ
role_rank pve_host = 0
role_rank docker_host = 1
role_rank nas = 2
role_rank workstation = 3
role_rank pi = 4
role_rank other_role = 5

abbrev pub status_rank : NodeStatus → ℕ
status_rank confirmed = 0
status_rank unconfirmed = 1
status_rank stale = 2
status_rank offline = 3

-- A result that is there, as a result that may be.
abbrev pub found_or_raised :
    Result HardwareError HardwareNode → Result HardwareError (Option HardwareNode)
found_or_raised (ok n) = ok (some n)
found_or_raised (err e) = err e

module _ (equal : Json → Json → Bool) where
  -- `old == value`. A time that was read from the database has no zone, and is equal to no new time,
  -- which has one.
  abbrev pub same_value : Option Value → Value → Bool
  same_value (some (role_of a)) (role_of b) = role_rank a == role_rank b
  same_value (some (status_of a)) (status_of b) = status_rank a == status_rank b
  same_value (some (plain a)) (plain b) = equal a b
  same_value old v = false

  -- The second loop of `update_node`: the node, and the events.
  unfoldable pub edit_all :
      (now : ℕ)
      → (actor : String) → List (Column × Value)
      → HardwareNode
      → HardwareNode × List HardwareChangeEvent
  unfolding set_cell
  edit_all now actor [] n = (n, [])
  edit_all now actor ((c, v) ∷ vs) n =
      let skip = edit_all now actor vs n in
      let (n', events) = edit_all now actor vs (set_cell c v n) in
      if same_value (n.cell c) v
      then skip
      else (n', event now n.id (column c) (n.cell c) (some v) actor ∷ events)

  abbrev pub edited :
      (now : ℕ) → (actor : String) → List (Column × Value) → HardwareNode → HardwareNode
  edited now actor vs n = record (edit_all now actor vs n).0 { updated_at = now }

  -- `update_node` on the node that it found.
  unfoldable pub edit_found :
      (now : ℕ)
      → (actor : String) → List (Column × Value)
      → Option HardwareNode
      → NodeTables
      → Option HardwareNode × NodeTables
  unfolding edit_all
  edit_found now actor vs none t = (none, t)
  edit_found now actor vs (some n) t = (
    some (edited now actor vs n),
    record {
      nodes = update (has_key id_of n.id) (edited now actor vs) t.nodes;
      events = t.events ++ (edit_all now actor vs n).1;
    },
  )

  -- `update_node` on the values that it resolved, or the exception.
  unfoldable pub update_resolved :
      (now : ℕ)
      → (node_id actor : String) → Result HardwareError (List (Column × Value))
      → NodeTables
      → Result HardwareError (Option HardwareNode) × NodeTables
  unfolding edit_found get_node
  update_resolved now node_id actor (err e) t = (err e, t)
  update_resolved now node_id actor (ok vs) t =
      let (found, t') = edit_found now actor vs (get_node node_id t) t in (ok found, t')

  -- `update_node`
  unfoldable pub update_node :
      (now : ℕ)
      → (node_id : String) → List Update
      → (actor : String) → NodeTables
      → Result HardwareError (Option HardwareNode) × NodeTables
  unfolding update_resolved resolve_all
  update_node now node_id updates actor t =
      update_resolved now node_id actor (resolve_all updates) t

  -- `delete_node`, on the node that it found.
  unfoldable pub delete_found :
      (now : ℕ) → (actor : String) → Option HardwareNode → NodeTables → Bool × NodeTables
  delete_found now actor none t = (false, t)
  delete_found now actor (some n) t = (
    true,
    record {
      nodes = delete (has_key id_of n.id) t.nodes;
      events = add (event now n.id deleted (named n.hostname) none actor) t.events;
    },
  )

  unfoldable pub delete_node : (now : ℕ) → (node_id actor : String) → NodeTables → Bool × NodeTables
  unfolding delete_found get_node
  delete_node now node_id actor t = delete_found now actor (get_node node_id t) t

  -- `{k: v for k, v in fields.items() if k in DISCOVERY_FIELDS}`
  unfoldable pub discovered : List Update → List Update
  discovered [] = []
  discovered ((none, v) ∷ fields) = discovered fields
  discovered ((some c, v) ∷ fields) =
      let rest = discovered fields in if is_discovered c then (some c, v) ∷ rest else rest

  -- A constructor's keyword arguments, over its defaults.
  unfoldable pub with_fields : List Update → (Column → Option Value) → Column → Option Value
  unfolding same_column
  with_fields [] cell d = cell d
  with_fields ((none, v) ∷ fields) cell d = with_fields fields cell d
  with_fields ((some c, v) ∷ fields) cell d =
      let rest = with_fields fields cell d in if same_column d c then v else rest

  abbrev pub empty_list : Option Value
  empty_list = some (plain (array no_items))

  -- The defaults of a node that a discovery creates.
  abbrev pub new_cell :
      (now : ℕ) → (hostname : String) → (host groups : Option Value) → Column → Option Value
  new_cell now hostname host groups display_name = named hostname
  new_cell now hostname host groups role = some (role_of other_role)
  new_cell now hostname host groups status = some (status_of confirmed)
  new_cell now hostname host groups ansible_host = host
  new_cell now hostname host groups ansible_groups = or_else groups empty_list
  new_cell now hostname host groups last_confirmed_at = some (time_of now)
  new_cell now hostname host groups last_seen_at = some (time_of now)
  new_cell now hostname host groups storage = empty_list
  new_cell now hostname host groups storage_pools = empty_list
  new_cell now hostname host groups tags = empty_list
  new_cell now hostname host groups notes = some (plain (text ""))
  new_cell now hostname host groups c = none

  -- The updates of a node that is discovered again.
  abbrev pub seen_again : (now : ℕ) → (host groups : Option Value) → List Update → List Update
  seen_again now host groups fields =
      discovered fields
      ++ (some ansible_host, host)
        ∷ (some ansible_groups, groups)
        ∷ (some status, some (status_of confirmed))
        ∷ (some last_confirmed_at, some (time_of now))
        ∷ (some last_seen_at, some (time_of now))
        ∷ []

  -- `upsert_from_discovery`, on what `get_node` found. A found node is there for `update_node`.
  unfoldable pub upsert_found :
      (now : ℕ)
      → (new_id hostname : String) → (host groups : Option Value) → List Update
      → (actor : String) → Option HardwareNode
      → NodeTables
      → Result HardwareError (Option HardwareNode) × NodeTables
  unfolding create_node update_node discovered with_fields
  upsert_found now new_id hostname host groups fields actor none t =
      let (made, t') =
        create_node now
          (record {
            id = new_id;
            hostname = hostname;
            cell = with_fields (discovered fields) (new_cell now hostname host groups);
            is_manual = false;
            created_at = now;
            updated_at = now;
          })
          actor t in
      (found_or_raised made, t')
  upsert_found now new_id hostname host groups fields actor (some n) t =
      update_node now n.id (seen_again now host groups fields) actor t

  -- `upsert_from_discovery`
  unfoldable pub upsert_from_discovery :
      (now : ℕ)
      → (new_id hostname : String) → (host groups : Option Value) → List Update
      → (actor : String) → NodeTables
      → Result HardwareError (Option HardwareNode) × NodeTables
  unfolding upsert_found get_node
  upsert_from_discovery now new_id hostname host groups fields actor t =
      upsert_found now new_id hostname host groups fields actor (get_node hostname t) t

abbrev pub is_status : NodeStatus → HardwareNode → Bool
is_status wanted n = same_value (λ a b. false) (n.cell status) (status_of wanted)

-- `list_stale_nodes` and `list_unconfirmed_nodes`
abbrev pub list_stale_nodes : NodeTables → List HardwareNode
list_stale_nodes t = select (is_status stale) t.nodes

abbrev pub list_unconfirmed_nodes : NodeTables → List HardwareNode
list_unconfirmed_nodes t = select (is_status unconfirmed) t.nodes
