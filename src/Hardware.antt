-- ===== src/Hardware.antt =====
-- The hardware registry's data: src/registry_mcp/models/hardware.py, and the fields that
-- src/registry_mcp/hardware/store.py and ansible_facts.py name. A column that may be changed holds a
-- value or `None`; what the store only compares and keeps is a JSON value. Times are in microseconds.
pub mod Store
pub mod Keeps
pub mod Typed
pub mod Calls
pub mod Invariants
mod Tests
use homelab_registry_mcp.Json.{Json}
use homelab_registry_mcp.Prelude.{
  Bool, Option, String, false, if◌then◌else◌, none, some, str_eq, true, ℕ, ◌==◌,
}

pub data NodeRole : Type 0 where
  pve_host docker_host nas workstation pi other_role : NodeRole

pub data NodeStatus : Type 0 where
  confirmed unconfirmed stale offline : NodeStatus

-- `_MUTABLE_FIELDS`
pub data Column : Type 0 where
  display_name role status ip_address mac_address os cpu_model cpu_cores ram_gb gpu_model : Column
  storage storage_pools tags notes location ups_backed obtained_at cluster_member : Column
  ansible_host ansible_groups last_confirmed_at last_seen_at : Column

-- A value that is not `None`.
pub data Value : Type 0 where
  role_of : NodeRole → Value
  status_of : NodeStatus → Value
  time_of : ℕ → Value
  plain : Json → Value

pub record HardwareNode : Type 0 where
  pub id : String
  pub hostname : String
  pub cell : Column → Option Value
  pub is_manual : Bool
  pub created_at : ℕ
  pub updated_at : ℕ

-- What an event is about: a column, or the node's creation or deletion, which carry its hostname.
pub data Field : Type 0 where
  column : Column → Field
  created deleted : Field

pub record HardwareChangeEvent : Type 0 where
  pub node_id : String
  pub field : Field
  pub old : Option Value
  pub new : Option Value
  pub actor : String
  pub created_at : ℕ

abbrev pub column_rank : Column → ℕ
column_rank display_name = 0
column_rank role = 1
column_rank status = 2
column_rank ip_address = 3
column_rank mac_address = 4
column_rank os = 5
column_rank cpu_model = 6
column_rank cpu_cores = 7
column_rank ram_gb = 8
column_rank gpu_model = 9
column_rank storage = 10
column_rank storage_pools = 11
column_rank tags = 12
column_rank notes = 13
column_rank location = 14
column_rank ups_backed = 15
column_rank obtained_at = 16
column_rank cluster_member = 17
column_rank ansible_host = 18
column_rank ansible_groups = 19
column_rank last_confirmed_at = 20
column_rank last_seen_at = 21

unfoldable pub same_column : Column → Column → Bool
same_column a b = column_rank a == column_rank b

-- `DISCOVERY_FIELDS`
abbrev pub is_discovered : Column → Bool
is_discovered ip_address = true
is_discovered mac_address = true
is_discovered os = true
is_discovered cpu_model = true
is_discovered cpu_cores = true
is_discovered ram_gb = true
is_discovered storage = true
is_discovered c = false

-- `NodeRole(value)` and `NodeStatus(value)`, by the text.
unfoldable pub read_role : String → Option NodeRole
read_role s =
    if str_eq s "pve_host"
    then some pve_host
    else if str_eq s "docker_host"
    then some docker_host
    else if str_eq s "nas"
    then some nas
    else if str_eq s "workstation"
    then some workstation
    else if str_eq s "pi"
    then some pi
    else if str_eq s "other"
    then some other_role
    else none

unfoldable pub read_status : String → Option NodeStatus
read_status s =
    if str_eq s "confirmed"
    then some confirmed
    else if str_eq s "unconfirmed"
    then some unconfirmed
    else if str_eq s "stale"
    then some stale
    else if str_eq s "offline"
    then some offline
    else none
