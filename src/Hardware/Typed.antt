-- ===== src/Hardware/Typed.antt =====
-- Enumerations stay enumerations, and hostnames stay different.
use homelab_registry_mcp.Hardware.{
  display_name, role, status, ip_address, mac_address, os, cpu_model, cpu_cores, ram_gb, gpu_model,
  storage, storage_pools, tags, notes, location, ups_backed, obtained_at, cluster_member,
  ansible_host, ansible_groups, last_confirmed_at, last_seen_at, role_of, status_of, plain, time_of,
  Column, HardwareChangeEvent, HardwareNode, NodeRole, NodeStatus, Value, read_role, read_status,
  same_column,
}
use homelab_registry_mcp.Json.{text, null, flag, number, array, object, Json}
use homelab_registry_mcp.Prelude.{
  All, Bool, List, Option, Result, String, [], err, if_lem, none, ok, refl, some, true, ℕ, ◌∷◌, ◌≡◌,
}
use homelab_registry_mcp.Hardware.Store.{
  HardwareError, resolve, put_first, resolve_all, set_cell, invalid_value, Update, edit_all,
  same_value,
}

abbrev AsRole : Option Value → Type 0
AsRole v = (r : NodeRole) × (v ≡ some (role_of r))

abbrev AsStatus : Option Value → Type 0
AsStatus v = (s : NodeStatus) × (v ≡ some (status_of s))

-- The node has a role and a status of the enumerations.
pub record IsTyped (n : HardwareNode) : Type 0 where
  pub typed_role : AsRole (n.cell role)
  pub typed_status : AsStatus (n.cell status)

-- A value that may be written to the column.
pub record Fits (c : Column) (v : Value) : Type 0 where
  pub as_role : same_column role c ≡ true → AsRole (some v)
  pub as_status : same_column status c ≡ true → AsStatus (some v)

-- What is resolved may be written.
GivesFit : Column → Result HardwareError Value → Type 0
GivesFit c (ok v) = Fits c v
GivesFit c (err e) = Unit

unfoldable pub GivesFits : Result HardwareError (List (Column × Value)) → Type 0
GivesFits (ok vs) = All (λ u. Fits u.0 u.1) vs
GivesFits (err e) = Unit

read_role-GivesFit :
    (o : Option NodeRole)
    → GivesFit role (elim o [ none ↦ err (invalid_value role) | some r ↦ ok (role_of r) ])
unfolding GivesFit same_column
read_role-GivesFit none = tt
read_role-GivesFit (some r) = record { as_role = λ h. (r, refl); as_status = λ h. cc }

read_status-GivesFit :
    (o : Option NodeStatus)
    → GivesFit status (elim o [ none ↦ err (invalid_value status) | some r ↦ ok (status_of r) ])
unfolding GivesFit same_column
read_status-GivesFit none = tt
read_status-GivesFit (some r) = record { as_role = λ h. cc; as_status = λ h. (r, refl) }

resolve-GivesFit : (c : Column) (v : Value) → GivesFit c (resolve c v)
unfolding GivesFit resolve same_column
resolve-GivesFit role (role_of r) = record { as_role = λ h. (r, refl); as_status = λ h. cc }
resolve-GivesFit role (status_of r) = tt
resolve-GivesFit role (time_of r) = tt
resolve-GivesFit role (plain (text s)) = read_role-GivesFit (read_role s)
resolve-GivesFit role (plain null) = tt
resolve-GivesFit role (plain (flag b)) = tt
resolve-GivesFit role (plain (number n)) = tt
resolve-GivesFit role (plain (array js)) = tt
resolve-GivesFit role (plain (object fs)) = tt
resolve-GivesFit status (role_of r) = tt
resolve-GivesFit status (status_of r) = record { as_role = λ h. cc; as_status = λ h. (r, refl) }
resolve-GivesFit status (time_of r) = tt
resolve-GivesFit status (plain (text s)) = read_status-GivesFit (read_status s)
resolve-GivesFit status (plain null) = tt
resolve-GivesFit status (plain (flag b)) = tt
resolve-GivesFit status (plain (number n)) = tt
resolve-GivesFit status (plain (array js)) = tt
resolve-GivesFit status (plain (object fs)) = tt
resolve-GivesFit display_name v = record { as_role = λ h. cc; as_status = λ h. cc }
resolve-GivesFit ip_address v = record { as_role = λ h. cc; as_status = λ h. cc }
resolve-GivesFit mac_address v = record { as_role = λ h. cc; as_status = λ h. cc }
resolve-GivesFit os v = record { as_role = λ h. cc; as_status = λ h. cc }
resolve-GivesFit cpu_model v = record { as_role = λ h. cc; as_status = λ h. cc }
resolve-GivesFit cpu_cores v = record { as_role = λ h. cc; as_status = λ h. cc }
resolve-GivesFit ram_gb v = record { as_role = λ h. cc; as_status = λ h. cc }
resolve-GivesFit gpu_model v = record { as_role = λ h. cc; as_status = λ h. cc }
resolve-GivesFit storage v = record { as_role = λ h. cc; as_status = λ h. cc }
resolve-GivesFit storage_pools v = record { as_role = λ h. cc; as_status = λ h. cc }
resolve-GivesFit tags v = record { as_role = λ h. cc; as_status = λ h. cc }
resolve-GivesFit notes v = record { as_role = λ h. cc; as_status = λ h. cc }
resolve-GivesFit location v = record { as_role = λ h. cc; as_status = λ h. cc }
resolve-GivesFit ups_backed v = record { as_role = λ h. cc; as_status = λ h. cc }
resolve-GivesFit obtained_at v = record { as_role = λ h. cc; as_status = λ h. cc }
resolve-GivesFit cluster_member v = record { as_role = λ h. cc; as_status = λ h. cc }
resolve-GivesFit ansible_host v = record { as_role = λ h. cc; as_status = λ h. cc }
resolve-GivesFit ansible_groups v = record { as_role = λ h. cc; as_status = λ h. cc }
resolve-GivesFit last_confirmed_at v = record { as_role = λ h. cc; as_status = λ h. cc }
resolve-GivesFit last_seen_at v = record { as_role = λ h. cc; as_status = λ h. cc }

put_first-GivesFits :
    (c : Column) (r : Result HardwareError Value)
    (rest : Result HardwareError (List (Column × Value)))
    → GivesFit c r
    → GivesFits rest
    → GivesFits (put_first c r rest)
unfolding put_first GivesFits GivesFit
put_first-GivesFits c (err e) rest h k = tt
put_first-GivesFits c (ok v) (err e) h k = tt
put_first-GivesFits c (ok v) (ok us) h k = (h, k)

pub resolve_all-GivesFits : (us : List Update) → GivesFits (resolve_all us)
unfolding resolve_all GivesFits
resolve_all-GivesFits [] = tt
resolve_all-GivesFits ((some c, some v) ∷ us) =
    put_first-GivesFits c (resolve c v) (resolve_all us) (resolve-GivesFit c v)
      (resolve_all-GivesFits us)
resolve_all-GivesFits ((some c, none) ∷ us) = resolve_all-GivesFits us
resolve_all-GivesFits ((none, v) ∷ us) = resolve_all-GivesFits us

set_cell-IsTyped :
    (c : Column) (v : Value) (n : HardwareNode) → Fits c v → IsTyped n → IsTyped (set_cell c v n)
unfolding set_cell
set_cell-IsTyped c v n f t = record {
  typed_role = if_lem AsRole (same_column role c) f.as_role (λ _. t.typed_role);
  typed_status = if_lem AsStatus (same_column status c) f.as_status (λ _. t.typed_status);
}

module _ (equal : Json → Json → Bool) where
  pub edit_all-IsTyped :
      (now : ℕ) (actor : String) (vs : List (Column × Value)) (n : HardwareNode)
      → All (λ u. Fits u.0 u.1) vs
      → IsTyped n
      → IsTyped (edit_all equal now actor vs n).0
  unfolding edit_all
  edit_all-IsTyped now actor [] n fits t = t
  edit_all-IsTyped now actor ((c, v) ∷ vs) n (f, fits) t =
      if_lem {A = HardwareNode × List HardwareChangeEvent} (λ p. IsTyped p.0)
        (same_value equal (n.cell c) v) (λ _. edit_all-IsTyped now actor vs n fits t)
        (λ _. edit_all-IsTyped now actor vs (set_cell c v n) fits (set_cell-IsTyped c v n f t))
