-- ===== src/Deletion/Purge.antt =====
-- What `purge_expired` marks.
use mathlib.Core.Option
use homelab_registry_mcp.Prelude.{ℕ, String, ◌≡◌, refl, Bool, ◌&&◌, List, if◌then◌else◌}
use homelab_registry_mcp.Table.{rowcount, get, has_key}
use homelab_registry_mcp.Table.Laws.{rowcount-update_self, first-update, sweep-eq}
use homelab_registry_mcp.Deletion.{PendingDeletion, expired, is_pending, is_past, purge_expired}

-- The row that a sweep at `now` leaves in place of `r`.
abbrev pub swept : ℕ → PendingDeletion → PendingDeletion
swept now r =
    if is_pending r.status && is_past now r.expires_at then record r { status = expired } else r

abbrev pub is_overdue : ℕ → PendingDeletion → Bool
is_overdue now r = is_pending r.status && is_past now r.expires_at

-- The sweep marks the pending rows past their time as expired, each of them and no other row, and
-- returns their number; and no pending row past its time is left.
pub purge_expired_lem :
    (now : ℕ) (rows : List PendingDeletion) (k : String)
    → (get (λ r. r.id) k (purge_expired now rows).0
        ≡ Option.map (swept now) (get (λ r. r.id) k rows))
      × ((purge_expired now rows).1 ≡ rowcount (is_overdue now) rows)
      × (rowcount (is_overdue now) (purge_expired now rows).0 ≡ 0)
unfolding purge_expired
purge_expired_lem now rows k =
    rw
      (sweep-eq (λ r. is_pending r.status) (λ r. is_past now r.expires_at)
        (λ r. record r { status = expired }) rows)
      (
        first-update (has_key (λ r. r.id) k) _ _ rows (λ r. refl),
        refl,
        rowcount-update_self (is_overdue now) (λ r. record r { status = expired }) rows (λ r. refl),
      )
