-- ===== src/Deletion/Confirm.antt =====
-- What `confirm` accepts, and what it writes.
use homelab_registry_mcp.Prelude.{
  ℕ, ◌+◌, ◌≤◌, String, ◌≡◌, ◌↔◌, refl, Option, none, some, List, ℤ, pos, int_eq_iff, ok, arith, ◌*◌,
  eq_refl,
}
use homelab_registry_mcp.Table.{get, first}
use homelab_registry_mcp.Deletion.{
  PendingDeletion, DeletionEntityType, pending, confirmed, confirm, confirm_found, request, minute,
  has_key,
}
use homelab_registry_mcp.Table.Laws.{first-append}

-- What a caller must get right: the tool, the time and the sum.
pub record Solves (now : ℕ) (entity_type : DeletionEntityType) (answer : ℤ) (c : PendingDeletion)
    : Type 0 where
  pub tool : c.entity_type ≡ entity_type
  pub open_still : c.status ≡ pending
  pub in_time : now ≤ c.expires_at
  pub sum : answer ≡ pos (c.x + c.y)

module _ (now : ℕ) (rid : String) (ty : DeletionEntityType) (answer : ℤ) where
  confirm_found_ok :
      (found : Option PendingDeletion) (rows : List PendingDeletion) (out : PendingDeletion)
      → ((confirm_found now rid ty answer found rows).0 ≡ ok out) ↔ (
          (c : PendingDeletion) × (found ≡ some c)
          × Solves now ty answer c
          × (out ≡ record c { status = confirmed }))
  unfolding confirm_found
  confirm_found_ok none rows out = (λ h. cc, λ h. cc (h.1))
  confirm_found_ok (some c) rows out = (
    λ h. (c, refl, ground (arith, int_eq_iff answer (pos (c.x + c.y))), ground arith),
    λ h. ground (arith, int_eq_iff answer (pos (c.x + c.y))),
  )

  -- `confirm` returns a challenge exactly when the id names one that the caller solves, and what
  -- it returns is that challenge with its status changed.
  pub confirm_ok :
      (rows : List PendingDeletion) (out : PendingDeletion)
      → ((confirm now rid ty answer rows).0 ≡ ok out) ↔ (
          (c : PendingDeletion) × (get (λ r. r.id) rid rows ≡ some c)
          × Solves now ty answer c
          × (out ≡ record c { status = confirmed }))
  unfolding confirm
  confirm_ok rows out = confirm_found_ok (get (λ r. r.id) rid rows) rows out

-- What a request returns is what it stores: the id that was new names it.
get-request :
    (now : ℕ) (id : String) (x y : ℕ) (ty : DeletionEntityType) (eid label actor : String) (ttl : ℕ)
    (rows : List PendingDeletion)
    → get (λ r. r.id) id rows ≡ none
    → get (λ r. r.id) id (request now id x y ty eid label actor ttl rows).1
      ≡ some (request now id x y ty eid label actor ttl rows).0
unfolding request first
get-request now id x y ty eid label actor ttl rows new =
    rw (first-append (has_key (λ r. r.id) id) rows _) (rw (new, eq_refl id))

-- A fresh challenge answered with its sum, before its time and for the tool that issued it, is
-- accepted, and names the entity that was asked for.
pub confirm-request :
    (now later : ℕ) (id : String) (x y : ℕ) (ty : DeletionEntityType) (eid label actor : String)
    (ttl : ℕ) (rows : List PendingDeletion)
    → get (λ r. r.id) id rows ≡ none
    → later ≤ now + ttl * minute
    → let (challenge, rows') = request now id x y ty eid label actor ttl rows in
      ((confirm later id ty (pos (challenge.x + challenge.y)) rows').0
        ≡ ok (record challenge { status = confirmed }))
      × (challenge.entity_id ≡ eid)
      × (challenge.entity_type ≡ ty)
unfolding request
confirm-request now later id x y ty eid label actor ttl rows new soon =
    let (c, rows') = request now id x y ty eid label actor ttl rows in
    (
      (confirm_ok later id ty (pos (x + y)) rows' (record c { status = confirmed })).1 (
        c,
        get-request now id x y ty eid label actor ttl rows new,
        record { tool = refl; open_still = refl; in_time = soon; sum = refl },
        refl,
      ),
      refl,
      refl,
    )
