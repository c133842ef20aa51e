-- ===== src/Deletion/Once.antt =====
-- Any sequence of calls on the store, and how often a challenge can be accepted in it.
use homelab_registry_mcp.Table.Budget
use homelab_registry_mcp.Prelude.{
  ℕ, List, Result, String, Bool, if◌then◌else◌, ◌∷◌, ◌≤◌, ℤ, str_eq, ◌+◌, ◌≡◌, arith, false, some,
  Option, refl, Bool-cases, [], eq_iff, err, inl, inr, none, ok, true,
}
use homelab_registry_mcp.Table.{get, has_key}
use homelab_registry_mcp.Deletion.{
  PendingDeletion, DeletionEntityType, request, PendingDeletionStatus, confirm_found, purge_expired,
  confirm, is_pending, is_past, set_status, expired, confirmed, failed,
}
use homelab_registry_mcp.Table.Laws.{first-test}

-- One call of a method, at the time that its clock reads.
pub data Call : Type 0 where
  request_call : ℕ → String → ℕ → ℕ → DeletionEntityType → String → String → String → ℕ → Call
  confirm_call : ℕ → String → DeletionEntityType → ℤ → Call
  purge_call : ℕ → Call

unfoldable pub after : Call → List PendingDeletion → List PendingDeletion
after (request_call now id x y ty eid label actor ttl) rows =
    (request now id x y ty eid label actor ttl rows).1
after (confirm_call now rid ty answer) rows = (confirm now rid ty answer rows).1
after (purge_call now) rows = (purge_expired now rows).0

abbrev is_ok {ℓ κ} : {E : Type κ} {A : Type ℓ} → Result E A → Bool
is_ok (ok a) = true
is_ok (err e) = false

-- 1 if the call is a `confirm` of this challenge that returns.
unfoldable pub accepted : String → Call → List PendingDeletion → ℕ
accepted k (confirm_call now rid ty answer) rows =
    if str_eq rid k then if is_ok (confirm now rid ty answer rows).0 then 1 else 0 else 0
accepted k _ rows = 0

unfoldable pub accepted_all : String → List Call → List PendingDeletion → ℕ
accepted_all k [] rows = 0
accepted_all k (c ∷ calls) rows = accepted k c rows + accepted_all k calls (after c rows)

abbrev still_open : PendingDeletion → Bool
still_open r = is_pending r.status

-- One acceptance is left until the row of that id has left `pending`.
abbrev left : String → List PendingDeletion → ℕ
left = Budget.left (λ r. r.id) still_open

module _ (k : String) where
  left-set_status :
      (s : PendingDeletionStatus) (rid : String) (rows : List PendingDeletion)
      → is_pending s ≡ false
      → left k (set_status s rid rows) ≤ left k rows
  left-set_status s rid rows h =
      Budget.left-update (λ r. r.id) still_open k (has_key (λ r. r.id) rid)
        (λ r. record r { status = s }) rows (λ r. refl) (λ r _. h)

  left-set_status_self :
      (s : PendingDeletionStatus) (c : PendingDeletion) (rows : List PendingDeletion)
      → get (λ r. r.id) k rows ≡ some c
      → is_pending s ≡ false
      → left k (set_status s k rows) ≡ 0
  left-set_status_self s c rows e h =
      Budget.left-update_self (λ r. r.id) still_open k (has_key (λ r. r.id) k)
        (λ r. record r { status = s }) rows c (λ r. refl) e
        (first-test (has_key (λ r. r.id) k) rows e) h

  confirm_found-left :
      (now : ℕ) (rid : String) (ty : DeletionEntityType) (answer : ℤ)
      (found : Option PendingDeletion) (rows : List PendingDeletion)
      → get (λ r. r.id) rid rows ≡ found
      → (if str_eq rid k
            then if is_ok (confirm_found now rid ty answer found rows).0 then 1 else 0
            else 0)
          + left k (confirm_found now rid ty answer found rows).1
        ≤ left k rows
  unfolding confirm_found
  confirm_found-left now rid ty answer none rows e = ground arith
  confirm_found-left now rid ty answer (some c) rows e = elim (Bool-cases (str_eq rid k)) [
    | inl same ↦
        let e' : get (λ r. r.id) k rows ≡ some c = rw (← (eq_iff rid k).0 same) e in
        ground (
          arith,
          e',
          (eq_iff rid k).0 same,
          left-set_status confirmed rid rows refl,
          left-set_status expired rid rows refl,
          left-set_status failed rid rows refl,
          left-set_status_self confirmed c rows e' refl,
        )
    | inr other ↦ ground (
      arith,
      left-set_status confirmed rid rows refl,
      left-set_status expired rid rows refl,
      left-set_status failed rid rows refl,
    )
  ]

  purge_expired-left :
      (now : ℕ) (rows : List PendingDeletion) → left k (purge_expired now rows).0 ≤ left k rows
  unfolding purge_expired
  purge_expired-left now rows =
      Budget.left-sweep (λ r. r.id) still_open k (λ r. is_pending r.status)
        (λ r. is_past now r.expires_at) (λ r. record r { status = expired }) rows (λ r. refl)
        (λ r _. refl)

  after-left :
      (c : Call) (rows : List PendingDeletion)
      → accepted k c rows + left k (after c rows) ≤ left k rows
  unfolding accepted after confirm request purge_expired
  after-left (confirm_call now rid ty answer) rows =
      confirm_found-left now rid ty answer (get (λ r. r.id) rid rows) rows refl
  after-left (request_call now id x y ty eid label actor ttl) rows = omega (
    arith,
    Budget.left-add (λ r. r.id) still_open k (request now id x y ty eid label actor ttl rows).0
        rows,
  )
  after-left (purge_call now) rows = omega (arith, purge_expired-left now rows)

  accepted_all-left :
      (calls : List Call) (rows : List PendingDeletion) → accepted_all k calls rows ≤ left k rows
  unfolding accepted_all
  accepted_all-left [] rows = omega arith
  accepted_all-left (c ∷ calls) rows =
      omega (arith, after-left c rows, accepted_all-left calls (after c rows))

-- In any sequence of requests, confirmations and sweeps, by any callers and at any times, the
-- store accepts the challenge of one id at most once.
pub accepted_all-le-one :
    (k : String) (calls : List Call) (rows : List PendingDeletion) → accepted_all k calls rows ≤ 1
accepted_all-le-one k calls rows = omega (
  arith,
  accepted_all-left k calls rows,
  Budget.left_of-le-one (λ r. r.id) still_open (get (λ r. r.id) k rows),
)

-- A challenge of the table that is no longer pending is not accepted by any later sequence of
-- requests, confirmations and sweeps.
pub accepted_all-resolved :
    (k : String) (calls : List Call) (rows : List PendingDeletion) (c : PendingDeletion)
    → get (λ r. r.id) k rows ≡ some c
    → is_pending c.status ≡ false
    → accepted_all k calls rows ≡ 0
accepted_all-resolved k calls rows c e h =
    let spent : left k rows ≡ 0 = rw e (rw h) in omega (arith, accepted_all-left k calls rows)
