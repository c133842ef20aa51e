-- ===== src/Adoption/Expiry.antt =====
-- How long `get_pending` hands a draft out, and what the sweep changes about that.
use mathlib.Core.Option
use homelab_registry_mcp.Table.Laws.{first-update, first-test, sweep-eq}
use homelab_registry_mcp.Prelude.{
  List, Option, String, arith, if◌then◌else◌, none, some, ℕ, ◌&&◌, ◌↔◌, ◌≡◌, ◌≤◌, refl,
}
use homelab_registry_mcp.Adoption.{
  AdoptionDraft, expired, get_draft, get_pending, get_pending_found, is_past, is_pending, pending,
  purge_expired, set_status, id_of,
}
use homelab_registry_mcp.Table.{has_key}

-- A draft that a human may still decide on at `now`.
pub record IsOpen (now : ℕ) (draft : AdoptionDraft) : Type 0 where
  pub open_still : draft.status ≡ pending
  pub in_time : now ≤ draft.expires_at

module _ (now : ℕ) (draft_id : String) where
  get_pending_found-some :
      (found : Option AdoptionDraft) (rows : List AdoptionDraft) (out : AdoptionDraft)
      → ((get_pending_found now draft_id found rows).0 ≡ some out)
        ↔ ((found ≡ some out) × IsOpen now out)
  unfolding get_pending_found
  get_pending_found-some none rows out = (λ h. cc, λ h. cc (h.0))
  get_pending_found-some (some d) rows out = (λ h. ground arith, λ h. ground arith)

  -- `get_pending` returns a draft exactly when the id names that draft, it is pending, and its time
  -- has not passed.
  pub get_pending-some :
      (rows : List AdoptionDraft) (out : AdoptionDraft)
      → ((get_pending now draft_id rows).0 ≡ some out)
        ↔ ((get_draft draft_id rows ≡ some out) × IsOpen now out)
  unfolding get_pending
  get_pending-some rows out = get_pending_found-some (get_draft draft_id rows) rows out

  -- The row that a call at `now` for `draft_id` leaves in place of `d`.
  abbrev pub lapsed : AdoptionDraft → AdoptionDraft
  lapsed d =
      if is_pending d.status && is_past now d.expires_at then record d { status = expired } else d

  get-get_pending_found :
      (found : Option AdoptionDraft) (rows : List AdoptionDraft)
      → get_draft draft_id rows ≡ found
      → get_draft draft_id (get_pending_found now draft_id found rows).1 ≡ Option.map lapsed found
  unfolding get_pending_found set_status
  get-get_pending_found none rows e = e
  get-get_pending_found (some d) rows e = rw e (
      ground (
        arith,
        e,
        first-update (has_key id_of draft_id) (has_key id_of draft_id)
            (λ r. record r { status = expired }) rows (λ r. refl),
        first-test (has_key id_of draft_id) rows {r = d} e,
      ))

  -- After `get_pending` the draft it was asked for is what it was, save that a pending one past its
  -- time is now expired.
  pub get-get_pending :
      (rows : List AdoptionDraft)
      → get_draft draft_id (get_pending now draft_id rows).1
        ≡ Option.map lapsed (get_draft draft_id rows)
  unfolding get_pending
  get-get_pending rows = get-get_pending_found (get_draft draft_id rows) rows refl

-- A draft that an earlier sweep has seen is handed out as before.
get_pending_found-swept :
    (earlier now : ℕ) (k : String) (found : Option AdoptionDraft) (swept rows : List AdoptionDraft)
    → earlier ≤ now
    → (get_pending_found now k (Option.map (lapsed earlier k) found) swept).0
      ≡ (get_pending_found now k found rows).0
unfolding get_pending_found
get_pending_found-swept earlier now k none swept rows h = refl
get_pending_found-swept earlier now k (some d) swept rows h = ground arith

-- Whether a draft is handed out does not depend on when the sweep last ran: a sweep at an earlier
-- time, or at the same time, leaves the result of `get_pending` as it was, for every id.
pub get_pending-purge_expired :
    (earlier now : ℕ) (draft_id : String) (rows : List AdoptionDraft)
    → earlier ≤ now
    → (get_pending now draft_id (purge_expired earlier rows).0).0
      ≡ (get_pending now draft_id rows).0
unfolding get_pending purge_expired
get_pending-purge_expired earlier now k rows h =
    rw
      (sweep-eq (λ r. is_pending r.status) (λ r. is_past earlier r.expires_at)
        (λ r. record r { status = expired }) rows)
      (rw
        (first-update (has_key id_of k) (λ r. is_pending r.status && is_past earlier r.expires_at)
          (λ r. record r { status = expired }) rows (λ r. refl))
        (get_pending_found-swept earlier now k (get_draft k rows) _ rows h))
