-- ===== src/Patching/Store/Claiming.antt =====
-- The UPDATE of `consume`, seen through the ids, and what is made of its row count.
use mathlib.Core.Option
use homelab_registry_mcp.Table.Unique
use homelab_registry_mcp.Prelude.{
  String, false, if◌then◌else◌, ltb, refl, some, ℕ, ◌&&◌, ◌<◌, ◌≡◌, Bool-cases, Option, ap, arith,
  eq_refl, inl, inr, none, str_eq, ◌||◌, ◌∙◌, ◌⊎◌, true, eq_iff, sym, ◌≢◌,
}
use homelab_registry_mcp.Patching.Store.{
  ApprovalAction, PatchApproval, Rows, claim, claim_row, claimable, has_token, id_of, is_pending,
  is_valid, pending, resolve, settle, valid, TokenState, check, classify, invalid, lost,
  max_token_chars, out_of_time, used, count, same,
}
use homelab_registry_mcp.Table.{first, get, Unique, has_key}
use homelab_registry_mcp.Table.Laws.{first-update, first-test}

-- The UPDATE of a click, seen through the ids.
pub get-claim :
    (now : ℕ) (k rid : String) (action : ApprovalAction) (rows : Rows)
    → get id_of k (claim now rid action rows).1
      ≡ Option.map
          (λ r. if claimable now rid r then claim_row now action r else r)
          (get id_of k rows)
unfolding claim
get-claim now k rid action rows =
    first-update (has_key id_of k) (claimable now rid) (claim_row now action) rows (λ r. refl)

pub claim-moved :
    (now : ℕ) (rid : String) (action : ApprovalAction) (rows : Rows) (a : PatchApproval)
    → Unique id_of rows
    → get id_of rid rows ≡ some a
    → (claim now rid action rows).0 ≡ (if is_pending a.status && ltb now a.expires_at then 1 else 0)
unfolding claim
claim-moved now rid action rows a u e =
    rw (Unique.rowcount-get id_of rid (λ r. is_pending r.status && ltb now r.expires_at) rows u)
      (rw e)

pub settle-claimed :
    (now : ℕ) (action : ApprovalAction) (rows : Rows) (a : PatchApproval)
    → Unique id_of rows
    → get id_of a.id rows ≡ some a
    → a.status ≡ pending
    → now < a.expires_at
    → ((settle a.id (claim now a.id action rows).0 (claim now a.id action rows).1).0
        ≡ record { state = valid; approval = some (claim_row now action a) })
      × (get id_of a.id
            (settle a.id (claim now a.id action rows).0 (claim now a.id action rows).1).1
          ≡ some (claim_row now action a))
unfolding settle
settle-claimed now action rows a u named open_still in_time =
    let moved : (claim now a.id action rows).0 ≡ 1 =
      claim-moved now a.id action rows a u named ∙ ground arith in
    let written : get id_of a.id (claim now a.id action rows).1 ≡ some (claim_row now action a) =
      get-claim now a.id a.id action rows ∙ rw named (ground (arith, eq_refl a.id)) in
    rw moved (ap (λ t. record { state = valid; approval = t }) written, written)

-- The UPDATE on a row of another id.
pub map-elsewhere :
    (now : ℕ) (action : ApprovalAction) (rid k : String) (found : Option PatchApproval)
    → ((r : PatchApproval) → found ≡ some r → str_eq r.id k ≡ true)
    → k ≢ rid
    → Option.map (λ r. if claimable now rid r then claim_row now action r else r) found ≡ found
map-elsewhere now action rid k none keyed other = refl
map-elsewhere now action rid k (some r) keyed other = elim (Bool-cases (str_eq r.id rid)) [
  | inl same ↦ absurd (other (sym ((eq_iff r.id k).0 (keyed r refl)) ∙ (eq_iff r.id rid).0 same))
  | inr apart ↦ ground (arith, apart)
]

pub settle-others :
    (now : ℕ) (action : ApprovalAction) (rows : Rows) (a : PatchApproval) (k : String)
    → Unique id_of rows
    → get id_of a.id rows ≡ some a
    → a.status ≡ pending
    → now < a.expires_at
    → k ≢ a.id
    → get id_of k (settle a.id (claim now a.id action rows).0 (claim now a.id action rows).1).1
      ≡ get id_of k rows
unfolding settle
settle-others now action rows a k u named open_still in_time other =
    let moved : (claim now a.id action rows).0 ≡ 1 =
      claim-moved now a.id action rows a u named ∙ ground arith in
    rw moved (
      get-claim now k a.id action rows
      ∙ map-elsewhere now action a.id k (get id_of k rows)
          (λ r found. first-test (has_key id_of k) rows {r = r} found) other)

-- An UPDATE that moved no row is never reported as a click that acted.
pub settle-loses : (rid : String) (rows : Rows) → is_valid (settle rid 0 rows).0.state ≡ false
unfolding settle lost
settle-loses rid rows = ground arith

pub resolve-loses :
    (now : ℕ) (action : ApprovalAction) (later : Rows → Rows) (s : TokenState) (a : PatchApproval)
    (rows : Rows)
    → (claim now a.id action rows).0 ≡ 0
    → is_valid (resolve now action later s (some a) rows).0.state ≡ false
unfolding resolve
resolve-loses now action later valid a rows none_moved =
    rw none_moved (settle-loses a.id (later (claim now a.id action rows).1))
resolve-loses now action later invalid a rows none_moved = refl
resolve-loses now action later out_of_time a rows none_moved = refl
resolve-loses now action later used a rows none_moved = refl

pub resolve-invalid :
    (now : ℕ) (action : ApprovalAction) (later : Rows → Rows) (found : Option PatchApproval)
    (rows : Rows)
    → is_valid (resolve now action later invalid found rows).0.state ≡ false
unfolding resolve
resolve-invalid now action later none rows = refl
resolve-invalid now action later (some a) rows = refl

pub classify-names : (now : ℕ) (a : PatchApproval) → (classify now (some a)).approval ≡ some a
unfolding classify
classify-names now a = ground arith

-- A check of an issued token names its approval, or refuses the token for its length.
pub check-issued :
    (sha256 : String → String) (now : ℕ) (token : String) (action : ApprovalAction) (rows : Rows)
    (a : PatchApproval)
    → first (has_token sha256 token action) rows ≡ some a
    → (check sha256 now token action rows ≡ record { state = invalid; approval = none })
      ⊎ ((check sha256 now token action rows).approval ≡ some a)
unfolding check
check-issued sha256 now token action rows a issued =
    elim (Bool-cases (str_eq token "" || ltb max_token_chars (count token))) [
      | inl long ↦ inl (rw long)
      | inr fits ↦ inr (rw (fits, issued) (classify-names now a))
    ]
