-- ===== src/Table/Budget.antt =====
-- A row that is open may be resolved once. `left k rows` is how many resolutions the id `k` has
-- left: one until its row is resolved, also while no row has that id. No statement raises it.
use mathlib.Core.Option
use homelab_registry_mcp.Prelude.{
  String, Bool, Option, List, ℕ, ◌≤◌, ◌≡◌, or_else, ◌++◌, arith, false, ◌∷◌, if◌then◌else◌, some,
  [], true, ◌&&◌, ap, none, str_eq,
}
use homelab_registry_mcp.Table.{get, update, sweep, has_key, first}
use homelab_registry_mcp.Table.Laws.{first-update, sweep-eq, first-append}

module _ {ℓ} {Row : Type ℓ} (key : Row → String) (is_open : Row → Bool) where
  abbrev pub left_of : Option Row → ℕ
  left_of none = 1
  left_of (some r) = if is_open r then 1 else 0

  abbrev pub left : String → List Row → ℕ
  left k rows = left_of (get key k rows)

  pub left_of-le-one : (found : Option Row) → left_of found ≤ 1
  left_of-le-one none = omega arith
  left_of-le-one (some r) = ground arith

  left_of-map :
      (p : Row → Bool) (f : Row → Row) (found : Option Row)
      → ((r : Row) → is_open r ≡ false → is_open (f r) ≡ false)
      → left_of (Option.map (λ r. if p r then f r else r) found) ≤ left_of found
  left_of-map p f none h = omega arith
  left_of-map p f (some r) h = ground (arith, h r)

  -- An UPDATE that opens no row.
  pub left-update :
      (k : String) (p : Row → Bool) (f : Row → Row) (rows : List Row)
      → ((r : Row) → key (f r) ≡ key r)
      → ((r : Row) → is_open r ≡ false → is_open (f r) ≡ false)
      → left k (update p f rows) ≤ left k rows
  left-update k p f rows same shuts =
      rw (first-update (has_key key k) p f rows (λ r. ap (λ s. str_eq s k) (same r)))
        (left_of-map p f (get key k rows) shuts)

  -- An UPDATE that reaches the row and closes it.
  pub left-update_self :
      (k : String) (p : Row → Bool) (f : Row → Row) (rows : List Row) (c : Row)
      → ((r : Row) → key (f r) ≡ key r)
      → get key k rows ≡ some c
      → p c ≡ true
      → is_open (f c) ≡ false
      → left k (update p f rows) ≡ 0
  left-update_self k p f rows c same found hit shut =
      rw (first-update (has_key key k) p f rows (λ r. ap (λ s. str_eq s k) (same r)))
        (rw (found, hit, shut))

  pub left-sweep :
      (k : String) (p q : Row → Bool) (f : Row → Row) (rows : List Row)
      → ((r : Row) → key (f r) ≡ key r)
      → ((r : Row) → is_open r ≡ false → is_open (f r) ≡ false)
      → left k (sweep p q f rows).0 ≤ left k rows
  left-sweep k p q f rows same shuts =
      rw (sweep-eq p q f rows) (left-update k (λ r. p r && q r) f rows same shuts)

  left_of-or_else : (found more : Option Row) → left_of (or_else found more) ≤ left_of found
  left_of-or_else none more = left_of-le-one more
  left_of-or_else (some r) more = omega arith

  pub left-add : (k : String) (r : Row) (rows : List Row) → left k (rows ++ r ∷ []) ≤ left k rows
  left-add k r rows =
      rw (first-append (has_key key k) rows (r ∷ []))
        (left_of-or_else (get key k rows) (first (has_key key k) (r ∷ [])))
