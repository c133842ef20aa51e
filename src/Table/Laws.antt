-- ===== src/Table/Laws.antt =====
-- How the statements on a table act on the row that a lookup finds.
use mathlib.Core.Option
use homelab_registry_mcp.Prelude.{
  ◌≡◌, refl, Bool, true, false, ◌&&◌, some, List, [], ◌∷◌, ◌++◌, arith, if◌then◌else◌, or_else, map,
  Bool-cases, inl, inr, none, ap, All, if_lem, ◌+◌, ◌∙◌, ◌≤◌, String, str_eq, ◌⊎◌,
}
use homelab_registry_mcp.Table.{first, update, rowcount, sweep, add, delete, get}

module _ {ℓ} {Row : Type ℓ} where
  -- An UPDATE that keeps a lookup's test changes the row found, and which row is found it keeps.
  pub first-update :
      (q p : Row → Bool) (f : Row → Row) (rows : List Row)
      → ((r : Row) → q (f r) ≡ q r)
      → first q (update p f rows) ≡ Option.map (λ r. if p r then f r else r) (first q rows)
  unfolding first update
  first-update q p f [] keeps = refl
  first-update q p f (r ∷ rows) keeps = ground (arith, keeps r, first-update q p f rows keeps)

  pub first-append :
      (q : Row → Bool) (rows more : List Row)
      → first q (rows ++ more) ≡ or_else (first q rows) (first q more)
  unfolding first
  first-append q [] more = refl
  first-append q (r ∷ rows) more = ground (arith, first-append q rows more)

  pub first-test : (q : Row → Bool) (rows : List Row) {r : Row} → first q rows ≡ some r → q r ≡ true
  unfolding first
  first-test q [] h = cc
  first-test q (r ∷ rows) {r = found} h = ground (arith, first-test q rows {r = found})

  -- A narrower test finds nothing where the wider one does not.
  pub first-none :
      (p q : Row → Bool) (rows : List Row)
      → ((r : Row) → q r ≡ true → p r ≡ true)
      → first p rows ≡ none
      → first q rows ≡ none
  unfolding first
  first-none p q [] narrower h = refl
  first-none p q (r ∷ rows) narrower h = elim (Bool-cases (q r)) [
    | inl hit ↦ ground (arith, h, narrower r hit)
    | inr miss ↦ elim (Bool-cases (p r)) [
      | inl wide ↦ ground (arith, h, wide)
      | inr out ↦ ground (arith, miss, out, h, first-none p q rows narrower)
    ]
  ]

  pub update-append :
      (p : Row → Bool) (f : Row → Row) (rows more : List Row)
      → update p f (rows ++ more) ≡ update p f rows ++ update p f more
  unfolding update
  update-append p f [] more = refl
  update-append p f (r ∷ rows) more =
      ap (λ rest. (if p r then f r else r) ∷ rest) (update-append p f rows more)

  -- An UPDATE whose rows the test does not pass makes it find no more.
  pub first-update-none :
      (q p : Row → Bool) (f : Row → Row) (rows : List Row)
      → ((r : Row) → q (f r) ≡ false)
      → first q rows ≡ none
      → first q (update p f rows) ≡ none
  unfolding first update
  first-update-none q p f [] out h = refl
  first-update-none q p f (r ∷ rows) out h = elim (Bool-cases (q r)) [
    | inl hit ↦ ground (arith, h, hit)
    | inr miss ↦ ground (arith, h, miss, out r, first-update-none q p f rows out)
  ]

  -- An UPDATE whose rows leave a test counts no more of them, and one fewer where it finds the
  -- first of them.
  pub rowcount-update_out :
      (q p : Row → Bool) (f : Row → Row) (rows : List Row)
      → ((r : Row) → q (f r) ≡ false)
      → rowcount q (update p f rows) ≤ rowcount q rows
  unfolding rowcount update
  rowcount-update_out q p f [] out = omega arith
  rowcount-update_out q p f (r ∷ rows) out =
      let more = rowcount-update_out q p f rows out in
      elim (Bool-cases (p r)) [
        | inl hit ↦ ground (arith, hit, out r, more)
        | inr miss ↦ ground (arith, miss, more)
      ]

  pub rowcount-update-first :
      (q p : Row → Bool) (f : Row → Row) (rows : List Row) {a : Row}
      → ((r : Row) → q (f r) ≡ false)
      → first q rows ≡ some a
      → p a ≡ true
      → rowcount q (update p f rows) + 1 ≤ rowcount q rows
  unfolding rowcount update first
  rowcount-update-first q p f [] out found hit = cc
  rowcount-update-first q p f (r ∷ rows) {a = a} out found hit = elim (Bool-cases (q r)) [
    | inl there ↦
        let is_r : r ≡ a = ground (arith, there, found) in
        ground (arith, there, out r, rowcount-update_out q p f rows out, ap p is_r ∙ hit)
    | inr miss ↦
        let more = rowcount-update-first q p f rows {a = a} out (ground (arith, miss, found)) hit in
        elim (Bool-cases (p r)) [
          | inl hits ↦ ground (arith, hits, miss, out r, more)
          | inr passes ↦ ground (arith, passes, miss, more)
        ]
  ]

  pub rowcount-first-none :
      (q : Row → Bool) (rows : List Row) → first q rows ≡ none → rowcount q rows ≡ 0
  unfolding rowcount first
  rowcount-first-none q [] h = refl
  rowcount-first-none q (r ∷ rows) h = ground (arith, h, rowcount-first-none q rows)

  pub rowcount-add :
      (q : Row → Bool) (r : Row) (rows : List Row)
      → rowcount q (add r rows) ≡ rowcount q rows + (if q r then 1 else 0)
  unfolding rowcount
  rowcount-add q r [] = omega arith
  rowcount-add q r (s ∷ rows) = let h = rowcount-add q r rows in omega arith

  -- A row that is found is found by its key, too.
  pub first-get-none :
      (key : Row → String) (q : Row → Bool) (rows : List Row) (a : Row)
      → get key (key a) rows ≡ none
      → first q rows ≡ none
        ⊎ ((b : Row) × (first q rows ≡ some b) × (str_eq (key b) (key a) ≡ false))
  unfolding first
  first-get-none key q [] a h = inl refl
  first-get-none key q (r ∷ rows) a h = elim (Bool-cases (q r)) [
    | inl hit ↦ inr (r, ground (arith, hit), ground (arith, h))
    | inr miss ↦ elim (first-get-none key q rows a (ground (arith, h))) [
      | inl nothing ↦ inl (ground (arith, miss, nothing))
      | inr (b, found, apart) ↦ inr (b, ground (arith, miss, found), apart)
    ]
  ]

  -- What holds of every row, and how the statements keep it.
  pub All-update {κ} :
      (P : Row → Type κ) (p : Row → Bool) (f : Row → Row) (rows : List Row)
      → ((r : Row) → P r → P (f r))
      → All P rows
      → All P (update p f rows)
  unfolding update
  All-update P p f [] keeps all = tt
  All-update P p f (r ∷ rows) keeps (h, all) =
      (if_lem P (p r) (λ _. keeps r h) (λ _. h), All-update P p f rows keeps all)

  pub All-delete {κ} :
      (P : Row → Type κ) (p : Row → Bool) (rows : List Row) → All P rows → All P (delete p rows)
  unfolding delete
  All-delete P p [] all = tt
  All-delete P p (r ∷ rows) (h, all) =
      let rest = All-delete P p rows all in if_lem (All P) (p r) (λ _. rest) (λ _. (h, rest))

  pub All-add {κ} :
      (P : Row → Type κ) (r : Row) (rows : List Row) → All P rows → P r → All P (add r rows)
  All-add P r [] all h = (h, tt)
  All-add P r (s ∷ rows) (k, all) h = (k, All-add P r rows all h)

  -- The loop is the UPDATE of the rows that pass both tests, and counts them.
  pub sweep-eq :
      (p q : Row → Bool) (f : Row → Row) (rows : List Row)
      → sweep p q f rows ≡ (update (λ r. p r && q r) f rows, rowcount (λ r. p r && q r) rows)
  unfolding sweep update rowcount
  sweep-eq p q f [] = refl
  sweep-eq p q f (r ∷ rows) = ground (arith, sweep-eq p q f rows)

  -- An UPDATE that ends its own test leaves no row for it.
  pub rowcount-update_self :
      (p : Row → Bool) (f : Row → Row) (rows : List Row)
      → ((r : Row) → p (f r) ≡ false)
      → rowcount p (update p f rows) ≡ 0
  unfolding update rowcount
  rowcount-update_self p f [] h = refl
  rowcount-update_self p f (r ∷ rows) h = ground (arith, h r, rowcount-update_self p f rows h)

module _ {ℓ κ} {A : Type ℓ} {B : Type κ} (f : A → B) where
  -- A lookup and an UPDATE, seen through a view of the rows.
  pub first-map :
      (p : A → Bool) (q : B → Bool) (rows : List A)
      → ((r : A) → q (f r) ≡ p r)
      → first q (map f rows) ≡ Option.map f (first p rows)
  unfolding first
  first-map p q [] same = refl
  first-map p q (r ∷ rows) same = ground (arith, same r, first-map p q rows same)

  pub update-map :
      (p : A → Bool) (q : B → Bool) (g : A → A) (h : B → B) (rows : List A)
      → ((r : A) → q (f r) ≡ p r)
      → ((r : A) → h (f r) ≡ f (g r))
      → update q h (map f rows) ≡ map f (update p g rows)
  unfolding update
  update-map p q g h [] same follows = refl
  update-map p q g h (r ∷ rows) same follows =
      ground (arith, same r, follows r, update-map p q g h rows same follows)
