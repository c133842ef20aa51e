-- ===== src/Table/Unique.antt =====
-- Tables whose rows have different primary keys.
use homelab_registry_mcp.Prelude.{
  ℕ, String, ◌≡◌, refl, Bool, ◌&&◌, Option, none, some, List, [], ◌∷◌, arith, eq_iff, if◌then◌else◌,
  Bool-cases, inl, inr, ◌++◌, ◌+◌, eq_refl, false, str_eq, subst, sym, if_lem,
}
use homelab_registry_mcp.Table.{first, rowcount, get, has_key, Unique, add, update, sweep, delete}
use homelab_registry_mcp.Table.Laws.{sweep-eq}

module _ {ℓ} {Row : Type ℓ} where
  pub rowcount-zero :
      (p q : Row → Bool) (rows : List Row)
      → rowcount p rows ≡ 0
      → rowcount (λ r. p r && q r) rows ≡ 0
  unfolding rowcount
  rowcount-zero p q [] h = refl
  rowcount-zero p q (r ∷ rows) h = ground (arith, rowcount-zero p q rows)

  pub first-rowcount :
      (p : Row → Bool) (rows : List Row) → rowcount p rows ≡ 0 → first p rows ≡ none
  unfolding rowcount first
  first-rowcount p [] h = refl
  first-rowcount p (r ∷ rows) h = ground (arith, first-rowcount p rows)

  -- The row count of a statement with one key and one more test.
  abbrev pub hits : (Row → Bool) → Option Row → ℕ
  hits c none = 0
  hits c (some r) = if c r then 1 else 0

  pub rowcount-get :
      (key : Row → String) (k : String) (c : Row → Bool) (rows : List Row)
      → Unique key rows
      → rowcount (λ r. has_key key k r && c r) rows ≡ hits c (get key k rows)
  unfolding rowcount first
  rowcount-get key k c [] u = refl
  rowcount-get key k c (r ∷ rows) u = ground (
    arith,
    eq_iff (key r) k,
    rowcount-get key k c rows u.1,
    rowcount-zero (has_key key (key r)) c rows u.0,
  )

  module _ (key : Row → String) where
    rowcount-update_key :
        (k : String) (p : Row → Bool) (f : Row → Row) (rows : List Row)
        → ((r : Row) → key (f r) ≡ key r)
        → rowcount (has_key key k) (update p f rows) ≡ rowcount (has_key key k) rows
    unfolding update rowcount
    rowcount-update_key k p f [] same = refl
    rowcount-update_key k p f (r ∷ rows) same =
        ground (arith, same r, rowcount-update_key k p f rows same)

    -- An UPDATE of other columns keeps the keys apart.
    pub Unique-update :
        (p : Row → Bool) (f : Row → Row) (rows : List Row)
        → ((r : Row) → key (f r) ≡ key r)
        → Unique key rows
        → Unique key (update p f rows)
    unfolding update
    Unique-update p f [] same u = tt
    Unique-update p f (r ∷ rows) same u = (
      rw (rowcount-update_key (key (if p r then f r else r)) p f rows same)
          (elim (Bool-cases (p r)) [ inl hit ↦ rw (hit, same r) u.0 | inr miss ↦ rw miss u.0 ]),
      Unique-update p f rows same u.1,
    )

    rowcount-first :
        (k : String) (rows : List Row) → get key k rows ≡ none → rowcount (has_key key k) rows ≡ 0
    unfolding first rowcount
    rowcount-first k [] h = refl
    rowcount-first k (r ∷ rows) h = ground (arith, rowcount-first k rows)

    rowcount-append :
        (p : Row → Bool) (rows more : List Row)
        → rowcount p (rows ++ more) ≡ rowcount p rows + rowcount p more
    unfolding rowcount
    rowcount-append p [] more = omega arith
    rowcount-append p (r ∷ rows) more = omega (arith, rowcount-append p rows more)

    -- An INSERT under a new key.
    pub Unique-add :
        (r : Row) (rows : List Row)
        → get key (key r) rows ≡ none
        → Unique key rows
        → Unique key (add r rows)
    unfolding first rowcount
    Unique-add r [] new u = (refl, tt)
    Unique-add r (s ∷ rows) new u = (
      rw (rowcount-append (has_key key (key s)) rows (r ∷ []))
          (ground (arith, eq_iff (key s) (key r), eq_iff (key r) (key s))),
      Unique-add r rows (ground arith) u.1,
    )

    first-rowcount_pos :
        (p : Row → Bool) (k : String) (rows : List Row) {a : Row}
        → first p rows ≡ some a
        → rowcount (has_key key k) rows ≡ 0
        → str_eq (key a) k ≡ false
    unfolding first rowcount
    first-rowcount_pos p k [] h z = cc
    first-rowcount_pos p k (r ∷ rows) {a} h z = elim (Bool-cases (p r)) [
      | inl hit ↦ ground arith
      | inr miss ↦ first-rowcount_pos p k rows {a = a} (rw miss at h) (omega arith)
    ]

    -- A row that some query finds is the one that its own key names.
    pub get-first :
        (p : Row → Bool) (rows : List Row) {a : Row}
        → Unique key rows
        → first p rows ≡ some a
        → get key (key a) rows ≡ some a
    unfolding first
    get-first p [] u h = cc
    get-first p (r ∷ rows) {a} u h = elim (Bool-cases (p r)) [
      | inl hit ↦ ground (arith, eq_refl (key r))
      | inr miss ↦
          let h' : first p rows ≡ some a = rw miss at h in
          let apart = first-rowcount_pos p (key r) rows {a = a} h' u.0 in
          ground (
            arith,
            eq_iff (key r) (key a),
            eq_iff (key a) (key r),
            get-first p rows {a = a} u.1 h',
            apart,
          )
    ]

    pub Unique-sweep :
        (p q : Row → Bool) (f : Row → Row) (rows : List Row)
        → ((r : Row) → key (f r) ≡ key r)
        → Unique key rows
        → Unique key (sweep p q f rows).0
    Unique-sweep p q f rows same u =
        subst (λ t. Unique key t.0) (sym (sweep-eq p q f rows))
          (Unique-update (λ r. p r && q r) f rows same u)

    rowcount-delete :
        (k : String) (p : Row → Bool) (rows : List Row)
        → rowcount (has_key key k) rows ≡ 0
        → rowcount (has_key key k) (delete p rows) ≡ 0
    unfolding rowcount delete
    rowcount-delete k p [] h = refl
    rowcount-delete k p (r ∷ rows) h = ground (arith, h, rowcount-delete k p rows)

    pub Unique-delete :
        (p : Row → Bool) (rows : List Row) → Unique key rows → Unique key (delete p rows)
    unfolding delete
    Unique-delete p [] u = tt
    Unique-delete p (r ∷ rows) (h, u) =
        let rest = Unique-delete p rows u in
        if_lem (Unique key) (p r) (λ _. rest) (λ _. (rowcount-delete (key r) p rows h, rest))
