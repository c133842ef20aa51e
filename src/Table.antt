-- ===== src/Table.antt =====
-- A SQL table as the list of its rows, in the order of insertion, with the statements that the
-- stores run on it. The stores reach SQLite through SQLModel; each function here is one statement
-- or one loop over the rows of a `select`.
pub mod Laws
pub mod Unique
pub mod Budget
use homelab_registry_mcp.Prelude.{
  ℕ, zero, suc, ◌+◌, String, ◌≡◌, Bool, true, false, ◌&&◌, Option, none, some, List, [], ◌∷◌, ◌++◌,
  str_eq, if◌then◌else◌,
}

module _ {ℓ} {Row : Type ℓ} where
  -- `session.exec(select(Model).where(p)).first()`
  unfoldable pub first : (Row → Bool) → List Row → Option Row
  first p [] = none
  first p (r ∷ rows) = if p r then some r else first p rows

  -- `session.exec(select(Model).where(p)).all()`
  unfoldable pub select : (Row → Bool) → List Row → List Row
  select p [] = []
  select p (r ∷ rows) = let rest = select p rows in if p r then r ∷ rest else rest

  -- `session.exec(update(Model).where(p).values(...))`
  unfoldable pub update : (Row → Bool) → (Row → Row) → List Row → List Row
  update p f [] = []
  update p f (r ∷ rows) = (if p r then f r else r) ∷ update p f rows

  -- The `rowcount` of that statement.
  unfoldable pub rowcount : (Row → Bool) → List Row → ℕ
  rowcount p [] = 0
  rowcount p (r ∷ rows) = (if p r then 1 else 0) + rowcount p rows

  -- `session.exec(delete(Model).where(p))`
  unfoldable pub delete : (Row → Bool) → List Row → List Row
  delete p [] = []
  delete p (r ∷ rows) = let rest = delete p rows in if p r then rest else r ∷ rest

  -- `session.add(row)` of a new row.
  abbrev pub add : Row → List Row → List Row
  add r rows = rows ++ r ∷ []

  -- `for row in select(...).where(p).all(): if not q(row): continue; change row; n += 1`
  unfoldable pub sweep : (Row → Bool) → (Row → Bool) → (Row → Row) → List Row → List Row × ℕ
  sweep p q f [] = ([], 0)
  sweep p q f (r ∷ rows) =
      let (rest, n) = sweep p q f rows in
      if p r then if q r then (f r ∷ rest, n + 1) else (r ∷ rest, n) else (r ∷ rest, n)

  -- A change to the row that `session.exec(select(Model).where(p)).first()` returns.
  unfoldable pub update_first : (Row → Bool) → (Row → Row) → List Row → List Row
  update_first p f [] = []
  update_first p f (r ∷ rows) =
      let rest = update_first p f rows in if p r then f r ∷ rows else r ∷ rest

  module _ (key : Row → String) where
    abbrev pub has_key : String → Row → Bool
    has_key k r = str_eq (key r) k

    -- `session.get(Model, k)`
    abbrev pub get : String → List Row → Option Row
    get k rows = first (has_key k) rows

    -- The rows have different primary keys.
    abbrev pub Unique : List Row → Type 0
    Unique [] = Unit
    Unique (r ∷ rows) = (rowcount (has_key (key r)) rows ≡ 0) × Unique rows
