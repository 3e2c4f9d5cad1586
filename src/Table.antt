-- ===== src/Table.antt =====
-- Tables of the SQLite database. A table is the list of its rows in `rowid` order, and a statement
-- is a function of the table: SELECT, UPDATE and DELETE with a WHERE test, INSERT at the end.
pub mod Laws
pub mod Changes
use build_engine.Prelude.{ℕ, suc, Bool, Option, none, some, List, [], ◌∷◌, if◌then◌else◌}

module _ {ℓ} {R : Type ℓ} where
  -- SELECT … WHERE p, when the first row is fetched.
  unfoldable pub find : (R → Bool) → List R → Option R
  find p [] = none
  find p (r ∷ rs) = if p r then some r else find p rs

  -- SELECT … WHERE p.
  unfoldable pub select : (R → Bool) → List R → List R
  select p [] = []
  select p (r ∷ rs) = let rest = select p rs in if p r then r ∷ rest else rest

  -- UPDATE … SET f WHERE p.
  unfoldable pub update : (R → Bool) → (R → R) → List R → List R
  update p f [] = []
  update p f (r ∷ rs) = (if p r then f r else r) ∷ update p f rs

  -- DELETE … WHERE p.
  unfoldable pub delete : (R → Bool) → List R → List R
  delete p [] = []
  delete p (r ∷ rs) = let rest = delete p rs in if p r then rest else r ∷ rest

  -- SELECT COUNT(*) … WHERE p, and `cursor.rowcount` of an UPDATE or DELETE WHERE p.
  unfoldable pub count : (R → Bool) → List R → ℕ
  count p [] = 0
  count p (r ∷ rs) = if p r then suc (count p rs) else count p rs

  -- The earlier one of a row and the first of the rows behind it.
  abbrev pub earlier : (R → R → Bool) → R → Option R → R
  earlier before r none = r
  earlier before r (some b) = if before r b then r else b

  -- SELECT … ORDER BY … LIMIT 1: the first row of the order `before`.
  unfoldable pub first_by : (R → R → Bool) → List R → Option R
  first_by before [] = none
  first_by before (r ∷ rs) = some (earlier before r (first_by before rs))

  -- ORDER BY, as an insertion sort.
  unfoldable pub insert_by : (R → R → Bool) → R → List R → List R
  insert_by before r [] = r ∷ []
  insert_by before r (b ∷ bs) = if before r b then r ∷ b ∷ bs else b ∷ insert_by before r bs

  unfoldable pub order_by : (R → R → Bool) → List R → List R
  unfolding insert_by
  order_by before [] = []
  order_by before (r ∷ rs) = insert_by before r (order_by before rs)
