-- ===== src/Table/Laws.antt =====
-- Laws of the table operations.
use build_engine.Prelude.{
  suc, ◌+◌, ◌≤◌, ◌<◌, ◌≡◌, refl, ap, ◌⊎◌, inl, inr, Bool, true, false, none, some, List, [], ◌∷◌,
  ◌++◌, In, length, arith, Option-cases, if◌then◌else◌,
}
use build_engine.Table.{find, select, update, delete, count, first_by}

module _ {R : Type 0} where
  pub find_sound : (p : R → Bool) (rs : List R) (r : R) → find p rs ≡ some r → p r ≡ true
  unfolding find
  find_sound p [] r h = cc
  find_sound p (x ∷ xs) r h = ground (arith, find_sound p xs r)

  pub In-find : (p : R → Bool) (rs : List R) (r : R) → find p rs ≡ some r → In r rs
  unfolding find
  In-find p [] r h = cc
  In-find p (x ∷ xs) r h = ground (arith, In-find p xs r)

  pub In-select : (p : R → Bool) (rs : List R) (r : R) → In r (select p rs) → In r rs × (p r ≡ true)
  unfolding select
  In-select p [] r m = absurd m
  In-select p (x ∷ xs) r m = ground (arith, In-select p xs r)

  pub select_of_In :
      (p : R → Bool) (rs : List R) (r : R) → In r rs → p r ≡ true → In r (select p rs)
  unfolding select
  select_of_In p [] r m h = m
  select_of_In p (x ∷ xs) r m h = ground (arith, select_of_In p xs r)

  pub first_by-none : (before : R → R → Bool) (rs : List R) → first_by before rs ≡ none → rs ≡ []
  unfolding first_by
  first_by-none before [] h = refl
  first_by-none before (r ∷ rs) h = ground arith

  pub In-first_by :
      (before : R → R → Bool) (rs : List R) (m : R) → first_by before rs ≡ some m → In m rs
  unfolding first_by
  In-first_by before [] m h = cc
  In-first_by before (r ∷ rs) m h = elim (Option-cases (first_by before rs)) [
    | inl e ↦ inl (ground arith)
    | inr (b, e) ↦ ground (arith, In-first_by before rs b e)
  ]

  -- The first row of the order stands before every row, if the order is total and transitive.
  module _ (before : R → R → Bool) (total : (a b : R) → (before a b ≡ true) ⊎ (before b a ≡ true))
      (trans : (a b c : R) → before a b ≡ true → before b c ≡ true → before a c ≡ true) where
    pub first_by_least :
        (rs : List R) (m x : R) → first_by before rs ≡ some m → In x rs → before m x ≡ true
    unfolding first_by
    first_by_least [] m x h i = absurd i
    first_by_least (r ∷ rs) m x h i = elim (Option-cases (first_by before rs)) [
      | inl e ↦ ground (arith, total r r, ap (In x) (first_by-none before rs e))
      | inr (b, e) ↦ ground (arith, total r r, total r b, first_by_least rs b x, trans r b x)
    ]

  -- An UPDATE that keeps the key of the lookup.
  pub find-update :
      (p q : R → Bool) (f : R → R)
      → ((r : R) → q (f r) ≡ q r)
      → (rs : List R)
      → find q (update p f rs)
        ≡ elim (find q rs) [ none ↦ none | some r ↦ some (if p r then f r else r) ]
  unfolding find update
  find-update p q f keeps [] = refl
  find-update p q f keeps (r ∷ rs) = ground (arith, keeps r, find-update p q f keeps rs)

  pub length-update : (p : R → Bool) (f : R → R) (rs : List R) → length (update p f rs) ≡ length rs
  unfolding update
  length-update p f [] = refl
  length-update p f (r ∷ rs) = ap suc (length-update p f rs)

  -- An UPDATE that only takes rows out of a count does not raise it, and lowers it if it hits one.
  pub count-update_le :
      (p q : R → Bool) (f : R → R)
      → ((r : R) → p (f r) ≡ false)
      → (rs : List R) → count p (update q f rs) ≤ count p rs
  unfolding count update
  count-update_le p q f leaves [] = omega arith
  count-update_le p q f leaves (r ∷ rs) = ground (arith, leaves r, count-update_le p q f leaves rs)

  pub count-update_lt :
      (p q : R → Bool) (f : R → R)
      → ((r : R) → p (f r) ≡ false)
      → (rs : List R) (m : R) → In m rs
      → p m ≡ true
      → q m ≡ true
      → count p (update q f rs) < count p rs
  unfolding count update
  count-update_lt p q f leaves [] m i hp hq = absurd i
  count-update_lt p q f leaves (r ∷ rs) m i hp hq =
      ground (arith, leaves r, count-update_le p q f leaves rs, count-update_lt p q f leaves rs m)

  pub count-le_length : (p : R → Bool) (rs : List R) → count p rs ≤ length rs
  unfolding count
  count-le_length p [] = omega arith
  count-le_length p (r ∷ rs) = ground (arith, count-le_length p rs)

  pub count-zero : (p : R → Bool) (rs : List R) (r : R) → count p rs ≡ 0 → In r rs → p r ≡ false
  unfolding count
  count-zero p [] r h i = absurd i
  count-zero p (x ∷ xs) r h i = ground (arith, count-zero p xs r)

  pub count_pos : (p : R → Bool) (rs : List R) (r : R) → In r rs → p r ≡ true → 0 < count p rs
  unfolding count
  count_pos p [] r i h = absurd i
  count_pos p (x ∷ xs) r i h = ground (arith, count_pos p xs r)

  -- A row that is the only one of its key is the one that a lookup finds.
  pub find_of_In :
      (p : R → Bool) (rs : List R) (r : R)
      → In r rs
      → p r ≡ true
      → count p rs ≤ 1
      → find p rs ≡ some r
  unfolding find count
  find_of_In p [] r i h c = absurd i
  find_of_In p (x ∷ xs) r i h c = ground (arith, find_of_In p xs r, count_pos p xs r)

  pub find-none : (p : R → Bool) (rs : List R) (r : R) → find p rs ≡ none → In r rs → p r ≡ false
  unfolding find
  find-none p [] r h i = absurd i
  find-none p (x ∷ xs) r h i = ground (arith, find-none p xs r)

  -- An UPDATE that keeps the key keeps the number of rows of that key.
  pub count-update :
      (p q : R → Bool) (f : R → R)
      → ((r : R) → q (f r) ≡ q r)
      → (rs : List R) → count q (update p f rs) ≡ count q rs
  unfolding count update
  count-update p q f keeps [] = refl
  count-update p q f keeps (r ∷ rs) = ground (arith, keeps r, count-update p q f keeps rs)

  pub count-delete_le : (p q : R → Bool) (rs : List R) → count q (delete p rs) ≤ count q rs
  unfolding count delete
  count-delete_le p q [] = omega arith
  count-delete_le p q (r ∷ rs) = ground (arith, count-delete_le p q rs)

  pub count_mono :
      (p q : R → Bool)
      → ((r : R) → p r ≡ true → q r ≡ true)
      → (rs : List R) → count p rs ≤ count q rs
  unfolding count
  count_mono p q implies [] = omega arith
  count_mono p q implies (r ∷ rs) = ground (arith, implies r, count_mono p q implies rs)

  pub none_of_count : (p : R → Bool) (rs : List R) → count p rs ≡ 0 → find p rs ≡ none
  unfolding count find
  none_of_count p [] h = refl
  none_of_count p (r ∷ rs) h = ground (arith, none_of_count p rs)

  none_of_delete : (p q : R → Bool) (rs : List R) → find q rs ≡ none → find q (delete p rs) ≡ none
  unfolding find delete
  none_of_delete p q [] h = refl
  none_of_delete p q (r ∷ rs) h = ground (arith, none_of_delete p q rs)

  -- A DELETE takes the found row or leaves it, if it is the only one of its key.
  pub find-delete :
      (p q : R → Bool) (rs : List R)
      → count q rs ≤ 1
      → find q (delete p rs)
        ≡ elim (find q rs) [ none ↦ none | some r ↦ if p r then none else some r ]
  unfolding find delete count
  find-delete p q [] c = refl
  find-delete p q (r ∷ rs) c =
      ground (arith, find-delete p q rs, none_of_count q rs, none_of_delete p q rs)

  pub find-append :
      (p : R → Bool) (rs : List R) (x : R)
      → find p (rs ++ x ∷ [])
        ≡ elim (find p rs) [ none ↦ if p x then some x else none | some r ↦ some r ]
  unfolding find
  find-append p [] x = refl
  find-append p (r ∷ rs) x = ground (arith, find-append p rs x)

  pub count-append :
      (p : R → Bool) (rs : List R) (x : R)
      → count p (rs ++ x ∷ []) ≡ count p rs + (if p x then 1 else 0)
  unfolding count
  count-append p [] x = ground arith
  count-append p (r ∷ rs) x = ground (arith, count-append p rs x)
