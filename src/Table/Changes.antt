-- ===== src/Table/Changes.antt =====
-- Laws of rows that are counted, deleted and added.
use build_engine.Prelude.{
  ◌≤◌, ◌<◌, ◌≡◌, refl, inl, inr, Bool, true, false, ◌&&◌, none, some, List, [], ◌∷◌, ◌++◌, In, All,
  sym, subst, any, length, arith, Bool-cases, if◌then◌else◌,
}
use build_engine.Table.{find, update, delete, count}
use build_engine.Table.Laws.{find_of_In, none_of_count}

module _ {R : Type 0} where
  pub count_of_none : (p : R → Bool) (rs : List R) → any p rs ≡ false → count p rs ≡ 0
  unfolding count
  count_of_none p [] h = refl
  count_of_none p (r ∷ rs) h = ground (arith, count_of_none p rs)

  pub any_of_find : (p : R → Bool) (rs : List R) (r : R) → find p rs ≡ some r → any p rs ≡ true
  unfolding find
  any_of_find p [] r h = cc
  any_of_find p (x ∷ xs) r h = ground (arith, any_of_find p xs r)

  pub find_of_any : (p : R → Bool) (rs : List R) → any p rs ≡ false → find p rs ≡ none
  unfolding find
  find_of_any p [] h = refl
  find_of_any p (r ∷ rs) h = ground (arith, find_of_any p rs)

  -- A test that agrees with the key on the only row of that key is counted as a flag.
  pub count-and :
      (p q : R → Bool) (rs : List R)
      → count q rs ≤ 1
      → count (λ r. q r && p r) rs ≡ elim (find q rs) [ none ↦ 0 | some r ↦ if p r then 1 else 0 ]
  unfolding find count
  count-and p q [] c = refl
  count-and p q (r ∷ rs) c = ground (arith, count-and p q rs, none_of_count q rs)

  pub In-delete :
      (p : R → Bool) (rs : List R) (r : R) → In r (delete p rs) → In r rs × (p r ≡ false)
  unfolding delete
  In-delete p [] r i = absurd i
  In-delete p (x ∷ xs) r i = ground (arith, In-delete p xs r)

  pub In-of_kept : (p : R → Bool) (rs : List R) (r : R) → In r rs → p r ≡ false → In r (delete p rs)
  unfolding delete
  In-of_kept p [] r i h = i
  In-of_kept p (x ∷ xs) r i h = ground (arith, In-of_kept p xs r)

  pub length-delete_le : (p : R → Bool) (rs : List R) → length (delete p rs) ≤ length rs
  unfolding delete
  length-delete_le p [] = omega arith
  length-delete_le p (r ∷ rs) = ground (arith, length-delete_le p rs)

  pub length-delete_lt :
      (p : R → Bool) (rs : List R) (v : R) → In v rs → p v ≡ true → length (delete p rs) < length rs
  unfolding delete
  length-delete_lt p [] v i h = absurd i
  length-delete_lt p (r ∷ rs) v i h = ground (arith, length-delete_lt p rs v, length-delete_le p rs)

  -- Two rows of a key that stands once are one row.
  pub one_of_key :
      (p : R → Bool) (rs : List R) (x y : R)
      → count p rs ≤ 1
      → In x rs
      → In y rs
      → p x ≡ true
      → p y ≡ true
      → x ≡ y
  one_of_key p rs x y c ix iy hx hy = cc (find_of_In p rs x ix hx c, find_of_In p rs y iy hy c)

  module _ (P : R → Type 0) where
    pub All-update :
        (p : R → Bool) (f : R → R) (rs : List R)
        → ((r : R) → In r rs → P r → p r ≡ true → P (f r))
        → All P rs
        → All P (update p f rs)
    unfolding update
    All-update p f [] step h = tt
    All-update p f (r ∷ rs) step h =
        let rest = All-update p f rs (λ x i. step x (inr i)) h.1 in
        elim (Bool-cases (p r)) [
          | inl e ↦ (rw e (step r (inl refl) h.0 e), rest)
          | inr e ↦ (rw e h.0, rest)
        ]

    pub All-delete : (p : R → Bool) (rs : List R) → All P rs → All P (delete p rs)
    unfolding delete
    All-delete p [] h = tt
    All-delete p (r ∷ rs) h = elim (Bool-cases (p r)) [
      | inl e ↦ rw e (All-delete p rs h.1)
      | inr e ↦ rw e (h.0, All-delete p rs h.1)
    ]

    pub All-snoc : (rs : List R) (x : R) → All P rs → P x → All P (rs ++ x ∷ [])
    All-snoc [] x h hx = (hx, tt)
    All-snoc (r ∷ rs) x h hx = (h.0, All-snoc rs x h.1 hx)

    pub All-in : (rs : List R) (r : R) → All P rs → In r rs → P r
    All-in [] r h i = absurd i
    All-in (x ∷ xs) r h (inl e) = subst P (sym e) h.0
    All-in (x ∷ xs) r h (inr i) = All-in xs r h.1 i

    pub All-of_In : (rs : List R) → ((r : R) → In r rs → P r) → All P rs
    All-of_In [] h = tt
    All-of_In (r ∷ rs) h = (h r (inl refl), All-of_In rs (λ x i. h x (inr i)))
