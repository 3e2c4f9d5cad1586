-- ===== src/Executor/Cache/Pruned.antt =====
-- What `prune_cache` of src/build_engine/executor/cache.py leaves of the caches.
use build_engine.Prelude.{
  ℕ, ◌+◌, ◌≤◌, ◌≡◌, refl, ap, subst, inl, inr, List, [], ◌∷◌, ◌++◌, All, In, leb, leb→le,
  Bool-cases, arith,
}
use build_engine.Table.{order_by, insert_by}
use build_engine.Executor.Cache.{CacheFile, SiteRoot}
use build_engine.Executor.Cache.Prune.{
  PruneCall, files_size, own_size, drop_until, used_before, prune_children,
}

-- No file is behind one that was used later.
abbrev pub IsOrdered : List CacheFile → Type 0
IsOrdered [] = Unit {0}
IsOrdered (f ∷ fs) = All (λ (g : CacheFile). f.used ≤ g.used) fs × IsOrdered fs

All-later :
    (m n : ℕ) (fs : List CacheFile)
    → m ≤ n
    → All (λ (g : CacheFile). n ≤ g.used) fs
    → All (λ (g : CacheFile). m ≤ g.used) fs
All-later m n [] h later = tt
All-later m n (f ∷ fs) h later = (omega (arith, later.0), All-later m n fs h later.1)

insert_by-All :
    (n : ℕ) (f : CacheFile) (fs : List CacheFile)
    → n ≤ f.used
    → All (λ (g : CacheFile). n ≤ g.used) fs
    → All (λ (g : CacheFile). n ≤ g.used) (insert_by used_before f fs)
unfolding insert_by
insert_by-All n f [] h later = (h, tt)
insert_by-All n f (g ∷ gs) h later = elim (Bool-cases (leb f.used g.used)) [
  | inl e ↦ rw e (h, later)
  | inr e ↦ rw e (later.0, insert_by-All n f gs h later.1)
]

insert_by-IsOrdered :
    (f : CacheFile) (fs : List CacheFile) → IsOrdered fs → IsOrdered (insert_by used_before f fs)
unfolding insert_by
insert_by-IsOrdered f [] ordered = (tt, tt)
insert_by-IsOrdered f (g ∷ gs) ordered = elim (Bool-cases (leb f.used g.used)) [
  | inl e ↦
      let h = leb→le f.used g.used e in rw e ((h, All-later f.used g.used gs h ordered.0), ordered)
  | inr e ↦
      rw e (
        insert_by-All g.used f gs (ground (arith, e)) ordered.0,
        insert_by-IsOrdered f gs ordered.1,
      )
]

order_by-IsOrdered : (fs : List CacheFile) → IsOrdered (order_by used_before fs)
unfolding order_by
order_by-IsOrdered [] = tt
order_by-IsOrdered (f ∷ fs) =
    insert_by-IsOrdered f (order_by used_before fs) (order_by-IsOrdered fs)

-- The files that were deleted and those that were kept: together they are all of them, and none
-- that was deleted was used later than one that was kept.
pub record IsLru (files kept : List CacheFile) : Type 0 where
  pub dropped : List CacheFile
  pub all_files : order_by used_before files ≡ dropped ++ kept
  pub least_recent : (f g : CacheFile) → In f dropped → In g kept → f.used ≤ g.used

All-In :
    (n : ℕ) (fs : List CacheFile) (g : CacheFile)
    → All (λ (x : CacheFile). n ≤ x.used) fs
    → In g fs
    → n ≤ g.used
All-In n [] g later i = absurd i
All-In n (f ∷ fs) g later (inl e) = rw e later.0
All-In n (f ∷ fs) g later (inr i) = All-In n fs g later.1 i

All-behind :
    (n : ℕ) (xs ys : List CacheFile)
    → All (λ (x : CacheFile). n ≤ x.used) (xs ++ ys)
    → All (λ (x : CacheFile). n ≤ x.used) ys
All-behind n [] ys later = later
All-behind n (x ∷ xs) ys later = All-behind n xs ys later.1

ordered_split :
    (dropped kept : List CacheFile) (f g : CacheFile)
    → IsOrdered (dropped ++ kept)
    → In f dropped
    → In g kept
    → f.used ≤ g.used
ordered_split [] kept f g ordered i j = absurd i
ordered_split (x ∷ xs) kept f g ordered (inl e) j =
    rw e (All-In x.used kept g (All-behind x.used xs kept ordered.0) j)
ordered_split (x ∷ xs) kept f g ordered (inr i) j = ordered_split xs kept f g ordered.1 i j

-- What the loop leaves is the end of the list.
drop_until-end :
    (max own : ℕ) (fs : List CacheFile)
    → (dropped : List CacheFile) × (fs ≡ dropped ++ drop_until max own fs)
unfolding drop_until
drop_until-end max own [] = ([], refl)
drop_until-end max own (f ∷ fs) = elim (Bool-cases (leb (own + files_size (f ∷ fs)) max)) [
  | inl e ↦ ([], rw e refl)
  | inr e ↦
      let (dropped, law) = drop_until-end max own fs in (f ∷ dropped, rw e (ap (λ xs. f ∷ xs) law))
]

pub prune_children-IsLru : (c : PruneCall) (s : SiteRoot) → IsLru s.files (prune_children c s).files
unfolding prune_children
prune_children-IsLru c s =
    let (dropped, law) =
      drop_until-end c.site_max_bytes (own_size s) (order_by used_before s.files) in
    record {
      dropped = dropped;
      all_files = law;
      least_recent = λ f g i j.
          ordered_split dropped _ f g (subst IsOrdered law (order_by-IsOrdered s.files)) i j;
    }
