-- ===== src/Executor/Cache/Refined.antt =====
-- `prune_cache` of src/build_engine/executor/cache.py against a description of its result.
use build_engine.Prelude.{
  ℕ, ◌+◌, ◌≤◌, ◌<◌, ◌≡◌, refl, ap, ◌⊎◌, inl, inr, true, false, List, [], ◌∷◌, leb, Bool-cases,
  arith,
}
use build_engine.Executor.Cache.{CacheFile, SiteRoot}
use build_engine.Executor.Cache.Prune.{
  PruneCall, files_size, own_size, site_size, is_expired, is_excluded, drop_until, used_before,
  prune_children, prune_expired, prune_large, prune_cache,
}
use build_engine.Executor.Cache.Pruned.{IsLru, prune_children-IsLru}
use build_engine.Table.{order_by}

-- What becomes of a directory that is kept.
pub data Survives (c : PruneCall) (s s' : SiteRoot) : Type 0 where
  spared : is_excluded c s ≡ true → s' ≡ s → Survives c s s'
  fits : is_expired c s ≡ false → site_size s ≤ c.site_max_bytes → s' ≡ s → Survives c s s'
  shrunk :
      is_expired c s ≡ false
      → c.site_max_bytes < site_size s
      → site_size s' ≤ c.site_max_bytes
      → IsLru s.files s'.files
      → s'.metadata ≡ s.metadata
      → s'.disabled ≡ s.disabled
      → s'.name ≡ s.name
      → Survives c s s'

-- The directories before and after: each is kept or, where it is not excluded and has expired or is
-- too large even without package data, deleted.
pub data IsPruned (c : PruneCall) : List SiteRoot → List SiteRoot → Type 0 where
  none_left : IsPruned c [] []
  kept :
      {s s' : SiteRoot} {sites after : List SiteRoot}
      → Survives c s s'
      → IsPruned c sites after
      → IsPruned c (s ∷ sites) (s' ∷ after)
  expired :
      {s : SiteRoot} {sites after : List SiteRoot}
      → is_excluded c s ≡ false
      → is_expired c s ≡ true
      → IsPruned c sites after
      → IsPruned c (s ∷ sites) after
  too_large :
      {s : SiteRoot} {sites after : List SiteRoot}
      → is_excluded c s ≡ false
      → c.site_max_bytes < own_size s
      → IsPruned c sites after
      → IsPruned c (s ∷ sites) after

drop_until-fits :
    (max own : ℕ) (fs : List CacheFile)
    → (own + files_size (drop_until max own fs) ≤ max) ⊎ (drop_until max own fs ≡ [])
unfolding drop_until
drop_until-fits max own [] = inr refl
drop_until-fits max own (f ∷ fs) = elim (Bool-cases (leb (own + files_size (f ∷ fs)) max)) [
  | inl e ↦ inl (rw e (ground (arith, e)))
  | inr e ↦ rw e (drop_until-fits max own fs)
]

prune_children-too_large :
    (c : PruneCall) (s : SiteRoot)
    → leb (site_size (prune_children c s)) c.site_max_bytes ≡ false
    → c.site_max_bytes < own_size s
unfolding prune_children
prune_children-too_large c s big =
    elim (drop_until-fits c.site_max_bytes (own_size s) (order_by used_before s.files)) [
      | inl h ↦ absurd (ground (arith, big, h))
      | inr e ↦ ground (arith, big, ap files_size e)
    ]

prune_children-rest :
    (c : PruneCall) (s : SiteRoot)
    → ((prune_children c s).metadata ≡ s.metadata)
      × ((prune_children c s).disabled ≡ s.disabled)
      × ((prune_children c s).name ≡ s.name)
unfolding prune_children
prune_children-rest c s = (refl, refl, refl)

prune_large-IsPruned :
    (c : PruneCall) (s : SiteRoot) (sites fresh : List SiteRoot)
    → (is_excluded c s ≡ true) ⊎ (is_expired c s ≡ false)
    → IsPruned c sites (prune_large c fresh).1
    → IsPruned c (s ∷ sites) (prune_large c (s ∷ fresh)).1
unfolding prune_large
prune_large-IsPruned c s sites fresh young rest = elim (Bool-cases (is_excluded c s)) [
  | inl x ↦ rw x (kept (spared x refl) rest)
  | inr x ↦
      let fresh_one : is_expired c s ≡ false = ground (arith, young, x) in
      rw x (elim (Bool-cases (leb (site_size s) c.site_max_bytes)) [
        | inl small ↦ rw small (kept (fits fresh_one (ground (arith, small)) refl) rest)
        | inr large ↦
            rw large (elim (Bool-cases (leb (site_size (prune_children c s)) c.site_max_bytes)) [
              | inl now_small ↦
                  let (metadata, disabled, name) = prune_children-rest c s in
                  rw now_small (
                    kept
                      (shrunk fresh_one (ground (arith, large)) (ground (arith, now_small))
                        (prune_children-IsLru c s) metadata disabled name)
                      rest)
              | inr still ↦ rw still (too_large x (prune_children-too_large c s still) rest)
            ])
      ])
]

-- Pruning meets its description: excluded sites stay as they are, other sites are deleted exactly
-- where they have expired or are too large without package data, and what stays of the rest is
-- within the limit, at the cost of the least recently used files only.
pub prune_cache-IsPruned :
    (c : PruneCall) (sites : List SiteRoot) → IsPruned c sites (prune_cache c sites).1
unfolding prune_cache prune_expired
prune_cache-IsPruned c [] = unfold prune_large in none_left
prune_cache-IsPruned c (s ∷ sites) =
    let rest = prune_cache-IsPruned c sites in
    elim (Bool-cases (is_excluded c s)) [
      | inl x ↦ rw x (prune_large-IsPruned c s sites (prune_expired c sites).1 (inl x) rest)
      | inr x ↦ rw x (elim (Bool-cases (is_expired c s)) [
        | inl old ↦ rw old (expired x old rest)
        | inr young ↦
            rw young (prune_large-IsPruned c s sites (prune_expired c sites).1 (inr young) rest)
      ])
    ]
