-- ===== src/Executor/Cache/Prune.antt =====
-- `prune_cache` of src/build_engine/executor/cache.py.
use build_engine.Prelude.{
  ℕ, ◌+◌, ◌*◌, String, Bool, not, ◌&&◌, ◌||◌, Option, none, some, List, [], ◌∷◌, ◌++◌, leb, ltb,
  str_mem, if◌then◌else◌,
}
use build_engine.Table.{order_by}
use build_engine.Queue.Store.{day_ms}
use build_engine.Executor.Cache.{CacheFile, MetadataFile, SiteRoot}

-- The arguments of a call; `modified_after` is the time that a directory has after files were deleted in it.
pub record PruneCall : Type 0 where
  pub now : ℕ
  pub site_max_bytes : ℕ
  pub ttl_days : ℕ
  pub exclude_site_ids : List String
  pub modified_after : SiteRoot → ℕ

abbrev pub files_size : List CacheFile → ℕ
files_size [] = 0
files_size (f ∷ fs) = f.size + files_size fs

abbrev pub marker_size : Option ℕ → ℕ
marker_size none = 0
marker_size (some n) = n

abbrev pub metadata_size : Option MetadataFile → ℕ
metadata_size none = 0
metadata_size (some m) = m.size

abbrev pub own_size : SiteRoot → ℕ
own_size s = marker_size s.disabled + metadata_size s.metadata

-- `directory_size_bytes` of the directory of a site.
abbrev pub site_size : SiteRoot → ℕ
site_size s = own_size s + files_size s.files

abbrev metadata_time : ℕ → Option MetadataFile → ℕ
metadata_time directory none = directory
metadata_time directory (some m) = m.modified

abbrev pub last_access : SiteRoot → ℕ
last_access s = metadata_time s.modified s.metadata

-- `_last_access(site_root) < expires_before`, written so that it holds before the epoch too.
abbrev pub is_expired : PruneCall → SiteRoot → Bool
is_expired c s = ltb (last_access s + c.ttl_days * day_ms) c.now

abbrev pub is_excluded : PruneCall → SiteRoot → Bool
is_excluded c s = str_mem s.name c.exclude_site_ids

-- The loop of `_prune_children_lru` over the candidates, the least recently used one first: what is
-- left of them.
unfoldable pub drop_until : ℕ → ℕ → List CacheFile → List CacheFile
drop_until max own [] = []
drop_until max own (f ∷ fs) =
    if leb (own + files_size (f ∷ fs)) max then f ∷ fs else drop_until max own fs

abbrev pub used_before : CacheFile → CacheFile → Bool
used_before a b = leb a.used b.used

unfoldable pub prune_children : PruneCall → SiteRoot → SiteRoot
prune_children c s = record s {
  files = drop_until c.site_max_bytes (own_size s) (order_by used_before s.files);
  modified = c.modified_after s;
}

-- The first loop of `prune_cache`, with the names of what it deletes.
unfoldable pub prune_expired : PruneCall → List SiteRoot → List String × List SiteRoot
prune_expired c [] = ([], [])
prune_expired c (s ∷ sites) =
    let (pruned, kept) = prune_expired c sites in
    if not (is_excluded c s) && is_expired c s then (s.name ∷ pruned, kept) else (pruned, s ∷ kept)

-- The second one.
unfoldable pub prune_large : PruneCall → List SiteRoot → List String × List SiteRoot
prune_large c [] = ([], [])
prune_large c (s ∷ sites) =
    let (pruned, kept) = prune_large c sites in
    if is_excluded c s || leb (site_size s) c.site_max_bytes
    then (pruned, s ∷ kept)
    else if leb (site_size (prune_children c s)) c.site_max_bytes
    then (pruned, prune_children c s ∷ kept)
    else (s.name ∷ pruned, kept)

-- The directories are visited in the order of their names, which is that of the list.
unfoldable pub prune_cache : PruneCall → List SiteRoot → List String × List SiteRoot
prune_cache c sites =
    let (expired, fresh) = prune_expired c sites in
    let (large, kept) = prune_large c fresh in (expired ++ large, kept)
