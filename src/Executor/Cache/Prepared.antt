-- ===== src/Executor/Cache/Prepared.antt =====
-- What `prepare_site_cache` of src/build_engine/executor/cache.py mounts.
use Prim.Native.String.{◌++◌ as join}
use build_engine.Prelude.{
  All, String, ◌≡◌, refl, ap, ◌∙◌, ◌⊎◌, inl, inr, Bool, true, false, Option, none, some, [],
  Bool-cases, Option-cases, arith,
}
use build_engine.Result.{Result, ok, err, Result-cases}
use build_engine.Json.{get}
use build_engine.Detect.Lockfiles.{PackageManager, npm, pnpm, no_manager}
use build_engine.Executor.Cache.{
  CachePrepareResult, CacheError, LockfileSnapshot, SiteRoot, lockfile_snapshot, metadata_lockfile,
  read_metadata, mounts_of, same_lockfile, validate_site_id,
}
use build_engine.Executor.Cache.Prepare.{
  CacheCall, previous_lockfile, written, root_or_new, prepare_root, prepare_known, is_disabled,
  prepare_enabled, prepare_site_cache,
}

-- A mount of the site's directory, or of a directory in it.
abbrev IsMountOf : String → String × String → Type 0
IsMountOf path m = (m.0 ≡ path) ⊎ ((name : String) × (m.0 ≡ join path (join "/" name)))

mounts_of-IsMountOf :
    (wanted : PackageManager) (path : String) → All (IsMountOf path) (mounts_of wanted path)
unfolding mounts_of
mounts_of-IsMountOf no_manager path = (inl refl, tt)
mounts_of-IsMountOf npm path = (inl refl, (inr ("node-home", refl), tt))
mounts_of-IsMountOf pnpm path = (inl refl, (inr ("node-home", refl), tt))

-- What a call that returned `r` mounts, and the directory `root` that it leaves for the site. Its
-- package data is new; or it was there, in a cache that was not disabled, and that is recorded for the
-- same lockfile, or has no record and is reported as a miss.
pub record IsPrepared (path : String) (site : Option SiteRoot) (lockfile : Option LockfileSnapshot)
    (r : CachePrepareResult) (root : SiteRoot) : Type 0 where
  pub mounted : All (IsMountOf path) r.mounts
  pub same_lockfile_as : r.lockfile ≡ lockfile
  pub recorded : previous_lockfile (some root) ≡ ok (some lockfile)
  pub is_enabled : root.disabled ≡ none
  pub contents :
      (root.files ≡ [])
      ⊎ ((s : SiteRoot) × (site ≡ some s)
          × (s.disabled ≡ none)
          × (root.files ≡ s.files)
          × (((previous_lockfile site ≡ ok none) × (r.event ≡ some "MISS"))
              ⊎ ((l : Option LockfileSnapshot) × (previous_lockfile site ≡ ok (some l))
                  × (same_lockfile l lockfile ≡ true))))

module _ (c : CacheCall) (site_id : String) (wanted : PackageManager)
    (lockfile : Option LockfileSnapshot) where
  written-recorded :
      (root : SiteRoot)
      → previous_lockfile (some (written c wanted lockfile root)) ≡ ok (some lockfile)
  unfolding written previous_lockfile read_metadata metadata_lockfile get
  written-recorded root = elim (Option-cases lockfile) [
    | inl e ↦ rw e refl
    | inr (l, e) ↦ rw e refl
  ]

  written-rest :
      (root : SiteRoot)
      → ((written c wanted lockfile root).files ≡ root.files)
        × ((written c wanted lockfile root).disabled ≡ root.disabled)
  unfolding written
  written-rest root = (refl, refl)

  abbrev path : String
  path = join c.caches (join "/" site_id)

  abbrev result : Bool → Bool → Option SiteRoot → CachePrepareResult
  result wiped known site = (prepare_root c site_id wanted lockfile wiped known site).0

  mounted_at :
      (wiped known : Bool) (site : Option SiteRoot)
      → (All (IsMountOf path) (result wiped known site).mounts)
        × ((result wiped known site).lockfile ≡ lockfile)
  unfolding prepare_root
  mounted_at wiped known site = (mounts_of-IsMountOf wanted path, refl)

  fresh-IsPrepared :
      (wiped known : Bool) (site old : Option SiteRoot)
      → IsPrepared path site lockfile
          (result wiped known old)
          (written c wanted lockfile (root_or_new c site_id none))
  fresh-IsPrepared wiped known site old = record {
    mounted = (mounted_at wiped known old).0;
    same_lockfile_as = (mounted_at wiped known old).1;
    recorded = written-recorded (root_or_new c site_id none);
    is_enabled = (written-rest (root_or_new c site_id none)).1;
    contents = inl (written-rest (root_or_new c site_id none)).0;
  }

  abbrev IsSame : CachePrepareResult → Option SiteRoot → Type 0
  IsSame r site =
      ((previous_lockfile site ≡ ok none) × (r.event ≡ some "MISS"))
      ⊎ ((l : Option LockfileSnapshot) × (previous_lockfile site ≡ ok (some l))
          × (same_lockfile l lockfile ≡ true))

  kept-IsPrepared :
      (known : Bool) (site : Option SiteRoot)
      → is_disabled site ≡ false
      → IsSame (result false known site) site
      → IsPrepared path site lockfile
          (result false known site)
          (written c wanted lockfile (root_or_new c site_id site))
  kept-IsPrepared known none open_ same = fresh-IsPrepared false known none none
  kept-IsPrepared known (some s) open_ same =
      let not_disabled : s.disabled ≡ none = ground arith in
      record {
        mounted = (mounted_at false known (some s)).0;
        same_lockfile_as = (mounted_at false known (some s)).1;
        recorded = written-recorded s;
        is_enabled = (written-rest s).1 ∙ not_disabled;
        contents = inr (s, refl, not_disabled, (written-rest s).0, same);
      }

  -- A call that returned, with the directory that it left.
  abbrev Leaves : Option SiteRoot → Result CacheError CachePrepareResult × Option SiteRoot → Type 0
  Leaves site o =
      ((x : CacheError) × (o.0 ≡ err x))
      ⊎ ((r : CachePrepareResult) × (root : SiteRoot) × (o ≡ (ok r, some root))
          × IsPrepared path site lockfile r root)

  missed : (site : Option SiteRoot) → (result false false site).event ≡ some "MISS"
  unfolding prepare_root
  missed site = refl

  abbrev leaves_kept : Bool → Option SiteRoot → SiteRoot
  leaves_kept known site = (prepare_root c site_id wanted lockfile false known site).1

  prepare_known-Leaves :
      (site : Option SiteRoot)
      → is_disabled site ≡ false
      → Leaves site (prepare_known c site_id wanted lockfile false site (previous_lockfile site))
  unfolding prepare_known prepare_root
  prepare_known-Leaves site open_ = elim (Result-cases (previous_lockfile site)) [
    | inl (x, e) ↦ inl (x, rw e refl)
    | inr (known, e) ↦ elim (Option-cases known) [
      | inl n ↦ inr (
        result false false site,
        written c wanted lockfile (root_or_new c site_id site),
        rw (e ∙ ap ok n) refl,
        kept-IsPrepared false site open_ (inl (e ∙ ap ok n, missed site)),
      )
      | inr (l, n) ↦ elim (Bool-cases (same_lockfile l lockfile)) [
        | inl same ↦ inr (
          result false true site,
          written c wanted lockfile (root_or_new c site_id site),
          rw (e ∙ ap ok n) (rw same refl),
          kept-IsPrepared true site open_ (inr (l, e ∙ ap ok n, same)),
        )
        | inr differs ↦ inr (
          result true true none,
          written c wanted lockfile (root_or_new c site_id none),
          rw (e ∙ ap ok n) (rw differs refl),
          fresh-IsPrepared true true site none,
        )
      ]
    ]
  ]

  prepare_enabled-Leaves :
      (site : Option SiteRoot) → Leaves site (prepare_enabled c site_id wanted lockfile site)
  unfolding prepare_enabled prepare_known prepare_root previous_lockfile read_metadata
  prepare_enabled-Leaves site = elim (Bool-cases (is_disabled site)) [
    | inl off ↦ rw off (
        inr (
          result true false none,
          written c wanted lockfile (root_or_new c site_id none),
          refl,
          fresh-IsPrepared true false site none,
        ))
    | inr open_ ↦ rw open_ (prepare_known-Leaves site open_)
  ]

-- Where the cache of a site is enabled, preparing it raises, or mounts the directory of the site and
-- directories in it only, after recording the project's lockfile there. What a cache recorded for
-- another lockfile holds, or a disabled one, is gone; a cache without a record keeps what it holds,
-- and the call reports a miss.
pub prepare_site_cache-IsPrepared :
    (c : CacheCall) (site_id : String) (wanted : PackageManager) (digest : String → Option String)
    (site : Option SiteRoot)
    → ((x : CacheError) × ((prepare_site_cache c site_id wanted digest true site).0 ≡ err x))
      ⊎ ((r : CachePrepareResult) × (root : SiteRoot) × (prepare_site_cache c site_id wanted digest
              true site
            ≡ (ok r, some root))
          × IsPrepared
              (join c.caches (join "/" site_id))
              site
              (lockfile_snapshot digest wanted)
              r
              root)
unfolding prepare_site_cache
prepare_site_cache-IsPrepared c site_id wanted digest site =
    elim (Result-cases (validate_site_id site_id)) [
      | inl (x, e) ↦ inl (x, rw (e, prepare_site_cache) refl)
      | inr (v, e) ↦
          rw (e, prepare_site_cache)
            (prepare_enabled-Leaves c site_id wanted (lockfile_snapshot digest wanted) site)
    ]
