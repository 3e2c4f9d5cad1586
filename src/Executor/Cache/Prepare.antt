-- ===== src/Executor/Cache/Prepare.antt =====
-- Preparing and resetting the caches of sites, in src/build_engine/executor/cache.py. The locks there
-- make each call one step.
use Prim.Native.String.{◌++◌ as join}
use build_engine.Prelude.{
  ℕ, String, Bool, true, false, ◌&&◌, Option, none, some, List, [], ltb, length, codes, is_some,
  str_eq, if◌then◌else◌,
}
use build_engine.Result.{Result, ok, err, ◌>>=◌}
use build_engine.Json.{Fields, obj}
use build_engine.Table.{delete}
use build_engine.Detect.Lockfiles.{PackageManager}
use build_engine.Executor.Cache.{
  CacheError, LockfileSnapshot, MetadataFile, SiteRoot, validate_site_id, lockfile_snapshot,
  read_metadata, metadata_lockfile, same_lockfile, metadata_fields, CachePrepareResult, mounts_of,
}

-- What a call is given: the time, its text, the size of a metadata file, and the state directory.
pub record CacheCall : Type 0 where
  pub now : ℕ
  pub text : String
  pub size_of : Fields → ℕ
  pub caches : String

abbrev pub empty_root : CacheCall → String → SiteRoot
empty_root c site_id = record {
  name = site_id;
  disabled = none;
  metadata = none;
  files = [];
  modified = c.now;
}

abbrev pub root_or_new : CacheCall → String → Option SiteRoot → SiteRoot
root_or_new c site_id none = empty_root c site_id
root_or_new c site_id (some root) = root

abbrev pub has_contents : Option SiteRoot → Bool
has_contents none = false
has_contents (some root) = ltb 0 (length root.files)

-- `_write_metadata` and `touch_site_cache`.
unfoldable pub written : CacheCall → PackageManager → Option LockfileSnapshot → SiteRoot → SiteRoot
written c wanted lockfile root =
    let fields = metadata_fields wanted c.text lockfile in
    record root {
      metadata =
          some (record { decoded = some (obj fields); size = c.size_of fields; modified = c.now });
      modified = c.now;
    }

abbrev event_of : Bool → Bool → String
event_of wiped hit = if wiped then "WIPED" else if hit then "HIT" else "MISS"

-- The end of `prepare_site_cache`, from the reset for a changed lockfile on.
unfoldable pub prepare_root :
    CacheCall
    → String
    → PackageManager
    → Option LockfileSnapshot
    → Bool
    → Bool
    → Option SiteRoot
    → CachePrepareResult × SiteRoot
prepare_root c site_id wanted lockfile wiped known site = (
  record {
    mounts = mounts_of wanted (join c.caches (join "/" site_id));
    event = some (event_of wiped (known && has_contents site));
    lockfile = lockfile;
  },
  written c wanted lockfile (root_or_new c site_id site),
)

abbrev Prepared : Type 0
Prepared = Result CacheError CachePrepareResult × Option SiteRoot

abbrev done : CachePrepareResult × SiteRoot → Prepared
done (r, root) = (ok r, some root)

-- With what the metadata file says of the lockfile, if there is one.
unfoldable pub prepare_known :
    CacheCall
    → String
    → PackageManager
    → Option LockfileSnapshot
    → Bool
    → Option SiteRoot
    → Result CacheError (Option (Option LockfileSnapshot))
    → Prepared
prepare_known c site_id wanted lockfile wiped site (err x) = (err x, site)
prepare_known c site_id wanted lockfile wiped site (ok none) =
    done (prepare_root c site_id wanted lockfile wiped false site)
prepare_known c site_id wanted lockfile wiped site (ok (some previous)) =
    if same_lockfile previous lockfile
    then done (prepare_root c site_id wanted lockfile wiped true site)
    else done (prepare_root c site_id wanted lockfile true true none)

abbrev known_lockfile : Option Fields → Result CacheError (Option (Option LockfileSnapshot))
known_lockfile none = ok none
known_lockfile (some fields) = metadata_lockfile fields >>= λ l. ok (some l)

abbrev metadata_of : Option SiteRoot → Option MetadataFile
metadata_of none = none
metadata_of (some root) = root.metadata

unfoldable pub previous_lockfile :
    Option SiteRoot → Result CacheError (Option (Option LockfileSnapshot))
previous_lockfile site = read_metadata (metadata_of site) >>= known_lockfile

abbrev pub is_disabled : Option SiteRoot → Bool
is_disabled none = false
is_disabled (some root) = is_some root.disabled

-- Where the cache is enabled: a cache that was disabled meanwhile is reset first.
unfoldable pub prepare_enabled :
    CacheCall → String → PackageManager → Option LockfileSnapshot → Option SiteRoot → Prepared
prepare_enabled c site_id wanted lockfile site =
    if is_disabled site
    then prepare_known c site_id wanted lockfile true none (previous_lockfile none)
    else prepare_known c site_id wanted lockfile false site (previous_lockfile site)

abbrev pub disable : CacheCall → SiteRoot → SiteRoot
disable c root = record root { disabled = some (length (codes c.text)); modified = c.now }

abbrev pub nothing_mounted : CachePrepareResult
nothing_mounted = record { mounts = []; event = none; lockfile = none }

-- `prepare_site_cache`, on the directory of the site, if it is there.
unfoldable pub prepare_site_cache :
    CacheCall
    → String
    → PackageManager
    → (String → Option String)
    → Bool
    → Option SiteRoot
    → Prepared
prepare_site_cache c site_id wanted digest enabled site = elim (validate_site_id site_id) [
  | err x ↦ (err x, site)
  | ok _ ↦
      if enabled
      then prepare_enabled c site_id wanted (lockfile_snapshot digest wanted) site
      else (ok nothing_mounted, some (disable c (root_or_new c site_id site)))
]

-- `reset_cache`: the directories that are left.
unfoldable pub reset_cache :
    Option String → List SiteRoot → Result CacheError (Unit {0}) × List SiteRoot
reset_cache none sites = (ok tt, [])
reset_cache (some site_id) sites = elim (validate_site_id site_id) [
  | err x ↦ (err x, sites)
  | ok _ ↦ (ok tt, delete (λ s. str_eq s.name site_id) sites)
]
