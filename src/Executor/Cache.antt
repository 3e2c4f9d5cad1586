-- ===== src/Executor/Cache.antt =====
-- The build caches of src/build_engine/executor/cache.py: the files of a site's cache and what is
-- read in them.
pub mod Prepare
pub mod Prune
pub mod Prepared
pub mod Pruned
pub mod Refined
use Prim.Native.String.{◌++◌ as join}
use build_engine.Prelude.{
  ℕ, ◌+◌, String, Bool, true, false, not, ◌&&◌, ◌||◌, Option, none, some, List, [], ◌∷◌, ◌==◌, leb,
  ltb, length, codes, is_some, str_eq, if◌then◌else◌,
}
use build_engine.Result.{Result, ok, err, ◌>>=◌, ◌>>◌, require}
use build_engine.Json.{Json, Fields, end, field, str, obj, null, get}
use build_engine.Table.{find, delete}
use build_engine.Detect.Lockfiles.{PackageManager, npm, pnpm, no_manager, lockfile_priority}

abbrev pub manager_name : PackageManager → String
manager_name npm = "npm"
manager_name pnpm = "pnpm"
manager_name no_manager = "none"

pub data CacheError : Type 0 where
  unsafe_site invalid_metadata invalid_lockfile : CacheError

pub record LockfileSnapshot : Type 0 where
  pub name : String
  pub sha256 : String

-- A file of package data; `used` is the time of its last access.
pub record CacheFile : Type 0 where
  pub path : String
  pub size : ℕ
  pub used : ℕ

-- The file METADATA_FILENAME: what `json.loads` reads in it, none where that raises.
pub record MetadataFile : Type 0 where
  pub decoded : Option Json
  pub size : ℕ
  pub modified : ℕ

-- The directory of a site. `disabled` is the size of the file DISABLED_MARKER_FILENAME, if it is
-- there, and `modified` the time of the directory itself. `files` are the other files in it.
pub record SiteRoot : Type 0 where
  pub name : String
  pub disabled : Option ℕ
  pub metadata : Option MetadataFile
  pub files : List CacheFile
  pub modified : ℕ

abbrev pub is_site_char : ℕ → Bool
is_site_char c =
    (leb 65 c && leb c 90)
    || (leb 97 c && leb c 122)
    || (leb 48 c && leb c 57)
    || c == 95
    || c == 45

abbrev all_safe : List ℕ → Bool
all_safe [] = true
all_safe (c ∷ cs) = is_site_char c && all_safe cs

-- [A-Za-z0-9_-]{1,128}
unfoldable pub is_site_id : String → Bool
is_site_id site_id =
    let cs = codes site_id in leb 1 (length cs) && leb (length cs) 128 && all_safe cs

-- The call of `_validate_site_id`.
unfoldable pub validate_site_id : String → Result CacheError (Unit {0})
validate_site_id site_id = require (is_site_id site_id) unsafe_site

-- The regular files of the project's root, by name, with their digests.
unfoldable pub snapshot_in :
    (String → Option String)
    → PackageManager
    → List (String × PackageManager)
    → Option LockfileSnapshot
snapshot_in digest wanted [] = none
snapshot_in digest wanted ((filename, of_manager) ∷ more) =
    if not (str_eq (manager_name of_manager) (manager_name wanted))
    then snapshot_in digest wanted more
    else elim (digest filename) [
      | none ↦ snapshot_in digest wanted more
      | some sha256 ↦ some (record { name = filename; sha256 = sha256 })
    ]

abbrev pub lockfile_snapshot : (String → Option String) → PackageManager → Option LockfileSnapshot
lockfile_snapshot digest wanted = snapshot_in digest wanted lockfile_priority

-- `_read_metadata`
unfoldable pub read_metadata : Option MetadataFile → Result CacheError (Option Fields)
read_metadata none = ok none
read_metadata (some file) = elim file.decoded [
  | some (obj fields) ↦ ok (some fields)
  | _ ↦ err invalid_metadata
]

abbrev lockfile_texts : Option Json → Option Json → Result CacheError (Option LockfileSnapshot)
lockfile_texts (some (str name)) (some (str sha256)) =
    ok (some (record { name = name; sha256 = sha256 }))
lockfile_texts _ _ = err invalid_lockfile

unfoldable pub metadata_lockfile : Fields → Result CacheError (Option LockfileSnapshot)
metadata_lockfile metadata = elim (get "lockfile" metadata) [
  | none ↦ ok none
  | some null ↦ ok none
  | some (obj lockfile) ↦ lockfile_texts (get "name" lockfile) (get "sha256" lockfile)
  | some _ ↦ err invalid_lockfile
]

abbrev pub same_lockfile : Option LockfileSnapshot → Option LockfileSnapshot → Bool
same_lockfile none none = true
same_lockfile (some a) (some b) = str_eq a.name b.name && str_eq a.sha256 b.sha256
same_lockfile _ _ = false

abbrev lockfile_json : Option LockfileSnapshot → Json
lockfile_json none = null
lockfile_json (some l) = obj (field "name" (str l.name) (field "sha256" (str l.sha256) end))

-- What `_write_metadata` writes.
abbrev pub metadata_fields : PackageManager → String → Option LockfileSnapshot → Fields
metadata_fields wanted updated_at lockfile =
    field "package_manager" (str (manager_name wanted))
      (field "lockfile" (lockfile_json lockfile) (field "updated_at" (str updated_at) end))

pub record CachePrepareResult : Type 0 where
  pub mounts : List (String × String)
  pub event : Option String
  pub lockfile : Option LockfileSnapshot

-- `mounts`: host and container paths.
unfoldable pub mounts_of : PackageManager → String → List (String × String)
mounts_of no_manager root = (root, "/cache") ∷ []
mounts_of _ root = (root, "/cache") ∷ (join root "/node-home", "/home/node") ∷ []
