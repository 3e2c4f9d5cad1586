-- ===== src/Executor/Docker.antt =====
-- src/build_engine/executor/docker_runner.py and src/build_engine/executor/network.py: the images and the arguments of a
-- container. `is_space` is what `\s` matches.
pub mod EnvFile
pub mod Secrets
pub mod Pinned
pub mod Process
use Prim.Native.String.{◌++◌ as join}
use build_engine.Prelude.{
  ℕ, String, Bool, true, false, not, ◌&&◌, ◌||◌, Option, none, some, List, [], ◌∷◌, ◌++◌, ◌==◌, leb,
  length, drop, take, codes, str_eq, is_some, any, if◌then◌else◌,
}
use build_engine.Result.{Result, ok, err, ◌>>=◌, ◌>>◌, require}
use build_engine.Json.{Json, Items, nil, cons, Fields, end, field, str, arr, obj, get}
use build_engine.Protocol.Validate.{is_version}

-- `NetworkPolicyError` of src/build_engine/executor/network.py.
pub data NetworkPolicyError : Type 0 where
  other_network : NetworkPolicyError

-- What the functions of this file raise: a `DockerError`, or the `NetworkPolicyError` of
-- `network_args`, which is none.
pub data DockerError : Type 0 where
  network_policy : NetworkPolicyError → DockerError
  not_an_object no_version incompatible bad_version no_images bad_entry : DockerError
  missing_tag missing_digest missing_frameworks : String → DockerError
  not_in_manifest not_pinned no_manifest_path bad_key newline_in_value : DockerError

pub record ImageManifestEntry : Type 0 where
  pub tag : String
  pub digest : String
  pub frameworks : List String

abbrev pub reference : ImageManifestEntry → String
reference entry = join entry.tag (join "@" entry.digest)

abbrev is_hex : ℕ → Bool
is_hex c = (leb 48 c && leb c 57) || (leb 97 c && leb c 102)

abbrev all_hex : List ℕ → Bool
all_hex [] = true
all_hex (c ∷ cs) = is_hex c && all_hex cs

-- [0-9a-f]{64}
abbrev hex_digits : List ℕ → Bool
hex_digits cs = length cs == 64 && all_hex cs

-- sha256:[0-9a-f]{64}
unfoldable pub is_digest : List ℕ → Bool
is_digest cs =
    (length (take 7 cs) == 7 && same_codes (take 7 cs) (codes "sha256:")) && hex_digits (drop 7 cs)
  where
    same_codes : List ℕ → List ℕ → Bool
    same_codes [] ys = true
    same_codes (x ∷ xs) [] = false
    same_codes (x ∷ xs) (y ∷ ys) = x == y && same_codes xs ys

-- [^\s@]*@ and the rest.
unfoldable pub after_at : (ℕ → Bool) → List ℕ → Option (List ℕ)
after_at is_space [] = none
after_at is_space (c ∷ cs) =
    if c == 64 then some cs else if is_space c then none else after_at is_space cs

abbrev digest_follows : Option (List ℕ) → Bool
digest_follows none = false
digest_follows (some cs) = is_digest cs

abbrev starts_at : List ℕ → Bool
starts_at [] = true
starts_at (c ∷ cs) = c == 64

-- [^\s@]+@sha256:[0-9a-f]{64}
unfoldable pub is_pinned : (ℕ → Bool) → List ℕ → Bool
is_pinned is_space cs = not (starts_at cs) && digest_follows (after_at is_space cs)

unfoldable pub require_pinned_image : (ℕ → Bool) → String → Result DockerError (Unit {0})
require_pinned_image is_space image = require (is_pinned is_space (codes image)) not_pinned

abbrev non_empty : Option Json → Bool
non_empty (some (str s)) = not (str_eq s "")
non_empty _ = false

abbrev compatible : Option Json → Bool
compatible (some (obj c)) = is_version (get "proto_min" c) && is_version (get "proto_max" c)
compatible _ = false

abbrev pub check_v2 : Bool → Fields → Result DockerError (Unit {0})
check_v2 false decoded = ok tt
check_v2 true decoded =
    require (non_empty (get "version" decoded)) no_version
    >> require (compatible (get "engine_compat" decoded)) incompatible

abbrev pub none_or_text : Option Json → Bool
none_or_text none = true
none_or_text (some Json.null) = true
none_or_text (some (str s)) = not (str_eq s "")
none_or_text _ = false

unfoldable pub framework_names : Items → Option (List String)
framework_names nil = some []
framework_names (cons (str s) more) = elim (framework_names more) [
  | none ↦ none
  | some names ↦ if str_eq s "" then none else some (s ∷ names)
]
framework_names (cons _ more) = none

abbrev text_at : String → Fields → DockerError → Result DockerError String
text_at key entry problem = elim (get key entry) [
  | some (str s) ↦ if str_eq s "" then err problem else ok s
  | _ ↦ err problem
]

abbrev names_at : String → Option Json → Result DockerError (List String)
names_at key (some (arr items)) = elim (framework_names items) [
  | none ↦ err (missing_frameworks key)
  | some names ↦ ok names
]
names_at key _ = err (missing_frameworks key)

unfoldable pub parse_entry : String → Json → Result DockerError ImageManifestEntry
parse_entry key (obj entry) = do
  tag ← text_at "tag" entry (missing_tag key)
  digest ← text_at "digest" entry (missing_digest key)
  require (is_digest (codes digest)) (missing_digest key)
  frameworks ← names_at key (get "frameworks" entry)
  ok (record { tag = tag; digest = digest; frameworks = frameworks })
parse_entry key _ = err bad_entry

abbrev pub Manifest : Type 0
Manifest = List (String × ImageManifestEntry)

unfoldable pub parse_entries : Fields → Result DockerError Manifest
parse_entries end = ok []
parse_entries (field key entry more) = do
  first ← parse_entry key entry
  rest ← parse_entries more
  ok ((key, first) ∷ rest)

abbrev pub image_entries : Option Json → Result DockerError Manifest
image_entries (some (obj (field key entry more))) = parse_entries (field key entry more)
image_entries _ = err no_images

unfoldable pub parse_image_manifest : Bool → Json → Result DockerError Manifest
parse_image_manifest require_protocol_v2 (obj decoded) = do
  check_v2 require_protocol_v2 decoded
  require (none_or_text (get "version" decoded)) bad_version
  image_entries (get "images" decoded)
parse_image_manifest require_protocol_v2 _ = err not_an_object

unfoldable pub entry_of : String → Manifest → Option ImageManifestEntry
entry_of image [] = none
entry_of image ((key, entry) ∷ more) = if str_eq key image then some entry else entry_of image more

unfoldable pub entry_named : String → Manifest → Option ImageManifestEntry
entry_named image [] = none
entry_named image ((key, entry) ∷ more) =
    if str_eq image entry.tag || str_eq image (reference entry)
    then some entry
    else entry_named image more

abbrev reference_of : Option ImageManifestEntry → Result DockerError String
reference_of none = err not_in_manifest
reference_of (some entry) = ok (reference entry)

unfoldable pub resolve_image_reference :
    (ℕ → Bool) → String → Option Manifest → Result DockerError String
resolve_image_reference is_space image none = require_pinned_image is_space image >> ok image
resolve_image_reference is_space image (some manifest) = elim (entry_of image manifest) [
  | some entry ↦ ok (reference entry)
  | none ↦ reference_of (entry_named image manifest)
]

-- `network_args`
unfoldable pub network_args : String → Result NetworkPolicyError (List String)
network_args mode =
    if str_eq mode "bridge" then ok ("--network" ∷ "bridge" ∷ []) else err other_network

abbrev raised_through {ℓ} : {A : Type ℓ} → Result NetworkPolicyError A → Result DockerError A
raised_through (ok a) = ok a
raised_through (err x) = err (network_policy x)

-- What `docker_run_args` reads of the spec and of its other arguments, the numbers and paths as
-- texts, with the defaults of the configuration in place.
pub record RunArgs : Type 0 where
  pub docker_bin : String
  pub image : String
  pub command : String
  pub container_label : String
  pub memory : String
  pub cpus : String
  pub pids_limit : String
  pub user : String
  pub network_mode : String
  pub project_root : String
  pub source_root : String
  pub output_root : String
  pub has_build_manifest : Bool
  pub build_manifest_path : Option String
  pub cache_mounts : List (String × String)
  pub environment : List (String × String)
  pub env_file_path : Option String
  pub cidfile_path : Option String

abbrev volume : String → String → List String
volume host container = "--volume" ∷ join host (join ":" container) ∷ []

abbrev workspace_volumes : RunArgs → Result DockerError (List String)
workspace_volumes r =
    if r.has_build_manifest
    then elim r.build_manifest_path [
      | none ↦ err no_manifest_path
      | some path ↦ ok (
          volume path "/build/manifest.json:ro"
          ++ volume r.source_root "/workspace/src:rw"
          ++ volume r.output_root "/workspace/out:rw")
    ]
    else ok (volume r.project_root "/workspace:rw")

unfoldable pub mount_args : List (String × String) → List String
mount_args [] = []
mount_args ((host, container) ∷ more) = volume host (join container ":rw") ++ mount_args more

-- The items of the environment, in the order of their keys.
unfoldable pub env_args : List (String × String) → List String
env_args [] = []
env_args ((key, value) ∷ more) = "--env" ∷ join key (join "=" value) ∷ env_args more

abbrev path_args : String → Option String → List String
path_args option none = []
path_args option (some path) = option ∷ path ∷ []

abbrev hardening : RunArgs → List String
hardening r =
    r.docker_bin ∷ "run" ∷ "--rm" ∷ "--init" ∷ "--label" ∷ r.container_label ∷ "--memory" ∷ r.memory
    ∷ "--memory-swap" ∷ r.memory ∷ "--cpus" ∷ r.cpus ∷ "--pids-limit" ∷ r.pids_limit ∷ "--read-only"
    ∷ "--user" ∷ r.user ∷ "--cap-drop" ∷ "ALL" ∷ "--security-opt" ∷ "no-new-privileges" ∷ "--tmpfs"
    ∷ "/tmp:rw,noexec,nosuid,size=512m" ∷ []

unfoldable pub docker_run_args : (ℕ → Bool) → RunArgs → Result DockerError (List String)
docker_run_args is_space r = do
  require_pinned_image is_space r.image
  network ← raised_through (network_args r.network_mode)
  volumes ← workspace_volumes r
  ok (
      hardening r
      ++ network
      ++ ("--workdir" ∷ (if r.has_build_manifest then "/workspace/src" else "/workspace") ∷ [])
      ++ volumes
      ++ mount_args r.cache_mounts
      ++ env_args r.environment
      ++ path_args "--env-file" r.env_file_path
      ++ path_args "--cidfile" r.cidfile_path
      ++ (if r.has_build_manifest then r.image ∷ [] else r.image ∷ "sh" ∷ "-c" ∷ r.command ∷ []))
