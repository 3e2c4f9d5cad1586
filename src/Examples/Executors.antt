-- ===== src/Examples/Executors.antt =====
-- Runs of the executor's parts.
use build_engine.Prelude.{
  Bool, ℕ, String, ◌≡◌, refl, ◌⊎◌, ◌&&◌, ◌||◌, ◌==◌, leb, true, Option, none, some, List, [], ◌∷◌,
  map, str_eq, if◌then◌else◌,
}
use build_engine.Result.{ok, err}
use build_engine.Json.{Json, nil, cons, end, field, int, str, arr, obj, get}
use build_engine.Protocol.Validate.{is_version}
use build_engine.Executor.Docker.{
  ImageManifestEntry, reference, is_digest, parse_entry, framework_names, parse_entries,
  parse_image_manifest, entry_of, resolve_image_reference, require_pinned_image,
}
use build_engine.Executor.Docker.EnvFile.{
  Characters, all_alnum, is_env_key, has_newline, env_line, env_lines, ended_lines, format_env_file,
}
use build_engine.Executor.Docker.Secrets.{read_env_file, read_env_file-format_env_file}
use build_engine.Executor.Docker.Pinned.{resolve_image_reference-pinned}
use build_engine.Detect.Lockfiles.{npm}
use build_engine.Executor.Stream.{Text, redact, pump_stream}
use build_engine.Executor.Stream.Frames.{IsSplit, join_all, pump_stream-IsSplit}
use build_engine.Executor.Cache.{
  CacheError, CachePrepareResult, SiteRoot, lockfile_snapshot, metadata_fields,
}
use build_engine.Executor.Cache.Prepare.{CacheCall, prepare_site_cache}
use build_engine.Executor.Cache.Prepared.{IsPrepared, prepare_site_cache-IsPrepared}
use build_engine.Executor.Cache.Prune.{PruneCall, prune_cache}
use build_engine.Executor.Cache.Refined.{IsPruned, prune_cache-IsPruned}

abbrev chunks : List (List ℕ)
chunks = (104 ∷ 105 ∷ []) ∷ (107 ∷ 101 ∷ 121 ∷ []) ∷ []

-- The secret is the text key.
abbrev secrets : List Text
secrets = (107 ∷ 101 ∷ 121 ∷ []) ∷ []

pump_stream-IsSplit_example :
    (frames : List Text) × (pump_stream (λ bytes. bytes) secrets chunks ≡ some frames)
    × IsSplit (join_all (map (λ chunk. redact secrets chunk) chunks)) frames
pump_stream-IsSplit_example = pump_stream-IsSplit (λ bytes. bytes) secrets chunks

abbrev prune_call : PruneCall
prune_call = record {
  now = 10_000_000_000;
  site_max_bytes = 5;
  ttl_days = 30;
  exclude_site_ids = "busy" ∷ [];
  modified_after = λ s. 10_000_000_000;
}

abbrev site : String → ℕ → SiteRoot
site name modified = record {
  name = name;
  disabled = none;
  metadata = none;
  files =
      record { path = "a"; size = 4; used = 2 } ∷ record { path = "b"; size = 3; used = 1 } ∷ [];
  modified = modified;
}

abbrev sites : List SiteRoot
sites = site "busy" 0 ∷ site "large" 9_999_999_999 ∷ site "old" 0 ∷ []

prune_cache-IsPruned_example : IsPruned prune_call sites (prune_cache prune_call sites).1
prune_cache-IsPruned_example = prune_cache-IsPruned prune_call sites

abbrev cache_call : CacheCall
cache_call = record {
  now = 10;
  text = "1970-01-01T00:00:00.010Z";
  size_of = λ fields. 90;
  caches = "/var/lib/build-engine/cache";
}

abbrev digest : String → Option String
digest name = if str_eq name "package-lock.json" then some "00" else none

-- A site whose cache is recorded for the lockfile that the project has.
abbrev recorded_site : SiteRoot
recorded_site = record (site "site" 0) {
  metadata = some (record {
    decoded = some (obj (metadata_fields npm "1970" (lockfile_snapshot digest npm)));
    size = 90;
    modified = 0;
  });
}

prepare_site_cache-IsPrepared_example :
    ((x : CacheError) × ((prepare_site_cache cache_call "site" npm digest true
          (some recorded_site)).0
        ≡ err x))
    ⊎ ((r : CachePrepareResult) × (root : SiteRoot) × (prepare_site_cache cache_call "site" npm
            digest true
            (some recorded_site)
          ≡ (ok r, some root))
        × IsPrepared "/var/lib/build-engine/cache/site"
            (some recorded_site)
            (lockfile_snapshot digest npm)
            r
            root)
prepare_site_cache-IsPrepared_example =
    prepare_site_cache-IsPrepared cache_call "site" npm digest (some recorded_site)

-- ASCII letters and digits.
abbrev ascii : Characters
ascii = record {
  is_alnum = λ c. (leb 48 c && leb c 57) || (leb 65 c && leb c 90) || (leb 97 c && leb c 122);
  is_digit = λ c. leb 48 c && leb c 57;
}

abbrev env : List (Text × Text)
env = (65 ∷ 95 ∷ 66 ∷ [], 61 ∷ 120 ∷ []) ∷ (67 ∷ [], []) ∷ []

abbrev env_text : Text
env_text = 65 ∷ 95 ∷ 66 ∷ 61 ∷ 61 ∷ 120 ∷ 10 ∷ 67 ∷ 61 ∷ 10 ∷ []

env_written : format_env_file ascii env ≡ ok env_text
unfolding format_env_file env_lines env_line is_env_key all_alnum has_newline ended_lines
env_written = refl

read_env_file-format_env_file_example : read_env_file env_text ≡ env
read_env_file-format_env_file_example =
    read_env_file-format_env_file ascii env env_text
      (record { no_equals = refl; no_newline = refl }) env_written

abbrev digest_text : String
digest_text = "sha256:00000000000000000000000000000000000000000000000000000000000000ff"

abbrev node : ImageManifestEntry
node = record { tag = "ghcr.io/builder/node:20"; digest = digest_text; frameworks = "astro" ∷ [] }

abbrev node_json : Json
node_json = obj (
    field "tag" (str node.tag)
      (field "digest" (str digest_text) (field "frameworks" (arr (cons (str "astro") nil)) end)))

abbrev manifest_json : Json
manifest_json = obj (
    field "version" (str "2.0.0") (
      field "engine_compat" (obj (field "proto_min" (int 2) (field "proto_max" (int 2) end)))
        (field "images" (obj (field "node-20" node_json end)) end)))

parsed : parse_image_manifest true manifest_json ≡ ok (("node-20", node) ∷ [])
unfolding parse_image_manifest parse_entries parse_entry framework_names is_digest is_version get
parsed = refl

abbrev is_blank : ℕ → Bool
is_blank c = c == 32

resolved :
    resolve_image_reference is_blank "node-20" (some (("node-20", node) ∷ [])) ≡ ok (reference node)
unfolding resolve_image_reference entry_of
resolved = refl

resolve_image_reference-pinned_example : require_pinned_image is_blank (reference node) ≡ ok tt
resolve_image_reference-pinned_example =
    resolve_image_reference-pinned is_blank true manifest_json (("node-20", node) ∷ []) "node-20"
      (reference node) parsed refl resolved
