-- ===== src/Detect/PackageJson.antt =====
-- `PackageJson` and `load_package_json` of src/build_engine/detect/package_json.py. The file is what
-- `path.exists` and `json.loads` give: no file, no JSON, or a value.
use build_engine.Prelude.{
  String, ◌≡◌, refl, Bool, ◌||◌, Option, none, some, List, [], ◌∷◌, any, str_eq, is_some, arith,
  if◌then◌else◌,
}
use build_engine.Result.{Result, ok, err, ◌>>=◌}
use build_engine.Json.{Json, Fields, end, field, null, str, obj, get}

pub data PackageJsonError : Type 0 where
  not_json_file not_object_file : PackageJsonError
  not_object not_strings not_string : String → PackageJsonError

pub record PackageJson : Type 0 where
  pub raw : Fields
  pub scripts : List (String × String)
  pub dependencies : List (String × String)
  pub dev_dependencies : List (String × String)
  pub optional_dependencies : List (String × String)
  pub peer_dependencies : List (String × String)
  pub package_manager : Option String
  pub engines_node : Option String

unfoldable pub lookup : String → List (String × String) → Option String
lookup k [] = none
lookup k ((j, v) ∷ m) = if str_eq j k then some v else lookup k m

-- `name in self.all_dependencies`: the merged map has the keys of the four maps.
unfoldable pub is_dependency : PackageJson → String → Bool
is_dependency p name =
    is_some (lookup name p.peer_dependencies)
    || is_some (lookup name p.optional_dependencies)
    || is_some (lookup name p.dev_dependencies)
    || is_some (lookup name p.dependencies)

unfoldable pub has_dependency : PackageJson → List String → Bool
has_dependency p names = any (is_dependency p) names

-- The value of a name in `all_dependencies`: the maps that are merged later take precedence.
abbrev pub first_of : Option String → Option String → Option String
first_of none other = other
first_of (some v) other = some v

unfoldable pub all_dependencies : PackageJson → String → Option String
all_dependencies p name = first_of (lookup name p.dependencies) (
    first_of (lookup name p.dev_dependencies)
      (first_of (lookup name p.optional_dependencies) (lookup name p.peer_dependencies)))

-- `value if value else None`
unfoldable pub script : PackageJson → String → Option String
script p name = elim (lookup name p.scripts) [
  | none ↦ none
  | some value ↦ if str_eq value "" then none else some value
]

unfoldable pub string_items : String → Fields → Result PackageJsonError (List (String × String))
string_items name end = ok []
string_items name (field k (str v) fs) = do rest ← string_items name fs; ok ((k, v) ∷ rest)
string_items name (field k _ fs) = err (not_strings name)

unfoldable pub string_map : Option Json → String → Result PackageJsonError (List (String × String))
string_map none name = ok []
string_map (some null) name = ok []
string_map (some (obj fs)) name = string_items name fs
string_map (some _) name = err (not_object name)

unfoldable pub optional_string : Option Json → String → Result PackageJsonError (Option String)
optional_string none name = ok none
optional_string (some null) name = ok none
optional_string (some (str s)) name = ok (some s)
optional_string (some _) name = err (not_string name)

unfoldable pub engine_node : Option Json → Result PackageJsonError (Option String)
engine_node none = ok none
engine_node (some null) = ok none
engine_node (some (obj engines)) = optional_string (get "node" engines) "engines.node"
engine_node (some _) = err (not_object "engines")

unfoldable pub package_json_of : Fields → Result PackageJsonError PackageJson
package_json_of raw = do
  scripts ← string_map (get "scripts" raw) "scripts"
  dependencies ← string_map (get "dependencies" raw) "dependencies"
  dev ← string_map (get "devDependencies" raw) "devDependencies"
  optional ← string_map (get "optionalDependencies" raw) "optionalDependencies"
  peer ← string_map (get "peerDependencies" raw) "peerDependencies"
  manager ← optional_string (get "packageManager" raw) "packageManager"
  node ← engine_node (get "engines" raw)
  ok (record {
    raw = raw;
    scripts = scripts;
    dependencies = dependencies;
    dev_dependencies = dev;
    optional_dependencies = optional;
    peer_dependencies = peer;
    package_manager = manager;
    engines_node = node;
  })

pub data PackageFile : Type 0 where
  absent invalid : PackageFile
  parsed : Json → PackageFile

abbrev found : Result PackageJsonError PackageJson → Result PackageJsonError (Option PackageJson)
found (ok p) = ok (some p)
found (err e) = err e

unfoldable pub load_package_json : PackageFile → Result PackageJsonError (Option PackageJson)
load_package_json absent = ok none
load_package_json invalid = err not_json_file
load_package_json (parsed (obj raw)) = found (package_json_of raw)
load_package_json (parsed _) = err not_object_file

-- `has_dependency` says that some name has a value in `all_dependencies`, whichever of the four maps
-- declares it and whichever takes precedence.
has_dependency-all_dependencies :
    (p : PackageJson) (names : List String)
    → has_dependency p names ≡ any (λ name. is_some (all_dependencies p name)) names
unfolding has_dependency is_dependency all_dependencies
has_dependency-all_dependencies p [] = refl
has_dependency-all_dependencies p (n ∷ ns) = ground (arith, has_dependency-all_dependencies p ns)
