-- ===== src/Detect/Lockfiles.antt =====
-- Package managers: src/build_engine/detect/lockfiles.py.
use Prim.Native.Char.{code}
use build_engine.Prelude.{
  String, ◌≡◌, Bool, true, false, not, ◌&&◌, ◌||◌, ◌==◌, Option, none, some, List, [], ◌∷◌, any,
  str_eq, is_some, arith, if◌then◌else◌,
}
use build_engine.Result.{Result, ok, err, ◌>>=◌}
use build_engine.Detect.PackageJson.{PackageJson}

pub data PackageManager : Type 0 where
  npm pnpm no_manager : PackageManager

pub data DetectionError : Type 0 where
  no_name unsupported_manager unsupported_lockfile : DetectionError

pub data Source : Type 0 where
  package_manager_field lockfile fallback : Source

pub record PackageManagerDetection : Type 0 where
  pub manager : PackageManager
  pub source : Source
  pub version : Option String
  pub lockfile_name : Option String

abbrev pub lockfile_priority : List (String × PackageManager)
lockfile_priority =
    ("pnpm-lock.yaml", pnpm) ∷ ("package-lock.json", npm) ∷ ("npm-shrinkwrap.json", npm) ∷ []

abbrev pub unsupported_lockfiles : List String
unsupported_lockfiles = "bun.lockb" ∷ "bun.lock" ∷ "yarn.lock" ∷ []

-- `value.partition("@")`: what stands before the sign, whether it is there, what stands after it.
unfoldable pub partition_at : String → String × Bool × String
partition_at String.[] = ("", false, "")
partition_at (String.◌∷◌ c s) =
    let (name, found, version) = partition_at s in
    if code c == b'@' then ("", true, s) else (String.◌∷◌ c name, found, version)

abbrev pub given_version : Bool → String → Option String
given_version separator version =
    if separator && not (str_eq version "") then some version else none

unfoldable pub manager_named :
    String → Bool → String → Result DetectionError (PackageManager × Option String)
manager_named name separator version =
    if str_eq name ""
    then err no_name
    else if str_eq name "npm"
    then ok (npm, given_version separator version)
    else if str_eq name "pnpm"
    then ok (pnpm, given_version separator version)
    else err unsupported_manager

unfoldable pub parse_package_manager :
    String → Result DetectionError (PackageManager × Option String)
parse_package_manager value =
    let (name, separator, version) = partition_at value in manager_named name separator version

unfoldable pub first_lockfile :
    (String → Bool) → List (String × PackageManager) → Option (String × PackageManager)
first_lockfile exists [] = none
first_lockfile exists ((name, manager) ∷ rest) =
    if exists name then some (name, manager) else first_lockfile exists rest

abbrev from_field : PackageManager × Option String → Result DetectionError PackageManagerDetection
from_field (manager, version) = ok (record {
  manager = manager;
  source = package_manager_field;
  version = version;
  lockfile_name = none;
})

unfoldable pub detect_lockfile : (String → Bool) → Result DetectionError PackageManagerDetection
detect_lockfile exists = elim (first_lockfile exists lockfile_priority) [
  | some (name, manager) ↦
      ok
        (record { manager = manager; source = lockfile; version = none; lockfile_name = some name })
  | none ↦
      if any exists unsupported_lockfiles
      then err unsupported_lockfile
      else ok (record { manager = npm; source = fallback; version = none; lockfile_name = none })
]

-- `package_json.package_manager`, where an empty text counts as none.
unfoldable pub declared_manager : Option PackageJson → Option String
declared_manager none = none
declared_manager (some p) = elim p.package_manager [
  | none ↦ none
  | some value ↦ if str_eq value "" then none else some value
]

unfoldable pub detect_package_manager :
    (String → Bool) → Option PackageJson → Result DetectionError PackageManagerDetection
detect_package_manager exists package_json = elim (declared_manager package_json) [
  | some value ↦ do found ← parse_package_manager value; from_field found
  | none ↦ detect_lockfile exists
]

unfoldable pub has_npm_lock : (String → Bool) → Bool
has_npm_lock exists = exists "package-lock.json" || exists "npm-shrinkwrap.json"

unfoldable pub install_command : PackageManager → (String → Bool) → String
install_command no_manager exists = ""
install_command npm exists = if has_npm_lock exists then "npm ci" else "npm install"
install_command pnpm exists = "pnpm install --frozen-lockfile"

-- Without a declared manager, npm is the fallback only in a project that has no lockfile of any
-- known package manager, supported or not.
detect_package_manager-fallback :
    (exists : String → Bool) (p : Option PackageJson) (d : PackageManagerDetection)
    → declared_manager p ≡ none
    → detect_package_manager exists p ≡ ok d
    → d.source ≡ fallback
    → (has_npm_lock exists ≡ false)
      × (exists "pnpm-lock.yaml" ≡ false)
      × (any exists unsupported_lockfiles ≡ false)
unfolding detect_package_manager detect_lockfile first_lockfile has_npm_lock
detect_package_manager-fallback exists p d undeclared found by_default = ground arith

-- Without a declared manager, a detected npm project installs with `npm ci` exactly when a lockfile
-- decided for npm.
pub install_command-lockfile :
    (exists : String → Bool) (p : Option PackageJson) (d : PackageManagerDetection)
    → declared_manager p ≡ none
    → detect_package_manager exists p ≡ ok d
    → d.manager ≡ npm
    → install_command npm exists ≡ (if is_some d.lockfile_name then "npm ci" else "npm install")
unfolding detect_package_manager detect_lockfile first_lockfile has_npm_lock install_command
install_command-lockfile exists p d undeclared found is_npm = ground arith
