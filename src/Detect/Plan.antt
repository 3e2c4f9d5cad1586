-- ===== src/Detect/Plan.antt =====
-- `plan_build` of src/build_engine/detect/framework.py, with `check_static_compatibility` of
-- src/build_engine/detect/compatibility.py and `run_script_command` of src/build_engine/detect/lockfiles.py.
pub mod Runnable
use Prim.Native.Char.{code}
use Prim.Native.String.{◌++◌ as join}
use build_engine.Prelude.{
  ℕ, String, Bool, true, false, not, ◌&&◌, ◌||◌, Option, none, some, List, [], ◌∷◌, map, any, codes,
  ◌==◌, str_eq, str_mem, if◌then◌else◌,
}
use build_engine.Result.{Result, ok, err, ◌>>=◌, ◌>>◌, require}
use build_engine.Detect.PackageJson.{PackageJson, script}
use build_engine.Detect.Lockfiles.{
  PackageManager, npm, pnpm, no_manager, DetectionError, PackageManagerDetection,
  detect_package_manager, install_command,
}
use build_engine.Detect.Framework.{
  FrameworkProfile, FrameworkDetection, DetectionFailure, Project, framework_profiles,
  detect_framework, command_tokens_match,
}

pub data PlanError : Type 0 where
  manager_error : DetectionError → PlanError
  framework_error : DetectionFailure → PlanError
  not_certified_manager unsupported_node node_required no_script_manager : PlanError

-- What planning takes from Python's libraries: `str.strip`, `_node_major_satisfies` over packaging's
-- specifiers, and the regular expression of `_build_targets_docs`.
pub record PlanTools : Type 0 where
  pub project : Project
  pub strip : String → String
  pub node_major_satisfies : ℕ → String → Bool
  pub builds_docs : String → Bool

pub record NodeSelection : Type 0 where
  pub major : ℕ
  pub image : String

-- The only major of SUPPORTED_NODE_MAJORS.
abbrev pub node_22 : NodeSelection
node_22 = record { major = 22; image = "node:22" }

abbrev or_text : Option String → Option String → Option String
or_text none other = other
or_text (some t) other = if str_eq t "" then other else some t

abbrev engines_of : Option PackageJson → Option String
engines_of none = none
engines_of (some p) = p.engines_node

abbrev pub requested_of : Option String → Option PackageJson → Option String
requested_of (some override) package_json = some override
requested_of none package_json = engines_of package_json

unfoldable pub select_node : PlanTools → Option String → Result PlanError NodeSelection
select_node t none = ok node_22
select_node t (some requested) =
    if str_eq (t.strip requested) ""
    then ok node_22
    else if t.node_major_satisfies 22 (t.strip requested)
    then ok node_22
    else err unsupported_node

-- `select_node_version`, for the supported majors of this release.
abbrev pub select_node_version :
    PlanTools → Option PackageJson → Option String → Result PlanError NodeSelection
select_node_version t package_json override = select_node t (requested_of override package_json)

unfoldable pub select_image : FrameworkProfile → Option NodeSelection → Result PlanError String
select_image profile selection =
    if not profile.node_based
    then ok "hugo:latest"
    else elim selection [ none ↦ err node_required | some node ↦ ok node.image ]

unfoldable pub run_script_command : PackageManager → String → Result PlanError String
run_script_command no_manager script_name = err no_script_manager
run_script_command npm script_name = ok (join "npm run " script_name)
run_script_command pnpm script_name = ok (join "pnpm run " script_name)

-- What stands behind the last slash, if there is one.
unfoldable pub after_slash : String → Option String
after_slash String.[] = none
after_slash (String.◌∷◌ c s) = elim (after_slash s) [
  | some t ↦ some t
  | none ↦ if code c == b'/' then some s else none
]

-- `marker.rsplit("/", maxsplit=1)[-1]`
unfoldable pub last_segment : String → String
last_segment marker = elim (after_slash marker) [ some t ↦ t | none ↦ marker ]

-- `_script_matches_profile`
unfoldable pub script_matches_profile : PlanTools → FrameworkProfile → String → Bool
script_matches_profile t profile text =
    let matches : String → Bool =
      λ command. not (str_eq command "") && command_tokens_match t.project text command in
    any matches profile.script_markers
    || matches profile.default_command
    || any (λ marker. matches (last_segment marker)) profile.dependency_markers

abbrev matching : PlanTools → FrameworkProfile → Option String → Bool
matching t profile none = false
matching t profile (some text) = script_matches_profile t profile text

abbrev is_there : Option String → Bool
is_there none = false
is_there (some text) = true

unfoldable pub preferred_script : PlanTools → FrameworkProfile → PackageJson → Option String
preferred_script t profile p =
    if matching t profile (script p "build")
    then some "build"
    else if matching t profile (script p "docs:build")
    then some "docs:build"
    else if str_mem profile.id ("vitepress" ∷ "vuepress" ∷ []) && is_there (script p "docs:build")
    then some "docs:build"
    else none

abbrev script_command : FrameworkProfile → PackageManager → Option String → Result PlanError String
script_command profile runner none = ok profile.default_command
script_command profile runner (some name) = run_script_command runner name

unfoldable pub default_build_command :
    PlanTools
    → FrameworkProfile
    → PackageManagerDetection
    → Option PackageJson
    → Result PlanError String
default_build_command t profile detection package_json =
    if not profile.node_based then ok profile.default_command else elim package_json [
      | none ↦ ok profile.default_command
      | some p ↦ script_command profile detection.manager (preferred_script t profile p)
    ]

abbrev pub chosen_command : Option String → Result PlanError String → Result PlanError String
chosen_command none default = default
chosen_command (some command) default = if str_eq command "" then default else ok command

unfoldable pub starts_codes : List ℕ → List ℕ → Bool
starts_codes [] ys = true
starts_codes (x ∷ xs) [] = false
starts_codes (x ∷ xs) (y ∷ ys) = x == y && starts_codes xs ys

-- `part in whole`
unfoldable pub contains_codes : List ℕ → List ℕ → Bool
contains_codes part [] = starts_codes part []
contains_codes part (c ∷ cs) = starts_codes part (c ∷ cs) || contains_codes part cs

unfoldable pub build_targets_docs : PlanTools → String → Bool
build_targets_docs t command =
    contains_codes (codes "docs:build") (codes command) || t.builds_docs command

unfoldable pub profile_output_dir : PlanTools → FrameworkProfile → String → Option String
profile_output_dir t profile command =
    if str_eq profile.id "vitepress" && build_targets_docs t command
    then some "docs/.vitepress/dist"
    else if str_eq profile.id "vuepress" && build_targets_docs t command
    then some "docs/.vuepress/dist"
    else profile.output_dir

-- SUPPORTED_FRAMEWORK_IDS, and the membership test of `check_static_compatibility`.
unfoldable pub is_supported : String → Bool
is_supported framework_id = str_mem framework_id (map (λ p. p.id) framework_profiles)

-- The keyword arguments of `plan_build`.
pub record PlanRequest : Type 0 where
  pub framework_override : Option String
  pub build_command : Option String
  pub output_dir : Option String
  pub detected_output_dir : Option String
  pub node_version : Option String

pub record BuildPlan : Type 0 where
  pub framework_id : String
  pub package_manager : PackageManager
  pub install_command : String
  pub build_command : String
  pub output_dir : Option String
  pub detected_output_dir : Option String
  pub image : String
  pub node_version : Option ℕ
  pub compatible : Bool

abbrev pub is_certified_manager : PackageManager → Bool
is_certified_manager no_manager = false
is_certified_manager _ = true

abbrev pub lift_manager :
    Result DetectionError PackageManagerDetection → Result PlanError PackageManagerDetection
lift_manager (ok d) = ok d
lift_manager (err e) = err (manager_error e)

abbrev pub lift_framework :
    Result DetectionFailure FrameworkDetection → Result PlanError FrameworkDetection
lift_framework (ok d) = ok d
lift_framework (err e) = err (framework_error e)

abbrev pub node_selection :
    PlanTools → Bool → Option PackageJson → Option String → Result PlanError (Option NodeSelection)
node_selection t false package_json override = ok none
node_selection t true package_json override =
    select_node_version t package_json override >>= λ node. ok (some node)

abbrev pub major_of : Option NodeSelection → Option ℕ
major_of none = none
major_of (some node) = some node.major

-- `plan_build`, with the file package.json as it was loaded.
unfoldable pub plan_build :
    PlanTools → Option PackageJson → PlanRequest → Result PlanError BuildPlan
plan_build t package_json q = do
  detection ← lift_manager (detect_package_manager t.project.exists package_json)
  framework ← lift_framework (detect_framework t.project package_json q.framework_override)
  require (not framework.profile.node_based || is_certified_manager detection.manager)
      not_certified_manager
  node ← node_selection t framework.profile.node_based package_json q.node_version
  image ← select_image framework.profile node
  command ←
      chosen_command q.build_command
        (default_build_command t framework.profile detection package_json)
  ok (record {
    framework_id = framework.profile.id;
    package_manager = if framework.profile.node_based then detection.manager else no_manager;
    install_command =
        install_command (if framework.profile.node_based then detection.manager else no_manager)
          t.project.exists;
    build_command = command;
    output_dir =
        or_text q.output_dir
          (or_text q.detected_output_dir (profile_output_dir t framework.profile command));
    detected_output_dir = q.detected_output_dir;
    image = image;
    node_version = major_of node;
    compatible = is_supported framework.profile.id;
  })
