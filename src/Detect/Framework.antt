-- ===== src/Detect/Framework.antt =====
-- The registry and the detection of frameworks in src/build_engine/detect/framework.py. `shell_split` is
-- `shlex.split`, none where it raises, and `plain_split` is `str.split`.
use build_engine.Prelude.{
  String, Bool, true, false, not, ◌&&◌, ◌||◌, Option, none, some, List, [], ◌∷◌, any, str_eq,
  str_mem, if◌then◌else◌,
}
use build_engine.Result.{Result, ok, err}
use build_engine.Table.{find}
use build_engine.Detect.PackageJson.{PackageJson, has_dependency}

pub record FrameworkProfile : Type 0 where
  pub id : String
  pub name : String
  pub default_command : String
  pub output_dir : Option String
  pub dependency_markers : List String
  pub script_markers : List String
  pub config_markers : List String
  pub node_based : Bool

abbrev pub astro : FrameworkProfile
astro = record {
  id = "astro";
  name = "Astro";
  default_command = "astro build";
  output_dir = some "dist";
  dependency_markers = "astro" ∷ [];
  script_markers = "astro build" ∷ [];
  config_markers = [];
  node_based = true;
}

abbrev pub vite : FrameworkProfile
vite = record {
  id = "vite";
  name = "Vite";
  default_command = "vite build";
  output_dir = some "dist";
  dependency_markers = "vite" ∷ [];
  script_markers = "vite build" ∷ [];
  config_markers = [];
  node_based = true;
}

abbrev pub eleventy : FrameworkProfile
eleventy = record {
  id = "eleventy";
  name = "Eleventy";
  default_command = "eleventy";
  output_dir = some "_site";
  dependency_markers = "@11ty/eleventy" ∷ "eleventy" ∷ [];
  script_markers = "eleventy" ∷ [];
  config_markers = ".eleventy.js" ∷ "eleventy.config.js" ∷ "eleventy.config.mjs" ∷ [];
  node_based = true;
}

abbrev pub docusaurus : FrameworkProfile
docusaurus = record {
  id = "docusaurus";
  name = "Docusaurus";
  default_command = "docusaurus build";
  output_dir = some "build";
  dependency_markers = "@docusaurus/core" ∷ [];
  script_markers = "docusaurus build" ∷ [];
  config_markers = "docusaurus.config.js" ∷ "docusaurus.config.ts" ∷ [];
  node_based = true;
}

abbrev pub vitepress : FrameworkProfile
vitepress = record {
  id = "vitepress";
  name = "VitePress";
  default_command = "vitepress build";
  output_dir = some ".vitepress/dist";
  dependency_markers = "vitepress" ∷ [];
  script_markers = "vitepress build" ∷ [];
  config_markers = [];
  node_based = true;
}

abbrev pub vuepress : FrameworkProfile
vuepress = record {
  id = "vuepress";
  name = "VuePress";
  default_command = "vuepress build";
  output_dir = some "dist";
  dependency_markers = "vuepress" ∷ "vuepress-vite" ∷ [];
  script_markers = "vuepress build" ∷ [];
  config_markers = [];
  node_based = true;
}

abbrev pub gatsby : FrameworkProfile
gatsby = record {
  id = "gatsby";
  name = "Gatsby";
  default_command = "gatsby build";
  output_dir = some "public";
  dependency_markers = "gatsby" ∷ [];
  script_markers = "gatsby build" ∷ [];
  config_markers = [];
  node_based = true;
}

abbrev pub hugo : FrameworkProfile
hugo = record {
  id = "hugo";
  name = "Hugo";
  default_command = "hugo";
  output_dir = some "public";
  dependency_markers = [];
  script_markers = [];
  config_markers = "hugo.toml" ∷ "hugo.yaml" ∷ "hugo.json" ∷ [];
  node_based = false;
}

abbrev pub framework_profiles : List FrameworkProfile
framework_profiles =
    astro ∷ vite ∷ eleventy ∷ docusaurus ∷ vitepress ∷ vuepress ∷ gatsby ∷ hugo ∷ []

abbrev pub detection_order : List FrameworkProfile
detection_order = astro ∷ docusaurus ∷ vitepress ∷ vuepress ∷ gatsby ∷ eleventy ∷ vite ∷ []

abbrev pub deferred_framework_ids : List String
deferred_framework_ids =
    "bun" ∷ "yarn" ∷ "zola" ∷ "generic" ∷ "angular" ∷ "remix" ∷ "next" ∷ "nuxt" ∷ "sveltekit" ∷ []

pub data DetectionFailure : Type 0 where
  deferred_override unknown_override deferred_framework nothing_detected : DetectionFailure

pub data Evidence : Type 0 where
  override config dependency script_text : Evidence

pub record FrameworkDetection : Type 0 where
  pub profile : FrameworkProfile
  pub source : Evidence

-- What detection takes from the standard library and from the project directory.
pub record Project : Type 0 where
  pub exists : String → Bool
  pub shell_split : String → Option (List String)
  pub plain_split : String → List String

-- `_shell_tokens`
unfoldable pub shell_tokens : Project → String → List String
shell_tokens e value = elim (e.shell_split value) [
  | none ↦ e.plain_split value
  | some tokens ↦ tokens
]

unfoldable pub is_prefix : List String → List String → Bool
is_prefix [] ts = true
is_prefix (c ∷ cs) [] = false
is_prefix (c ∷ cs) (t ∷ ts) = str_eq t c && is_prefix cs ts

-- Some run of the script's tokens is the command.
unfoldable pub has_run : List String → List String → Bool
has_run cs [] = false
has_run cs (t ∷ ts) = is_prefix cs (t ∷ ts) || has_run cs ts

unfoldable pub is_empty_list : List String → Bool
is_empty_list [] = true
is_empty_list (t ∷ ts) = false

-- `_command_tokens_match`
unfoldable pub command_tokens_match : Project → String → String → Bool
command_tokens_match e script command =
    not (is_empty_list (shell_tokens e command))
    && has_run (shell_tokens e command) (shell_tokens e script)

-- `_script_contains_command`
unfoldable pub script_contains_command : Project → PackageJson → String → Bool
script_contains_command e p command =
    any (λ (s : String × String). command_tokens_match e s.1 command) p.scripts

-- `_has_config_marker`
unfoldable pub has_config_marker : Project → List String → Bool
has_config_marker e markers = any e.exists markers

abbrev pub Detected : Type 0
Detected = Result DetectionFailure FrameworkDetection

abbrev pub found_by : Evidence → FrameworkProfile → Detected
found_by source profile = ok (record { profile = profile; source = source })

-- The first profile that a loop finds, or what follows the loop.
unfoldable pub chosen : Evidence → Option FrameworkProfile → Detected → Detected
chosen source (some profile) otherwise_ = found_by source profile
chosen source none otherwise_ = otherwise_

unfoldable pub by_override : String → Detected
by_override name =
    chosen override (find (λ p. str_eq p.id name) framework_profiles)
      (if str_mem name deferred_framework_ids then err deferred_override else err unknown_override)

unfoldable pub by_script : Project → PackageJson → Detected
by_script e p =
    chosen script_text
      (find (λ q. any (script_contains_command e p) q.script_markers) detection_order)
      (err nothing_detected)

unfoldable pub by_package : Project → Option PackageJson → Detected
by_package e none = err nothing_detected
by_package e (some p) =
    if has_dependency p ("next" ∷ "nuxt" ∷ "@sveltejs/kit" ∷ "@angular/core" ∷ [])
    then err deferred_framework
    else chosen dependency (find (λ q. has_dependency p q.dependency_markers) detection_order)
        (by_script e p)

unfoldable pub by_files : Project → Option PackageJson → Detected
by_files e package_json =
    if has_config_marker e ("hugo.toml" ∷ "hugo.yaml" ∷ "hugo.json" ∷ [])
    then found_by config hugo
    else by_package e package_json

-- `detect_framework`; an empty override counts as none.
unfoldable pub detect_framework : Project → Option PackageJson → Option String → Detected
detect_framework e package_json none = by_files e package_json
detect_framework e package_json (some name) =
    if str_eq name "" then by_files e package_json else by_override name
