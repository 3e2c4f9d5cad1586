-- ===== src/Examples/Plans.antt =====
-- Runs of the build plans.
use build_engine.Prelude.{◌≡◌, refl, true, false, none, some, [], ◌∷◌}
use build_engine.Result.{ok}
use build_engine.Json.{end}
use build_engine.Detect.PackageJson.{PackageJson}
use build_engine.Detect.Lockfiles.{npm}
use build_engine.Detect.Framework.{Project}
use build_engine.Detect.Plan.{PlanTools, PlanRequest, BuildPlan, plan_build}
use build_engine.Detect.Plan.Runnable.{IsRunnable, plan_build-IsRunnable}

-- A project of one package file, and texts of one word.
abbrev astro_project : Project
astro_project = record {
  exists = λ name. false;
  shell_split = λ text. some (text ∷ []);
  plain_split = λ text. text ∷ [];
}

abbrev plan_tools : PlanTools
plan_tools = record {
  project = astro_project;
  strip = λ text. text;
  node_major_satisfies = λ major range. true;
  builds_docs = λ command. false;
}

abbrev astro_package : PackageJson
astro_package = record {
  raw = end;
  scripts = ("build", "astro build") ∷ [];
  dependencies = ("astro", "4") ∷ [];
  dev_dependencies = [];
  optional_dependencies = [];
  peer_dependencies = [];
  package_manager = none;
  engines_node = some ">=20";
}

abbrev plain_request : PlanRequest
plain_request = record {
  framework_override = none;
  build_command = none;
  output_dir = none;
  detected_output_dir = none;
  node_version = none;
}

abbrev astro_plan : BuildPlan
astro_plan = record {
  framework_id = "astro";
  package_manager = npm;
  install_command = "npm install";
  build_command = "npm run build";
  output_dir = some "dist";
  detected_output_dir = none;
  image = "node:22";
  node_version = some 22;
  compatible = true;
}

planned : plan_build plan_tools (some astro_package) plain_request ≡ ok astro_plan
unfolding plan_build build_engine.Detect.Lockfiles.detect_package_manager
    build_engine.Detect.Lockfiles.declared_manager build_engine.Detect.Lockfiles.detect_lockfile
    build_engine.Detect.Lockfiles.first_lockfile build_engine.Detect.Framework.detect_framework
    build_engine.Detect.Framework.by_files build_engine.Detect.Framework.has_config_marker
    build_engine.Detect.Framework.by_package build_engine.Detect.PackageJson.has_dependency
    build_engine.Detect.PackageJson.is_dependency build_engine.Detect.PackageJson.lookup
    build_engine.Detect.Framework.chosen build_engine.Table.find
    build_engine.Detect.Plan.select_node build_engine.Detect.Plan.select_image
    build_engine.Detect.Plan.default_build_command build_engine.Detect.Framework.by_override
    build_engine.Detect.Framework.by_script build_engine.Detect.Framework.command_tokens_match
    build_engine.Detect.Framework.has_run build_engine.Detect.Framework.is_empty_list
    build_engine.Detect.Framework.is_prefix build_engine.Detect.Framework.script_contains_command
    build_engine.Detect.Framework.shell_tokens build_engine.Detect.Lockfiles.has_npm_lock
    build_engine.Detect.Lockfiles.install_command build_engine.Detect.Lockfiles.manager_named
    build_engine.Detect.Lockfiles.parse_package_manager build_engine.Detect.Lockfiles.partition_at
    build_engine.Detect.PackageJson.script build_engine.Detect.Plan.after_slash
    build_engine.Detect.Plan.build_targets_docs build_engine.Detect.Plan.contains_codes
    build_engine.Detect.Plan.is_supported build_engine.Detect.Plan.last_segment
    build_engine.Detect.Plan.preferred_script build_engine.Detect.Plan.profile_output_dir
    build_engine.Detect.Plan.run_script_command build_engine.Detect.Plan.script_matches_profile
    build_engine.Detect.Plan.starts_codes
planned = refl

plan_build-IsRunnable_example : IsRunnable astro_plan
plan_build-IsRunnable_example =
    plan_build-IsRunnable plan_tools (some astro_package) plain_request astro_plan planned
