-- ===== src/Detect/Plan/Runnable.antt =====
-- The plans that `plan_build` of src/build_engine/detect/framework.py returns.
use build_engine.Prelude.{
  String, ◌≡◌, refl, ap, sym, subst, ◌∙◌, ◌⊎◌, inl, inr, true, false, not, ◌||◌, Option, none, some,
  List, [], ◌∷◌, In, map, str_mem, eq_refl, Bool-cases, arith,
}
use build_engine.Result.{Result, ok, err, >>=-eq-ok, require}
use build_engine.Detect.PackageJson.{PackageJson}
use build_engine.Detect.Lockfiles.{no_manager, detect_package_manager, install_command}
use build_engine.Detect.Framework.{
  FrameworkProfile, FrameworkDetection, DetectionFailure, framework_profiles, detect_framework,
}
use build_engine.Detect.Certified.{IsCertified, detect_framework-IsCertified}
use build_engine.Detect.Plan.{
  PlanTools, PlanRequest, PlanError, NodeSelection, major_of, BuildPlan, plan_build, lift_manager,
  lift_framework, node_selection, select_node, requested_of, select_image, chosen_command,
  default_build_command, is_certified_manager, is_supported, not_certified_manager,
}

-- A plan for a certified profile: one of Node with npm or pnpm and the supported image, or one
-- without a package manager.
pub record IsRunnable (plan : BuildPlan) : Type 0 where
  pub profile : FrameworkProfile
  pub certified : In profile framework_profiles
  pub same_id : plan.framework_id ≡ profile.id
  pub compatible : plan.compatible ≡ true
  pub runs :
      ((profile.node_based ≡ true)
        × (is_certified_manager plan.package_manager ≡ true)
        × (plan.image ≡ "node:22")
        × (plan.node_version ≡ some 22))
      ⊎ ((profile.node_based ≡ false)
          × (plan.package_manager ≡ no_manager)
          × (plan.install_command ≡ "")
          × (plan.image ≡ "hugo:latest")
          × (plan.node_version ≡ none))

returned-eq : (X V : Type 0) (call : Result X V) (v w : V) → call ≡ ok v → call ≡ ok w → v ≡ w
returned-eq X V call v w e f = cc

In-supported :
    (p : FrameworkProfile) (ps : List FrameworkProfile)
    → In p ps
    → str_mem p.id (map (λ q. q.id) ps) ≡ true
In-supported p [] i = absurd i
In-supported p (q ∷ qs) (inl e) = ground (arith, e, eq_refl p.id)
In-supported p (q ∷ qs) (inr i) = ground (arith, In-supported p qs i)

lift_framework-certified :
    (o : Result DetectionFailure FrameworkDetection) (d : FrameworkDetection)
    → IsCertified o
    → lift_framework o ≡ ok d
    → In d.profile framework_profiles
unfolding IsCertified
lift_framework-certified (err x) d c h = absurd (cc)
lift_framework-certified (ok f) d c h =
    let same : f ≡ d = cc in
    subst (λ (x : FrameworkDetection). In x.profile framework_profiles) same c

select_node-22 :
    (t : PlanTools) (requested : Option String) (node : NodeSelection)
    → select_node t requested ≡ ok node
    → (node.major ≡ 22) × (node.image ≡ "node:22")
unfolding select_node
select_node-22 t requested node h = ground arith

module _ (t : PlanTools) (package_json : Option PackageJson) (profile : FrameworkProfile) where
  node_profile :
      (override : Option String) (node : Option NodeSelection) (image : String)
      → profile.node_based ≡ true
      → node_selection t profile.node_based package_json override ≡ ok node
      → select_image profile node ≡ ok image
      → (image ≡ "node:22") × (major_of node ≡ some 22)
  unfolding select_image
  node_profile override node image based h i =
      let h' : node_selection t true package_json override ≡ ok node = ground (arith, h, based) in
      let (n, one, h1) = >>=-eq-ok (select_node t (requested_of override package_json)) _ h' in
      let (is_22, its_image) = select_node-22 t (requested_of override package_json) n one in
      let same : some n ≡ node = cc in
      let shown : select_image profile (some n) ≡ ok image =
        subst (λ o. select_image profile o ≡ ok image) (sym same) i in
      (ground (arith, shown, based, its_image), ap major_of (sym same) ∙ ap some is_22)

  other_profile :
      (override : Option String) (node : Option NodeSelection) (image : String)
      → profile.node_based ≡ false
      → node_selection t profile.node_based package_json override ≡ ok node
      → select_image profile node ≡ ok image
      → (image ≡ "hugo:latest") × (major_of node ≡ none)
  unfolding select_image
  other_profile override node image based h i =
      let h' : node_selection t false package_json override ≡ ok node = ground (arith, h, based) in
      let same : none ≡ node = cc in (ground (arith, i, based), ap major_of (sym same))

-- A plan that `plan_build` returns is for a profile of the registry and is marked compatible. A
-- profile based on Node is built with npm or pnpm in the image of the supported Node version, and
-- any other installs nothing.
pub plan_build-IsRunnable :
    (t : PlanTools) (package_json : Option PackageJson) (q : PlanRequest) (plan : BuildPlan)
    → plan_build t package_json q ≡ ok plan
    → IsRunnable plan
unfolding plan_build is_supported install_command
plan_build-IsRunnable t package_json q plan h =
    let (detection, _, h1) =
      >>=-eq-ok (lift_manager (detect_package_manager t.project.exists package_json)) _ h in
    let detect = detect_framework t.project package_json q.framework_override in
    let (framework, found, h2) = >>=-eq-ok (lift_framework detect) _ h1 in
    let profile = framework.profile in
    let certified =
      lift_framework-certified detect framework
        (detect_framework-IsCertified t.project package_json q.framework_override) found in
    let managed = not profile.node_based || is_certified_manager detection.manager in
    let (_, checked, h3) = >>=-eq-ok (require managed not_certified_manager) _ h2 in
    let (node, selected, h4) =
      >>=-eq-ok (node_selection t profile.node_based package_json q.node_version) _ h3 in
    let (image, shown, h5) = >>=-eq-ok (select_image profile node) _ h4 in
    let (command, _, h6) =
      >>=-eq-ok
        (chosen_command q.build_command (default_build_command t profile detection package_json)) _
        h5 in
    let known = In-supported profile framework_profiles certified in
    let same = returned-eq PlanError BuildPlan _ _ plan refl h6 in
    subst IsRunnable same (record {
      profile = profile;
      certified = certified;
      same_id = refl;
      compatible = known;
      runs = elim (Bool-cases profile.node_based) [
        | inl based ↦
            let (its_image, major) =
              node_profile t package_json profile q.node_version node image based selected shown in
            inl (based, ground (arith, based, checked), its_image, major)
        | inr based ↦
            let (its_image, major) =
              other_profile t package_json profile q.node_version node image based selected shown in
            inr (based, rw based refl, rw based refl, its_image, major)
      ];
    })
