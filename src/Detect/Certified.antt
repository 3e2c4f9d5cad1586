-- ===== src/Detect/Certified.antt =====
-- Which profiles `detect_framework` of src/build_engine/detect/framework.py returns.
use build_engine.Prelude.{
  String, ◌≡◌, refl, Bool, true, false, Option, none, some, In, str_eq, str_mem, any, inl, inr,
  Bool-cases, if◌then◌else◌,
}
use build_engine.Result.{ok, err}
use build_engine.Table.{find}
use build_engine.Table.Laws.{In-find}
use build_engine.Detect.PackageJson.{PackageJson, has_dependency}
use build_engine.Detect.Framework.{
  Evidence, override, config, dependency, script_text, found_by, chosen, deferred_override,
  unknown_override, deferred_framework, nothing_detected, FrameworkProfile, Project, Detected, hugo,
  framework_profiles, detection_order, deferred_framework_ids, script_contains_command, by_override,
  by_script, by_package, by_files, detect_framework,
}

-- A detection that returns a profile of the registry, or raises.
unfoldable pub IsCertified : Detected → Type 0
IsCertified (err e) = Unit {0}
IsCertified (ok d) = In d.profile framework_profiles

order-In : (p : FrameworkProfile) → In p detection_order → In p framework_profiles
order-In p (inl e) = inl e
order-In p (inr (inl e)) = inr (inr (inr (inl e)))
order-In p (inr (inr (inl e))) = inr (inr (inr (inr (inl e))))
order-In p (inr (inr (inr (inl e)))) = inr (inr (inr (inr (inr (inl e)))))
order-In p (inr (inr (inr (inr (inl e))))) = inr (inr (inr (inr (inr (inr (inl e))))))
order-In p (inr (inr (inr (inr (inr (inl e)))))) = inr (inr (inl e))
order-In p (inr (inr (inr (inr (inr (inr (inl e))))))) = inr (inl e)
order-In p (inr (inr (inr (inr (inr (inr (inr i))))))) = absurd i

chosen-IsCertified :
    (source : Evidence) (o : Option FrameworkProfile) (other : Detected)
    → ((p : FrameworkProfile) → o ≡ some p → In p framework_profiles)
    → IsCertified other
    → IsCertified (chosen source o other)
unfolding chosen IsCertified
chosen-IsCertified source none other known rest = rest
chosen-IsCertified source (some p) other known rest = known p refl

pick-IsCertified :
    (b : Bool) (x y : Detected) → IsCertified x → IsCertified y → IsCertified (if b then x else y)
pick-IsCertified true x y cx cy = cx
pick-IsCertified false x y cx cy = cy

by_override-IsCertified : (name : String) → IsCertified (by_override name)
unfolding by_override IsCertified
by_override-IsCertified name =
    chosen-IsCertified override (find (λ p. str_eq p.id name) framework_profiles) _
      (In-find (λ p. str_eq p.id name) framework_profiles)
      (pick-IsCertified (str_mem name deferred_framework_ids) (err deferred_override)
        (err unknown_override) tt tt)

by_script-IsCertified : (e : Project) (p : PackageJson) → IsCertified (by_script e p)
unfolding by_script IsCertified
by_script-IsCertified e p =
    let says : FrameworkProfile → Bool = λ q. any (script_contains_command e p) q.script_markers in
    chosen-IsCertified script_text (find says detection_order) (err nothing_detected)
      (λ q h. order-In q (In-find says detection_order q h)) tt

by_package-IsCertified : (e : Project) (p : Option PackageJson) → IsCertified (by_package e p)
unfolding by_package IsCertified
by_package-IsCertified e none = tt
by_package-IsCertified e (some p) =
    let declares : FrameworkProfile → Bool = λ q. has_dependency p q.dependency_markers in
    pick-IsCertified _ (err deferred_framework)
      (chosen dependency (find declares detection_order) (by_script e p)) tt
      (chosen-IsCertified dependency (find declares detection_order) (by_script e p)
        (λ q h. order-In q (In-find declares detection_order q h)) (by_script-IsCertified e p))

by_files-IsCertified :
    (e : Project) (package_json : Option PackageJson) → IsCertified (by_files e package_json)
unfolding by_files IsCertified
by_files-IsCertified e package_json =
    pick-IsCertified _ (found_by config hugo) (by_package e package_json)
      (inr (inr (inr (inr (inr (inr (inr (inl refl)))))))) (by_package-IsCertified e package_json)

-- Whatever the project holds and whatever override is asked for, `detect_framework` returns a profile
-- of the registry or raises.
pub detect_framework-IsCertified :
    (e : Project) (package_json : Option PackageJson) (wanted : Option String)
    → IsCertified (detect_framework e package_json wanted)
unfolding detect_framework
detect_framework-IsCertified e package_json none = by_files-IsCertified e package_json
detect_framework-IsCertified e package_json (some name) = elim (Bool-cases (str_eq name "")) [
  | inl h ↦ rw h (by_files-IsCertified e package_json)
  | inr h ↦ rw h (by_override-IsCertified name)
]
