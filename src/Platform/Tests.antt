-- ===== src/Platform/Tests.antt =====
-- A target with git on which jq can be installed.
use dpu_simulator.Base.{
  ◌≡◌, refl, subst, Bool, true, false, List, [], ◌∷◌, none, some, if◌then◌else◌, In, here, there,
}
use dpu_simulator.Base.Text.{codes}
use dpu_simulator.Platform.Distro.{parse_os_release, detect_package_manager}
use dpu_simulator.Platform.Distro.Release.{release, distro_of, parse_os_release-release}
use dpu_simulator.Platform.Executor.{Executor}
use dpu_simulator.Platform.Deps.{
  Dependency, check_dependency, install_dependency, missing_of, install_checked,
  ensure_dependencies,
}
use dpu_simulator.Platform.Deps.Installed.{Installed, Stable, ensure_dependencies-Installed}

-- The state is whether jq is there.
abbrev target : Executor Bool
target = record {
  run_cmd = λ args w. (true, w);
  execute = λ cmd w. (some "git version 2", w);
  execute_with_timeout = λ cmd d w. (none, w);
  file_exists = λ path w. (none, w);
  now = λ w. 0;
  sleep = λ d w. w;
}

abbrev jq : Dependency Bool
jq = record {
  name = "jq";
  check_cmd = [];
  check_func = some (λ w. (if w then some tt else none, w));
  install_func = some (λ w. (some tt, true));
}

abbrev git : Dependency Bool
git = record {
  name = "git";
  check_cmd = "git" ∷ "--version" ∷ [];
  check_func = none;
  install_func = none;
}

abbrev tools : List (Dependency Bool)
tools = git ∷ jq ∷ []

check_same : (e : Dependency Bool) (w : Bool) → In e tools → w ≡ (check_dependency target e w).1
unfolding check_dependency
check_same e w (here h) = subst (λ k. w ≡ (check_dependency target k w).1) h refl
check_same e w (there (here h)) = subst (λ k. w ≡ (check_dependency target k w).1) h refl
check_same e w (there (there m)) = elim m [ ]

Installed-true : (d : Dependency Bool) → In d tools → Installed target d true
unfolding check_dependency
Installed-true d (here h) = subst (λ k. Installed target k true) h refl
Installed-true d (there (here h)) = subst (λ k. Installed target k true) h refl
Installed-true d (there (there m)) = elim m [ ]

install_either :
    (e : Dependency Bool) (w : Bool)
    → In e tools
    → (P : Bool → Type 0) → P w
    → P true
    → P (install_dependency target e w).1
unfolding install_dependency
install_either e w (here h) P p t = subst (λ k. P (install_dependency target k w).1) h p
install_either e w (there (here h)) P p t = subst (λ k. P (install_dependency target k w).1) h t
install_either e w (there (there m)) P p t = elim m [ ]

tools-Stable : Stable target tools
tools-Stable = record {
  check_keeps = λ d e w i j h. subst (Installed target d) (check_same e w j) h;
  install_keeps = λ d e w i j h. install_either e w j (Installed target d) h (Installed-true d i);
}

ensure_dependencies-Installed_example :
    Installed target jq (ensure_dependencies target tools false).1
unfolding ensure_dependencies missing_of install_checked check_dependency install_dependency
ensure_dependencies-Installed_example =
    ensure_dependencies-Installed target tools tools-Stable false refl jq (there (here refl))

parse_os_release-release_example :
    parse_os_release (release (codes "ol") (codes "9") (codes "el"))
    ≡ record (distro_of (codes "ol") (codes "9") (codes "el")) {
      package_manager = detect_package_manager (distro_of (codes "ol") (codes "9") (codes "el"));
    }
parse_os_release-release_example =
    parse_os_release-release (codes "ol") (codes "9") (codes "el")
      ((refl, refl, refl), ((refl, refl, refl), tt)) ((refl, refl, refl), tt)
      ((refl, refl, refl), ((refl, refl, refl), tt))
