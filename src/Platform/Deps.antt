-- ===== src/Platform/Deps.antt =====
-- pkg/platform/deps.go: the dependencies of a target, checked and installed. The distribution and the
-- configuration are those of the call, so a check and an installation are commands alone.
pub mod Installed
use Prim.Native.String.{◌++◌ as concat}
use dpu_simulator.Base.{
  ◌≡◌, ◌∙◌, ap, subst, sym, refl, ◌⊎◌, inl, inr, Bool, true, false, List, [], ◌∷◌, Option, none,
  some, String, if◌then◌else◌, Option-cases, Bool-cases, In, here, there,
}
use dpu_simulator.Platform.Executor.{
  Executor, Action, done, fail, ◌>>=◌, ◌>>◌, >>=-some, >>=-first, ask, each,
}

pub record Dependency (W : Type 0) : Type 0 where
  pub name : String
  pub check_cmd : List String
  pub check_func : Option (Action W Unit)
  pub install_func : Option (Action W Unit)

-- strings.Join(words, " ").
unfoldable pub join_words : List String → String
join_words [] = ""
join_words (w ∷ []) = w
join_words (w ∷ v ∷ words) = concat w (concat " " (join_words (v ∷ words)))

abbrev succeeded : {A : Type 0} → Option A → Bool
succeeded none = false
succeeded (some a) = true

module _ {W : Type 0} (x : Executor W) where
  -- `Installed` of checkDependency.
  unfoldable pub check_dependency : Dependency W → W → Bool × W
  unfolding join_words
  check_dependency dep w = elim dep.check_cmd [
    | [] ↦ elim dep.check_func [
      | none ↦ (false, w)
      | some check ↦ let (r, w') = check w in (succeeded r, w')
    ]
    | command ∷ args ↦ let (r, w') = x.execute (join_words (command ∷ args)) w in (succeeded r, w')
  ]

  unfoldable pub install_dependency : Dependency W → Action W Unit
  install_dependency dep w = elim dep.install_func [ none ↦ (none, w) | some install ↦ install w ]

  -- The dependencies that a pass of checks has not found, in order.
  unfoldable pub missing_of : List (Dependency W) → W → List (Dependency W) × W
  unfolding check_dependency
  missing_of [] w = ([], w)
  missing_of (dep ∷ deps) w =
      let (installed, w') = check_dependency dep w in
      let (missing, w'') = missing_of deps w' in (if installed then missing else dep ∷ missing, w'')

  -- One round of the second loop.
  unfoldable pub install_checked : Dependency W → Action W Unit
  unfolding install_dependency check_dependency
  install_checked dep = do
    install_dependency dep
    installed ← ask (check_dependency dep)
    if installed then done tt else fail

  unfoldable pub ensure_dependencies : List (Dependency W) → Action W Unit
  unfolding missing_of install_checked each
  ensure_dependencies deps w =
      let (missing, w') = missing_of deps w in each install_checked missing w'
