-- ===== src/Platform/Deps/Installed.antt =====
-- What a success of EnsureDependenciesWithExecutorAndDistro of pkg/platform/deps.go means.
use dpu_simulator.Base.{
  ◌≡◌, ◌∙◌, ap, subst, sym, refl, ◌⊎◌, inl, inr, true, List, [], ◌∷◌, none, some, if◌then◌else◌,
  Bool-cases, In, here, there,
}
use dpu_simulator.Platform.Executor.{
  Executor, Action, done, fail, ◌>>=◌, >>=-some, >>=-first, ask, each,
}
use dpu_simulator.Platform.Deps.{
  Dependency, check_dependency, install_dependency, missing_of, install_checked,
  ensure_dependencies,
}

module _ {W : Type 0} (x : Executor W) where
  abbrev pub Installed : Dependency W → W → Type 0
  Installed d w = (check_dependency x d w).0 ≡ true

  -- What the checks and the installations of a list leave alone: what is installed stays so.
  pub record Stable (deps : List (Dependency W)) : Type 0 where
    pub check_keeps :
        (d e : Dependency W) (w : W)
        → In d deps
        → In e deps
        → Installed d w
        → Installed d (check_dependency x e w).1
    pub install_keeps :
        (d e : Dependency W) (w : W)
        → In d deps
        → In e deps
        → Installed d w
        → Installed d (install_dependency x e w).1

  missing_of-In :
      (ds : List (Dependency W)) (w : W) (e : Dependency W) → In e (missing_of x ds w).0 → In e ds
  unfolding missing_of
  missing_of-In [] w e m = elim m [ ]
  missing_of-In (d ∷ ds) w e m =
      let rest = missing_of-In ds (check_dependency x d w).1 e in
      elim (Bool-cases (check_dependency x d w).0) [
        | inl c ↦ there (rest (rw (c, missing_of) at m))
        | inr c ↦ deeper rest (rw (c, missing_of) at m)
      ]
    where
      deeper : {xs : List (Dependency W)} → (In e xs → In e ds) → In e (d ∷ xs) → In e (d ∷ ds)
      deeper f (here h) = here h
      deeper f (there k) = there (f k)

  module _ (deps : List (Dependency W)) (stable : Stable deps) where
    pass_keeps :
        (ds : List (Dependency W))
        → ((e : Dependency W) → In e ds → In e deps)
        → (d : Dependency W) (w : W) → In d deps
        → Installed d w
        → Installed d (missing_of x ds w).1
    unfolding missing_of
    pass_keeps [] sub d w m h = h
    pass_keeps (e ∷ ds) sub d w m h =
        pass_keeps ds (λ k i. sub k (there i)) d (check_dependency x e w).1 m
          (stable.check_keeps d e w m (sub e (here refl)) h)

    found_or_missing :
        (ds : List (Dependency W))
        → ((e : Dependency W) → In e ds → In e deps)
        → (d : Dependency W) (w : W) → In d ds
        → In d (missing_of x ds w).0 ⊎ Installed d (missing_of x ds w).1
    unfolding missing_of
    found_or_missing [] sub d w m = elim m [ ]
    found_or_missing (e ∷ ds) sub d w (here same) = elim (Bool-cases (check_dependency x e w).0) [
      | inr c ↦ rw (c, missing_of) (inl (here same))
      | inl c ↦ inr (
          subst (λ k. Installed k (missing_of x ds w').1) same
            (pass_keeps ds (λ k i. sub k (there i)) e w' (sub e (here refl))
              (stable.check_keeps e e w (sub e (here refl)) (sub e (here refl)) c)))
    ]
      where
        w' : W
        w' = (check_dependency x e w).1
    found_or_missing (e ∷ ds) sub d w (there m) =
        elim (found_or_missing ds (λ k i. sub k (there i)) d (check_dependency x e w).1 m) [
          | inr h ↦ inr h
          | inl k ↦ elim (Bool-cases (check_dependency x e w).0) [
            | inl c ↦ rw (c, missing_of) (inl k)
            | inr c ↦ rw (c, missing_of) (inl (there k))
          ]
        ]

    -- A round that succeeds has installed its dependency and removed none.
    round :
        (e : Dependency W) (w : W)
        → In e deps
        → (install_checked x e w).0 ≡ some tt
        → Installed e (install_checked x e w).1
          × ((d : Dependency W) → In d deps → Installed d w → Installed d (install_checked x e w).1)
    unfolding install_checked
    round e w i ok =
        let (u, f) = >>=-first (install_dependency x e) (λ _. check) w ok in
        let next = >>=-some (install_dependency x e) (λ _. check) w f in
        let same : (install_checked x e w).1 ≡ w2 = ap (λ p. p.1) next ∙ world in
        (
          subst (Installed e) (sym same)
              (stable.check_keeps e e w1 i i (verified (sym (ap (λ p. p.0) next) ∙ ok))),
          λ d m h.
              subst (Installed d) (sym same)
                (stable.check_keeps d e w1 m i (stable.install_keeps d e w m i h)),
        )
      where
        check : Action W Unit
        check = ask (check_dependency x e) >>= λ installed. if installed then done tt else fail

        w1 : W
        w1 = (install_dependency x e w).1

        w2 : W
        w2 = (check_dependency x e w1).1

        world : (check w1).1 ≡ w2
        world = elim (Bool-cases (check_dependency x e w1).0) [
          | inl c ↦ rw c refl
          | inr c ↦ rw c refl
        ]

        none≢some : ¬ (none ≡ some (tt {0}))
        none≢some h = cc

        verified : (check w1).0 ≡ some tt → Installed e w1
        verified ok = elim (Bool-cases (check_dependency x e w1).0) [
          | inl c ↦ c
          | inr c ↦ absurd (none≢some (rw c at ok))
        ]

    rounds :
        (es : List (Dependency W))
        → ((e : Dependency W) → In e es → In e deps)
        → (w : W) → (each (install_checked x) es w).0 ≡ some tt
        → (d : Dependency W) → In d deps
        → In d es ⊎ Installed d w
        → Installed d (each (install_checked x) es w).1
    unfolding each
    rounds [] sub w ok d i (inr h) = h
    rounds [] sub w ok d i (inl m) = elim m [ ]
    rounds (e ∷ es) sub w ok d i given =
        let (u, f) = >>=-first (install_checked x e) (λ _. each (install_checked x) es) w ok in
        let next = >>=-some (install_checked x e) (λ _. each (install_checked x) es) w f in
        let (now, kept) = round e w (sub e (here refl)) f in
        subst (λ p. Installed d p.1) (sym next)
          (rounds es (λ k m. sub k (there m)) (install_checked x e w).1
            (sym (ap (λ p. p.0) next) ∙ ok) d i (later now (kept d i) given))
      where
        later :
            Installed e (install_checked x e w).1
            → (Installed d w → Installed d (install_checked x e w).1)
            → In d (e ∷ es) ⊎ Installed d w
            → In d es ⊎ Installed d (install_checked x e w).1
        later now kept (inr h) = inr (kept h)
        later now kept (inl (here same)) =
            inr (subst (λ k. Installed k (install_checked x e w).1) same now)
        later now kept (inl (there m)) = inl m

    -- Where the checks and the installations of the listed dependencies leave the others alone, and no
    -- error is returned, every listed dependency passes its check afterwards.
    pub ensure_dependencies-Installed :
        (w : W)
        → (ensure_dependencies x deps w).0 ≡ some tt
        → (d : Dependency W) → In d deps
        → Installed d (ensure_dependencies x deps w).1
    unfolding ensure_dependencies
    ensure_dependencies-Installed w ok d i =
        rounds (missing_of x deps w).0 (missing_of-In deps w) (missing_of x deps w).1 ok d i
          (found_or_missing deps (λ e m. m) d w i)
