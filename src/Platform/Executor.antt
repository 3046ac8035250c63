-- ===== src/Platform/Executor.antt =====
-- CommandExecutor of pkg/platform/executor.go: commands run on a target, here a world that each of them
-- reads and changes. Where they run and what they do is not decided here.
use Prim.Native.String.{◌++◌ as concat}
use dpu_simulator.Base.{
  ℕ, Bool, List, [], ◌∷◌, str_eq, Option, none, some, String, ◌≡◌, ◌∙◌, ap, sym, inl, inr,
  Option-cases, if◌then◌else◌,
}

-- An error is `false` or `none`; what a command wrote before it failed stays written.
pub record Executor (W : Type 0) : Type 0 where
  pub run_cmd : List String → W → Bool × W
  pub execute : String → W → Option String × W
  pub execute_with_timeout : String → ℕ → W → Option String × W
  pub file_exists : String → W → Option Bool × W
  pub now : W → ℕ
  pub sleep : ℕ → W → W

-- A Go function that returns an error besides its value.
abbrev pub Action : Type 0 → Type 0 → Type 0
Action W A = W → Option A × W

module _ {W A : Type 0} where
  abbrev pub done : A → Action W A
  done a w = (some a, w)

  abbrev pub fail : Action W A
  fail w = (none, w)

-- What follows an action, from its result and the world that it left.
abbrev pub resume : {W A B : Type 0} → Option A → W → (A → Action W B) → Option B × W
resume none w f = (none, w)
resume (some a) w f = f a w

infixl 5 ◌>>=◌ ◌>>◌
abbrev pub ◌>>=◌ : {W A B : Type 0} → Action W A → (A → Action W B) → Action W B
◌>>=◌ m f w = resume (m w).0 (m w).1 f

abbrev pub ◌>>◌ : {W A B : Type 0} → Action W A → Action W B → Action W B
m >> k = m >>= λ _. k

module _ {W A B : Type 0} (m : Action W A) (f : A → Action W B) (w : W) where
  pub >>=-some : {a : A} → (m w).0 ≡ some a → (m >>= f) w ≡ f a (m w).1
  >>=-some e = ap (λ o. resume o (m w).1 f) e

  pub >>=-none : (m w).0 ≡ none → (m >>= f) w ≡ (none, (m w).1)
  >>=-none e = ap (λ o. resume o (m w).1 f) e

  -- A sequence that succeeds has a first action that succeeds.
  pub >>=-first : {b : B} → ((m >>= f) w).0 ≡ some b → (a : A) × ((m w).0 ≡ some a)
  >>=-first ok = elim (Option-cases (m w).0) [
    | inl e ↦ absurd (none≢some (sym (ap (λ p. p.0) (>>=-none e)) ∙ ok))
    | inr found ↦ found
  ]
    where
      none≢some : {b : B} → ¬ (none ≡ some b)
      none≢some h = cc

-- Two sequences that agree on their first parts, and on the second from the world that the first leaves.
pub >>=-congr :
    {W A B : Type 0} (m n : Action W A) (f g : A → Action W B) (w : W)
    → m w ≡ n w
    → ((a : A) → (m w).0 ≡ some a → f a (m w).1 ≡ g a (m w).1)
    → (m >>= f) w ≡ (n >>= g) w
>>=-congr m n f g w first second = elim (Option-cases (m w).0) [
  | inl e ↦ >>=-none m f w e ∙ sym (>>=-none m g w e) ∙ ap (λ p. resume p.0 p.1 g) first
  | inr (a, e) ↦
      >>=-some m f w e ∙ second a e ∙ sym (>>=-some m g w e) ∙ ap (λ p. resume p.0 p.1 g) first
]

-- What holds behind a sequence that succeeds, from what its first action left.
pub behind :
    {W A B : Type 0} (R : W → Type 0) (m : Action W A) (f : A → Action W B) (w : W) {b : B}
    → ((m >>= f) w).0 ≡ some b
    → ((a : A) → (m w).0 ≡ some a → (f a (m w).1).0 ≡ some b → R (f a (m w).1).1)
    → R ((m >>= f) w).1
behind R m f w ok rest =
    let (a, e) = >>=-first m f w ok in
    rw (>>=-some m f w e) (rest a e (rw (>>=-some m f w e) at ok))

-- A command whose failure is the error of the caller.
abbrev pub must : {W : Type 0} → (W → Bool × W) → Action W (Unit {0})
must run w = let (ok, w') = run w in (if ok then some tt else none, w')

-- A command whose failure is an answer.
abbrev pub ask : {W : Type 0} → (W → Bool × W) → Action W Bool
ask run w = let (ok, w') = run w in (some ok, w')

-- platform.ShQuote of pkg/platform/executor.go.
unfoldable pub replace_quotes : String → String
replace_quotes String.[] = ""
replace_quotes (String.◌∷◌ c s) =
    let rest = replace_quotes s in
    if str_eq (String.◌∷◌ c String.[]) "'" then concat "'\"'\"'" rest else String.◌∷◌ c rest

unfoldable pub sh_quote : String → String
unfolding replace_quotes
sh_quote s = concat "'" (concat (replace_quotes s) "'")

-- `for _, v := range values { if err := f(v); err != nil { return err } }`.
unfoldable pub each : {W A : Type 0} → (A → Action W Unit) → List A → Action W Unit
each f [] = done tt
each f (v ∷ values) = f v >> each f values
