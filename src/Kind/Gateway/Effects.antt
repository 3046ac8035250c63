-- ===== src/Kind/Gateway/Effects.antt =====
-- What sequences of commands do to the tables of iptables, for pkg/kind/routing.go.
use std.Path.{fun_ext}
use dpu_simulator.Base.{
  ℕ, ◌≤◌, ◌<◌, ◌≡◌, ◌∙◌, ap, subst, sym, refl, Bool, true, false, List, [], ◌∷◌, some, arith,
  if◌then◌else◌, length, inl, inr, Bool-cases,
}
use dpu_simulator.Kind.Routing.{Rule, Chain, delete_args}
use dpu_simulator.Kind.Iptables.{ensure_rule, delete_rule}
use dpu_simulator.Kind.Iptables.Table.{
  Table, Iptables, has, drop, at, same_chain, place, ensure_rule_lem,
}
use dpu_simulator.Kind.Iptables.Delete.{copies, delete_rule_ends, delete_rule_drops}
use dpu_simulator.Platform.Executor.{Executor, Action, done, ◌>>=◌, ◌>>◌, >>=-some, >>=-first, each}

-- One change after another, for each entry.
unfoldable pub in_turn : {A S : Type 0} → (A → S → S) → List A → S → S
in_turn f [] t = t
in_turn f (v ∷ vs) t = in_turn f vs (f v t)

module _ {W : Type 0} (rules : W → Table) where
  -- A success has changed the table in this way.
  abbrev pub Does : Action W Unit → (Table → Table) → Type 0
  Does a f = (w : W) → (a w).0 ≡ some tt → rules (a w).1 ≡ f (rules w)

  pub Does->> :
      (a b : Action W Unit) (f g : Table → Table)
      → Does a f
      → Does b g
      → Does (a >> b) (λ t. g (f t))
  Does->> a b f g ha hb w ok =
      let (u, e) = >>=-first a (λ _. b) w ok in
      let next = >>=-some a (λ _. b) w e in
      ap (λ p. rules p.1) next ∙ hb (a w).1 (sym (ap (λ p. p.0) next) ∙ ok) ∙ ap g (ha w e)

  pub Does-each :
      {A : Type 0} (act : A → Action W Unit) (f : A → Table → Table)
      → ((v : A) → Does (act v) (f v))
      → (vs : List A) → Does (each act vs) (in_turn f vs)
  unfolding each in_turn
  Does-each act f h [] w ok = refl
  Does-each act f h (v ∷ vs) w ok =
      Does->> (act v) (each act vs) (f v) (in_turn f vs) (h v) (Does-each act f h vs) w ok

  -- An action that always answers the same and changes no table.
  abbrev pub Answers : {A : Type 0} → Action W A → A → Type 0
  Answers m v = (w : W) → ((m w).0 ≡ some v) × (rules (m w).1 ≡ rules w)

  pub Does-asked :
      {A : Type 0} (m : Action W A) (v : A) (k : A → Action W Unit) (f : Table → Table)
      → Answers m v
      → Does (k v) f
      → Does (m >>= k) f
  Does-asked m v k f a h w ok =
      let next = >>=-some m k w (a w).0 in
      ap (λ p. rules p.1) next ∙ h (m w).1 (sym (ap (λ p. p.0) next) ∙ ok) ∙ ap f (a w).1

  -- With fuel for the longest chain it ends, and it has changed the table in this way. It makes no chain longer.
  abbrev pub Fits : ℕ → Table → Type 0
  Fits fuel t = (c : Chain) → length (t c) < fuel

  abbrev pub Ends : ℕ → Action W Unit → (Table → Table) → Type 0
  Ends fuel a f =
      (w : W)
      → Fits fuel (rules w)
      → ((a w).0 ≡ some tt) × (rules (a w).1 ≡ f (rules w)) × Fits fuel (f (rules w))

  pub Ends->> :
      (fuel : ℕ) (a b : Action W Unit) (f g : Table → Table)
      → Ends fuel a f
      → Ends fuel b g
      → Ends fuel (a >> b) (λ t. g (f t))
  Ends->> fuel a b f g ha hb w h =
      let (ok, e, fits) = ha w h in
      let (ok', e', fits') = hb (a w).1 (subst (Fits fuel) (sym e) fits) in
      let next = >>=-some a (λ _. b) w ok in
      (
        ap (λ p. p.0) next ∙ ok',
        ap (λ p. rules p.1) next ∙ e' ∙ ap g e,
        subst (λ t. Fits fuel (g t)) e fits',
      )

  pub Ends-asked :
      {A : Type 0} (fuel : ℕ) (m : Action W A) (v : A) (k : A → Action W Unit) (f : Table → Table)
      → Answers m v
      → Ends fuel (k v) f
      → Ends fuel (m >>= k) f
  Ends-asked fuel m v k f a h w fits =
      let next = >>=-some m k w (a w).0 in
      let (ok, e, fits') = h (m w).1 (subst (Fits fuel) (sym (a w).1) fits) in
      (
        ap (λ p. p.0) next ∙ ok,
        ap (λ p. rules p.1) next ∙ e ∙ ap f (a w).1,
        subst (λ t. Fits fuel (f t)) (a w).1 fits',
      )

  pub Ends-if :
      (fuel : ℕ) (b : Bool) (a : Action W Unit) (f : Table → Table)
      → Ends fuel a f
      → Ends fuel (if b then a else done tt) (λ t. if b then f t else t)
  Ends-if fuel true a f h w fits = h w fits
  Ends-if fuel false a f h w fits = (refl, refl, fits)

  pub Ends-each :
      {A : Type 0} (fuel : ℕ) (act : A → Action W Unit) (f : A → Table → Table)
      → ((v : A) → Ends fuel (act v) (f v))
      → (vs : List A) → Ends fuel (each act vs) (in_turn f vs)
  unfolding each in_turn
  Ends-each fuel act f h [] w fits = (refl, refl, fits)
  Ends-each fuel act f h (v ∷ vs) w fits =
      Ends->> fuel (act v) (each act vs) (f v) (in_turn f vs) (h v) (Ends-each fuel act f h vs) w
        fits

copies_bound : (r : Rule) (rules : List Rule) → copies r rules ≤ length rules
unfolding copies
copies_bound r [] = omega arith
copies_bound r (s ∷ rules) = ground (arith, copies_bound r rules)

drop_shorter : (r : Rule) (rules : List Rule) → length (drop r rules) ≤ length rules
unfolding drop
drop_shorter r [] = omega arith
drop_shorter r (s ∷ rules) = ground (arith, drop_shorter r rules)

drop-Fits :
    (fuel : ℕ) (c : Chain) (r : Rule) (t : Table)
    → ((d : Chain) → length (t d) < fuel)
    → (d : Chain) → length (at c (drop r) t d) < fuel
unfolding at
drop-Fits fuel c r t h d = elim (Bool-cases (same_chain c d)) [
  | inl e ↦ rw e (omega (arith, h d, drop_shorter r (t d)))
  | inr e ↦ rw e (h d)
]

module _ {W : Type 0} (x : Executor W) (rules : W → Table) (laws : Iptables x rules) where
  pub ensure_rule-Does : (c : Chain) (r : Rule) → Does rules (ensure_rule x c r) (at c (place r))
  ensure_rule-Does c r w ok = fun_ext (ensure_rule_lem x rules laws c r w ok)

  pub delete_rule-Ends :
      (works : (c : Chain) (r : Rule) (w : W)
        → has r (rules w c) ≡ true
        → (x.run_cmd (delete_args c r) w).0 ≡ true)
      (fuel : ℕ) (c : Chain) (r : Rule)
      → Ends rules fuel (delete_rule x fuel c r) (at c (drop r))
  delete_rule-Ends works fuel c r w fits =
      let few : copies r (rules w c) < fuel = omega (arith, fits c, copies_bound r (rules w c)) in
      (
        delete_rule_ends x rules laws fuel c r w few,
        fun_ext (delete_rule_drops x rules laws works fuel c r w few),
        drop-Fits fuel c r (rules w) fits,
      )
