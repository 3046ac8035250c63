-- ===== src/Kind/Iptables/Delete.antt =====
-- The loops of deleteForwardRule and deleteRawPreroutingRule of pkg/kind/routing.go.
use dpu_simulator.Base.{
  ℕ, zero, suc, ◌<◌, ◌≡◌, ◌∙◌, ap, sym, refl, true, false, List, [], ◌∷◌, some, arith,
  if◌then◌else◌, inl, inr, Bool-cases,
}
use dpu_simulator.Kind.Routing.{Rule, Chain, check_args, delete_args}
use dpu_simulator.Kind.Iptables.{delete_rule}
use dpu_simulator.Kind.Iptables.Table.{
  Table, Iptables, has, remove_first, drop, at, same_rule, at_own, at_same, at_twice, at_cong,
}
use dpu_simulator.Platform.Executor.{Executor}

-- How many copies of a rule there are.
unfoldable pub copies : Rule → List Rule → ℕ
copies r [] = 0
copies r (s ∷ rules) = let rest = copies r rules in if same_rule r s then suc rest else rest

copies-none : (r : Rule) (rules : List Rule) → has r rules ≡ false → copies r rules ≡ 0
unfolding has copies
copies-none r [] h = refl
copies-none r (s ∷ rules) h = ground (arith, copies-none r rules)

copies-remove_first :
    (r : Rule) (rules : List Rule)
    → has r rules ≡ true
    → suc (copies r (remove_first r rules)) ≡ copies r rules
unfolding has copies remove_first
copies-remove_first r [] h = cc
copies-remove_first r (s ∷ rules) h = ground (arith, copies-remove_first r rules)

drop-remove_first : (r : Rule) (rules : List Rule) → drop r (remove_first r rules) ≡ drop r rules
unfolding drop remove_first
drop-remove_first r [] = refl
drop-remove_first r (s ∷ rules) = ground (arith, drop-remove_first r rules)

drop-none : (r : Rule) (rules : List Rule) → has r rules ≡ false → drop r rules ≡ rules
unfolding has drop
drop-none r [] h = refl
drop-none r (s ∷ rules) h = ground (arith, drop-none r rules)

module _ {W : Type 0} (x : Executor W) (rules : W → Table) (laws : Iptables x rules) where
  abbrev after_check : Chain → Rule → W → W
  after_check c r w = (x.run_cmd (check_args c r) w).1

  abbrev after_delete : Chain → Rule → W → W
  after_delete c r w = (x.run_cmd (delete_args c r) (after_check c r w)).1

  round_removes :
      (c : Chain) (r : Rule) (w : W)
      → (x.run_cmd (delete_args c r) (after_check c r w)).0 ≡ true
      → rules (after_delete c r w) ≡ at c (remove_first r) (rules w)
  round_removes c r w f =
      laws.delete_removes c r (after_check c r w) ∙ rw (f, laws.check_keeps c r w) refl

  round_copies :
      (c : Chain) (r : Rule) (w : W)
      → has r (rules w c) ≡ true
      → (x.run_cmd (delete_args c r) (after_check c r w)).0 ≡ true
      → suc (copies r (rules (after_delete c r w) c)) ≡ copies r (rules w c)
  round_copies c r w e f =
      ap (λ t. suc (copies r (t c))) (round_removes c r w f)
      ∙ ap (λ rs. suc (copies r rs)) (at_own c (remove_first r) (rules w))
      ∙ copies-remove_first r (rules w c) e

  -- With more fuel than there are copies, the loop ends.
  pub delete_rule_ends :
      (fuel : ℕ) (c : Chain) (r : Rule) (w : W)
      → copies r (rules w c) < fuel
      → (delete_rule x fuel c r w).0 ≡ some tt
  unfolding delete_rule
  delete_rule_ends zero c r w h = absurd (omega arith)
  delete_rule_ends (suc fuel) c r w h = elim (Bool-cases (x.run_cmd (check_args c r) w).0) [
    | inr e ↦ rw e refl
    | inl e ↦ elim (Bool-cases (x.run_cmd (delete_args c r) (after_check c r w)).0) [
      | inr f ↦ rw (e, f) refl
      | inl f ↦
          rw (e, f)
            (delete_rule_ends fuel c r (after_delete c r w)
              (omega (arith, h, round_copies c r w (sym (laws.check_answer c r w) ∙ e) f)))
    ]
  ]

  -- Where iptables deletes the rules that it finds, no copy is left, and all else is as it was.
  pub delete_rule_drops :
      (works : (c : Chain) (r : Rule) (w : W)
        → has r (rules w c) ≡ true
        → (x.run_cmd (delete_args c r) w).0 ≡ true)
      (fuel : ℕ) (c : Chain) (r : Rule) (w : W)
      → copies r (rules w c) < fuel
      → (d : Chain) → rules (delete_rule x fuel c r w).1 d ≡ at c (drop r) (rules w) d
  unfolding delete_rule
  delete_rule_drops works zero c r w h d = absurd (omega arith)
  delete_rule_drops works (suc fuel) c r w h d =
      elim (Bool-cases (x.run_cmd (check_args c r) w).0) [
        | inr e ↦
            rw (e, laws.check_keeps c r w)
              (sym (
                at_same c d (drop r) (rules w) (drop-none r _ (sym (laws.check_answer c r w) ∙ e))))
        | inl e ↦
            let had = sym (laws.check_answer c r w) ∙ e in
            let f =
              works c r (after_check c r w)
                (ap (λ t. has r (t c)) (laws.check_keeps c r w) ∙ had) in
            rw (e, f)
              (delete_rule_drops works fuel c r (after_delete c r w)
                  (omega (arith, h, round_copies c r w had f)) d
                ∙ ap (λ t. at c (drop r) t d) (round_removes c r w f)
                ∙ at_twice c d (drop r) (remove_first r) (rules w)
                ∙ at_cong c d _ _ (rules w) (drop-remove_first r))
      ]
