-- ===== src/Kind/Iptables/Table.antt =====
-- What `iptables` is documented to do to its chains, and what ensureForwardRule and
-- ensureRawPreroutingRule of pkg/kind/routing.go do to them.
use dpu_simulator.Base.{
  ◌≡◌, ◌∙◌, ap, subst, sym, refl, Bool, true, false, not, ◌&&◌, List, [], ◌∷◌, none, some, str_eq,
  str_eq_iff, str_eq_refl, if◌then◌else◌, any, keep, inl, inr, Bool-cases,
}
use dpu_simulator.Kind.Routing.{
  Rule, Chain, filter, raw_prerouting, check_args, insert_args, delete_args,
}
use dpu_simulator.Kind.Iptables.{ensure_rule}
use dpu_simulator.Platform.Executor.{Executor}

abbrev pub Table : Type 0
Table = Chain → List Rule

abbrev pub same_rule : Rule → Rule → Bool
same_rule [] [] = true
same_rule (a ∷ r) (b ∷ s) = str_eq a b && same_rule r s
same_rule r s = false

abbrev pub same_chain : Chain → Chain → Bool
same_chain (filter c) (filter d) = str_eq c d
same_chain raw_prerouting raw_prerouting = true
same_chain c d = false

unfoldable pub has : Rule → List Rule → Bool
has r rules = any (same_rule r) rules

unfoldable pub remove_first : Rule → List Rule → List Rule
remove_first r [] = []
remove_first r (s ∷ rules) = if same_rule r s then rules else s ∷ remove_first r rules

-- The rules without the copies of one.
unfoldable pub drop : Rule → List Rule → List Rule
drop r rules = keep (λ s. not (same_rule r s)) rules

-- The rules with one that is put before them where it is missing.
unfoldable pub place : Rule → List Rule → List Rule
place r rules = if has r rules then rules else r ∷ rules

-- A table changed in one chain.
unfoldable pub at : Chain → (List Rule → List Rule) → Table → Table
at chain f t c = if same_chain chain c then f (t c) else t c

-- The manual of iptables: `-C` tells whether a rule is in a chain, `-I chain 1` puts one before the
-- others, and `-D` removes the first copy. A command that fails changes nothing.
pub record Iptables {W : Type 0} (x : Executor W) (rules : W → Table) : Type 0 where
  pub check_answer :
      (c : Chain) (r : Rule) (w : W) → (x.run_cmd (check_args c r) w).0 ≡ has r (rules w c)
  pub check_keeps :
      (c : Chain) (r : Rule) (w : W) → rules (x.run_cmd (check_args c r) w).1 ≡ rules w
  pub insert_puts :
      (c : Chain) (r : Rule) (w : W)
      → rules (x.run_cmd (insert_args c r) w).1
        ≡ (if (x.run_cmd (insert_args c r) w).0 then at c (◌∷◌ r) (rules w) else rules w)
  pub delete_removes :
      (c : Chain) (r : Rule) (w : W)
      → rules (x.run_cmd (delete_args c r) w).1
        ≡ (if (x.run_cmd (delete_args c r) w).0 then at c (remove_first r) (rules w) else rules w)

pub same_chain_eq : (c d : Chain) → same_chain c d ≡ true → c ≡ d
same_chain_eq (filter c) (filter d) h = ap filter ((str_eq_iff c d).0 h)
same_chain_eq raw_prerouting raw_prerouting h = refl
same_chain_eq (filter c) raw_prerouting h = cc
same_chain_eq raw_prerouting (filter c) h = cc

-- A change that leaves its chain as it was leaves the table as it was.
pub at_same :
    (c d : Chain) (f : List Rule → List Rule) (t : Table) → f (t c) ≡ t c → at c f t d ≡ t d
unfolding at
at_same c d f t h = elim (Bool-cases (same_chain c d)) [
  | inl e ↦ rw e (subst (λ k. f (t k) ≡ t k) (same_chain_eq c d e) h)
  | inr e ↦ rw e refl
]

same_chain_refl : (c : Chain) → same_chain c c ≡ true
same_chain_refl (filter c) = str_eq_refl c
same_chain_refl raw_prerouting = refl

pub at_own : (c : Chain) (f : List Rule → List Rule) (t : Table) → at c f t c ≡ f (t c)
unfolding at
at_own c f t = rw (same_chain_refl c) refl

-- A change after another in the same chain.
pub at_twice :
    (c d : Chain) (f g : List Rule → List Rule) (t : Table)
    → at c f (at c g t) d ≡ at c (λ rules. f (g rules)) t d
unfolding at
at_twice c d f g t = elim (Bool-cases (same_chain c d)) [ inl e ↦ rw e refl | inr e ↦ rw e refl ]

-- Only what a change does to the rules of its chain counts.
pub at_cong :
    (c d : Chain) (f g : List Rule → List Rule) (t : Table)
    → ((rules : List Rule) → f rules ≡ g rules)
    → at c f t d ≡ at c g t d
unfolding at
at_cong c d f g t h = elim (Bool-cases (same_chain c d)) [ inl e ↦ rw e (h _) | inr e ↦ rw e refl ]

place_had : (r : Rule) (rules : List Rule) → has r rules ≡ true → place r rules ≡ rules
unfolding place
place_had r rules h = rw h

at-place_new :
    (c d : Chain) (r : Rule) (t : Table)
    → has r (t c) ≡ false
    → at c (◌∷◌ r) t d ≡ at c (place r) t d
unfolding at place
at-place_new c d r t h = elim (Bool-cases (same_chain c d)) [
  | inl e ↦ rw (e, subst (λ k. has r (t k) ≡ false) (same_chain_eq c d e) h)
  | inr e ↦ rw e refl
]

module _ {W : Type 0} (x : Executor W) (rules : W → Table) (laws : Iptables x rules) where
  -- Where no error is returned, the rule is in its chain, before the others if it was not there already,
  -- and every other chain is as it was.
  pub ensure_rule_lem :
      (c : Chain) (r : Rule) (w : W)
      → (ensure_rule x c r w).0 ≡ some tt
      → (d : Chain) → rules (ensure_rule x c r w).1 d ≡ at c (place r) (rules w) d
  unfolding ensure_rule
  ensure_rule_lem c r w ok d = elim (Bool-cases (x.run_cmd (check_args c r) w).0) [
    | inl e ↦
        rw (e, laws.check_keeps c r w)
          (sym (at_same c d (place r) (rules w) (place_had r _ (had e))))
    | inr e ↦ elim (Bool-cases (x.run_cmd (insert_args c r) (x.run_cmd (check_args c r) w).1).0) [
      | inl i ↦
          rw (e, laws.insert_puts c r _, i, laws.check_keeps c r w)
            (at-place_new c d r (rules w) (had e))
      | inr i ↦ absurd (none≢some (rw (e, i) at ok))
    ]
  ]
    where
      had : {b : Bool} → (x.run_cmd (check_args c r) w).0 ≡ b → has r (rules w c) ≡ b
      had e = sym (laws.check_answer c r w) ∙ e

      none≢some : ¬ (none ≡ some (tt {0}))
      none≢some h = cc
