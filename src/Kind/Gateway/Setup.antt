-- ===== src/Kind/Gateway/Setup.antt =====
-- What setupDPUGatewayRouting of pkg/kind/routing.go does to the tables of iptables.
use std.Path.{fun_ext}
use dpu_simulator.Base.{
  ◌≡◌, ◌∙◌, ap, sym, refl, Bool, true, false, ◌&&◌, ◌||◌, List, [], ◌∷◌, some, String, str_eq,
  str_eq_iff, ◌≢◌, arith, if◌then◌else◌, inl, inr, Bool-cases,
}
use dpu_simulator.Config.Cidr.{IpNet}
use dpu_simulator.Kind.Routing.{
  Rule, Chain, filter, raw_prerouting, raw_rules, forward_rules, NetworkInfo, list_args,
}
use dpu_simulator.Kind.Iptables.{iptables_chain_exists}
use dpu_simulator.Kind.Iptables.Table.{Table, Iptables, at, place, at_same, at_twice}
use dpu_simulator.Kind.Gateway.{setup_rules, forwarding_rule_chains}
use dpu_simulator.Kind.Gateway.Effects.{
  in_turn, Answers, Does-asked, Does, Does->>, Does-each, ensure_rule-Does,
}
use dpu_simulator.Platform.Executor.{Executor}

-- The rules of a list, each put before the others where it is missing.
unfoldable pub placed : List Rule → List Rule → List Rule
unfolding in_turn
placed = in_turn place

-- The chains for forwarded packets: DOCKER-USER only under Docker, and where it is.
unfoldable pub forwards : (String → Bool) → String → String → Bool
forwards has_chain container_bin c =
    str_eq "FORWARD" c
    || (str_eq "DOCKER-USER" c && str_eq container_bin "docker" && has_chain "DOCKER-USER")

-- The table that the set-up promises.
unfoldable pub routed : (String → Bool) → String → NetworkInfo → String → IpNet → Table → Table
routed has_chain container_bin kind bridge subnet t (filter c) =
    if forwards has_chain container_bin c
    then placed (forward_rules kind bridge subnet) (t (filter c))
    else t (filter c)
routed has_chain container_bin kind bridge subnet t raw_prerouting =
    placed (raw_rules kind bridge subnet) (t raw_prerouting)

-- `iptables -nL` tells whether a chain is there and changes nothing; chains do not come and go.
pub record Chains {W : Type 0} (x : Executor W) (rules : W → Table) (has_chain : String → Bool)
    : Type 0 where
  pub list_answer : (c : String) (w : W) → (x.run_cmd (list_args c) w).0 ≡ has_chain c
  pub list_keeps : (c : String) (w : W) → rules (x.run_cmd (list_args c) w).1 ≡ rules w

pub in_turn-at :
    (c : Chain) (f : Rule → List Rule → List Rule) (rs : List Rule) (t : Table)
    → in_turn (λ r. at c (f r)) rs t ≡ at c (in_turn f rs) t
unfolding in_turn
in_turn-at c f [] t = fun_ext (λ d. sym (at_same c d (λ rules. rules) t refl))
in_turn-at c f (r ∷ rs) t =
    in_turn-at c f rs (at c (f r) t) ∙ fun_ext (λ d. at_twice c d (in_turn f rs) (f r) t)

abbrev chains_of : (String → Bool) → String → List String
chains_of has_chain bin =
    if str_eq bin "docker" && has_chain "DOCKER-USER"
    then "DOCKER-USER" ∷ "FORWARD" ∷ []
    else "FORWARD" ∷ []

abbrev put : Chain → Rule → Table → Table
put c r = at c (place r)

abbrev put_raw : NetworkInfo → String → IpNet → Table → Table
put_raw kind bridge subnet = in_turn (put raw_prerouting) (raw_rules kind bridge subnet)

abbrev put_chain : NetworkInfo → String → IpNet → String → Table → Table
put_chain kind bridge subnet c = in_turn (put (filter c)) (forward_rules kind bridge subnet)

abbrev put_forward : (String → Bool) → String → NetworkInfo → String → IpNet → Table → Table
put_forward has_chain bin kind bridge subnet =
    in_turn (put_chain kind bridge subnet) (chains_of has_chain bin)

-- The set-up, one change after another.
abbrev changes : (String → Bool) → String → NetworkInfo → String → IpNet → Table → Table
changes has_chain bin kind bridge subnet t =
    put_forward has_chain bin kind bridge subnet (put_raw kind bridge subnet t)

-- A change of both forwarding chains, or of FORWARD alone.
abbrev at_forwards : Bool → (List Rule → List Rule) → Table → Table
at_forwards both f t =
    if both
    then at (filter "FORWARD") f (at (filter "DOCKER-USER") f t)
    else at (filter "FORWARD") f t

-- The chain is one of two different ones.
pub not_both : (c : String) → str_eq "FORWARD" c ≡ true → str_eq "DOCKER-USER" c ≡ false
not_both c h = elim (Bool-cases (str_eq "DOCKER-USER" c)) [
  | inr e ↦ e
  | inl e ↦ absurd (differ ((str_eq_iff _ _).0 h ∙ sym ((str_eq_iff _ _).0 e)))
]
  where
    differ : ◌≢◌ {A = String} "FORWARD" "DOCKER-USER"
    differ h = cc

module _ (has_chain : String → Bool) (bin : String) (kind : NetworkInfo) (bridge : String)
    (subnet : IpNet) where
  put_forward-at :
      (t : Table)
      → put_forward has_chain bin kind bridge subnet t
        ≡ at_forwards
            (str_eq bin "docker" && has_chain "DOCKER-USER")
            (placed (forward_rules kind bridge subnet))
            t
  unfolding in_turn placed
  put_forward-at t = elim (Bool-cases (str_eq bin "docker" && has_chain "DOCKER-USER")) [
    | inl e ↦ rw e (
        in_turn-at (filter "FORWARD") place rs (put_chain kind bridge subnet "DOCKER-USER" t)
        ∙ ap (at (filter "FORWARD") (placed rs)) (in_turn-at (filter "DOCKER-USER") place rs t))
    | inr e ↦ rw e (in_turn-at (filter "FORWARD") place rs t)
  ]
    where
      rs : List Rule
      rs = forward_rules kind bridge subnet

  at_forwards-routed :
      (t : Table) (c : Chain)
      → at_forwards
          (str_eq bin "docker" && has_chain "DOCKER-USER")
          (placed (forward_rules kind bridge subnet))
          (at raw_prerouting (placed (raw_rules kind bridge subnet)) t)
          c
        ≡ routed has_chain bin kind bridge subnet t c
  unfolding at routed forwards
  at_forwards-routed t (filter c) = ground (arith, not_both c)
  at_forwards-routed t raw_prerouting = ground arith

  changes-routed :
      (t : Table) (c : Chain)
      → changes has_chain bin kind bridge subnet t c ≡ routed has_chain bin kind bridge subnet t c
  unfolding placed
  changes-routed t c =
      ap (λ u. u c) (put_forward-at (put_raw kind bridge subnet t))
      ∙ ap
          (λ u.
            at_forwards (str_eq bin "docker" && has_chain "DOCKER-USER")
              (placed (forward_rules kind bridge subnet)) u c)
          (in_turn-at raw_prerouting place (raw_rules kind bridge subnet) t)
      ∙ at_forwards-routed t c

module _ {W : Type 0} (x : Executor W) (rules : W → Table) (has_chain : String → Bool)
    (laws : Iptables x rules) (chains : Chains x rules has_chain) where
  chains-Answers :
      (bin : String) → Answers rules (forwarding_rule_chains x bin) (chains_of has_chain bin)
  unfolding forwarding_rule_chains iptables_chain_exists
  chains-Answers bin w = elim (Bool-cases (str_eq bin "docker")) [
    | inr e ↦ rw e (refl, refl)
    | inl e ↦ rw (e, chains.list_answer "DOCKER-USER" w) (refl, chains.list_keeps "DOCKER-USER" w)
  ]

  setup_rules-Does :
      (bin : String) (kind : NetworkInfo) (bridge : String) (subnet : IpNet)
      → Does rules (setup_rules x bin kind bridge subnet) (changes has_chain bin kind bridge subnet)
  unfolding setup_rules
  setup_rules-Does bin kind bridge subnet =
      Does->> rules _ _ (put_raw kind bridge subnet) (put_forward has_chain bin kind bridge subnet)
        (Does-each rules _ (put raw_prerouting) (ensure_rule-Does x rules laws raw_prerouting)
          (raw_rules kind bridge subnet))
        (Does-asked rules _ _ _ (put_forward has_chain bin kind bridge subnet) (chains-Answers bin)
          (Does-each rules _ (put_chain kind bridge subnet)
            (λ c.
              Does-each rules _ (put (filter c)) (ensure_rule-Does x rules laws (filter c))
                (forward_rules kind bridge subnet))
            (chains_of has_chain bin)))

  pub setup_rules-routed :
      (bin : String) (kind : NetworkInfo) (bridge : String) (subnet : IpNet) (w : W)
      → (setup_rules x bin kind bridge subnet w).0 ≡ some tt
      → (c : Chain)
      → rules (setup_rules x bin kind bridge subnet w).1 c
        ≡ routed has_chain bin kind bridge subnet (rules w) c
  setup_rules-routed bin kind bridge subnet w ok c =
      ap (λ t. t c) (setup_rules-Does bin kind bridge subnet w ok)
      ∙ changes-routed has_chain bin kind bridge subnet (rules w) c
