-- ===== src/Kind/Gateway/Cleanup.antt =====
-- What cleanupDPUGatewayRouting of pkg/kind/routing.go does to the tables of iptables.
use std.Path.{fun_ext}
use dpu_simulator.Base.{
  ℕ, ◌<◌, ◌≡◌, ◌∙◌, ap, sym, refl, Bool, true, ◌&&◌, ◌||◌, List, [], ◌∷◌, some, String, str_eq,
  str_eq_refl, arith, if◌then◌else◌, length, inl, inr, Bool-cases,
}
use dpu_simulator.Config.Cidr.{IpNet}
use dpu_simulator.Kind.Routing.{
  Rule, Chain, filter, raw_prerouting, raw_rules, forward_rules, NetworkInfo, delete_args,
}
use dpu_simulator.Kind.Iptables.{delete_rule, iptables_chain_exists}
use dpu_simulator.Kind.Iptables.Table.{Table, Iptables, has, drop, at, place, same_rule}
use dpu_simulator.Kind.Gateway.{cleanup_rules, cleanup_forward_rules, setup_rules}
use dpu_simulator.Kind.Gateway.Effects.{
  in_turn, Answers, Ends-asked, Ends-if, Ends, Ends->>, Ends-each, delete_rule-Ends,
}
use dpu_simulator.Kind.Gateway.Setup.{
  Chains, in_turn-at, not_both, placed, forwards, routed, setup_rules-routed,
}
use dpu_simulator.Platform.Executor.{Executor, done, each}

-- The rules without the copies of those of a list.
unfoldable pub dropped : List Rule → List Rule → List Rule
unfolding in_turn
dropped = in_turn drop

unfoldable pub cleans : (String → Bool) → String → Bool
cleans has_chain c =
    (str_eq "FORWARD" c && has_chain "FORWARD")
    || (str_eq "DOCKER-USER" c && has_chain "DOCKER-USER")

-- The table that the clean-up promises.
unfoldable pub unrouted : (String → Bool) → NetworkInfo → String → IpNet → Table → Table
unrouted has_chain kind bridge subnet t (filter c) =
    if cleans has_chain c
    then dropped (forward_rules kind bridge subnet) (t (filter c))
    else t (filter c)
unrouted has_chain kind bridge subnet t raw_prerouting =
    dropped (raw_rules kind bridge subnet) (t raw_prerouting)

abbrev cut : Chain → Rule → Table → Table
cut c r = at c (drop r)

abbrev cut_chain : (String → Bool) → NetworkInfo → String → IpNet → String → Table → Table
cut_chain has_chain kind bridge subnet c t =
    if has_chain c then in_turn (cut (filter c)) (forward_rules kind bridge subnet) t else t

-- The clean-up, one change after another.
abbrev cuts : (String → Bool) → NetworkInfo → String → IpNet → Table → Table
cuts has_chain kind bridge subnet t =
    in_turn (cut raw_prerouting) (raw_rules kind bridge subnet)
      (in_turn (cut_chain has_chain kind bridge subnet) ("DOCKER-USER" ∷ "FORWARD" ∷ []) t)

module _ (has_chain : String → Bool) (kind : NetworkInfo) (bridge : String) (subnet : IpNet) where
  abbrev at_chain : String → Table → Table
  at_chain c t =
      if has_chain c then at (filter c) (dropped (forward_rules kind bridge subnet)) t else t

  cut_chain-at :
      (c : String) (t : Table) → cut_chain has_chain kind bridge subnet c t ≡ at_chain c t
  unfolding dropped
  cut_chain-at c t = elim (Bool-cases (has_chain c)) [
    | inl e ↦ rw e (in_turn-at (filter c) drop (forward_rules kind bridge subnet) t)
    | inr e ↦ rw e refl
  ]

  at_chains-unrouted :
      (t : Table) (c : Chain)
      → at raw_prerouting
          (dropped (raw_rules kind bridge subnet))
          (at_chain "FORWARD" (at_chain "DOCKER-USER" t))
          c
        ≡ unrouted has_chain kind bridge subnet t c
  unfolding at unrouted cleans
  at_chains-unrouted t (filter c) = ground (arith, not_both c)
  at_chains-unrouted t raw_prerouting = ground arith

  cuts-unrouted :
      (t : Table) (c : Chain)
      → cuts has_chain kind bridge subnet t c ≡ unrouted has_chain kind bridge subnet t c
  unfolding dropped in_turn
  cuts-unrouted t c =
      ap (λ u. u c) (in_turn-at raw_prerouting drop (raw_rules kind bridge subnet) _)
      ∙ ap (λ u. at raw_prerouting (dropped (raw_rules kind bridge subnet)) u c)
          (cut_chain-at "FORWARD" _ ∙ ap (at_chain "FORWARD") (cut_chain-at "DOCKER-USER" t))
      ∙ at_chains-unrouted t c

drop_comm : (r s : Rule) (rules : List Rule) → drop r (drop s rules) ≡ drop s (drop r rules)
unfolding drop
drop_comm r s [] = refl
drop_comm r s (q ∷ rules) = ground (arith, drop_comm r s rules)

same_rule_refl : (r : Rule) → same_rule r r ≡ true
same_rule_refl [] = refl
same_rule_refl (a ∷ r) = ground (arith, str_eq_refl a, same_rule_refl r)

drop-place : (r : Rule) (rules : List Rule) → drop r (place r rules) ≡ drop r rules
unfolding drop place
drop-place r rules = ground (arith, same_rule_refl r)

drop-dropped :
    (r : Rule) (rs rules : List Rule) → dropped rs (drop r rules) ≡ drop r (dropped rs rules)
unfolding dropped in_turn
drop-dropped r [] rules = refl
drop-dropped r (s ∷ rs) rules =
    ap (dropped rs) (drop_comm s r rules) ∙ drop-dropped r rs (drop s rules)

dropped-placed : (rs rules : List Rule) → dropped rs (placed rs rules) ≡ dropped rs rules
unfolding dropped placed in_turn
dropped-placed [] rules = refl
dropped-placed (r ∷ rs) rules =
    drop-dropped r rs (placed rs (place r rules))
    ∙ ap (drop r) (dropped-placed rs (place r rules))
    ∙ sym (drop-dropped r rs (place r rules))
    ∙ ap (dropped rs) (drop-place r rules)

unrouted-routed :
    (has_chain : String → Bool) (bin : String) (kind : NetworkInfo) (bridge : String)
    (subnet : IpNet) (t : Table) (c : Chain)
    → has_chain "FORWARD" ≡ true
    → unrouted has_chain kind bridge subnet (routed has_chain bin kind bridge subnet t) c
      ≡ unrouted has_chain kind bridge subnet t c
unfolding unrouted routed cleans forwards
unrouted-routed has_chain bin kind bridge subnet t (filter c) h =
    ground (arith, h, dropped-placed (forward_rules kind bridge subnet) (t (filter c)))
unrouted-routed has_chain bin kind bridge subnet t raw_prerouting h = dropped-placed _ _

module _ {W : Type 0} (x : Executor W) (rules : W → Table) (has_chain : String → Bool)
    (laws : Iptables x rules) (chains : Chains x rules has_chain)
    (works : (c : Chain) (r : Rule) (w : W)
      → has r (rules w c) ≡ true
      → (x.run_cmd (delete_args c r) w).0 ≡ true) where
  chain-Answers : (c : String) → Answers rules (iptables_chain_exists x c) (has_chain c)
  unfolding iptables_chain_exists
  chain-Answers c w = (ap some (chains.list_answer c w), chains.list_keeps c w)

  cleanup_forward_rules-Ends :
      (fuel : ℕ) (kind gateway : NetworkInfo) (c : String)
      → Ends rules fuel
          (cleanup_forward_rules x fuel kind gateway c)
          (cut_chain has_chain kind gateway.bridge gateway.subnet c)
  unfolding cleanup_forward_rules
  cleanup_forward_rules-Ends fuel kind gateway c =
      let delete =
        each (delete_rule x fuel (filter c)) (forward_rules kind gateway.bridge gateway.subnet) in
      Ends-asked rules fuel _ (has_chain c) (λ b. if b then delete else done tt)
        (cut_chain has_chain kind gateway.bridge gateway.subnet c) (chain-Answers c)
        (Ends-if rules fuel (has_chain c) delete
          (in_turn (cut (filter c)) (forward_rules kind gateway.bridge gateway.subnet))
          (Ends-each rules fuel (delete_rule x fuel (filter c)) (cut (filter c))
            (delete_rule-Ends x rules laws works fuel (filter c))
            (forward_rules kind gateway.bridge gateway.subnet)))

  cleanup_rules-Ends :
      (fuel : ℕ) (kind gateway : NetworkInfo)
      → Ends rules fuel
          (cleanup_rules x fuel kind gateway)
          (cuts has_chain kind gateway.bridge gateway.subnet)
  unfolding cleanup_rules
  cleanup_rules-Ends fuel kind gateway =
      Ends->> rules fuel _ _
        (in_turn (cut_chain has_chain kind gateway.bridge gateway.subnet)
          ("DOCKER-USER" ∷ "FORWARD" ∷ []))
        (in_turn (cut raw_prerouting) (raw_rules kind gateway.bridge gateway.subnet))
        (Ends-each rules fuel _ (cut_chain has_chain kind gateway.bridge gateway.subnet)
          (cleanup_forward_rules-Ends fuel kind gateway) _)
        (Ends-each rules fuel _ (cut raw_prerouting)
          (delete_rule-Ends x rules laws works fuel raw_prerouting) _)

  -- The clean-up ends, with no error, and gives the table that it promises.
  pub cleanup_rules-unrouted :
      (fuel : ℕ) (kind gateway : NetworkInfo) (w : W)
      → ((c : Chain) → length (rules w c) < fuel)
      → ((cleanup_rules x fuel kind gateway w).0 ≡ some tt)
        × ((c : Chain)
            → rules (cleanup_rules x fuel kind gateway w).1 c
              ≡ unrouted has_chain kind gateway.bridge gateway.subnet (rules w) c)
  cleanup_rules-unrouted fuel kind gateway w fits =
      let (ok, e, _) = cleanup_rules-Ends fuel kind gateway w fits in
      (
        ok,
        λ c.
            ap (λ t. t c) e
            ∙ cuts-unrouted has_chain kind gateway.bridge gateway.subnet (rules w) c,
      )

  -- Under the documented behaviour of iptables, where FORWARD is there, a rule that is found can be deleted,
  -- and the fuel exceeds the length of every chain: a clean-up after a set-up without an error gives the
  -- chains that a clean-up before it would have given, so no rule of the set-up is left and no other is lost.
  pub cleanup_rules-setup_rules :
      (fuel : ℕ) (bin : String) (kind gateway : NetworkInfo) (w : W)
      → has_chain "FORWARD" ≡ true
      → (setup_rules x bin kind gateway.bridge gateway.subnet w).0 ≡ some tt
      → ((c : Chain)
          → length (rules (setup_rules x bin kind gateway.bridge gateway.subnet w).1 c) < fuel)
      → (c : Chain)
      → rules
          (cleanup_rules x fuel kind gateway
            (setup_rules x bin kind gateway.bridge gateway.subnet w).1).1
          c
        ≡ unrouted has_chain kind gateway.bridge gateway.subnet (rules w) c
  cleanup_rules-setup_rules fuel bin kind gateway w h ok fits c =
      (cleanup_rules-unrouted fuel kind gateway _ fits).1 c
      ∙ ap (λ t. unrouted has_chain kind gateway.bridge gateway.subnet t c)
          (fun_ext (
            setup_rules-routed x rules has_chain laws chains bin kind gateway.bridge gateway.subnet
              w ok))
      ∙ unrouted-routed has_chain bin kind gateway.bridge gateway.subnet (rules w) c h
