-- ===== src/Kind/Iptables.antt =====
-- The operations of pkg/kind/routing.go on one iptables rule, and the wait for a sysctl file. A loop that
-- the source does not bound has fuel, and fails where it runs out.
pub mod Wait
pub mod Table
pub mod Delete
use Prim.Native.String.{◌++◌ as concat}
use dpu_simulator.Base.{ℕ, zero, suc, ◌+◌, ◌*◌, Bool, true, false, Option, none, some, String, ltb}
use dpu_simulator.Kind.Routing.{Rule, Chain, check_args, insert_args, delete_args, list_args}
use dpu_simulator.Platform.Executor.{Executor, Action, done, fail, ◌>>=◌, ◌>>◌, must, ask}

-- `err == nil && exists`.
unfoldable pub is_there : Option Bool → Bool
is_there none = false
is_there (some exists) = exists

module _ {W : Type 0} (x : Executor W) where
  -- ensureForwardRule and ensureRawPreroutingRule, once they have made the rule.
  unfoldable pub ensure_rule : Chain → Rule → Action W Unit
  ensure_rule chain rule = do
    exists ← ask (x.run_cmd (check_args chain rule))
    elim exists [ true ↦ done tt | false ↦ must (x.run_cmd (insert_args chain rule)) ]

  -- deleteForwardRule and deleteRawPreroutingRule, once they have made the rule.
  unfoldable pub delete_rule : ℕ → Chain → Rule → Action W Unit
  delete_rule zero chain rule = fail
  delete_rule (suc fuel) chain rule = do
    exists ← ask (x.run_cmd (check_args chain rule))
    elim exists [
      | false ↦ done tt
      | true ↦ do
        deleted ← ask (x.run_cmd (delete_args chain rule))
        elim deleted [ false ↦ done tt | true ↦ delete_rule fuel chain rule ]
    ]

  unfoldable pub iptables_chain_exists : String → Action W Bool
  iptables_chain_exists chain = ask (x.run_cmd (list_args chain))

  -- The rounds of waitForIPv4ForwardingSysctl, in nanoseconds of the clock.
  unfoldable pub wait_until : ℕ → ℕ → String → W → Option Bool × W
  unfolding is_there
  wait_until zero deadline path w = (none, w)
  wait_until (suc fuel) deadline path w =
      let (found, w') = x.file_exists path w in
      elim (is_there found) [
        | true ↦ (some true, w')
        | false ↦ elim (ltb deadline (x.now w' + 500_000_000)) [
          | true ↦ (some false, w')
          | false ↦ wait_until fuel deadline path (x.sleep 500_000_000 w')
        ]
      ]
