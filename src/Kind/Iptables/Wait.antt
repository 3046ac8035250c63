-- ===== src/Kind/Iptables/Wait.antt =====
-- The loop of waitForIPv4ForwardingSysctl of pkg/kind/routing.go.
use dpu_simulator.Base.{
  ℕ, zero, suc, ◌+◌, ◌*◌, ◌≤◌, ◌<◌, ◌≡◌, refl, true, false, some, String, arith, ltb, inl, inr, ◌⊎◌,
  ltb→lt, Bool-cases,
}
use dpu_simulator.Kind.Iptables.{is_there, wait_until}
use dpu_simulator.Platform.Executor.{Executor}

-- A clock does not run backwards, and a sleep takes its time.
pub record Clock {W : Type 0} (x : Executor W) : Type 0 where
  pub slept : (d : ℕ) (w : W) → x.now w + d ≤ x.now (x.sleep d w)
  pub looked : (path : String) (w : W) → x.now w ≤ x.now (x.file_exists path w).1

module _ {W : Type 0} (x : Executor W) (clock : Clock x) where
  -- On a clock that does not run backwards, with a round for each half second until the deadline and at
  -- least one, the wait ends: it has found the file, or less than half a second is left.
  pub wait_until_ends :
      (fuel deadline : ℕ) (path : String) (w : W)
      → 0 < fuel
      → deadline < x.now w + fuel * 500_000_000
      → let (r, w') = wait_until x fuel deadline path w in
        (r ≡ some true) ⊎ ((r ≡ some false) × (deadline < x.now w' + 500_000_000))
  unfolding wait_until
  wait_until_ends zero deadline path w p h = absurd (omega arith)
  wait_until_ends (suc fuel) deadline path w p h =
      elim (Bool-cases (is_there (x.file_exists path w).0)) [
        | inl e ↦ rw (e, wait_until) (inl refl)
        | inr e ↦ elim (Bool-cases (ltb deadline (x.now w' + 500_000_000))) [
          | inl late ↦ rw (e, late, wait_until) (inr (refl, ltb→lt _ _ late))
          | inr early ↦
              rw (e, early, wait_until)
                (wait_until_ends fuel deadline path (x.sleep 500_000_000 w')
                  (ground (arith, early, h, clock.looked path w, clock.slept 500_000_000 w'))
                  (ground (arith, early, h, clock.looked path w, clock.slept 500_000_000 w')))
        ]
      ]
    where
      w' : W
      w' = (x.file_exists path w).1
