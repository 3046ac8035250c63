-- ===== src/Kind/Veth/Built.antt =====
-- What createDataVeths has built where it succeeds.
use dpu_simulator.Base.{
  ltb, subst, Bool-cases, ℕ, zero, suc, ◌+◌, ◌<◌, ◌≡◌, ◌∙◌, ap, refl, true, false, none, some,
  String, str_eq, arith, inl, inr,
}
use dpu_simulator.Base.Int.{ℤ, pos, pos_part}
use dpu_simulator.DevicePlugin.Names.{host_data_if}
use dpu_simulator.Kind.Veth.{
  machine, in_host, in_dpu, Runner, PairEnds, dress, deliver, add_args, move_args, create_data_veth,
  create_from, create_data_veths, dpu_data_if, veth_host_end, veth_dpu_end,
}
use dpu_simulator.Platform.Executor.{behind}
use dpu_simulator.Kind.Veth.Named.{
  host_end-dpu_end, dpu_end-host_end, host_end-host_data_if, dpu_end-dpu_data_if, other_host,
  other_dpu,
}
use dpu_simulator.Kind.Veth.Links.{
  new_link, Net, put, put_self, put_other, IpLink, after, finally, Dressed, dress-Dressed,
}

-- The two ends of a new pair, each in its container under the name it was made with.
unfoldable pub Delivered : Net → Net → String → String → Type 0
Delivered net net' a b =
    (m n : String) × (net' in_host a ≡ some (new_link a m))
    × (net' in_dpu b ≡ some (new_link a n))
    × ((i : String) → str_eq a i ≡ false → net' in_host i ≡ net in_host i)
    × ((i : String) → str_eq b i ≡ false → net' in_dpu i ≡ net in_dpu i)

puts-Delivered :
    (n0 n1 n2 n3 : Net) (a b m n : String)
    → n1 ≡ put (put n0 machine a (some (new_link a m))) machine b (some (new_link a n))
    → n2 ≡ put (put n1 machine a none) in_host a (some (new_link a m))
    → n3 ≡ put (put n2 machine b none) in_dpu b (some (new_link a n))
    → Delivered n0 n3 a b
unfolding Delivered put
puts-Delivered n0 n1 n2 n3 a b m n e1 e2 e3 = (
  m,
  n,
  ap (λ net. net in_host a) e3
      ∙ ap (λ net. net in_host a) e2
      ∙ put_self (put n1 machine a none) in_host a (some (new_link a m)),
  ap (λ net. net in_dpu b) e3 ∙ put_self (put n2 machine b none) in_dpu b (some (new_link a n)),
  λ i away.
      ap (λ net. net in_host i) e3
      ∙ ap (λ net. net in_host i) e2
      ∙ put_other (put n1 machine a none) in_host a (some (new_link a m)) in_host i away
      ∙ ap (λ net. net in_host i) e1,
  λ i away.
      ap (λ net. net in_dpu i) e3
      ∙ put_other (put n2 machine b none) in_dpu b (some (new_link a n)) in_dpu i away
      ∙ ap (λ net. net in_dpu i) e2
      ∙ ap (λ net. net in_dpu i) e1,
)

module _ {W : Type 0} (run : Runner W) (net : W → Net) (e : PairEnds)
    (laws : IpLink run net e) where
  deliver-Delivered :
      (a b : String) (w : W)
      → str_eq a b ≡ false
      → str_eq b a ≡ false
      → (deliver run e a b w).0 ≡ some tt
      → Delivered (net w) (net (deliver run e a b w).1) a b
  unfolding deliver
  deliver-Delivered a b w a≢b b≢a ok =
      let R = λ (w' : W). Delivered (net w) (net w') a b in
      after R (run machine (add_args a b)) _ w ok (λ added ok1.
        let w1 = (run machine (add_args a b) w).1 in
        let (m, n, e1) = laws.adds a b w added in
        let l = new_link a m in
        let l' = new_link a n in
        let made = put (net w) machine a (some l) in
        let here_a =
          ap (λ n. n machine a) e1
          ∙ put_other made machine b (some l') machine a b≢a
          ∙ put_self (net w) machine a (some l) in
        let here_b = ap (λ n. n machine b) e1 ∙ put_self made machine b (some l') in
        after R (run machine (move_args a e.host_pid)) _ w1 ok1 (λ moved ok2.
          let w2 = (run machine (move_args a e.host_pid) w1).1 in
          let e2 = laws.moves_to_host a l w1 moved here_a in
          let still_b =
            ap (λ n. n machine b) e2
            ∙ put_other (put (net w1) machine a none) in_host a (some l) machine b refl
            ∙ put_other (net w1) machine a none machine b a≢b
            ∙ here_b in
          finally R (run machine (move_args b e.dpu_pid)) w2 ok2 (λ moved'.
            puts-Delivered (net w) (net w1) (net w2) _ a b m n e1 e2
              (laws.moves_to_dpu b l' w2 moved' still_b))))

-- The two interfaces of an index are the ends of one pair, up and with their addresses.
unfoldable pub Joined : PairEnds → ℕ → Net → Type 0
Joined e i net =
    (net in_host (host_data_if (pos i))
      ≡ some (record { channel = veth_host_end e.pair i; mac = e.host_mac i; is_up = true }))
    × (net in_dpu (dpu_data_if i)
        ≡ some (record { channel = veth_host_end e.pair i; mac = e.dpu_mac i; is_up = true }))

-- A round joins its index, and leaves the others as they are.
unfoldable Joins : PairEnds → ℕ → Net → Net → Type 0
Joins e i net net' = Joined e i net' × ((j : ℕ) → j < i → Joined e j net → Joined e j net')

dress-Joins :
    (e : PairEnds) (i : ℕ) (n0 n1 n2 n3 : Net)
    → Delivered n0 n1 (veth_host_end e.pair i) (veth_dpu_end e.pair i)
    → Dressed n1 n2 in_host
        (veth_host_end e.pair i)
        (host_data_if (pos i))
        (record { channel = veth_host_end e.pair i; mac = e.host_mac i; is_up = true })
    → Dressed n2 n3 in_dpu
        (veth_dpu_end e.pair i)
        (dpu_data_if i)
        (record { channel = veth_host_end e.pair i; mac = e.dpu_mac i; is_up = true })
    → Joins e i n0 n3
unfolding Joins Joined Delivered Dressed
dress-Joins e i n0 n1 n2 n3 (m, n, here_a, here_b, host_kept, dpu_kept) (named, kept)
      (named', kept') =
    (
      (kept' in_host (host_data_if (pos i)) refl refl ∙ named, named'),
      λ j j<i (in_h, in_d). (
        kept' in_host (host_data_if (pos j)) refl refl
            ∙ kept in_host (host_data_if (pos j)) (host_end-host_data_if e.pair i j)
                (other_host i j j<i)
            ∙ host_kept (host_data_if (pos j)) (host_end-host_data_if e.pair i j)
            ∙ in_h,
        kept' in_dpu (dpu_data_if j) (dpu_end-dpu_data_if e.pair i j) (other_dpu i j j<i)
            ∙ kept in_dpu (dpu_data_if j) refl refl
            ∙ dpu_kept (dpu_data_if j) (dpu_end-dpu_data_if e.pair i j)
            ∙ in_d,
      ),
    )

up_to :
    (e : PairEnds) (i : ℕ) (n0 n1 : Net)
    → Joins e i n0 n1
    → ((j : ℕ) → j < i → Joined e j n0)
    → (j : ℕ) → j < suc i
    → Joined e j n1
unfolding Joins
up_to e i n0 n1 (now, kept) before j h = elim (Bool-cases (ltb j i)) [
  | inl lt ↦ let j<i : j < i = ground arith in kept j j<i (before j j<i)
  | inr ge ↦ let same : i ≡ j = ground arith in subst (λ k. Joined e k n1) same now
]

module _ {W : Type 0} (run : Runner W) (net : W → Net) (e : PairEnds)
    (laws : IpLink run net e) where
  create_data_veth-Joins :
      (i : ℕ) (w : W)
      → (create_data_veth run e i w).0 ≡ some tt
      → Joins e i (net w) (net (create_data_veth run e i w).1)
  unfolding create_data_veth Delivered Dressed
  create_data_veth-Joins i w ok =
      let R = λ (w' : W). Joins e i (net w) (net w') in
      let a = veth_host_end e.pair i in
      let b = veth_dpu_end e.pair i in
      let host_if = host_data_if (pos i) in
      behind R (deliver run e a b) _ w ok (λ u delivered ok1.
        let w1 = (deliver run e a b w).1 in
        let there =
          deliver-Delivered run net e laws a b w (host_end-dpu_end e.pair i i)
            (dpu_end-host_end e.pair i i) delivered in
        behind R (dress run in_host a host_if (e.host_mac i)) _ w1 ok1 (λ u dressed ok2.
          let w2 = (dress run in_host a host_if (e.host_mac i) w1).1 in
          let (m, n, here_a, here_b, kept_host, kept_dpu) = there in
          let at_host =
            dress-Dressed run net e laws in_host a host_if (e.host_mac i) (new_link a m) w1 here_a
              dressed in
          dress-Joins e i (net w) (net w1) (net w2) _ there at_host (
            dress-Dressed run net e laws in_dpu b (dpu_data_if i) (e.dpu_mac i) (new_link a n) w2
              (at_host.1 in_dpu b refl refl ∙ here_b) ok2)))

  create_from-Joined :
      (rounds i : ℕ) (w : W)
      → ((j : ℕ) → j < i → Joined e j (net w))
      → (create_from run e i rounds w).0 ≡ some tt
      → (j : ℕ) → j < i + rounds
      → Joined e j (net (create_from run e i rounds w).1)
  unfolding create_from
  create_from-Joined zero i w before ok j h = before j (omega arith)
  create_from-Joined (suc rounds) i w before ok j h =
      behind (λ w'. Joined e j (net w')) (create_data_veth run e i)
        (λ u. create_from run e (suc i) rounds) w ok
        (λ u first ok1.
          create_from-Joined rounds (suc i) (create_data_veth run e i w).1
            (λ k below. up_to e i (net w) _ (create_data_veth-Joins i w first) before k below) ok1 j
            (omega arith))

  -- Where createDataVeths succeeds, every index below the number of pairs has an interface of the host and
  -- one of its DPU that are the two ends of one pair, are up and have the generated addresses.
  pub create_data_veths-Joined :
      (num_pairs : ℤ) (w : W)
      → (create_data_veths run e num_pairs w).0 ≡ some tt
      → (i : ℕ) → i < pos_part num_pairs
      → Joined e i (net (create_data_veths run e num_pairs w).1)
  unfolding create_data_veths
  create_data_veths-Joined num_pairs w ok i h =
      create_from-Joined (pos_part num_pairs) 0 w (λ j h. absurd (omega arith)) ok i (omega arith)
