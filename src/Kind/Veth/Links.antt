-- ===== src/Kind/Veth/Links.antt =====
-- The interfaces of the machine and of the two containers, and the documented behaviour of `ip link` on them.
use dpu_simulator.Base.{
  ◌≡◌, ◌∙◌, ap, refl, Bool, true, false, ◌&&◌, Option, none, some, String, str_eq, str_eq_refl,
  if◌then◌else◌, arith, Bool-cases, inl, inr,
}
use dpu_simulator.Platform.Executor.{Action, ◌>>=◌, must}
use dpu_simulator.Kind.Veth.{
  Place, machine, in_host, in_dpu, Runner, PairEnds, dress, add_args, move_args, rename_args,
  address_args, up_args,
}

-- An end of a pair: the name that the pair was made with tells which.
pub record Link : Type 0 where
  pub channel : String
  pub mac : String
  pub is_up : Bool

-- An end of a pair that was just made.
abbrev pub new_link : String → String → Link
new_link a m = record { channel = a; mac = m; is_up = false }

abbrev pub Net : Type 0
Net = Place → String → Option Link

abbrev pub is_place : Place → Place → Bool
is_place machine machine = true
is_place in_host in_host = true
is_place in_dpu in_dpu = true
is_place p q = false

unfoldable pub put : Net → Place → String → Option Link → Net
put net p n o q m = if is_place p q && str_eq n m then o else net q m

-- The manual of ip-link: what each command that succeeds has done, where the interface was there. One that
-- is moved is taken down.
pub record IpLink {W : Type 0} (run : Runner W) (net : W → Net) (e : PairEnds) : Type 0 where
  pub adds :
      (a b : String) (w : W)
      → (run machine (add_args a b) w).0 ≡ true
      → (m n : String) × (net (run machine (add_args a b) w).1
          ≡ put (put (net w) machine a (some (new_link a m))) machine b (some (new_link a n)))
  pub moves_to_host :
      (a : String) (l : Link) (w : W)
      → (run machine (move_args a e.host_pid) w).0 ≡ true
      → net w machine a ≡ some l
      → net (run machine (move_args a e.host_pid) w).1
        ≡ put (put (net w) machine a none) in_host a (some (record l { is_up = false }))
  pub moves_to_dpu :
      (a : String) (l : Link) (w : W)
      → (run machine (move_args a e.dpu_pid) w).0 ≡ true
      → net w machine a ≡ some l
      → net (run machine (move_args a e.dpu_pid) w).1
        ≡ put (put (net w) machine a none) in_dpu a (some (record l { is_up = false }))
  pub renames :
      (p : Place) (a b : String) (l : Link) (w : W)
      → (run p (rename_args a b) w).0 ≡ true
      → net w p a ≡ some l
      → net (run p (rename_args a b) w).1 ≡ put (put (net w) p a none) p b (some l)
  pub sets_address :
      (p : Place) (a mac : String) (l : Link) (w : W)
      → (run p (address_args a mac) w).0 ≡ true
      → net w p a ≡ some l
      → net (run p (address_args a mac) w).1 ≡ put (net w) p a (some (record l { mac = mac }))
  pub brings_up :
      (p : Place) (a : String) (l : Link) (w : W)
      → (run p (up_args a) w).0 ≡ true
      → net w p a ≡ some l
      → net (run p (up_args a) w).1 ≡ put (net w) p a (some (record l { is_up = true }))

-- What holds behind a command and what follows it, where both succeed.
pub after :
    {W B : Type 0} (R : W → Type 0) (command : W → Bool × W) (f : Unit {0} → Action W B) (w : W)
    {b : B}
    → ((must command >>= f) w).0 ≡ some b
    → ((command w).0 ≡ true → (f tt (command w).1).0 ≡ some b → R (f tt (command w).1).1)
    → R ((must command >>= f) w).1
after R command f w ok rest = elim (Bool-cases (command w).0) [
  | inl e ↦ rw e (rest e (rw e at ok))
  | inr e ↦ grind arith
]

is_place_refl : (p : Place) → is_place p p ≡ true
is_place_refl machine = refl
is_place_refl in_host = refl
is_place_refl in_dpu = refl

pub put_self : (net : Net) (p : Place) (n : String) (o : Option Link) → put net p n o p n ≡ o
unfolding put
put_self net p n o = rw (is_place_refl p, str_eq_refl n) refl

pub put_other :
    (net : Net) (p : Place) (n : String) (o : Option Link) (q : Place) (m : String)
    → (is_place p q && str_eq n m) ≡ false
    → put net p n o q m ≡ net q m
unfolding put
put_other net p n o q m away = rw away refl

-- The last of a sequence.
pub finally :
    {W : Type 0} (R : W → Type 0) (command : W → Bool × W) (w : W) {b : Unit {0}}
    → (must command w).0 ≡ some b
    → ((command w).0 ≡ true → R (command w).1)
    → R (must command w).1
finally R command w ok rest = elim (Bool-cases (command w).0) [
  | inl e ↦ rest e
  | inr e ↦ grind arith
]

-- An end that is in its container under its name, and up.
unfoldable pub Dressed : Net → Net → Place → String → String → Link → Type 0
Dressed net net' p end target l =
    (net' p target ≡ some l)
    × ((q : Place) (m : String)
        → (is_place p q && str_eq end m) ≡ false
        → (is_place p q && str_eq target m) ≡ false
        → net' q m ≡ net q m)

puts-Dressed :
    (n0 n1 n2 n3 : Net) (p : Place) (end target : String) (l1 l2 l3 : Link)
    → n1 ≡ put (put n0 p end none) p target (some l1)
    → n2 ≡ put n1 p target (some l2)
    → n3 ≡ put n2 p target (some l3)
    → Dressed n0 n3 p end target l3
unfolding Dressed
puts-Dressed n0 n1 n2 n3 p end target l1 l2 l3 e1 e2 e3 = (
  rw (e3, put_self n2 p target (some l3)) refl,
  λ q m off_end off_target.
      ap (λ n. n q m) e3
      ∙ put_other n2 p target (some l3) q m off_target
      ∙ ap (λ n. n q m) e2
      ∙ put_other n1 p target (some l2) q m off_target
      ∙ ap (λ n. n q m) e1
      ∙ put_other (put n0 p end none) p target (some l1) q m off_target
      ∙ put_other n0 p end none q m off_end,
)

module _ {W : Type 0} (run : Runner W) (net : W → Net) (e : PairEnds)
    (laws : IpLink run net e) where
  pub dress-Dressed :
      (p : Place) (end target mac : String) (l : Link) (w : W)
      → net w p end ≡ some l
      → (dress run p end target mac w).0 ≡ some tt
      → Dressed
          (net w)
          (net (dress run p end target mac w).1)
          p
          end
          target
          (record { channel = l.channel; mac = mac; is_up = true })
  unfolding dress
  dress-Dressed p end target mac l w there ok =
      let R = λ (w' : W).
        Dressed (net w) (net w') p end target
          (record { channel = l.channel; mac = mac; is_up = true }) in
      let l' = record l { mac = mac } in
      after R (run p (rename_args end target)) _ w ok (λ renamed ok1.
        let w1 = (run p (rename_args end target) w).1 in
        let e1 = laws.renames p end target l w renamed there in
        let here1 = ap (λ n. n p target) e1 ∙ put_self (put (net w) p end none) p target (some l) in
        after R (run p (address_args target mac)) _ w1 ok1 (λ set ok2.
          let w2 = (run p (address_args target mac) w1).1 in
          let e2 = laws.sets_address p target mac l w1 set here1 in
          let here2 = ap (λ n. n p target) e2 ∙ put_self (net w1) p target (some l') in
          finally R (run p (up_args target)) w2 ok2 (λ is_up.
            puts-Dressed (net w) (net w1) (net w2) _ p end target l l' _ e1 e2
              (laws.brings_up p target l' w2 is_up here2))))
