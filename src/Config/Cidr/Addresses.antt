-- ===== src/Config/Cidr/Addresses.antt =====
-- The addresses of a subnet: the first usable one, the highest free one, and how many there are.
use mathlib.Core.Option.{some-injective}
use native.Mathlib.Nat.{one-le-pow, pow-le-pow_right, div-add-mod'}
use dpu_simulator.Base.{
  ℕ, zero, suc, ◌+◌, ◌-◌, ◌%◌, ◌^◌, ◌≤◌, ◌<◌, ◌≡◌, refl, sym, subst, true, false, List, [], ◌∙◌,
  Option, none, some, arith, ◌==◌, inl, inr, Bool-cases,
}
use dpu_simulator.Config.Cidr.{
  IpNet, broadcast, is_used, highest_free, get_free_ipv4_address, get_first_usable,
  usable_ipv4_address_count,
}

-- A subnet as ParseCIDR makes it: no bit behind the prefix is set.
pub record IsSubnet (subnet : IpNet) : Type 0 where
  pub is_ipv4 : subnet.bits ≡ 32
  pub prefix : subnet.ones ≤ 32
  pub fits : subnet.address + 2 ^ (32 - subnet.ones) ≤ 2 ^ 32
  pub masked : subnet.address % 2 ^ (32 - subnet.ones) ≡ 0

-- The address `a` is free and usable, and every usable address above it is taken.
pub record HighestFree (used : List (Option ℕ)) (low high a : ℕ) : Type 0 where
  pub above : low < a
  pub below : a ≤ high
  pub free : is_used used a ≡ false
  pub highest : (c : ℕ) → a < c → c ≤ high → is_used used c ≡ true

some≢none : {a : ℕ} → ¬ (some a ≡ none)
some≢none e = cc

HighestFree-step :
    (used : List (Option ℕ)) (low k a : ℕ)
    → is_used used (low + suc k) ≡ true
    → HighestFree used low (low + k) a
    → HighestFree used low (low + suc k) a
HighestFree-step used low k a t f = record {
  above = f.above;
  below = omega (arith, f.below);
  free = f.free;
  highest = λ c l m. elim (Bool-cases (c == low + suc k)) [
    | inl e ↦
        let e' : c ≡ low + suc k = ground arith in subst (λ x. is_used used x ≡ true) (sym e') t
    | inr ne ↦ f.highest c l (ground arith)
  ];
}

highest_free-some :
    (used : List (Option ℕ)) (low k : ℕ) {a : ℕ}
    → highest_free used low k ≡ some a
    → HighestFree used low (low + k) a
unfolding highest_free
highest_free-some used low zero h = cc
highest_free-some used low (suc k) {a} h = elim (Bool-cases (is_used used (low + suc k))) [
  | inl t ↦ HighestFree-step used low k a t (highest_free-some used low k (rw t at h))
  | inr f ↦
      let e : low + suc k ≡ a = some-injective _ _ (rw f at h) in
      rw (← e) (record {
        above = omega arith;
        below = omega arith;
        free = f;
        highest = λ c l m. absurd (omega arith);
      })
]

highest_free-none :
    (used : List (Option ℕ)) (low k : ℕ)
    → highest_free used low k ≡ none
    → (c : ℕ) → low < c
    → c ≤ low + k
    → is_used used c ≡ true
unfolding highest_free
highest_free-none used low zero h c l m = absurd (omega arith)
highest_free-none used low (suc k) h c l m = elim (Bool-cases (is_used used (low + suc k))) [
  | inr f ↦ absurd (some≢none (rw f at h))
  | inl t ↦ elim (Bool-cases (c == low + suc k)) [
    | inl e ↦
        let e' : c ≡ low + suc k = ground arith in subst (λ x. is_used used x ≡ true) (sym e') t
    | inr ne ↦ highest_free-none used low k (rw t at h) c l (ground arith)
  ]
]

none_used : (low k : ℕ) → 0 < k → highest_free [] low k ≡ some (low + k)
unfolding highest_free
none_used low zero h = absurd (omega arith)
none_used low (suc k) h = refl

block_pos : (ones : ℕ) → 0 < 2 ^ (32 - ones)
block_pos ones = one-le-pow (32 - ones) 2 (omega arith)

-- A prefix of at most 31 bits leaves at least two addresses, one of at most 30 at least four.
block_two : (ones : ℕ) → ones ≤ 31 → 2 ≤ 2 ^ (32 - ones)
block_two ones h = pow-le-pow_right {n = 2} (omega arith) {i = 1} {j = 32 - ones} (omega arith)

block_four : (ones : ℕ) → ones ≤ 30 → 4 ≤ 2 ^ (32 - ones)
block_four ones h = pow-le-pow_right {n = 2} (omega arith) {i = 2} {j = 32 - ones} (omega arith)

broadcast-eq :
    (subnet : IpNet)
    → IsSubnet subnet
    → broadcast subnet ≡ subnet.address + 2 ^ (32 - subnet.ones) - 1
broadcast-eq subnet s =
    omega
      (arith, s.masked, div-add-mod' subnet.address (2 ^ (32 - subnet.ones)), block_pos subnet.ones)

first_candidate :
    (subnet : IpNet)
    → IsSubnet subnet
    → subnet.ones ≤ 31
    → (broadcast subnet + 2 ^ 32 - 1) % 2 ^ 32 - subnet.address ≡ 2 ^ (32 - subnet.ones) - 2
first_candidate subnet s h =
    rw (broadcast-eq subnet s) (omega (arith, s.fits, block_two subnet.ones h))

-- The addresses between the network address and the broadcast address.
abbrev pub last_usable : IpNet → ℕ
last_usable subnet = subnet.address + (2 ^ (32 - subnet.ones) - 2)

get_free-eq :
    (subnet : IpNet) (used : List (Option ℕ))
    → IsSubnet subnet
    → subnet.ones ≤ 31
    → get_free_ipv4_address subnet used
      ≡ highest_free used subnet.address (2 ^ (32 - subnet.ones) - 2)
unfolding get_free_ipv4_address
get_free-eq subnet used s h = rw (s.is_ipv4, first_candidate subnet s h)

-- An address that is found in an IPv4 subnet of at most 31 prefix bits is usable and not in use, and
-- every usable address above it is in use.
pub get_free_ipv4_address-some :
    (subnet : IpNet) (used : List (Option ℕ)) (a : ℕ)
    → IsSubnet subnet
    → subnet.ones ≤ 31
    → get_free_ipv4_address subnet used ≡ some a
    → HighestFree used subnet.address (last_usable subnet) a
get_free_ipv4_address-some subnet used a s h e =
    highest_free-some used subnet.address _ (sym (get_free-eq subnet used s h) ∙ e)

-- Where no address is found in an IPv4 subnet of at most 31 prefix bits, every usable address is in use.
pub get_free_ipv4_address-none :
    (subnet : IpNet) (used : List (Option ℕ)) (c : ℕ)
    → IsSubnet subnet
    → subnet.ones ≤ 31
    → get_free_ipv4_address subnet used ≡ none
    → subnet.address < c
    → c ≤ last_usable subnet
    → is_used used c ≡ true
get_free_ipv4_address-none subnet used c s h e l m =
    highest_free-none used subnet.address _ (sym (get_free-eq subnet used s h) ∙ e) c l m

-- In an IPv4 subnet of at most 30 prefix bits, the first usable address follows the network address;
-- with no address in use the free one is the last usable one; and the count of usable addresses is the
-- number of addresses from the one to the other.
pub usable_range :
    (subnet : IpNet)
    → IsSubnet subnet
    → subnet.ones ≤ 30
    → (get_first_usable subnet ≡ some (subnet.address + 1))
      × (get_free_ipv4_address subnet [] ≡ some (last_usable subnet))
      × (usable_ipv4_address_count subnet ≡ last_usable subnet - subnet.address)
unfolding get_first_usable usable_ipv4_address_count
usable_range subnet s h = (first, last, ground arith)
  where
    first : get_first_usable subnet ≡ some (subnet.address + 1)
    first = ground (arith, s.is_ipv4, s.fits, block_four subnet.ones h)

    last : get_free_ipv4_address subnet [] ≡ some (last_usable subnet)
    last =
        get_free-eq subnet [] s (omega arith)
        ∙ none_used subnet.address (2 ^ (32 - subnet.ones) - 2)
            (omega (arith, block_four subnet.ones h))
