-- ===== src/Config/Cidr.antt =====
-- pkg/config/network.go, pkg/netutil/netutil.go and GetFreeIPv4AddressInSubnet of pkg/network: IPv4
-- subnets, their sizes and their addresses. An address is the number that its 32 bits make.
-- `net.ParseCIDR` is followed for IPv4 texts. An IPv6 text is `none`, as one that is malformed: the
-- callers here refuse both.
pub mod Addresses
use dpu_simulator.Base.{
  ℕ, zero, suc, ◌+◌, ◌-◌, ◌*◌, ◌/◌, ◌%◌, ◌^◌, ◌≤◌, ◌<◌, ◌≡◌, Bool, true, false, not, ◌&&◌, ◌||◌,
  List, [], ◌∷◌, ◌++◌, Option, none, some, String, if◌then◌else◌, ◌==◌, ltb, leb, length, any,
}
use dpu_simulator.Base.Text.{Bytes, codes, is_digit, value, all_digits}

-- `bits` is the length of the mask: 32, or 128 for an IPv6 subnet.
pub record IpNet : Type 0 where
  pub address : ℕ
  pub ones : ℕ
  pub bits : ℕ

-- The text before the first occurrence of a byte, and the text behind it: `strings.Cut`.
cut : ℕ → Bytes → Option (Bytes × Bytes)
cut sep [] = none
cut sep (c ∷ cs) = elim (cut sep cs) [
  | none ↦ if c == sep then some ([], cs) else none
  | some (before, behind) ↦ if c == sep then some ([], cs) else some (c ∷ before, behind)
]

-- A decimal number of digits without a leading zero, up to a limit.
octet : Bytes → Option ℕ
octet [] = none
octet (c ∷ []) = if is_digit c then some (c - b'0') else none
octet (c ∷ d ∷ cs) =
    let n = value (c ∷ d ∷ cs) 0 in
    if all_digits (c ∷ d ∷ cs) && not (c == b'0') && leb n 255 then some n else none

-- The rest of a dotted address, with the fields read so far as a number.
fields : ℕ → Bytes → ℕ → Option ℕ
unfolding cut octet
fields zero cs n = elim (octet cs) [ none ↦ none | some k ↦ some (n * 256 + k) ]
fields (suc f) cs n = elim (cut b'.' cs) [
  | none ↦ none
  | some (before, behind) ↦ elim (octet before) [
    | none ↦ none
    | some k ↦ fields f behind (n * 256 + k)
  ]
]

unfoldable pub parse_ipv4 : Bytes → Option ℕ
unfolding fields
parse_ipv4 cs = fields 3 cs 0

prefix_length : Bytes → Option ℕ
prefix_length [] = none
prefix_length (c ∷ cs) =
    if all_digits (c ∷ cs) && leb (value (c ∷ cs) 0) 32 then some (value (c ∷ cs) 0) else none

-- The address with the bits behind the prefix cleared.
abbrev pub mask : ℕ → ℕ → ℕ
mask address ones = address - address % 2 ^ (32 - ones)

unfoldable pub parse_cidr : String → Option IpNet
unfolding cut parse_ipv4 prefix_length all_digits
parse_cidr s = elim (cut b'/' (codes s)) [
  | none ↦ none
  | some (addr, bits) ↦ elim (parse_ipv4 addr) [
    | none ↦ none
    | some a ↦ elim (prefix_length bits) [
      | none ↦ none
      | some n ↦ some (record { address = mask a n; ones = n; bits = 32 })
    ]
  ]
]

pub data CidrError : Type 0 where
  invalid_cidr not_enough_addresses : CidrError
  too_few_usable : ℕ → ℕ → CidrError

-- validateIPv4CIDR: the error, if there is one.
unfoldable pub validate_ipv4_cidr : String → Option CidrError
validate_ipv4_cidr cidr = elim (parse_cidr cidr) [
  | none ↦ some invalid_cidr
  | some subnet ↦ if ltb 30 subnet.ones then some not_enough_addresses else none
]

unfoldable pub usable_ipv4_address_count : IpNet → ℕ
usable_ipv4_address_count subnet = if ltb 30 subnet.ones then 0 else 2 ^ (32 - subnet.ones) - 2

check_capacity : ℕ → IpNet → Option CidrError
check_capacity required subnet =
    let usable = usable_ipv4_address_count subnet in
    if ltb usable required then some (too_few_usable usable required) else none

unfoldable pub validate_ipv4_cidr_capacity : String → ℕ → Option CidrError
unfolding validate_ipv4_cidr check_capacity usable_ipv4_address_count
validate_ipv4_cidr_capacity cidr required = elim (validate_ipv4_cidr cidr) [
  | some e ↦ some e
  | none ↦
      if required == 0
      then none
      else (elim (parse_cidr cidr) [ none ↦ none | some subnet ↦ check_capacity required subnet ])
]

-- GetFirstUsableIPv4AddressInSubnet, with the sum in 32 bits; `none` is the error.
unfoldable pub get_first_usable : IpNet → Option ℕ
get_first_usable subnet =
    if not (subnet.bits == 32)
    then none
    else if ltb 30 subnet.ones
    then none
    else some ((subnet.address + 1) % 2 ^ 32)

-- `netAddr | ((1 << (32 - ones)) - 1)`: the bits behind the prefix set.
abbrev pub broadcast : IpNet → ℕ
broadcast subnet =
    subnet.address / 2 ^ (32 - subnet.ones) * 2 ^ (32 - subnet.ones) + (2 ^ (32 - subnet.ones) - 1)

abbrev pub is_used : List (Option ℕ) → ℕ → Bool
is_used used candidate = any (λ ip. elim ip [ none ↦ false | some a ↦ a == candidate ]) used

-- The loop of GetFreeIPv4AddressInSubnet from the candidate `net_addr + k` down.
unfoldable pub highest_free : List (Option ℕ) → ℕ → ℕ → Option ℕ
highest_free used net_addr zero = none
highest_free used net_addr (suc k) =
    let lower = highest_free used net_addr k in
    if is_used used (net_addr + suc k) then lower else some (net_addr + suc k)

-- GetFreeIPv4AddressInSubnet: an address that is not IPv4 is `none` in `used`. `broadcast - 1` is taken
-- in 32 bits, and the loop runs while the candidate is above the network address.
unfoldable pub get_free_ipv4_address : IpNet → List (Option ℕ) → Option ℕ
unfolding highest_free
get_free_ipv4_address subnet used =
    let first = (broadcast subnet + 2 ^ 32 - 1) % 2 ^ 32 in
    if not (subnet.bits == 32)
    then none
    else highest_free used subnet.address (first - subnet.address)
