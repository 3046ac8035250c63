-- ===== src/Config/Defaults/Settled/Counts.antt =====
-- Networks that are accepted.
use dpu_simulator.Base.{
  ◌≡◌, ◌∙◌, ap, sym, refl, Bool, true, false, ◌&&◌, List, [], ◌++◌, String, str_eq, if◌then◌else◌,
  when, arith, append-eq-nil, Bool-cases, inl, inr,
}
use dpu_simulator.Base.Int.{ℤ, pos, leb_ℤ, ltb_ℤ, ◌-ℤ◌, ◌≤ℤ◌, -ℤ_parts}
use dpu_simulator.Config.Types.{Config, NetworkConfig, host_to_dpu_network_type}
use dpu_simulator.Config.Mode.{is_offload_dpu}
use dpu_simulator.Config.Cidr.{validate_ipv4_cidr_capacity}
use dpu_simulator.Config.Topology.{
  kind_dpu_gateway_subnet_required_ips, default_dpu_host_gateway_subnet,
}
use dpu_simulator.Config.Network.{
  disallowed_for_host_to_dpu, gateway_subnet_errors, check_counts, clamped_uplink,
  omitted_mgmt_count, defaulted_num_pairs, defaulted_gateway_subnet, check_bridged,
  check_host_to_dpu, validate_network, with_nic_model, NetworkError, required,
}
use dpu_simulator.Config.Defaults.Settled.Entries.{Settles, defaulted_idem}
use dpu_simulator.Config.Network.Budget.{check_counts-Clean, Clean, omitted_mgmt_count_bounds}

none_when :
    {a b c d : Bool} (v w x y : NetworkError)
    → a ≡ false
    → b ≡ false
    → c ≡ false
    → d ≡ false
    → when a v ++ when b w ++ when c x ++ when d y ≡ []
none_when v w x y ha hb hc hd = rw (ha, hb, hc, hd) refl

no_count_errors :
    (offload : Bool) (num_pairs mgmt uplink : ℤ)
    → Clean offload num_pairs mgmt uplink (check_counts offload num_pairs mgmt uplink)
    → (check_counts offload num_pairs mgmt uplink).errors ≡ []
unfolding check_counts
no_count_errors offload num_pairs mgmt uplink c =
    none_when _ _ _ _ c.within c.uplink_ok c.offload_ok c.fits

clamped_again : (uplink : ℤ) → clamped_uplink (clamped_uplink uplink) ≡ clamped_uplink uplink
clamped_again uplink = ground arith

-- The management count that is written stays as it is.
abbrev mgmt_of : ℤ → ℤ → ℤ → ℤ
mgmt_of num_pairs mgmt uplink =
    if leb_ℤ mgmt (pos 0) then omitted_mgmt_count num_pairs uplink else mgmt

mgmt_again :
    (num_pairs mgmt uplink : ℤ)
    → mgmt_of num_pairs (mgmt_of num_pairs mgmt uplink) uplink ≡ mgmt_of num_pairs mgmt uplink
mgmt_again num_pairs mgmt uplink = elim (Bool-cases (leb_ℤ mgmt (pos 0))) [
  | inr e ↦ rw (e, e) refl
  | inl e ↦ rw e (settled (omitted_mgmt_count num_pairs uplink))
]
  where
    settled : (om : ℤ) → (if leb_ℤ om (pos 0) then om else om) ≡ om
    settled om = ground arith

clamped_ok : (uplink : ℤ) → ltb_ℤ (clamped_uplink uplink) (pos 0) ≡ false
clamped_ok uplink = ground arith

clamped_pos : (uplink : ℤ) → pos 0 ≤ℤ clamped_uplink uplink
clamped_pos uplink = ground arith

-- A count that is given is within the budget.
within_again :
    (num_pairs mgmt uplink : ℤ)
    → pos 0 ≤ℤ uplink
    → (ltb_ℤ (pos 0) mgmt && ltb_ℤ (num_pairs -ℤ pos 2) mgmt) ≡ false
    → (ltb_ℤ (pos 0) (mgmt_of num_pairs mgmt uplink)
        && ltb_ℤ (num_pairs -ℤ pos 2) (mgmt_of num_pairs mgmt uplink))
      ≡ false
within_again num_pairs mgmt uplink h w = elim (Bool-cases (leb_ℤ mgmt (pos 0))) [
  | inr e ↦ rw e w
  | inl e ↦
      rw e (ground (arith, omitted_mgmt_count_bounds num_pairs uplink, -ℤ_parts num_pairs (pos 2)))
]

check_counts_again :
    (offload : Bool) (num_pairs mgmt uplink : ℤ)
    → let counts = check_counts offload num_pairs mgmt uplink in
      counts.errors ≡ []
      → check_counts offload num_pairs counts.mgmt counts.uplink
        ≡ record { mgmt = counts.mgmt; uplink = counts.uplink; errors = [] }
unfolding check_counts
check_counts_again offload num_pairs mgmt uplink e =
    let counts = check_counts offload num_pairs mgmt uplink in
    let again = check_counts offload num_pairs counts.mgmt counts.uplink in
    let clean = check_counts-Clean offload num_pairs mgmt uplink e in
    let same_uplink : again.uplink ≡ counts.uplink = clamped_again uplink in
    let same_mgmt : again.mgmt ≡ counts.mgmt =
      ap (mgmt_of num_pairs counts.mgmt) (clamped_again uplink)
      ∙ mgmt_again num_pairs mgmt (clamped_uplink uplink) in
    let fit : ℤ → ℤ → Bool =
      λ u m. ltb_ℤ (pos 0) u && leb_ℤ m (num_pairs -ℤ pos 2) && ltb_ℤ (num_pairs -ℤ pos 2 -ℤ m) u in
    let no_errors : again.errors ≡ [] =
      no_count_errors offload num_pairs counts.mgmt counts.uplink (record {
        within =
            within_again num_pairs mgmt (clamped_uplink uplink) (clamped_pos uplink) clean.within;
        uplink_ok = clamped_ok uplink;
        offload_ok = ap (λ m. offload && ltb_ℤ m (pos 1)) same_mgmt ∙ clean.offload_ok;
        fits =
            ap (λ u. fit u again.mgmt) same_uplink ∙ ap (fit counts.uplink) same_mgmt ∙ clean.fits;
      }) in
    λ i. record { mgmt = same_mgmt i; uplink = same_uplink i; errors = no_errors i }

num_pairs_again :
    (num_pairs : ℤ)
    → defaulted_num_pairs (defaulted_num_pairs num_pairs) ≡ defaulted_num_pairs num_pairs
num_pairs_again num_pairs = ground arith

check_host_to_dpu-Settles : (c : Config) → Settles (check_host_to_dpu c) (check_host_to_dpu c)
unfolding check_host_to_dpu
check_host_to_dpu-Settles c n h =
    let pairs = defaulted_num_pairs n.num_pairs in
    let counts = check_counts (is_offload_dpu c) pairs n.mgmt_port_vfs_count n.uplink_vfs_count in
    let subnet = defaulted_gateway_subnet n.gateway_subnet in
    let subnet_errors : String → List NetworkError = λ s.
      gateway_subnet_errors
        (validate_ipv4_cidr_capacity s (kind_dpu_gateway_subnet_required_ips c)) in
    let (fields, rest) =
      append-eq-nil (disallowed_for_host_to_dpu n) (subnet_errors subnet ++ counts.errors) h in
    let (subnet_clean, counts_clean) = append-eq-nil (subnet_errors subnet) counts.errors rest in
    let same_pairs = num_pairs_again n.num_pairs in
    let same_subnet = defaulted_idem n.gateway_subnet default_dpu_host_gateway_subnet in
    let same_counts =
      ap (λ p. check_counts (is_offload_dpu c) p counts.mgmt counts.uplink) same_pairs
      ∙ check_counts_again (is_offload_dpu c) pairs n.mgmt_port_vfs_count n.uplink_vfs_count
          counts_clean in
    let written : NetworkConfig = (check_host_to_dpu c n).0 in
    let no_errors : disallowed_for_host_to_dpu n ++ (subnet_errors subnet ++ []) ≡ [] =
      rw (fields, subnet_clean) refl in
    let same : check_host_to_dpu c written
        ≡ (written, disallowed_for_host_to_dpu n ++ (subnet_errors subnet ++ [])) =
      λ i. (
        record n {
          num_pairs = same_pairs i;
          gateway_subnet = same_subnet i;
          mgmt_port_vfs_count = (same_counts i).mgmt;
          uplink_vfs_count = (same_counts i).uplink;
        },
        disallowed_for_host_to_dpu n ++ (subnet_errors (same_subnet i) ++ (same_counts i).errors),
      ) in
    same ∙ ap (λ es. (written, es)) no_errors

check_bridged-Settles : Settles check_bridged check_bridged
unfolding check_bridged
check_bridged-Settles n h =
    rw (defaulted_idem n.mode "nat", defaulted_idem n.attach_to "any")
      (ap (λ es. ((check_bridged n).0, es)) h)

-- The checks of every network, around those of its type.
abbrev common : NetworkConfig → List NetworkError
common n =
    when (str_eq n.name "") (required "name") ++ when (str_eq n.network_type "") (required "type")

abbrev around :
    (NetworkConfig → NetworkConfig × List NetworkError)
    → NetworkConfig
    → NetworkConfig × List NetworkError
around f n = ((f (with_nic_model n)).0, common n ++ (f (with_nic_model n)).1)

-- What a check must keep to be settled within the common checks.
record KeepsCommon (f : NetworkConfig → NetworkConfig × List NetworkError) : Type 0 where
  same_common : (n : NetworkConfig) → common (f n).0 ≡ common n
  same_type : (n : NetworkConfig) → (f n).0.network_type ≡ n.network_type
  same_nic :
      (n : NetworkConfig) → with_nic_model (f (with_nic_model n)).0 ≡ (f (with_nic_model n)).0

around-Settles :
    (f : NetworkConfig → NetworkConfig × List NetworkError)
    → KeepsCommon f
    → Settles f f
    → Settles (around f) (around f)
around-Settles f keeps settles n h =
    let m = with_nic_model n in
    let (clean, own) = append-eq-nil (common n) (f m).1 h in
    let again : f (with_nic_model (f m).0) ≡ ((f m).0, []) =
      ap f (keeps.same_nic n) ∙ settles m own in
    λ i. ((again i).0, (keeps.same_common m ∙ clean) i ++ (again i).1)

module _ (c : Config) (n : NetworkConfig) where
  as_host_to_dpu :
      str_eq n.network_type host_to_dpu_network_type ≡ true
      → validate_network c n ≡ around (check_host_to_dpu c) n
  unfolding validate_network
  as_host_to_dpu e = rw e refl

  as_bridged :
      str_eq n.network_type host_to_dpu_network_type ≡ false
      → validate_network c n ≡ around check_bridged n
  unfolding validate_network
  as_bridged e = rw e refl

host_to_dpu-KeepsCommon : (c : Config) → KeepsCommon (check_host_to_dpu c)
unfolding check_host_to_dpu
host_to_dpu-KeepsCommon c = record {
  same_common = λ n. refl;
  same_type = λ n. refl;
  same_nic = λ n. rw (defaulted_idem n.nic_model "virtio") refl;
}

bridged-KeepsCommon : KeepsCommon check_bridged
unfolding check_bridged
bridged-KeepsCommon = record {
  same_common = λ n. refl;
  same_type = λ n. refl;
  same_nic = λ n. rw (defaulted_idem n.nic_model "virtio") refl;
}

pub validate_network-Settles : (c : Config) → Settles (validate_network c) (validate_network c)
validate_network-Settles c n h =
    elim (Bool-cases (str_eq n.network_type host_to_dpu_network_type)) [
      | inl e ↦
          let f = check_host_to_dpu c in
          settled f (host_to_dpu-KeepsCommon c) (check_host_to_dpu-Settles c) (as_host_to_dpu c n e)
            (as_host_to_dpu c (f (with_nic_model n)).0
              (ap is_host_to_dpu ((host_to_dpu-KeepsCommon c).same_type (with_nic_model n)) ∙ e))
      | inr e ↦ settled check_bridged bridged-KeepsCommon check_bridged-Settles (as_bridged c n e) (
          as_bridged c (check_bridged (with_nic_model n)).0
            (ap is_host_to_dpu (bridged-KeepsCommon.same_type (with_nic_model n)) ∙ e))
    ]
  where
    is_host_to_dpu : String → Bool
    is_host_to_dpu t = str_eq t host_to_dpu_network_type

    settled :
        (f : NetworkConfig → NetworkConfig × List NetworkError)
        → KeepsCommon f
        → Settles f f
        → validate_network c n ≡ around f n
        → validate_network c (f (with_nic_model n)).0 ≡ around f (f (with_nic_model n)).0
        → validate_network c (validate_network c n).0 ≡ ((validate_network c n).0, [])
    settled f keeps settles first second =
        let accepted = ap (λ p. p.1) (sym first) ∙ h in
        ap (λ p. validate_network c p.0) first
        ∙ second
        ∙ around-Settles f keeps settles n accepted
        ∙ ap (λ p. (p.0, [])) (sym first)
