-- ===== src/Config/Gateway.antt =====
-- pkg/config/config.go: the gateway options of a cluster, and the next hop on the gateway subnet.
use Prim.Native.String.{◌++◌ as concat}
use dpu_simulator.Base.{
  ℕ, ◌+◌, ◌%◌, ◌/◌, ◌^◌, ◌≡◌, ◌≢◌, ap, sym, ◌∙◌, not, ◌&&◌, [], Option, none, some, arith, String,
  str_eq, if◌then◌else◌, Option-cases, Bool-cases, inl, inr, ltb, append-eq-nil,
}
use dpu_simulator.Base.Text.{codes, codes-concat, itoa, itoa-ne-nil}
use dpu_simulator.Config.Cidr.{
  IpNet, CidrError, not_enough_addresses, parse_cidr, validate_ipv4_cidr, get_first_usable,
}
use dpu_simulator.Config.Mode.{is_kind_mode, is_offload_dpu}
use dpu_simulator.Config.Topology.{is_dpu_cluster, gateway_interfaces, dpu_host_gateway_subnet}
use dpu_simulator.Config.Types.{Config}

-- The dotted form of an address.
unfoldable pub dotted : ℕ → String
dotted a = concat (itoa (a / 2 ^ 24 % 256)) (
    concat "." (
      concat (itoa (a / 2 ^ 16 % 256))
        (concat "." (concat (itoa (a / 2 ^ 8 % 256)) (concat "." (itoa (a % 256)))))))

dotted_or_blank : Option ℕ → String
unfolding dotted
dotted_or_blank none = ""
dotted_or_blank (some a) = dotted a

-- The next hop on a subnet: its first usable address, or the empty text.
unfoldable pub next_hop_of : String → String
unfolding dotted_or_blank
next_hop_of cidr = elim (parse_cidr cidr) [
  | none ↦ ""
  | some subnet ↦ dotted_or_blank (get_first_usable subnet)
]

unfoldable pub dpu_kind_gateway_next_hop : Config → String
unfolding next_hop_of
dpu_kind_gateway_next_hop c = next_hop_of (dpu_host_gateway_subnet c)

unfoldable pub gateway_opts : Config → String → String
unfolding dpu_kind_gateway_next_hop
gateway_opts c cluster_name =
    let opts = concat "--gateway-interface=" (gateway_interfaces c cluster_name) in
    let routed = concat opts (concat " --gateway-router-subnet=" (dpu_host_gateway_subnet c)) in
    let next_hop = dpu_kind_gateway_next_hop c in
    if is_kind_mode c && is_offload_dpu c && is_dpu_cluster c cluster_name
    then (if not (str_eq next_hop "")
        then concat routed (concat " --gateway-nexthop=" next_hop)
        else routed)
    else opts

dotted-ne-nil : (a : ℕ) → codes (dotted a) ≢ []
unfolding dotted
dotted-ne-nil a e =
    itoa-ne-nil (a / 2 ^ 24 % 256)
      (append-eq-nil _ _ (sym (codes-concat (itoa (a / 2 ^ 24 % 256)) _) ∙ e)).0

parse_cidr-bits :
    (cidr : String) (subnet : IpNet) → parse_cidr cidr ≡ some subnet → subnet.bits ≡ 32
unfolding parse_cidr
parse_cidr-bits cidr subnet e = ground (arith, e)

some≢none : {e : CidrError} → ¬ (some e ≡ none)
some≢none h = cc

-- A subnet of at most 30 prefix bits has a first usable address.
hop_of_subnet :
    (subnet : IpNet)
    → subnet.bits ≡ 32
    → (if ltb 30 subnet.ones then some not_enough_addresses else none) ≡ none
    → dotted_or_blank (get_first_usable subnet) ≡ dotted ((subnet.address + 1) % 2 ^ 32)
unfolding get_first_usable dotted_or_blank
hop_of_subnet subnet b h = elim (Bool-cases (ltb 30 subnet.ones)) [
  | inl e ↦ absurd (some≢none (rw e at h))
  | inr e ↦ rw (b, e)
]

-- A gateway subnet that passes the validation has a next hop.
pub next_hop_of-validate_ipv4_cidr :
    (cidr : String) → validate_ipv4_cidr cidr ≡ none → next_hop_of cidr ≢ ""
unfolding next_hop_of validate_ipv4_cidr
next_hop_of-validate_ipv4_cidr cidr h = elim (Option-cases (parse_cidr cidr)) [
  | inl e ↦ absurd (some≢none (rw (e, validate_ipv4_cidr) at h))
  | inr (subnet, e) ↦
      let hop =
        hop_of_subnet subnet (parse_cidr-bits cidr subnet e) (rw (e, validate_ipv4_cidr) at h) in
      rw (e, next_hop_of) (λ z. dotted-ne-nil _ (ap codes (sym hop ∙ z)))
]
