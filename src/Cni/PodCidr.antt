-- ===== src/Cni/PodCidr.antt =====
-- podCIDRWithPerNodePrefix of pkg/cni/helm_values.go. What `net.ParseCIDR` makes of a text is an argument.
pub mod Tests
use dpu_simulator.Base.{
  ℕ, ◌<◌, ◌≤◌, ◌≡◌, ◌∙◌, ap, sym, refl, Bool, true, false, not, ◌||◌, ◌&&◌, List, [], ◌∷◌, ◌++◌,
  Option, none, some, if◌then◌else◌, ◌==◌, arith, Bool-cases, inl, inr,
}
use dpu_simulator.Base.Int.{ℤ, pos, negsuc, leb_ℤ}
use dpu_simulator.Base.Text.{Bytes, codes, atoi}

-- The text before the first "/", and the parts behind it.
unfoldable pub split_parts : Bytes → Bytes × List Bytes
split_parts [] = ([], [])
split_parts (c ∷ cs) =
    let (part, parts) = split_parts cs in
    if c == b'/' then ([], part ∷ parts) else (c ∷ part, parts)

-- `strings.Split` at "/".
unfoldable pub split_slashes : Bytes → List Bytes
split_slashes s = (split_parts s).0 ∷ (split_parts s).1

-- What is used of the answer of `net.ParseCIDR`.
pub record Subnet : Type 0 where
  pub is_ipv4 : Bool
  pub cluster_prefix : ℕ

-- The prefix of a node is longer than that of the cluster, and fits an address.
unfoldable pub fits_cluster : Subnet → ℤ → Bool
fits_cluster net host_prefix =
    not (leb_ℤ host_prefix (pos net.cluster_prefix) || not (leb_ℤ host_prefix (pos 32)))

module _ (parse_cidr : Bytes → Option Subnet) where
  -- What is returned for a subnet and a prefix.
  unfoldable pub accept : Option Subnet → Option ℤ → Bytes → Option Bytes
  accept none h out = none
  accept (some net) none out = none
  accept (some net) (some h) out =
      if not net.is_ipv4 then none else if fits_cluster net h then some out else none

  unfoldable pub prefix_of_parts : Bytes → List Bytes → Option Bytes
  prefix_of_parts pod_cidr (a ∷ b ∷ []) =
      accept (parse_cidr (a ++ b'/' ∷ b)) (some (pos 24)) (pod_cidr ++ b'/' ∷ codes "24")
  prefix_of_parts pod_cidr (a ∷ b ∷ c ∷ []) = accept (parse_cidr (a ++ b'/' ∷ b)) (atoi c) pod_cidr
  prefix_of_parts pod_cidr parts = none

  unfoldable pub pod_cidr_with_per_node_prefix : Bytes → Option Bytes
  pod_cidr_with_per_node_prefix pod_cidr = prefix_of_parts pod_cidr (split_slashes pod_cidr)

atoi_24 : atoi (codes "24") ≡ some (pos 24)
unfolding atoi
atoi_24 = refl

split_24 : split_slashes (codes "24") ≡ codes "24" ∷ []
unfolding split_slashes split_parts
split_24 = refl

split_parts-append :
    (s t : Bytes)
    → split_parts (s ++ b'/' ∷ t) ≡ ((split_parts s).0, (split_parts s).1 ++ split_slashes t)
unfolding split_parts split_slashes
split_parts-append [] t = refl
split_parts-append (c ∷ s) t = elim (Bool-cases (c == b'/')) [
  | inl e ↦ rw (e, split_parts-append s t) refl
  | inr e ↦ rw (e, split_parts-append s t) refl
]

split_slashes-append :
    (s t : Bytes) → split_slashes (s ++ b'/' ∷ t) ≡ split_slashes s ++ split_slashes t
unfolding split_slashes split_parts
split_slashes-append s t = ap (λ p. p.0 ∷ p.1) (split_parts-append s t)

module _ (parse_cidr : Bytes → Option Subnet) where
  -- A subnet with a prefix for each node, longer than that of the cluster.
  unfoldable pub IsPerNode : Bytes → Type 0
  IsPerNode s =
      (a : Bytes) × (b : Bytes) × (c : Bytes) × (net : Subnet) × (h : ℕ) × (split_slashes s
        ≡ a ∷ b ∷ c ∷ [])
      × (parse_cidr (a ++ b'/' ∷ b) ≡ some net)
      × (net.is_ipv4 ≡ true)
      × (atoi c ≡ some (pos h))
      × (net.cluster_prefix < h)
      × (h ≤ 32)

  -- What was accepted.
  accept-some :
      (o : Option Subnet) (n : Option ℤ) (out t : Bytes)
      → accept parse_cidr o n out ≡ some t
      → (out ≡ t)
        × (net : Subnet) × (h : ℕ) × (o ≡ some net)
        × (net.is_ipv4 ≡ true)
        × (n ≡ some (pos h))
        × (net.cluster_prefix < h)
        × (h ≤ 32)
  unfolding accept fits_cluster
  accept-some none n out t e = grind arith
  accept-some (some net) none out t e = grind arith
  accept-some (some net) (some (negsuc k)) out t e = grind arith
  accept-some (some net) (some (pos h)) out t e =
      (ground arith, net, h, refl, ground arith, refl, ground arith, ground arith)

  IsPerNode-pod_cidr_with_per_node_prefix :
      (t : Bytes) → IsPerNode t → pod_cidr_with_per_node_prefix parse_cidr t ≡ some t
  unfolding IsPerNode pod_cidr_with_per_node_prefix prefix_of_parts accept fits_cluster
  IsPerNode-pod_cidr_with_per_node_prefix t
        (a, b, c, net, h, parts, cidr, v4, prefix, longer, fits) =
      ap (prefix_of_parts parse_cidr t) parts
      ∙ ap (λ o. accept parse_cidr o (atoi c) t) cidr
      ∙ ap (λ n. accept parse_cidr (some net) n t) prefix
      ∙ ground arith

  prefix_of_parts-IsPerNode :
      (s t : Bytes) (parts : List Bytes)
      → split_slashes s ≡ parts
      → prefix_of_parts parse_cidr s parts ≡ some t
      → IsPerNode t
  unfolding IsPerNode prefix_of_parts
  prefix_of_parts-IsPerNode s t [] split e = grind arith
  prefix_of_parts-IsPerNode s t (a ∷ []) split e = grind arith
  prefix_of_parts-IsPerNode s t (a ∷ b ∷ []) split e =
      let (same, net, h, cidr, v4, prefix, longer, fits) =
        accept-some (parse_cidr (a ++ b'/' ∷ b)) (some (pos 24)) (s ++ b'/' ∷ codes "24") t e in
      (
        a,
        b,
        codes "24",
        net,
        h,
        ap split_slashes (sym same)
            ∙ split_slashes-append s (codes "24")
            ∙ ap (λ ps. ps ++ split_slashes (codes "24")) split
            ∙ ap (λ ps. a ∷ b ∷ ps) split_24,
        cidr,
        v4,
        atoi_24 ∙ prefix,
        longer,
        fits,
      )
  prefix_of_parts-IsPerNode s t (a ∷ b ∷ c ∷ []) split e =
      let (same, net, h, cidr, v4, prefix, longer, fits) =
        accept-some (parse_cidr (a ++ b'/' ∷ b)) (atoi c) s t e in
      (a, b, c, net, h, ap split_slashes (sym same) ∙ split, cidr, v4, prefix, longer, fits)
  prefix_of_parts-IsPerNode s t (a ∷ b ∷ c ∷ d ∷ parts) split e = grind arith

  -- What podCIDRWithPerNodePrefix returns is a subnet with a prefix for each node that is longer than that
  -- of the cluster, and given this text again it returns it as it is.
  pub pod_cidr_with_per_node_prefix-IsPerNode :
      (s t : Bytes)
      → pod_cidr_with_per_node_prefix parse_cidr s ≡ some t
      → IsPerNode t × (pod_cidr_with_per_node_prefix parse_cidr t ≡ some t)
  unfolding pod_cidr_with_per_node_prefix
  pod_cidr_with_per_node_prefix-IsPerNode s t e =
      let per_node = prefix_of_parts-IsPerNode s t (split_slashes s) refl e in
      (per_node, IsPerNode-pod_cidr_with_per_node_prefix t per_node)
