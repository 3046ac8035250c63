-- ===== src/Cni/Install/Order.antt =====
-- The order of the addons of pkg/cni/install.go, and which of them are in it.
use dpu_simulator.Base.{
  ◌≡◌, ◌∙◌, ap, sym, refl, Bool, true, false, not, ◌&&◌, List, [], ◌∷◌, String, str_eq, str_eq_iff,
  if◌then◌else◌, arith, Bool-cases, inl, inr, keep,
}
use dpu_simulator.Config.Types.{Config}
use dpu_simulator.Config.Addons.{addon_multus, addon_whereabouts}
use dpu_simulator.Cni.Install.{
  phases, needs_multus_before_ovn_kubernetes, has_addon, place_whereabouts,
  resolve_addon_install_order, partition_pre_cni_addons,
}

whereabouts≠multus : str_eq addon_whereabouts addon_multus ≡ false
unfolding str_eq
whereabouts≠multus = refl

multus≠whereabouts : str_eq addon_multus addon_whereabouts ≡ false
unfolding str_eq
multus≠whereabouts = refl

whereabouts_self : str_eq addon_whereabouts addon_whereabouts ≡ true
unfolding str_eq
whereabouts_self = refl

multus_self : str_eq addon_multus addon_multus ≡ true
unfolding str_eq
multus_self = refl

place-members :
    (addons : List String) (a : String)
    → has_addon (place_whereabouts addons) a
      ≡ (if str_eq a addon_whereabouts then has_addon addons addon_multus else has_addon addons a)
unfolding place_whereabouts
place-members [] a = ground arith
place-members (addon ∷ addons) a = ground (
  arith,
  place-members addons a,
  str_eq_iff a addon_whereabouts,
  str_eq_iff addon_whereabouts a,
  str_eq_iff addon addon_whereabouts,
  str_eq_iff addon addon_multus,
  str_eq_iff addon a,
  whereabouts≠multus,
  multus≠whereabouts,
)

-- Which addons are installed: all that are configured, but for Whereabouts where Multus is not configured,
-- which is left out.
pub resolve_addon_install_order-members :
    (addons : List String) (a : String)
    → has_addon (resolve_addon_install_order addons) a ≡ (
        if str_eq a addon_whereabouts
        then has_addon addons addon_whereabouts && has_addon addons addon_multus
        else has_addon addons a)
unfolding resolve_addon_install_order
resolve_addon_install_order-members addons a =
    elim (Bool-cases (has_addon addons addon_whereabouts)) [
      | inl e ↦ rw (e, place-members addons a) refl
      | inr e ↦ elim (Bool-cases (str_eq a addon_whereabouts)) [
        | inl w ↦ rw (e, w) (ap (has_addon addons) ((str_eq_iff a addon_whereabouts).0 w) ∙ e)
        | inr w ↦ rw (e, w) refl
      ]
    ]

abbrev pub is_other : String → Bool
is_other a = not (str_eq a addon_whereabouts)

-- Whereabouts stands right before each Multus, and nowhere else.
pub data Placed : List String → Type 0 where
  none_left : Placed []
  other :
      {a : String} {addons : List String}
      → str_eq a addon_whereabouts ≡ false
      → str_eq a addon_multus ≡ false
      → Placed addons
      → Placed (a ∷ addons)
  both :
      {a b : String} {addons : List String}
      → str_eq a addon_whereabouts ≡ true
      → str_eq b addon_multus ≡ true
      → Placed addons
      → Placed (a ∷ b ∷ addons)

place-Placed : (addons : List String) → Placed (place_whereabouts addons)
unfolding place_whereabouts
place-Placed [] = none_left
place-Placed (addon ∷ addons) = elim (Bool-cases (str_eq addon addon_whereabouts)) [
  | inl e ↦ rw e (place-Placed addons)
  | inr e ↦ elim (Bool-cases (str_eq addon addon_multus)) [
    | inl m ↦ rw (e, m) (both whereabouts_self m (place-Placed addons))
    | inr m ↦ rw (e, m) (other e m (place-Placed addons))
  ]
]

place_others :
    (addons : List String) → keep is_other (place_whereabouts addons) ≡ keep is_other addons
unfolding place_whereabouts
place_others [] = refl
place_others (addon ∷ addons) = ground (arith, place_others addons, whereabouts_self)

place_again : {addons : List String} → Placed addons → place_whereabouts addons ≡ addons
unfolding place_whereabouts
place_again none_left = refl
place_again (other {a = a} e m rest) = rw (e, m) (ap (◌∷◌ a) (place_again rest))
place_again (both {a = a} {b = b} w m rest) =
    let is_m = (str_eq_iff b addon_multus).0 m in
    let not_w = ap (λ x. str_eq x addon_whereabouts) is_m ∙ multus≠whereabouts in
    let is_w = (str_eq_iff a addon_whereabouts).0 w in
    rw (w, not_w, m) (λ i. sym is_w i ∷ b ∷ place_again rest i)

-- Where Whereabouts is configured, it is installed right before each Multus and nowhere else, the other
-- addons keep their order, and the order that results is its own order.
pub resolve_addon_install_order-Placed :
    (addons : List String)
    → has_addon addons addon_whereabouts ≡ true
    → let ordered = resolve_addon_install_order addons in
      Placed ordered
      × (keep is_other ordered ≡ keep is_other addons)
      × (resolve_addon_install_order ordered ≡ ordered)
unfolding resolve_addon_install_order
resolve_addon_install_order-Placed addons e =
    let placed = place-Placed addons in
    rw e (
      placed,
      place_others addons,
      elim (Bool-cases (has_addon (place_whereabouts addons) addon_whereabouts)) [
        | inl h ↦ rw h (place_again placed)
        | inr h ↦ rw h refl
      ],
    )

partition_multus :
    (addons : List String)
    → has_addon (partition_pre_cni_addons addons).0 addon_multus ≡ has_addon addons addon_multus
unfolding partition_pre_cni_addons
partition_multus [] = refl
partition_multus (addon ∷ addons) = ground (arith, partition_multus addons)

-- Multus is in the first phase where it is needed there.
pub phases-multus :
    (c : Config) (cluster_name : String) (addons : List String)
    → needs_multus_before_ovn_kubernetes c cluster_name ≡ true
    → has_addon addons addon_multus ≡ true
    → has_addon (phases c cluster_name (resolve_addon_install_order addons)).0 addon_multus ≡ true
unfolding phases
phases-multus c cluster_name addons needs has = rw needs (
    partition_multus (resolve_addon_install_order addons)
    ∙ resolve_addon_install_order-members addons addon_multus
    ∙ rw (multus≠whereabouts, has) refl)
