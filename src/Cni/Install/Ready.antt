-- ===== src/Cni/Install/Ready.antt =====
-- On a DPU host, OVN-Kubernetes is installed once the definitions that Multus brings are there.
use dpu_simulator.Base.{
  ◌≡◌, ◌∙◌, ap, sym, refl, Bool, true, not, ◌&&◌, List, [], ◌∷◌, none, some, String, str_eq,
  if◌then◌else◌, arith, Bool-cases, Option-cases, inl, inr,
}
use dpu_simulator.Config.Types.{Config, cni_ovn_kubernetes, cni_flannel}
use dpu_simulator.Config.Topology.{dpu_cluster_needs_ovnk}
use dpu_simulator.Config.Addons.{addon_multus}
use dpu_simulator.Platform.Executor.{
  Action, done, ◌>>=◌, each, >>=-some, >>=-none, >>=-first, >>=-congr,
}
use dpu_simulator.Cni.Install.{
  Installer, has_addon, needs_multus_before_ovn_kubernetes, install_pre_cni_addon, install_primary,
  install_cni, install_addons, phases, install_cni_and_addons, resolve_addon_install_order,
}
use dpu_simulator.Cni.Install.Order.{phases-multus}

-- OVN-Kubernetes that fails wherever the definitions are not there.
abbrev pub guarded : {W : Type 0} → (W → Bool) → Installer W → Installer W
guarded ready m = record m {
  ovn_kubernetes = λ cluster_name k8s_ip w.
      if ready w then m.ovn_kubernetes cluster_name k8s_ip w else (none, w);
}

-- Multus brings the definitions, and Whereabouts and Flannel do not remove them.
pub record Definitions {W : Type 0} (m : Installer W) (ready : W → Bool) : Type 0 where
  pub multus_brings :
      (cluster host : String) (early : Bool) (w : W)
      → (m.multus cluster host early w).0 ≡ some tt
      → ready (m.multus cluster host early w).1 ≡ true
  pub whereabouts_keeps :
      (cluster : String) (w : W) → ready w ≡ true → ready (m.whereabouts cluster w).1 ≡ true
  pub multus_keeps :
      (cluster host : String) (early : Bool) (w : W)
      → ready w ≡ true
      → ready (m.multus cluster host early w).1 ≡ true
  pub flannel_keeps :
      (cluster : String) (w : W) → ready w ≡ true → ready (m.flannel cluster w).1 ≡ true
  pub ovn_kubernetes_keeps :
      (cluster k8s_ip : String) (w : W)
      → ready w ≡ true
      → ready (m.ovn_kubernetes cluster k8s_ip w).1 ≡ true

module _ {W : Type 0} (m : Installer W) (c : Config) (ready : W → Bool) (laws : Definitions m ready)
    (cluster host : String) where
  pre_keeps :
      (addon : String) (w : W)
      → ready w ≡ true
      → ready (install_pre_cni_addon m c cluster host addon w).1 ≡ true
  unfolding install_pre_cni_addon
  pre_keeps addon w h =
      ground (arith, laws.multus_keeps cluster host true w, laws.whereabouts_keeps cluster w)

  all_pre_keep :
      (addons : List String) (w : W)
      → ready w ≡ true
      → ready (each (install_pre_cni_addon m c cluster host) addons w).1 ≡ true
  unfolding each
  all_pre_keep [] w h = h
  all_pre_keep (addon ∷ addons) w h =
      let f = install_pre_cni_addon m c cluster host addon in
      let rest = λ (u : Unit {0}). each (install_pre_cni_addon m c cluster host) addons in
      elim (Option-cases (f w).0) [
        | inl e ↦ ap (λ p. ready p.1) (>>=-none f rest w e) ∙ pre_keeps addon w h
        | inr (u, e) ↦
            ap (λ p. ready p.1) (>>=-some f rest w e)
            ∙ all_pre_keep addons (f w).1 (pre_keeps addon w h)
      ]

  first_brings :
      (addon : String) (w : W)
      → str_eq addon addon_multus ≡ true
      → (install_pre_cni_addon m c cluster host addon w).0 ≡ some tt
      → ready (install_pre_cni_addon m c cluster host addon w).1 ≡ true
  unfolding install_pre_cni_addon
  first_brings addon w is_m ok =
      rw is_m (laws.multus_brings cluster host true w (rw (is_m, install_pre_cni_addon) at ok))

  pre_brings :
      (addons : List String) (w : W)
      → has_addon addons addon_multus ≡ true
      → (each (install_pre_cni_addon m c cluster host) addons w).0 ≡ some tt
      → ready (each (install_pre_cni_addon m c cluster host) addons w).1 ≡ true
  unfolding each
  pre_brings [] w has ok = cc
  pre_brings (addon ∷ addons) w has ok =
      let f = install_pre_cni_addon m c cluster host addon in
      let rest = λ (u : Unit {0}). each (install_pre_cni_addon m c cluster host) addons in
      let (u, e) = >>=-first f rest w ok in
      let step = >>=-some f rest w e in
      elim (Bool-cases (str_eq addon addon_multus)) [
        | inl is_m ↦
            ap (λ p. ready p.1) step ∙ all_pre_keep addons (f w).1 (first_brings addon w is_m e)
        | inr not_m ↦
            ap (λ p. ready p.1) step
            ∙ pre_brings addons (f w).1 (rw not_m at has) (ap (λ p. p.0) (sym step) ∙ ok)
      ]

  ovn_kubernetes-guarded :
      (w : W)
      → ready w ≡ true
      → m.ovn_kubernetes cluster host w ≡ (guarded ready m).ovn_kubernetes cluster host w
  ovn_kubernetes-guarded w h = rw h refl

  primary-guarded :
      (cni_type : String) (w : W)
      → ready w ≡ true
      → install_primary m c cni_type cluster host w
        ≡ install_primary (guarded ready m) c cni_type cluster host w
  unfolding install_primary
  primary-guarded cni_type w h = elim (Bool-cases (str_eq cni_type cni_flannel)) [
    | inl e ↦ rw e refl
    | inr e ↦ elim (Bool-cases (str_eq cni_type cni_ovn_kubernetes)) [
      | inl o ↦ rw (e, o) (ovn_kubernetes-guarded w h)
      | inr o ↦ rw (e, o) refl
    ]
  ]

  primary_keeps :
      (cni_type : String) (w : W)
      → ready w ≡ true
      → ready (install_primary m c cni_type cluster host w).1 ≡ true
  unfolding install_primary
  primary_keeps cni_type w h = elim (Bool-cases (str_eq cni_type cni_flannel)) [
    | inl e ↦ rw e (laws.flannel_keeps cluster w h)
    | inr e ↦ elim (Bool-cases (str_eq cni_type cni_ovn_kubernetes)) [
      | inl o ↦ rw (e, o) (laws.ovn_kubernetes_keeps cluster host w h)
      | inr o ↦ rw (e, o) (ground (arith, h))
    ]
  ]

  -- The second installation, on a DPU cluster with another CNI.
  abbrev again_if : Installer W → String → Action W Unit
  again_if i cni_type =
      if not (str_eq cni_type cni_ovn_kubernetes) && dpu_cluster_needs_ovnk c cluster
      then i.ovn_kubernetes cluster host
      else done tt

  again-guarded :
      (cni_type : String) (w : W)
      → ready w ≡ true
      → again_if m cni_type w ≡ again_if (guarded ready m) cni_type w
  again-guarded cni_type w h =
      elim (Bool-cases
        (not (str_eq cni_type cni_ovn_kubernetes) && dpu_cluster_needs_ovnk c cluster)) [
          | inl e ↦ rw e (ovn_kubernetes-guarded w h)
          | inr e ↦ rw e refl
        ]

  install_cni-guarded :
      (cni_type : String) (w : W)
      → ready w ≡ true
      → install_cni m c cni_type cluster host w
        ≡ install_cni (guarded ready m) c cni_type cluster host w
  unfolding install_cni
  install_cni-guarded cni_type w h =
      >>=-congr (install_primary m c cni_type cluster host)
        (install_primary (guarded ready m) c cni_type cluster host) (λ u. again_if m cni_type)
        (λ u. again_if (guarded ready m) cni_type) w (primary-guarded cni_type w h)
        (λ u e.
          again-guarded cni_type (install_primary m c cni_type cluster host w).1
            (primary_keeps cni_type w h))

  -- On a DPU host that needs Multus, where it is among the addons, OVN-Kubernetes is installed only where
  -- the definitions of Multus are there: to let it fail elsewhere changes nothing.
  pub install_cni_and_addons-guarded :
      (cni_type : String) (addons : List String) (w : W)
      → needs_multus_before_ovn_kubernetes c cluster ≡ true
      → has_addon addons addon_multus ≡ true
      → install_cni_and_addons m c cni_type cluster host addons w
        ≡ install_cni_and_addons (guarded ready m) c cni_type cluster host addons w
  unfolding install_cni_and_addons install_addons install_pre_cni_addon
  install_cni_and_addons-guarded cni_type addons w needs has =
      let (pre, post) = phases c cluster (resolve_addon_install_order addons) in
      let early = each (install_pre_cni_addon m c cluster host) pre in
      let late = λ (i : Installer W) (u : Unit {0}). install_addons i c post cluster host in
      >>=-congr early early (λ u. install_cni m c cni_type cluster host >>= late m)
        (λ u. install_cni (guarded ready m) c cni_type cluster host >>= late (guarded ready m)) w
        refl
        (λ u e.
          >>=-congr (install_cni m c cni_type cluster host)
            (install_cni (guarded ready m) c cni_type cluster host) (late m)
            (late (guarded ready m)) (early w).1
            (install_cni-guarded cni_type (early w).1
              (pre_brings pre w (phases-multus c cluster addons needs has) e))
            (λ u e. refl))
