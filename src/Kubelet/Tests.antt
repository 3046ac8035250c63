-- ===== src/Kubelet/Tests.antt =====
-- A concrete merge of the flags of kubelet.
use dpu_simulator.Base.{◌≡◌, keep, not, ◌++◌, List, [], ◌∷◌}
use dpu_simulator.Base.Text.{Bytes, codes}
use dpu_simulator.Kubelet.{desired_flag, merge_flags}
use dpu_simulator.Kubelet.Merge.{is_ip_flag, merge_flags_lem}

abbrev old_flags : List Bytes
old_flags = codes "--v=2" ∷ codes "--node-ip=10.0.0.9" ∷ codes "--max-pods=50" ∷ []

merge_flags_lem_example :
    let merged = merge_flags (desired_flag (codes "10.0.0.2")) old_flags in
    (keep is_ip_flag merged ≡ (codes "--node-ip=" ++ codes "10.0.0.2") ∷ [])
    × (keep (λ f. not (is_ip_flag f)) merged ≡ keep (λ f. not (is_ip_flag f)) old_flags)
merge_flags_lem_example = merge_flags_lem (codes "10.0.0.2") old_flags
