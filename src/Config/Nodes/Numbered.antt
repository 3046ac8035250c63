-- ===== src/Config/Nodes/Numbered.antt =====
-- The container names that Kind numbers, pkg/config/config.go: different numbers and roles are different names.
use Prim.Native.String.{◌++◌ as concat}
use mathlib.Core.List.{append_assoc, append-nil, append_cancel_left}
use dpu_simulator.Base.{
  ℕ, ◌≡◌, ◌≢◌, sym, ap, ◌∙◌, [], ◌∷◌, ◌++◌, arith, String, if◌then◌else◌, ◌==◌, Bool-cases, inl,
  inr,
}
use dpu_simulator.Base.Text.{Bytes, codes, codes-concat, itoa, codes-itoa_inj, itoa-ne-nil}
use dpu_simulator.Config.Nodes.{numbered, control_plane_name, worker_name}

-- What follows the role in the k-th name.
suffix : ℕ → Bytes
suffix k = if k == 1 then [] else codes (itoa k)

suffix_inj : (j k : ℕ) → suffix j ≡ suffix k → j ≡ k
unfolding suffix
suffix_inj j k e = elim (Bool-cases (j == 1)) [
  | inl a ↦ elim (Bool-cases (k == 1)) [
    | inl b ↦ ground arith
    | inr b ↦ absurd (itoa-ne-nil k (sym (rw (a, b) at e)))
  ]
  | inr a ↦ elim (Bool-cases (k == 1)) [
    | inl b ↦ absurd (itoa-ne-nil j (rw (a, b) at e))
    | inr b ↦ codes-itoa_inj j k (rw (a, b) at e)
  ]
]

codes-numbered : (base : String) (k : ℕ) → codes (numbered base k) ≡ codes base ++ suffix k
unfolding numbered suffix
codes-numbered base k = elim (Bool-cases (k == 1)) [
  | inl e ↦ rw e (sym (append-nil (codes base)))
  | inr e ↦ rw e (codes-concat base (itoa k))
]

codes-role :
    (cluster role : String) (k : ℕ)
    → codes (numbered (concat cluster role) k) ≡ codes cluster ++ (codes role ++ suffix k)
codes-role cluster role k =
    codes-numbered (concat cluster role) k
    ∙ ap (λ cs. cs ++ suffix k) (codes-concat cluster role)
    ∙ append_assoc (codes cluster) (codes role) (suffix k)

-- Equal names agree behind the name of the cluster.
same_role :
    (cluster role role' : String) (j k : ℕ)
    → numbered (concat cluster role) j ≡ numbered (concat cluster role') k
    → codes role ++ suffix j ≡ codes role' ++ suffix k
same_role cluster role role' j k e =
    append_cancel_left (codes cluster) _ _
      (sym (codes-role cluster role j) ∙ ap codes e ∙ codes-role cluster role' k)

pub control_plane_name_inj :
    (cluster : String) (j k : ℕ)
    → control_plane_name cluster j ≡ control_plane_name cluster k
    → j ≡ k
unfolding control_plane_name
control_plane_name_inj cluster j k e = suffix_inj j k (
    append_cancel_left (codes "-control-plane") _ _
      (same_role cluster "-control-plane" "-control-plane" j k e))

pub worker_name_inj :
    (cluster : String) (j k : ℕ) → worker_name cluster j ≡ worker_name cluster k → j ≡ k
unfolding worker_name
worker_name_inj cluster j k e =
    suffix_inj j k
      (append_cancel_left (codes "-worker") _ _ (same_role cluster "-worker" "-worker" j k e))

abbrev second : Bytes → ℕ
second (c ∷ d ∷ cs) = d
second _ = 0

pub control_plane_name-ne-worker_name :
    (cluster : String) (j k : ℕ) → control_plane_name cluster j ≢ worker_name cluster k
unfolding control_plane_name worker_name
control_plane_name-ne-worker_name cluster j k e =
    let different : b'c' ≡ b'w' = ap second (same_role cluster "-control-plane" "-worker" j k e) in
    omega (arith, different)
