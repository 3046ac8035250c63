-- ===== src/Kind/Veth/Named.antt =====
-- The names of the interfaces differ: those of one machine, and those of one container.
use Prim.Native.String.{◌++◌ as concat}
use text.Mathlib.TextLemmas.{append_cancel_left}
use dpu_simulator.Base.Text.{codes, codes-concat, itoa, itoa_inj}
use dpu_simulator.Base.{
  get_elem?, ◌++◌, str_eq_iff, Bool-cases, ℕ, ◌<◌, ◌≡◌, ◌∙◌, ap, sym, false, String, str_eq, arith,
  inl, inr,
}
use dpu_simulator.Base.Int.{pos}
use dpu_simulator.DevicePlugin.Names.{host_data_if}
use dpu_simulator.Kind.Veth.{dpu_data_if, veth_host_end, veth_dpu_end}

differ : (s t : String) → ¬ (codes s ≡ codes t) → str_eq s t ≡ false
differ s t h = elim (Bool-cases (str_eq s t)) [
  | inl e ↦ absurd (h (ap codes ((str_eq_iff s t).0 e)))
  | inr e ↦ e
]

starting :
    (p s q t : String)
    → ¬ (codes p ++ codes s ≡ codes q ++ codes t)
    → str_eq (concat p s) (concat q t) ≡ false
starting p s q t h =
    differ (concat p s) (concat q t) (λ e. h (sym (codes-concat p s) ∙ e ∙ codes-concat q t))

module _ (pair i j : ℕ) where
  pub host_end-dpu_end : str_eq (veth_host_end pair i) (veth_dpu_end pair j) ≡ false
  unfolding veth_host_end veth_dpu_end
  host_end-dpu_end =
      starting "host" _ "dpu" _ (λ e. let first = ap (λ bytes. get_elem? bytes 0) e in grind arith)

  pub dpu_end-host_end : str_eq (veth_dpu_end pair i) (veth_host_end pair j) ≡ false
  unfolding veth_host_end veth_dpu_end
  dpu_end-host_end =
      starting "dpu" _ "host" _ (λ e. let first = ap (λ bytes. get_elem? bytes 0) e in grind arith)

  pub host_end-host_data_if : str_eq (veth_host_end pair i) (host_data_if (pos j)) ≡ false
  unfolding veth_host_end host_data_if
  host_end-host_data_if =
      starting "host" _ "eth0-" _
        (λ e. let first = ap (λ bytes. get_elem? bytes 0) e in grind arith)

  pub dpu_end-dpu_data_if : str_eq (veth_dpu_end pair i) (dpu_data_if j) ≡ false
  unfolding veth_dpu_end dpu_data_if
  dpu_end-dpu_data_if =
      starting "dpu" _ "rep0-" _ (λ e. let first = ap (λ bytes. get_elem? bytes 0) e in grind arith)

-- Two indices that differ give two names behind one prefix.
numbered-ne :
    (prefix : String) (i j : ℕ)
    → ¬ (i ≡ j)
    → str_eq (concat prefix (itoa i)) (concat prefix (itoa j)) ≡ false
numbered-ne prefix i j h =
    elim (Bool-cases (str_eq (concat prefix (itoa i)) (concat prefix (itoa j)))) [
      | inr e ↦ e
      | inl e ↦
          let same = (str_eq_iff (concat prefix (itoa i)) (concat prefix (itoa j))).0 e in
          absurd (h (itoa_inj i j (append_cancel_left prefix (itoa i) (itoa j) same)))
    ]

module _ (i j : ℕ) (h : j < i) where
  pub other_host : str_eq (host_data_if (pos i)) (host_data_if (pos j)) ≡ false
  unfolding host_data_if
  other_host = numbered-ne _ i j (λ e. omega arith)

  pub other_dpu : str_eq (dpu_data_if i) (dpu_data_if j) ≡ false
  unfolding dpu_data_if
  other_dpu = numbered-ne "rep0-" i j (λ e. omega arith)
