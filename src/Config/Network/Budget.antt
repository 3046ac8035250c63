-- ===== src/Config/Network/Budget.antt =====
-- The interfaces of a host-to-DPU network that has been accepted: how many serve each purpose.
use dpu_simulator.Base.{
  ◌+◌, ◌≤◌, ◌≡◌, Bool, true, false, ◌&&◌, [], arith, when-eq-nil, append-eq-nil,
}
use dpu_simulator.Base.Int.{ℤ, pos, pos_part, ◌≤ℤ◌, ◌-ℤ◌, -ℤ_parts, leb_ℤ, ltb_ℤ}
use dpu_simulator.Config.Network.{omitted_mgmt_count, check_counts, clamped_uplink, Counts}

-- The default leaves room for the gateway, the uplinks and one more interface.
pub omitted_mgmt_count_bounds :
    (num_pairs uplink : ℤ)
    → pos 0 ≤ℤ uplink
    → (pos 0 ≤ℤ omitted_mgmt_count num_pairs uplink)
      × ((pos 1 ≤ℤ omitted_mgmt_count num_pairs uplink)
          → pos_part (omitted_mgmt_count num_pairs uplink) + pos_part uplink + 2
            ≤ pos_part num_pairs)
unfolding omitted_mgmt_count
omitted_mgmt_count_bounds num_pairs uplink h = (ground arith, λ k. ground arith)

-- What an empty list of errors says of the tests behind it.
pub record Clean (offload : Bool) (num_pairs mgmt uplink : ℤ) (counts : Counts) : Type 0 where
  pub within : (ltb_ℤ (pos 0) mgmt && ltb_ℤ (num_pairs -ℤ pos 2) mgmt) ≡ false
  pub uplink_ok : ltb_ℤ uplink (pos 0) ≡ false
  pub offload_ok : (offload && ltb_ℤ counts.mgmt (pos 1)) ≡ false
  pub fits :
      (ltb_ℤ (pos 0) counts.uplink
        && leb_ℤ counts.mgmt (num_pairs -ℤ pos 2)
        && ltb_ℤ (num_pairs -ℤ pos 2 -ℤ counts.mgmt) counts.uplink)
      ≡ false

pub check_counts-Clean :
    (offload : Bool) (num_pairs mgmt uplink : ℤ)
    → (check_counts offload num_pairs mgmt uplink).errors ≡ []
    → Clean offload num_pairs mgmt uplink (check_counts offload num_pairs mgmt uplink)
unfolding check_counts
check_counts-Clean offload num_pairs mgmt uplink e =
    let (e3, e4) = append-eq-nil _ _ e in
    let (e12, e3') = append-eq-nil _ _ e3 in
    let (e1, e2) = append-eq-nil _ _ e12 in
    record {
      within = when-eq-nil _ _ e1;
      uplink_ok = when-eq-nil _ _ e2;
      offload_ok = when-eq-nil _ _ e3';
      fits = when-eq-nil _ _ e4;
    }

-- Counts with no error on them, under offload: at least one management interface, and the gateway, the
-- management interfaces, the uplinks and one more fit in num_pairs.
pub check_counts-offload :
    (num_pairs mgmt uplink : ℤ)
    → pos 1 ≤ℤ num_pairs
    → (check_counts true num_pairs mgmt uplink).errors ≡ []
    → (pos 1 ≤ℤ (check_counts true num_pairs mgmt uplink).mgmt)
      × (pos 0 ≤ℤ (check_counts true num_pairs mgmt uplink).uplink)
      × (pos_part (check_counts true num_pairs mgmt uplink).mgmt
            + pos_part (check_counts true num_pairs mgmt uplink).uplink
            + 2
          ≤ pos_part num_pairs)
unfolding check_counts
check_counts-offload num_pairs mgmt uplink p e = ground (
  arith,
  check_counts-Clean true num_pairs mgmt uplink e,
  omitted_mgmt_count_bounds num_pairs (clamped_uplink uplink),
  -ℤ_parts num_pairs (pos 2),
  -ℤ_parts (num_pairs -ℤ pos 2) (check_counts true num_pairs mgmt uplink).mgmt,
)
