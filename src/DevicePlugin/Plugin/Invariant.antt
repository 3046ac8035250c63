-- ===== src/DevicePlugin/Plugin/Invariant.antt =====
-- The invariant of a plugin under any interleaving of health checks, allocations and file writes.
use mathlib.Core.Option.{some-injective}
use dpu_simulator.Base.{
  ℕ, ◌≤◌, ◌≡◌, Bool, true, false, List, [], ◌∷◌, Option, none, some, arith, String, sym, ◌∙◌, All,
  All-append, subst,
}
use dpu_simulator.DevicePlugin.Plugin.{
  Interface, DeviceState, Plugin, Reading, mark_device, mark_all, is_known, mark_allocated,
  check_device, check_known, check_listed, check_devices, adopt, discover_devices, unhealthy,
  unhealthy_after_misses, write_device_info_files,
}
use dpu_simulator.DevicePlugin.Plugin.Allocate.{
  write_device_info_files-devices, write_device_info_files-pool,
}
use dpu_simulator.DevicePlugin.Plugin.Distinct.{
  Distinct, DistinctNames, mark_all-Distinct, check_device-id, is_known-check_known,
  Distinct-append, adopt-Distinct, adopt-not-known,
}

-- A device belongs to the pool, and one that was missed three times is unhealthy.
abbrev pub IsSound : (String → Bool) → DeviceState → Type 0
IsSound matches s =
    (matches s.id ≡ true) × (unhealthy_after_misses ≤ s.consecutive_misses → s.health ≡ unhealthy)

pub record WellFormed (p : Plugin) : Type 0 where
  pub distinct : Distinct p.devices
  pub sound : All (IsSound p.pool.matches_iface) p.devices

module _ (matches : String → Bool) where
  check_device-IsSound :
      (ifaces : List Interface) (allocated : Option (List String)) (now : ℕ) (s : DeviceState)
      → IsSound matches s
      → IsSound matches (check_device ifaces allocated now s).0
  unfolding check_device
  check_device-IsSound ifaces allocated now s h = ground (arith, h.0)

  check_known-IsSound :
      (ifaces : List Interface) (allocated : Option (List String)) (now : ℕ)
      (devices : List DeviceState)
      → All (IsSound matches) devices
      → All (IsSound matches) (check_known ifaces allocated now devices).0
  unfolding check_known
  check_known-IsSound ifaces allocated now [] h = tt
  check_known-IsSound ifaces allocated now (s ∷ devices) h = (
    check_device-IsSound ifaces allocated now s h.0,
    check_known-IsSound ifaces allocated now devices h.1,
  )

  adopt-IsSound :
      (known : String → Bool) (ifaces : List Interface)
      → All (IsSound matches) (adopt known matches ifaces)
  unfolding adopt
  adopt-IsSound known [] = tt
  adopt-IsSound known (i ∷ ifaces) = ground (arith, adopt-IsSound known ifaces)

  mark_device-IsSound :
      (now : ℕ) (id : String) (devices : List DeviceState)
      → All (IsSound matches) devices
      → All (IsSound matches) (mark_device now id devices)
  unfolding mark_device
  mark_device-IsSound now id [] h = tt
  mark_device-IsSound now id (s ∷ devices) h = ground (arith, mark_device-IsSound now id devices)

  mark_all-IsSound :
      (now : ℕ) (ids : List String) (devices : List DeviceState)
      → All (IsSound matches) devices
      → All (IsSound matches) (mark_all now ids devices)
  unfolding mark_all
  mark_all-IsSound now [] devices h = h
  mark_all-IsSound now (id ∷ ids) devices h =
      mark_all-IsSound now ids _ (mark_device-IsSound now id devices h)

check_known-Distinct :
    (ifaces : List Interface) (allocated : Option (List String)) (now : ℕ)
    (devices : List DeviceState)
    → Distinct devices
    → Distinct (check_known ifaces allocated now devices).0
unfolding check_known
check_known-Distinct ifaces allocated now [] h = tt
check_known-Distinct ifaces allocated now (s ∷ devices) h = (
  rw
      (
        is_known-check_known ifaces allocated now (check_device ifaces allocated now s).0.id
            devices,
        check_device-id ifaces allocated now s,
      )
      h.0,
  check_known-Distinct ifaces allocated now devices h.1,
)

check_listed-WellFormed :
    (ifaces : List Interface) (r : Reading) (p : Plugin)
    → DistinctNames ifaces
    → WellFormed p
    → WellFormed (check_listed ifaces r p).0
unfolding check_listed
check_listed-WellFormed ifaces r p n w = record {
  distinct =
      Distinct-append _ _ (check_known-Distinct ifaces r.allocated r.now p.devices w.distinct)
        (adopt-Distinct (is_known p.devices) p.pool.matches_iface ifaces n)
        (λ name k.
          adopt-not-known (is_known p.devices) p.pool.matches_iface ifaces name
            (sym (is_known-check_known ifaces r.allocated r.now name p.devices) ∙ k));
  sound =
      All-append _ _ _ (check_known-IsSound _ ifaces r.allocated r.now p.devices w.sound)
        (adopt-IsSound _ (is_known p.devices) ifaces);
}

-- What one critical section, or one file write outside of them, does to the plugin.
pub data Step (p : Plugin) : Plugin → Type 0 where
  unlisted : (r : Reading) → r.net_interfaces ≡ none → Step p (check_devices r p).0
  checked :
      (r : Reading) (ifaces : List Interface)
      → r.net_interfaces ≡ some ifaces
      → DistinctNames ifaces
      → Step p (check_devices r p).0
  marked : (now : ℕ) (ids : List String) → Step p (mark_allocated now ids p)
  wrote :
      (writes : String → Bool) (ids : List String) → Step p (write_device_info_files writes ids p).0

pub data Reach (p : Plugin) : Plugin → Type 0 where
  start : Reach p p
  after : {q r : Plugin} → Reach p q → Step q r → Reach p r

module _ {p : Plugin} (w : WellFormed p) where
  check_devices-unlisted :
      (r : Reading) → r.net_interfaces ≡ none → WellFormed (check_devices r p).0
  unfolding check_devices
  check_devices-unlisted r e = rw (e, check_devices) w

  check_devices-WellFormed :
      (r : Reading) (ifaces : List Interface)
      → r.net_interfaces ≡ some ifaces
      → DistinctNames ifaces
      → WellFormed (check_devices r p).0
  unfolding check_devices
  check_devices-WellFormed r ifaces e n =
      rw (e, check_devices) (check_listed-WellFormed ifaces r p n w)

  mark_allocated-WellFormed : (now : ℕ) (ids : List String) → WellFormed (mark_allocated now ids p)
  unfolding mark_allocated
  mark_allocated-WellFormed now ids = record {
    distinct = mark_all-Distinct now ids p.devices w.distinct;
    sound = mark_all-IsSound p.pool.matches_iface now ids p.devices w.sound;
  }

  write_files-WellFormed :
      (writes : String → Bool) (ids : List String)
      → WellFormed (write_device_info_files writes ids p).0
  write_files-WellFormed writes ids = record {
    distinct = rw (write_device_info_files-devices writes ids p) w.distinct;
    sound =
        rw (write_device_info_files-devices writes ids p, write_device_info_files-pool writes ids p)
          w.sound;
  }

Step-WellFormed : {p q : Plugin} → WellFormed p → Step p q → WellFormed q
Step-WellFormed w (unlisted r e) = check_devices-unlisted w r e
Step-WellFormed w (checked r ifaces e n) = check_devices-WellFormed w r ifaces e n
Step-WellFormed w (marked now ids) = mark_allocated-WellFormed w now ids
Step-WellFormed w (wrote writes ids) = write_files-WellFormed w writes ids

Reach-WellFormed : {p q : Plugin} → WellFormed p → Reach p q → WellFormed q
Reach-WellFormed w start = w
Reach-WellFormed w (after r s) = Step-WellFormed (Reach-WellFormed w r) s

discover_devices-WellFormed :
    (ifaces : List Interface) (p : Plugin) {q : Plugin}
    → DistinctNames ifaces
    → discover_devices (some ifaces) p ≡ some q
    → WellFormed q
unfolding discover_devices
discover_devices-WellFormed ifaces p n e = subst WellFormed (some-injective _ _ e) (record {
  distinct = adopt-Distinct (λ name. false) p.pool.matches_iface ifaces n;
  sound = adopt-IsSound p.pool.matches_iface (λ name. false) ifaces;
})

-- Whatever checks, allocations and file writes follow the discovery of the devices, in any order: no
-- device is advertised twice, each is in the pool, and each that was missed three times is unhealthy.
-- The interfaces that a check or the discovery lists have distinct names.
pub plugin-WellFormed :
    (ifaces : List Interface) (p : Plugin) {q r : Plugin}
    → DistinctNames ifaces
    → discover_devices (some ifaces) p ≡ some q
    → Reach q r
    → WellFormed r
plugin-WellFormed ifaces p n e steps =
    Reach-WellFormed (discover_devices-WellFormed ifaces p n e) steps
