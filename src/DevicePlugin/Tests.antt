-- ===== src/DevicePlugin/Tests.antt =====
-- Concrete runs of the device plugin.
use dpu_simulator.Base.{
  ℕ, ◌≡◌, ◌≢◌, ◌↔◌, ◌-◌, ◌^◌, refl, Bool, true, false, List, [], ◌∷◌, none, some, arith, String,
  here, there, str_eq,
}
use dpu_simulator.Base.Int.{pos}
use dpu_simulator.Base.Text.{atoi}
use dpu_simulator.DevicePlugin.Names.{
  host_data_if, host_data_if_index, host_data_if_index-host_data_if,
}
use dpu_simulator.DevicePlugin.Pools.{
  ResourcePool, pools, mgmt_pool, vf_pool, build_resource_pools, host_data_if_in_range,
  pod_vf_start_of,
}
use dpu_simulator.DevicePlugin.Pools.Ranges.{
  build_resource_pools_ranges, build_resource_pools_overlap,
}
use dpu_simulator.DevicePlugin.Plugin.{
  Interface, DeviceState, healthy, unhealthy, Plugin, Reading, discover_devices, check_device,
  is_alive, check_devices, mark_allocated, allocate_container, allocate, refused, unknown_device,
  contains, devices_snapshot, info_file_failed,
}
use dpu_simulator.DevicePlugin.Plugin.Device.{
  Alive, named, DeviceReading, run_checks, streak, Tracks, run_checks-Tracks, check_device-Alive,
}
use dpu_simulator.DevicePlugin.Plugin.Watch.{
  tick, allocated_at, list_and_watch, IsCurrent, list_and_watch-IsCurrent, check_devices-changed,
}
use dpu_simulator.DevicePlugin.Plugin.Distinct.{Distinct, DistinctNames}
use dpu_simulator.DevicePlugin.Plugin.Invariant.{
  WellFormed, Reach, start, after, checked, marked, plugin-WellFormed,
}
use dpu_simulator.DevicePlugin.Plugin.Allocate.{
  allocate_container-Allocated, Allocated, allocate_not_atomic,
}

-- The host's interfaces, and what is left of them after the second data interface is gone.
abbrev two_pairs : List Interface
two_pairs =
    record { name = "eth0-0"; index = 2 }
    ∷ record { name = "eth0-1"; index = 3 }
    ∷ record { name = "eth0-2"; index = 4 }
    ∷ []

abbrev one_pair : List Interface
one_pair = record { name = "eth0-0"; index = 2 } ∷ record { name = "eth0-1"; index = 3 } ∷ []

abbrev any_name : String → Bool
any_name name = true

abbrev empty_plugin : Plugin
empty_plugin = record {
  pool = record {
    resource_name = "dpusim.io/mgmtvf";
    socket_name = "dpusim-mgmtvf.sock";
    env_var_name = "PCIDEVICE_DPUSIM_IO_MGMTVF";
    matches_iface = any_name;
    host_data_if_index_start = pos 1;
    host_data_if_index_end = pos 2;
  };
  devices = [];
  info_files = [];
}

abbrev device : String → ℕ → DeviceState
device id ifindex = record {
  id = id;
  health = healthy;
  ifindex = ifindex;
  last_allocated = none;
  consecutive_misses = 0;
}

abbrev started : Plugin
started = record empty_plugin {
  devices = device "eth0-0" 2 ∷ device "eth0-1" 3 ∷ device "eth0-2" 4 ∷ [];
}

two_pairs-DistinctNames : DistinctNames two_pairs
unfolding str_eq
two_pairs-DistinctNames = (refl, (refl, (refl, tt)))

one_pair-DistinctNames : DistinctNames one_pair
unfolding str_eq
one_pair-DistinctNames = (refl, (refl, tt))

started-Distinct : Distinct started.devices
unfolding str_eq
started-Distinct = (refl, (refl, (refl, tt)))

two_pairs-discovered : discover_devices (some two_pairs) empty_plugin ≡ some started
unfolding discover_devices
two_pairs-discovered = refl

-- The second data interface is missed.
abbrev missed : Reading
missed = record { net_interfaces = some one_pair; allocated = some []; now = 1; writes = any_name }

abbrev marked_plugin : Plugin
marked_plugin = mark_allocated 7 ("eth0-1" ∷ []) (check_devices missed started).0

two_steps : Reach started marked_plugin
two_steps =
    after (after start (checked missed one_pair refl one_pair-DistinctNames))
      (marked 7 ("eth0-1" ∷ []))

plugin-WellFormed_example : WellFormed marked_plugin
plugin-WellFormed_example =
    plugin-WellFormed two_pairs empty_plugin two_pairs-DistinctNames two_pairs-discovered two_steps

eth0-1-named :
    Alive two_pairs none 1
      (record (device "eth0-1" 3) { health = unhealthy; consecutive_misses = 5 })
eth0-1-named = named (record { name = "eth0-1"; index = 3 }) (there (here refl)) refl

check_device-Alive_example :
    ((check_device two_pairs none 1
        (record (device "eth0-1" 3) { health = unhealthy; consecutive_misses = 5 })).0.health
      ≡ healthy)
    × ((check_device two_pairs none 1 (record (device "eth0-1" 3) {
      health = unhealthy;
      consecutive_misses = 5;
    })).0.consecutive_misses
        ≡ 0)
    × ((check_device two_pairs none 1
          (record (device "eth0-1" 3) { health = unhealthy; consecutive_misses = 5 })).1
        ≡ true)
check_device-Alive_example =
    check_device-Alive two_pairs none 1
      (record (device "eth0-1" 3) { health = unhealthy; consecutive_misses = 5 }) eth0-1-named

abbrev missed_twice : DeviceState
missed_twice = record (device "eth0-2" 4) { consecutive_misses = 2 }

given_up : (check_device one_pair (some []) 1 missed_twice).0.health ≡ unhealthy
unfolding check_device is_alive str_eq
given_up = refl

abbrev three_readings : List DeviceReading
three_readings =
    let miss : DeviceReading = record { ifaces = one_pair; allocated = some []; now = 1 } in
    miss ∷ miss ∷ miss ∷ []

run_checks-Tracks_example :
    Tracks
      (streak three_readings (device "eth0-2" 4) 0)
      (run_checks three_readings (device "eth0-2" 4))
run_checks-Tracks_example = run_checks-Tracks three_readings (device "eth0-2" 4) 0 (refl, refl)

check_devices-changed_example :
    ((check_devices missed started).1 ≡ true)
    ↔ (devices_snapshot (check_devices missed started).0 ≢ devices_snapshot started)
check_devices-changed_example = check_devices-changed missed started

list_and_watch-IsCurrent_example :
    IsCurrent
      (list_and_watch (tick missed ∷ allocated_at 7 ("eth0-1" ∷ []) ∷ tick missed ∷ []) started)
list_and_watch-IsCurrent_example =
    list_and_watch-IsCurrent (tick missed ∷ allocated_at 7 ("eth0-1" ∷ []) ∷ tick missed ∷ [])
      started

known_request : (allocate_container any_name 9 ("eth0-1" ∷ []) started).1 ≡ none
unfolding allocate_container str_eq
known_request = refl

allocate_container-Allocated_example :
    Allocated 9 ("eth0-1" ∷ []) started (allocate_container any_name 9 ("eth0-1" ∷ []) started).0
allocate_container-Allocated_example =
    allocate_container-Allocated any_name 9 ("eth0-1" ∷ []) started started-Distinct known_request

abbrev no_file : String → Bool
no_file name = false

failed_request : (allocate_container no_file 9 ("eth0-1" ∷ []) started).1 ≡ some info_file_failed
unfolding allocate_container str_eq
failed_request = refl

eth0-2-contained : contains ("eth0-2" ∷ []) "eth0-2" ≡ true
unfolding str_eq
eth0-2-contained = refl

unknown_id : contains ("eth0-0" ∷ "eth0-1" ∷ "eth0-2" ∷ []) "eth0-9" ≡ false
unfolding str_eq
unknown_id = refl

allocate_not_atomic_example :
    ((allocate any_name ((9, "eth0-1" ∷ []) ∷ (10, "eth0-9" ∷ []) ∷ []) started).1
      ≡ refused (unknown_device "eth0-9"))
    × Allocated 9
        ("eth0-1" ∷ [])
        started
        (allocate any_name ((9, "eth0-1" ∷ []) ∷ (10, "eth0-9" ∷ []) ∷ []) started).0
allocate_not_atomic_example =
    allocate_not_atomic any_name 9 10 ("eth0-1" ∷ []) "eth0-9" started started-Distinct
      known_request unknown_id

host_data_if_index-host_data_if_example : host_data_if_index (host_data_if (pos 12)) ≡ some (pos 12)
host_data_if_index-host_data_if_example =
    host_data_if_index-host_data_if 12 (omega arith) (omega arith)

build_resource_pools_ranges_example :
    (mgmt vf : ResourcePool) × (build_resource_pools (pos 2) (pos 1) (pos 6) ≡ pools mgmt vf)
    × (mgmt.matches_iface (host_data_if (pos 4)) ≡ false)
    × (vf.matches_iface (host_data_if (pos 4)) ≡ true)
build_resource_pools_ranges_example =
    build_resource_pools_ranges 2 1 6 4 (omega arith) (omega arith) (omega arith) (omega arith)

built :
    build_resource_pools (pos 2) (pos 1) (pos 6)
    ≡ pools (mgmt_pool (pos 2)) (vf_pool (pos 4) (pos 6))
unfolding build_resource_pools pod_vf_start_of
built = refl

eth0-2-managed : (mgmt_pool (pos 2)).matches_iface "eth0-2" ≡ true
unfolding mgmt_pool host_data_if_in_range host_data_if_index str_eq atoi
eth0-2-managed = refl

build_resource_pools_overlap_example :
    (mgmt vf : ResourcePool) × (build_resource_pools (pos 2) (pos (2 ^ 63 - 1)) (pos 0)
      ≡ pools mgmt vf)
    × (mgmt.matches_iface (host_data_if (pos 1)) ≡ true)
    × (vf.matches_iface (host_data_if (pos 1)) ≡ true)
build_resource_pools_overlap_example =
    build_resource_pools_overlap 2 (2 ^ 63 - 1) 1 (omega arith) (omega arith) (omega arith)
      (omega arith) (omega arith)
