-- ===== src/DevicePlugin/Plugin.antt =====
-- cmd/dpu-sim-dp/plugin.go: the devices that a plugin advertises and the calls that change them.
-- The host's interfaces, the allocations that kubelet reports, the clock (nanoseconds) and the outcome
-- of each file write are arguments of the calls that read them; `none` stands for an error.
pub mod Device
pub mod Watch
pub mod Distinct
pub mod Invariant
pub mod Allocate
use Prim.Native.String.{◌++◌ as concat}
use dpu_simulator.Base.{
  ℕ, ◌+◌, ◌≡◌, refl, Bool, true, false, not, ◌&&◌, ◌||◌, List, [], ◌∷◌, ◌++◌, Option, none, some,
  arith, String, if◌then◌else◌, str_eq, ltb, leb, ◌==◌, any, map, keep, ◌<◌, ◌*◌,
}
use dpu_simulator.DevicePlugin.Pools.{ResourcePool}

pub record Interface : Type 0 where
  pub name : String
  pub index : ℕ

pub data Health : Type 0 where
  healthy unhealthy : Health

-- `last_allocated` is `none` for the zero time. The misses are counted without the bound of `int`.
pub record DeviceState : Type 0 where
  pub id : String
  pub health : Health
  pub ifindex : ℕ
  pub last_allocated : Option ℕ
  pub consecutive_misses : ℕ

-- `info_files` holds the devices whose device-info file has been written, the latest last.
pub record Plugin : Type 0 where
  pub pool : ResourcePool
  pub devices : List DeviceState
  pub info_files : List String

abbrev pub unhealthy_after_misses : ℕ
unhealthy_after_misses = 3

-- One minute.
abbrev pub allocation_grace_period : ℕ
allocation_grace_period = 60 * 1_000_000_000

abbrev pub is_healthy : Health → Bool
is_healthy healthy = true
is_healthy unhealthy = false

-- A fresh entry for an interface that the pool selects.
abbrev pub new_device : Interface → DeviceState
new_device iface = record {
  id = iface.name;
  health = healthy;
  ifindex = iface.index;
  last_allocated = none;
  consecutive_misses = 0;
}

-- The loop of discoverDevices, and of the second half of checkDevices, where `known` is not empty.
unfoldable pub adopt : (String → Bool) → (String → Bool) → List Interface → List DeviceState
adopt known matches [] = []
adopt known matches (iface ∷ ifaces) =
    if not (known iface.name) && matches iface.name
    then new_device iface ∷ adopt known matches ifaces
    else adopt known matches ifaces

-- discoverDevices: nothing is changed where the interfaces cannot be listed.
unfoldable pub discover_devices : Option (List Interface) → Plugin → Option Plugin
unfolding adopt
discover_devices none p = none
discover_devices (some ifaces) p =
    some (record p { devices = adopt (λ name. false) p.pool.matches_iface ifaces })

-- `byName[id]`: the last interface of the name.
unfoldable pub by_name : String → List Interface → Option Interface
by_name id [] = none
by_name id (iface ∷ ifaces) = elim (by_name id ifaces) [
  | some found ↦ some found
  | none ↦ if str_eq iface.name id then some iface else none
]

unfoldable pub by_index : ℕ → List Interface → Bool
by_index k ifaces = any (λ iface. iface.index == k) ifaces

abbrev pub contains : List String → String → Bool
contains ids id = any (λ s. str_eq s id) ids

-- Whether the host has the device, by name or under another name, and the index that is kept.
unfoldable pub presence : List Interface → DeviceState → Bool × ℕ
unfolding by_name by_index
presence ifaces s = elim (by_name s.id ifaces) [
  | some iface ↦ (true, iface.index)
  | none ↦ (not (s.ifindex == 0) && by_index s.ifindex ifaces, s.ifindex)
]

-- An error of the lister leaves an empty map.
abbrev pub allocated_ids : Option (List String) → List String
allocated_ids none = []
allocated_ids (some ids) = ids

within_grace : ℕ → Option ℕ → Bool
within_grace now none = false
within_grace now (some t) = ltb now (t + allocation_grace_period)

unfoldable pub in_use : Option (List String) → ℕ → DeviceState → Bool
unfolding within_grace
in_use allocated now s =
    contains (allocated_ids allocated) s.id || within_grace now s.last_allocated

-- The `switch` of checkDevices: the device's new state, and whether its advertisement changed.
unfoldable pub judge : Bool → Option (List String) → DeviceState → DeviceState × Bool
judge true allocated s =
    (record s { consecutive_misses = 0; health = healthy }, not (is_healthy s.health))
judge false none s = (s, false)
judge false (some ids) s =
    let misses = s.consecutive_misses + 1 in
    if leb unhealthy_after_misses misses && is_healthy s.health
    then (record s { consecutive_misses = misses; health = unhealthy }, true)
    else (record s { consecutive_misses = misses }, false)

-- `present || inUse`.
unfoldable pub is_alive : List Interface → Option (List String) → ℕ → DeviceState → Bool
unfolding presence in_use
is_alive ifaces allocated now s = (presence ifaces s).0 || in_use allocated now s

unfoldable pub check_device :
    List Interface → Option (List String) → ℕ → DeviceState → DeviceState × Bool
unfolding judge
check_device ifaces allocated now s =
    judge (is_alive ifaces allocated now s) allocated (record s { ifindex = (presence ifaces s).1 })

unfoldable pub check_known :
    List Interface → Option (List String) → ℕ → List DeviceState → List DeviceState × Bool
unfolding check_device
check_known ifaces allocated now [] = ([], false)
check_known ifaces allocated now (s ∷ devices) =
    let (s', changed) = check_device ifaces allocated now s in
    let (devices', rest) = check_known ifaces allocated now devices in
    (s' ∷ devices', changed || rest)

abbrev pub is_known : List DeviceState → String → Bool
is_known devices name = any (λ s. str_eq s.id name) devices

abbrev pub is_nil {ℓ} : {A : Type ℓ} → List A → Bool
is_nil [] = true
is_nil (x ∷ xs) = false

-- What a health check reads, and which of its file writes succeed.
pub record Reading : Type 0 where
  pub net_interfaces : Option (List Interface)
  pub allocated : Option (List String)
  pub now : ℕ
  pub writes : String → Bool

-- A failed write of a device-info file is logged, and the rest are still tried.
check_listed : List Interface → Reading → Plugin → Plugin × Bool
unfolding check_known adopt
check_listed ifaces r p =
    let (devices, changed) = check_known ifaces r.allocated r.now p.devices in
    let added = adopt (is_known p.devices) p.pool.matches_iface ifaces in
    (
      record p {
        devices = devices ++ added;
        info_files = p.info_files ++ keep r.writes (map (λ s. s.id) added);
      },
      changed || not (is_nil added),
    )

-- checkDevices: the new state, and whether the advertisement changed.
unfoldable pub check_devices : Reading → Plugin → Plugin × Bool
unfolding check_listed
check_devices r p = elim r.net_interfaces [
  | none ↦ (p, false)
  | some ifaces ↦ check_listed ifaces r p
]

-- devicesSnapshot: what is sent to kubelet.
unfoldable pub devices_snapshot : Plugin → List (String × Health)
devices_snapshot p = map (λ s. (s.id, s.health)) p.devices

-- writeDeviceInfoFile for each of `ids`, up to the first that fails.
unfoldable pub write_device_info_files : (String → Bool) → List String → Plugin → Plugin × Bool
write_device_info_files writes [] p = (p, true)
write_device_info_files writes (id ∷ ids) p =
    let rest =
      write_device_info_files writes ids (record p { info_files = p.info_files ++ id ∷ [] }) in
    if writes id then rest else (p, false)

-- validateDevices: the first of `ids` that is not advertised.
unfoldable pub validate_devices : List String → Plugin → Option String
validate_devices [] p = none
validate_devices (id ∷ ids) p = if is_known p.devices id then validate_devices ids p else some id

stamp : ℕ → DeviceState → DeviceState
stamp now s = record s { last_allocated = some now; consecutive_misses = 0 }

-- `byID[id]` is the last device of that identifier.
unfoldable pub mark_device : ℕ → String → List DeviceState → List DeviceState
unfolding stamp
mark_device now id [] = []
mark_device now id (s ∷ devices) =
    if is_known devices id
    then s ∷ mark_device now id devices
    else if str_eq s.id id
    then stamp now s ∷ devices
    else s ∷ devices

unfoldable pub mark_all : ℕ → List String → List DeviceState → List DeviceState
unfolding mark_device
mark_all now [] devices = devices
mark_all now (id ∷ ids) devices = mark_all now ids (mark_device now id devices)

-- markAllocated.
unfoldable pub mark_allocated : ℕ → List String → Plugin → Plugin
unfolding mark_all mark_device
mark_allocated now ids p = record p { devices = mark_all now ids p.devices }

pub data AllocateError : Type 0 where
  unknown_device : String → AllocateError
  info_file_failed : AllocateError

-- `responses` holds the environment variable of each container, with its value.
pub data AllocateResult : Type 0 where
  responses : List (String × String) → AllocateResult
  refused : AllocateError → AllocateResult

-- `strings.Join(ids, ",")`.
unfoldable pub join : List String → String
join [] = ""
join (id ∷ []) = id
join (id ∷ j ∷ ids) = concat id (concat "," (join (j ∷ ids)))

respond : String × String → AllocateResult → AllocateResult
respond r (responses rs) = responses (r ∷ rs)
respond r (refused e) = refused e

-- One container request of Allocate: the new state, and the error if there is one.
unfoldable pub allocate_container :
    (String → Bool) → ℕ → List String → Plugin → Plugin × Option AllocateError
unfolding validate_devices write_device_info_files mark_allocated
allocate_container writes now ids p = elim (validate_devices ids p) [
  | some id ↦ (p, some (unknown_device id))
  | none ↦
      let (q, written) = write_device_info_files writes ids p in
      if written then (mark_allocated now ids q, none) else (q, some info_file_failed)
]

-- Allocate: the containers in turn, up to the first error. The clock is read once for each.
unfoldable pub allocate :
    (String → Bool) → List (ℕ × List String) → Plugin → Plugin × AllocateResult
unfolding respond join
allocate writes [] p = (p, responses [])
allocate writes ((now, ids) ∷ requests) p =
    let (q, failed) = allocate_container writes now ids p in
    let (r, result) = allocate writes requests q in
    elim failed [
      | some e ↦ (q, refused e)
      | none ↦ (r, respond (q.pool.env_var_name, join ids) result)
    ]
