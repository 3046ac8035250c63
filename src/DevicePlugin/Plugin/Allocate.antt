-- ===== src/DevicePlugin/Plugin/Allocate.antt =====
-- Allocate of cmd/dpu-sim-dp/plugin.go: what it accepts, what it marks, and what a failure leaves.
use mathlib.Core.List.{append-nil, append_assoc}
use dpu_simulator.Base.{
  ℕ, ◌+◌, ◌<◌, ◌≡◌, refl, Bool, true, false, List, [], ◌∷◌, ◌++◌, Option, none, some, arith, String,
  map, sym, ◌∙◌, ap, All, if◌then◌else◌,
}
use dpu_simulator.DevicePlugin.Plugin.{
  Interface, DeviceState, healthy, Plugin, mark_all, is_known, mark_allocated, validate_devices,
  write_device_info_files, allocate_container, allocate, AllocateError, refused, unknown_device,
  check_device, allocation_grace_period, contains,
}
use dpu_simulator.DevicePlugin.Plugin.Distinct.{Distinct, stamp_if, mark_all-map, is_known-mark_all}
use dpu_simulator.DevicePlugin.Plugin.Device.{recent, check_device-Alive}

-- validateDevices passes exactly the requests all of whose devices are advertised.
validate_devices-none :
    (ids : List String) (p : Plugin)
    → validate_devices ids p ≡ none
    → All (λ id. is_known p.devices id ≡ true) ids
unfolding validate_devices
validate_devices-none [] p h = tt
validate_devices-none (id ∷ ids) p h = ground (arith, validate_devices-none ids p)

-- The write of the files touches nothing else.
pub write_device_info_files-pool :
    (writes : String → Bool) (ids : List String) (p : Plugin)
    → (write_device_info_files writes ids p).0.pool ≡ p.pool
unfolding write_device_info_files
write_device_info_files-pool writes [] p = refl
write_device_info_files-pool writes (id ∷ ids) p = ground (
  arith,
  write_device_info_files-pool writes ids (record p { info_files = p.info_files ++ id ∷ [] }),
)

pub write_device_info_files-devices :
    (writes : String → Bool) (ids : List String) (p : Plugin)
    → (write_device_info_files writes ids p).0.devices ≡ p.devices
unfolding write_device_info_files
write_device_info_files-devices writes [] p = refl
write_device_info_files-devices writes (id ∷ ids) p = ground (
  arith,
  write_device_info_files-devices writes ids (record p { info_files = p.info_files ++ id ∷ [] }),
)

write_device_info_files-written :
    (writes : String → Bool) (ids : List String) (p : Plugin)
    → (write_device_info_files writes ids p).1 ≡ true
    → (write_device_info_files writes ids p).0.info_files ≡ p.info_files ++ ids
unfolding write_device_info_files
write_device_info_files-written writes [] p h = sym (append-nil p.info_files)
write_device_info_files-written writes (id ∷ ids) p h = ground (
  arith,
  append_assoc p.info_files (id ∷ []) ids,
  write_device_info_files-written writes ids (record p { info_files = p.info_files ++ id ∷ [] }),
)

-- A container request that fails leaves every device as it was.
pub allocate_container-failed :
    (writes : String → Bool) (now : ℕ) (ids : List String) (p : Plugin) {e : AllocateError}
    → (allocate_container writes now ids p).1 ≡ some e
    → (allocate_container writes now ids p).0.devices ≡ p.devices
unfolding allocate_container
allocate_container-failed writes now ids p h =
    ground (arith, write_device_info_files-devices writes ids p)

allocate_container-none :
    (writes : String → Bool) (now : ℕ) (ids : List String) (p : Plugin)
    → (allocate_container writes now ids p).1 ≡ none
    → (validate_devices ids p ≡ none)
      × ((write_device_info_files writes ids p).1 ≡ true)
      × ((allocate_container writes now ids p).0
          ≡ mark_allocated now ids (write_device_info_files writes ids p).0)
unfolding allocate_container
allocate_container-none writes now ids p h = ground arith

allocate_container-unknown :
    (writes : String → Bool) (now : ℕ) (id : String) (p : Plugin)
    → is_known p.devices id ≡ false
    → allocate_container writes now (id ∷ []) p ≡ (p, some (unknown_device id))
unfolding allocate_container
allocate_container-unknown writes now id p u = ground arith

-- What a container request that succeeds has done: all its devices are advertised, their files have
-- been written, and each device that it names carries the time of the request and no misses.
pub record Allocated (now : ℕ) (ids : List String) (p q : Plugin) : Type 0 where
  pub advertised : All (λ id. is_known p.devices id ≡ true) ids
  pub files : q.info_files ≡ p.info_files ++ ids
  pub stamped :
      q.devices
      ≡ map
          (λ s.
            if contains ids s.id
            then record s { last_allocated = some now; consecutive_misses = 0 }
            else s)
          p.devices

-- Where no device is advertised twice, a container request that succeeds has named only devices that are
-- advertised, has written their files in its order after those written before, and has changed exactly
-- the devices that it names: they carry the time of the request and no misses.
pub allocate_container-Allocated :
    (writes : String → Bool) (now : ℕ) (ids : List String) (p : Plugin)
    → Distinct p.devices
    → (allocate_container writes now ids p).1 ≡ none
    → Allocated now ids p (allocate_container writes now ids p).0
allocate_container-Allocated writes now ids p d h =
    let (valid, written, e) = allocate_container-none writes now ids p h in
    rw e (record {
      advertised = validate_devices-none ids p valid;
      files = unfold mark_allocated in write_device_info_files-written writes ids p written;
      stamped =
          unfold mark_allocated stamp_if in
          (ap (mark_all now ids) (write_device_info_files-devices writes ids p)
            ∙ mark_all-map now ids p.devices d);
    })

-- A device that was handed out less than a minute before a check stays healthy, wherever it is then.
pub handed_out_healthy :
    (ifaces : List Interface) (allocated : Option (List String)) (t now : ℕ) (ids : List String)
    (s : DeviceState)
    → contains ids s.id ≡ true
    → now < t + allocation_grace_period
    → (check_device ifaces allocated now (stamp_if t (contains ids s.id) s)).0.health ≡ healthy
handed_out_healthy ifaces allocated t now ids s c lt =
    (check_device-Alive ifaces allocated now (stamp_if t (contains ids s.id) s)
      (recent t (unfold stamp_if in rw c) lt)).0

first_passes :
    (writes : String → Bool) (t t' : ℕ) (ids : List String) (id : String) (p : Plugin)
    → (allocate_container writes t ids p).1 ≡ none
    → is_known (allocate_container writes t ids p).0.devices id ≡ false
    → allocate writes ((t, ids) ∷ (t', id ∷ []) ∷ []) p
      ≡ ((allocate_container writes t ids p).0, refused (unknown_device id))
unfolding allocate
first_passes writes t t' ids id p h u =
    ground (arith, allocate_container-unknown writes t' id (allocate_container writes t ids p).0 u)

allocate_container-is_known :
    (writes : String → Bool) (now : ℕ) (ids : List String) (p : Plugin) (name : String)
    → (allocate_container writes now ids p).1 ≡ none
    → is_known (allocate_container writes now ids p).0.devices name ≡ is_known p.devices name
allocate_container-is_known writes now ids p name h =
    let (_, _, e) = allocate_container-none writes now ids p h in
    rw e (
      unfold mark_allocated in
      is_known-mark_all now ids name (write_device_info_files writes ids p).0.devices
      ∙ ap (λ devices. is_known devices name) (write_device_info_files-devices writes ids p))

-- Allocate does not undo the containers before one that fails: where no device is advertised twice, the
-- first request passes and the second names one device, which is not advertised, the call fails, and the
-- first request has all its effects, the marks of its devices included.
pub allocate_not_atomic :
    (writes : String → Bool) (t t' : ℕ) (ids : List String) (id : String) (p : Plugin)
    → Distinct p.devices
    → (allocate_container writes t ids p).1 ≡ none
    → is_known p.devices id ≡ false
    → ((allocate writes ((t, ids) ∷ (t', id ∷ []) ∷ []) p).1 ≡ refused (unknown_device id))
      × Allocated t ids p (allocate writes ((t, ids) ∷ (t', id ∷ []) ∷ []) p).0
allocate_not_atomic writes t t' ids id p d h u =
    let e =
      first_passes writes t t' ids id p h (allocate_container-is_known writes t ids p id h ∙ u) in
    (ap (λ r. r.1) e, rw e (allocate_container-Allocated writes t ids p d h))
