-- ===== src/DevicePlugin/Plugin/Watch.antt =====
-- ListAndWatch of cmd/dpu-sim-dp/plugin.go: kubelet holds the last list that was sent, and a list is
-- sent again when a check says that the advertisement changed. Allocations may come between checks.
use mathlib.Core.List.{append-nil, map-append}
use dpu_simulator.Base.{
  ℕ, ◌≡◌, ◌≢◌, ◌↔◌, refl, true, false, not, List, [], ◌∷◌, ◌++◌, Option, arith, String, map,
  if◌then◌else◌, sym, ◌∙◌, ap, inl, inr, Bool-cases, Option-cases, ||-cases, ||-false, length,
  length-append, suc,
}
use dpu_simulator.DevicePlugin.Plugin.{
  Interface, DeviceState, Health, Plugin, Reading, check_device, check_known, check_listed,
  check_devices, devices_snapshot, adopt, is_nil, mark_device, mark_all, mark_allocated, is_known,
}

abbrev shown : DeviceState → String × Health
shown s = (s.id, s.health)

-- A check changes what is shown of a device exactly when it says so.
check_device-shown :
    (ifaces : List Interface) (allocated : Option (List String)) (now : ℕ) (s : DeviceState)
    → (check_device ifaces allocated now s).1 ≡ false
    → shown (check_device ifaces allocated now s).0 ≡ shown s
unfolding check_device
check_device-shown ifaces allocated now s h = ground arith

check_device-changed :
    (ifaces : List Interface) (allocated : Option (List String)) (now : ℕ) (s : DeviceState)
    → (check_device ifaces allocated now s).1 ≡ true
    → (check_device ifaces allocated now s).0.health ≢ s.health
unfolding check_device
check_device-changed ifaces allocated now s h e = ground arith

check_known-shown :
    (ifaces : List Interface) (allocated : Option (List String)) (now : ℕ)
    (devices : List DeviceState)
    → (check_known ifaces allocated now devices).1 ≡ false
    → map shown (check_known ifaces allocated now devices).0 ≡ map shown devices
unfolding check_known
check_known-shown ifaces allocated now [] h = refl
check_known-shown ifaces allocated now (s ∷ devices) h = ground (
  arith,
  check_device-shown ifaces allocated now s,
  check_known-shown ifaces allocated now devices,
)

check_known-length :
    (ifaces : List Interface) (allocated : Option (List String)) (now : ℕ)
    (devices : List DeviceState)
    → length (check_known ifaces allocated now devices).0 ≡ length devices
unfolding check_known
check_known-length ifaces allocated now [] = refl
check_known-length ifaces allocated now (s ∷ devices) =
    ap suc (check_known-length ifaces allocated now devices)

cons-shown :
    {a b : String × Health} {xs ys : List (String × Health)}
    → a ∷ xs ≡ b ∷ ys
    → (a.1 ≡ b.1) × (xs ≡ ys)
cons-shown e = (cc, cc)

check_known-changed :
    (ifaces : List Interface) (allocated : Option (List String)) (now : ℕ)
    (devices : List DeviceState) (rest : List (String × Health))
    → (check_known ifaces allocated now devices).1 ≡ true
    → map shown (check_known ifaces allocated now devices).0 ++ rest ≢ map shown devices
unfolding check_known
check_known-changed ifaces allocated now [] rest h e = cc
check_known-changed ifaces allocated now (s ∷ devices) rest h e = elim (||-cases h) [
  | inl c ↦ check_device-changed ifaces allocated now s c (cons-shown e).0
  | inr c ↦ check_known-changed ifaces allocated now devices rest c (cons-shown e).1
]

is_nil-eq : (xs : List DeviceState) → not (is_nil xs) ≡ false → xs ≡ []
is_nil-eq [] h = refl
is_nil-eq (x ∷ xs) h = cc

length-map-shown : (xs : List DeviceState) → length (map shown xs) ≡ length xs
length-map-shown [] = refl
length-map-shown (x ∷ xs) = ap suc (length-map-shown xs)

check_known-added :
    (ifaces : List Interface) (allocated : Option (List String)) (now : ℕ)
    (devices added : List DeviceState)
    → not (is_nil added) ≡ true
    → map shown ((check_known ifaces allocated now devices).0 ++ added) ≢ map shown devices
check_known-added ifaces allocated now devices [] h e = cc
check_known-added ifaces allocated now devices (a ∷ added) h e = omega (
  arith,
  ap length e,
  length-map-shown ((check_known ifaces allocated now devices).0 ++ a ∷ added),
  length-map-shown devices,
  length-append (check_known ifaces allocated now devices).0 (a ∷ added),
  check_known-length ifaces allocated now devices,
)

check_listed-same :
    (ifaces : List Interface) (r : Reading) (p : Plugin)
    → (check_listed ifaces r p).1 ≡ false
    → devices_snapshot (check_listed ifaces r p).0 ≡ devices_snapshot p
unfolding check_listed devices_snapshot
check_listed-same ifaces r p h =
    let (known, added) = ||-false h in
    rw (is_nil-eq (adopt (is_known p.devices) p.pool.matches_iface ifaces) added)
      (ap (map shown) (append-nil _) ∙ check_known-shown ifaces r.allocated r.now p.devices known)

check_listed-changed :
    (ifaces : List Interface) (r : Reading) (p : Plugin)
    → (check_listed ifaces r p).1 ≡ true
    → devices_snapshot (check_listed ifaces r p).0 ≢ devices_snapshot p
unfolding check_listed devices_snapshot
check_listed-changed ifaces r p h e = elim (||-cases h) [
  | inl known ↦
      check_known-changed ifaces r.allocated r.now p.devices _ known
        (sym (map-append shown _ _) ∙ e)
  | inr added ↦ check_known-added ifaces r.allocated r.now p.devices _ added e
]

check_devices-same :
    (r : Reading) (p : Plugin)
    → (check_devices r p).1 ≡ false
    → devices_snapshot (check_devices r p).0 ≡ devices_snapshot p
check_devices-same r p h = elim (Option-cases r.net_interfaces) [
  | inl e ↦ unfold check_devices in rw (e, check_devices)
  | inr (ifaces, e) ↦
      unfold check_devices in
      rw (e, check_devices) (check_listed-same ifaces r p (rw (e, check_devices) at h))
]

-- checkDevices reports a change exactly when what kubelet is shown has changed.
pub check_devices-changed :
    (r : Reading) (p : Plugin)
    → ((check_devices r p).1 ≡ true) ↔ (devices_snapshot (check_devices r p).0 ≢ devices_snapshot p)
unfolding check_devices
check_devices-changed r p = elim (Option-cases r.net_interfaces) [
  | inl e ↦ rw (e, check_devices) (λ h. cc, λ ne. absurd (ne refl))
  | inr (ifaces, e) ↦ rw (e, check_devices) (check_listed-changed ifaces r p, back ifaces)
]
  where
    back :
        (ifaces : List Interface)
        → devices_snapshot (check_listed ifaces r p).0 ≢ devices_snapshot p
        → (check_listed ifaces r p).1 ≡ true
    back ifaces ne = elim (Bool-cases (check_listed ifaces r p).1) [
      | inl t ↦ t
      | inr f ↦ absurd (ne (check_listed-same ifaces r p f))
    ]

mark_device-shown :
    (now : ℕ) (id : String) (devices : List DeviceState)
    → map shown (mark_device now id devices) ≡ map shown devices
unfolding mark_device
mark_device-shown now id [] = refl
mark_device-shown now id (s ∷ devices) = ground (arith, mark_device-shown now id devices)

mark_all-shown :
    (now : ℕ) (ids : List String) (devices : List DeviceState)
    → map shown (mark_all now ids devices) ≡ map shown devices
unfolding mark_all
mark_all-shown now [] devices = refl
mark_all-shown now (id ∷ ids) devices =
    mark_all-shown now ids (mark_device now id devices) ∙ mark_device-shown now id devices

-- A round of the loop of ListAndWatch, or the part of an allocation that changes the devices.
pub data Event : Type 0 where
  tick : Reading → Event
  allocated_at : ℕ → List String → Event

-- The plugin, and the list that kubelet was sent last.
pub record Watch : Type 0 where
  pub plugin : Plugin
  pub sent : List (String × Health)

-- A tick sends the list where the check reports a change.
pub watch_step : Event → Watch → Watch
watch_step (tick r) w =
    let (p, changed) = check_devices r w.plugin in
    record { plugin = p; sent = if changed then devices_snapshot p else w.sent }
watch_step (allocated_at now ids) w = record w { plugin = mark_allocated now ids w.plugin }

-- ListAndWatch: the list is sent once, and then the events come.
list_and_watch_from : List Event → Watch → Watch
list_and_watch_from [] w = w
list_and_watch_from (e ∷ es) w = list_and_watch_from es (watch_step e w)

pub list_and_watch : List Event → Plugin → Watch
unfolding list_and_watch_from
list_and_watch events p =
    list_and_watch_from events (record { plugin = p; sent = devices_snapshot p })

abbrev pub IsCurrent : Watch → Type 0
IsCurrent w = w.sent ≡ devices_snapshot w.plugin

watch_step-IsCurrent : (e : Event) (w : Watch) → IsCurrent w → IsCurrent (watch_step e w)
unfolding watch_step
watch_step-IsCurrent (tick r) w h = elim (Bool-cases (check_devices r w.plugin).1) [
  | inl c ↦ rw c
  | inr c ↦ rw c (h ∙ sym (check_devices-same r w.plugin c))
]
watch_step-IsCurrent (allocated_at now ids) w h =
    h ∙ sym (unfold devices_snapshot mark_allocated in mark_all-shown now ids w.plugin.devices)

from-IsCurrent : (es : List Event) (w : Watch) → IsCurrent w → IsCurrent (list_and_watch_from es w)
unfolding list_and_watch_from
from-IsCurrent [] w h = h
from-IsCurrent (e ∷ es) w h = from-IsCurrent es (watch_step e w) (watch_step-IsCurrent e w h)

-- After any events kubelet holds the devices and the health that the plugin holds.
pub list_and_watch-IsCurrent : (es : List Event) (p : Plugin) → IsCurrent (list_and_watch es p)
unfolding list_and_watch
list_and_watch-IsCurrent es p = from-IsCurrent es _ refl
