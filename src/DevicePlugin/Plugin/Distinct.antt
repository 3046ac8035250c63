-- ===== src/DevicePlugin/Plugin/Distinct.antt =====
-- No device is advertised twice, as long as no two interfaces of the host have the same name; and what
-- an allocation then does to the devices, as one map over them.
use dpu_simulator.Base.{
  ℕ, ◌≡◌, refl, Bool, true, false, ◌||◌, List, [], ◌∷◌, ◌++◌, Option, arith, String, map,
  if◌then◌else◌, sym, ◌∙◌, ap, str_eq, str_eq_iff, str_eq_refl, any,
}
use dpu_simulator.DevicePlugin.Plugin.{
  Interface, DeviceState, mark_device, mark_all, is_known, stamp, check_device, check_known, adopt,
  contains,
}

abbrev pub Distinct : List DeviceState → Type 0
Distinct [] = Unit
Distinct (s ∷ devices) = (is_known devices s.id ≡ false) × Distinct devices

abbrev has_name : List Interface → String → Bool
has_name ifaces name = any (λ (i : Interface). str_eq i.name name) ifaces

-- The kernel gives no two interfaces of a namespace the same name.
abbrev pub DistinctNames : List Interface → Type 0
DistinctNames [] = Unit
DistinctNames (i ∷ ifaces) = (has_name ifaces i.name ≡ false) × DistinctNames ifaces

is_known-mark_device :
    (now : ℕ) (id name : String) (devices : List DeviceState)
    → is_known (mark_device now id devices) name ≡ is_known devices name
unfolding mark_device
is_known-mark_device now id name [] = refl
is_known-mark_device now id name (s ∷ devices) =
    ground (arith, is_known-mark_device now id name devices)

pub mark_device-Distinct :
    (now : ℕ) (id : String) (devices : List DeviceState)
    → Distinct devices
    → Distinct (mark_device now id devices)
unfolding mark_device
mark_device-Distinct now id [] h = tt
mark_device-Distinct now id (s ∷ devices) h =
    ground (arith, mark_device-Distinct now id devices, is_known-mark_device now id s.id devices)

pub mark_all-Distinct :
    (now : ℕ) (ids : List String) (devices : List DeviceState)
    → Distinct devices
    → Distinct (mark_all now ids devices)
unfolding mark_all
mark_all-Distinct now [] devices h = h
mark_all-Distinct now (id ∷ ids) devices h =
    mark_all-Distinct now ids _ (mark_device-Distinct now id devices h)

pub is_known-mark_all :
    (now : ℕ) (ids : List String) (name : String) (devices : List DeviceState)
    → is_known (mark_all now ids devices) name ≡ is_known devices name
unfolding mark_all
is_known-mark_all now [] name devices = refl
is_known-mark_all now (id ∷ ids) name devices =
    is_known-mark_all now ids name (mark_device now id devices)
    ∙ is_known-mark_device now id name devices

unfoldable pub stamp_if : ℕ → Bool → DeviceState → DeviceState
unfolding stamp
stamp_if now b s = if b then stamp now s else s

map_unknown :
    (now : ℕ) (id : String) (devices : List DeviceState)
    → is_known devices id ≡ false
    → map (λ s. stamp_if now (str_eq s.id id) s) devices ≡ devices
unfolding stamp_if
map_unknown now id [] h = refl
map_unknown now id (s ∷ devices) h = ground (arith, map_unknown now id devices)

mark_device-map :
    (now : ℕ) (id : String) (devices : List DeviceState)
    → Distinct devices
    → mark_device now id devices ≡ map (λ s. stamp_if now (str_eq s.id id) s) devices
unfolding mark_device stamp_if
mark_device-map now id [] h = refl
mark_device-map now id (s ∷ devices) h =
    ground (arith, mark_device-map now id devices, str_eq_iff s.id id, map_unknown now id devices)

stamp_if-twice :
    (now : ℕ) (id : String) (ids : List String) (s : DeviceState)
    → stamp_if now
        (contains ids (stamp_if now (str_eq s.id id) s).id)
        (stamp_if now (str_eq s.id id) s)
      ≡ stamp_if now (contains (id ∷ ids) s.id) s
unfolding stamp_if
stamp_if-twice now id ids s = ground (arith, str_eq_iff s.id id, str_eq_iff id s.id)

map-map-stamp :
    (now : ℕ) (id : String) (ids : List String) (devices : List DeviceState)
    → map
        (λ s. stamp_if now (contains ids s.id) s)
        (map (λ s. stamp_if now (str_eq s.id id) s) devices)
      ≡ map (λ s. stamp_if now (contains (id ∷ ids) s.id) s) devices
map-map-stamp now id ids [] = refl
map-map-stamp now id ids (s ∷ devices) =
    cc (stamp_if-twice now id ids s, map-map-stamp now id ids devices)

map_none :
    (now : ℕ) (devices : List DeviceState) → map (λ s. stamp_if now false s) devices ≡ devices
unfolding stamp_if
map_none now [] = refl
map_none now (s ∷ devices) = ap (◌∷◌ s) (map_none now devices)

pub mark_all-map :
    (now : ℕ) (ids : List String) (devices : List DeviceState)
    → Distinct devices
    → mark_all now ids devices ≡ map (λ s. stamp_if now (contains ids s.id) s) devices
unfolding mark_all
mark_all-map now [] devices h = sym (map_none now devices)
mark_all-map now (id ∷ ids) devices h =
    mark_all-map now ids (mark_device now id devices) (mark_device-Distinct now id devices h)
    ∙ ap (map (λ s. stamp_if now (contains ids s.id) s)) (mark_device-map now id devices h)
    ∙ map-map-stamp now id ids devices

pub check_device-id :
    (ifaces : List Interface) (allocated : Option (List String)) (now : ℕ) (s : DeviceState)
    → (check_device ifaces allocated now s).0.id ≡ s.id
unfolding check_device
check_device-id ifaces allocated now s = ground arith

pub is_known-check_known :
    (ifaces : List Interface) (allocated : Option (List String)) (now : ℕ) (name : String)
    (devices : List DeviceState)
    → is_known (check_known ifaces allocated now devices).0 name ≡ is_known devices name
unfolding check_known
is_known-check_known ifaces allocated now name [] = refl
is_known-check_known ifaces allocated now name (s ∷ devices) =
    rw (
      check_device-id ifaces allocated now s,
      is_known-check_known ifaces allocated now name devices,
    )

is_known-append :
    (xs ys : List DeviceState) (name : String)
    → is_known (xs ++ ys) name ≡ (is_known xs name || is_known ys name)
is_known-append [] ys name = refl
is_known-append (x ∷ xs) ys name = ground (arith, is_known-append xs ys name)

adopt-unknown :
    (known matches : String → Bool) (ifaces : List Interface) (name : String)
    → has_name ifaces name ≡ false
    → is_known (adopt known matches ifaces) name ≡ false
unfolding adopt
adopt-unknown known matches [] name h = refl
adopt-unknown known matches (i ∷ ifaces) name h =
    ground (arith, adopt-unknown known matches ifaces name)

pub adopt-not-known :
    (known matches : String → Bool) (ifaces : List Interface) (name : String)
    → known name ≡ true
    → is_known (adopt known matches ifaces) name ≡ false
unfolding adopt
adopt-not-known known matches [] name h = refl
adopt-not-known known matches (i ∷ ifaces) name h =
    ground (arith, adopt-not-known known matches ifaces name, str_eq_iff i.name name)

pub adopt-Distinct :
    (known matches : String → Bool) (ifaces : List Interface)
    → DistinctNames ifaces
    → Distinct (adopt known matches ifaces)
unfolding adopt
adopt-Distinct known matches [] h = tt
adopt-Distinct known matches (i ∷ ifaces) h =
    ground (arith, adopt-Distinct known matches ifaces, adopt-unknown known matches ifaces i.name)

pub Distinct-append :
    (xs ys : List DeviceState)
    → Distinct xs
    → Distinct ys
    → ((name : String) → is_known xs name ≡ true → is_known ys name ≡ false)
    → Distinct (xs ++ ys)
Distinct-append [] ys hx hy apart = hy
Distinct-append (x ∷ xs) ys hx hy apart = (
  rw (is_known-append xs ys x.id, hx.0) (apart x.id (rw (str_eq_refl x.id))),
  Distinct-append xs ys hx.1 hy (λ name k. apart name (ground arith)),
)
