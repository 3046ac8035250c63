-- ===== src/DevicePlugin/Plugin/Device.antt =====
-- One device under a health check: when it stays healthy, when it is given up, when it comes back.
use mathlib.Core.Bool.{false≢true}
use dpu_simulator.Base.{
  ℕ, ◌+◌, ◌≤◌, ◌<◌, ◌≡◌, refl, Bool, true, false, not, ◌||◌, ◌&&◌, List, [], ◌∷◌, Option, none,
  some, arith, String, ltb, ◌==◌, if◌then◌else◌, ◌≢◌, In, here, there, any, str_eq, str_eq_iff,
  str_eq_refl, inl, inr, Bool-cases, ltb→lt, ||-cases, &&-eq-true, Option-cases, sym, ◌∙◌,
}
use dpu_simulator.DevicePlugin.Plugin.{
  Interface, DeviceState, healthy, unhealthy, in_use, check_device, is_alive,
  unhealthy_after_misses, is_healthy, allocation_grace_period, by_name, contains, within_grace,
  allocated_ids,
}

-- The ways in which a device is not gone: the host has it under its name, or under another name
-- with the index that is kept; kubelet lists it; it was handed out less than a minute ago.
pub data Alive (ifaces : List Interface) (allocated : Option (List String)) (now : ℕ)
    (s : DeviceState) : Type 0 where
  named : (iface : Interface) → In iface ifaces → iface.name ≡ s.id → Alive ifaces allocated now s
  renamed :
      (iface : Interface)
      → In iface ifaces
      → s.ifindex ≢ 0
      → iface.index ≡ s.ifindex
      → Alive ifaces allocated now s
  listed : (ids : List String) → allocated ≡ some ids → In s.id ids → Alive ifaces allocated now s
  recent :
      (t : ℕ)
      → s.last_allocated ≡ some t
      → now < t + allocation_grace_period
      → Alive ifaces allocated now s

any-In :
    {A : Type 0} (test : A → Bool) (xs : List A)
    → any test xs ≡ true
    → (x : A) × In x xs × (test x ≡ true)
any-In test [] h = cc
any-In test (x ∷ xs) h = elim (Bool-cases (test x)) [
  | inl e ↦ (x, here refl, e)
  | inr e ↦ let (y, m, t) = any-In test xs (rw e at h) in (y, there m, t)
]

In-any :
    {A : Type 0} (test : A → Bool) {x : A} {xs : List A}
    → In x xs
    → test x ≡ true
    → any test xs ≡ true
In-any test (here e) t = rw (e, t)
In-any test (there {x = y} m) t = elim (Bool-cases (test y)) [
  | inl e ↦ rw e
  | inr e ↦ rw e (In-any test m t)
]

is_some : Option Interface → Bool
is_some none = false
is_some (some iface) = true

has_name : String → Interface → Bool
has_name id iface = str_eq iface.name id

by_name-any :
    (id : String) (ifaces : List Interface) → is_some (by_name id ifaces) ≡ any (has_name id) ifaces
unfolding by_name is_some has_name
by_name-any id [] = refl
by_name-any id (iface ∷ ifaces) = ground (arith, by_name-any id ifaces)

has_name-eq : (id : String) (iface : Interface) → has_name id iface ≡ true → iface.name ≡ id
unfolding has_name
has_name-eq id iface h = (str_eq_iff iface.name id).0 h

module _ (ifaces : List Interface) (allocated : Option (List String)) (now : ℕ)
    (s : DeviceState) where
  is_alive-any : is_alive ifaces allocated now s ≡ (
      any (has_name s.id) ifaces
      || (not (s.ifindex == 0) && any (λ iface. iface.index == s.ifindex) ifaces)
      || in_use allocated now s)
  unfolding is_alive is_some
  is_alive-any = ground (arith, by_name-any s.id ifaces)

  Alive-is_alive : Alive ifaces allocated now s → is_alive ifaces allocated now s ≡ true
  unfolding has_name in_use
  Alive-is_alive (named iface m e) =
      ground (arith, is_alive-any, In-any (has_name s.id) m, str_eq_iff iface.name s.id)
  Alive-is_alive (renamed iface m ne e) =
      ground (arith, is_alive-any, In-any (λ (x : Interface). x.index == s.ifindex) m)
  Alive-is_alive (listed ids e m) =
      ground (arith, is_alive-any, In-any (λ (x : String). str_eq x s.id) m, str_eq_refl s.id)
  Alive-is_alive (recent t e lt) = ground (arith, is_alive-any)

  indexed-Alive :
      (not (s.ifindex == 0) && any (λ (x : Interface). x.index == s.ifindex) ifaces) ≡ true
      → Alive ifaces allocated now s
  indexed-Alive h =
      let (ne, found) = &&-eq-true {a = not (s.ifindex == 0)} h in
      let (iface, m, e) = any-In (λ (x : Interface). x.index == s.ifindex) ifaces found in
      renamed iface m (ground arith) (ground arith)

  listed-Alive : contains (allocated_ids allocated) s.id ≡ true → Alive ifaces allocated now s
  listed-Alive h = elim (Option-cases allocated) [
    | inl e ↦ absurd (false≢true (rw e at h))
    | inr (ids, e) ↦
        let (x, m, q) = any-In (λ x. str_eq x s.id) ids (rw e at h) in
        listed ids e (rw ((str_eq_iff x s.id).0 q) at m)
  ]

  recent-Alive : within_grace now s.last_allocated ≡ true → Alive ifaces allocated now s
  unfolding within_grace
  recent-Alive h = elim (Option-cases s.last_allocated) [
    | inl e ↦ absurd (false≢true (rw e at h))
    | inr (t, e) ↦ recent t e (ltb→lt _ _ (rw e at h))
  ]

  in_use-Alive : in_use allocated now s ≡ true → Alive ifaces allocated now s
  unfolding in_use
  in_use-Alive h = elim (||-cases {a = contains (allocated_ids allocated) s.id} h) [
    | inl l ↦ listed-Alive l
    | inr r ↦ recent-Alive r
  ]

  is_alive-Alive : is_alive ifaces allocated now s ≡ true → Alive ifaces allocated now s
  is_alive-Alive h = elim (||-cases (sym is_alive-any ∙ h)) [
    | inr u ↦ in_use-Alive u
    | inl p ↦ elim (||-cases p) [
      | inl n ↦
          let (iface, m, e) = any-In (has_name s.id) ifaces n in
          named iface m (has_name-eq s.id iface e)
      | inr i ↦ indexed-Alive i
    ]
  ]

-- A reading of the host and of kubelet that does not fail.
pub record DeviceReading : Type 0 where
  pub ifaces : List Interface
  pub allocated : Option (List String)
  pub now : ℕ

pub run_checks : List DeviceReading → DeviceState → DeviceState
run_checks [] s = s
run_checks (r ∷ rs) s = run_checks rs (check_device r.ifaces r.allocated r.now s).0

-- The misses after a reading, from what the reading says: none where the device is alive, as before
-- where kubelet did not answer, one more otherwise.
unfoldable pub misses_after : DeviceReading → DeviceState → ℕ → ℕ
misses_after r s n =
    if is_alive r.ifaces r.allocated r.now s
    then 0
    else (elim r.allocated [ none ↦ n | some ids ↦ n + 1 ])

pub streak : List DeviceReading → DeviceState → ℕ → ℕ
streak [] s n = n
streak (r ∷ rs) s n = streak rs (check_device r.ifaces r.allocated r.now s).0 (misses_after r s n)

-- The count is the streak, and three misses are what makes a device unhealthy.
abbrev pub Tracks : ℕ → DeviceState → Type 0
Tracks n s = (s.consecutive_misses ≡ n) × (is_healthy s.health ≡ ltb n unhealthy_after_misses)

check_device-Tracks :
    (r : DeviceReading) (s : DeviceState) (n : ℕ)
    → Tracks n s
    → Tracks (misses_after r s n) (check_device r.ifaces r.allocated r.now s).0
unfolding check_device misses_after
check_device-Tracks r s n h = ground arith

-- Where the count of misses of a device is n, and it is healthy exactly below three, then after any
-- series of checks the count is the number of checks with kubelet's answer that have missed the device
-- since the last that found it alive (with n at the start), and it is healthy exactly below three.
pub run_checks-Tracks :
    (rs : List DeviceReading) (s : DeviceState) (n : ℕ)
    → Tracks n s
    → Tracks (streak rs s n) (run_checks rs s)
unfolding run_checks streak
run_checks-Tracks [] s n h = h
run_checks-Tracks (r ∷ rs) s n h = run_checks-Tracks rs _ _ (check_device-Tracks r s n h)

-- A device that the host has under its name or its index (not 0), that kubelet lists, or that was handed out
-- less than a minute ago is healthy after the check with its misses cleared.
pub check_device-Alive :
    (ifaces : List Interface) (allocated : Option (List String)) (now : ℕ) (s : DeviceState)
    → Alive ifaces allocated now s
    → ((check_device ifaces allocated now s).0.health ≡ healthy)
      × ((check_device ifaces allocated now s).0.consecutive_misses ≡ 0)
      × ((check_device ifaces allocated now s).1 ≡ not (is_healthy s.health))
unfolding check_device
check_device-Alive ifaces allocated now s h =
    ground (arith, Alive-is_alive ifaces allocated now s h)

-- A device that turns unhealthy in a check was not alive, kubelet had answered, and this was at least
-- the third miss.
pub check_device-unhealthy :
    (ifaces : List Interface) (allocated : Option (List String)) (now : ℕ) (s : DeviceState)
    → s.health ≡ healthy
    → (check_device ifaces allocated now s).0.health ≡ unhealthy
    → (¬ Alive ifaces allocated now s)
      × (allocated ≢ none)
      × (unhealthy_after_misses ≤ s.consecutive_misses + 1)
unfolding check_device
check_device-unhealthy ifaces allocated now s h u = (
  λ alive. ground (arith, Alive-is_alive ifaces allocated now s alive),
  λ e. ground arith,
  ground arith,
)
