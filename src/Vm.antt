-- ===== src/Vm.antt =====
-- pkg/vm/lifecycle.go, and the deletion of files in pkg/vm/disk.go. The connection to libvirt and the
-- file system are an interface. An error is `none`; every error returns at once unless it is said.
pub mod States
pub mod Tests
pub mod Spared
pub mod Cleanup
pub mod Delete
pub mod Lifecycle
use Prim.Native.String.{◌++◌ as concat}
use dpu_simulator.Base.{Bool, true, false, List, [], ◌∷◌, Option, none, some, String, if◌then◌else◌}
use dpu_simulator.Config.Types.{Config, VmConfig}
use dpu_simulator.Platform.Executor.{Action, done, fail, ◌>>=◌, ◌>>◌, each}

-- os.Remove, where an error may be that the file is not there.
pub data Removal : Type 0 where
  removed not_exist failed : Removal

abbrev is_removed : Removal → Bool
is_removed removed = true
is_removed r = false

abbrev is_failed : Removal → Bool
is_failed failed = true
is_failed r = false

pub record Libvirt (W : Type 0) : Type 0 where
  pub lookup : String → Action W Unit
  pub is_active : String → Action W Bool
  pub create : String → Action W Unit
  pub shutdown : String → Action W Unit
  pub destroy : String → Action W Unit
  pub reboot : String → Action W Unit
  pub undefine : String → Action W Unit
  pub set_autostart : String → Bool → Action W Unit
  pub is_missing : String → W → Bool × W
  pub remove : String → W → Removal × W
  pub glob : String → Action W (List String)

abbrev pub nvram_pattern : String → String
nvram_pattern name = concat "/var/lib/libvirt/qemu/nvram/" (concat name "_VARS*")

module _ {W : Type 0} (v : Libvirt W) where
  -- LookupDomainByName and then IsActive.
  unfoldable pub active_domain : String → Action W Bool
  active_domain name = v.lookup name >> v.is_active name

  unfoldable pub start_vm : String → Action W Unit
  unfolding active_domain
  start_vm name = do active ← active_domain name; if active then fail else v.create name

  unfoldable pub stop_vm : String → Action W Unit
  unfolding active_domain
  stop_vm name = do active ← active_domain name; if active then v.shutdown name else fail

  unfoldable pub destroy_vm : String → Action W Unit
  unfolding active_domain
  destroy_vm name = do active ← active_domain name; if active then v.destroy name else done tt

  unfoldable pub reboot_vm : String → Action W Unit
  unfolding active_domain
  reboot_vm name = do active ← active_domain name; if active then v.reboot name else fail

  unfoldable pub remove_file : String → Action W Unit
  remove_file path w = let (r, w') = v.remove path w in (if is_removed r then some tt else none, w')

  -- DeleteVMDisk and DeleteCloudInitISO.
  unfoldable pub delete_image : String → Action W Unit
  unfolding remove_file
  delete_image file w =
      let path = concat "/var/lib/libvirt/images/" file in
      let (missing, w') = v.is_missing path w in
      if missing then (some tt, w') else remove_file path w'

  unfoldable pub remove_if_there : String → Action W Unit
  remove_if_there path w =
      let (r, w') = v.remove path w in (if is_failed r then none else some tt, w')

  unfoldable pub delete_uefi_nvram : String → Action W Unit
  unfolding each remove_if_there
  delete_uefi_nvram name = do matches ← v.glob (nvram_pattern name); each remove_if_there matches

  unfoldable pub delete_files : String → Action W Unit
  unfolding delete_image delete_uefi_nvram
  delete_files name = do
    delete_image (concat name ".qcow2")
    delete_image (concat name "-cloud-init.iso")
    delete_uefi_nvram name

  -- The part behind the lookup.
  unfoldable pub delete_domain : String → Action W Unit
  unfolding delete_files
  delete_domain name = do
    active ← v.is_active name
    (if active then v.destroy name else done tt)
    v.undefine name
    delete_files name

  -- A VM that is not found is no error.
  unfoldable pub delete_vm : String → Action W Unit
  unfolding delete_domain
  delete_vm name w = elim (v.lookup name w).0 [
    | none ↦ (some tt, (v.lookup name w).1)
    | some _ ↦ delete_domain name (v.lookup name w).1
  ]

  -- The VMs that could not be removed, in order: an error does not end the loop.
  unfoldable pub cleanup_all : List VmConfig → W → List String × W
  unfolding delete_vm
  cleanup_all [] w = ([], w)
  cleanup_all (c ∷ vms) w =
      let w' = (delete_vm c.name w).1 in
      let (errors, w'') = cleanup_all vms w' in
      elim (delete_vm c.name w).0 [ none ↦ (c.name ∷ errors, w'') | some _ ↦ (errors, w'') ]

  unfoldable pub cleanup_vms : Config → W → List String × W
  unfolding cleanup_all
  cleanup_vms c = cleanup_all c.vms

  unfoldable pub set_autostart : String → Bool → Action W Unit
  set_autostart name autostart = v.lookup name >> v.set_autostart name autostart
