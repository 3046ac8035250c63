-- ===== src/Kind/Veth.antt =====
-- createDataVeths of pkg/kind/veth.go: pairs of interfaces made on the machine, one end moved into the container
-- of a host and one into that of its DPU.
pub mod Links
pub mod Named
pub mod Built
pub mod Tests
use Prim.Native.String.{◌++◌ as concat}
use dpu_simulator.Base.{
  ℕ, zero, suc, ◌+◌, Bool, List, [], ◌∷◌, Option, none, some, String, if◌then◌else◌,
}
use dpu_simulator.Base.Int.{ℤ, pos, pos_part}
use dpu_simulator.Base.Text.{itoa}
use dpu_simulator.DevicePlugin.Names.{host_data_if}
use dpu_simulator.Platform.Executor.{Action, done, ◌>>=◌, ◌>>◌, must}

-- Where a command runs: on the machine (with sudo), or in one of the two containers.
pub data Place : Type 0 where
  machine in_host in_dpu : Place

unfoldable pub veth_host_end : ℕ → ℕ → String
veth_host_end pair i = concat "host" (concat (itoa pair) (concat "-eth0-" (itoa i)))

unfoldable pub veth_dpu_end : ℕ → ℕ → String
veth_dpu_end pair i = concat "dpu" (concat (itoa pair) (concat "-rep0-" (itoa i)))

-- DPUDataIfFmt.
unfoldable pub dpu_data_if : ℕ → String
dpu_data_if i = concat "rep0-" (itoa i)

abbrev pub add_args : String → String → List String
add_args a b = "sudo" ∷ "ip" ∷ "link" ∷ "add" ∷ a ∷ "type" ∷ "veth" ∷ "peer" ∷ "name" ∷ b ∷ []

abbrev pub move_args : String → String → List String
move_args a pid = "sudo" ∷ "ip" ∷ "link" ∷ "set" ∷ a ∷ "netns" ∷ pid ∷ []

abbrev pub rename_args : String → String → List String
rename_args a b = "ip" ∷ "link" ∷ "set" ∷ a ∷ "name" ∷ b ∷ []

abbrev pub address_args : String → String → List String
address_args a mac = "ip" ∷ "link" ∷ "set" ∷ a ∷ "address" ∷ mac ∷ []

abbrev pub up_args : String → List String
up_args a = "ip" ∷ "link" ∷ "set" ∷ a ∷ "up" ∷ []

-- RunCmd of the executor of each place.
abbrev pub Runner : Type 0 → Type 0
Runner W = Place → List String → W → Bool × W

-- What a call is given: the index of the pair, the two processes, and GenerateMACForHostToDpu for the
-- nodes of the two ends.
pub record PairEnds : Type 0 where
  pub pair : ℕ
  pub host_pid : String
  pub dpu_pid : String
  pub host_mac : ℕ → String
  pub dpu_mac : ℕ → String

module _ {W : Type 0} (run : Runner W) where
  -- An end that has come into its container gets its name and its address, and is brought up.
  unfoldable pub dress : Place → String → String → String → Action W Unit
  dress place end target mac = do
    must (run place (rename_args end target))
    must (run place (address_args target mac))
    must (run place (up_args target))

  -- The making of the two ends and their moves.
  unfoldable pub deliver : PairEnds → String → String → Action W Unit
  deliver e host_end dpu_end = do
    must (run machine (add_args host_end dpu_end))
    must (run machine (move_args host_end e.host_pid))
    must (run machine (move_args dpu_end e.dpu_pid))

  -- One round of the loop.
  unfoldable pub create_data_veth : PairEnds → ℕ → Action W Unit
  create_data_veth e i = do
    deliver e (veth_host_end e.pair i) (veth_dpu_end e.pair i)
    dress in_host (veth_host_end e.pair i) (host_data_if (pos i)) (e.host_mac i)
    dress in_dpu (veth_dpu_end e.pair i) (dpu_data_if i) (e.dpu_mac i)

  -- The rounds from `i` on.
  unfoldable pub create_from : PairEnds → ℕ → ℕ → Action W Unit
  create_from e i zero = done tt
  create_from e i (suc rounds) = create_data_veth e i >> create_from e (suc i) rounds

  unfoldable pub create_data_veths : PairEnds → ℤ → Action W Unit
  create_data_veths e num_pairs = create_from e 0 (pos_part num_pairs)
