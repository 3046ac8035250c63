-- ===== src/Lib.antt =====
-- A model of dpu-simulator: the device plugin that hands simulated DPU interfaces to Kubernetes, and
-- the configuration that says how many there are, on which nodes and in which clusters.
--
-- The parts and how they interact. `pkg/config` reads a configuration, refuses it or fills in defaults,
-- and answers queries on it. One network of the type HostToDpu says how many interface pairs (num_pairs)
-- join a host and its DPU, how many of them are management interfaces and how many are reserved for
-- uplinks. These three counts go through environment variables to `cmd/dpu-sim-dp`, which builds two
-- resource pools from them (`pkg/deviceplugin`) and runs a plugin for each: it lists the interfaces of
-- the host that belong to its pool, advertises them to kubelet, checks their health every few seconds
-- and hands them out. The names of the interfaces, `eth0-<index>`, are those of `lib/dpusim`.
-- `pkg/kind` routes between the containers of a host cluster and of its DPUs, `pkg/vm` runs the VMs of a
-- configuration, `pkg/cni` installs the CNI of each cluster with its addons and makes the Helm values of its
-- OVN-Kubernetes, `pkg/k8s` changes and awaits objects of the clusters, and `pkg/platform` brings the tools to
-- the machines.
--
-- Which file models what:
--   Base, Base/*            helpers: Go's `int` as ℤ wrapped to 64 bits, lists, texts as bytes,
--                           `strconv.Atoi` and `%d`, `strings.TrimSpace`.
--   DevicePlugin/Names      lib/dpusim/constants.go, and hostDataIfIndex of
--                           pkg/deviceplugin/device_plugin.go: names printed and parsed.
--   DevicePlugin/Pools      BuildResourcePools, its matchers, MatcherDescription and the counts from
--                           the environment. Pools/Ranges is on which interface belongs to which pool.
--   DevicePlugin/Plugin     cmd/dpu-sim-dp/plugin.go. `Plugin` is the state that the mutex guards, with
--                           the device-info files that have been written; discover_devices,
--                           check_devices, mark_allocated, devices_snapshot, validate_devices and
--                           allocate are the methods of these names. Plugin/Device is on one device
--                           under health checks, Plugin/Watch on ListAndWatch, Plugin/Allocate on
--                           Allocate, Plugin/Distinct and Plugin/Invariant on the devices as a whole,
--                           under every interleaving of the critical sections.
--   Config/Types            pkg/config/types.go.
--   Config/Mode             the deployment mode and the switches of pkg/config/config.go.
--   Config/Nodes            its queries on nodes and clusters; Nodes/Numbered, Nodes/Containers and
--                           Nodes/Roles are on the container names of Kind nodes.
--   Config/Topology         its queries on DPU clusters and on the HostToDpu network;
--                           Topology/Order is on ClustersOrderedForInstall.
--   Config/Network          the loop over the networks in validateAndSetDefaults; Network/Budget and
--                           Network/Interfaces are on the counts that it accepts.
--   Config/Addons           validateAndNormalizeAddons.
--   Config/Cidr             pkg/config/network.go, pkg/netutil/netutil.go and
--                           GetFreeIPv4AddressInSubnet of pkg/network/network.go.
--   Config/Validate         the other parts of validateAndSetDefaults; Validate/Accepted is on the nodes of a
--                           configuration in which it finds no error.
--   Config/Registry         image references and registry addresses of pkg/config/config.go.
--   Network                 the bridge names of pkg/network/network.go; Network/Bridges is on them.
--   Kubelet                 the merge of the node address into the flags of kubelet, pkg/k8s/kubelet_node_ip.go,
--                           from the split flags to those that are joined; Kubelet/Merge is on it.
--   Config/Gateway          GatewayOpts and DPUKindGatewayNextHop of pkg/config/config.go.
--   Platform/Executor       CommandExecutor of pkg/platform/executor.go as an interface, actions that may fail,
--                           and ShQuote.
--   Kind/Routing            pkg/kind/routing.go without its commands: what `network inspect` answers, the
--                           rules, and the arguments of iptables.
--   Kind/Iptables           the commands for one rule, and the wait for a sysctl file. Iptables/Table,
--                           Iptables/Delete and Iptables/Wait are on them, under the documented behaviour of
--                           iptables and of a clock.
--   Kind/Gateway            setupDPUGatewayRouting and cleanupDPUGatewayRouting; Gateway/Effects,
--                           Gateway/Setup and Gateway/Cleanup are on what they do to the chains.
--   Platform/Deps           pkg/platform/deps.go: dependencies checked and installed. Deps/Installed is on them.
--   Vm                      pkg/vm/lifecycle.go, with libvirt and the files as an interface. Vm/States has the
--                           states of a domain and the documented behaviour of libvirt; Vm/Lifecycle, Vm/Delete,
--                           Vm/Spared and Vm/Cleanup are on how the operations move a VM among them.
--   Cni/Values              setNestedHelmValue and helmValuesToMap of pkg/cni/helm_values.go; Values/Nested and
--                           Values/Readable are on what is read back from the nested map.
--   Cni/Overrides           the Helm overrides of each mode of OVN-Kubernetes, of the same file;
--                           Overrides/Readable is on them.
--   Kind/Clusters           BuildKindConfig of pkg/kind/config.go; Clusters/Named is on the container names of
--                           the nodes that are built.
--   Cni/PostInstall         the patch of a pod template in pkg/cni/post_install.go; PostInstall/Affinity is on it.
--   Platform/Distro         pkg/platform/distro.go: the release file parsed, and the package manager;
--                           Distro/Release is on files of quoted values.
--   Log                     the levels of pkg/log/log.go and which messages are written.
--   Cni/PodCidr             podCIDRWithPerNodePrefix, over what net.ParseCIDR answers.
--   Kind/Topology           the functions around createDataVeths, from SetupHostToDpuNetwork down;
--                           Topology/Fresh is on the addresses of the hosts.
--   Kind/Veth               createDataVeths of pkg/kind/veth.go over the commands; Veth/Links is the manual of
--                           ip-link, Veth/Named the names of the interfaces, Veth/Built what was built.
--   Network/Mac             GenerateMACForHostToDpu over a hash that is a parameter.
--   Config/Endpoints        validateRegistryEndpoint, with the split of host and port.
--   Config/Defaults         validateAndSetDefaults as a whole and LoadConfig behind the reading of the file;
--                           Defaults/Settled and Defaults/Accepted are on what it writes.
--   K8s/Api                 the API server as pkg/k8s/client.go calls it.
--   K8s/Deployments         SuspendDeployment, ResumeDeployment and the restart; Deployments/Restored is on them.
--   K8s/Nodes               labels, annotations and taints of nodes; objects made sure to be there or gone.
--   K8s/Waits               the waits for pods, deployments and secrets; Waits/Ready is on when they return.
--   Cni/Install             pkg/cni/install.go: the CNI and the addons in the order in which they are installed;
--                           Install/Order and Install/Ready are on that order.
--   */Tests (but Base)      concrete runs.
--
-- Conventions. A Go `int` is an integer in 64 bits: a sum that may leave that range is wrapped. A map
-- that is built from a list is a search of the list from its end, or a test of membership. An error is a constructor, or `none`
-- where the callers only ask whether there is one; the texts of messages and log lines are left out.
-- Texts are compared whole (`str_eq`) or walked as bytes. The clock counts nanoseconds. What the
-- outside gives (the host's interfaces, kubelet's allocations, the clock, the outcome of a file write)
-- is an argument of the operation that reads it, so a theorem holds for all outcomes. Commands are actions
-- on a world that is not specified: what iptables, libvirt, a clock or an installation is documented to do to
-- it is a record of laws, which the theorems on them take and the tests fill with a concrete machine. The loops are
-- structural recursion: over a list, or over the number of rounds that the bounds of the loop give.
-- The loops of pkg/kind/routing.go without a bound have fuel, and a theorem says how much is enough.
-- The digits of a number are printed with the number itself as fuel, which exceeds its digits.
--
-- Not modelled: the gRPC server and the registration with kubelet, the three executors, which
-- start processes, the creation of clusters, disks and domains, the calls that the Kubernetes client passes on
-- as they are, the registry, SSH and the traffic tests, which run commands on hosts and clusters, and reading
-- YAML and JSON.
pub mod Base
pub mod Cni
pub mod Config
pub mod DevicePlugin
pub mod K8s
pub mod Kind
pub mod Kubelet
pub mod Log
pub mod Network
pub mod Platform
pub mod Vm
