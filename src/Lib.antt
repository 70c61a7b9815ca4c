-- ===== src/Lib.antt =====
-- The NVMe-oF CSI driver: a Kubernetes storage driver whose controller makes volumes through an NVMe-oF
-- gateway, and whose node service connects, mounts and unmounts them. The development models the Go
-- code of pkg/ as functions and proves what the calls promise.
--
-- The parts, and the code that they model:
--   * Locks: pkg/util/idlocker.go. `Lock` gives each volume a mutex of its own; `with_lock` is a handler
--     that holds it (`defer unlock()`). Locks/Threads lets goroutines interleave at `LoadOrStore`, `Lock`
--     and `Unlock`, as a step relation; Locks/Threads/History has the sequence of these events, with a
--     lock of one holder as the specification.
--   * Driver/Controller: pkg/driver/controllerserver.go. VolumeId is `VolumeIdentifier` with
--     `encodeVolumeID` and `decodeVolumeID`; Create, Delete, Publish and Capabilities are the handlers.
--     Driver/Gateway has the messages of proto/gateway.proto and the gateway, a parameter.
--     Driver/Pipeline follows a volume from `CreateVolume` to the node. Session has sequences of requests
--     against the namespaces that the gateway holds, whose behaviour is stated as hypotheses.
--   * Driver/Node: pkg/driver/nodeserver.go and pkg/util/validate.go. MountPoint has the helpers that make
--     and take away mount points, Stage and Publish the handlers, Driver/Node/Laws their theorems.
--     Driver/Node/Table specifies sequences of requests by a table that counts the mounts on each path.
--     Driver/Node/Attempts bounds what requests do that may fail.
--   * Initiator: pkg/util/initiator.go, the nvme commands and the waiting for a device.
--   * Host: the machine under the driver, a parameter: files, mounts, commands, time. Host/Laws
--     states what the code relies on, Host/Machine is a small machine that keeps these rules.
--   * Rpc: pkg/util/jsonrpc.go, the JSON-RPC client of a storage node; the HTTP client and the JSON
--     decoder are parameters. Rpc/Flights lets goroutines share the client and its counter.
--   * Spdk: pkg/util/nvmf.go, the volumes of a storage node and how they are published. Spdk/Target states
--     what a target exports and how its JSON-RPC methods change that, as hypotheses, with what publishing
--     and unpublishing are to make of the exports as functions. Spdk/Volumes and Spdk/Deletion do the same for the
--     bdevs that a node answers for. Spdk/Interface is the interface `SpdkNode` and its implementation.
--     Spdk/Info compares what a node tells of a volume with what an initiator looks for.
--   * Util: pkg/util/util.go and pkg/util/config.go. Size is `ToMiB`, TryLock the try lock with goroutines
--     that share it, Device/Name the two regular expressions as functions on texts, Device/Scan the
--     search for a device, with `GetNvmeDeviceName` in Scan/Ready, Context the volume context in its file, Config what is read from JSON.
--   * CsiCommon: pkg/csi-common, the driver object with its capabilities (driver.go), the endpoint
--     (utils.go, server.go), and the default services; with the identity service of
--     pkg/driver/identityserver.go. Server is `serve` of server.go; an interface value is
--     nil or holds a value, which may be a nil pointer. Server/Life is the server object with `Start`,
--     `Wait`, `Stop` and `ForceStop`, and the goroutines of `Start`, as a step relation.
--   * Driver/Start: pkg/driver/driver.go `Run`, the constructors of the three services and the
--     configuration of cmd/main.go. The network is a parameter; klog.Fatal is an error.
--   * Base: what the parts share. Base/Calls has the calls of Go code over a state: a call returns a
--     value, returns an error, panics, or is blocked by a mutex. Base/Base64 is the standard encoding,
--     Base/Dict a map of texts as an association list, Base/FilePath `path.Clean`, `Dir` and `Join`,
--     Base/Int the 64-bit integers with their wrap-around.
--   * Tests: the theorems at concrete inputs.
--
-- A handler is a function from a request and a state to its outcome with the state that it leaves. The
-- state of a service is its lock table with the world that it acts on: the gateway, or the machine.
-- An error is a value, and keeps which sentinel and which wrapping it has.
--
-- Loops over lists are structural. The two loops that wait for a device run as many rounds as the code
-- counts, one more than the seconds that they are given, so that no fuel is left open.
--
-- Bounds: a namespace ID is a uint32, as a hypothesis where the round trip needs it; int64 products wrap
-- around; the request ID is an int32 as its bit pattern and wraps around. The number that the gateway
-- answers as its status is only compared with 0.
--
-- A Go map is an association list: where the code ranges over a map, the model takes the entries in the
-- order of the list. Lower-casing and white space are those of ASCII.
--
-- `detectNvmeDeviceName` runs its 20 rounds as a recursion on the rounds left.
--
-- Not modelled: generated stubs (proto/*.pb.go), what gRPC and HTTP do on the network, the parsing of flags,
-- logging, and the encoding of JSON. The end of the error of `GetVirtioBlkDeviceName`, a list of directory entries, is left
-- out.
pub mod Base
pub mod Locks
pub mod CsiCommon
pub mod Driver
pub mod Host
pub mod Initiator
pub mod Rpc
pub mod Spdk
pub mod Util
pub mod Tests
