-- ===== src/Driver/Start.antt =====
-- driver/driver.go `Run`, with the constructors of the three services, and the handlers as methods
-- of the pointers that `Run` passes to the gRPC server.
pub mod Laws
use nvmeof_csi.Base.{
  String, ◌<>◌, Bool, true, false, Option, none, some, List, [], ◌∷◌, if◌then◌else◌, Result, ok,
  err, Error, plain, wrapped, message, Action, Run, done, failed, halted, panic, pure, fail, ◌>>=◌,
  on_error, lift, returned,
}
use nvmeof_csi.Locks.{VolumeLocks, new_volume_locks, Server}
use nvmeof_csi.CsiCommon.Driver.{
  RpcType, Mode, ControllerServiceCapability, CsiDriver, new_csi_driver,
  add_controller_service_capabilities, add_volume_capability_access_modes,
}
use nvmeof_csi.CsiCommon.Defaults.{
  controller_get_capabilities, node_get_info, NodeRpc, node_get_capabilities, PluginInfo, probe,
  get_plugin_info,
}
use nvmeof_csi.CsiCommon.Server.{Interface, holding, Network, Services, listen, start_and_wait}
use nvmeof_csi.Driver.Gateway.{Gateway}
use nvmeof_csi.Driver.Controller.VolumeId.{Json}
use nvmeof_csi.Driver.Controller.Create.{CreateVolumeRequest, Volume, handle_create_volume}
use nvmeof_csi.Driver.Controller.Publish.{controller_unpublish_volume}

-- util.Config
pub record Config : Type 0 where
  pub driver_name : String
  pub driver_version : String
  pub endpoint : String
  pub node_id : String
  pub is_controller_server : Bool
  pub is_node_server : Bool

-- `conf` of cmd/main.go, where the command line has no flags.
abbrev pub default_config : Config
default_config = record {
  driver_name = "csi.nvmeof.io";
  driver_version = "0.1.0";
  endpoint = "unix://tmp/nvmeofcsi.sock";
  node_id = "";
  is_controller_server = true;
  is_node_server = false;
}

-- A pointer: `none` is nil.
abbrev pub Pointer : Type 0 → Type 0
Pointer A = Option A

pub record IdentityServer : Type 0 where
  pub driver : CsiDriver

pub record NodeServer : Type 0 where
  pub driver : CsiDriver
  pub volume_locks : VolumeLocks

-- `controllerServer`. Its connection to the gateway is the `Gateway` that its handlers take.
pub record ControllerServer : Type 0 where
  pub driver : CsiDriver
  pub volume_locks : VolumeLocks

-- `newIdentityServer`
unfoldable pub new_identity_server : CsiDriver → IdentityServer
new_identity_server d = record { driver = d }

-- `identityServer.Probe` and `identityServer.GetPluginInfo`, which pass on to the default service.
unfoldable identity_probe : IdentityServer → Result (Unit {0})
identity_probe ids = probe

unfoldable identity_info : IdentityServer → Result PluginInfo
identity_info ids = get_plugin_info ids.driver

-- `newNodeServer`, which has no error.
unfoldable pub new_node_server : CsiDriver → NodeServer
new_node_server d = record { driver = d; volume_locks = new_volume_locks }

-- CREATE_DELETE_VOLUME, CREATE_DELETE_SNAPSHOT, PUBLISH_UNPUBLISH_VOLUME
abbrev pub controller_caps : List RpcType
controller_caps = 1 ∷ 5 ∷ 2 ∷ []

-- SINGLE_NODE_WRITER
abbrev pub volume_modes : List Mode
volume_modes = 1 ∷ []

-- The capabilities that `Run` gives the driver object.
unfoldable pub set_up : Config → CsiDriver → CsiDriver
set_up conf d =
    if conf.is_controller_server
    then add_volume_capability_access_modes volume_modes
        (add_controller_service_capabilities controller_caps d)
    else d

module _ (net : Network) where
  -- `newControllerServer`
  unfoldable pub new_controller_server : CsiDriver → Action net.State ControllerServer
  new_controller_server d = do
    _ ←
        on_error (wrapped "failed to connect to Gateway gRPC server")
          (lift (net.dial "10.242.64.32:5500"))
    pure (record { driver = d; volume_locks = new_volume_locks })

  -- The node server of `Run`: a nil pointer where it is not asked for.
  unfoldable pub node_pointer : Config → CsiDriver → Pointer NodeServer
  unfolding new_node_server
  node_pointer conf d = if conf.is_node_server then some (new_node_server d) else none

  -- The controller server of `Run`: a nil pointer where it is not asked for.
  unfoldable pub controller_pointer :
      Config → CsiDriver → Action net.State (Pointer ControllerServer)
  controller_pointer conf d =
      if conf.is_controller_server
      then on_error (λ e. plain ("failed to create controller server: " <> message e))
          (new_controller_server d >>= λ cs. pure (some cs))
      else pure none

  -- The servers that `Run` starts for its driver object.
  unfoldable pub servers_with :
      Config
      → CsiDriver
      → Action net.State (IdentityServer × Pointer ControllerServer × Pointer NodeServer)
  servers_with conf d = do
    cs ← controller_pointer conf d
    pure (new_identity_server d, cs, node_pointer conf d)

  -- The servers that `Run` starts. An error is a call of klog.Fatal, which ends the process.
  unfoldable pub servers :
      Config → Action net.State (IdentityServer × Pointer ControllerServer × Pointer NodeServer)
  servers conf = elim (new_csi_driver conf.driver_name conf.driver_version conf.node_id) [
    | none ↦ fail (plain "Failed to initialize CSI Driver.")
    | some d ↦ servers_with conf (set_up conf d)
  ]

  -- `Run` until the server listens: what it serves.
  unfoldable pub start :
      Config
      → Action net.State (Services IdentityServer (Pointer ControllerServer) (Pointer NodeServer))
  start conf = do
    (ids, cs, ns) ← servers conf
    listen net conf.endpoint (holding ids) (holding cs) (holding ns)

  -- `Run`
  unfoldable pub run : Config → Action net.State (Unit {0})
  run conf = do
    (ids, cs, ns) ← servers conf
    start_and_wait net conf.endpoint (holding ids) (holding cs) (holding ns)

-- A method that reads a field of its receiver: on a nil pointer it panics.
abbrev pub on_receiver : {A S B : Type 0} → Pointer A → (A → Action S B) → Action S B
on_receiver none method s = halted panic s
on_receiver (some a) method s = method a s

module _ {S : Type 0} where
  -- `controllerServer.ControllerGetCapabilities`
  unfoldable pub get_controller_capabilities :
      Pointer ControllerServer → Action S (List ControllerServiceCapability)
  get_controller_capabilities cs =
      on_receiver cs (λ c. returned (controller_get_capabilities c.driver))

  -- `nodeServer.NodeGetInfo`
  unfoldable get_node_info : Pointer NodeServer → Action S String
  get_node_info ns = on_receiver ns (λ n. returned (node_get_info n.driver))

  -- `nodeServer.NodeGetCapabilities`, which does not read its receiver.
  unfoldable get_node_capabilities : Pointer NodeServer → Action S (List NodeRpc)
  get_node_capabilities ns = returned node_get_capabilities

-- `controllerServer.CreateVolume` on a pointer.
unfoldable pub create_volume_on :
    (G : Gateway)
    → Json
    → Pointer ControllerServer
    → CreateVolumeRequest
    → Action (Server G.State) Volume
create_volume_on G J cs req = on_receiver cs (λ _. handle_create_volume G J req)
