-- ===== src/CsiCommon/Defaults.antt =====
-- csi-common/*-default.go and driver/identityserver.go: the answers that need no state but the
-- driver object. A handler returns its response or an error.
pub mod Laws
use nvmeof_csi.Base.{
  ℕ, String, List, [], ◌∷◌, ◌==◌, string_eq, if◌then◌else◌, Result, ok, err, status, unavailable,
  unimplemented,
}
use nvmeof_csi.CsiCommon.Driver.{CsiDriver, ControllerServiceCapability}

-- Every handler of `DefaultControllerServer` but `ControllerGetCapabilities` and those below.
unfoldable default_controller_handler : {Request Response : Type 0} → Request → Result Response
default_controller_handler req = err (status unimplemented "")

-- Its handlers for snapshots and for the expansion of a volume.
unfoldable default_snapshot_handler : {Request Response : Type 0} → Request → Result Response
default_snapshot_handler req = err (status unimplemented "")

-- Every handler of `DefaultNodeServer` but `NodeGetInfo`, `NodeGetCapabilities` and those below.
unfoldable default_node_handler : {Request Response : Type 0} → Request → Result Response
default_node_handler req = err (status unimplemented "")

-- Its handlers that publish and unpublish a volume.
unfoldable default_publish_handler : {Request Response : Type 0} → Request → Result Response
default_publish_handler req = err (status unimplemented "")

-- `DefaultControllerServer.ControllerGetCapabilities`, to which the controller server forwards.
unfoldable pub controller_get_capabilities : CsiDriver → Result (List ControllerServiceCapability)
controller_get_capabilities d = ok d.capabilities

-- `DefaultNodeServer.NodeGetInfo`, to which the node server forwards: the node ID.
unfoldable pub node_get_info : CsiDriver → Result String
node_get_info d = ok d.node_id

pub data NodeRpc : Type 0 where
  unknown stage_unstage_volume : NodeRpc

-- `DefaultNodeServer.NodeGetCapabilities`
unfoldable default_node_get_capabilities : Result (List NodeRpc)
default_node_get_capabilities = ok (NodeRpc.unknown ∷ [])

-- `nodeServer.NodeGetCapabilities` of driver/nodeserver.go, which does not forward.
unfoldable pub node_get_capabilities : Result (List NodeRpc)
node_get_capabilities = ok (stage_unstage_volume ∷ [])

pub data PluginCapability : Type 0 where
  controller_service : PluginCapability
  volume_expansion_unknown : PluginCapability

-- `DefaultIdentityServer.GetPluginCapabilities`
unfoldable default_get_plugin_capabilities : Result (List PluginCapability)
default_get_plugin_capabilities = ok (controller_service ∷ [])

-- `identityServer.GetPluginCapabilities` of driver/identityserver.go, which does not forward.
unfoldable get_plugin_capabilities : Result (List PluginCapability)
get_plugin_capabilities = ok (controller_service ∷ volume_expansion_unknown ∷ [])

pub record PluginInfo : Type 0 where
  pub name : String
  pub vendor_version : String

-- `DefaultIdentityServer.GetPluginInfo`
unfoldable pub get_plugin_info : CsiDriver → Result PluginInfo
get_plugin_info d =
    if d.name == ""
    then err (status unavailable "Driver name not configured")
    else if d.version == ""
    then err (status unavailable "Driver is missing version")
    else ok (record { name = d.name; vendor_version = d.version })

-- `DefaultIdentityServer.Probe`
unfoldable pub probe : Result (Unit {0})
probe = ok tt
