-- ===== src/CsiCommon/Defaults/Laws.antt =====
-- The identity service over a driver object that was made and set up by the code.
use nvmeof_csi.Base.{ℕ, String, ◌≡◌, some, List, string_eq, ok, arith}
use nvmeof_csi.CsiCommon.Driver.{
  CsiDriver, new_csi_driver, add_controller_service_capabilities,
  add_volume_capability_access_modes,
}
use nvmeof_csi.CsiCommon.Defaults.{get_plugin_info, node_get_info}

-- A driver object that `NewCSIDriver` returned answers `GetPluginInfo` with the name and version
-- that it was made with and `NodeGetInfo` with the node ID, also after capabilities are added.
get_plugin_info-new_csi_driver :
    (name v node_id : String) (cl vc : List ℕ) {d : CsiDriver}
    → new_csi_driver name v node_id ≡ some d
    → let d' = add_volume_capability_access_modes vc (add_controller_service_capabilities cl d) in
      (get_plugin_info d' ≡ ok (record { name = name; vendor_version = v }))
      × (node_get_info d' ≡ ok node_id)
unfolding new_csi_driver get_plugin_info node_get_info add_volume_capability_access_modes
    add_controller_service_capabilities
get_plugin_info-new_csi_driver name v node_id cl vc h = ground arith
