-- ===== src/Tests/Start.antt =====
-- The driver, started on a small network.
use nvmeof_csi.Base.{
  String, ◌≡◌, refl, true, false, [], err, plain, not_exist, none, some, ok, done, halted, panic,
}
use nvmeof_csi.Locks.{Server, new_volume_locks}
use nvmeof_csi.CsiCommon.Driver.{CsiDriver, new_csi_driver}
use nvmeof_csi.CsiCommon.Server.{Network, Services, listen, registered, remove_socket}
use nvmeof_csi.CsiCommon.Endpoint.{listen_on, parse_endpoint, is_listed}
use nvmeof_csi.Base.Text.{to_lower, has_prefix, split_once}
use nvmeof_csi.Host.{is_not_exist}
use nvmeof_csi.Driver.Gateway.{Gateway}
use nvmeof_csi.Driver.Controller.Create.{CreateVolumeRequest}
use nvmeof_csi.Driver.Start.{
  Config, default_config, Pointer, IdentityServer, ControllerServer, NodeServer, set_up, start,
  servers, servers_with, controller_pointer, node_pointer, new_node_server, new_identity_server,
  create_volume_on, get_controller_capabilities,
}
use nvmeof_csi.Tests.Codec.{codec}
use nvmeof_csi.Driver.Start.Laws.{start_without_controller}

-- A network on which no socket is left, the gateway answers, and every address can be listened on.
abbrev network : Network
network = record {
  State = String;
  remove = λ address s. (err (not_exist "no such file or directory"), s);
  listen = λ network address s. (ok tt, network);
  dial = λ address s. (ok tt, s);
  run_server = λ s. (ok tt, s);
}

abbrev node_config : Config
node_config = record default_config {
  node_id = "node-1";
  is_controller_server = false;
  is_node_server = true;
}

abbrev driver : CsiDriver
driver = record {
  name = "csi.nvmeof.io";
  node_id = "node-1";
  version = "0.1.0";
  capabilities = [];
  access_modes = [];
}

abbrev served : Services IdentityServer (Pointer ControllerServer) (Pointer NodeServer)
served = record {
  identity = some (record { driver = driver });
  controller = some none;
  node = some (some (record { driver = driver; volume_locks = new_volume_locks }));
}

served_lem : start network node_config "" ≡ done served "unix"
unfolding start servers servers_with new_identity_server set_up controller_pointer node_pointer
    new_node_server listen registered remove_socket listen_on parse_endpoint is_listed
    new_csi_driver to_lower has_prefix split_once is_not_exist
served_lem = refl

-- A gateway that refuses everything.
abbrev gateway : Gateway
gateway = record {
  State = Unit {0};
  namespace_add = λ req g. (err (plain "refused"), g);
  namespace_delete = λ req g. (err (plain "refused"), g);
  list_namespaces = λ nqn g. (err (plain "refused"), g);
}

start_without_controller_example :
    (cs : Pointer ControllerServer) × (served.controller ≡ some cs)
    × ((req : CreateVolumeRequest) (w : Server (Unit {0}))
        → create_volume_on gateway codec cs req w ≡ halted panic w)
    × ((w : Server (Unit {0})) → get_controller_capabilities cs w ≡ halted panic w)
start_without_controller_example =
    start_without_controller network gateway codec node_config "" refl served_lem
