-- ===== src/Driver/Start/Laws.antt =====
-- driver/driver.go: what `Run` serves, and whether it returns.
use nvmeof_csi.Base.{
  ◌≡◌, ◌≢◌, refl, true, false, none, some, map, arith, done, halted, panic, Option-cases, inl, inr,
  >>=-eq-done, if◌then◌else◌, String,
}
use nvmeof_csi.Locks.{Server, new_volume_locks}
use nvmeof_csi.CsiCommon.Driver.{
  CsiDriver, new_csi_driver, new_controller_service_capability, append_capabilities,
  add_controller_service_capabilities, add_volume_capability_access_modes,
}
use nvmeof_csi.CsiCommon.Defaults.{controller_get_capabilities}
use nvmeof_csi.CsiCommon.Server.{
  Interface, holding, Network, Services, listen, start_and_wait, registered,
}
use nvmeof_csi.Driver.Gateway.{Gateway}
use nvmeof_csi.Driver.Controller.VolumeId.{Json}
use nvmeof_csi.Driver.Controller.Create.{CreateVolumeRequest}
use nvmeof_csi.Driver.Start.{
  Config, Pointer, IdentityServer, ControllerServer, NodeServer, controller_caps, set_up,
  new_controller_server, controller_pointer, node_pointer, servers, servers_with, new_node_server,
  new_identity_server, start, run, get_controller_capabilities, create_volume_on,
}

module _ (net : Network) where
  -- What was registered is what was passed on, nil pointers included.
  listen-eq-done :
      {I C N : Type 0} (endpoint : String) (ids : I) (cs : C) (ns : N) (s : net.State)
      {x : Services I C N} {t : net.State}
      → listen net endpoint (holding ids) (holding cs) (holding ns) s ≡ done x t
      → x ≡ record { identity = some ids; controller = some cs; node = some ns }
  unfolding listen registered
  listen-eq-done endpoint ids cs ns s h = ground arith

  start_and_wait-ne-done :
      {I C N : Type 0} (endpoint : String) (ids : Interface I) (cs : Interface C) (ns : Interface N)
      (s t : net.State)
      → start_and_wait net endpoint ids cs ns s ≢ done tt t
  unfolding start_and_wait
  start_and_wait-ne-done endpoint ids cs ns s t h = ground arith

  -- `Run` does not return: on every configuration it ends the process, or it waits for ever, also after
  -- the server was stopped.
  run_never_returns : (conf : Config) (s t : net.State) → run net conf s ≢ done tt t
  unfolding run
  run_never_returns conf s t h =
      let (x, u, asked, rest) = >>=-eq-done (servers net conf) _ s h in
      start_and_wait-ne-done conf.endpoint _ _ _ u t rest

  -- The pointer that `Run` passes on for a controller server.
  controller_pointer-eq-done :
      (conf : Config) (d : CsiDriver) (s : net.State) {cs : Pointer ControllerServer}
      {t : net.State}
      → controller_pointer net conf d s ≡ done cs t
      → cs ≡ (
          if conf.is_controller_server
          then some (record { driver = d; volume_locks = new_volume_locks })
          else none)
  unfolding controller_pointer new_controller_server
  controller_pointer-eq-done conf d s h = ground arith

  servers-eq-done :
      (conf : Config) (s : net.State)
      {x : IdentityServer × Pointer ControllerServer × Pointer NodeServer} {t : net.State}
      → servers net conf s ≡ done x t
      → (d : CsiDriver) × (new_csi_driver conf.driver_name conf.driver_version conf.node_id
          ≡ some d)
        × (servers_with net conf (set_up conf d) s ≡ done x t)
  unfolding servers
  servers-eq-done conf s h =
      elim (Option-cases (new_csi_driver conf.driver_name conf.driver_version conf.node_id)) [
        | inl e ↦ ground arith
        | inr (d, e) ↦ (d, e, ground (arith, e))
      ]

  servers_with-eq-done :
      (conf : Config) (d : CsiDriver) (s : net.State)
      {x : IdentityServer × Pointer ControllerServer × Pointer NodeServer} {t : net.State}
      → servers_with net conf d s ≡ done x t
      → (x.0 ≡ record { driver = d })
        × (x.1 ≡ (
            if conf.is_controller_server
            then some (record { driver = d; volume_locks = new_volume_locks })
            else none))
        × (x.2 ≡ (
            if conf.is_node_server
            then some (record { driver = d; volume_locks = new_volume_locks })
            else none))
  unfolding servers_with node_pointer new_node_server new_identity_server
  servers_with-eq-done conf d s h =
      let (cs, u, made, rest) = >>=-eq-done (controller_pointer net conf d) _ s h in
      let e = controller_pointer-eq-done conf d s made in ground (arith, e)

  -- Where `Run` comes to serve, the configuration names the driver, its version and the node, and all
  -- three services are registered, over one driver object: the controller and the node service
  -- as nil pointers where the configuration does not ask for them.
  start_services :
      (conf : Config) (s : net.State)
      {x : Services IdentityServer (Pointer ControllerServer) (Pointer NodeServer)} {t : net.State}
      → start net conf s ≡ done x t
      → (d : CsiDriver) × (new_csi_driver conf.driver_name conf.driver_version conf.node_id
          ≡ some d)
        × (x.identity ≡ some (record { driver = set_up conf d }))
        × (x.controller
            ≡ some (
                if conf.is_controller_server
                then some (record { driver = set_up conf d; volume_locks = new_volume_locks })
                else none))
        × (x.node
            ≡ some (
                if conf.is_node_server
                then some (record { driver = set_up conf d; volume_locks = new_volume_locks })
                else none))
  unfolding start
  start_services conf s h =
      let (made, u, asked, rest) = >>=-eq-done (servers net conf) _ s h in
      let (d, named, built) = servers-eq-done conf s asked in
      let (ids, cs, ns) = servers_with-eq-done conf (set_up conf d) s built in
      let e = listen-eq-done conf.endpoint made.0 made.1 made.2 u rest in
      (d, named, ground (arith, e, ids), ground (arith, e, cs), ground (arith, e, ns))

  -- Where `Run` comes to serve without a controller server, the nil pointer that it registers makes
  -- the process panic at each `CreateVolume` and each `ControllerGetCapabilities`.
  pub start_without_controller :
      (G : Gateway) (J : Json) (conf : Config) (s : net.State)
      {x : Services IdentityServer (Pointer ControllerServer) (Pointer NodeServer)} {t : net.State}
      → conf.is_controller_server ≡ false
      → start net conf s ≡ done x t
      → (cs : Pointer ControllerServer) × (x.controller ≡ some cs)
        × ((req : CreateVolumeRequest) (w : Server G.State)
            → create_volume_on G J cs req w ≡ halted panic w)
        × ((w : Server G.State) → get_controller_capabilities cs w ≡ halted panic w)
  unfolding create_volume_on get_controller_capabilities
  start_without_controller G J conf s off h =
      let (d, named, ids, cs, ns) = start_services conf s h in
      (none, ground (arith, cs, off), λ req w. refl, λ w. refl)

  -- Where `Run` comes to serve with a controller server, that answers `ControllerGetCapabilities` with
  -- CREATE_DELETE_VOLUME, CREATE_DELETE_SNAPSHOT and PUBLISH_UNPUBLISH_VOLUME, in this order.
  start_with_controller :
      (conf : Config) (s : net.State)
      {x : Services IdentityServer (Pointer ControllerServer) (Pointer NodeServer)} {t : net.State}
      → conf.is_controller_server ≡ true
      → start net conf s ≡ done x t
      → (cs : Pointer ControllerServer) × (x.controller ≡ some cs)
        × (get_controller_capabilities cs t
            ≡ done (map new_controller_service_capability controller_caps) t)
  unfolding get_controller_capabilities controller_get_capabilities set_up append_capabilities
      add_controller_service_capabilities add_volume_capability_access_modes
  start_with_controller conf s on h =
      let (d, named, ids, cs, ns) = start_services conf s h in (_, cs, ground (arith, on))
