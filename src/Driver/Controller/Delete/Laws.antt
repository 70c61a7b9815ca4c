-- ===== src/Driver/Controller/Delete/Laws.antt =====
-- driver/controllerserver.go `DeleteVolume`, also on the volume IDs that `CreateVolume` returned.
use nvmeof_csi.Base.{◌^◌, ◌<◌, String, ◌≡◌, ◌≢◌, refl, nat_eq, string_eq, ok, arith, done, eq_iff}
use nvmeof_csi.Base.Dict.{index}
use nvmeof_csi.Locks.{Server}
use nvmeof_csi.Locks.Laws.{AllFree, relocked, relocked-AllFree, with_lock_done}
use nvmeof_csi.Driver.Gateway.{Gateway, NsidStatus, ReqStatus}
use nvmeof_csi.Driver.Controller.VolumeId.{
  Json, IsLawful, VolumeIdentifier, decode_volume_id, decode-encode_volume_id,
  encode_volume_id-ne-nil,
}
use nvmeof_csi.Driver.Controller.Create.{
  CreateVolumeRequest, Volume, namespace_add_req, create_volume_locked, handle_create_volume,
}
use nvmeof_csi.Driver.Controller.Create.Laws.{create_volume_done, identifier}
use nvmeof_csi.Driver.Controller.Delete.{delete_volume, handle_delete_volume}

delete_volume_done :
    (G : Gateway) (J : Json) (v : VolumeIdentifier) (g : G.State) {r : ReqStatus} {g' : G.State}
    → G.namespace_delete (record { nsid = v.nsid; subsystem_nqn = v.nqn }) g ≡ (ok r, g')
    → r.status ≡ 0
    → delete_volume G J v g ≡ done tt g'
unfolding delete_volume
delete_volume_done G J v g h z = ground arith

module _ (G : Gateway) (J : Json) where
  -- `DeleteVolume` of an ID that decodes to an identifier that the gateway deletes.
  handle_delete_volume_done :
      (id : String) (s : Server G.State) {v : VolumeIdentifier} {r : ReqStatus} {g' : G.State}
      → AllFree s.locks
      → id ≢ ""
      → decode_volume_id J id ≡ ok v
      → G.namespace_delete (record { nsid = v.nsid; subsystem_nqn = v.nqn }) s.world ≡ (ok r, g')
      → r.status ≡ 0
      → handle_delete_volume G J id s
        ≡ done tt (record { locks = relocked v.volume_name s.locks; world = g' })
  unfolding handle_delete_volume
  handle_delete_volume_done id s {v} free filled h del z = ground (
    arith,
    eq_iff id "",
    with_lock_done v.volume_name (delete_volume G J v) s free
        (delete_volume_done G J v s.world del z),
  )

  -- Started with every mutex free, with a gateway that adds the namespace and later deletes it, both
  -- with status 0: `CreateVolume` returns a volume, and `DeleteVolume` of its ID succeeds. Between
  -- them the gateway is asked to delete exactly the namespace that it had added, in the subsystem of
  -- the request, and every mutex is free at the end.
  pub handle_delete_volume-handle_create_volume :
      (req : CreateVolumeRequest) (s : Server G.State) {resp : NsidStatus} {r : ReqStatus}
      {g1 g2 : G.State}
      → IsLawful J
      → AllFree s.locks
      → resp.nsid < 2 ^ 32
      → G.namespace_add (namespace_add_req req) s.world ≡ (ok resp, g1)
      → resp.status ≡ 0
      → G.namespace_delete
          (record { nsid = resp.nsid; subsystem_nqn = index "SubsystemNqn" req.parameters })
          g1
        ≡ (ok r, g2)
      → r.status ≡ 0
      → (v : Volume) × (t u : Server G.State) × (handle_create_volume G J req s ≡ done v t)
        × (handle_delete_volume G J v.volume_id t ≡ done tt u)
        × (u.world ≡ g2)
        × AllFree u.locks
  unfolding handle_create_volume
  handle_delete_volume-handle_create_volume req s {resp} L free small add z del z' =
      let (id, encoded, returns) = create_volume_done G J req s.world add z in
      let free' = relocked-AllFree req.name s.locks free in
      (
        _,
        _,
        _,
        with_lock_done req.name (create_volume_locked G J req) s free returns,
        handle_delete_volume_done id _ free'
            (encode_volume_id-ne-nil J L (identifier req resp) encoded)
            (decode-encode_volume_id J L (identifier req resp) small encoded) del z',
        refl,
        relocked-AllFree req.name _ free',
      )
