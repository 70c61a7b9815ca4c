-- ===== src/Driver/Controller/Delete.antt =====
-- driver/controllerserver.go: `DeleteVolume`.
pub mod Laws
use nvmeof_csi.Base.{
  ℕ, String, ◌==◌, nat_eq, string_eq, if◌then◌else◌, Result, ok, err, status, internal,
  invalid_argument, Error, message, ◌<>◌, Action, fail, Run, done, failed,
}
use nvmeof_csi.Locks.{Server, with_lock}
use nvmeof_csi.Driver.Gateway.{Gateway, ReqStatus}
use nvmeof_csi.Driver.Controller.VolumeId.{Json, VolumeIdentifier, decode_volume_id}

module _ (G : Gateway) (J : Json) where
  -- `DeleteVolume` while it holds the lock of the volume's name.
  unfoldable pub delete_volume : VolumeIdentifier → Action G.State (Unit {0})
  delete_volume v g =
      let (answer, g') = G.namespace_delete (record { nsid = v.nsid; subsystem_nqn = v.nqn }) g in
      elim answer [
        | err e ↦ failed (status internal ("gateway NamespaceRemove failed: " <> message e)) g'
        | ok resp ↦
            if resp.status == 0
            then done tt g'
            else failed (status internal ("gateway returned error: " <> resp.error_message)) g'
      ]

  -- `DeleteVolume`
  unfoldable pub handle_delete_volume : String → Action (Server G.State) (Unit {0})
  handle_delete_volume id =
      if id == ""
      then fail (status invalid_argument "volume ID is required")
      else elim (decode_volume_id J id) [
        | err e ↦ fail (status invalid_argument ("failed to decode volume ID: " <> message e))
        | ok v ↦ with_lock v.volume_name (delete_volume v)
      ]
