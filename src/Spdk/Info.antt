-- ===== src/Spdk/Info.antt =====
-- util/nvmf.go `VolumeInfo` and util/initiator.go `NewNvmeofCsiInitiator`: what a storage node tells of a volume,
-- and what an initiator needs.
use nvmeof_csi.Base.{String, ◌≡◌, refl, some, err, plain, done, arith, string_eq, >>=-eq-done}
use nvmeof_csi.Base.Dict.{Dict, index, lookup}
use nvmeof_csi.Rpc.Call.{Transport, Client, BDev}
use nvmeof_csi.Rpc.Volumes.{get_volume, get_lvstore}
use nvmeof_csi.Initiator.{new_initiator, is_missing}
use nvmeof_csi.Spdk.Node.{NodeNvmf, volume_map, volume_info}

module _ (T : Transport) (node : NodeNvmf) where
  volume_map-new_initiator :
      (id lvstore : String) (b : BDev)
      → new_initiator (some (volume_map node id lvstore b))
        ≡ err (plain "publishContext missing required fields")
  unfolding volume_map new_initiator is_missing index lookup
  volume_map-new_initiator id lvstore b = refl

  -- The map that `VolumeInfo` returns makes no initiator: `NewNvmeofCsiInitiator` refuses it for every volume, as
  -- its keys are not those that the initiator looks for.
  pub volume_info-new_initiator :
      (id : String) (c : Client T.State) {info : Dict} {t : Client T.State}
      → volume_info T node id c ≡ done info t
      → new_initiator (some info) ≡ err (plain "publishContext missing required fields")
  unfolding volume_info
  volume_info-new_initiator id c h =
      let (b, u, found, rest) = >>=-eq-done (get_volume T id) _ c h in
      let (lvstore, v, stored, last) = >>=-eq-done (get_lvstore T id) _ u rest in
      ground (arith, last, volume_map-new_initiator id lvstore b)
