-- ===== src/Tests/Info.antt =====
-- What a small storage target tells of a volume.
use nvmeof_csi.Base.{◌≡◌, refl, [], ◌∷◌, some, err, plain, done, final}
use nvmeof_csi.Base.Int.{pos}
use nvmeof_csi.Base.Dict.{Dict}
use nvmeof_csi.Rpc.Call.{Transport, LvStoreInfo, call, checked, read_answer, read_response, next_id}
use nvmeof_csi.Rpc.Volumes.{
  get_volume, first_volume, first_result, get_lvstore, store_name, lv_stores, lv_store, find_store,
}
use nvmeof_csi.Initiator.{new_initiator}
use nvmeof_csi.Spdk.Node.{volume_info, volume_map}
use nvmeof_csi.Spdk.Info.{volume_info-new_initiator}
use nvmeof_csi.Tests.Target.{answer, target, client, node, bdev}

abbrev store : LvStoreInfo
store = record {
  free_clusters = pos 10;
  cluster_size = pos 4194304;
  total_clusters = pos 20;
  name = "lvs0";
  uuid = "lvs";
}

-- The target with the store of its volume.
abbrev storing : Transport
storing = record target { decode_lvstores = answer (store ∷ []) }

abbrev map : Dict
map = volume_map node "4c1d" "lvs0" bdev

info_lem :
    volume_info storing node "4c1d" (client [])
    ≡ done map (final (volume_info storing node "4c1d" (client [])))
unfolding volume_info get_volume first_volume first_result get_lvstore store_name lv_stores lv_store
    find_store checked call read_answer read_response next_id
info_lem = refl

volume_info-new_initiator_example :
    new_initiator (some map) ≡ err (plain "publishContext missing required fields")
volume_info-new_initiator_example =
    volume_info-new_initiator storing node "4c1d" (client []) info_lem
