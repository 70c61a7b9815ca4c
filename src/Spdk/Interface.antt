-- ===== src/Spdk/Interface.antt =====
-- util/jsonrpc.go: `SpdkNode`, what the driver may ask of a storage node, and util/nvmf.go that implements it.
use nvmeof_csi.Base.{String, List}
use nvmeof_csi.Base.Dict.{Dict}
use nvmeof_csi.Base.Int.{ℤ}
use nvmeof_csi.Rpc.Call.{Transport}
use nvmeof_csi.Rpc.Volumes.{Call, LvStore, lv_stores}
use nvmeof_csi.Spdk.Node.{
  NodeNvmf, info, volume_info, create_volume, clone_volume, find_volume, create_snapshot,
  delete_volume,
}
use nvmeof_csi.Spdk.Publishing.{publish_volume, unpublish_volume}

module _ (T : Transport) where
  pub record SpdkNode : Type 0 where
    pub info : String
    pub lv_stores : Call T (List LvStore)
    pub volume_info : String → Call T Dict
    pub create_volume : (lvol_name lvs_name : String) → ℤ → Call T String
    pub clone_volume : (lvol_name lvs_name source : String) → Call T String
    pub get_volume : (lvol_name lvs_name : String) → Call T String
    pub delete_volume : String → Call T (Unit {0})
    pub publish_volume : String → Call T (Unit {0})
    pub unpublish_volume : String → Call T (Unit {0})
    pub create_snapshot : (lvol_name snapshot_name : String) → Call T String

  -- `LvStores`
  unfoldable node_lv_stores : NodeNvmf → Call T (List LvStore)
  node_lv_stores node = lv_stores T

  -- The methods of `*nodeNVMf`.
  unfoldable as_spdk_node : NodeNvmf → SpdkNode
  as_spdk_node node = record {
    info = info node;
    lv_stores = node_lv_stores node;
    volume_info = volume_info T node;
    create_volume = create_volume T;
    clone_volume = clone_volume T;
    get_volume = find_volume T;
    delete_volume = delete_volume T;
    publish_volume = publish_volume T node;
    unpublish_volume = unpublish_volume T node;
    create_snapshot = create_snapshot T;
  }
