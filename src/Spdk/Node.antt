-- ===== src/Spdk/Node.antt =====
-- util/nvmf.go: the storage node and its volumes; util/jsonrpc.go `NewSpdkNode`.
use nvmeof_csi.Base.{
  String, ◌<>◌, [], ◌∷◌, ◌==◌, string_eq, if◌then◌else◌, plain, pure, ◌>>=◌, attempt, Result, ok,
  err,
}
use nvmeof_csi.Base.Decimal.{format_int}
use nvmeof_csi.Base.Dict.{Dict}
use nvmeof_csi.Base.Int.{ℤ, mul_int64}
use nvmeof_csi.Base.Text.{lower_text}
use nvmeof_csi.Rpc.Call.{Transport, BDev}
use nvmeof_csi.Rpc.Volumes.{
  Call, create_lvol, clone_lvol, get_volume, delete_lvol, snapshot, get_lvstore,
}

-- The constant fields of `nodeNVMf`, with the URL of its client.
pub record NodeNvmf : Type 0 where
  pub rpc_url : String
  pub target_type : String
  pub target_addr : String
  pub target_port : String

-- `newNVMf`
unfoldable pub new_nvmf : (rpc_url target_type target_addr : String) → NodeNvmf
new_nvmf url type addr = record {
  rpc_url = url;
  target_type = type;
  target_addr = addr;
  target_port = "4420";
}

-- `NewSpdkNode`, without the credentials.
unfoldable pub new_spdk_node : (rpc_url target_type target_addr : String) → Result NodeNvmf
unfolding new_nvmf lower_text
new_spdk_node url type addr =
    if lower_text type == "nvme-rdma"
    then ok (new_nvmf url "RDMA" addr)
    else if lower_text type == "nvme-tcp"
    then ok (new_nvmf url "TCP" addr)
    else err (plain ("unknown transport: " <> type))

-- `rpcClient.info`
unfoldable pub client_info : NodeNvmf → String
client_info node = node.rpc_url

-- `Info`
unfoldable pub info : NodeNvmf → String
info node = client_info node

-- `getVolumeModel`
unfoldable pub volume_model : String → String
volume_model id = id

-- `getVolumeNqn`
unfoldable pub volume_nqn : String → String
unfolding volume_model
volume_nqn id = "nqn.2020-04.io.spdk.csi:uuid:" <> volume_model id

-- The alias of a volume.
abbrev pub alias : (lvs_name lvol_name : String) → String
alias lvs_name lvol_name = lvs_name <> ("/" <> lvol_name)

-- The map that `VolumeInfo` returns.
unfoldable pub volume_map : NodeNvmf → (id lvstore : String) → BDev → Dict
unfolding format_int
volume_map node id lvstore lvol =
    ("targetType", node.target_type)
    ∷ ("targetAddr", node.target_addr)
    ∷ ("targetPort", node.target_port)
    ∷ ("nqn", volume_nqn id)
    ∷ ("model", volume_model id)
    ∷ ("lvolSize", format_int (mul_int64 lvol.block_size lvol.num_blocks))
    ∷ ("lvstore", lvstore)
    ∷ []

module _ (T : Transport) where
  -- `VolumeInfo`
  unfoldable pub volume_info : NodeNvmf → String → Call T Dict
  volume_info node id = do
    lvol ← get_volume T id
    lvstore ← get_lvstore T id
    pure (volume_map node id lvstore lvol)

  -- `lvol, err := getVolume(alias); if err == nil { return lvol.UUID }` and what follows otherwise.
  unfoldable pub unless_exists : String → Call T String → Call T String
  unless_exists name make = do
    found ← attempt (get_volume T name)
    elim found [ ok lvol ↦ pure lvol.uuid | err _ ↦ make ]

  -- `CreateVolume`
  unfoldable pub create_volume : (lvol_name lvs_name : String) → ℤ → Call T String
  create_volume lvol_name lvs_name size_mib =
      unless_exists (alias lvs_name lvol_name) (create_lvol T lvol_name lvs_name size_mib)

  -- `CloneVolume`
  unfoldable pub clone_volume : (lvol_name lvs_name source : String) → Call T String
  clone_volume lvol_name lvs_name source =
      unless_exists (alias lvs_name lvol_name) (clone_lvol T lvol_name source)

  -- `GetVolume`
  unfoldable pub find_volume : (lvol_name lvs_name : String) → Call T String
  find_volume lvol_name lvs_name = do lvol ← get_volume T (alias lvs_name lvol_name); pure lvol.uuid

  -- `CreateSnapshot`
  unfoldable pub create_snapshot : (lvol_name snapshot_name : String) → Call T String
  create_snapshot lvol_name snapshot_name = do
    lvs_name ← get_lvstore T lvol_name
    unless_exists (alias lvs_name snapshot_name) (snapshot T lvol_name snapshot_name)

  -- `DeleteVolume`
  unfoldable pub delete_volume : String → Call T (Unit {0})
  delete_volume id = delete_lvol T id
