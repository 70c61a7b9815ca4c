-- ===== src/Driver/Node/Stage.antt =====
-- driver/nodeserver.go: `NodeStageVolume` and `NodeUnstageVolume`; util/validate.go.
use nvmeof_csi.Base.{
  String, Bool, true, false, Option, none, some, ◌==◌, string_eq, if◌then◌else◌, Result, ok, err,
  status, internal, invalid_argument, Error, message, Action, Run, done, failed, halted, pure,
  ◌>>=◌, on_error, returned, final, ◌<>◌,
}
use nvmeof_csi.Base.Dict.{Dict}
use nvmeof_csi.Host.{Host, is_not_exist}
use nvmeof_csi.Initiator.{Initiator, new_initiator, connect, disconnect}
use nvmeof_csi.Locks.{Server, with_lock}
use nvmeof_csi.Driver.Node.MountPoint.{is_staged, stage_volume, delete_mount_point}

-- The `access_type` of a csi.VolumeCapability.
pub data AccessType : Type 0 where
  block mounted unset : AccessType

-- csi.NodeStageVolumeRequest. `none` is a nil pointer, or a nil map.
pub record NodeStageVolumeRequest : Type 0 where
  pub volume_id : String
  pub volume_capability : Option AccessType
  pub staging_target_path : String
  pub publish_context : Option Dict

-- status.Error(codes.Internal, err.Error())
abbrev pub as_internal : Error → Error
as_internal e = status internal (message e)

abbrev pub unstage_error : (volume_id : String) → Error → Error
unstage_error id e = status internal ("unstage volume " <> (id <> (" failed: " <> message e)))

-- The directory in which the request stages its volume.
abbrev pub staging_path : (parent volume_id : String) → String
staging_path parent id = parent <> ("/" <> id)

abbrev pub staged_path : NodeStageVolumeRequest → String
staged_path req = staging_path req.staging_target_path req.volume_id

module _ (H : Host) where
  -- `checkDirExists`
  unfoldable pub check_dir_exists : String → H.State → Bool
  check_dir_exists path s = elim (H.stat path s) [
    | none ↦ true
    | some e ↦ if is_not_exist e then false else true
  ]

  -- `ValidateNodeStageVolumeRequest`
  unfoldable pub validate_node_stage_volume_request :
      NodeStageVolumeRequest → H.State → Result (Unit {0})
  validate_node_stage_volume_request req s = elim req.volume_capability [
    | none ↦ err (status invalid_argument "volume capability missing in request")
    | some c ↦
        if req.volume_id == ""
        then err (status invalid_argument "volume ID missing in request")
        else if req.staging_target_path == ""
        then err (status invalid_argument "staging target path missing in request")
        else if check_dir_exists req.staging_target_path s
        then ok tt
        else err (
            status invalid_argument
              ("staging path " <> (req.staging_target_path <> " does not exist on node")))
  ]

  -- The deferred function of `NodeStageVolume`: on an error disconnect, and drop its own error.
  unfoldable pub disconnecting : Initiator → Run H.State (Unit {0}) → Run H.State (Unit {0})
  disconnecting i (done a t) = done a t
  disconnecting i (failed e t) = failed e (final (disconnect H i t))
  disconnecting i (halted h t) = halted h t

  -- The end of `NodeStageVolume`, with the device connected and the deferred function registered.
  unfoldable pub stage_device :
      NodeStageVolumeRequest → Initiator → (device : String) → Action H.State (Unit {0})
  stage_device req i device s =
      disconnecting i (on_error as_internal (stage_volume H device (staged_path req)) s)

  -- `NodeStageVolume` from `Connect` on.
  unfoldable pub stage_with : NodeStageVolumeRequest → Initiator → Action H.State (Unit {0})
  stage_with req i = on_error as_internal (connect H i) >>= stage_device req i

  -- `NodeStageVolume` for a volume that is not staged.
  unfoldable pub stage_new : NodeStageVolumeRequest → Action H.State (Unit {0})
  stage_new req =
      on_error as_internal (returned (new_initiator req.publish_context)) >>= stage_with req

  -- `NodeStageVolume` while it holds the volume's lock.
  unfoldable pub node_stage_volume : NodeStageVolumeRequest → Action H.State (Unit {0})
  node_stage_volume req = do
    staged ← on_error as_internal (is_staged H (staged_path req))
    if staged then pure tt else stage_new req

  -- `NodeStageVolume`
  unfoldable pub handle_node_stage_volume :
      NodeStageVolumeRequest → Action (Server H.State) (Unit {0})
  handle_node_stage_volume req s = elim (validate_node_stage_volume_request req s.world) [
    | err e ↦ failed e s
    | ok _ ↦ with_lock req.volume_id (node_stage_volume req) s
  ]

  -- `NodeUnstageVolume` while it holds the volume's lock.
  unfoldable pub node_unstage_volume : (volume_id staging : String) → Action H.State (Unit {0})
  node_unstage_volume id staging = do
    staged ← on_error as_internal (is_staged H (staging_path staging id))
    if staged
        then on_error (unstage_error id) (delete_mount_point H (staging_path staging id))
        else pure tt

  -- `NodeUnstageVolume`
  unfoldable pub handle_node_unstage_volume :
      (volume_id staging : String) → Action (Server H.State) (Unit {0})
  handle_node_unstage_volume id staging = with_lock id (node_unstage_volume id staging)
