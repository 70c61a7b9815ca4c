-- ===== src/Driver/Node/Publish.antt =====
-- driver/nodeserver.go: `NodePublishVolume` and `NodeUnpublishVolume`.
use nvmeof_csi.Base.{
  String, Bool, true, false, Option, none, some, ◌<>◌, status, internal, invalid_argument, message,
  Action, fail, ◌>>=◌, on_error, lift, if◌then◌else◌,
}
use nvmeof_csi.Base.FilePath.{join}
use nvmeof_csi.Host.{Host}
use nvmeof_csi.Locks.{Server, with_lock}
use nvmeof_csi.Driver.Node.MountPoint.{create_mount_point, delete_mount_point}
use nvmeof_csi.Driver.Node.Stage.{AccessType, block, mounted, unset, as_internal}

-- csi.NodePublishVolumeRequest
pub record NodePublishVolumeRequest : Type 0 where
  pub volume_id : String
  pub volume_capability : Option AccessType
  pub staging_target_path : String
  pub target_path : String

-- `req.GetVolumeCapability().GetBlock() != nil`
unfoldable pub is_block : Option AccessType → Bool
is_block none = false
is_block (some block) = true
is_block (some mounted) = false
is_block (some unset) = false

module _ (H : Host) where
  -- The two calls that publish a block volume. Whether the target is mounted already is not asked.
  unfoldable pub bind_target : (staging target : String) → Action H.State (Unit {0})
  bind_target staging target = do
    _ ←
        on_error (λ e. status internal ("failed to create target mount point: " <> message e))
          (create_mount_point H target)
    on_error (λ e. status internal ("bind mount failed: " <> message e))
        (lift (H.mount staging target))

  -- `NodePublishVolume` while it holds the volume's lock.
  unfoldable pub node_publish_volume : NodePublishVolumeRequest → Action H.State (Unit {0})
  node_publish_volume req =
      if is_block req.volume_capability
      then bind_target (join req.staging_target_path req.volume_id) req.target_path
      else fail (status invalid_argument "only block volumes supported")

  -- `NodePublishVolume`
  unfoldable pub handle_node_publish_volume :
      NodePublishVolumeRequest → Action (Server H.State) (Unit {0})
  handle_node_publish_volume req = with_lock req.volume_id (node_publish_volume req)

  -- `NodeUnpublishVolume` while it holds the volume's lock.
  unfoldable pub node_unpublish_volume : (target_path : String) → Action H.State (Unit {0})
  node_unpublish_volume target = on_error as_internal (delete_mount_point H target)

  -- `NodeUnpublishVolume`
  unfoldable pub handle_node_unpublish_volume :
      (volume_id target_path : String) → Action (Server H.State) (Unit {0})
  handle_node_unpublish_volume id target = with_lock id (node_unpublish_volume target)
