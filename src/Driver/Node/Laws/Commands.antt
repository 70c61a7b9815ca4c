-- ===== src/Driver/Node/Laws/Commands.antt =====
-- driver/nodeserver.go: the nvme commands that staging and unstaging run.
use nvmeof_csi.Base.{
  String, ◌≡◌, Bool, true, false, ◌∷◌, ok, Error, arith, done, failed, final, ◌>>=◌,
}
use nvmeof_csi.Base.FilePath.{dir}
use nvmeof_csi.Host.{Host}
use nvmeof_csi.Host.Laws.{CommandView}
use nvmeof_csi.Initiator.{
  Initiator, connect, disconnect, new_initiator, connect_command, disconnect_command,
}
use nvmeof_csi.Initiator.Waiting.{connect-commands, disconnect-commands}
use nvmeof_csi.Driver.Node.MountPoint.{
  is_staged, create_target, create_missing, create_mount_point, stage_volume, remove_file,
  remove_parent, delete_existing, delete_mount_point,
}
use nvmeof_csi.Driver.Node.Stage.{
  NodeStageVolumeRequest, as_internal, staging_path, staged_path, disconnecting, stage_device,
  stage_with, stage_new, node_stage_volume, node_unstage_volume,
}

module _ (H : Host) (C : CommandView H) where
  create_target-commands :
      (p : String) (s : H.State) → C.commands (final (create_target H p s)) ≡ C.commands s
  unfolding create_target
  create_target-commands p s = ground (arith, C.create_file_keeps p s)

  create_missing-commands :
      (p : String) (s : H.State) → C.commands (final (create_missing H p s)) ≡ C.commands s
  unfolding create_missing
  create_missing-commands p s =
      ground
        (arith, C.mkdir_all_keeps (dir p) s, create_target-commands p (H.mkdir_all (dir p) s).1)

  create_mount_point-commands :
      (p : String) (s : H.State) → C.commands (final (create_mount_point H p s)) ≡ C.commands s
  unfolding create_mount_point
  create_mount_point-commands p s = ground (arith, create_missing-commands p s)

  -- `stageVolume` runs no command.
  stage_volume-commands :
      (device p : String) (s : H.State)
      → C.commands (final (stage_volume H device p s)) ≡ C.commands s
  unfolding stage_volume
  stage_volume-commands device p s = ground (
    arith,
    create_mount_point-commands p s,
    C.mount_keeps device p (final (create_mount_point H p s)),
  )

  remove_file-commands :
      (p : String) (s : H.State) → C.commands (final (remove_file H p s)) ≡ C.commands s
  unfolding remove_file
  remove_file-commands p s = ground (arith, C.remove_keeps p s)

  remove_parent-commands :
      (p : String) (s : H.State) → C.commands (final (remove_parent H p s)) ≡ C.commands s
  unfolding remove_parent
  remove_parent-commands p s = C.remove_keeps (dir p) s

  delete_tail-commands :
      (p : String) (s : H.State)
      → C.commands (final ((remove_file H p >>= λ _. remove_parent H p) s)) ≡ C.commands s
  delete_tail-commands p s =
      ground (arith, remove_file-commands p s, remove_parent-commands p (final (remove_file H p s)))

  delete_existing-commands :
      (b : Bool) (p : String) (s : H.State)
      → C.commands (final (delete_existing H b p s)) ≡ C.commands s
  unfolding delete_existing
  delete_existing-commands true p s = delete_tail-commands p s
  delete_existing-commands false p s =
      ground (arith, C.unmount_keeps p s, delete_tail-commands p (H.unmount p s).1)

  delete_mount_point-commands :
      (p : String) (s : H.State) → C.commands (final (delete_mount_point H p s)) ≡ C.commands s
  unfolding delete_mount_point
  delete_mount_point-commands p s =
      ground (arith, delete_existing-commands true p s, delete_existing-commands false p s)

  -- Unstaging runs no command on any outcome: the connection that staging made is kept.
  node_unstage_volume-commands :
      (id staging : String) (s : H.State)
      → C.commands (final (node_unstage_volume H id staging s)) ≡ C.commands s
  unfolding node_unstage_volume is_staged
  node_unstage_volume-commands id staging s =
      ground (arith, delete_mount_point-commands (staging_path staging id) s)

module _ (H : Host) (C : CommandView H) (req : NodeStageVolumeRequest) (s : H.State) {i : Initiator}
    {device : String} {t : H.State} where
  stage_new-failed :
      {e : Error} {u : H.State}
      → new_initiator req.publish_context ≡ ok i
      → connect H i s ≡ done device t
      → stage_volume H device (staged_path req) t ≡ failed e u
      → stage_new H req s ≡ failed (as_internal e) (final (disconnect H i u))
  unfolding stage_new stage_with stage_device disconnecting
  stage_new-failed made connected bad = ground arith

  -- A volume that is not staged, a publish context that makes an initiator, and a device that
  -- connects: if the staging then fails, `NodeStageVolume` returns the failure as an Internal error,
  -- and exactly two commands were run, the connection and then the disconnection of the same target.
  pub node_stage_volume_disconnects :
      {e : Error} {u : H.State}
      → is_staged H (staged_path req) s ≡ done false s
      → new_initiator req.publish_context ≡ ok i
      → connect H i s ≡ done device t
      → stage_volume H device (staged_path req) t ≡ failed e u
      → (v : H.State) × (node_stage_volume H req s ≡ failed (as_internal e) v)
        × (C.commands v ≡ disconnect_command i ∷ connect_command i ∷ C.commands s)
  unfolding node_stage_volume
  node_stage_volume_disconnects {e} {u} fresh made connected bad = (
    final (disconnect H i u),
    ground (arith, stage_new-failed made connected bad),
    ground (
      arith,
      disconnect-commands H C i u,
      stage_volume-commands H C device (staged_path req) t,
      connect-commands H C i s,
      connected,
      bad,
    ),
  )

  -- A volume that is not staged, a publish context that makes an initiator, and a device that
  -- connects: if the staging then succeeds, so does `NodeStageVolume`, with the connection as the one
  -- command run; and a `NodeUnstageVolume` after it, whatever it returns, runs no further command.
  pub node_stage_volume_keeps_connection :
      {r : Unit {0}} {u : H.State}
      → is_staged H (staged_path req) s ≡ done false s
      → new_initiator req.publish_context ≡ ok i
      → connect H i s ≡ done device t
      → stage_volume H device (staged_path req) t ≡ done r u
      → (node_stage_volume H req s ≡ done tt u)
        × (C.commands (final (node_unstage_volume H req.volume_id req.staging_target_path u))
            ≡ connect_command i ∷ C.commands s)
  unfolding node_stage_volume stage_new stage_with stage_device disconnecting
  node_stage_volume_keeps_connection {r} {u} fresh made connected good = (
    ground (arith, good),
    ground (
      arith,
      node_unstage_volume-commands H C req.volume_id req.staging_target_path u,
      stage_volume-commands H C device (staged_path req) t,
      connect-commands H C i s,
      connected,
      good,
    ),
  )
