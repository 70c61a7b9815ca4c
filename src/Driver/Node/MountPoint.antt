-- ===== src/Driver/Node/MountPoint.antt =====
-- driver/nodeserver.go: `isStaged`, `createMountPoint`, `deleteMountPoint` and `stageVolume`.
use nvmeof_csi.Base.{
  String, Bool, false, not, none, some, if◌then◌else◌, ok, err, wrapped, Action, done, failed, pure,
  ◌>>=◌, lift, on_error, ◌<>◌,
}
use nvmeof_csi.Base.FilePath.{dir}
use nvmeof_csi.Host.{Host, is_not_exist}

module _ (H : Host) where
  -- `isStaged`. The value beside an error is not read.
  unfoldable pub is_staged : String → Action H.State Bool
  is_staged path s = elim (H.is_not_mount_point path s) [
    | ok unmounted ↦ done (not unmounted) s
    | err e ↦ if is_not_exist e then done false s else failed e s
  ]

  -- The file that a block device is mounted on: `os.Stat`, and `os.OpenFile` where it is missing.
  unfoldable pub create_target : String → Action H.State (Unit {0})
  create_target path s = elim (H.stat path s) [
    | none ↦ done tt s
    | some e ↦
        if is_not_exist e
        then on_error (wrapped ("failed to create block device target file " <> path))
            (lift (H.create_file path)) s
        else done tt s
  ]

  -- The branch of `createMountPoint` for a path that does not exist.
  unfoldable pub create_missing : String → Action H.State Bool
  create_missing path = do
    _ ←
        on_error (wrapped ("failed to create parent dir for " <> path))
          (lift (H.mkdir_all (dir path)))
    _ ← create_target path
    pure false

  -- `createMountPoint`: was the path a mount point already?
  unfoldable pub create_mount_point : String → Action H.State Bool
  create_mount_point path s = elim (H.is_not_mount_point path s) [
    | ok unmounted ↦ done (not unmounted) s
    | err e ↦ if is_not_exist e then create_missing path s else failed e s
  ]

  -- `stageVolume`
  unfoldable pub stage_volume : (device staging : String) → Action H.State (Unit {0})
  stage_volume device staging = do
    mounted ← create_mount_point staging
    if mounted
        then pure tt
        else on_error (wrapped "failed to bind mount block device") (lift (H.mount device staging))

  -- `os.Remove` of the mount point; that it is gone already is no error.
  unfoldable pub remove_file : String → Action H.State (Unit {0})
  remove_file path s =
      let (answer, t) = H.remove path s in
      elim answer [
        | ok _ ↦ done tt t
        | err e ↦
            if is_not_exist e
            then done tt t
            else failed (wrapped ("failed to remove mount point file " <> path) e) t
      ]

  -- `os.Remove` of the parent directory, whose errors are at most logged.
  unfoldable pub remove_parent : String → Action H.State (Unit {0})
  remove_parent path s = let (answer, t) = H.remove (dir path) s in done tt t

  -- The part of `deleteMountPoint` that needs the path to exist.
  unfoldable pub delete_existing : Bool → String → Action H.State (Unit {0})
  delete_existing unmounted path = do
    _ ←
        (if unmounted
          then pure tt
          else on_error (wrapped "failed to unmount") (lift (H.unmount path)))
    _ ← remove_file path
    remove_parent path

  -- `deleteMountPoint`
  unfoldable pub delete_mount_point : String → Action H.State (Unit {0})
  delete_mount_point path s = elim (H.is_not_mount_point path s) [
    | ok unmounted ↦ delete_existing unmounted path s
    | err e ↦
        if is_not_exist e then done tt s else failed (wrapped "failed to check mount point" e) s
  ]
