-- ===== src/Driver/Node/Laws/Staging.antt =====
-- driver/nodeserver.go: `NodeStageVolume` and `NodeUnstageVolume` on one volume.
use nvmeof_csi.Base.{
  String, ◌≡◌, refl, ap₂, ◌∙◌, ◌⊎◌, inl, inr, Bool, true, false, ok, arith, Run, done, failed,
  halted, >>=-eq-done, on_error-eq-done, if◌then◌else◌, pure, on_error, returned,
}
use nvmeof_csi.Host.{Host}
use nvmeof_csi.Host.Laws.{IsAbsent, MountView}
use nvmeof_csi.Initiator.{Initiator, connect, new_initiator}
use nvmeof_csi.Locks.{Server}
use nvmeof_csi.Locks.Laws.{AllFree, with_lock-eq-done, with_lock_done, relocked, relocked-AllFree}
use nvmeof_csi.Driver.Node.MountPoint.{is_staged, stage_volume, delete_mount_point}
use nvmeof_csi.Driver.Node.Stage.{
  NodeStageVolumeRequest, check_dir_exists, validate_node_stage_volume_request, as_internal,
  unstage_error, staging_path, disconnecting, stage_device, stage_with, stage_new,
  node_stage_volume, handle_node_stage_volume, node_unstage_volume, handle_node_unstage_volume,
}
use nvmeof_csi.Driver.Node.Laws.Mounts.{stage_volume-mounted, delete_mount_point-IsAbsent}

module _ (H : Host) where
  pub is_staged-eq-done :
      (path : String) (s : H.State) {b : Bool} {t : H.State}
      → is_staged H path s ≡ done b t
      → (t ≡ s) × (b ≡ true → H.is_not_mount_point path s ≡ ok false)
  unfolding is_staged
  is_staged-eq-done path s h = ground arith

  is_staged_mounted :
      (path : String) (s : H.State)
      → H.is_not_mount_point path s ≡ ok false
      → is_staged H path s ≡ done true s
  unfolding is_staged
  is_staged_mounted path s h = ground arith

  is_staged_absent :
      (path : String) (s : H.State) → IsAbsent H path s → is_staged H path s ≡ done false s
  unfolding is_staged
  is_staged_absent path s (e, absent, missing) = ground arith

  pub disconnecting-eq-done :
      (i : Initiator) (r : Run H.State (Unit {0})) {a : Unit {0}} {t : H.State}
      → disconnecting H i r ≡ done a t
      → r ≡ done a t
  unfolding disconnecting
  disconnecting-eq-done i (done a u) h = h
  disconnecting-eq-done i (failed e u) h = cc
  disconnecting-eq-done i (halted k u) h = cc

module _ (H : Host) (V : MountView H) (req : NodeStageVolumeRequest) where
  abbrev path : String
  path = staging_path req.staging_target_path req.volume_id

  stage_new-mounted :
      (s : H.State) {r : Unit {0}} {t : H.State}
      → stage_new H req s ≡ done r t
      → H.is_not_mount_point path t ≡ ok false
  unfolding stage_new stage_with stage_device
  stage_new-mounted s h =
      let (i, u, made, rest) =
        >>=-eq-done (on_error as_internal (returned (new_initiator req.publish_context)))
          (stage_with H req) s h in
      let (device, v, connected, last) =
        >>=-eq-done (on_error as_internal (connect H i)) (stage_device H req i) u rest in
      stage_volume-mounted H V device path v (
        on_error-eq-done as_internal (stage_volume H device path) v
          (disconnecting-eq-done H i _ last))

  stage_branch-mounted :
      (b : Bool) (s : H.State) {r : Unit {0}} {t : H.State}
      → (if b then pure tt else stage_new H req) s ≡ done r t
      → (b ≡ true → H.is_not_mount_point path s ≡ ok false)
      → H.is_not_mount_point path t ≡ ok false
  stage_branch-mounted true s h k = ground (arith, k refl)
  stage_branch-mounted false s h k = stage_new-mounted s h

  node_stage_volume-mounted :
      (s : H.State) {r : Unit {0}} {t : H.State}
      → node_stage_volume H req s ≡ done r t
      → H.is_not_mount_point path t ≡ ok false
  unfolding node_stage_volume
  node_stage_volume-mounted s h =
      let (b, u, asked, rest) =
        >>=-eq-done (on_error as_internal (is_staged H path))
          (λ b. if b then pure tt else stage_new H req) s h in
      let (same, seen) =
        is_staged-eq-done H path s (on_error-eq-done as_internal (is_staged H path) s asked) in
      stage_branch-mounted b u rest (λ e. rw same (seen e))

  node_stage_volume_again :
      (s : H.State) → H.is_not_mount_point path s ≡ ok false → node_stage_volume H req s ≡ done tt s
  unfolding node_stage_volume
  node_stage_volume_again s h = ground (arith, is_staged_mounted H path s)

  pub handle_node_stage_volume-eq-done :
      (s : Server H.State) {r : Unit {0}} {t : Server H.State}
      → AllFree s.locks
      → handle_node_stage_volume H req s ≡ done r t
      → (node_stage_volume H req s.world ≡ done r t.world) × AllFree t.locks
  unfolding handle_node_stage_volume
  handle_node_stage_volume-eq-done s {r} {t} free h =
      with_lock-eq-done req.volume_id (node_stage_volume H req) s {a = r} {t = t} free
        (ground arith)

  -- A repeated request passes the validation where `os.Stat` answers for its directory as before.
  validation_again :
      (s t : H.State)
      → H.stat req.staging_target_path t ≡ H.stat req.staging_target_path s
      → validate_node_stage_volume_request H req t ≡ validate_node_stage_volume_request H req s
  unfolding validate_node_stage_volume_request check_dir_exists
  validation_again s t same = ground (arith, same)

  handle_node_stage_volume_valid :
      (s : Server H.State) {r : Unit {0}} {t : Server H.State}
      → handle_node_stage_volume H req s ≡ done r t
      → validate_node_stage_volume_request H req s.world ≡ ok tt
  unfolding handle_node_stage_volume
  handle_node_stage_volume_valid s h = ground arith

  -- On a machine that keeps the mount rules, with every mutex free: if `NodeStageVolume` succeeds, the
  -- staging path is a mount point and every mutex is free again. Where `os.Stat` then answers for the
  -- directory of the request as it did before, the same `NodeStageVolume` succeeds once more, changes
  -- nothing on the machine, and leaves every mutex free.
  pub handle_node_stage_volume_idempotent :
      (s : Server H.State) {r : Unit {0}} {t : Server H.State}
      → AllFree s.locks
      → handle_node_stage_volume H req s ≡ done r t
      → H.stat req.staging_target_path t.world ≡ H.stat req.staging_target_path s.world
      → (H.is_not_mount_point path t.world ≡ ok false)
        × AllFree t.locks
        × ((u : Server H.State) × (handle_node_stage_volume H req t ≡ done tt u)
            × (u.world ≡ t.world)
            × AllFree u.locks)
  unfolding handle_node_stage_volume
  handle_node_stage_volume_idempotent s {r} {t} free h same =
      let (ran, free') = handle_node_stage_volume-eq-done s free h in
      let mounted = node_stage_volume-mounted s.world ran in
      let valid = validation_again s.world t.world same ∙ handle_node_stage_volume_valid s h in
      let again =
        with_lock_done req.volume_id (node_stage_volume H req) t free'
          (node_stage_volume_again t.world mounted) in
      (
        mounted,
        free',
        (
          record { locks = relocked req.volume_id t.locks; world = t.world },
          ground (arith, valid, again),
          refl,
          relocked-AllFree req.volume_id t.locks free',
        ),
      )

module _ (H : Host) (V : MountView H) (id staging : String) where
  abbrev unstaged_path : String
  unstaged_path = staging_path staging id

  pub unstage_branch :
      (b : Bool) (s : H.State) {r : Unit {0}} {t : H.State}
      → (if b then on_error (unstage_error id) (delete_mount_point H unstaged_path) else pure tt) s
        ≡ done r t
      → ((b ≡ true) × (delete_mount_point H unstaged_path s ≡ done r t)) ⊎ ((b ≡ false) × (t ≡ s))
  unstage_branch true s h = ground arith
  unstage_branch false s h = ground arith

  -- After an unstaging that succeeds the path is not staged.
  node_unstage_volume-unstaged :
      (s : H.State) {r : Unit {0}} {t : H.State}
      → node_unstage_volume H id staging s ≡ done r t
      → is_staged H unstaged_path t ≡ done false t
  unfolding node_unstage_volume
  node_unstage_volume-unstaged s {t = t} h =
      let (b, u, asked, rest) =
        >>=-eq-done (on_error as_internal (is_staged H unstaged_path))
          (λ b.
            if b then on_error (unstage_error id) (delete_mount_point H unstaged_path) else pure tt)
          s h in
      let plain = on_error-eq-done as_internal (is_staged H unstaged_path) s asked in
      unstaged_end b u plain (unstage_branch b u rest)
    where
      unstaged_end :
          (b : Bool) (u : H.State)
          → is_staged H unstaged_path s ≡ done b u
          → ((b ≡ true) × (delete_mount_point H unstaged_path u ≡ done tt t))
            ⊎ ((b ≡ false) × (t ≡ u))
          → is_staged H unstaged_path t ≡ done false t
      unstaged_end b u asked (inl (staged, deleted)) =
          is_staged_absent H unstaged_path t
            (delete_mount_point-IsAbsent H V unstaged_path u deleted).0
      unstaged_end b u asked (inr (e, same)) =
          let back = (is_staged-eq-done H unstaged_path s asked).0 in
          rw (same, back) (asked ∙ ap₂ done e back)

  -- On a machine that keeps the mount rules, with every mutex free: if `NodeUnstageVolume` succeeds,
  -- the staging path is not a mount point, every mutex is free again, and unstaging the volume once
  -- more succeeds and changes nothing on the machine.
  pub handle_node_unstage_volume_idempotent :
      (s : Server H.State) {r : Unit {0}} {t : Server H.State}
      → AllFree s.locks
      → handle_node_unstage_volume H id staging s ≡ done r t
      → (is_staged H unstaged_path t.world ≡ done false t.world)
        × AllFree t.locks
        × (node_unstage_volume H id staging t.world ≡ done tt t.world)
  unfolding handle_node_unstage_volume
  handle_node_unstage_volume_idempotent s {r} {t} free h =
      let (ran, free') =
        with_lock-eq-done id (node_unstage_volume H id staging) s {a = r} {t = t} free h in
      let gone = node_unstage_volume-unstaged s.world ran in
      (gone, free', unfold node_unstage_volume in ground arith)
