-- ===== src/Driver/Node/Table/Steps.antt =====
-- driver/nodeserver.go: the mounts on every path after each step of a handler that succeeds.
use nvmeof_csi.Base.{
  ℕ, zero, suc, ◌+◌, String, ◌≡◌, refl, Bool, true, false, Bool-cases, inl, inr, nat_eq, string_eq,
  ◌==◌, eq_iff, if◌then◌else◌, ok, err, arith, done, final, on_error, lift, pure, wrapped,
  >>=-eq-done, on_error-eq-done, lift-eq-done,
}
use nvmeof_csi.Base.FilePath.{dir}
use nvmeof_csi.Host.{Host}
use nvmeof_csi.Host.Laws.{MountTable, MountView}
use nvmeof_csi.Initiator.{
  Initiator, connect, connect_command, device_glob, exec_with_timeout, wait_for_device_ready,
  poll_ready,
}
use nvmeof_csi.Driver.Node.MountPoint.{
  create_mount_point, create_missing, stage_volume, remove_file, remove_parent, delete_existing,
  delete_mount_point,
}
use nvmeof_csi.Driver.Node.Laws.Mounts.{
  create_mount_point-depth, delete_mount_point-IsAbsent, IsAbsent-depth,
}
use nvmeof_csi.Driver.Node.Table.{put}

module _ (H : Host) (V : MountView H) (M : MountTable H V) where
  -- A bind mount on a path.
  pub mount-depth :
      (source p : String) (s : H.State) {r : Unit {0}} {t : H.State}
      → H.mount source p s ≡ (ok r, t)
      → (q : String) → V.depth t q ≡ put p (V.depth s p + 1) (V.depth s) q
  mount-depth source p s h q = elim (Bool-cases (q == p)) [
    | inl same ↦ ground (arith, same, eq_iff q p, V.mount_adds source p s h)
    | inr other ↦ ground (arith, other, M.mount_others source p q s h other)
  ]

  poll_ready-depth :
      (rounds : ℕ) (pattern : String) (s : H.State) (q : String)
      → V.depth (final (poll_ready H rounds pattern s)) q ≡ V.depth s q
  unfolding poll_ready
  poll_ready-depth zero pattern s q = refl
  poll_ready-depth (suc rounds) pattern s q =
      ground (arith, M.sleep_keeps s q, poll_ready-depth rounds pattern (H.sleep s) q)

  pub connect-depth :
      (i : Initiator) (s : H.State) (q : String) → V.depth (final (connect H i s)) q ≡ V.depth s q
  unfolding connect exec_with_timeout wait_for_device_ready
  connect-depth i s q = ground (
    arith,
    M.exec_keeps (connect_command i) 40 s q,
    poll_ready-depth 21 (device_glob i) (H.exec (connect_command i) 40 s).1 q,
  )

  -- `createMountPoint` of a path without a mount says so.
  create_mount_point-unmounted :
      (p : String) (s : H.State) {b : Bool} {t : H.State}
      → V.depth s p ≡ 0
      → create_mount_point H p s ≡ done b t
      → b ≡ false
  unfolding create_mount_point create_missing
  create_mount_point-unmounted p s {b} {t} free h = ground (arith, M.unseen p s free)

  mounting :
      (device p : String) (b : Bool) (s : H.State) {r : Unit {0}} {t : H.State}
      → b ≡ false
      → (if b
            then pure tt
            else on_error (wrapped "failed to bind mount block device") (lift (H.mount device p)))
          s
        ≡ done r t
      → H.mount device p s ≡ (ok r, t)
  mounting device p true s e h = cc
  mounting device p false s e h =
      lift-eq-done (H.mount device p) s (
        on_error-eq-done (wrapped "failed to bind mount block device") (lift (H.mount device p)) s
          h)

  pub stage_volume-depth :
      (device p : String) (s : H.State) {r : Unit {0}} {t : H.State}
      → V.depth s p ≡ 0
      → stage_volume H device p s ≡ done r t
      → (q : String) → V.depth t q ≡ put p 1 (V.depth s) q
  unfolding stage_volume
  stage_volume-depth device p s {r} {t} free h q =
      let (b, u, created, rest) =
        >>=-eq-done (create_mount_point H p)
          (λ mounted.
            if mounted
            then pure tt
            else on_error (wrapped "failed to bind mount block device") (lift (H.mount device p)))
          s h in
      let kept = λ (x : String). create_mount_point-depth H V p x s in
      let bound = mounting device p b u (create_mount_point-unmounted p s free created) rest in
      ground (arith, mount-depth device p u bound q, kept p, kept q, created, free)

  unmounting-others :
      (unmounted : Bool) (p q : String) (s : H.State) {r : Unit {0}} {t : H.State}
      → (if unmounted then pure tt else on_error (wrapped "failed to unmount") (lift (H.unmount p)))
          s
        ≡ done r t
      → (q == p) ≡ false
      → V.depth t q ≡ V.depth s q
  unmounting-others true p q s h other = ground arith
  unmounting-others false p q s h other =
      M.unmount_others p q s
        (lift-eq-done (H.unmount p) s
          (on_error-eq-done (wrapped "failed to unmount") (lift (H.unmount p)) s h))
        other

  pub remove_file-depth :
      (p q : String) (s : H.State) → V.depth (final (remove_file H p s)) q ≡ V.depth s q
  unfolding remove_file
  remove_file-depth p q s = ground (arith, V.remove_keeps p q s)

  pub remove_parent-depth :
      (p q : String) (s : H.State) → V.depth (final (remove_parent H p s)) q ≡ V.depth s q
  unfolding remove_parent
  remove_parent-depth p q s = ground (arith, V.remove_keeps (dir p) q s)

  delete_existing-others :
      (unmounted : Bool) (p q : String) (s : H.State) {r : Unit {0}} {t : H.State}
      → delete_existing H unmounted p s ≡ done r t
      → (q == p) ≡ false
      → V.depth t q ≡ V.depth s q
  unfolding delete_existing
  delete_existing-others unmounted p q s h other =
      let (_, u, taken, rest) =
        >>=-eq-done
          (if unmounted
            then pure tt
            else on_error (wrapped "failed to unmount") (lift (H.unmount p)))
          _ s h in
      let (_, v, removed, last) = >>=-eq-done (remove_file H p) (λ _. remove_parent H p) u rest in
      ground (
        arith,
        unmounting-others unmounted p q s taken other,
        remove_file-depth p q u,
        removed,
        remove_parent-depth p q v,
        last,
      )

  delete_mount_point-others :
      (p q : String) (s : H.State) {r : Unit {0}} {t : H.State}
      → delete_mount_point H p s ≡ done r t
      → (q == p) ≡ false
      → V.depth t q ≡ V.depth s q
  unfolding delete_mount_point
  delete_mount_point-others p q s {r} {t} h other =
      elim (H.is_not_mount_point p s)
          as (λ a. H.is_not_mount_point p s ≡ a → V.depth t q ≡ V.depth s q) [
            | ok unmounted ↦ λ e.
                delete_existing-others unmounted p q s {r = r} {t = t} (ground (arith, h, e)) other
            | err x ↦ λ e. ground (arith, h, e)
          ]
        refl

  -- `deleteMountPoint` takes off the mount of its path, and touches no other.
  pub delete_mount_point-depth :
      (p : String) (s : H.State) {r : Unit {0}} {t : H.State}
      → delete_mount_point H p s ≡ done r t
      → (q : String) → V.depth t q ≡ put p 0 (V.depth s) q
  delete_mount_point-depth p s {t = t} h q = elim (Bool-cases (q == p)) [
    | inl same ↦
        ground (
          arith,
          same,
          eq_iff q p,
          IsAbsent-depth H V p t (delete_mount_point-IsAbsent H V p s h).0,
        )
    | inr other ↦ ground (arith, other, delete_mount_point-others p q s h other)
  ]
