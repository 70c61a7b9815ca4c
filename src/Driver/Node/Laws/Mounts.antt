-- ===== src/Driver/Node/Laws/Mounts.antt =====
-- driver/nodeserver.go: staging, publishing and their undoing, by the mounts that they leave.
use nvmeof_csi.Base.{
  ◌+◌, ◌≤◌, String, ◌≡◌, ◌≢◌, refl, sym, subst, ◌∙◌, Bool, true, false, nat_eq, if◌then◌else◌,
  Result, ok, err, arith, Run, done, final, on_error, lift, pure, wrapped, >>=-eq-done,
}
use nvmeof_csi.Base.FilePath.{dir}
use nvmeof_csi.Host.{Host}
use nvmeof_csi.Host.Laws.{IsAbsent, MountView}
use nvmeof_csi.Driver.Node.MountPoint.{
  create_target, create_missing, create_mount_point, stage_volume, remove_file, remove_parent,
  delete_existing, delete_mount_point,
}

module _ (H : Host) (V : MountView H) where
  create_target-depth :
      (path p : String) (s : H.State) → V.depth (final (create_target H path s)) p ≡ V.depth s p
  unfolding create_target
  create_target-depth path p s = ground (arith, V.create_file_keeps path p s)

  create_missing-depth :
      (path p : String) (s : H.State) → V.depth (final (create_missing H path s)) p ≡ V.depth s p
  unfolding create_missing
  create_missing-depth path p s = ground (
    arith,
    V.mkdir_all_keeps (dir path) p s,
    create_target-depth path p (H.mkdir_all (dir path) s).1,
  )

  create_missing_unmounted : (path : String) (s t : H.State) → create_missing H path s ≢ done true t
  unfolding create_missing
  create_missing_unmounted path s t h = ground arith

  -- `createMountPoint` mounts nothing, and says whether the path was mounted.
  pub create_mount_point-depth :
      (path p : String) (s : H.State)
      → V.depth (final (create_mount_point H path s)) p ≡ V.depth s p
  unfolding create_mount_point
  create_mount_point-depth path p s = ground (arith, create_missing-depth path p s)

  create_mount_point_mounted :
      (path : String) (s t : H.State)
      → create_mount_point H path s ≡ done true t
      → H.is_not_mount_point path t ≡ ok false
  unfolding create_mount_point
  create_mount_point_mounted path s t h = ground (arith, create_missing_unmounted path s t)

  -- A bind mount on top of whatever is there.
  mount_seen :
      (source p : String) (s : H.State) {r : Unit {0}} {t : H.State}
      → H.mount source p s ≡ (ok r, t)
      → H.is_not_mount_point p t ≡ ok false
  mount_seen source p s {t = t} h = V.seen p t (omega (arith, V.mount_adds source p s h))

  stage_volume_branch :
      (device staging : String) (b : Bool) (u : H.State) {r : Unit {0}} {t : H.State}
      → (if b
            then pure tt
            else on_error
                (wrapped "failed to bind mount block device")
                (lift (H.mount device staging)))
          u
        ≡ done r t
      → (b ≡ true → H.is_not_mount_point staging u ≡ ok false)
      → H.is_not_mount_point staging t ≡ ok false
  stage_volume_branch device staging true u h k = ground (arith, k refl)
  stage_volume_branch device staging false u {r} {t} h k =
      ground (arith, mount_seen device staging u {r = r} {t = t})

  -- After `stageVolume` the staging path is a mount point.
  pub stage_volume-mounted :
      (device staging : String) (s : H.State) {r : Unit {0}} {t : H.State}
      → stage_volume H device staging s ≡ done r t
      → H.is_not_mount_point staging t ≡ ok false
  unfolding stage_volume
  stage_volume-mounted device staging s h =
      let (b, u, created, rest) = >>=-eq-done (create_mount_point H staging) _ s h in
      stage_volume_branch device staging b u rest
        (λ e. create_mount_point_mounted staging s u (rw e at created))

  pub IsAbsent-depth : (p : String) (s : H.State) → IsAbsent H p s → V.depth s p ≡ 0
  IsAbsent-depth p s (e, absent, missing) = ground (arith, V.seen p s)

  remove_file_branch :
      (path : String) (s : H.State) (answer : Result (Unit {0})) (u : H.State) {r : Unit {0}}
      {t : H.State}
      → H.remove path s ≡ (answer, u)
      → remove_file H path s ≡ done r t
      → (t ≡ u) × IsAbsent H path u
  unfolding remove_file
  remove_file_branch path s (ok _) u h k = (ground arith, V.removed path s h)
  remove_file_branch path s (err e) u h k = (ground arith, V.remove_absent path s h (ground arith))

  -- After `os.Remove` has succeeded, or has found nothing, the path is absent and was not mounted.
  remove_file-IsAbsent :
      (path : String) (s : H.State) {r : Unit {0}} {t : H.State}
      → remove_file H path s ≡ done r t
      → IsAbsent H path t × (V.depth s path ≡ 0)
  remove_file-IsAbsent path s h =
      let u = (H.remove path s).1 in
      let (same, absent) = remove_file_branch path s (H.remove path s).0 u refl h in
      (rw same absent, sym (V.remove_keeps path path s) ∙ IsAbsent-depth path u absent)

  remove_parent-IsAbsent :
      (path : String) (s : H.State) {r : Unit {0}} {t : H.State}
      → remove_parent H path s ≡ done r t
      → IsAbsent H path s
      → IsAbsent H path t
  unfolding remove_parent
  remove_parent-IsAbsent path s {t = t} h absent =
      let same : (H.remove (dir path) s).1 ≡ t = ground arith in
      subst (IsAbsent H path) same (V.remove_keeps_absent (dir path) path s absent)

  unmounting : Bool → String → H.State → Run H.State (Unit {0})
  unmounting unmounted path =
      if unmounted then pure tt else on_error (wrapped "failed to unmount") (lift (H.unmount path))

  unmounting-depth :
      (unmounted : Bool) (path : String) (s : H.State) {r : Unit {0}} {t : H.State}
      → unmounting unmounted path s ≡ done r t
      → V.depth s path ≤ V.depth t path + 1
  unfolding unmounting
  unmounting-depth true path s h = ground arith
  unmounting-depth false path s {r} {t} h = ground (arith, V.unmount_takes path s {r = r} {t = t})

  delete_existing-IsAbsent :
      (unmounted : Bool) (path : String) (s : H.State) {r : Unit {0}} {t : H.State}
      → delete_existing H unmounted path s ≡ done r t
      → IsAbsent H path t × (V.depth s path ≤ 1)
  unfolding delete_existing remove_parent unmounting
  delete_existing-IsAbsent unmounted path s h =
      let (_, u, taken, rest) = >>=-eq-done (unmounting unmounted path) _ s h in
      let (_, v, removed, last) = >>=-eq-done (remove_file H path) _ u rest in
      let (absent, free) = remove_file-IsAbsent path u removed in
      (
        remove_parent-IsAbsent path v last absent,
        omega (arith, unmounting-depth unmounted path s taken),
      )

  delete_mount_point_branch :
      (path : String) (s : H.State) (answer : Result Bool) {r : Unit {0}} {t : H.State}
      → H.is_not_mount_point path s ≡ answer
      → delete_mount_point H path s ≡ done r t
      → IsAbsent H path t × (V.depth s path ≤ 1)
  unfolding delete_mount_point
  delete_mount_point_branch path s (ok b) e h =
      delete_existing-IsAbsent b path s (rw (e, delete_mount_point) at h)
  delete_mount_point_branch path s (err x) {t = t} e h =
      let same : s ≡ t = ground arith in
      let absent : IsAbsent H path s = (x, e, ground arith) in
      (subst (IsAbsent H path) same absent, omega (arith, IsAbsent-depth path s absent))

  -- After `deleteMountPoint` the path is absent, and at most one mount was stacked on it.
  pub delete_mount_point-IsAbsent :
      (path : String) (s : H.State) {r : Unit {0}} {t : H.State}
      → delete_mount_point H path s ≡ done r t
      → IsAbsent H path t × (V.depth s path ≤ 1)
  delete_mount_point-IsAbsent path s = delete_mount_point_branch path s _ refl

-- On a path that is absent `deleteMountPoint` does nothing.
pub delete_mount_point_again :
    (H : Host) (path : String) (s : H.State)
    → IsAbsent H path s
    → delete_mount_point H path s ≡ done tt s
unfolding delete_mount_point
delete_mount_point_again H path s (e, absent, missing) = ground arith
