-- ===== src/Driver/Node/Attempts.antt =====
-- driver/nodeserver.go: what one step of a handler may do to the mounts, whether or not it succeeds.
pub mod Staging
pub mod Handlers
pub mod Bounds
use nvmeof_csi.Base.{
  ℕ, zero, suc, ◌+◌, String, ◌<>◌, ◌≡◌, refl, ◌∙◌, ◌⊎◌, inl, inr, Bool, true, false, Bool-cases,
  nat_eq, string_eq, ◌==◌, eq_iff, if◌then◌else◌, Result, ok, err, arith, Error, subst, sym, ap,
  done, final, Run, on_error, lift, pure, wrapped, Action, message, status, internal, final->>=,
  final-on_error, final-lift, on_error-eq-done, ◌>>=◌,
}
use nvmeof_csi.Base.FilePath.{dir}
use nvmeof_csi.Host.{Host}
use nvmeof_csi.Host.Laws.{MountTable, MountView, MountFailures}
use nvmeof_csi.Initiator.{
  Initiator, disconnect, disconnect_command, device_glob, exec_with_timeout, wait_for_device_gone,
  poll_gone,
}
use nvmeof_csi.Driver.Node.MountPoint.{
  create_mount_point, stage_volume, remove_file, remove_parent, delete_existing, delete_mount_point,
}
use nvmeof_csi.Driver.Node.Publish.{bind_target}
use nvmeof_csi.Driver.Node.Laws.Mounts.{create_mount_point-depth}
use nvmeof_csi.Driver.Node.Table.{Table}
use nvmeof_csi.Driver.Node.Table.Steps.{remove_file-depth, remove_parent-depth}

-- The tables differ on one path at most, and there as the relation says.
abbrev pub Changes : String → (ℕ → ℕ → Type 0) → Table → Table → Type 0
Changes p R d d' = (q : String) → (d' q ≡ d q) ⊎ ((q ≡ p) × R (d q) (d' q))

-- One mount more, and one less.
abbrev pub More : ℕ → ℕ → Type 0
More n m = m ≡ n + 1

abbrev pub Less : ℕ → ℕ → Type 0
Less n m = n ≡ m + 1

Changes-after :
    (p : String) (R : ℕ → ℕ → Type 0) {d e f : Table}
    → ((q : String) → e q ≡ d q)
    → Changes p R e f
    → Changes p R d f
Changes-after p R {d} {e} {f} kept c q = elim (c q) [
  | inl same ↦ inl (same ∙ kept q)
  | inr (at, r) ↦ inr (at, subst (λ n. R n (f q)) (kept q) r)
]

Changes-before :
    (p : String) (R : ℕ → ℕ → Type 0) {d e f : Table}
    → Changes p R d e
    → ((q : String) → f q ≡ e q)
    → Changes p R d f
Changes-before p R {d} {e} {f} c kept q = elim (c q) [
  | inl same ↦ inl (kept q ∙ same)
  | inr (at, r) ↦ inr (at, subst (λ n. R (d q) n) (sym (kept q)) r)
]

module _ (H : Host) (V : MountView H) (M : MountTable H V) (F : MountFailures H V) where
  mount-Changes :
      (source p : String) (s : H.State) (a : Result (Unit {0})) (t : H.State)
      → H.mount source p s ≡ (a, t)
      → Changes p More (V.depth s) (V.depth t)
  mount-Changes source p s (err e) t h q = F.mount_failed source p q s h
  mount-Changes source p s (ok r) t h q = elim (Bool-cases (q == p)) [
    | inl same ↦
        inr (ground (arith, eq_iff q p), ground (arith, eq_iff q p, V.mount_adds source p s h))
    | inr other ↦ inl (M.mount_others source p q s h other)
  ]

  unmount-Changes :
      (p : String) (s : H.State) (a : Result (Unit {0})) (t : H.State)
      → H.unmount p s ≡ (a, t)
      → Changes p Less (V.depth s) (V.depth t)
  unmount-Changes p s (err e) t h q = F.unmount_failed p q s h
  unmount-Changes p s (ok r) t h q = elim (Bool-cases (q == p)) [
    | inl same ↦ inr (ground (arith, eq_iff q p), ground (arith, eq_iff q p, V.unmount_takes p s h))
    | inr other ↦ inl (M.unmount_others p q s h other)
  ]

  -- A mount with its error replaced.
  mounting-Changes :
      (w : Error → Error) (source p : String) (s : H.State)
      → Changes p More (V.depth s) (V.depth (final (on_error w (lift (H.mount source p)) s)))
  mounting-Changes w source p s =
      rw (final-on_error w (lift (H.mount source p)) s, final-lift (H.mount source p) s)
        (mount-Changes source p s (H.mount source p s).0 (H.mount source p s).1 refl)

  mounting_unless :
      (b : Bool) (w : Error → Error) (source p : String) (s : H.State)
      → Changes p More
          (V.depth s)
          (V.depth (final ((if b then pure tt else on_error w (lift (H.mount source p))) s)))
  mounting_unless true w source p s = λ q. inl refl
  mounting_unless false w source p s = mounting-Changes w source p s

  unmounting_unless :
      (b : Bool) (w : Error → Error) (p : String) (s : H.State)
      → Changes p Less
          (V.depth s)
          (V.depth (final ((if b then pure tt else on_error w (lift (H.unmount p))) s)))
  unmounting_unless true w p s = λ q. inl refl
  unmounting_unless false w p s =
      rw (final-on_error w (lift (H.unmount p)) s, final-lift (H.unmount p) s)
        (unmount-Changes p s (H.unmount p s).0 (H.unmount p s).1 refl)

  created_keeps :
      (p : String) (s : H.State) (b : Bool) (t : H.State)
      → create_mount_point H p s ≡ done b t
      → (q : String) → V.depth t q ≡ V.depth s q
  created_keeps p s b t h q = ground (arith, create_mount_point-depth H V p q s, h)

  -- What `stageVolume` may do, however it ends.
  pub stage_volume-Changes :
      (device p : String) (s : H.State)
      → Changes p More (V.depth s) (V.depth (final (stage_volume H device p s)))
  unfolding stage_volume
  stage_volume-Changes device p s =
      final->>= (λ (t : H.State). Changes p More (V.depth s) (V.depth t)) (create_mount_point H p) _
        s (λ q. inl (create_mount_point-depth H V p q s))
        (λ b t created.
          Changes-after p More (created_keeps p s b t created)
            (mounting_unless b (wrapped "failed to bind mount block device") device p t))

  -- What the end of `NodePublishVolume` may do.
  pub bind_target-Changes :
      (staging target : String) (s : H.State)
      → Changes target More (V.depth s) (V.depth (final (bind_target H staging target s)))
  unfolding bind_target
  bind_target-Changes staging target s =
      final->>= (λ (t : H.State). Changes target More (V.depth s) (V.depth t))
        (on_error (λ e. status internal ("failed to create target mount point: " <> message e))
          (create_mount_point H target))
        _ s
        (λ q. inl (
          ap (λ (t : H.State). V.depth t q)
            (final-on_error
              (λ e. status internal ("failed to create target mount point: " <> message e))
              (create_mount_point H target) s)
          ∙ create_mount_point-depth H V target q s))
        (λ b t created.
          Changes-after target More
            (created_keeps target s b t
              (on_error-eq-done _ (create_mount_point H target) s created))
            (mounting-Changes (λ e. status internal ("bind mount failed: " <> message e)) staging
              target t))

  removing_keeps :
      (p q : String) (s : H.State)
      → V.depth (final (((λ s. remove_file H p s) >>= λ _. remove_parent H p) s)) q ≡ V.depth s q
  removing_keeps p q s =
      final->>= (λ (t : H.State). V.depth t q ≡ V.depth s q) (remove_file H p)
        (λ _. remove_parent H p) s (remove_file-depth H V M p q s)
        (λ a t h.
          remove_parent-depth H V M p q t
          ∙ ap (λ r. V.depth (final r) q) (sym h)
          ∙ remove_file-depth H V M p q s)

  delete_existing-Changes :
      (b : Bool) (p : String) (s : H.State)
      → Changes p Less (V.depth s) (V.depth (final (delete_existing H b p s)))
  unfolding delete_existing
  delete_existing-Changes b p s =
      final->>= (λ (t : H.State). Changes p Less (V.depth s) (V.depth t))
        (if b then pure tt else on_error (wrapped "failed to unmount") (lift (H.unmount p)))
        (λ _. remove_file H p >>= λ _. remove_parent H p) s
        (unmounting_unless b (wrapped "failed to unmount") p s)
        (λ a t h.
          Changes-before p Less
            (subst (λ r. Changes p Less (V.depth s) (V.depth (final r))) h
              (unmounting_unless b (wrapped "failed to unmount") p s))
            (λ q. removing_keeps p q t))

  -- What `deleteMountPoint` may do.
  pub delete_mount_point-Changes :
      (p : String) (s : H.State)
      → Changes p Less (V.depth s) (V.depth (final (delete_mount_point H p s)))
  unfolding delete_mount_point
  delete_mount_point-Changes p s =
      elim (H.is_not_mount_point p s)
          as (λ a.
            H.is_not_mount_point p s ≡ a
            → Changes p Less (V.depth s) (V.depth (final (delete_mount_point H p s)))) [
              | ok b ↦ λ e.
                  let same : delete_existing H b p s ≡ delete_mount_point H p s =
                    ground (arith, e) in
                  subst (λ r. Changes p Less (V.depth s) (V.depth (final r))) same
                    (delete_existing-Changes b p s)
              | err x ↦ λ e q. inl (ground (arith, e))
            ]
        refl

  poll_gone-depth :
      (rounds : ℕ) (pattern : String) (s : H.State) (q : String)
      → V.depth (final (poll_gone H rounds pattern s)) q ≡ V.depth s q
  unfolding poll_gone
  poll_gone-depth zero pattern s q = refl
  poll_gone-depth (suc rounds) pattern s q =
      ground (arith, M.sleep_keeps s q, poll_gone-depth rounds pattern (H.sleep s) q)

  pub disconnect-depth :
      (i : Initiator) (s : H.State) (q : String)
      → V.depth (final (disconnect H i s)) q ≡ V.depth s q
  unfolding disconnect exec_with_timeout wait_for_device_gone
  disconnect-depth i s q = ground (
    arith,
    M.exec_keeps (disconnect_command i) 40 s q,
    poll_gone-depth 21 (device_glob i) (H.exec (disconnect_command i) 40 s).1 q,
  )
