-- ===== src/Driver/Node/Attempts/Handlers.antt =====
-- driver/nodeserver.go: what each handler may do to the mounts, whether or not it succeeds.
use nvmeof_csi.Base.{
  ℕ, String, ◌≡◌, refl, subst, ap, inl, inr, Bool-cases, nat_eq, string_eq, if◌then◌else◌, ok, err,
  arith, Action, Run, failed, final, on_error, pure, final->>=, final-on_error, on_error-eq-done,
}
use nvmeof_csi.Base.FilePath.{join}
use nvmeof_csi.Host.{Host}
use nvmeof_csi.Host.Laws.{MountTable, MountView, MountFailures}
use nvmeof_csi.Locks.{Server, with_lock}
use nvmeof_csi.Locks.Laws.{final-served, AllFree, relocked, relocked-AllFree, with_lock_runs}
use nvmeof_csi.Driver.Node.MountPoint.{is_staged, delete_mount_point}
use nvmeof_csi.Driver.Node.Stage.{
  NodeStageVolumeRequest, as_internal, unstage_error, staging_path, staged_path, node_stage_volume,
  node_unstage_volume, validate_node_stage_volume_request, handle_node_stage_volume,
  handle_node_unstage_volume,
}
use nvmeof_csi.Driver.Node.Publish.{
  NodePublishVolumeRequest, is_block, node_publish_volume, node_unpublish_volume,
  handle_node_publish_volume, handle_node_unpublish_volume,
}
use nvmeof_csi.Driver.Node.Laws.Staging.{is_staged-eq-done}
use nvmeof_csi.Driver.Node.Table.{Request, stages, unstages, publishes, unpublishes, handle}
use nvmeof_csi.Driver.Node.Attempts.{
  Changes, More, Less, bind_target-Changes, delete_mount_point-Changes,
}
use nvmeof_csi.Driver.Node.Attempts.Staging.{First, asked-final, node_stage_volume-Changes}

-- The path whose mounts a request may change, and how.
abbrev pub touched : Request → String
touched (stages req) = staged_path req
touched (unstages id staging) = staging_path staging id
touched (publishes req) = req.target_path
touched (unpublishes id target) = target

abbrev pub Change : Request → ℕ → ℕ → Type 0
Change (stages req) = First
Change (unstages id staging) = Less
Change (publishes req) = More
Change (unpublishes id target) = Less

module _ (H : Host) (V : MountView H) (M : MountTable H V) (F : MountFailures H V) where
  node_unstage_volume-Changes :
      (id staging : String) (s : H.State)
      → Changes
          (staging_path staging id)
          Less
          (V.depth s)
          (V.depth (final (node_unstage_volume H id staging s)))
  unfolding node_unstage_volume
  node_unstage_volume-Changes id staging s =
      final->>= (λ (t : H.State). Changes (staging_path staging id) Less (V.depth s) (V.depth t))
        (on_error as_internal (is_staged H (staging_path staging id)))
        (λ b.
          if b
          then on_error (unstage_error id) (delete_mount_point H (staging_path staging id))
          else pure tt)
        s
        (λ q.
          inl (ap (λ (t : H.State). V.depth t q) (asked-final H V M F (staging_path staging id) s)))
        (λ b t h.
          let same =
            (is_staged-eq-done H (staging_path staging id) s
              (on_error-eq-done as_internal (is_staged H (staging_path staging id)) s h)).0 in
          elim (Bool-cases b) [
            | inl staged ↦
                let run : final (delete_mount_point H (staging_path staging id) s)
                    ≡ final (
                        (if b
                            then on_error (unstage_error id)
                                (delete_mount_point H (staging_path staging id))
                            else pure tt)
                          t) =
                  ground (arith, staged, same) in
                subst
                  (λ (u : H.State). Changes (staging_path staging id) Less (V.depth s) (V.depth u))
                  run (delete_mount_point-Changes H V M F (staging_path staging id) s)
            | inr unstaged ↦ λ q. inl (ground (arith, unstaged, same))
          ])

  node_publish_volume-Changes :
      (req : NodePublishVolumeRequest) (s : H.State)
      → Changes req.target_path More (V.depth s) (V.depth (final (node_publish_volume H req s)))
  unfolding node_publish_volume
  node_publish_volume-Changes req s = elim (Bool-cases (is_block req.volume_capability)) [
    | inl block ↦
        rw block (
          bind_target-Changes H V M F (join req.staging_target_path req.volume_id) req.target_path
            s)
    | inr other ↦ λ q. inl (ground (arith, other))
  ]

  node_unpublish_volume-Changes :
      (target : String) (s : H.State)
      → Changes target Less (V.depth s) (V.depth (final (node_unpublish_volume H target s)))
  unfolding node_unpublish_volume
  node_unpublish_volume-Changes target s =
      rw (final-on_error as_internal (delete_mount_point H target) s)
        (delete_mount_point-Changes H V M F target s)

  -- A handler changes what its body changes, and leaves the mutexes free.
  with_lock-Changes :
      (k p : String) (R : ℕ → ℕ → Type 0) (body : Action H.State (Unit {0})) (s : Server H.State)
      → AllFree s.locks
      → Changes p R (V.depth s.world) (V.depth (final (body s.world)))
      → Changes p R (V.depth s.world) (V.depth (final (with_lock k body s)).world)
        × AllFree (final (with_lock k body s)).locks
  with_lock-Changes k p R body s free c =
      rw (with_lock_runs k body s free, final-served (relocked k s.locks) (body s.world))
        (c, relocked-AllFree k s.locks free)

  -- What a run of a handler may have done.
  abbrev Served :
      (p : String) → (ℕ → ℕ → Type 0) → Server H.State → Run (Server H.State) (Unit {0}) → Type 0
  Served p R s r = Changes p R (V.depth s.world) (V.depth (final r).world) × AllFree (final r).locks

  -- A refused request changes nothing.
  handle_node_stage_volume-Changes :
      (req : NodeStageVolumeRequest) (s : Server H.State)
      → AllFree s.locks
      → Served (staged_path req) First s (handle_node_stage_volume H req s)
  unfolding handle_node_stage_volume
  handle_node_stage_volume-Changes req s free =
      elim (validate_node_stage_volume_request H req s.world)
          as (λ a.
            validate_node_stage_volume_request H req s.world ≡ a
            → Served (staged_path req) First s (handle_node_stage_volume H req s)) [
              | ok _ ↦ λ e.
                  let run : with_lock req.volume_id (node_stage_volume H req) s
                      ≡ handle_node_stage_volume H req s =
                    ground (arith, e) in
                  subst (Served (staged_path req) First s) run (
                    with_lock-Changes req.volume_id (staged_path req) First
                      (node_stage_volume H req) s free
                      (node_stage_volume-Changes H V M F req s.world))
              | err x ↦ λ e.
                  let run : failed x s ≡ handle_node_stage_volume H req s = ground (arith, e) in
                  subst (Served (staged_path req) First s) run (λ q. inl refl, free)
            ]
        refl

  pub handle-Changes :
      (r : Request) (s : Server H.State)
      → AllFree s.locks
      → Changes (touched r) (Change r) (V.depth s.world) (V.depth (final (handle H r s)).world)
        × AllFree (final (handle H r s)).locks
  unfolding handle handle_node_stage_volume handle_node_unstage_volume handle_node_publish_volume
      handle_node_unpublish_volume
  handle-Changes (stages req) s free = handle_node_stage_volume-Changes req s free
  handle-Changes (unstages id staging) s free =
      with_lock-Changes id (staging_path staging id) Less (node_unstage_volume H id staging) s free
        (node_unstage_volume-Changes id staging s.world)
  handle-Changes (publishes req) s free =
      with_lock-Changes req.volume_id req.target_path More (node_publish_volume H req) s free
        (node_publish_volume-Changes req s.world)
  handle-Changes (unpublishes id target) s free =
      with_lock-Changes id target Less (node_unpublish_volume H target) s free
        (node_unpublish_volume-Changes target s.world)
