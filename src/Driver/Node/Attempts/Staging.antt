-- ===== src/Driver/Node/Attempts/Staging.antt =====
-- driver/nodeserver.go: what `NodeStageVolume` may do to the mounts, whether or not it succeeds.
use nvmeof_csi.Base.{
  ℕ, String, ◌≡◌, refl, ◌∙◌, sym, subst, ap, inl, inr, Bool-cases, nat_eq, string_eq, if◌then◌else◌,
  arith, Run, done, failed, halted, final, on_error, pure, returned, final->>=, final-on_error,
  on_error-eq-done,
}
use nvmeof_csi.Host.{Host}
use nvmeof_csi.Host.Laws.{MountTable, MountView, MountFailures}
use nvmeof_csi.Initiator.{Initiator, connect, new_initiator}
use nvmeof_csi.Driver.Node.MountPoint.{is_staged, stage_volume}
use nvmeof_csi.Driver.Node.Stage.{
  NodeStageVolumeRequest, as_internal, staged_path, disconnecting, stage_device, stage_with,
  stage_new, node_stage_volume,
}
use nvmeof_csi.Driver.Node.Laws.Staging.{is_staged-eq-done}
use nvmeof_csi.Driver.Node.Table.{Table}
use nvmeof_csi.Driver.Node.Table.Steps.{connect-depth}
use nvmeof_csi.Driver.Node.Table.Handlers.{is_staged_shallow}
use nvmeof_csi.Driver.Node.Attempts.{
  Changes, More, Changes-after, Changes-before, stage_volume-Changes, disconnect-depth,
}

-- The first mount.
abbrev pub First : ℕ → ℕ → Type 0
First n m = (n ≡ 0) × (m ≡ 1)

Changes-First : (p : String) {d e : Table} → d p ≡ 0 → Changes p More d e → Changes p First d e
Changes-First p {d} {e} free c q = elim (c q) [
  | inl same ↦ inl same
  | inr (at, more) ↦
      let zero : d q ≡ 0 = ap d at ∙ free in inr (at, (zero, omega (arith, more, zero)))
]

module _ (H : Host) (V : MountView H) (M : MountTable H V) (F : MountFailures H V) where
  disconnecting-depth :
      (i : Initiator) (r : Run H.State (Unit {0})) (q : String)
      → V.depth (final (disconnecting H i r)) q ≡ V.depth (final r) q
  unfolding disconnecting
  disconnecting-depth i (done a t) q = refl
  disconnecting-depth i (failed e t) q = disconnect-depth H V M F i t q
  disconnecting-depth i (halted h t) q = refl

  stage_device-Changes :
      (req : NodeStageVolumeRequest) (i : Initiator) (device : String) (s : H.State)
      → Changes (staged_path req) More (V.depth s) (V.depth (final (stage_device H req i device s)))
  unfolding stage_device
  stage_device-Changes req i device s =
      Changes-before (staged_path req) More
        (stage_volume-Changes H V M F device (staged_path req) s)
        (λ q.
          disconnecting-depth i (on_error as_internal (stage_volume H device (staged_path req)) s) q
          ∙ ap (λ (t : H.State). V.depth t q)
              (final-on_error as_internal (stage_volume H device (staged_path req)) s))

  connected-depth :
      (i : Initiator) (s : H.State) (q : String)
      → V.depth (final (on_error as_internal (connect H i) s)) q ≡ V.depth s q
  connected-depth i s q =
      ap (λ (t : H.State). V.depth t q) (final-on_error as_internal (connect H i) s)
      ∙ connect-depth H V M i s q

  stage_with-Changes :
      (req : NodeStageVolumeRequest) (i : Initiator) (s : H.State)
      → Changes (staged_path req) More (V.depth s) (V.depth (final (stage_with H req i s)))
  unfolding stage_with
  stage_with-Changes req i s =
      final->>= (λ (t : H.State). Changes (staged_path req) More (V.depth s) (V.depth t))
        (on_error as_internal (connect H i)) (stage_device H req i) s
        (λ q. inl (connected-depth i s q))
        (λ device t h.
          Changes-after (staged_path req) More
            (λ q. ap (λ r. V.depth (final r) q) (sym h) ∙ connected-depth i s q)
            (stage_device-Changes req i device t))

  stage_new-Changes :
      (req : NodeStageVolumeRequest) (s : H.State)
      → Changes (staged_path req) More (V.depth s) (V.depth (final (stage_new H req s)))
  unfolding stage_new
  stage_new-Changes req s =
      final->>= (λ (t : H.State). Changes (staged_path req) More (V.depth s) (V.depth t))
        (on_error as_internal (returned (new_initiator req.publish_context))) (stage_with H req) s
        (λ q. inl (ground arith))
        (λ i t h.
          let same : t ≡ s = ground (arith, h) in
          subst
            (λ (u : H.State).
              Changes (staged_path req) More (V.depth s) (V.depth (final (stage_with H req i u))))
            (sym same) (stage_with-Changes req i s))

  pub asked-final : (p : String) (s : H.State) → final (on_error as_internal (is_staged H p) s) ≡ s
  unfolding is_staged
  asked-final p s = ground arith

  pub node_stage_volume-Changes :
      (req : NodeStageVolumeRequest) (s : H.State)
      → Changes (staged_path req) First (V.depth s) (V.depth (final (node_stage_volume H req s)))
  unfolding node_stage_volume
  node_stage_volume-Changes req s =
      final->>= (λ (t : H.State). Changes (staged_path req) First (V.depth s) (V.depth t))
        (on_error as_internal (is_staged H (staged_path req)))
        (λ b. if b then pure tt else stage_new H req) s
        (λ q. inl (ap (λ (t : H.State). V.depth t q) (asked-final (staged_path req) s)))
        (λ b t h.
          let asked = on_error-eq-done as_internal (is_staged H (staged_path req)) s h in
          let same = (is_staged-eq-done H (staged_path req) s asked).0 in
          elim (Bool-cases b) [
            | inl staged ↦ λ q. inl (ground (arith, staged, same))
            | inr unstaged ↦
                let run : stage_new H req s ≡ (if b then pure tt else stage_new H req) t =
                  ground (arith, unstaged, same) in
                subst (λ r. Changes (staged_path req) First (V.depth s) (V.depth (final r))) run
                  (Changes-First (staged_path req)
                    (is_staged_shallow H V M (staged_path req) s asked unstaged)
                    (stage_new-Changes req s))
          ])
