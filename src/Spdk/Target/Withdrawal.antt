-- ===== src/Spdk/Target/Withdrawal.antt =====
-- util/nvmf.go: `UnpublishVolume` against what it is to make of the exports of the target.
use nvmeof_csi.Base.{
  ℕ, String, ◌≡◌, refl, sym, ◌∙◌, Bool, true, false, none, [], arith, done, failed, halted, final,
  ◌==◌, string_eq, eq_iff,
}
use nvmeof_csi.Rpc.Call.{Transport, Client, Params, call, checked, nqn, next_id}
use nvmeof_csi.Spdk.Laws.{unpublish_volume_deletes}
use nvmeof_csi.Rpc.Laws.{request}
use nvmeof_csi.Spdk.Node.{NodeNvmf, volume_nqn}
use nvmeof_csi.Spdk.Publishing.{
  publish_volume, unpublish_volume, unpublish_existing, published_volume, delete_subsystem,
  subsystem_remove_ns, subsystem_get_ns_id,
}
use nvmeof_csi.Spdk.Target.{TargetView, unpublish_spec}
use nvmeof_csi.Spdk.Target.Calls.{
  checked-final, exported, checked-IsAnswered, call-posts, call-Keeps, published_volume-Keeps,
}
use nvmeof_csi.Spdk.Target.Refinement.{publish_volume_refines, publish_spec-absent}

module _ (T : Transport) (V : TargetView T) (node : NodeNvmf) where
  subsystem_get_ns_id-final :
      (id : String) (c : Client T.State)
      → final (subsystem_get_ns_id T node id c)
        ≡ final (call T [] T.decode_subsystems "nvmf_get_subsystems" Params.no_params c)
  unfolding subsystem_get_ns_id
  subsystem_get_ns_id-final id c = ground (
    arith,
    checked-final T V node (call T [] T.decode_subsystems "nvmf_get_subsystems" Params.no_params) c,
  )

  remove_ns-others :
      (id : String) (n : ℕ) (c : Client T.State) (p : String)
      → (p == volume_nqn id) ≡ false
      → exported T V node
          (final (
            checked T
              (call T tt T.decode_nothing "nvmf_subsystem_remove_ns"
                (Params.remove_ns (volume_nqn id) n))
              c))
          p
        ≡ exported T V node c p
  remove_ns-others id n c p h = ground (
    arith,
    checked-final T V node
        (call T tt T.decode_nothing "nvmf_subsystem_remove_ns" (Params.remove_ns (volume_nqn id) n))
        c,
    call-posts T V node tt T.decode_nothing "nvmf_subsystem_remove_ns"
        (Params.remove_ns (volume_nqn id) n) c,
    V.others_kept (request T "nvmf_subsystem_remove_ns" (Params.remove_ns (volume_nqn id) n) c)
        (volume_nqn id) c.world p refl h,
  )

  -- Whatever is answered to the requests of `subsystemRemoveNs`, other subsystems are left alone.
  pub subsystem_remove_ns-others :
      (id : String) (c : Client T.State) (p : String)
      → (p == volume_nqn id) ≡ false
      → exported T V node (final (subsystem_remove_ns T node id c)) p ≡ exported T V node c p
  unfolding subsystem_remove_ns
  subsystem_remove_ns-others id c p h =
      let found = subsystem_get_ns_id-final id c in
      let kept =
        call-Keeps T V node [] T.decode_subsystems "nvmf_get_subsystems" Params.no_params c refl
          p in
      elim (subsystem_get_ns_id T node id c)
          as (λ r.
            subsystem_get_ns_id T node id c ≡ r
            → exported T V node (final (subsystem_remove_ns T node id c)) p
              ≡ exported T V node c p) [
                | done n u ↦ λ e. ground (arith, found, kept, remove_ns-others id n u p h)
                | failed x u ↦ λ e. ground (arith, found, kept)
                | halted k u ↦ λ e. ground (arith, found, kept)
              ]
        refl

  -- If `UnpublishVolume` succeeds, a volume that was found published has no subsystem any more, also where its
  -- namespace could not be removed, and another one is left as it was; no other subsystem is touched.
  pub unpublish_volume_refines :
      (id : String) (c u : Client T.State) {b : Bool} {a : Unit {0}} {t : Client T.State}
      → published_volume T node id c ≡ done b u
      → unpublish_volume T node id c ≡ done a t
      → (p : String) → exported T V node t p ≡ unpublish_spec b id (exported T V node c) p
  unfolding unpublish_volume unpublish_existing delete_subsystem
  unpublish_volume_refines id c u {b = true} guard h p =
      let q = volume_nqn id in
      let c1 = final (subsystem_remove_ns T node id u) in
      let gone = V.deleted (next_id T c1) q c1.world (
        checked-IsAnswered T V node tt T.decode_nothing "nvmf_delete_subsystem" (nqn q) c1
          (sym (unpublish_volume_deletes T node id c u guard) ∙ h)) in
      ground (
        arith,
        gone p,
        subsystem_remove_ns-others id u p,
        published_volume-Keeps T V node id c guard p,
      )
  unpublish_volume_refines id c u {b = false} guard h p =
      ground (arith, published_volume-Keeps T V node id c guard p)

  -- If `PublishVolume` of a volume that has no subsystem succeeds, and `UnpublishVolume`, which then finds the
  -- volume published, succeeds too, then the target exports what it exported before.
  pub unpublish-publish_volume :
      (id : String) (c t v : Client T.State) {a b : Unit {0}} {u : Client T.State}
      → exported T V node c (volume_nqn id) ≡ none
      → publish_volume T node id c ≡ done a t
      → published_volume T node id t ≡ done true v
      → unpublish_volume T node id t ≡ done b u
      → (p : String) → exported T V node u p ≡ exported T V node c p
  unpublish-publish_volume id c t v absent publishes guard withdraws p = ground (
    arith,
    publish_volume_refines T V node id c publishes p,
    publish_spec-absent T V node id (exported T V node c) p absent,
    unpublish_volume_refines id t v guard withdraws p,
    eq_iff p (volume_nqn id),
  )
