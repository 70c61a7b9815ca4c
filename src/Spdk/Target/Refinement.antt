-- ===== src/Spdk/Target/Refinement.antt =====
-- util/nvmf.go: `PublishVolume` against what it is to make of the exports of the target.
use nvmeof_csi.Base.{
  ℕ, String, ◌≡◌, refl, sym, ◌∙◌, Bool, true, false, none, some, [], ◌∷◌, arith, done, failed,
  halted, ◌>>=◌, if◌then◌else◌, string_eq, eq_iff, >>=-eq-done, pure,
}
use nvmeof_csi.Rpc.Call.{Transport, Client, Params, next_id}
use nvmeof_csi.Spdk.Node.{NodeNvmf, volume_nqn, volume_model}
use nvmeof_csi.Spdk.Publishing.{
  create_transport, publish_volume, publish_new, publish_namespace, publish_listener,
  published_volume, create_subsystem, subsystem_add_ns, subsystem_add_listener,
}
use nvmeof_csi.Spdk.Target.{Exports, put, TargetView, own_listener, is_exported, publish_spec}
use nvmeof_csi.Spdk.Target.Calls.{
  exported, checked-IsAnswered, published_volume-Keeps, published_volume-exported,
  create_transport-Keeps,
}

module _ (T : Transport) (V : TargetView T) (node : NodeNvmf) where
  publish_listener-eq-done :
      (id : String) (c : Client T.State) {a : Unit {0}} {t : Client T.State}
      → publish_listener T node id c ≡ done a t
      → subsystem_add_listener T node id c ≡ done a t
  unfolding publish_listener
  publish_listener-eq-done id c h = ground arith

  publish_namespace-steps :
      (id : String) (c : Client T.State) {a : Unit {0}} {t : Client T.State}
      → publish_namespace T node id c ≡ done a t
      → (n : ℕ) × (u : Client T.State) × (subsystem_add_ns T node id c ≡ done n u)
        × (publish_listener T node id u ≡ done a t)
  unfolding publish_namespace
  publish_namespace-steps id c {a} {t} h =
      elim (subsystem_add_ns T node id c)
          as (λ r.
            subsystem_add_ns T node id c ≡ r
            → (n : ℕ) × (u : Client T.State) × (subsystem_add_ns T node id c ≡ done n u)
              × (publish_listener T node id u ≡ done a t)) [
                | done n u ↦ λ e. (n, u, e, ground arith)
                | failed x u ↦ λ e. absurd (ground arith)
                | halted k u ↦ λ e. absurd (ground arith)
              ]
        refl

  -- A namespace and a listener on a subsystem that has none yet.
  publish_namespace-exports :
      (id : String) (c : Client T.State) {a : Unit {0}} {t : Client T.State}
      → publish_namespace T node id c ≡ done a t
      → exported T V node c (volume_nqn id) ≡ some (record { bdevs = []; listeners = [] })
      → (p : String)
      → exported T V node t p
        ≡ put
            (volume_nqn id)
            (some (record { bdevs = id ∷ []; listeners = own_listener node ∷ [] }))
            (exported T V node c)
            p
  unfolding subsystem_add_ns subsystem_add_listener
  publish_namespace-exports id c h fresh p =
      let q = volume_nqn id in
      let (n, u, added, rest) = publish_namespace-steps id c h in
      let adds = V.ns_added (next_id T c) q id c.world (
        checked-IsAnswered T V node 0 T.decode_number "nvmf_subsystem_add_ns" (Params.add_ns q id) c
          added) in
      let listens = V.listener_added (next_id T u) q (own_listener node) u.world (
        checked-IsAnswered T V node tt T.decode_nothing "nvmf_subsystem_add_listener"
          (Params.add_listener q node.target_type "IPv4" node.target_addr node.target_port) u
          (publish_listener-eq-done id u rest)) in
      ground (arith, adds p, adds q, listens p, fresh, eq_iff q q)

  -- A new volume's subsystem, with its namespace and the listener.
  publish_new-exports :
      (id : String) (c : Client T.State) {a : Unit {0}} {t : Client T.State}
      → publish_new T node id c ≡ done a t
      → (exported T V node c (volume_nqn id) ≡ none)
        × ((p : String)
            → exported T V node t p
              ≡ put
                  (volume_nqn id)
                  (some (record { bdevs = id ∷ []; listeners = own_listener node ∷ [] }))
                  (exported T V node c)
                  p)
  unfolding publish_new create_subsystem
  publish_new-exports id c h =
      let q = volume_nqn id in
      let (a, c1, carried, rest) =
        >>=-eq-done (create_transport T node)
          (λ _. create_subsystem T node id >>= λ _. publish_namespace T node id) c h in
      let (b, c2, creates, last) =
        >>=-eq-done (create_subsystem T node id) (λ _. publish_namespace T node id) c1 rest in
      let (absent, made) = V.created (next_id T c1) q "spdkcsi-sn" (volume_model id) true c1.world (
        checked-IsAnswered T V node tt T.decode_nothing "nvmf_create_subsystem"
          (Params.subsystem q true "spdkcsi-sn" (volume_model id)) c1 creates) in
      let kept = create_transport-Keeps T V node c carried in
      (
        ground (arith, kept q, absent),
        λ p. ground (
          arith,
          kept p,
          made p,
          made q,
          eq_iff q q,
          publish_namespace-exports id c2 last (ground (arith, made q, eq_iff q q)) p,
        ),
      )

  publish_spec-exported :
      (id : String) (x : Exports) (p : String)
      → is_exported node (x (volume_nqn id)) ≡ true
      → publish_spec node id x p ≡ x p
  publish_spec-exported id x p h = rw h

  pub publish_spec-absent :
      (id : String) (x : Exports) (p : String)
      → x (volume_nqn id) ≡ none
      → publish_spec node id x p
        ≡ put
            (volume_nqn id)
            (some (record { bdevs = id ∷ []; listeners = own_listener node ∷ [] }))
            x
            p
  publish_spec-absent id x p h = rw h

  guarded-exports :
      (id : String) (b : Bool) (c u : Client T.State) {a : Unit {0}} {t : Client T.State}
      → published_volume T node id c ≡ done b u
      → (if b then pure tt else publish_new T node id) u ≡ done a t
      → (p : String) → exported T V node t p ≡ publish_spec node id (exported T V node c) p
  guarded-exports id true c u guard rest p = ground (
    arith,
    published_volume-Keeps T V node id c guard p,
    publish_spec-exported id (exported T V node c) p
        (published_volume-exported T V node id c guard),
  )
  guarded-exports id false c u guard rest p =
      let kept = published_volume-Keeps T V node id c guard in
      let (absent, made) = publish_new-exports id u rest in
      ground (
        arith,
        kept p,
        made p,
        publish_spec-absent id (exported T V node c) p (sym (kept (volume_nqn id)) ∙ absent),
      )

  -- If `PublishVolume` succeeds, the target exports what `publish_spec` says: a volume that the node exported
  -- is left as it was, and another volume, whose subsystem did not exist, has one with its namespace and the
  -- listener of the node; no other subsystem is touched.
  pub publish_volume_refines :
      (id : String) (c : Client T.State) {a : Unit {0}} {t : Client T.State}
      → publish_volume T node id c ≡ done a t
      → (p : String) → exported T V node t p ≡ publish_spec node id (exported T V node c) p
  unfolding publish_volume
  publish_volume_refines id c h =
      let (b, u, guard, rest) =
        >>=-eq-done (published_volume T node id)
          (λ published. if published then pure tt else publish_new T node id) c h in
      guarded-exports id b c u guard rest
