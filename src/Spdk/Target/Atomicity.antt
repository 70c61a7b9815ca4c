-- ===== src/Spdk/Target/Atomicity.antt =====
-- util/nvmf.go: what a `PublishVolume` that fails leaves of the exports of the target.
use nvmeof_csi.Base.{
  String, ◌≡◌, ◌⊎◌, inl, inr, refl, sym, subst, ◌∙◌, Bool, true, false, none, Error, arith, done,
  failed, halted, final, ◌==◌, string_eq, eq_iff, if◌then◌else◌, pure, ◌>>=◌,
}
use nvmeof_csi.Rpc.Call.{Transport, Client, Params, nqn, next_id}
use nvmeof_csi.Spdk.Laws.{delete_subsystem-returns}
use nvmeof_csi.Spdk.Node.{NodeNvmf, volume_nqn, volume_model}
use nvmeof_csi.Spdk.Publishing.{
  create_transport, publish_volume, publish_new, publish_namespace, published_volume,
  create_subsystem, delete_subsystem,
}
use nvmeof_csi.Spdk.Target.{TargetView}
use nvmeof_csi.Spdk.Target.Calls.{exported, checked-IsAnswered}
use nvmeof_csi.Spdk.Target.Others.{
  KeepsOthers, checked-KeepsOthers, published_volume-all, create_transport-all,
  publish_namespace-failed, UndoneFrom,
}

module _ (T : Transport) (V : TargetView T) (node : NodeNvmf) (id : String) where
  -- After its creation in `c`, the subsystem's namespace or listener failed with `e`, and the deletion
  -- that took it back failed too, in `t`.
  abbrev pub DeletionFailed : Client T.State → Error → Client T.State → Type 0
  DeletionFailed c e t =
      (v : Client T.State) × UndoneFrom T V node id c e v
      × ((d : Error) × (delete_subsystem T node id v ≡ failed d t))

  -- The creation of the subsystem in `c` failed with `e` in `t`, or it succeeded and a deletion failed.
  abbrev pub SubsystemFailed : Client T.State → Error → Client T.State → Type 0
  SubsystemFailed c e t =
      (create_subsystem T node id c ≡ failed e t)
      ⊎ ((u : Client T.State) × (create_subsystem T node id c ≡ done tt u) × DeletionFailed u e t)

  -- The call from `c` found the volume not published, made the transport, and ended in `t` with the
  -- creation of the subsystem or the deletion of it that failed.
  abbrev pub LastFailed : Client T.State → Error → Client T.State → Type 0
  LastFailed c e t =
      (c1 c2 : Client T.State) × (published_volume T node id c ≡ done false c1)
      × (create_transport T node c1 ≡ done tt c2)
      × SubsystemFailed c2 e t

  deletion_lem :
      (v : Client T.State)
      → (exported T V node (final (delete_subsystem T node id v)) (volume_nqn id) ≡ none)
        ⊎ ((d : Error) × (delete_subsystem T node id v
              ≡ failed d (final (delete_subsystem T node id v))))
  unfolding delete_subsystem
  deletion_lem v =
      elim (delete_subsystem T node id v)
          as (λ r.
            delete_subsystem T node id v ≡ r
            → (exported T V node (final (delete_subsystem T node id v)) (volume_nqn id) ≡ none)
              ⊎ ((d : Error) × (delete_subsystem T node id v
                    ≡ failed d (final (delete_subsystem T node id v))))) [
                      | done a t ↦ λ q.
                          let gone = V.deleted (next_id T v) (volume_nqn id) v.world (
                            checked-IsAnswered T V node tt T.decode_nothing "nvmf_delete_subsystem"
                              (nqn (volume_nqn id)) v q) in
                          inl (
                            ground (
                              arith,
                              q,
                              gone (volume_nqn id),
                              eq_iff (volume_nqn id) (volume_nqn id),
                            ))
                      | failed d t ↦ λ q. inr (d, ground (arith, q))
                      | halted k t ↦ λ q. absurd (delete_subsystem-returns T node id v k t q)
                    ]
        refl

  publish_namespace_lem :
      (c : Client T.State) {e : Error} {t : Client T.State}
      → publish_namespace T node id c ≡ failed e t
      → KeepsOthers T V node id c t
        × ((exported T V node t (volume_nqn id) ≡ none) ⊎ DeletionFailed c e t)
  unfolding delete_subsystem
  publish_namespace_lem c {e} {t} h =
      let (v, ends, kept, undone) = publish_namespace-failed T V node id c h in
      let asked =
        checked-KeepsOthers T V node id tt T.decode_nothing "nvmf_delete_subsystem"
          (nqn (volume_nqn id)) v refl in
      (
        λ p other. ground (arith, ends, asked p other, kept p other),
        subst (λ u. (exported T V node u (volume_nqn id) ≡ none) ⊎ DeletionFailed c e u) (sym ends)
            (elim (deletion_lem v) [
              | inl gone ↦ inl gone
              | inr (d, refused) ↦ inr (v, undone, (d, refused))
            ]),
      )

  abbrev Outcome :
      (Client T.State → Error → Client T.State → Type 0)
      → Client T.State
      → Error
      → Client T.State
      → Type 0
  Outcome Last c e t =
      KeepsOthers T V node id c t
      × ((exported T V node t (volume_nqn id) ≡ exported T V node c (volume_nqn id)) ⊎ Last c e t)

  publish_subsystem-Outcome :
      (c : Client T.State) {e : Error} {t : Client T.State}
      → (create_subsystem T node id >>= λ _. publish_namespace T node id) c ≡ failed e t
      → Outcome SubsystemFailed c e t
  unfolding create_subsystem
  publish_subsystem-Outcome c {e} {t} h =
      let ps = Params.subsystem (volume_nqn id) true "spdkcsi-sn" (volume_model id) in
      let asked =
        checked-KeepsOthers T V node id tt T.decode_nothing "nvmf_create_subsystem" ps c refl in
      elim (create_subsystem T node id c)
          as (λ r. create_subsystem T node id c ≡ r → Outcome SubsystemFailed c e t) [
            | done a u ↦ λ q.
                let (absent, made) =
                  V.created (next_id T c) (volume_nqn id) "spdkcsi-sn" (volume_model id) true
                    c.world
                    (checked-IsAnswered T V node tt T.decode_nothing "nvmf_create_subsystem" ps c
                      q) in
                let (kept, left) = publish_namespace_lem u {e = e} {t = t} (ground (arith, q, h)) in
                (
                  λ p other. ground (arith, q, asked p other, kept p other),
                  elim left [
                    | inl gone ↦ inl (gone ∙ sym absent)
                    | inr last ↦ inr (inr (u, q, last))
                  ],
                )
            | failed x u ↦ λ q.
                (λ p other. ground (arith, q, h, asked p other), inr (inl (ground (arith, q, h))))
            | halted k u ↦ λ q. absurd (ground (arith, q, h))
          ]
        refl

  abbrev TransportMade : Client T.State → Error → Client T.State → Type 0
  TransportMade c e t =
      (u : Client T.State) × (create_transport T node c ≡ done tt u) × SubsystemFailed u e t

  publish_new-Outcome :
      (c : Client T.State) {e : Error} {t : Client T.State}
      → publish_new T node id c ≡ failed e t
      → Outcome TransportMade c e t
  unfolding publish_new
  publish_new-Outcome c {e} {t} h =
      elim (create_transport T node c)
          as (λ r. create_transport T node c ≡ r → Outcome TransportMade c e t) [
            | done a u ↦ λ q.
                let (kept, left) =
                  publish_subsystem-Outcome u {e = e} {t = t} (ground (arith, q, h)) in
                let before = create_transport-all T V node id c in
                (
                  λ p other. ground (arith, q, before p, kept p other),
                  elim left [
                    | inl same ↦ inl (ground (arith, q, before (volume_nqn id), same))
                    | inr last ↦ inr (u, q, last)
                  ],
                )
            | failed x u ↦ λ q. (
              λ p other. ground (arith, q, h, create_transport-all T V node id c p),
              inl (ground (arith, q, h, create_transport-all T V node id c (volume_nqn id))),
            )
            | halted k u ↦ λ q. absurd (ground (arith, q, h))
          ]
        refl

  guarded-Outcome :
      (b : Bool) (c u : Client T.State) {e : Error} {t : Client T.State}
      → published_volume T node id c ≡ done b u
      → (if b then pure tt else publish_new T node id) u ≡ failed e t
      → Outcome LastFailed c e t
  guarded-Outcome true c u guard h = absurd (ground (arith, h))
  guarded-Outcome false c u {e} {t} guard h =
      let before = published_volume-all T V node id c in
      let (kept, left) = publish_new-Outcome u {e = e} {t = t} h in
      (
        λ p other. ground (arith, guard, before p, kept p other),
        elim left [
          | inl same ↦ inl (ground (arith, guard, before (volume_nqn id), same))
          | inr (v, made, last) ↦ inr (u, v, guard, made, last)
        ],
      )

  publish_volume-Outcome :
      (c : Client T.State) {e : Error} {t : Client T.State}
      → publish_volume T node id c ≡ failed e t
      → Outcome LastFailed c e t
  unfolding publish_volume
  publish_volume-Outcome c {e} {t} h =
      elim (published_volume T node id c)
          as (λ r. published_volume T node id c ≡ r → Outcome LastFailed c e t) [
            | done b u ↦ λ q. guarded-Outcome b c u q (ground (arith, q, h))
            | failed x u ↦ λ q.
                let before = published_volume-all T V node id c in
                (
                  λ p other. ground (arith, q, h, before p),
                  inl (ground (arith, q, h, before (volume_nqn id))),
                )
            | halted k u ↦ λ q. absurd (ground (arith, q, h))
          ]
        refl

  -- On a target whose methods do what SPDK documents: a `PublishVolume` that fails, at whatever request,
  -- leaves every other subsystem as it was, and the volume's subsystem too, unless this call found the
  -- volume not published, made the transport, and then ended in one of two ways: its creation of the
  -- subsystem failed, or the creation succeeded, the namespace or the listener failed, and the deletion
  -- that took the subsystem back failed.
  pub publish_volume_restores :
      (c : Client T.State) {e : Error} {t : Client T.State} (p : String)
      → publish_volume T node id c ≡ failed e t
      → (p == volume_nqn id) ≡ false
      → (exported T V node t p ≡ exported T V node c p)
        × ((exported T V node t (volume_nqn id) ≡ exported T V node c (volume_nqn id))
            ⊎ LastFailed c e t)
  publish_volume_restores c p h other =
      let (kept, left) = publish_volume-Outcome c h in (kept p other, left)
