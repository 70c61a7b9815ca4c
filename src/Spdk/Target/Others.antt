-- ===== src/Spdk/Target/Others.antt =====
-- util/nvmf.go: what the requests of `PublishVolume` do to the subsystems of other volumes.
use nvmeof_csi.Base.{
  ℕ, String, ◌≡◌, ◌⊎◌, inl, inr, refl, false, some, [], Error, arith, done, failed, halted, final,
  ◌==◌, string_eq,
}
use nvmeof_csi.Rpc.Call.{Transport, Client, Response, Params, call, checked, nqn}
use nvmeof_csi.Rpc.Volumes.{is_volume_created}
use nvmeof_csi.Rpc.Laws.{request}
use nvmeof_csi.Spdk.Laws.{ignored-returns, delete_subsystem-returns, subsystem_remove_ns-returns}
use nvmeof_csi.Spdk.Node.{NodeNvmf, volume_nqn}
use nvmeof_csi.Spdk.Publishing.{
  create_transport, publish_namespace, publish_listener, published_volume, delete_subsystem,
  subsystem_add_ns, subsystem_add_listener, subsystem_remove_ns, is_volume_published,
}
use nvmeof_csi.Spdk.Target.{TargetView, names_subsystem}
use nvmeof_csi.Spdk.Target.Calls.{
  exported, Keeps, call-Keeps, call-posts, checked-final, is_volume_created-final,
  is_volume_published-final, request_transport-final,
}
use nvmeof_csi.Spdk.Target.Withdrawal.{subsystem_remove_ns-others}

module _ (T : Transport) (V : TargetView T) (node : NodeNvmf) (id : String) where
  -- The subsystems of other volumes are left alone.
  abbrev pub KeepsOthers : Client T.State → Client T.State → Type 0
  KeepsOthers c t =
      (p : String) → (p == volume_nqn id) ≡ false → exported T V node t p ≡ exported T V node c p

  pub checked-KeepsOthers :
      {A : Type 0} (init : A) (decode : T.Body → Response A) (method : String) (ps : Params)
      (c : Client T.State)
      → names_subsystem ps ≡ some (volume_nqn id)
      → KeepsOthers c (final (checked T (call T init decode method ps) c))
  checked-KeepsOthers init decode method ps c names p h = ground (
    arith,
    checked-final T V node (call T init decode method ps) c,
    call-posts T V node init decode method ps c,
    V.others_kept (request T method ps c) (volume_nqn id) c.world p names h,
  )

  is_volume_created-all : (c : Client T.State) → Keeps T V node c (final (is_volume_created T id c))
  is_volume_created-all c p = ground (
    arith,
    is_volume_created-final T V node id c,
    call-Keeps T V node [] T.decode_bdevs "bdev_get_bdevs" (Params.name id) c refl p,
  )

  is_volume_published-all :
      (c : Client T.State) → Keeps T V node c (final (is_volume_published T node id c))
  is_volume_published-all c p = ground (
    arith,
    is_volume_published-final T V node id c,
    call-Keeps T V node [] T.decode_listeners "nvmf_subsystem_get_listeners" (nqn (volume_nqn id)) c
        refl p,
  )

  pub published_volume-all :
      (c : Client T.State) → Keeps T V node c (final (published_volume T node id c))
  unfolding published_volume
  published_volume-all c p =
      elim (is_volume_created T id c)
          as (λ r.
            is_volume_created T id c ≡ r
            → exported T V node (final (published_volume T node id c)) p ≡ exported T V node c p) [
              | done exists u ↦
                  λ e. ground (arith, is_volume_created-all c p, is_volume_published-all u p)
              | failed x u ↦ λ e. ground (arith, is_volume_created-all c p)
              | halted k u ↦ λ e. ground (arith, is_volume_created-all c p)
            ]
        refl

  pub create_transport-all :
      (c : Client T.State) → Keeps T V node c (final (create_transport T node c))
  unfolding create_transport
  create_transport-all c p = ground (
    arith,
    request_transport-final T V node c,
    V.left_alone (request T "nvmf_create_transport" (Params.transport node.target_type) c) c.world p
        refl,
  )

  -- The last request of a roll-back is the deletion of the subsystem.
  abbrev ListenerFailed : Client T.State → Error → Client T.State → Type 0
  ListenerFailed c e v =
      (u : Client T.State) × (subsystem_add_listener T node id c ≡ failed e u)
      × (v ≡ final (subsystem_remove_ns T node id u))

  -- The namespace or the listener of a subsystem that was made in `c` failed, and `v` is where its
  -- deletion starts.
  abbrev pub UndoneFrom : Client T.State → Error → Client T.State → Type 0
  UndoneFrom c e v =
      (subsystem_add_ns T node id c ≡ failed e v)
      ⊎ ((n : ℕ) × (d : Client T.State) × (subsystem_add_ns T node id c ≡ done n d)
          × ListenerFailed d e v)

  publish_listener-failed :
      (c : Client T.State) {e : Error} {t : Client T.State}
      → publish_listener T node id c ≡ failed e t
      → (v : Client T.State) × (t ≡ final (delete_subsystem T node id v))
        × KeepsOthers c v
        × ListenerFailed c e v
  unfolding publish_listener subsystem_add_listener
  publish_listener-failed c {e} {t} h =
      let ps =
        Params.add_listener (volume_nqn id) node.target_type "IPv4" node.target_addr
          node.target_port in
      let asked = checked-KeepsOthers tt T.decode_nothing "nvmf_subsystem_add_listener" ps c refl in
      elim (subsystem_add_listener T node id c)
          as (λ r.
            subsystem_add_listener T node id c ≡ r
            → (v : Client T.State) × (t ≡ final (delete_subsystem T node id v))
              × KeepsOthers c v
              × ListenerFailed c e v) [
                | done a u ↦ λ q. absurd (ground (arith, q))
                | failed x u ↦ λ q. (
                  final (subsystem_remove_ns T node id u),
                  ground (
                    arith,
                    q,
                    ignored-returns T node (subsystem_remove_ns T node id) u
                        (subsystem_remove_ns-returns T node id u),
                    ignored-returns T node (delete_subsystem T node id)
                        (final (subsystem_remove_ns T node id u))
                        (delete_subsystem-returns T node id
                          (final (subsystem_remove_ns T node id u))),
                  ),
                  λ p other.
                      ground
                        (arith, q, asked p other, subsystem_remove_ns-others T V node id u p other),
                  (u, ground (arith, q), refl),
                )
                | halted k u ↦ λ q. absurd (ground (arith, q))
              ]
        refl

  pub publish_namespace-failed :
      (c : Client T.State) {e : Error} {t : Client T.State}
      → publish_namespace T node id c ≡ failed e t
      → (v : Client T.State) × (t ≡ final (delete_subsystem T node id v))
        × KeepsOthers c v
        × UndoneFrom c e v
  unfolding publish_namespace subsystem_add_ns
  publish_namespace-failed c {e} {t} h =
      let asked =
        checked-KeepsOthers 0 T.decode_number "nvmf_subsystem_add_ns"
          (Params.add_ns (volume_nqn id) id) c refl in
      elim (subsystem_add_ns T node id c)
          as (λ r.
            subsystem_add_ns T node id c ≡ r
            → (v : Client T.State) × (t ≡ final (delete_subsystem T node id v))
              × KeepsOthers c v
              × UndoneFrom c e v) [
                | done n u ↦ λ q.
                    let (v, ends, kept, refused) =
                      publish_listener-failed u {e = e} {t = t} (ground (arith, q)) in
                    (
                      v,
                      ends,
                      λ p other. ground (arith, q, asked p other, kept p other),
                      inr (n, u, q, refused),
                    )
                | failed x u ↦ λ q. (
                  u,
                  ground (
                    arith,
                    q,
                    ignored-returns T node (delete_subsystem T node id) u
                        (delete_subsystem-returns T node id u),
                  ),
                  λ p other. ground (arith, q, asked p other),
                  inl (ground (arith, q)),
                )
                | halted k u ↦ λ q. absurd (ground (arith, q))
              ]
        refl
