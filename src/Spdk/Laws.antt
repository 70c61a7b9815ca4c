-- ===== src/Spdk/Laws.antt =====
-- util/nvmf.go: the branches of `PublishVolume` and `UnpublishVolume`, what they undo, and the
-- transport that is made once.
use nvmeof_csi.Base.{
  ℕ, ◌≡◌, ◌≢◌, refl, String, true, false, err, Error, wrapped, done, failed, halted, panic, final,
  Halt, arith, ◌⊎◌, ◌↔◌, List, [], ◌∷◌, string_eq, eq_iff, none,
}
use nvmeof_csi.Rpc.Call.{
  Client, Transport, call, checked, error_matches, no_such_device, Params, Response, Listener, nqn,
}
use nvmeof_csi.Rpc.Volumes.{Call}
use nvmeof_csi.Rpc.Laws.{request, after, is_volume_created_unanswered}
use nvmeof_csi.Spdk.Node.{NodeNvmf, volume_nqn}
use nvmeof_csi.Spdk.Publishing.{
  create_transport, request_transport, publish_volume, unpublish_volume, publish_new,
  publish_namespace, publish_listener, unpublish_existing, published_volume, create_subsystem,
  delete_subsystem, subsystem_add_ns, subsystem_add_listener, subsystem_remove_ns,
  subsystem_get_ns_id, ignored, is_volume_published, has_own_listener, is_own_listener,
}

-- One of the listeners is the node's, over IPv4.
abbrev pub ListensAt : NodeNvmf → List Listener → Type 0
ListensAt node [] = ⊥
ListensAt node (l ∷ rest) =
    ((l.trtype ≡ node.target_type)
      × (l.traddr ≡ node.target_addr)
      × (l.trsvcid ≡ node.target_port)
      × (l.adrfam ≡ "IPv4"))
    ⊎ ListensAt node rest

has_own_listener_iff :
    (node : NodeNvmf) (ls : List Listener) → (has_own_listener node ls ≡ true) ↔ ListensAt node ls
unfolding has_own_listener is_own_listener
has_own_listener_iff node [] = (λ h. cc, λ h. absurd h)
has_own_listener_iff node (l ∷ ls) = ground (
  arith,
  has_own_listener_iff node ls,
  eq_iff l.trtype node.target_type,
  eq_iff l.traddr node.target_addr,
  eq_iff l.trsvcid node.target_port,
  eq_iff l.adrfam "IPv4",
)

module _ (T : Transport) (node : NodeNvmf) where
  request_transport-sets :
      (c t : Client T.State) → request_transport T node c ≡ done tt t → t.trans_created ≡ true
  unfolding request_transport call
  request_transport-sets c t h = ground arith

  -- After a first call of `createTransport` that succeeds, the flag is set, and a second call succeeds
  -- without a request.
  create_transport_once :
      (c t : Client T.State)
      → create_transport T node c ≡ done tt t
      → (t.trans_created ≡ true) × (create_transport T node t ≡ done tt t)
  unfolding create_transport request_transport
  create_transport_once c t h = ground (arith, request_transport-sets c t)

  -- A call that came back, with its value and its error dropped.
  pub ignored-returns :
      {A : Type 0} (m : Call T A) (c : Client T.State)
      → ((k : Halt) (t : Client T.State) → m c ≢ halted k t)
      → ignored T node m c ≡ done tt (final (m c))
  ignored-returns m c h =
      elim (m c) as (λ r. m c ≡ r → ignored T node m c ≡ done tt (final (m c))) [
        | done a t ↦ λ e. ground arith
        | failed x t ↦ λ e. ground arith
        | halted k t ↦ λ e. absurd (h k t e)
      ]
        refl

  checked-call-returns :
      {A : Type 0} (init : A) (decode : T.Body → Response A) (method : String) (ps : Params)
      → (c : Client T.State) (k : Halt) (t : Client T.State)
      → checked T (call T init decode method ps) c ≢ halted k t
  unfolding checked call
  checked-call-returns init decode method ps c k t h = ground arith

  pub delete_subsystem-returns :
      (id : String) (c : Client T.State) (k : Halt) (t : Client T.State)
      → delete_subsystem T node id c ≢ halted k t
  unfolding delete_subsystem
  delete_subsystem-returns id c k t = checked-call-returns _ _ _ _ c k t

  pub subsystem_remove_ns-returns :
      (id : String) (c : Client T.State) (k : Halt) (t : Client T.State)
      → subsystem_remove_ns T node id c ≢ halted k t
  unfolding subsystem_remove_ns subsystem_get_ns_id checked call
  subsystem_remove_ns-returns id c k t h = ground arith

  -- Where the target lists the listeners of a volume's subsystem, the volume counts as published
  -- exactly when one of them has the node's transport, address and port, over IPv4.
  is_volume_published_iff :
      (id : String) (c t : Client T.State) (ls : List Listener)
      → call T [] T.decode_listeners "nvmf_subsystem_get_listeners" (nqn (volume_nqn id)) c
        ≡ done (record { result = ls; error = none }) t
      → (is_volume_published T node id c ≡ done true t) ↔ ListensAt node ls
  unfolding is_volume_published
  is_volume_published_iff id c t ls h = ground (arith, has_own_listener_iff node ls)

  -- `UnpublishVolume` of a volume that is published deletes its subsystem and returns what that
  -- returns, whether or not its namespace could be removed before.
  pub unpublish_volume_deletes :
      (id : String) (c c1 : Client T.State)
      → published_volume T node id c ≡ done true c1
      → unpublish_volume T node id c
        ≡ delete_subsystem T node id (final (subsystem_remove_ns T node id c1))
  unfolding unpublish_volume unpublish_existing
  unpublish_volume_deletes id c c1 h = ground (
    arith,
    ignored-returns (subsystem_remove_ns T node id) c1 (subsystem_remove_ns-returns id c1),
  )

  -- Once the transport and the subsystem of a volume are made, and its namespace is added, a listener
  -- that fails makes `PublishVolume` remove the namespace, delete the subsystem and return the
  -- listener's error, whatever those two return.
  publish_volume_rolls_back :
      (id : String) (c c1 c2 c3 c4 c5 : Client T.State) {n : ℕ} {e : Error}
      → published_volume T node id c ≡ done false c1
      → create_transport T node c1 ≡ done tt c2
      → create_subsystem T node id c2 ≡ done tt c3
      → subsystem_add_ns T node id c3 ≡ done n c4
      → subsystem_add_listener T node id c4 ≡ failed e c5
      → publish_volume T node id c
        ≡ failed e (final (delete_subsystem T node id (final (subsystem_remove_ns T node id c5))))
  unfolding publish_volume publish_new publish_namespace publish_listener
  publish_volume_rolls_back id c c1 c2 c3 c4 c5 h made subsystem added refused =
      let c6 = final (subsystem_remove_ns T node id c5) in
      ground (
        arith,
        ignored-returns (subsystem_remove_ns T node id) c5 (subsystem_remove_ns-returns id c5),
        ignored-returns (delete_subsystem T node id) c6 (delete_subsystem-returns id c6),
      )

  -- Once the transport and the subsystem of a volume are made, a namespace that is not added makes
  -- `PublishVolume` delete the subsystem and return the error of the namespace, whatever the deletion
  -- returns.
  publish_volume_deletes :
      (id : String) (c c1 c2 c3 c4 : Client T.State) {e : Error}
      → published_volume T node id c ≡ done false c1
      → create_transport T node c1 ≡ done tt c2
      → create_subsystem T node id c2 ≡ done tt c3
      → subsystem_add_ns T node id c3 ≡ failed e c4
      → publish_volume T node id c ≡ failed e (final (delete_subsystem T node id c4))
  unfolding publish_volume publish_new publish_namespace
  publish_volume_deletes id c c1 c2 c3 c4 h made subsystem refused =
      ground
        (arith, ignored-returns (delete_subsystem T node id) c4 (delete_subsystem-returns id c4))

  -- When the target does not answer the first request of `PublishVolume`, with an error that does
  -- not read like "No such device", the call panics, and so does `UnpublishVolume`.
  pub publish_volume_unanswered :
      (id : String) (c : Client T.State) (e : Error) (w : T.State)
      → T.post (request T "bdev_get_bdevs" (Params.name id) c) c.world ≡ (err e, w)
      → error_matches (wrapped "bdev_get_bdevs" e) no_such_device ≡ false
      → (publish_volume T node id c ≡ halted panic (after T c w))
        × (unpublish_volume T node id c ≡ halted panic (after T c w))
  unfolding publish_volume unpublish_volume published_volume
  publish_volume_unanswered id c e w h unlike =
      ground (arith, (is_volume_created_unanswered T id c e w h unlike).1)
