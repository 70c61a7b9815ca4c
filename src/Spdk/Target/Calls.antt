-- ===== src/Spdk/Target/Calls.antt =====
-- util/nvmf.go: what the requests of the storage node leave of the exports of the target.
use nvmeof_csi.Base.{
  String, ◌≡◌, refl, sym, ap, ◌∙◌, Bool, true, List, [], arith, done, final, if◌then◌else◌,
  string_eq, >>=-eq-done, fail,
}
use nvmeof_csi.Rpc.Call.{
  Answer, Transport, Client, Response, Params, call, checked, Listener, nqn, read_answer, next_id,
  volume_deleted,
}
use nvmeof_csi.Rpc.Volumes.{Call, is_volume_created, get_volume, first_volume, first_result}
use nvmeof_csi.Rpc.Laws.{request, checked-call_iff}
use nvmeof_csi.Spdk.Node.{NodeNvmf, volume_nqn}
use nvmeof_csi.Spdk.Publishing.{
  create_transport, request_transport, published_volume, is_volume_published, has_own_listener,
}
use nvmeof_csi.Spdk.Target.{Exports, IsAnswered, leaves_subsystems, TargetView, is_exported}

module _ (T : Transport) (V : TargetView T) (node : NodeNvmf) where
  -- What the target exports after a call.
  abbrev pub exported : Client T.State → Exports
  exported c = V.exports c.world

  abbrev pub Keeps : Client T.State → Client T.State → Type 0
  Keeps c t = (p : String) → exported t p ≡ exported c p

  pub checked-IsAnswered :
      {A : Type 0} (init : A) (decode : T.Body → Response A) (method : String) (ps : Params)
      → (c : Client T.State) {a : A} {t : Client T.State}
      → checked T (call T init decode method ps) c ≡ done a t
      → IsAnswered T decode (request T method ps c) c.world a t.world
  checked-IsAnswered init decode method ps c {a} {t} h =
      let (resp, w, sent, moved, status, rest) =
        (checked-call_iff T init decode method ps c a t).0 h in
      (resp, ground (arith, sent, moved), status, rest)

  pub call-posts :
      {A : Type 0} (init : A) (decode : T.Body → Response A) (method : String) (ps : Params)
      → (c : Client T.State)
      → (final (call T init decode method ps c)).world ≡ (T.post (request T method ps c) c.world).1
  unfolding call
  call-posts init decode method ps c = refl

  pub call-Keeps :
      {A : Type 0} (init : A) (decode : T.Body → Response A) (method : String) (ps : Params)
      → (c : Client T.State) → leaves_subsystems method ≡ true
      → Keeps c (final (call T init decode method ps c))
  unfolding call
  call-Keeps init decode method ps c h p = V.left_alone (request T method ps c) c.world p h

  pub is_volume_created-final :
      (id : String) (c : Client T.State)
      → final (is_volume_created T id c)
        ≡ final (call T [] T.decode_bdevs "bdev_get_bdevs" (Params.name id) c)
  unfolding is_volume_created get_volume first_volume first_result call
  is_volume_created-final id c = ground arith

  pub is_volume_published-final :
      (id : String) (c : Client T.State)
      → final (is_volume_published T node id c)
        ≡ final
            (call T [] T.decode_listeners "nvmf_subsystem_get_listeners" (nqn (volume_nqn id)) c)
  unfolding is_volume_published call
  is_volume_published-final id c = ground arith

  listeners-checked :
      (id : String) (c : Client T.State) {t : Client T.State}
      → is_volume_published T node id c ≡ done true t
      → (ls : List Listener) × (checked T
            (call T [] T.decode_listeners "nvmf_subsystem_get_listeners" (nqn (volume_nqn id)))
            c
          ≡ done ls t)
        × (has_own_listener node ls ≡ true)
  unfolding is_volume_published checked call
  listeners-checked id c h =
      let a =
        read_answer "nvmf_subsystem_get_listeners" [] T.decode_listeners (next_id T c)
          (T.post (request T "nvmf_subsystem_get_listeners" (nqn (volume_nqn id)) c) c.world).0 in
      (a.result, ground arith, ground arith)

  is_volume_published-exported :
      (id : String) (c : Client T.State) {t : Client T.State}
      → is_volume_published T node id c ≡ done true t
      → is_exported node (exported c (volume_nqn id)) ≡ true
  is_volume_published-exported id c h =
      let (ls, checks, own) = listeners-checked id c h in
      let (e, found, same) = V.listed (next_id T c) (volume_nqn id) c.world (
        checked-IsAnswered [] T.decode_listeners "nvmf_subsystem_get_listeners"
          (nqn (volume_nqn id)) c checks) in
      ground (arith, found, same, own)

  is_volume_created-Keeps :
      (id : String) (c : Client T.State) {b : Bool} {t : Client T.State}
      → is_volume_created T id c ≡ done b t
      → Keeps c t
  is_volume_created-Keeps id c h p = ground (
    arith,
    is_volume_created-final id c,
    call-Keeps [] T.decode_bdevs "bdev_get_bdevs" (Params.name id) c refl p,
  )

  is_volume_published-Keeps :
      (id : String) (c : Client T.State) {b : Bool} {t : Client T.State}
      → is_volume_published T node id c ≡ done b t
      → Keeps c t
  is_volume_published-Keeps id c h p = ground (
    arith,
    is_volume_published-final id c,
    call-Keeps [] T.decode_listeners "nvmf_subsystem_get_listeners" (nqn (volume_nqn id)) c refl p,
  )

  guard-eq-done :
      (id : String) (exists : Bool) (c : Client T.State) {b : Bool} {t : Client T.State}
      → (if exists then is_volume_published T node id else fail volume_deleted) c ≡ done b t
      → is_volume_published T node id c ≡ done b t
  guard-eq-done id exists c h = ground arith

  published_volume-steps :
      (id : String) (c : Client T.State) {b : Bool} {t : Client T.State}
      → published_volume T node id c ≡ done b t
      → (exists : Bool) × (u : Client T.State) × (is_volume_created T id c ≡ done exists u)
        × (is_volume_published T node id u ≡ done b t)
  unfolding published_volume
  published_volume-steps id c h =
      let (exists, u, created, rest) =
        >>=-eq-done (is_volume_created T id)
          (λ exists. if exists then is_volume_published T node id else fail volume_deleted) c h in
      (exists, u, created, guard-eq-done id exists u rest)

  pub published_volume-Keeps :
      (id : String) (c : Client T.State) {b : Bool} {t : Client T.State}
      → published_volume T node id c ≡ done b t
      → Keeps c t
  published_volume-Keeps id c h p =
      let (exists, u, created, rest) = published_volume-steps id c h in
      is_volume_published-Keeps id u rest p ∙ is_volume_created-Keeps id c created p

  pub published_volume-exported :
      (id : String) (c : Client T.State) {t : Client T.State}
      → published_volume T node id c ≡ done true t
      → is_exported node (exported c (volume_nqn id)) ≡ true
  published_volume-exported id c h =
      let (exists, u, created, rest) = published_volume-steps id c h in
      ap (is_exported node) (sym (is_volume_created-Keeps id c created (volume_nqn id)))
      ∙ is_volume_published-exported id u rest

  pub request_transport-final :
      (c : Client T.State)
      → (final (request_transport T node c)).world
        ≡ (T.post
            (request T "nvmf_create_transport" (Params.transport node.target_type) c)
            c.world).1
  unfolding request_transport call
  request_transport-final c = ground arith

  pub create_transport-Keeps :
      (c : Client T.State) {a : Unit {0}} {t : Client T.State}
      → create_transport T node c ≡ done a t
      → Keeps c t
  unfolding create_transport
  create_transport-Keeps c h p = ground (
    arith,
    request_transport-final c,
    V.left_alone (request T "nvmf_create_transport" (Params.transport node.target_type) c) c.world p
        refl,
  )

  pub checked-final :
      {A : Type 0} (m : Call T (Answer A)) (c : Client T.State)
      → final (checked T m c) ≡ final (m c)
  unfolding checked
  checked-final m c = ground arith
