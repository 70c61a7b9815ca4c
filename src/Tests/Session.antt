-- ===== src/Tests/Session.antt =====
-- Two volumes of one controller, over a gateway that counts its namespaces.
use nvmeof_csi.Base.{
  ℕ, ◌+◌, ◌<◌, ◌^◌, String, Bool, true, false, ◌&&◌, ◌≡◌, ◌≢◌, refl, none, List, [], ◌∷◌, ok,
  Result, arith, done, ltb, ◌==◌, nat_eq, string_eq, eq_iff, if◌then◌else◌,
}
use nvmeof_csi.Locks.{Server, new_volume_locks}
use nvmeof_csi.Locks.Laws.{AllFree, with_lock_done, relocked, relocked-AllFree}
use nvmeof_csi.Driver.Gateway.{Gateway, NamespaceAddReq, NsidStatus}
use nvmeof_csi.Driver.Controller.Create.{
  CreateVolumeRequest, Volume, namespace_add_req, create_volume_locked, handle_create_volume,
}
use nvmeof_csi.Driver.Controller.Create.Laws.{create_volume_done}
use nvmeof_csi.Driver.Controller.Publish.{controller_publish_volume, published, find_uuid}
use nvmeof_csi.Driver.Controller.Session.{NamespaceView, Request, publishes, attempt, attempt_all}
use nvmeof_csi.Driver.Controller.Session.Distinct.{volume_ids_distinct}
use nvmeof_csi.Tests.Codec.{codec, codec-IsLawful}

-- The next namespace ID, and the namespaces that were added and not deleted.
record Counting : Type 0 where
  next : ℕ
  held : String → ℕ → Bool

abbrev set : String → ℕ → Bool → (String → ℕ → Bool) → String → ℕ → Bool
set q n b held p m = if q == p && n == m then b else held p m

abbrev has : Counting → String → ℕ → Bool
has g q n = ltb n g.next && g.held q n

abbrev add : NamespaceAddReq → Counting → Result NsidStatus × Counting
add req g =
    if ltb g.next 4294967296
    then (
      ok (record { status = 0; error_message = ""; nsid = g.next }),
      record { next = g.next + 1; held = set req.subsystem_nqn g.next true g.held },
    )
    else (ok (record { status = 28; error_message = "full"; nsid = 0 }), g)

abbrev gateway : Gateway
gateway = record {
  State = Counting;
  namespace_add = add;
  namespace_delete = λ req g. (
    ok (record { status = 0; error_message = "" }),
    record g { held = set req.subsystem_nqn req.nsid false g.held },
  );
  list_namespaces = λ q g. (ok (record { status = 0; error_message = ""; namespaces = [] }), g);
}

added_lem :
    (req : NamespaceAddReq) (g : Counting) {resp : NsidStatus} {g' : Counting}
    → add req g ≡ (ok resp, g')
    → resp.status ≡ 0
    → (resp.nsid < 2 ^ 32)
      × (has g req.subsystem_nqn resp.nsid ≡ false)
      × (has g' req.subsystem_nqn resp.nsid ≡ true)
added_lem req g h z = ground (arith, eq_iff req.subsystem_nqn req.subsystem_nqn)

add_keeps_lem :
    (req : NamespaceAddReq) (g : Counting) (q : String) (n : ℕ)
    → has g q n ≡ true
    → has (add req g).1 q n ≡ true
add_keeps_lem req g q n h = ground (arith, h)

view : NamespaceView gateway
view = record {
  present = has;
  added = added_lem;
  add_keeps = add_keeps_lem;
  delete_keeps = λ req g q n h apart. ground (arith, h, apart, eq_iff req.subsystem_nqn q);
  list_keeps = λ q g nqn n h. h;
}

abbrev request : String → CreateVolumeRequest
request name = record {
  name = name;
  capacity_range = none;
  parameters = ("SubsystemNqn", "nqn.s") ∷ ("RbdPoolName", "rbd") ∷ [];
  content_source = none;
}

abbrev empty : Counting
empty = record { next = 1; held = λ q n. false }

abbrev server : Server Counting
server = record { locks = new_volume_locks; world = empty }

server_free : AllFree server.locks
unfolding new_volume_locks
server_free p = refl

abbrev after : String → Server Counting → Server Counting
after name s = record {
  locks = relocked name s.locks;
  world = (add (namespace_add_req (request name)) s.world).1;
}

-- A `CreateVolume` that the gateway answers.
creates_lem :
    (name : String) (s : Server Counting)
    → AllFree s.locks
    → s.world.next < 4294967296
    → (v : Volume) × (handle_create_volume gateway codec (request name) s ≡ done v (after name s))
unfolding handle_create_volume
creates_lem name s free small =
    let answer = add (namespace_add_req (request name)) s.world in
    let (id, encoded, runs) =
      create_volume_done gateway codec (request name) s.world {g' = answer.1}
        {resp = record { status = 0; error_message = ""; nsid = s.world.next }}
        (ground (arith, small)) refl in
    (_, with_lock_done name (create_volume_locked gateway codec (request name)) s free runs)

-- A publication of a volume that the gateway does not list, which fails.
abbrev between : List Request
between = publishes (record { volume_id = "id"; node_id = "node-1"; volume_context = [] }) ∷ []

first :
    (v : Volume) × (handle_create_volume gateway codec (request "pvc-1") server
      ≡ done v (after "pvc-1" server))
first = creates_lem "pvc-1" server server_free (omega arith)

second :
    (v : Volume) × (handle_create_volume gateway codec
        (request "pvc-2")
        (attempt_all gateway codec between (after "pvc-1" server))
      ≡ done v (after "pvc-2" (attempt_all gateway codec between (after "pvc-1" server))))
unfolding attempt_all attempt controller_publish_volume published find_uuid namespace_add_req
second =
    creates_lem "pvc-2" (attempt_all gateway codec between (after "pvc-1" server))
      (relocked-AllFree "pvc-1" new_volume_locks server_free) (omega arith)

volume_ids_distinct_example : first.0.volume_id ≢ second.0.volume_id
volume_ids_distinct_example =
    volume_ids_distinct gateway codec view (request "pvc-1") (request "pvc-2") between server
      codec-IsLawful server_free first.1 (λ i h. tt) second.1
