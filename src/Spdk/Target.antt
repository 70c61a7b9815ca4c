-- ===== src/Spdk/Target.antt =====
-- util/nvmf.go: what an NVMe-oF target exports, and what the requests of the storage node do to it. The
-- target is not part of the program; the laws are those of its JSON-RPC methods.
pub mod Calls
pub mod Refinement
pub mod Withdrawal
pub mod Others
pub mod Atomicity
use nvmeof_csi.Base.{
  ℕ, ◌<◌, String, ◌≡◌, Bool, true, false, Option, none, some, List, [], ◌∷◌, ◌++◌, ◌==◌, string_eq,
  if◌then◌else◌, Result, ok,
}
use nvmeof_csi.Rpc.Call.{
  Transport, RpcRequest, Response, HttpResponse, Listener, Params, nqn, subsystem, add_ns,
  add_listener, remove_ns,
}
use nvmeof_csi.Rpc.Laws.{Accepted}
use nvmeof_csi.Spdk.Node.{NodeNvmf, volume_nqn}
use nvmeof_csi.Spdk.Publishing.{has_own_listener}

-- A subsystem: the bdevs of its namespaces, and its listeners, each with the first one first.
pub record Exported : Type 0 where
  pub bdevs : List String
  pub listeners : List Listener

-- The subsystems of a target by their NQN.
abbrev pub Exports : Type 0
Exports = String → Option Exported

-- One subsystem is replaced.
abbrev pub put : String → Option Exported → Exports → Exports
put q e x p = if p == q then e else x p

abbrev pub add_bdev : String → Option Exported → Option Exported
add_bdev bdev none = none
add_bdev bdev (some e) = some (record e { bdevs = e.bdevs ++ (bdev ∷ []) })

abbrev pub add_listening : Listener → Option Exported → Option Exported
add_listening l none = none
add_listening l (some e) = some (record e { listeners = e.listeners ++ (l ∷ []) })

-- The request is answered without an error, with this result.
abbrev pub IsAnswered :
    (T : Transport) {A : Type 0}
    → (T.Body → Response A)
    → RpcRequest
    → T.State
    → A
    → T.State
    → Type 0
IsAnswered T decode req w a v =
    (resp : HttpResponse T.Body) × (T.post req w ≡ (ok resp, v))
    × (resp.status_code < 400)
    × Accepted req.id (decode resp.body) a

-- The methods that leave the subsystems alone.
abbrev pub leaves_subsystems : String → Bool
leaves_subsystems method =
    if method == "bdev_get_bdevs"
    then true
    else if method == "nvmf_subsystem_get_listeners"
    then true
    else if method == "nvmf_get_subsystems"
    then true
    else method == "nvmf_create_transport"

-- The subsystem that a request is about.
abbrev pub names_subsystem : Params → Option String
names_subsystem (Params.nqn q) = some q
names_subsystem (Params.subsystem q any serial model) = some q
names_subsystem (Params.add_ns q bdev) = some q
names_subsystem (Params.add_listener q trtype adrfam traddr trsvcid) = some q
names_subsystem (Params.remove_ns q n) = some q
names_subsystem _ = none

-- What the target exports in each of its states, and how its methods change that.
pub record TargetView (T : Transport) : Type 0 where
  pub exports : T.State → Exports
  pub left_alone :
      (req : RpcRequest) (w : T.State) (p : String)
      → leaves_subsystems req.method ≡ true
      → exports (T.post req w).1 p ≡ exports w p
  pub listed :
      (id : ℕ) (q : String) (w : T.State) {ls : List Listener} {v : T.State}
      → IsAnswered T T.decode_listeners
          (record { ver = "2.0"; id = id; method = "nvmf_subsystem_get_listeners"; params = nqn q })
          w
          ls
          v
      → (e : Exported) × (exports w q ≡ some e) × (e.listeners ≡ ls)
  pub created :
      (id : ℕ) (q serial model : String) (any : Bool) (w : T.State) {a : Unit {0}} {v : T.State}
      → IsAnswered T T.decode_nothing
          (record {
            ver = "2.0";
            id = id;
            method = "nvmf_create_subsystem";
            params = subsystem q any serial model;
          })
          w
          a
          v
      → (exports w q ≡ none)
        × ((p : String)
            → exports v p ≡ put q (some (record { bdevs = []; listeners = [] })) (exports w) p)
  pub ns_added :
      (id : ℕ) (q bdev : String) (w : T.State) {n : ℕ} {v : T.State}
      → IsAnswered T T.decode_number
          (record {
            ver = "2.0";
            id = id;
            method = "nvmf_subsystem_add_ns";
            params = add_ns q bdev;
          })
          w
          n
          v
      → (p : String) → exports v p ≡ put q (add_bdev bdev (exports w q)) (exports w) p
  pub listener_added :
      (id : ℕ) (q : String) (l : Listener) (w : T.State) {a : Unit {0}} {v : T.State}
      → IsAnswered T T.decode_nothing
          (record {
            ver = "2.0";
            id = id;
            method = "nvmf_subsystem_add_listener";
            params = add_listener q l.trtype l.adrfam l.traddr l.trsvcid;
          })
          w
          a
          v
      → (p : String) → exports v p ≡ put q (add_listening l (exports w q)) (exports w) p
  pub others_kept :
      (req : RpcRequest) (q : String) (w : T.State) (p : String)
      → names_subsystem req.params ≡ some q
      → (p == q) ≡ false
      → exports (T.post req w).1 p ≡ exports w p
  pub deleted :
      (id : ℕ) (q : String) (w : T.State) {a : Unit {0}} {v : T.State}
      → IsAnswered T T.decode_nothing
          (record { ver = "2.0"; id = id; method = "nvmf_delete_subsystem"; params = nqn q })
          w
          a
          v
      → (p : String) → exports v p ≡ put q none (exports w) p

-- The listener of a node.
abbrev pub own_listener : NodeNvmf → Listener
own_listener node = record {
  trtype = node.target_type;
  adrfam = "IPv4";
  traddr = node.target_addr;
  trsvcid = node.target_port;
}

-- Does the node listen on the subsystem?
abbrev pub is_exported : NodeNvmf → Option Exported → Bool
is_exported node none = false
is_exported node (some e) = has_own_listener node e.listeners

-- What publishing a volume makes of the exports: a volume that the node exports stays as it is, and another
-- one gets a subsystem of its own with one namespace and one listener.
abbrev pub publish_spec : NodeNvmf → (id : String) → Exports → Exports
publish_spec node id x =
    if is_exported node (x (volume_nqn id))
    then x
    else put (volume_nqn id) (some (record { bdevs = id ∷ []; listeners = own_listener node ∷ [] }))
        x

-- What taking it back makes of them.
abbrev pub unpublish_spec : (published : Bool) → (id : String) → Exports → Exports
unpublish_spec published id x = if published then put (volume_nqn id) none x else x
