-- ===== src/Rpc/Call.antt =====
-- util/jsonrpc.go: `call`, `errorMatches` and the errors that deserve special care.
use nvmeof_csi.Base.{
  ℕ, ◌+◌, ◌%◌, ◌^◌, String, ◌<>◌, Bool, Option, none, some, List, ◌==◌, nat_eq, string_eq, leb,
  if◌then◌else◌, Result, ok, err, Error, plain, wrapped, message, Action, done, failed, halted,
}
use nvmeof_csi.Base.Decimal.{print}
use nvmeof_csi.Base.Int.{ℤ}
use nvmeof_csi.Base.Text.{codes, to_lower, contains, trim_prefix, trim_space}

abbrev pub no_space_left : Error
no_space_left = plain "json: No space left"

abbrev pub no_such_device : Error
no_such_device = plain "json: No such device"

abbrev pub invalid_parameters : Error
invalid_parameters = plain "json: Invalid parameters"

abbrev pub volume_deleted : Error
volume_deleted = plain "volume deleted"

-- `errorMatches` of an error that is not nil.
unfoldable pub error_matches : Error → Error → Bool
unfolding to_lower contains trim_prefix trim_space
error_matches full json =
    contains (to_lower (message full))
      (trim_space (trim_prefix (to_lower (message json)) (codes "json:")))

-- The `params` object of a request, by the struct that the code fills.
pub data Params : Type 0 where
  no_params : Params
  name : String → Params
  lvol_create :
      (lvol_name : String) (size : ℤ) (lvs_name clear_method : String) (thin_provision : Bool)
      → Params
  lvol_clone : (clone_name snapshot_name : String) → Params
  lvol_snapshot : (lvol_name snapshot_name : String) → Params
  nqn : String → Params
  subsystem : (nqn : String) (allow_any_host : Bool) (serial_number model_number : String) → Params
  add_ns : (nqn bdev_name : String) → Params
  add_listener : (nqn trtype adrfam traddr trsvcid : String) → Params
  remove_ns : (nqn : String) (nsid : ℕ) → Params
  transport : (trtype : String) → Params

pub record RpcRequest : Type 0 where
  pub ver : String
  pub id : ℕ
  pub method : String
  pub params : Params

-- What the JSON decoder leaves in the response struct, with its error if it fails.
pub record Response (A : Type 0) : Type 0 where
  pub id : ℕ
  pub error_code_zero : Bool
  pub error_message : String
  pub result : A
  pub decode_error : Option Error

pub record HttpResponse (Body : Type 0) : Type 0 where
  pub status_code : ℕ
  pub body : Body

-- The bdev of an answer; `driver_specific` is the UUID of its lvol store.
pub record BDev : Type 0 where
  pub name : String
  pub uuid : String
  pub block_size : ℤ
  pub num_blocks : ℤ
  pub driver_specific : Option String

pub record LvStoreInfo : Type 0 where
  pub free_clusters : ℤ
  pub cluster_size : ℤ
  pub total_clusters : ℤ
  pub name : String
  pub uuid : String

pub record Listener : Type 0 where
  pub trtype : String
  pub adrfam : String
  pub traddr : String
  pub trsvcid : String

pub record Namespace : Type 0 where
  pub nsid : ℕ
  pub bdev_name : String

pub record Subsystem : Type 0 where
  pub nqn : String
  pub namespaces : List Namespace

-- The HTTP client with the target behind it, and the JSON decoder at each type of result. Marshalling
-- these requests has no error.
pub record Transport : Type 1 where
  pub State : Type 0
  pub Body : Type 0
  pub post : RpcRequest → State → Result (HttpResponse Body) × State
  pub decode_nothing : Body → Response (Unit {0})
  pub decode_text : Body → Response String
  pub decode_number : Body → Response ℕ
  pub decode_bdevs : Body → Response (List BDev)
  pub decode_lvstores : Body → Response (List LvStoreInfo)
  pub decode_listeners : Body → Response (List Listener)
  pub decode_subsystems : Body → Response (List Subsystem)

-- `rpcClient` and the atomic flag `transCreated`, with the target that they act on. `rpc_id` is an
-- int32 as its bit pattern.
pub record Client (W : Type 0) : Type 0 where
  pub rpc_id : ℕ
  pub trans_created : Bool
  pub world : W

-- What `call` leaves in `result`, and the error that it returns.
pub record Answer (A : Type 0) : Type 0 where
  pub result : A
  pub error : Option Error

module _ {A : Type 0} (method : String) where
  -- `call` once the response is decoded.
  unfoldable pub read_response : (id : ℕ) → Response A → Answer A
  read_response id r = record {
    result = r.result;
    error = elim r.decode_error [
      | some e ↦ some (wrapped method e)
      | none ↦
          if r.id == id
          then if r.error_code_zero
            then none
            else some (plain (method <> (": json response error: " <> r.error_message)))
          else some (plain (method <> ": json response ID mismatch"))
    ];
  }

  -- `call` once the HTTP request is done. `zero` is what `result` holds before the call.
  unfoldable pub read_answer :
      {Body : Type 0}
      → (zero : A) → (Body → Response A)
      → (id : ℕ) → Result (HttpResponse Body)
      → Answer A
  read_answer zero decode id (err e) = record { result = zero; error = some (wrapped method e) }
  read_answer zero decode id (ok resp) =
      if leb 400 resp.status_code
      then record {
        result = zero;
        error = some (plain (method <> (": HTTP error code: " <> print resp.status_code)));
      }
      else read_response id (decode resp.body)

module _ (T : Transport) where
  unfoldable pub next_id : Client T.State → ℕ
  next_id c = (c.rpc_id + 1) % 2 ^ 32

  -- `call`
  unfoldable pub call :
      {A : Type 0}
      → A
      → (T.Body → Response A)
      → String
      → Params
      → Action (Client T.State) (Answer A)
  unfolding read_answer read_response next_id
  call zero decode method params c =
      let (answer, w) =
        T.post (record { ver = "2.0"; id = next_id c; method = method; params = params }) c.world in
      done (read_answer method zero decode (next_id c) answer)
        (record c { rpc_id = next_id c; world = w })

  -- `result, err := call(…); if err != nil { return err }`
  unfoldable pub checked :
      {A : Type 0} → Action (Client T.State) (Answer A) → Action (Client T.State) A
  checked m c = elim (m c) [
    | done a t ↦ elim a.error [ none ↦ done a.result t | some e ↦ failed e t ]
    | failed e t ↦ failed e t
    | halted h t ↦ halted h t
  ]
