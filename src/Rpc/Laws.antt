-- ===== src/Rpc/Laws.antt =====
-- util/jsonrpc.go: which answers `call` takes, and what `getVolume` makes of them.
use nvmeof_csi.Base.{
  Option-cases, inl, inr, ℕ, ◌<◌, ◌≡◌, ◌↔◌, refl, String, true, false, none, some, List, [], Result,
  ok, err, Error, wrapped, done, halted, panic, arith, nat_eq,
}
use nvmeof_csi.Rpc.Call.{
  Client, Transport, HttpResponse, Response, Answer, call, checked, next_id, Params, RpcRequest,
  error_matches, no_such_device, read_answer, read_response, BDev,
}
use nvmeof_csi.Rpc.Volumes.{first_volume, first_result, get_volume, is_volume_created}

-- A decoded response that answers the request `n` with `a`.
abbrev pub Accepted : {A : Type 0} → ℕ → Response A → A → Type 0
Accepted n r a = (r.decode_error ≡ none) × (r.id ≡ n) × (r.error_code_zero ≡ true) × (r.result ≡ a)

pub read_response_iff :
    {A : Type 0} (method : String) (n : ℕ) (r : Response A) (a : A)
    → (read_response method n r ≡ record { result = a; error = none }) ↔ Accepted n r a
unfolding read_response
read_response_iff method n r a = (λ h. ground arith, λ h. ground arith)

module _ (T : Transport) where
  -- The request that `call` sends.
  abbrev pub request : String → Params → Client T.State → RpcRequest
  request method params c = record {
    ver = "2.0";
    id = next_id T c;
    method = method;
    params = params;
  }

  -- The client after a request that leaves the target in a state.
  abbrev pub after : Client T.State → T.State → Client T.State
  after c w = record c { rpc_id = next_id T c; world = w }

  read_answer_iff :
      {A : Type 0} (method : String) (init : A) (decode : T.Body → Response A) (n : ℕ)
      → (r : Result (HttpResponse T.Body)) (a : A)
      → (read_answer method init decode n r ≡ record { result = a; error = none }) ↔ (
          (resp : HttpResponse T.Body) × (r ≡ ok resp)
          × (resp.status_code < 400)
          × Accepted n (decode resp.body) a)
  unfolding read_answer
  read_answer_iff method init decode n (err e) a =
      (λ h. ground arith, λ (resp, e, l, h). ground arith)
  read_answer_iff method init decode n (ok resp) a = (
    λ h. (
      resp,
      refl,
      ground arith,
      (read_response_iff method n (decode resp.body) a).0 (ground arith),
    ),
    λ (r, e, l, h). ground (arith, (read_response_iff method n (decode r.body) a).1 h, e, l),
  )

  -- A call returns a value exactly when the request gets a response with a status under 400 whose body
  -- decodes, carries the id of the request, and has no error code; the value is the result of
  -- the response, and the client has moved on to the id of the request.
  pub checked-call_iff :
      {A : Type 0} (init : A) (decode : T.Body → Response A) (method : String) (ps : Params)
      → (c : Client T.State) (a : A) (t : Client T.State)
      → (checked T (call T init decode method ps) c ≡ done a t) ↔ (
          (resp : HttpResponse T.Body) × (w : T.State) × (T.post (request method ps c) c.world
            ≡ (ok resp, w))
          × (t ≡ after c w)
          × (resp.status_code < 400)
          × Accepted (next_id T c) (decode resp.body) a)
  unfolding checked call
  checked-call_iff init decode method ps c a t = (
    λ h.
        let p = T.post (request method ps c) c.world in
        let (resp, e, l, k) =
          (read_answer_iff method init decode (next_id T c) p.0 a).0 (ground arith) in
        (resp, p.1, ground (arith, e), ground arith, l, k),
    λ (resp, w, e, t_eq, l, k). ground (
      arith,
      e,
      t_eq,
      (read_answer_iff method init decode (next_id T c) (ok resp) a).1 (resp, refl, l, k),
    ),
  )

  -- `getVolume` panics exactly when its request left no bdev and no error that matches "No such
  -- device": it drops every other error, and takes the first of the bdevs without looking.
  get_volume_panics_iff :
      (id : String) (c : Client T.State) (a : Answer (List BDev)) (t : Client T.State)
      → call T [] T.decode_bdevs "bdev_get_bdevs" (Params.name id) c ≡ done a t
      → (get_volume T id c ≡ halted panic t) ↔ (
          (a.result ≡ [])
          × ((e : Error) → a.error ≡ some e → error_matches e no_such_device ≡ false))
  unfolding get_volume first_volume first_result
  get_volume_panics_iff id c a t h = (
    λ panics. (ground arith, λ e k. ground arith),
    λ (empty, unlike). elim (Option-cases a.error) [
      | inl e ↦ ground arith
      | inr (e, k) ↦ ground (arith, unlike e k)
    ],
  )

  -- When the request of `getVolume` is not answered, with an error that does not read like "No such
  -- device", `getVolume` and `isVolumeCreated` panic, where the code means to return the error.
  pub is_volume_created_unanswered :
      (id : String) (c : Client T.State) (e : Error) (w : T.State)
      → T.post (request "bdev_get_bdevs" (Params.name id) c) c.world ≡ (err e, w)
      → error_matches (wrapped "bdev_get_bdevs" e) no_such_device ≡ false
      → (get_volume T id c ≡ halted panic (after c w))
        × (is_volume_created T id c ≡ halted panic (after c w))
  unfolding get_volume is_volume_created first_volume first_result call read_answer
  is_volume_created_unanswered id c e w h unlike = ground arith
