-- ===== src/Driver/Controller/Create/Laws.antt =====
-- driver/controllerserver.go `CreateVolume`: its answer on every answer of the gateway.
use nvmeof_csi.Base.{
  ◌^◌, ◌<◌, ◌⊎◌, inl, inr, ◌∙◌, ap, Option, none, some, ◌==◌, string_eq, if◌then◌else◌, zero, suc,
  String, ◌≡◌, ◌≢◌, refl, ◌<>◌, Result, wrapped, message, ok, err, arith, Error, status, internal,
  done, failed, nat_eq,
}
use nvmeof_csi.Base.Dict.{insert, lookup, index, or_else, NodupKeys, lookup-merge, merge}
use nvmeof_csi.Base.Int.{ℤ, pos, negsuc, is_zero, to_uint64}
use nvmeof_csi.Driver.Gateway.{Gateway, NsidStatus}
use nvmeof_csi.Driver.Controller.VolumeId.{
  Json, IsLawful, VolumeIdentifier, encode_volume_id, decode_volume_id, decode-encode_volume_id,
}
use nvmeof_csi.Driver.Controller.Create.{
  CreateVolumeRequest, Volume, volume_size, namespace_add_req, base_context, created, create_volume,
  with_parameters, create_volume_locked,
}

-- The identifier of the volume that a request and the gateway's answer make.
abbrev pub identifier : CreateVolumeRequest → NsidStatus → VolumeIdentifier
identifier req resp = record {
  nsid = resp.nsid;
  nqn = index "SubsystemNqn" req.parameters;
  volume_name = req.name;
}

-- The size of a volume for a capacity range, whose required bytes may be missing or 0.
abbrev pub IsSizeOf : Option ℤ → ℤ → Type 0
IsSizeOf none n = n ≡ pos 209715200
IsSizeOf (some bytes) n = ((bytes ≡ pos 0) × (n ≡ pos 209715200)) ⊎ ((bytes ≢ pos 0) × (n ≡ bytes))

sized-IsSizeOf :
    (bytes : ℤ) → IsSizeOf (some bytes) (if is_zero bytes then pos 209715200 else bytes)
sized-IsSizeOf (pos zero) = inl (refl, refl)
sized-IsSizeOf (pos (suc n)) = inr (λ h. ground arith, ground arith)
sized-IsSizeOf (negsuc n) = inr (λ h. cc, refl)

volume_size-IsSizeOf : (req : CreateVolumeRequest) → IsSizeOf req.capacity_range (volume_size req)
unfolding volume_size
volume_size-IsSizeOf req =
    elim req.capacity_range
      as (λ c.
        IsSizeOf c
          (elim c [ none ↦ pos 209715200 | some b ↦ if is_zero b then pos 209715200 else b ])) [
            | none ↦ refl
            | some bytes ↦ sized-IsSizeOf bytes
          ]

-- The entry of a volume's context that the driver makes itself.
abbrev pub made_entry : CreateVolumeRequest → String → Option String
made_entry req k =
    if "nqn" == k
    then some (index "SubsystemNqn" req.parameters)
    else if "traddr" == k
    then some (index "traddr" req.parameters)
    else if "trsvcid" == k
    then some (index "trsvcid" req.parameters)
    else if "transport" == k
    then some (index "transport" req.parameters)
    else if "image" == k
    then some req.name
    else none

lookup-base_context :
    (req : CreateVolumeRequest) (k : String) → lookup k (base_context req) ≡ made_entry req k
unfolding base_context lookup insert
lookup-base_context req k = refl

module _ (G : Gateway) (J : Json) (req : CreateVolumeRequest) (g : G.State) {g' : G.State} where
  -- The volume that is returned where the gateway reports success.
  pub create_volume_done :
      {resp : NsidStatus}
      → G.namespace_add (namespace_add_req req) g ≡ (ok resp, g')
      → resp.status ≡ 0
      → (id : String) × (encode_volume_id J (identifier req resp) ≡ ok id)
        × (create_volume_locked G J req g
            ≡ done
                (record {
                  volume_id = id;
                  capacity_bytes = volume_size req;
                  volume_context = merge req.parameters (base_context req);
                  content_source = req.content_source;
                })
                g')
  unfolding create_volume_locked create_volume created with_parameters encode_volume_id
      namespace_add_req
  create_volume_done h z = (_, refl, ground arith)

  -- The error that is returned where the gateway call fails.
  create_volume_call_failed :
      {e : Error}
      → G.namespace_add (namespace_add_req req) g ≡ (err e, g')
      → create_volume_locked G J req g
        ≡ failed (status internal (message (wrapped "gateway NamespaceAdd failed" e))) g'
  unfolding create_volume_locked create_volume
  create_volume_call_failed h = ground arith

  -- The error that is returned where the gateway reports a failure.
  create_volume_refused :
      {resp : NsidStatus}
      → G.namespace_add (namespace_add_req req) g ≡ (ok resp, g')
      → resp.status ≢ 0
      → create_volume_locked G J req g
        ≡ failed
            (status internal ("gateway NamespaceAdd returned error: " <> resp.error_message))
            g'
  unfolding create_volume_locked create_volume created
  create_volume_refused h z = ground arith

  -- Unless the gateway answers with status 0, `CreateVolume` returns an Internal error, in the state
  -- that the gateway call left.
  pub create_volume_fails :
      (answer : Result NsidStatus)
      → G.namespace_add (namespace_add_req req) g ≡ (answer, g')
      → ((resp : NsidStatus) → answer ≡ ok resp → resp.status ≢ 0)
      → (text : String) × (create_volume_locked G J req g ≡ failed (status internal text) g')
  create_volume_fails (err e) h bad = (_, create_volume_call_failed h)
  create_volume_fails (ok resp) h bad = (_, create_volume_refused h (bad resp refl))

  -- Where the gateway adds the namespace with status 0, `CreateVolume` returns a volume: its ID
  -- decodes to the gateway's namespace ID, the requested subsystem and the volume's name. Its size is 200
  -- MiB where the request asks for none or for 0, and otherwise the requested one, and the gateway is asked
  -- for that size. Its context has the request's parameters, and where they lack a key, the entry that
  -- `made_entry` gives this key.
  pub create_volume_succeeds :
      {resp : NsidStatus}
      → IsLawful J
      → NodupKeys req.parameters
      → resp.nsid < 2 ^ 32
      → G.namespace_add (namespace_add_req req) g ≡ (ok resp, g')
      → resp.status ≡ 0
      → (v : Volume) × (create_volume_locked G J req g ≡ done v g')
        × (decode_volume_id J v.volume_id ≡ ok (identifier req resp))
        × IsSizeOf req.capacity_range v.capacity_bytes
        × ((namespace_add_req req).size ≡ to_uint64 v.capacity_bytes)
        × ((k : String)
            → lookup k v.volume_context ≡ or_else (lookup k req.parameters) (made_entry req k))
  unfolding namespace_add_req
  create_volume_succeeds {resp} L u small h z =
      let (id, encoded, returns) = create_volume_done h z in
      (
        _,
        returns,
        decode-encode_volume_id J L (identifier req resp) small encoded,
        volume_size-IsSizeOf req,
        refl,
        λ k.
            lookup-merge req.parameters (base_context req) k u
            ∙ ap (or_else (lookup k req.parameters)) (lookup-base_context req k),
      )
