-- ===== src/Driver/Pipeline.antt =====
-- A volume on its way from `CreateVolume` through `ControllerPublishVolume` to the node's initiator:
-- the volume context and the publish context that the calls hand on.
use nvmeof_csi.Base.{String, ◌≡◌, ◌≢◌, refl, sym, ◌∙◌, some, none, ok, arith, done}
use nvmeof_csi.Base.Dict.{Dict, lookup, index, insert, NodupKeys, lookup-merge, merge}
use nvmeof_csi.Driver.Gateway.{Gateway, NsidStatus, NamespacesInfo}
use nvmeof_csi.Driver.Controller.VolumeId.{Json}
use nvmeof_csi.Driver.Controller.Create.{
  CreateVolumeRequest, Volume, volume_size, namespace_add_req, base_context, create_volume_locked,
}
use nvmeof_csi.Driver.Controller.Create.Laws.{create_volume_done}
use nvmeof_csi.Driver.Controller.Publish.{
  ControllerPublishVolumeRequest, publish_context, controller_publish_volume,
}
use nvmeof_csi.Driver.Controller.Publish.Laws.{
  FirstWith, index-publish_context, controller_publish_volume-with,
}
use nvmeof_csi.Initiator.{Initiator, new_initiator}
use nvmeof_csi.Initiator.Waiting.{new_initiator_iff}

-- The context that `CreateVolume` returns.
abbrev full_context : CreateVolumeRequest → Dict
full_context req = merge req.parameters (base_context req)

module _ (req : CreateVolumeRequest) (u : NodupKeys req.parameters) where
  index-full_context_own :
      (k v : String)
      → lookup k req.parameters ≡ none
      → lookup k (base_context req) ≡ some v
      → index k (full_context req) ≡ v
  unfolding index
  index-full_context_own k v absent own =
      ground (arith, lookup-merge req.parameters (base_context req) k u)

  index-full_context_copied :
      (k : String)
      → lookup k (base_context req) ≡ some (index k req.parameters)
      → index k (full_context req) ≡ index k req.parameters
  unfolding index
  index-full_context_copied k own =
      ground (arith, lookup-merge req.parameters (base_context req) k u)

lookup-base_context :
    (req : CreateVolumeRequest)
    → (lookup "nqn" (base_context req) ≡ some (index "SubsystemNqn" req.parameters))
      × (lookup "image" (base_context req) ≡ some req.name)
      × (lookup "traddr" (base_context req) ≡ some (index "traddr" req.parameters))
      × (lookup "trsvcid" (base_context req) ≡ some (index "trsvcid" req.parameters))
      × (lookup "transport" (base_context req) ≡ some (index "transport" req.parameters))
unfolding base_context lookup insert
lookup-base_context req = (refl, refl, refl, refl, refl)

-- The request that hands a created volume to `ControllerPublishVolume`.
abbrev pub publish_request : Volume → (node_id : String) → ControllerPublishVolumeRequest
publish_request v node_id = record {
  volume_id = v.volume_id;
  node_id = node_id;
  volume_context = v.volume_context;
}

-- The initiator of a volume with UUID `u`.
abbrev pub initiator_of : CreateVolumeRequest → String → Initiator
initiator_of req u = record {
  target_type = index "transport" req.parameters;
  target_addr = index "traddr" req.parameters;
  target_port = index "trsvcid" req.parameters;
  nqn = index "SubsystemNqn" req.parameters;
  uuid = u;
}

-- The volume that `CreateVolume` returns under an ID.
abbrev created_volume : CreateVolumeRequest → String → Volume
created_volume req id = record {
  volume_id = id;
  capacity_bytes = volume_size req;
  volume_context = full_context req;
  content_source = req.content_source;
}

publish_context-initiator :
    (handed : ControllerPublishVolumeRequest) (i : Initiator)
    → index "transport" handed.volume_context ≡ i.target_type
    → index "traddr" handed.volume_context ≡ i.target_addr
    → index "trsvcid" handed.volume_context ≡ i.target_port
    → index "nqn" handed.volume_context ≡ i.nqn
    → (i.target_type ≢ "")
      × (i.target_addr ≢ "")
      × (i.target_port ≢ "")
      × (i.nqn ≢ "")
      × (i.uuid ≢ "")
    → new_initiator (some (publish_context handed i.uuid)) ≡ ok i
publish_context-initiator handed i type addr port nqn (t, a, p, n, u) =
    let (at_uuid, at_nqn, at_addr, at_port, at_type) = index-publish_context handed i.uuid in
    (new_initiator_iff (publish_context handed i.uuid) i).1 (
      sym (at_type ∙ type),
      sym (at_addr ∙ addr),
      sym (at_port ∙ port),
      sym (at_nqn ∙ nqn),
      sym at_uuid,
      t,
      a,
      p,
      n,
      u,
    )

-- A request whose parameters name the transport, the address, the port and the subsystem, and have
-- no entries "nqn" and "image" of their own: where the gateway adds the namespace, and later lists
-- in the subsystem a first namespace with the volume's image and a UUID, `CreateVolume` returns a
-- volume, `ControllerPublishVolume` of its volume context returns a publish context, and the node
-- makes of that context the initiator for this subsystem, address and UUID.
pub create-publish-initiator :
    (G : Gateway) (json : Json) (req : CreateVolumeRequest) (node_id u : String) (g : G.State)
    {resp : NsidStatus} {info : NamespacesInfo} {g1 g2 : G.State}
    → NodupKeys req.parameters
    → lookup "nqn" req.parameters ≡ none
    → lookup "image" req.parameters ≡ none
    → index "transport" req.parameters ≢ ""
    → index "traddr" req.parameters ≢ ""
    → index "trsvcid" req.parameters ≢ ""
    → index "SubsystemNqn" req.parameters ≢ ""
    → u ≢ ""
    → G.namespace_add (namespace_add_req req) g ≡ (ok resp, g1)
    → resp.status ≡ 0
    → G.list_namespaces (index "SubsystemNqn" req.parameters) g1 ≡ (ok info, g2)
    → FirstWith req.name u info.namespaces
    → (v : Volume) × (context : Dict) × (create_volume_locked G json req g ≡ done v g1)
      × (controller_publish_volume G (publish_request v node_id) g1 ≡ done context g2)
      × (new_initiator (some context) ≡ ok (initiator_of req u))
create-publish-initiator G json req node_id u g {info = info} {g1} {g2} nodup no_nqn no_image type
      addr port nqn filled add z listed first =
    let (id, encoded, created) = create_volume_done G json req g add z in
    let (own_nqn, own_image, own_addr, own_port, own_type) = lookup-base_context req in
    let at_nqn = index-full_context_own req nodup "nqn" _ no_nqn own_nqn in
    let at_image = index-full_context_own req nodup "image" _ no_image own_image in
    let at_addr = index-full_context_copied req nodup "traddr" own_addr in
    let at_port = index-full_context_copied req nodup "trsvcid" own_port in
    let at_type = index-full_context_copied req nodup "transport" own_type in
    let handed = publish_request (created_volume req id) node_id in
    (
      _,
      publish_context handed u,
      created,
      (controller_publish_volume-with G handed g1 {info = info} {g' = g2} u filled
            (rw at_nqn listed)).1
          (rw at_image first),
      publish_context-initiator handed (initiator_of req u) at_type at_addr at_port at_nqn
          (type, addr, port, nqn, filled),
    )
