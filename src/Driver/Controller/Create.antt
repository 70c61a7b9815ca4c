-- ===== src/Driver/Controller/Create.antt =====
-- driver/controllerserver.go: `CreateVolume`.
pub mod Laws
pub mod Order
use nvmeof_csi.Base.{
  ℕ, ◌*◌, String, Bool, true, false, Option, none, some, [], ◌∷◌, ◌==◌, nat_eq, if◌then◌else◌,
  Result, ok, err, plain, wrapped, status, internal, Error, message, ◌<>◌, Action, pure, fail, lift,
  on_error, ◌>>=◌, Run, done, failed, halted,
}
use nvmeof_csi.Base.Dict.{Dict, index, insert, merge}
use nvmeof_csi.Base.Int.{ℤ, pos, negsuc, is_zero, to_uint64}
use nvmeof_csi.Locks.{Server, with_lock}
use nvmeof_csi.Driver.Gateway.{Gateway, NamespaceAddReq, NsidStatus}
use nvmeof_csi.Driver.Controller.VolumeId.{Json, VolumeIdentifier, encode_volume_id}

-- csi.CreateVolumeRequest. `content_source` is passed on unread.
pub record CreateVolumeRequest : Type 0 where
  pub name : String
  pub capacity_range : Option ℤ
  pub parameters : Dict
  pub content_source : Option String

-- csi.Volume
pub record Volume : Type 0 where
  pub volume_id : String
  pub capacity_bytes : ℤ
  pub volume_context : Dict
  pub content_source : Option String

-- `req.GetCapacityRange().GetRequiredBytes()`, and the default where it is 0.
unfoldable pub volume_size : CreateVolumeRequest → ℤ
volume_size req = elim req.capacity_range [
  | none ↦ pos (1 * 200 * 1024 * 1024)
  | some bytes ↦ if is_zero bytes then pos (1 * 200 * 1024 * 1024) else bytes
]

unfoldable pub namespace_add_req : CreateVolumeRequest → NamespaceAddReq
namespace_add_req req = record {
  rbd_pool_name = index "RbdPoolName" req.parameters;
  rbd_image_name = req.name;
  subsystem_nqn = index "SubsystemNqn" req.parameters;
  block_size = 4096;
  create_image = true;
  size = to_uint64 (volume_size req);
  no_auto_visible = false;
  disable_auto_resize = false;
}

-- The context of `createVolume`, before the parameters are added.
unfoldable pub base_context : CreateVolumeRequest → Dict
base_context req = insert "image" req.name (
    insert "transport" (index "transport" req.parameters) (
      insert "trsvcid" (index "trsvcid" req.parameters) (
        insert "traddr" (index "traddr" req.parameters)
          (insert "nqn" (index "SubsystemNqn" req.parameters) []))))

module _ (G : Gateway) (J : Json) where
  -- `createVolume` once the gateway has answered.
  unfoldable pub created : CreateVolumeRequest → NsidStatus → Result Volume
  created req resp =
      if resp.status == 0
      then elim (encode_volume_id J (record {
        nsid = resp.nsid;
        nqn = (namespace_add_req req).subsystem_nqn;
        volume_name = req.name;
      })) [
        | err e ↦ err (wrapped "failed to encode volume ID" e)
        | ok id ↦ ok (record {
          volume_id = id;
          capacity_bytes = volume_size req;
          volume_context = base_context req;
          content_source = req.content_source;
        })
      ]
      else err (plain ("gateway NamespaceAdd returned error: " <> resp.error_message))

  -- `createVolume`
  unfoldable pub create_volume : CreateVolumeRequest → Action G.State Volume
  create_volume req g =
      let (answer, g') = G.namespace_add (namespace_add_req req) g in
      elim answer [
        | err e ↦ failed (wrapped "gateway NamespaceAdd failed" e) g'
        | ok resp ↦ elim (created req resp) [ err e ↦ failed e g' | ok v ↦ done v g' ]
      ]

  -- The rest of `CreateVolume`: the loop that adds the parameters to the context.
  unfoldable pub with_parameters : CreateVolumeRequest → Volume → Volume
  with_parameters req v = record v { volume_context = merge req.parameters v.volume_context }

  -- `CreateVolume` between taking the lock of the volume's name and giving it back.
  unfoldable pub create_volume_locked : CreateVolumeRequest → Action G.State Volume
  create_volume_locked req = do
    v ← on_error (λ e. status internal (message e)) (create_volume req)
    pure (with_parameters req v)

  -- `CreateVolume`
  unfoldable pub handle_create_volume : CreateVolumeRequest → Action (Server G.State) Volume
  handle_create_volume req = with_lock req.name (create_volume_locked req)
