-- ===== src/Tests/Controller.antt =====
-- One volume, created and deleted through a small gateway.
use nvmeof_csi.Base.{
  ℕ, ◌+◌, String, ◌≡◌, ◌≢◌, refl, none, some, List, [], ◌∷◌, ok, arith, eq_iff, done, string_eq,
  ◌==◌, nat_eq, if◌then◌else◌, ◌↔◌, ◌<>◌, inl,
}
use nvmeof_csi.Base.Dict.{Dict, lookup, index, or_else, NodupKeys}
use nvmeof_csi.Base.Int.{to_uint64}
use nvmeof_csi.Locks.{Server, new_volume_locks}
use nvmeof_csi.Locks.Laws.{AllFree}
use nvmeof_csi.Initiator.{new_initiator}
use nvmeof_csi.Driver.Gateway.{Gateway, NsidStatus, ReqStatus, NamespaceCli}
use nvmeof_csi.Driver.Controller.VolumeId.{decode_volume_id}
use nvmeof_csi.Driver.Controller.Create.{
  CreateVolumeRequest, Volume, namespace_add_req, create_volume_locked, handle_create_volume,
}
use nvmeof_csi.Driver.Controller.Create.Laws.{
  identifier, IsSizeOf, made_entry, create_volume_succeeds,
}
use nvmeof_csi.Driver.Controller.Delete.{handle_delete_volume}
use nvmeof_csi.Driver.Controller.Delete.Laws.{handle_delete_volume-handle_create_volume}
use nvmeof_csi.Driver.Controller.Publish.{ControllerPublishVolumeRequest, controller_publish_volume}
use nvmeof_csi.Driver.Controller.Publish.Laws.{
  FirstWith, context_with, controller_publish_volume_iff,
}
use nvmeof_csi.Driver.Pipeline.{publish_request, initiator_of, create-publish-initiator}
use nvmeof_csi.Tests.Codec.{codec, codec-IsLawful}

-- The images of a gateway, each with its namespace ID.
abbrev Images : Type 0
Images = List (ℕ × String)

abbrev fresh : Images → ℕ
fresh [] = 1
fresh ((n, _) ∷ g) = n + 1

abbrev without : ℕ → Images → Images
without k [] = []
without k ((n, image) ∷ g) = let rest = without k g in if n == k then rest else (n, image) ∷ rest

abbrev listing : Images → List NamespaceCli
listing [] = []
listing ((_, image) ∷ g) = record { rbd_image_name = image; uuid = "4c1d" <> image } ∷ listing g

abbrev gateway : Gateway
gateway = record {
  State = Images;
  namespace_add = λ req g.
      if req.rbd_image_name == ""
      then (ok (record { status = 22; error_message = "no image"; nsid = 0 }), g)
      else (
        ok (record { status = 0; error_message = ""; nsid = fresh g }),
        (fresh g, req.rbd_image_name) ∷ g,
      );
  namespace_delete = λ req g. (ok (record { status = 0; error_message = "" }), without req.nsid g);
  list_namespaces =
      λ nqn g. (ok (record { status = 0; error_message = ""; namespaces = listing g }), g);
}

abbrev parameters : Dict
parameters =
    ("SubsystemNqn", "nqn.s")
    ∷ ("RbdPoolName", "rbd")
    ∷ ("transport", "tcp")
    ∷ ("traddr", "10.0.0.1")
    ∷ ("trsvcid", "4420")
    ∷ []

abbrev request : CreateVolumeRequest
request = record {
  name = "pvc-1";
  capacity_range = none;
  parameters = parameters;
  content_source = none;
}

abbrev empty : Images
empty = []

abbrev held_image : Images
held_image = (1, "pvc-1") ∷ []

abbrev added : NsidStatus
added = record { status = 0; error_message = ""; nsid = 1 }

parameters_nodup : NodupKeys parameters
unfolding lookup
parameters_nodup = (refl, (refl, (refl, (refl, (refl, tt)))))

add_request : gateway.namespace_add (namespace_add_req request) empty ≡ (ok added, held_image)
unfolding namespace_add_req
add_request = refl

create_volume_succeeds_example :
    (v : Volume) × (create_volume_locked gateway codec request empty ≡ done v held_image)
    × (decode_volume_id codec v.volume_id ≡ ok (identifier request added))
    × IsSizeOf request.capacity_range v.capacity_bytes
    × ((namespace_add_req request).size ≡ to_uint64 v.capacity_bytes)
    × ((k : String)
        → lookup k v.volume_context ≡ or_else (lookup k parameters) (made_entry request k))
create_volume_succeeds_example =
    create_volume_succeeds gateway codec request empty {g' = held_image} {resp = added}
      codec-IsLawful parameters_nodup (omega arith) add_request refl

abbrev server : Server Images
server = record { locks = new_volume_locks; world = empty }

server_free : AllFree server.locks
unfolding new_volume_locks
server_free p = refl

abbrev deleted : ReqStatus
deleted = record { status = 0; error_message = "" }

handle_delete_volume-handle_create_volume_example :
    (v : Volume) × (t u : Server Images) × (handle_create_volume gateway codec request server
      ≡ done v t)
    × (handle_delete_volume gateway codec v.volume_id t ≡ done tt u)
    × (u.world ≡ empty)
    × AllFree u.locks
handle_delete_volume-handle_create_volume_example =
    handle_delete_volume-handle_create_volume gateway codec request server {resp = added}
      {r = deleted} {g1 = held_image} {g2 = empty} codec-IsLawful server_free (omega arith)
      add_request refl refl refl

abbrev uuid : String
uuid = "4c1dpvc-1"

uuid_filled : uuid ≢ ""
uuid_filled h = ground (arith, eq_iff uuid "")

abbrev publishing : ControllerPublishVolumeRequest
publishing = record {
  volume_id = "id";
  node_id = "node-1";
  volume_context = ("image", "pvc-1") ∷ ("nqn", "nqn.s") ∷ [];
}

controller_publish_volume_iff_example :
    (controller_publish_volume gateway publishing held_image
      ≡ done (context_with publishing uuid) held_image)
    ↔ ((u : String) × (u ≢ "")
        × FirstWith (index "image" publishing.volume_context) u (listing held_image)
        × (context_with publishing uuid ≡ context_with publishing u))
controller_publish_volume_iff_example =
    controller_publish_volume_iff gateway publishing held_image
      {info = record { status = 0; error_message = ""; namespaces = listing held_image }}
      {g' = held_image} (context_with publishing uuid) refl

abbrev entry : String → String
entry k = index k parameters

entry_filled :
    (entry "transport" ≢ "")
    × (entry "traddr" ≢ "")
    × (entry "trsvcid" ≢ "")
    × (entry "SubsystemNqn" ≢ "")
unfolding index lookup
entry_filled = (
  λ h. ground (arith, eq_iff (entry "transport") ""),
  λ h. ground (arith, eq_iff (entry "traddr") ""),
  λ h. ground (arith, eq_iff (entry "trsvcid") ""),
  λ h. ground (arith, eq_iff (entry "SubsystemNqn") ""),
)

create-publish-initiator_example :
    (v : Volume) × (context : Dict) × (create_volume_locked gateway codec request empty
      ≡ done v held_image)
    × (controller_publish_volume gateway (publish_request v "node-1") held_image
        ≡ done context held_image)
    × (new_initiator (some context) ≡ ok (initiator_of request uuid))
unfolding lookup index
create-publish-initiator_example =
    create-publish-initiator gateway codec request "node-1" uuid empty {resp = added}
      {info = record { status = 0; error_message = ""; namespaces = listing held_image }}
      {g1 = held_image} {g2 = held_image} parameters_nodup refl refl entry_filled.0 entry_filled.1
      entry_filled.2 entry_filled.3 uuid_filled add_request refl refl (inl (refl, refl))
