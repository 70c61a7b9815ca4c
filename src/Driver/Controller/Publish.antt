-- ===== src/Driver/Controller/Publish.antt =====
-- driver/controllerserver.go: `ControllerPublishVolume` and `ControllerUnpublishVolume`.
pub mod Laws
use nvmeof_csi.Base.{
  String, Option, none, some, List, [], ◌∷◌, ◌==◌, string_eq, if◌then◌else◌, Result, ok, err, plain,
  wrapped, ◌<>◌, Action, Run, done, failed, pure,
}
use nvmeof_csi.Base.Dict.{Dict, index, insert}
use nvmeof_csi.Driver.Gateway.{Gateway, NamespaceCli, NamespacesInfo}

-- csi.ControllerPublishVolumeRequest
pub record ControllerPublishVolumeRequest : Type 0 where
  pub volume_id : String
  pub node_id : String
  pub volume_context : Dict

-- The loop over the namespaces, left at the first one with the image.
unfoldable pub find_uuid : String → List NamespaceCli → String
find_uuid image [] = ""
find_uuid image (ns ∷ namespaces) =
    if ns.rbd_image_name == image then ns.uuid else find_uuid image namespaces

unfoldable pub publish_context : ControllerPublishVolumeRequest → String → Dict
publish_context req uuid = insert "transport" (index "transport" req.volume_context) (
    insert "trsvcid" (index "trsvcid" req.volume_context) (
      insert "traddr" (index "traddr" req.volume_context)
        (insert "nqn" (index "nqn" req.volume_context) (insert "uuid" uuid []))))

-- What `ControllerPublishVolume` makes of the listing.
unfoldable pub published : ControllerPublishVolumeRequest → NamespacesInfo → Result Dict
published req info =
    let uuid = find_uuid (index "image" req.volume_context) info.namespaces in
    if uuid == ""
    then err (plain ("UUID not found for volume " <> req.volume_id))
    else ok (publish_context req uuid)

module _ (G : Gateway) where
  -- `ControllerPublishVolume`: the publish context.
  unfoldable pub controller_publish_volume : ControllerPublishVolumeRequest → Action G.State Dict
  controller_publish_volume req g =
      let (answer, g') = G.list_namespaces (index "nqn" req.volume_context) g in
      elim answer [
        | err e ↦ failed (wrapped "failed to list namespaces" e) g'
        | ok info ↦ elim (published req info) [ err e ↦ failed e g' | ok c ↦ done c g' ]
      ]

  -- `ControllerUnpublishVolume` does nothing on any request.
  unfoldable pub controller_unpublish_volume :
      (volume_id node_id : String) → Action G.State (Unit {0})
  controller_unpublish_volume volume_id node_id = pure tt
