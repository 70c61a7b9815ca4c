-- ===== src/Driver/Controller/Publish/Laws.antt =====
-- driver/controllerserver.go `ControllerPublishVolume`: which namespace it hands to the node.
use nvmeof_csi.Base.{
  String, ◌≡◌, ◌≢◌, ◌⊎◌, ◌↔◌, refl, sym, ap, ◌∙◌, List, [], ◌∷◌, string_eq, ok, arith, eq_iff, done,
}
use nvmeof_csi.Base.Dict.{Dict, index, insert, lookup}
use nvmeof_csi.Driver.Gateway.{Gateway, NamespaceCli, NamespacesInfo}
use nvmeof_csi.Driver.Controller.Publish.{
  ControllerPublishVolumeRequest, find_uuid, publish_context, published, controller_publish_volume,
}

-- The first namespace of the list that has the image has the UUID `u`.
abbrev pub FirstWith : String → String → List NamespaceCli → Type 0
FirstWith image u [] = ⊥
FirstWith image u (ns ∷ rest) =
    ((ns.rbd_image_name ≡ image) × (ns.uuid ≡ u))
    ⊎ ((ns.rbd_image_name ≢ image) × FirstWith image u rest)

find_uuid_iff :
    (image u : String) (nss : List NamespaceCli)
    → u ≢ ""
    → (find_uuid image nss ≡ u) ↔ FirstWith image u nss
unfolding find_uuid
find_uuid_iff image u [] h = (λ e. h (ground arith), λ e. absurd e)
find_uuid_iff image u (ns ∷ rest) h =
    ground (arith, eq_iff ns.rbd_image_name image, find_uuid_iff image u rest h)

pub index-publish_context :
    (req : ControllerPublishVolumeRequest) (u : String)
    → (index "uuid" (publish_context req u) ≡ u)
      × (index "nqn" (publish_context req u) ≡ index "nqn" req.volume_context)
      × (index "traddr" (publish_context req u) ≡ index "traddr" req.volume_context)
      × (index "trsvcid" (publish_context req u) ≡ index "trsvcid" req.volume_context)
      × (index "transport" (publish_context req u) ≡ index "transport" req.volume_context)
unfolding publish_context index insert lookup
index-publish_context req u = (refl, refl, refl, refl, refl)

-- The publish context of a volume with UUID `u`.
abbrev pub context_with : ControllerPublishVolumeRequest → String → Dict
context_with req u =
    ("uuid", u)
    ∷ ("nqn", index "nqn" req.volume_context)
    ∷ ("traddr", index "traddr" req.volume_context)
    ∷ ("trsvcid", index "trsvcid" req.volume_context)
    ∷ ("transport", index "transport" req.volume_context)
    ∷ []

publish_context_injective :
    (req : ControllerPublishVolumeRequest) (u v : String)
    → publish_context req u ≡ publish_context req v
    → u ≡ v
publish_context_injective req u v h =
    sym (index-publish_context req u).0 ∙ ap (index "uuid") h ∙ (index-publish_context req v).0

module _ (G : Gateway) (req : ControllerPublishVolumeRequest) (g : G.State) where
  pub controller_publish_volume-with :
      {info : NamespacesInfo} {g' : G.State} (u : String)
      → u ≢ ""
      → G.list_namespaces (index "nqn" req.volume_context) g ≡ (ok info, g')
      → (controller_publish_volume G req g ≡ done (publish_context req u) g')
        ↔ FirstWith (index "image" req.volume_context) u info.namespaces
  unfolding controller_publish_volume published
  controller_publish_volume-with {info} {g'} u filled h = ground (
    arith,
    find_uuid_iff (index "image" req.volume_context) u info.namespaces filled,
    publish_context_injective req (find_uuid (index "image" req.volume_context) info.namespaces) u,
    eq_iff (find_uuid (index "image" req.volume_context) info.namespaces) "",
  )

  -- A publication that succeeds has found a UUID.
  controller_publish_volume-found :
      {info : NamespacesInfo} {g' : G.State} (c : Dict)
      → G.list_namespaces (index "nqn" req.volume_context) g ≡ (ok info, g')
      → controller_publish_volume G req g ≡ done c g'
      → (find_uuid (index "image" req.volume_context) info.namespaces ≢ "")
        × (c ≡ publish_context req (find_uuid (index "image" req.volume_context) info.namespaces))
  unfolding controller_publish_volume published
  controller_publish_volume-found {info} c h run = (
    λ empty. ground (
      arith,
      eq_iff (find_uuid (index "image" req.volume_context) info.namespaces) "",
      h,
      run,
      empty,
    ),
    ground (arith, h, run),
  )

  -- Where the gateway lists the namespaces, `ControllerPublishVolume` returns a context exactly when the
  -- first listed namespace with the volume's image has a UUID that is not empty, and the context is
  -- the one that carries this UUID, with the subsystem, the address, the port and the transport of the
  -- volume context. The status of the listing is not looked at.
  pub controller_publish_volume_iff :
      {info : NamespacesInfo} {g' : G.State} (c : Dict)
      → G.list_namespaces (index "nqn" req.volume_context) g ≡ (ok info, g')
      → (controller_publish_volume G req g ≡ done c g') ↔ (
          (u : String) × (u ≢ "")
          × FirstWith (index "image" req.volume_context) u info.namespaces
          × (c ≡ context_with req u))
  unfolding publish_context insert
  controller_publish_volume_iff {info} {g'} c h = (
    λ run.
        let (filled, same) = controller_publish_volume-found c h run in
        let u = find_uuid (index "image" req.volume_context) info.namespaces in
        (
          u,
          filled,
          (find_uuid_iff (index "image" req.volume_context) u info.namespaces filled).0 refl,
          same,
        ),
    λ (u, filled, first, same).
        (controller_publish_volume-with u filled h).1 first
        ∙ ap (λ (d : Dict). done d g') (sym same),
  )
