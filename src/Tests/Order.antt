-- ===== src/Tests/Order.antt =====
-- One volume, created with its parameters in two orders.
use nvmeof_csi.Base.{String, ◌≡◌, refl, none, List, [], ◌∷◌, ok, arith, eq_iff, string_eq}
use nvmeof_csi.Base.Dict.{Dict, lookup, NodupKeys}
use nvmeof_csi.Driver.Gateway.{Gateway}
use nvmeof_csi.Driver.Controller.Create.{CreateVolumeRequest, create_volume_locked}
use nvmeof_csi.Driver.Controller.Create.Order.{SameEntries, unordered, create_volume_order}
use nvmeof_csi.Tests.Codec.{codec}

abbrev forth : Dict
forth = ("SubsystemNqn", "nqn.s") ∷ ("traddr", "10.0.0.1") ∷ []

abbrev back : Dict
back = ("traddr", "10.0.0.1") ∷ ("SubsystemNqn", "nqn.s") ∷ []

forth_nodup : NodupKeys forth
unfolding lookup
forth_nodup = (refl, (refl, tt))

back_nodup : NodupKeys back
unfolding lookup
back_nodup = (refl, (refl, tt))

forth-SameEntries : SameEntries forth back
unfolding lookup
forth-SameEntries k =
    ground (arith, eq_iff "SubsystemNqn" k, eq_iff "traddr" k, eq_iff "SubsystemNqn" "traddr")

abbrev request : CreateVolumeRequest
request = record {
  name = "pvc-1";
  capacity_range = none;
  parameters = forth;
  content_source = none;
}

abbrev reordered : CreateVolumeRequest
reordered = record request { parameters = back }

-- A gateway that keeps the images' names.
abbrev gateway : Gateway
gateway = record {
  State = List String;
  namespace_add =
      λ req g. (ok (record { status = 0; error_message = ""; nsid = 1 }), req.rbd_image_name ∷ g);
  namespace_delete = λ req g. (ok (record { status = 0; error_message = "" }), g);
  list_namespaces = λ nqn g. (ok (record { status = 0; error_message = ""; namespaces = [] }), g);
}

create_volume_order_example :
    unordered (create_volume_locked gateway codec request [])
    ≡ unordered (create_volume_locked gateway codec reordered [])
create_volume_order_example =
    create_volume_order gateway codec request back [] forth_nodup back_nodup forth-SameEntries
