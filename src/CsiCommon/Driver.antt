-- ===== src/CsiCommon/Driver.antt =====
-- csi-common/driver.go: `CSIDriver`, the object that holds the driver's identity and what it offers.
pub mod Laws
use nvmeof_csi.Base.{
  ℕ, String, Bool, Option, none, some, List, [], ◌∷◌, ◌++◌, ◌==◌, string_eq, nat_eq, if◌then◌else◌,
  Result, ok, err, status, invalid_argument,
}

-- The enum csi.ControllerServiceCapability_RPC_Type is the number that the protocol gives it, and
-- `name_of` its generated `String()`. UNKNOWN is 0.
abbrev pub RpcType : Type 0
RpcType = ℕ

-- csi.VolumeCapability_AccessMode_Mode, likewise. UNKNOWN is 0.
abbrev pub Mode : Type 0
Mode = ℕ

-- A csi.ControllerServiceCapability: `none` if its `Type` is not an RPC capability.
pub record ControllerServiceCapability : Type 0 where
  pub rpc : Option RpcType

-- `cap.GetRpc().GetType()`
unfoldable pub get_type : ControllerServiceCapability → RpcType
get_type c = elim c.rpc [ none ↦ 0 | some t ↦ t ]

pub record CsiDriver : Type 0 where
  pub name : String
  pub node_id : String
  pub version : String
  pub capabilities : List ControllerServiceCapability
  pub access_modes : List Mode

-- `NewCSIDriver`: `none` is the nil pointer.
unfoldable pub new_csi_driver : String → String → String → Option CsiDriver
new_csi_driver name v node_id =
    if name == ""
    then none
    else if node_id == ""
    then none
    else if v == ""
    then none
    else some (record {
      name = name;
      node_id = node_id;
      version = v;
      capabilities = [];
      access_modes = [];
    })

unfoldable pub new_controller_service_capability : RpcType → ControllerServiceCapability
new_controller_service_capability t = record { rpc = some t }

-- The loop over `d.cap`.
unfoldable pub has_capability : RpcType → List ControllerServiceCapability → Bool
unfolding get_type
has_capability c [] = Bool.false
has_capability c (k ∷ caps) = if c == get_type k then Bool.true else has_capability c caps

module _ (name_of : RpcType → String) where
  unfoldable pub validate_controller_service_request : CsiDriver → RpcType → Result (Unit {0})
  unfolding has_capability
  validate_controller_service_request d c =
      if c == 0
      then ok tt
      else if has_capability c d.capabilities
      then ok tt
      else err (status invalid_argument (name_of c))

-- The loop of `AddControllerServiceCapabilities`, which appends to `csc`.
unfoldable pub append_capabilities :
    List ControllerServiceCapability → List RpcType → List ControllerServiceCapability
unfolding new_controller_service_capability
append_capabilities csc [] = csc
append_capabilities csc (c ∷ cl) =
    append_capabilities (csc ++ (new_controller_service_capability c ∷ [])) cl

unfoldable pub add_controller_service_capabilities : List RpcType → CsiDriver → CsiDriver
unfolding append_capabilities
add_controller_service_capabilities cl d = record d { capabilities = append_capabilities [] cl }

-- The loop of `AddVolumeCapabilityAccessModes`. `NewVolumeCapabilityAccessMode` only boxes the mode.
unfoldable pub append_modes : List Mode → List Mode → List Mode
append_modes vca [] = vca
append_modes vca (c ∷ vc) = append_modes (vca ++ (c ∷ [])) vc

unfoldable pub add_volume_capability_access_modes : List Mode → CsiDriver → CsiDriver
unfolding append_modes
add_volume_capability_access_modes vc d = record d { access_modes = append_modes [] vc }

unfoldable pub get_volume_capability_access_modes : CsiDriver → List Mode
get_volume_capability_access_modes d = d.access_modes
