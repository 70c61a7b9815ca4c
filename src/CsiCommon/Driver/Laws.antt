-- ===== src/CsiCommon/Driver/Laws.antt =====
-- csi-common/driver.go: which requests a driver accepts after its capabilities are set.
use mathlib.Core.List.{append_assoc, append-nil, map}
use nvmeof_csi.Base.{
  ℕ, String, ◌≡◌, ◌⊎◌, ◌↔◌, sym, ◌∙◌, true, List, [], ◌∷◌, ◌++◌, string_eq, nat_eq, arith, ok,
}
use nvmeof_csi.CsiCommon.Driver.{
  RpcType, ControllerServiceCapability, CsiDriver, new_controller_service_capability,
  has_capability, validate_controller_service_request, append_capabilities,
  add_controller_service_capabilities, append_modes,
}

append_capabilities-eq-map :
    (csc : List ControllerServiceCapability) (cl : List RpcType)
    → append_capabilities csc cl ≡ csc ++ map new_controller_service_capability cl
unfolding append_capabilities
append_capabilities-eq-map csc [] = sym (append-nil csc)
append_capabilities-eq-map csc (c ∷ cl) =
    append_capabilities-eq-map (csc ++ (new_controller_service_capability c ∷ [])) cl
    ∙ append_assoc csc _ _

pub append_modes-eq-append : (vca vc : List ℕ) → append_modes vca vc ≡ vca ++ vc
unfolding append_modes
append_modes-eq-append vca [] = sym (append-nil vca)
append_modes-eq-append vca (c ∷ vc) =
    append_modes-eq-append (vca ++ (c ∷ [])) vc ∙ append_assoc vca _ _

abbrev pub Among : ℕ → List ℕ → Type 0
Among c [] = ⊥
Among c (x ∷ xs) = (c ≡ x) ⊎ Among c xs

has_capability_iff :
    (c : RpcType) (cl : List RpcType)
    → (has_capability c (map new_controller_service_capability cl) ≡ true) ↔ Among c cl
unfolding has_capability new_controller_service_capability
has_capability_iff c [] = (λ h. cc, λ h. absurd h)
has_capability_iff c (x ∷ cl) = ground (arith, has_capability_iff c cl)

-- After `AddControllerServiceCapabilities(cl)` exactly the requests for a type of `cl`, and those
-- for UNKNOWN, pass the validation; earlier capabilities are replaced.
validate-add_capabilities_iff :
    (name_of : RpcType → String) (cl : List RpcType) (d : CsiDriver) (c : RpcType)
    → (validate_controller_service_request name_of (add_controller_service_capabilities cl d) c
        ≡ ok tt)
      ↔ ((c ≡ 0) ⊎ Among c cl)
unfolding validate_controller_service_request add_controller_service_capabilities
validate-add_capabilities_iff name_of cl d c =
    rw (append_capabilities-eq-map [] cl) (ground (arith, has_capability_iff c cl))
