-- ===== src/Driver/Controller/Capabilities.antt =====
-- driver/controllerserver.go: `ValidateVolumeCapabilities`.
use nvmeof_csi.Base.{
  ◌≡◌, ◌↔◌, refl, Bool, true, false, Option, none, some, List, [], ◌∷◌, ◌==◌, nat_eq, if◌then◌else◌,
  arith,
}
use nvmeof_csi.CsiCommon.Driver.{
  CsiDriver, Mode, add_volume_capability_access_modes, get_volume_capability_access_modes,
}
use nvmeof_csi.CsiCommon.Driver.Laws.{Among, append_modes-eq-append}

-- csi.VolumeCapability: its access mode may be missing.
pub record VolumeCapability : Type 0 where
  pub access_mode : Option Mode

-- `cap.GetAccessMode().GetMode()`
unfoldable pub get_mode : VolumeCapability → Mode
get_mode c = elim c.access_mode [ none ↦ 0 | some m ↦ m ]

-- The inner loop: is the mode one of the driver's?
unfoldable pub is_supported : Mode → List Mode → Bool
is_supported m [] = false
is_supported m (a ∷ modes) = if m == a then true else is_supported m modes

-- `ValidateVolumeCapabilities`: `some` is the confirmed list, `none` the answer with no confirmation.
unfoldable pub validate_loop :
    List Mode → List VolumeCapability → List VolumeCapability → Option (List VolumeCapability)
validate_loop modes [] all = some all
validate_loop modes (c ∷ caps) all =
    let rest = validate_loop modes caps all in
    if is_supported (get_mode c) modes then rest else none

unfoldable pub validate_volume_capabilities :
    CsiDriver → List VolumeCapability → Option (List VolumeCapability)
validate_volume_capabilities d caps = validate_loop (get_volume_capability_access_modes d) caps caps

-- Every capability asks for one of the modes.
abbrev pub AllAmong : List Mode → List VolumeCapability → Type 0
AllAmong modes [] = Unit
AllAmong modes (c ∷ caps) = Among (get_mode c) modes × AllAmong modes caps

is_supported_iff : (m : Mode) (modes : List Mode) → (is_supported m modes ≡ true) ↔ Among m modes
unfolding is_supported
is_supported_iff m [] = (λ h. cc, λ h. absurd h)
is_supported_iff m (a ∷ modes) = ground (arith, is_supported_iff m modes)

validate_loop_iff :
    (modes : List Mode) (caps all : List VolumeCapability)
    → (validate_loop modes caps all ≡ some all) ↔ AllAmong modes caps
unfolding validate_loop
validate_loop_iff modes [] all = (λ h. tt, λ h. refl)
validate_loop_iff modes (c ∷ caps) all =
    ground (arith, validate_loop_iff modes caps all, is_supported_iff (get_mode c) modes)

-- A driver that was given the modes `vc` confirms a request, and then all of its capabilities,
-- exactly when every capability asks for one of `vc`.
validate_volume_capabilities_iff :
    (d : CsiDriver) (vc : List Mode) (caps : List VolumeCapability)
    → (validate_volume_capabilities (add_volume_capability_access_modes vc d) caps ≡ some caps)
      ↔ AllAmong vc caps
unfolding validate_volume_capabilities get_volume_capability_access_modes
    add_volume_capability_access_modes
validate_volume_capabilities_iff d vc caps =
    rw (append_modes-eq-append [] vc) (validate_loop_iff vc caps caps)
