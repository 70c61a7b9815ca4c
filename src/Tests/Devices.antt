-- ===== src/Tests/Devices.antt =====
-- A block device that is found by the PCI address of its controller.
use nvmeof_csi.Base.{◌≡◌, ◌≢◌, String, [], ◌∷◌, refl, done, arith, eq_iff, string_eq}
use nvmeof_csi.Base.Dict.{index, lookup}
use nvmeof_csi.Base.Text.{trim_space}
use nvmeof_csi.Host.Machine.{Machine, machine, linked, has}
use nvmeof_csi.Initiator.Waiting.{slept}
use nvmeof_csi.Util.Device.Name.Matching.{uuid_path}
use nvmeof_csi.Util.Device.Scan.{get_nvme_device, same_text}
use nvmeof_csi.Util.Device.Scan.Ready.{function_glob, AppearsAt, HoldsModel, get_nvme_device_found}

abbrev function : String
function = "0000:03:00.0"

abbrev uuid_file : String
uuid_file = uuid_path "/sys/bus/pci/devices/0000:03:00.0" "0" "0" "12" "1"

-- The uuid file ends with a new line.
abbrev sysfs : Machine
sysfs = record {
  files = uuid_file ∷ [];
  texts = (uuid_file, "4c1d\n") ∷ [];
  mounts = [];
  links = (function_glob function, uuid_file) ∷ ("/dev/nvme0n1", "/dev/nvme0n1") ∷ [];
  log = [];
}

uuid-AppearsAt : AppearsAt machine (function_glob function) 0 uuid_file sysfs
unfolding linked slept
uuid-AppearsAt = record {
  within = omega arith;
  missing = λ j h. absurd (omega arith);
  others = [];
  listed = refl;
}

device-AppearsAt : AppearsAt machine "/dev/nvme0n1" 0 "/dev/nvme0n1" (slept machine 0 sysfs)
unfolding linked slept
device-AppearsAt = record {
  within = omega arith;
  missing = λ j h. absurd (omega arith);
  others = [];
  listed = refl;
}

holds : HoldsModel machine uuid_file "4c1d" (slept machine 0 sysfs)
unfolding slept has index lookup same_text trim_space
holds = ("4c1d\n", refl, refl)

named_lem : function ≢ ""
named_lem h = ground (arith, (eq_iff function "").1 h)

get_nvme_device_found_example :
    get_nvme_device machine "4c1d" function sysfs
    ≡ done "/dev/nvme0n1" (slept machine 0 (slept machine 0 sysfs))
get_nvme_device_found_example =
    get_nvme_device_found machine "4c1d" function 0 sysfs "/sys/bus/pci/devices/0000:03:00.0" "0"
      "0" "12" "1" named_lem (ground arith) (refl, tt) (refl, tt) (refl, (refl, tt)) (refl, tt)
      uuid-AppearsAt holds 0 "/dev/nvme0n1" device-AppearsAt
