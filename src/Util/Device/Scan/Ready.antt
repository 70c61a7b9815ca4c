-- ===== src/Util/Device/Scan/Ready.antt =====
-- util/util.go: `GetNvmeDeviceName`, from the address of a PCI function to the block device.
use nvmeof_csi.Base.{
  ℕ, ◌≤◌, ◌<◌, String, ◌<>◌, ◌≡◌, ◌≢◌, true, List, [], ◌∷◌, ok, arith, string_eq, done, eq_iff,
  nat_eq,
}
use nvmeof_csi.Base.Text.{codes, trim_space}
use nvmeof_csi.Host.{Host}
use nvmeof_csi.Initiator.Waiting.{slept, wait_for_device_ready_found}
use nvmeof_csi.Util.Device.Name.{device_name}
use nvmeof_csi.Util.Device.Name.Matching.{IsNumber, LacksN, uuid_path}
use nvmeof_csi.Util.Device.Name.Laws.{device_name-uuid_path}
use nvmeof_csi.Util.Device.Scan.{same_text, get_nvme_device_name, find_device_name, get_nvme_device}

-- The pattern of the uuid files of a PCI function.
abbrev pub function_glob : String → String
function_glob bdf = "/sys/bus/pci/devices/" <> (bdf <> "/nvme/nvme*/nvme*n*/uuid")

-- A pattern first has matches after `k` seconds, with `k` at most 20: a path, and others behind it.
pub record AppearsAt (H : Host) (pattern : String) (k : ℕ) (path : String) (s : H.State)
    : Type 0 where
  pub within : k ≤ 20
  pub missing : (j : ℕ) → j < k → H.glob pattern (slept H j s) ≡ ok []
  pub others : List String
  pub listed : H.glob pattern (slept H k s) ≡ ok (path ∷ others)

-- A uuid file can be read and holds a model, white space aside.
abbrev pub HoldsModel : (H : Host) → String → String → H.State → Type 0
HoldsModel H path model s =
    (content : String) × (H.read_file path s ≡ ok content)
    × (same_text (trim_space (codes content)) (codes model) ≡ true)

module _ (H : Host) (model bdf : String) (k : ℕ) (s : H.State) where
  find_device_name-listed :
      (path : String)
      → bdf ≢ ""
      → AppearsAt H (function_glob bdf) k path s
      → HoldsModel H path model (slept H k s)
      → find_device_name H model bdf s ≡ done (device_name path) (slept H k s)
  unfolding find_device_name get_nvme_device_name
  find_device_name-listed path named at (content, read, same) =
      let found =
        wait_for_device_ready_found H (function_glob bdf) 20 k s at.within at.missing at.listed in
      ground (arith, eq_iff bdf "", found, read, same)

  -- For a PCI function whose pattern has a uuid file as its first match within 20 seconds, in a
  -- directory without the letter `n`, and where that file then holds the model,
  -- `GetNvmeDeviceName` returns the block device of the controller and the namespace that the path
  -- names, without the number of the path between them, provided that the device itself appears
  -- within 20 further seconds.
  pub get_nvme_device_found :
      (dir x a b d : String)
      → bdf ≢ ""
      → LacksN dir
      → IsNumber x
      → IsNumber a
      → IsNumber b
      → IsNumber d
      → AppearsAt H (function_glob bdf) k (uuid_path dir x a b d) s
      → HoldsModel H (uuid_path dir x a b d) model (slept H k s)
      → (m : ℕ) (device : String)
      → AppearsAt H ("/dev/" <> ("nvme" <> (a <> ("n" <> d)))) m device (slept H k s)
      → get_nvme_device H model bdf s ≡ done device (slept H m (slept H k s))
  unfolding get_nvme_device
  get_nvme_device_found dir x a b d named h hx ha hb hd at holds m device ready =
      let found = find_device_name-listed (uuid_path dir x a b d) named at holds in
      let name = device_name-uuid_path dir x a b d h hx ha hb hd in
      let end =
        wait_for_device_ready_found H ("/dev/" <> ("nvme" <> (a <> ("n" <> d)))) 20 m (slept H k s)
          ready.within ready.missing ready.listed in
      ground (arith, found, name, end)
