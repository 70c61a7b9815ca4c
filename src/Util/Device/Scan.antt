-- ===== src/Util/Device/Scan.antt =====
-- util/util.go: the search for the device of an NVMe or virtio controller.
pub mod Laws
pub mod Ready
use nvmeof_csi.Base.{
  ℕ, zero, suc, String, ◌<>◌, Bool, true, false, ◌&&◌, not, Option, none, some, List, [], ◌∷◌, ◌==◌,
  nat_eq, string_eq, if◌then◌else◌, Result, ok, err, Error, plain, not_exist, wrapped, Action, Run,
  done, failed, halted, pure, fail, ◌>>=◌, on_error, returned,
}
use nvmeof_csi.Base.Text.{codes, trim_space}
use nvmeof_csi.Host.{Host}
use nvmeof_csi.Initiator.{wait_for_device_ready}
use nvmeof_csi.Util.Device.Name.{device_name}

unfoldable pub same_text : List ℕ → List ℕ → Bool
same_text [] [] = true
same_text [] (d ∷ t) = false
same_text (c ∷ s) [] = false
same_text (c ∷ s) (d ∷ t) = c == d && same_text s t

-- The keys of `ignorePaths`; `none` is a nil map.
abbrev pub Visited : Type 0
Visited = Option (List String)

unfoldable pub is_among : String → List String → Bool
is_among p [] = false
is_among p (q ∷ rest) = if p == q then true else is_among p rest

-- `_, visited := ignorePaths[filePath]`
unfoldable pub is_visited : String → Visited → Bool
unfolding is_among
is_visited p none = false
is_visited p (some paths) = is_among p paths

-- `ignorePaths[filePath] = struct{}{}`
unfoldable pub visit : String → Visited → Visited
visit p none = none
visit p (some paths) = some (p ∷ paths)

-- What the search leaves: the device name, if one was found, and the paths that were looked at.
pub record Found : Type 0 where
  pub name : Option String
  pub visited : Visited

-- The pattern of the uuid files.
abbrev pub uuid_glob : String
uuid_glob = "/sys/bus/pci/devices/*/nvme/nvme*/nvme*n*/uuid"

module _ (H : Host) where
  -- `getNvmeDeviceName`
  unfoldable pub get_nvme_device_name :
      (uuid_file_path nvme_model : String) → H.State → Result String
  unfolding same_text trim_space device_name
  get_nvme_device_name path model s = elim (H.read_file path s) [
    | err e ↦ err e
    | ok content ↦
        if same_text (trim_space (codes content)) (codes model)
        then ok (device_name path)
        else err (plain "does not match")
  ]

  -- The name that the loop goes on with: `none` where it is empty, after an error too.
  unfoldable pub usable_name : (uuid_file_path nvme_model : String) → H.State → Option String
  usable_name path model s = elim (get_nvme_device_name path model s) [
    | err e ↦ none
    | ok n ↦ if n == "" then none else some n
  ]

  -- The loop of `CheckIfNvmeDeviceExists`.
  unfoldable pub look_at : (nvme_model : String) → Visited → List String → H.State → Found
  unfolding is_visited visit
  look_at model visited [] s = record { name = none; visited = visited }
  look_at model visited (p ∷ paths) s = elim (is_visited p visited) [
    | true ↦ look_at model visited paths s
    | false ↦ elim (usable_name p model s) [
      | some n ↦ record { name = some n; visited = visit p visited }
      | none ↦ look_at model (visit p visited) paths s
    ]
  ]

  -- `CheckIfNvmeDeviceExists`, with what it leaves in `ignorePaths`.
  unfoldable pub check_if_nvme_device_exists :
      (nvme_model : String) → Visited → H.State → Result String × Visited
  check_if_nvme_device_exists model visited s = elim (H.glob uuid_glob s) [
    | err e ↦ (err (wrapped "obtain uuid files error" e), visited)
    | ok paths ↦
        let found = look_at model visited paths s in
        (
          elim found.name [ some n ↦ ok n | none ↦ err (not_exist "file does not exist") ],
          found.visited,
        )
  ]

  -- The loop of `detectNvmeDeviceName`, with the rounds left.
  unfoldable pub detect_rounds : ℕ → (nvme_model : String) → Visited → Action H.State String
  detect_rounds zero model visited s = failed (plain "i/o timeout") s
  detect_rounds (suc rounds) model visited s =
      let (answer, seen) = check_if_nvme_device_exists model visited s in
      elim answer [ ok n ↦ done n s | err e ↦ detect_rounds rounds model seen (H.sleep s) ]

  -- `detectNvmeDeviceName`
  unfoldable pub detect_nvme_device_name : (nvme_model : String) → Action H.State String
  detect_nvme_device_name model = detect_rounds 20 model (some [])

  -- `GetNvmeDeviceName` up to the name of the device.
  unfoldable pub find_device_name : (nvme_model bdf : String) → Action H.State String
  find_device_name model bdf =
      if bdf == ""
      then on_error (wrapped "failed to find nvme device name") (detect_nvme_device_name model)
      else (do
        path ← on_error (wrapped "failed find device at ") (
            wait_for_device_ready H ("/sys/bus/pci/devices/" <> (bdf <> "/nvme/nvme*/nvme*n*/uuid"))
              20)
        on_error (wrapped "failed to find nvme device name")
            (λ s. returned (get_nvme_device_name path model s) s))

  -- `GetNvmeDeviceName`
  unfoldable pub get_nvme_device : (nvme_model bdf : String) → Action H.State String
  get_nvme_device model bdf = do
    name ← find_device_name model bdf
    wait_for_device_ready H ("/dev/" <> name) 20

  -- The entries of the directory of a virtio controller's block devices: it must have exactly one. The list
  -- of the entries at the end of the error's text is left out.
  unfoldable single_entry : (glob : String) → List String → Action H.State String
  single_entry glob (name ∷ []) = pure name
  single_entry glob [] =
      fail (plain ("the deviceParentDirPath (" <> (glob <> ") has wrong content")))
  single_entry glob (a ∷ b ∷ rest) =
      fail (plain ("the deviceParentDirPath (" <> (glob <> ") has wrong content")))

  -- `GetVirtioBlkDeviceName`
  unfoldable get_virtio_blk_device_name : (bdf : String) → (wait : Bool) → Action H.State String
  get_virtio_blk_device_name bdf wait = do
    let glob = "/sys/bus/pci/devices/" <> (bdf <> "/virtio*/block")
    parent ← wait_for_device_ready H glob (if wait then 20 else 0)
    entries ← λ s. returned (H.read_dir parent s) s
    name ← single_entry glob entries
    wait_for_device_ready H ("/dev/" <> name) 20
