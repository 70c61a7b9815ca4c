-- ===== src/Tests/Util.antt =====
-- Sizes, a try lock, the paths of sysfs, and a volume context on a small machine.
use Prim.Native.Char.{code}
use nvmeof_csi.Base.{
  zero, suc, err, ℕ, ◌≤◌, ◌+◌, ◌<◌, ◌-◌, ◌^◌, ◌*◌, String, ◌≡◌, ◌⊎◌, refl, ap, true, false, Option,
  none, some, [], ◌∷◌, ok, plain, done, failed, final, Run, arith, ◌==◌, nat_eq, string_eq,
  if◌then◌else◌, eq_iff, Result,
}
use nvmeof_csi.Base.Text.{trim_space}
use nvmeof_csi.Base.FilePath.{join, clean, parts, is_rooted, keep, join_parts}
use nvmeof_csi.Host.{is_not_exist}
use nvmeof_csi.Base.Int.{pos, negsuc}
use nvmeof_csi.Base.Dict.{Dict, lookup, index, insert, NodupKeys}
use nvmeof_csi.Host.Machine.{Machine, has, linked, machine}
use nvmeof_csi.Host.Machine.Files.{machine_files}
use nvmeof_csi.Initiator.Waiting.{slept}
use nvmeof_csi.Util.Size.{to_mib, to_mib_bounds}
use nvmeof_csi.Util.TryLock.{lock, Sharing, try_lock, Tries, begin, next, set_holds}
use nvmeof_csi.Util.TryLock.Safety.{lock_exclusive}
use nvmeof_csi.Util.Device.Scan.{
  same_text, detect_nvme_device_name, usable_name, uuid_glob, get_nvme_device_name,
}
use nvmeof_csi.Util.Device.Scan.Laws.{detect_nvme_device_name_forgets}
use nvmeof_csi.Util.Context.{
  stash_context, make_folder, ContextCodec, Content, object, no_object, stash_volume_context,
  lookup_volume_context,
}
use nvmeof_csi.Util.Context.Laws.{ContextView, text_items, lookup-stash_volume_context}

to_mib_bounds_example :
    ((1048577 ≤ 2 ^ 63 - 2 ^ 20)
      × ((k : ℕ) × (to_mib (pos 1048577) ≡ pos k)
          × (1048577 ≤ k * 1048576)
          × (k * 1048576 < 1048577 + 1048576)))
    ⊎ ((2 ^ 63 - 2 ^ 20 < 1048577) × ((m : ℕ) × (to_mib (pos 1048577) ≡ negsuc m)))
to_mib_bounds_example = to_mib_bounds 1048577 (omega arith)

-- The goroutine 3 has taken the lock.
abbrev taken : Sharing
taken = record { cell = record { locked = 1 }; holds = set_holds 3 true (λ _. false) }

taken_lem : Tries taken
unfolding lock
taken_lem = next begin (try_lock 3 true (record { locked = 1 }) refl refl)

lock_exclusive_example : (◌≡◌ {A = ℕ} 3 3) × ((lock taken.cell).0 ≡ false)
lock_exclusive_example = lock_exclusive taken_lem 3 3 refl refl

-- A machine with one uuid file, which holds another model.
abbrev uuid_file : String
uuid_file = "/sys/bus/pci/devices/a/nvme/nvme0/nvme0n1/uuid"

abbrev sysfs : Machine
sysfs = record {
  files = uuid_file ∷ [];
  texts = (uuid_file, "0000") ∷ [];
  mounts = [];
  links = (uuid_glob, uuid_file) ∷ [];
  log = [];
}

linked_lem : (k : ℕ) → machine.glob uuid_glob (slept machine k sysfs) ≡ ok (uuid_file ∷ [])
unfolding slept linked
linked_lem zero = refl
linked_lem (suc k) = linked_lem k

unusable_lem : usable_name machine uuid_file "4c1d" sysfs ≡ none
unfolding usable_name get_nvme_device_name same_text trim_space has index lookup
unusable_lem = refl

detect_nvme_device_name_forgets_example :
    detect_nvme_device_name machine "4c1d" sysfs
    ≡ failed (plain "i/o timeout") (slept machine 20 sysfs)
detect_nvme_device_name_forgets_example =
    detect_nvme_device_name_forgets machine "4c1d" uuid_file sysfs (λ k l. linked_lem k)
      unusable_lem

-- A codec for the maps that have the key "nqn" alone: the text "=", and the value.
abbrev write_map : Option Dict → Result String
write_map none = ok "null"
write_map (some []) = err (plain "no entry")
write_map (some ((k, v) ∷ [])) =
    if k == "nqn" then ok (String.◌∷◌ "=" v) else err (plain "another key")
write_map (some ((k, v) ∷ e ∷ m)) = err (plain "two entries")

abbrev read_map : String → Result Content
read_map String.[] = err (plain "no text")
read_map (String.◌∷◌ c s) =
    ok (if code c == 61 then object (text_items (("nqn", s) ∷ [])) else no_object)

abbrev codec : ContextCodec
codec = record { marshal = write_map; unmarshal = read_map }

read-write_map :
    (m : Dict) {encoded : String}
    → write_map (some m) ≡ ok encoded
    → (n : Dict) × (read_map encoded ≡ ok (object (text_items n)))
      × NodupKeys n
      × ((k : String) → lookup k n ≡ lookup k m)
unfolding lookup
read-write_map [] h = absurd (ground arith)
read-write_map ((k, v) ∷ []) {encoded} h =
    let e : encoded ≡ String.◌∷◌ "=" v = ground arith in
    (("nqn", v) ∷ [], ap read_map e, (refl, tt), λ j. ground (arith, eq_iff k "nqn"))
read-write_map ((k, v) ∷ e ∷ m) h = absurd (ground arith)

read_null : {encoded : String} → write_map none ≡ ok encoded → read_map encoded ≡ ok no_object
read_null {encoded} h = let e : encoded ≡ "null" = ground arith in ap read_map e

codec_view : ContextView codec
codec_view = record { decoded = λ m h. read-write_map m h; decoded_nil = λ h. read_null h }

abbrev one_entry : Dict
one_entry = ("nqn", "nqn.s") ∷ []

abbrev stashing : Run Machine (Unit {0})
stashing = stash_volume_context machine codec (some one_entry) "/stg" sysfs

stashed_lem : stashing ≡ done tt (final stashing)
unfolding stash_volume_context stash_context make_folder is_not_exist has insert join clean parts
    is_rooted keep join_parts
stashed_lem = refl

lookup-stash_volume_context_example :
    (n : Dict) × (lookup_volume_context machine codec "/stg" (final stashing)
      ≡ done n (final stashing))
    × ((k : String) → lookup k n ≡ lookup k one_entry)
lookup-stash_volume_context_example =
    lookup-stash_volume_context machine machine_files codec codec_view one_entry "/stg" sysfs
      stashed_lem
