-- ===== src/Util/Device/Scan/Laws.antt =====
-- util/util.go: how long `detectNvmeDeviceName` looks for a device, and at which files.
use nvmeof_csi.Base.{
  ℕ, zero, suc, ◌<◌, String, ◌≡◌, refl, ◌∙◌, not_exist, true, false, none, some, List, [], ◌∷◌, ok,
  err, plain, arith, eq_iff, string_eq, done, failed,
}
use nvmeof_csi.Host.{Host}
use nvmeof_csi.Initiator.Waiting.{slept}
use nvmeof_csi.Util.Device.Scan.{
  Visited, is_among, is_visited, visit, usable_name, look_at, uuid_glob,
  check_if_nvme_device_exists, detect_rounds, detect_nvme_device_name,
}

module _ (H : Host) (model : String) where
  detect_rounds_visited :
      (rounds : ℕ) (p : String) (paths : List String) (s : H.State)
      → is_among p paths ≡ true
      → ((k : ℕ) → k < rounds → H.glob uuid_glob (slept H k s) ≡ ok (p ∷ []))
      → detect_rounds H rounds model (some paths) s
        ≡ failed (plain "i/o timeout") (slept H rounds s)
  unfolding detect_rounds check_if_nvme_device_exists look_at is_visited slept
  detect_rounds_visited zero p paths s seen listed = refl
  detect_rounds_visited (suc rounds) p paths s seen listed = ground (
    arith,
    listed 0 (omega arith),
    detect_rounds_visited rounds p paths (H.sleep s) seen (λ k l. listed (suc k) (omega arith)),
  )

  check-visits :
      (p : String) (s : H.State)
      → H.glob uuid_glob s ≡ ok (p ∷ [])
      → usable_name H p model s ≡ none
      → check_if_nvme_device_exists H model (some []) s
        ≡ (err (not_exist "file does not exist"), some (p ∷ []))
  unfolding check_if_nvme_device_exists look_at is_visited visit is_among
  check-visits p s listed unusable = ground (arith, listed, unusable)

  detect_rounds_once :
      (rounds : ℕ) (p : String) (s : H.State)
      → check_if_nvme_device_exists H model (some []) s
        ≡ (err (not_exist "file does not exist"), some (p ∷ []))
      → detect_rounds H (suc rounds) model (some []) s
        ≡ detect_rounds H rounds model (some (p ∷ [])) (H.sleep s)
  unfolding detect_rounds
  detect_rounds_once rounds p s checked = ground (arith, checked)

  -- If the pattern matches one uuid file in all of the 20 rounds, and the file cannot be read or does not
  -- hold the model in the first round, then `detectNvmeDeviceName` ends with the timeout error
  -- after 20 seconds, whatever the file holds in the later rounds: it is not read again.
  pub detect_nvme_device_name_forgets :
      (p : String) (s : H.State)
      → ((k : ℕ) → k < 20 → H.glob uuid_glob (slept H k s) ≡ ok (p ∷ []))
      → usable_name H p model s ≡ none
      → detect_nvme_device_name H model s ≡ failed (plain "i/o timeout") (slept H 20 s)
  unfolding detect_nvme_device_name is_among slept
  detect_nvme_device_name_forgets p s listed unusable =
      detect_rounds_once 19 p s (check-visits p s (listed 0 (omega arith)) unusable)
      ∙ detect_rounds_visited 19 p (p ∷ []) (H.sleep s) (ground (arith, eq_iff p p))
          (λ k l. listed (suc k) (omega arith))

  detect_rounds_found :
      (rounds k : ℕ) (visited : Visited) (p : String) (rest : List String) (s : H.State)
      {n : String}
      → k < rounds
      → ((j : ℕ) → j < k → H.glob uuid_glob (slept H j s) ≡ ok [])
      → H.glob uuid_glob (slept H k s) ≡ ok (p ∷ rest)
      → is_visited p visited ≡ false
      → usable_name H p model (slept H k s) ≡ some n
      → detect_rounds H rounds model visited s ≡ done n (slept H k s)
  unfolding detect_rounds check_if_nvme_device_exists look_at slept
  detect_rounds_found zero k visited p rest s l empty listed fresh named = absurd (omega arith)
  detect_rounds_found (suc rounds) zero visited p rest s l empty listed fresh named = ground arith
  detect_rounds_found (suc rounds) (suc k) visited p rest s l empty listed fresh named = ground (
    arith,
    empty 0 (omega arith),
    detect_rounds_found rounds k visited p rest (H.sleep s) (omega arith)
        (λ j h. empty (suc j) (omega arith)) listed fresh named,
  )

  -- If uuid files first appear after `k` seconds, with `k` below 20, and the first of them holds the model
  -- and has a device name in its path, `detectNvmeDeviceName` returns that name at that time.
  detect_nvme_device_name_found :
      (k : ℕ) (p : String) (rest : List String) (s : H.State) {n : String}
      → k < 20
      → ((j : ℕ) → j < k → H.glob uuid_glob (slept H j s) ≡ ok [])
      → H.glob uuid_glob (slept H k s) ≡ ok (p ∷ rest)
      → usable_name H p model (slept H k s) ≡ some n
      → detect_nvme_device_name H model s ≡ done n (slept H k s)
  unfolding detect_nvme_device_name is_visited is_among
  detect_nvme_device_name_found k p rest s l empty listed named =
      detect_rounds_found 20 k (some []) p rest s l empty listed refl named
