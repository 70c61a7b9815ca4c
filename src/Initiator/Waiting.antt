-- ===== src/Initiator/Waiting.antt =====
-- util/initiator.go: how long `waitForDeviceReady` and `waitForDeviceGone` wait, and for what; and
-- which publish contexts make an initiator.
use nvmeof_csi.Base.{
  ℕ, zero, suc, ◌+◌, ◌≤◌, ◌<◌, String, ◌<>◌, ◌≡◌, ◌≢◌, ◌↔◌, refl, ◌∙◌, some, List, [], ◌∷◌, ok,
  arith, done, failed, final, plain, eq_iff, string_eq,
}
use nvmeof_csi.Base.Dict.{Dict, index}
use nvmeof_csi.Host.{Host}
use nvmeof_csi.Host.Laws.{CommandView}
use nvmeof_csi.Initiator.{
  Initiator, new_initiator, poll_ready, poll_gone, wait_for_device_ready, wait_for_device_gone,
  connect, disconnect, exec_with_timeout, connect_command, disconnect_command, device_glob,
}

-- An initiator is made of a context exactly when it has all five entries, not empty.
pub new_initiator_iff :
    (context : Dict) (i : Initiator)
    → (new_initiator (some context) ≡ ok i) ↔ (
        (i.target_type ≡ index "transport" context)
        × (i.target_addr ≡ index "traddr" context)
        × (i.target_port ≡ index "trsvcid" context)
        × (i.nqn ≡ index "nqn" context)
        × (i.uuid ≡ index "uuid" context)
        × (i.target_type ≢ "")
        × (i.target_addr ≢ "")
        × (i.target_port ≢ "")
        × (i.nqn ≢ "")
        × (i.uuid ≢ ""))
unfolding new_initiator
new_initiator_iff context i = ground (
  arith,
  eq_iff (index "transport" context) "",
  eq_iff (index "traddr" context) "",
  eq_iff (index "trsvcid" context) "",
  eq_iff (index "nqn" context) "",
  eq_iff (index "uuid" context) "",
)

-- The machine after `n` seconds of sleep.
unfoldable pub slept : (H : Host) → ℕ → H.State → H.State
slept H zero s = s
slept H (suc n) s = slept H n (H.sleep s)

module _ (H : Host) (pattern : String) where
  poll_ready-found :
      (rounds n : ℕ) (s : H.State) {m : String} {ms : List String}
      → n < rounds
      → ((k : ℕ) → k < n → H.glob pattern (slept H k s) ≡ ok [])
      → H.glob pattern (slept H n s) ≡ ok (m ∷ ms)
      → poll_ready H rounds pattern s ≡ done m (slept H n s)
  unfolding poll_ready slept
  poll_ready-found zero n s h empty found = absurd (omega arith)
  poll_ready-found (suc rounds) zero s h empty found = ground arith
  poll_ready-found (suc rounds) (suc n) s h empty found = ground (
    arith,
    empty 0 (omega arith),
    poll_ready-found rounds n (H.sleep s) (omega arith) (λ k l. empty (suc k) (omega arith)) found,
  )

  poll_ready-timeout :
      (rounds : ℕ) (s : H.State)
      → ((k : ℕ) → k < rounds → H.glob pattern (slept H k s) ≡ ok [])
      → poll_ready H rounds pattern s
        ≡ failed (plain ("timed out waiting device ready: " <> pattern)) (slept H rounds s)
  unfolding poll_ready slept
  poll_ready-timeout zero s empty = refl
  poll_ready-timeout (suc rounds) s empty = ground (
    arith,
    empty 0 (omega arith),
    poll_ready-timeout rounds (H.sleep s) (λ k l. empty (suc k) (omega arith)),
  )

  -- If the pattern first has matches after `k` seconds, with `k` at most `n`, and none before,
  -- `waitForDeviceReady(glob, n)` returns the first match at that time.
  pub wait_for_device_ready_found :
      (n k : ℕ) (s : H.State) {m : String} {ms : List String}
      → k ≤ n
      → ((j : ℕ) → j < k → H.glob pattern (slept H j s) ≡ ok [])
      → H.glob pattern (slept H k s) ≡ ok (m ∷ ms)
      → wait_for_device_ready H pattern n s ≡ done m (slept H k s)
  unfolding wait_for_device_ready
  wait_for_device_ready_found n k s le empty found =
      poll_ready-found (n + 1) k s (omega arith) empty found

  -- If the pattern has no match after any of 0 to `n` seconds, `waitForDeviceReady(glob, n)` returns
  -- the timeout error, after `n + 1` seconds.
  pub wait_for_device_ready_timeout :
      (n : ℕ) (s : H.State)
      → ((k : ℕ) → k ≤ n → H.glob pattern (slept H k s) ≡ ok [])
      → wait_for_device_ready H pattern n s
        ≡ failed (plain ("timed out waiting device ready: " <> pattern)) (slept H (n + 1) s)
  unfolding wait_for_device_ready
  wait_for_device_ready_timeout n s empty =
      poll_ready-timeout (n + 1) s (λ k l. empty k (omega arith))

module _ (H : Host) (C : CommandView H) where
  poll_ready-commands :
      (rounds : ℕ) (pattern : String) (s : H.State)
      → C.commands (final (poll_ready H rounds pattern s)) ≡ C.commands s
  unfolding poll_ready
  poll_ready-commands zero pattern s = refl
  poll_ready-commands (suc rounds) pattern s =
      ground (arith, poll_ready-commands rounds pattern (H.sleep s), C.sleep_keeps s)

  poll_gone-commands :
      (rounds : ℕ) (pattern : String) (s : H.State)
      → C.commands (final (poll_gone H rounds pattern s)) ≡ C.commands s
  unfolding poll_gone
  poll_gone-commands zero pattern s = refl
  poll_gone-commands (suc rounds) pattern s =
      ground (arith, poll_gone-commands rounds pattern (H.sleep s), C.sleep_keeps s)

  -- `Connect` runs one command, and waiting for the device runs none.
  pub connect-commands :
      (i : Initiator) (s : H.State)
      → C.commands (final (connect H i s)) ≡ connect_command i ∷ C.commands s
  unfolding connect exec_with_timeout wait_for_device_ready
  connect-commands i s =
      poll_ready-commands 21 (device_glob i) _ ∙ C.exec_adds (connect_command i) 40 s

  pub disconnect-commands :
      (i : Initiator) (s : H.State)
      → C.commands (final (disconnect H i s)) ≡ disconnect_command i ∷ C.commands s
  unfolding disconnect exec_with_timeout wait_for_device_gone
  disconnect-commands i s =
      poll_gone-commands 21 (device_glob i) _ ∙ C.exec_adds (disconnect_command i) 40 s
