-- ===== src/Initiator.antt =====
-- util/initiator.go: the NVMe-oF initiator of a node.
pub mod Waiting
use nvmeof_csi.Base.{
  ℕ, zero, suc, ◌+◌, String, ◌<>◌, Bool, true, false, ◌||◌, Option, none, some, List, [], ◌∷◌, ◌==◌,
  string_eq, if◌then◌else◌, Result, ok, err, plain, Error, Action, pure, fail, Run, done, failed,
  halted, ◌>>=◌,
}
use nvmeof_csi.Base.Dict.{Dict, index}
use nvmeof_csi.Base.Text.{lower_text, contains, codes}
use nvmeof_csi.Host.{Host, Exit}

pub record Initiator : Type 0 where
  pub target_type : String
  pub target_addr : String
  pub target_port : String
  pub nqn : String
  pub uuid : String

unfoldable pub is_missing : String → Dict → Bool
is_missing k context = index k context == ""

-- `NewNvmeofCsiInitiator`. The list of the context at the end of the
-- error's text is left out.
unfoldable pub new_initiator : Option Dict → Result Initiator
unfolding is_missing
new_initiator none = err (plain "publishContext is nil")
new_initiator (some context) =
    if is_missing "transport" context
      || is_missing "traddr" context
      || is_missing "trsvcid" context
      || is_missing "nqn" context
      || is_missing "uuid" context
    then err (plain "publishContext missing required fields")
    else ok (record {
      target_type = index "transport" context;
      target_addr = index "traddr" context;
      target_port = index "trsvcid" context;
      nqn = index "nqn" context;
      uuid = index "uuid" context;
    })

-- The pattern of the device links of a namespace.
abbrev pub device_glob : Initiator → String
device_glob i = "/dev/disk/by-id/nvme-uuid.*" <> (i.uuid <> "*")

abbrev pub connect_command : Initiator → List String
connect_command i =
    "nvme"
    ∷ "connect-all"
    ∷ "-t"
    ∷ lower_text i.target_type
    ∷ "-a"
    ∷ i.target_addr
    ∷ "-q"
    ∷ i.nqn
    ∷ "-l"
    ∷ "1800"
    ∷ []

abbrev pub disconnect_command : Initiator → List String
disconnect_command i = "nvme" ∷ "disconnect" ∷ "-n" ∷ i.nqn ∷ []

module _ (H : Host) where
  -- `execWithTimeout`: the output, and the error.
  unfoldable pub exec_with_timeout : List String → ℕ → Action H.State (String × Option Error)
  exec_with_timeout cmd timeout s =
      let (exit, t) = H.exec cmd timeout s in
      done
        (if exit.deadline_exceeded
          then (exit.output, some (plain "timed out"))
          else (exit.output, exit.error))
        t

  -- The loop of `waitForDeviceReady`, with the rounds left.
  unfoldable pub poll_ready : ℕ → String → Action H.State String
  poll_ready zero pattern s = failed (plain ("timed out waiting device ready: " <> pattern)) s
  poll_ready (suc rounds) pattern s = elim (H.glob pattern s) [
    | err e ↦ failed e s
    | ok [] ↦ poll_ready rounds pattern (H.sleep s)
    | ok (m ∷ _) ↦ done m s
  ]

  -- `waitForDeviceReady`: i from 0 to seconds, both included.
  unfoldable pub wait_for_device_ready : String → ℕ → Action H.State String
  wait_for_device_ready pattern seconds = poll_ready (seconds + 1) pattern

  -- The loop of `waitForDeviceGone`.
  unfoldable pub poll_gone : ℕ → String → Action H.State (Unit {0})
  poll_gone zero pattern s = failed (plain ("timed out waiting device gone: " <> pattern)) s
  poll_gone (suc rounds) pattern s = elim (H.glob pattern s) [
    | err e ↦ failed e s
    | ok [] ↦ done tt s
    | ok (m ∷ _) ↦ poll_gone rounds pattern (H.sleep s)
  ]

  unfoldable pub wait_for_device_gone : String → Action H.State (Unit {0})
  wait_for_device_gone pattern = poll_gone 21 pattern

  -- `Connect`: an error of the command is logged, and the device decides.
  unfoldable pub connect : Initiator → Action H.State String
  connect i = do
    _ ← exec_with_timeout (connect_command i) 40
    wait_for_device_ready (device_glob i) 20

  -- `Disconnect`: likewise.
  unfoldable pub disconnect : Initiator → Action H.State (Unit {0})
  disconnect i = do
    _ ← exec_with_timeout (disconnect_command i) 40
    wait_for_device_gone (device_glob i)
