-- ===== src/Tests/Initiator.antt =====
-- One volume, staged and published_server on a small machine.
use nvmeof_csi.Base.{
  ℕ, zero, suc, ◌+◌, String, ◌<>◌, ◌≡◌, ◌≢◌, ◌↔◌, refl, false, some, [], ◌∷◌, ok, plain, wrapped,
  not_exist, Error, done, failed, final,
}
use nvmeof_csi.Base.Dict.{index, lookup}
use nvmeof_csi.Base.FilePath.{clean, dir, directory, is_rooted, join_parts, keep, parts, up}
use nvmeof_csi.Base.Text.{lower_text, small_letter}
use nvmeof_csi.Host.{is_not_exist}
use nvmeof_csi.Host.Machine.{Machine, machine, machine_commands, mounts_on, has, count, linked}
use nvmeof_csi.Initiator.{
  new_initiator, is_missing, connect, connect_command, disconnect_command, exec_with_timeout,
  wait_for_device_ready, poll_ready,
}
use nvmeof_csi.Initiator.Waiting.{new_initiator_iff, slept, wait_for_device_ready_timeout}
use nvmeof_csi.Driver.Node.MountPoint.{
  is_staged, stage_volume, create_mount_point, create_missing, create_target,
}
use nvmeof_csi.Driver.Node.Stage.{as_internal, staged_path, node_stage_volume, node_unstage_volume}
use nvmeof_csi.Driver.Node.Laws.Commands.{
  node_stage_volume_disconnects, node_stage_volume_keeps_connection,
}
use nvmeof_csi.Tests.Volume.{context, initiator, request, device, idle_machine}

new_initiator_iff_example : (new_initiator (some context) ≡ ok initiator) ↔ (
    (initiator.target_type ≡ index "transport" context)
    × (initiator.target_addr ≡ index "traddr" context)
    × (initiator.target_port ≡ index "trsvcid" context)
    × (initiator.nqn ≡ index "nqn" context)
    × (initiator.uuid ≡ index "uuid" context)
    × (initiator.target_type ≢ "")
    × (initiator.target_addr ≢ "")
    × (initiator.target_port ≢ "")
    × (initiator.nqn ≢ "")
    × (initiator.uuid ≢ ""))
new_initiator_iff_example = new_initiator_iff context initiator

abbrev pattern : String
pattern = "/dev/disk/by-id/*4c1d*"

abbrev waited : ℕ
waited = 2

abbrev unlinked_machine : Machine
unlinked_machine = record idle_machine { links = [] }

unlinked : (k : ℕ) → machine.glob pattern (slept machine k unlinked_machine) ≡ ok []
unfolding slept linked
unlinked zero = refl
unlinked (suc k) = unlinked k

wait_for_device_ready_timeout_example :
    wait_for_device_ready machine pattern waited unlinked_machine
    ≡ failed
        (plain ("timed out waiting device ready: " <> pattern))
        (slept machine (waited + 1) unlinked_machine)
wait_for_device_ready_timeout_example =
    wait_for_device_ready_timeout machine pattern waited unlinked_machine (λ k l. unlinked k)

-- The device is found under its pattern, but is gone when it is to be mounted.
abbrev broken_machine : Machine
broken_machine = record idle_machine { files = "/stg" ∷ [] }

abbrev mount_error : Error
mount_error = wrapped "failed to bind mount block device" (not_exist "no such file or directory")

abbrev connected : Machine → Machine
connected m = final (connect machine initiator m)

fresh_example :
    (is_staged machine (staged_path request) idle_machine ≡ done false idle_machine)
    × (is_staged machine (staged_path request) broken_machine ≡ done false broken_machine)
unfolding is_staged mounts_on count has is_not_exist
fresh_example = (refl, refl)

initiator_made : new_initiator request.publish_context ≡ ok initiator
unfolding new_initiator index lookup is_missing lower_text small_letter
initiator_made = refl

connect_runs :
    (connect machine initiator idle_machine ≡ done device (connected idle_machine))
    × (connect machine initiator broken_machine ≡ done device (connected broken_machine))
unfolding connect exec_with_timeout wait_for_device_ready poll_ready linked lower_text small_letter
connect_runs = (refl, refl)

stage_outcomes :
    (stage_volume machine device (staged_path request) (connected idle_machine)
      ≡ done tt
          (final (stage_volume machine device (staged_path request) (connected idle_machine))))
    × (stage_volume machine device (staged_path request) (connected broken_machine)
        ≡ failed mount_error
            (final (stage_volume machine device (staged_path request) (connected broken_machine))))
unfolding connect exec_with_timeout wait_for_device_ready poll_ready linked lower_text small_letter
    stage_volume create_missing create_mount_point create_target is_staged mounts_on count has
    is_not_exist clean dir directory is_rooted join_parts keep parts up
stage_outcomes = (refl, refl)

node_stage_volume_disconnects_example :
    (v : Machine) × (node_stage_volume machine request broken_machine
      ≡ failed (as_internal mount_error) v)
    × (machine_commands.commands v
        ≡ disconnect_command initiator
          ∷ connect_command initiator
          ∷ machine_commands.commands broken_machine)
node_stage_volume_disconnects_example =
    node_stage_volume_disconnects machine machine_commands request broken_machine {i = initiator}
      {device = device} {t = connected broken_machine} {e = mount_error}
      {u = final (stage_volume machine device (staged_path request) (connected broken_machine))}
      fresh_example.1 initiator_made connect_runs.1 stage_outcomes.1

node_stage_volume_keeps_connection_example :
    let u = final (stage_volume machine device (staged_path request) (connected idle_machine)) in
    (node_stage_volume machine request idle_machine ≡ done tt u)
    × (machine_commands.commands (final (node_unstage_volume machine "vol-1" "/stg" u))
        ≡ connect_command initiator ∷ machine_commands.commands idle_machine)
node_stage_volume_keeps_connection_example =
    node_stage_volume_keeps_connection machine machine_commands request idle_machine {i = initiator}
      {device = device} {t = connected idle_machine} {r = tt}
      {u = final (stage_volume machine device (staged_path request) (connected idle_machine))}
      fresh_example.0 initiator_made connect_runs.0 stage_outcomes.0
