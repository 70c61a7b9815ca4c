-- ===== src/Tests/Lifecycle.antt =====
-- One volume on a small machine, from its staging to its unstaging.
use nvmeof_csi.Base.{
  ◌≤◌, ◌≢◌, List, [], ◌∷◌, arith, eq_iff, none, ◌≡◌, refl, some, done, final, nat_eq, string_eq,
  Run,
}
use nvmeof_csi.Base.Dict.{index, lookup}
use nvmeof_csi.Base.FilePath.{clean, dir, directory, is_rooted, join_parts, keep, parts, up, join}
use nvmeof_csi.Base.Text.{lower_text, small_letter}
use nvmeof_csi.Locks.{
  Server, new_volume_locks, with_lock, load_or_store, find, acquire, unlocked, release,
}
use nvmeof_csi.Locks.Laws.{AllFree}
use nvmeof_csi.Host.{is_not_exist}
use nvmeof_csi.Host.Machine.{
  Machine, machine, machine_mounts, mounts_on, has, count, linked, erase, take_off,
}
use nvmeof_csi.Host.Machine.Table.{machine_table, machine_failures, no_mounts}
use nvmeof_csi.Initiator.{
  new_initiator, is_missing, connect, exec_with_timeout, wait_for_device_ready, poll_ready,
}
use nvmeof_csi.Driver.Node.MountPoint.{
  is_staged, stage_volume, create_mount_point, create_missing, create_target, delete_mount_point,
  delete_existing, remove_file, remove_parent,
}
use nvmeof_csi.Driver.Node.Stage.{
  block, staged_path, check_dir_exists, validate_node_stage_volume_request, disconnecting,
  stage_device, stage_with, stage_new, node_stage_volume, handle_node_stage_volume,
  node_unstage_volume, handle_node_unstage_volume,
}
use nvmeof_csi.Driver.Node.Publish.{
  NodePublishVolumeRequest, is_block, bind_target, node_publish_volume, handle_node_publish_volume,
  node_unpublish_volume, handle_node_unpublish_volume,
}
use nvmeof_csi.Driver.Node.Table.{Request, stages, publishes, unstages, handle, handle_all, effects}
use nvmeof_csi.Driver.Node.Table.Refinement.{handle_all_refines}
use nvmeof_csi.Driver.Node.Table.Cycle.{cycle, stage_publish_cycle}
use nvmeof_csi.Driver.Node.Attempts.Bounds.{attempt_all, attempt_all_at_most_one}
use nvmeof_csi.Tests.Volume.{request, idle_machine, serving, serving_free}

abbrev bind : NodePublishVolumeRequest
bind = record {
  volume_id = "vol-1";
  volume_capability = some block;
  staging_target_path = "/stg";
  target_path = "/pods/vol-1";
}

abbrev after : Run (Server Machine) (Unit {0})
after = handle_all machine (cycle request bind) (serving idle_machine)

cycle_runs : after ≡ done tt (final after)
unfolding handle_all handle handle_node_stage_volume validate_node_stage_volume_request
    check_dir_exists with_lock new_volume_locks acquire find load_or_store unlocked release
    is_staged mounts_on count has is_not_exist node_stage_volume stage_new new_initiator index
    lookup stage_with connect exec_with_timeout wait_for_device_ready poll_ready clean dir directory
    is_rooted join_parts keep parts up lower_text small_letter create_missing create_mount_point
    create_target stage_volume disconnecting stage_device is_missing linked
    handle_node_unstage_volume node_unstage_volume delete_existing delete_mount_point remove_file
    remove_parent erase take_off handle_node_publish_volume node_publish_volume is_block bind_target
    join handle_node_unpublish_volume node_unpublish_volume
cycle_runs = refl

handle_all_refines_example :
    (machine_mounts.depth (final after).world
      ≡ effects (cycle request bind) (machine_mounts.depth idle_machine))
    × AllFree (final after).locks
handle_all_refines_example =
    handle_all_refines machine machine_mounts machine_table (cycle request bind)
      (serving idle_machine) (serving_free idle_machine) cycle_runs

stage_publish_cycle_example :
    machine_mounts.depth (final after).world "/stg/vol-1"
    ≡ machine_mounts.depth idle_machine "/stg/vol-1"
stage_publish_cycle_example =
    stage_publish_cycle machine machine_mounts machine_table request bind (serving idle_machine)
      (serving_free idle_machine) (no_mounts (staged_path request) idle_machine refl)
      (no_mounts "/pods/vol-1" idle_machine refl) cycle_runs "/stg/vol-1"

-- Requests that are repeated, and a publication of no volume capability, which fails.
abbrev attempts : List Request
attempts =
    stages request
    ∷ stages request
    ∷ publishes (record bind { volume_capability = none })
    ∷ unstages "vol-1" "/stg"
    ∷ stages request
    ∷ []

target_apart : staged_path request ≢ "/pods/vol-1"
target_apart h = ground (arith, (eq_iff (staged_path request) "/pods/vol-1").1 h)

unstaged_few : machine_mounts.depth idle_machine (staged_path request) ≤ 1
unstaged_few = omega (arith, no_mounts (staged_path request) idle_machine refl)

attempt_all_at_most_one_example :
    (machine_mounts.depth
        (attempt_all machine attempts (serving idle_machine)).world
        (staged_path request)
      ≤ 1)
    × AllFree (attempt_all machine attempts (serving idle_machine)).locks
attempt_all_at_most_one_example =
    attempt_all_at_most_one machine machine_mounts machine_table machine_failures attempts
      (staged_path request) (serving idle_machine) (serving_free idle_machine) (target_apart, tt)
      unstaged_few
