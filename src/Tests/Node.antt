-- ===== src/Tests/Node.antt =====
-- One volume, staged and published on a small machine.
use nvmeof_csi.Base.{String, ◌≡◌, ◌≢◌, refl, false, some, [], ◌∷◌, ok, done, final}
use nvmeof_csi.Base.Dict.{index, lookup}
use nvmeof_csi.Base.FilePath.{clean, dir, directory, is_rooted, join_parts, keep, parts, up, join}
use nvmeof_csi.Base.Text.{lower_text, small_letter}
use nvmeof_csi.Locks.{
  Server, new_volume_locks, with_lock, load_or_store, find, acquire, unlocked, release,
}
use nvmeof_csi.Locks.Laws.{AllFree}
use nvmeof_csi.Host.{is_not_exist}
use nvmeof_csi.Host.Laws.{IsAbsent}
use nvmeof_csi.Host.Machine.{
  Machine, machine, machine_mounts, mounts_on, has, count, linked, erase, take_off,
}
use nvmeof_csi.Initiator.{
  new_initiator, is_missing, connect, exec_with_timeout, wait_for_device_ready, poll_ready,
}
use nvmeof_csi.Driver.Node.MountPoint.{
  is_staged, stage_volume, create_mount_point, create_missing, create_target, delete_mount_point,
  delete_existing, remove_file, remove_parent,
}
use nvmeof_csi.Driver.Node.Stage.{
  block, staging_path, check_dir_exists, validate_node_stage_volume_request, disconnecting,
  stage_device, stage_with, stage_new, node_stage_volume, handle_node_stage_volume,
  node_unstage_volume, handle_node_unstage_volume,
}
use nvmeof_csi.Driver.Node.Publish.{
  NodePublishVolumeRequest, is_block, bind_target, node_publish_volume, handle_node_publish_volume,
  node_unpublish_volume, handle_node_unpublish_volume,
}
use nvmeof_csi.Driver.Node.Laws.Staging.{
  handle_node_stage_volume_idempotent, handle_node_unstage_volume_idempotent,
}
use nvmeof_csi.Driver.Node.Laws.Publishing.{
  handle_node_unpublish_volume_idempotent, unpublish-publish_twice,
}
use nvmeof_csi.Tests.Volume.{request, device, idle_machine, serving, serving_free}

abbrev staged : Server Machine
staged = final (handle_node_stage_volume machine request (serving idle_machine))

stage_runs : handle_node_stage_volume machine request (serving idle_machine) ≡ done tt staged
unfolding handle_node_stage_volume validate_node_stage_volume_request check_dir_exists with_lock
    new_volume_locks acquire find load_or_store unlocked release is_staged mounts_on count has
    is_not_exist node_stage_volume stage_new new_initiator index lookup stage_with connect
    exec_with_timeout wait_for_device_ready poll_ready clean dir directory is_rooted join_parts keep
    parts up lower_text small_letter create_missing create_mount_point create_target stage_volume
    disconnecting stage_device is_missing linked
stage_runs = refl

directory_stays : machine.stat "/stg" staged.world ≡ machine.stat "/stg" idle_machine
unfolding handle_node_stage_volume validate_node_stage_volume_request check_dir_exists with_lock
    new_volume_locks acquire find load_or_store unlocked release is_staged mounts_on count has
    is_not_exist node_stage_volume stage_new new_initiator index lookup stage_with connect
    exec_with_timeout wait_for_device_ready poll_ready clean dir directory is_rooted join_parts keep
    parts up lower_text small_letter create_missing create_mount_point create_target stage_volume
    disconnecting stage_device is_missing linked
directory_stays = refl

handle_node_stage_volume_idempotent_example :
    (machine.is_not_mount_point (staging_path "/stg" "vol-1") staged.world ≡ ok false)
    × AllFree staged.locks
    × ((u : Server Machine) × (handle_node_stage_volume machine request staged ≡ done tt u)
        × (u.world ≡ staged.world)
        × AllFree u.locks)
handle_node_stage_volume_idempotent_example =
    handle_node_stage_volume_idempotent machine machine_mounts request (serving idle_machine)
      {r = tt} {t = staged} (serving_free idle_machine) stage_runs directory_stays

abbrev staged_machine : Machine
staged_machine = record idle_machine {
  files = "/stg/vol-1" ∷ device ∷ "/stg" ∷ [];
  mounts = "/stg/vol-1" ∷ [];
}

abbrev unstaged : Server Machine
unstaged = final (handle_node_unstage_volume machine "vol-1" "/stg" (serving staged_machine))

unstage_runs :
    handle_node_unstage_volume machine "vol-1" "/stg" (serving staged_machine) ≡ done tt unstaged
unfolding handle_node_unstage_volume with_lock new_volume_locks acquire find load_or_store unlocked
    release is_staged mounts_on count has is_not_exist node_unstage_volume delete_existing
    delete_mount_point remove_file remove_parent clean dir directory is_rooted join_parts keep parts
    up erase take_off
unstage_runs = refl

handle_node_unstage_volume_idempotent_example :
    (is_staged machine (staging_path "/stg" "vol-1") unstaged.world ≡ done false unstaged.world)
    × AllFree unstaged.locks
    × (node_unstage_volume machine "vol-1" "/stg" unstaged.world ≡ done tt unstaged.world)
handle_node_unstage_volume_idempotent_example =
    handle_node_unstage_volume_idempotent machine machine_mounts "vol-1" "/stg"
      (serving staged_machine) {r = tt} {t = unstaged} (serving_free staged_machine) unstage_runs

abbrev target : String
target = "/pods/vol-1"

abbrev publishing : NodePublishVolumeRequest
publishing = record {
  volume_id = "vol-1";
  volume_capability = some block;
  staging_target_path = "/stg";
  target_path = target;
}

abbrev published_server : Server Machine
published_server = final (handle_node_publish_volume machine publishing (serving staged_machine))

publish_runs :
    handle_node_publish_volume machine publishing (serving staged_machine)
    ≡ done tt published_server
unfolding handle_node_publish_volume with_lock new_volume_locks acquire find load_or_store unlocked
    release is_staged mounts_on count has is_not_exist node_publish_volume is_block bind_target
    create_missing create_mount_point create_target clean dir directory is_rooted join_parts keep
    parts up join
publish_runs = refl

abbrev published_machine : Machine
published_machine = record idle_machine {
  files = "/pods/vol-1" ∷ "/pods" ∷ "/stg" ∷ [];
  mounts = "/pods/vol-1" ∷ [];
}

abbrev unpublished : Server Machine
unpublished =
    final (handle_node_unpublish_volume machine "vol-1" target (serving published_machine))

unpublish_runs :
    handle_node_unpublish_volume machine "vol-1" target (serving published_machine)
    ≡ done tt unpublished
unfolding handle_node_unpublish_volume with_lock new_volume_locks acquire find load_or_store
    unlocked release is_staged mounts_on count has is_not_exist node_unpublish_volume
    delete_existing delete_mount_point remove_file remove_parent clean dir directory is_rooted
    join_parts keep parts up erase take_off
unpublish_runs = refl

handle_node_unpublish_volume_idempotent_example :
    IsAbsent machine target unpublished.world
    × AllFree unpublished.locks
    × (node_unpublish_volume machine target unpublished.world ≡ done tt unpublished.world)
handle_node_unpublish_volume_idempotent_example =
    handle_node_unpublish_volume_idempotent machine machine_mounts "vol-1" target
      (serving published_machine) {r = tt} {t = unpublished} (serving_free published_machine)
      unpublish_runs

abbrev published_twice : Server Machine
published_twice = final (handle_node_publish_volume machine publishing published_server)

publish_again_runs :
    handle_node_publish_volume machine publishing published_server ≡ done tt published_twice
unfolding handle_node_publish_volume with_lock new_volume_locks acquire find load_or_store unlocked
    release is_staged mounts_on count has is_not_exist node_publish_volume is_block bind_target
    create_missing create_mount_point create_target clean dir directory is_rooted join_parts keep
    parts up join
publish_again_runs = refl

unpublish-publish_twice_example :
    handle_node_unpublish_volume machine "vol-1" target published_twice ≢ done tt unpublished
unpublish-publish_twice_example =
    unpublish-publish_twice machine machine_mounts publishing publishing (serving staged_machine)
      {q = tt} {r = tt} {t = published_server} {u = published_twice} (serving_free staged_machine)
      refl publish_runs publish_again_runs "vol-1" unpublished
