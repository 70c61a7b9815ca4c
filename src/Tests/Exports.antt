-- ===== src/Tests/Exports.antt =====
-- A volume that is published on a small target and taken back.
use nvmeof_csi.Base.{
  some, [], false, failed, Error, plain, ◌⊎◌, ◌==◌, ℕ, String, ◌≡◌, refl, Bool, true, none, Run,
  done, final, string_eq, nat_eq,
}
use nvmeof_csi.Rpc.Call.{Client}
use nvmeof_csi.Spdk.Node.{NodeNvmf, volume_nqn, volume_model}
use nvmeof_csi.Base.Text.{
  to_lower, lower_text, small_letter, contains, has_prefix, trim_prefix, drop_prefix, trim_space,
}
use nvmeof_csi.Rpc.Call.{checked, call, read_answer, read_response, next_id, error_matches}
use nvmeof_csi.Rpc.Volumes.{get_volume, is_volume_created, first_volume, first_result}
use nvmeof_csi.Spdk.Publishing.{
  publish_new, publish_namespace, publish_listener, create_transport, create_subsystem,
  delete_subsystem, subsystem_remove_ns, subsystem_get_ns_id, subsystem_add_ns,
  subsystem_add_listener, is_volume_published, has_own_listener, is_own_listener,
  unpublish_existing, find_ns_id,
}
use nvmeof_csi.Spdk.Publishing.{publish_volume, unpublish_volume, published_volume}
use nvmeof_csi.Spdk.Target.{put, Exports, publish_spec, unpublish_spec}
use nvmeof_csi.Spdk.Target.Calls.{exported}
use nvmeof_csi.Spdk.Target.Refinement.{publish_volume_refines}
use nvmeof_csi.Spdk.Target.Withdrawal.{unpublish_volume_refines, unpublish-publish_volume}
use nvmeof_csi.Spdk.Target.Atomicity.{LastFailed, publish_volume_restores}
use nvmeof_csi.Tests.Exporter.{target, view, view-exports}

abbrev node : NodeNvmf
node = record {
  rpc_url = "http://10.0.0.1:9009";
  target_type = "TCP";
  target_addr = "10.0.0.1";
  target_port = "4420";
}

abbrev nothing : Exports
nothing p = none

abbrev client : ℕ → Exports → Client Exports
client n x = record { rpc_id = n; trans_created = true; world = x }

absent_lem : exported target view node (client 0 nothing) (volume_nqn "4c1d") ≡ none
absent_lem = view-exports nothing (volume_nqn "4c1d")

abbrev publishing : Run (Client Exports) (Unit {0})
publishing = publish_volume target node "4c1d" (client 0 nothing)

abbrev after_publishing : Client Exports
after_publishing = final publishing

abbrev guard : Run (Client Exports) Bool
guard = published_volume target node "4c1d" after_publishing

abbrev withdrawing : Run (Client Exports) (Unit {0})
withdrawing = unpublish_volume target node "4c1d" after_publishing

runs_lem :
    (publishing ≡ done tt after_publishing)
    × (guard ≡ done true (final guard))
    × (withdrawing ≡ done tt (final withdrawing))
unfolding unpublish_volume unpublish_existing subsystem_remove_ns subsystem_get_ns_id find_ns_id
    delete_subsystem publish_volume publish_new publish_namespace publish_listener published_volume
    create_transport create_subsystem subsystem_add_ns subsystem_add_listener is_volume_created
    get_volume first_volume first_result is_volume_published has_own_listener is_own_listener
    checked call read_answer read_response next_id error_matches to_lower lower_text small_letter
    contains has_prefix trim_prefix drop_prefix trim_space volume_nqn volume_model
runs_lem = (refl, refl, refl)

-- The volume's subsystem.
abbrev nqn : String
nqn = volume_nqn "4c1d"

publish_volume_refines_example :
    exported target view node after_publishing nqn
    ≡ publish_spec node "4c1d" (exported target view node (client 0 nothing)) nqn
publish_volume_refines_example =
    publish_volume_refines target view node "4c1d" (client 0 nothing) runs_lem.0 nqn

unpublish_volume_refines_example :
    exported target view node (final withdrawing) nqn
    ≡ unpublish_spec true "4c1d" (exported target view node after_publishing) nqn
unpublish_volume_refines_example =
    unpublish_volume_refines target view node "4c1d" after_publishing (final guard) runs_lem.1
      runs_lem.2 nqn

unpublish-publish_volume_example :
    exported target view node (final withdrawing) nqn
    ≡ exported target view node (client 0 nothing) nqn
unpublish-publish_volume_example =
    unpublish-publish_volume target view node "4c1d" (client 0 nothing) after_publishing
      (final guard) absent_lem runs_lem.0 runs_lem.1 runs_lem.2 nqn

-- A subsystem of the volume's name that nobody made for this node: it has no listener.
abbrev taken : Exports
taken = put nqn (some (record { bdevs = []; listeners = [] })) nothing

abbrev failing : Run (Client Exports) (Unit {0})
failing = publish_volume target node "4c1d" (client 0 taken)

abbrev refusal : Error
refusal = plain "nvmf_create_subsystem: json response error: Invalid parameters"

other_lem : ("nqn.s" == nqn) ≡ false
unfolding volume_nqn volume_model
other_lem = refl

failing_lem : failing ≡ failed refusal (final failing)
unfolding publish_volume publish_new published_volume create_transport create_subsystem
    is_volume_created get_volume first_volume first_result is_volume_published has_own_listener
    is_own_listener checked call read_answer read_response next_id error_matches to_lower lower_text
    small_letter contains has_prefix trim_prefix drop_prefix trim_space volume_nqn volume_model
failing_lem = refl

publish_volume_restores_example :
    (exported target view node (final failing) "nqn.s"
      ≡ exported target view node (client 0 taken) "nqn.s")
    × ((exported target view node (final failing) nqn
          ≡ exported target view node (client 0 taken) nqn)
        ⊎ LastFailed target view node "4c1d" (client 0 taken) refusal (final failing))
publish_volume_restores_example =
    publish_volume_restores target view node "4c1d" (client 0 taken) "nqn.s" failing_lem other_lem
