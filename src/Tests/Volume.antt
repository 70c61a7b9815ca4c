-- ===== src/Tests/Volume.antt =====
-- One volume, staged and published_server on a small machine.
use nvmeof_csi.Base.{String, refl, some, [], ◌∷◌}
use nvmeof_csi.Base.Dict.{Dict}
use nvmeof_csi.Locks.{Server, new_volume_locks}
use nvmeof_csi.Locks.Laws.{AllFree}
use nvmeof_csi.Host.Machine.{Machine}
use nvmeof_csi.Initiator.{Initiator, device_glob}
use nvmeof_csi.Driver.Node.Stage.{block, NodeStageVolumeRequest}

abbrev pub context : Dict
context =
    ("transport", "tcp")
    ∷ ("traddr", "10.0.0.1")
    ∷ ("trsvcid", "4420")
    ∷ ("nqn", "nqn.s")
    ∷ ("uuid", "4c1d")
    ∷ []

abbrev pub initiator : Initiator
initiator = record {
  target_type = "tcp";
  target_addr = "10.0.0.1";
  target_port = "4420";
  nqn = "nqn.s";
  uuid = "4c1d";
}

abbrev pub request : NodeStageVolumeRequest
request = record {
  volume_id = "vol-1";
  volume_capability = some block;
  staging_target_path = "/stg";
  publish_context = some context;
}

abbrev pub device : String
device = "/dev/disk/by-id/nvme-4c1d"

-- The staging directory exists, and the device appears under its pattern.
abbrev pub idle_machine : Machine
idle_machine = record {
  files = device ∷ "/stg" ∷ [];
  texts = [];
  mounts = [];
  links = (device_glob initiator, device) ∷ [];
  log = [];
}

abbrev pub serving : Machine → Server Machine
serving m = record { locks = new_volume_locks; world = m }

pub serving_free : (m : Machine) → AllFree (serving m).locks
unfolding new_volume_locks
serving_free m p = refl
