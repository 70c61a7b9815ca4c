-- ===== src/Tests/Csi.antt =====
-- The endpoint that a driver listens on.
use nvmeof_csi.Base.{String, ◌<>◌, ◌≡◌, ◌≢◌, ok, arith, eq_iff}
use nvmeof_csi.CsiCommon.Endpoint.{listen_on}
use nvmeof_csi.CsiCommon.Endpoint.Laws.{listen_on_local}

abbrev path : String
path = "csi/csi.sock"

path_filled : path ≢ ""
path_filled h = ground (arith, eq_iff path "")

listen_on_local_example :
    (listen_on ("unix://" <> path) ≡ ok ("unix", "/" <> path))
    × (listen_on ("UNIX://" <> path) ≡ ok ("UNIX", path))
listen_on_local_example = listen_on_local path path_filled
