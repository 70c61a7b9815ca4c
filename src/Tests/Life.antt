-- ===== src/Tests/Life.antt =====
-- The server object of a process that was started and stopped.
use nvmeof_csi.Base.{
  ℕ, String, Option, none, some, ◌≡◌, ◌≢◌, refl, ok, err, done, halted, panic, blocked, Action, ◌↔◌,
  not_exist,
}
use nvmeof_csi.CsiCommon.Server.{Network, nil, holding, Services, listen, remove_socket, registered}
use nvmeof_csi.CsiCommon.Server.Life.{
  Grpc, unborn, starting, serving, finished, set_phase, new_non_blocking_grpc_server, start, wait,
  stop, force_stop, on_server, Life, Lives, born, moved, starts, listens, returns, stops,
}
use nvmeof_csi.CsiCommon.Server.Life.Laws.{IsMethod, IsPast, wait_never_returns, stop_panics_iff}
use nvmeof_csi.CsiCommon.Endpoint.{listen_on, parse_endpoint, is_listed}
use nvmeof_csi.Base.Text.{to_lower, has_prefix, split_once}
use nvmeof_csi.Host.{is_not_exist}

-- A server that is running or was stopped.
data Server : Type 0 where
  running stopped : Server

halt_server : Action (Option Server) (Unit {0})
halt_server none = halted panic none
halt_server (some x) = done tt (some stopped)

abbrev library : Grpc
library = record {
  Server = Server;
  new_server = running;
  graceful_stop = halt_server;
  stop = halt_server;
}

halt_server-IsMethod : IsMethod halt_server
unfolding halt_server
halt_server-IsMethod = record { nil_panics = refl; no_panic = λ a p h. cc; keeps = λ a p h n. cc }

-- A network on which every address can be listened on.
abbrev network : Network
network = record {
  State = String;
  remove = λ address s. (err (not_exist "no such file or directory"), s);
  listen = λ network address s. (ok tt, network);
  dial = λ address s. (ok tt, s);
  run_server = λ s. (ok tt, s);
}

abbrev started : Life library network
started = record {
  object = record { wg = 1; server = none };
  phase = set_phase (λ _. unborn) 0 starting;
  world = "";
}

started-Lives : Lives library network started
unfolding start new_non_blocking_grpc_server
started-Lives = moved (born "") (starts 0 refl)

-- The server was made, stopped, and its goroutine is at its end.
abbrev ended : Life library network
ended = record {
  object = record { wg = 1; server = some stopped };
  phase = set_phase (set_phase started.phase 0 serving) 0 finished;
  world = "unix";
}

abbrev services : Services String String String
services = record { identity = some "identity"; controller = none; node = some "node" }

ended-Lives : Lives library network ended
unfolding stop on_server halt_server listen remove_socket registered listen_on parse_endpoint
    is_listed to_lower has_prefix split_once is_not_exist
ended-Lives =
    moved
      (moved
        (moved started-Lives (
          listens 0 "unix:///csi/csi.sock" (holding "identity") nil (holding "node") services "unix"
            refl refl))
        (stops (record { wg = 1; server = some stopped }) refl))
      (returns 0 "unix" refl refl)

born_phase : ended.phase 0 ≢ unborn
born_phase h = cc

wait_never_returns_example : wait library ended.object ≡ halted blocked ended.object
wait_never_returns_example =
    wait_never_returns halt_server-IsMethod halt_server-IsMethod ended-Lives 0 born_phase

stop_panics_iff_example :
    ((stop library started.object ≡ halted panic started.object)
      ↔ ((i : ℕ) → ¬ IsPast (started.phase i)))
    × ((force_stop library started.object ≡ halted panic started.object)
        ↔ ((i : ℕ) → ¬ IsPast (started.phase i)))
stop_panics_iff_example = stop_panics_iff halt_server-IsMethod halt_server-IsMethod started-Lives
