-- ===== src/CsiCommon/Server/Life.antt =====
-- csi-common/server.go: the server object, its methods, and the goroutines that `Start` makes.
pub mod Laws
use nvmeof_csi.Base.{
  ℕ, ◌+◌, String, Option, none, some, ◌==◌, nat_eq, ◌≡◌, if◌then◌else◌, Result, ok, Action, done,
  failed, halted, blocked,
}
use nvmeof_csi.CsiCommon.Server.{Interface, Network, Services, listen}

-- The type grpc.Server with the methods that are called on a pointer to it, which may be nil.
pub record Grpc : Type 1 where
  pub Server : Type 0
  -- grpc.NewServer
  pub new_server : Server
  pub graceful_stop : Action (Option Server) (Unit {0})
  pub stop : Action (Option Server) (Unit {0})

-- Where a goroutine of `Start` stands: not made yet, before `s.server = server`, before the return of
-- `server.Serve`, or at its end.
pub data Phase : Type 0 where
  unborn : Phase
  starting : Phase
  serving : Phase
  finished : Phase

abbrev pub set_phase : (ℕ → Phase) → ℕ → Phase → ℕ → Phase
set_phase f i a j = if i == j then a else f j

module _ (G : Grpc) where
  -- `wg` is the counter of the wait group.
  pub record NonBlockingGrpcServer : Type 0 where
    pub wg : ℕ
    pub server : Option G.Server

  unfoldable pub new_non_blocking_grpc_server : NonBlockingGrpcServer
  new_non_blocking_grpc_server = record { wg = 0; server = none }

  -- `Start`, but for the goroutine that it makes.
  unfoldable pub start : NonBlockingGrpcServer → NonBlockingGrpcServer
  start s = record s { wg = s.wg + 1 }

  unfoldable pub wait : Action NonBlockingGrpcServer (Unit {0})
  wait s = if s.wg == 0 then done tt s else halted blocked s

  -- A method of the library, called on the field `server`.
  unfoldable pub on_server :
      Action (Option G.Server) (Unit {0}) → Action NonBlockingGrpcServer (Unit {0})
  on_server method s = elim (method s.server) [
    | done _ p ↦ done tt (record s { server = p })
    | failed e p ↦ failed e (record s { server = p })
    | halted h p ↦ halted h (record s { server = p })
  ]

  unfoldable pub stop : Action NonBlockingGrpcServer (Unit {0})
  stop = on_server G.graceful_stop

  unfoldable pub force_stop : Action NonBlockingGrpcServer (Unit {0})
  force_stop = on_server G.stop

  module _ (net : Network) where
    pub record Life : Type 0 where
      pub object : NonBlockingGrpcServer
      pub phase : ℕ → Phase
      pub world : net.State

    -- One step of a goroutine, or a call of `Start`, `Stop` or `ForceStop` that returns.
    pub data Moves (s : Life) : Life → Type 1 where
      starts :
          (i : ℕ)
          → s.phase i ≡ unborn
          → Moves s (record s { object = start s.object; phase = set_phase s.phase i starting })
      listens :
          {I C N : Type 0} (i : ℕ) (endpoint : String) (ids : Interface I) (cs : Interface C)
          (ns : Interface N) (x : Services I C N) (t : net.State)
          → s.phase i ≡ starting
          → listen net endpoint ids cs ns s.world ≡ done x t
          → Moves s (record {
            object = record { wg = s.object.wg; server = some G.new_server };
            phase = set_phase s.phase i serving;
            world = t;
          })
      returns :
          (i : ℕ) (t : net.State)
          → s.phase i ≡ serving
          → net.run_server s.world ≡ (ok tt, t)
          → Moves s (record s { phase = set_phase s.phase i finished; world = t })
      stops :
          (o : NonBlockingGrpcServer)
          → stop s.object ≡ done tt o
          → Moves s (record s { object = o })
      force_stops :
          (o : NonBlockingGrpcServer)
          → force_stop s.object ≡ done tt o
          → Moves s (record s { object = o })

    -- The states that a process reaches from a new server object.
    pub data Lives : Life → Type 1 where
      born :
          (world : net.State)
          → Lives
              (record { object = new_non_blocking_grpc_server; phase = λ _. unborn; world = world })
      moved : {s t : Life} → Lives s → Moves s t → Lives t
