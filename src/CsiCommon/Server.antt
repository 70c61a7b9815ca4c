-- ===== src/CsiCommon/Server.antt =====
-- csi-common/server.go: `serve`, up to and with the call of `server.Serve`.
pub mod Life
use nvmeof_csi.Base.{
  String, ◌<>◌, Option, none, some, ◌==◌, string_eq, if◌then◌else◌, Result, ok, err, plain, message,
  Action, done, failed, halted, blocked, pure, ◌>>=◌, on_error, lift, returned,
}
use nvmeof_csi.Host.{is_not_exist}
use nvmeof_csi.CsiCommon.Endpoint.{listen_on}

-- A value of an interface type: nil, or a value of a type that implements the interface. A nil
-- pointer is such a value, and then the interface is not nil.
pub data Interface (A : Type 0) : Type 0 where
  nil : Interface A
  holding : A → Interface A

-- The operating system's files and sockets, and the gRPC server, with the answer of `Serve`.
pub record Network : Type 1 where
  pub State : Type 0
  -- os.Remove
  pub remove : String → State → Result (Unit {0}) × State
  -- net.Listen
  pub listen : (network address : String) → State → Result (Unit {0}) × State
  -- grpc.DialContext with grpc.WithBlock
  pub dial : (address : String) → State → Result (Unit {0}) × State
  -- server.Serve: it returns when the server is stopped
  pub run_server : State → Result (Unit {0}) × State

-- `if x != nil { csi.RegisterXServer(server, x) }`
unfoldable pub registered : {A : Type 0} → Interface A → Option A
registered nil = none
registered (holding a) = some a

-- The services that the gRPC server knows.
pub record Services (I C N : Type 0) : Type 0 where
  pub identity : Option I
  pub controller : Option C
  pub node : Option N

module _ (net : Network) where
  -- The socket of an earlier run is removed; that there is none is no error.
  unfoldable pub remove_socket : (network address : String) → Action net.State (Unit {0})
  remove_socket network address s =
      if network == "unix"
      then (let (answer, t) = net.remove address s in
          elim answer [
            | ok _ ↦ done tt t
            | err e ↦
                if is_not_exist e
                then done tt t
                else failed (plain ("Failed to remove " <> (address <> (", error: " <> message e))))
                    t
          ])
      else done tt s

  -- `serve` before `server.Serve`. An error is a call of klog.Fatal, which ends the process.
  unfoldable pub listen :
      {I C N : Type 0}
      → (endpoint : String) → Interface I
      → Interface C
      → Interface N
      → Action net.State (Services I C N)
  listen endpoint ids cs ns = do
    (network, address) ← returned (listen_on endpoint)
    _ ← remove_socket network address
    _ ←
        on_error (λ e. plain ("Failed to listen: " <> message e))
          (lift (net.listen network address))
    pure (record { identity = registered ids; controller = registered cs; node = registered ns })

  -- `serve`. It returns once the server is stopped.
  unfoldable pub serve :
      {I C N : Type 0}
      → (endpoint : String) → Interface I
      → Interface C
      → Interface N
      → Action net.State (Unit {0})
  serve endpoint ids cs ns = do
    _ ← listen endpoint ids cs ns
    on_error (λ e. plain ("Failed to start GRPC server: " <> message e)) (lift net.run_server)

  -- `Start` and `Wait`: nothing takes back the `wg.Add(1)` of `Start`, so when `serve` has returned,
  -- `Wait` is still blocked.
  unfoldable pub start_and_wait :
      {I C N : Type 0}
      → (endpoint : String) → Interface I
      → Interface C
      → Interface N
      → Action net.State (Unit {0})
  start_and_wait endpoint ids cs ns = do _ ← serve endpoint ids cs ns; λ s. halted blocked s

-- `logGRPC`: the call goes to the handler, and what it returns is logged and passed on.
unfoldable log_grpc :
    {S Request Response : Type 0} → Request → (Request → Action S Response) → Action S Response
log_grpc req handler = handler req
