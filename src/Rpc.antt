-- ===== src/Rpc.antt =====
-- util/jsonrpc.go: the client that talks to the JSON-RPC proxy of an SPDK target.
pub mod Call
pub mod Volumes
pub mod Laws
pub mod Flights
