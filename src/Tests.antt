-- ===== src/Tests.antt =====
-- The theorems at concrete inputs.
mod Codec
mod Locks
mod Csi
mod Controller
mod Volume
mod Node
mod Initiator
mod Target
mod Exporter
mod Exports
mod Start
mod Util
mod Order
mod Bdevs
mod Life
mod Flights
mod Devices
mod Session
mod Info
mod Lifecycle
