-- ===== src/Driver.antt =====
-- pkg/driver: the controller, node and identity services, and how the process starts them.
pub mod Gateway
pub mod Controller
pub mod Node
pub mod Pipeline
pub mod Start
