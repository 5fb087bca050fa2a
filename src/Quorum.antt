-- ===== src/Quorum.antt =====
-- quorum_recovery/handler.go: the monitor that replaces the nodes of the RabbitMQ cluster. Docker, the
-- management API, the clock and the random source are a parameter.
pub mod Nodes
pub mod Host
pub mod Replacement
pub mod Trigger
pub mod Check
pub mod Waiting
pub mod Kept
pub mod Acting
pub mod Forgetting
pub mod Once
pub mod Recovered
pub mod Detection
pub mod Older
