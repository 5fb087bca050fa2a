-- ===== src/Examples.antt =====
-- Concrete brokers, networks and stores, and the theorems of the other modules at them.
mod Broker
mod Submitting
mod Settling
mod Working
mod Balancing
mod Limiting
mod Requesting
mod Answering
mod Recovering
mod Interleaving
mod Authenticating
mod Clustering
mod Console
mod Starting
