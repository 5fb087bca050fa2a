-- ===== src/Exchanges.antt =====
-- direct_exchange/, topic_exchange/, pubsub/ and headers_exchange/: a module for each exchange.
pub mod Plain
pub mod Direct
pub mod Topic
pub mod Fanout
pub mod Headers
pub mod Consuming
pub mod Publishing
