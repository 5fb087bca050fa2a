-- ===== src/Gateway.antt =====
-- gateway/server.go: the gateway. Each child models a function or a handler of it.
pub mod Publish
pub mod Routing
pub mod Delivery
pub mod Returned
pub mod Unroutable
pub mod Submit
pub mod Admission
pub mod Answer
pub mod Register
pub mod Registration
pub mod Start
pub mod Scrape
pub mod Consumer
pub mod Feedback
pub mod Limited
pub mod Pages
