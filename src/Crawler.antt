-- ===== src/Crawler.antt =====
-- crates/crawler/src/lib.rs: how a page is acquired.
pub mod Config
pub mod Address
pub mod Url
pub mod Transport
pub mod Robots
pub mod Response
pub mod Fetch
mod Tests
