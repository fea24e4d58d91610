-- ===== src/Net.antt =====
-- What the API modules share: JSON payloads and their schemas, URLs, and the authenticated fetch.
pub mod Json
pub mod Url
pub mod Fetch
pub mod PathLaws
mod Tests
