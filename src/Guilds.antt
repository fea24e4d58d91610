-- ===== src/Guilds.antt =====
-- shared/api/guild-channel-api-client.ts: the channels that `GuildChannelAPIClient` remembers.
pub mod Data
pub mod Cache
pub mod Deletion
pub mod Client
pub mod Direct
pub mod Removal
pub mod Lookup
pub mod Batches
pub mod Search
pub mod SearchIds
pub mod SearchLaws
pub mod SearchEnds
pub mod SearchErrors
mod SearchTests
mod Tests
