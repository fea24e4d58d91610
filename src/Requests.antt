-- ===== src/Requests.antt =====
-- shared/api/guild-channel-api-client.ts: the requests that the methods of `GuildChannelAPIClient` send.
pub mod Plan
pub mod Messages
pub mod Members
pub mod Channels
pub mod Moderation
pub mod Answers
pub mod Calls
pub mod Addresses
mod Tests
