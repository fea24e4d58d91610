-- ===== src/Realtime.antt =====
-- app/providers/ws-auth-bridge.tsx: the socket over which the chat learns of new messages.
pub mod Connection
pub mod Target
pub mod Bridge
pub mod Frames
pub mod Handlers
pub mod Connect
pub mod Steps
pub mod Delay
pub mod Staleness
pub mod Refusal
pub mod Delivery
pub mod Session
mod Tests
