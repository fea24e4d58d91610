-- ===== src/Stores.antt =====
-- shared/model/stores: the client's own state, one record per store, one function per action.
pub mod Voice
pub mod Settings
pub mod Presence
pub mod Ui
pub mod Guild
pub mod Notification
mod Tests
