-- ===== src/Auth.antt =====
-- entities/auth: the calls that the client makes of the authentication API.
pub mod WsTicket
pub mod Principal
pub mod Laws
mod Tests
