-- ===== src/Server.antt =====
-- The server half: server/ of the repository.
pub mod Packet
pub mod Websocket
pub mod Stream
pub mod Proxy
pub mod Connection
pub mod Edge
pub mod Serving
pub mod Tls
pub mod Token
pub mod Quick
pub mod Key
pub mod Warp
pub mod Start
pub mod Tunnel
mod Tests
