-- ===== src/Client.antt =====
-- The client half: client/ of the repository.
pub mod Metadata
pub mod Argo
pub mod Buffer
pub mod Config
pub mod Endpoint
pub mod Log
pub mod Route
pub mod Stack
pub mod Engine
pub mod Tun
pub mod Tunnel
pub mod Device
pub mod Dialer
pub mod Tcp
pub mod Udp
mod Tests
