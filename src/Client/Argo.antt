-- ===== src/Client/Argo.antt =====
-- client/tun/proxy and client/tun/transport/argo: the client's side of a proxied connection.
pub mod Header
pub mod Conn
pub mod Dial
pub mod Gorilla
pub mod Websocket
pub mod Pool
