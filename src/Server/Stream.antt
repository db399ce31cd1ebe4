-- ===== src/Server/Stream.antt =====
-- server/cfd/stream.go and server/cfd/protocol.go: the QUIC stream of one request, its wrappers,
-- and the exchange that opens it. The QUIC stream, Cap'n Proto, SHA-1 and base64 are parameters.
pub mod Wrappers
pub mod Request
