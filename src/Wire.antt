-- ===== src/Wire.antt =====
-- The header between the two halves: what client/tun/proxy/argo.go writes and
-- server/cfd/packet.go reads, against one description of the format.
pub mod Decoding
pub mod Dial
pub mod Encoding
pub mod Flow
pub mod Request
pub mod Session
pub mod Upload
pub mod Websocket
mod Tests
use cftun.Common.{ℕ, ◌/◌, ◌%◌, ◌∷◌, ◌++◌, Bytes}
use cftun.Server.Packet.{Packet}

-- version, protocol, address, big-endian port, payload
abbrev pub encode : Packet → Bytes
encode p =
    p.ip_version
    ∷ p.protocol
    ∷ (p.dest_ip ++ ((p.dest_port / 256 % 256) ∷ (p.dest_port % 256) ∷ p.payload))
