-- ===== src/Lib.antt =====
-- cftun tunnels TCP and UDP through Cloudflare: a client that takes connections from a TUN device or
-- a local listener to a WebSocket, and a server that receives them as QUIC streams from Cloudflare's
-- edge and dials their destinations.
--
-- The files follow the two programs and what passes between them.
--
-- Common: text, lists of bytes, results and signed numbers that all files share.
-- Client: the client half.
--   Client/Metadata: client/tun/metadata, and how client/tun/tunnel names a flow.
--   Client/Argo/Header: the header of argoConn in client/tun/proxy/argo.go.
--   Client/Argo/Gorilla: GorillaConn of client/tun/transport/argo/connection.go, a byte stream over
--     messages, with its laws in Gorilla/Stream.
--   Client/Argo/Websocket: client/tun/transport/argo/dialer.go. Client/Argo/Pool is its pool as a step
--     relation, one step for each atomic operation on the channel or the counter, so that `preDial`,
--     any number of `Dial` and `Close` interleave.
--   Client/Argo/Dial: `Argo` of client/tun/proxy/argo.go, which puts the header before a connection
--     from the pool.
--   Client/Argo/Conn: `Conn` of client/tun/transport/argo/connection.go.
--   Client/Tcp: the copy loops of client/tcp.go, each by itself. Tcp/Connector has both as a step
--     relation over their interleavings, and the listener.
--   Client/Udp: the sessions of client/udp.go as a step relation, with its invariant in Udp/Sessions.
--     Udp/Idle is the end of an idle session, Udp/Replies the way back.
--   Client/Config: client/config.go and client/websocket.go.
--   Client/Buffer: client/tun/buffer and client/tun/internal/pool.
--   Client/Endpoint: client/tun/core/device/iobased/endpoint.go.
--   Client/Route: client/tun/route, one file for each system.
--   Client/Stack: client/tun/core and client/tun/core/option. An option is a function on the calls
--     made on gVisor's stack; Stack/Steps lists the calls that CreateStack makes, in their order.
--   Client/Engine and Client/Tun: client/tun/engine and client/tun.go, from the configuration of a TUN
--     device to the events of its start.
--   Client/Tunnel: the handlers of client/tun/tunnel, with a pipe as a step relation. Tunnel/Queues is
--     tunnel.go: the queues and their loop as a step relation over the calls of all methods.
--   Client/Device: client/tun/core/device/tun/tun_netstack.go, with the descriptors it leaves open.
--     Device/Wireguard is the device of the other systems, Device/Fd that of a given descriptor.
--   Client/Log: client/tun/log.
--   Client/Dialer: client/tun/dialer, one file for each system.
-- Server: the server half.
--   Server/Start: server/config.go. It uses Server/Quick (server/quick.go), Server/Warp and Server/Key
--     (server/warp.go, server/key.go).
--   Server/Token: server/cfd/token.go, and the parameters of a registration in server/cfd/register.go.
--   Server/Tunnel: `Serve` and `serveQUIC` of server/cfd/tunnel.go.
--   Server/Tls: server/cfd/tls.go, with the text of the certificates as an argument.
--   Server/Packet: server/cfd/packet.go.
--   Server/Websocket: server/cfd/websocket.go.
--   Server/Stream: server/cfd/stream.go and server/cfd/protocol.go.
--   Server/Proxy and Server/Connection: server/cfd/connection.go. `handle_quic_stream` is the handler
--     of one stream, with the guards and early returns of the source in their order.
--   Server/Edge: the choice of addresses and ports in server/cfd/tunnel.go and server/cfd/quic.go.
--     Edge/Quic is `DialQuic`.
--   Server/Serving: the registration loop and the accepting of streams in server/cfd/connection.go,
--     with the result of a registration in server/cfd/register.go; Serving/Details reads its fields.
-- Log: log/level.go and log/log.go. Log/Observable: log/observable.go and log/subscriber.go as a step
--   relation; its runs carry the changes of the map and the items that it was locked for, the last one first.
-- Main: main.go, from the flags and the file to what is started, and what a signal undoes.
-- Wire: the header format between the halves, described once, and runs from the client to the origin.
--   Wire/Dial goes from a call of the pool to what the server learns of the destination.
--   Wire/Websocket compares the two wrappers of a WebSocket.
--
-- What is not in the repository is a parameter: the WebSocket libraries (the messages they return,
-- and whether a write succeeds), the QUIC stream, the network (what each dial, read and write
-- answers), the resolver, sync.Pool, what the system prints of its routes, Cap'n Proto, SHA-1 and
-- base64, the prints of addresses and numbers, and Cloudflare's edge, which is relied on to pass
-- the two headers of a destination on, under the prefix of HTTP headers.
--
-- A loop that runs until the environment ends it takes the list of what the environment answers, round
-- by round. The binary length of a number takes 32 steps, one for each bit. The reader of a whole
-- stream runs on fuel, more than the bytes and messages to come, each of which a round consumes. The reader
-- of certificates runs on more fuel than there are bytes, and the check of an idle session on more
-- than the nanoseconds up to its timeout.
--
-- Bytes are numbers, with the bound 256 stated where a theorem needs it. Logging is left out.
--
-- A program that ends by log.Fatalln or by a panic is a result of its own, with the text. The codecs of
-- encoding/json and encoding/base64 are records of two functions; that they read back what they write
-- is a named hypothesis. gVisor's stack is the error that it returns to a call after other calls.
--
-- Not modelled: the output of the log and the time limits of dials; these are mostly calls of other libraries and of the system.
pub mod Client
pub mod Common
pub mod Log
pub mod Main
pub mod Server
pub mod Wire
