-- ===== src/Lib.antt =====
-- A verification library for rog, a proxy that carries TCP streams and UDP packets between nodes over
-- gRPC, over reverse gRPC and over encrypted frames on TCP ("pb_tcp").
--
-- A listener accepts a connection and its handshake yields a destination (`RunAddr`); a router picks a
-- connector for it; a relay copies both directions through blocks of a shared pool. Every transport
-- hides behind the trait `RunStream` or behind the reader and writer of `UDPPacket`s.
--
-- The modules, and the files that they model:
-- Prelude: lists, bytes and words; `std::io` results and pipes (Prelude/Io), and the two ends of a
-- gRPC
--   stream (Prelude/Channel). A panic of `unwrap` is a result of its own.
-- Text: what the standard library prints and parses: decimal and hexadecimal numbers, IP addresses,
--   UTF-8, white space and searches.
-- Frame: src/util/tcp_frame.rs. RunStream: the trait and its provided `read_exact` in src/def.rs.
-- Socks5: src/util/socks5.rs and src/util/socks5/. Address: `RunAddr` in src/util.rs, and
--   `parse_address` in src/connector/grpc.rs. UdpPacket: `UDPPacket` in src/def.rs.
-- Block: src/block.rs, one data block (Block) and many on one manager (Block/Pool).
-- Proto: proto/*.proto and src/proto/v1.rs. Crypto: src/util/crypto.rs.
-- Streams: src/stream/{grpc,rev_grpc,pb_tcp}_{client,server}.rs, a module for each file. Their `read`s
--   repeat the same code on a cache, which stands once in Streams/Cached.
--   Streams/Udp: src/stream/udp.rs.
-- UdpStreams: src/stream/{grpc,rev_grpc,pb_tcp}_udp_{client,server}.rs.
-- Router: `DefaultRouter::route` in src/router.rs, src/router/default_router.rs and the matchers in
--   src/router/matcher/. The crates for networks and regular expressions, `IpAddr` and `trim` are the
--   fields of a record (Router/Crates), of which nothing is assumed. Router/Resolver: the cache of
--   src/router/resolver.rs, where a call of `resolve_ip` is two steps, between which any others may happen.
-- Connector: src/connector/pb_tcp.rs and src/connector/grpc.rs. Connector/RevGrpc:
--   src/connector/rev_grpc.rs, its managers
--   (Connector/RevGrpc/Clients), the calls and the handlers that meet on a connection id
--   (Connector/RevGrpc/Rendezvous), and both services together.
-- Listener: src/listener/socks5.rs, src/listener/pb_tcp.rs, src/listener/grpc.rs (Grpc),
--   src/listener/rev_grpc.rs (RevGrpc),
--   src/listener/http.rs (Http) and src/listener/htss5.rs (Htss5).
-- Relay: the loops of src/object/: a loop and two that share a token (Relay/Copy), src/object/tcp.rs,
--   src/object/udp.rs, src/object/raw_udp.rs, and the cache of connectors (Relay/Connectors).
-- Object: what becomes of an accepted TCP stream in `Object::start` of src/object.rs.
-- Size: src/util/parse.rs.
-- Tests: runs at small inputs.
--
-- Conventions. A `String` is its UTF-8 bytes, a byte or a word a natural number; `usize` and `u64`
-- have 64
-- bits, and wrap-around is written out. A function that changes `&mut self` returns the new state; an
-- error ends the use of a stream, so that it carries no state. Random numbers (nonces, the first word
-- of a frame) are arguments. The crates for SHA-256, ChaCha20-Poly1305, base64 and protobuf are
-- records of
-- functions, with the round trips that they document as hypotheses. Blocking on a full channel or
-- an idle connection is waiting, which changes nothing. In Block every atomic operation, lock and
-- wake-up is a step of its own, and theorems hold for every schedule of the tasks.
-- Bounds and fuel: `read_exact` takes as much fuel as the buffer has room, which is enough since a
-- round
-- that continues reads at least one byte. Frames are bounded by 16 MiB, as the source bounds them.
-- In Connector/RevGrpc every operation on a map, every send and every receive of a call or of a
-- handler is an
-- action, and theorems hold for every sequence of actions. A random id is a value of a function of
-- the number of ids that were drawn before, of which the theorems assume that it does not repeat. A
-- send that waits for room in a channel makes no step. In Relay a loop takes a turn for every arm of
-- its
-- `select!` and for every write; what lies behind a failed write is left as it was.
-- The crate `url`, the sockets and the name resolution of tokio and floating-point numbers are parameters, of which a
-- theorem assumes what it names.
--
-- Not modelled: the requests to name servers and the loading of route data, the relay of TCP streams
-- over the
-- block pool (its parts are: see Block), the servers and transports of tonic, the metadata for the
-- observer,
-- configuration, logging and the start of the program.
pub mod Prelude
pub mod Frame
pub mod RunStream
pub mod Socks5
pub mod Text
pub mod Address
pub mod UdpPacket
pub mod Listener
pub mod Block
pub mod Proto
pub mod Relay
pub mod Object
pub mod Size
pub mod Crypto
pub mod Streams
pub mod UdpStreams
pub mod Connector
pub mod Router
mod Tests
