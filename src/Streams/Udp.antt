-- ===== src/Streams/Udp.antt =====
-- src/stream/udp.rs: a UDP socket that resolves names and puts them back into answers. An IP address is its
-- text; its parser, the socket and the system's resolver are parameters.
pub mod Resolved
pub mod Answers
use rog.Prelude.{
  ℕ, ◌==◌, ◌&&◌, if◌then◌else◌, bytes_eq, Bool, true, false, Option, none, some, List, [], ◌∷◌,
  Result, ok, err, panics, other, unwrap, ok_or, ◌>>=◌,
}
use rog.Prelude.Word.{Bytes}
use rog.Prelude.Maps.{Map, insert}
use rog.Address.{with_port}
use rog.UdpPacket.{UdpPacket, SocketAddr}

abbrev pub addr_eq : SocketAddr → SocketAddr → Bool
addr_eq a b = bytes_eq a.ip b.ip && a.port == b.port

-- `UdpResolveState`, which the reader and the writer share.
pub record UdpResolveState : Type 0 where
  pub domain_to_ip : Map SocketAddr
  pub ip_to_domain : SocketAddr → Option Bytes

unfoldable pub new : UdpResolveState
new = record { domain_to_ip = λ key. none; ip_to_domain = λ addr. none }

pub record Net : Type 0 where
  -- `str::parse::<IpAddr>`, with the text of the address.
  pub parse_ip : Bytes → Option Bytes
  pub is_ipv4 : Bytes → Bool
  -- `local_addr()?.is_ipv4()`.
  pub prefers_ipv4 : Result Bool
  pub lookup_host : Bytes → ℕ → Result (List SocketAddr)

module _ (net : Net) where
  abbrev same : Bool → Bool → Bool
  same true b = b
  same false b = if b then false else true

  -- The first address of the preferred family, or else the first one.
  abbrev preferred : Bool → List SocketAddr → Option SocketAddr
  preferred v4 [] = none
  preferred v4 (a ∷ as') =
      let rest = preferred v4 as' in if same v4 (net.is_ipv4 a.ip) then some a else rest

  abbrev head : List SocketAddr → Option SocketAddr
  head [] = none
  head (a ∷ as') = some a

  abbrev or_else : Option SocketAddr → Option SocketAddr → Option SocketAddr
  or_else none b = b
  or_else (some a) b = some a

  unfoldable pub lookup : Bytes → ℕ → Option Bytes → Result SocketAddr
  lookup dst_addr dst_port (some ip) = ok (record { ip = ip; port = dst_port })
  lookup dst_addr dst_port none = do
    v4 ← net.prefers_ipv4
    resolved ← net.lookup_host dst_addr dst_port
    ok_or (or_else (preferred v4 resolved) (head resolved)) other
        "no resolved UDP destination address"

  -- The address of a name that was resolved leads back to the name.
  abbrev named : Bytes → SocketAddr → Option Bytes → UdpResolveState → UdpResolveState
  named dst_addr addr (some ip) state = state
  named dst_addr addr none state = record state {
    ip_to_domain = λ a. if addr_eq a addr then some dst_addr else state.ip_to_domain a;
  }

  abbrev learned :
      Bytes → ℕ → Result SocketAddr → UdpResolveState → Result SocketAddr × UdpResolveState
  learned dst_addr dst_port (ok addr) state = (
    ok addr,
    named dst_addr addr (net.parse_ip dst_addr) (record state {
      domain_to_ip = insert (with_port dst_addr dst_port) addr state.domain_to_ip;
    }),
  )
  learned dst_addr dst_port (err k m) state = (err k m, state)
  learned dst_addr dst_port panics state = (panics, state)

  abbrev cached_or :
      Bytes → ℕ → Option SocketAddr → UdpResolveState → Result SocketAddr × UdpResolveState
  cached_or dst_addr dst_port (some addr) state = (ok addr, state)
  cached_or dst_addr dst_port none state =
      learned dst_addr dst_port (lookup dst_addr dst_port (net.parse_ip dst_addr)) state

  unfoldable pub resolve_dst_addr :
      Bytes → ℕ → UdpResolveState → Result SocketAddr × UdpResolveState
  unfolding lookup
  resolve_dst_addr dst_addr dst_port state =
      cached_or dst_addr dst_port (state.domain_to_ip (with_port dst_addr dst_port)) state

  -- A write sends the payload to the address; the state stays also if the socket fails.
  module _ {W : Type 0} (send_to : Bytes → SocketAddr → W → Result W) where
    unfoldable pub write : UdpPacket → W → UdpResolveState → Result W × UdpResolveState
    unfolding resolve_dst_addr
    write packet w state =
        let (resolved, state) = resolve_dst_addr packet.dst_addr packet.dst_port state in
        (resolved >>= λ addr. send_to packet.payload addr w, state)

  -- What many writes leave behind.
  unfoldable pub after_writes : List UdpPacket → UdpResolveState → UdpResolveState
  unfolding resolve_dst_addr
  after_writes [] state = state
  after_writes (p ∷ ps) state = after_writes ps (resolve_dst_addr p.dst_addr p.dst_port state).1

abbrev pub name_or : Option Bytes → Bytes → Bytes
name_or (some domain) ip = domain
name_or none ip = ip

-- An answer carries the name that its address was resolved from, if there is one. `src` is the parsed
-- `src_addr`.
module _ {R : Type 0} (recv_from : R → Result ((Bytes × SocketAddr) × R)) where
  unfoldable pub read : Option SocketAddr → UdpResolveState → R → Result (UdpPacket × R)
  read src_addr state r = do
    src ← unwrap src_addr
    ((buf, dst), r) ← recv_from r
    ok (
      record {
        meta = record {
          dst_addr = name_or (state.ip_to_domain dst) dst.ip;
          dst_port = dst.port;
          src_addr = src.ip;
          src_port = src.port;
        };
        payload = buf;
      },
      r,
    )
