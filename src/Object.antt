-- ===== src/Object.antt =====
-- src/object.rs: what becomes of one accepted TCP stream, and of the cache of connectors that all the
-- streams of an object share. The acceptor, the router and the connectors are parameters.
pub mod Kept
pub mod Socks
use rog.Prelude.{
  ℕ, Bool, true, false, if◌then◌else◌, Option, none, some, List, [], ◌∷◌, Result, ok, err, panics,
}
use rog.Prelude.Word.{Bytes}
use rog.Prelude.Maps.{Map}
use rog.Address.{RunAddr, endpoint}
use rog.Relay.Connectors.{get_or_create, kept}

-- How the task of a stream goes on, or ends.
pub data Outcome (S U : Type 0) : Type 0 where
  refused crashed : Outcome S U
  -- `handle_udp_connection`.
  associates : RunAddr → S → Outcome S U
  not_found not_made : Bytes → Outcome S U
  -- With what became of the answer to the client.
  unreachable : Bytes → Result S → Outcome S U
  unanswered : Bytes → Outcome S U
  -- `handle_tcp_connection`.
  relays : RunAddr → Option Bytes → U → S → Outcome S U

module _ {S U Conf C : Type 0} (handshake : S → Result ((RunAddr × Option Bytes) × S))
    (post_handshake : Bool → ℕ → S → Result S) (route : RunAddr → Bytes) (connectors : Map Conf)
    (create : Conf → Result C) (connect : C → Bytes → Result U) where
  abbrev told : Bytes → RunAddr → Option Bytes → U → Result S → Outcome S U
  told name addr payload_cache u (ok stream) = relays addr payload_cache u stream
  told name addr payload_cache u (err k m) = unanswered name
  told name addr payload_cache u panics = crashed

  abbrev lost : Bytes → Result S → Outcome S U
  lost name (ok stream) = unreachable name (ok stream)
  lost name (err k m) = unreachable name (err k m)
  lost name panics = crashed

  -- The client is told whether the destination was reached.
  abbrev connected : Bytes → RunAddr → Option Bytes → S → Result U → Outcome S U
  connected name addr payload_cache stream (ok u) =
      told name addr payload_cache u (post_handshake false 0 stream)
  connected name addr payload_cache stream (err k m) = lost name (post_handshake true 0 stream)
  connected name addr payload_cache stream panics = crashed

  abbrev with_connector : Bytes → RunAddr → Option Bytes → S → Result (C × Map C) → Outcome S U
  with_connector name addr payload_cache stream (ok (c, cache)) =
      connected name addr payload_cache stream (connect c (endpoint addr))
  with_connector name addr payload_cache stream (err k m) = not_made name
  with_connector name addr payload_cache stream panics = crashed

  -- The lock is held while a connector is created.
  abbrev routed : Map C → Bytes → RunAddr → Option Bytes → S → Option Conf → Map C × Outcome S U
  routed cache name addr payload_cache stream none = (cache, not_found name)
  routed cache name addr payload_cache stream (some conf) =
      let got = get_or_create create name conf cache in
      (kept create cache got, with_connector name addr payload_cache stream got)

  abbrev shaken : Map C → Result ((RunAddr × Option Bytes) × S) → Map C × Outcome S U
  shaken cache (ok ((addr, payload_cache), stream)) =
      if addr.udp
      then (cache, associates addr stream)
      else routed cache (route addr) addr payload_cache stream (connectors (route addr))
  shaken cache (err k m) = (cache, refused)
  shaken cache panics = (cache, crashed)

  unfoldable pub serve : Map C → S → Map C × Outcome S U
  serve cache stream = shaken cache (handshake stream)

  -- The cache after streams that were accepted one after the other.
  unfoldable pub serve_all : Map C → List S → Map C
  unfolding serve
  serve_all cache [] = cache
  serve_all cache (stream ∷ rest) = serve_all (serve cache stream).0 rest
