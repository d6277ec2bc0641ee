-- ===== src/Relay/RawUdp.antt =====
-- src/object/raw_udp.rs: the relay of the packets of a UDP tunnel.
pub mod Carried
use rog.Prelude.{
  ℕ, true, false, Option, [], ◌∷◌, Result, ok, err, panics, not_found, other, ◌>>=◌, ok_or, length,
}
use rog.Prelude.Word.{Bytes}
use rog.Prelude.Maps.{Map}
use rog.Address.{RunAddr, with_port}
use rog.UdpPacket.{UdpPacket}
use rog.Relay.Copy.{Verdict, skips, passes, Ends, start, u64, Relay}
use rog.Relay.Connectors.{get_or_create, kept}

-- `packet.data.is_empty()`.
abbrev pub empty_skips : Bytes → Verdict
empty_skips [] = skips
empty_skips (b ∷ bs) = passes

abbrev pub payload_size : UdpPacket → ℕ
payload_size packet = length packet.payload

-- The parts that the connectors and the listener give. A tunnel is `None` where the connector has none.
module _ {R W TR TW Conf C : Type 0} (read : R → Result (UdpPacket × R))
    (write : UdpPacket → W → Result W) (tunnel_read : TR → Result (UdpPacket × TR))
    (tunnel_write : UdpPacket → TW → Result TW) (create : Conf → Result C)
    (udp_tunnel : C → Bytes → Result (Option (TR × TW))) where
  -- Loop b, from the listener to the tunnel, and loop c back.
  abbrev pub loop_b : Ends R TW UdpPacket
  loop_b = record {
    read = read;
    verdict = λ packet. empty_skips packet.payload;
    write = tunnel_write;
    size = payload_size;
    biased = true;
  }

  abbrev pub loop_c : Ends TR W UdpPacket
  loop_c = record {
    read = tunnel_read;
    verdict = λ packet. passes;
    write = write;
    size = payload_size;
    biased = true;
  }

  -- What the first packet chooses.
  abbrev Choice : Type 0
  Choice = UdpPacket × R × Bytes × Conf

  choose : (RunAddr → Bytes) → Map Conf → R → Result Choice
  choose route connectors r = do
    (first_packet, r) ← read r
    let addr : RunAddr = record {
      addr = first_packet.dst_addr;
      port = first_packet.dst_port;
      udp = true;
    }
    let client_name = route addr
    conn_conf ← ok_or (connectors client_name) not_found "Connector config not found for UDP"
    ok (first_packet, r, client_name, conn_conf)

  open_tunnel : UdpPacket → R → C → W → Result (Relay loop_b loop_c)
  open_tunnel first_packet r connector w = do
    tunnel ← udp_tunnel connector (with_port first_packet.src_addr first_packet.src_port)
    (udp_reader, udp_writer) ←
        ok_or tunnel other "UDP tunnel creation failed or not supported by connector"
    udp_writer ← tunnel_write first_packet udp_writer
    ok (record {
      cancelled = false;
      left = start loop_b r udp_writer (u64 (payload_size first_packet));
      right = start loop_c udp_reader w 0;
    })

  with_choice : Result Choice → Map C → W → Map C × Result (Relay loop_b loop_c)
  with_choice (ok (first_packet, r, name, conf)) cache w = (
    kept create cache (get_or_create create name conf cache),
    get_or_create create name conf cache >>= λ (connector, _).
        open_tunnel first_packet r connector w,
  )
  with_choice (err k m) cache w = (cache, err k m)
  with_choice panics cache w = (cache, panics)

  -- Up to where both loops run, with the cache of connectors.
  unfoldable pub handle_raw_udp :
      (RunAddr → Bytes) → Map Conf → Map C → R → W → Map C × Result (Relay loop_b loop_c)
  unfolding choose open_tunnel with_choice
  handle_raw_udp route connectors cache r w = with_choice (choose route connectors r) cache w
