-- ===== src/UdpStreams/Sequence.antt =====
-- Several packets of src/stream/ one after the other.
use rog.Prelude.{◌<◌, ℕ, zero, suc, ◌≡◌, refl, List, [], ◌∷◌, ◌++◌, Result, ok, ◌>>=◌, length}
use rog.Prelude.Channel.{message, Streaming}
use rog.UdpPacket.{UdpPacket}
use rog.Streams.Channels.{map}

abbrev pub reads : {R : Type 0} → (R → Result (UdpPacket × R)) → ℕ → R → Result (List UdpPacket × R)
reads read zero r = ok ([], r)
reads read (suc n) r = do
  (packet, r) ← read r
  (packets, r) ← reads read n r
  ok (packet ∷ packets, r)

-- Both ports have 16 bits.
abbrev pub HasPorts : UdpPacket → Type 0
HasPorts p = (p.dst_port < 65536) × (p.src_port < 65536)

abbrev pub AllPorts : List UdpPacket → Type 0
AllPorts [] = Unit {0}
AllPorts (p ∷ ps) = HasPorts p × AllPorts ps

-- A reader `R` over a stream of messages, which gets back the packets that `f` wraps.
module _ {M R : Type 0} (f : UdpPacket → M) (read : R → Result (UdpPacket × R))
    (over : Streaming M → R)
    (gets : (p : UdpPacket) (rest : Streaming M)
      → HasPorts p
      → read (over (message (f p) ∷ rest)) ≡ ok (p, over rest)) where
  pub reads-ok :
      (ps : List UdpPacket) (rest : Streaming M)
      → AllPorts ps
      → reads read (length ps) (over (map (λ p. message (f p)) ps ++ rest)) ≡ ok (ps, over rest)
  reads-ok [] rest h = refl
  reads-ok (p ∷ ps) rest h =
      rw (gets p (map (λ p. message (f p)) ps ++ rest) h.0, reads-ok ps rest h.1)
