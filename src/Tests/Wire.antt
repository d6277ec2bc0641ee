-- ===== src/Tests/Wire.antt =====
-- Runs of frames, of connections that arrive in pieces, and of addresses.
use rog.Prelude.{
  ℕ, ◌≡◌, ◌≢◌, ◌<◌, refl, ltb, ◌==◌, if◌then◌else◌, [], ◌∷◌, ◌++◌, ok, err, other, unexpected_eof,
  Reader, Writer, length, take, drop, arith, none, some, false, List, true,
}
use rog.Prelude.Word.{Bytes, codes, to_be}
use rog.Frame.{max_frame, write_frame, read_frame}
use rog.Frame.RoundTrip.{read_frame-write_frame}
use rog.Frame.Stream.{write_frames}
use rog.RunStream.{Stream, arrives, read, read_exact}
use rog.RunStream.Exact.{bytes, IsLive, read_exact-IsLive}
use rog.Address.{RunAddr, endpoint, parse_address}
use rog.Address.RoundTrip.{parse_address-endpoint}

abbrev three : Bytes
three = 1 ∷ 2 ∷ 3 ∷ []

abbrev empty_writer : Writer
empty_writer = record { written = []; room = 100 }

abbrev framed : Writer
framed = record {
  written =
      0 ∷ 0 ∷ 0 ∷ 0 ∷ 0 ∷ 0 ∷ 0 ∷ 9 ∷ 255 ∷ 255 ∷ 255 ∷ 255 ∷ 255 ∷ 255 ∷ 255 ∷ 250 ∷ 1 ∷ 2 ∷ 3
      ∷ [];
  room = 81;
}

abbrev over : Bytes → Reader
over bs = record { bytes = bs; last_kind = unexpected_eof; last_message = "early eof" }

framed_is : write_frame 9 three empty_writer ≡ ok framed
unfolding write_frame to_be rog.Frame.wrapping_sub rog.Prelude.write_all
framed_is = refl

read_frame-write_frame_example : read_frame (over (framed.written ++ 5 ∷ [])) ≡ (
    if ltb max_frame (length three) then err other "frame too large" else ok (three, over (5 ∷ [])))
read_frame-write_frame_example =
    read_frame-write_frame 9 three (5 ∷ []) empty_writer framed (over (framed.written ++ 5 ∷ []))
      (omega arith) (omega arith) framed_is refl

abbrev messages : List (ℕ × Bytes)
messages = (9, three) ∷ (0, []) ∷ []

abbrev framed_twice : Writer
framed_twice = record {
  written = framed.written ++ 0 ∷ 0 ∷ 0 ∷ 0 ∷ 0 ∷ 0 ∷ 0 ∷ 0 ∷ 0 ∷ 0 ∷ 0 ∷ 0 ∷ 0 ∷ 0 ∷ 0 ∷ 0 ∷ [];
  room = 65;
}

framed_twice_is : write_frames messages empty_writer ≡ ok framed_twice
unfolding write_frames write_frame to_be rog.Frame.wrapping_sub rog.Prelude.write_all
framed_twice_is = refl

abbrev two_pieces : Stream
two_pieces = arrives (1 ∷ 2 ∷ []) ∷ arrives (3 ∷ 4 ∷ []) ∷ []

two_pieces-IsLive : IsLive two_pieces
two_pieces-IsLive = ((λ e. cc), ((λ e. cc), tt))

read_exact-IsLive_example :
    (rest : Stream) × (IsLive rest)
    × (bytes rest ≡ drop 3 (bytes two_pieces))
    × (read_exact read 3 two_pieces ≡ (
        if length (take 3 (bytes two_pieces)) == 0
        then err unexpected_eof "early eof"
        else ok (take 3 (bytes two_pieces), rest)))
read_exact-IsLive_example = read_exact-IsLive 3 two_pieces two_pieces-IsLive

abbrev ipv6_host : RunAddr
ipv6_host = record { addr = codes "fe80::1"; port = 443; udp = false }

ipv6_host_parses : parse_address (endpoint ipv6_host) ≡ ok (codes "fe80::1", 443)
ipv6_host_parses = parse_address-endpoint ipv6_host (λ e. cc) (omega arith)
