-- ===== src/Relay/Tcp.antt =====
-- src/object/tcp.rs, `handle_tcp_connection` without a pool: the two loops, over the halves of the
-- streams.
pub mod Carried
use rog.Prelude.{
  ℕ, if◌then◌else◌, Bool, false, Option, none, some, List, [], ◌∷◌, Result, ok, ◌>>=◌, length,
}
use rog.Prelude.Word.{Bytes}
use rog.Relay.Copy.{Verdict, ends, passes, Ends, start, u64, Relay}

abbrev pub tcp_io_buffer_size : ℕ
tcp_io_buffer_size = 2048

-- No bytes are the end of the stream.
abbrev pub eof_ends : Bytes → Verdict
eof_ends [] = ends
eof_ends (b ∷ bs) = passes

-- A loop from a read half to a write half.
abbrev pub copying :
    {R W : Type 0} → (ℕ → R → Result (Bytes × R)) → (Bytes → W → Result W) → Ends R W Bytes
copying read write = record {
  read = read tcp_io_buffer_size;
  verdict = eof_ends;
  write = write;
  size = length;
  biased = false;
}

-- The cached payload of the handshake goes out first, and is counted.
abbrev pub with_cache : {W : Type 0} → (Bytes → W → Result W) → Option Bytes → W → Result (W × ℕ)
with_cache write none w = ok (w, 0)
with_cache write (some c) w = do w ← write c w; ok (w, u64 (length c))

module _ {SR SW CR CW : Type 0} (server_read : ℕ → SR → Result (Bytes × SR))
    (server_write : Bytes → SW → Result SW) (client_read : ℕ → CR → Result (Bytes × CR))
    (client_write : Bytes → CW → Result CW) where
  abbrev pub s2c : Ends SR CW Bytes
  s2c = copying server_read client_write

  abbrev pub c2s : Ends CR SW Bytes
  c2s = copying client_read server_write

  -- Up to where both loops run. What went from the server's side to the client is `tx`, the rest `rx`.
  unfoldable pub handle_tcp_connection : Option Bytes → CR × CW → SR × SW → Result (Relay s2c c2s)
  handle_tcp_connection cache (client_r, client_w) (server_r, server_w) = do
    (client_w, tx) ← with_cache client_write cache client_w
    ok (record {
      cancelled = false;
      left = start s2c server_r client_w tx;
      right = start c2s client_r server_w 0;
    })
