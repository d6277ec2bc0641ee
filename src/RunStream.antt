-- ===== src/RunStream.antt =====
-- src/def.rs, the trait `RunStream`: its provided method `read_exact`, over a connection whose
-- bytes arrive in pieces.
pub mod Exact
pub mod Simulation
use rog.Prelude.{
  ℕ, zero, suc, ◌-◌, if◌then◌else◌, ◌==◌, List, [], ◌∷◌, ◌++◌, Result, ok, err, ErrorKind,
  unexpected_eof, String, ◌>>=◌, length, take, drop, replicate,
}
use rog.Prelude.Word.{Bytes}

-- What the peer and the network do next: a piece of data arrives, or the connection fails.
pub data Incoming : Type 0 where
  arrives : Bytes → Incoming
  fails : ErrorKind → String → Incoming

abbrev pub Stream : Type 0
Stream = List Incoming

abbrev pub leftover : Bytes → Stream → Stream
leftover [] s = s
leftover (b ∷ bs) s = arrives (b ∷ bs) ∷ s

-- `read` into a buffer of `n` bytes: at most `n` bytes of the next piece. A closed connection
-- reads as no bytes.
unfoldable pub read : ℕ → Stream → Result (Bytes × Stream)
read n [] = ok ([], [])
read n (arrives bs ∷ s) = ok (take n bs, leftover (drop n bs) s)
read n (fails k m ∷ s) = err k m

-- The provided method, on any implementation of `read`.
module _ {R : Type 0} (read : ℕ → R → Result (Bytes × R)) where
  -- The loop of `read_exact`, on the room that is left in the buffer; it gives the bytes that were
  -- read. A round that does not end the loop reads at least one byte, so that as much fuel as room
  -- is enough.
  unfoldable pub read_exact_loop : ℕ → ℕ → R → Result (Bytes × R)
  read_exact_loop zero room s = ok ([], s)
  read_exact_loop (suc fuel) room s =
      if room == 0
      then ok ([], s)
      else read room s >>= λ (got, s).
          if length got == 0
          then ok ([], s)
          else read_exact_loop fuel (room - length got) s >>= λ (more, s). ok (got ++ more, s)

  -- `read_exact` with the bytes it read, whose number it returns. It fails only if it read none.
  unfoldable pub read_exact : ℕ → R → Result (Bytes × R)
  read_exact n s = do
    (got, s) ← read_exact_loop n n s
    if length got == 0 then err unexpected_eof "early eof" else ok (got, s)

-- The caller's zeroed buffer of `n` bytes, after a read of `got` into its front.
abbrev pub filled : ℕ → Bytes → Bytes
filled n got = got ++ replicate (n - length got) 0
