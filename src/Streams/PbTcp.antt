-- ===== src/Streams/PbTcp.antt =====
-- What is common to both directions of src/stream/pb_tcp_*.rs.
pub mod Upload
pub mod Download
use rog.Prelude.{
  ℕ, ◌≡◌, refl, sym, ap, ◌∙◌, Bool, true, false, if◌then◌else◌, List, [], ◌∷◌, ◌++◌, append-nil,
  append_assoc, Result, ok, err, other, ErrorKind, String, ◌>>=◌, >>=-eq-ok, Reader, Writer, length,
  drop, drop-append, ◌<◌, arith, some,
}
use rog.Prelude.Word.{Bytes}
use rog.Frame.{u64_mod, write_frame}
use rog.Frame.RoundTrip.{frame, write_frame-written}
use rog.Frame.Message.{IsShort, read_msg-write_frame, read_msg-closed}
use rog.RunStream.{Stream, arrives, fails, read, read_exact}
use rog.RunStream.Simulation.{Same, read_exact-Same}
use rog.Crypto.{Cipher, nonce_len, encrypt_bytes, decrypt_bytes}
use rog.Crypto.RoundTrip.{IsCipher, decrypt_bytes-encrypt_bytes}
use rog.Proto.Codec.{Codec, IsCodec}
use rog.Streams.Cached.{Cache, cleared}
use rog.Streams.Refines.{Yields, Related, stream_read-Same}

-- What is written, and what the write draws at random.
pub record Write : Type 0 where
  pub nonce : Bytes
  pub word : ℕ
  pub buf : Bytes

abbrev pub IsWrite : Write → Type 0
IsWrite p = (length p.nonce ≡ nonce_len) × (p.word < u64_mod)

abbrev pub AreWrites : List Write → Type 0
AreWrites [] = Unit {0}
AreWrites (p ∷ ps) = IsWrite p × AreWrites ps

-- The pieces of a connection that carries these writes and then ends.
abbrev pub pieces : ErrorKind → String → List Write → Stream
pieces k m [] = fails k m ∷ []
pieces k m (p ∷ ps) = arrives p.buf ∷ pieces k m ps

pub ok-inj : {A : Type 0} → (a b : A) → ok a ≡ ok b → a ≡ b
ok-inj a b h = cc

pub empty_is_short : (c : Cipher) (pw buf : Bytes) → decrypt_bytes c [] pw ≡ ok buf → ⊥
unfolding decrypt_bytes
empty_is_short c pw buf h = cc
