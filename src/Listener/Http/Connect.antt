-- ===== src/Listener/Http/Connect.antt =====
-- src/listener/http.rs: a CONNECT request.
use rog.Prelude.{
  ℕ, ◌-◌, ◌≤◌, ◌≡◌, refl, ap, ◌∙◌, true, false, none, some, [], ◌∷◌, ◌++◌, arith, ok, length,
  take_all, drop_all, le→leb, write_all,
}
use rog.Prelude.Word.{Bytes, codes}
use rog.Text.{is_utf8}
use rog.RunStream.{arrives, Stream, read}
use rog.Text.Search.{is_prefix, contains, split_lines, split_spaces}
use rog.Text.Lines.{Line, Lacks, Lacks-Line, split_lines-Line}
use rog.Listener.Connection.{Connection, write}
use rog.Listener.Http.{Urls, crlf, first, target, established, answer_or_forward, handle, handshake}
use rog.Listener.Http.Head.{head_of, head_of-Line, head_and_body-ok}

split_spaces-Lacks : (a y : Bytes) → Lacks 32 a → split_spaces (a ++ (32 ∷ y)) ≡ a ∷ split_spaces y
unfolding split_spaces
split_spaces-Lacks [] y h = refl
split_spaces-Lacks (b ∷ a) y (n, h) = rw (split_spaces-Lacks a y h) (ground (arith, n))

Lacks-append : (x : ℕ) (a b : Bytes) → Lacks x a → Lacks x b → Lacks x (a ++ b)
Lacks-append x [] b h k = k
Lacks-append x (c ∷ a) b (n, h) k = (n, Lacks-append x a b h k)

abbrev pub request_line : Bytes → Bytes
request_line authority = codes "CONNECT " ++ (authority ++ codes " HTTP/1.1")

-- `host:port`, as a client names it.
pub record Authority (a : Bytes) : Type 0 where
  pub no_cr : Lacks 13 a
  pub no_space : Lacks 32 a
  pub no_slash : is_prefix (codes "/") a ≡ false
  pub no_scheme : contains (codes "://") a ≡ false

target-request_line :
    (a : Bytes) → Authority a → target (request_line a) ≡ ok (codes "http://" ++ a)
unfolding target
target-request_line a h =
    let e : split_spaces (request_line a) ≡ codes "CONNECT" ∷ a ∷ split_spaces (codes "HTTP/1.1") =
      split_spaces-Lacks (codes "CONNECT") (a ++ codes " HTTP/1.1") (omega arith)
      ∙ ap (λ l. codes "CONNECT" ∷ l) (split_spaces-Lacks a (codes "HTTP/1.1") h.no_space) in
    rw (e, h.no_slash, h.no_scheme) refl

abbrev pub request : Bytes → Bytes → Bytes
request a rest = request_line a ++ (crlf ++ rest)

module _ (urls : Urls) (server_id a rest host : Bytes) (port : ℕ) (url : urls.Url) (c : Connection)
    (s : Stream) where
  -- A client asks for `host:port` with CONNECT, in one piece of at most 2048 bytes with a head in UTF-8,
  -- and the connection takes the answer. The handshake writes that answer, and nothing else, and returns
  -- the host and the port of the URL. It drops all of that piece, also what stands behind the head, and
  -- leaves what comes after it to be read.
  pub connect_answered :
      Authority a
      → (c.incoming ≡ arrives (request a rest) ∷ s) × (length (request a rest) ≤ 2048)
      → is_utf8 (head_of (request a rest)) ≡ true
      → urls.parse (codes "http://" ++ a) ≡ some url
      → urls.host_str url ≡ some host
      → urls.port_or_known_default url ≡ some port
      → 39 ≤ c.out.room
      → handshake urls server_id c
        ≡ ok (
          (record { addr = host; port = port; udp = false }, none),
          record c {
            incoming = s;
            out = record { written = c.out.written ++ established; room = c.out.room - 39 };
            protocol_name = codes "http";
          },
        )
  unfolding handshake handle answer_or_forward read write write_all is_prefix
  connect_answered h (i, n) u p hs ps room =
      let line : Line (request_line a) = Lacks-Line (request_line a) (
        Lacks-append 13 (codes "CONNECT ") (a ++ codes " HTTP/1.1") (omega arith)
          (Lacks-append 13 a (codes " HTTP/1.1") h.no_cr (omega arith))) in
      let (x, at) = head_of-Line (request_line a) rest line in
      let (body, good) = head_and_body-ok (request a rest) u in
      let f : first (split_lines (head_of (request a rest))) ≡ ok (request_line a) =
        rw (at, split_lines-Line (request_line a) x line) refl in
      rw
        (
          i,
          take_all 2048 (request a rest) n,
          drop_all 2048 (request a rest) n,
          good,
          f,
          target-request_line a h,
          p,
          le→leb 39 c.out.room room,
          hs,
          ps,
        )
        refl
