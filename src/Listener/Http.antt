-- ===== src/Listener/Http.antt =====
-- src/listener/http.rs: the acceptor of HTTP proxy requests. The crate `url` is the fields of a record,
-- of which nothing is assumed.
pub mod Head
pub mod Loop
pub mod Connect
use rog.Prelude.{
  drop, ℕ, if◌then◌else◌, Bool, false, not, ◌&&◌, ◌||◌, Option, none, some, List, [], ◌∷◌, ◌++◌,
  Result, ok, err, other, invalid_data, invalid_input, ok_or, ◌>>=◌,
}
use rog.Prelude.Word.{Bytes, codes}
use rog.Text.{is_utf8}
use rog.Text.Search.{is_prefix, contains, find, split_spaces, split_lines, to_lowercase}
use rog.RunStream.{read}
use rog.Address.{RunAddr}
use rog.Listener.Connection.{Connection, write}

-- The crate `url`.
pub record Urls : Type 1 where
  pub Url : Type 0
  pub parse : Bytes → Option Url
  pub host_str : Url → Option Bytes
  pub port_or_known_default : Url → Option ℕ

abbrev pub tcp_io_buffer_size : ℕ
tcp_io_buffer_size = 2048

abbrev pub crlf : Bytes
crlf = 13 ∷ 10 ∷ []

abbrev pub crlf_crlf : Bytes
crlf_crlf = 13 ∷ 10 ∷ 13 ∷ 10 ∷ []

abbrev pub from_utf8 : Bytes → Result Bytes
from_utf8 s = if is_utf8 s then ok s else err other "invalid utf-8 sequence"

abbrev pub with_body : Bytes → Option (Bytes × Bytes) → Result (Bytes × Option Bytes)
with_body all none = do s ← from_utf8 all; ok (s, none)
with_body all (some (before, behind)) = do
  s ← from_utf8 (before ++ crlf_crlf)
  ok (s, some (drop 4 behind))

-- The head with the empty line that ends it, and the body behind it, if the empty line is there.
unfoldable pub head_and_body : Bytes → Result (Bytes × Option Bytes)
head_and_body data' = with_body data' (find crlf_crlf data')

abbrev pub first : List Bytes → Result Bytes
first [] = err invalid_data "Empty request data"
first (l ∷ ls) = ok l

-- The second word of the first line.
abbrev pub second : List Bytes → Result Bytes
second (a ∷ b ∷ ws) = ok b
second _ = err invalid_data "invalid parts"

unfoldable pub target : Bytes → Result Bytes
target f_line = do
  dst ← second (split_spaces f_line)
  if is_prefix (codes "/") dst
      then err invalid_input "origin form request not allowed"
      else ok (if not (contains (codes "://") dst) then codes "http://" ++ dst else dst)

-- A line that shows that this server has already forwarded the request.
unfoldable pub is_loop : Bytes → Bytes → Bool
is_loop server_id line = is_prefix (codes "via:") (to_lowercase line) && contains server_id line

unfoldable pub any_loop : Bytes → List Bytes → Bool
unfolding is_loop
any_loop server_id [] = false
any_loop server_id (l ∷ ls) = is_loop server_id l || any_loop server_id ls

abbrev pub via_line : Bytes → Bytes
via_line server_id = codes "Via: 1.1 " ++ (server_id ++ crlf)

abbrev pub or_empty : Option Bytes → Bytes
or_empty none = []
or_empty (some b) = b

-- The request with a line of this server behind the first one.
abbrev pub with_via : Bytes → Option Bytes → Option (Bytes × Bytes) → Bytes → Bytes
with_via server_id body none data' = data'
with_via server_id body (some (first_line, behind)) data' =
    first_line ++ (crlf ++ (via_line server_id ++ (drop 2 behind ++ or_empty body)))

abbrev pub established : Bytes
established = codes "HTTP/1.1 200 Connection Established" ++ crlf_crlf

-- The answer to CONNECT, or the request to be forwarded.
unfoldable pub answer_or_forward :
    Bytes → Bytes → Bytes → Option Bytes → Bytes → Connection → Result (Option Bytes × Connection)
unfolding any_loop
answer_or_forward server_id f_line str body data' c =
    if is_prefix (codes "CONNECT") f_line
    then (do c ← write established c; ok (none, c))
    else if any_loop server_id (split_lines str)
    then err other "Loop detected"
    else ok (some (with_via server_id body (find crlf str) data'), c)

module _ (urls : Urls) where
  -- What the first piece of data is, and what becomes of it.
  unfoldable pub handle :
      Bytes → Bytes → Connection → Result ((RunAddr × Option Bytes) × Connection)
  unfolding head_and_body target answer_or_forward
  handle server_id data' c = do
    (str, body) ← head_and_body data'
    f_line ← first (split_lines str)
    dst ← target f_line
    ip_port ← ok_or (urls.parse dst) invalid_data "Invalid URL"
    (cache, c) ← answer_or_forward server_id f_line str body data' c
    addr ← ok_or (urls.host_str ip_port) invalid_data "URL has no host"
    port ← ok_or (urls.port_or_known_default ip_port) invalid_data "URL has no port"
    ok ((record { addr = addr; port = port; udp = false }, cache), c)

  unfoldable pub handshake : Bytes → Connection → Result ((RunAddr × Option Bytes) × Connection)
  unfolding handle
  handshake server_id c = do
    let c = record c { protocol_name = codes "http" }
    (data', incoming) ← read tcp_io_buffer_size c.incoming
    handle server_id data' (record c { incoming = incoming })
