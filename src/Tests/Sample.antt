-- ===== src/Tests/Sample.antt =====
-- A cipher and a codec for the runs: the cipher puts the key before the plaintext and checks it, and
-- the codec writes each field behind its length.
use rog.Prelude.{
  ℕ, zero, suc, ◌≡◌, refl, ap, if◌then◌else◌, bytes_eq, bytes_eq_refl, Option, none, some, [], ◌∷◌,
  ◌++◌, Result, ok, err, other, invalid_data, ◌>>=◌, length, take, drop, take-append, drop-append,
}
use rog.Prelude.Word.{Bytes}
use rog.Crypto.{Cipher}
use rog.Crypto.RoundTrip.{IsCipher}
use rog.Proto.{StreamReq, UdpReq, UdpRes}
use rog.Proto.Codec.{Codec, IsCodec}

abbrev open_with : Bytes → Bytes → Result Bytes
open_with key ct =
    if bytes_eq (take (length key) ct) key
    then ok (drop (length key) ct)
    else err other "aead::Error"

abbrev unmark : Bytes → Result Bytes
unmark (b ∷ bs) = ok bs
unmark [] = err other "Invalid padding"

abbrev pub cipher : Cipher
cipher = record {
  sha256 = λ bs. 7 ∷ bs;
  encrypt = λ key nonce plaintext. ok (key ++ plaintext);
  decrypt = λ key nonce ct. open_with key ct;
  base64_encode = λ bs. 61 ∷ bs;
  base64_decode = unmark;
}

opens : (key plaintext ct : Bytes) → ok (key ++ plaintext) ≡ ok ct → open_with key ct ≡ ok plaintext
opens key plaintext ct h =
    let e : ct ≡ key ++ plaintext = cc in
    rw (e, take-append key plaintext, bytes_eq_refl key, drop-append key plaintext)

pub cipher-IsCipher : IsCipher cipher
cipher-IsCipher = record {
  decrypt-encrypt = λ key nonce plaintext {ciphertext} h. opens key plaintext ciphertext h;
  decode-encode = λ bs. refl;
}

unfoldable pub put : Bytes → Bytes → Bytes
put bs rest = length bs ∷ (bs ++ rest)

unfoldable pub get : Bytes → Result (Bytes × Bytes)
get [] = err invalid_data "truncated"
get (n ∷ xs) = ok (take n xs, drop n xs)

unfoldable pub put_opt : Option Bytes → Bytes → Bytes
put_opt none rest = 0 ∷ rest
put_opt (some bs) rest = 1 ∷ put bs rest

abbrev some_of : Result (Bytes × Bytes) → Result (Option Bytes × Bytes)
some_of r = r >>= λ (bs, rest). ok (some bs, rest)

unfoldable pub get_opt : Bytes → Result (Option Bytes × Bytes)
get_opt [] = err invalid_data "truncated"
get_opt (zero ∷ rest) = ok (none, rest)
get_opt (suc n ∷ xs) = some_of (get xs)

unfoldable pub put_num : Option ℕ → Bytes → Bytes
put_num none rest = 0 ∷ rest
put_num (some n) rest = 1 ∷ n ∷ rest

unfoldable pub get_num : Bytes → Result (Option ℕ × Bytes)
get_num (zero ∷ rest) = ok (none, rest)
get_num (suc k ∷ n ∷ rest) = ok (some n, rest)
get_num _ = err invalid_data "truncated"

get-put : (bs rest : Bytes) → get (put bs rest) ≡ ok (bs, rest)
unfolding get put
get-put bs rest = rw (take-append bs rest, drop-append bs rest)

get_opt-put_opt : (o : Option Bytes) (rest : Bytes) → get_opt (put_opt o rest) ≡ ok (o, rest)
unfolding get_opt put_opt
get_opt-put_opt none rest = refl
get_opt-put_opt (some bs) rest = ap some_of (get-put bs rest)

get_num-put_num : (o : Option ℕ) (rest : Bytes) → get_num (put_num o rest) ≡ ok (o, rest)
unfolding get_num put_num
get_num-put_num none rest = refl
get_num-put_num (some n) rest = refl

unfoldable pub encode_req : StreamReq → Bytes
encode_req m = put m.auth (put_opt m.payload (put_opt m.dst_addr (put_num m.dst_port [])))

unfoldable pub decode_req : Bytes → Result StreamReq
decode_req bs = do
  (auth, bs) ← get bs
  (payload, bs) ← get_opt bs
  (dst_addr, bs) ← get_opt bs
  (dst_port, bs) ← get_num bs
  ok (record { auth = auth; payload = payload; dst_addr = dst_addr; dst_port = dst_port })

unfoldable pub encode_udp_res : UdpRes → Bytes
encode_udp_res m =
    put m.payload
      (put_opt m.dst_addr (put_num m.dst_port (put_opt m.src_addr (put_num m.src_port []))))

unfoldable pub decode_udp_res : Bytes → Result UdpRes
decode_udp_res bs = do
  (payload, bs) ← get bs
  (dst_addr, bs) ← get_opt bs
  (dst_port, bs) ← get_num bs
  (src_addr, bs) ← get_opt bs
  (src_port, bs) ← get_num bs
  ok (record {
    payload = payload;
    dst_addr = dst_addr;
    dst_port = dst_port;
    src_addr = src_addr;
    src_port = src_port;
  })

unfoldable pub encode_udp_req : UdpReq → Bytes
encode_udp_req m = put m.auth (
    put_opt m.payload
      (put_opt m.dst_addr (put_num m.dst_port (put_opt m.src_addr (put_num m.src_port [])))))

unfoldable pub decode_udp_req : Bytes → Result UdpReq
decode_udp_req bs = do
  (auth, bs) ← get bs
  (payload, bs) ← get_opt bs
  (dst_addr, bs) ← get_opt bs
  (dst_port, bs) ← get_num bs
  (src_addr, bs) ← get_opt bs
  (src_port, bs) ← get_num bs
  ok (record {
    auth = auth;
    payload = payload;
    dst_addr = dst_addr;
    dst_port = dst_port;
    src_addr = src_addr;
    src_port = src_port;
  })

decode_req-encode_req : (m : StreamReq) → decode_req (encode_req m) ≡ ok m
unfolding decode_req encode_req
decode_req-encode_req m = rw (
  get-put m.auth _,
  get_opt-put_opt m.payload _,
  get_opt-put_opt m.dst_addr _,
  get_num-put_num m.dst_port _,
)

decode_udp_req-encode_udp_req : (m : UdpReq) → decode_udp_req (encode_udp_req m) ≡ ok m
unfolding decode_udp_req encode_udp_req
decode_udp_req-encode_udp_req m = rw (
  get-put m.auth _,
  get_opt-put_opt m.payload _,
  get_opt-put_opt m.dst_addr _,
  get_num-put_num m.dst_port _,
  get_opt-put_opt m.src_addr _,
  get_num-put_num m.src_port _,
)

decode_udp_res-encode_udp_res : (m : UdpRes) → decode_udp_res (encode_udp_res m) ≡ ok m
unfolding decode_udp_res encode_udp_res
decode_udp_res-encode_udp_res m = rw (
  get-put m.payload _,
  get_opt-put_opt m.dst_addr _,
  get_num-put_num m.dst_port _,
  get_opt-put_opt m.src_addr _,
  get_num-put_num m.src_port _,
)

abbrev pub codec : Codec
codec = record {
  encode_req = encode_req;
  decode_req = decode_req;
  encode_res = λ m. m.payload;
  decode_res = λ bs. ok (record { payload = bs });
  encode_udp_req = encode_udp_req;
  decode_udp_req = decode_udp_req;
  encode_udp_res = encode_udp_res;
  decode_udp_res = decode_udp_res;
}

pub codec-IsCodec : IsCodec codec
codec-IsCodec = record {
  stream_req = decode_req-encode_req;
  stream_res = λ m. refl;
  udp_req = decode_udp_req-encode_udp_req;
  udp_res = decode_udp_res-encode_udp_res;
}
