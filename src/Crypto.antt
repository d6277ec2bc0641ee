-- ===== src/Crypto.antt =====
-- src/util/crypto.rs. The crates `sha2`, `chacha20poly1305` and `base64` are the fields of a record,
-- and the nonce, which the source draws from `OsRng`, is an argument. A `String` is its UTF-8 bytes.
pub mod RoundTrip
use rog.Prelude.{
  map_err, ltb, if◌then◌else◌, ◌++◌, Result, ok, err, panics, other, ◌>>=◌, length, take, drop,
  String, ErrorKind,
}
use rog.Prelude.Word.{Bytes}
use rog.Text.{is_utf8}

-- An error of a crate is a text; its kind is not used.
pub record Cipher : Type 0 where
  pub sha256 : Bytes → Bytes
  pub encrypt : Bytes → Bytes → Bytes → Result Bytes
  pub decrypt : Bytes → Bytes → Bytes → Result Bytes
  pub base64_encode : Bytes → Bytes
  pub base64_decode : Bytes → Result Bytes

abbrev pub nonce_len : rog.Prelude.ℕ
nonce_len = 12

module _ (c : Cipher) where
  unfoldable pub derive_key : Bytes → Bytes
  derive_key password = c.sha256 password

  unfoldable pub encrypt_bytes : Bytes → Bytes → Bytes → Result Bytes
  unfolding derive_key
  encrypt_bytes nonce plaintext password = do
    let key = derive_key password
    ciphertext ← map_err "encrypt error: " (c.encrypt key nonce plaintext)
    ok (nonce ++ ciphertext)

  unfoldable pub decrypt_bytes : Bytes → Bytes → Result Bytes
  unfolding derive_key
  decrypt_bytes combined password =
      let key = derive_key password in
      if ltb (length combined) nonce_len
      then err other "ciphertext too short"
      else map_err "decrypt error: "
          (c.decrypt key (take nonce_len combined) (drop nonce_len combined))

  unfoldable pub encrypt_field : Bytes → Bytes → Bytes → Result Bytes
  encrypt_field nonce plaintext password = do
    combined ← encrypt_bytes nonce plaintext password
    ok (c.base64_encode combined)

  -- The position that the error of `from_utf8` names is left out.
  abbrev from_utf8 : Bytes → Result Bytes
  from_utf8 plaintext = if is_utf8 plaintext then ok plaintext else err other "utf8 error: "

  unfoldable pub decrypt_field : Bytes → Bytes → Result Bytes
  decrypt_field ciphertext_b64 password = do
    combined ← map_err "base64 decode error: " (c.base64_decode ciphertext_b64)
    plaintext ← decrypt_bytes combined password
    from_utf8 plaintext
