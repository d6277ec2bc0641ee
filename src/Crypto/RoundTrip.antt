-- ===== src/Crypto/RoundTrip.antt =====
-- Encryption and decryption of src/util/crypto.rs together.
use rog.Prelude.{
  ap, ◌≡◌, ◌∙◌, true, le→ltb, ◌++◌, Result, ok, err, panics, length, length-append, take, drop,
  take-append, drop-append, >>=-eq-ok, arith,
}
use rog.Prelude.Word.{Bytes}
use rog.Text.{is_utf8}
use rog.Crypto.{
  map_err, Cipher, nonce_len, encrypt_bytes, decrypt_bytes, encrypt_field, decrypt_field, String,
}

-- The documented laws of the crates: under one key and nonce, decryption undoes an encryption, and
-- base64 decoding an encoding.
pub record IsCipher (c : Cipher) : Type 0 where
  pub decrypt-encrypt :
      (key nonce plaintext : Bytes) {ciphertext : Bytes}
      → c.encrypt key nonce plaintext ≡ ok ciphertext
      → c.decrypt key nonce ciphertext ≡ ok plaintext
  pub decode-encode : (bytes : Bytes) → c.base64_decode (c.base64_encode bytes) ≡ ok bytes

map_err-eq-ok {ℓ} :
    {A : Type ℓ} (what : String) (r : Result A) {a : A} → map_err what r ≡ ok a → r ≡ ok a
map_err-eq-ok what (ok a) h = cc
map_err-eq-ok what (err k m) h = cc
map_err-eq-ok what panics h = cc

-- The nonce and the ciphertext are cut apart again.
decrypt_bytes-append :
    (c : Cipher) (nonce ct password : Bytes)
    → length nonce ≡ nonce_len
    → decrypt_bytes c (nonce ++ ct) password
      ≡ map_err "decrypt error: " (c.decrypt (c.sha256 password) nonce ct)
unfolding decrypt_bytes
decrypt_bytes-append c nonce ct password len =
    let e₁ : take nonce_len (nonce ++ ct) ≡ nonce = rw len at (take-append nonce ct) in
    let e₂ : drop nonce_len (nonce ++ ct) ≡ ct = rw len at (drop-append nonce ct) in
    let key = c.sha256 password in
    rw (le→ltb (length (nonce ++ ct)) nonce_len (omega (arith, length-append nonce ct))) (
      ap (λ a. map_err "decrypt error: " (c.decrypt key a (drop nonce_len (nonce ++ ct)))) e₁
      ∙ ap (λ b. map_err "decrypt error: " (c.decrypt key nonce b)) e₂)

module _ (c : Cipher) (laws : IsCipher c) where
  -- With a nonce of 12 bytes, what is encrypted under a password is decrypted under it.
  pub decrypt_bytes-encrypt_bytes :
      (nonce plaintext password combined : Bytes)
      → length nonce ≡ nonce_len
      → encrypt_bytes c nonce plaintext password ≡ ok combined
      → decrypt_bytes c combined password ≡ ok plaintext
  unfolding encrypt_bytes
  decrypt_bytes-encrypt_bytes nonce plaintext password combined len h =
      let (ct, e, h') =
        >>=-eq-ok (map_err "encrypt error: " (c.encrypt (c.sha256 password) nonce plaintext)) _ h in
      let e' = map_err-eq-ok "encrypt error: " (c.encrypt (c.sha256 password) nonce plaintext) e in
      let split : combined ≡ nonce ++ ct = cc in
      let e₁ = decrypt_bytes-append c nonce ct password len in
      rw (split, e₁, laws.decrypt-encrypt (c.sha256 password) nonce plaintext e')

  -- Under the laws of the crates: what `encrypt_field` makes of UTF-8, with a nonce of 12 bytes, is read
  -- back by `decrypt_field` under the same password.
  pub decrypt_field-encrypt_field :
      (nonce plaintext password field : Bytes)
      → length nonce ≡ nonce_len
      → is_utf8 plaintext ≡ true
      → encrypt_field c nonce plaintext password ≡ ok field
      → decrypt_field c field password ≡ ok plaintext
  unfolding encrypt_field decrypt_field
  decrypt_field-encrypt_field nonce plaintext password field len u h =
      let (combined, e, h') = >>=-eq-ok (encrypt_bytes c nonce plaintext password) _ h in
      let is_field : field ≡ c.base64_encode combined = cc in
      rw (
        is_field,
        laws.decode-encode combined,
        decrypt_bytes-encrypt_bytes nonce plaintext password combined len e,
        u,
      )
