-- ===== src/Socks5/Confirm.antt =====
-- src/util/socks5/confirm.rs: the reply to a request.
use rog.Prelude.{ℕ, Bool, true, false, [], ◌∷◌, get_or}
use rog.Prelude.Word.{Bytes, to_be}

pub record Confirm : Type 0 where
  pub status : ℕ
  pub port0 : ℕ
  pub port1 : ℕ

unfoldable pub new : Bool → ℕ → Confirm
new true port = record {
  status = 1;
  port0 = get_or (to_be 2 port) 0 0;
  port1 = get_or (to_be 2 port) 1 0;
}
new false port = record {
  status = 0;
  port0 = get_or (to_be 2 port) 0 0;
  port1 = get_or (to_be 2 port) 1 0;
}

unfoldable pub to_bytes : Confirm → Bytes
to_bytes c = 0x05 ∷ c.status ∷ 0x00 ∷ 0x01 ∷ 0x00 ∷ 0x00 ∷ 0x00 ∷ 0x00 ∷ c.port0 ∷ c.port1 ∷ []
