-- ===== src/Prelude/Word.antt =====
-- Bytes, big-endian words (`to_be_bytes`, `from_be_bytes`) and the code points of literals.
use Prim.Native.Nat.{ℕ, zero, suc, ◌+◌, ◌*◌, ◌/◌, ◌%◌, ◌^◌, ◌<◌}
use Prim.Native.Char.{code}
use Prim.Native.String.{String}
use mathlib.Core.Path.{◌≡◌, refl, ◌∙◌}
use mathlib.Core.List.{List, [], ◌∷◌, ◌++◌}
use native.Mathlib.Omega.{arith}
use native.Mathlib.Nat.{pow-suc}
use rog.Prelude.Lists.{length, length-append}

-- `Vec<u8>`, and `String` as its UTF-8 bytes.
abbrev pub Bytes : Type 0
Bytes = List ℕ

-- The bytes of an ASCII literal.
abbrev pub codes : String → Bytes
codes String.[] = []
codes (String.◌∷◌ c s) = code c ∷ codes s

abbrev pub AllBytes : Bytes → Type 0
AllBytes [] = Unit {0}
AllBytes (b ∷ bs) = (b < 256) × AllBytes bs

-- The `n` big-endian bytes of a word of `n` bytes.
unfoldable pub to_be : ℕ → ℕ → Bytes
to_be zero x = []
to_be (suc n) x = to_be n (x / 256) ++ x % 256 ∷ []

from_be_onto : ℕ → Bytes → ℕ
from_be_onto acc [] = acc
from_be_onto acc (b ∷ bs) = from_be_onto (acc * 256 + b) bs

unfoldable pub from_be : Bytes → ℕ
unfolding from_be_onto
from_be = from_be_onto 0

from_be_onto-append :
    (acc b : ℕ) (xs : Bytes) → from_be_onto acc (xs ++ b ∷ []) ≡ from_be_onto acc xs * 256 + b
unfolding from_be_onto
from_be_onto-append acc b [] = refl
from_be_onto-append acc b (x ∷ xs) = from_be_onto-append (acc * 256 + x) b xs

pub length-to_be : (n x : ℕ) → length (to_be n x) ≡ n
unfolding to_be
length-to_be zero x = refl
length-to_be (suc n) x =
    omega (arith, length-append (to_be n (x / 256)) (x % 256 ∷ []), length-to_be n (x / 256))

pub from_be-to_be : (n x : ℕ) → x < 256 ^ n → from_be (to_be n x) ≡ x
unfolding to_be from_be
from_be-to_be zero x h = omega arith
from_be-to_be (suc n) x h =
    from_be_onto-append 0 (x % 256) (to_be n (x / 256))
    ∙ omega (arith, from_be-to_be n (x / 256) (omega (arith, pow-suc 256 n)))
