-- ===== src/Prelude/Io.antt =====
-- `std::io`: results that may fail, and the byte pipes behind `AsyncReadExt` and `AsyncWriteExt`.
use Prim.Native.Nat.{ℕ, ◌-◌}
use Prim.Native.String.{String}
use mathlib.Core.Path.{◌≡◌, refl}
use mathlib.Core.List.{List, ◌++◌}
use mathlib.Core.Option.{Option, none, some}
use rog.Prelude.Tests.{ltb, leb, if◌then◌else◌}
use rog.Prelude.Lists.{length, take, drop}

-- The kinds of `std::io::ErrorKind` that the program names.
pub data ErrorKind : Type 0 where
  other invalid_data invalid_input unexpected_eof interrupted broken_pipe : ErrorKind
  not_connected connection_aborted timed_out permission_denied not_found : ErrorKind

-- `io::Result`; an error carries its kind and its message. Code that unwraps a missing value panics
-- instead, which ends its task.
pub data Result {ℓ} (A : Type ℓ) : Type ℓ where
  panics : Result A
  err : (kind : ErrorKind) (message : String) → Result A
  ok : A → Result A

infixl 5 ◌>>=◌
-- The `?` operator, with what follows it.
abbrev pub ◌>>=◌ {ℓ κ} : {A : Type ℓ} {B : Type κ} → Result A → (A → Result B) → Result B
panics >>= then' = panics
err kind message >>= then' = err kind message
ok value >>= then' = then' value

abbrev pub concat : String → String → String
concat String.[] t = t
concat (String.◌∷◌ c s) t = String.◌∷◌ c (concat s t)

-- `.map_err(|e| io::Error::other(format!("...: {}", e)))`.
abbrev pub map_err {ℓ} : {A : Type ℓ} → String → Result A → Result A
map_err what (ok a) = ok a
map_err what (err k m) = err other (concat what m)
map_err what panics = panics

-- `Option::unwrap`.
abbrev pub unwrap {ℓ} : {A : Type ℓ} → Option A → Result A
unwrap none = panics
unwrap (some a) = ok a

-- `Option::ok_or_else`.
abbrev pub ok_or {ℓ} : {A : Type ℓ} → Option A → ErrorKind → String → Result A
ok_or none k m = err k m
ok_or (some a) k m = ok a

-- What succeeded as a whole succeeded step by step.
pub >>=-eq-ok {ℓ κ} :
    {A : Type ℓ} {B : Type κ} (first : Result A) (then' : A → Result B) {out : B}
    → (first >>= then') ≡ ok out
    → (value : A) × (first ≡ ok value) × (then' value ≡ ok out)
>>=-eq-ok panics then' e = cc
>>=-eq-ok (err kind message) then' e = cc
>>=-eq-ok (ok value) then' e = (value, refl, e)

-- The reading end of a connection: the bytes that will arrive, and the error that `read_exact`
-- reports once they have run out (`UnexpectedEof`, or the failure of the connection).
pub record Reader : Type 0 where
  pub bytes : List ℕ
  pub last_kind : ErrorKind
  pub last_message : String

-- `AsyncReadExt::read_exact` into a buffer of `n` bytes.
unfoldable pub read_exact : ℕ → Reader → Result (List ℕ × Reader)
read_exact n r =
    if ltb (length r.bytes) n
    then err r.last_kind r.last_message
    else ok (take n r.bytes, record r { bytes = drop n r.bytes })

-- The writing end: the bytes written so far, and how many more the connection takes before it
-- breaks.
pub record Writer : Type 0 where
  pub written : List ℕ
  pub room : ℕ

-- `AsyncWriteExt::write_all`.
unfoldable pub write_all : List ℕ → Writer → Result Writer
write_all data' w =
    if leb (length data') w.room
    then ok (record w { written = w.written ++ data'; room = w.room - length data' })
    else err broken_pipe "broken pipe"
