-- ===== src/Prelude.antt =====
-- The names that the other modules share: the libraries', passed on, and those of the children.
mod Tests
mod Lists
mod Io
pub mod Word
pub mod Channel
pub mod Maps
pub use Tests.*
pub use Lists.*
pub use Io.{
  ErrorKind, other, invalid_data, invalid_input, unexpected_eof, interrupted, broken_pipe,
  not_connected, connection_aborted, timed_out, permission_denied, not_found, Result, ok, err,
  panics, unwrap, ok_or, map_err, ◌>>=◌, >>=-eq-ok, Reader, Writer,
}
unfoldable pub use Io.{read_exact, write_all}
unfoldable pub use Tests.{bytes_eq}
pub use Prim.Native.Nat.{ℕ, zero, suc, ◌+◌, ◌-◌, ◌*◌, ◌/◌, ◌%◌, ◌^◌, ◌≤◌, ◌<◌, min}
pub use Prim.Native.String.{String}
pub use mathlib.Core.Path.{◌≡◌, refl, sym, ap, ◌∙◌}
pub use mathlib.Core.Logic.{◌≢◌, ◌↔◌, ◌⊎◌, inl, inr}
pub use mathlib.Core.Bool.{Bool, true, false, not, ◌&&◌, ◌||◌}
pub use mathlib.Core.Option.{Option, none, some}
pub use mathlib.Core.List.{List, [], ◌∷◌, ◌++◌, append-nil, append_assoc}
pub use native.Mathlib.Omega.{arith}
