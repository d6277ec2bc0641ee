-- ===== src/Prelude/Maps.antt =====
-- Maps by their lookups: `HashMap` and `DashMap` on strings, and tables of numbered tasks.
use Prim.Native.Nat.{ℕ}
use mathlib.Core.Option.{Option, none, some}
use rog.Prelude.Tests.{◌==◌, if◌then◌else◌, bytes_eq}
use rog.Prelude.Word.{Bytes}

abbrev pub Map : Type 0 → Type 0
Map A = Bytes → Option A

abbrev pub insert : {A : Type 0} → Bytes → A → Map A → Map A
insert k v m x = if bytes_eq x k then some v else m x

abbrev pub remove : {A : Type 0} → Bytes → Map A → Map A
remove k m x = if bytes_eq x k then none else m x

abbrev pub Table : Type 0 → Type 0
Table A = ℕ → Option A

abbrev pub set : {A : Type 0} → ℕ → A → Table A → Table A
set i v t j = if j == i then some v else t j
