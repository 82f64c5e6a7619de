-- ===== src/Prelude.antt =====
-- The names that the other modules share: those of the libraries, passed on, and those of the
-- children: Boolean tests, lists, the integers, and Go's `time.Time` and errors.
mod Tests
mod Lists
mod Int
mod Clock
mod Text
mod Maps
mod Strconv
mod Strings
mod Trim
pub use Tests.*
pub use Lists.*
unfoldable pub use Int.*
pub use Clock.*
pub use Text.*
pub use Strings.*
pub use Trim.*
unfoldable pub use Strconv.{atoi}
unfoldable pub use Maps.{lookup, put, remove}
pub use Maps.{Assoc, values, lookup-put, lookup-remove}
pub use Prim.Native.Nat.{ℕ, zero, suc, ◌+◌, ◌-◌, ◌*◌, ◌/◌, ◌%◌, ◌^◌, ◌≤◌, ◌<◌}
pub use Prim.Native.String.{String}
pub use mathlib.Core.Path.{◌≡◌, refl, sym, ap, ◌∙◌, subst}
pub use mathlib.Core.Logic.{◌≢◌, ◌↔◌, ◌⊎◌, inl, inr}
pub use mathlib.Core.Bool.{Bool, true, false, not, ◌&&◌, ◌||◌}
pub use mathlib.Core.Option.{Option, none, some}
pub use mathlib.Core.List.{List, [], ◌∷◌, ◌++◌, map, append-nil, append_assoc, map-append}
pub use native.Mathlib.Omega.{arith}
pub use text.Mathlib.Text.{◌==◌ as str_eq}
pub use text.Mathlib.TextEquality.{eq_iff}
