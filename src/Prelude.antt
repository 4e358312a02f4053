-- ===== src/Prelude.antt =====
-- The names that the other modules share: the libraries', passed on, and those of the children.
mod Tests
mod Lists
mod Dicts
mod Results
mod Methods
mod Framing
pub use Tests.*
pub use Lists.*
pub use Dicts.{
  Dict, get-put, get-remove, length-remove-le, get-none_of_has, get-some_of_has, get_or_lem,
  get_or-put_self, get_or-remove_self, dict_laws,
}
unfoldable pub use Dicts.{get, get_or, get_or, has, put, remove}
pub use Results.*
pub use Methods.{Exec, return, throw, resume, caught, ◌>>◌}
pub use Framing.*
unfoldable pub use Methods.{◌>>=◌, try_else}
pub use Prim.Native.Nat.{ℕ, zero, suc, ◌+◌, ◌-◌, ◌*◌, ◌/◌, ◌%◌, ◌^◌, ◌≤◌, ◌<◌}
pub use Prim.Native.String.{String}
pub use mathlib.Core.Path.{◌≡◌, refl, sym, ap, ap₂, ◌∙◌}
pub use mathlib.Core.Logic.{◌≢◌, ◌↔◌, ◌⊎◌, inl, inr}
pub use mathlib.Core.Bool.{Bool, true, false, not, ◌&&◌, ◌||◌}
pub use mathlib.Core.Option.{Option, none, some}
pub use mathlib.Core.List.{List, [], ◌∷◌, ◌++◌, map}
pub use native.Mathlib.Omega.{arith}
pub use text.Mathlib.Text.{◌==◌}
pub use text.Mathlib.TextEquality.{eq_iff}
pub use text.Mathlib.TextPositions.{eq_refl}
