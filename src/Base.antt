-- ===== src/Base.antt =====
-- The names that the modules of this library share: the libraries', passed on, and those of three
-- children.
mod Tests
mod Texts
mod Lists
pub mod Separators
pub mod Append
pub use Tests.*
unfoldable pub use Texts.{same, join, is_ascii}
pub use Texts.{same_iff, same_refl, same_option, same_option_iff}
unfoldable pub use Lists.{keep}
pub use Lists.{Bytes, length, take, All, All-append, All-map}
pub use Prim.Native.Nat.{ℕ, zero, suc, ◌+◌, ◌-◌, ◌*◌, ◌≤◌, ◌<◌, min}
pub use Prim.Native.String.{String}
pub use mathlib.Core.Path.{◌≡◌, refl, sym, ap, ◌∙◌}
pub use mathlib.Core.Logic.{◌≢◌, ◌↔◌, ◌⊎◌, inl, inr}
pub use mathlib.Core.Bool.{Bool, true, false, not, ◌&&◌, ◌||◌}
pub use mathlib.Core.Option.{Option, none, some}
pub use mathlib.Core.List.{List, [], ◌∷◌, ◌++◌, map}
pub use native.Mathlib.Omega.{arith}
