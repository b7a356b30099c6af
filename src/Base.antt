-- ===== src/Base.antt =====
-- Names that every other file shares: the libraries' own, passed on, and those of the children.
pub mod Tests
pub mod Lists
pub mod Arrays
pub mod Bits
pub mod Masks
pub mod Text
pub use Tests.{ltb, leb, ◌==◌, if◌then◌else◌, tests, Bool-cases, Option-cases, ==_iff, eq_of_==}
pub use Tests.{==_refl, ==_ne}
pub use Lists.{length, get_elem?, get_or, set, take, drop, length-append, All}
pub use Arrays.{
  Array, update, window, window-update_out, cells, window_cong, window_agree, window-snoc,
  window-add,
}
pub use Prim.Native.Nat.{ℕ, zero, suc, ◌+◌, ◌-◌, ◌*◌, ◌/◌, ◌%◌, ◌^◌, ◌≤◌, ◌<◌, min, max}
pub use Prim.Native.Nat.{bit_and, bit_or}
pub use mathlib.Core.Path.{◌≡◌, refl, sym, ap, ◌∙◌, subst}
pub use mathlib.Core.Logic.{◌≢◌, ◌↔◌, ◌⊎◌, inl, inr}
pub use mathlib.Core.Bool.{Bool, true, false, not, ◌&&◌, ◌||◌}
pub use mathlib.Core.Option.{Option, none, some}
pub use mathlib.Core.List.{List, [], ◌∷◌, ◌++◌, map, append-nil, append_assoc}
pub use native.Mathlib.Omega.{arith}
unfoldable pub use mathlib.Core.Bool.{xor}
