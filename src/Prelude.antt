-- ===== src/Prelude.antt =====
-- The names that the other modules share: the libraries', passed on, and those of the children.
mod Tests
mod Lists
mod Sort
mod Slices
mod Members
pub use Tests.*
pub use Lists.*
unfoldable pub use Sort.{sort_by, insert_sorted}
pub use Sort.{IsSorted, sort_by-perm, length-sort_by, All-sort_by, All-of_sort_by, sort_by-IsSorted}
pub use Slices.*
pub use Members.{
  All-Mem, Mem-append_left, Mem-last, Mem-keep, Mem-map, first-map, first-Mem, Mem-of_keep,
  keep-fails,
}
pub use Prim.Native.Nat.{ℕ, zero, suc, ◌+◌, ◌-◌, ◌*◌, ◌/◌, ◌%◌, ◌≤◌, ◌<◌, min, max}
pub use Prim.Native.String.{String}
pub use mathlib.Core.Path.{◌≡◌, refl, sym, ap, subst, fun_ext, ◌∙◌, ◌≡⟨◌⟩◌, ◌∎}
pub use mathlib.Core.Logic.{◌≢◌, ◌↔◌, ◌⊎◌, inl, inr}
pub use mathlib.Core.Bool.{Bool, true, false, not, ◌&&◌, ◌||◌, false≢true}
pub use mathlib.Core.Option.{Option, none, some}
pub use mathlib.Core.List.{
  Memᴰ, List, [], ◌∷◌, ◌++◌, map, append-nil, append_assoc, reverse, map-append,
}
pub use text.Mathlib.Text.{◌==◌ as str_eq}
pub use text.Mathlib.TextEquality.{eq_iff}
pub use native.Mathlib.Omega.{arith}
