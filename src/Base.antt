-- ===== src/Base.antt =====
-- Names that every module shares: the libraries', passed on, and those of the children, which hold
-- what the program uses of Go itself (strings, maps, results) over the native numbers.
mod Tests
mod Lists
mod Text
mod Maps
mod Results
pub mod Int
pub use Tests.*
pub use Lists.*
pub use Text.{
  str_eq_iff, str_eq_refl, Lacks-append, cut-append, cut_of_Lacks, split-append, split_of_Lacks,
  has_prefix-append, drop_prefix-append, trim_right_last, trim_left_of_ne,
}
unfoldable pub use Text.{
  Str, codes, str_eq, is_blank, has_prefix, drop_prefix, cut, split, trim_left, trim_right, trim,
  index, Lacks,
}
pub use Maps.{
  Dict, HasDistinctKeys, lookup-insert, lookup-delete, insert_of_absent, lookup-append,
  insert-HasDistinctKeys,
}
unfoldable pub use Maps.{lookup, insert, delete}
pub use Results.*
pub use Prim.Native.Nat.{ℕ, zero, suc, ◌+◌, ◌-◌, ◌*◌, ◌/◌, ◌%◌, ◌^◌, ◌≤◌, ◌<◌}
pub use mathlib.Core.Path.{◌≡◌, refl, sym, ap, ◌∙◌}
pub use mathlib.Core.Logic.{◌≢◌, ◌↔◌, ◌⊎◌, inl, inr}
pub use mathlib.Core.Bool.{Bool, true, false, not, ◌&&◌, ◌||◌}
pub use mathlib.Core.Option.{Option, none, some}
pub use mathlib.Core.List.{List, [], ◌∷◌, ◌++◌, map, append-nil, append_assoc}
pub use native.Mathlib.Omega.{arith}
