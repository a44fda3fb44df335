-- ===== src/Base.antt =====
-- The names that the other modules share: the libraries', passed on, and those of the children.
mod Tests
mod Chars
mod Lists
mod Order
mod Text
mod Lines
mod Sort
mod Int
mod Trim
mod Fnv
pub use Tests.*
pub use Lists.*
pub use Order.*
pub use Text.{◌⧺◌, join_one, join_more}
unfoldable pub use Text.{join, decimal, quote}
pub use Int.{ℤ, pos, negsuc, ◌≤ℤ◌, ◌<ℤ◌}
unfoldable pub use Chars.{all_chars}
unfoldable pub use Lines.{lines}
pub use Sort.{sort-perm, any-sort, any-compact, IsRising, compact-IsRising, Rises}
unfoldable pub use Sort.{sort, compact}
pub use Lines.{one_line, one_line-append, lines-one_line, lines-append, all-lines}
pub use Fnv.{len-hex8}
pub use Trim.{
  len-slice-le, len-trim-le, len-trim_right-le, none_of, trim_right-none, trim_right-append,
  trim-keeps, trim-none, none_of-append, append-filled, trim-label, trim-blank,
}
unfoldable pub use Trim.{trim, trim_right}
unfoldable pub use Fnv.{fnv32a, hex8}
unfoldable pub use Int.{signed}
pub use Prim.Native.Nat.{ℕ, zero, suc, ◌+◌, ◌-◌, ◌*◌, ◌/◌, ◌%◌, ◌≤◌, ◌<◌, min}
pub use Prim.Native.String.{String, len, slice}
pub use mathlib.Core.Path.{◌≡◌, refl, sym, ap, ◌∙◌, subst}
pub use mathlib.Core.Logic.{◌≢◌, ◌↔◌, ◌⊎◌, inl, inr}
pub use mathlib.Core.Bool.{Bool, true, false, ◌&&◌, ◌||◌, not}
pub use mathlib.Core.Option.{Option, none, some}
pub use mathlib.Core.List.{List, [], ◌∷◌, ◌++◌, map, Memᴰ}
pub use native.Mathlib.Omega.{arith}
pub use text.Mathlib.Text.{◌==◌, starts_with}
pub use text.Mathlib.TextEquality.{eq_iff}
pub use text.Mathlib.TextPositions.{eq_refl, len-append}
