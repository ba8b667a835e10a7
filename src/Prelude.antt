-- ===== src/Prelude.antt =====
-- The names that the other modules share: the libraries', passed on, and those of the children.
mod Tests
mod Lists
mod Text
mod Decimal
mod Int
mod ByteOrder
mod StringMap
pub use Tests.*
pub use Lists.*
pub use Text.{
  Bytes, codes, cr, lf, crlf, bytes_eq, bytes_eq→eq, bytes_eq_refl, find_crlf_bound,
  find_crlf-append, NoCr, find_crlf_line,
}
unfoldable pub use Text.{find_crlf}
pub use Decimal.{
  AllDigits, value, to_string-AllDigits, value-to_string, to_string-nonempty, AllDigits-NoCr,
}
unfoldable pub use Decimal.{to_string}
pub use Int.{ℤ, pos, negsuc, negate, is_negative, nat_abs, ◌==ℤ◌}
unfoldable pub use Int.{int_to_string}
pub use StringMap.{
  Sorted, find-insert, find-erase, insert-Sorted, erase-Sorted, erase-find, insert_all,
  insert_all-Sorted,
}
unfoldable pub use ByteOrder.{less}
unfoldable pub use StringMap.{find, insert, erase}
pub use Prim.Native.Nat.{ℕ, zero, suc, ◌+◌, ◌-◌, ◌*◌, ◌/◌, ◌%◌, ◌^◌, ◌≤◌, ◌<◌}
pub use mathlib.Core.Path.{◌≡◌, refl, sym, ap, ◌∙◌}
pub use mathlib.Core.Logic.{◌≢◌, ◌↔◌, ◌⊎◌, inl, inr}
pub use mathlib.Core.Bool.{Bool, true, false, not, ◌&&◌, ◌||◌}
pub use mathlib.Core.Option.{Option, none, some}
pub use mathlib.Core.List.{List, [], ◌∷◌, ◌++◌, map, append_assoc, append-nil}
pub use native.Mathlib.Omega.{arith}
