-- ===== src/Base.antt =====
-- The names that the other modules share: the libraries', passed on, and those of the children.
mod Tests
mod Lists
mod Bytes
mod Maps
mod Outcome
mod Int
pub mod Steps
mod Words
mod TextMaps
pub use Tests.*
pub use Lists.*
pub use Outcome.*
unfoldable pub use Bytes.{text_eq}
pub use Bytes.{Text, codes, text_eq_iff}
unfoldable pub use Maps.{lookup, insert, erase}
pub use Maps.{
  Dict, values, UniqueKeys, lookup-insert, lookup-erase, insert-UniqueKeys, erase-UniqueKeys,
  lookup-mem, lookup_injective, values-insert-Perm, values-erase-Perm, erase_absent,
}
pub use Prim.Native.Nat.{ℕ, zero, suc, ◌+◌, ◌-◌, ◌*◌, ◌/◌, ◌%◌, ◌^◌, ◌≤◌, ◌<◌}
pub use Prim.Native.String.{String}
pub use mathlib.Core.Path.{◌≡◌, refl, sym, ap, subst, ◌∙◌}
pub use mathlib.Core.Logic.{◌≢◌, ◌↔◌, ◌⊎◌, inl, inr}
pub use mathlib.Core.Bool.{Bool, true, false, not, ◌&&◌, ◌||◌}
pub use mathlib.Core.Option.{Option, none, some}
pub use mathlib.Core.List.{List, [], ◌∷◌, ◌++◌, map, Mem, Perm, Nodup}
pub use native.Mathlib.Omega.{arith}
unfoldable pub use text.Mathlib.Text.{◌==◌ as str_eq}
pub use text.Mathlib.TextEquality.{eq_iff}
pub use Prim.Native.String.{◌++◌ as str_append}
unfoldable pub use text.Mathlib.Text.{starts_with}
unfoldable pub use TextMaps.{find_text, put_all}
pub use TextMaps.{TextMap, put_text, or_else, find_text-put_all}
pub use Int.*
unfoldable pub use Words.{
  lacks, has_prefix, cut_prefix, trim_prefix, contains_text, strip_first, trim_front, trim_space,
  split_on, cut_at, next_word, second_field,
}
pub use Words.{decimal, split_on-append, spaces}
