-- ===== src/Strings.antt =====
-- Go's `strings` package and `sort.Strings`, on byte texts: what the program uses of them.
-- `TrimSpace`, `ToLower`, `Fields` and `EqualFold` are those of ASCII texts.
pub mod Equality
pub mod Trim
pub mod Sorting
pub mod Split
pub mod Search
pub mod Decimal
pub mod Atoi
use zent_proxy.Base.{lit}
use zent_proxy.Strings.Equality.{text_eq, has}
use zent_proxy.Strings.Trim.{
  is_space, is_nil, trim_left, trim_right, trim, trim_space, to_lower, upper_byte, to_upper,
}
use zent_proxy.Strings.Sorting.{text_le, insert, sort_by, sort_texts}
use zent_proxy.Strings.Split.{push_head, split, join, end_word, words, drop_empty, fields}
use zent_proxy.Strings.Search.{
  strip_prefix, has_prefix, trim_prefix, has_suffix, trim_suffix, member, contains_any, contains,
  equal_fold,
}
use zent_proxy.Strings.Decimal.{itoa}

-- Opens the package for a test.
unfoldable pub strings : Unit {0}
unfolding lit text_eq has is_space is_nil trim_left trim_right trim trim_space to_lower upper_byte
    to_upper text_le insert sort_by sort_texts push_head split join end_word words drop_empty fields
    strip_prefix has_prefix trim_prefix has_suffix trim_suffix member contains_any contains
    equal_fold itoa
strings = tt
