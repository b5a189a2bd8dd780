-- ===== src/Text.antt =====
-- Python's `str` and `bytes` as lists of code points and of bytes, with the operations that the
-- hub uses: `strip`, `lower`, `startswith`, `encode`, `int(...)` and `str(int)`.
-- Header text is decoded as Latin-1 (hub/server.py), where the decimal digits are 0-9 alone.
mod Basic
mod Number
mod Laws
mod Size
pub use Basic.{Text, codes, text_eq_iff, text_eq_refl, is_nil, or_empty, truthy, is_space}
unfoldable pub use Basic.{
  text_eq, strip, lower, lower_char, ascii_lower, starts_with, ends_with, contains, utf8, of_codes,
}
unfoldable pub use Number.{is_digit, scan_digits, parse_int, print_nat, print_int, message_prefix}
pub use Number.{max_digits, count_digits}
pub use Laws.{
  strip-eq_self, strip-trimmed, parse_int-print_int, signed_message_injective, starts_with-append,
  digits-print_nat, print_nat-ne-nil, scan-print_nat,
}
pub use Size.{count_digits-print_nat-le}
