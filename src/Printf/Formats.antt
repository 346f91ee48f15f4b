-- ===== src/Printf/Formats.antt =====
-- src/_stdio.h: the state of one conversion of `fprintf`. The flags are bits of an `int` there, and
-- the length modifiers and specifiers are numbers; they are Booleans and constructors here.
use freestanding_custom_c_li.Prelude.{ℕ, Bool, false, Option}

pub record Flags : Type 0 where
  pub left_align : Bool
  pub show_sign : Bool
  pub space_if_no_sign : Bool
  pub leading_zeros : Bool
  pub use_alternate : Bool

-- `__STDIO_FPRINTF_FORMAT_FLAGS_DEFAULT`
abbrev pub no_flags : Flags
no_flags = record {
  left_align = false;
  show_sign = false;
  space_if_no_sign = false;
  leading_zeros = false;
  use_alternate = false;
}

pub data LengthModifier : Type 0 where
  default_length char_length short_length long_length long_long_length : LengthModifier
  size_length ptrdiff_length intmax_length long_double_length : LengthModifier

-- `unknown` is `__STDIO_FPRINTF_FORMAT_SPECIFIER_DEFAULT`.
pub data Specifier : Type 0 where
  unknown signed_decimal unsigned_decimal octal hex : Specifier
  float scientific smart hex_float : Specifier
  character string pointer count : Specifier

-- `fprintf_state`. The specifier's bit for upper case is `upper`. A precision of -1, which stands
-- for none, is `none`. A width is not negative where it is used.
pub record State : Type 0 where
  pub flags : Flags
  pub width : ℕ
  pub precision : Option ℕ
  pub modifier : LengthModifier
  pub specifier : Specifier
  pub upper : Bool
