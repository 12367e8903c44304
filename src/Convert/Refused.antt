-- ===== src/Convert/Refused.antt =====
-- No value is converted to a type that is none of the eleven of numbers.
use okscada.Prelude.{ℕ, ◌≡◌, refl, Bool, true, false, List, none, some}
use okscada.Prelude.Int.{ℤ}
use okscada.Convert.{
  OvalType, char, uchar, short, ushort, int, uint, long, ulong, float, double, str, enum, Variant,
  v_char, v_uchar, v_short, v_ushort, v_int, v_uint, v_long, v_ulong, v_enum, v_float, v_double,
  v_str, Floats, convert_signed_char, convert_unsigned_char, convert_signed_short,
  convert_unsigned_short, convert_signed_int, convert_unsigned_int, convert_signed_long,
  convert_unsigned_long, convert_enum, convert_float, convert_double,
}
use okscada.Convert.Value.{Formats, convert_from_string, convert_scalar}

-- The types that a value can be converted to.
abbrev pub is_target : OvalType → Bool
is_target char = true
is_target uchar = true
is_target short = true
is_target ushort = true
is_target int = true
is_target uint = true
is_target long = true
is_target ulong = true
is_target float = true
is_target double = true
is_target enum = true
is_target t = false

module _ {F D : Type 0} (fp : Floats F D) (fmt : Formats F D) where
  convert_signed_char-none :
      (v : ℤ) (t : OvalType) → is_target t ≡ false → convert_signed_char fp v t ≡ none
  unfolding convert_signed_char
  convert_signed_char-none v char e = cc
  convert_signed_char-none v uchar e = cc
  convert_signed_char-none v short e = cc
  convert_signed_char-none v ushort e = cc
  convert_signed_char-none v int e = cc
  convert_signed_char-none v uint e = cc
  convert_signed_char-none v long e = cc
  convert_signed_char-none v ulong e = cc
  convert_signed_char-none v float e = cc
  convert_signed_char-none v double e = cc
  convert_signed_char-none v enum e = cc
  convert_signed_char-none v t e = refl

  convert_unsigned_char-none :
      (v : ℤ) (t : OvalType) → is_target t ≡ false → convert_unsigned_char fp v t ≡ none
  unfolding convert_unsigned_char
  convert_unsigned_char-none v char e = cc
  convert_unsigned_char-none v uchar e = cc
  convert_unsigned_char-none v short e = cc
  convert_unsigned_char-none v ushort e = cc
  convert_unsigned_char-none v int e = cc
  convert_unsigned_char-none v uint e = cc
  convert_unsigned_char-none v long e = cc
  convert_unsigned_char-none v ulong e = cc
  convert_unsigned_char-none v float e = cc
  convert_unsigned_char-none v double e = cc
  convert_unsigned_char-none v enum e = cc
  convert_unsigned_char-none v t e = refl

  convert_signed_short-none :
      (v : ℤ) (t : OvalType) → is_target t ≡ false → convert_signed_short fp v t ≡ none
  unfolding convert_signed_short
  convert_signed_short-none v char e = cc
  convert_signed_short-none v uchar e = cc
  convert_signed_short-none v short e = cc
  convert_signed_short-none v ushort e = cc
  convert_signed_short-none v int e = cc
  convert_signed_short-none v uint e = cc
  convert_signed_short-none v long e = cc
  convert_signed_short-none v ulong e = cc
  convert_signed_short-none v float e = cc
  convert_signed_short-none v double e = cc
  convert_signed_short-none v enum e = cc
  convert_signed_short-none v t e = refl

  convert_unsigned_short-none :
      (v : ℤ) (t : OvalType) → is_target t ≡ false → convert_unsigned_short fp v t ≡ none
  unfolding convert_unsigned_short
  convert_unsigned_short-none v char e = cc
  convert_unsigned_short-none v uchar e = cc
  convert_unsigned_short-none v short e = cc
  convert_unsigned_short-none v ushort e = cc
  convert_unsigned_short-none v int e = cc
  convert_unsigned_short-none v uint e = cc
  convert_unsigned_short-none v long e = cc
  convert_unsigned_short-none v ulong e = cc
  convert_unsigned_short-none v float e = cc
  convert_unsigned_short-none v double e = cc
  convert_unsigned_short-none v enum e = cc
  convert_unsigned_short-none v t e = refl

  convert_signed_int-none :
      (v : ℤ) (t : OvalType) → is_target t ≡ false → convert_signed_int fp v t ≡ none
  unfolding convert_signed_int
  convert_signed_int-none v char e = cc
  convert_signed_int-none v uchar e = cc
  convert_signed_int-none v short e = cc
  convert_signed_int-none v ushort e = cc
  convert_signed_int-none v int e = cc
  convert_signed_int-none v uint e = cc
  convert_signed_int-none v long e = cc
  convert_signed_int-none v ulong e = cc
  convert_signed_int-none v float e = cc
  convert_signed_int-none v double e = cc
  convert_signed_int-none v enum e = cc
  convert_signed_int-none v t e = refl

  convert_unsigned_int-none :
      (v : ℤ) (t : OvalType) → is_target t ≡ false → convert_unsigned_int fp v t ≡ none
  unfolding convert_unsigned_int
  convert_unsigned_int-none v char e = cc
  convert_unsigned_int-none v uchar e = cc
  convert_unsigned_int-none v short e = cc
  convert_unsigned_int-none v ushort e = cc
  convert_unsigned_int-none v int e = cc
  convert_unsigned_int-none v uint e = cc
  convert_unsigned_int-none v long e = cc
  convert_unsigned_int-none v ulong e = cc
  convert_unsigned_int-none v float e = cc
  convert_unsigned_int-none v double e = cc
  convert_unsigned_int-none v enum e = cc
  convert_unsigned_int-none v t e = refl

  convert_signed_long-none :
      (v : ℤ) (t : OvalType) → is_target t ≡ false → convert_signed_long fp v t ≡ none
  unfolding convert_signed_long
  convert_signed_long-none v char e = cc
  convert_signed_long-none v uchar e = cc
  convert_signed_long-none v short e = cc
  convert_signed_long-none v ushort e = cc
  convert_signed_long-none v int e = cc
  convert_signed_long-none v uint e = cc
  convert_signed_long-none v long e = cc
  convert_signed_long-none v ulong e = cc
  convert_signed_long-none v float e = cc
  convert_signed_long-none v double e = cc
  convert_signed_long-none v enum e = cc
  convert_signed_long-none v t e = refl

  convert_unsigned_long-none :
      (v : ℤ) (t : OvalType) → is_target t ≡ false → convert_unsigned_long fp v t ≡ none
  unfolding convert_unsigned_long
  convert_unsigned_long-none v char e = cc
  convert_unsigned_long-none v uchar e = cc
  convert_unsigned_long-none v short e = cc
  convert_unsigned_long-none v ushort e = cc
  convert_unsigned_long-none v int e = cc
  convert_unsigned_long-none v uint e = cc
  convert_unsigned_long-none v long e = cc
  convert_unsigned_long-none v ulong e = cc
  convert_unsigned_long-none v float e = cc
  convert_unsigned_long-none v double e = cc
  convert_unsigned_long-none v enum e = cc
  convert_unsigned_long-none v t e = refl

  convert_enum-none : (v : ℤ) (t : OvalType) → is_target t ≡ false → convert_enum fp v t ≡ none
  unfolding convert_enum
  convert_enum-none v char e = cc
  convert_enum-none v uchar e = cc
  convert_enum-none v short e = cc
  convert_enum-none v ushort e = cc
  convert_enum-none v int e = cc
  convert_enum-none v uint e = cc
  convert_enum-none v long e = cc
  convert_enum-none v ulong e = cc
  convert_enum-none v float e = cc
  convert_enum-none v double e = cc
  convert_enum-none v enum e = cc
  convert_enum-none v t e = refl

  convert_float-none : (v : F) (t : OvalType) → is_target t ≡ false → convert_float fp v t ≡ none
  unfolding convert_float
  convert_float-none v char e = cc
  convert_float-none v uchar e = cc
  convert_float-none v short e = cc
  convert_float-none v ushort e = cc
  convert_float-none v int e = cc
  convert_float-none v uint e = cc
  convert_float-none v long e = cc
  convert_float-none v ulong e = cc
  convert_float-none v float e = cc
  convert_float-none v double e = cc
  convert_float-none v enum e = cc
  convert_float-none v t e = refl

  convert_double-none : (v : D) (t : OvalType) → is_target t ≡ false → convert_double fp v t ≡ none
  unfolding convert_double
  convert_double-none v char e = cc
  convert_double-none v uchar e = cc
  convert_double-none v short e = cc
  convert_double-none v ushort e = cc
  convert_double-none v int e = cc
  convert_double-none v uint e = cc
  convert_double-none v long e = cc
  convert_double-none v ulong e = cc
  convert_double-none v float e = cc
  convert_double-none v double e = cc
  convert_double-none v enum e = cc
  convert_double-none v t e = refl

  convert_from_string-none :
      (v : List ℕ) (t : OvalType) → is_target t ≡ false → convert_from_string fp fmt v t ≡ none
  unfolding convert_from_string
  convert_from_string-none v char e = cc
  convert_from_string-none v uchar e = cc
  convert_from_string-none v short e = cc
  convert_from_string-none v ushort e = cc
  convert_from_string-none v int e = cc
  convert_from_string-none v uint e = cc
  convert_from_string-none v long e = cc
  convert_from_string-none v ulong e = cc
  convert_from_string-none v float e = cc
  convert_from_string-none v double e = cc
  convert_from_string-none v enum e = cc
  convert_from_string-none v t e = refl

  pub convert_scalar-none :
      (s : OvalType) (v : Variant F D) (t : OvalType)
      → is_target t ≡ false
      → convert_scalar fp fmt s v t ≡ none
  unfolding convert_scalar
  convert_scalar-none char (v_char v) t e = convert_signed_char-none v t e
  convert_scalar-none uchar (v_uchar v) t e = convert_unsigned_char-none v t e
  convert_scalar-none short (v_short v) t e = convert_signed_short-none v t e
  convert_scalar-none ushort (v_ushort v) t e = convert_unsigned_short-none v t e
  convert_scalar-none int (v_int v) t e = convert_signed_int-none v t e
  convert_scalar-none uint (v_uint v) t e = convert_unsigned_int-none v t e
  convert_scalar-none long (v_long v) t e = convert_signed_long-none v t e
  convert_scalar-none ulong (v_ulong v) t e = convert_unsigned_long-none v t e
  convert_scalar-none enum (v_enum v) t e = convert_enum-none v t e
  convert_scalar-none float (v_float v) t e = convert_float-none v t e
  convert_scalar-none double (v_double v) t e = convert_double-none v t e
  convert_scalar-none str (v_str (some s)) t e = convert_from_string-none s t e
  convert_scalar-none s v t e = refl
