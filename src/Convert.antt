-- ===== src/Convert.antt =====
-- watch/watch-convert.c: the conversion of values between the types of the protocol.
-- A C integer is the integer that it stands for; a cast reduces it to its new type. `char` is signed, and a `long`
-- has 64 bits. `F` and `D` are `float` and `double`, and `fp` what the compiler does with them.
pub mod Value
pub mod Casts
pub mod Reference
pub mod Refused
pub mod Lengths
use okscada.Prelude.{ℕ, ◌-◌, ◌%◌, ◌/◌, List, Option, none, some, Bool, ltb, if◌then◌else◌}
use okscada.Prelude.Int.{ℤ, pos, negsuc}

-- The type letters: b B h H i I l L q Q f d D p v s E, and any other.
pub data OvalType : Type 0 where
  char uchar short ushort int uint long ulong quad uquad float double long_double ptr void str enum
        other :
      OvalType

-- The bit pattern of an integer in a word with `m` values.
abbrev pub pattern : ℕ → ℤ → ℕ
pattern m (pos n) = n % m
pattern m (negsuc n) = m - 1 - n % m

-- A pattern as a signed number.
abbrev pub signed : ℕ → ℕ → ℤ
signed m p = if ltb p (m / 2) then pos p else negsuc (m - 1 - p)

abbrev pub to_char : ℤ → ℤ
to_char v = signed 256 (pattern 256 v)

abbrev pub to_uchar : ℤ → ℤ
to_uchar v = pos (pattern 256 v)

abbrev pub to_short : ℤ → ℤ
to_short v = signed 65536 (pattern 65536 v)

abbrev pub to_ushort : ℤ → ℤ
to_ushort v = pos (pattern 65536 v)

abbrev pub to_int : ℤ → ℤ
to_int v = signed 4294967296 (pattern 4294967296 v)

abbrev pub to_uint : ℤ → ℤ
to_uint v = pos (pattern 4294967296 v)

abbrev pub to_long : ℤ → ℤ
to_long v = signed 18446744073709551616 (pattern 18446744073709551616 v)

abbrev pub to_ulong : ℤ → ℤ
to_ulong v = pos (pattern 18446744073709551616 v)

-- `ovariant_t`, with the member that was written. `v_str` holds what the pointer points to.
pub data Variant (F D : Type 0) : Type 0 where
  v_char v_uchar v_short v_ushort v_int v_uint v_long v_ulong v_enum : ℤ → Variant F D
  v_float : F → Variant F D
  v_double : D → Variant F D
  v_str : Option (List ℕ) → Variant F D
  v_none : Variant F D

-- The conversions of floating point numbers; the ones to an integer give a value of its type.
pub record Floats (F D : Type 0) : Type 0 where
  pub float_of : ℤ → F
  pub double_of : ℤ → D
  pub widen : F → D
  pub narrow : D → F
  pub float_to : OvalType → F → ℤ
  pub double_to : OvalType → D → ℤ

module _ {F D : Type 0} (fp : Floats F D) where
  -- `convertSignedChar`.
  unfoldable pub convert_signed_char : ℤ → OvalType → Option (Variant F D)
  convert_signed_char v char = some (v_char v)
  convert_signed_char v uchar = some (v_uchar (to_uchar v))
  convert_signed_char v short = some (v_short (to_short v))
  convert_signed_char v ushort = some (v_ushort (to_ushort v))
  convert_signed_char v int = some (v_int (to_int v))
  convert_signed_char v uint = some (v_uint (to_uint v))
  convert_signed_char v long = some (v_long (to_long v))
  convert_signed_char v ulong = some (v_ulong (to_ulong v))
  convert_signed_char v float = some (v_float (fp.float_of v))
  convert_signed_char v double = some (v_double (fp.double_of v))
  convert_signed_char v enum = some (v_enum (to_int v))
  convert_signed_char v t = none

  -- `convertUnsignedChar`.
  unfoldable pub convert_unsigned_char : ℤ → OvalType → Option (Variant F D)
  convert_unsigned_char v char = some (v_char (to_char v))
  convert_unsigned_char v uchar = some (v_uchar v)
  convert_unsigned_char v short = some (v_short (to_short v))
  convert_unsigned_char v ushort = some (v_ushort (to_ushort v))
  convert_unsigned_char v int = some (v_int (to_int v))
  convert_unsigned_char v uint = some (v_uint (to_uint v))
  convert_unsigned_char v long = some (v_long (to_long v))
  convert_unsigned_char v ulong = some (v_ulong (to_ulong v))
  convert_unsigned_char v float = some (v_float (fp.float_of v))
  convert_unsigned_char v double = some (v_double (fp.double_of v))
  convert_unsigned_char v enum = some (v_enum (to_int v))
  convert_unsigned_char v t = none

  -- `convertSignedShort`.
  unfoldable pub convert_signed_short : ℤ → OvalType → Option (Variant F D)
  convert_signed_short v char = some (v_char (to_char v))
  convert_signed_short v uchar = some (v_uchar (to_uchar (to_ushort v)))
  convert_signed_short v short = some (v_short v)
  convert_signed_short v ushort = some (v_ushort (to_ushort v))
  convert_signed_short v int = some (v_int (to_int v))
  convert_signed_short v uint = some (v_uint (to_uint v))
  convert_signed_short v long = some (v_long (to_long v))
  convert_signed_short v ulong = some (v_ulong (to_ulong v))
  convert_signed_short v float = some (v_float (fp.float_of v))
  convert_signed_short v double = some (v_double (fp.double_of v))
  convert_signed_short v enum = some (v_enum (to_int v))
  convert_signed_short v t = none

  -- `convertUnsignedShort`.
  unfoldable pub convert_unsigned_short : ℤ → OvalType → Option (Variant F D)
  convert_unsigned_short v char = some (v_char (to_char (to_uchar v)))
  convert_unsigned_short v uchar = some (v_uchar (to_uchar v))
  convert_unsigned_short v short = some (v_short (to_short v))
  convert_unsigned_short v ushort = some (v_ushort v)
  convert_unsigned_short v int = some (v_int (to_int v))
  convert_unsigned_short v uint = some (v_uint (to_uint v))
  convert_unsigned_short v long = some (v_long (to_long v))
  convert_unsigned_short v ulong = some (v_ulong (to_ulong v))
  convert_unsigned_short v float = some (v_float (fp.float_of v))
  convert_unsigned_short v double = some (v_double (fp.double_of v))
  convert_unsigned_short v enum = some (v_enum (to_int v))
  convert_unsigned_short v t = none

  -- `convertSignedInt`.
  unfoldable pub convert_signed_int : ℤ → OvalType → Option (Variant F D)
  convert_signed_int v char = some (v_char (to_char v))
  convert_signed_int v uchar = some (v_uchar (to_uchar (to_uint v)))
  convert_signed_int v short = some (v_short (to_short v))
  convert_signed_int v ushort = some (v_ushort (to_ushort (to_uint v)))
  convert_signed_int v int = some (v_int v)
  convert_signed_int v uint = some (v_uint (to_uint v))
  convert_signed_int v long = some (v_long (to_long v))
  convert_signed_int v ulong = some (v_ulong (to_ulong v))
  convert_signed_int v float = some (v_float (fp.float_of v))
  convert_signed_int v double = some (v_double (fp.double_of v))
  convert_signed_int v enum = some (v_enum v)
  convert_signed_int v t = none

  -- `convertUnsignedInt`.
  unfoldable pub convert_unsigned_int : ℤ → OvalType → Option (Variant F D)
  convert_unsigned_int v char = some (v_char (to_char (to_uchar v)))
  convert_unsigned_int v uchar = some (v_uchar (to_uchar v))
  convert_unsigned_int v short = some (v_short (to_short (to_ushort v)))
  convert_unsigned_int v ushort = some (v_ushort (to_ushort v))
  convert_unsigned_int v int = some (v_int (to_int v))
  convert_unsigned_int v uint = some (v_uint v)
  convert_unsigned_int v long = some (v_long (to_long v))
  convert_unsigned_int v ulong = some (v_ulong (to_ulong v))
  convert_unsigned_int v float = some (v_float (fp.float_of v))
  convert_unsigned_int v double = some (v_double (fp.double_of v))
  convert_unsigned_int v enum = some (v_enum (to_int v))
  convert_unsigned_int v t = none

  -- `convertSignedLong`.
  unfoldable pub convert_signed_long : ℤ → OvalType → Option (Variant F D)
  convert_signed_long v char = some (v_char (to_char v))
  convert_signed_long v uchar = some (v_uchar (to_uchar (to_ulong v)))
  convert_signed_long v short = some (v_short (to_short v))
  convert_signed_long v ushort = some (v_ushort (to_ushort (to_ulong v)))
  convert_signed_long v int = some (v_int (to_int v))
  convert_signed_long v uint = some (v_uint (to_uint (to_ulong v)))
  convert_signed_long v long = some (v_long v)
  convert_signed_long v ulong = some (v_ulong (to_ulong v))
  convert_signed_long v float = some (v_float (fp.float_of v))
  convert_signed_long v double = some (v_double (fp.double_of v))
  convert_signed_long v enum = some (v_enum (to_int v))
  convert_signed_long v t = none

  -- `convertUnsignedLong`.
  unfoldable pub convert_unsigned_long : ℤ → OvalType → Option (Variant F D)
  convert_unsigned_long v char = some (v_char (to_char (to_uchar v)))
  convert_unsigned_long v uchar = some (v_uchar (to_uchar v))
  convert_unsigned_long v short = some (v_short (to_short (to_ushort v)))
  convert_unsigned_long v ushort = some (v_ushort (to_ushort v))
  convert_unsigned_long v int = some (v_int (to_int (to_uint v)))
  convert_unsigned_long v uint = some (v_uint (to_uint v))
  convert_unsigned_long v long = some (v_long (to_long v))
  convert_unsigned_long v ulong = some (v_ulong v)
  convert_unsigned_long v float = some (v_float (fp.float_of v))
  convert_unsigned_long v double = some (v_double (fp.double_of v))
  convert_unsigned_long v enum = some (v_enum (to_int v))
  convert_unsigned_long v t = none

  -- `convertEnum`.
  unfoldable pub convert_enum : ℤ → OvalType → Option (Variant F D)
  convert_enum v char = some (v_char (to_char v))
  convert_enum v uchar = some (v_uchar (to_uchar (to_uint v)))
  convert_enum v short = some (v_short (to_short v))
  convert_enum v ushort = some (v_ushort (to_ushort (to_uint v)))
  convert_enum v int = some (v_int v)
  convert_enum v uint = some (v_uint (to_uint v))
  convert_enum v long = some (v_long (to_long v))
  convert_enum v ulong = some (v_ulong (to_ulong v))
  convert_enum v float = some (v_float (fp.float_of v))
  convert_enum v double = some (v_double (fp.double_of v))
  convert_enum v enum = some (v_enum v)
  convert_enum v t = none

  -- `convertFloat`.
  unfoldable pub convert_float : F → OvalType → Option (Variant F D)
  convert_float v char = some (v_char (fp.float_to char v))
  convert_float v uchar = some (v_uchar (fp.float_to uchar v))
  convert_float v short = some (v_short (fp.float_to short v))
  convert_float v ushort = some (v_ushort (fp.float_to ushort v))
  convert_float v int = some (v_int (fp.float_to int v))
  convert_float v uint = some (v_uint (fp.float_to uint v))
  convert_float v long = some (v_long (fp.float_to long v))
  convert_float v ulong = some (v_ulong (fp.float_to ulong v))
  convert_float v float = some (v_float v)
  convert_float v double = some (v_double (fp.widen v))
  convert_float v enum = some (v_enum (fp.float_to int v))
  convert_float v t = none

  -- `convertDouble`.
  unfoldable pub convert_double : D → OvalType → Option (Variant F D)
  convert_double v char = some (v_char (fp.double_to char v))
  convert_double v uchar = some (v_uchar (fp.double_to uchar v))
  convert_double v short = some (v_short (fp.double_to short v))
  convert_double v ushort = some (v_ushort (fp.double_to ushort v))
  convert_double v int = some (v_int (fp.double_to int v))
  convert_double v uint = some (v_uint (fp.double_to uint v))
  convert_double v long = some (v_long (fp.double_to long v))
  convert_double v ulong = some (v_ulong (fp.double_to ulong v))
  convert_double v float = some (v_float (fp.narrow v))
  convert_double v double = some (v_double v)
  convert_double v enum = some (v_enum (fp.double_to int v))
  convert_double v t = none
