-- ===== src/Convert/Casts.antt =====
-- The casts between the integer types, and the values that each type has.
use okscada.Prelude.{ℕ, ◌/◌, ◌<◌, ◌≡◌, Bool, true, false, arith}
use okscada.Prelude.Int.{ℤ, pos, negsuc}
use okscada.Convert.{
  OvalType, char, uchar, short, ushort, int, uint, long, ulong, enum, Variant, v_char, v_uchar,
  v_short, v_ushort, v_int, v_uint, v_long, v_ulong, v_enum, v_none, pattern, to_char, to_uchar,
  to_short, to_ushort, to_int, to_uint, to_long, to_ulong,
}

abbrev pub is_integer : OvalType → Bool
is_integer char = true
is_integer uchar = true
is_integer short = true
is_integer ushort = true
is_integer int = true
is_integer uint = true
is_integer long = true
is_integer ulong = true
is_integer enum = true
is_integer t = false

-- The cast to an integer type.
abbrev pub cast : OvalType → ℤ → ℤ
cast char v = to_char v
cast uchar v = to_uchar v
cast short v = to_short v
cast ushort v = to_ushort v
cast int v = to_int v
cast uint v = to_uint v
cast long v = to_long v
cast ulong v = to_ulong v
cast enum v = to_int v
cast t v = v

abbrev pub make : {F D : Type 0} → OvalType → ℤ → Variant F D
make char v = v_char v
make uchar v = v_uchar v
make short v = v_short v
make ushort v = v_ushort v
make int v = v_int v
make uint v = v_uint v
make long v = v_long v
make ulong v = v_ulong v
make enum v = v_enum v
make t v = v_none

-- A value of a signed or an unsigned type with `m` values.
abbrev pub IsSigned : ℕ → ℤ → Type 0
IsSigned m (pos n) = n < m / 2
IsSigned m (negsuc n) = n < m / 2

abbrev pub IsUnsigned : ℕ → ℤ → Type 0
IsUnsigned m (pos n) = n < m
IsUnsigned m (negsuc n) = ⊥

abbrev pub Fits : OvalType → ℤ → Type 0
Fits char v = IsSigned 256 v
Fits uchar v = IsUnsigned 256 v
Fits short v = IsSigned 65536 v
Fits ushort v = IsUnsigned 65536 v
Fits int v = IsSigned 4294967296 v
Fits uint v = IsUnsigned 4294967296 v
Fits long v = IsSigned 18446744073709551616 v
Fits ulong v = IsUnsigned 18446744073709551616 v
Fits enum v = IsSigned 4294967296 v
Fits t v = ⊥

pub to_char_self : (v : ℤ) → IsSigned 256 v → to_char v ≡ v
to_char_self (pos n) h = ground (arith, h)
to_char_self (negsuc n) h = ground (arith, h)

pub to_uchar_self : (v : ℤ) → IsUnsigned 256 v → to_uchar v ≡ v
to_uchar_self (pos n) h = ground (arith, h)
to_uchar_self (negsuc n) h = absurd h

pub to_short_self : (v : ℤ) → IsSigned 65536 v → to_short v ≡ v
to_short_self (pos n) h = ground (arith, h)
to_short_self (negsuc n) h = ground (arith, h)

pub to_ushort_self : (v : ℤ) → IsUnsigned 65536 v → to_ushort v ≡ v
to_ushort_self (pos n) h = ground (arith, h)
to_ushort_self (negsuc n) h = absurd h

pub to_int_self : (v : ℤ) → IsSigned 4294967296 v → to_int v ≡ v
to_int_self (pos n) h = ground (arith, h)
to_int_self (negsuc n) h = ground (arith, h)

pub to_uint_self : (v : ℤ) → IsUnsigned 4294967296 v → to_uint v ≡ v
to_uint_self (pos n) h = ground (arith, h)
to_uint_self (negsuc n) h = absurd h

pub to_long_self : (v : ℤ) → IsSigned 18446744073709551616 v → to_long v ≡ v
to_long_self (pos n) h = ground (arith, h)
to_long_self (negsuc n) h = ground (arith, h)

pub to_ulong_self : (v : ℤ) → IsUnsigned 18446744073709551616 v → to_ulong v ≡ v
to_ulong_self (pos n) h = ground (arith, h)
to_ulong_self (negsuc n) h = absurd h

-- A cast to a narrower word forgets a cast to a wider one.
pub char_of_uchar : (v : ℤ) → pattern 256 (to_uchar v) ≡ pattern 256 v
char_of_uchar (pos n) = omega arith
char_of_uchar (negsuc n) = omega arith

pub char_of_ushort : (v : ℤ) → pattern 256 (to_ushort v) ≡ pattern 256 v
char_of_ushort (pos n) = omega arith
char_of_ushort (negsuc n) = omega arith

pub char_of_uint : (v : ℤ) → pattern 256 (to_uint v) ≡ pattern 256 v
char_of_uint (pos n) = omega arith
char_of_uint (negsuc n) = omega arith

pub char_of_ulong : (v : ℤ) → pattern 256 (to_ulong v) ≡ pattern 256 v
char_of_ulong (pos n) = omega arith
char_of_ulong (negsuc n) = omega arith

pub short_of_ushort : (v : ℤ) → pattern 65536 (to_ushort v) ≡ pattern 65536 v
short_of_ushort (pos n) = omega arith
short_of_ushort (negsuc n) = omega arith

pub short_of_uint : (v : ℤ) → pattern 65536 (to_uint v) ≡ pattern 65536 v
short_of_uint (pos n) = omega arith
short_of_uint (negsuc n) = omega arith

pub short_of_ulong : (v : ℤ) → pattern 65536 (to_ulong v) ≡ pattern 65536 v
short_of_ulong (pos n) = omega arith
short_of_ulong (negsuc n) = omega arith

pub int_of_uint : (v : ℤ) → pattern 4294967296 (to_uint v) ≡ pattern 4294967296 v
int_of_uint (pos n) = omega arith
int_of_uint (negsuc n) = omega arith

pub int_of_ulong : (v : ℤ) → pattern 4294967296 (to_ulong v) ≡ pattern 4294967296 v
int_of_ulong (pos n) = omega arith
int_of_ulong (negsuc n) = omega arith
