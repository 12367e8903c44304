-- ===== src/Convert/Reference.antt =====
-- The tables of conversions between integers against one rule: the cast to the destination's type.
use okscada.Prelude.{◌≡◌, refl, sym, ap, ◌∙◌, true, some}
use okscada.Prelude.Int.{ℤ, pos}
use okscada.Convert.{
  OvalType, char, uchar, short, ushort, int, uint, long, ulong, enum, v_char, v_uchar, v_short,
  v_ushort, v_int, v_uint, v_long, v_ulong, v_enum, Floats, signed, convert_signed_char,
  convert_unsigned_char, convert_signed_short, convert_unsigned_short, convert_signed_int,
  convert_unsigned_int, convert_signed_long, convert_unsigned_long, convert_enum,
}
use okscada.Convert.Value.{convert_scalar, Formats}
use okscada.Convert.Casts.{
  is_integer, cast, make, Fits, to_char_self, to_uchar_self, to_short_self, to_ushort_self,
  to_int_self, to_uint_self, to_long_self, to_ulong_self, char_of_uchar, char_of_ushort,
  char_of_uint, char_of_ulong, short_of_ushort, short_of_uint, short_of_ulong, int_of_uint,
  int_of_ulong,
}

module _ {F D : Type 0} (fp : Floats F D) (fmt : Formats F D) where
  convert_signed_char-cast :
      (v : ℤ) (t : OvalType)
      → Fits char v
      → is_integer t ≡ true
      → convert_signed_char fp v t ≡ some (make t (cast t v))
  unfolding convert_signed_char
  convert_signed_char-cast v char h e = ap (λ x. some (v_char x)) (sym (to_char_self v h))
  convert_signed_char-cast v uchar h e = refl
  convert_signed_char-cast v short h e = refl
  convert_signed_char-cast v ushort h e = refl
  convert_signed_char-cast v int h e = refl
  convert_signed_char-cast v uint h e = refl
  convert_signed_char-cast v long h e = refl
  convert_signed_char-cast v ulong h e = refl
  convert_signed_char-cast v enum h e = refl
  convert_signed_char-cast v t h e = cc

  convert_unsigned_char-cast :
      (v : ℤ) (t : OvalType)
      → Fits uchar v
      → is_integer t ≡ true
      → convert_unsigned_char fp v t ≡ some (make t (cast t v))
  unfolding convert_unsigned_char
  convert_unsigned_char-cast v char h e = refl
  convert_unsigned_char-cast v uchar h e = ap (λ x. some (v_uchar x)) (sym (to_uchar_self v h))
  convert_unsigned_char-cast v short h e = refl
  convert_unsigned_char-cast v ushort h e = refl
  convert_unsigned_char-cast v int h e = refl
  convert_unsigned_char-cast v uint h e = refl
  convert_unsigned_char-cast v long h e = refl
  convert_unsigned_char-cast v ulong h e = refl
  convert_unsigned_char-cast v enum h e = refl
  convert_unsigned_char-cast v t h e = cc

  convert_signed_short-cast :
      (v : ℤ) (t : OvalType)
      → Fits short v
      → is_integer t ≡ true
      → convert_signed_short fp v t ≡ some (make t (cast t v))
  unfolding convert_signed_short
  convert_signed_short-cast v char h e = refl
  convert_signed_short-cast v uchar h e = ap (λ x. some (v_uchar (pos x))) (char_of_ushort v)
  convert_signed_short-cast v short h e = ap (λ x. some (v_short x)) (sym (to_short_self v h))
  convert_signed_short-cast v ushort h e = refl
  convert_signed_short-cast v int h e = refl
  convert_signed_short-cast v uint h e = refl
  convert_signed_short-cast v long h e = refl
  convert_signed_short-cast v ulong h e = refl
  convert_signed_short-cast v enum h e = refl
  convert_signed_short-cast v t h e = cc

  convert_unsigned_short-cast :
      (v : ℤ) (t : OvalType)
      → Fits ushort v
      → is_integer t ≡ true
      → convert_unsigned_short fp v t ≡ some (make t (cast t v))
  unfolding convert_unsigned_short
  convert_unsigned_short-cast v char h e = ap (λ x. some (v_char (signed 256 x))) (char_of_uchar v)
  convert_unsigned_short-cast v uchar h e = refl
  convert_unsigned_short-cast v short h e = refl
  convert_unsigned_short-cast v ushort h e = ap (λ x. some (v_ushort x)) (sym (to_ushort_self v h))
  convert_unsigned_short-cast v int h e = refl
  convert_unsigned_short-cast v uint h e = refl
  convert_unsigned_short-cast v long h e = refl
  convert_unsigned_short-cast v ulong h e = refl
  convert_unsigned_short-cast v enum h e = refl
  convert_unsigned_short-cast v t h e = cc

  convert_signed_int-cast :
      (v : ℤ) (t : OvalType)
      → Fits int v
      → is_integer t ≡ true
      → convert_signed_int fp v t ≡ some (make t (cast t v))
  unfolding convert_signed_int
  convert_signed_int-cast v char h e = refl
  convert_signed_int-cast v uchar h e = ap (λ x. some (v_uchar (pos x))) (char_of_uint v)
  convert_signed_int-cast v short h e = refl
  convert_signed_int-cast v ushort h e = ap (λ x. some (v_ushort (pos x))) (short_of_uint v)
  convert_signed_int-cast v int h e = ap (λ x. some (v_int x)) (sym (to_int_self v h))
  convert_signed_int-cast v uint h e = refl
  convert_signed_int-cast v long h e = refl
  convert_signed_int-cast v ulong h e = refl
  convert_signed_int-cast v enum h e = ap (λ x. some (v_enum x)) (sym (to_int_self v h))
  convert_signed_int-cast v t h e = cc

  convert_unsigned_int-cast :
      (v : ℤ) (t : OvalType)
      → Fits uint v
      → is_integer t ≡ true
      → convert_unsigned_int fp v t ≡ some (make t (cast t v))
  unfolding convert_unsigned_int
  convert_unsigned_int-cast v char h e = ap (λ x. some (v_char (signed 256 x))) (char_of_uchar v)
  convert_unsigned_int-cast v uchar h e = refl
  convert_unsigned_int-cast v short h e =
      ap (λ x. some (v_short (signed 65536 x))) (short_of_ushort v)
  convert_unsigned_int-cast v ushort h e = refl
  convert_unsigned_int-cast v int h e = refl
  convert_unsigned_int-cast v uint h e = ap (λ x. some (v_uint x)) (sym (to_uint_self v h))
  convert_unsigned_int-cast v long h e = refl
  convert_unsigned_int-cast v ulong h e = refl
  convert_unsigned_int-cast v enum h e = refl
  convert_unsigned_int-cast v t h e = cc

  convert_signed_long-cast :
      (v : ℤ) (t : OvalType)
      → Fits long v
      → is_integer t ≡ true
      → convert_signed_long fp v t ≡ some (make t (cast t v))
  unfolding convert_signed_long
  convert_signed_long-cast v char h e = refl
  convert_signed_long-cast v uchar h e = ap (λ x. some (v_uchar (pos x))) (char_of_ulong v)
  convert_signed_long-cast v short h e = refl
  convert_signed_long-cast v ushort h e = ap (λ x. some (v_ushort (pos x))) (short_of_ulong v)
  convert_signed_long-cast v int h e = refl
  convert_signed_long-cast v uint h e = ap (λ x. some (v_uint (pos x))) (int_of_ulong v)
  convert_signed_long-cast v long h e = ap (λ x. some (v_long x)) (sym (to_long_self v h))
  convert_signed_long-cast v ulong h e = refl
  convert_signed_long-cast v enum h e = refl
  convert_signed_long-cast v t h e = cc

  convert_unsigned_long-cast :
      (v : ℤ) (t : OvalType)
      → Fits ulong v
      → is_integer t ≡ true
      → convert_unsigned_long fp v t ≡ some (make t (cast t v))
  unfolding convert_unsigned_long
  convert_unsigned_long-cast v char h e = ap (λ x. some (v_char (signed 256 x))) (char_of_uchar v)
  convert_unsigned_long-cast v uchar h e = refl
  convert_unsigned_long-cast v short h e =
      ap (λ x. some (v_short (signed 65536 x))) (short_of_ushort v)
  convert_unsigned_long-cast v ushort h e = refl
  convert_unsigned_long-cast v int h e =
      ap (λ x. some (v_int (signed 4294967296 x))) (int_of_uint v)
  convert_unsigned_long-cast v uint h e = refl
  convert_unsigned_long-cast v long h e = refl
  convert_unsigned_long-cast v ulong h e = ap (λ x. some (v_ulong x)) (sym (to_ulong_self v h))
  convert_unsigned_long-cast v enum h e = refl
  convert_unsigned_long-cast v t h e = cc

  convert_enum-cast :
      (v : ℤ) (t : OvalType)
      → Fits enum v
      → is_integer t ≡ true
      → convert_enum fp v t ≡ some (make t (cast t v))
  unfolding convert_enum
  convert_enum-cast v char h e = refl
  convert_enum-cast v uchar h e = ap (λ x. some (v_uchar (pos x))) (char_of_uint v)
  convert_enum-cast v short h e = refl
  convert_enum-cast v ushort h e = ap (λ x. some (v_ushort (pos x))) (short_of_uint v)
  convert_enum-cast v int h e = ap (λ x. some (v_int x)) (sym (to_int_self v h))
  convert_enum-cast v uint h e = refl
  convert_enum-cast v long h e = refl
  convert_enum-cast v ulong h e = refl
  convert_enum-cast v enum h e = ap (λ x. some (v_enum x)) (sym (to_int_self v h))
  convert_enum-cast v t h e = cc

  -- A value that an integer type other than long long and unsigned long long has, converted from that type to any such
  -- type, is the value that a cast gives, also where it does not fit.
  pub convert_scalar-cast :
      (s t : OvalType) (v : ℤ)
      → Fits s v
      → is_integer t ≡ true
      → convert_scalar fp fmt s (make s v) t ≡ some (make t (cast t v))
  unfolding convert_scalar
  convert_scalar-cast char t v h e = convert_signed_char-cast v t h e
  convert_scalar-cast uchar t v h e = convert_unsigned_char-cast v t h e
  convert_scalar-cast short t v h e = convert_signed_short-cast v t h e
  convert_scalar-cast ushort t v h e = convert_unsigned_short-cast v t h e
  convert_scalar-cast int t v h e = convert_signed_int-cast v t h e
  convert_scalar-cast uint t v h e = convert_unsigned_int-cast v t h e
  convert_scalar-cast long t v h e = convert_signed_long-cast v t h e
  convert_scalar-cast ulong t v h e = convert_unsigned_long-cast v t h e
  convert_scalar-cast enum t v h e = convert_enum-cast v t h e
  convert_scalar-cast s t v h e = absurd h

cast_self : (t : OvalType) (v : ℤ) → Fits t v → cast t v ≡ v
cast_self char v h = to_char_self v h
cast_self uchar v h = to_uchar_self v h
cast_self short v h = to_short_self v h
cast_self ushort v h = to_ushort_self v h
cast_self int v h = to_int_self v h
cast_self uint v h = to_uint_self v h
cast_self long v h = to_long_self v h
cast_self ulong v h = to_ulong_self v h
cast_self enum v h = to_int_self v h
cast_self t v h = absurd h

Fits-integer : (t : OvalType) (v : ℤ) → Fits t v → is_integer t ≡ true
Fits-integer char v h = refl
Fits-integer uchar v h = refl
Fits-integer short v h = refl
Fits-integer ushort v h = refl
Fits-integer int v h = refl
Fits-integer uint v h = refl
Fits-integer long v h = refl
Fits-integer ulong v h = refl
Fits-integer enum v h = refl
Fits-integer t v h = absurd h

-- A value that both of two integer types have is kept by the conversion from the one to the other, and by the
-- conversion back.
pub convert_scalar-roundtrip :
    {F D : Type 0} (fp : Floats F D) (fmt : Formats F D) (s t : OvalType) (v : ℤ)
    → Fits s v
    → Fits t v
    → (convert_scalar fp fmt s (make s v) t ≡ some (make t v))
      × (convert_scalar fp fmt t (make t v) s ≡ some (make s v))
convert_scalar-roundtrip fp fmt s t v h k = (
  convert_scalar-cast fp fmt s t v h (Fits-integer t v k)
      ∙ ap (λ x. some (make t x)) (cast_self t v k),
  convert_scalar-cast fp fmt t s v k (Fits-integer s v h)
      ∙ ap (λ x. some (make s x)) (cast_self s v h),
)
