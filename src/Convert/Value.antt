-- ===== src/Convert/Value.antt =====
-- watch/watch-convert.c: `owatchConvertValue` and `owatchCopyValue`. No pointer to a value is null.
-- A buffer is the list of its bytes, and `none` is a null pointer; its length argument is the length of the list.
use okscada.Prelude.{
  ℕ, zero, suc, Bool, true, false, ◌&&◌, List, [], ◌∷◌, ◌++◌, Option, none, some, length, ltb, leb,
  if◌then◌else◌, take, drop, set,
}
use okscada.Prelude.Int.{ℤ, pos, negsuc}
use okscada.Convert.{
  OvalType, char, uchar, short, ushort, int, uint, long, ulong, quad, uquad, float, double,
  long_double, ptr, void, str, enum, other, Variant, v_char, v_uchar, v_short, v_ushort, v_int,
  v_uint, v_long, v_ulong, v_enum, v_float, v_double, v_str, v_none, Floats, convert_signed_char,
  convert_unsigned_char, convert_signed_short, convert_unsigned_short, convert_signed_int,
  convert_unsigned_int, convert_signed_long, convert_unsigned_long, convert_enum, convert_float,
  convert_double,
}

-- `oval_t`. The union is read by the member that was written; `v_str` stands for the bytes from the pointer on.
pub record Oval (F D : Type 0) : Type 0 where
  pub type : OvalType
  pub undef : Bool
  pub len : ℤ
  pub time : ℕ
  pub v : Variant F D

-- What `sscanf` reads of a string, and what `sprintf` writes for a value.
pub record Formats (F D : Type 0) : Type 0 where
  pub scan_int : List ℕ → Option ℤ
  pub scan_uint : List ℕ → Option ℤ
  pub scan_short : List ℕ → Option ℤ
  pub scan_ushort : List ℕ → Option ℤ
  pub scan_long : List ℕ → Option ℤ
  pub scan_ulong : List ℕ → Option ℤ
  pub scan_float : List ℕ → Option F
  pub scan_double : List ℕ → Option D
  pub print : OvalType → Variant F D → List ℕ

-- `i < -128 || i > 127`, and `u > 255`.
abbrev pub is_char : ℤ → Bool
is_char (pos n) = leb n 127
is_char (negsuc n) = leb n 127

abbrev pub is_uchar : ℤ → Bool
is_uchar (pos n) = leb n 255
is_uchar (negsuc n) = false

-- The length of the type, in the last switch of `owatchConvertValue`.
abbrev pub type_length : OvalType → Option ℤ
type_length char = some (pos 1)
type_length uchar = some (pos 1)
type_length short = some (pos 2)
type_length ushort = some (pos 2)
type_length int = some (pos 4)
type_length uint = some (pos 4)
type_length long = some (pos 4)
type_length ulong = some (pos 4)
type_length quad = some (pos 16)
type_length uquad = some (pos 16)
type_length float = some (pos 4)
type_length double = some (pos 8)
type_length long_double = some (pos 16)
type_length ptr = some (pos 4)
type_length enum = some (pos 4)
type_length t = none

abbrev pub is_str : OvalType → Bool
is_str str = true
is_str t = false

-- `*buf = 0` where there is a buffer.
abbrev pub first_zero : Option (List ℕ) → Option (List ℕ)
first_zero none = none
first_zero (some b) = some (set b 0 0)

-- The first `n` bytes, and a 0 behind them if there is room.
abbrev pub put_bytes : ℕ → List ℕ → List ℕ → List ℕ
put_bytes n s buf = take n s ++ set (drop n buf) 0 0

abbrev pub is_printed : OvalType → Bool
is_printed quad = false
is_printed uquad = false
is_printed long_double = false
is_printed ptr = false
is_printed void = false
is_printed str = false
is_printed other = false
is_printed t = true

module _ {F D : Type 0} where
  -- `owatchGetValueLength`.
  unfoldable pub get_value_length : Oval F D → ℤ
  get_value_length p = elim p.type [
    | char ↦ pos 1
    | uchar ↦ pos 1
    | short ↦ pos 2
    | ushort ↦ pos 2
    | quad ↦ pos 8
    | uquad ↦ pos 8
    | double ↦ pos 8
    | long_double ↦ pos 16
    | void ↦ pos 0
    | str ↦ p.len
    | other ↦ pos 0
    | _ ↦ pos 4
  ]

  -- A string of `src_len` bytes to a destination of type 's'.
  abbrev pub str_bytes :
      Oval F D → Oval F D → ℤ → List ℕ → Option (List ℕ) → (Oval F D × Option (List ℕ)) × Bool
  str_bytes src dst (negsuc n) s buf = ((dst, buf), false)
  str_bytes src dst (pos zero) s buf = (
    (record dst { v = v_str (first_zero buf); len = pos 0; time = src.time }, first_zero buf),
    true,
  )
  str_bytes src dst (pos (suc n)) s none = ((dst, none), false)
  str_bytes src dst (pos (suc n)) s (some b) =
      if ltb (length b) (suc n)
      then ((dst, some b), false)
      else (let b' = put_bytes (suc n) s b in
          ((record dst { v = v_str (some b'); len = pos (suc n); time = src.time }, some b'), true))

  abbrev pub str_to_str :
      Oval F D → Oval F D → Variant F D → Option (List ℕ) → (Oval F D × Option (List ℕ)) × Bool
  str_to_str src dst (v_str none) buf =
      ((record dst { v = v_str none; len = pos 0; time = src.time }, first_zero buf), true)
  str_to_str src dst (v_str (some s)) buf = str_bytes src dst src.len s buf
  str_to_str src dst v buf = ((dst, buf), false)

  abbrev pub with_length :
      Oval F D
      → Oval F D
      → Variant F D
      → Option (List ℕ)
      → Option ℤ
      → (Oval F D × Option (List ℕ)) × Bool
  with_length src dst v buf none = ((record dst { v = v }, buf), false)
  with_length src dst v buf (some l) = ((record dst { v = v; len = l; time = src.time }, buf), true)

  abbrev pub to_scalar :
      Oval F D
      → Oval F D
      → Option (List ℕ)
      → Option (Variant F D)
      → (Oval F D × Option (List ℕ)) × Bool
  to_scalar src dst buf none = ((dst, buf), false)
  to_scalar src dst buf (some v) = with_length src dst v buf (type_length dst.type)

  abbrev pub to_text :
      Oval F D
      → Oval F D
      → Option (List ℕ)
      → Option (List ℕ × ℕ)
      → (Oval F D × Option (List ℕ)) × Bool
  to_text src dst buf none = ((dst, buf), false)
  to_text src dst buf (some (b, n)) =
      ((record dst { v = v_str (some b); len = pos n; time = src.time }, some b), true)

  module _ (fp : Floats F D) (fmt : Formats F D) where
    abbrev pub checked : (ℤ → Bool) → (ℤ → Variant F D) → Option ℤ → Option (Variant F D)
    checked p g none = none
    checked p g (some i) = if p i then some (g i) else none

    abbrev pub scanned : {A : Type 0} → (A → Variant F D) → Option A → Option (Variant F D)
    scanned g none = none
    scanned g (some i) = some (g i)

    -- `convertFromString`.
    unfoldable pub convert_from_string : List ℕ → OvalType → Option (Variant F D)
    convert_from_string s char = checked is_char (λ i. v_char i) (fmt.scan_int s)
    convert_from_string s uchar = checked is_uchar (λ i. v_uchar i) (fmt.scan_uint s)
    convert_from_string s short = scanned (λ i. v_short i) (fmt.scan_short s)
    convert_from_string s ushort = scanned (λ i. v_ushort i) (fmt.scan_ushort s)
    convert_from_string s int = scanned (λ i. v_int i) (fmt.scan_int s)
    convert_from_string s uint = scanned (λ i. v_uint i) (fmt.scan_uint s)
    convert_from_string s long = scanned (λ i. v_long i) (fmt.scan_long s)
    convert_from_string s ulong = scanned (λ i. v_ulong i) (fmt.scan_ulong s)
    convert_from_string s float = scanned (λ i. v_float i) (fmt.scan_float s)
    convert_from_string s double = scanned (λ i. v_double i) (fmt.scan_double s)
    convert_from_string s enum = scanned (λ i. v_enum i) (fmt.scan_int s)
    convert_from_string s t = none

    -- `convertToString`: the new buffer and the length with the 0, or an error.
    unfoldable pub convert_to_string :
        OvalType → Variant F D → Option (List ℕ) → Option (List ℕ × ℕ)
    convert_to_string t v none = none
    convert_to_string t v (some []) = none
    convert_to_string t v (some (c ∷ b)) =
        let tmp = fmt.print t v in
        let n = suc (length tmp) in
        if is_printed t && leb n (length (c ∷ b)) then some (tmp ++ 0 ∷ drop n (c ∷ b), n) else none

    -- The switch over the type of the source.
    unfoldable pub convert_scalar : OvalType → Variant F D → OvalType → Option (Variant F D)
    convert_scalar char (v_char v) t = convert_signed_char fp v t
    convert_scalar uchar (v_uchar v) t = convert_unsigned_char fp v t
    convert_scalar short (v_short v) t = convert_signed_short fp v t
    convert_scalar ushort (v_ushort v) t = convert_unsigned_short fp v t
    convert_scalar int (v_int v) t = convert_signed_int fp v t
    convert_scalar uint (v_uint v) t = convert_unsigned_int fp v t
    convert_scalar long (v_long v) t = convert_signed_long fp v t
    convert_scalar ulong (v_ulong v) t = convert_unsigned_long fp v t
    convert_scalar float (v_float v) t = convert_float fp v t
    convert_scalar double (v_double v) t = convert_double fp v t
    convert_scalar enum (v_enum v) t = convert_enum fp v t
    convert_scalar str (v_str (some s)) t = convert_from_string s t
    convert_scalar s v t = none

    -- `owatchConvertValue`: the destination, the buffer, and whether the result is OK.
    unfoldable pub convert_value :
        Oval F D → Oval F D → Option (List ℕ) → (Oval F D × Option (List ℕ)) × Bool
    convert_value src dst buf =
        if is_str dst.type
        then (if is_str src.type
            then str_to_str src dst src.v buf
            else to_text src dst buf (convert_to_string src.type src.v buf))
        else to_scalar src dst buf (convert_scalar src.type src.v dst.type)

  -- The string of `owatchCopyValue`: what the pointer of the destination becomes, the buffer, and OK.
  abbrev pub copied_bytes :
      ℕ → Oval F D → Variant F D → Option (List ℕ) → (Variant F D × Option (List ℕ)) × Bool
  copied_bytes zero dst v buf = ((v_str (first_zero buf), first_zero buf), true)
  copied_bytes (suc n) dst (v_str (some s)) none = ((dst.v, none), false)
  copied_bytes (suc n) dst (v_str (some s)) (some b) =
      if ltb (length b) (suc n)
      then ((dst.v, some (take (length b) s)), false)
      else (let b' = put_bytes (suc n) s b in ((v_str (some b'), some b'), true))
  copied_bytes (suc n) dst v buf = ((dst.v, buf), false)

  abbrev pub copied_str :
      ℕ → Oval F D → Oval F D → Option (List ℕ) → (Oval F D × Option (List ℕ)) × Bool
  copied_str n src dst buf =
      let ((v, b), good) =
        if src.undef then ((v_none, buf), true) else copied_bytes n dst src.v buf in
      ((record src { v = v }, b), good)

  abbrev pub copied :
      ℤ → Oval F D → Oval F D → Option (List ℕ) → (Oval F D × Option (List ℕ)) × Bool
  copied (negsuc n) src dst buf = ((dst, buf), false)
  copied (pos n) src dst buf =
      if is_str src.type
      then copied_str n src dst buf
      else if ltb 8 n
      then ((dst, buf), false)
      else ((src, buf), true)

  -- `owatchCopyValue`. An `ovariant_t` has 8 bytes on this machine.
  unfoldable pub copy_value :
      Oval F D → Oval F D → Option (List ℕ) → (Oval F D × Option (List ℕ)) × Bool
  copy_value src dst buf = copied src.len src dst buf
