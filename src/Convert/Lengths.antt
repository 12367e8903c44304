-- ===== src/Convert/Lengths.antt =====
-- The results of `owatchConvertValue`: lengths, and what an error leaves.
use okscada.Prelude.{
  ℕ, zero, suc, ◌≡◌, refl, Bool, true, false, List, Option, none, some, length, ltb, Bool-cases,
  inl, inr,
}
use okscada.Prelude.Int.{ℤ, pos, negsuc}
use okscada.Convert.{
  str, OvalType, char, uchar, short, ushort, int, uint, long, ulong, float, double, enum, Variant,
  v_str, Floats,
}
use okscada.Convert.Value.{
  Oval, Formats, is_str, type_length, get_value_length, convert_to_string, convert_scalar,
  convert_value, to_scalar, with_length, to_text, str_to_str, str_bytes,
}
use okscada.Convert.Refused.{is_target, convert_scalar-none}

module _ {F D : Type 0} where
  -- What a conversion to another type than 's' makes of the destination.
  pub record IsConverted (src dst d : Oval F D) : Type 0 where
    pub same_type : d.type ≡ dst.type
    pub length_of_type : d.len ≡ get_value_length d
    pub same_time : d.time ≡ src.time

  with_length-IsConverted :
      (src : Oval F D) (t : OvalType) (u : Bool) (l : ℤ) (c : ℕ) (w v : Variant F D)
      (buf : Option (List ℕ))
      → is_target t ≡ true
      → let dst : Oval F D = record { type = t; undef = u; len = l; time = c; v = w } in
        ((with_length src dst v buf (type_length t)).1 ≡ true)
        × IsConverted src dst (with_length src dst v buf (type_length t)).0.0
  unfolding get_value_length
  with_length-IsConverted src char u l c w v buf e =
      (refl, record { same_type = refl; length_of_type = refl; same_time = refl })
  with_length-IsConverted src uchar u l c w v buf e =
      (refl, record { same_type = refl; length_of_type = refl; same_time = refl })
  with_length-IsConverted src short u l c w v buf e =
      (refl, record { same_type = refl; length_of_type = refl; same_time = refl })
  with_length-IsConverted src ushort u l c w v buf e =
      (refl, record { same_type = refl; length_of_type = refl; same_time = refl })
  with_length-IsConverted src int u l c w v buf e =
      (refl, record { same_type = refl; length_of_type = refl; same_time = refl })
  with_length-IsConverted src uint u l c w v buf e =
      (refl, record { same_type = refl; length_of_type = refl; same_time = refl })
  with_length-IsConverted src long u l c w v buf e =
      (refl, record { same_type = refl; length_of_type = refl; same_time = refl })
  with_length-IsConverted src ulong u l c w v buf e =
      (refl, record { same_type = refl; length_of_type = refl; same_time = refl })
  with_length-IsConverted src float u l c w v buf e =
      (refl, record { same_type = refl; length_of_type = refl; same_time = refl })
  with_length-IsConverted src double u l c w v buf e =
      (refl, record { same_type = refl; length_of_type = refl; same_time = refl })
  with_length-IsConverted src enum u l c w v buf e =
      (refl, record { same_type = refl; length_of_type = refl; same_time = refl })
  with_length-IsConverted src t u l c w v buf e = cc

  to_scalar-IsConverted :
      (src dst : Oval F D) (buf : Option (List ℕ)) (o : Option (Variant F D))
      → (is_target dst.type ≡ false → o ≡ none)
      → (to_scalar src dst buf o).1 ≡ true
      → IsConverted src dst (to_scalar src dst buf o).0.0
  to_scalar-IsConverted src dst buf none h e = cc
  to_scalar-IsConverted src dst buf (some v) h e = elim (Bool-cases (is_target dst.type)) [
    | inl f ↦ (with_length-IsConverted src dst.type dst.undef dst.len dst.time dst.v v buf f).1
    | inr f ↦ cc (h f)
  ]

  to_scalar-error :
      (src dst : Oval F D) (buf : Option (List ℕ)) (o : Option (Variant F D))
      → (is_target dst.type ≡ false → o ≡ none)
      → (to_scalar src dst buf o).1 ≡ false
      → (to_scalar src dst buf o).0 ≡ (dst, buf)
  to_scalar-error src dst buf none h e = refl
  to_scalar-error src dst buf (some v) h e = elim (Bool-cases (is_target dst.type)) [
    | inl f ↦ cc (with_length-IsConverted src dst.type dst.undef dst.len dst.time dst.v v buf f).0
    | inr f ↦ cc (h f)
  ]

  -- A refused conversion leaves the destination and the buffer as they were.
  abbrev pub Outcome :
      Oval F D → Oval F D → Option (List ℕ) → (Oval F D × Option (List ℕ)) × Bool → Type 0
  Outcome src dst buf (x, false) = x ≡ (dst, buf)
  Outcome src dst buf ((d, b), true) = IsConverted src dst d

  text-IsConverted :
      (src : Oval F D) (t : OvalType) (u : Bool) (l k : ℤ) (c : ℕ) (w v : Variant F D)
      → is_str t ≡ true
      → let dst : Oval F D = record { type = t; undef = u; len = l; time = c; v = w } in
        IsConverted src dst (record dst { v = v; len = k; time = src.time })
  unfolding get_value_length
  text-IsConverted src str u l k c w v e = record {
    same_type = refl;
    length_of_type = refl;
    same_time = refl;
  }
  text-IsConverted src t u l k c w v e = cc

  str_bytes-Outcome :
      (src dst : Oval F D) (l : ℤ) (s : List ℕ) (buf : Option (List ℕ))
      → is_str dst.type ≡ true
      → Outcome src dst buf (str_bytes src dst l s buf)
  str_bytes-Outcome src dst (negsuc n) s buf e = refl
  str_bytes-Outcome src dst (pos zero) s buf e =
      text-IsConverted src dst.type dst.undef dst.len _ dst.time dst.v _ e
  str_bytes-Outcome src dst (pos (suc n)) s none e = refl
  str_bytes-Outcome src dst (pos (suc n)) s (some b) e =
      elim (Bool-cases (ltb (length b) (suc n))) [
        | inl z ↦ rw z refl
        | inr z ↦ rw z (text-IsConverted src dst.type dst.undef dst.len _ dst.time dst.v _ e)
      ]

  str_to_str-Outcome :
      (src dst : Oval F D) (v : Variant F D) (buf : Option (List ℕ))
      → is_str dst.type ≡ true
      → Outcome src dst buf (str_to_str src dst v buf)
  str_to_str-Outcome src dst (v_str none) buf e =
      text-IsConverted src dst.type dst.undef dst.len _ dst.time dst.v _ e
  str_to_str-Outcome src dst (v_str (some s)) buf e = str_bytes-Outcome src dst src.len s buf e
  str_to_str-Outcome src dst v buf e = refl

  to_text-Outcome :
      (src dst : Oval F D) (buf : Option (List ℕ)) (o : Option (List ℕ × ℕ))
      → is_str dst.type ≡ true
      → Outcome src dst buf (to_text src dst buf o)
  to_text-Outcome src dst buf none e = refl
  to_text-Outcome src dst buf (some (b, n)) e =
      text-IsConverted src dst.type dst.undef dst.len _ dst.time dst.v _ e

  by_result :
      (src dst : Oval F D) (buf : Option (List ℕ)) (x : (Oval F D × Option (List ℕ)) × Bool)
      → (x.1 ≡ false → x.0 ≡ (dst, buf))
      → (x.1 ≡ true → IsConverted src dst x.0.0)
      → Outcome src dst buf x
  by_result src dst buf (x, false) f g = f refl
  by_result src dst buf ((d, b), true) f g = g refl

  module _ (fp : Floats F D) (fmt : Formats F D) where
    -- For any two values and any buffer: a conversion that is refused leaves the destination and the buffer as they
    -- were; one that succeeds keeps the destination's type, gives it the length that `owatchGetValueLength` has for it,
    -- and the source's time.
    pub convert_value-Outcome :
        (src dst : Oval F D) (buf : Option (List ℕ))
        → Outcome src dst buf (convert_value fp fmt src dst buf)
    unfolding convert_value
    convert_value-Outcome src dst buf = elim (Bool-cases (is_str dst.type)) [
      | inl f ↦ elim (Bool-cases (is_str src.type)) [
        | inl g ↦ rw (f, g) (str_to_str-Outcome src dst src.v buf f)
        | inr g ↦
            rw (f, g) (to_text-Outcome src dst buf (convert_to_string fp fmt src.type src.v buf) f)
      ]
      | inr f ↦
          let o = convert_scalar fp fmt src.type src.v dst.type in
          let none_else = convert_scalar-none fp fmt src.type src.v dst.type in
          rw f (
            by_result src dst buf (to_scalar src dst buf o)
              (to_scalar-error src dst buf o none_else)
              (to_scalar-IsConverted src dst buf o none_else))
    ]
