-- ===== src/Quarks.antt =====
-- hub/hub-quarks.c: the records of the modules' variables, and the quark that a description leads to.
-- Numbers are bit patterns: 32 bits of an `int`, 64 of a `long`, 16 of a `short`; a product or a sum wraps around.
pub mod Address
pub mod Desc
pub mod Load
use okscada.Prelude.{
  ℕ, ◌+◌, ◌-◌, ◌*◌, ◌%◌, ◌^◌, Bool, true, false, ◌&&◌, ◌||◌, List, [], ◌∷◌, Option, none, some,
  get_elem?, get_or, map, ltb, leb, ◌==◌, if◌then◌else◌,
}
use okscada.Prelude.CString.{str_at}
use okscada.Ooid.{ulong_mod, int_mod}
use okscada.Tree.{Tree}

-- A `short` as an `int`.
abbrev pub of_short : ℕ → ℕ
of_short v = if ltb v (2 ^ 15) then v else int_mod - 2 ^ 16 + v

-- `OhubRecord_t`. The index of the next record of the same global name is `none` for -1.
pub record Record : Type 0 where
  pub ukey : ℕ
  pub ikey : ℕ
  pub adr : ℕ
  pub off : ℕ
  pub len : ℕ
  pub ptr : ℕ
  pub type_char : ℕ
  pub seg : ℕ
  pub spare1 : ℕ
  pub obj_ikey : ℕ
  pub bit_off : ℕ
  pub bit_len : ℕ
  pub dim : List ℕ
  pub coef : List ℕ
  pub glob_ikey : ℕ
  pub glob_adr : ℕ
  pub next_no : Option ℕ
  pub glob_off : ℕ
  pub path_off : ℕ

-- `OhubQuark_t`.
pub record Quark : Type 0 where
  pub ukey : ℕ
  pub ikey : ℕ
  pub adr : ℕ
  pub off : ℕ
  pub off0 : ℕ
  pub len : ℕ
  pub ptr : ℕ
  pub type_char : ℕ
  pub seg : ℕ
  pub spare1 : ℕ
  pub obj_ikey : ℕ
  pub bit_off : ℕ
  pub bit_len : ℕ
  pub dim : List ℕ
  pub coef : List ℕ
  pub glob_ikey : ℕ
  pub glob_adr : ℕ
  pub ind : List ℕ
  pub ooid : ℕ
  pub phys_addr : ℕ
  pub next_no : Option ℕ
  pub glob_name : List ℕ
  pub path : List ℕ

-- `OhubModule_t`, less the names of its files and its place in the domain; a module has 96 segment addresses.
pub record Module : Type 0 where
  pub ikey : ℕ
  pub subject_name : List ℕ
  pub nick_name : List ℕ
  pub unit_no : ℕ
  pub records : List Record
  pub glob_heap : List ℕ
  pub path_heap : List ℕ
  pub quarks_byname : Tree
  pub globals_byname : Tree
  pub segment_addr : List ℕ

abbrev pub four_zeros : List ℕ
four_zeros = 0 ∷ 0 ∷ 0 ∷ 0 ∷ []

-- `oxvzero` of a quark.
abbrev pub zero_quark : Quark
zero_quark = record {
  ukey = 0;
  ikey = 0;
  adr = 0;
  off = 0;
  off0 = 0;
  len = 0;
  ptr = 0;
  type_char = 0;
  seg = 0;
  spare1 = 0;
  obj_ikey = 0;
  bit_off = 0;
  bit_len = 0;
  dim = four_zeros;
  coef = four_zeros;
  glob_ikey = 0;
  glob_adr = 0;
  ind = four_zeros;
  ooid = 0;
  phys_addr = 0;
  next_no = some 0;
  glob_name = [];
  path = [];
}

-- `ohubRecordToQuark`, where the module of the record is `m`.
abbrev pub record_of_module : Module → Record → Quark
record_of_module m r = record {
  ukey = r.ukey;
  ikey = r.ikey;
  adr = r.adr;
  off = r.off;
  off0 = r.off;
  len = r.len;
  ptr = r.ptr;
  type_char = r.type_char;
  seg = r.seg;
  spare1 = r.spare1;
  obj_ikey = r.obj_ikey;
  bit_off = r.bit_off;
  bit_len = r.bit_len;
  dim = map of_short r.dim;
  coef = r.coef;
  glob_ikey = r.glob_ikey;
  glob_adr = r.glob_adr;
  ind = four_zeros;
  ooid = 0;
  phys_addr = 0;
  next_no = r.next_no;
  glob_name = str_at m.glob_heap r.glob_off;
  path = str_at m.path_heap r.path_off;
}

-- `ohubRecordToQuark`; `none` where the record names a module that the domain lacks, behind the array.
pub record_to_quark : List Module → Record → Option Quark
record_to_quark mods r = elim (get_elem? mods r.obj_ikey) [
  | none ↦ none
  | some m ↦ some (record_of_module m r)
]

-- -1 as a `long`.
abbrev pub minus_one : ℕ
minus_one = ulong_mod - 1

-- `SEG_IS_VALID`: a `char` is signed.
abbrev pub seg_is_valid : ℕ → Bool
seg_is_valid c = leb 32 c && ltb c 127

abbrev pub phys_in : ℕ → ℕ → ℕ
phys_in seg_addr adr = if seg_addr == minus_one then minus_one else (seg_addr + adr) % ulong_mod

-- The address that `ohubRefineQuarkAddress` computes.
pub phys_of : List Module → Quark → ℕ
phys_of mods q = elim (get_elem? mods q.obj_ikey) [
  | none ↦ minus_one
  | some m ↦
      if seg_is_valid q.seg then phys_in (get_or m.segment_addr (q.seg - 32) 0) q.adr else minus_one
]

-- `ohubRefineQuarkAddress`, and whether the address is new.
unfoldable pub refine_quark_address : List Module → Quark → Quark × Bool
refine_quark_address mods q =
    let a = phys_of mods q in
    if a == q.phys_addr then (q, false) else (record q { phys_addr = a }, true)

-- `ohubType2Len`, by the letters bB, hH, iIlL, qQ, f, d, D, p, E; 'v', 's' and all other letters have the length 0.
pub type_2_len : ℕ → ℕ
type_2_len t =
    if t == 98 || t == 66
    then 1
    else if t == 104 || t == 72
    then 2
    else if t == 113 || (t == 81 || t == 100)
    then 8
    else if t == 68
    then 16
    else if t == 105 || (t == 73 || (t == 108 || (t == 76 || (t == 102 || (t == 112 || t == 69)))))
    then 4
    else 0
