-- ===== src/Quarks/Load.antt =====
-- hub/hub-quarks.c: `ohubLoadModuleQuarks`, the table of a module's records.
-- The lines are those that `fgets` reads, of at most 255 bytes. The memory for the records and the heaps is found, or the
-- process ends (`ologAbort`).
pub mod Inv
pub mod Chains
pub mod Keeps
pub mod Found
pub mod Trial
use okscada.Prelude.{
  ℕ, zero, suc, Bool, true, false, ◌&&◌, ◌||◌, List, [], ◌∷◌, ◌++◌, Option, none, some, length,
  get_or, set, leb, ◌==◌, if◌then◌else◌,
}
use okscada.Prelude.CString.{StringCompare}
use okscada.Tree.{new_tree, Tree}
use okscada.Tree.Text.{tree_find, tree_add}
use okscada.Trim.{ohub_trim}
use okscada.Quarks.{Record, Module, four_zeros, seg_is_valid}

-- `oxvzero` of a record.
abbrev pub zero_record : Record
zero_record = record {
  ukey = 0;
  ikey = 0;
  adr = 0;
  off = 0;
  len = 0;
  ptr = 0;
  type_char = 0;
  seg = 0;
  spare1 = 0;
  obj_ikey = 0;
  bit_off = 0;
  bit_len = 0;
  dim = four_zeros;
  coef = four_zeros;
  glob_ikey = 0;
  glob_adr = 0;
  next_no = some 0;
  glob_off = 0;
  path_off = 0;
}

abbrev pub record_at : List Record → ℕ → Record
record_at recs k = get_or recs k zero_record

-- The last record of the chain that starts at `k`. The fuel is at least the number of the records.
pub last_of : ℕ → List Record → ℕ → ℕ
last_of zero recs k = k
last_of (suc fuel) recs k = elim (record_at recs k).next_no [
  | none ↦ k
  | some j ↦ last_of fuel recs j
]

abbrev pub set_next : List Record → ℕ → ℕ → List Record
set_next recs k j = set recs k (record (record_at recs k) { next_no = some j })

-- What the line says of the record, with what does not fit replaced.
abbrev pub clean : Module → Record → Record
clean m r =
    let bits_fit = leb r.bit_off 255 && leb r.bit_len 255 in
    record r {
      ukey = if m.unit_no == r.obj_ikey then m.unit_no else r.obj_ikey;
      seg = if seg_is_valid r.seg then r.seg else 63;
      bit_off = if bits_fit then r.bit_off else 0;
      bit_len = if bits_fit then r.bit_len else 0;
      ikey = length m.records;
      obj_ikey = m.ikey;
      glob_ikey = 0;
      next_no = none;
      path_off = length m.path_heap;
      glob_off = length m.glob_heap;
    }

-- The names at the ends of the heaps.
abbrev pub push_names : Module → List ℕ → List ℕ → Module
push_names m path glob_name = record m {
  path_heap = m.path_heap ++ (path ++ 0 ∷ []);
  glob_heap = m.glob_heap ++ (glob_name ++ 0 ∷ []);
}

-- The lines that are skipped: blank ones, and those that start with ';' or '#'.
abbrev pub is_comment : List ℕ → Bool
is_comment [] = true
is_comment (c ∷ s) = c == 59 || c == 35

-- `buf_mem` and `arr_mem` are the allocations of the trees; `scan` is `sscanf` with the format of a line: the record,
-- which was zeroed before, the path and the global name, where all 21 fields are read.
module _ (c : StringCompare) (buf_mem arr_mem : Bool)
    (scan : List ℕ → Option (Record × List ℕ × List ℕ)) where
  -- The record is put at the end of the chain of its global name, and of the array.
  pub add_global : Module → Record → List ℕ → Module
  add_global m r glob_name =
      let n = length m.records in
      let (t, v) = tree_find c m.globals_byname glob_name in
      elim v [
        | none ↦ record m {
          globals_byname = (tree_add c buf_mem arr_mem t glob_name n).0;
          records = m.records ++ r ∷ [];
        }
        | some k ↦ record m {
          globals_byname = t;
          records = set_next m.records (last_of n m.records k) n ++ r ∷ [];
        }
      ]

  -- The part behind the checks of the line. A path that the module has is not added again.
  pub add_record : Module → Record → List ℕ → List ℕ → Module
  add_record m r path glob_name =
      let (t, v) = tree_find c m.quarks_byname path in
      let m' = push_names m path glob_name in
      elim v [
        | some k ↦ record m' { quarks_byname = t }
        | none ↦
            add_global
              (record m' {
                quarks_byname = (tree_add c buf_mem arr_mem t path (length m.records)).0;
              })
              (clean m r) glob_name
      ]

  abbrev pub add_scanned : Module → Option (Record × List ℕ × List ℕ) → Module
  add_scanned m none = m
  add_scanned m (some (r, [], glob_name)) = m
  add_scanned m (some (r, a ∷ path, [])) = m
  add_scanned m (some (r, a ∷ path, b ∷ glob_name)) = add_record m r (a ∷ path) (b ∷ glob_name)

  pub load_line : Module → List ℕ → Module
  load_line m buf =
      let s = ohub_trim buf in let m' = add_scanned m (scan s) in if is_comment s then m else m'

  pub load_lines : Module → List (List ℕ) → Module
  load_lines m [] = m
  load_lines m (buf ∷ rest) = load_lines (load_line m buf) rest

  -- A tree that is not there answers as one that is marked bad.
  abbrev pub no_tree : Tree
  no_tree = record (new_tree 0) { bad = true }

  abbrev pub emptied : Module → Tree → Module
  emptied m t = record m {
    records = [];
    glob_heap = [];
    path_heap = [];
    quarks_byname = t;
    globals_byname = t;
  }

  -- `ohubLoadModuleQuarks`; `none` is a file that cannot be read.
  pub load_module_quarks : Module → Option (List (List ℕ)) → Module × Bool
  load_module_quarks m none = (emptied m no_tree, false)
  load_module_quarks m (some lines) = (load_lines (emptied m (new_tree 0)) lines, true)

  -- `ohubLoadDomainQuarks`: `enabled` tells of the agent of the module's subject, and `file` has the lines.
  pub load_domain_quarks :
      (Module → Bool) → (Module → Option (List (List ℕ))) → List Module → List Module × Bool
  load_domain_quarks enabled file [] = ([], true)
  load_domain_quarks enabled file (m ∷ ms) =
      let (ms', rc) = load_domain_quarks enabled file ms in
      let (m', good) = load_module_quarks m (file m) in
      if enabled m then (m' ∷ ms', good && rc) else (m ∷ ms', rc)
