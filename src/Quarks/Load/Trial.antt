-- ===== src/Quarks/Load/Trial.antt =====
-- Runs of the loading of a table on a small file.
use okscada.Prelude.{
  ℕ, ◌≡◌, refl, true, List, [], ◌∷◌, Option, none, some, length, ◌==◌, if◌then◌else◌, replicate,
}
use okscada.Tree.{new_tree}
use okscada.Tree.Text.Refine.{tree_find_refines, fresh-IsText, fresh-text_lookup}
use okscada.Trim.{ohub_trim, skip_blanks, cut_blanks}
use okscada.Quarks.{Record, Module}
use okscada.Quarks.Load.{
  zero_record, emptied, add_global, add_record, load_line, load_lines, load_module_quarks,
}
use okscada.Quarks.Load.Inv.{Inv}
use okscada.Tests.{compare_bytes}

-- The path is the first byte of the line, and the global name "g".
abbrev scan_line : List ℕ → Option (Record × List ℕ × List ℕ)
scan_line [] = none
scan_line (b ∷ s) = if b == 0 then none else some (zero_record, b ∷ [], 103 ∷ [])

abbrev blank : Module
blank = record {
  ikey = 0;
  subject_name = 115 ∷ [];
  nick_name = 109 ∷ [];
  unit_no = 0;
  records = [];
  glob_heap = [];
  path_heap = [];
  quarks_byname = new_tree 0;
  globals_byname = new_tree 0;
  segment_addr = replicate 96 4096;
}

abbrev one_line : List (List ℕ)
one_line = (97 ∷ []) ∷ []

abbrev loaded : Module
loaded = (load_module_quarks compare_bytes true true scan_line blank (some one_line)).0

first_record :
    length
      (add_record compare_bytes true true scan_line
        (emptied compare_bytes true true scan_line blank (new_tree 0))
        zero_record
        (97 ∷ [])
        (103 ∷ [])).records
    ≡ 1
unfolding add_record add_global
first_record =
    let a = (tree_find_refines compare_bytes (new_tree 0) (97 ∷ []) [] fresh-IsText).1 in
    let g = (tree_find_refines compare_bytes (new_tree 0) (103 ∷ []) [] fresh-IsText).1 in
    let no_a = fresh-text_lookup compare_bytes (97 ∷ []) in
    let no_g = fresh-text_lookup compare_bytes (103 ∷ []) in
    rw (a, no_a, add_record, g, no_g, add_global) refl

one_record : length loaded.records ≡ 1
unfolding load_module_quarks load_lines load_line ohub_trim skip_blanks cut_blanks
one_record = first_record
