-- ===== src/Ooid.antt =====
-- hub/hub-ooid.c: the factory of object identifiers. `Inv` states what its two trees and its heap
-- of paths keep true of one another, and `Names` what a client gets.
-- An `ooid_t` is 64 bits wide, an `int` 32, and the low byte of a number comes first in memory. The
-- allocation of the path heap either succeeds or ends the process (`ologAbort`); `mem` gives the
-- three allocations of the trees.
pub mod Inv
pub mod Names
use okscada.Prelude.{
  ℕ, zero, suc, ◌+◌, ◌-◌, ◌*◌, ◌/◌, ◌%◌, ◌^◌, Bool, true, false, ◌&&◌, List, [], ◌∷◌, ◌++◌, Option,
  none, some, length, drop, ltb, ◌==◌, if◌then◌else◌,
}
use okscada.Prelude.CString.{str_at, StringCompare}
use okscada.Tree.{Tree, new_tree, numeric_fence, tree_num_find, tree_num_add}
use okscada.Tree.Text.{tree_find, tree_add}

abbrev pub ulong_mod : ℕ
ulong_mod = 2 ^ 64

abbrev pub int_mod : ℕ
int_mod = 2 ^ 32

-- `(int) ooid`, as a bit pattern.
abbrev pub to_int : ℕ → ℕ
to_int ooid = ooid % int_mod

-- `(ooid_t) val`: the sign is extended.
abbrev pub of_int : ℕ → ℕ
of_int v = if ltb v (2 ^ 31) then v else ulong_mod - int_mod + v

-- The globals `ohub_ooid_seq`, `ohub_by_path_hash`, `ohub_by_ooid_hash`, `ohub_path_heap_buf` up to
-- `ohub_path_heap_off`, and `ohub_path_heap_size`.
pub record Factory : Type 0 where
  pub seq : ℕ
  pub by_path : Tree
  pub by_ooid : Tree
  pub heap : List ℕ
  pub heap_size : ℕ

pub record Memory : Type 0 where
  pub path_buf : Bool
  pub path_arr : Bool
  pub ooid_arr : Bool

-- The four bytes that `memcpy (str + len, &ooid, 4)` copies.
abbrev pub ooid_bytes : ℕ → List ℕ
ooid_bytes o = (o % 256) ∷ (o / 2 ^ 8 % 256) ∷ (o / 2 ^ 16 % 256) ∷ (o / 2 ^ 24 % 256) ∷ []

-- `ohubInitOoidFactory` before it loads a file.
abbrev pub init_factory : Factory
init_factory = record {
  seq = 0;
  by_path = new_tree 0;
  by_ooid = new_tree numeric_fence;
  heap = [];
  heap_size = 20;
}

-- The heap with a path and its identifier behind it.
abbrev pub push_path : Factory → List ℕ → ℕ → Factory
push_path f path ooid =
    let len = length path + 1 in
    record f {
      heap = f.heap ++ (path ++ 0 ∷ ooid_bytes ooid);
      heap_size =
          if ltb f.heap_size (length f.heap + len + 4)
          then f.heap_size * 4 / 3 + len + 4
          else f.heap_size;
    }

-- `++ohub_ooid_seq`, which passes over 0.
abbrev pub next_seq : ℕ → ℕ
next_seq seq = let s = (seq + 1) % ulong_mod in if s == 0 then 1 else s

module _ (c : StringCompare) (mem : Memory) where
  -- `ohubAddOoidPath`. A tree that refuses makes the result ERROR, and the rest goes on.
  pub add_ooid_path : Factory → List ℕ → ℕ → Factory × Bool
  add_ooid_path f path ooid =
      let (p, path_ok) = tree_add c mem.path_buf mem.path_arr f.by_path path (to_int ooid) in
      let (o, ooid_ok) = tree_num_add mem.ooid_arr f.by_ooid (to_int ooid) (length f.heap) in
      (record (push_path f path ooid) { by_path = p; by_ooid = o }, path_ok && ooid_ok)

  -- `ohubFindOoidByName` behind its search. The result of the registration is not looked at.
  abbrev pub name_found : Factory → List ℕ → Bool → Option ℕ → Factory × ℕ
  name_found f path can_add (some v) = (f, of_int v)
  name_found f path false none = (f, 0)
  name_found f path true none =
      let s = next_seq f.seq in ((add_ooid_path (record f { seq = s }) path s).0, s)

  -- `ohubFindOoidByName`; `ohubMakeStaticOoid` calls it with the quark's path and TRUE.
  pub find_ooid_by_name : Factory → List ℕ → Bool → Factory × ℕ
  find_ooid_by_name f path can_add =
      let (p, r) = tree_find c f.by_path path in
      name_found (record f { by_path = p }) path can_add r

  pub make_static_ooid : Factory → List ℕ → Factory × ℕ
  make_static_ooid f path = find_ooid_by_name f path true

  -- The lines of the file, as `fscanf` reads them: an identifier and a path each. An identifier
  -- that is ahead of the sequence, as the sign of a 32-bit difference tells, moves it.
  pub load_lines : Factory → List (ℕ × List ℕ) → Factory
  load_lines f [] = f
  load_lines f ((ooid, path) ∷ rest) =
      let f' = (add_ooid_path f path ooid).0 in
      let d = to_int (ooid + ulong_mod - f'.seq) in
      load_lines (record f' { seq = if ltb 0 d && ltb d (2 ^ 31) then ooid else f'.seq }) rest

abbrev pub name_at : Factory → Tree × Option ℕ → Factory × Option (List ℕ)
name_at f (o, none) = (record f { by_ooid = o }, none)
name_at f (o, some off) = (record f { by_ooid = o }, some (str_at f.heap off))

-- `ohubFindNameByOoid`; the search leaves its depth in the tree.
pub find_name_by_ooid : Factory → ℕ → Factory × Option (List ℕ)
find_name_by_ooid f ooid = name_at f (tree_num_find f.by_ooid (to_int ooid))
