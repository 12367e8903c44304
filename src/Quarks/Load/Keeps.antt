-- ===== src/Quarks/Load/Keeps.antt =====
-- The loading of a module's records keeps its invariant.
use okscada.Prelude.{ℕ, ◌<◌, true, List, [], ◌∷◌, Option, none, some, length}
use okscada.Prelude.CString.{IsCStr, StringCompare}
use okscada.Tree.{Tree, ushort_mod}
use okscada.Quarks.{Record, Module}
use okscada.Quarks.Load.{load_line}
use okscada.Quarks.Load.Inv.{Inv}

module _ (c : StringCompare) where
  module _ (scan : List ℕ → Option (Record × List ℕ × List ℕ)) where
    -- The two trees have fewer slots than their numbers have.
    abbrev pub Room : Module → Type 0
    Room m =
        (length m.quarks_byname.e_arr < ushort_mod) × (length m.globals_byname.e_arr < ushort_mod)

    -- What `sscanf` reads into a string has no byte 0.
    abbrev pub HasNames : Option (Record × List ℕ × List ℕ) → Type 0
    HasNames none = Unit {0}
    HasNames (some (r, path, glob_name)) = IsCStr path × IsCStr glob_name

    module _ (scanned : (s : List ℕ) → HasNames (scan s)) where
      -- There is room at each line.
      unfoldable pub Rooms : Module → List (List ℕ) → Type 0
      Rooms m [] = Unit {0}
      Rooms m (buf ∷ rest) = Room m × Rooms (load_line c true true scan m buf) rest
