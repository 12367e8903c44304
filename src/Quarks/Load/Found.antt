-- ===== src/Quarks/Load/Found.antt =====
-- The records of a module that is loaded are found by their paths.
use okscada.Prelude.{
  ℕ, zero, suc, ◌<◌, ◌≡◌, refl, ◌∙◌, List, [], ◌∷◌, some, length, get_elem?, arith,
}
use okscada.Prelude.CString.{StringCompare, str_at}
use okscada.Quarks.{Record, Module}
use okscada.Quarks.Desc.{find_record}
use okscada.Quarks.Desc.Search.{named, first_record, find_record-first, names, picked}
use okscada.Quarks.Load.{record_at}
use okscada.Quarks.Load.Inv.{Inv}

get_elem-record_at :
    (recs : List Record) (k : ℕ) → k < length recs → get_elem? recs k ≡ some (record_at recs k)
get_elem-record_at [] k h = absurd (omega (arith, h))
get_elem-record_at (r ∷ recs) zero h = refl
get_elem-record_at (r ∷ recs) (suc k) h = get_elem-record_at recs k (omega (arith, h))

-- In a module that keeps its invariant, the search for the path of a record, with no name of a subject or a module, finds
-- that record.
pub find_record-loaded :
    (c : StringCompare) (m : Module) (k : ℕ)
    → Inv c m
    → k < length m.records
    → let path = str_at m.path_heap (record_at m.records k).path_off in
      named (find_record c [] [] path (m ∷ [])).1
      ≡ some (m.subject_name, m.nick_name, record_at m.records k)
unfolding first_record names
find_record-loaded c m k i h =
    let path = str_at m.path_heap (record_at m.records k).path_off in
    (find_record-first c [] [] path (m ∷ []) (i.path_text, tt)).1
    ∙ rw (i.paths_lead k h, picked, get_elem-record_at m.records k h) refl
