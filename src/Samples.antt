-- ===== src/Samples.antt =====
-- Runs of the conversions, the waiters and the quarks on small inputs.
use okscada.Prelude.{
  ℕ, ◌≡◌, refl, ◌↔◌, Bool, true, false, List, [], ◌∷◌, none, some, length, get_or, replicate, leb,
  arith, if◌then◌else◌,
}
use okscada.Prelude.Int.{ℤ, pos}
use okscada.Tree.{new_tree}
use okscada.Convert.{Floats, int, uchar, short, v_int, v_uchar, v_short}
use okscada.Convert.Value.{Oval, Formats, convert_scalar, convert_value}
use okscada.Convert.Reference.{convert_scalar-cast}
use okscada.Convert.Lengths.{Outcome, convert_value-Outcome}
use okscada.Waiters.{
  Waiter, Subject, Domain, no_waiter, same_ptr, is_late, clear_subject_waiters,
  handle_trigger_timeouts, handle_trigger_subject,
}
use okscada.Waiters.Inv.{count, sum, Inv, AllLack}
use okscada.Waiters.Served.{
  triggered, waited, Reach, here, next, clear_subject_waiters-AllLack,
  handle_trigger_timeouts-AllLack, Reach-Inv,
}
use okscada.Quarks.{Record, Module}
use okscada.Quarks.Desc.{extract, find_record}
use okscada.Quarks.Desc.Parse.{char, index, print, template, indices, extract-print, Piece}
use okscada.Quarks.Desc.Sought.{Sought}
use okscada.Quarks.Desc.Search.{SameModules, named, or_else, first_record, find_record-first}
use okscada.Segments.{check_packet}
use okscada.Segments.Packet.{Packet, packet_bytes, subject_bytes, module_bytes, segment_bytes}
use okscada.Segments.Work.{Hub}
use okscada.Segments.Accepted.{IsHeld}
use okscada.Segments.Taken.{check_packet_iff}
use okscada.Mask.{str_mask, literal, behind, skip_stars, search}
use okscada.Tests.{compare_bytes, one_path, one_path-IsText}

-- Floating point numbers that are integers, and no text that reads as a number.
abbrev whole_floats : Floats ℤ ℤ
whole_floats = record {
  float_of = λ v. v;
  double_of = λ v. v;
  widen = λ v. v;
  narrow = λ v. v;
  float_to = λ t v. v;
  double_to = λ t v. v;
}

abbrev no_formats : Formats ℤ ℤ
no_formats = record {
  scan_int = λ s. none;
  scan_uint = λ s. none;
  scan_short = λ s. none;
  scan_ushort = λ s. none;
  scan_long = λ s. none;
  scan_ulong = λ s. none;
  scan_float = λ s. none;
  scan_double = λ s. none;
  print = λ t v. [];
}

convert_scalar-cast_example :
    convert_scalar whole_floats no_formats int (v_int (pos 300)) uchar ≡ some (v_uchar (pos 44))
convert_scalar-cast_example =
    convert_scalar-cast whole_floats no_formats int uchar (pos 300) (omega arith) refl

abbrev seven : Oval ℤ ℤ
seven = record { type = int; undef = false; len = pos 4; time = 9; v = v_int (pos 7) }

abbrev a_short : Oval ℤ ℤ
a_short = record { type = short; undef = false; len = pos 2; time = 0; v = v_short (pos 0) }

convert_value-Outcome_example :
    Outcome seven a_short none (convert_value whole_floats no_formats seven a_short none)
convert_value-Outcome_example = convert_value-Outcome whole_floats no_formats seven a_short none

-- A subject of the agent 5, for which the connection 3 waits until the time 240.
abbrev one_waiter : Waiter
one_waiter = record { pnwatch = some 3; op = 11; watchdog = 240 }

abbrev awaited : Subject
awaited = record {
  subject_name = 115 ∷ [];
  is_on = false;
  agent = some 5;
  waiters = one_waiter ∷ replicate 7 no_waiter;
  waiters_qty = pos 1;
}

abbrev one_awaited : Domain
one_awaited = record { subjects = awaited ∷ []; total = pos 1 }

one_awaited-Inv : Inv one_awaited
unfolding count sum
one_awaited-Inv = record { counted = (refl, refl, tt); summed = refl }

clear_subject_waiters-AllLack_example :
    let d = clear_subject_waiters (some 3) one_awaited in
    Inv d × AllLack (λ x. same_ptr x.pnwatch 3) d.subjects
clear_subject_waiters-AllLack_example = clear_subject_waiters-AllLack 3 one_awaited one_awaited-Inv

handle_trigger_timeouts-AllLack_example :
    let d = (handle_trigger_timeouts 300 one_awaited).0 in Inv d × AllLack (is_late 300) d.subjects
handle_trigger_timeouts-AllLack_example =
    handle_trigger_timeouts-AllLack 300 one_awaited one_awaited-Inv

abbrev reachable : ℕ → Bool
reachable g = true

abbrev asked_again : Domain
asked_again = (handle_trigger_subject reachable 100 4 12 (115 ∷ []) one_awaited).0

two_steps : Reach reachable one_awaited (handle_trigger_timeouts 300 asked_again).0
two_steps = next (next here (triggered 100 4 12 (115 ∷ []) refl)) (waited 300 refl)

Reach-Inv_example : Inv (handle_trigger_timeouts 300 asked_again).0
Reach-Inv_example = Reach-Inv reachable two_steps one_awaited-Inv

-- "x[12]"
abbrev pieces : List Piece
pieces = char 120 ∷ index (49 ∷ 50 ∷ []) ∷ []

pieces-length : length (print pieces) ≡ 5
unfolding print
pieces-length = refl

extract-print_example :
    extract 5 0 (print pieces)
    ≡ (if leb (length (indices pieces)) 4 then some (template pieces, indices pieces) else none)
extract-print_example =
    extract-print pieces 5 (omega arith, ((refl, (refl, (refl, tt))), tt))
      (omega (arith, pieces-length))

abbrev a_record : Record
a_record = record {
  ukey = 0;
  ikey = 0;
  adr = 16;
  off = 8;
  len = 4;
  ptr = 45;
  type_char = 105;
  seg = 65;
  spare1 = 0;
  obj_ikey = 0;
  bit_off = 0;
  bit_len = 0;
  dim = 3 ∷ 0 ∷ 0 ∷ 0 ∷ [];
  coef = 4 ∷ 0 ∷ 0 ∷ 0 ∷ [];
  glob_ikey = 0;
  glob_adr = 0;
  next_no = none;
  glob_off = 0;
  path_off = 0;
}

-- The module "m" of the subject "s": the tree has the number 1 for the path "ab".
abbrev a_module : Module
a_module = record {
  ikey = 0;
  subject_name = 115 ∷ [];
  nick_name = 109 ∷ [];
  unit_no = 0;
  records = a_record ∷ a_record ∷ [];
  glob_heap = 103 ∷ 0 ∷ [];
  path_heap = 97 ∷ 98 ∷ 0 ∷ [];
  quarks_byname = one_path;
  globals_byname = new_tree 0;
  segment_addr = replicate 96 4096;
}

find_record-first_example :
    let (ms', r) = find_record compare_bytes (109 ∷ []) [] (97 ∷ 98 ∷ []) (a_module ∷ []) in
    SameModules compare_bytes (a_module ∷ []) ms'
    × (named r
        ≡ or_else
            (first_record compare_bytes (109 ∷ []) [] (97 ∷ 98 ∷ []) (a_module ∷ []))
            (first_record compare_bytes (109 ∷ []) [] (97 ∷ 98 ∷ 43 ∷ []) (a_module ∷ [])))
find_record-first_example =
    find_record-first compare_bytes (109 ∷ []) [] (97 ∷ 98 ∷ []) (a_module ∷ [])
      (one_path-IsText, tt)

-- The subject "s" with the module "m", whose segment "A" is at 4096.
abbrev packet_memory : ℕ → ℕ
packet_memory i = get_or (0 ∷ 1 ∷ 1 ∷ 115 ∷ 1 ∷ 1 ∷ 109 ∷ 1 ∷ 65 ∷ 0 ∷ 0 ∷ 16 ∷ 0 ∷ 0 ∷ []) i 0

check_packet_iff_example :
    (check_packet packet_memory 14 ≡ true) ↔ ((x : Packet) × IsHeld packet_memory 14 x)
check_packet_iff_example = check_packet_iff packet_memory 14

abbrev one_segment : Packet
one_segment = record {
  clean = 0;
  subjects =
      record {
        subject_name = 115 ∷ [];
        modules =
            record {
              module_name = 109 ∷ [];
              segments = record { name = 65; a = 0; b = 0; c = 16; d = 0 } ∷ [];
            }
            ∷ [];
      }
      ∷ [];
}

one_segment-IsHeld : IsHeld packet_memory 14 one_segment
unfolding packet_bytes subject_bytes module_bytes segment_bytes
one_segment-IsHeld = (
  (
    omega arith,
    omega arith,
    ((omega arith, omega arith), omega arith, ((omega arith, omega arith), omega arith, tt), tt),
  ),
  refl,
  (
    refl,
    (
      refl,
      (
        refl,
        (refl, (refl, (refl, (refl, (refl, (refl, (refl, (refl, (refl, (refl, (refl, tt))))))))))),
      ),
    ),
  ),
)

-- The hub knows the subject "s" of the agent 5, and its module "m".
abbrev a_hub : Hub
a_hub = record {
  subjects = record { subject_name = 115 ∷ []; agent = some 5; subject_state = [] } ∷ [];
  modules = record { owner = some 0; part = a_module } ∷ [];
  changed = false;
  calls = [];
}

-- "ab*" and "abc"
accepted : str_mask 4 (97 ∷ 98 ∷ 99 ∷ []) (97 ∷ 98 ∷ 42 ∷ []) ≡ true
unfolding str_mask literal behind skip_stars
accepted = refl

-- "*a" fits "aba", but the first "a" is taken for the last.
last_refused : str_mask 3 (97 ∷ 98 ∷ 97 ∷ []) (42 ∷ 97 ∷ []) ≡ false
unfolding str_mask literal behind skip_stars search
last_refused = refl
