-- ===== src/Trials.antt =====
-- The subject library at small inputs.
use okscada.Prelude.{
  ℕ, ◌/◌, ◌%◌, ◌^◌, ◌<◌, ◌≡◌, ◌≢◌, ◌⊎◌, inl, inr, refl, true, false, ◌&&◌, List, [], ◌∷◌, none,
  some, get_or, ◌==◌, if◌then◌else◌, arith,
}
use okscada.Prelude.Int.{pos}
use okscada.Subj.{Word, Memory, load, net_long}
use okscada.Subj.Access.{
  Subject, parse_request, handle_data_write, handle_data_read, ever_write, no_ever_write,
}
use okscada.Subj.Access.Confined.{IsNamed, handle_data_write-confined}
use okscada.Subj.Access.Back.{read_back, handle_data_write-read}
use okscada.Subj.Access.Permitted.{Permits, no_ever_write-IsDistinct, ever_write-Permits}
use okscada.Subj.Monitors.{Monitors, requested, register_monitor, unregister_monitoring}
use okscada.Subj.Monitors.Segs.{Entries, is_in}
use okscada.Subj.Monitors.Handlers.{Inv, handle_data_group_unreg, handle_data_reg, clear_monitoring}
use okscada.Subj.Monitors.Registered.{
  Added, Removed, register_monitor-Added, unregister_monitoring-Removed,
}
use okscada.Subj.Monitors.Runs.{
  Without, is_listed, handle_data_group_unreg-Without, clear_monitoring-Freed,
}
use okscada.Subj.Monitors.Reach.{Reach, clear, reg, start, no_monitors, HasInv, Reach-HasInv}

abbrev packet : List ℕ → Memory
packet bytes a k = ((get_or bytes a 0 / 2 ^ k) % 2) == 1

abbrev blank_subject : Subject
blank_subject = record {
  initialized = true;
  aborted = false;
  ever_write = no_ever_write;
  ban_write = false;
  memory = λ a. λ k. false;
}

-- A write of 31 to 5 bits at 3 of the two bytes at 256, of type h.
abbrev write_packet : Memory
write_packet = packet (
    0 ∷ 0 ∷ 0 ∷ 1 ∷ 0 ∷ 0 ∷ 0 ∷ 0 ∷ 0 ∷ 0 ∷ 1 ∷ 0 ∷ 0 ∷ 0 ∷ 0 ∷ 0 ∷ 0 ∷ 2 ∷ 68 ∷ 104 ∷ 3 ∷ 5 ∷ 0 ∷ 0
    ∷ 31 ∷ 0 ∷ [])

abbrev written_subject : Subject
written_subject = (handle_data_write blank_subject 26 write_packet).0

wrote :
    handle_data_write blank_subject 26 write_packet
    ≡ (written_subject, some (record { id = 1; err = pos 0 }))
unfolding handle_data_write
wrote = refl

handle_data_write-read_example :
    (w : Word) × (handle_data_read true written_subject 24 write_packet
      ≡ some (record { id = 1; err = pos 0; plen = 10; bytes = some w }))
    × ((i : ℕ) → i < 16 → w i ≡ read_back (parse_request write_packet) (load 2 write_packet 24) i)
unfolding handle_data_write
handle_data_write-read_example =
    handle_data_write-read blank_subject written_subject 26 write_packet write_packet
      (record { id = 1; err = pos 0 }) wrote refl refl refl
      (inr (record {
        some_bits = omega arith;
        short = omega arith;
        inside = omega arith;
        is_int = omega arith;
      }))

handle_data_write-confined_example :
    ((handle_data_write blank_subject 26 write_packet).0.memory 256 2 ≡ false)
    ⊎ IsNamed blank_subject (parse_request write_packet) 256 2
handle_data_write-confined_example =
    handle_data_write-confined blank_subject 26 write_packet 256 2 (omega arith) (omega arith)
      (omega arith)

abbrev four : ℕ
four = 4

four_ne_zero : four ≢ 0
four_ne_zero e = omega (arith, e)

ever_write-Permits_example : Permits four true no_ever_write (ever_write four true no_ever_write)
ever_write-Permits_example =
    ever_write-Permits four true no_ever_write four_ne_zero no_ever_write-IsDistinct

-- The registration of the variable 7, a long at 256.
abbrev reg_packet : Memory
reg_packet = packet (0 ∷ 0 ∷ 0 ∷ 7 ∷ 0 ∷ 0 ∷ 1 ∷ 0 ∷ 0 ∷ 0 ∷ 0 ∷ 0 ∷ 0 ∷ 4 ∷ 68 ∷ 108 ∷ 0 ∷ 0 ∷ [])

no_monitors-Inv : Inv no_monitors []
no_monitors-Inv = record {
  links = record { seg = (refl, refl); distinct = tt; counted = refl };
  unique = tt;
  current = inl refl;
}

abbrev one_monitor : Monitors
one_monitor = (register_monitor (some 1000) reg_packet no_monitors).0

abbrev one_entry : Entries
one_entry = (1000, requested reg_packet) ∷ []

register_monitor-Added_example :
    Added
      (some 1000)
      (requested reg_packet)
      no_monitors
      []
      (register_monitor (some 1000) reg_packet no_monitors)
register_monitor-Added_example =
    register_monitor-Added (some 1000) reg_packet no_monitors [] refl no_monitors-Inv

one_monitor-Inv : Inv one_monitor one_entry
unfolding register_monitor
one_monitor-Inv = record {
  links = record { seg = (refl, none, refl, (refl, refl)); distinct = (refl, tt); counted = refl };
  unique = (refl, tt);
  current = inl refl;
}

unregister_monitoring-Removed_example :
    Removed true 7 one_monitor one_entry (unregister_monitoring true 7 one_monitor)
unregister_monitoring-Removed_example =
    unregister_monitoring-Removed true 7 one_monitor one_entry one_monitor-Inv

abbrev group_unreg_packet : Memory
group_unreg_packet = packet (0 ∷ 0 ∷ 0 ∷ 1 ∷ 0 ∷ 0 ∷ 0 ∷ 7 ∷ [])

handle_data_group_unreg-Without_example :
    (ys : Entries) × Inv (handle_data_group_unreg true true 8 group_unreg_packet one_monitor).0 ys
    × Without
        (λ o.
          (handle_data_group_unreg true true 8 group_unreg_packet one_monitor).1
          && is_listed group_unreg_packet (net_long group_unreg_packet 0) 1 o)
        one_entry
        ys
handle_data_group_unreg-Without_example =
    handle_data_group_unreg-Without true true 8 group_unreg_packet one_monitor one_entry
      one_monitor-Inv

clear_monitoring-Freed_example :
    Inv (clear_monitoring one_monitor) []
    × ((q : ℕ)
        → (clear_monitoring one_monitor).heap q
          ≡ (if is_in q one_entry then none else one_monitor.heap q))
clear_monitoring-Freed_example = clear_monitoring-Freed one_monitor one_entry one_monitor-Inv

reached : Reach (clear_monitoring (handle_data_reg true (some 1000) 18 reg_packet no_monitors).0)
reached = clear (reg true (some 1000) 18 reg_packet refl start)

Reach-HasInv_example :
    HasInv (clear_monitoring (handle_data_reg true (some 1000) 18 reg_packet no_monitors).0)
Reach-HasInv_example =
    Reach-HasInv (clear_monitoring (handle_data_reg true (some 1000) 18 reg_packet no_monitors).0)
      reached
