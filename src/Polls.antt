-- ===== src/Polls.antt =====
-- The polling of a subject's variables and the hub's side of it at small inputs.
use okscada.Prelude.{
  ℕ, ◌≡◌, refl, true, false, List, [], ◌∷◌, none, some, inl, inr, get_or, get_elem?, length, ◌==◌,
  if◌then◌else◌, arith, Bool-cases,
}
use okscada.Subj.{Memory}
use okscada.Subj.Monitors.{Monitor, Monitors}
use okscada.Subj.Poll.{Settings, Change, Packet, monitoring}
use okscada.Subj.Poll.Sent.{HeapSendable}
use okscada.Changes.{HubMonitor, handle_monitoring}
use okscada.Changes.Wire.{Agrees}
use okscada.Changes.Handed.{apply_all, handle_monitoring-encode_all}
use okscada.Changes.Framed.{IsFramed, handle_monitoring-monitoring}

abbrev plain : Settings
plain = record {
  buf_len = 2048;
  max_sent_bytes = 0;
  max_polled_qty = 0;
  max_changed_qty = 0;
  max_time_ms = 0;
  elapsed = λ n. 0;
  use_time = false;
  cur_time = 0;
  connected = true;
  sel_address = 0;
}

-- The variable 7, a long at 256.
abbrev long_monitor : Monitor
long_monitor = record {
  ooid = 7;
  adr = 256;
  off = 0;
  len = 4;
  boff = 0;
  blen = 0;
  ptr = 68;
  type = 108;
  undef = false;
  hibit = true;
  force_count = 1;
  now = λ i. false;
  before = λ i. false;
}

abbrev polled : Monitors
polled = record {
  heap = λ p.
      if p == 1000 then some (record { mon = long_monitor; next = none; prev = none }) else none;
  first_mon = some 1000;
  last_mon = some 1000;
  cur_mon = none;
  mon_qty = 1;
}

polled-Sendable : HeapSendable polled.heap
polled-Sendable p = elim (Bool-cases (p == 1000)) [
  | inl e ↦ rw e (record { ooid_ok = omega arith; len_ok = omega arith; field_ok = refl })
  | inr e ↦ rw e tt
]

abbrev ones : Memory
ones a k = k == 0

abbrev sent_packet : Packet
sent_packet = record { selected = false; bytes = 1 ∷ 0 ∷ 0 ∷ 0 ∷ 7 ∷ 108 ∷ 4 ∷ 1 ∷ 1 ∷ 1 ∷ 1 ∷ [] }

sent_first : get_elem? (monitoring plain ones true polled).2 0 ≡ some sent_packet
unfolding monitoring
sent_first = refl

abbrev as_packet : List ℕ → ℕ → ℕ
as_packet bytes p = get_or bytes p 0

abbrev unrotated : ℕ → List ℕ → List ℕ
unrotated type bytes = bytes

abbrev hub_monitors : List HubMonitor
hub_monitors =
    record {
      ooid = 7;
      type = 108;
      len = 4;
      value = record { type = 108; undef = true; time = 0; len = 0; bytes = [] };
    }
    ∷ []

sent-Agrees : Agrees (as_packet sent_packet.bytes) 0 sent_packet.bytes
sent-Agrees =
    (refl, (refl, (refl, (refl, (refl, (refl, (refl, (refl, (refl, (refl, (refl, tt)))))))))))

handle_monitoring-monitoring_example : IsFramed unrotated (
    handle_monitoring unrotated
      (as_packet sent_packet.bytes)
      (length sent_packet.bytes)
      hub_monitors)
handle_monitoring-monitoring_example =
    handle_monitoring-monitoring unrotated plain ones true polled 0 sent_packet
      (as_packet sent_packet.bytes) hub_monitors (omega arith) (omega arith) polled-Sendable
      sent_first sent-Agrees

abbrev long_change : Change
long_change = record { ooid = 7; type = 108; undef = 0; time = none; bytes = 1 ∷ 1 ∷ 1 ∷ 1 ∷ [] }

handle_monitoring-encode_all_example :
    handle_monitoring unrotated (as_packet sent_packet.bytes) 11 hub_monitors
    ≡ apply_all unrotated (long_change ∷ []) hub_monitors
handle_monitoring-encode_all_example =
    handle_monitoring-encode_all unrotated (as_packet sent_packet.bytes) (long_change ∷ [])
      hub_monitors (omega arith)
      (
        record {
          ooid_ok = omega arith;
          time_ok = omega arith;
          length_ok = omega arith;
          undef_ok = inl refl;
        },
        tt,
      )
      sent-Agrees
