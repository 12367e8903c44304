-- ===== src/Changes/Framed.antt =====
-- The subject and the hub together: the packets that osubjMonitoring sends, read by ohubHandleMonitoring.
use okscada.Prelude.{
  ℕ, zero, suc, ◌+◌, ◌≤◌, ◌<◌, ◌≡◌, ◌⊎◌, inl, inr, refl, sym, ap, subst, Bool, List, [], ◌∷◌, none,
  some, length, get_elem?, Bool-cases, Option-cases, arith,
}
use okscada.Subj.{Memory}
use okscada.Subj.Monitors.{Monitors}
use okscada.Subj.Poll.{Settings, Change, Packet, monitoring}
use okscada.Subj.Poll.Filled.{IsSound, AllSound}
use okscada.Subj.Poll.Sent.{HeapSendable, monitoring-written}
use okscada.Changes.{HubMonitor, Handled, handle_monitoring}
use okscada.Changes.Wire.{Agrees}
use okscada.Changes.Handed.{
  encode_all, monitor_of, store_value, fits_monitor, taken_value, apply_all,
  handle_monitoring-encode_all,
}

none_ne_some : {A : Type 0} {a : A} → none ≡ some a → ⊥
none_ne_some e = cc

same : {A : Type 0} (a b : A) → some a ≡ some b → a ≡ b
same a b e = cc

IsSound-at :
    (cfg : Settings) (k : ℕ) (xs : List Packet) (x : Packet)
    → AllSound cfg xs
    → get_elem? xs k ≡ some x
    → IsSound cfg x
IsSound-at cfg k [] x a e = absurd (none_ne_some e)
IsSound-at cfg zero (y ∷ ys) x (s, a) e = subst (IsSound cfg) (same y x e) s
IsSound-at cfg (suc k) (y ∷ ys) x (s, a) e = IsSound-at cfg k ys x a e

module _ (rotate : ℕ → List ℕ → List ℕ) where
  -- No error, or that of a length.
  abbrev pub IsFramed : Handled rotate → Type 0
  IsFramed (ms, told, err) = (err ≡ 0) ⊎ (err ≡ 4)

  apply_all-Framed : (cs : List Change) (ms : List HubMonitor) → IsFramed (apply_all rotate cs ms)
  apply_all-Framed [] ms = inl refl
  apply_all-Framed (c ∷ cs) ms = elim (Option-cases (monitor_of c.ooid ms)) [
    | inl e ↦ rw (e, apply_all) (apply_all-Framed cs ms)
    | inr (m, e) ↦
        rw (e, apply_all)
          (elim (Bool-cases (fits_monitor c m)) [
            | inl f ↦ rw f (apply_all-Framed cs (store_value c.ooid (taken_value rotate c m) ms))
            | inr f ↦ rw f (inr refl)
          ])
  ]

  sound-Framed :
      (cfg : Settings) (packet : Packet) (buf : ℕ → ℕ) (ms : List HubMonitor)
      → IsSound cfg packet
      → Agrees buf 0 packet.bytes
      → IsFramed (handle_monitoring rotate buf (length packet.bytes) ms)
  sound-Framed cfg packet buf ms s a =
      let l : 1 + length (encode_all s.changes) ≡ length packet.bytes =
        omega (arith, ap length s.written) in
      subst (λ n. IsFramed (handle_monitoring rotate buf n ms)) l
        (subst IsFramed
          (sym (
            handle_monitoring-encode_all rotate buf s.changes ms s.some_changes s.writable
              (subst (Agrees buf 0) s.written a)))
          (apply_all-Framed s.changes ms))

  -- Where each monitor of a subject has an ooid of 32 bits, less than 8192 bytes and, if it has a bit field, 1, 2 or 4 bytes, and the
  -- time has 32 bits, ohubHandleMonitoring of any packet that osubjMonitoring sends finds the changes whole and nothing behind
  -- them, whatever the monitors of the hub are: its only error is a length that is not that of
  -- the hub's variable.
  pub handle_monitoring-monitoring :
      (cfg : Settings) (m : Memory) (running : Bool) (s : Monitors) (k : ℕ) (packet : Packet)
      (buf : ℕ → ℕ) (ms : List HubMonitor)
      → 1 ≤ cfg.buf_len
      → cfg.cur_time < 4294967296
      → HeapSendable s.heap
      → get_elem? (monitoring cfg m running s).2 k ≡ some packet
      → Agrees buf 0 packet.bytes
      → IsFramed (handle_monitoring rotate buf (length packet.bytes) ms)
  handle_monitoring-monitoring cfg m running s k packet buf ms b t h e a =
      sound-Framed cfg packet buf ms
        (IsSound-at cfg k (monitoring cfg m running s).2 packet
          (monitoring-written cfg m running s b t h) e)
        a
