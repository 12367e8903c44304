-- ===== src/Subj/Poll/Filled.antt =====
-- The buffer of osubjMonitoring, and the packets that are sent from it.
use okscada.Prelude.{
  ℕ, zero, suc, ◌+◌, ◌%◌, ◌≤◌, ◌<◌, ◌≡◌, inl, inr, refl, sym, ap, ◌∙◌, Bool, true, false, ◌&&◌,
  ◌||◌, List, [], ◌∷◌, ◌++◌, Option, none, some, length, length-append, append_assoc, append-nil,
  ltb, ◌==◌, if◌then◌else◌, arith, Bool-cases,
}
use okscada.Subj.{Word}
use okscada.Subj.Access.{has_fields}
use okscada.Subj.Monitors.{Monitor}
use okscada.Subj.Poll.{
  Settings, Change, encode, time_bytes, word_bytes, Packet, Poll, used, send, emptied, is_full,
  make_room, put_change,
}
use okscada.Changes.Wire.{IsWritable}
use okscada.Changes.Handed.{encode_all, AllWritable}

-- A packet begins with the number of its changes, from 1 to 255, is no longer than the buffer, and has only changes that
-- the hub can read.
pub record IsSound (cfg : Settings) (packet : Packet) : Type 0 where
  pub changes : List Change
  pub written : packet.bytes ≡ length changes ∷ encode_all changes
  pub some_changes : 1 ≤ length changes
  pub few_changes : length changes ≤ 255
  pub fits : length packet.bytes ≤ cfg.buf_len
  pub writable : AllWritable changes

abbrev pub AllSound : Settings → List Packet → Type 0
AllSound cfg [] = Unit {0}
AllSound cfg (x ∷ xs) = IsSound cfg x × AllSound cfg xs

-- The numbers of a monitor are in their widths, and its bit field, if it has one, is in 1, 2 or 4 bytes.
pub record IsSendable (mon : Monitor) : Type 0 where
  pub ooid_ok : mon.ooid < 4294967296
  pub len_ok : mon.len < 8192
  pub field_ok : (mon.blen == 0 || has_fields mon.len) ≡ true

-- The buffer, which has at most `limit` changes, and the packets that were sent.
pub record IsFilled (cfg : Settings) (limit : ℕ) (st : Poll) : Type 0 where
  pub changes : List Change
  pub written : st.body ≡ encode_all changes
  pub counted : st.qty ≡ length changes
  pub few_changes : st.qty ≤ limit
  pub fits : used st ≤ cfg.buf_len
  pub writable : AllWritable changes
  pub all_sound : AllSound cfg st.sent

AllSound-append :
    (cfg : Settings) (xs : List Packet) (x : Packet)
    → AllSound cfg xs
    → IsSound cfg x
    → AllSound cfg (xs ++ x ∷ [])
AllSound-append cfg [] x a s = (s, tt)
AllSound-append cfg (y ∷ ys) x (s', a) s = (s', AllSound-append cfg ys x a s)

AllWritable-append :
    (cs : List Change) (c : Change) → AllWritable cs → IsWritable c → AllWritable (cs ++ c ∷ [])
AllWritable-append [] c a w = (w, tt)
AllWritable-append (d ∷ cs) c (w', a) w = (w', AllWritable-append cs c a w)

encode_all-append :
    (cs : List Change) (c : Change) → encode_all (cs ++ c ∷ []) ≡ encode_all cs ++ encode c
encode_all-append [] c = append-nil (encode c)
encode_all-append (d ∷ cs) c =
    ap (λ z. encode d ++ z) (encode_all-append cs c)
    ∙ sym (append_assoc (encode d) (encode_all cs) (encode c))

pub length-word_bytes : (n : ℕ) (w : Word) → length (word_bytes n w) ≡ n
length-word_bytes zero w = refl
length-word_bytes (suc n) w = ap suc (length-word_bytes n (λ i. w (8 + i)))

length-time_bytes : (t : Option ℕ) → length (time_bytes t) ≤ 4
length-time_bytes none = omega arith
length-time_bytes (some t) = omega arith

encode-short : (c : Change) → length (encode c) ≤ length c.bytes + 11
encode-short c =
    let l =
      length-append (time_bytes c.time)
        (if ltb (length c.bytes) 32 then c.bytes else (length c.bytes % 256) ∷ c.bytes) in
    ground (arith, l, length-time_bytes c.time)

pub send-Filled :
    (cfg : Settings) (limit : ℕ) (st : Poll)
    → limit ≤ 255
    → 1 ≤ st.qty
    → IsFilled cfg limit st
    → AllSound cfg (send st).sent
send-Filled cfg limit st h q f =
    AllSound-append cfg st.sent (record { selected = st.selected; bytes = st.qty ∷ st.body })
      f.all_sound
      (record {
        changes = f.changes;
        written = λ i. f.counted i ∷ f.written i;
        some_changes = omega (arith, q, f.counted);
        few_changes = omega (arith, h, f.few_changes, f.counted);
        fits = omega (arith, f.fits);
        writable = f.writable;
      })

false_ne_true : false ≡ true → ⊥
false_ne_true e = cc

not_full :
    (cfg : Settings) (n : ℕ) (st : Poll)
    → is_full cfg n st ≡ false
    → (st.qty ≤ 254) × (used st + n + 15 ≤ cfg.buf_len)
not_full cfg n st e = (ground (arith, e), ground (arith, e))

emptied-Filled :
    (cfg : Settings) (st : Poll)
    → 1 ≤ cfg.buf_len
    → AllSound cfg st.sent
    → IsFilled cfg 254 (emptied st)
emptied-Filled cfg st h a = record {
  changes = [];
  written = refl;
  counted = refl;
  few_changes = omega arith;
  fits = omega (arith, h);
  writable = tt;
  all_sound = a;
}

sent_before :
    (cfg : Settings) (st : Poll)
    → IsFilled cfg 255 st
    → AllSound cfg (if cfg.connected && ltb 0 st.qty then send st else st).sent
sent_before cfg st f = elim (Bool-cases (cfg.connected && ltb 0 st.qty)) [
  | inl e ↦ rw e (send-Filled cfg 255 st (omega arith) (some_qty cfg.connected st.qty e) f)
  | inr e ↦ rw e f.all_sound
]
  where
    some_qty : (b : Bool) (q : ℕ) → (b && ltb 0 q) ≡ true → 1 ≤ q
    some_qty true q e = ground (arith, e)
    some_qty false q e = absurd (false_ne_true e)

-- There is room for a change of `n` bytes, and less than 255 changes are there.
pub make_room-Filled :
    (cfg : Settings) (n : ℕ) (st : Poll)
    → n + 16 ≤ cfg.buf_len
    → IsFilled cfg 255 st
    → IsFilled cfg 254 (make_room cfg n st) × (used (make_room cfg n st) + n + 15 ≤ cfg.buf_len)
make_room-Filled cfg n st h f = elim (Bool-cases (is_full cfg n st)) [
  | inl e ↦ rw e (
    emptied-Filled cfg (if cfg.connected && ltb 0 st.qty then send st else st) (omega (arith, h))
        (sent_before cfg st f),
    omega (arith, h),
  )
  | inr e ↦ rw e (
      let (q, r) = not_full cfg n st e in
      (
        record {
          changes = f.changes;
          written = f.written;
          counted = f.counted;
          few_changes = q;
          fits = f.fits;
          writable = f.writable;
          all_sound = f.all_sound;
        },
        r,
      ))
]

pub put_change-Filled :
    (cfg : Settings) (sel : Bool) (c : Change) (st : Poll)
    → IsFilled cfg 254 st
    → IsWritable c
    → used st + length c.bytes + 15 ≤ cfg.buf_len
    → IsFilled cfg 255 (put_change sel c st)
put_change-Filled cfg sel c st f w r = record {
  changes = f.changes ++ c ∷ [];
  written = ap (λ z. z ++ encode c) f.written ∙ sym (encode_all-append f.changes c);
  counted = omega (arith, f.counted, length-append f.changes (c ∷ []));
  few_changes = omega (arith, f.few_changes);
  fits = omega (arith, r, encode-short c, length-append st.body (encode c));
  writable = AllWritable-append f.changes c f.writable w;
  all_sound = f.all_sound;
}
