-- ===== src/Changes/Readable.antt =====
-- What ohubHandleMonitoring reads in the packets that osubjMonitoring sends.
use okscada.Prelude.{ℕ, ◌≤◌, ◌≡◌, List, [], ◌∷◌, length}
use okscada.Subj.Monitors.{Monitors}
use okscada.Subj.Poll.{Settings, Change, Packet}
use okscada.Changes.{received, after_change}
use okscada.Changes.Wire.{Agrees, as_received}

-- From position `p` on the changes are read one after the other, and the last ends at `q`.
abbrev pub Reads : (ℕ → ℕ) → ℕ → List Change → ℕ → Type 0
Reads buf p [] q = p ≡ q
Reads buf p (c ∷ cs) q = (received buf p ≡ as_received c) × Reads buf (after_change buf p) cs q

-- A packet that is no longer than the buffer and begins with the number of its changes, from 1 to 255. Wherever
-- its bytes stand, just these changes are read behind that number, and nothing is left.
pub record IsReadable (cfg : Settings) (packet : Packet) : Type 0 where
  pub changes : List Change
  pub some_changes : 1 ≤ length changes
  pub few_changes : length changes ≤ 255
  pub fits : length packet.bytes ≤ cfg.buf_len
  pub counted : (buf : ℕ → ℕ) → Agrees buf 0 packet.bytes → buf 0 ≡ length changes
  pub reads : (buf : ℕ → ℕ) → Agrees buf 0 packet.bytes → Reads buf 1 changes (length packet.bytes)

abbrev pub AllReadable : Settings → List Packet → Type 0
AllReadable cfg [] = Unit {0}
AllReadable cfg (x ∷ xs) = IsReadable cfg x × AllReadable cfg xs
