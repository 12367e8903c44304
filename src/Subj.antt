-- ===== src/Subj.antt =====
-- subj/subj-monitor.c: how a subject reads and writes its variables. Words are functions from the number of a bit to
-- the bit, and memory gives the bits of the byte at an address, so that the C operators on words are written
-- bit by bit. ulong_t has the 4 bytes that the packets give it, and a word's first byte is its low one.

pub mod Access
pub mod Fields
pub mod Monitors
pub mod Poll
use okscada.Prelude.{
  ℕ, zero, suc, ◌+◌, ◌-◌, ◌*◌, ◌/◌, ◌%◌, Bool, true, false, not, ◌&&◌, ◌||◌, ltb, leb, ◌==◌,
  if◌then◌else◌,
}

abbrev pub Word : Type 0
Word = ℕ → Bool

abbrev pub land : Word → Word → Word
land a b i = a i && b i

abbrev pub lor : Word → Word → Word
lor a b i = a i || b i

-- `~`, in a word of `width` bits.
abbrev pub lnot : ℕ → Word → Word
lnot width a i = ltb i width && not (a i)

-- `>>` and `<<`. An `int` has 32 bits, and the processor takes the count of a shift modulo 32.
abbrev pub shift_right : Word → ℕ → Word
shift_right a k i = a (i + k % 32)

abbrev pub shift_left : ℕ → Word → ℕ → Word
shift_left width a k i = ltb i width && (leb (k % 32) i && a (i - k % 32))

-- `(1 << blen) - 1`, in a word of `width` bits.
abbrev pub low_mask : ℕ → ℕ → Word
low_mask width blen i = ltb i width && ltb i (blen % 32)

-- The bits that a read takes out of a word: `v >>= boff`, `v &= m`, and `v |= ~m` for a negative field.
abbrev pub get_field : ℕ → ℕ → ℕ → Bool → Word → Word
get_field width boff blen hibit v =
    let m = low_mask width blen in
    let u = land (shift_right v boff) m in
    if hibit && u ((blen - 1) % 32) then lor u (lnot width m) else u

-- The bits that a write puts into a word: `v &= ~(m << boff)`, `v |= (d & m) << boff`.
abbrev pub set_field : ℕ → ℕ → ℕ → Word → Word → Word
set_field width boff blen v d =
    let m = low_mask width blen in
    lor (land v (lnot width (shift_left width m boff))) (shift_left width (land d m) boff)

abbrev pub Memory : Type 0
Memory = ℕ → ℕ → Bool

-- The `n` bytes at an address as a word, and the bytes of a word put there.
abbrev pub load : ℕ → Memory → ℕ → Word
load n m a i = ltb i (8 * n) && m (a + i / 8) (i % 8)

abbrev pub store : ℕ → Memory → ℕ → Word → Memory
store n m a w x k = if leb a x && ltb x (a + n) then w (8 * (x - a) + k) else m x k

-- The number that the `n` low bits of a word stand for.
abbrev pub bits_value : ℕ → Word → ℕ
bits_value zero w = 0
bits_value (suc n) w = (if w 0 then 1 else 0) + 2 * bits_value n (λ i. w (suc i))

abbrev pub byte_at : Memory → ℕ → ℕ
byte_at m a = bits_value 8 (m a)

abbrev pub long_at : Memory → ℕ → ℕ
long_at m a = bits_value 32 (load 4 m a)

-- `ONTOHL` and `ONTOHS` of the bytes of a packet.
abbrev pub net_long : Memory → ℕ → ℕ
net_long m p =
    16777216 * byte_at m p
    + (65536 * byte_at m (p + 1) + (256 * byte_at m (p + 2) + byte_at m (p + 3)))

abbrev pub net_short : Memory → ℕ → ℕ
net_short m p = 256 * byte_at m p + byte_at m (p + 1)
