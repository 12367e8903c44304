-- ===== src/Subj/Monitors/Handlers.antt =====
-- The handlers of subj/subj-monitor.c that add and remove monitors, and the invariant that they keep.
use okscada.Prelude.{
  ℕ, zero, suc, ◌+◌, ◌*◌, ◌≡◌, refl, Bool, true, false, not, ◌||◌, List, [], ◌∷◌, ◌++◌, Option,
  none, some, ltb, ◌==◌, if◌then◌else◌, arith,
}
use okscada.Subj.{Memory, net_long}
use okscada.Subj.Monitors.{
  Monitor, Node, Heap, Monitors, Reply, deallocate_monitor, register_monitor, unregister_monitoring,
}
use okscada.Subj.Monitors.Segs.{Entries}
use okscada.Subj.Monitors.Links.{Links, IsWithin}
use okscada.Subj.Monitors.Found.{has}

-- What a handler does: the state, the result and the replies. `running` is `osubj_initialized && !osubj_aborted`.
abbrev pub Handled : Type 0
Handled = Monitors × Bool × List Reply

abbrev pub with_reply : Monitors × Bool × Reply → Handled
with_reply (s, rc, reply) = (s, rc, reply ∷ [])

-- `osubjHandleDataReg`.
unfoldable pub handle_data_reg : Bool → Option ℕ → ℕ → Memory → Monitors → Handled
handle_data_reg running new len buf s =
    if not running || not (len == 18)
    then (s, false, [])
    else with_reply (register_monitor new buf s)

-- `osubjHandleDataUnreg`.
unfoldable pub handle_data_unreg : Bool → Bool → ℕ → Memory → Monitors → Handled
handle_data_unreg running send_rc len buf s =
    if (not running || not (len == 4)) || net_long buf 0 == 0
    then (s, false, [])
    else with_reply (unregister_monitoring send_rc (net_long buf 0) s)

abbrev pub unreg_one : Bool → ℕ → Monitors → Monitors × List Reply
unreg_one send_rc ooid s =
    if ooid == 0
    then (s, [])
    else ((unregister_monitoring send_rc ooid s).0, (unregister_monitoring send_rc ooid s).2 ∷ [])

-- The loop of osubjHandleDataGroupUnreg from the `i`-th ooid of the packet on.
abbrev pub unreg_all : Bool → Memory → ℕ → ℕ → Monitors → Monitors × List Reply
unreg_all send_rc buf zero i s = (s, [])
unreg_all send_rc buf (suc n) i s =
    let one = unreg_one send_rc (net_long buf (4 * i)) s in
    let rest = unreg_all send_rc buf n (i + 1) one.0 in (rest.0, one.1 ++ rest.1)

-- `osubjHandleDataGroupUnreg`.
unfoldable pub handle_data_group_unreg : Bool → Bool → ℕ → Memory → Monitors → Handled
handle_data_group_unreg running send_rc len buf s =
    let qty = net_long buf 0 in
    let all = unreg_all send_rc buf qty 1 s in
    if (not running || ltb len 8) || (ltb qty 1 || not (len == (qty + 1) * 4))
    then (s, false, [])
    else (all.0, true, all.1)

-- The record that a pointer leads to.
abbrev pub record_at : Heap → Option ℕ → Option (ℕ × Node)
record_at h none = none
record_at h (some p) = elim (h p) [ none ↦ none | some nd ↦ some (p, nd) ]

-- The loop of osubjClearMonitoring. The fuel is the number of records.
abbrev pub free_all : ℕ → Monitors → Monitors
free_all zero s = s
free_all (suc n) s = elim (record_at s.heap s.first_mon) [
  | none ↦ s
  | some (p, nd) ↦ free_all n (deallocate_monitor p nd s)
]

-- `osubjClearMonitoring`.
unfoldable pub clear_monitoring : Monitors → Monitors
clear_monitoring s = record (free_all s.mon_qty s) {
  first_mon = none;
  last_mon = none;
  cur_mon = none;
  mon_qty = 0;
}

-- No two monitors have the same ooid.
abbrev pub Unique : Entries → Type 0
Unique [] = Unit {0}
Unique ((a, m) ∷ xs) = (has m.ooid xs ≡ false) × Unique xs

-- The list of the records stands for `xs`, no two of which have the same ooid, and osubj_cur_mon is NULL or leads
-- to one of them.
pub record Inv (s : Monitors) (xs : Entries) : Type 0 where
  pub links : Links s xs
  pub unique : Unique xs
  pub current : IsWithin s.cur_mon xs

pub has-append : (ooid : ℕ) (xs ys : Entries) → has ooid (xs ++ ys) ≡ (has ooid xs || has ooid ys)
has-append ooid [] ys = refl
has-append ooid ((a, m) ∷ xs) ys = ground (arith, has-append ooid xs ys)

pub Unique-remove :
    (xs : Entries) (a : ℕ) (m : Monitor) (ys : Entries)
    → Unique (xs ++ (a, m) ∷ ys)
    → Unique (xs ++ ys) × (has m.ooid (xs ++ ys) ≡ false)
Unique-remove [] a m ys (n, u) = (u, n)
Unique-remove ((b, k) ∷ xs) a m ys (n, u) =
    let (u', n') = Unique-remove xs a m ys u in
    let z = has-append k.ooid xs ((a, m) ∷ ys) in
    let z' = has-append k.ooid xs ys in ((ground (arith, z, z', n), u'), ground (arith, z, n, n'))

pub Unique-add :
    (xs : Entries) (a : ℕ) (m : Monitor)
    → has m.ooid xs ≡ false
    → Unique xs
    → Unique (xs ++ (a, m) ∷ [])
Unique-add [] a m n u = (refl, tt)
Unique-add ((b, k) ∷ xs) a m n (o, u) =
    let z = has-append k.ooid xs ((a, m) ∷ []) in
    (ground (arith, z, n, o), Unique-add xs a m (ground (arith, n)) u)
