-- ===== src/Subj/Monitors/Reach.antt =====
-- Any order of the calls that add, remove and poll monitors.
use okscada.Prelude.{
  ℕ, refl, Bool, not, ◌||◌, [], ◌∷◌, ◌++◌, Option, none, inl, inr, ◌==◌, Bool-cases, sym, subst,
}
use okscada.Subj.{Memory, net_long}
use okscada.Subj.Monitors.{Monitors, Reply, requested, register_monitor, unregister_monitoring}
use okscada.Subj.Poll.{Settings, monitoring}
use okscada.Subj.Poll.Kept.{monitoring-KeptBy}
use okscada.Subj.Monitors.Segs.{Entries}
use okscada.Subj.Monitors.Handlers.{
  Inv, handle_data_reg, handle_data_unreg, handle_data_group_unreg, clear_monitoring,
}
use okscada.Subj.Monitors.Registered.{
  Added, IsFresh, register_monitor-Added, unregister_monitoring-Removed,
}
use okscada.Subj.Monitors.Runs.{
  after_unregister, handle_data_group_unreg-Without, clear_monitoring-Freed,
}

-- `none`: no record is allocated.
abbrev pub no_monitors : Monitors
no_monitors = record {
  heap = λ p. none;
  first_mon = none;
  last_mon = none;
  cur_mon = none;
  mon_qty = 0;
}

-- The states that the calls lead to. osubjNew gives memory that is not in use, or none.
pub data Reach : Monitors → Type 0 where
  start : Reach no_monitors
  reg :
      {s : Monitors} (running : Bool) (new : Option ℕ) (len : ℕ) (buf : Memory)
      → IsFresh s.heap new
      → Reach s
      → Reach (handle_data_reg running new len buf s).0
  unreg :
      {s : Monitors} (running send_rc : Bool) (len : ℕ) (buf : Memory)
      → Reach s
      → Reach (handle_data_unreg running send_rc len buf s).0
  group_unreg :
      {s : Monitors} (running send_rc : Bool) (len : ℕ) (buf : Memory)
      → Reach s
      → Reach (handle_data_group_unreg running send_rc len buf s).0
  poll :
      {s : Monitors} (cfg : Settings) (m : Memory) (running : Bool)
      → Reach s
      → Reach (monitoring cfg m running s).0
  clear : {s : Monitors} → Reach s → Reach (clear_monitoring s)

abbrev pub HasInv : Monitors → Type 0
HasInv s = (xs : Entries) × Inv s xs

after_register :
    (new : Option ℕ) (buf : Memory) (s : Monitors) (xs : Entries) (r : Monitors × Bool × Reply)
    → Inv s xs
    → Added new (requested buf) s xs r
    → HasInv r.0
after_register new buf s xs (s', rc, reply) v (inl (n, e, x, y)) =
    (xs, subst (λ z. Inv z xs) (sym e) v)
after_register new buf s xs (s', rc, reply) v (inr (p, e, b, v', x, y)) =
    (xs ++ (p, requested buf) ∷ [], v')

handle_data_reg-HasInv :
    (running : Bool) (new : Option ℕ) (len : ℕ) (buf : Memory) (s : Monitors)
    → IsFresh s.heap new
    → HasInv s
    → HasInv (handle_data_reg running new len buf s).0
unfolding handle_data_reg
handle_data_reg-HasInv running new len buf s f (xs, v) =
    elim (Bool-cases (not running || not (len == 18))) [
      | inl e ↦ rw e (xs, v)
      | inr e ↦ rw e (
          after_register new buf s xs (register_monitor new buf s) v
            (register_monitor-Added new buf s xs f v))
    ]

handle_data_unreg-HasInv :
    (running send_rc : Bool) (len : ℕ) (buf : Memory) (s : Monitors)
    → HasInv s
    → HasInv (handle_data_unreg running send_rc len buf s).0
unfolding handle_data_unreg
handle_data_unreg-HasInv running send_rc len buf s (xs, v) =
    elim (Bool-cases ((not running || not (len == 4)) || net_long buf 0 == 0)) [
      | inl e ↦ rw e (xs, v)
      | inr e ↦ rw e (
          let (ys, v', w) =
            after_unregister send_rc (net_long buf 0) s xs
              (unregister_monitoring send_rc (net_long buf 0) s) v
              (unregister_monitoring-Removed send_rc (net_long buf 0) s xs v) in
          (ys, v'))
    ]

-- In every state that the calls that add, remove and poll monitors lead to, the links between the records lead from the
-- first to the last and back through as many records as the count says, no two of which
-- have the same ooid, and osubj_cur_mon is NULL or leads to one of them, so that it leads to
-- no freed memory.
pub Reach-HasInv : (s : Monitors) → Reach s → HasInv s
Reach-HasInv _ start = (
  [],
  record {
    links = record { seg = (refl, refl); distinct = tt; counted = refl };
    unique = tt;
    current = inl refl;
  },
)
Reach-HasInv _ (reg {s} running new len buf f r) =
    handle_data_reg-HasInv running new len buf s f (Reach-HasInv s r)
Reach-HasInv _ (unreg {s} running send_rc len buf r) =
    handle_data_unreg-HasInv running send_rc len buf s (Reach-HasInv s r)
Reach-HasInv _ (group_unreg {s} running send_rc len buf r) =
    let (xs, v) = Reach-HasInv s r in
    let (ys, v', w) = handle_data_group_unreg-Without running send_rc len buf s xs v in (ys, v')
Reach-HasInv _ (poll {s} cfg m running r) =
    let (xs, v) = Reach-HasInv s r in
    let (ys, v', w) = monitoring-KeptBy cfg m running s xs v in (ys, v')
Reach-HasInv _ (clear {s} r) =
    let (xs, v) = Reach-HasInv s r in ([], (clear_monitoring-Freed s xs v).0)
