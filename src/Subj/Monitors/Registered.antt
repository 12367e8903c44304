-- ===== src/Subj/Monitors/Registered.antt =====
-- What the handlers do to the list of monitors that the records in memory stand for.
use okscada.Prelude.{
  ℕ, ◌≡◌, ◌≢◌, ◌⊎◌, inl, inr, refl, sym, ap, ◌∙◌, subst, Bool, true, false, not, ◌||◌, [], ◌∷◌,
  ◌++◌, Option, none, some, leb, ◌==◌, if◌then◌else◌, arith, Bool-cases,
}
use okscada.Subj.{Memory}
use okscada.Subj.Monitors.{
  Monitor, Node, Heap, Monitors, Reply, reg_ack, reg_nak, unreg_ack, unreg_nak, requested,
  is_refused, points_to, find_forward, find_backward, is_found, is_pointer_kind, add_monitor,
  remove_found, deallocate_monitor, register_monitor, unregister_monitoring,
}
use okscada.Subj.Monitors.Segs.{Entries, is_in, is_in-append}
use okscada.Subj.Monitors.Links.{Links, IsWithin, allocate_monitor-Links, deallocate_monitor-Links}
use okscada.Subj.Monitors.Found.{has, Entry, Found, find_forward-Found, find_backward-Found}
use okscada.Subj.Monitors.Handlers.{Inv, has-append, Unique, Unique-remove, Unique-add}

pub IsWithin-behind : (o : Option ℕ) (xs ys : Entries) → IsWithin o ys → IsWithin o (xs ++ ys)
IsWithin-behind o xs ys (inl e) = inl e
IsWithin-behind o xs ys (inr (c, e, i)) = inr (c, e, ground (arith, is_in-append c xs ys, i))

IsWithin-before : (o : Option ℕ) (xs ys : Entries) → IsWithin o xs → IsWithin o (xs ++ ys)
IsWithin-before o xs ys (inl e) = inl e
IsWithin-before o xs ys (inr (c, e, i)) = inr (c, e, ground (arith, is_in-append c xs ys, i))

still_in :
    (c p : ℕ) (xs : Entries) (m : Monitor) (ys : Entries)
    → is_in c (xs ++ (p, m) ∷ ys) ≡ true
    → (c == p) ≡ false
    → is_in c (xs ++ ys) ≡ true
still_in c p xs m ys i n =
    let z = is_in-append c xs ((p, m) ∷ ys) in
    let z' = is_in-append c xs ys in ground (arith, z, z', i, n)

some_ne_none : {A : Type 0} {a : A} → some a ≢ none
some_ne_none e = cc

pub some_eq : {A : Type 0} (a b : A) → some a ≡ some b → a ≡ b
some_eq a b e = cc

moved_on :
    (o nx : Option ℕ) (p : ℕ) (xs : Entries) (m : Monitor) (ys : Entries)
    → IsWithin o (xs ++ (p, m) ∷ ys)
    → IsWithin nx ys
    → IsWithin (if points_to o p then nx else o) (xs ++ ys)
moved_on none nx p xs m ys w v = inl refl
moved_on (some c) nx p xs m ys w v = elim (Bool-cases (c == p)) [
  | inl e ↦ rw e (IsWithin-behind nx xs ys v)
  | inr e ↦ rw e (elim w [
    | inl z ↦ absurd (some_ne_none z)
    | inr (d, z, i) ↦ inr (
      c,
      refl,
      still_in c p xs m ys (subst (λ x. is_in x (xs ++ (p, m) ∷ ys) ≡ true) (sym (some_eq c d z)) i)
          e,
    )
  ])
]

-- The record for the ooid is gone, and all others are as they were; or there was none.
abbrev pub Removed : Bool → ℕ → Monitors → Entries → Monitors × Bool × Reply → Type 0
Removed send_rc ooid s xs (s', rc, reply) =
    ((has ooid xs ≡ false) × (s' ≡ s) × (rc ≡ false) × (reply ≡ unreg_nak ooid))
    ⊎ ((p : ℕ) × (w : Entry xs ooid p) × Inv s' (w.front ++ w.back)
        × (has ooid (w.front ++ w.back) ≡ false)
        × (rc ≡ send_rc)
        × (reply ≡ unreg_ack ooid))

with_cur :
    (s : Monitors) (xs : Entries) (c : Option ℕ) → Links s xs → Links (record s { cur_mon = c }) xs
with_cur s xs c w = record { seg = w.seg; distinct = w.distinct; counted = w.counted }

pub taken :
    (s : Monitors) (p : ℕ) (nd : Node) (xs : Entries) (m : Monitor) (ys : Entries)
    → s.heap p ≡ some nd
    → Links s (xs ++ (p, m) ∷ ys)
    → IsWithin nd.next ys × Links (deallocate_monitor p nd s) (xs ++ ys)
taken s p nd xs m ys i w =
    let (nd', i', v, l) = deallocate_monitor-Links s xs p m ys w in
    subst (λ z. IsWithin z.next ys × Links (deallocate_monitor p z s) (xs ++ ys))
      (some_eq nd' nd (sym i' ∙ i)) (v, l)

remove_found-Removed :
    (send_rc : Bool) (ooid : ℕ) (s : Monitors) (xs : Entries) (o : Option (ℕ × Node))
    → Inv s xs
    → Found s.heap xs ooid o
    → Removed send_rc ooid s xs (remove_found send_rc ooid s o)
remove_found-Removed send_rc ooid s xs none v n = inl (n, refl, refl, refl)
remove_found-Removed send_rc ooid s xs (some (p, nd)) v (i, w) =
    let cur = if points_to s.cur_mon p then nd.next else s.cur_mon in
    let l = subst (Links (record s { cur_mon = cur })) w.parts (with_cur s xs cur v.links) in
    let u = Unique-remove w.front p w.mon w.back (subst Unique w.parts v.unique) in
    let t = taken (record s { cur_mon = cur }) p nd w.front w.mon w.back i l in
    inr (
      p,
      w,
      record {
        links = t.1;
        unique = u.0;
        current =
            moved_on s.cur_mon nd.next p w.front w.mon w.back
              (subst (IsWithin s.cur_mon) w.parts v.current) t.0;
      },
      subst (λ z. has z (w.front ++ w.back) ≡ false) w.named u.1,
      refl,
      refl,
    )

-- On a list without duplicates, osubjUnregisterMonitoring takes out the record for the ooid, acknowledges it and returns
-- what the sending of the reply returns, with the links, the count and osubj_cur_mon in
-- order; or there is no such record, it changes nothing, sends a negative reply and returns ERROR.
pub unregister_monitoring-Removed :
    (send_rc : Bool) (ooid : ℕ) (s : Monitors) (xs : Entries)
    → Inv s xs
    → Removed send_rc ooid s xs (unregister_monitoring send_rc ooid s)
unfolding unregister_monitoring
unregister_monitoring-Removed send_rc ooid s xs v =
    remove_found-Removed send_rc ooid s xs (find_backward ooid s) v
      (find_backward-Found s xs ooid v.links)

has_named :
    (ooid p : ℕ) (m : Monitor) (xs ys : Entries)
    → m.ooid ≡ ooid
    → (has ooid xs || has ooid ((p, m) ∷ ys)) ≡ true
has_named ooid p m xs ys e = ground (arith, e)

is_found-has :
    (h : Heap) (xs : Entries) (ooid : ℕ) (o : Option (ℕ × Node))
    → Found h xs ooid o
    → is_found o ≡ has ooid xs
is_found-has h xs ooid none n = sym n
is_found-has h xs ooid (some (p, nd)) (i, w) = sym (
    ap (has ooid) w.parts
    ∙ has-append ooid w.front ((p, w.mon) ∷ w.back)
    ∙ has_named ooid p w.mon w.front w.back w.named)

-- What is refused: no ooid, one that has a monitor, an unknown kind of pointer, or a bad length.
abbrev pub is_bad : Monitor → Entries → Bool
is_bad mon xs =
    mon.ooid == 0
    || (has mon.ooid xs || (not (is_pointer_kind mon.ptr) || (mon.len == 0 || leb 4192 mon.len)))

-- The address of a new record is of memory that was not allocated.
abbrev pub IsFresh : Heap → Option ℕ → Type 0
IsFresh h none = Unit {0}
IsFresh h (some p) = h p ≡ none

-- The record is at the end of the list; or the request was refused, or there was no memory.
abbrev pub Added : Option ℕ → Monitor → Monitors → Entries → Monitors × Bool × Reply → Type 0
Added new mon s xs (s', rc, reply) =
    (((is_bad mon xs ≡ true) ⊎ (new ≡ none)) × (s' ≡ s) × (rc ≡ false) × (reply ≡ reg_nak mon.ooid))
    ⊎ ((p : ℕ) × (new ≡ some p)
        × (is_bad mon xs ≡ false)
        × Inv s' (xs ++ (p, mon) ∷ [])
        × (rc ≡ true)
        × (reply ≡ reg_ack mon.ooid))

add_monitor-Added :
    (new : Option ℕ) (mon : Monitor) (s : Monitors) (xs : Entries)
    → IsFresh s.heap new
    → Inv s xs
    → is_bad mon xs ≡ false
    → Added new mon s xs (add_monitor new mon s)
add_monitor-Added none mon s xs z v b = inl (inr refl, refl, refl, refl)
add_monitor-Added (some p) mon s xs z v b = inr (
  p,
  refl,
  b,
  record {
    links = allocate_monitor-Links s xs p mon z v.links;
    unique = Unique-add xs p mon (ground (arith, b)) v.unique;
    current = IsWithin-before s.cur_mon xs ((p, mon) ∷ []) v.current;
  },
  refl,
  refl,
)

is_refused-is_bad :
    (mon : Monitor) (s : Monitors) (xs : Entries) → Inv s xs → is_refused mon s ≡ is_bad mon xs
is_refused-is_bad mon s xs v =
    ap
      (λ b.
        mon.ooid == 0
        || (b || (not (is_pointer_kind mon.ptr) || (mon.len == 0 || leb 4192 mon.len))))
      (is_found-has s.heap xs mon.ooid (find_forward mon.ooid s)
        (find_forward-Found s xs mon.ooid v.links))

-- With memory at an address that is not in use, or with none, the registration of a variable puts its
-- record at the end of a list without duplicates and acknowledges it, with the links, the count and
-- osubj_cur_mon in order; or it changes nothing, sends a negative reply and returns ERROR, which it does
-- just when the ooid is 0 or has a monitor, the kind of pointer is unknown, the length is not from 1 to 4191, or
-- there is no memory.
pub register_monitor-Added :
    (new : Option ℕ) (buf : Memory) (s : Monitors) (xs : Entries)
    → IsFresh s.heap new
    → Inv s xs
    → Added new (requested buf) s xs (register_monitor new buf s)
unfolding register_monitor
register_monitor-Added new buf s xs z v =
    let e = is_refused-is_bad (requested buf) s xs v in
    elim (Bool-cases (is_refused (requested buf) s)) [
      | inl b ↦ rw b (inl (inl (sym e ∙ b), refl, refl, refl))
      | inr b ↦ rw b (add_monitor-Added new (requested buf) s xs z v (sym e ∙ b))
    ]
