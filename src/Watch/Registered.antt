-- ===== src/Watch/Registered.antt =====
-- The table of handlers of the end of operations: what is added is there until it is removed.
use okscada.Prelude.{
  ℕ, suc, ◌≡◌, refl, ◌∙◌, Bool, true, false, List, [], ◌∷◌, Option, none, some, ltb, ==_refl,
  if◌then◌else◌, arith, Bool-cases, inl, inr,
}
use okscada.Prelude.Int.{ℤ}
use okscada.Watch.{Ops, OpHandlerRecord}
use okscada.Watch.Handlers.{
  add_handler, add_op_handler, remove_handler, remove_op_handler, same_handler,
}

-- The slots that hold the handler.
abbrev pub times : ℕ → List OpHandlerRecord → ℕ
times p [] = 0
times p (h ∷ hs) = if same_handler p h.phand then suc (times p hs) else times p hs

remove_handler-times :
    (p : ℕ) (hs : List OpHandlerRecord)
    → (times p (remove_handler p hs).0 ≡ 0) × ((remove_handler p hs).1 ≡ times p hs)
unfolding remove_handler
remove_handler-times p [] = (refl, refl)
remove_handler-times p (h ∷ hs) =
    let (a, b) = remove_handler-times p hs in
    elim (Bool-cases (same_handler p h.phand)) [
      | inl e ↦ rw e (a, omega (arith, b))
      | inr e ↦ rw (e, e) (a, b)
    ]

-- A table that got the handler `p` has it once more.
abbrev pub Added : ℕ → List OpHandlerRecord → Option (List OpHandlerRecord) → Type 0
Added p hs none = Unit {0}
Added p hs (some hs') = times p hs' ≡ suc (times p hs)

Added-under :
    (p x : ℕ) (h : OpHandlerRecord) (hs : List OpHandlerRecord) (o : Option (List OpHandlerRecord))
    → h.phand ≡ some x
    → Added p hs o
    → Added p (h ∷ hs) (elim o [ none ↦ none | some hs' ↦ some (h ∷ hs') ])
Added-under p x h hs none e a = tt
Added-under p x h hs (some hs') e a = elim (Bool-cases (same_handler p h.phand)) [
  | inl f ↦ rw (f, a) refl
  | inr f ↦ rw (f, a) refl
]

Added-slot :
    (p : ℕ) (param : ℤ) (x : Option ℕ) (q : ℤ) (hs : List OpHandlerRecord)
    → Added p hs (add_handler (some p) param hs)
    → let h : OpHandlerRecord = record { phand = x; param = q } in
      Added p (h ∷ hs) (add_handler (some p) param (h ∷ hs))
unfolding add_handler
Added-slot p param none q hs a = rw (==_refl p) refl
Added-slot p param (some x) q hs a =
    Added-under p x (record { phand = some x; param = q }) hs (add_handler (some p) param hs) refl a

add_handler-Added :
    (p : ℕ) (param : ℤ) (hs : List OpHandlerRecord) → Added p hs (add_handler (some p) param hs)
unfolding add_handler
add_handler-Added p param [] = tt
add_handler-Added p param (h ∷ hs) =
    Added-slot p param h.phand h.param hs (add_handler-Added p param hs)

found_handler : (n k : ℕ) → n ≡ suc k → ltb 0 n ≡ true
found_handler n k e = ground (arith, e)

removed-again :
    (p : ℕ) (t : Ops) (o : Option (List OpHandlerRecord))
    → Added p t.op_handlers o
    → let (t', good) : Ops × Bool = elim o [
      | none ↦ (t, false)
      | some hs ↦ (record t { op_handlers = hs }, true)
    ] in
      good ≡ true
      → let (u, fine) = remove_op_handler (some p) t' in (fine ≡ true) × (times p u.op_handlers ≡ 0)
unfolding remove_op_handler
removed-again p t none a e = cc
removed-again p t (some hs) a e =
    let (b, d) = remove_handler-times p hs in
    (found_handler (remove_handler p hs).1 (times p t.op_handlers) (d ∙ a), b)

-- `owatchRemoveOpHandler` of a handler that `owatchAddOpHandler` has just added succeeds, and leaves no entry
-- of the handler in the table.
pub remove_op_handler-add_op_handler :
    (p : ℕ) (param : ℤ) (t : Ops)
    → (add_op_handler (some p) param t).1 ≡ true
    → let (u, good) = remove_op_handler (some p) (add_op_handler (some p) param t).0 in
      (good ≡ true) × (times p u.op_handlers ≡ 0)
unfolding add_op_handler remove_op_handler
remove_op_handler-add_op_handler p param t e =
    removed-again p t (add_handler (some p) param t.op_handlers)
      (add_handler-Added p param t.op_handlers) e
