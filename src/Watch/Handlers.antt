-- ===== src/Watch/Handlers.antt =====
-- watch/watch-op.c: the handlers of the end of operations, and the idle handlers.
use okscada.Prelude.{
  ℕ, ◌+◌, Bool, true, false, List, [], ◌∷◌, Option, none, some, ltb, ◌==◌, if◌then◌else◌,
}
use okscada.Prelude.Int.{ℤ, pos}
use okscada.Watch.{OpHandlerRecord, Ops}

abbrev pub same_handler : ℕ → Option ℕ → Bool
same_handler p none = false
same_handler p (some q) = p == q

abbrev pub no_handler : OpHandlerRecord
no_handler = record { phand = none; param = pos 0 }

-- The first free slot gets the handler; `none` where there is none.
unfoldable pub add_handler : Option ℕ → ℤ → List OpHandlerRecord → Option (List OpHandlerRecord)
add_handler phand param [] = none
add_handler phand param (h ∷ hs) =
    let rest = add_handler phand param hs in
    elim h.phand [
      | none ↦ some (record { phand = phand; param = param } ∷ hs)
      | some p ↦ elim rest [ none ↦ none | some hs' ↦ some (h ∷ hs') ]
    ]

-- `owatchAddOpHandler`; its filter is not read. OK is `true`.
unfoldable pub add_op_handler : Option ℕ → ℤ → Ops → Ops × Bool
add_op_handler phand param t = elim (add_handler phand param t.op_handlers) [
  | none ↦ (t, false)
  | some hs ↦ (record t { op_handlers = hs }, true)
]

unfoldable pub remove_handler : ℕ → List OpHandlerRecord → List OpHandlerRecord × ℕ
remove_handler p [] = ([], 0)
remove_handler p (h ∷ hs) =
    let (rest, n) = remove_handler p hs in
    if same_handler p h.phand then (no_handler ∷ rest, n + 1) else (h ∷ rest, n)

-- `owatchRemoveOpHandler`.
unfoldable pub remove_op_handler : Option ℕ → Ops → Ops × Bool
remove_op_handler none t = (t, false)
remove_op_handler (some p) t =
    let (hs, n) = remove_handler p t.op_handlers in (record t { op_handlers = hs }, ltb 0 n)
