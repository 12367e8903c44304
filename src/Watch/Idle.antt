-- ===== src/Watch/Idle.antt =====
-- watch/watch-op.c: the idle handlers, the calls that are put off, and the time-out of the library.
use okscada.Prelude.{
  ℕ, zero, suc, ◌+◌, ◌-◌, Bool, true, false, ◌||◌, List, [], ◌∷◌, ◌++◌, Option, none, some, ltb,
  leb, ◌==◌, if◌then◌else◌, replicate, drop, get_or,
}
use okscada.Prelude.Int.{ℤ, pos, negsuc}
use okscada.Watch.Handlers.{same_handler}

-- `owatch_idle_handler` and `owatch_idle_handler_qty`.
pub record Idle : Type 0 where
  pub idle_handler : List (Option ℕ)
  pub qty : ℕ

abbrev pub no_idle : Idle
no_idle = record { idle_handler = replicate 8 none; qty = 0 }

pub has_handler : ℕ → List (Option ℕ) → Bool
has_handler h [] = false
has_handler h (x ∷ xs) = same_handler h x || has_handler h xs

-- The table with the handler in its first free slot, and the number of that slot.
pub take_free : ℕ → List (Option ℕ) → Option (List (Option ℕ) × ℕ)
take_free h [] = none
take_free h (none ∷ xs) = some (some h ∷ xs, 0)
take_free h (some x ∷ xs) = elim (take_free h xs) [
  | none ↦ none
  | some (ys, i) ↦ some (some x ∷ ys, suc i)
]

-- The loop of the removal, over `n` slots: the slots behind a match move up, and the one that comes
-- to its place is passed over.
pub drop_handler : ℕ → ℕ → List (Option ℕ) → List (Option ℕ) × ℕ
drop_handler zero h xs = (xs, 0)
drop_handler (suc n) h [] = ([], 0)
drop_handler (suc n) h (x ∷ xs) =
    let moved = xs ++ none ∷ [] in
    let (zs, m) = drop_handler n h (drop 1 moved) in
    let (ys, k) = drop_handler n h xs in
    if same_handler h x then (get_or moved 0 none ∷ zs, suc m) else (x ∷ ys, k)

abbrev pub enable_free : Idle → Option (List (Option ℕ) × ℕ) → Idle × Bool
enable_free t none = (t, false)
enable_free t (some (xs, i)) =
    (record { idle_handler = xs; qty = if leb t.qty i then i + 1 else t.qty }, true)

-- `owatchRegisterIdleHandler`. OK is `true`.
pub register_idle_handler : Option ℕ → Bool → Idle → Idle × Bool
register_idle_handler none true t = (t, false)
register_idle_handler (some h) true t =
    if has_handler h t.idle_handler then (t, true) else enable_free t (take_free h t.idle_handler)
register_idle_handler none false t = (no_idle, true)
register_idle_handler (some h) false t =
    let (xs, k) = drop_handler 8 h t.idle_handler in
    (record { idle_handler = xs; qty = t.qty - k }, ltb 0 k)

-- `owatchRecordLazyCall`: the list from `owatch_first_lazy_call` on, as types and parameters.
pub record_lazy_call : ℕ → ℤ → List (ℕ × ℤ) → List (ℕ × ℤ)
record_lazy_call type param calls = calls ++ (type, param) ∷ []

-- `owatchPerformLazyCalls`: the list is emptied first, so calls that are put off by a handler wait for
-- the next time. `data` and `alive` are `owatchCallDataHandlers` and `owatchCallAliveHandlers`.
module _ {ℓ} {S : Type ℓ} (on_data on_alive : ℤ → S → S) where
  abbrev pub perform_call : ℕ × ℤ → S → S
  perform_call (type, param) s =
      if type == 1 then on_data param s else if type == 2 then on_alive param s else s

  pub perform_lazy_calls : List (ℕ × ℤ) → S → S × ℕ
  perform_lazy_calls [] s = (s, 0)
  perform_lazy_calls (c ∷ cs) s =
      let (s', n) = perform_lazy_calls cs (perform_call c s) in (s', suc n)

-- `owatchSetAsyncTimeout`: OWATCH_NOWAIT is 0 and OWATCH_FOREVER -1.
pub set_async_timeout : ℤ → ℤ → ℤ × Bool
set_async_timeout (pos n) old = (pos n, true)
set_async_timeout (negsuc zero) old = (negsuc zero, true)
set_async_timeout (negsuc (suc n)) old = (old, false)
