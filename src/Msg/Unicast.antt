-- ===== src/Msg/Unicast.antt =====
-- Whom a message to a name reaches.
use okscada.Prelude.{
  ℕ, ◌+◌, ◌≡◌, refl, sym, ap, ◌⊎◌, Bool, true, false, not, ◌||◌, List, [], ◌∷◌, Option, some,
  length, ltb, ◌==◌, if◌then◌else◌, arith, inl, inr,
}
use okscada.Prelude.CString.{bytes_eq, bytes_eq_iff}
use okscada.Msg.{MsgNode, Registry, find_node, is_registered, both_or_neither}
use okscada.Msg.Send.{
  Target, Message, SendErr, routed, delivered, rcvr_down, rcvr_full, target, finish,
  handle_msg_send,
}
use okscada.Msg.Unique.{Unique}

-- The node is in the list.
abbrev pub Among : MsgNode → List MsgNode → Type 0
Among n [] = ⊥
Among n (m ∷ ns) = (m ≡ n) ⊎ Among n ns

bytes_eq_sym : (a b : List ℕ) → bytes_eq a b ≡ false → bytes_eq b a ≡ false
bytes_eq_sym a b e = ground (arith, bytes_eq_iff a b, bytes_eq_iff b a)

or_left : (a b : Bool) → a || b ≡ false → a ≡ false
or_left true b e = e
or_left false b e = refl

or_rest : (a b : Bool) → a || b ≡ false → b ≡ false
or_rest true b e = cc
or_rest false b e = e

is_registered-Among :
    (w s : Option ℕ) (name : List ℕ) (n : MsgNode) (ns : List MsgNode)
    → is_registered w s name ns ≡ false
    → Among n ns
    → bytes_eq n.name name ≡ false
unfolding is_registered
is_registered-Among w s name n [] e h = elim h [ ]
is_registered-Among w s name n (m ∷ ns) e (inl p) = rw (sym p) (or_rest _ _ (or_left _ _ e))
is_registered-Among w s name n (m ∷ ns) e (inr h) =
    is_registered-Among w s name n ns (or_rest _ _ e) h

find_node-name :
    (ns : List MsgNode) (n : MsgNode)
    → Unique ns
    → Among n ns
    → find_node (λ m. bytes_eq m.name n.name) ns ≡ some n
unfolding find_node
find_node-name [] n u h = elim h [ ]
find_node-name (m ∷ ns) n u (inl p) =
    rw ((bytes_eq_iff m.name n.name).1 (ap (λ q. q.name) p)) (ap some p)
find_node-name (m ∷ ns) n u (inr h) =
    rw (bytes_eq_sym n.name m.name (is_registered-Among m.watch m.subject m.name n ns u.0 h))
      (find_node-name ns n u.1 h)

if_full :
    (agent_of : ℕ → ℕ) (send : Target → Bool) (b : Bool) (op : ℕ) (x : List Target × SendErr)
    → finish agent_of send op (if b then some ([], rcvr_full) else some x)
      ≡ (if b then routed [] rcvr_full (not (op == 0)) else routed x.0 x.1 (not (op == 0)))
if_full agent_of send true op x = refl
if_full agent_of send false op x = refl

-- An accepted message to the name of a node of the registry, where no two nodes share a name, goes to the
-- connection of that node and to no other, and its sender is told OK where the packet went out, and that the
-- receiver is down where it did not; where the node is full no packet is sent, and the sender is told so.
pub handle_msg_send-unicast :
    (agent_of : ℕ → ℕ) (send : Target → Bool) (watch agent : Option ℕ) (len : ℕ) (m : Message)
    (r : Registry) (n : MsgNode) (t : Target)
    → Unique r.nodes
    → Among n r.nodes
    → m.dest ≡ n.name
    → target agent_of send n ≡ some t
    → both_or_neither watch agent ≡ false
    → ltb len 18 ≡ false
    → len == 18 + m.s_len + length m.dest + m.m_len ≡ true
    → ltb 0 (length m.dest) ≡ true
    → handle_msg_send agent_of send watch agent len m r ≡ (
        if n.is_full
        then routed [] rcvr_full (not (m.op == 0))
        else routed (t ∷ []) (if send t then delivered else rcvr_down) (not (m.op == 0)))
unfolding handle_msg_send
handle_msg_send-unicast agent_of send watch agent len m r n t u h d g a b c e =
    rw (a, b, c, e, d, find_node-name r.nodes n u h, g)
      (if_full agent_of send n.is_full m.op (t ∷ [], if send t then delivered else rcvr_down))
