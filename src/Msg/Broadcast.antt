-- ===== src/Msg/Broadcast.antt =====
-- Whom a broadcast reaches, and what its sender is told.
use okscada.Prelude.{
  ℕ, ◌+◌, ◌≡◌, refl, Bool, true, false, not, ◌||◌, List, [], ◌∷◌, ◌++◌, Option, none, some, length,
  ltb, ◌==◌, if◌then◌else◌, arith, inl, inr, Option-cases, Bool-cases,
}
use okscada.Msg.{MsgNode, MsgClass, Registry, find_node, serves, both_or_neither}
use okscada.Msg.Send.{
  Target, SendResult, Message, delivered, rcvr_down, routed, faulted, target, send_nodes,
  send_classes, handle_msg_send, join,
}

abbrev pub any_sent : (Target → Bool) → List Target → Bool
any_sent send [] = false
any_sent send (t ∷ ts) = send t || any_sent send ts

abbrev pub members : ℕ → List MsgClass → List ℕ
members k [] = []
members k (c ∷ cs) = if c.klass == k then c.node_list ++ members k cs else members k cs

abbrev pub glue : Option (List Target) → Option (List Target) → Option (List Target)
glue none b = none
glue (some a) none = none
glue (some a) (some b) = some (a ++ b)

module _ (agent_of : ℕ → ℕ) (send : Target → Bool) (watch agent : Option ℕ)
    (ns : List MsgNode) where
  -- The nodes of the lists that are to get the broadcast, in order: those that are neither the
  -- sender nor full. `none` is a node that is no longer there, or that has no connection.
  pub receivers : List ℕ → Option (List Target)
  receivers [] = some []
  receivers (id ∷ ids) = elim (find_node (λ n. n.id == id) ns) [
    | none ↦ none
    | some n ↦
        let rest = receivers ids in
        if serves agent_of watch agent n || n.is_full then rest else elim (target agent_of send n) [
          | none ↦ none
          | some t ↦ elim rest [ none ↦ none | some ts ↦ some (t ∷ ts) ]
        ]
  ]

  abbrev pub report : Option (List Target) → Option (List Target × Bool)
  report none = none
  report (some ts) = some (ts, any_sent send ts)

  send_nodes-receivers :
      (ids : List ℕ) → send_nodes agent_of send watch agent ns ids ≡ report (receivers ids)
  unfolding send_nodes receivers
  send_nodes-receivers [] = refl
  send_nodes-receivers (id ∷ ids) = ground (arith, send_nodes-receivers ids)

  receivers-append : (is js : List ℕ) → receivers (is ++ js) ≡ glue (receivers is) (receivers js)
  unfolding receivers
  receivers-append [] js = elim (Option-cases (receivers js)) [ inl e ↦ rw e | inr (x, e) ↦ rw e ]
  receivers-append (i ∷ is) js = ground (arith, receivers-append is js)

  any_sent_append :
      (a b : List Target) → any_sent send (a ++ b) ≡ any_sent send a || any_sent send b
  any_sent_append [] b = refl
  any_sent_append (t ∷ a) b = ground (arith, any_sent_append a b)

  report-glue :
      (a b : Option (List Target)) → report (glue a b) ≡ join agent_of send (report a) (report b)
  report-glue none b = refl
  report-glue (some a) none = refl
  report-glue (some a) (some b) = rw (any_sent_append a b)

  send_classes-receivers :
      (k : ℕ) (cs : List MsgClass)
      → send_classes agent_of send watch agent ns k cs ≡ report (receivers (members k cs))
  unfolding send_classes receivers
  send_classes-receivers k [] = refl
  send_classes-receivers k (c ∷ cs) = elim (Bool-cases (c.klass == k)) [
    | inl e ↦ rw (
      e,
      send_nodes-receivers c.node_list,
      send_classes-receivers k cs,
      receivers-append c.node_list (members k cs),
      report-glue (receivers c.node_list) (receivers (members k cs)),
    )
    | inr e ↦ rw (e, send_classes-receivers k cs)
  ]

  -- The answer to a broadcast that is sent to these receivers.
  abbrev pub outcome : ℕ → Option (List Target) → SendResult
  outcome op none = faulted
  outcome op (some ts) =
      routed ts (if any_sent send ts then delivered else rcvr_down) (not (op == 0))

abbrev pub IsBroadcast : Option ℕ → Option ℕ → ℕ → Message → Type 0
IsBroadcast watch agent len m =
    (both_or_neither watch agent ≡ false)
    × (ltb len 18 ≡ false)
    × (len == 18 + m.s_len + length m.dest + m.m_len ≡ true)
    × (ltb 0 (length m.dest) ≡ false)
    × (m.klass == 0 ≡ false)

-- The answer to an accepted message that names no receiver and has a class is that of a loop over the
-- members of the classes of that number: each member that is neither the sender nor full gets a packet
-- once, in order, and the sender is told OK where a packet went out, and that the receiver is down
-- where none did. Where a member is no longer in the node list the code has read a freed node.
pub handle_msg_send-broadcast :
    (agent_of : ℕ → ℕ) (send : Target → Bool) (watch agent : Option ℕ) (len : ℕ) (m : Message)
    (r : Registry)
    → IsBroadcast watch agent len m
    → handle_msg_send agent_of send watch agent len m r
      ≡ outcome agent_of send watch agent r.nodes m.op
          (receivers agent_of send watch agent r.nodes (members m.klass r.classes))
unfolding handle_msg_send
handle_msg_send-broadcast agent_of send watch agent len m r (a, b, c, d, e) =
    elim (Option-cases (receivers agent_of send watch agent r.nodes (members m.klass r.classes))) [
      | inl f ↦ rw (
        a,
        b,
        c,
        d,
        e,
        send_classes-receivers agent_of send watch agent r.nodes m.klass r.classes,
        f,
      )
      | inr (ts, f) ↦ rw (
        a,
        b,
        c,
        d,
        e,
        send_classes-receivers agent_of send watch agent r.nodes m.klass r.classes,
        f,
      )
    ]
