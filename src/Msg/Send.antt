-- ===== src/Msg/Send.antt =====
-- `ohubHandleMsgSend`: where a message goes, and what its sender is told.
use okscada.Prelude.{
  ℕ, ◌+◌, Bool, true, false, not, ◌||◌, List, [], ◌∷◌, ◌++◌, Option, none, some, length, ltb, ◌==◌,
  if◌then◌else◌,
}
use okscada.Prelude.CString.{bytes_eq}
use okscada.Msg.{MsgNode, MsgClass, Registry, both_or_neither, find_node, serves}

-- The connection that a packet is sent on.
pub data Target : Type 0 where
  to_watch : ℕ → Target
  to_agent : ℕ → Target

-- OK, OLANG_ERR_RCVR_OFF, OLANG_ERR_RCVR_FULL and OLANG_ERR_RCVR_DOWN.
pub data SendErr : Type 0 where
  delivered rcvr_off rcvr_full rcvr_down : SendErr

-- The head of a message: `m_op`, the lengths, the target's name (`d_len` bytes without a 0) and
-- `m_klass`.
pub record Message : Type 0 where
  pub op : ℕ
  pub s_len : ℕ
  pub m_len : ℕ
  pub dest : List ℕ
  pub klass : ℕ

-- `routed`: the packets that were sent, the error code, and whether a reply went to the sender.
-- `faulted`: the code has read a node that was freed.
pub data SendResult : Type 0 where
  rejected : SendResult
  routed : List Target → SendErr → Bool → SendResult
  faulted : SendResult

-- `send` is the result of `ohubWatchSendPacket` or `ohubSubjSendPacket` for a packet.
module _ (agent_of : ℕ → ℕ) (send : Target → Bool) where
  -- A null subject would be followed here; `none` stands for that fault.
  abbrev pub target : MsgNode → Option Target
  target n = elim n.watch [
    | some w ↦ some (to_watch w)
    | none ↦ elim n.subject [ some s ↦ some (to_agent (agent_of s)) | none ↦ none ]
  ]

  abbrev pub unicast_to : Option Target → Option (List Target × SendErr)
  unicast_to none = none
  unicast_to (some t) = some (t ∷ [], if send t then delivered else rcvr_down)

  -- `if (d_len > 0)`.
  abbrev pub unicast : Option MsgNode → Option (List Target × SendErr)
  unicast none = some ([], rcvr_off)
  unicast (some n) = if n.is_full then some ([], rcvr_full) else unicast_to (target n)

  -- A packet to one more node, before those that follow.
  abbrev pub send_more : Option Target → Option (List Target × Bool) → Option (List Target × Bool)
  send_more none rest = none
  send_more (some t) none = none
  send_more (some t) (some (ts, good)) = some (t ∷ ts, send t || good)

  abbrev pub visit :
      Bool → Option MsgNode → Option (List Target × Bool) → Option (List Target × Bool)
  visit here none rest = none
  visit true (some n) rest = rest
  visit false (some n) rest = send_more (target n) rest

  abbrev pub is_passed : Option ℕ → Option ℕ → Option MsgNode → Bool
  is_passed watch agent none = false
  is_passed watch agent (some n) = serves agent_of watch agent n || n.is_full

  abbrev pub node_of : List MsgNode → ℕ → Option MsgNode
  node_of ns id = find_node (λ n. n.id == id) ns

  -- The loop over the nodes of a class: the sender and the nodes that are full are passed over.
  unfoldable pub send_nodes :
      Option ℕ → Option ℕ → List MsgNode → List ℕ → Option (List Target × Bool)
  send_nodes watch agent ns [] = some ([], false)
  send_nodes watch agent ns (id ∷ ids) =
      visit (is_passed watch agent (node_of ns id)) (node_of ns id) (send_nodes watch agent ns ids)

  abbrev pub join :
      Option (List Target × Bool) → Option (List Target × Bool) → Option (List Target × Bool)
  join none b = none
  join (some a) none = none
  join (some (ts, x)) (some (us, y)) = some (ts ++ us, x || y)

  -- The loop over the classes.
  unfoldable pub send_classes :
      Option ℕ → Option ℕ → List MsgNode → ℕ → List MsgClass → Option (List Target × Bool)
  send_classes watch agent ns k [] = some ([], false)
  send_classes watch agent ns k (c ∷ cs) =
      let rest = send_classes watch agent ns k cs in
      if c.klass == k then join (send_nodes watch agent ns c.node_list) rest else rest

  abbrev pub broadcast_err : Option (List Target × Bool) → Option (List Target × SendErr)
  broadcast_err none = none
  broadcast_err (some (ts, good)) = some (ts, if good then delivered else rcvr_down)

  abbrev pub route : Option ℕ → Option ℕ → Message → Registry → Option (List Target × SendErr)
  route watch agent m r =
      if ltb 0 (length m.dest)
      then unicast (find_node (λ n. bytes_eq n.name m.dest) r.nodes)
      else if m.klass == 0
      then some ([], rcvr_down)
      else broadcast_err (send_classes watch agent r.nodes m.klass r.classes)

  abbrev pub finish : ℕ → Option (List Target × SendErr) → SendResult
  finish op none = faulted
  finish op (some (ts, err)) = routed ts err (not (op == 0))

  -- `ohubHandleMsgSend` of a packet of `len` bytes.
  unfoldable pub handle_msg_send : Option ℕ → Option ℕ → ℕ → Message → Registry → SendResult
  handle_msg_send watch agent len m r =
      if both_or_neither watch agent
        || (ltb len 18 || not (len == 18 + m.s_len + length m.dest + m.m_len))
      then rejected
      else finish m.op (route watch agent m r)
