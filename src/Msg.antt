-- ===== src/Msg.antt =====
-- hub/hub-msg.c: the registry of message nodes and message classes, and the routing of messages.
-- A pointer is a number, and a null pointer is `none`; the node that `oxnew` gives is numbered by
-- `next_id`. Memory is not exhausted. A packet is given as its 16-bit words in host order.
pub mod Send
pub mod KlassNum
pub mod Unique
pub mod Unicast
pub mod Broadcast
use okscada.Prelude.{
  ℕ, zero, suc, ◌+◌, ◌-◌, ◌*◌, Bool, true, false, not, ◌&&◌, ◌||◌, List, [], ◌∷◌, Option, none,
  some, length, ltb, ◌==◌, if◌then◌else◌,
}
use okscada.Prelude.CString.{bytes_eq}

-- `OhubMsgNode_t`.
pub record MsgNode : Type 0 where
  pub id : ℕ
  pub name : List ℕ
  pub is_full : Bool
  pub klass_num : ℕ
  pub subject : Option ℕ
  pub watch : Option ℕ

-- `OhubMsgClass_t`, with the nodes of its `node_list`.
pub record MsgClass : Type 0 where
  pub klass : ℕ
  pub node_list : List ℕ

-- `ohub_msg_nodes` and `ohub_msg_classes`.
pub record Registry : Type 0 where
  pub nodes : List MsgNode
  pub classes : List MsgClass
  pub next_id : ℕ

abbrev pub empty_registry : Registry
empty_registry = record { nodes = []; classes = []; next_id = 1 }

-- `OhubNodeAction`.
pub data NodeAction : Type 0 where
  add remove flush : NodeAction

abbrev pub same_ptr : Option ℕ → Option ℕ → Bool
same_ptr none none = true
same_ptr none (some b) = false
same_ptr (some a) none = false
same_ptr (some a) (some b) = a == b

abbrev pub is_null : Option ℕ → Bool
is_null none = true
is_null (some a) = false

-- Both of two pointers, or neither of them.
abbrev pub both_or_neither : Option ℕ → Option ℕ → Bool
both_or_neither none none = true
both_or_neither none (some b) = false
both_or_neither (some a) none = false
both_or_neither (some a) (some b) = true

abbrev pub has_refs : Option ℕ → Option ℕ → MsgNode → Bool
has_refs watch subject n = same_ptr n.watch watch && same_ptr n.subject subject

-- A node with the same references or the same name.
unfoldable pub is_registered : Option ℕ → Option ℕ → List ℕ → List MsgNode → Bool
is_registered watch subject name [] = false
is_registered watch subject name (n ∷ ns) =
    (has_refs watch subject n || bytes_eq n.name name) || is_registered watch subject name ns

unfoldable pub find_node : (MsgNode → Bool) → List MsgNode → Option MsgNode
find_node p [] = none
find_node p (n ∷ ns) = if p n then some n else find_node p ns

-- The inner loop of the removal: entries of the node go until its `klass_num` is used up.
pub purge_list : ℕ → ℕ → List ℕ → ℕ × List ℕ
purge_list id zero l = (zero, l)
purge_list id (suc k) [] = (suc k, [])
purge_list id (suc k) (x ∷ l) =
    let hit = purge_list id k l in
    let (k', rest) = purge_list id (suc k) l in if x == id then hit else (k', x ∷ rest)

-- A class that has no node left is taken out.
abbrev pub keep_class : MsgClass → List ℕ → List MsgClass → List MsgClass
keep_class c [] cs = cs
keep_class c (x ∷ l) cs = record c { node_list = x ∷ l } ∷ cs

-- `while (NULL != pklass && pnode->klass_num > 0)`.
pub purge_classes : ℕ → ℕ → List MsgClass → ℕ × List MsgClass
purge_classes id k [] = (k, [])
purge_classes id zero (c ∷ cs) = (zero, c ∷ cs)
purge_classes id (suc k) (c ∷ cs) =
    let (k₁, l) = purge_list id (suc k) c.node_list in
    let (k₂, rest) = purge_classes id k₁ cs in (k₂, keep_class c l rest)

-- The node with the identity `id` gets other contents.
pub update_node : ℕ → (MsgNode → MsgNode) → List MsgNode → List MsgNode
update_node id g [] = []
update_node id g (n ∷ ns) = if n.id == id then g n ∷ ns else n ∷ update_node id g ns

pub remove_node : ℕ → List MsgNode → List MsgNode
remove_node id [] = []
remove_node id (n ∷ ns) = if n.id == id then ns else n ∷ remove_node id ns

-- The part of the removal behind the search.
abbrev pub purge : NodeAction → MsgNode → Registry → Registry
purge action n r =
    let (k, cs) = purge_classes n.id n.klass_num r.classes in
    let ns = update_node n.id (λ m. record m { klass_num = k }) r.nodes in
    record r { classes = cs; nodes = elim action [ remove ↦ remove_node n.id ns | _ ↦ ns ] }

abbrev pub purge_found : NodeAction → Registry → Option MsgNode → Registry × Bool
purge_found action r none = (r, false)
purge_found action r (some n) = (purge action n r, true)

abbrev pub add_node : Option ℕ → Option ℕ → List ℕ → Registry → Registry
add_node watch subject name r =
    let n : MsgNode = record {
      id = r.next_id;
      name = name;
      is_full = false;
      klass_num = 0;
      subject = subject;
      watch = watch;
    } in
    record r { nodes = n ∷ r.nodes; next_id = r.next_id + 1 }

-- `ohubRegisterMsgNode`. OK is `true`.
pub register_msg_node : Option ℕ → Option ℕ → NodeAction → List ℕ → Registry → Registry × Bool
register_msg_node watch subject add name r =
    if both_or_neither watch subject || is_registered watch subject name r.nodes
    then (r, false)
    else (add_node watch subject name r, true)
register_msg_node watch subject remove name r =
    if both_or_neither watch subject
    then (r, false)
    else purge_found remove r (find_node (has_refs watch subject) r.nodes)
register_msg_node watch subject flush name r =
    if both_or_neither watch subject
    then (r, false)
    else purge_found flush r (find_node (has_refs watch subject) r.nodes)

-- The entries of the class list.
pub find_class : ℕ → List MsgClass → Option MsgClass
find_class k [] = none
find_class k (c ∷ cs) = if c.klass == k then some c else find_class k cs

pub has_node : ℕ → List ℕ → Bool
has_node id [] = false
has_node id (x ∷ l) = x == id || has_node id l

pub remove_id : ℕ → List ℕ → List ℕ
remove_id id [] = []
remove_id id (x ∷ l) = if x == id then l else x ∷ remove_id id l

-- The first class of that number gets other nodes, and goes where it has none left.
pub set_class : ℕ → List ℕ → List MsgClass → List MsgClass
set_class k l [] = []
set_class k l (c ∷ cs) = if c.klass == k then keep_class c l cs else c ∷ set_class k l cs

-- One class of the packet under `enable`; a class that the node has already is an error.
abbrev pub enable_class : MsgNode → ℕ → Registry → Option MsgClass → Registry × Bool
enable_class n k r none =
    let c : MsgClass = record { klass = k; node_list = n.id ∷ [] } in
    (record r { classes = c ∷ r.classes }, true)
enable_class n k r (some c) =
    if has_node n.id c.node_list
    then (r, false)
    else (record r { classes = set_class k (n.id ∷ c.node_list) r.classes }, true)

-- `if (pnode->klass_num > 0) pnode->klass_num --`.
abbrev pub less_klass : MsgNode → MsgNode
less_klass n = record n { klass_num = n.klass_num - 1 }

-- One class of the packet without `enable`; a class that the node lacks is an error.
abbrev pub disable_class : MsgNode → ℕ → Registry → Option MsgClass → Registry × Bool
disable_class n k r none = (r, false)
disable_class n k r (some c) =
    if has_node n.id c.node_list
    then (
      record r {
        classes = set_class k (remove_id n.id c.node_list) r.classes;
        nodes = update_node n.id less_klass r.nodes;
      },
      true,
    )
    else (r, false)

abbrev pub one_class : Bool → MsgNode → ℕ → Registry → Registry × Bool
one_class enable n k r =
    if enable
    then enable_class n k r (find_class k r.classes)
    else disable_class n k r (find_class k r.classes)

-- The loop over the classes of the packet: class 0 is passed over, an error ends it.
pub class_loop : Bool → MsgNode → List ℕ → Registry → Registry × Bool
class_loop enable n [] r = (r, true)
class_loop enable n (k ∷ ks) r =
    let skip = class_loop enable n ks r in
    let (r', good) = one_class enable n k r in
    let rest = class_loop enable n ks r' in
    if k == 0 then skip else if good then rest else (r', false)

module _ (agent_of : ℕ → ℕ) where
  -- The node of a connection: of the watcher, or of a subject of the agent.
  abbrev pub serves : Option ℕ → Option ℕ → MsgNode → Bool
  serves watch agent n =
      elim n.subject [ none ↦ is_null agent | some s ↦ same_ptr (some (agent_of s)) agent ]
      && same_ptr n.watch watch

  abbrev pub act_on : ℕ → List ℕ → Registry → Option MsgNode → Registry × Bool
  act_on action ks r none = (r, false)
  act_on action ks r (some n) =
      if action == 2
      then class_loop true n ks (register_msg_node n.watch n.subject flush n.name r).0
      else class_loop (action == 1) n ks r

  -- `ohubHandleMsgClassAct`: `action` is the first word of the packet, and `ks` are the words behind
  -- the second, which is their count.
  pub handle_msg_class_act : Option ℕ → Option ℕ → ℕ → ℕ → List ℕ → Registry → Registry × Bool
  handle_msg_class_act watch agent len action ks r =
      if both_or_neither watch agent
        || (ltb len 6 || (ltb 2 action || not (len == length ks * 2 + 4)))
      then (r, false)
      else act_on action ks r (find_node (serves watch agent) r.nodes)

  -- `ohubHandleMsgWaterMark`; `himark` is `type == OLANG_MSG_HIMARK`.
  pub handle_msg_water_mark : Option ℕ → Option ℕ → Bool → ℕ → Registry → Registry × Bool
  handle_msg_water_mark watch agent himark len r =
      if both_or_neither watch agent || not (len == 0)
      then (r, false)
      else elim (find_node (serves watch agent) r.nodes) [
        | none ↦ (r, false)
        | some n ↦ (
          record r { nodes = update_node n.id (λ m. record m { is_full = himark }) r.nodes },
          true,
        )
      ]
