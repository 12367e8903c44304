-- ===== src/Msg/KlassNum.antt =====
-- `klass_num` counts the classes of a node, and the removal of a node relies on it. No code adds to it.
use okscada.Prelude.{
  ℕ, ◌≡◌, refl, ap, inl, inr, Bool, true, List, [], ◌∷◌, Option, none, some, ◌==◌, arith,
  Option-cases,
}
use okscada.Msg.{
  MsgNode, MsgClass, Registry, NodeAction, add, remove, flush, register_msg_node, find_node,
  has_refs, purge_found, purge_classes, update_node, remove_node, class_loop, one_class,
  handle_msg_class_act, handle_msg_water_mark, purge, serves, empty_registry, less_klass, act_on,
}

abbrev pub AllZero : List MsgNode → Type 0
AllZero [] = Unit {0}
AllZero (n ∷ ns) = (n.klass_num ≡ 0) × AllZero ns

find_node-AllZero :
    (p : MsgNode → Bool) (ns : List MsgNode) (n : MsgNode)
    → AllZero ns
    → find_node p ns ≡ some n
    → n.klass_num ≡ 0
unfolding find_node
find_node-AllZero p [] n z e = cc
find_node-AllZero p (m ∷ ns) n z e = ground (arith, find_node-AllZero p ns n z.1)

remove_node-AllZero : (id : ℕ) (ns : List MsgNode) → AllZero ns → AllZero (remove_node id ns)
unfolding remove_node
remove_node-AllZero id [] z = tt
remove_node-AllZero id (n ∷ ns) z = ground (arith, remove_node-AllZero id ns z.1)

update_node-AllZero :
    (id : ℕ) (g : MsgNode → MsgNode) (ns : List MsgNode)
    → ((n : MsgNode) → n.klass_num ≡ 0 → (g n).klass_num ≡ 0)
    → AllZero ns
    → AllZero (update_node id g ns)
unfolding update_node
update_node-AllZero id g [] h z = tt
update_node-AllZero id g (n ∷ ns) h z = ground (arith, h n z.0, update_node-AllZero id g ns h z.1)

purge_classes-zero : (id : ℕ) (cs : List MsgClass) → purge_classes id 0 cs ≡ (0, cs)
unfolding purge_classes
purge_classes-zero id [] = refl
purge_classes-zero id (c ∷ cs) = refl

chosen-AllZero :
    (a : NodeAction) (id : ℕ) (ns : List MsgNode)
    → AllZero ns
    → AllZero (elim a [ remove ↦ remove_node id ns | _ ↦ ns ])
chosen-AllZero add id ns z = z
chosen-AllZero remove id ns z = remove_node-AllZero id ns z
chosen-AllZero flush id ns z = z

purge-AllZero :
    (a : NodeAction) (n : MsgNode) (r : Registry)
    → n.klass_num ≡ 0
    → AllZero r.nodes
    → AllZero (purge a n r).nodes × ((purge a n r).classes ≡ r.classes)
purge-AllZero a n r e z =
    let p : purge_classes n.id n.klass_num r.classes ≡ (0, r.classes) =
      rw e (purge_classes-zero n.id r.classes) in
    (
      chosen-AllZero a n.id _ (update_node-AllZero n.id _ r.nodes (λ m h. ap (λ q. q.0) p) z),
      ap (λ q. q.1) p,
    )

purge_found-AllZero :
    (a : NodeAction) (p : MsgNode → Bool) (r : Registry)
    → AllZero r.nodes
    → AllZero (purge_found a r (find_node p r.nodes)).0.nodes
      × ((purge_found a r (find_node p r.nodes)).0.classes ≡ r.classes)
purge_found-AllZero a p r z = elim (Option-cases (find_node p r.nodes)) [
  | inl e ↦ rw e (z, refl)
  | inr (n, e) ↦ rw e (purge-AllZero a n r (find_node-AllZero p r.nodes n z e) z)
]

register-AllZero :
    (watch subject : Option ℕ) (a : NodeAction) (name : List ℕ) (r : Registry)
    → AllZero r.nodes
    → AllZero (register_msg_node watch subject a name r).0.nodes
unfolding register_msg_node
register-AllZero watch subject add name r z = ground arith
register-AllZero watch subject remove name r z =
    ground (arith, purge_found-AllZero remove (has_refs watch subject) r z)
register-AllZero watch subject flush name r z =
    ground (arith, purge_found-AllZero flush (has_refs watch subject) r z)

one_class-AllZero :
    (enable : Bool) (n : MsgNode) (k : ℕ) (r : Registry)
    → AllZero r.nodes
    → AllZero (one_class enable n k r).0.nodes
one_class-AllZero enable n k r z =
    ground (arith, update_node-AllZero n.id less_klass r.nodes (λ m h. omega arith) z)

class_loop-AllZero :
    (enable : Bool) (n : MsgNode) (ks : List ℕ) (r : Registry)
    → AllZero r.nodes
    → AllZero (class_loop enable n ks r).0.nodes
unfolding class_loop
class_loop-AllZero enable n [] r z = z
class_loop-AllZero enable n (k ∷ ks) r z = ground (
  arith,
  one_class-AllZero enable n k r z,
  class_loop-AllZero enable n ks r z,
  class_loop-AllZero enable n ks (one_class enable n k r).0,
)

-- What the connections ask of the registry.
pub data Call : Type 0 where
  register : Option ℕ → Option ℕ → NodeAction → List ℕ → Call
  act : Option ℕ → Option ℕ → ℕ → ℕ → List ℕ → Call
  mark : Option ℕ → Option ℕ → Bool → ℕ → Call

module _ (agent_of : ℕ → ℕ) where
  act_on-AllZero :
      (action : ℕ) (ks : List ℕ) (r : Registry) (o : Option MsgNode)
      → AllZero r.nodes
      → AllZero (act_on agent_of action ks r o).0.nodes
  act_on-AllZero action ks r none z = z
  act_on-AllZero action ks r (some n) z = ground (
    arith,
    class_loop-AllZero (action == 1) n ks r z,
    class_loop-AllZero true n ks (register_msg_node n.watch n.subject flush n.name r).0,
    register-AllZero n.watch n.subject flush n.name r z,
  )

  act-AllZero :
      (watch agent : Option ℕ) (len action : ℕ) (ks : List ℕ) (r : Registry)
      → AllZero r.nodes
      → AllZero (handle_msg_class_act agent_of watch agent len action ks r).0.nodes
  unfolding handle_msg_class_act
  act-AllZero watch agent len action ks r z =
      ground (arith, act_on-AllZero action ks r (find_node (serves agent_of watch agent) r.nodes) z)

  mark-AllZero :
      (watch agent : Option ℕ) (himark : Bool) (len : ℕ) (r : Registry)
      → AllZero r.nodes
      → AllZero (handle_msg_water_mark agent_of watch agent himark len r).0.nodes
  unfolding handle_msg_water_mark
  mark-AllZero watch agent himark len r z =
      elim (Option-cases (find_node (serves agent_of watch agent) r.nodes)) [
        | inl e ↦ ground arith
        | inr (n, e) ↦ ground (
          arith,
          update_node-AllZero n.id (λ m. record m { is_full = himark }) r.nodes (λ m h. h) z,
        )
      ]

  unfoldable pub step : Registry → Call → Registry
  step r (register watch subject a name) = (register_msg_node watch subject a name r).0
  step r (act watch agent len action ks) =
      (handle_msg_class_act agent_of watch agent len action ks r).0
  step r (mark watch agent himark len) = (handle_msg_water_mark agent_of watch agent himark len r).0

  unfoldable pub run : Registry → List Call → Registry
  run r [] = r
  run r (c ∷ cs) = run (step r c) cs

  step-AllZero : (r : Registry) (c : Call) → AllZero r.nodes → AllZero (step r c).nodes
  unfolding step
  step-AllZero r (register watch subject a name) z = register-AllZero watch subject a name r z
  step-AllZero r (act watch agent len action ks) z = act-AllZero watch agent len action ks r z
  step-AllZero r (mark watch agent himark len) z = mark-AllZero watch agent himark len r z

  run-AllZero : (r : Registry) (cs : List Call) → AllZero r.nodes → AllZero (run r cs).nodes
  unfolding run
  run-AllZero r [] z = z
  run-AllZero r (c ∷ cs) z = run-AllZero (step r c) cs (step-AllZero r c z)

  -- After any calls of the registry from its start, the removal of a node leaves all class lists as
  -- they were: a node that is removed stays in the lists of the classes that it has subscribed to.
  pub register-remove_leaves_classes :
      (cs : List Call) (watch subject : Option ℕ) (name : List ℕ)
      → let r = run empty_registry cs in
        (register_msg_node watch subject remove name r).0.classes ≡ r.classes
  unfolding register_msg_node
  register-remove_leaves_classes cs watch subject name =
      let r = run empty_registry cs in
      ground (
        arith,
        purge_found-AllZero remove (has_refs watch subject) r (run-AllZero empty_registry cs tt),
      )
