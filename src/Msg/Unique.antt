-- ===== src/Msg/Unique.antt =====
-- The nodes of the registry differ in their names and in their references.
use okscada.Prelude.{
  ℕ, ◌≡◌, refl, Bool, true, false, List, [], ◌∷◌, Option, none, some, ◌==◌, arith, Bool-cases,
  Option-cases, inl, inr,
}
use okscada.Msg.{
  MsgNode, Registry, NodeAction, add, remove, flush, register_msg_node, find_node, has_refs,
  is_registered, purge_found, update_node, remove_node, class_loop, one_class, handle_msg_class_act,
  handle_msg_water_mark, serves, act_on, empty_registry, less_klass,
}
use okscada.Msg.KlassNum.{Call, register, act, mark, step, run}

-- No node shares its name, or both references, with a node behind it.
abbrev pub Unique : List MsgNode → Type 0
Unique [] = Unit {0}
Unique (n ∷ ns) = (is_registered n.watch n.subject n.name ns ≡ false) × Unique ns

remove_node-is_registered :
    (id : ℕ) (w s : Option ℕ) (name : List ℕ) (ns : List MsgNode)
    → is_registered w s name ns ≡ false
    → is_registered w s name (remove_node id ns) ≡ false
unfolding remove_node is_registered
remove_node-is_registered id w s name [] e = refl
remove_node-is_registered id w s name (n ∷ ns) e =
    ground (arith, remove_node-is_registered id w s name ns)

remove_node-Unique : (id : ℕ) (ns : List MsgNode) → Unique ns → Unique (remove_node id ns)
unfolding remove_node
remove_node-Unique id [] u = tt
remove_node-Unique id (n ∷ ns) u = ground (
  arith,
  remove_node-Unique id ns u.1,
  remove_node-is_registered id n.watch n.subject n.name ns u.0,
)

-- An update that keeps the names and the references.
abbrev pub IsQuiet : (MsgNode → MsgNode) → Type 0
IsQuiet g =
    (n : MsgNode) → ((g n).watch ≡ n.watch) × ((g n).subject ≡ n.subject) × ((g n).name ≡ n.name)

update_node-is_registered :
    (id : ℕ) (g : MsgNode → MsgNode) (w s : Option ℕ) (name : List ℕ) (ns : List MsgNode)
    → IsQuiet g
    → is_registered w s name (update_node id g ns) ≡ is_registered w s name ns
unfolding update_node is_registered
update_node-is_registered id g w s name [] q = refl
update_node-is_registered id g w s name (n ∷ ns) q =
    let (a, b, c) = q n in
    elim (Bool-cases (n.id == id)) [
      | inl e ↦ rw (e, a, b, c) refl
      | inr e ↦ rw (e, update_node-is_registered id g w s name ns q) refl
    ]

update_node-Unique :
    (id : ℕ) (g : MsgNode → MsgNode) (ns : List MsgNode)
    → IsQuiet g
    → Unique ns
    → Unique (update_node id g ns)
unfolding update_node
update_node-Unique id g [] q u = tt
update_node-Unique id g (n ∷ ns) q u =
    let (a, b, c) = q n in
    elim (Bool-cases (n.id == id)) [
      | inl e ↦ rw (e, a, b, c) u
      | inr e ↦
          rw (e, update_node-is_registered id g n.watch n.subject n.name ns q)
            (u.0, update_node-Unique id g ns q u.1)
    ]

chosen-Unique :
    (a : NodeAction) (id : ℕ) (ns : List MsgNode)
    → Unique ns
    → Unique (elim a [ remove ↦ remove_node id ns | _ ↦ ns ])
chosen-Unique add id ns u = u
chosen-Unique remove id ns u = remove_node-Unique id ns u
chosen-Unique flush id ns u = u

purge_found-Unique :
    (a : NodeAction) (r : Registry) (o : Option MsgNode)
    → Unique r.nodes
    → Unique (purge_found a r o).0.nodes
purge_found-Unique a r none u = u
purge_found-Unique a r (some n) u =
    chosen-Unique a n.id _ (update_node-Unique n.id _ r.nodes (λ m. (refl, refl, refl)) u)

register-Unique :
    (watch subject : Option ℕ) (a : NodeAction) (name : List ℕ) (r : Registry)
    → Unique r.nodes
    → Unique (register_msg_node watch subject a name r).0.nodes
unfolding register_msg_node
register-Unique watch subject add name r u = ground arith
register-Unique watch subject remove name r u =
    ground (arith, purge_found-Unique remove r (find_node (has_refs watch subject) r.nodes) u)
register-Unique watch subject flush name r u =
    ground (arith, purge_found-Unique flush r (find_node (has_refs watch subject) r.nodes) u)

one_class-Unique :
    (enable : Bool) (n : MsgNode) (k : ℕ) (r : Registry)
    → Unique r.nodes
    → Unique (one_class enable n k r).0.nodes
one_class-Unique enable n k r u =
    ground (arith, update_node-Unique n.id less_klass r.nodes (λ m. (refl, refl, refl)) u)

class_loop-Unique :
    (enable : Bool) (n : MsgNode) (ks : List ℕ) (r : Registry)
    → Unique r.nodes
    → Unique (class_loop enable n ks r).0.nodes
unfolding class_loop
class_loop-Unique enable n [] r u = u
class_loop-Unique enable n (k ∷ ks) r u = ground (
  arith,
  one_class-Unique enable n k r u,
  class_loop-Unique enable n ks r u,
  class_loop-Unique enable n ks (one_class enable n k r).0,
)

module _ (agent_of : ℕ → ℕ) where
  act_on-Unique :
      (action : ℕ) (ks : List ℕ) (r : Registry) (o : Option MsgNode)
      → Unique r.nodes
      → Unique (act_on agent_of action ks r o).0.nodes
  act_on-Unique action ks r none u = u
  act_on-Unique action ks r (some n) u = ground (
    arith,
    class_loop-Unique (action == 1) n ks r u,
    class_loop-Unique true n ks (register_msg_node n.watch n.subject flush n.name r).0,
    register-Unique n.watch n.subject flush n.name r u,
  )

  act-Unique :
      (watch agent : Option ℕ) (len action : ℕ) (ks : List ℕ) (r : Registry)
      → Unique r.nodes
      → Unique (handle_msg_class_act agent_of watch agent len action ks r).0.nodes
  unfolding handle_msg_class_act
  act-Unique watch agent len action ks r u =
      ground (arith, act_on-Unique action ks r (find_node (serves agent_of watch agent) r.nodes) u)

  mark-Unique :
      (watch agent : Option ℕ) (himark : Bool) (len : ℕ) (r : Registry)
      → Unique r.nodes
      → Unique (handle_msg_water_mark agent_of watch agent himark len r).0.nodes
  unfolding handle_msg_water_mark
  mark-Unique watch agent himark len r u =
      elim (Option-cases (find_node (serves agent_of watch agent) r.nodes)) [
        | inl e ↦ ground arith
        | inr (n, e) ↦ ground (
          arith,
          update_node-Unique n.id (λ m. record m { is_full = himark }) r.nodes
              (λ m. (refl, refl, refl)) u,
        )
      ]

  step-Unique : (r : Registry) (c : Call) → Unique r.nodes → Unique (step agent_of r c).nodes
  unfolding step
  step-Unique r (register watch subject a name) u = register-Unique watch subject a name r u
  step-Unique r (act watch agent len action ks) u = act-Unique watch agent len action ks r u
  step-Unique r (mark watch agent himark len) u = mark-Unique watch agent himark len r u

  run-from : (r : Registry) (cs : List Call) → Unique r.nodes → Unique (run agent_of r cs).nodes
  unfolding run
  run-from r [] u = u
  run-from r (c ∷ cs) u = run-from (step agent_of r c) cs (step-Unique r c u)

  -- After any calls of the registry from its start, no two of its nodes share a name, and no two
  -- share both references.
  pub run-Unique : (cs : List Call) → Unique (run agent_of empty_registry cs).nodes
  run-Unique cs = run-from empty_registry cs tt
