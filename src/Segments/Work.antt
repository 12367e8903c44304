-- ===== src/Segments/Work.antt =====
-- hub/hub-subject.c: `ohubSetSubjectStateByRef`, and the second pass of `ohubHandleSegments`.
-- A subject is given by its index. The calls of other parts are kept in `calls`: the registration of a node (true) or its
-- removal, after which the addresses of monitors and data are refreshed. An address is the four bytes of the packet; the
-- rest of the `unsigned long` is taken to be 0.
use okscada.Prelude.{
  ℕ, zero, suc, ◌+◌, ◌-◌, ◌*◌, Bool, true, false, not, ◌&&◌, List, [], ◌∷◌, map, Option, none, some,
  length, get_elem?, set, take, drop, replicate, ltb, ◌==◌, if◌then◌else◌,
}
use okscada.Prelude.CString.{c_str, bytes_eq}
use okscada.Quarks.{Module, seg_is_valid, minus_one}
use okscada.Segments.{check_packet}
use okscada.Segments.Packet.{read}

-- The part of `OhubSubject_t` that is read or written.
pub record HubSubject : Type 0 where
  pub subject_name : List ℕ
  pub agent : Option ℕ
  pub subject_state : List ℕ

-- A module with the subject that `psubject` points to.
pub record HubModule : Type 0 where
  pub owner : Option ℕ
  pub part : Module

pub record Hub : Type 0 where
  pub subjects : List HubSubject
  pub modules : List HubModule
  pub changed : Bool
  pub calls : List (ℕ × Bool)

abbrev pub points_to : Option ℕ → ℕ → Bool
points_to none i = false
points_to (some j) i = j == i

-- `UNDEFINED_STATE`.
abbrev pub undefined_state : List ℕ
undefined_state = replicate 7 63

-- All segments of a module of the subject become undefined.
abbrev pub clear_segments : ℕ → HubModule → HubModule
clear_segments i m =
    if points_to m.owner i
    then record m { part = record m.part { segment_addr = replicate 96 minus_one } }
    else m

abbrev pub is_off : List ℕ → Bool
is_off [] = true
is_off (c ∷ s) = false

-- `ohubSetSubjectStateByRef`.
unfoldable pub set_subject_state : ℕ → List ℕ → Hub → Hub
set_subject_state i state h = elim (get_elem? h.subjects i) [
  | none ↦ h
  | some s ↦ if bytes_eq s.subject_state state then h else record {
    subjects = set h.subjects i (record s { subject_state = state });
    modules = if is_off state then map (clear_segments i) h.modules else h.modules;
    changed = true;
    calls = (i, not (is_off state)) ∷ h.calls;
  }
]

-- The subject of that name at the agent, from the index `i` on.
pub find_subject : ℕ → List ℕ → ℕ → List HubSubject → Option ℕ
find_subject agent name i [] = none
find_subject agent name i (s ∷ ss) =
    let rest = find_subject agent name (suc i) ss in
    if points_to s.agent agent && bytes_eq s.subject_name name then some i else rest

-- The module of that name at the subject, from the index `i` on.
pub find_module : ℕ → List ℕ → ℕ → List HubModule → Option ℕ
find_module owner name i [] = none
find_module owner name i (m ∷ ms) =
    let rest = find_module owner name (suc i) ms in
    if points_to m.owner owner && bytes_eq m.part.nick_name name then some i else rest

-- The name without a ".o" at its end.
abbrev pub without_suffix : List ℕ → List ℕ
without_suffix s =
    let l = length s in
    if ltb 2 l && bytes_eq (drop (l - 2) s) (46 ∷ 111 ∷ []) then take (l - 2) s else s

-- The module that the packet names; where there is none of that name, the suffix is dropped.
unfoldable pub module_named : Option ℕ → List ℕ → List HubModule → Option ℕ
module_named none name ms = none
module_named (some i) name ms = elim (find_module i name 0 ms) [
  | none ↦ find_module i (without_suffix name) 0 ms
  | some k ↦ some k
]

-- A segment of the packet for a module.
unfoldable pub set_segment : Option ℕ → ℕ → ℕ → Hub → Hub
set_segment none name addr h = h
set_segment (some k) name addr h = elim (get_elem? h.modules k) [
  | none ↦ h
  | some m ↦
      if seg_is_valid name
      then record h {
        modules = set h.modules k (record m {
          part = record m.part { segment_addr = set m.part.segment_addr (name - 32) addr };
        });
      }
      else h
]

-- `ONTOHL` of four bytes.
abbrev pub address : ℕ → ℕ → ℕ → ℕ → ℕ
address a b c d = a * 16777216 + b * 65536 + c * 256 + d

-- The subjects of the agent that it did not name are turned off, from the index `i` on.
pub turn_off : ℕ → ℕ → List HubSubject → Hub → Hub
turn_off agent i [] h = h
turn_off agent i (s ∷ ss) h =
    let skipped = turn_off agent (suc i) ss h in
    let off = turn_off agent (suc i) ss (set_subject_state i [] h) in
    if points_to s.agent agent && bytes_eq s.subject_state undefined_state then off else skipped

-- `ohubSetAgentState` to the undefined state, as far as the subjects see it.
abbrev pub undefine : ℕ → Hub → Hub
undefine agent h = record h {
  subjects =
      map (λ s. if points_to s.agent agent then record s { subject_state = undefined_state } else s)
        h.subjects;
}

abbrev pub finish : ℕ → Hub → Hub
finish agent h = turn_off agent 0 h.subjects h

abbrev pub start : ℕ → ℕ → Hub → Hub
start flag agent h =
    let h' = if flag == 0 then h else undefine agent h in record h' { changed = false }

-- The state of the subject becomes its name.
abbrev pub named_on : Option ℕ → List ℕ → Hub → Hub
named_on none name h = h
named_on (some i) name h = set_subject_state i name h

module _ (buf : ℕ → ℕ) where
  unfoldable pub work_segments : Option ℕ → ℕ → ℕ → Hub → Hub
  work_segments target zero p h = h
  work_segments target (suc n) p h = work_segments target n (p + 5) (
      set_segment target (buf p)
        (address (buf (p + 1)) (buf (p + 1 + 1)) (buf (p + 1 + 1 + 1)) (buf (p + 1 + 1 + 1 + 1))) h)

  abbrev pub name_here : ℕ → List ℕ
  name_here p = c_str (read buf (p + 1) (buf p))

  -- The modules of a subject: the place behind them, and the hub.
  unfoldable pub work_modules : Option ℕ → ℕ → ℕ → Hub → ℕ × Hub
  work_modules owner zero p h = (p, h)
  work_modules owner (suc n) p h =
      let a = p + 1 + buf p in
      let target = module_named owner (name_here p) h.modules in
      work_modules owner n (a + 1 + 5 * buf a) (work_segments target (buf a) (a + 1) h)

  unfoldable pub work_subjects : ℕ → ℕ → ℕ → Hub → Hub
  work_subjects agent zero p h = h
  work_subjects agent (suc n) p h =
      let a = p + 1 + buf p in
      let owner = find_subject agent (name_here p) 0 h.subjects in
      let (e, h') = work_modules owner (buf a) (a + 1) h in
      work_subjects agent n e (named_on owner (name_here p) h')

  -- `ohubHandleSegments`, less the message that `changed` asks for: the hub, and whether the packet was taken.
  unfoldable pub handle_segments : ℕ → ℕ → Hub → Hub × Bool
  handle_segments len agent h =
      if check_packet buf len
      then (finish agent (work_subjects agent (buf 1) 2 (start (buf 0) agent h)), true)
      else (h, false)
