-- ===== src/Mux/Sched/Tree.antt =====
-- `SchedTree` of crates/weaver-mux/src/sched/mod.rs. `Class::idx` has no place for the control class,
-- where the source panics: at that class the operations of a data class leave the tree as it is.
use tunnel_weaver.Base.{
  ℕ, ◌+◌, if◌then◌else◌, Bool, List, [], ◌∷◌, ◌++◌, Option, none, some, nat_eq, u32, unwrap_or,
}
use tunnel_weaver.Mux.Class.{Class, class_eq, class_beq}
use tunnel_weaver.Mux.Config.{Weights}
use tunnel_weaver.Mux.Frame.{Frame, wire_len, header_len}
use tunnel_weaver.Mux.Sched.Qfq.{
  Qfq, add_flow, activate, deactivate, remove_flow, served, peek, next_head_len, has_backlog,
}
use tunnel_weaver.Mux.Sched.Qfq

pub data Pick : Type 0 where
  control : Pick
  stream : ℕ → Pick

pub record SchedTree : Type 0 where
  pub top : Qfq Class
  pub realtime : Qfq ℕ
  pub interactive : Qfq ℕ
  pub bulk : Qfq ℕ
  pub control : List Frame
  pub max_frame : ℕ  -- u32

-- `self.inner[class.idx()]`, to read and to write.
unfoldable pub inner : SchedTree → Class → Qfq ℕ
inner t Class.control = Qfq.new
inner t Class.realtime = t.realtime
inner t Class.interactive = t.interactive
inner t Class.bulk = t.bulk

unfoldable pub set_inner : SchedTree → Class → Qfq ℕ → SchedTree
set_inner t Class.control q = t
set_inner t Class.realtime q = record t { realtime = q }
set_inner t Class.interactive q = record t { interactive = q }
set_inner t Class.bulk q = record t { bulk = q }

-- A frame's length as it is handed to the scheduler.
abbrev pub frame_len : Frame → ℕ
frame_len f = u32 (wire_len f)

unfoldable pub new : Weights → ℕ → SchedTree
new weights max_frame =
    let lmax = u32 (max_frame + header_len) in
    let top0 = add_flow Qfq.new Class.control weights.control lmax in
    let top1 = add_flow top0 Class.realtime weights.realtime lmax in
    let top2 = add_flow top1 Class.interactive weights.interactive lmax in
    let top3 = add_flow top2 Class.bulk weights.bulk lmax in
    record {
      top = top3;
      realtime = Qfq.new;
      interactive = Qfq.new;
      bulk = Qfq.new;
      control = [];
      max_frame = lmax;
    }

unfoldable pub push_control : SchedTree → Frame → SchedTree
push_control t frame = record t {
  control = t.control ++ (frame ∷ []);
  top = activate t.top Class.control (frame_len frame);
}

unfoldable pub clear_control : SchedTree → SchedTree
clear_control t = record t { control = []; top = deactivate t.top Class.control }

unfoldable pub add_stream : SchedTree → ℕ → Class → SchedTree
add_stream t id class = set_inner t class (add_flow (inner t class) id 1 t.max_frame)

unfoldable pub remove_stream : SchedTree → ℕ → Class → SchedTree
remove_stream t id class =
    let q = remove_flow (inner t class) id in
    let t' = set_inner t class q in
    if has_backlog q then t' else record t' { top = deactivate t'.top class }

unfoldable pub activate_stream : SchedTree → ℕ → Class → ℕ → SchedTree
activate_stream t id class head_len =
    let q = activate (inner t class) id head_len in
    if has_backlog (inner t class)
    then set_inner t class q
    else let (q', next) = next_head_len q in
      let t' = set_inner t class q' in
      record t' { top = activate t'.top class (unwrap_or next head_len) }

abbrev pub activate_if : SchedTree → ℕ → Class → Option ℕ → SchedTree
activate_if t id class none = t
activate_if t id class (some len) = activate_stream t id class len

unfoldable pub reclass : SchedTree → ℕ → Class → Class → Option ℕ → SchedTree
unfolding remove_stream add_stream activate_stream
reclass t id from to head_len =
    if class_beq from to
    then t
    else activate_if (add_stream (remove_stream t id from) id to) id to head_len

-- `SchedTree::has_backlog`.
unfoldable pub is_backlogged : SchedTree → Bool
is_backlogged t = has_backlog t.top

abbrev pub to_pick : Option ℕ → Option Pick
to_pick none = none
to_pick (some id) = some (Pick.stream id)

-- The match of `pick` on the class that the top level serves next.
unfoldable pub pick_in : SchedTree → Class → SchedTree × Option Pick
pick_in t Class.control = (t, some Pick.control)
pick_in t class = let (q, id) = peek (inner t class) in (set_inner t class q, to_pick id)

unfoldable pub pick : SchedTree → SchedTree × Option Pick
unfolding pick_in
pick t =
    let (top, class) = peek t.top in
    let t' = record t { top = top } in elim class [ none ↦ (t', none) | some c ↦ pick_in t' c ]

unfoldable pub pop_control : SchedTree → SchedTree × Option Frame
pop_control t = elim t.control [ [] ↦ (t, none) | f ∷ fs ↦ (record t { control = fs }, some f) ]

abbrev pub front_len : List Frame → Option ℕ
front_len [] = none
front_len (f ∷ fs) = some (frame_len f)

-- `SchedTree::served` at a `Pick::Control`, and at a `Pick::Stream`.
unfoldable pub served_control : SchedTree → ℕ → SchedTree
served_control t len = record t { top = served t.top Class.control len (front_len t.control) }

unfoldable pub served_stream : SchedTree → ℕ → Class → ℕ → Option ℕ → SchedTree
served_stream t id class len next_len =
    let (q, next) = next_head_len (served (inner t class) id len next_len) in
    let t' = set_inner t class q in record t' { top = served t'.top class len next }
