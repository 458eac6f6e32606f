-- ===== src/Lifecycle/Active.antt =====
-- getActiveNodeId of lifecycle.ts, and what it says of the events of a node.
use cognitive_runtime.Prelude.{
  if◌then◌else◌, ◌≡◌, refl, sym, ap, ◌∙◌, Bool, true, false, not, ◌&&◌, ◌||◌, Bool-cases, inl, inr,
  Option, none, some, List, [], ◌∷◌, ◌++◌, any, find, Text, text_eq, text_eq_iff, text_eq_refl,
  arith,
}
use cognitive_runtime.Prelude.Maps.{has_text, add_text}
use cognitive_runtime.Contracts.EventTypes.{is_type, node_started, node_succeeded, node_failed}
use cognitive_runtime.Contracts.Events.{RunEvent}

-- The sets `started` and `finished` of getActiveNodeId.
pub record Marks : Type 0 where
  pub started : List Text
  pub finished : List Text

abbrev pub mark_node : RunEvent → Option Text → Marks → Marks
unfolding is_type add_text
mark_node e (some (a ∷ id)) m = record {
  started = if is_type e.type node_started then add_text (a ∷ id) m.started else m.started;
  finished =
      if is_type e.type node_succeeded || is_type e.type node_failed
      then add_text (a ∷ id) m.finished
      else m.finished;
}
mark_node e _ m = m

unfoldable pub mark_all : List RunEvent → Marks → Marks
unfolding is_type add_text
mark_all [] m = m
mark_all (e ∷ es) m = mark_all es (mark_node e e.payload.node_id m)

unfoldable pub get_active_node_id : List RunEvent → Option Text
unfolding mark_all has_text
get_active_node_id events =
    let m = mark_all events (record { started = []; finished = [] }) in
    find (λ id. not (has_text id m.finished)) m.started

has_text-append :
    (k : Text) (s t : List Text) → has_text k (s ++ t) ≡ (has_text k s || has_text k t)
unfolding has_text
has_text-append k [] t = refl
has_text-append k (j ∷ s) t = ground (arith, has_text-append k s t)

or_true : (b : Bool) → (b || true) ≡ true
or_true true = refl
or_true false = refl

or_false : (b : Bool) → (b || false) ≡ b
or_false true = refl
or_false false = refl

has_text-add_text :
    (k j : Text) (s : List Text) → has_text k (add_text j s) ≡ (has_text k s || text_eq j k)
unfolding add_text has_text
has_text-add_text k j s = elim (Bool-cases (has_text j s)) [
  | inl old ↦ rw old (member_again old)
  | inr new ↦ rw (new, has_text-append k s (j ∷ [])) (ground arith)
]
  where
    member_again : has_text j s ≡ true → has_text k s ≡ (has_text k s || text_eq j k)
    member_again old = elim (Bool-cases (text_eq j k)) [
      | inl same ↦ rw same (
          ap (λ i. has_text i s) (sym ((text_eq_iff j k).0 same))
          ∙ old
          ∙ sym (or_true (has_text k s)))
      | inr other ↦ rw other (sym (or_false (has_text k s)))
    ]

-- The event names the node, whose id is not empty.
abbrev pub is_of_node : Text → Option Text → Bool
is_of_node id (some (a ∷ s)) = text_eq (a ∷ s) id
is_of_node id _ = false

unfoldable pub starts : Text → RunEvent → Bool
unfolding is_type
starts id e = is_of_node id e.payload.node_id && is_type e.type node_started

unfoldable pub finishes : Text → RunEvent → Bool
unfolding is_type
finishes id e =
    is_of_node id e.payload.node_id && (is_type e.type node_succeeded || is_type e.type node_failed)

mark_node-started :
    (id : Text) (e : RunEvent) (o : Option Text) (m : Marks)
    → has_text id (mark_node e o m).started
      ≡ (has_text id m.started || (is_of_node id o && is_type e.type node_started))
unfolding mark_node
mark_node-started id e none m = sym (or_false (has_text id m.started))
mark_node-started id e (some []) m = sym (or_false (has_text id m.started))
mark_node-started id e (some (a ∷ k)) m = elim (Bool-cases (is_type e.type node_started)) [
  | inl start ↦ rw (start, has_text-add_text id (a ∷ k) m.started) (ground arith)
  | inr other ↦ rw other (ground arith)
]

mark_node-finished :
    (id : Text) (e : RunEvent) (o : Option Text) (m : Marks)
    → has_text id (mark_node e o m).finished ≡ (
        has_text id m.finished
        || (is_of_node id o && (is_type e.type node_succeeded || is_type e.type node_failed)))
unfolding mark_node
mark_node-finished id e none m = sym (or_false (has_text id m.finished))
mark_node-finished id e (some []) m = sym (or_false (has_text id m.finished))
mark_node-finished id e (some (a ∷ k)) m =
    elim (Bool-cases (is_type e.type node_succeeded || is_type e.type node_failed)) [
      | inl finish ↦ rw (finish, has_text-add_text id (a ∷ k) m.finished) (ground arith)
      | inr other ↦ rw other (ground arith)
    ]

-- The members of the sets are the nodes that the events start, and those that they finish.
mark_all-started :
    (id : Text) (events : List RunEvent) (m : Marks)
    → has_text id (mark_all events m).started
      ≡ (has_text id m.started || any (λ e. starts id e) events)
unfolding mark_all starts finishes
mark_all-started id [] m = sym (or_false (has_text id m.started))
mark_all-started id (e ∷ es) m =
    rw (mark_all-started id es, mark_node-started id e e.payload.node_id m) (ground arith)

mark_all-finished :
    (id : Text) (events : List RunEvent) (m : Marks)
    → has_text id (mark_all events m).finished
      ≡ (has_text id m.finished || any (λ e. finishes id e) events)
unfolding mark_all starts finishes
mark_all-finished id [] m = sym (or_false (has_text id m.finished))
mark_all-finished id (e ∷ es) m =
    rw (mark_all-finished id es, mark_node-finished id e e.payload.node_id m) (ground arith)

-- What the search over the started nodes finds.
abbrev first_open : List Text → List Text → Option Text
unfolding has_text
first_open started finished = find (λ id. not (has_text id finished)) started

first_open-some :
    (started finished : List Text) (id : Text)
    → first_open started finished ≡ some id
    → (has_text id started ≡ true) × (has_text id finished ≡ false)
unfolding has_text
first_open-some [] finished id h = cc
first_open-some (k ∷ started) finished id h = elim (Bool-cases (has_text k finished)) [
  | inl closed ↦
      let (i, o) = first_open-some started finished id (rw closed at h) in (ground arith, o)
  | inr open_now ↦
      let same = some_inj k id (rw open_now at h) in
      (rw (sym same) (rw (text_eq_refl k) refl), rw (sym same) open_now)
]
  where
    some_inj : (a b : Text) → some a ≡ some b → a ≡ b
    some_inj a b e = cc

first_open-none :
    (started finished : List Text) (id : Text)
    → first_open started finished ≡ none
    → has_text id started ≡ true
    → has_text id finished ≡ true
unfolding has_text
first_open-none [] finished id h i = cc
first_open-none (k ∷ started) finished id h i = elim (Bool-cases (has_text k finished)) [
  | inl closed ↦ elim (Bool-cases (text_eq k id)) [
    | inl same ↦ rw (sym ((text_eq_iff k id).0 same)) closed
    | inr other ↦ first_open-none started finished id (rw closed at h) (rw other at i)
  ]
  | inr open_now ↦ absurd (none_some (rw open_now at h))
]
  where
    none_some : some k ≡ none → ⊥
    none_some e = cc

-- A node that getActiveNodeId returns was started by one of the events, and no event finished it.
pub get_active_node_id-some :
    (events : List RunEvent) (id : Text)
    → get_active_node_id events ≡ some id
    → (any (λ e. starts id e) events ≡ true) × (any (λ e. finishes id e) events ≡ false)
unfolding get_active_node_id has_text
get_active_node_id-some events id h =
    let (i, o) = first_open-some _ _ id h in
    (rw (mark_all-started id events) at i, rw (mark_all-finished id events) at o)

-- The node is running: the last event that starts or finishes it starts it. `now` is the answer for
-- no such event.
abbrev pub is_running_from : Bool → Text → List RunEvent → Bool
unfolding starts finishes
is_running_from now id [] = now
is_running_from now id (e ∷ es) =
    is_running_from (if finishes id e then false else if starts id e then true else now) id es

abbrev pub is_running : Text → List RunEvent → Bool
is_running id events = is_running_from false id events

-- The node is not started again behind an event that finishes it.
abbrev pub is_tried_once : Text → List RunEvent → Bool
unfolding starts finishes
is_tried_once id [] = true
is_tried_once id (e ∷ es) =
    let rest = is_tried_once id es in
    if finishes id e then not (any (λ f. starts id f) es) else rest

never_started :
    (id : Text) (events : List RunEvent)
    → any (λ e. starts id e) events ≡ false
    → is_running_from false id events ≡ false
unfolding starts finishes
never_started id [] h = refl
never_started id (e ∷ es) h = elim (Bool-cases (starts id e)) [
  | inl start ↦ absurd (clash (rw start at h))
  | inr other ↦ elim (Bool-cases (finishes id e)) [
    | inl finish ↦ rw finish (never_started id es (rw other at h))
    | inr quiet ↦ rw (quiet, other) (never_started id es (rw other at h))
  ]
]
  where
    clash : true ≡ false → ⊥
    clash e = cc

finished_for_good :
    (id : Text) (events : List RunEvent) (now : Bool)
    → is_tried_once id events ≡ true
    → any (λ e. finishes id e) events ≡ true
    → is_running_from now id events ≡ false
unfolding starts finishes
finished_for_good id [] now once h = cc
finished_for_good id (e ∷ es) now once h = elim (Bool-cases (finishes id e)) [
  | inl finish ↦
      rw finish (never_started id es (flipped (any (λ f. starts id f) es) (rw finish at once)))
  | inr other ↦ rw other (
      finished_for_good id es (if starts id e then true else now) (rw other at once)
        (rw other at h))
]
  where
    flipped : (b : Bool) → not b ≡ true → b ≡ false
    flipped true h = sym h
    flipped false h = refl

-- If getActiveNodeId returns null, then no node is running that has not been started again behind
-- an event that finishes it: the last event that starts or finishes such a node, if any, finishes
-- it.
pub get_active_node_id-none :
    (events : List RunEvent) (id : Text)
    → get_active_node_id events ≡ none
    → is_tried_once id events ≡ true
    → is_running id events ≡ false
unfolding get_active_node_id has_text
get_active_node_id-none events id h once = elim (Bool-cases (any (λ e. starts id e) events)) [
  | inr never ↦ never_started id events never
  | inl started ↦
      let f = first_open-none _ _ id h (rw (mark_all-started id events) started) in
      finished_for_good id events false once (rw (mark_all-finished id events) at f)
]
