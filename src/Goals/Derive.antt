-- ===== src/Goals/Derive.antt =====
-- engine/core/state/goals.ts: one effect applied to the tree, and the whole log replayed.
use alive_next.Prelude.{
  ℕ, zero, suc, ◌+◌, Bool, false, not, ◌&&◌, ◌||◌, Option, none, some, List, [], ◌∷◌, ◌++◌,
  if◌then◌else◌, ◌==◌,
}
use alive_next.Prelude.Dict
use alive_next.Prelude.Dict.{Dict}
use alive_next.Trajectory.{
  Hash, Side, Half, Effect, Event, Entry, StartEvent, StepEffect, CutEffect, StrengthenEffect, step,
  interpose, case, cut, strengthen, uncut, uninterpose, uncase, revert, proved, refuted, start,
  tool_result, framework,
}
use alive_next.Trajectory.Side.{src, tgt}
use alive_next.Goals.Types.{
  GoalId, Role, outer, callee, lhs, rhs, holds, fails, Status, Made, Goal, Tree, SideHistory,
  DerivationError, never_had, do_not_meet, not_cut, not_interposed, not_cased, second_start,
  before_start, no_start, Result, ok, err, ◌>>=◌, same_status, on, set_on,
}
use alive_next.Goals.Queries.{head, or_throw, find, interposed, cased}
use alive_next.Goals.Moves.{put, name, fuel, settle, reopen, editable, opened}

-- Array.prototype.lastIndexOf
unfoldable pub last_index_of : List Hash → Hash → Option ℕ
last_index_of [] h = none
last_index_of (x ∷ xs) h = elim (last_index_of xs h) [
  | some i ↦ some (suc i)
  | none ↦ if x == h then some 0 else none
]

-- Array.prototype.slice(0, n)
unfoldable pub slice : List Hash → ℕ → List Hash
slice xs zero = []
slice [] (suc n) = []
slice (x ∷ xs) (suc n) = x ∷ slice xs n

abbrev pub nothing_made : Made
nothing_made = record { callee = none; detach = none; slots = none; src_alone = false }

abbrev pub push : SideHistory → Hash → SideHistory
push side hash = record { history = side.history ++ hash ∷ [] }

unfoldable pub apply_step : Tree → StepEffect → Result Tree
unfolding editable put name
apply_step tree e = do
  (tree', goal) ← editable tree e.gid
  ok (name (put tree' e.gid (set_on goal e.side (push (on goal e.side) e.to))) e.to)

-- The abandoned steps stay in the log; the head is what moves back.
unfoldable pub apply_revert : Tree → GoalId → Side → Hash → Result Tree
unfolding editable put last_index_of slice
apply_revert tree gid side to = do
  (tree', goal) ← editable tree gid
  at ← or_throw (last_index_of (on goal side).history to) (never_had gid to side)
  ok (put tree' gid (set_on goal side (record { history = slice (on goal side).history (at + 1) })))

-- Opens the two children of a split, and freezes the parent's heads.
unfoldable pub split_in_two : Tree → GoalId → Goal → Half → Role → Half → Role → Made → Result Tree
unfolding opened put
split_in_two tree gid parent a role_a b role_b made = do
  (tree', parent') ← opened tree gid parent a role_a made
  (tree'', parent'') ← opened tree' gid parent' b role_b made
  ok (put tree'' gid (record parent'' { status = Status.split }))

unfoldable pub apply_cut : Tree → CutEffect → Result Tree
unfolding editable split_in_two
apply_cut tree e = do
  (tree', parent) ← editable tree e.gid
  split_in_two tree' e.gid parent e.outer outer e.callee callee
      (record { callee = some e.name; detach = e.detach; slots = e.slots; src_alone = e.src_alone })

unfoldable pub apply_interpose : Tree → GoalId → Half → Half → Result Tree
unfolding editable head split_in_two
apply_interpose tree gid l r = do
  (tree', parent) ← editable tree gid
  s ← head parent src
  t ← head parent tgt
  if (l.src == s) && (l.tgt == r.src) && (r.tgt == t)
      then split_in_two tree' gid parent l lhs r rhs nothing_made
      else err (do_not_meet gid)

unfoldable pub apply_case : Tree → GoalId → Half → Half → Result Tree
unfolding editable split_in_two
apply_case tree gid h f = do
  (tree', parent) ← editable tree gid
  split_in_two tree' gid parent h holds f fails nothing_made

-- Both sides move together.
unfoldable pub apply_strengthen : Tree → StrengthenEffect → Result Tree
unfolding editable put name
apply_strengthen tree e = do
  (tree', goal) ← editable tree e.gid
  let goal' = record goal { src = push goal.src e.src; tgt = push goal.tgt e.tgt }
  ok (name (name (put tree' e.gid goal') e.src) e.tgt)

-- An undo of a split: `refused` says why it is none of its kind.
unfoldable pub undo : Tree → GoalId → (Tree → Goal → Bool) → DerivationError → Result Tree
unfolding find reopen
undo tree gid fits refused = do
  parent ← find tree gid
  if same_status parent.status Status.split && fits tree parent
      then reopen tree gid parent
      else err refused

unfoldable pub is_cut : Tree → Goal → Bool
unfolding interposed cased
is_cut tree goal = not (interposed tree goal || cased tree goal)

-- A split goal is proved by its children, so proving the last one discharges the parent.
unfoldable pub apply_proved : Tree → GoalId → Result Tree
unfolding find put settle fuel
apply_proved tree gid = do
  goal ← find tree gid
  let tree' = put tree gid (record goal { status = Status.proved })
  settle (fuel tree') tree' goal.parent

unfoldable pub apply_refuted : Tree → GoalId → Result Tree
unfolding find put
apply_refuted tree gid = do
  goal ← find tree gid
  ok (put tree gid (record goal { status = Status.refuted }))

-- `applyEffect`
unfoldable pub apply : Tree → Effect → Result Tree
apply tree (step e) = apply_step tree e
apply tree (revert gid side to) = apply_revert tree gid side to
apply tree (cut e) = apply_cut tree e
apply tree (interpose gid l r) = apply_interpose tree gid l r
apply tree (case gid c h f) = apply_case tree gid h f
apply tree (strengthen e) = apply_strengthen tree e
apply tree (uncut gid) = undo tree gid is_cut (not_cut gid)
apply tree (uninterpose gid) = undo tree gid interposed (not_interposed gid)
apply tree (uncase gid) = undo tree gid cased (not_cased gid)
apply tree (proved gid by) = apply_proved tree gid
apply tree (refuted gid) = apply_refuted tree gid

-- The private `start` of goals.ts.
unfoldable pub start_tree : Hash → Hash → Tree
unfolding name
start_tree s t =
    name
      (name
        (record {
          root = "g1";
          goals = Dict.set Dict.empty "g1" (record {
            id = "g1";
            parent = none;
            role = none;
            made = nothing_made;
            src = record { history = s ∷ [] };
            tgt = record { history = t ∷ [] };
            status = Status.open_;
            children = [];
          });
          programs = Dict.empty;
          next_goal = 2;
        })
        s)
      t

abbrev or_none : Option (List Effect) → List Effect
or_none none = []
or_none (some es) = es

-- `"effects" in entry ? (entry.effects ?? []) : []`
abbrev pub effects_of_event : Event → List Effect
effects_of_event (tool_result id tool es result ms) = or_none es
effects_of_event (framework action es outcome) = or_none es
effects_of_event _ = []

-- Replays effects on the tree so far: none can stand before the start.
unfoldable pub play : Option Tree → List Effect → Result (Option Tree)
play tree [] = ok tree
play none (e ∷ es) = err before_start
play (some tree) (e ∷ es) = do tree' ← apply tree e; play (some tree') es

unfoldable pub start_once : Option Tree → StartEvent → Result (Option Tree)
unfolding start_tree
start_once none s = ok (some (start_tree s.src s.tgt))
start_once (some tree) s = err second_start

unfoldable pub derive_event : Option Tree → Event → Result (Option Tree)
unfolding start_once play
derive_event tree (start s) = start_once tree s
derive_event tree event = play tree (effects_of_event event)

unfoldable pub derive_from : Option Tree → List Entry → Result (Option Tree)
derive_from tree [] = ok tree
derive_from tree (entry ∷ entries) = do
  tree' ← derive_event tree entry.event
  derive_from tree' entries

-- Rebuild the tree by playing the event log forward from the start.
unfoldable pub derive : List Entry → Result Tree
unfolding derive_from derive_event
derive entries = do tree ← derive_from none entries; or_throw tree no_start
