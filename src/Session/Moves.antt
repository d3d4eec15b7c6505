-- ===== src/Session/Moves.antt =====
-- engine/core/session.ts: the moves that the session guards, each by the open transaction and by what
-- the log holds. A move is run by `act`, which logs it.
use alive_next.Prelude.{
  ℕ, ltb, String, Bool, true, false, not, ◌&&◌, ◌||◌, Option, none, some, List, [], ◌∷◌, ◌++◌,
  if◌then◌else◌, any, ◌==◌,
}
use alive_next.Prelude.Dict
use alive_next.Prelude.Dict.{Dict}
use alive_next.Trajectory.{Hash, Side, src, tgt, Effect, Entry, Event, tool_result}
use alive_next.Trajectory.Effect.{step, strengthen, interpose}
use alive_next.Goals.Types.{GoalId, Goal, Tree, ok, err, Status, same_status, on}
use alive_next.Goals.Queries.{workable, head, interposed, cased}
use alive_next.Goals.Derive.{last_index_of}
use alive_next.Failure.{
  derivation, no_such_goal, not_of_kind, other, Attempt, thrown, done, ◌>>=◌, lift,
}
use alive_next.Store
use alive_next.Splits
use alive_next.Splits.{Llops, concat}
use alive_next.Transactions.{Transaction, is_editing, is_editing_below, same_side}
use alive_next.Session.{Host, Bench, Move}

unfoldable pub goal_of : Tree → GoalId → Attempt Goal
goal_of tree gid = elim (Dict.get tree.goals gid) [
  | none ↦ thrown (no_such_goal gid)
  | some goal ↦ done goal
]

pub record ProgramView : Type 0 where
  pub id : String
  pub hash : Hash
  pub text : String

abbrev pub named_program : String → List (Hash × String) → Option (Hash × String)
named_program ref [] = none
named_program ref ((hash, id) ∷ rest) =
    let later = named_program ref rest in
    if (ref == id) || (ref == hash) then some (hash, id) else later

-- A program by its agent-facing name or by its hash.
unfoldable pub program_of : Store.Tools → Store.Disk → Tree → String → Attempt ProgramView
unfolding Store.get
program_of tools disk tree ref = elim (named_program ref tree.programs.entries) [
  | none ↦ thrown (other (concat "no program " ref))
  | some (hash, id) ↦ elim (Store.get tools disk hash) [
    | thrown f ↦ thrown f
    | done text ↦ done (record { id = id; hash = hash; text = text })
  ]
]

-- What an effect of a strengthen landed on one side of a goal.
unfoldable pub lands_on : GoalId → Side → Effect → List Hash
lands_on gid src (strengthen e) = if e.gid == gid then e.src ∷ [] else []
lands_on gid tgt (strengthen e) = if e.gid == gid then e.tgt ∷ [] else []
lands_on gid side (step e) = if (e.gid == gid) && same_side e.side side then e.to ∷ [] else []
lands_on gid side _ = []

abbrev pub flat_map {ℓ κ} : {A : Type ℓ} {B : Type κ} → (A → List B) → List A → List B
flat_map f [] = []
flat_map f (x ∷ xs) = f x ++ flat_map f xs

abbrev pub or_nil : Option (List Effect) → List Effect
or_nil none = []
or_nil (some es) = es

-- The effects of a strengthen's entry.
abbrev pub of_strengthen : Event → List Effect
of_strengthen (tool_result id tool es result ms) = if tool == "strengthen" then or_nil es else []
of_strengthen _ = []

-- The programs that strengthens landed on one side of a goal.
unfoldable pub strengthened : List Entry → GoalId → Side → List Hash
unfolding lands_on
strengthened entries gid side =
    flat_map (λ (e : Entry). flat_map (lands_on gid side) (of_strengthen e.event)) entries

abbrev pub includes : List Hash → Hash → Bool
includes xs h = any (λ x. x == h) xs

abbrev pub is_after : Option ℕ → Option ℕ → Bool
is_after (some at) (some i) = ltb at i
is_after none (some i) = true
is_after _ none = false

pub data RevertResult : Type 0 where
  reverted : List Effect → ProgramView → RevertResult
  refused : String → RevertResult

abbrev pub revert_effects : RevertResult → List Effect
revert_effects (reverted es to) = es
revert_effects (refused why) = []

-- Whether going back to a program would drop one that a strengthen landed.
unfoldable pub drops_strengthened : List Hash → List Hash → Hash → Bool
unfolding last_index_of
drops_strengthened landed history to =
    any (λ hash. is_after (last_index_of history to) (last_index_of history hash)) landed

abbrev pub on_side : GoalId → Side → String
on_side gid src = concat gid " src"
on_side gid tgt = concat gid " tgt"

-- `openMessage` of engine/core/state/transactions.ts
unfoldable pub open_message : Transaction → String
unfolding concat
open_message x =
    concat "a transaction is open on " (concat (on_side x.gid x.side) "; commit or abort it first")

abbrev pub parent_name : Goal → String
parent_name goal = elim goal.parent [ none ↦ "undefined" | some cut ↦ cut ]

abbrev pub uncut_instead : String → Goal → String
unfolding concat
uncut_instead what goal = concat what (
    concat " would undo part of a strengthen of " (
      concat (parent_name goal)
        (concat "; uncut " (concat (parent_name goal) " to undo all of it"))))

unfoldable pub revert_to : List Entry → GoalId → Side → Goal → ProgramView → Hash → RevertResult
unfolding drops_strengthened strengthened concat
revert_to entries gid side goal target here =
    if here == target.hash
    then refused (concat (on_side gid side) (concat " is already " target.id))
    else if drops_strengthened (strengthened entries gid side) (on goal side).history target.hash
    then refused (uncut_instead (concat "going back to " target.id) goal)
    else reverted (Effect.revert gid side target.hash ∷ []) target

-- What `revert` answers where no transaction is open on the side.
unfoldable pub reverting :
    Store.Tools → Store.Disk → List Entry → GoalId → Side → String → Tree → Attempt RevertResult
unfolding workable program_of head revert_to concat
reverting tools disk entries gid side to tree = do
  goal ← lift (workable tree gid)
  target ← program_of tools disk tree to
  if includes (on goal side).history target.hash
      then (do here ← lift (head goal side); done (revert_to entries gid side goal target here))
      else done (refused (concat (on_side gid side) (concat " has never been " target.id)))

-- A refusal of a move on a goal that is being edited, or one side of it.
unfoldable pub unless_editing :
    {A : Type 0} → GoalId → Option Side → (Transaction → A) → Move A → Move A
unfolding is_editing
unless_editing gid side refusal move bench = elim bench.editing [
  | none ↦ move bench
  | some x ↦ if is_editing (some x) gid side then (bench, done (refusal x)) else move bench
]

-- A refusal of an undo that would discard the goal that is being edited.
unfoldable pub unless_below : {A : Type 0} → Tree → GoalId → (Transaction → A) → Move A → Move A
unfolding is_editing_below
unless_below tree gid refusal move bench = elim bench.editing [
  | none ↦ move bench
  | some x ↦ elim (is_editing_below (some x) tree gid) [
    | err fault ↦ (bench, thrown (derivation fault))
    | ok below ↦ if below then (bench, done (refusal x)) else move bench
  ]
]

abbrev reads : {A : Type 0} → (Bench → Attempt A) → Move A
reads answer bench = (bench, answer bench)

unfoldable pub move_revert : Host → List Entry → GoalId → Side → String → Tree → Move RevertResult
unfolding unless_editing reverting
move_revert host entries gid side to tree =
    unless_editing gid (some side)
      (λ x. refused (concat "a transaction is open on " (on_side gid side)))
      (reads (λ b. reverting host.kit.tools b.world.disk entries gid side to tree))

pub data UndoResult : Type 0 where
  undone : List Effect → UndoResult
  editing : Transaction → UndoResult
  kept : String → UndoResult

abbrev pub undo_effects : UndoResult → List Effect
undo_effects (undone es) = es
undo_effects _ = []

abbrev pub undoing : Attempt (List Effect) → Attempt UndoResult
undoing (thrown f) = thrown f
undoing (done es) = done (undone es)

-- `Cuts.uncut` of engine/core/state/cuts.ts
unfoldable pub uncut : Tree → GoalId → Attempt (List Effect)
unfolding goal_of interposed cased
uncut tree gid = do
  goal ← goal_of tree gid
  if not (same_status goal.status Status.split) || interposed tree goal || cased tree goal
      then thrown (not_of_kind gid)
      else done (Effect.uncut gid ∷ [])

unfoldable pub move_uncut : GoalId → Tree → Move UndoResult
unfolding unless_below uncut
move_uncut gid tree = unless_below tree gid editing (reads (λ b. undoing (uncut tree gid)))

unfoldable pub move_uncase : GoalId → Tree → Move UndoResult
unfolding unless_below Splits.uncase
move_uncase gid tree = unless_below tree gid editing (reads (λ b. undoing (Splits.uncase tree gid)))

-- Whether an effect is the interpose that left the children.
abbrev left_by : GoalId → List GoalId → Effect → Bool
left_by gid children (interpose k l r) = (k == gid) && any (λ c. c == l.gid) children
left_by gid children _ = false

unfoldable pub interposed_by_strengthen : List Entry → Goal → GoalId → Bool
interposed_by_strengthen entries goal gid =
    any (λ (e : Entry). any (left_by gid goal.children) (of_strengthen e.event)) entries

-- No undo takes back part of what a strengthen did.
unfoldable pub unless_strengthened : List Entry → GoalId → Tree → Goal → Attempt UndoResult
unfolding interposed_by_strengthen Splits.uninterpose
unless_strengthened entries gid tree goal =
    if interposed_by_strengthen entries goal gid
    then done (kept (uncut_instead (concat "undoing the interpose of " gid) goal))
    else undoing (Splits.uninterpose tree gid)

-- What `uninterpose` answers where no transaction is in the way.
unfoldable pub uninterposing : List Entry → GoalId → Tree → Attempt UndoResult
unfolding goal_of unless_strengthened
uninterposing entries gid tree = goal_of tree gid >>= unless_strengthened entries gid tree

unfoldable pub move_uninterpose : List Entry → GoalId → Tree → Move UndoResult
unfolding unless_below uninterposing
move_uninterpose entries gid tree =
    unless_below tree gid editing (reads (λ b. uninterposing entries gid tree))
