-- ===== src/Goals/Queries.antt =====
-- engine/core/state/goals.ts, what only reads the tree.
use alive_next.Prelude.{
  ℕ, ◌+◌, String, Bool, false, not, ◌&&◌, ◌||◌, Option, none, some, List, [], ◌∷◌, ltb, nat_eq,
  if◌then◌else◌, get_last?, any, length,
}
use Prim.Native.Char.{code}
use alive_next.Prelude.Dict
use alive_next.Prelude.Dict.{Dict}
use alive_next.Prelude.Decimal.{decimal, read}
use alive_next.Trajectory.{Hash, Side}
use alive_next.Goals.Types.{
  GoalId, Role, lhs, holds, Status, open_, proved, split, refuted, Goal, Tree, DerivationError,
  no_program, not_open, no_child, no_goal, Result, ok, err, ◌>>=◌, same_status, same_role, on,
}

abbrev pub or_throw {ℓ} : {A : Type ℓ} → Option A → DerivationError → Result A
or_throw none e = err e
or_throw (some a) e = ok a

unfoldable pub head : Goal → Side → Result Hash
head goal side = or_throw (get_last? (on goal side).history) (no_program goal.id side)

is_open_leaf : Goal → Bool
is_open_leaf goal = same_status goal.status open_ && not (ltb 0 (length goal.children))

-- Array.prototype.filter
keep {ℓ} : {A : Type ℓ} → (A → Bool) → List A → List A
keep p [] = []
keep p (x ∷ xs) = if p x then x ∷ keep p xs else keep p xs

-- Goals with no children that are still open, which is where work remains.
unfoldable pub open_leaves : Tree → List Goal
unfolding is_open_leaf keep
open_leaves tree = keep is_open_leaf (Dict.values tree.goals)

pub data Verdict : Type 0 where
  verified counterexample unknown : Verdict

abbrev pub verdict_of : Status → Verdict
verdict_of proved = verified
verdict_of refuted = counterexample
verdict_of _ = unknown

-- The verdict, read off the root.
unfoldable pub verdict : Tree → Verdict
verdict tree = elim (Dict.get tree.goals tree.root) [
  | none ↦ unknown
  | some root ↦ verdict_of root.status
]

-- The private `get` of goals.ts.
unfoldable pub find : Tree → GoalId → Result Goal
find tree id = or_throw (Dict.get tree.goals id) (no_goal id)

-- The goal a move may touch, which is one that has not been cut or refuted.
unfoldable pub workable : Tree → GoalId → Result Goal
unfolding find
workable tree id = do
  goal ← find tree id
  if same_status goal.status split || same_status goal.status refuted
      then err (not_open id goal.status)
      else ok goal

unfoldable pub has_role : Tree → Role → GoalId → Bool
has_role tree r id = elim (Dict.get tree.goals id) [
  | none ↦ false
  | some goal ↦ elim goal.role [ none ↦ false | some q ↦ same_role q r ]
]

unfoldable pub interposed : Tree → Goal → Bool
unfolding has_role
interposed tree goal = any (has_role tree lhs) goal.children

unfoldable pub cased : Tree → Goal → Bool
unfolding has_role
cased tree goal = any (has_role tree holds) goal.children

find_child : Tree → Role → List GoalId → Option Goal
find_child tree r [] = none
find_child tree r (id ∷ ids) =
    if has_role tree r id then Dict.get tree.goals id else find_child tree r ids

-- The half of `parent`'s cut that plays `role`.
unfoldable pub child : Tree → Goal → Role → Result Goal
unfolding find_child has_role
child tree parent r = or_throw (find_child tree r parent.children) (no_child parent.id r)

-- `/^g(\d+)$/`: the number in a goal id, or 0 for one that is not named that way.
unfoldable pub number : GoalId → ℕ
number String.[] = 0
number (String.◌∷◌ c s) =
    if nat_eq (code c) b'g' then elim (read s) [ none ↦ 0 | some n ↦ n ] else 0

unfoldable pub goal_id : ℕ → GoalId
goal_id n = String.◌∷◌ "g" (decimal n)

-- The ids the next cut will give its two children, in order.
unfoldable pub next_goal_ids : Tree → GoalId × GoalId
unfolding goal_id
next_goal_ids tree = (goal_id tree.next_goal, goal_id (tree.next_goal + 1))
