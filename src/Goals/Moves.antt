-- ===== src/Goals/Moves.antt =====
-- engine/core/state/goals.ts, what changes the tree below an effect. A goal object that the source
-- mutates is the entry of `goals` under its key: the function that holds it writes it back with
-- `put`. The recursions up and down the tree take fuel, and `size` is always enough of it.
use alive_next.Prelude.{
  ℕ, zero, suc, ◌+◌, max, String, Bool, Option, none, some, List, [], ◌∷◌, ◌++◌, ltb, if◌then◌else◌,
  all, length,
}
use alive_next.Prelude.Dict
use alive_next.Prelude.Dict.{Dict}
use alive_next.Prelude.Decimal.{decimal}
use alive_next.Trajectory.{Hash, Half}
use alive_next.Goals.Types.{
  GoalId, Role, open_, proved, split, Made, Goal, Tree, not_open, already_exists, out_of_fuel,
  Result, ok, err, ◌>>=◌, same_status,
}
use alive_next.Goals.Queries.{find, number}

-- Writes a goal object back under the key that it was read from.
unfoldable pub put : Tree → GoalId → Goal → Tree
put tree id goal = record tree { goals = Dict.set tree.goals id goal }

-- Names a program `p1`, `p2`, … when it first appears.
unfoldable pub name : Tree → Hash → Tree
name tree hash = elim (Dict.get tree.programs hash) [
  | some id ↦ tree
  | none ↦ record tree {
    programs = Dict.set tree.programs hash (String.◌∷◌ "p" (decimal (Dict.size tree.programs + 1)));
  }
]

-- As many calls up or down the tree as the fuel allows: one more than there are goals, and than
-- the numbers that goals have been given.
unfoldable pub fuel : Tree → ℕ
fuel tree = suc (Dict.size tree.goals + tree.next_goal)

-- Undo the discharges a child's proof carried upwards: one goal of `unsettle`.
unfoldable pub unsettle_step : (Tree → Option GoalId → Result Tree) → Tree → GoalId → Result Tree
unfolding find put
unsettle_step rec tree id = do
  goal ← find tree id
  if same_status goal.status proved
      then rec
          (put tree id
            (record goal { status = if ltb 0 (length goal.children) then split else open_ }))
          goal.parent
      else ok tree

unfoldable pub unsettle : ℕ → Tree → Option GoalId → Result Tree
unsettle f tree none = ok tree
unsettle zero tree (some id) = err out_of_fuel
unsettle (suc f) tree (some id) = unsettle_step (unsettle f) tree id

-- `goal.children.map((child) => get(tree, child))`
unfoldable pub find_all : Tree → List GoalId → Result (List Goal)
find_all tree [] = ok []
find_all tree (id ∷ ids) = do goal ← find tree id; goals ← find_all tree ids; ok (goal ∷ goals)

abbrev pub is_proved : Goal → Bool
is_proved goal = same_status goal.status proved

-- One goal of `settle`.
unfoldable pub settle_step : (Tree → Option GoalId → Result Tree) → Tree → GoalId → Result Tree
unfolding find put find_all
settle_step rec tree id = do
  goal ← find tree id
  if same_status goal.status split
      then (do
        children ← find_all tree goal.children
        if all is_proved children
            then rec (put tree id (record goal { status = proved })) goal.parent
            else ok tree)
      else ok tree

unfoldable pub settle : ℕ → Tree → Option GoalId → Result Tree
settle f tree none = ok tree
settle zero tree (some id) = err out_of_fuel
settle (suc f) tree (some id) = settle_step (settle f) tree id

-- `for (const child of goal.children) discard(tree, child)`
unfoldable pub discard_all : (Tree → GoalId → Result Tree) → Tree → List GoalId → Result Tree
discard_all rec tree [] = ok tree
discard_all rec tree (id ∷ ids) = do tree' ← rec tree id; discard_all rec tree' ids

unfoldable pub discard : ℕ → Tree → GoalId → Result Tree
discard zero tree id = err out_of_fuel
discard (suc f) tree id = do
  goal ← find tree id
  tree' ← discard_all (discard f) tree goal.children
  ok (record tree' { goals = Dict.delete tree'.goals id })

-- Discard `parent`'s children and their subtrees, and reopen it.
unfoldable pub reopen : Tree → GoalId → Goal → Result Tree
unfolding put discard_all discard fuel
reopen tree id parent = do
  tree' ← discard_all (discard (fuel tree)) tree parent.children
  ok (put tree' id (record parent { children = []; status = open_ }))

-- A goal a step may touch; a proved one is reopened, with what its proof settled above it.
unfoldable pub editable : Tree → GoalId → Result (Tree × Goal)
unfolding find put unsettle fuel
editable tree id = do
  goal ← find tree id
  if is_proved goal
      then (do
        tree' ← unsettle (fuel tree) (put tree id (record goal { status = open_ })) goal.parent
        ok (tree', record goal { status = open_ }))
      else if same_status goal.status open_
      then ok (tree, goal)
      else err (not_open id goal.status)

-- Open a child of `parent`, the object under `key`, starting at the pair it was given.
unfoldable pub opened : Tree → GoalId → Goal → Half → Role → Made → Result (Tree × Goal)
unfolding put name number
opened tree key parent half role made = elim (Dict.get tree.goals half.gid) [
  | some goal ↦ err (already_exists half.gid)
  | none ↦
      let goal : Goal = record {
        id = half.gid;
        parent = some parent.id;
        role = some role;
        made = made;
        src = record { history = half.src ∷ [] };
        tgt = record { history = half.tgt ∷ [] };
        status = open_;
        children = [];
      } in
      let parent' : Goal = record parent { children = parent.children ++ half.gid ∷ [] } in
      let tree' = put (put tree half.gid goal) key parent' in
      let numbered : Tree = record tree' { next_goal = max tree.next_goal (number half.gid + 1) } in
      ok (name (name numbered half.src) half.tgt, parent')
]
