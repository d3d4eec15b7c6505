-- ===== src/Tests/Goals.antt =====
-- The goal tree of engine/core/state/goals.ts on short logs, after engine/test/goals.test.ts, and
-- the theorems about it at those logs.
use alive_next.Prelude.{
  String, false, none, some, List, [], ◌∷◌, map, ◌≡◌, ◌≢◌, refl, subst, ◌⊎◌, true, sym, some-eq, In,
}
use alive_next.Prelude.Dict
use alive_next.Prelude.Decimal.{decimal, read}
use alive_next.Trajectory.{
  Side, Effect, Entry, Event, Half, step, cut, uncut, proved, start, StepEffect, tool_result, check,
}
use alive_next.Goals.Types.{
  GoalId, Goal, Tree, Result, ok, err, ◌>>=◌, Status, out_of_fuel, on, not_cut,
}
use alive_next.Goals.Queries.{
  open_leaves, verdict, next_goal_ids, Verdict, verified, number, head, find,
}
use alive_next.Goals.Moves.{editable, settle_step, put, name}
use alive_next.Goals.Derive.{
  derive, derive_event, apply, apply_step, apply_revert, apply_cut, apply_proved, start_tree, undo,
  is_cut,
}
use alive_next.Goals.Restatus.{ok-injective}
use alive_next.Goals.Wf.{IsWf}
use alive_next.Goals.Replay.{start_tree-IsWf, PlaysAll}
use alive_next.Goals.Ids.{TakesNext, derive-IsWf, next_goal_ids-fresh}
use alive_next.Goals.Verdict.{Below, IsSoundEffect, IsProved, here, derive-verified}
use alive_next.Goals.Ends.{apply-ends}
use alive_next.Goals.Reopen.{childless}
use alive_next.Goals.Undone.{undo-exact}
use alive_next.Goals.Moved.{IsStepped, EndsAt, step-IsStepped, revert-EndsAt}

abbrev run : Event
run = start (record { src = "hs"; tgt = "ht"; config = "{}"; toolchain = none; versions = [] })

abbrev did : List Effect → Event
did es = tool_result "1" "t" (some es) "" 1

abbrev log : List Event → List Entry
log [] = []
log (e ∷ es) = record { event = e; time = 0; prev = "" } ∷ log es

abbrev half : String → String → String → Half
half g s t = record { gid = g; src = s; tgt = t }

abbrev split_g1 : Effect
split_g1 = cut (record {
  gid = "g1";
  name = "outlined_g3";
  outer = half "g2" "h2s" "h2t";
  callee = half "g3" "h3s" "h3t";
  detach = none;
  slots = none;
  src_alone = false;
})

abbrev step_g1 : StepEffect
step_g1 = record {
  gid = "g1";
  side = Side.src;
  to = "h2";
  how = check;
  by = none;
  rules = none;
  invocation = none;
  window = none;
}

-- The replay with all that it calls.
derived : List Event → Result Tree
unfolding derive apply apply_step apply_revert apply_cut apply_proved undo is_cut start_tree
    settle_step find Dict.get Dict.set Dict.empty Dict.delete Dict.size number decimal read
derived events = derive (log events)

ids : Result Tree → Result (List String)
unfolding open_leaves Dict.values
ids r = r >>= λ t. ok (map (λ (g : Goal). g.id) (open_leaves t))

outcome : Result Tree → Result Verdict
unfolding verdict
outcome r = r >>= λ t. ok (verdict t)

a_cut_opens_two : ids (derived (run ∷ did (split_g1 ∷ []) ∷ [])) ≡ ok ("g2" ∷ "g3" ∷ [])
unfolding derived ids
a_cut_opens_two = refl

both_children_prove :
    outcome (derived (run ∷ did (split_g1 ∷ proved "g2" none ∷ proved "g3" none ∷ []) ∷ []))
    ≡ ok verified
unfolding derived outcome
both_children_prove = refl

an_uncut_reopens : ids (derived (run ∷ did (split_g1 ∷ uncut "g1" ∷ []) ∷ [])) ≡ ok ("g1" ∷ [])
unfolding derived ids
an_uncut_reopens = refl

-- A step on a goal that was proved through its children leaves no open leaf.
a_step_above_proved_children :
    ids (
      derived (run ∷ did (split_g1 ∷ proved "g2" none ∷ proved "g3" none ∷ step step_g1 ∷ []) ∷ []))
    ≡ ok []
unfolding derived ids
a_step_above_proved_children = refl

abbrev first : Tree
first = start_tree "hs" "ht"

next_goal_ids-fresh_example :
    (Dict.get first.goals (next_goal_ids first).0 ≡ none)
    × (Dict.get first.goals (next_goal_ids first).1 ≡ none)
    × ((next_goal_ids first).0 ≢ (next_goal_ids first).1)
next_goal_ids-fresh_example = next_goal_ids-fresh first (start_tree-IsWf "hs" "ht")

apply-ends_example : apply first split_g1 ≢ err out_of_fuel
apply-ends_example = apply-ends first split_g1 (start_tree-IsWf "hs" "ht")

-- The tree after the run's start and a step on its goal.
stepped : Tree
unfolding put name start_tree editable Dict.get Dict.set Dict.empty Dict.size decimal
stepped = name (put first "g1" (record root { src = record { history = "hs" ∷ "h2" ∷ [] } })) "h2"
  where
    root : Goal
    root = record {
      id = "g1";
      parent = none;
      role = none;
      made = record { callee = none; detach = none; slots = none; src_alone = false };
      src = record { history = "hs" ∷ [] };
      tgt = record { history = "ht" ∷ [] };
      status = Status.open_;
      children = [];
    }

step-IsStepped_example :
    (g g' : Goal) × (Dict.get first.goals "g1" ≡ some g)
    × (Dict.get stepped.goals "g1" ≡ some g')
    × IsStepped step_g1 g g'
unfolding apply_step stepped
step-IsStepped_example = step-IsStepped first step_g1 refl

value : Result Tree → Tree
value (ok t) = t
value (err e) = first

reverted : Tree
unfolding value apply_revert stepped
reverted = value (apply_revert stepped "g1" Side.src "hs")

revert-EndsAt_example :
    (g g' : Goal) × (Dict.get stepped.goals "g1" ≡ some g)
    × (Dict.get reverted.goals "g1" ≡ some g')
    × EndsAt "hs" (on g Side.src).history (on g' Side.src).history
    × (head g' Side.src ≡ ok "hs")
    × (g'.status ≡ Status.open_)
unfolding reverted
revert-EndsAt_example = revert-EndsAt stepped "g1" Side.src "hs" refl

abbrev cut_log : List Entry
cut_log = log (run ∷ did (split_g1 ∷ []) ∷ [])

cut_tree : Tree
unfolding value derived
cut_tree = value (derive cut_log)

cut_log-TakesNext : PlaysAll TakesNext none cut_log
unfolding derive_event start_tree next_goal_ids name Dict.get Dict.set Dict.empty Dict.size decimal
cut_log-TakesNext = (
  tt,
  λ u e.
      subst (λ v. PlaysAll TakesNext v (log (did (split_g1 ∷ []) ∷ []))) (ok-injective e)
        ((refl, λ v f. tt), λ v f. tt),
)

cut_tree-IsWf : IsWf cut_tree
unfolding cut_tree
cut_tree-IsWf = derive-IsWf cut_log cut_tree cut_log-TakesNext refl

uncut_tree : Tree
unfolding value undo is_cut cut_tree
uncut_tree = value (undo cut_tree "g1" is_cut (not_cut "g1"))

undo-exact_example :
    (p : Goal) × (Dict.get cut_tree.goals "g1" ≡ some p)
    × (p.status ≡ Status.split)
    × (is_cut cut_tree p ≡ true)
    × (Dict.get uncut_tree.goals "g1" ≡ some (childless p))
    × ((j : GoalId) (h : Goal)
        → "g1" ≢ j
        → Dict.get cut_tree.goals j ≡ some h
        → ((Dict.get uncut_tree.goals j ≡ some h) × (Below cut_tree "g1" j → ⊥))
          ⊎ ((Dict.get uncut_tree.goals j ≡ none) × Below cut_tree "g1" j))
unfolding undo is_cut uncut_tree cut_tree
undo-exact_example = undo-exact cut_tree "g1" is_cut (not_cut "g1") uncut_tree cut_tree-IsWf refl

derive-IsWf_example : IsWf cut_tree
unfolding cut_tree
derive-IsWf_example = derive-IsWf cut_log cut_tree cut_log-TakesNext refl

abbrev proved_log : List Entry
proved_log = log (run ∷ did (proved "g1" none ∷ []) ∷ [])

proved_tree : Tree
unfolding value derived
proved_tree = value (derive proved_log)

proved_log-IsSound : PlaysAll IsSoundEffect none proved_log
unfolding derive_event start_tree Dict.get Dict.set Dict.empty name
proved_log-IsSound = (
  tt,
  λ u e.
      subst (λ v. PlaysAll IsSoundEffect v (log (did (proved "g1" none ∷ []) ∷ [])))
        (ok-injective e)
        (
          (
            (tt, λ g h c x m. absurd (subst (λ (y : Goal). In c y.children) (sym (some-eq h)) m)),
            λ v f. tt,
          ),
          λ v f. tt,
        ),
)

derive-verified_example : IsProved proved_tree "g1"
unfolding proved_tree verdict
derive-verified_example =
    derive-verified proved_log proved_tree "g1" proved_log-IsSound refl refl here
