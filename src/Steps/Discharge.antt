-- ===== src/Steps/Discharge.antt =====
-- engine/core/state/steps.ts: asking whether a goal holds, as it stands or after a step.
use alive_next.Prelude.{
  ℕ, ltb, String, Bool, true, false, ◌&&◌, Option, none, some, List, [], ◌∷◌, ◌++◌, if◌then◌else◌,
  ◌==◌,
}
use alive_next.Prelude.Dict
use alive_next.Trajectory.{Hash, Side, src, tgt, By, Effect}
use alive_next.Goals.Types.{GoalId, Goal, Tree}
use alive_next.Goals.Queries.{workable, head}
use alive_next.Failure.{done, lift}
use alive_next.Drivers.{CheckResult, CheckOutcome, incorrect, error}
use alive_next.Splits.{concat}
use alive_next.Steps.{
  or_else, Kit, Run, give, raise, ◌>>=◌, Pair, question, unasked, unsolved, fetch, GoalOutcome,
  goal_outcome, root_pair,
}
use alive_next.Steps.GoalOutcome.{proved, unknown}
use alive_next.Steps.Ask.{is_correct, either_loops, alive2, capped, Free, by, why, without_solver}

pub record CheckHistoryEntry : Type 0 where
  pub outcome : GoalOutcome
  pub budget_ms : ℕ
  pub ms : ℕ

-- What checking a goal's current pair came to.
pub record CheckGoalResult : Type 0 where
  pub outcome : GoalOutcome
  pub by : By
  pub check : Option CheckResult
  pub unroll : Option ℕ
  pub effects : List Effect
  pub prior : Option CheckHistoryEntry
  pub capped_from_ms : Option ℕ

unfoldable pub entry_of : Option CheckResult → Bool → Option CheckHistoryEntry
entry_of none loops = none
entry_of (some check) loops = some (record {
  outcome = goal_outcome check.outcome loops;
  budget_ms = check.invocation.timeout_ms;
  ms = check.ms;
})

abbrev is_incorrect : CheckOutcome → Bool
is_incorrect incorrect = true
is_incorrect _ = false

-- What a check of a goal's pair makes of the goal, `original` telling the pair is the run's own.
unfoldable pub check_effects : GoalId → GoalOutcome → CheckOutcome → Bool → List Effect
check_effects gid proved answer original = Effect.proved gid (some By.alive2) ∷ []
check_effects gid _ answer original =
    if is_incorrect answer && original then Effect.refuted gid ∷ [] else []

abbrev only_if : {A : Type 0} → Bool → A → Option A
only_if true a = some a
only_if false a = none

-- A refusal to find whether the pair is the root's, where the source does not ask.
unfoldable pub original_if_asked : GoalOutcome → CheckOutcome → Tree → GoalId → Goal → Run Bool
unfolding root_pair
original_if_asked proved answer tree gid goal = give false
original_if_asked _ answer tree gid goal =
    if is_incorrect answer then raise (lift (root_pair tree gid goal)) else give false

abbrev pub history_of : Kit → Pair → Option ℕ → Run (Option CheckResult)
history_of kit pair unroll w = (w, done (Dict.get w.history (question kit pair unroll)))

-- The pair is put to alive2.
unfoldable pub check_pair :
    Kit → Tree → GoalId → Goal → Pair → Bool → Option ℕ → Option ℕ → Run CheckGoalResult
unfolding alive2 capped check_effects original_if_asked entry_of question goal_outcome
check_pair kit tree gid goal pair loops timeout_ms unroll = do
  let asked_ms = or_else timeout_ms kit.timeouts.check_default_ms
  let budget_ms = capped kit asked_ms
  let used = if loops then unroll else none
  prior ← history_of kit pair used
  check ← alive2 kit pair budget_ms used
  let outcome = goal_outcome check.outcome loops
  original ← original_if_asked outcome check.outcome tree gid goal
  give (record {
    outcome = outcome;
    by = By.alive2;
    check = some check;
    unroll = used;
    effects = check_effects gid outcome check.outcome original;
    prior = entry_of prior loops;
    capped_from_ms = only_if (ltb budget_ms asked_ms) asked_ms;
  })

unfoldable pub not_searched : String → CheckGoalResult
unfolding concat unasked
not_searched reason = record {
  outcome = unknown;
  by = By.alive2;
  check = some (
      unasked
        (concat "the pair " (
          concat reason
            ", so a pair that loops is proved by cutting it at its loop header; an unroll factor only searches it for a counterexample"))
        error);
  unroll = none;
  effects = [];
  prior = none;
  capped_from_ms = none;
}

abbrev is_none : Option ℕ → Bool
is_none none = true
is_none (some n) = false

unfoldable pub check_apart :
    Kit → Tree → GoalId → Goal → Pair → Option ℕ → Option ℕ → Free → Run CheckGoalResult
unfolding either_loops check_pair not_searched
check_apart kit tree gid goal pair timeout_ms unroll (by checker) = give (record {
  outcome = proved;
  by = checker;
  check = none;
  unroll = none;
  effects = Effect.proved gid (some checker) ∷ [];
  prior = none;
  capped_from_ms = none;
})
check_apart kit tree gid goal pair timeout_ms unroll (why reason) = do
  loops ← either_loops kit pair
  if loops && is_none unroll
      then give (not_searched reason)
      else check_pair kit tree gid goal pair loops timeout_ms unroll

-- Ask whether a goal's claim holds as it stands.
unfoldable pub check_goal : Kit → Tree → GoalId → Option ℕ → Option ℕ → Run CheckGoalResult
unfolding workable head fetch check_pair check_apart without_solver
check_goal kit tree gid timeout_ms unroll = do
  goal ← raise (lift (workable tree gid))
  s ← raise (lift (head goal src))
  t ← raise (lift (head goal tgt))
  before ← fetch kit s
  after ← fetch kit t
  let pair : Pair = record { before = before; after = after }
  if s == t
      then check_pair kit tree gid goal pair false timeout_ms unroll
      else check_apart kit tree gid goal pair timeout_ms unroll (without_solver kit pair)

-- The cheap check of a goal's current pair.
unfoldable pub eager_goal_check : Kit → Tree → GoalId → Run CheckGoalResult
unfolding check_goal
eager_goal_check kit tree gid = check_goal kit tree gid (some kit.timeouts.eager_check_ms) none

-- Where a side of the goal is once the step on the given side has landed.
unfoldable pub landed_head : Goal → Side → Hash → Side → Run Hash
unfolding head
landed_head goal src after src = give after
landed_head goal tgt after tgt = give after
landed_head goal src after tgt = raise (lift (head goal tgt))
landed_head goal tgt after src = raise (lift (head goal src))

-- What an answer to the cheap check adds to the effects.
unfoldable pub eager_effects : GoalId → List Effect → CheckResult → List Effect
eager_effects gid effects check =
    if is_correct check.outcome then effects ++ Effect.proved gid (some By.alive2) ∷ [] else effects

unfoldable pub eager_apart :
    Kit → GoalId → List Effect → Pair → Free → Run (List Effect × Option CheckResult)
unfolding alive2 unsolved eager_effects concat
eager_apart kit gid effects pair (by checker) =
    give (effects ++ Effect.proved gid (some checker) ∷ [], none)
eager_apart kit gid effects pair (why reason) = do
  asked ← alive2 kit pair kit.timeouts.eager_check_ms none
  let eager = unsolved asked (concat "the new pair " reason)
  give (eager_effects gid effects eager, some eager)

unfoldable pub eager_same :
    Kit → GoalId → List Effect → Pair → Run (List Effect × Option CheckResult)
unfolding alive2 eager_effects
eager_same kit gid effects pair = do
  asked ← alive2 kit pair kit.timeouts.eager_check_ms none
  give (eager_effects gid effects asked, some asked)

-- Ask cheaply whether the goal's new pair is now discharged; the effects come back with what that
-- adds to them.
unfoldable pub eager_check :
    Kit → Goal → GoalId → Side → Hash → List Effect → Run (List Effect × Option CheckResult)
unfolding landed_head fetch eager_apart eager_same without_solver
eager_check kit goal gid side after effects = do
  s ← landed_head goal side after src
  t ← landed_head goal side after tgt
  old ← fetch kit s
  new ← fetch kit t
  let pair : Pair = record { before = old; after = new }
  if s == t
      then eager_same kit gid effects pair
      else eager_apart kit gid effects pair (without_solver kit pair)
