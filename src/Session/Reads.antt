-- ===== src/Session/Reads.antt =====
-- engine/core/session.ts: the methods that read, `status`, `show`, `program`, `analyze` and `execute`,
-- and the answers that they give. The analyses of llops and the runs of llubi are parameters.
use alive_next.Prelude.{ℕ, String, Option, none, some, List, [], ◌∷◌, length, ◌==◌, if◌then◌else◌}
use alive_next.Prelude.Dict
use alive_next.Trajectory.{Hash, Side, src, tgt}
use alive_next.Goals.Types.{GoalId, Role, Status, Goal, Tree, on}
use alive_next.Goals.Queries.{Verdict, verdict, head}
use alive_next.Failure.{other, Attempt, thrown, done, ◌>>=◌, lift}
use alive_next.Drivers.{LlopsResult, answer, refusal, HarnessResult, RunResult, InputArg}
use alive_next.Store
use alive_next.Splits.{concat, DefinedIn, function, unreadable, outside_shape, defined_in}
use alive_next.Steps.{Timeouts}
use alive_next.Transactions.{Transaction}
use alive_next.Session.{Host, Bench, Move, Act, act}
use alive_next.Session.Moves.{goal_of, ProgramView, program_of}
use alive_next.Session.Methods.{no_effects}

pub record SideView : Type 0 where
  pub id : String
  pub hash : Hash
  pub text : String
  pub history : List String

pub record GoalView : Type 0 where
  pub gid : GoalId
  pub status : Status
  pub role : Option Role
  pub callee : Option String
  pub parent : Option GoalId
  pub children : List GoalId
  pub src : SideView
  pub tgt : SideView

pub record GoalStanding : Type 0 where
  pub gid : GoalId
  pub status : Status
  pub role : Option Role
  pub parent : Option GoalId
  pub children : List GoalId
  pub src : Hash
  pub tgt : Hash

pub record Editing : Type 0 where
  pub gid : GoalId
  pub side : Side
  pub from : Hash
  pub ops : ℕ

pub record Standing : Type 0 where
  pub root : GoalId
  pub verdict : Verdict
  pub goals : List GoalStanding
  pub editing : Option Editing
  pub budgets : Timeouts

pub data ExecuteResult : Type 0 where
  executed : RunResult → List String → ExecuteResult
  refused : String → ExecuteResult

-- A text that is set and not empty.
abbrev given : Option String → Option String
given none = none
given (some s) = if s == "" then none else some s

-- The name a program goes by.
unfoldable pub name_of : Tree → Hash → Attempt String
name_of tree hash = elim (Dict.get tree.programs hash) [
  | none ↦ thrown (other (concat "the tree has no name for " hash))
  | some id ↦ if id == "" then thrown (other (concat "the tree has no name for " hash)) else done id
]

unfoldable pub names_of : Tree → List Hash → Attempt (List String)
unfolding name_of
names_of tree [] = done []
names_of tree (hash ∷ hashes) = do
  id ← name_of tree hash
  ids ← names_of tree hashes
  done (id ∷ ids)

unfoldable pub side_view : Store.Tools → Store.Disk → Tree → Goal → Side → Attempt SideView
unfolding head names_of Store.get
side_view tools disk tree goal side = do
  hash ← lift (head goal side)
  id ← name_of tree hash
  text ← Store.get tools disk hash
  history ← names_of tree (on goal side).history
  done (record { id = id; hash = hash; text = text; history = history })

-- What `show` answers.
unfoldable pub view_of : Store.Tools → Store.Disk → Tree → GoalId → Attempt GoalView
unfolding goal_of side_view
view_of tools disk tree gid = do
  goal ← goal_of tree gid
  s ← side_view tools disk tree goal src
  t ← side_view tools disk tree goal tgt
  done (record {
    gid = goal.id;
    status = goal.status;
    role = goal.role;
    callee = given goal.made.callee;
    parent = given goal.parent;
    children = goal.children;
    src = s;
    tgt = t;
  })

unfoldable pub standing_of : Goal → Attempt GoalStanding
unfolding head
standing_of goal = do
  s ← lift (head goal src)
  t ← lift (head goal tgt)
  done (record {
    gid = goal.id;
    status = goal.status;
    role = goal.role;
    parent = given goal.parent;
    children = goal.children;
    src = s;
    tgt = t;
  })

unfoldable pub standings_of : List Goal → Attempt (List GoalStanding)
unfolding standing_of
standings_of [] = done []
standings_of (goal ∷ goals) = do
  standing ← standing_of goal
  rest ← standings_of goals
  done (standing ∷ rest)

-- Every goal without its programs.
unfoldable pub standings : Tree → Attempt (List GoalStanding)
unfolding standings_of
standings tree = standings_of (Dict.values tree.goals)

abbrev editing_of : Option Transaction → Option Editing
editing_of none = none
editing_of (some x) =
    some (record { gid = x.gid; side = x.side; from = x.from; ops = length x.ops })

-- What `status` answers.
unfoldable pub stands_at : Timeouts → Tree → Bench → Attempt Standing
unfolding standings verdict
stands_at budgets tree bench = do
  goals ← standings tree
  done (record {
    root = tree.root;
    verdict = verdict tree;
    goals = goals;
    editing = editing_of bench.editing;
    budgets = budgets;
  })

-- A move that only reads.
abbrev pub reading : {A : Type 0} → (Tree → Bench → Attempt A) → Tree → Move A
reading answers tree bench = (bench, answers tree bench)

-- The head of a goal's side, as text.
unfoldable pub head_text : Store.Tools → Store.Disk → Tree → GoalId → Side → Attempt String
unfolding goal_of head Store.get
head_text tools disk tree gid side = do
  goal ← goal_of tree gid
  hash ← lift (head goal side)
  Store.get tools disk hash

-- The llops analyses that a run asks, and the runs of llubi.
pub record Analyzer : Type 1 where
  pub Kind : Type 0
  pub Answer : Type 0
  pub analyze : String → Kind → Option String → LlopsResult Answer
  pub harness : String → String → List InputArg → LlopsResult HarnessResult
  pub run : String → ℕ → RunResult

abbrev pub executed_steps : ℕ
executed_steps = 20000

abbrev pub steps_or : Option ℕ → ℕ
steps_or none = executed_steps
steps_or (some n) = n

module _ (analyzer : Analyzer) where
  abbrev run_harness : ℕ → LlopsResult HarnessResult → ExecuteResult
  run_harness max_steps (refusal code message) = refused message
  run_harness max_steps (answer h) = executed (analyzer.run h.module_text max_steps) h.differences

  abbrev execute_in : String → List InputArg → ℕ → DefinedIn → ExecuteResult
  execute_in text input max_steps (unreadable why) = refused why
  execute_in text input max_steps (outside_shape diagnostics) = refused "outside the program shape"
  execute_in text input max_steps (function name type) =
      run_harness max_steps (analyzer.harness text name input)

-- A program as a reader is shown it.
abbrev pub marked : Host → String → String
marked host text = elim (host.kit.number text) [
  | refusal code message ↦ text
  | answer r ↦ r.module_text
]

module _ (host : Host) where
  open host use {kit, json}

  unfoldable pub status : Act Standing
  unfolding act stands_at
  status = act host "status" "{}" (reading (stands_at kit.timeouts)) no_effects json

  unfoldable pub show : GoalId → Act GoalView
  unfolding act view_of
  show gid =
      act host "show" (json gid) (reading (λ tree b. view_of kit.tools b.world.disk tree gid))
        no_effects
        (λ view.
          json {A = GoalId × Status × Hash × Hash}
            (view.gid, view.status, view.src.hash, view.tgt.hash))

  unfoldable pub program : String → Act ProgramView
  unfolding act program_of
  program ref =
      act host "program" (json ref) (reading (λ tree b. program_of kit.tools b.world.disk tree ref))
        no_effects (λ view. json {A = String × Hash} (view.id, view.hash))

  unfoldable pub analyze :
      (analyzer : Analyzer)
      → GoalId
      → Side
      → analyzer.Kind
      → Option String
      → Act (LlopsResult analyzer.Answer)
  unfolding act head_text
  analyze analyzer gid side kind point =
      act host "analyze"
        (json {A = GoalId × Side × analyzer.Kind × Option String} (gid, side, kind, point))
        (reading (λ tree b. do
          text ← head_text kit.tools b.world.disk tree gid side
          done (analyzer.analyze text kind point)))
        no_effects json

  -- The trace is as long as the run, and is not written.
  unfoldable pub execute : Analyzer → GoalId → Side → List InputArg → Option ℕ → Act ExecuteResult
  unfolding act head_text execute_in defined_in
  execute analyzer gid side input max_steps =
      act host "execute"
        (json {A = GoalId × Side × List InputArg × ℕ} (gid, side, input, steps_or max_steps))
        (reading (λ tree b. do
          text ← head_text kit.tools b.world.disk tree gid side
          done (
              execute_in analyzer text input (steps_or max_steps)
                (defined_in (kit.validate text)))))
        no_effects json
