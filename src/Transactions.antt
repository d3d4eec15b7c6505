-- ===== src/Transactions.antt =====
-- engine/core/state/transactions.ts: editing one side of one goal. The class's field `current` is the
-- first argument and part of what is answered; an operation that throws says what is left of it.
-- llops, the window search of narrow.ts and the step check of steps.ts are parameters.
pub mod Scratch
pub mod Closing
pub mod Below
use alive_next.Prelude.{
  ℕ, zero, suc, String, Bool, true, false, not, ◌&&◌, Option, none, some, List, [], ◌∷◌, ◌++◌,
  if◌then◌else◌, ◌==◌, length,
}
use alive_next.Prelude.Dict
use alive_next.Trajectory.{Hash, Side, src, tgt}
use alive_next.Goals.Types.{GoalId, Goal, Tree, Result, ok, err, no_goal, out_of_fuel}
use alive_next.Goals.Queries.{workable, head}
use alive_next.Goals.Moves.{fuel}
use alive_next.Failure.{Failure, already_open, none_open, other, Attempt, thrown, done, ◌>>=◌, lift}
use alive_next.Drivers.{
  LlopsResult, answer, refusal, ModuleResult, OptResult, EditOp, OptOp, simplify, instcombine,
  pipeline,
}
use alive_next.Store.{Disk, Tools, get}

pub data Op : Type 0 where
  edited : EditOp → Op
  optimized : OptOp → Op

pub record Transaction : Type 0 where
  pub gid : GoalId
  pub side : Side
  pub from : Hash
  pub text : String
  pub ops : List Op

pub data EditResult : Type 0 where
  applied : String → ℕ → Option (List String) → EditResult
  unchanged : String → ℕ → EditResult
  refused : String → String → String → EditResult

abbrev pub same_side : Side → Side → Bool
same_side src src = true
same_side tgt tgt = true
same_side _ _ = false

-- Whether a goal, or one side of it, is being edited.
unfoldable pub is_editing : Option Transaction → GoalId → Option Side → Bool
is_editing none gid side = false
is_editing (some x) gid none = x.gid == gid
is_editing (some x) gid (some side) = (x.gid == gid) && same_side x.side side

-- The loop of `isEditingBelow`, up from a goal.
unfoldable pub climb : ℕ → Tree → Option GoalId → GoalId → Result Bool
climb f tree none gid = ok false
climb zero tree (some at) gid = err out_of_fuel
climb (suc f) tree (some at) gid = elim (Dict.get tree.goals at) [
  | none ↦ ok false
  | some goal ↦ let rest = climb f tree goal.parent gid in if goal.id == gid then ok true else rest
]

-- Whether undoing `gid`'s subtree would discard the open transaction.
unfoldable pub is_editing_below : Option Transaction → Tree → GoalId → Result Bool
unfolding climb fuel
is_editing_below none tree gid = ok false
is_editing_below (some x) tree gid = climb (fuel tree) tree (some x.gid) gid

-- The private `require`.
unfoldable pub require : Option Transaction → Attempt Transaction
require none = thrown none_open
require (some x) = done x

unfoldable pub begin :
    Tools → Disk → Option Transaction → Tree → GoalId → Side → Attempt Transaction
unfolding workable head get
begin tools disk (some x) tree gid side = thrown (already_open x.gid x.side)
begin tools disk none tree gid side = do
  goal ← lift (workable tree gid)
  from ← lift (head goal side)
  text ← get tools disk from
  done (record { gid = gid; side = side; from = from; text = text; ops = [] })

unfoldable pub abort : Option Transaction → Attempt (Option Transaction × Transaction)
unfolding require
abort current = do x ← require current; done (none, x)

-- What the scratch program is worked on by.
pub record Editor : Type 0 where
  pub edit : String → EditOp → LlopsResult ModuleResult
  pub opt : String → OptOp → LlopsResult OptResult

-- The scratch program after one more op.
abbrev pub advanced : Transaction → String → Op → Transaction
advanced x text op = record x { text = text; ops = x.ops ++ op ∷ [] }

unfoldable pub edit_with :
    Transaction → EditOp → LlopsResult ModuleResult → Transaction × EditResult
edit_with x op (refusal code message) = (x, refused code message x.text)
edit_with x op (answer r) =
    let x' = advanced x r.module_text (edited op) in
    (x', applied r.module_text (length x'.ops) none)

unfoldable pub edit : Editor → Option Transaction → EditOp → Attempt (Transaction × EditResult)
unfolding require edit_with
edit editor current op = do x ← require current; done (edit_with x op (editor.edit x.text op))

-- A pipeline is kept with the stage that was taken.
unfoldable pub kept_op : OptOp → Option ℕ → OptOp
kept_op (pipeline passes asked) stage = pipeline passes stage
kept_op (simplify v) stage = simplify v
kept_op (instcombine n counter) stage = instcombine n counter

unfoldable pub opt_with : Transaction → OptOp → LlopsResult OptResult → Transaction × EditResult
unfolding kept_op
opt_with x op (refusal code message) = (x, refused code message x.text)
opt_with x op (answer r) =
    let x' = advanced x r.module_text (optimized (kept_op op r.stage)) in
    if r.module_text == x.text
    then (x, unchanged x.text (length x.ops))
    else (x', applied r.module_text (length x'.ops) r.stages)

unfoldable pub opt : Editor → Option Transaction → OptOp → Attempt (Transaction × EditResult)
unfolding require opt_with
opt editor current op = do x ← require current; done (opt_with x op (editor.opt x.text op))

pub data CheckStepResult : Type 0 where
  certified : String → CheckStepResult
  not_certified : String → CheckStepResult

abbrev pub is_certified : CheckStepResult → Bool
is_certified (certified detail) = true
is_certified (not_certified detail) = false

-- narrow.ts: the window that a check is narrowed to, or why there is none.
pub data Narrowing {ℓ} (N : Type ℓ) : Type ℓ where
  narrowed : N → Narrowing N
  why : String → Narrowing N

abbrev pub is_why {ℓ} : {N : Type ℓ} → Narrowing N → Bool
is_why (narrowed n) = false
is_why (why reason) = true

-- What a commit calls: the window search, at a window that is asked for or not, and the step check
-- with the options that are passed on to it.
pub record Checks (Window N Options : Type 0) : Type 0 where
  pub narrow_at : String → String → Window → Attempt (Narrowing N)
  pub narrow : String → String → Attempt (Narrowing N)
  pub check_step : Tree → GoalId → Side → String → Narrowing N → Options → Attempt CheckStepResult

pub record CommitOptions (Window Options : Type 0) : Type 0 where
  pub window : Option Window
  pub narrow_off : Bool
  pub passed_on : Options

-- What is left of the transaction when its commit ends.
unfoldable pub left : Bool → Transaction → Attempt CheckStepResult → Option Transaction
left true x result = none
left false x (thrown failure) = some x
left false x (done result) = if is_certified result then none else some x

module _ {Window N Options : Type 0} where
  unfoldable pub narrow_for :
      Checks Window N Options
      → CommitOptions Window Options
      → String
      → String
      → Attempt (Narrowing N)
  narrow_for checks options before text =
      if options.narrow_off then done (why "narrowing is off") else elim options.window [
        | some w ↦ checks.narrow_at before text w
        | none ↦ checks.narrow before text
      ]

  -- The step check, unless a window that was asked for does not outline.
  unfoldable pub check_found :
      Checks Window N Options
      → Transaction
      → Tree
      → CommitOptions Window Options
      → Narrowing N
      → Attempt CheckStepResult
  check_found checks x tree options found = elim options.window [
    | none ↦ checks.check_step tree x.gid x.side x.text found options.passed_on
    | some w ↦
        if is_why found
        then done (not_certified "the window does not outline")
        else checks.check_step tree x.gid x.side x.text found options.passed_on
  ]

  -- Certify the scratch program as one step: the check of a commit.
  unfoldable pub check_commit :
      Tools
      → Disk
      → Checks Window N Options
      → Transaction
      → Tree
      → CommitOptions Window Options
      → Attempt CheckStepResult
  unfolding workable head get narrow_for check_found
  check_commit tools disk checks x tree options = do
    goal ← lift (workable tree x.gid)
    at ← lift (head goal x.side)
    before ← get tools disk at
    found ← narrow_for checks options before x.text
    check_found checks x tree options found

  unfoldable pub commit :
      Tools
      → Disk
      → Checks Window N Options
      → Option Transaction
      → Tree
      → CommitOptions Window Options
      → Bool
      → Option Transaction × Attempt CheckStepResult
  unfolding check_commit left
  commit tools disk checks none tree options imm_abort = (none, thrown none_open)
  commit tools disk checks (some x) tree options imm_abort =
      let result = check_commit tools disk checks x tree options in
      (left imm_abort x result, result)
