-- ===== src/Counterexamples.antt =====
-- engine/core/state/counterexamples.ts: certifying a counterexample. llops, the refinement check and
-- the interpreter are parameters. A reason is a value that names the texts it is made of.
pub mod Divergent
pub mod Reports
use alive_next.Prelude.{
  ℕ, String, Bool, true, false, not, ◌&&◌, ◌||◌, Option, none, some, List, [], ◌∷◌, if◌then◌else◌,
  nat_eq, head?, length, ◌==◌,
}
use Prim.Native.Char.{code}
use alive_next.Prelude.Dict
use alive_next.Prelude.Dict.{Dict}
use alive_next.Trajectory.{Hash, Side, Effect}
use alive_next.Trajectory.Side.{src, tgt}
use alive_next.Goals.Types.{GoalId, Goal, Tree, Status, same_status, on}
use alive_next.Failure.{Failure, no_such_goal, other, Attempt, thrown, done, ◌>>=◌}
use alive_next.Drivers.{
  LlopsResult, answer, refusal, ValidateResult, FunctionMeta, InputArg, HarnessResult, CheckResult,
  CheckOutcome, correct, incorrect, RunResult, RunOutcome, returned, ub, failed,
}
use alive_next.Store.{Disk, Tools, get}

pub data Reason : Type 0 where
  did_not_run : Side → String → Reason
  src_has_ub : String → Reason
  tgt_has_ub : String → Reason
  not_the_same_things : Reason
  not_observed : String → Reason
  differs : String → String → String → Reason
  runs_agree : Reason

-- Whether the two runs show the tgt doing what the src does not allow.
pub record Divergence : Type 0 where
  pub confirmed : Bool
  pub reason : Reason

-- String.prototype.startsWith and includes
unfoldable pub starts_with : String → String → Bool
starts_with s String.[] = true
starts_with String.[] (String.◌∷◌ c p) = false
starts_with (String.◌∷◌ d s) (String.◌∷◌ c p) = nat_eq (code d) (code c) && starts_with s p

unfoldable pub includes : String → String → Bool
unfolding starts_with
includes String.[] p = starts_with String.[] p
includes (String.◌∷◌ c s) p = starts_with (String.◌∷◌ c s) p || includes s p

-- The loop over what the src observed.
unfoldable pub compare : List (String × String) → Dict String → Divergence
unfolding includes
compare [] theirs = record { confirmed = false; reason = runs_agree }
compare ((name, ours) ∷ rest) theirs =
    let later = compare rest theirs in
    elim (Dict.get theirs name) [
      | none ↦ record { confirmed = false; reason = not_observed name }
      | some value ↦
          if (ours == value) || includes ours "poison"
          then later
          else record { confirmed = true; reason = differs name ours value }
    ]

unfoldable pub compare_returned : RunResult → RunResult → Divergence
unfolding compare
compare_returned s t =
    if nat_eq (length s.observations.entries) (length t.observations.entries)
    then compare s.observations.entries t.observations
    else record { confirmed = false; reason = not_the_same_things }

-- What the two runs came to, by how they ended.
unfoldable pub judge : RunOutcome → RunOutcome → RunResult → RunResult → Divergence
unfolding compare_returned
judge failed o s t = record { confirmed = false; reason = did_not_run src s.reason }
judge returned failed s t = record { confirmed = false; reason = did_not_run tgt t.reason }
judge ub failed s t = record { confirmed = false; reason = did_not_run tgt t.reason }
judge ub returned s t = record { confirmed = false; reason = src_has_ub s.reason }
judge ub ub s t = record { confirmed = false; reason = src_has_ub s.reason }
judge returned ub s t = record { confirmed = true; reason = tgt_has_ub t.reason }
judge returned returned s t = compare_returned s t

unfoldable pub divergence : RunResult → RunResult → Divergence
unfolding judge
divergence s t = judge s.outcome t.outcome s t

pub record Replay : Type 0 where
  pub entry : String
  pub src : RunResult
  pub tgt : RunResult

pub data WhyRefused : Type 0 where
  already_proved : GoalId → WhyRefused
  bad_input : String → WhyRefused
  no_divergence different_functions : WhyRefused
  no_harness : Side → String → WhyRefused
  treated_differently : List String → WhyRefused
  not_confirmed : Reason → WhyRefused

-- A refuted report names its checker by what it keeps: alive2 its detail's first line, llubi the runs.
pub data ReportResult : Type 0 where
  refuted_by_alive2 : List Effect → CheckResult → ReportResult
  refuted_by_llubi : List Effect → CheckResult → Replay → Reason → ReportResult
  refused : WhyRefused → Option CheckResult → Option Replay → ReportResult

-- What a report calls.
pub record Checkers : Type 0 where
  pub instantiate : String → String → List InputArg → LlopsResult (String × String)
  pub refinement_check : String → String → Option ℕ → Option ℕ → Attempt CheckResult
  pub validate : String → LlopsResult ValidateResult
  pub harness : String → String → List InputArg → LlopsResult HarnessResult
  pub run : String → RunResult

-- The program a side started with.
unfoldable pub origin : Goal → Side → Attempt Hash
origin goal side = elim (head? (on goal side).history) [
  | none ↦ thrown (no_such_goal goal.id)
  | some h ↦ done h
]

unfoldable pub refuted : Goal → List Effect
refuted root = Effect.refuted root.id ∷ []

abbrev cyclic_or_refused : LlopsResult ValidateResult → Bool
cyclic_or_refused (refusal code message) = true
cyclic_or_refused (answer r) = r.cyclic

-- Whether either program loops, as `llops validate` says.
unfoldable pub loops : Checkers → String → String → Bool
loops checkers s t =
    cyclic_or_refused (checkers.validate s) || cyclic_or_refused (checkers.validate t)

unfoldable pub defined_in : List (String × FunctionMeta) → List String
defined_in [] = []
defined_in ((name, fn) ∷ fns) = if fn.defined then name ∷ defined_in fns else defined_in fns

abbrev only_one : List String → Attempt String
only_one (name ∷ []) = done name
only_one _ = thrown (other "the program does not define one function")

-- The one function a program defines, which is what a harness wraps.
unfoldable pub entry : Checkers → String → Attempt String
unfolding defined_in
entry checkers text = elim (checkers.validate text) [
  | refusal code message ↦ thrown (other message)
  | answer r ↦ only_one (defined_in r.functions)
]

abbrev pub is_nil {ℓ} : {A : Type ℓ} → List A → Bool
is_nil [] = true
is_nil (x ∷ xs) = false

-- The end of `replay`, when both harnesses are made.
unfoldable pub replayed : Checkers → Goal → String → CheckResult → String → String → ReportResult
unfolding divergence refuted
replayed checkers root name check s t =
    let runs : Replay = record { entry = name; src = checkers.run s; tgt = checkers.run t } in
    let found = divergence runs.src runs.tgt in
    if found.confirmed
    then refuted_by_llubi (refuted root) check runs found.reason
    else refused (not_confirmed found.reason) (some check) (some runs)

unfoldable pub harnessed :
    Checkers
    → Goal
    → String
    → CheckResult
    → HarnessResult
    → LlopsResult HarnessResult
    → ReportResult
unfolding replayed
harnessed checkers root name check s (refusal code message) =
    if is_nil s.differences
    then refused (no_harness tgt message) (some check) none
    else refused (treated_differently s.differences) (some check) none
harnessed checkers root name check s (answer t) =
    if is_nil s.differences
    then replayed checkers root name check s.module_text t.module_text
    else refused (treated_differently s.differences) (some check) none

unfoldable pub with_harness :
    Checkers
    → Goal
    → String
    → List InputArg
    → String
    → CheckResult
    → LlopsResult HarnessResult
    → ReportResult
unfolding harnessed
with_harness checkers root t input name check (refusal code message) =
    refused (no_harness src message) (some check) none
with_harness checkers root t input name check (answer h) =
    harnessed checkers root name check h (checkers.harness t name input)

-- Run the pair on the input under llubi, since alive2 did not decide it.
unfoldable pub replay :
    Checkers → Goal → String → String → List InputArg → CheckResult → Attempt ReportResult
unfolding entry with_harness
replay checkers root s t input check = do
  name ← entry checkers s
  its ← entry checkers t
  if its == name
      then done (with_harness checkers root t input name check (checkers.harness s name input))
      else done (refused different_functions (some check) none)

-- What alive2's answer comes to.
unfoldable pub decided :
    Checkers
    → Goal
    → String
    → String
    → List InputArg
    → CheckResult
    → CheckOutcome
    → Attempt ReportResult
unfolding replay refuted loops
decided checkers root s t input check incorrect = done (refuted_by_alive2 (refuted root) check)
decided checkers root s t input check correct =
    let undecided = replay checkers root s t input check in
    if loops checkers s t then undecided else done (refused no_divergence (some check) none)
decided checkers root s t input check _ = replay checkers root s t input check

unfoldable pub instantiated :
    Checkers
    → Goal
    → String
    → String
    → List InputArg
    → Option ℕ
    → Option ℕ
    → LlopsResult (String × String)
    → Attempt ReportResult
unfolding decided
instantiated checkers root s t input unroll timeout_ms (refusal code message) =
    done (refused (bad_input message) none none)
instantiated checkers root s t input unroll timeout_ms (answer (s', t')) = do
  check ← checkers.refinement_check s' t' timeout_ms unroll
  decided checkers root s t input check check.outcome

-- Ask about the pair the run was asked about at one input.
unfoldable pub report :
    Tools → Disk → Checkers → Tree → List InputArg → Option ℕ → Option ℕ → Attempt ReportResult
unfolding origin instantiated get
report tools disk checkers tree input unroll timeout_ms = elim (Dict.get tree.goals tree.root) [
  | none ↦ thrown (no_such_goal tree.root)
  | some root ↦
      if same_status root.status Status.proved
      then done (refused (already_proved root.id) none none)
      else (do
        first_src ← origin root src
        s ← get tools disk first_src
        first_tgt ← origin root tgt
        t ← get tools disk first_tgt
        instantiated checkers root s t input unroll timeout_ms (checkers.instantiate s t input))
]
