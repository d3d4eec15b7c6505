-- ===== src/Steps/Certify.antt =====
-- engine/core/state/steps.ts, `checkStep`: one side of a goal replaced by a new program, if a checker
-- agrees that the goal's claim survives.
mod Options
unfoldable pub use Options.*
use alive_next.Prelude.{
  ℕ, String, Bool, true, false, ◌||◌, Option, none, some, List, [], ◌∷◌, if◌then◌else◌, ◌==◌,
}
use alive_next.Trajectory.{
  Hash, Side, By, reshaped, respected, Attrs, Predicate, Window, Effect, step, How, check,
}
use alive_next.Goals.Types.{GoalId, Goal, Tree}
use alive_next.Goals.Queries.{workable, head}
use alive_next.Failure.{lift}
use alive_next.Transactions.{Narrowing, narrowed, why}
use alive_next.Drivers.{CheckResult, CheckOutcome, correct, incorrect, error}
use alive_next.Splits.{concat}
use alive_next.Steps.{Kit, Run, give, raise, ◌>>=◌, Pair, orient, unasked, unsolved, fetch, keep}
use alive_next.Steps.Ask.{is_correct, alive2, Free, by, without_solver}
use alive_next.Steps.Discharge.{eager_check}
use alive_next.Steps.Conditioned.{At, Narrowed, Conditioned, checked, try_conditioned_window}

-- A certified step, then the cheap check of the new pair unless that is turned off.
unfoldable pub landed : Kit → Goal → Side → Certified → Bool → Run CheckStepResult
unfolding eager_check
landed kit goal side c eager =
    if eager
    then (do
      (effects, answer) ← eager_check kit goal goal.id side c.hash c.effects
      give (certified (record c { effects = effects; eager = answer })))
    else give (certified c)

-- A preconditioned window is tried where there is a window and a precondition.
unfoldable pub condition :
    Kit → String → String → CheckStepOptions → Side → Option Narrowed → Run (Option Conditioned)
unfolding try_conditioned_window
condition kit before after o side none = give none
condition kit before after o side (some n) =
    if wants_conditions o
    then (do
      tried ←
          try_conditioned_window kit before after n (or_nil o.preconditions) (or_nil o.predicates)
            side
      give (some tried))
    else give none

-- The plain window, where the preconditioned one did not settle it.
unfoldable pub ask_window : Kit → Side → Option Narrowed → Option Local → Run (Option Local)
unfolding alive2 orient
ask_window kit side at (some settled) = give (some settled)
ask_window kit side none none = give none
ask_window kit side (some n) none = do
  c ← alive2 kit (orient side n.before n.after) kit.timeouts.eager_check_ms none
  give (some (record { check = c; preconditions = []; predicates = [] }))

-- The step that its window certifies, which keeps the window's three programs.
unfoldable pub on_window :
    Kit
    → Goal
    → GoalId
    → Side
    → Hash
    → Option Narrowed
    → Local
    → Option Fallback
    → Bool
    → Run CheckStepResult
unfolding keep landed
on_window kit goal gid side after none l fallback eager =
    landed kit goal side
      (record {
        hash = after;
        effects = checked_step gid side after By.alive2 none ∷ [];
        by = By.alive2;
        on = window;
        check = some l.check;
        fallback = fallback;
        eager = none;
      })
      eager
on_window kit goal gid side after (some n) l fallback eager = do
  outer ← keep kit n.outer
  from ← keep kit n.before
  to ← keep kit n.after
  let at : Window = record {
    callee = n.callee;
    outer = outer;
    from = from;
    to = to;
    preconditions = l.preconditions;
    predicates = l.predicates;
  }
  landed kit goal side
      (record {
        hash = after;
        effects = checked_step gid side after By.alive2 (some at) ∷ [];
        by = By.alive2;
        on = window;
        check = some l.check;
        fallback = fallback;
        eager = none;
      })
      eager

-- The whole function is asked, unless that is turned off.
unfoldable pub on_whole :
    Kit
    → Goal
    → GoalId
    → Side
    → Pair
    → Hash
    → String
    → CheckStepOptions
    → Option Local
    → Fallback
    → Run CheckStepResult
unfolding alive2 landed unsolved unasked concat
on_whole kit goal gid side pair after reason o local fallback =
    if o.whole
    then (do
      c ← alive2 kit pair kit.timeouts.check_default_ms none
      if is_correct c.outcome
          then landed kit goal side
              (record {
                hash = after;
                effects = checked_step gid side after By.alive2 none ∷ [];
                by = By.alive2;
                on = whole;
                check = some c;
                fallback = some fallback;
                eager = none;
              })
              o.eager
          else give
              (refused (unsolved c (concat "the step " reason)) (check_of local) (some fallback)))
    else give (refused (unasked_whole (check_of local)) (check_of local) (some fallback))

unfoldable pub by_answer :
    Kit
    → Goal
    → GoalId
    → Side
    → Pair
    → Hash
    → String
    → CheckStepOptions
    → Option Conditioned
    → Option Local
    → Option Local
    → Run CheckStepResult
unfolding on_window on_whole fallback_of fallback_on_window
by_answer kit goal gid side pair after reason o tried local (some l) =
    on_window kit goal gid side after (window_of o.narrowed) l (fallback_on_window tried) o.eager
by_answer kit goal gid side pair after reason o tried local none =
    on_whole kit goal gid side pair after reason o local (fallback_of o.narrowed tried local)

-- A step that llops certifies with no solver, or that alive2 is asked about.
unfoldable pub certify :
    Kit
    → Goal
    → GoalId
    → Side
    → String
    → String
    → Hash
    → CheckStepOptions
    → Free
    → Run CheckStepResult
unfolding landed condition settled_by ask_window by_answer orient
certify kit goal gid side before text after o (by checker) =
    landed kit goal side
      (record {
        hash = after;
        effects = checked_step gid side after checker none ∷ [];
        by = checker;
        on = whole;
        check = none;
        fallback = none;
        eager = none;
      })
      o.eager
certify kit goal gid side before text after o (Free.why reason) = do
  tried ← condition kit before text o side (window_of o.narrowed)
  local ← ask_window kit side (window_of o.narrowed) (settled_by tried)
  by_answer kit goal gid side (orient side before text) after reason o tried local
      (proved_locally local)

-- Replace one side of a goal with a new program, if a checker agrees.
unfoldable pub check_step :
    Kit → Tree → GoalId → Side → String → CheckStepOptions → Run CheckStepResult
unfolding workable head fetch keep certify without_solver orient unasked
check_step kit tree gid side text o = do
  goal ← raise (lift (workable tree gid))
  here ← raise (lift (head goal side))
  before ← fetch kit here
  after ← keep kit text
  after_text ← fetch kit after
  if after_text == before
      then give (refused (unasked "the edits leave the program as it was" error) none none)
      else certify kit goal gid side before after_text after o
          (without_solver kit (orient side before after_text))
