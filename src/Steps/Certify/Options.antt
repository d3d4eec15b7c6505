-- ===== src/Steps/Certify/Options.antt =====
-- engine/core/state/steps.ts, `checkStep`: how a step is asked for, what it answers, and the parts of it
-- that ask nobody.
use alive_next.Prelude.{
  ℕ, String, Bool, true, false, ◌||◌, Option, none, some, List, [], if◌then◌else◌,
}
use alive_next.Trajectory.{Hash, Side, By, Attrs, Predicate, Window, Effect, step, check}
use alive_next.Goals.Types.{GoalId}
use alive_next.Transactions.{Narrowing, narrowed, why}
use alive_next.Drivers.{CheckResult, CheckOutcome, correct, incorrect, error}
use alive_next.Steps.{unasked}
use alive_next.Steps.Ask.{is_correct}
use alive_next.Steps.Conditioned.{At, Narrowed, Conditioned, checked}

-- How a checked step is made, and whether it should look at where it lands.
pub record CheckStepOptions : Type 0 where
  pub narrowed : Option (Narrowing Narrowed)
  pub preconditions : Option (List (String × Attrs))
  pub predicates : Option (List Predicate)
  pub whole : Bool
  pub eager : Bool

pub data FallbackReason : Type 0 where
  no_window window_unproved preconditions_refused : FallbackReason

-- Why the step was not certified by a preconditioned window.
pub record Fallback : Type 0 where
  pub reason : FallbackReason
  pub narrowed : Option CheckResult
  pub window : Option (At × At)
  pub preconditions : Option (List (ℕ × Attrs))
  pub predicates : Option (List Predicate)
  pub conditioning : Option String
  pub narrowing : Option String

pub data On : Type 0 where
  window whole : On

pub record Certified : Type 0 where
  pub hash : Hash
  pub effects : List Effect
  pub by : By
  pub on : On
  pub check : Option CheckResult
  pub fallback : Option Fallback
  pub eager : Option CheckResult

-- A checked step that landed, or the reason it did not.
pub data CheckStepResult : Type 0 where
  certified : Certified → CheckStepResult
  refused : CheckResult → Option CheckResult → Option Fallback → CheckStepResult

abbrev pub checked_step : GoalId → Side → Hash → By → Option Window → Effect
checked_step gid side to checker at = step (record {
  gid = gid;
  side = side;
  to = to;
  how = check;
  by = some checker;
  rules = none;
  invocation = none;
  window = at;
})

abbrev pub window_of : Option (Narrowing Narrowed) → Option Narrowed
window_of (some (narrowed n)) = some n
window_of _ = none

abbrev pub no_window_because : Option (Narrowing Narrowed) → Option String
no_window_because (some (why reason)) = some reason
no_window_because _ = none

abbrev pub or_nil {ℓ} : {A : Type ℓ} → Option (List A) → List A
or_nil none = []
or_nil (some xs) = xs

abbrev pub is_given {ℓ} : {A : Type ℓ} → Option A → Bool
is_given none = false
is_given (some a) = true

abbrev pub wants_conditions : CheckStepOptions → Bool
wants_conditions o = is_given o.preconditions || is_given o.predicates

-- The window's answer, and what it was asked under where that proved it.
pub record Local : Type 0 where
  pub check : CheckResult
  pub preconditions : List (ℕ × Attrs)
  pub predicates : List Predicate

abbrev pub local_if : CheckOutcome → CheckResult → List (ℕ × Attrs) → List Predicate → Option Local
local_if correct c facts ps = some (record { check = c; preconditions = facts; predicates = ps })
local_if incorrect c facts ps = some (record { check = c; preconditions = []; predicates = [] })
local_if _ c facts ps = none

-- What a preconditioned check settles.
unfoldable pub settled_by : Option Conditioned → Option Local
settled_by (some (checked c facts ps)) = local_if c.outcome c facts ps
settled_by _ = none

abbrev pub check_of : Option Local → Option CheckResult
check_of none = none
check_of (some l) = some l.check

abbrev pub bounds : Option Narrowed → Option (At × At)
bounds none = none
bounds (some n) = some (n.at_before, n.at_after)

abbrev pub ran_check : Option Conditioned → CheckResult → CheckResult
ran_check (some (checked c facts ps)) answer = c
ran_check _ answer = answer

abbrev pub ran_facts : Option Conditioned → Option (List (ℕ × Attrs))
ran_facts (some (checked c facts ps)) = some facts
ran_facts _ = none

abbrev pub ran_predicates : Option Conditioned → Option (List Predicate)
ran_predicates (some (checked c facts ps)) = some ps
ran_predicates _ = none

abbrev pub refused_because : Option Conditioned → Option String
refused_because (some (Conditioned.refused reason)) = some reason
refused_because _ = none

-- Why the whole function is asked.
unfoldable pub fallback_of :
    Option (Narrowing Narrowed) → Option Conditioned → Option Local → Fallback
fallback_of found tried none = record {
  reason = no_window;
  narrowed = none;
  window = none;
  preconditions = none;
  predicates = none;
  conditioning = none;
  narrowing = no_window_because found;
}
fallback_of found tried (some l) = record {
  reason = window_unproved;
  narrowed = some (ran_check tried l.check);
  window = bounds (window_of found);
  preconditions = ran_facts tried;
  predicates = ran_predicates tried;
  conditioning = refused_because tried;
  narrowing = none;
}

-- Why the plain window certified, where preconditions were refused.
unfoldable pub fallback_on_window : Option Conditioned → Option Fallback
fallback_on_window (some (Conditioned.refused reason)) = some (record {
  reason = preconditions_refused;
  narrowed = none;
  window = none;
  preconditions = none;
  predicates = none;
  conditioning = some reason;
  narrowing = none;
})
fallback_on_window _ = none

abbrev pub proved_locally : Option Local → Option Local
proved_locally none = none
proved_locally (some l) = if is_correct l.check.outcome then some l else none

abbrev pub unasked_whole : Option CheckResult → CheckResult
unasked_whole (some c) = c
unasked_whole none = unasked "there is no window, and asking the whole function is turned off" error
