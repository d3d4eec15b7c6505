-- ===== src/Steps/Calls.antt =====
-- engine/core/state/steps.ts: a session's calls, in any order. What it keeps of alive2's answers was
-- answered.
use alive_next.Prelude.{ℕ, String, Bool, Option, none, some, List, [], ◌∷◌}
use alive_next.Prelude.Dict
use alive_next.Prelude.Dict.{Dict, get-set_cases, get-set_self, get-set_ne, get-empty, str_cases}
use alive_next.Trajectory.{Side}
use alive_next.Goals.Types.{GoalId, Tree}
use alive_next.Drivers.{CheckResult}
use alive_next.Store.{Disk}
use alive_next.Steps.{Kit, World}
use alive_next.Steps.Ask.{refinement_check}
use alive_next.Steps.Discharge.{check_goal}
use alive_next.Steps.Land.{rewrite_side, unfold_side}
use alive_next.Steps.Certify.{CheckStepOptions, check_step}
use alive_next.Steps.Stable.{IsStable, Keeps, alive2-Keeps}
use alive_next.Steps.Answers.{IsRemembered, IsRemembered-IsStable}
use alive_next.Steps.Keeping.{check_goal-Keeps, rewrite_side-Keeps, unfold_side-Keeps}
use alive_next.Steps.Certifying.{check_step-Keeps}

-- One call of the class.
pub data Call : Type 0 where
  checks_goal : Tree → GoalId → Option ℕ → Option ℕ → Call
  checks_step : Tree → GoalId → Side → String → CheckStepOptions → Call
  rewrites : Tree → GoalId → Side → List String → Bool → Call
  unfolds_loop : Tree → GoalId → Side → Call
  checks_refinement : String → String → Option ℕ → Option ℕ → Call

-- What a call leaves of the world, however it ends.
unfoldable pub run_call : Kit → Call → World → World
run_call kit (checks_goal t k ms u) w = (check_goal kit t k ms u w).0
run_call kit (checks_step t k s text o) w = (check_step kit t k s text o w).0
run_call kit (rewrites t k s rules eager) w = (rewrite_side kit t k s rules eager w).0
run_call kit (unfolds_loop t k s) w = (unfold_side kit t k s w).0
run_call kit (checks_refinement before after ms u) w = (refinement_check kit before after ms u w).0

unfoldable pub run_calls : Kit → List Call → World → World
unfolding run_call
run_calls kit [] w = w
run_calls kit (c ∷ cs) w = run_calls kit cs (run_call kit c w)

-- The world of a new session: a store, and nothing asked.
unfoldable pub fresh_world : Disk → World
fresh_world disk = record { disk = disk; history = Dict.empty; looping = Dict.empty; asked = 0 }

refinement_check-Keeps :
    (kit : Kit) (P : World → Type 0) (st : IsStable kit P) (before after : String) (ms u : Option ℕ)
    → Keeps P (refinement_check kit before after ms u)
unfolding refinement_check
refinement_check-Keeps kit P st before after none u = alive2-Keeps kit P st _ _ u
refinement_check-Keeps kit P st before after (some ms) u = alive2-Keeps kit P st _ _ u

module _ (kit : Kit) (P : World → Type 0) (st : IsStable kit P) where
  run_call-stays : (c : Call) (w : World) → P w → P (run_call kit c w)
  unfolding run_call
  run_call-stays (checks_goal t k ms u) w = (check_goal-Keeps kit P st t k ms u).run w
  run_call-stays (checks_step t k s text o) w = (check_step-Keeps kit P st t k s text o).run w
  run_call-stays (rewrites t k s rules eager) w =
      (rewrite_side-Keeps kit P st t k s rules eager).run w
  run_call-stays (unfolds_loop t k s) w = (unfold_side-Keeps kit P st t k s).run w
  run_call-stays (checks_refinement before after ms u) w =
      (refinement_check-Keeps kit P st before after ms u).run w

  -- What every question leaves, every call leaves.
  pub run_calls-stays : (cs : List Call) (w : World) → P w → P (run_calls kit cs w)
  unfolding run_calls
  run_calls-stays [] w i = i
  run_calls-stays (c ∷ cs) w i = run_calls-stays cs (run_call kit c w) (run_call-stays c w i)

pub fresh-IsRemembered : (kit : Kit) (disk : Disk) → IsRemembered kit (fresh_world disk)
unfolding fresh_world
fresh-IsRemembered kit disk = record {
  asked = λ key c held. cc (get-empty {V = CheckResult} key, held);
  looped = λ key b held. cc (get-empty {V = Bool} key, held);
}

-- After any calls of a new session, each answer that is kept is one that alive-tv gave to the question
-- that it is kept by, and what is kept of a program's loops is what llops says of it.
pub calls-IsRemembered :
    (kit : Kit) (disk : Disk) (cs : List Call)
    → IsRemembered kit (run_calls kit cs (fresh_world disk))
calls-IsRemembered kit disk cs =
    run_calls-stays kit (IsRemembered kit) (IsRemembered-IsStable kit) cs (fresh_world disk)
      (fresh-IsRemembered kit disk)
