-- ===== src/Steps/Ask.antt =====
-- engine/core/state/steps.ts: one question to alive2 or to llops, and what is kept of the answers.
use alive_next.Prelude.{
  ℕ, suc, leb, String, Bool, true, false, ◌&&◌, Option, none, some, if◌then◌else◌, ◌==◌,
}
use alive_next.Prelude.Dict
use alive_next.Trajectory.{By, reshaped, respected}
use alive_next.Failure.{Attempt, thrown, done}
use alive_next.Drivers.{
  LlopsResult, answer, refusal, ValidateResult, ReshapedResult, RespectedResult, CheckResult,
  CheckOutcome, correct, incorrect, error,
}
use alive_next.Splits.{concat}
use alive_next.Steps.{
  Kit, World, Run, give, ◌>>=◌, Pair, question, flags_for, unasked, loops_detail,
}

abbrev pub is_cyclic : LlopsResult ValidateResult → Bool
is_cyclic (answer r) = r.cyclic
is_cyclic (refusal code message) = false

-- Whether a program loops, as `llops validate` says.
unfoldable pub loops : Kit → String → Run Bool
loops kit text w = elim (Dict.get w.looping (kit.tools.sha256 text)) [
  | some known ↦ (w, done known)
  | none ↦
      let found = is_cyclic (kit.validate text) in
      (record w { looping = Dict.set w.looping (kit.tools.sha256 text) found }, done found)
]

abbrev pub unless : Bool → Run Bool → Run Bool
unless true next = give true
unless false next = next

-- Whether either program of a pair loops.
unfoldable pub either_loops : Kit → Pair → Run Bool
unfolding loops
either_loops kit pair = do first ← loops kit pair.before; unless first (loops kit pair.after)

abbrev pub is_correct : CheckOutcome → Bool
is_correct correct = true
is_correct _ = false

abbrev pub is_decided : CheckOutcome → Bool
is_decided correct = true
is_decided incorrect = true
is_decided _ = false

-- An answer that decides its question, if one is kept.
unfoldable pub recalled : Option CheckResult → Option CheckResult
recalled none = none
recalled (some check) = if is_decided check.outcome then some check else none

-- A check by alive-tv, kept as the answer to its question.
unfoldable pub checked : World → String → Attempt CheckResult → World × Attempt CheckResult
checked w key (thrown f) = (record w { asked = suc w.asked }, thrown f)
checked w key (done check) =
    (record w { history = Dict.set w.history key check; asked = suc w.asked }, done check)

unfoldable pub ask : Kit → Pair → ℕ → Option ℕ → Run CheckResult
unfolding question recalled checked
ask kit pair timeout_ms unroll w = elim (recalled (Dict.get w.history (question kit pair unroll))) [
  | some known ↦ (w, done known)
  | none ↦
      checked w (question kit pair unroll)
        (kit.check w.asked pair.before pair.after timeout_ms (flags_for unroll))
]

abbrev is_none : Option ℕ → Bool
is_none none = true
is_none (some n) = false

unfoldable pub ask_unless_loops : Kit → Pair → ℕ → Option ℕ → Bool → Run CheckResult
unfolding ask unasked
ask_unless_loops kit pair timeout_ms unroll cyclic =
    if cyclic && is_none unroll
    then give (unasked loops_detail error)
    else ask kit pair timeout_ms unroll

-- One question to alive2, in the direction the side settled.
unfoldable pub alive2 : Kit → Pair → ℕ → Option ℕ → Run CheckResult
unfolding either_loops ask_unless_loops unasked
alive2 kit pair timeout_ms unroll =
    if pair.before == pair.after
    then give (unasked "the two sides are the same program" correct)
    else (do cyclic ← either_loops kit pair; ask_unless_loops kit pair timeout_ms unroll cyclic)

unfoldable pub capped : Kit → ℕ → ℕ
capped kit timeout_ms =
    if leb timeout_ms kit.timeouts.check_cap_ms then timeout_ms else kit.timeouts.check_cap_ms

-- Whether the one program refines the other under the no-undef model.
unfoldable pub refinement_check : Kit → String → String → Option ℕ → Option ℕ → Run CheckResult
unfolding capped alive2
refinement_check kit before after none unroll =
    alive2 kit (record { before = before; after = after })
      (capped kit kit.timeouts.check_default_ms) unroll
refinement_check kit before after (some timeout_ms) unroll =
    alive2 kit (record { before = before; after = after }) (capped kit timeout_ms) unroll

-- Which llops check proves with no solver that the one program refines the other, or why neither.
pub data Free : Type 0 where
  by : By → Free
  why : String → Free

abbrev pub is_reshaped : LlopsResult ReshapedResult → Bool
is_reshaped (answer r) = r.reshaped
is_reshaped (refusal code message) = false

abbrev pub is_respected : LlopsResult RespectedResult → Bool
is_respected (answer r) = r.respected
is_respected (refusal code message) = false

abbrev or_undefined : Option String → String
or_undefined none = "undefined"
or_undefined (some text) = text

abbrev reshaped_said : LlopsResult ReshapedResult → String
reshaped_said (answer r) = or_undefined r.why
reshaped_said (refusal code message) = message

abbrev respected_said : LlopsResult RespectedResult → String
respected_said (answer r) = or_undefined r.why
respected_said (refusal code message) = message

unfoldable pub neither : String → String → String
unfolding concat
neither first second =
    concat "does more than reshape control flow (" (
      concat first
        (concat ") and more than change attributes the body keeps (" (concat second ")")))

unfoldable pub free_of : LlopsResult ReshapedResult → LlopsResult RespectedResult → Free
unfolding neither
free_of first second =
    if is_reshaped first
    then by reshaped
    else if is_respected second
    then by respected
    else why (neither (reshaped_said first) (respected_said second))

unfoldable pub without_solver : Kit → Pair → Free
unfolding free_of
without_solver kit pair =
    free_of (kit.reshaped pair.before pair.after) (kit.respected pair.before pair.after)
