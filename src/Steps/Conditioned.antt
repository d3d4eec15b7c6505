-- ===== src/Steps/Conditioned.antt =====
-- engine/core/state/steps.ts: a window checked under preconditions.
use alive_next.Prelude.{
  ℕ, String, Option, none, some, List, [], ◌∷◌, ◌++◌, map, if◌then◌else◌, nat_eq, length, ◌==◌,
}
use alive_next.Trajectory.{Side, src, tgt, Attrs, Predicate}
use alive_next.Drivers.{
  LlopsResult, answer, refusal, ModuleResult, OutlineParam, start, before_calls, Assertion, fact,
  predicate, CheckResult,
}
use alive_next.Splits.{concat}
use alive_next.Steps.{Kit, orient, Run, give, ◌>>=◌, loops_detail}
use alive_next.Steps.Ask.{is_correct, alive2}
use alive_next.Steps.Params.{param_named, param_name, map_facts, all_over}

pub record At : Type 0 where
  pub from : String
  pub to : String

-- engine/core/state/narrow.ts: the window an edit touched, on both sides.
pub record Narrowed : Type 0 where
  pub outer : String
  pub before : String
  pub after : String
  pub callee : String
  pub at_before : At
  pub at_after : At
  pub params : List OutlineParam

-- A window check under preconditions, or why it never ran.
pub data Conditioned : Type 0 where
  checked : CheckResult → List (ℕ × Attrs) → List Predicate → Conditioned
  refused : String → Conditioned

-- What is assumed: each fact of its parameter, and the predicates.
unfoldable pub assertions : List (ℕ × Attrs) → List Predicate → List Assertion
unfolding param_name
assertions facts predicates =
    map (λ (f : ℕ × Attrs). fact f.1 (param_name f.0)) facts ++ map predicate predicates

unfoldable pub why_not_shown : CheckResult → Conditioned
why_not_shown check =
    if check.detail == loops_detail
    then refused
        "the preconditions cannot be shown to hold before the window in a function that loops; cut it at its loop header first"
    else refused "the preconditions are not shown to hold before the window"

pub data Halves : Type 0 where
  halves : String → String → Halves
  cannot : String → Halves

abbrev both_made : String → LlopsResult ModuleResult → LlopsResult ModuleResult → Halves
both_made reason (answer from) (answer to) = halves from.module_text to.module_text
both_made reason _ _ = cannot reason

-- The attributes go on both halves of the window, fact by fact.
unfoldable pub with_attrs : Kit → String → List (ℕ × Attrs) → Halves → Halves
with_attrs kit callee facts (cannot reason) = cannot reason
with_attrs kit callee [] (halves from to) = halves from to
with_attrs kit callee ((k, attrs) ∷ facts) (halves from to) = with_attrs kit callee facts (
    both_made "a precondition cannot be put on the window's parameter"
      (kit.attrs from callee attrs k) (kit.attrs to callee attrs k))

unfoldable pub with_predicates : Kit → String → List Predicate → Halves → Halves
with_predicates kit callee predicates (cannot reason) = cannot reason
with_predicates kit callee [] (halves from to) = halves from to
with_predicates kit callee (p ∷ ps) (halves from to) =
    both_made "a precondition cannot be assumed in the window"
      (kit.assume from (start callee) (map predicate (p ∷ ps)))
      (kit.assume to (start callee) (map predicate (p ∷ ps)))

-- Phase 2: the window's halves with what is assumed of their parameters.
unfoldable pub check_halves :
    Kit → Side → List (ℕ × Attrs) → List Predicate → Halves → Run Conditioned
unfolding alive2 orient
check_halves kit side facts predicates (cannot reason) = give (refused reason)
check_halves kit side facts predicates (halves from to) = do
  check ← alive2 kit (orient side from to) kit.timeouts.eager_check_ms none
  give (checked check facts predicates)

-- The program that is at least as defined: what a step on the src replaces, or makes on the tgt.
abbrev pub of_side : Side → String → String → String
of_side src old new = old
of_side tgt old new = new

-- Phase 1: wherever the whole being replaced is defined, the facts hold at the call site.
unfoldable pub check_inlined :
    Kit
    → Side
    → String
    → Narrowed
    → List (ℕ × Attrs)
    → List Predicate
    → LlopsResult ModuleResult
    → Run Conditioned
unfolding alive2 why_not_shown check_halves with_attrs with_predicates concat
check_inlined kit side whole n facts predicates (refusal code message) =
    give (refused (concat "the window cannot be put back: " message))
check_inlined kit side whole n facts predicates (answer r) = do
  check ←
      alive2 kit (record { before = whole; after = r.module_text }) kit.timeouts.check_default_ms
        none
  if is_correct check.outcome
      then check_halves kit side facts predicates (
          with_predicates kit n.callee predicates
            (with_attrs kit n.callee facts (halves n.before n.after)))
      else give (why_not_shown check)

unfoldable pub check_assumed :
    Kit
    → Side
    → String
    → Narrowed
    → List (ℕ × Attrs)
    → List Predicate
    → LlopsResult ModuleResult
    → Run Conditioned
unfolding check_inlined concat
check_assumed kit side whole n facts predicates (refusal code message) =
    give (refused (concat "a precondition cannot be assumed before the window: " message))
check_assumed kit side whole n facts predicates (answer r) =
    check_inlined kit side whole n facts predicates
      (kit.inline_in r.module_text (of_side side n.before n.after) n.callee)

unfoldable pub check_mapped :
    Kit
    → Side
    → String
    → Narrowed
    → ℕ
    → List (ℕ × Attrs)
    → Option (List Predicate)
    → Run Conditioned
unfolding check_assumed assertions
check_mapped kit side whole n asked facts none =
    give (refused "some preconditions do not name a value of the window")
check_mapped kit side whole n asked facts (some predicates) =
    if nat_eq (length facts) asked
    then check_assumed kit side whole n facts predicates
        (kit.assume n.outer (before_calls n.callee) (assertions facts predicates))
    else give (refused "some preconditions do not name a value of the window")

unfoldable pub try_conditioned_window :
    Kit
    → String
    → String
    → Narrowed
    → List (String × Attrs)
    → List Predicate
    → Side
    → Run Conditioned
unfolding check_mapped param_named map_facts all_over
try_conditioned_window kit before after n preconditions predicates side =
    let param_of = param_named (kit.number before) (kit.number n.outer) n.params in
    check_mapped kit side (of_side side before after) n (length preconditions)
      (map_facts param_of [] preconditions) (all_over param_of predicates)
