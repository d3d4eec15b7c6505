-- ===== src/Steps/Land.antt =====
-- engine/core/state/steps.ts: the steps that a rule's proof or an unfolded loop certifies.
use alive_next.Prelude.{
  String, Bool, true, false, not, Option, none, some, List, [], ◌∷◌, if◌then◌else◌, head?, ◌==◌,
}
use alive_next.Prelude.Dict
use alive_next.Trajectory.{Hash, Side, src, tgt, Effect, step, rewrite, unfolds, LlrwtInvocation}
use alive_next.Goals.Types.{GoalId, Goal, Tree, Role, outer, callee, on}
use alive_next.Goals.Queries.{workable, head, child}
use alive_next.Failure.{other, Attempt, thrown, done, lift}
use alive_next.Drivers.{LlopsResult, answer, refusal, ModuleResult, ApplyResult, CheckResult}
use alive_next.Store
use alive_next.Splits.{concat}
use alive_next.Steps.{Kit, Run, give, raise, ◌>>=◌, fetch, keep}
use alive_next.Steps.Discharge.{eager_check}

-- What rewriting one side would make: the program, and whether a rule fired.
pub data RewritePreview : Type 0 where
  preview : String → Bool → LlrwtInvocation → RewritePreview
  refused : String → String → RewritePreview

unfoldable pub hash_in : Kit → String → Run Hash
unfolding Store.hash_of
hash_in kit text w = (w, Store.hash_of kit.tools text)

unfoldable pub previewed : Kit → Hash → LlopsResult ApplyResult → Run RewritePreview
unfolding hash_in
previewed kit from (refusal code message) = give (refused code message)
previewed kit from (answer r) = do
  hash ← hash_in kit r.module_text
  give (preview r.module_text (not (hash == from)) r.invocation)

-- What the verified rewriter makes of one side of a goal, landing nothing.
unfoldable pub rewrite_preview : Kit → Tree → GoalId → Side → List String → Run RewritePreview
unfolding workable head fetch previewed
rewrite_preview kit tree gid side [] = give (refused "no_rules" "no rules were named")
rewrite_preview kit tree gid side (rule ∷ rules) = do
  goal ← raise (lift (workable tree gid))
  from ← raise (lift (head goal side))
  text ← fetch kit from
  previewed kit from (kit.rewrite text (rule ∷ rules) kit.timeouts.llrwt_ms)

pub data RewriteStepResult : Type 0 where
  certified : Hash → List Effect → LlrwtInvocation → Option CheckResult → RewriteStepResult
  unchanged : Hash → LlrwtInvocation → RewriteStepResult
  refused : String → String → RewriteStepResult

abbrev pub rewrite_step : GoalId → Side → Hash → List String → LlrwtInvocation → Effect
rewrite_step gid side after rules invocation = step (record {
  gid = gid;
  side = side;
  to = after;
  how = rewrite;
  by = none;
  rules = some rules;
  invocation = some invocation;
  window = none;
})

unfoldable pub land_rewrite :
    Kit → Tree → GoalId → Side → List String → Bool → RewritePreview → Run RewriteStepResult
unfolding workable head keep eager_check
land_rewrite kit tree gid side rules eager (RewritePreview.refused code message) =
    give (RewriteStepResult.refused code message)
land_rewrite kit tree gid side rules eager (preview program false invocation) = do
  goal ← raise (lift (workable tree gid))
  here ← raise (lift (head goal side))
  give (unchanged here invocation)
land_rewrite kit tree gid side rules eager (preview program true invocation) = do
  goal ← raise (lift (workable tree gid))
  after ← keep kit program
  let effects = rewrite_step gid side after rules invocation ∷ []
  if eager
      then (do
        (all_effects, check) ← eager_check kit goal gid side after effects
        give (certified after all_effects invocation check))
      else give (certified after effects invocation none)

-- Replace one side of a goal with what the verified rewriter makes of it.
unfoldable pub rewrite_side :
    Kit → Tree → GoalId → Side → List String → Bool → Run RewriteStepResult
unfolding rewrite_preview land_rewrite
rewrite_side kit tree gid tgt rules eager = give (
    RewriteStepResult.refused "side_unsupported"
      "only the src can be rewritten, since the rules only optimize")
rewrite_side kit tree gid src rules eager = do
  made ← rewrite_preview kit tree gid src rules
  land_rewrite kit tree gid src rules eager made

pub data UnfoldStepResult : Type 0 where
  certified : Hash → List Effect → Option CheckResult → UnfoldStepResult
  refused : String → String → UnfoldStepResult

abbrev pub unfold_step : GoalId → Side → Hash → Effect
unfold_step gid side after = step (record {
  gid = gid;
  side = side;
  to = after;
  how = unfolds;
  by = none;
  rules = none;
  invocation = none;
  window = none;
})

abbrev first_program : Option Hash → Attempt Hash
first_program none = thrown (other "no program")
first_program (some h) = done h

-- The loop as the cut made it, which the outer takes; the callee takes its own hypothesis.
unfoldable pub loop_of : Kit → Tree → Goal → Goal → Side → Option Role → Run (Option String)
unfolding child fetch
loop_of kit tree goal parent side (some outer) = do
  half ← raise (lift (child tree parent callee))
  first ← raise (first_program (head? (on half side).history))
  text ← fetch kit first
  give (some text)
loop_of kit tree goal parent side _ = give none

unfoldable pub land_unfolded :
    Kit → Goal → GoalId → Side → LlopsResult ModuleResult → Run UnfoldStepResult
unfolding keep eager_check
land_unfolded kit goal gid side (refusal code message) =
    give (UnfoldStepResult.refused code message)
land_unfolded kit goal gid side (answer r) = do
  after ← keep kit r.module_text
  (effects, check) ← eager_check kit goal gid side after (unfold_step gid side after ∷ [])
  give (UnfoldStepResult.certified after effects check)

unfoldable pub unfold_half :
    Kit → Tree → Goal → GoalId → Side → Option String → Option Goal → Run UnfoldStepResult
unfolding loop_of head fetch land_unfolded concat
unfold_half kit tree goal gid side (some hypothesis) (some parent) = do
  half ← loop_of kit tree goal parent side goal.role
  here ← raise (lift (head goal side))
  text ← fetch kit here
  land_unfolded kit goal gid side (kit.unfold_loop text hypothesis half)
unfold_half kit tree goal gid side _ _ = give (
    UnfoldStepResult.refused "invalid"
      (concat gid " is not a half of a loop cut at its header, so it has no loop to unfold"))

abbrev hypothesis_of : Goal → Option String
hypothesis_of goal = elim goal.made.detach [ none ↦ none | some d ↦ d.hypothesis ]

abbrev parent_of : Tree → Goal → Option Goal
parent_of tree goal = elim goal.parent [ none ↦ none | some id ↦ Dict.get tree.goals id ]

-- Put a detached loop's body on one side.
unfoldable pub unfold_side : Kit → Tree → GoalId → Side → Run UnfoldStepResult
unfolding workable unfold_half
unfold_side kit tree gid side = do
  goal ← raise (lift (workable tree gid))
  unfold_half kit tree goal gid side (hypothesis_of goal) (parent_of tree goal)
