-- ===== src/Session/Methods.antt =====
-- engine/core/session.ts: the methods that an agent calls, each one move that is run and logged. The
-- moves that cut, strengthen, commit and report are not among them.
use alive_next.Prelude.{
  ℕ, String, Bool, true, false, Option, none, some, List, [], if◌then◌else◌, any, ◌==◌,
}
use alive_next.Trajectory.{Hash, Side, src, tgt, Effect, CaseOn, StepRef, Entry, Event, tool_result}
use alive_next.Trajectory.Effect.{strengthen}
use alive_next.Goals.Types.{GoalId, Tree}
use alive_next.Failure.{Attempt, thrown, done}
use alive_next.Drivers.{EditOp, OptOp}
use alive_next.Store
use alive_next.Splits
use alive_next.Splits.{Llops, MoveResult, moved, WhyRefused, concat}
use alive_next.Steps.Discharge.{CheckGoalResult, check_goal}
use alive_next.Steps.Land.{
  RewritePreview, rewrite_preview, RewriteStepResult, rewrite_side, UnfoldStepResult, unfold_side,
}
use alive_next.Transactions
use alive_next.Transactions.{Transaction, EditResult, Editor, is_editing}
use alive_next.Session.{Host, Bench, Move, Act, act, on_world}
use alive_next.Session.Moves.{
  open_message, goal_of, or_nil, unless_editing, RevertResult, revert_effects, move_revert,
  UndoResult, undo_effects, move_uncut, move_uncase, move_uninterpose,
}

abbrev pub no_effects : {A : Type 0} → A → List Effect
no_effects a = []

-- What an interpose or a case answers.
pub data SplitResult : Type 0 where
  split : MoveResult → SplitResult
  editing : Transaction → SplitResult
  no_program : SplitResult

abbrev pub split_effects : SplitResult → List Effect
split_effects (split (moved l r es)) = es
split_effects _ = []

abbrev rewrite_effects : RewriteStepResult → List Effect
rewrite_effects (RewriteStepResult.certified h es invocation check) = es
rewrite_effects _ = []

abbrev unfold_effects : UnfoldStepResult → List Effect
unfold_effects (UnfoldStepResult.certified h es check) = es
unfold_effects _ = []

-- What is left where a move throws is what was there.
unfoldable pub keeping : {A B : Type 0} → (A → Bench × B) → Bench → Attempt A → Bench × Attempt B
keeping next bench (thrown f) = (bench, thrown f)
keeping next bench (done a) = let (bench', b) = next a in (bench', done b)

abbrev on_disk : Bench → Store.Disk → Bench
on_disk bench disk = record bench { world = record bench.world { disk = disk } }

-- Whether a strengthen's proof stands on a program that the goal has been.
abbrev stands_on : GoalId → List Hash → Effect → Bool
stands_on gid chain (strengthen e) = elim e.by [
  | none ↦ false
  | some links ↦
      any (λ (link : StepRef). if link.gid == gid then any (λ h. h == link.hash) chain else false)
        links
]
stands_on gid chain _ = false

abbrev of_result : Event → List Effect
of_result (tool_result id tool es result ms) = or_nil es
of_result _ = []

unfoldable pub holds_proof : List Entry → GoalId → List Hash → Bool
holds_proof entries gid chain =
    any (λ (e : Entry). any (stands_on gid chain) (of_result e.event)) entries

module _ (host : Host) where
  open host use {kit, json}

  unfoldable pub revert : GoalId → Side → String → Act RevertResult
  unfolding act move_revert
  revert gid side to s =
      act host "revert" (json {A = GoalId × Side × String} (gid, side, to))
        (move_revert host s.entries gid side to) revert_effects json s

  unfoldable pub check : GoalId → Option ℕ → Option ℕ → Act CheckGoalResult
  unfolding act on_world check_goal
  check gid timeout_ms unroll =
      act host "check" (json {A = GoalId × Option ℕ × Option ℕ} (gid, timeout_ms, unroll))
        (λ tree. on_world (check_goal kit tree gid timeout_ms unroll)) (λ r. r.effects) json

  -- A refusal that is the rewriter's kind of answer.
  abbrev rewrite_refused : Transaction → RewriteStepResult
  rewrite_refused x = RewriteStepResult.refused "editing" (open_message x)

  unfoldable pub rewrite_move : GoalId → Side → List String → Tree → Move RewriteStepResult
  unfolding unless_editing on_world rewrite_side
  rewrite_move gid tgt rules tree bench = (
    bench,
    done (
        RewriteStepResult.refused "side_unsupported"
          "only the src can be rewritten, since the rules only optimize"),
  )
  rewrite_move gid src rules tree bench =
      unless_editing gid (some src) rewrite_refused
        (on_world (rewrite_side kit tree gid src rules true)) bench

  unfoldable pub rewrite : GoalId → Side → List String → Act RewriteStepResult
  unfolding act rewrite_move
  rewrite gid side rules =
      act host "rewrite" (json {A = GoalId × Side × List String} (gid, side, rules))
        (rewrite_move gid side rules) rewrite_effects json

  unfoldable pub preview_rewrite : GoalId → Side → List String → Act RewritePreview
  unfolding act on_world rewrite_preview
  preview_rewrite gid side rules =
      act host "rewrite_preview" (json {A = GoalId × Side × List String} (gid, side, rules))
        (λ tree. on_world (rewrite_preview kit tree gid side rules)) no_effects json

  abbrev unfold_refused : Transaction → UnfoldStepResult
  unfold_refused x = UnfoldStepResult.refused "editing" (open_message x)

  -- Unfolding comes before strengthening.
  unfoldable pub unfold_move : List Entry → GoalId → Side → Tree → Move UnfoldStepResult
  unfolding goal_of holds_proof unless_editing on_world unfold_side
  unfold_move entries gid side tree bench = elim (goal_of tree gid) [
    | thrown f ↦ (bench, thrown f)
    | done goal ↦
        if holds_proof entries gid goal.src.history
        then (
          bench,
          done (
              UnfoldStepResult.refused "strengthened" (
                concat gid
                  " holds the proof of facts a strengthen added; unfold before strengthening")),
        )
        else unless_editing gid (some side) unfold_refused
            (on_world (unfold_side kit tree gid side)) bench
  ]

  unfoldable pub unfold_loop : GoalId → Side → Act UnfoldStepResult
  unfolding act unfold_move
  unfold_loop gid side s =
      act host "unfold" (json {A = GoalId × Side} (gid, side)) (unfold_move s.entries gid side)
        unfold_effects json s

  unfoldable pub begin : GoalId → Side → Act Transaction
  unfolding act keeping Transactions.begin
  begin gid side =
      act host "tx_begin" (json {A = GoalId × Side} (gid, side))
        (λ tree b.
          keeping (λ x. (record b { editing = some x }, x)) b
            (Transactions.begin kit.tools b.world.disk b.editing tree gid side))
        no_effects json

  unfoldable pub edit : Editor → EditOp → Act EditResult
  unfolding act keeping Transactions.edit
  edit editor op =
      act host "tx_edit" (json op)
        (λ tree b.
          keeping (λ (r : Transaction × EditResult). (record b { editing = some r.0 }, r.1)) b
            (Transactions.edit editor b.editing op))
        no_effects json

  unfoldable pub opt : Editor → OptOp → Act EditResult
  unfolding act keeping Transactions.opt
  opt editor op =
      act host "tx_opt" (json op)
        (λ tree b.
          keeping (λ (r : Transaction × EditResult). (record b { editing = some r.0 }, r.1)) b
            (Transactions.opt editor b.editing op))
        no_effects json

  unfoldable pub abort : Act Transaction
  unfolding act keeping Transactions.abort
  abort =
      act host "tx_abort" "{}"
        (λ tree b.
          keeping (λ (r : Option Transaction × Transaction). (record b { editing = r.0 }, r.1)) b
            (Transactions.abort b.editing))
        no_effects json

  -- What is put between a goal's sides, by default the open transaction's program, which ends it.
  abbrev given_or : Option String → Option Transaction → Option String
  given_or (some program) edited = some program
  given_or none none = none
  given_or none (some x) = some x.text

  abbrev ends : Option String → MoveResult → Option Transaction → Option Transaction
  ends none (moved l r es) current = none
  ends _ _ current = current

  abbrev pub edited_at : Bench → GoalId → Option Transaction
  edited_at b gid = if is_editing b.editing gid none then b.editing else none

  unfoldable pub interpose_between :
      Llops → GoalId → Option String → Tree → Option String → Move SplitResult
  unfolding Splits.interpose keeping
  interpose_between llops gid program tree none b = (b, done no_program)
  interpose_between llops gid program tree (some between) b =
      keeping
        (λ (r : Store.Disk × MoveResult).
          (record (on_disk b r.0) { editing = ends program r.1 b.editing }, split r.1))
        b (Splits.interpose kit.tools llops b.world.disk tree gid between)

  unfoldable pub interpose_move : Llops → GoalId → Option String → Tree → Move SplitResult
  unfolding is_editing interpose_between
  interpose_move llops gid program tree b = elim (edited_at b gid) [
    | none ↦ interpose_between llops gid program tree (given_or program none) b
    | some x ↦ elim program [
      | none ↦ interpose_between llops gid none tree (some x.text) b
      | some text ↦ (b, done (editing x))
    ]
  ]

  unfoldable pub interpose : Llops → GoalId → Option String → Act SplitResult
  unfolding act interpose_move
  interpose llops gid program =
      act host "interpose" (json gid) (interpose_move llops gid program) split_effects json

  unfoldable pub case_move : Llops → GoalId → CaseOn → Tree → Move SplitResult
  unfolding unless_editing keeping Splits.cases
  case_move llops gid on_what tree = unless_editing gid none editing λ b.
      keeping (λ (r : Store.Disk × MoveResult). (on_disk b r.0, split r.1)) b
        (Splits.cases kit.tools llops b.world.disk tree gid on_what)

  unfoldable pub case : Llops → GoalId → CaseOn → Act SplitResult
  unfolding act case_move
  case llops gid on_what =
      act host "case" (json {A = GoalId × CaseOn} (gid, on_what)) (case_move llops gid on_what)
        split_effects json

  unfoldable pub uninterpose : GoalId → Act UndoResult
  unfolding act move_uninterpose
  uninterpose gid s =
      act host "uninterpose" (json gid) (move_uninterpose s.entries gid) undo_effects json s

  unfoldable pub uncase : GoalId → Act UndoResult
  unfolding act move_uncase
  uncase gid = act host "uncase" (json gid) (move_uncase gid) undo_effects json

  unfoldable pub uncut : GoalId → Act UndoResult
  unfolding act move_uncut
  uncut gid = act host "uncut" (json gid) (move_uncut gid) undo_effects json

  -- The caller has nothing left to try.
  unfoldable pub give_up : String → Act String
  unfolding act
  give_up reason = act host "give_up" (json reason) (λ tree b. (b, done reason)) no_effects json
