-- ===== src/Session/Editing.antt =====
-- engine/core/session.ts: which methods leave the open transaction as it is, and when one ends it.
use alive_next.Prelude.{
  ℕ, String, Option, none, some, List, true, false, ◌≡◌, refl, ◌∙◌, ap, Bool-cases, inl, inr,
}
use alive_next.Trajectory.{Side, src, tgt, Effect, Event, Entry, CaseOn}
use alive_next.Goals.Types.{GoalId, Goal, Tree, Result, ok, err}
use alive_next.Goals.Termination.{Result-cases}
use alive_next.Steps.{Run}
use alive_next.Steps.Land.{RewriteStepResult, rewrite_side, UnfoldStepResult, unfold_side}
use alive_next.Failure.{Attempt, thrown, done}
use alive_next.Splits.{Llops}
use alive_next.Transactions.{Transaction, is_editing, is_editing_below}
use alive_next.Session.{
  Host, Bench, Session, Move, Act, append, rederived, logged, attempted, concluded, act, then_act,
  ◌>>◌, give, throws, on_world,
}
use alive_next.Session.Moves.{
  open_message, move_revert, move_uncut, move_uncase, move_uninterpose, unless_editing,
  unless_below, goal_of,
}
use alive_next.Session.Methods.{SplitResult, split, keeping}
use alive_next.Session.Methods

module _ (host : Host) where
  rederived-bench : (r : Result Tree) (s : Session) → (rederived r s).0.bench ≡ s.bench
  unfolding rederived
  rederived-bench (ok t) s = refl
  rederived-bench (err f) s = refl

  append-bench : (e : Event) (s : Session) → (append host e s).0.bench ≡ s.bench
  unfolding append
  append-bench e s = rederived-bench _ _

  then_act-bench :
      {A B : Type 0} (r : Session × Attempt A) (next : A → Act B)
      → ((a : A) (s : Session) → (next a s).0.bench ≡ s.bench)
      → (then_act r next).0.bench ≡ r.0.bench
  then_act-bench (s, thrown f) next h = refl
  then_act-bench (s, done a) next h = h a s

  logged-bench :
      (tool args : String) (es : List Effect) (result : String) (s : Session)
      → (logged host tool args es result s).0.bench ≡ s.bench
  unfolding logged ◌>>◌
  logged-bench tool args es result s =
      then_act-bench (append host _ _) _ (λ u. append-bench _) ∙ append-bench _ _

  concluded-bench :
      {A : Type 0} (tool args : String) (effects_of : A → List Effect) (written : A → String)
      (r : Attempt A) (s : Session)
      → (concluded host tool args effects_of written r s).0.bench ≡ s.bench
  unfolding concluded ◌>>◌ give throws
  concluded-bench tool args effects_of written (thrown f) s =
      then_act-bench (logged host _ _ _ _ s) _ (λ u s'. refl) ∙ logged-bench _ _ _ _ s
  concluded-bench tool args effects_of written (done a) s =
      then_act-bench (logged host _ _ _ _ s) _ (λ u s'. refl) ∙ logged-bench _ _ _ _ s

  -- What logs a move keeps of the bench what the move left.
  act-bench :
      {A : Type 0} (tool args : String) (move : Tree → Move A) (effects_of : A → List Effect)
      (written : A → String) (s : Session)
      → (act host tool args move effects_of written s).0.bench
        ≡ (attempted host s.derived move s.bench).0
  unfolding act
  act-bench tool args move effects_of written s = concluded-bench tool args effects_of written _ _

-- A move that leaves the open transaction as it is.
pub record Leaves {A : Type 0} (move : Move A) : Type 0 where
  pub run : (b : Bench) → (move b).0.editing ≡ b.editing

reads-Leaves : {A : Type 0} (answer : Bench → Attempt A) → Leaves (λ b. (b, answer b))
reads-Leaves answer = record { run = λ b. refl }

act-Leaves :
    {A : Type 0} (host : Host) (tool args : String) (move : Tree → Move A)
    (effects_of : A → List Effect) (written : A → String) (s : Session)
    → ((t : Tree) → Leaves (move t))
    → (act host tool args move effects_of written s).0.bench.editing ≡ s.bench.editing
unfolding attempted
act-Leaves host tool args move effects_of written s h =
    ap (λ (b : Bench). b.editing) (act-bench host tool args move effects_of written s)
    ∙ tried s.derived
  where
    tried : (d : Option Tree) → (attempted host d move s.bench).0.editing ≡ s.bench.editing
    tried none = refl
    tried (some t) = (h t).run s.bench

unless_editing-Leaves :
    {A : Type 0} (gid : GoalId) (side : Option Side) (refusal : Transaction → A) (move : Move A)
    → Leaves move
    → Leaves (unless_editing gid side refusal move)
unfolding unless_editing
unless_editing-Leaves gid side refusal move h = record { run = λ b. go b b.editing refl }
  where
    go :
        (b : Bench) (o : Option Transaction)
        → b.editing ≡ o
        → (unless_editing gid side refusal move b).0.editing ≡ b.editing
    go b none e = rw (e, unless_editing) (h.run b ∙ e)
    go b (some x) e = elim (Bool-cases (is_editing (some x) gid side)) [
      | inl busy ↦ rw (e, busy, unless_editing) e
      | inr idle ↦ rw (e, idle, unless_editing) (h.run b ∙ e)
    ]

unless_below-Leaves :
    {A : Type 0} (t : Tree) (gid : GoalId) (refusal : Transaction → A) (move : Move A)
    → Leaves move
    → Leaves (unless_below t gid refusal move)
unfolding unless_below
unless_below-Leaves t gid refusal move h = record { run = λ b. go b b.editing refl }
  where
    go :
        (b : Bench) (o : Option Transaction)
        → b.editing ≡ o
        → (unless_below t gid refusal move b).0.editing ≡ b.editing
    go b none e = rw (e, unless_below) (h.run b ∙ e)
    go b (some x) e = elim (Result-cases (is_editing_below (some x) t gid)) [
      | inr (f, r) ↦ rw (e, r, unless_below) e
      | inl (true, r) ↦ rw (e, r, unless_below) e
      | inl (false, r) ↦ rw (e, r, unless_below) (h.run b ∙ e)
    ]

keeping-editing :
    {A B : Type 0} (next : A → Bench × B) (b : Bench) (r : Attempt A)
    → ((a : A) → (next a).0.editing ≡ b.editing)
    → (keeping next b r).0.editing ≡ b.editing
unfolding keeping
keeping-editing next b (thrown f) h = refl
keeping-editing next b (done a) h = h a

on_world-Leaves : {A : Type 0} (run : Run A) → Leaves (on_world run)
unfolding on_world
on_world-Leaves run = record { run = λ b. refl }

-- Methods that leave the open transaction as it is.
pub data Quiet : Type 0 where
  reverts : GoalId → Side → String → Quiet
  checks : GoalId → Option ℕ → Option ℕ → Quiet
  rewrites : GoalId → Side → List String → Quiet
  previews : GoalId → Side → List String → Quiet
  unfolds : GoalId → Side → Quiet
  interposes : Llops → GoalId → String → Quiet
  cases : Llops → GoalId → CaseOn → Quiet
  uninterposes : GoalId → Quiet
  uncases : GoalId → Quiet
  uncuts : GoalId → Quiet
  gives_up : String → Quiet

unfoldable pub run_quiet : Host → Quiet → Session → Session
unfolding Methods.revert Methods.check Methods.rewrite Methods.preview_rewrite Methods.unfold_loop
    Methods.interpose Methods.case Methods.uninterpose Methods.uncase Methods.uncut Methods.give_up
run_quiet host (reverts gid side to) s = (Methods.revert host gid side to s).0
run_quiet host (checks gid ms unroll) s = (Methods.check host gid ms unroll s).0
run_quiet host (rewrites gid side rules) s = (Methods.rewrite host gid side rules s).0
run_quiet host (previews gid side rules) s = (Methods.preview_rewrite host gid side rules s).0
run_quiet host (unfolds gid side) s = (Methods.unfold_loop host gid side s).0
run_quiet host (interposes llops gid text) s = (Methods.interpose host llops gid (some text) s).0
run_quiet host (cases llops gid what) s = (Methods.case host llops gid what s).0
run_quiet host (uninterposes gid) s = (Methods.uninterpose host gid s).0
run_quiet host (uncases gid) s = (Methods.uncase host gid s).0
run_quiet host (uncuts gid) s = (Methods.uncut host gid s).0
run_quiet host (gives_up reason) s = (Methods.give_up host reason s).0

module _ (host : Host) where
  rewrite_move-Leaves :
      (gid : GoalId) (side : Side) (rules : List String) (t : Tree)
      → Leaves (Methods.rewrite_move host gid side rules t)
  unfolding Methods.rewrite_move
  rewrite_move-Leaves gid tgt rules t = reads-Leaves _
  rewrite_move-Leaves gid src rules t = record {
    run =
        (unless_editing-Leaves gid (some src)
          (λ x. RewriteStepResult.refused "editing" (open_message x)) _
          (on_world-Leaves (rewrite_side host.kit t gid src rules true))).run;
  }

  unfold_move-Leaves :
      (entries : List Entry) (gid : GoalId) (side : Side) (t : Tree)
      → Leaves (Methods.unfold_move host entries gid side t)
  unfolding Methods.unfold_move
  unfold_move-Leaves entries gid side t = record { run = λ b. at b (goal_of t gid) refl }
    where
      at :
          (b : Bench) (r : Attempt Goal)
          → goal_of t gid ≡ r
          → (Methods.unfold_move host entries gid side t b).0.editing ≡ b.editing
      at b (thrown f) e = rw (e, Methods.unfold_move) refl
      at b (done goal) e = elim (Bool-cases (Methods.holds_proof entries gid goal.src.history)) [
        | inl proved ↦ rw (e, proved, Methods.unfold_move) refl
        | inr free ↦
            rw (e, free, Methods.unfold_move)
              ((unless_editing-Leaves gid (some side)
                  (λ x. UnfoldStepResult.refused "editing" (open_message x)) _
                  (on_world-Leaves (unfold_side host.kit t gid side))).run
                b)
      ]

  interpose_move-Leaves :
      (llops : Llops) (gid : GoalId) (text : String) (t : Tree)
      → Leaves (Methods.interpose_move host llops gid (some text) t)
  unfolding Methods.interpose_move Methods.interpose_between
  interpose_move-Leaves llops gid text t = record {
    run = λ b. at b (Methods.edited_at host b gid) refl;
  }
    where
      at :
          (b : Bench) (o : Option Transaction)
          → Methods.edited_at host b gid ≡ o
          → (Methods.interpose_move host llops gid (some text) t b).0.editing ≡ b.editing
      at b none e = rw (e, Methods.interpose_move) (keeping-editing _ b _ (λ r. refl))
      at b (some x) e = rw (e, Methods.interpose_move) refl

  case_move-Leaves :
      (llops : Llops) (gid : GoalId) (what : CaseOn) (t : Tree)
      → Leaves (Methods.case_move host llops gid what t)
  unfolding Methods.case_move
  case_move-Leaves llops gid what t =
      unless_editing-Leaves gid none _ _ (record { run = λ b. keeping-editing _ b _ (λ r. refl) })

  -- A call of revert, check, rewrite, rewritePreview, unfold, interpose of a program that is given,
  -- case, uninterpose, uncase, uncut or giveUp leaves the open transaction as it is, however it ends.
  pub run_quiet-editing :
      (q : Quiet) (s : Session) → (run_quiet host q s).bench.editing ≡ s.bench.editing
  unfolding run_quiet Methods.revert Methods.check Methods.rewrite Methods.preview_rewrite
      Methods.unfold_loop Methods.interpose Methods.case Methods.uninterpose Methods.uncase
      Methods.uncut Methods.give_up move_revert move_uncut move_uncase move_uninterpose
  run_quiet-editing (reverts gid side to) s =
      act-Leaves host _ _ _ _ _ s (λ t. unless_editing-Leaves gid (some side) _ _ (reads-Leaves _))
  run_quiet-editing (checks gid ms unroll) s = act-Leaves host _ _ _ _ _ s (λ t. on_world-Leaves _)
  run_quiet-editing (rewrites gid side rules) s =
      act-Leaves host _ _ _ _ _ s (rewrite_move-Leaves gid side rules)
  run_quiet-editing (previews gid side rules) s =
      act-Leaves host _ _ _ _ _ s (λ t. on_world-Leaves _)
  run_quiet-editing (unfolds gid side) s =
      act-Leaves host _ _ _ _ _ s (unfold_move-Leaves s.entries gid side)
  run_quiet-editing (interposes llops gid text) s =
      act-Leaves host _ _ _ _ _ s (interpose_move-Leaves llops gid text)
  run_quiet-editing (cases llops gid what) s =
      act-Leaves host _ _ _ _ _ s (case_move-Leaves llops gid what)
  run_quiet-editing (uninterposes gid) s =
      act-Leaves host _ _ _ _ _ s (λ t. unless_below-Leaves t gid _ _ (reads-Leaves _))
  run_quiet-editing (uncases gid) s =
      act-Leaves host _ _ _ _ _ s (λ t. unless_below-Leaves t gid _ _ (reads-Leaves _))
  run_quiet-editing (uncuts gid) s =
      act-Leaves host _ _ _ _ _ s (λ t. unless_below-Leaves t gid _ _ (reads-Leaves _))
  run_quiet-editing (gives_up reason) s = act-Leaves host _ _ _ _ _ s (λ t. reads-Leaves _)
