-- ===== src/Steps/Eager.antt =====
-- engine/core/state/steps.ts, `eagerCheck`: what the cheap check of a step's new pair adds to the
-- step's effects.
use alive_next.Prelude.{
  String, Bool, true, false, Option, none, some, List, [], ◌∷◌, ◌++◌, ◌≡◌, refl, sym, ◌∙◌, subst,
  ◌⊎◌, inl, inr, Bool-cases, ◌==◌, if◌then◌else◌,
}
use alive_next.Trajectory.{Hash, Side, src, tgt, By, Effect}
use alive_next.Goals.Types.{GoalId, Goal, Result, ok}
use alive_next.Goals.Queries.{head}
use alive_next.Failure.{done}
use alive_next.Drivers.{CheckResult}
use alive_next.Store
use alive_next.Splits.{concat}
use alive_next.Steps.{Kit, World, Run, ◌>>=◌, >>=-eq_done, Pair, unsolved, loops_detail}
use alive_next.Steps.Ask.{is_correct, alive2, Free, by, why, without_solver}
use alive_next.Steps.Discharge.{landed_head, eager_effects, eager_apart, eager_same, eager_check}
use alive_next.Steps.Questions.{IsHash}
use alive_next.Steps.Answers.{IsRemembered, Shown, alive2-Shown}
use alive_next.Steps.Runs.{give-eq_done, give-then, lift-then, fetch-then}
use alive_next.Steps.Backing.{Backed, without_solver-Backed}
use alive_next.Steps.Windows.{is_correct-eq}

-- The head of a side once a step on the given side has landed.
abbrev pub moved_head : Goal → Side → Hash → Side → Result Hash
moved_head g src h src = ok h
moved_head g tgt h tgt = ok h
moved_head g src h tgt = head g tgt
moved_head g tgt h src = head g src

-- The pair of programs that the goal's heads store after the step.
pub record IsNewPair (kit : Kit) (w : World) (g : Goal) (s : Side) (h : Hash) (pair : Pair)
    : Type 0 where
  pub src_is :
      (x : Hash) × (moved_head g s h src ≡ ok x) × (Store.get kit.tools w.disk x ≡ done pair.before)
  pub tgt_is :
      (x : Hash) × (moved_head g s h tgt ≡ ok x) × (Store.get kit.tools w.disk x ≡ done pair.after)

-- Nothing is added, or that the goal is proved, by a checker that said so of the pair.
abbrev pub Adds : Kit → GoalId → Pair → List Effect → List Effect → Type 0
Adds kit k pair es es' =
    (es' ≡ es) ⊎ ((c : By) × (es' ≡ es ++ Effect.proved k (some c) ∷ []) × Backed kit pair c)

module _ (kit : Kit) (k : GoalId) (es : List Effect) (pair : Pair) where
  eager_effects-Adds :
      (b : Bool)
      → (b ≡ true → Shown kit pair)
      → Adds kit k pair es (if b then es ++ Effect.proved k (some By.alive2) ∷ [] else es)
  eager_effects-Adds true shown = inr (By.alive2, refl, shown refl)
  eager_effects-Adds false shown = inl refl

  unsolved-outcome : (c : CheckResult) (reason : String) → (unsolved c reason).outcome ≡ c.outcome
  unfolding unsolved
  unsolved-outcome c reason = elim (Bool-cases (c.detail == loops_detail)) [
    | inl y ↦ rw (y, unsolved) refl
    | inr n ↦ rw (n, unsolved) refl
  ]

  module _ (hash : IsHash kit.tools.sha256) (w : World) (i : IsRemembered kit w) where
    eager_same-Adds :
        {w' : World} {r : List Effect × Option CheckResult}
        → eager_same kit k es pair w ≡ (w', done r)
        → Adds kit k pair es r.0
    unfolding eager_same eager_effects
    eager_same-Adds e =
        let (w1, c, first, rest) = >>=-eq_done (alive2 kit pair _ none) _ w e in
        subst (λ (x : List Effect × Option CheckResult). Adds kit k pair es x.0)
          (give-eq_done _ w1 rest)
          (eager_effects-Adds (is_correct c.outcome)
            λ right. alive2-Shown kit pair _ w hash i first (is_correct-eq c.outcome right))

    eager_apart-Adds :
        (f : Free) {w' : World} {r : List Effect × Option CheckResult}
        → ((c : By) → f ≡ by c → Backed kit pair c)
        → eager_apart kit k es pair f w ≡ (w', done r)
        → Adds kit k pair es r.0
    unfolding eager_apart eager_effects
    eager_apart-Adds (by c) free e =
        subst (λ (x : List Effect × Option CheckResult). Adds kit k pair es x.0)
          (give-eq_done _ w e) (inr (c, refl, free c refl))
    eager_apart-Adds (why reason) free e =
        let (w1, c, first, rest) = >>=-eq_done (alive2 kit pair _ none) _ w e in
        subst (λ (x : List Effect × Option CheckResult). Adds kit k pair es x.0)
          (give-eq_done _ w1 rest)
          (eager_effects-Adds (is_correct (unsolved c (concat "the new pair " reason)).outcome)
            λ right.
              alive2-Shown kit pair _ w hash i first
                (sym (unsolved-outcome c (concat "the new pair " reason)) ∙ is_correct-eq _ right))

landed_head-then :
    {B : Type 0} (g : Goal) (s : Side) (h : Hash) (r : Side) (next : Hash → Run B) (w : World)
    {w' : World} {b : B}
    → (landed_head g s h r >>= next) w ≡ (w', done b)
    → (x : Hash) × (moved_head g s h r ≡ ok x) × (next x w ≡ (w', done b))
unfolding landed_head
landed_head-then g src h src next w e = (h, refl, give-then h next w e)
landed_head-then g tgt h tgt next w e = (h, refl, give-then h next w e)
landed_head-then g src h tgt next w e = lift-then next w (head g tgt) e
landed_head-then g tgt h src next w e = lift-then next w (head g src) e

-- The cheap check of a step's new pair adds nothing to the effects, or that the goal is proved, by a
-- checker that said so of the pair.
pub eager_check-Adds :
    (kit : Kit) (g : Goal) (k : GoalId) (s : Side) (h : Hash) (es : List Effect) (w : World)
    {w' : World} {r : List Effect × Option CheckResult}
    → IsHash kit.tools.sha256
    → IsRemembered kit w
    → eager_check kit g k s h es w ≡ (w', done r)
    → (pair : Pair) × IsNewPair kit w g s h pair × Adds kit k pair es r.0
unfolding eager_check
eager_check-Adds kit g k s h es w {w'} {r} hash i e =
    let (a, of_src, e1) = landed_head-then g s h src _ w e in
    let (b, of_tgt, e2) = landed_head-then g s h tgt _ w e1 in
    let (old, got, e3) = fetch-then kit a _ w e2 in
    let (new, got', e4) = fetch-then kit b _ w e3 in
    (
      record { before = old; after = new },
      record { src_is = (a, of_src, got); tgt_is = (b, of_tgt, got') },
      go (record { before = old; after = new }) (a == b) e4,
    )
  where
    go :
        (pair : Pair) (b : Bool)
        → (if b
              then eager_same kit k es pair
              else eager_apart kit k es pair (without_solver kit pair))
            w
          ≡ (w', done r)
        → Adds kit k pair es r.0
    go pair true end = eager_same-Adds kit k es pair hash w i end
    go pair false end =
        eager_apart-Adds kit k es pair hash w i (without_solver kit pair)
          (without_solver-Backed kit pair) end
