-- ===== src/Steps/Directed.antt =====
-- engine/core/state/steps.ts and goals.ts together: where the checkers are right, the step that
-- checkStep answers is one that the goal tree is right to take.
use alive_next.Prelude.{
  String, Option, none, some, List, [], ◌∷◌, ◌++◌, ◌≡◌, sym, ◌∙◌, ap, subst, inl, inr, some-eq,
}
use alive_next.Trajectory.{Hash, Side, src, tgt, Effect, Window}
use alive_next.Goals.Types.{GoalId, Goal, Tree, ok, on}
use alive_next.Goals.Queries.{head}
use alive_next.Goals.Claims.{Moves}
use alive_next.Goals.Certified.{IsCertified}
use alive_next.Failure.{done}
use alive_next.Steps.{Kit, World, Pair, orient}
use alive_next.Steps.Certify.{
  CheckStepOptions, Certified, certified, check_step, window_of, checked_step,
}
use alive_next.Steps.Questions.{IsHash}
use alive_next.Steps.Answers.{IsRemembered}
use alive_next.Steps.Sound.{Lands, StepBacked, check_step-IsStepBacked}
use alive_next.Steps.Refined.{
  AreRight, by_hash, Backed-refines, get-text, head-text, workable-eq_ok,
}

module _ (kit : Kit) (right : AreRight kit) (text_of : Hash → String)
    (known : (s : String) → text_of (kit.tools.sha256 s) ≡ s) where
  orient-Moves :
      (s : Side) (a b : Hash) (old new : String)
      → text_of a ≡ old
      → text_of b ≡ new
      → right.refines (orient s old new).before (orient s old new).after
      → Moves (by_hash kit right text_of known) s a b
  unfolding orient
  orient-Moves src a b old new e f holds =
      subst (λ v. right.refines v (text_of b)) (sym e) (subst (right.refines old) (sym f) holds)
  orient-Moves tgt a b old new e f holds =
      subst (λ v. right.refines v (text_of a)) (sym f) (subst (right.refines new) (sym e) holds)

  -- The first effect is kept when the goal's new pair is looked at.
  Lands-first :
      (g : Goal) (s : Side) (c c' : Certified) (e : Effect)
      → Lands kit g s c c'
      → c.effects ≡ e ∷ []
      → (es : List Effect) × (c'.effects ≡ e ∷ es)
  Lands-first g s c c' e l one = elim l.effects [
    | inl same ↦ ([], same ∙ one)
    | inr (w, pair, new, inl same) ↦ ([], same ∙ one)
    | inr (w, pair, new, inr (b, more, shown)) ↦ (
      Effect.proved g.id (some b) ∷ [],
      more ∙ ap (λ x. x ++ Effect.proved g.id (some b) ∷ []) one,
    )
  ]

-- Where the checkers are right, a step certified with no window names first the step, which records no
-- window, and the tree is right to take it: the program that it leaves is refined by the src's last
-- one, or refines the tgt's. The checkers are alive-tv, on programs that do not loop or with loops
-- unrolled, and llops.
pub check_step-IsCertified :
    (kit : Kit) (right : AreRight kit) (text_of : Hash → String)
    (known : (s : String) → text_of (kit.tools.sha256 s) ≡ s) (t : Tree) (k : GoalId) (s : Side)
    (text : String) (o : CheckStepOptions) (w w' : World) (c : Certified)
    → IsHash kit.tools.sha256
    → IsRemembered kit w
    → window_of o.narrowed ≡ none
    → check_step kit t k s text o w ≡ (w', done (certified c))
    → (es : List Effect) × (c.effects ≡ checked_step k s c.hash c.by none ∷ es)
      × IsCertified (by_hash kit right text_of known) t (checked_step k s c.hash c.by none)
check_step-IsCertified kit right text_of known t k s text o w w' c hash i whole e =
    let (g, here, after, programs, there, of_side, got, (v, kept, got'), apart, backed) =
      check_step-IsStepBacked kit t k s text o w w' c hash i e in
    let (no_window, holds) = whole_step programs backed.at backed.c backed.backed in
    let stored =
      subst (λ a. backed.c.effects ≡ checked_step k s after backed.c.by a ∷ []) no_window
        backed.step_is in
    let (es, first) = Lands-first kit right text_of known g s backed.c c _ backed.lands stored in
    (
      es,
      first
          ∙ ap (λ h. checked_step k s h backed.c.by none ∷ es)
              (sym (backed.lands.hash ∙ backed.hash))
          ∙ ap (λ b. checked_step k s c.hash b none ∷ es) (sym backed.lands.by),
      (λ x a there' last.
          orient-Moves kit right text_of known s a c.hash programs.before programs.after
            (head-text kit right text_of known x s w.disk programs.before
              (
                here,
                subst (λ y. head y s ≡ ok here) (some-eq (sym (workable-eq_ok t k there) ∙ there'))
                    of_side,
                got,
              )
              a last)
            (ap text_of (backed.lands.hash ∙ backed.hash)
              ∙ get-text kit right text_of known v.disk after programs.after got')
            holds),
    )
  where
    whole_step :
        (q : Pair) (at : Option Window)
        → (d : Certified) → StepBacked kit s q o at d
        → (at ≡ none)
          × right.refines (orient s q.before q.after).before (orient s q.before q.after).after
    whole_step q at d (inl (on, plain, backed)) = (plain, Backed-refines kit right _ d.by backed)
    whole_step q at d (inr (on, by, (n, l, x, is, recorded, of_window, shown))) = cc (whole, is)
