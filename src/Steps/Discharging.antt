-- ===== src/Steps/Discharging.antt =====
-- engine/core/state/steps.ts, `checkGoal`: each effect that it answers is backed by an answer of the
-- checker that it names, on the pair that the goal's heads store.
use alive_next.Prelude.{
  ℕ, String, Bool, true, false, Option, none, some, List, [], ◌∷◌, ◌≡◌, refl, sym, ap, subst, ◌⊎◌,
  inl, inr, eq_iff, ◌==◌, if◌then◌else◌, head?,
}
use alive_next.Trajectory.{Hash, src, tgt, By, Effect}
use alive_next.Goals.Types.{GoalId, Goal, Tree, Result, ok, err, on}
use alive_next.Goals.Queries.{workable, head}
use alive_next.Goals.Restatus.{ok-injective}
use alive_next.Failure.{Attempt, done, lift-eq_done}
use alive_next.Drivers.{CheckResult, CheckOutcome, correct, incorrect, error}
use alive_next.Store
use alive_next.Steps.{
  Kit, World, give, raise, >>=-eq_done, Pair, GoalOutcome, goal_outcome, root_pair, unmoved,
  same_first, and_then,
}
use alive_next.Steps.GoalOutcome.{proved, refuted, unknown}
use alive_next.Steps.Ask.{alive2, Free, by, why, without_solver}
use alive_next.Steps.Discharge.{
  CheckGoalResult, check_effects, original_if_asked, check_pair, check_apart, check_goal,
  history_of, not_searched,
}
use alive_next.Steps.Questions.{IsHash}
use alive_next.Steps.Stable.{either_loops-Keeps}
use alive_next.Steps.Answers.{
  IsRemembered, IsRemembered-IsStable, Refuted, Shown, alive2-Shown, alive2-incorrect,
}
use alive_next.Steps.Runs.{give-eq_done, lift-then, fetch-then}
use alive_next.Steps.Backing.{Backed, without_solver-Backed}

-- The root of the run, both sides of which are at the programs that they started with.
pub record IsOriginal (t : Tree) (k : GoalId) (g : Goal) : Type 0 where
  pub root : k ≡ t.root
  pub src_first : (h : Hash) × (head g src ≡ ok h) × (head? (on g src).history ≡ some h)
  pub tgt_first : (h : Hash) × (head g tgt ≡ ok h) × (head? (on g tgt).history ≡ some h)

-- What stands behind the effects of a check of a goal on a pair.
abbrev pub IsBacked : Kit → Tree → GoalId → Goal → Pair → List Effect → Type 0
IsBacked kit t k g pair es =
    (es ≡ [])
    ⊎ ((c : By) × (es ≡ Effect.proved k (some c) ∷ []) × Backed kit pair c)
    ⊎ ((es ≡ Effect.refuted k ∷ [])
        × IsOriginal t k g
        × ((c : CheckResult) × (c.outcome ≡ incorrect) × Refuted kit pair c))

same_first-eq_ok :
    (r : Result Hash) (o : Option Hash)
    → same_first r o ≡ ok true
    → (h : Hash) × (r ≡ ok h) × (o ≡ some h)
same_first-eq_ok (err f) o e = cc (e)
same_first-eq_ok (ok now) none e = cc (e)
same_first-eq_ok (ok now) (some first) e =
    (now, refl, ap some (sym ((eq_iff now first).0 (ok-injective e))))

and_then-eq_ok : (a b : Result Bool) → and_then a b ≡ ok true → (a ≡ ok true) × (b ≡ ok true)
and_then-eq_ok (err f) b e = cc (e)
and_then-eq_ok (ok true) b e = (refl, e)
and_then-eq_ok (ok false) b e = cc (e)

root_pair-IsOriginal :
    (t : Tree) (k : GoalId) (g : Goal) → root_pair t k g ≡ ok true → IsOriginal t k g
unfolding root_pair unmoved
root_pair-IsOriginal t k g e =
    let (one, rest) =
      and_then-eq_ok (ok (k == t.root)) (and_then (unmoved g src) (unmoved g tgt)) e in
    let (two, three) = and_then-eq_ok (unmoved g src) (unmoved g tgt) rest in
    record {
      root = (eq_iff k t.root).0 (ok-injective one);
      src_first = same_first-eq_ok (head g src) (head? g.src.history) two;
      tgt_first = same_first-eq_ok (head g tgt) (head? g.tgt.history) three;
    }

raise-eq_done :
    {A : Type 0} (r : Attempt A) (w : World) {w' : World} {a : A}
    → raise r w ≡ (w', done a)
    → r ≡ done a
unfolding raise
raise-eq_done r w e = ap (λ p. p.1) e

-- Where the root is found to be as it started, alive2 said incorrect of it.
original_if_asked-IsOriginal :
    (o : GoalOutcome) (c : CheckOutcome) (t : Tree) (k : GoalId) (g : Goal) (w : World) {w' : World}
    → original_if_asked o c t k g w ≡ (w', done true)
    → (c ≡ incorrect) × IsOriginal t k g
unfolding original_if_asked
original_if_asked-IsOriginal proved c t k g w e = cc (give-eq_done false w e)
original_if_asked-IsOriginal refuted incorrect t k g w e =
    (refl, root_pair-IsOriginal t k g (lift-eq_done _ (raise-eq_done _ w e)))
original_if_asked-IsOriginal refuted correct t k g w e = cc (give-eq_done false w e)
original_if_asked-IsOriginal refuted error t k g w e = cc (give-eq_done false w e)
original_if_asked-IsOriginal refuted CheckOutcome.unknown t k g w e = cc (give-eq_done false w e)
original_if_asked-IsOriginal unknown incorrect t k g w e =
    (refl, root_pair-IsOriginal t k g (lift-eq_done _ (raise-eq_done _ w e)))
original_if_asked-IsOriginal unknown correct t k g w e = cc (give-eq_done false w e)
original_if_asked-IsOriginal unknown error t k g w e = cc (give-eq_done false w e)
original_if_asked-IsOriginal unknown CheckOutcome.unknown t k g w e = cc (give-eq_done false w e)

-- A goal is called proved only for an answer of correct on a pair that does not loop.
goal_outcome-proved :
    (c : CheckOutcome) (loops : Bool)
    → goal_outcome c loops ≡ proved
    → (c ≡ correct) × (loops ≡ false)
unfolding goal_outcome
goal_outcome-proved correct true e = cc (e)
goal_outcome-proved correct false e = (refl, refl)
goal_outcome-proved incorrect b e = cc (e)
goal_outcome-proved error b e = cc (e)
goal_outcome-proved CheckOutcome.unknown b e = cc (e)

module _ (kit : Kit) (t : Tree) (k : GoalId) (g : Goal) (pair : Pair) where
  -- What is behind the effects, by what is behind the answer.
  effects-IsBacked :
      (o : CheckOutcome) (loops original : Bool)
      → (o ≡ correct → loops ≡ false → Shown kit pair)
      → (o ≡ incorrect → (c : CheckResult) × (c.outcome ≡ incorrect) × Refuted kit pair c)
      → (original ≡ true → IsOriginal t k g)
      → IsBacked kit t k g pair (check_effects k (goal_outcome o loops) o original)
  unfolding goal_outcome check_effects
  effects-IsBacked correct true original right wrong first = inl refl
  effects-IsBacked correct false original right wrong first =
      inr (inl (By.alive2, refl, right refl refl))
  effects-IsBacked incorrect loops true right wrong first = inr (inr (refl, first refl, wrong refl))
  effects-IsBacked incorrect loops false right wrong first = inl refl
  effects-IsBacked error loops original right wrong first = inl refl
  effects-IsBacked CheckOutcome.unknown loops original right wrong first = inl refl

  module _ (hash : IsHash kit.tools.sha256) where
    -- The end of a check of a pair, from the answer on.
    answered-IsBacked :
        (loops : Bool) (ms : ℕ) (u : Option ℕ) (c : CheckResult) (original : Bool)
        (w w' v v' : World)
        → IsRemembered kit w
        → alive2 kit pair ms (if loops then u else none) w ≡ (w', done c)
        → original_if_asked (goal_outcome c.outcome loops) c.outcome t k g v ≡ (v', done original)
        → IsBacked kit t k g pair
            (check_effects k (goal_outcome c.outcome loops) c.outcome original)
    answered-IsBacked loops ms u c original w w' v v' i said found =
        effects-IsBacked c.outcome loops original
          (λ right still.
            alive2-Shown kit pair ms w hash i
              (subst (λ b. alive2 kit pair ms (if b then u else none) w ≡ (w', done c)) still said)
              right)
          (λ wrong. (c, wrong, alive2-incorrect kit pair ms _ w hash i said wrong))
          (λ is.
            (original_if_asked-IsOriginal (goal_outcome c.outcome loops) c.outcome t k g v (
              subst
                (λ b.
                  original_if_asked (goal_outcome c.outcome loops) c.outcome t k g v ≡ (v', done b))
                is found)).1)

    check_pair-IsBacked :
        (loops : Bool) (ms u : Option ℕ) (w : World) {w' : World} {r : CheckGoalResult}
        → IsRemembered kit w
        → check_pair kit t k g pair loops ms u w ≡ (w', done r)
        → IsBacked kit t k g pair r.effects
    unfolding check_pair
    check_pair-IsBacked loops ms u w i e =
        let (w1, prior, first, rest1) = >>=-eq_done (history_of kit pair _) _ w e in
        let (w2, c, second, rest2) = >>=-eq_done _ _ w1 rest1 in
        let (w3, original, third, rest3) = >>=-eq_done _ _ w2 rest2 in
        subst (λ (x : CheckGoalResult). IsBacked kit t k g pair x.effects) (give-eq_done _ w3 rest3)
          (answered-IsBacked loops _ u c original w1 w2 w2 w3
            (subst (IsRemembered kit) (ap (λ p. p.0) first) i) second third)

    searched-IsBacked :
        (b loops : Bool) (ms u : Option ℕ) (reason : String) (w : World) {w' : World}
        {r : CheckGoalResult}
        → IsRemembered kit w
        → (if b then give (not_searched reason) else check_pair kit t k g pair loops ms u) w
          ≡ (w', done r)
        → IsBacked kit t k g pair r.effects
    unfolding not_searched
    searched-IsBacked true loops ms u reason w i e =
        subst (λ (x : CheckGoalResult). IsBacked kit t k g pair x.effects) (give-eq_done _ w e)
          (inl refl)
    searched-IsBacked false loops ms u reason w i e = check_pair-IsBacked loops ms u w i e

    check_apart-IsBacked :
        (ms u : Option ℕ) (f : Free) (w : World) {w' : World} {r : CheckGoalResult}
        → ((c : By) → f ≡ by c → Backed kit pair c)
        → IsRemembered kit w
        → check_apart kit t k g pair ms u f w ≡ (w', done r)
        → IsBacked kit t k g pair r.effects
    unfolding check_apart
    check_apart-IsBacked ms u (by c) w free i e =
        subst (λ (x : CheckGoalResult). IsBacked kit t k g pair x.effects) (give-eq_done _ w e)
          (inr (inl (c, refl, free c refl)))
    check_apart-IsBacked ms u (why reason) w free i e =
        let (w1, loops, first, rest) = >>=-eq_done _ _ w e in
        let kept =
          (either_loops-Keeps kit (IsRemembered kit) (IsRemembered-IsStable kit) pair).run w i in
        searched-IsBacked _ loops ms u reason w1 (subst (λ p. IsRemembered kit p.0) first kept) rest

-- The pair of programs that the goal's heads store.
pub record IsPairOf (kit : Kit) (w : World) (t : Tree) (k : GoalId) (g : Goal) (pair : Pair)
    : Type 0 where
  pub goal : workable t k ≡ ok g
  pub src_is : (h : Hash) × (head g src ≡ ok h) × (Store.get kit.tools w.disk h ≡ done pair.before)
  pub tgt_is : (h : Hash) × (head g tgt ≡ ok h) × (Store.get kit.tools w.disk h ≡ done pair.after)

-- A check of a goal that answers was made of the pair that the goal's heads store. It answers no
-- effect, or that the goal is proved, by a checker that said so of the pair, or that it is refuted: a
-- root with both sides as they started, on which alive-tv answered incorrect. Without an unroll factor
-- alive-tv answered of programs that do not loop.
pub check_goal-IsBacked :
    (kit : Kit) (t : Tree) (k : GoalId) (ms u : Option ℕ) (w w' : World) (r : CheckGoalResult)
    → IsHash kit.tools.sha256
    → IsRemembered kit w
    → check_goal kit t k ms u w ≡ (w', done r)
    → (g : Goal) × (pair : Pair) × IsPairOf kit w t k g pair × IsBacked kit t k g pair r.effects
unfolding check_goal
check_goal-IsBacked kit t k ms u w w' r hash i e =
    let (g, there, e1) = lift-then _ w (workable t k) e in
    let (s, of_src, e2) = lift-then _ w (head g src) e1 in
    let (q, of_tgt, e3) = lift-then _ w (head g tgt) e2 in
    let (before, got, e4) = fetch-then kit s _ w e3 in
    let (after, got', e5) = fetch-then kit q _ w e4 in
    (
      g,
      record { before = before; after = after },
      record { goal = there; src_is = (s, of_src, got); tgt_is = (q, of_tgt, got') },
      go g (record { before = before; after = after }) (s == q) e5,
    )
  where
    go :
        (g : Goal) (pair : Pair) (b : Bool)
        → (if b
              then check_pair kit t k g pair false ms u
              else check_apart kit t k g pair ms u (without_solver kit pair))
            w
          ≡ (w', done r)
        → IsBacked kit t k g pair r.effects
    go g pair true end = check_pair-IsBacked kit t k g pair hash false ms u w i end
    go g pair false end =
        check_apart-IsBacked kit t k g pair hash ms u (without_solver kit pair) w
          (without_solver-Backed kit pair) i end
