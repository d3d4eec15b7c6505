-- ===== src/Steps/Sound.antt =====
-- engine/core/state/steps.ts, `checkStep`: a step that is certified is backed by an answer of the
-- checker that it names, on the programs or on the window that it was asked about.
use alive_next.Prelude.{
  String, Bool, true, false, Option, none, some, [], ◌∷◌, ◌≡◌, ◌≢◌, refl, ap, ◌∙◌, subst, ◌⊎◌, inl,
  inr, Bool-cases, eq_iff, ◌==◌,
}
use alive_next.Trajectory.{Hash, Side, By, Window}
use alive_next.Goals.Types.{GoalId, Goal, Tree, ok}
use alive_next.Goals.Queries.{workable, head}
use alive_next.Failure.{Attempt, thrown, done}
use alive_next.Drivers.{correct}
use alive_next.Store
use alive_next.Store.{Disk}
use alive_next.Store.Kept.{put-hash_of}
use alive_next.Steps.{Kit, World, >>=-eq_done, Pair, orient, keep, kept}
use alive_next.Steps.Ask.{is_correct, alive2, Free, by, why}
use alive_next.Steps.Discharge.{eager_check}
use alive_next.Steps.Conditioned.{Narrowed, Conditioned, of_side}
use alive_next.Steps.Certify.{
  CheckStepOptions, Certified, certified, On, Local, landed, checked_step, window_of, condition,
  ask_window, proved_locally, on_window, on_whole, by_answer, certify, check_step, Fallback,
}
use alive_next.Steps.Questions.{IsHash}
use alive_next.Steps.Stable.{alive2-Keeps}
use alive_next.Steps.Answers.{IsRemembered, IsRemembered-IsStable, alive2-Shown}
use alive_next.Steps.Runs.{give-eq_done, lift-then, fetch-then}
use alive_next.Steps.Certifying.{condition-Keeps, ask_window-Keeps}
use alive_next.Steps.Backing.{Backed, without_solver-Backed}
use alive_next.Steps.Keeping.{keep-Keeps}
use alive_next.Steps.Eager.{IsNewPair, Adds, eager_check-Adds}
use alive_next.Steps.Windows.{
  LocallyShown, IfProved, condition-IfTried, ask_window-IfProved, proved_locally-eq_some,
  settled_by-IfProved, is_correct-eq,
}

-- The window that a step records: the name that is outlined, the hashes of the three programs, and the
-- preconditions that it was checked under.
pub record IsWindowOf (kit : Kit) (n : Narrowed) (l : Local) (x : Window) : Type 0 where
  pub callee : x.callee ≡ n.callee
  pub outer : Store.hash_of kit.tools n.outer ≡ done x.outer
  pub from : Store.hash_of kit.tools n.before ≡ done x.from
  pub to : Store.hash_of kit.tools n.after ≡ done x.to
  pub preconditions : x.preconditions ≡ l.preconditions
  pub predicates : x.predicates ≡ l.predicates

-- What stands behind a certified step: the checker's answer on the two programs, and then no window is
-- recorded, or on the window, which is the one recorded.
abbrev pub StepBacked : Kit → Side → Pair → CheckStepOptions → Option Window → Certified → Type 0
StepBacked kit s programs o at c =
    ((c.on ≡ On.whole) × (at ≡ none) × Backed kit (orient s programs.before programs.after) c.by)
    ⊎ ((c.on ≡ On.window)
        × (c.by ≡ By.alive2)
        × ((n : Narrowed) × (l : Local) × (x : Window) × (window_of o.narrowed ≡ some n)
            × (at ≡ some x)
            × IsWindowOf kit n l x
            × LocallyShown kit s (of_side s programs.before programs.after) n l))

-- A certified result that has landed: what was checked is the same, and its effects are the step and
-- perhaps a discharge of the goal, by a checker that said so of the pair that the step leaves.
pub record Lands (kit : Kit) (g : Goal) (s : Side) (c c' : Certified) : Type 0 where
  pub hash : c'.hash ≡ c.hash
  pub by : c'.by ≡ c.by
  pub on : c'.on ≡ c.on
  pub effects :
      (c'.effects ≡ c.effects)
      ⊎ ((w : World) × (pair : Pair) × IsNewPair kit w g s c.hash pair
          × Adds kit g.id pair c.effects c'.effects)

certified-injective : {c d : Certified} → certified c ≡ certified d → c ≡ d
certified-injective e = cc (e)

module _ (kit : Kit) (g : Goal) (s : Side) (hash : IsHash kit.tools.sha256) where
  landed-Lands :
      (c c' : Certified) (b : Bool) (w : World) {w' : World}
      → IsRemembered kit w
      → landed kit g s c b w ≡ (w', done (certified c'))
      → Lands kit g s c c'
  unfolding landed
  landed-Lands c c' true w i e =
      let (w1, (es, answer), first, rest) =
        >>=-eq_done (eager_check kit g g.id s c.hash c.effects) _ w e in
      let (pair, new, adds) = eager_check-Adds kit g g.id s c.hash c.effects w hash i first in
      subst (Lands kit g s c) (certified-injective (give-eq_done _ w1 rest))
        (record { hash = refl; by = refl; on = refl; effects = inr (w, pair, new, adds) })
  landed-Lands c c' false w i e =
      subst (Lands kit g s c) (certified-injective (give-eq_done _ w e))
        (record { hash = refl; by = refl; on = refl; effects = inl refl })

-- A certified step: what was recorded first, with its checker, and what is behind it.
pub record IsStepBacked (kit : Kit) (k : GoalId) (g : Goal) (s : Side) (programs : Pair)
    (o : CheckStepOptions) (after : Hash) (c' : Certified) : Type 0 where
  pub c : Certified
  pub at : Option Window
  pub step_is : c.effects ≡ checked_step k s after c.by at ∷ []
  pub hash : c.hash ≡ after
  pub lands : Lands kit g s c c'
  pub backed : StepBacked kit s programs o at c

-- A program that is put is named by its hash.
keep-hash_of :
    (kit : Kit) (text : String) (w : World) {w' : World} {h : Hash}
    → keep kit text w ≡ (w', done h)
    → Store.hash_of kit.tools text ≡ done h
unfolding keep
keep-hash_of kit text w {w'} {h} e = kept_hash (Store.put kit.tools w.disk text) refl e
  where
    kept_hash :
        (r : Attempt (Disk × Hash))
        → Store.put kit.tools w.disk text ≡ r
        → kept w r ≡ (w', done h)
        → Store.hash_of kit.tools text ≡ done h
    kept_hash (thrown f) same e = cc (ap (λ p. p.1) e)
    kept_hash (done (d, x)) same e = put-hash_of kit.tools w.disk text same ∙ ap (λ p. p.1) e

module _ (kit : Kit) (k : GoalId) (g : Goal) (s : Side) (programs : Pair) (o : CheckStepOptions)
    (after : Hash) (hash : IsHash kit.tools.sha256) where
  keep-Remembered :
      (text : String) (w : World) {w' : World} {h : Hash}
      → IsRemembered kit w
      → keep kit text w ≡ (w', done h)
      → IsRemembered kit w'
  keep-Remembered text w i e =
      subst (λ p. IsRemembered kit p.0) e
        ((keep-Keeps kit (IsRemembered kit) (IsRemembered-IsStable kit) text).run w i)

  on_window-IsStepBacked :
      (n : Option Narrowed) (l : Local) (f : Option Fallback) (w : World) {w' : World}
      {c : Certified}
      → IsRemembered kit w
      → window_of o.narrowed ≡ n
      → IfProved kit s (of_side s programs.before programs.after) n (some l)
      → l.check.outcome ≡ correct
      → on_window kit g k s after n l f o.eager w ≡ (w', done (certified c))
      → IsStepBacked kit k g s programs o after c
  unfolding on_window
  on_window-IsStepBacked none l f w i is proved right e = elim proved [ ]
  on_window-IsStepBacked (some n) l f w i is proved right e =
      let (w1, outer, first, e1) = >>=-eq_done (keep kit n.outer) _ w e in
      let i1 = keep-Remembered n.outer w i first in
      let (w2, from, second, e2) = >>=-eq_done (keep kit n.before) _ w1 e1 in
      let i2 = keep-Remembered n.before w1 i1 second in
      let (w3, to, third, e3) = >>=-eq_done (keep kit n.after) _ w2 e2 in
      let i3 = keep-Remembered n.after w2 i2 third in
      record {
        c = _;
        at = _;
        step_is = refl;
        hash = refl;
        lands = landed-Lands kit g s hash _ _ o.eager w3 i3 e3;
        backed = inr (
          refl,
          refl,
          (
            n,
            l,
            _,
            is,
            refl,
            record {
              callee = refl;
              outer = keep-hash_of kit n.outer w first;
              from = keep-hash_of kit n.before w1 second;
              to = keep-hash_of kit n.after w2 third;
              preconditions = refl;
              predicates = refl;
            },
            proved right,
          ),
        );
      }

  on_whole-IsStepBacked :
      (reason : String) (l : Option Local) (f : Fallback) (w : World) {w' : World} {c : Certified}
      → IsRemembered kit w
      → on_whole kit g k s (orient s programs.before programs.after) after reason o l f w
        ≡ (w', done (certified c))
      → IsStepBacked kit k g s programs o after c
  unfolding on_whole
  on_whole-IsStepBacked reason l f w {w'} {c} i e = elim (Bool-cases o.whole) [
    | inr n ↦ cc (give-eq_done _ w (rw (n, on_whole) at e))
    | inl y ↦
        let (w1, check, first, rest) =
          >>=-eq_done
            (alive2 kit (orient s programs.before programs.after) kit.timeouts.check_default_ms
              none)
            _ w (rw (y, on_whole) at e) in
        let i1 =
          subst (λ p. IsRemembered kit p.0) first
            ((alive2-Keeps kit (IsRemembered kit) (IsRemembered-IsStable kit) _ _ none).run w i) in
        elim (Bool-cases (is_correct check.outcome)) [
          | inr m ↦ cc (give-eq_done _ w1 (rw m at rest))
          | inl right ↦ record {
            c = _;
            at = _;
            step_is = refl;
            hash = refl;
            lands = landed-Lands kit g s hash _ _ o.eager w1 i1 (rw right at rest);
            backed = inl (
              refl,
              refl,
              alive2-Shown kit _ _ w hash i first (is_correct-eq check.outcome right),
            );
          }
        ]
  ]

  by_answer-IsStepBacked :
      (reason : String) (t : Option Conditioned) (l found : Option Local) (w : World) {w' : World}
      {c : Certified}
      → IsRemembered kit w
      → IfProved kit s (of_side s programs.before programs.after) (window_of o.narrowed) l
      → proved_locally l ≡ found
      → by_answer kit g k s (orient s programs.before programs.after) after reason o t l found w
        ≡ (w', done (certified c))
      → IsStepBacked kit k g s programs o after c
  unfolding by_answer
  by_answer-IsStepBacked reason t l none w i proved is e = on_whole-IsStepBacked reason l _ w i e
  by_answer-IsStepBacked reason t l (some x) w i proved is e =
      let (right, shown) = proved_locally-eq_some kit s _ (window_of o.narrowed) l proved is in
      on_window-IsStepBacked (window_of o.narrowed) x _ w i refl shown right e

  certify-IsStepBacked :
      (f : Free) (w : World) {w' : World} {c : Certified}
      → IsRemembered kit w
      → ((b : By) → f ≡ by b → Backed kit (orient s programs.before programs.after) b)
      → certify kit g k s programs.before programs.after after o f w ≡ (w', done (certified c))
      → IsStepBacked kit k g s programs o after c
  unfolding certify
  certify-IsStepBacked (by b) w i free e = record {
    c = _;
    at = _;
    step_is = refl;
    hash = refl;
    lands = landed-Lands kit g s hash _ _ o.eager w i e;
    backed = inl (refl, refl, free b refl);
  }
  certify-IsStepBacked (why reason) w i free e =
      let stable = IsRemembered-IsStable kit in
      let (w1, tried, first, e1) = >>=-eq_done (condition kit _ _ o s _) _ w e in
      let (w2, local, second, e2) = >>=-eq_done (ask_window kit s _ _) _ w1 e1 in
      let i1 =
        subst (λ p. IsRemembered kit p.0) first
          ((condition-Keeps kit (IsRemembered kit) stable _ _ o s _).run w i) in
      let i2 =
        subst (λ p. IsRemembered kit p.0) second
          ((ask_window-Keeps kit (IsRemembered kit) stable s _ _).run w1 i1) in
      by_answer-IsStepBacked reason tried local (proved_locally local) w2 i2
        (ask_window-IfProved kit hash s programs.before programs.after _ _ w1 i1
          (settled_by-IfProved kit s _ _ tried
            (condition-IfTried kit hash s programs.before programs.after o _ w i first))
          second)
        refl e2

-- A step that is certified moves a workable goal's side from the program that its head stores to
-- another one, which is what putting the given text stores. It is backed by its checker's answer:
-- llops's or alive2's on the two programs, in the direction of the side, and then the step records no
-- window; or alive2's on the window that was given, plain or under preconditions that alive2 showed to
-- hold where the window is entered, and then the step records that window, the hashes of its three
-- programs and those preconditions. Its effects are the step, of that checker, and perhaps a discharge
-- of the goal, by a checker that said so of the pair that the step leaves.
pub check_step-IsStepBacked :
    (kit : Kit) (t : Tree) (k : GoalId) (s : Side) (text : String) (o : CheckStepOptions)
    (w w' : World) (c : Certified)
    → IsHash kit.tools.sha256
    → IsRemembered kit w
    → check_step kit t k s text o w ≡ (w', done (certified c))
    → (g : Goal) × (here after : Hash) × (programs : Pair) × (workable t k ≡ ok g)
      × (head g s ≡ ok here)
      × (Store.get kit.tools w.disk here ≡ done programs.before)
      × ((v : World) × (keep kit text w ≡ (v, done after))
          × (Store.get kit.tools v.disk after ≡ done programs.after))
      × (programs.after ≢ programs.before)
      × IsStepBacked kit k g s programs o after c
unfolding check_step
check_step-IsStepBacked kit t k s text o w w' c hash i e =
    let (g, there, e1) = lift-then _ w (workable t k) e in
    let (here, of_side, e2) = lift-then _ w (head g s) e1 in
    let (before, got, e3) = fetch-then kit here _ w e2 in
    let (w1, after, kept, e4) = >>=-eq_done (keep kit text) _ w e3 in
    let (after_text, got', e5) = fetch-then kit after _ w1 e4 in
    let programs : Pair = record { before = before; after = after_text } in
    elim (Bool-cases (after_text == before)) [
      | inl y ↦ cc (give-eq_done _ w1 (rw y at e5))
      | inr n ↦ (
        g,
        here,
        after,
        programs,
        there,
        of_side,
        got,
        (w1, kept, got'),
        (λ same. cc (n, (eq_iff after_text before).1 same)),
        certify-IsStepBacked kit k g s programs o after hash _ w1
            (keep-Remembered kit k g s programs o after hash text w i kept)
            (without_solver-Backed kit (orient s before after_text)) (rw n at e5),
      )
    ]
