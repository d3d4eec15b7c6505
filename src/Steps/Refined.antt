-- ===== src/Steps/Refined.antt =====
-- engine/core/state/steps.ts and goals.ts together: where the checkers are right, checkGoal answers
-- effects that the goal tree is right to take.
use alive_next.Prelude.{
  ℕ, String, true, Option, none, some, List, ◌≡◌, sym, ◌∙◌, ap, subst, inl, inr, Bool-cases,
  some-eq, eq_iff, ◌==◌, ◌||◌, get_last?, if◌then◌else◌, All, Option-cases,
}
use alive_next.Prelude.Dict
use alive_next.Trajectory.{Hash, Side, src, tgt, By, Effect}
use alive_next.Goals.Types.{GoalId, Goal, Tree, split, refuted, not_open, ok, err, on, same_status}
use alive_next.Goals.Queries.{workable, head, find}
use alive_next.Goals.Restatus.{>>=-eq_ok, ok-injective, find-eq_ok}
use alive_next.Goals.Moved.{or_throw-eq_ok}
use alive_next.Goals.Claims.{Refinement, Claim, First}
use alive_next.Goals.Certified.{IsCertified}
use alive_next.Failure.{done, done-injective}
use alive_next.Drivers.{answer, ReshapedResult, RespectedResult, CheckResult, correct, incorrect}
use alive_next.Store
use alive_next.Store.{Disk, Tools}
use alive_next.Steps.{Kit, World, Pair}
use alive_next.Steps.Discharge.{CheckGoalResult, check_goal}
use alive_next.Steps.Questions.{IsHash}
use alive_next.Steps.Answers.{IsRemembered, Answered, Straight, Refuted}
use alive_next.Steps.Backing.{Backed}
use alive_next.Steps.Discharging.{IsOriginal, IsBacked, IsPairOf, check_goal-IsBacked}

-- What it is for the checkers to be right about refinement: alive-tv where it says correct of programs
-- that do not loop, or says incorrect, of those or with loops unrolled; and llops.
pub record AreRight (kit : Kit) : Type 1 where
  pub refines : String → String → Type 0
  pub same : (s : String) → refines s s
  pub through : (a b c : String) → refines a b → refines b c → refines a c
  pub checked :
      (pair : Pair) (c : CheckResult)
      → Answered kit pair none c
      → Straight kit pair
      → c.outcome ≡ correct
      → refines pair.before pair.after
  pub unchecked :
      (pair : Pair) (c : CheckResult)
      → Refuted kit pair c
      → c.outcome ≡ incorrect
      → refines pair.before pair.after
      → ⊥
  pub reshapes :
      (pair : Pair) (r : ReshapedResult)
      → kit.reshaped pair.before pair.after ≡ answer r
      → r.reshaped ≡ true
      → refines pair.before pair.after
  pub respects :
      (pair : Pair) (r : RespectedResult)
      → kit.respected pair.before pair.after ≡ answer r
      → r.respected ≡ true
      → refines pair.before pair.after

-- A goal that a move may touch is the tree's.
pub workable-eq_ok :
    (t : Tree) (k : GoalId) {g : Goal} → workable t k ≡ ok g → Dict.get t.goals k ≡ some g
unfolding workable
workable-eq_ok t k {g} e = let (y, found, kept) = >>=-eq_ok (find t k) _ e in same_goal y found kept
  where
    same_goal :
        (y : Goal)
        → find t k ≡ ok y
        → (if same_status y.status split || same_status y.status refuted
            then err (not_open k y.status)
            else ok y)
          ≡ ok g
        → Dict.get t.goals k ≡ some g
    same_goal y found kept =
        elim (Bool-cases (same_status y.status split || same_status y.status refuted)) [
          | inl b ↦ cc (rw b at kept)
          | inr b ↦ find-eq_ok t k found ∙ ap some (ok-injective (rw b at kept))
        ]

module _ (kit : Kit) (right : AreRight kit) where
  pub Backed-refines :
      (pair : Pair) (c : By) → Backed kit pair c → right.refines pair.before pair.after
  Backed-refines pair By.alive2 (inl same) =
      subst (right.refines pair.before) same (right.same pair.before)
  Backed-refines pair By.alive2 (inr (c, is, said, straight)) =
      right.checked pair c said straight is
  Backed-refines pair By.reshaped (r, said, is) = right.reshapes pair r said is
  Backed-refines pair By.respected (r, said, is) = right.respects pair r said is

  -- A program by its hash.
  module _ (text_of : Hash → String) (known : (s : String) → text_of (kit.tools.sha256 s) ≡ s) where
    -- The refinement of programs, by their hashes.
    abbrev pub by_hash : Refinement
    by_hash = record {
      refines = λ a b. right.refines (text_of a) (text_of b);
      same = λ h. right.same (text_of h);
      through = λ a b c x y. right.through (text_of a) (text_of b) (text_of c) x y;
    }

    pub get-text :
        (disk : Disk) (h : Hash) (text : String)
        → Store.get kit.tools disk h ≡ done text
        → text_of h ≡ text
    unfolding Store.get
    get-text disk h text e = elim (Option-cases (Dict.get disk.programs h)) [
      | inl n ↦ cc (rw (n, Store.get) at e)
      | inr (s, y) ↦ elim (Bool-cases (kit.tools.sha256 s == h)) [
        | inl b ↦
            ap text_of (sym ((eq_iff (kit.tools.sha256 s) h).0 b))
            ∙ known s
            ∙ done-injective (rw (y, b, Store.get) at e)
        | inr b ↦ cc (rw (y, b, Store.get) at e)
      ]
    ]

    -- The text of a goal's head is the one that the store holds.
    pub head-text :
        (g : Goal) (s : Side) (disk : Disk) (text : String)
        → (h : Hash) × (head g s ≡ ok h) × (Store.get kit.tools disk h ≡ done text)
        → (a : Hash) → get_last? (on g s).history ≡ some a
        → text_of a ≡ text
    unfolding head
    head-text g s disk text (h, is, got) a last =
        subst (λ v. text_of v ≡ text) (some-eq (sym (or_throw-eq_ok _ _ is) ∙ last))
          (get-text disk h text got)

    head-now : (g : Goal) (s : Side) (a h : Hash) → head g s ≡ ok a → head g s ≡ ok h → a ≡ h
    head-now g s a h e f = ok-injective (sym e ∙ f)

    module _ (w : World) (t : Tree) (k : GoalId) (g : Goal) (pair : Pair)
        (is : IsPairOf kit w t k g pair) where
      pair-Claim : right.refines pair.before pair.after → Claim by_hash g
      pair-Claim holds s q at_src at_tgt =
          subst (λ v. right.refines v (text_of q))
            (sym (head-text g src w.disk pair.before is.src_is s at_src))
            (subst (right.refines pair.before)
              (sym (head-text g tgt w.disk pair.after is.tgt_is q at_tgt)) holds)

      -- Where neither side has moved, the first pair is the one that was checked.
      first-pair : IsOriginal t k g → First by_hash g → right.refines pair.before pair.after
      first-pair first holds =
          let (s, now_src, at_src) = first.src_first in
          let (q, now_tgt, at_tgt) = first.tgt_first in
          let (a, of_src, got) = is.src_is in
          let (b, of_tgt, got') = is.tgt_is in
          subst (λ v. right.refines v pair.after)
            (ap text_of (head-now g src s a now_src of_src) ∙ get-text w.disk a pair.before got)
            (subst (right.refines (text_of s))
              (ap text_of (head-now g tgt q b now_tgt of_tgt) ∙ get-text w.disk b pair.after got')
              (holds s q at_src at_tgt))

      one-goal : (x : Goal) → Dict.get t.goals k ≡ some x → g ≡ x
      one-goal x there = some-eq (sym (workable-eq_ok t k is.goal) ∙ there)

      backed-IsCertified :
          (es : List Effect) → IsBacked kit t k g pair es → All (IsCertified by_hash t) es
      backed-IsCertified es (inl no_effect) = subst (All (IsCertified by_hash t)) (sym no_effect) tt
      backed-IsCertified es (inr (inl (c, one, said))) =
          subst (All (IsCertified by_hash t)) (sym one) (
            (λ x there.
                subst (Claim by_hash) (one-goal x there) (pair-Claim (Backed-refines pair c said))),
            tt,
          )
      backed-IsCertified es (inr (inr (one, first, said))) =
          subst (All (IsCertified by_hash t)) (sym one) (
            (λ x there holds.
                let (c, wrong, refuted_it) = said in
                right.unchecked pair c refuted_it wrong
                  (first-pair first (subst (First by_hash) (sym (one-goal x there)) holds))),
            tt,
          )

-- Where the checkers are right, what a check of a goal answers is what the tree is right to take: that
-- the goal is proved, where its heads refine, or refuted, where the programs that it started with do
-- not. The checkers are alive-tv, on programs that do not loop or, to refute, with loops unrolled, and
-- llops.
pub check_goal-IsCertified :
    (kit : Kit) (right : AreRight kit) (text_of : Hash → String)
    (known : (s : String) → text_of (kit.tools.sha256 s) ≡ s) (t : Tree) (k : GoalId)
    (ms u : Option ℕ) (w w' : World) (r : CheckGoalResult)
    → IsHash kit.tools.sha256
    → IsRemembered kit w
    → check_goal kit t k ms u w ≡ (w', done r)
    → All (IsCertified (by_hash kit right text_of known) t) r.effects
check_goal-IsCertified kit right text_of known t k ms u w w' r hash i e =
    let (g, pair, is, backed) = check_goal-IsBacked kit t k ms u w w' r hash i e in
    backed-IsCertified kit right text_of known w t k g pair is r.effects backed
