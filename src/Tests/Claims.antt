-- ===== src/Tests/Claims.antt =====
-- The verdict of engine/core/state/goals.ts on short logs, over a refinement of programs by the length
-- of their names.
use alive_next.Prelude.{
  ◌≤◌, Option, none, some, List, [], ◌∷◌, ◌≡◌, ◌≢◌, refl, subst, sym, ◌∙◌, arith, some-eq,
  get_last?, head?,
}
use alive_next.Prelude.Dict
use alive_next.Trajectory.{
  Hash, Side, By, Effect, Entry, Event, StartEvent, step, proved, refuted, start, tool_result,
  check,
}
use alive_next.Goals.Types.{Goal, Tree, Result, ok, err}
use alive_next.Goals.Queries.{verdict, find}
use alive_next.Goals.Moves.{editable, put, name}
use alive_next.Goals.Derive.{
  derive, derive_event, apply, apply_step, apply_proved, apply_refuted, start_tree,
}
use alive_next.Goals.Restatus.{ok-injective}
use alive_next.Goals.Replay.{Plays, PlaysAll}
use alive_next.Goals.Claims.{Refinement, Claim, First}
use alive_next.Goals.Earned.{IsMove}
use alive_next.Goals.Certified.{IsCertifiedNext}
use alive_next.Goals.Right.{derive-verified_run, derive-counterexample_run}
use alive_next.Steps.Questions.{chars}

longer : Refinement
longer = record {
  refines = λ a b. chars a ≤ chars b;
  same = λ h. omega arith;
  through = λ a b c x y. omega arith;
}

abbrev begins : StartEvent
begins = record { src = "h"; tgt = "huuu"; config = "{}"; toolchain = none; versions = [] }

abbrev run : Event
run = start begins

abbrev run_entry : Entry
run_entry = record { event = run; time = 0; prev = "" }

abbrev moved : Side → Hash → Effect
moved side to = step (record {
  gid = "g1";
  side = side;
  to = to;
  how = check;
  by = some By.alive2;
  rules = none;
  invocation = none;
  window = none;
})

abbrev did : List Effect → Entry
did es = record { event = tool_result "1" "t" (some es) "" 1; time = 0; prev = "" }

abbrev log : List Effect → List Entry
log es = run_entry ∷ did es ∷ []

abbrev else_start : Result Tree → Tree
else_start (ok t) = t
else_start (err e) = start_tree "h" "huuu"

abbrev begun : Tree
begun = start_tree "h" "huuu"

-- A step of the src, and a discharge.
abbrev proving : List Effect
proving = moved Side.src "hu" ∷ proved "g1" (some By.alive2) ∷ []

stepped : Tree
stepped = else_start (apply begun (moved Side.src "hu"))

verified_tree : Tree
verified_tree = else_start (derive (log proving))

root_of : Tree → Option Goal
root_of t = Dict.get t.goals "g1"

moved-is : apply begun (moved Side.src "hu") ≡ ok stepped
unfolding stepped apply start_tree Dict.get Dict.set Dict.empty name apply_step editable put find
moved-is = refl

begun-IsMove : IsMove longer begun (record {
  gid = "g1";
  side = Side.src;
  to = "hu";
  how = check;
  by = some By.alive2;
  rules = none;
  invocation = none;
  window = none;
})
unfolding longer start_tree Dict.get Dict.set Dict.empty name
begun-IsMove g a held last =
    subst (λ x. chars x ≤ 2)
      (some-eq (subst (λ (y : Goal). get_last? y.src.history ≡ some a) (sym (some-eq held)) last))
      (omega arith)

stepped-Claim : (g : Goal) → Dict.get stepped.goals "g1" ≡ some g → Claim longer g
unfolding longer stepped apply start_tree Dict.get Dict.set Dict.empty name apply_step editable put
    find
stepped-Claim g held s q at_src at_tgt =
    let one : "hu" ≡ s =
      some-eq
        (subst (λ (y : Goal). get_last? y.src.history ≡ some s) (sym (some-eq held)) at_src) in
    let two : "huuu" ≡ q =
      some-eq
        (subst (λ (y : Goal). get_last? y.tgt.history ≡ some q) (sym (some-eq held)) at_tgt) in
    subst (λ x. chars x ≤ chars q) one (subst (λ x. 2 ≤ chars x) two (omega arith))

proving-Plays : Plays (IsCertifiedNext longer) (some begun) proving
proving-Plays = (
  (tt, begun-IsMove),
  λ v f.
      subst
        (λ (t : Tree). Plays (IsCertifiedNext longer) (some t) (proved "g1" (some By.alive2) ∷ []))
        (ok-injective (sym moved-is ∙ f)) ((tt, stepped-Claim), λ v f. tt),
)

log-Plays :
    (r : Refinement) (es : List Effect)
    → Plays (IsCertifiedNext r) (some begun) es
    → PlaysAll (IsCertifiedNext r) none (log es)
unfolding derive_event
log-Plays r es plays = (
  tt,
  λ u e.
      subst (λ v. PlaysAll (IsCertifiedNext r) v (did es ∷ [])) (ok-injective e) (plays, λ v f. tt),
)

derive-verified_run_example : chars "h" ≤ chars "huuu"
unfolding longer derive apply apply_step Dict.get Dict.empty Dict.set apply_proved verdict
    verified_tree
derive-verified_run_example =
    derive-verified_run longer run_entry (did proving ∷ []) begins verified_tree refl
      (log-Plays longer proving proving-Plays) refl refl

-- A refinement of a program by itself alone.
equal : Refinement
equal = record { refines = λ a b. a ≡ b; same = λ h. refl; through = λ a b c x y. x ∙ y }

refuting : List Effect
refuting = refuted "g1" ∷ []

refuted_tree : Tree
refuted_tree = else_start (derive (log refuting))

refuting-Plays : Plays (IsCertifiedNext equal) (some begun) refuting
unfolding refuting equal start_tree Dict.get Dict.set Dict.empty name
refuting-Plays = ((tt, not_first), λ v f. tt)
  where
    differ : ◌≢◌ {A = Hash} "h" "huuu"
    differ e = cc (e)

    not_first : (g : Goal) → Dict.get begun.goals "g1" ≡ some g → First equal g → ⊥
    not_first g held first = differ (
        first "h" "huuu" (subst (λ (y : Goal). head? y.src.history ≡ some "h") (some-eq held) refl)
          (subst (λ (y : Goal). head? y.tgt.history ≡ some "huuu") (some-eq held) refl))

-- The two programs of the run are not the same.
derive-counterexample_run_example : ◌≢◌ {A = Hash} "h" "huuu"
unfolding refuted_tree refuting equal derive apply apply_refuted Dict.get Dict.empty Dict.set
    verdict
derive-counterexample_run_example =
    derive-counterexample_run equal run_entry (did refuting ∷ []) begins refuted_tree refl
      (log-Plays equal refuting refuting-Plays) refl refl
