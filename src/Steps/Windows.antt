-- ===== src/Steps/Windows.antt =====
-- engine/core/state/steps.ts: what stands behind a window that proves a step, with preconditions or
-- without.
use alive_next.Prelude.{
  ℕ, String, Bool, true, false, Option, none, some, List, [], ◌≡◌, refl, subst, arith, ◌⊎◌, inl,
  inr, Bool-cases, some-eq, length, nat_eq, ◌==◌, if◌then◌else◌,
}
use alive_next.Trajectory.{Side, Attrs, Predicate}
use alive_next.Failure.{done}
use alive_next.Drivers.{
  LlopsResult, answer, refusal, ModuleResult, before_calls, CheckResult, CheckOutcome, correct,
  incorrect, unknown, error,
}
use alive_next.Steps.{Kit, World, give, >>=-eq_done, orient, loops_detail}
use alive_next.Steps.Ask.{is_correct, alive2}
use alive_next.Steps.Conditioned.{
  Narrowed, Conditioned, checked, refused, Halves, halves, cannot, assertions, with_attrs,
  with_predicates, check_halves, check_inlined, check_assumed, check_mapped, of_side,
  try_conditioned_window, why_not_shown,
}
use alive_next.Steps.Params.{param_named, map_facts, all_over}
use alive_next.Steps.Certify.{
  CheckStepOptions, or_nil, wants_conditions, Local, condition, ask_window, settled_by, local_if,
  proved_locally,
}
use alive_next.Steps.Questions.{IsHash}
use alive_next.Steps.Stable.{alive2-Keeps}
use alive_next.Steps.Answers.{IsRemembered, IsRemembered-IsStable, Shown, alive2-Shown}
use alive_next.Steps.Runs.{give-eq_done}

-- A window under preconditions: they hold where the window is entered, as alive2 said of the whole
-- with them assumed there, and alive2 said of the halves with them assumed that the step is correct.
pub record HoldsUnder (kit : Kit) (s : Side) (whole : String) (n : Narrowed)
    (facts : List (ℕ × Attrs)) (ps : List Predicate) : Type 0 where
  pub assumed : ModuleResult
  pub inlined : ModuleResult
  pub assumes : kit.assume n.outer (before_calls n.callee) (assertions facts ps) ≡ answer assumed
  pub inlines :
      kit.inline_in assumed.module_text (of_side s n.before n.after) n.callee ≡ answer inlined
  pub entered : Shown kit (record { before = whole; after = inlined.module_text })
  pub from : String
  pub to : String
  pub conditioned :
      with_predicates kit n.callee ps (with_attrs kit n.callee facts (halves n.before n.after))
      ≡ halves from to
  pub proved : Shown kit (orient s from to)

abbrev pub IfCorrect : Kit → Side → String → Narrowed → Conditioned → Type 0
IfCorrect kit s whole n (checked c facts ps) =
    c.outcome ≡ correct → HoldsUnder kit s whole n facts ps
IfCorrect kit s whole n (refused reason) = Unit {0}

why_not_shown-IfCorrect :
    (kit : Kit) (s : Side) (whole : String) (n : Narrowed) (c : CheckResult)
    → IfCorrect kit s whole n (why_not_shown c)
unfolding why_not_shown
why_not_shown-IfCorrect kit s whole n c = elim (Bool-cases (c.detail == loops_detail)) [
  | inl y ↦ rw (y, why_not_shown) tt
  | inr m ↦ rw (m, why_not_shown) tt
]

pub is_correct-eq : (o : CheckOutcome) → is_correct o ≡ true → o ≡ correct
is_correct-eq o e = ground arith

module _ (kit : Kit) (hash : IsHash kit.tools.sha256) (s : Side) (whole : String) (n : Narrowed)
    (facts : List (ℕ × Attrs)) where
  check_halves-IfCorrect :
      (ps : List Predicate) (h : Halves) (w : World) {w' : World} {c : Conditioned}
      → IsRemembered kit w
      → ((from to : String)
          → h ≡ halves from to
          → Shown kit (orient s from to)
          → HoldsUnder kit s whole n facts ps)
      → check_halves kit s facts ps h w ≡ (w', done c)
      → IfCorrect kit s whole n c
  unfolding check_halves
  check_halves-IfCorrect ps (cannot reason) w i made e =
      subst (IfCorrect kit s whole n) (give-eq_done _ w e) tt
  check_halves-IfCorrect ps (halves from to) w i made e =
      let (w1, c, first, rest) = >>=-eq_done _ _ w e in
      subst (IfCorrect kit s whole n) (give-eq_done _ w1 rest)
        λ right. made from to refl (alive2-Shown kit (orient s from to) _ w hash i first right)

  -- The end of phase 1, by whether alive2 showed the facts to hold.
  entered-IfCorrect :
      (ps : List Predicate) (assumed inlined : ModuleResult) (check : CheckResult) (b : Bool)
      (w : World) {w' : World} {c : Conditioned}
      → IsRemembered kit w
      → kit.assume n.outer (before_calls n.callee) (assertions facts ps) ≡ answer assumed
      → kit.inline_in assumed.module_text (of_side s n.before n.after) n.callee ≡ answer inlined
      → (b ≡ true → Shown kit (record { before = whole; after = inlined.module_text }))
      → (if b
            then check_halves kit s facts ps (
                with_predicates kit n.callee ps
                  (with_attrs kit n.callee facts (halves n.before n.after)))
            else give (why_not_shown check))
          w
        ≡ (w', done c)
      → IfCorrect kit s whole n c
  entered-IfCorrect ps assumed inlined check true w i assumes inlines entered e =
      check_halves-IfCorrect ps _ w i
        (λ from to same shown. record {
          assumed = assumed;
          inlined = inlined;
          assumes = assumes;
          inlines = inlines;
          entered = entered refl;
          from = from;
          to = to;
          conditioned = same;
          proved = shown;
        })
        e
  entered-IfCorrect ps assumed inlined check false w i assumes inlines entered e =
      subst (IfCorrect kit s whole n) (give-eq_done _ w e)
        (why_not_shown-IfCorrect kit s whole n check)

  check_inlined-IfCorrect :
      (ps : List Predicate) (assumed : ModuleResult) (r : LlopsResult ModuleResult) (w : World)
      {w' : World} {c : Conditioned}
      → IsRemembered kit w
      → kit.assume n.outer (before_calls n.callee) (assertions facts ps) ≡ answer assumed
      → kit.inline_in assumed.module_text (of_side s n.before n.after) n.callee ≡ r
      → check_inlined kit s whole n facts ps r w ≡ (w', done c)
      → IfCorrect kit s whole n c
  unfolding check_inlined
  check_inlined-IfCorrect ps assumed (refusal code message) w i assumes is e =
      subst (IfCorrect kit s whole n) (give-eq_done _ w e) tt
  check_inlined-IfCorrect ps assumed (answer r) w i assumes is e =
      let (w1, c, first, rest) = >>=-eq_done (alive2 kit _ _ none) _ w e in
      entered-IfCorrect ps assumed r c (is_correct c.outcome) w1
        (subst (λ p. IsRemembered kit p.0) first
          ((alive2-Keeps kit (IsRemembered kit) (IsRemembered-IsStable kit) _ _ none).run w i))
        assumes is (λ right. alive2-Shown kit _ _ w hash i first (is_correct-eq c.outcome right))
        rest

  check_assumed-IfCorrect :
      (ps : List Predicate) (r : LlopsResult ModuleResult) (w : World) {w' : World}
      {c : Conditioned}
      → IsRemembered kit w
      → kit.assume n.outer (before_calls n.callee) (assertions facts ps) ≡ r
      → check_assumed kit s whole n facts ps r w ≡ (w', done c)
      → IfCorrect kit s whole n c
  unfolding check_assumed
  check_assumed-IfCorrect ps (refusal code message) w i is e =
      subst (IfCorrect kit s whole n) (give-eq_done _ w e) tt
  check_assumed-IfCorrect ps (answer r) w i is e = check_inlined-IfCorrect ps r _ w i is refl e

  pub check_mapped-IfCorrect :
      (asked : ℕ) (ps : Option (List Predicate)) (w : World) {w' : World} {c : Conditioned}
      → IsRemembered kit w
      → check_mapped kit s whole n asked facts ps w ≡ (w', done c)
      → IfCorrect kit s whole n c
  unfolding check_mapped
  check_mapped-IfCorrect asked none w i e = subst (IfCorrect kit s whole n) (give-eq_done _ w e) tt
  check_mapped-IfCorrect asked (some ps) w {w'} {c} i e = go (nat_eq (length facts) asked) e
    where
      go :
          (b : Bool)
          → (if b
                then check_assumed kit s whole n facts ps
                    (kit.assume n.outer (before_calls n.callee) (assertions facts ps))
                else give (refused "some preconditions do not name a value of the window"))
              w
            ≡ (w', done c)
          → IfCorrect kit s whole n c
      go true end = check_assumed-IfCorrect ps _ w i refl end
      go false end = subst (IfCorrect kit s whole n) (give-eq_done _ w end) tt

-- What is behind an answer that a window is correct: that of the plain window, with no preconditions,
-- or that it holds under them.
abbrev pub LocallyShown : Kit → Side → String → Narrowed → Local → Type 0
LocallyShown kit s whole n l =
    ((l.preconditions ≡ []) × (l.predicates ≡ []) × Shown kit (orient s n.before n.after))
    ⊎ HoldsUnder kit s whole n l.preconditions l.predicates

abbrev pub IfProved : Kit → Side → String → Option Narrowed → Option Local → Type 0
IfProved kit s whole (some n) (some l) = l.check.outcome ≡ correct → LocallyShown kit s whole n l
IfProved kit s whole none (some l) = ⊥
IfProved kit s whole n none = Unit {0}

abbrev pub IfTried : Kit → Side → String → Option Narrowed → Option Conditioned → Type 0
IfTried kit s whole (some n) (some c) = IfCorrect kit s whole n c
IfTried kit s whole none (some c) = ⊥
IfTried kit s whole n none = Unit {0}

local_if-IfProved :
    (kit : Kit) (s : Side) (whole : String) (n : Narrowed) (c : CheckResult) (o : CheckOutcome)
    (facts : List (ℕ × Attrs)) (ps : List Predicate)
    → c.outcome ≡ o
    → (o ≡ correct → HoldsUnder kit s whole n facts ps)
    → IfProved kit s whole (some n) (local_if o c facts ps)
local_if-IfProved kit s whole n c correct facts ps same holds = λ right. inr (holds refl)
local_if-IfProved kit s whole n c incorrect facts ps same holds = λ right. cc (same, right)
local_if-IfProved kit s whole n c unknown facts ps same holds = tt
local_if-IfProved kit s whole n c error facts ps same holds = tt

pub settled_by-IfProved :
    (kit : Kit) (s : Side) (whole : String) (n : Option Narrowed) (c : Option Conditioned)
    → IfTried kit s whole n c
    → IfProved kit s whole n (settled_by c)
unfolding settled_by
settled_by-IfProved kit s whole none none h = tt
settled_by-IfProved kit s whole (some n) none h = tt
settled_by-IfProved kit s whole none (some c) h = elim h [ ]
settled_by-IfProved kit s whole (some n) (some (refused reason)) h = tt
settled_by-IfProved kit s whole (some n) (some (checked c facts ps)) h =
    local_if-IfProved kit s whole n c c.outcome facts ps refl h

module _ (kit : Kit) (hash : IsHash kit.tools.sha256) (s : Side) (before after : String) where
  try-IfCorrect :
      (n : Narrowed) (pre : List (String × Attrs)) (ps : List Predicate) (w : World) {w' : World}
      {c : Conditioned}
      → IsRemembered kit w
      → try_conditioned_window kit before after n pre ps s w ≡ (w', done c)
      → IfCorrect kit s (of_side s before after) n c
  unfolding try_conditioned_window
  try-IfCorrect n pre ps w i e =
      let param_of = param_named (kit.number before) (kit.number n.outer) n.params in
      check_mapped-IfCorrect kit hash s (of_side s before after) n (map_facts param_of [] pre)
        (length pre) (all_over param_of ps) w i e

  pub condition-IfTried :
      (o : CheckStepOptions) (n : Option Narrowed) (w : World) {w' : World} {c : Option Conditioned}
      → IsRemembered kit w
      → condition kit before after o s n w ≡ (w', done c)
      → IfTried kit s (of_side s before after) n c
  unfolding condition
  condition-IfTried o none w i e =
      subst (IfTried kit s (of_side s before after) none) (give-eq_done _ w e) tt
  condition-IfTried o (some n) w {w'} {c} i e = elim (Bool-cases (wants_conditions o)) [
    | inr m ↦
        subst (IfTried kit s (of_side s before after) (some n))
          (give-eq_done _ w (rw (m, condition) at e)) tt
    | inl y ↦
        let (w1, tried, first, rest) = >>=-eq_done _ _ w (rw (y, condition) at e) in
        subst (IfTried kit s (of_side s before after) (some n)) (give-eq_done _ w1 rest)
          (try-IfCorrect n (or_nil o.preconditions) (or_nil o.predicates) w i first)
  ]

  -- What the window's answer has behind it, preconditioned or plain.
  pub ask_window-IfProved :
      (n : Option Narrowed) (l : Option Local) (w : World) {w' : World} {l' : Option Local}
      → IsRemembered kit w
      → IfProved kit s (of_side s before after) n l
      → ask_window kit s n l w ≡ (w', done l')
      → IfProved kit s (of_side s before after) n l'
  unfolding ask_window
  ask_window-IfProved n (some l) w i settled e =
      subst (IfProved kit s (of_side s before after) n) (give-eq_done _ w e) settled
  ask_window-IfProved none none w i settled e =
      subst (IfProved kit s (of_side s before after) none) (give-eq_done _ w e) tt
  ask_window-IfProved (some n) none w i settled e =
      let (w1, c, first, rest) = >>=-eq_done _ _ w e in
      subst (IfProved kit s (of_side s before after) (some n)) (give-eq_done _ w1 rest)
        λ right. inl (refl, refl, alive2-Shown kit _ _ w hash i first right)

pub proved_locally-eq_some :
    (kit : Kit) (s : Side) (whole : String) (n : Option Narrowed) (l : Option Local) {l' : Local}
    → IfProved kit s whole n l
    → proved_locally l ≡ some l'
    → (l'.check.outcome ≡ correct) × IfProved kit s whole n (some l')
proved_locally-eq_some kit s whole n none h e = cc (e)
proved_locally-eq_some kit s whole n (some l) {l'} h e =
    elim (Bool-cases (is_correct l.check.outcome)) [
      | inr m ↦ cc (rw (m, proved_locally) at e)
      | inl y ↦
          subst (λ x. (x.check.outcome ≡ correct) × IfProved kit s whole n (some x))
            (some-eq (rw (y, proved_locally) at e)) (is_correct-eq l.check.outcome y, h)
    ]
