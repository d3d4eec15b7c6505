-- ===== src/Steps/Again.antt =====
-- engine/core/state/steps.ts: a question that alive2 has decided is not put to alive-tv again.
use alive_next.Prelude.{
  ℕ, String, Bool, true, false, Option, none, some, ◌≡◌, refl, sym, ◌∙◌, ap, subst, inl, inr,
  Option-cases, Bool-cases, ◌==◌,
}
use alive_next.Prelude.Dict
use alive_next.Prelude.Dict.{get-set_self, get-set_ne, str_cases}
use alive_next.Failure.{Attempt, thrown, done, done-injective}
use alive_next.Drivers.{CheckResult}
use alive_next.Steps.{Kit, World, Pair, give, then_run, ◌>>=◌, >>=-eq_done, question, unasked}
use alive_next.Steps.Ask.{
  loops, unless, either_loops, is_decided, is_cyclic, recalled, checked, ask, ask_unless_loops,
  alive2,
}
use alive_next.Steps.Runs.{give-eq_done}

recalled-decided : (c : CheckResult) → is_decided c.outcome ≡ true → recalled (some c) ≡ some c
unfolding recalled
recalled-decided c d = rw d refl

checked-known :
    (w : World) (key : String) (r : Attempt CheckResult) {w' : World} {c : CheckResult}
    → checked w key r ≡ (w', done c)
    → (Dict.get w'.history key ≡ some c) × (w'.looping ≡ w.looping)
unfolding checked
checked-known w key (thrown f) e = cc (ap (λ p. p.1) e)
checked-known w key (done x) {w'} {c} e = (
  ap (λ (v : World). Dict.get v.history key) (sym (ap (λ p. p.0) e))
      ∙ get-set_self w.history key x
      ∙ ap some (done-injective (ap (λ p. p.1) e)),
  ap (λ (v : World). v.looping) (sym (ap (λ p. p.0) e)),
)

module _ (kit : Kit) where
  known-loops :
      (text : String) (b : Bool) (v : World)
      → Dict.get v.looping (kit.tools.sha256 text) ≡ some b
      → loops kit text v ≡ (v, done b)
  unfolding loops
  known-loops text b v e = rw (e, loops) refl

  -- What `loops` finds it keeps, and what was kept stays.
  loops-known :
      (text : String) (w : World) {w' : World} {b : Bool}
      → loops kit text w ≡ (w', done b)
      → (Dict.get w'.looping (kit.tools.sha256 text) ≡ some b)
        × ((key : String) (c : Bool)
            → Dict.get w.looping key ≡ some c
            → Dict.get w'.looping key ≡ some c)
  unfolding loops
  loops-known text w {w'} {b} e = elim (Option-cases (Dict.get w.looping (kit.tools.sha256 text))) [
    | inr (known, y) ↦
        let same = rw (y, loops) at e in
        (
          ap (λ (v : World). Dict.get v.looping (kit.tools.sha256 text)) (sym (ap (λ p. p.0) same))
              ∙ y
              ∙ ap some (done-injective (ap (λ p. p.1) same)),
          (λ key c h.
              subst (λ (v : World). Dict.get v.looping key ≡ some c) (ap (λ p. p.0) same) h),
        )
    | inl n ↦
        let same = rw (n, loops) at e in
        let found = is_cyclic (kit.validate text) in
        (
          ap (λ (v : World). Dict.get v.looping (kit.tools.sha256 text)) (sym (ap (λ p. p.0) same))
              ∙ get-set_self w.looping (kit.tools.sha256 text) found
              ∙ ap some (done-injective (ap (λ p. p.1) same)),
          (λ key c h.
              subst (λ (v : World). Dict.get v.looping key ≡ some c) (ap (λ p. p.0) same)
                (get-set_ne w.looping (kit.tools.sha256 text) key found
                    (λ here. cc (n, h, ap (Dict.get w.looping) here))
                  ∙ h)),
        )
  ]

  -- Whether a pair loops is found again, with nothing changed.
  either_loops-again :
      (pair : Pair) (w v : World) {w' : World} {b : Bool}
      → either_loops kit pair w ≡ (w', done b)
      → v.looping ≡ w'.looping
      → either_loops kit pair v ≡ (v, done b)
  unfolding either_loops ◌>>=◌ give
  either_loops-again pair w v {w'} {b} e same =
      let (w1, first, e1, e2) = >>=-eq_done (loops kit pair.before) _ w e in
      let (known, _) = loops-known pair.before w e1 in go first w1 known e2
    where
      at_first :
          (first : Bool)
          → Dict.get w'.looping (kit.tools.sha256 pair.before) ≡ some first
          → either_loops kit pair v ≡ unless first (loops kit pair.after) v
      at_first first known =
          ap (λ r. then_run r (λ x. unless x (loops kit pair.after)))
            (known-loops pair.before first v (
              subst (λ d. Dict.get d (kit.tools.sha256 pair.before) ≡ some first) (sym same) known))

      go :
          (first : Bool) (w1 : World)
          → Dict.get w1.looping (kit.tools.sha256 pair.before) ≡ some first
          → unless first (loops kit pair.after) w1 ≡ (w', done b)
          → either_loops kit pair v ≡ (v, done b)
      go true w1 known e2 =
          let now : w1 ≡ w' = ap (λ p. p.0) e2 in
          at_first true (
            subst (λ (x : World). Dict.get x.looping (kit.tools.sha256 pair.before) ≡ some true) now
              known)
          ∙ ap (λ (x : Bool). (v, done x)) (give-eq_done true w1 e2)
      go false w1 known e2 =
          let (second, stays) = loops-known pair.after w1 e2 in
          at_first false (stays _ false known)
          ∙ known-loops pair.after b v
              (subst (λ d. Dict.get d (kit.tools.sha256 pair.after) ≡ some b) (sym same) second)

  -- An answer that decides is recalled, whatever the budget of the next call.
  ask-again :
      (pair : Pair) (ms ms' : ℕ) (u : Option ℕ) (w : World) {w' : World} {c : CheckResult}
      → ask kit pair ms u w ≡ (w', done c)
      → is_decided c.outcome ≡ true
      → (ask kit pair ms' u w' ≡ (w', done c)) × (w'.looping ≡ w.looping)
  unfolding ask
  ask-again pair ms ms' u w {w'} {c} e d =
      elim (Option-cases (recalled (Dict.get w.history (question kit pair u)))) [
        | inr (known, y) ↦
            let same = rw (y, ask) at e in
            let now : w ≡ w' = ap (λ p. p.0) same in
            let is : known ≡ c = done-injective (ap (λ p. p.1) same) in
            (
              again (
                  subst
                    (λ (x : World). recalled (Dict.get x.history (question kit pair u)) ≡ some c)
                    now (y ∙ ap some is)),
              ap (λ (x : World). x.looping) (sym now),
            )
        | inl n ↦
            let (known, kept) = checked-known w (question kit pair u) _ (rw (n, ask) at e) in
            (again (ap recalled known ∙ recalled-decided c d), kept)
      ]
    where
      again :
          recalled (Dict.get w'.history (question kit pair u)) ≡ some c
          → ask kit pair ms' u w' ≡ (w', done c)
      again y = rw (y, ask) refl

  unless_loops-again :
      (pair : Pair) (ms ms' : ℕ) (u : Option ℕ) (b : Bool) (w : World) {w' : World}
      {c : CheckResult}
      → ask_unless_loops kit pair ms u b w ≡ (w', done c)
      → is_decided c.outcome ≡ true
      → (ask_unless_loops kit pair ms' u b w' ≡ (w', done c)) × (w'.looping ≡ w.looping)
  unfolding ask_unless_loops unasked
  unless_loops-again pair ms ms' none true w {w'} {c} e d =
      cc (subst (λ (x : CheckResult). is_decided x.outcome ≡ true) (sym (give-eq_done _ w e)) d)
  unless_loops-again pair ms ms' none false w e d = ask-again pair ms ms' none w e d
  unless_loops-again pair ms ms' (some n) true w e d = ask-again pair ms ms' (some n) w e d
  unless_loops-again pair ms ms' (some n) false w e d = ask-again pair ms ms' (some n) w e d

-- A question that alive2 has decided, correct or incorrect, is answered the same when it is put again,
-- on any budget, with nothing changed: alive-tv is not run again.
pub alive2-again :
    (kit : Kit) (pair : Pair) (ms ms' : ℕ) (u : Option ℕ) (w w' : World) (c : CheckResult)
    → alive2 kit pair ms u w ≡ (w', done c)
    → is_decided c.outcome ≡ true
    → alive2 kit pair ms' u w' ≡ (w', done c)
unfolding alive2 ◌>>=◌ give
alive2-again kit pair ms ms' u w w' c e d = elim (Bool-cases (pair.before == pair.after)) [
  | inl y ↦
      rw (y, alive2)
        (ap (λ (x : CheckResult). (w', done x)) (give-eq_done _ w (rw (y, alive2) at e)))
  | inr n ↦
      let (w1, b, e1, e2) = >>=-eq_done (either_loops kit pair) _ w (rw (n, alive2) at e) in
      let (asked, kept) = unless_loops-again kit pair ms ms' u b w1 e2 d in
      rw (n, alive2)
        (ap (λ r. then_run r (ask_unless_loops kit pair ms' u))
            (either_loops-again kit pair w w' e1 kept)
          ∙ asked)
]
