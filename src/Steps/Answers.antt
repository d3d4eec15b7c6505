-- ===== src/Steps/Answers.antt =====
-- engine/core/state/steps.ts: what is kept in `history` and `looping` was answered, and an answer of
-- alive2 has alive-tv's behind it, or one program on both sides.
use alive_next.Prelude.{
  ℕ, String, Bool, true, false, Option, none, some, ◌≡◌, refl, sym, ◌∙◌, ap, subst, arith, ◌⊎◌, inl,
  inr, Bool-cases, Option-cases, eq_iff, ◌==◌, ◌≢◌,
}
use alive_next.Prelude.Dict
use alive_next.Prelude.Dict.{get-set_cases}
use alive_next.Failure.{Attempt, thrown, done, done-injective}
use alive_next.Drivers.{CheckResult, correct, incorrect, error}
use alive_next.Steps.{Kit, World, give, >>=-eq_done, Pair, question, flags_for, join_parts, unasked}
use alive_next.Steps.Ask.{
  is_cyclic, loops, unless, either_loops, recalled, checked, ask, ask_unless_loops, alive2,
}
use alive_next.Steps.Questions.{IsHash, question-pair, flags-none}
use alive_next.Steps.Stable.{IsStable, loops-Keeps, either_loops-Keeps}

-- alive-tv gave this answer on the pair once.
abbrev pub Answered : Kit → Pair → Option ℕ → CheckResult → Type 0
Answered kit pair unroll c =
    (n ms : ℕ) × (kit.check n pair.before pair.after ms (flags_for unroll) ≡ done c)

-- Every answer that is kept was given to its question, and what is kept of loops is so.
pub record IsRemembered (kit : Kit) (w : World) : Type 0 where
  pub asked :
      (key : String) (c : CheckResult)
      → Dict.get w.history key ≡ some c
      → (pair : Pair) × (u : Option ℕ) × (key ≡ question kit pair u) × Answered kit pair u c
  pub looped :
      (key : String) (b : Bool)
      → Dict.get w.looping key ≡ some b
      → (text : String) × (key ≡ kit.tools.sha256 text) × (b ≡ is_cyclic (kit.validate text))

checked-IsRemembered :
    (kit : Kit) (pair : Pair) (u : Option ℕ) (ms : ℕ) (w : World) (r : Attempt CheckResult)
    → kit.check w.asked pair.before pair.after ms (flags_for u) ≡ r
    → IsRemembered kit w
    → IsRemembered kit (checked w (question kit pair u) r).0
unfolding checked
checked-IsRemembered kit pair u ms w (thrown f) e i = record { asked = i.asked; looped = i.looped }
checked-IsRemembered kit pair u ms w (done c) e i = record {
  asked = λ key d held. elim (get-set_cases w.history (question kit pair u) key c d held) [
    | inl (same, value) ↦ (
      pair,
      u,
      sym same,
      (
        w.asked,
        ms,
        subst (λ x. kit.check w.asked pair.before pair.after ms (flags_for u) ≡ done x) value e,
      ),
    )
    | inr (_, before) ↦ i.asked key d before
  ];
  looped = i.looped;
}

-- That what is kept was answered is stable.
pub IsRemembered-IsStable : (kit : Kit) → IsStable kit (IsRemembered kit)
IsRemembered-IsStable kit = record {
  stored = λ w d i. record { asked = i.asked; looped = i.looped };
  looped = λ w text i. record {
    asked = i.asked;
    looped = λ key b held.
        elim (get-set_cases w.looping (kit.tools.sha256 text) key (is_cyclic (kit.validate text)) b
          held) [
            | inl (same, value) ↦ (text, sym same, sym value)
            | inr (_, before) ↦ i.looped key b before
          ];
  };
  asked = λ w pair ms u e i. checked-IsRemembered kit pair u ms w _ refl i;
}

recalled-eq_some : (o : Option CheckResult) {c : CheckResult} → recalled o ≡ some c → o ≡ some c
unfolding recalled
recalled-eq_some none e = cc
recalled-eq_some (some c) e = ground arith

checked-eq_done :
    (w : World) (key : String) (r : Attempt CheckResult) {w' : World} {c : CheckResult}
    → checked w key r ≡ (w', done c)
    → r ≡ done c
unfolding checked
checked-eq_done w key (thrown f) e = cc (ap (λ p. p.1) e)
checked-eq_done w key (done d) e = cc (ap (λ p. p.1) e)

-- Neither program of a pair loops, as llops says.
abbrev pub Straight : Kit → Pair → Type 0
Straight kit pair =
    (is_cyclic (kit.validate pair.before) ≡ false) × (is_cyclic (kit.validate pair.after) ≡ false)

-- What is behind an answer that a pair is correct: one program on both sides, or alive-tv's answer
-- on programs that do not loop.
abbrev pub Shown : Kit → Pair → Type 0
Shown kit pair =
    (pair.before ≡ pair.after)
    ⊎ ((c : CheckResult) × (c.outcome ≡ correct) × Answered kit pair none c × Straight kit pair)

-- What is behind an answer that a pair is incorrect: alive-tv's answer, with loops unrolled or on
-- programs that do not loop.
abbrev pub Refuted : Kit → Pair → CheckResult → Type 0
Refuted kit pair c = (u : Option ℕ) × Answered kit pair u c × (u ≡ none → Straight kit pair)

-- An answer to a question is one that alive-tv gave to it.
ask-Answered :
    (kit : Kit) (pair : Pair) (ms : ℕ) (u : Option ℕ) (w : World) {w' : World} {c : CheckResult}
    → IsHash kit.tools.sha256
    → IsRemembered kit w
    → ask kit pair ms u w ≡ (w', done c)
    → (v : Option ℕ) × Answered kit pair v c × (join_parts (flags_for u) ≡ join_parts (flags_for v))
unfolding ask
ask-Answered kit pair ms u w {w'} {c} hash i e =
    elim (Option-cases (recalled (Dict.get w.history (question kit pair u)))) [
      | inl n ↦
          (u, (w.asked, ms, checked-eq_done w (question kit pair u) _ (rw (n, ask) at e)), refl)
      | inr (known, y) ↦
          let (q, v, same, (n, ms', said)) =
            i.asked (question kit pair u) known (recalled-eq_some _ y) in
          let (one, two, flags) = question-pair kit pair q u v hash same in
          let is : known ≡ c = done-injective (ap (λ p. p.1) (rw (y, ask) at e)) in
          (
            v,
            (
              n,
              ms',
              subst (λ x. kit.check n pair.before pair.after ms' (flags_for v) ≡ done x) is
                  (subst (λ t. kit.check n pair.before t ms' (flags_for v) ≡ done known) (sym two)
                    (subst (λ s. kit.check n s q.after ms' (flags_for v) ≡ done known) (sym one)
                      said)),
            ),
            flags,
          )
    ]

-- What is found of a program's loops is what llops says.
loops-eq :
    (kit : Kit) (text : String) (w : World) {w' : World} {b : Bool}
    → IsHash kit.tools.sha256
    → IsRemembered kit w
    → loops kit text w ≡ (w', done b)
    → is_cyclic (kit.validate text) ≡ b
unfolding loops
loops-eq kit text w hash i e = elim (Option-cases (Dict.get w.looping (kit.tools.sha256 text))) [
  | inl n ↦ done-injective (ap (λ p. p.1) (rw (n, loops) at e))
  | inr (known, y) ↦
      let (other, same, is) = i.looped (kit.tools.sha256 text) known y in
      ap (λ t. is_cyclic (kit.validate t)) (hash.apart text other same)
      ∙ sym is
      ∙ done-injective (ap (λ p. p.1) (rw (y, loops) at e))
]

either_loops-Straight :
    (kit : Kit) (pair : Pair) (w : World) {w' : World} {b : Bool}
    → IsHash kit.tools.sha256
    → IsRemembered kit w
    → either_loops kit pair w ≡ (w', done b)
    → b ≡ false
    → Straight kit pair
unfolding either_loops give
either_loops-Straight kit pair w {w'} {b} hash i e none_loops =
    let (v, first, one, rest) = >>=-eq_done (loops kit pair.before) _ w e in
    let kept =
      subst (λ r. IsRemembered kit r.0) one
        ((loops-Keeps kit (IsRemembered kit) (IsRemembered-IsStable kit) pair.before).run w i) in
    go first v kept (loops-eq kit pair.before w hash i one) rest
  where
    go :
        (first : Bool) (v : World)
        → IsRemembered kit v
        → is_cyclic (kit.validate pair.before) ≡ first
        → unless first (loops kit pair.after) v ≡ (w', done b)
        → Straight kit pair
    go true v i' is rest = cc (done-injective (ap (λ p. p.1) rest), none_loops)
    go false v i' is rest = (is, loops-eq kit pair.after v hash i' rest ∙ none_loops)

-- Programs that loop are put to alive-tv only with an unroll factor.
ask_unless_loops-Answered :
    (kit : Kit) (pair : Pair) (ms : ℕ) (u : Option ℕ) (b : Bool) (w : World) {w' : World}
    {c : CheckResult}
    → IsHash kit.tools.sha256
    → IsRemembered kit w
    → ask_unless_loops kit pair ms u b w ≡ (w', done c)
    → c.outcome ≢ error
    → (v : Option ℕ) × Answered kit pair v c
      × (join_parts (flags_for u) ≡ join_parts (flags_for v))
      × (v ≡ none → b ≡ false)
unfolding ask_unless_loops unasked give
ask_unless_loops-Answered kit pair ms none true w hash i e fine =
    absurd (fine (sym (ap (λ (r : CheckResult). r.outcome) (done-injective (ap (λ p. p.1) e)))))
ask_unless_loops-Answered kit pair ms (some n) true w hash i e fine =
    let (v, said, flags) = ask-Answered kit pair ms (some n) w hash i e in
    (
      v,
      said,
      flags,
      λ plain.
          cc (flags-none (some n) (ap (λ x. join_parts (flags_for x)) (sym plain) ∙ sym flags)),
    )
ask_unless_loops-Answered kit pair ms u false w hash i e fine =
    let (v, said, flags) = ask-Answered kit pair ms u w hash i e in (v, said, flags, λ plain. refl)

-- An answer of alive2 to a question is alive-tv's, on programs that do not loop or with loops
-- unrolled, or that one program is on both sides, or that nothing was asked.
pub alive2-Answered :
    (kit : Kit) (pair : Pair) (ms : ℕ) (u : Option ℕ) (w : World) {w' : World} {c : CheckResult}
    → IsHash kit.tools.sha256
    → IsRemembered kit w
    → alive2 kit pair ms u w ≡ (w', done c)
    → c.outcome ≢ error
    → ((pair.before ≡ pair.after) × (c.outcome ≡ correct))
      ⊎ ((v : Option ℕ) × Answered kit pair v c
          × (join_parts (flags_for u) ≡ join_parts (flags_for v))
          × (v ≡ none → Straight kit pair))
unfolding alive2 give unasked
alive2-Answered kit pair ms u w {w'} {c} hash i e fine =
    elim (Bool-cases (pair.before == pair.after)) [
      | inl y ↦ inl (
        (eq_iff pair.before pair.after).0 y,
        sym (
            ap (λ (r : CheckResult). r.outcome)
              (done-injective (ap (λ p. p.1) (rw (y, alive2) at e)))),
      )
      | inr n ↦
          let (v, b, first, rest) =
            >>=-eq_done (either_loops kit pair) (ask_unless_loops kit pair ms u) w
              (rw (n, alive2) at e) in
          let kept =
            (either_loops-Keeps kit (IsRemembered kit) (IsRemembered-IsStable kit) pair).run w i in
          let (x, said, flags, plain) =
            ask_unless_loops-Answered kit pair ms u b v hash
              (subst (λ r. IsRemembered kit r.0) first kept) rest fine in
          inr (x, said, flags, λ is. either_loops-Straight kit pair w hash i first (plain is))
    ]

-- Without an unroll factor, an answer that the pair is correct has a check that said so, at some
-- time, of programs that do not loop, or one program on both sides.
pub alive2-Shown :
    (kit : Kit) (pair : Pair) (ms : ℕ) (w : World) {w' : World} {c : CheckResult}
    → IsHash kit.tools.sha256
    → IsRemembered kit w
    → alive2 kit pair ms none w ≡ (w', done c)
    → c.outcome ≡ correct
    → Shown kit pair
alive2-Shown kit pair ms w {w'} {c} hash i e right =
    elim (alive2-Answered kit pair ms none w hash i e (λ bad. cc (right, bad))) [
      | inl (same, _) ↦ inl same
      | inr (v, said, flags, straight) ↦
          let plain = flags-none v flags in
          inr (c, right, subst (λ x. Answered kit pair x c) plain said, straight plain)
    ]

-- An answer that the pair is incorrect was given by alive-tv, unrolling loops if there are any.
pub alive2-incorrect :
    (kit : Kit) (pair : Pair) (ms : ℕ) (u : Option ℕ) (w : World) {w' : World} {c : CheckResult}
    → IsHash kit.tools.sha256
    → IsRemembered kit w
    → alive2 kit pair ms u w ≡ (w', done c)
    → c.outcome ≡ incorrect
    → Refuted kit pair c
alive2-incorrect kit pair ms u w {w'} {c} hash i e wrong =
    elim (alive2-Answered kit pair ms u w hash i e (λ bad. cc (wrong, bad))) [
      | inl (_, right) ↦ cc (wrong, right)
      | inr (v, said, _, straight) ↦ (v, said, straight)
    ]
