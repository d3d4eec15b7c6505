-- ===== src/Counterexamples/Divergent.antt =====
-- `divergence` of engine/core/state/counterexamples.ts against a description of what it looks for.
use alive_next.Prelude.{
  String, Bool, true, false, ◌||◌, some, List, [], ◌∷◌, ◌++◌, All, ◌≡◌, ◌≢◌, ◌↔◌, refl, ap, arith,
  inl, inr, ◌⊎◌, Option-cases, Bool-cases, nat_eq, length, ◌==◌, eq_iff,
}
use alive_next.Prelude.Dict
use alive_next.Prelude.Dict.{Dict}
use alive_next.Drivers.{RunResult, RunOutcome, returned, ub, failed}
use alive_next.Counterexamples.{includes, compare, compare_returned, judge, divergence}

-- The tgt observed the same, or the src observed poison, which allows any value.
abbrev pub Agrees : Dict String → String × String → Type 0
Agrees theirs (name, ours) =
    (value : String) × (Dict.get theirs name ≡ some value)
    × ((ours ≡ value) ⊎ (includes ours "poison" ≡ true))

-- The first observation that does not agree is of another value, and not missing.
pub record Differs (ours : List (String × String)) (theirs : Dict String) : Type 0 where
  pub before : List (String × String)
  pub after : List (String × String)
  pub name : String
  pub value : String
  pub their_value : String
  pub whole : ours ≡ before ++ (name, value) ∷ after
  pub agree : All (Agrees theirs) before
  pub observed : Dict.get theirs name ≡ some their_value
  pub other : value ≢ their_value
  pub not_poison : includes value "poison" ≡ false

-- The src returned, and the tgt has UB or returned after observing as much and something else.
abbrev pub Diverges : RunResult → RunResult → Type 0
Diverges s t =
    (s.outcome ≡ returned)
    × ((t.outcome ≡ ub)
        ⊎ ((t.outcome ≡ returned)
            × (length s.observations.entries ≡ length t.observations.entries)
            × Differs s.observations.entries t.observations))

or-cases : (a b : Bool) → (a || b) ≡ true → (a ≡ true) ⊎ (b ≡ true)
or-cases a b h = ground arith

or-false : (a b : Bool) → (a || b) ≡ false → (a ≡ false) × (b ≡ false)
or-false a b h = ground arith

module _ (theirs : Dict String) where
  put_before :
      (name ours : String) (rest : List (String × String))
      → Agrees theirs (name, ours)
      → Differs rest theirs
      → Differs ((name, ours) ∷ rest) theirs
  put_before name ours rest a d = record {
    before = (name, ours) ∷ d.before;
    after = d.after;
    name = d.name;
    value = d.value;
    their_value = d.their_value;
    whole = ap (◌∷◌ (name, ours)) d.whole;
    agree = (a, d.agree);
    observed = d.observed;
    other = d.other;
    not_poison = d.not_poison;
  }

  compare-Differs :
      (ours : List (String × String)) → (compare ours theirs).confirmed ≡ true → Differs ours theirs
  unfolding compare
  compare-Differs [] h = cc
  compare-Differs ((name, ours) ∷ rest) h = elim (Option-cases (Dict.get theirs name)) [
    | inl missing ↦ cc (rw (missing, compare) at h)
    | inr (value, seen) ↦ elim (Bool-cases ((ours == value) || includes ours "poison")) [
      | inl agrees ↦
          put_before name ours rest
            (
              value,
              seen,
              elim (or-cases (ours == value) (includes ours "poison") agrees) [
                | inl same ↦ inl ((eq_iff ours value).0 same)
                | inr poison ↦ inr poison
              ],
            )
            (compare-Differs rest (rw (seen, compare, agrees) at h))
      | inr off ↦
          let (apart, not_poison) = or-false (ours == value) (includes ours "poison") off in
          record {
            before = [];
            after = rest;
            name = name;
            value = ours;
            their_value = value;
            whole = refl;
            agree = tt;
            observed = seen;
            other = λ e. cc ((eq_iff ours value).1 e, apart);
            not_poison = not_poison;
          }
    ]
  ]

  compare_skip :
      (name ours value : String) (rest : List (String × String))
      → Dict.get theirs name ≡ some value
      → ((ours == value) || includes ours "poison") ≡ true
      → compare ((name, ours) ∷ rest) theirs ≡ compare rest theirs
  unfolding compare
  compare_skip name ours value rest seen agrees = rw (seen, compare, agrees) refl

  agrees-true :
      (ours value : String)
      → (ours ≡ value) ⊎ (includes ours "poison" ≡ true)
      → ((ours == value) || includes ours "poison") ≡ true
  agrees-true ours value (inl same) = ground (arith, (eq_iff ours value).1 same)
  agrees-true ours value (inr poison) = ground arith

  compare_after :
      (before after : List (String × String)) (name ours value : String)
      → All (Agrees theirs) before
      → Dict.get theirs name ≡ some value
      → ours ≢ value
      → includes ours "poison" ≡ false
      → (compare (before ++ (name, ours) ∷ after) theirs).confirmed ≡ true
  compare_after [] after name ours value a seen apart clean = elim (Bool-cases (ours == value)) [
    | inl same ↦ absurd (apart ((eq_iff ours value).0 same))
    | inr off ↦ unfold compare in rw (seen, compare, off, clean) refl
  ]
  compare_after ((n, o) ∷ before) after name ours value a seen apart clean =
      let (v, there, agrees) = a.0 in
      rw (compare_skip n o v (before ++ (name, ours) ∷ after) there (agrees-true o v agrees))
        (compare_after before after name ours value a.1 seen apart clean)

Differs-compare :
    (ours : List (String × String)) (theirs : Dict String)
    → Differs ours theirs
    → (compare ours theirs).confirmed ≡ true
Differs-compare ours theirs d = rw d.whole (
    compare_after theirs d.before d.after d.name d.value d.their_value d.agree d.observed d.other
      d.not_poison)

returned-Differs :
    (s t : RunResult)
    → (compare_returned s t).confirmed ≡ true
    → (length s.observations.entries ≡ length t.observations.entries)
      × Differs s.observations.entries t.observations
unfolding compare_returned
returned-Differs s t e =
    elim (Bool-cases (nat_eq (length s.observations.entries) (length t.observations.entries))) [
      | inl same ↦
          (ground arith, compare-Differs t.observations s.observations.entries (rw same at e))
      | inr off ↦ cc (rw off at e)
    ]

Differs-returned :
    (s t : RunResult)
    → length s.observations.entries ≡ length t.observations.entries
    → Differs s.observations.entries t.observations
    → (compare_returned s t).confirmed ≡ true
unfolding compare_returned
Differs-returned s t same d =
    elim (Bool-cases (nat_eq (length s.observations.entries) (length t.observations.entries))) [
      | inl fits ↦ rw fits (Differs-compare s.observations.entries t.observations d)
      | inr off ↦ absurd (ground arith)
    ]

judge-Diverges :
    (a b : RunOutcome) (s t : RunResult)
    → ((judge a b s t).confirmed ≡ true) ↔ (
        (a ≡ returned)
        × ((b ≡ ub)
            ⊎ ((b ≡ returned)
                × (length s.observations.entries ≡ length t.observations.entries)
                × Differs s.observations.entries t.observations)))
unfolding judge
judge-Diverges failed b s t = (λ e. cc e, λ d. cc (d.0))
judge-Diverges ub failed s t = (λ e. cc e, λ d. cc (d.0))
judge-Diverges ub returned s t = (λ e. cc e, λ d. cc (d.0))
judge-Diverges ub ub s t = (λ e. cc e, λ d. cc (d.0))
judge-Diverges returned failed s t = (λ e. cc e, λ d. elim d.1 [ inl u ↦ cc u | inr r ↦ cc (r.0) ])
judge-Diverges returned ub s t = (λ e. (refl, inl refl), λ d. refl)
judge-Diverges returned returned s t = (
  λ e. let (same, d) = returned-Differs s t e in (refl, inr (refl, same, d)),
  λ d. elim d.1 [ inl u ↦ cc u | inr r ↦ Differs-returned s t r.1 r.2 ],
)

-- A divergence is confirmed just when the src returned and the tgt has UB, or returned as well with as
-- many observations of which the first that disagrees is another value where the src's is not poison.
pub divergence-exact : (s t : RunResult) → ((divergence s t).confirmed ≡ true) ↔ Diverges s t
unfolding divergence
divergence-exact s t = judge-Diverges s.outcome t.outcome s t
