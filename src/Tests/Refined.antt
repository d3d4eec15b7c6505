-- ===== src/Tests/Refined.antt =====
-- engine/core/state/steps.ts with goals.ts, on tools of a few answers that are right about a refinement.
use Prim.Native.Char.{Char, code}
use text.Mathlib.TextEquality.{Char-path}
use alive_next.Prelude.{
  String, Bool, true, false, not, ◌&&◌, none, List, ◌∷◌, ◌≡◌, refl, sym, ap, ◌∙◌, nat_eq,
  if◌then◌else◌, ◌==◌, arith, eq_iff, All,
}
use alive_next.Trajectory.{Effect, tgt}
use alive_next.Failure.{done, done-injective}
use alive_next.Drivers.{CheckResult, CheckOutcome, correct, incorrect}
use alive_next.Goals.Certified.{IsCertified}
use alive_next.Steps.{nul}
use alive_next.Steps.Calls.{fresh_world, fresh-IsRemembered}
use alive_next.Steps.Certify.{checked_step}
use alive_next.Steps.Refined.{AreRight, by_hash, check_goal-IsCertified}
use alive_next.Steps.Directed.{check_step-IsCertified}
use alive_next.Tests.Steps.{
  marked, escaped, escaped-IsHash, said, kit, disk, tree, checked, answered, checked-answered,
  options, unavailable, stepped, landed_step, stepped-landed,
}

-- The text that was escaped.
or_nul : Bool → Char → String → String → String
or_nul true d taken rest = String.◌∷◌ nul taken
or_nul false d taken rest = String.◌∷◌ d rest

plain : String → String
plain String.[] = String.[]
plain (String.◌∷◌ c String.[]) = if nat_eq (code c) 48 then String.◌∷◌ nul String.[] else String.[]
plain (String.◌∷◌ c (String.◌∷◌ d s)) =
    or_nul (nat_eq (code c) 48) d (plain (String.◌∷◌ d s)) (plain s)

plain-zero : (s : String) → plain (String.◌∷◌ "0" s) ≡ String.◌∷◌ nul (plain s)
unfolding plain or_nul
plain-zero String.[] = refl
plain-zero (String.◌∷◌ d s) = refl

marked-plain :
    (b : Bool) (c : Char) (s : String)
    → nat_eq (code c) 0 ≡ b
    → plain (marked b c s) ≡ String.◌∷◌ c (plain s)
unfolding plain or_nul
marked-plain true c s e =
    plain-zero s ∙ ap (λ x. String.◌∷◌ x (plain s)) (Char-path nul c (ground arith))
marked-plain false c s e = refl

plain-escaped : (s : String) → plain (escaped s) ≡ s
unfolding plain escaped
plain-escaped String.[] = refl
plain-escaped (String.◌∷◌ c s) =
    marked-plain _ c (escaped s) refl ∙ ap (String.◌∷◌ c) (plain-escaped s)

said-outcome : (o : CheckOutcome) {c : CheckResult} → said o ≡ done c → c.outcome ≡ o
unfolding said
said-outcome o e = ap (λ (x : CheckResult). x.outcome) (sym (done-injective e))

right_of :
    (x : Bool) (c : CheckResult)
    → said (if x then incorrect else correct) ≡ done c
    → c.outcome ≡ correct
    → x ≡ false
right_of true c e is = cc (said-outcome incorrect e, is)
right_of false c e is = refl

wrong_of :
    (x : Bool) (c : CheckResult)
    → said (if x then incorrect else correct) ≡ done c
    → c.outcome ≡ incorrect
    → x ≡ true
wrong_of true c e is = refl
wrong_of false c e is = cc (said-outcome correct e, is)

and_not-false : (x y : Bool) → x && not y ≡ false → x ≡ true → y ≡ true
and_not-false x y e f = ground arith

and_not-true : (x y : Bool) → x && not y ≡ true → (x ≡ true) × (y ≡ false)
and_not-true x y e = ground arith

-- Each program is refined by itself and by those that are not "w", and "w" by itself only.
kit-AreRight : AreRight kit
unfolding unavailable
kit-AreRight = record {
  refines = λ a b. b ≡ "w" → a ≡ "w";
  same = λ s e. e;
  through = λ a b c x y e. x (y e);
  checked = λ pair c said straight is e. (eq_iff pair.before "w").0 (
      and_not-false (pair.after == "w") (pair.before == "w") (right_of _ c said.2 is)
        ((eq_iff pair.after "w").1 e));
  unchecked = λ pair c (u, said, _) is holds.
      let (w, apart) =
        and_not-true (pair.after == "w") (pair.before == "w") (wrong_of _ c said.2 is) in
      cc (apart, (eq_iff pair.before "w").1 (holds ((eq_iff pair.after "w").0 w)));
  reshapes = λ pair r e y. cc (e);
  respects = λ pair r e y. cc (e);
}

check_goal-IsCertified_example :
    All (IsCertified (by_hash kit kit-AreRight plain plain-escaped) tree) answered.effects
check_goal-IsCertified_example =
    check_goal-IsCertified kit kit-AreRight plain plain-escaped tree "g1" none none
      (fresh_world disk) checked.0 answered escaped-IsHash (fresh-IsRemembered kit disk)
      checked-answered

check_step-IsCertified_example :
    (es : List Effect) × (landed_step.effects
      ≡ checked_step "g1" tgt landed_step.hash landed_step.by none ∷ es)
    × IsCertified
        (by_hash kit kit-AreRight plain plain-escaped)
        tree
        (checked_step "g1" tgt landed_step.hash landed_step.by none)
check_step-IsCertified_example =
    check_step-IsCertified kit kit-AreRight plain plain-escaped tree "g1" tgt "u" options
      (fresh_world disk) stepped.0 landed_step escaped-IsHash (fresh-IsRemembered kit disk) refl
      stepped-landed
