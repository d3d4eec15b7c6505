-- ===== src/Steps/Questions.antt =====
-- engine/core/state/steps.ts, the questions that `history` is kept by: with a hash that does not
-- collide, a question names its pair, and tells whether loops are unrolled.
use Prim.Native.Char.{Char, code}
use alive_next.Prelude.{
  false, nat_eq, ℕ, suc, ◌+◌, String, Option, none, some, ◌≡◌, refl, sym, ◌∙◌, ap, arith,
}
use alive_next.Prelude.Decimal.{decimal}
use alive_next.Splits.{concat}
use alive_next.Steps.{Kit, Pair, question, flags_for, join_parts, nul}

abbrev pub chars : String → ℕ
chars String.[] = 0
chars (String.◌∷◌ c s) = suc (chars s)

chars-concat : (s t : String) → chars (concat s t) ≡ chars s + chars t
unfolding concat
chars-concat String.[] t = omega arith
chars-concat (String.◌∷◌ c s) t = omega (arith, chars-concat s t)

-- A text that does not hold the character that the parts of a question are joined with.
abbrev pub Clean : String → Type 0
Clean String.[] = Unit {0}
Clean (String.◌∷◌ c s) = (nat_eq (code c) 0 ≡ false) × Clean s

-- What is asked of sha256: its digests are hexadecimal, so they do not hold that character, and no two
-- texts share one.
pub record IsHash (sha256 : String → String) : Type 0 where
  pub clean : (s : String) → Clean (sha256 s)
  pub apart : (s t : String) → sha256 s ≡ sha256 t → s ≡ t

first-eq : {c d : Char} {s t : String} → String.◌∷◌ c s ≡ String.◌∷◌ d t → (c ≡ d) × (s ≡ t)
first-eq e = (cc (e), cc (e))

-- Two clean texts before the character are the same if what they start is.
concat-cancel :
    (a b x y : String)
    → Clean a
    → Clean b
    → concat a (String.◌∷◌ nul x) ≡ concat b (String.◌∷◌ nul y)
    → (a ≡ b) × (x ≡ y)
unfolding concat
concat-cancel String.[] String.[] x y n m e = (refl, (first-eq e).1)
concat-cancel String.[] (String.◌∷◌ c b) x y n m e =
    cc (m.0, ap (λ (d : Char). nat_eq (code d) 0) (first-eq e).0)
concat-cancel (String.◌∷◌ c a) String.[] x y n m e =
    cc (n.0, ap (λ (d : Char). nat_eq (code d) 0) (first-eq e).0)
concat-cancel (String.◌∷◌ c a) (String.◌∷◌ d b) x y n m e =
    let (same, rest) = first-eq e in
    let r = concat-cancel a b x y n.1 m.1 rest in (cc (same, r.0), r.1)

asked-parts :
    (kit : Kit) (p : Pair) (u : Option ℕ)
    → question kit p u
      ≡ concat (kit.tools.sha256 p.before) (
          String.◌∷◌ nul
            (concat (kit.tools.sha256 p.after) (String.◌∷◌ nul (join_parts (flags_for u)))))
unfolding question join_parts flags_for
asked-parts kit p none = refl
asked-parts kit p (some n) = refl

-- A question with an unroll factor is longer than one without.
pub flags-none : (u : Option ℕ) → join_parts (flags_for none) ≡ join_parts (flags_for u) → u ≡ none
unfolding join_parts flags_for
flags-none none e = refl
flags-none (some n) e = absurd (longer (ap chars e ∙ chars-concat first (String.◌∷◌ nul more)))
  where
    first : String
    first = "--disable-undef-input"

    more : String
    more =
        concat (concat "--src-unroll=" (decimal n))
          (String.◌∷◌ nul (concat "--tgt-unroll=" (decimal n)))

    longer : chars first ≡ chars first + suc (chars more) → ⊥
    longer h = omega arith

-- A question is about one pair, whether loops are unrolled or not.
pub question-pair :
    (kit : Kit) (p q : Pair) (u v : Option ℕ)
    → IsHash kit.tools.sha256
    → question kit p u ≡ question kit q v
    → (p.before ≡ q.before)
      × (p.after ≡ q.after)
      × (join_parts (flags_for u) ≡ join_parts (flags_for v))
question-pair kit p q u v hash e =
    let (one, rest) =
      concat-cancel (kit.tools.sha256 p.before) (kit.tools.sha256 q.before) _ _
        (hash.clean p.before) (hash.clean q.before)
        (sym (asked-parts kit p u) ∙ e ∙ asked-parts kit q v) in
    let (two, flags) =
      concat-cancel (kit.tools.sha256 p.after) (kit.tools.sha256 q.after) _ _ (hash.clean p.after)
        (hash.clean q.after) rest in
    (hash.apart _ _ one, hash.apart _ _ two, flags)
