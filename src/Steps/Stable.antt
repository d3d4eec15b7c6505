-- ===== src/Steps/Stable.antt =====
-- engine/core/state/steps.ts: what every question to alive2 leaves as it was, also where it throws.
use alive_next.Prelude.{
  ℕ, String, Bool, true, false, Option, none, ◌≡◌, inl, inr, Option-cases, if◌then◌else◌,
}
use alive_next.Prelude.Dict
use alive_next.Prelude.Dict.{get-set_cases}
use alive_next.Failure.{Attempt, thrown, done}
use alive_next.Store.{Disk}
use alive_next.Steps.{Kit, World, Run, give, raise, then_run, ◌>>=◌, Pair, question, flags_for}
use alive_next.Steps.Ask.{
  is_cyclic, loops, either_loops, unless, recalled, checked, ask, ask_unless_loops, alive2,
}

-- What is said of a world stays so when a program is stored, when an answer about loops is kept, and
-- when a question that has no deciding answer is asked.
pub record IsStable (kit : Kit) (P : World → Type 0) : Type 0 where
  pub stored : (w : World) (d : Disk) → P w → P (record w { disk = d })
  pub looped :
      (w : World) (text : String)
      → P w
      → P (record w {
        looping = Dict.set w.looping (kit.tools.sha256 text) (is_cyclic (kit.validate text));
      })
  pub asked :
      (w : World) (pair : Pair) (ms : ℕ) (u : Option ℕ)
      → recalled (Dict.get w.history (question kit pair u)) ≡ none
      → P w
      → P
          (checked w
            (question kit pair u)
            (kit.check w.asked pair.before pair.after ms (flags_for u))).0

-- A run that keeps what is said of the world so, however it ends.
pub record Keeps {A : Type 0} (P : World → Type 0) (m : Run A) : Type 0 where
  pub run : (w : World) → P w → P (m w).0

module _ {A : Type 0} (P : World → Type 0) where
  pub Keeps-give : (a : A) → Keeps P (give a)
  unfolding give
  Keeps-give a = record { run = λ w i. i }

  pub Keeps-raise : (a : Attempt A) → Keeps P (raise a)
  unfolding raise
  Keeps-raise a = record { run = λ w i. i }

  pub Keeps-if : (b : Bool) (m n : Run A) → Keeps P m → Keeps P n → Keeps P (if b then m else n)
  Keeps-if true m n p q = p
  Keeps-if false m n p q = q

  module _ {B : Type 0} (m : Run A) (next : A → Run B) (rest : (a : A) → Keeps P (next a)) where
    after : (r : World × Attempt A) → P r.0 → P (then_run r next).0
    after (v, thrown f) i = i
    after (v, done a) i = (rest a).run v i

    pub Keeps-bind : Keeps P m → Keeps P (m >>= next)
    unfolding ◌>>=◌
    Keeps-bind first = record { run = λ w i. after (m w) (first.run w i) }

module _ (kit : Kit) (P : World → Type 0) (st : IsStable kit P) where
  pub loops-Keeps : (text : String) → Keeps P (loops kit text)
  unfolding loops
  loops-Keeps text = record {
    run = λ w i. elim (Option-cases (Dict.get w.looping (kit.tools.sha256 text))) [
      | inr (known, e) ↦ rw (e, loops) i
      | inl e ↦ rw (e, loops) (st.looped w text i)
    ];
  }

  pub either_loops-Keeps : (pair : Pair) → Keeps P (either_loops kit pair)
  unfolding either_loops
  either_loops-Keeps pair = Keeps-bind P _ _ second (loops-Keeps pair.before)
    where
      second : (b : Bool) → Keeps P (unless b (loops kit pair.after))
      second true = Keeps-give P true
      second false = loops-Keeps pair.after

  ask-Keeps : (pair : Pair) (ms : ℕ) (u : Option ℕ) → Keeps P (ask kit pair ms u)
  unfolding ask
  ask-Keeps pair ms u = record {
    run = λ w i. elim (Option-cases (recalled (Dict.get w.history (question kit pair u)))) [
      | inr (known, e) ↦ rw (e, ask) i
      | inl e ↦ rw (e, ask) (st.asked w pair ms u e i)
    ];
  }

  ask_unless_loops-Keeps :
      (pair : Pair) (ms : ℕ) (u : Option ℕ) (b : Bool) → Keeps P (ask_unless_loops kit pair ms u b)
  unfolding ask_unless_loops
  ask_unless_loops-Keeps pair ms u b = Keeps-if P _ _ _ (Keeps-give P _) (ask-Keeps pair ms u)

  -- A question to alive2 keeps what is stable.
  pub alive2-Keeps : (pair : Pair) (ms : ℕ) (u : Option ℕ) → Keeps P (alive2 kit pair ms u)
  unfolding alive2
  alive2-Keeps pair ms u =
      Keeps-if P _ _ _ (Keeps-give P _)
        (Keeps-bind P _ _ (ask_unless_loops-Keeps pair ms u) (either_loops-Keeps pair))
