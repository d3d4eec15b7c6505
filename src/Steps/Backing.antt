-- ===== src/Steps/Backing.antt =====
-- engine/core/state/steps.ts: what stands behind the effects that checking a goal answers.
use alive_next.Prelude.{true, ◌≡◌, refl, subst, inl, inr, Bool-cases}
use alive_next.Trajectory.{By, alive2, reshaped, respected}
use alive_next.Drivers.{ReshapedResult, RespectedResult, LlopsResult, answer, refusal}
use alive_next.Steps.{Kit, Pair}
use alive_next.Steps.Ask.{by, without_solver, free_of, is_reshaped, is_respected}
use alive_next.Steps.Answers.{Shown}

-- What the checker that certified a pair answered.
abbrev pub Backed : Kit → Pair → By → Type 0
Backed kit pair alive2 = Shown kit pair
Backed kit pair reshaped =
    (r : ReshapedResult) × (kit.reshaped pair.before pair.after ≡ answer r) × (r.reshaped ≡ true)
Backed kit pair respected =
    (r : RespectedResult) × (kit.respected pair.before pair.after ≡ answer r) × (r.respected ≡ true)

by-eq : {c d : By} → by c ≡ by d → c ≡ d
by-eq e = cc (e)

module _ (kit : Kit) (pair : Pair) where
  reshaped-Backed :
      (first : LlopsResult ReshapedResult)
      → kit.reshaped pair.before pair.after ≡ first
      → is_reshaped first ≡ true
      → Backed kit pair reshaped
  reshaped-Backed (refusal code message) e y = cc (y)
  reshaped-Backed (answer r) e y = (r, e, y)

  respected-Backed :
      (second : LlopsResult RespectedResult)
      → kit.respected pair.before pair.after ≡ second
      → is_respected second ≡ true
      → Backed kit pair respected
  respected-Backed (refusal code message) e y = cc (y)
  respected-Backed (answer r) e y = (r, e, y)

  -- What llops certifies with no solver, it said.
  pub without_solver-Backed : (c : By) → without_solver kit pair ≡ by c → Backed kit pair c
  unfolding without_solver free_of
  without_solver-Backed c e =
      let first = kit.reshaped pair.before pair.after in
      let second = kit.respected pair.before pair.after in
      elim (Bool-cases (is_reshaped first)) [
        | inl y ↦
            subst (Backed kit pair) (by-eq (rw (y, without_solver, free_of) at e))
              (reshaped-Backed first refl y)
        | inr n ↦ elim (Bool-cases (is_respected second)) [
          | inl y ↦
              subst (Backed kit pair) (by-eq (rw (n, y, without_solver, free_of) at e))
                (respected-Backed second refl y)
          | inr m ↦ cc (rw (n, m, without_solver, free_of) at e)
        ]
      ]
