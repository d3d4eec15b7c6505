-- ===== src/Goals/Editable.antt =====
-- `editable` of engine/core/state/goals.ts answers the object that the tree holds.
use alive_next.Prelude.{
  ℕ, zero, suc, true, false, Option, none, some, ◌≡◌, refl, sym, ◌∙◌, subst, ap, inl, inr, ◌≢◌,
  some-eq,
}
use alive_next.Prelude.Dict
use alive_next.Prelude.Dict.{get-set_self, get-set_ne, str_cases}
use alive_next.Goals.Types.{GoalId, Goal, Tree, Status, proved, ok, same_status}
use alive_next.Goals.Moves.{put, fuel, unsettle, editable}
use alive_next.Goals.Restatus.{undone, reopened, unsettle_step-eq_ok, editable-eq_ok, ok-injective}

-- `unsettle` leaves alone a goal that is not proved.
unsettle-keeps :
    (f : ℕ) (t : Tree) (p : Option GoalId) (k : GoalId) (g : Goal) {t' : Tree}
    → Dict.get t.goals k ≡ some g
    → same_status g.status proved ≡ false
    → unsettle f t p ≡ ok t'
    → Dict.get t'.goals k ≡ some g
unfolding unsettle put
unsettle-keeps f t none k g there n h =
    subst (λ (x : Tree). Dict.get x.goals k ≡ some g) (ok-injective h) there
unsettle-keeps zero t (some j) k g there n h = cc
unsettle-keeps (suc f) t (some j) k g there n h =
    let (x, held, rest) = unsettle_step-eq_ok (unsettle f) t j h in
    elim rest [
      | inl (_, e) ↦ subst (λ (x : Tree). Dict.get x.goals k ≡ some g) e there
      | inr (y, rest') ↦
          unsettle-keeps f (put t j (undone x)) x.parent k g
            (get-set_ne t.goals j k (undone x) (λ e. differ x held y e) ∙ there) n rest'
    ]
  where
    differ : (x : Goal) → Dict.get t.goals j ≡ some x → same_status x.status proved ≡ true → j ≢ k
    differ x held y e = cc (
      n,
      y,
      ap (λ (z : Goal). same_status z.status proved)
          (some-eq (sym held ∙ ap (Dict.get t.goals) e ∙ there)),
    )

-- The goal that `editable` answers is open, is the entry of its key, and is the goal that was
-- there but for its status.
pub editable-held :
    (t : Tree) (k : GoalId) {t' : Tree} {g' : Goal}
    → editable t k ≡ ok (t', g')
    → (g : Goal) × (Dict.get t.goals k ≡ some g)
      × ((Dict.get t'.goals k ≡ some g') × (g' ≡ reopened g))
editable-held t k {t'} {g'} h =
    let (g, there, rest) = editable-eq_ok t k h in
    (
      g,
      there,
      elim rest [
        | inl (e, same, same') ↦ (
          subst (λ (x : Goal). Dict.get t'.goals k ≡ some x) same'
              (subst (λ (x : Tree). Dict.get x.goals k ≡ some g) same there),
          sym same' ∙ ap (λ (s : Status). record g { status = s }) e,
        )
        | inr (e, up, same) ↦ (
          subst (λ (x : Goal). Dict.get t'.goals k ≡ some x) same
              (unsettle-keeps (fuel t) (put t k (reopened g)) g.parent k (reopened g)
                (unfold put in get-set_self t.goals k (reopened g)) refl up),
          sym same,
        )
      ],
    )
