-- ===== src/Goals/Split.antt =====
-- The splits of engine/core/state/goals.ts (`cut`, `interpose`, `case`) keep the tree well formed.
use alive_next.Prelude.{◌<◌, some, ◌≡◌, refl, sym, ◌∙◌, subst, ◌⊎◌}
use alive_next.Prelude.Dict
use alive_next.Trajectory.{Half}
use alive_next.Goals.Types.{GoalId, Goal, Tree, Status, Role, Made, ok}
use alive_next.Goals.Queries.{number}
use alive_next.Goals.Moves.{name, opened}
use alive_next.Goals.Derive.{split_in_two}
use alive_next.Goals.Restatus.{>>=-eq_ok, ok-injective}
use alive_next.Goals.Wf.{IsWf, IsSameShape-IsWf, name-IsSameShape, goals-name, put-IsSameShape}
use alive_next.Goals.Grow.{
  newborn, with_child, grown, opened-eq_ok, get-parent, grown-cases, grown-IsWf,
}

module _ (t : Tree) (k : GoalId) (p : Goal) (half : Half) (role : Role) (made : Made) where
  pub opened-IsWf :
      {t' : Tree} {p' : Goal}
      → IsWf t
      → Dict.get t.goals k ≡ some p
      → number k < number half.gid
      → opened t k p half role made ≡ ok (t', p')
      → IsWf t' × (Dict.get t'.goals k ≡ some p')
  opened-IsWf {t'} {p'} w held rises h =
      let (fresh, e, same) = opened-eq_ok t k p half role made h in
      let v = grown t k p half role made in
      let s =
        IsSameShape-IsWf (name-IsSameShape v half.src)
          (grown-IsWf t k p half role made w held fresh rises) in
      (
        subst IsWf e (IsSameShape-IsWf (name-IsSameShape (name v half.src) half.tgt) s),
        subst (λ (x : Tree). Dict.get x.goals k ≡ some p') e
            (rw (goals-name, goals-name, ← same) (get-parent t k p half role made w held fresh)),
      )

  -- What a goal is once `opened` has made a child.
  pub opened-cases :
      {t' : Tree} {p' : Goal} (j : GoalId) (g : Goal)
      → IsWf t
      → Dict.get t.goals k ≡ some p
      → opened t k p half role made ≡ ok (t', p')
      → Dict.get t'.goals j ≡ some g
      → ((k ≡ j) × (with_child p half.gid ≡ g))
        ⊎ (((half.gid ≡ j) × (newborn p half role made ≡ g)) ⊎ (Dict.get t.goals j ≡ some g))
  opened-cases {t'} j g w held h there =
      let (fresh, e, same) = opened-eq_ok t k p half role made h in
      grown-cases t k p half role made w held fresh j g (
        subst (λ x. Dict.get x j ≡ some g)
          (goals-name (name (grown t k p half role made) half.src) half.tgt
            ∙ goals-name (grown t k p half role made) half.src)
          (subst (λ (x : Tree). Dict.get x.goals j ≡ some g) (sym e) there))

-- Both children of a split are new, and the tree stays well formed.
pub split_in_two-IsWf :
    (t : Tree) (k : GoalId) (p : Goal) (a : Half) (ra : Role) (b : Half) (rb : Role) (made : Made)
    {t' : Tree}
    → IsWf t
    → Dict.get t.goals k ≡ some p
    → number k < number a.gid
    → number k < number b.gid
    → split_in_two t k p a ra b rb made ≡ ok t'
    → IsWf t'
unfolding split_in_two
split_in_two-IsWf t k p a ra b rb made w held low high h =
    let ((u, q), first, rest) = >>=-eq_ok (opened t k p a ra made) _ h in
    let ((v, r), second, done) = >>=-eq_ok (opened u k q b rb made) _ rest in
    let (w1, held1) = opened-IsWf t k p a ra made w held low first in
    let (w2, held2) = opened-IsWf u k q b rb made w1 held1 high second in
    subst IsWf (ok-injective done) (
      IsSameShape-IsWf
        (put-IsSameShape v k r (record r { status = Status.split }) held2 (refl, refl, refl)) w2)
