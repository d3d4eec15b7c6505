-- ===== src/Goals/Earning.antt =====
-- How a split of a goal of engine/core/state/goals.ts, and the undo of one, keep what is known of the
-- goals' claims.
use alive_next.Prelude.{
  ◌<◌, Bool, none, some, [], ◌∷◌, ◌++◌, ◌&&◌, ◌≡◌, ◌≢◌, refl, sym, ◌∙◌, ap, subst, In, inl, inr,
  some-eq, Bool-cases, In-append_left, In-append_right,
}
use alive_next.Prelude.Dict
use alive_next.Prelude.Dict.{str_cases}
use alive_next.Trajectory.{Half}
use alive_next.Goals.Types.{
  GoalId, Goal, Tree, Role, Made, open_, split, DerivationError, ok, same_status,
}
use alive_next.Goals.Queries.{number, find}
use alive_next.Goals.Moves.{put, name, opened, reopen}
use alive_next.Goals.Derive.{split_in_two, undo}
use alive_next.Goals.Restatus.{>>=-eq_ok, ok-injective, find-eq_ok}
use alive_next.Goals.Wf.{IsWf, goals-name}
use alive_next.Goals.Grow.{newborn, with_child, grown, opened-eq_ok, get-child, get-other, k-ne-gid}
use alive_next.Goals.Split.{opened-IsWf}
use alive_next.Goals.Reopen.{childless, reopen-eq_ok, kids_stay}
use alive_next.Goals.Prune.{IsPruned}
use alive_next.Goals.Settled.{put-cases}
use alive_next.Goals.Claims.{
  Refinement, Starts, same-Starts, get-put, get-put_ne, Claim, IsKnown, IsEarned, open-IsKnown,
  stays-IsKnown, put-IsEarned,
}
use alive_next.Goals.Earned.{goals-IsEarned}

module _ (r : Refinement) where
  -- A new goal, with one program on each side, leaves the others known.
  put_new-IsEarned :
      (t : Tree) (p : Goal) (half : Half) (role : Role) (made : Made)
      → Dict.get t.goals half.gid ≡ none
      → IsEarned r t
      → IsEarned r (put t half.gid (newborn p half role made))
  put_new-IsEarned t p half role made fresh e = record {
    known = λ j x h. elim (put-cases t half.gid (newborn p half role made) j x h) [
      | inl (_, same) ↦ subst (IsKnown r _) same (open-IsKnown r _ _ refl (tt, tt))
      | inr (_, h') ↦
          stays-IsKnown r t _ x
            (λ c y m there. (
              y,
              get-put_ne t half.gid c (newborn p half role made)
                    (λ same. cc (there, ap (Dict.get t.goals) same, fresh))
                  ∙ there,
              same-Starts y y refl refl,
            ))
            (e.known j x h')
    ];
  }

  module _ (t : Tree) (k : GoalId) (p : Goal) (half : Half) (role : Role) (made : Made) {t' : Tree}
      {p' : Goal} (w : IsWf t) (held : Dict.get t.goals k ≡ some p)
      (h : opened t k p half role made ≡ ok (t', p')) where
    opened-goals : t'.goals ≡ (grown t k p half role made).goals
    opened-goals =
        let (_, e, _) = opened-eq_ok t k p half role made h in
        subst (λ (x : Tree). x.goals ≡ (grown t k p half role made).goals) e
          (goals-name (name (grown t k p half role made) half.src) half.tgt
            ∙ goals-name (grown t k p half role made) half.src)

    opened-IsEarned : p.status ≡ open_ → IsEarned r t → IsEarned r t'
    opened-IsEarned o e =
        let (fresh, _, _) = opened-eq_ok t k p half role made h in
        let v = put t half.gid (newborn p half role made) in
        goals-IsEarned r (put v k (with_child p half.gid)) t' opened-goals (
          put-IsEarned r v k p (with_child p half.gid)
            (get-put_ne t half.gid k _
                (λ same. k-ne-gid t k p half role made w held fresh (sym same))
              ∙ held)
            (same-Starts p (with_child p half.gid) refl refl)
            (open-IsKnown r v (with_child p half.gid) o (e.known k p held).chains)
            (put_new-IsEarned t p half role made fresh e))

    -- The child is there, and the goals but the parent are what they were.
    opened-child : Dict.get t'.goals half.gid ≡ some (newborn p half role made)
    opened-child =
        let (fresh, _, _) = opened-eq_ok t k p half role made h in
        ap (λ d. Dict.get d half.gid) opened-goals ∙ get-child t k p half role made w held fresh

    opened-other :
        (j : GoalId) (g : Goal) → k ≢ j → Dict.get t.goals j ≡ some g → Dict.get t'.goals j ≡ some g
    opened-other j g ne there =
        let (fresh, _, _) = opened-eq_ok t k p half role made h in
        ap (λ d. Dict.get d j) opened-goals
        ∙ get-other t k p half role made w held fresh j ne
            (λ same. cc (there, ap (Dict.get t.goals) same, fresh))
        ∙ there

  -- A split into two halves whose pairs refining is enough for the goal's pair to refine.
  pub split_in_two-IsEarned :
      (t : Tree) (k : GoalId) (p : Goal) (a : Half) (ra : Role) (b : Half) (rb : Role) (made : Made)
      {t' : Tree}
      → IsWf t
      → IsEarned r t
      → Dict.get t.goals k ≡ some p
      → p.status ≡ open_
      → number k < number a.gid
      → number k < number b.gid
      → (r.refines a.src a.tgt → r.refines b.src b.tgt → Claim r p)
      → split_in_two t k p a ra b rb made ≡ ok t'
      → IsEarned r t'
  unfolding split_in_two
  split_in_two-IsEarned t k p a ra b rb made w e held o low high enough h =
      let ((u, q), first, rest) = >>=-eq_ok (opened t k p a ra made) _ h in
      let ((v, x), second, done) = >>=-eq_ok (opened u k q b rb made) _ rest in
      let (w1, held1) = opened-IsWf t k p a ra made w held low first in
      let (w2, held2) = opened-IsWf u k q b rb made w1 held1 high second in
      let (free, _, same1) = opened-eq_ok t k p a ra made first in
      let (_, _, same2) = opened-eq_ok u k q b rb made second in
      let e1 = opened-IsEarned t k p a ra made w held first o e in
      let o1 = sym (ap (λ (y : Goal). y.status) same1) ∙ o in
      let e2 = opened-IsEarned u k q b rb made w1 held1 second o1 e1 in
      let one =
        opened-other u k q b rb made w1 held1 second a.gid _ (k-ne-gid t k p a ra made w held free)
          (opened-child t k p a ra made w held first) in
      let two = opened-child u k q b rb made w1 held1 second in
      let same : with_child (with_child p a.gid) b.gid ≡ x =
        ap (λ y. with_child y b.gid) same1 ∙ same2 in
      subst (IsEarned r) (ok-injective done) (
        put-IsEarned r v k x (record x { status = split }) held2
          (same-Starts x (record x { status = split }) refl refl)
          (subst (λ y. IsKnown r v (record y { status = split })) same
            (record {
              chains = (e.known k p held).chains;
              proves = λ bad. cc (bad);
              splits = λ _ kids.
                  enough
                    (kids a.gid _
                      (In-append_left a.gid (p.children ++ a.gid ∷ []) (b.gid ∷ [])
                        (In-append_right a.gid p.children (a.gid ∷ []) (inl refl)))
                      one a.src a.tgt refl refl)
                    (kids b.gid _
                      (In-append_right b.gid (p.children ++ a.gid ∷ []) (b.gid ∷ []) (inl refl)) two
                      b.src b.tgt refl refl);
              refutes = λ bad. cc (bad);
            }))
          e2)

  -- An undo leaves the goal open, and each goal that stays has its children.
  pub reopen-IsEarned :
      (t : Tree) (k : GoalId) (p : Goal) {t' : Tree}
      → IsWf t
      → IsEarned r t
      → Dict.get t.goals k ≡ some p
      → reopen t k p ≡ ok t'
      → IsEarned r t'
  reopen-IsEarned t k p w e held h =
      let (u, pruned, same) = reopen-eq_ok t k p w h in
      subst (IsEarned r) same (record {
        known = λ j x h'. elim (put-cases u k (childless p) j x h') [
          | inl (_, is) ↦
              subst (IsKnown r _) is (open-IsKnown r _ (childless p) refl (e.known k p held).chains)
          | inr (ne, there) ↦
              stays-IsKnown r t (put u k (childless p)) x
                (λ c y m f.
                  let (z, f', up) = w.kids j x c (pruned.sub j x there) m in
                  stay u pruned j x c y ne there m f
                    (ap (λ (v : Goal). v.parent) (some-eq (sym f ∙ f')) ∙ up))
                (e.known j x (pruned.sub j x there))
        ];
      })
    where
      stay :
          (u : Tree)
          → IsPruned p.children t u
          → (j : GoalId) (x : Goal) (c : GoalId) (y : Goal) → k ≢ j
          → Dict.get u.goals j ≡ some x
          → In c x.children
          → Dict.get t.goals c ≡ some y
          → y.parent ≡ some j
          → (y' : Goal) × (Dict.get (put u k (childless p)).goals c ≡ some y') × Starts y y'
      stay u pruned j x c y ne there m f up = elim (str_cases k c) [
        | inl is ↦ (
          childless p,
          subst (λ z. Dict.get (put u k (childless p)).goals z ≡ some (childless p)) is
              (get-put u k (childless p)),
          subst (λ z. Starts z (childless p)) (some-eq (sym held ∙ ap (Dict.get t.goals) is ∙ f))
              (same-Starts p (childless p) refl refl),
        )
        | inr differ ↦ (
          y,
          get-put_ne u k c (childless p) differ
              ∙ kids_stay t k p u w held pruned j x c y ne there m f up,
          same-Starts y y refl refl,
        )
      ]

  pub undo-IsEarned :
      (t : Tree) (k : GoalId) (fits : Tree → Goal → Bool) (why : DerivationError) {t' : Tree}
      → IsWf t
      → IsEarned r t
      → undo t k fits why ≡ ok t'
      → IsEarned r t'
  unfolding undo
  undo-IsEarned t k fits why w e h =
      let (p, found, rest) = >>=-eq_ok (find t k) _ h in
      elim (Bool-cases (same_status p.status split && fits t p)) [
        | inl y ↦ reopen-IsEarned t k p w e (find-eq_ok t k found) (rw y at rest)
        | inr n ↦ cc (rw n at rest)
      ]
