-- ===== src/Goals/Reopen.antt =====
-- `reopen` of engine/core/state/goals.ts keeps the tree well formed, and its recursion ends.
use alive_next.Prelude.{
  ℕ, zero, suc, ◌<◌, none, some, [], ◌≡◌, ◌≢◌, refl, sym, ◌∙◌, ap, subst, arith, In, inl, inr, ◌⊎◌,
  Option-cases, some-eq,
}
use alive_next.Prelude.Dict
use alive_next.Prelude.Dict.{get-set_self, get-set_ne, get-set_cases, str_cases}
use alive_next.Goals.Types.{GoalId, Goal, Tree, open_, ok}
use alive_next.Goals.Queries.{number}
use alive_next.Goals.Moves.{put, fuel, discard, discard_all, reopen}
use alive_next.Goals.Restatus.{>>=-eq_ok, ok-injective}
use alive_next.Goals.Wf.{IsWf}
use alive_next.Goals.Prune.{HasParents, IsPruned, discard_all-IsPruned, discard-IsPruned}

pub IsWf-HasParents : (t : Tree) → IsWf t → HasParents t
IsWf-HasParents t w = record {
  at = λ k g c h e m f. let (y, f', q) = w.kids k g c e m in rw (some-eq (sym f ∙ f')) q;
}

abbrev pub childless : Goal → Goal
childless p = record p { children = []; status = open_ }

module _ (t : Tree) (k : GoalId) (p : Goal) (u : Tree) (w : IsWf t)
    (held : Dict.get t.goals k ≡ some p) (cut : IsPruned p.children t u) where
  -- What goes lies below the goal, so it has a greater number.
  lost-rising :
      (n : ℕ) (j : GoalId) (g : Goal)
      → number j < n
      → Dict.get t.goals j ≡ some g
      → Dict.get u.goals j ≡ none
      → number k < number j
  lost-rising zero j g small h lost = elim small [ ]
  lost-rising (suc n) j g small h lost = elim (cut.above j g h lost) [
    | inl i ↦ w.rising k p j held i
    | inr (q, e, gone) ↦
        let (y, f, i) = w.up j g q h e in
        let rises = w.rising q y j f i in
        let above = lost-rising n q y (omega arith) f gone in omega arith
  ]

  survives :
      (j : GoalId) (g : Goal)
      → Dict.get t.goals j ≡ some g
      → Dict.get u.goals j ≢ none
      → Dict.get u.goals j ≡ some g
  survives j g h kept = elim (Option-cases (Dict.get u.goals j)) [
    | inl e ↦ absurd (kept e)
    | inr (x, e) ↦ e ∙ sym (cut.sub j x e) ∙ h
  ]

  pub itself : Dict.get u.goals k ≡ some p
  itself =
      survives k p held
        λ lost. absurd (irrefl (lost-rising (suc (number k)) k p (omega arith) held lost))
    where
      irrefl : number k < number k → ⊥
      irrefl h = omega arith

  abbrev v : Tree
  v = put u k (childless p)

  get-parent : Dict.get v.goals k ≡ some (childless p)
  unfolding put
  get-parent = get-set_self u.goals k (childless p)

  pub get-other : (j : GoalId) → k ≢ j → Dict.get v.goals j ≡ Dict.get u.goals j
  unfolding put
  get-other j ne = get-set_ne u.goals k j (childless p) ne

  pub reopened-cases :
      (j : GoalId) (g : Goal)
      → Dict.get v.goals j ≡ some g
      → ((k ≡ j) × (childless p ≡ g)) ⊎ ((k ≢ j) × (Dict.get u.goals j ≡ some g))
  unfolding put
  reopened-cases j g h = get-set_cases u.goals k j (childless p) g h

  -- A goal that stays has the same parent.
  stays :
      (j : GoalId) (g : Goal)
      → Dict.get u.goals j ≡ some g
      → (h : Goal) × (Dict.get v.goals j ≡ some h) × (h.parent ≡ g.parent)
  stays j g h = elim (str_cases k j) [
    | inl e ↦ (
      childless p,
      subst (λ x. Dict.get v.goals x ≡ some (childless p)) e get-parent,
      ap (λ (x : Goal). x.parent) (some-eq (sym itself ∙ ap (Dict.get u.goals) e ∙ h)),
    )
    | inr ne ↦ (g, get-other j ne ∙ h, refl)
  ]

  pub kids_stay :
      (j : GoalId) (g : Goal) (c : GoalId) (y : Goal)
      → k ≢ j
      → Dict.get u.goals j ≡ some g
      → In c g.children
      → Dict.get t.goals c ≡ some y
      → y.parent ≡ some j
      → Dict.get u.goals c ≡ some y
  kids_stay j g c y ne h m f q = survives c y f λ lost. elim (cut.above c y f lost) [
    | inl i ↦
        let (y', f', q') = w.kids k p c held i in
        ne (some-eq (sym q' ∙ ap (λ (x : Goal). x.parent) (some-eq (sym f' ∙ f)) ∙ q))
    | inr (r, e, gone) ↦ cc (h, subst (λ x. Dict.get u.goals x ≡ none) (some-eq (sym e ∙ q)) gone)
  ]

  up_stays :
      (j : GoalId) (g : Goal) (q : GoalId) (y : Goal)
      → Dict.get u.goals j ≡ some g
      → Dict.get t.goals q ≡ some y
      → In j y.children
      → (k ≢ q) × (Dict.get u.goals q ≡ some y)
  up_stays j g q y h f i = (
    λ e. cc (
      h,
      cut.ends j (
          subst (λ (x : Goal). In j x.children)
            (some-eq (sym f ∙ ap (Dict.get t.goals) (sym e) ∙ held)) i),
    ),
    survives q y f λ lost. cc (h, cut.below q y j f lost i),
  )

  pub top_stays :
      (g : Goal)
      → Dict.get t.goals t.root ≡ some g
      → g.parent ≡ none
      → Dict.get u.goals t.root ≡ some g
  top_stays g h q = survives t.root g h λ lost. elim (cut.above t.root g h lost) [
    | inl i ↦
        let (y, f, q') = w.kids k p t.root held i in
        cc (q, q', ap (λ (x : Goal). x.parent) (some-eq (sym f ∙ h)))
    | inr (r, e, gone) ↦ cc (q, e)
  ]

  pub reopened-IsWf : IsWf v
  unfolding put
  reopened-IsWf = record {
    named = λ j g h. elim (reopened-cases j g h) [
      | inl (e, same) ↦ ap (λ (x : Goal). x.id) (sym same) ∙ w.named k p held ∙ e
      | inr (ne, h') ↦ w.named j g (cut.sub j g h')
    ];
    kids = λ j g c h m. elim (reopened-cases j g h) [
      | inl (e, same) ↦ absurd (subst (λ (x : Goal). In c x.children) (sym same) m)
      | inr (ne, h') ↦
          let (y, f, q) = w.kids j g c (cut.sub j g h') m in
          let (z, f', q') = stays c y (kids_stay j g c y ne h' m f q) in (z, f', q' ∙ q)
    ];
    up = λ j g q h m. elim (reopened-cases j g h) [
      | inl (e, same) ↦
          let (y, f, i) = w.up k p q held (ap (λ (x : Goal). x.parent) same ∙ m) in
          let (ne, stay) = up_stays k p q y itself f i in
          (y, get-other q ne ∙ stay, subst (λ x. In x y.children) e i)
      | inr (_, h') ↦
          let (y, f, i) = w.up j g q (cut.sub j g h') m in
          let (ne, stay) = up_stays j g q y h' f i in (y, get-other q ne ∙ stay, i)
    ];
    top =
        let (g, h, q) = w.top in
        let (z, f, q') = stays t.root g (top_stays g h q) in (z, rw cut.root f, q' ∙ q);
    only = λ j g h m. elim (reopened-cases j g h) [
      | inl (e, same) ↦
          sym e ∙ w.only k p held (ap (λ (x : Goal). x.parent) same ∙ m) ∙ sym cut.root
      | inr (ne, h') ↦ w.only j g (cut.sub j g h') m ∙ sym cut.root
    ];
    numbered = λ j g h. elim (reopened-cases j g h) [
      | inl (e, same) ↦ rw (← e, cut.next_goal) (w.numbered k p held)
      | inr (ne, h') ↦ rw cut.next_goal (w.numbered j g (cut.sub j g h'))
    ];
    rising = λ j g c h m. elim (reopened-cases j g h) [
      | inl (e, same) ↦ absurd (subst (λ (x : Goal). In c x.children) (sym same) m)
      | inr (ne, h') ↦ w.rising j g c (cut.sub j g h') m
    ];
  }

pub reopen-eq_ok :
    (t : Tree) (k : GoalId) (p : Goal) {t' : Tree}
    → IsWf t
    → reopen t k p ≡ ok t'
    → (u : Tree) × IsPruned p.children t u × (put u k (childless p) ≡ t')
unfolding reopen
reopen-eq_ok t k p w h =
    let (u, gone, done) = >>=-eq_ok (discard_all (discard (fuel t)) t p.children) _ h in
    (
      u,
      discard_all-IsPruned (discard (fuel t)) (discard-IsPruned (fuel t)) p.children t u
          (IsWf-HasParents t w) gone,
      ok-injective done,
    )

pub reopen-IsWf :
    (t : Tree) (k : GoalId) (p : Goal) {t' : Tree}
    → IsWf t
    → Dict.get t.goals k ≡ some p
    → reopen t k p ≡ ok t'
    → IsWf t'
reopen-IsWf t k p w held h =
    let (u, cut, e) = reopen-eq_ok t k p w h in subst IsWf e (reopened-IsWf t k p u w held cut)
