-- ===== src/Transactions/Below.antt =====
-- `isEditingBelow` of engine/core/state/transactions.ts against what an undo of goals.ts discards.
use alive_next.Prelude.{
  ℕ, zero, suc, ◌<◌, Bool, true, false, some, ◌≡◌, refl, sym, ◌∙◌, ap, subst, arith, inl, inr, ◌⊎◌,
  Option-cases, Bool-cases, some-eq, ◌==◌, eq_iff,
}
use alive_next.Prelude.Dict
use alive_next.Goals.Types.{GoalId, Goal, Tree, DerivationError, Result, ok}
use alive_next.Goals.Queries.{number}
use alive_next.Goals.Moves.{fuel}
use alive_next.Goals.Derive.{undo}
use alive_next.Goals.Wf.{IsWf}
use alive_next.Goals.Verdict.{Below, here, child}
use alive_next.Goals.Undone.{undo-exact}
use alive_next.Transactions.{Transaction, climb, is_editing_below}

module _ (t : Tree) (k : GoalId) (w : IsWf t) where
  -- A goal below `k` is `k` or has its parent below `k`.
  Below-parent :
      {j : GoalId} (g : Goal)
      → Dict.get t.goals j ≡ some g
      → Below t k j
      → (k ≡ j) ⊎ ((p : GoalId) × (g.parent ≡ some p) × Below t k p)
  Below-parent g held here = inl refl
  Below-parent g held (child {j = p} y c b e m) =
      let (z, held', up) = w.kids p y c e m in
      inr (p, ap (λ (x : Goal). x.parent) (some-eq (sym held ∙ held')) ∙ up, b)

  abbrev Answers : Result Bool → GoalId → Type 0
  Answers r j = ((r ≡ ok true) × Below t k j) ⊎ ((r ≡ ok false) × (Below t k j → ⊥))

  climb-Answers :
      (f : ℕ) (j : GoalId) (g : Goal)
      → number j < f
      → Dict.get t.goals j ≡ some g
      → Answers (climb f t (some j) k) j
  unfolding climb
  climb-Answers zero j g small held = elim small [ ]
  climb-Answers (suc f) j g small held =
      rw (held, climb)
        (elim (Bool-cases (g.id == k)) [
          | inl same ↦ rw same (
              inl (
                refl,
                subst (λ x. Below t k x) (sym ((eq_iff g.id k).0 same) ∙ w.named j g held) here,
              ))
          | inr other ↦ rw other (elim (Option-cases g.parent) [
            | inl top ↦ rw top (
                inr (
                  refl,
                  λ b. elim (Below-parent g held b) [
                    | inl e ↦ apart other (w.named j g held ∙ sym e)
                    | inr (p, up, _) ↦ cc (top, up)
                  ],
                ))
            | inr (p, up) ↦
                let (y, above, m) = w.up j g p held up in
                let lower = w.rising p y j above m in
                rw up (elim (climb-Answers f p y (omega arith) above) [
                  | inl (e, b) ↦ inl (e, child y j b above m)
                  | inr (e, n) ↦ inr (
                    e,
                    λ b. elim (Below-parent g held b) [
                      | inl same ↦ apart other (w.named j g held ∙ sym same)
                      | inr (q, up', b') ↦ n (subst (λ x. Below t k x) (some-eq (sym up' ∙ up)) b')
                    ],
                  )
                ])
          ])
        ])
    where
      apart : {i : GoalId} → (i == k) ≡ false → i ≡ k → ⊥
      apart {i} off e = cc ((eq_iff i k).1 e, off)

-- On a well-formed tree that has the goal being edited, `isEditingBelow` comes to an answer, and the
-- answer is whether that goal is the given one or lies below it.
pub is_editing_below-exact :
    (t : Tree) (k : GoalId) (x : Transaction) (g : Goal)
    → IsWf t
    → Dict.get t.goals x.gid ≡ some g
    → ((is_editing_below (some x) t k ≡ ok true) × Below t k x.gid)
      ⊎ ((is_editing_below (some x) t k ≡ ok false) × (Below t k x.gid → ⊥))
unfolding is_editing_below fuel
is_editing_below-exact t k x g w held =
    let low = w.numbered x.gid g held in
    climb-Answers t k w (fuel t) x.gid g (unfold fuel in omega arith) held

-- On a well-formed tree, an undo of a split that `isEditingBelow` does not report leaves the goal
-- being edited as it is.
pub undo-keeps_edited :
    (t : Tree) (k : GoalId) (fits : Tree → Goal → Bool) (refused : DerivationError) (t' : Tree)
    (x : Transaction) (g : Goal)
    → IsWf t
    → Dict.get t.goals x.gid ≡ some g
    → is_editing_below (some x) t k ≡ ok false
    → undo t k fits refused ≡ ok t'
    → Dict.get t'.goals x.gid ≡ some g
undo-keeps_edited t k fits refused t' x g w held unedited h =
    elim (is_editing_below-exact t k x g w held) [
      | inl (e, _) ↦ cc (e, unedited)
      | inr (_, apart) ↦
          let (_, _, _, _, _, at) = undo-exact t k fits refused t' w h in
          elim (at x.gid g (λ e. apart (subst (λ j. Below t k j) e here)) held) [
            | inl (stays, _) ↦ stays
            | inr (_, b) ↦ absurd (apart b)
          ]
    ]
