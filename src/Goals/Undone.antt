-- ===== src/Goals/Undone.antt =====
-- What uncut, uninterpose and uncase of engine/core/state/goals.ts leave of the tree.
use alive_next.Prelude.{
  ℕ, zero, suc, ◌<◌, Bool, true, Option, none, some, In, ◌≡◌, ◌≢◌, refl, sym, ◌∙◌, ap, subst, arith,
  inl, inr, ◌⊎◌, Option-cases, Bool-cases, some-eq, ◌&&◌,
}
use alive_next.Prelude.Dict
use alive_next.Prelude.Dict.{get-set_self, get-set_ne, str_cases}
use alive_next.Goals.Types.{GoalId, Goal, Tree, Status, DerivationError, ok, same_status}
use alive_next.Goals.Queries.{find, number}
use alive_next.Goals.Moves.{put}
use alive_next.Goals.Derive.{undo}
use alive_next.Goals.Restatus.{>>=-eq_ok, find-eq_ok}
use alive_next.Goals.Restatus.{same_status-eq}
use alive_next.Goals.Wf.{IsWf}
use alive_next.Goals.Prune.{IsPruned}
use alive_next.Goals.Reopen.{childless, reopen-eq_ok}
use alive_next.Goals.Verdict.{Below, here, child}

module _ (t : Tree) (k : GoalId) (p : Goal) (u : Tree) (w : IsWf t)
    (held : Dict.get t.goals k ≡ some p) (cut : IsPruned p.children t u) where
  lost-Below :
      (n : ℕ) (j : GoalId) (g : Goal)
      → number j < n
      → Dict.get t.goals j ≡ some g
      → Dict.get u.goals j ≡ none
      → Below t k j
  lost-Below zero j g small h lost = elim small [ ]
  lost-Below (suc n) j g small h lost = elim (cut.above j g h lost) [
    | inl i ↦ child p j here held i
    | inr (q, e, gone) ↦
        let (y, f, i) = w.up j g q h e in
        let rises = w.rising q y j f i in child y j (lost-Below n q y (omega arith) f gone) f i
  ]

  Below-lost : {j : GoalId} → Below t k j → (k ≡ j) ⊎ (Dict.get u.goals j ≡ none)
  Below-lost here = inl refl
  Below-lost (child {j} g c b f m) = elim (Below-lost b) [
    | inl e ↦
        let same : g ≡ p = some-eq (sym f ∙ ap (Dict.get t.goals) (sym e) ∙ held) in
        inr (cut.ends c (subst (λ (x : Goal). In c x.children) same m))
    | inr gone ↦ inr (cut.below j g c f gone m)
  ]

  undone :
      (j : GoalId) (h : Goal)
      → k ≢ j
      → Dict.get t.goals j ≡ some h
      → ((Dict.get u.goals j ≡ some h) × (Below t k j → ⊥))
        ⊎ ((Dict.get u.goals j ≡ none) × Below t k j)
  undone j h ne e = elim (Option-cases (Dict.get u.goals j)) [
    | inl lost ↦ inr (lost, lost-Below (suc (number j)) j h (omega arith) e lost)
    | inr (x, kept) ↦ inl (
      kept ∙ sym (cut.sub j x kept) ∙ e,
      λ b. elim (Below-lost b) [ inl same ↦ ne same | inr lost ↦ cc (kept, lost) ],
    )
  ]

  put_apart : (j : GoalId) → k ≢ j → Dict.get (put u k (childless p)).goals j ≡ Dict.get u.goals j
  unfolding put
  put_apart j ne = get-set_ne u.goals k j (childless p) ne

  put_itself : Dict.get (put u k (childless p)).goals k ≡ some (childless p)
  unfolding put
  put_itself = get-set_self u.goals k (childless p)

-- Undoing a split of a well-formed tree, of whichever kind, needs a goal that is split; it leaves
-- that goal open without children, removes just the goals below it, and keeps each other goal as
-- it was.
pub undo-exact :
    (t : Tree) (k : GoalId) (fits : Tree → Goal → Bool) (refused : DerivationError) (t' : Tree)
    → IsWf t
    → undo t k fits refused ≡ ok t'
    → (p : Goal) × (Dict.get t.goals k ≡ some p)
      × (p.status ≡ Status.split)
      × (fits t p ≡ true)
      × (Dict.get t'.goals k ≡ some (childless p))
      × ((j : GoalId) (h : Goal)
          → k ≢ j
          → Dict.get t.goals j ≡ some h
          → ((Dict.get t'.goals j ≡ some h) × (Below t k j → ⊥))
            ⊎ ((Dict.get t'.goals j ≡ none) × Below t k j))
unfolding undo
undo-exact t k fits refused t' w h =
    let (p, found, rest) = >>=-eq_ok (find t k) _ h in
    elim (Bool-cases (same_status p.status Status.split && fits t p)) [
      | inr unfit ↦ cc (rw unfit at rest)
      | inl fine ↦
          let (u, cut, e) = reopen-eq_ok t k p w (rw fine at rest) in
          let held = find-eq_ok t k found in
          let (is_split, fit) = both (same_status p.status Status.split) (fits t p) fine in
          (
            p,
            held,
            same_status-eq p.status Status.split is_split,
            fit,
            subst (λ (x : Tree). Dict.get x.goals k ≡ some (childless p)) e
                (put_itself t k p u w held cut),
            λ j g ne there. elim (undone t k p u w held cut j g ne there) [
              | inl (stays, b) ↦ inl (moved e j (put_apart t k p u w held cut j ne ∙ stays), b)
              | inr (lost, b) ↦ inr (moved e j (put_apart t k p u w held cut j ne ∙ lost), b)
            ],
          )
    ]
  where
    both : (a b : Bool) → (a && b) ≡ true → (a ≡ true) × (b ≡ true)
    both a b e = ground arith

    moved :
        {v : Tree} {o : Option Goal}
        → v ≡ t'
        → (j : GoalId) → Dict.get v.goals j ≡ o
        → Dict.get t'.goals j ≡ o
    moved {v} {o} e j q = subst (λ (x : Tree). Dict.get x.goals j ≡ o) e q
