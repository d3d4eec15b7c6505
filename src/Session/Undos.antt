-- ===== src/Session/Undos.antt =====
-- engine/core/session.ts, `uncut`, `uncase` and `uninterpose`: what the guard of the open transaction keeps.
use alive_next.Prelude.{
  Bool, true, false, not, ◌||◌, some, List, [], ◌∷◌, ◌≡◌, ◌⊎◌, refl, sym, ◌∙◌, ap, subst, inl, inr,
  Bool-cases, Option-cases,
}
use alive_next.Prelude.Dict
use alive_next.Trajectory.{Effect, Entry}
use alive_next.Goals.Types.{
  GoalId, Goal, Tree, ok, Status, same_status, DerivationError, not_cut, not_cased, not_interposed,
}
use alive_next.Goals.Queries.{interposed, cased}
use alive_next.Goals.Derive.{play, apply, undo, is_cut}
use alive_next.Goals.Termination.{Result-cases}
use alive_next.Goals.Wf.{IsWf}
use alive_next.Failure.{Attempt, thrown, done, >>=-eq_done, done-injective}
use alive_next.Transactions.{Transaction, is_editing_below}
use alive_next.Transactions.Below.{undo-keeps_edited}
use alive_next.Splits
use alive_next.Splits.{concat, undo_effect}
use alive_next.Session.{Bench, Move}
use alive_next.Session.Moves.{
  unless_below, UndoResult, undone, editing, undoing, uncut, goal_of, interposed_by_strengthen,
  move_uncut, move_uncase, move_uninterpose, uninterposing, unless_strengthened,
}
use alive_next.Session.Replayed.{played}

-- A guarded undo that answers was refused, or the goal being edited is not below the split.
unless_below-eq_done :
    {A : Type 0} (t : Tree) (gid : GoalId) (refusal : Transaction → A) (move : Move A) (b : Bench)
    {b' : Bench} {a : A} (x : Transaction)
    → b.editing ≡ some x
    → unless_below t gid refusal move b ≡ (b', done a)
    → (refusal x ≡ a) ⊎ ((is_editing_below (some x) t gid ≡ ok false) × (move b ≡ (b', done a)))
unfolding unless_below
unless_below-eq_done t gid refusal move b x y e =
    elim (Result-cases (is_editing_below (some x) t gid)) [
      | inr (f, r) ↦ cc (ap (λ p. p.1) (rw (y, unless_below, r) at e))
      | inl (true, r) ↦ inl (done-injective (ap (λ p. p.1) (rw (y, unless_below, r) at e)))
      | inl (false, r) ↦ inr (r, rw (y, unless_below, r) at e)
    ]

undoing-eq_done :
    (r : Attempt (List Effect)) (es : List Effect) → undoing r ≡ done (undone es) → r ≡ done es
undoing-eq_done (thrown f) es e = cc (e)
undoing-eq_done (done es') es e = ap done (undone-injective (done-injective e))
  where
    undone-injective : {a c : List Effect} → undone a ≡ undone c → a ≡ c
    undone-injective e = cc (e)

uncut-one :
    (t : Tree) (gid : GoalId) (es : List Effect)
    → uncut t gid ≡ done es
    → Effect.uncut gid ∷ [] ≡ es
unfolding uncut
uncut-one t gid es e =
    let (goal, _, e1) = >>=-eq_done (goal_of t gid) _ e in
    elim (Bool-cases
      (not (same_status goal.status Status.split) || interposed t goal || cased t goal)) [
        | inl other_kind ↦ cc (rw other_kind at e1)
        | inr cut ↦ done-injective (rw cut at e1)
      ]

undo_effect-one :
    (t : Tree) (gid : GoalId) (fits : Tree → Goal → Bool) (effect : Effect) (es : List Effect)
    → undo_effect t gid fits effect ≡ done es
    → effect ∷ [] ≡ es
unfolding undo_effect
undo_effect-one t gid fits effect es e = elim (Option-cases (Dict.get t.goals gid)) [
  | inl n ↦ cc (rw (n, undo_effect) at e)
  | inr (goal, held) ↦ elim (Bool-cases (fits t goal)) [
    | inl fit ↦ done-injective (rw (held, fit, undo_effect) at e)
    | inr other_kind ↦ cc (rw (held, other_kind, undo_effect) at e)
  ]
]

module _ (gid : GoalId) (t t' : Tree) (b b' : Bench) (x : Transaction) (g : Goal) (w : IsWf t)
    (is_open : b.editing ≡ some x) (held : Dict.get t.goals x.gid ≡ some g) where
  -- One undo that is not above the goal being edited.
  one_undo :
      (effect : Effect) (fits : Tree → Goal → Bool) (why : DerivationError) (es : List Effect)
      → is_editing_below (some x) t gid ≡ ok false
      → effect ∷ [] ≡ es
      → apply t effect ≡ undo t gid fits why
      → play (some t) es ≡ ok (some t')
      → Dict.get t'.goals x.gid ≡ some g
  one_undo effect fits why es unedited one is plays =
      undo-keeps_edited t gid fits why t' x g w held unedited
        (sym is ∙ played effect t t' (subst (λ l. play (some t) l ≡ ok (some t')) (sym one) plays))

  answered_undo :
      (r : Bench → Attempt UndoResult) (es : List Effect)
      → unless_below t gid editing (λ m. (m, r m)) b ≡ (b', done (undone es))
      → (is_editing_below (some x) t gid ≡ ok false) × (r b ≡ done (undone es))
  answered_undo r es e = elim (unless_below-eq_done t gid editing (λ m. (m, r m)) b x is_open e) [
    | inl refusal ↦ cc (refusal)
    | inr (unedited, answers) ↦ (unedited, ap (λ p. p.1) answers)
  ]

  -- An uncut, an uncase or an uninterpose that is taken while a transaction is open, on a well-formed
  -- tree that holds the goal being edited: its effects leave that goal as it is.
  pub undone-keeps_edited :
      (entries : List Entry) (es : List Effect)
      → (move_uncut gid t b ≡ (b', done (undone es)))
        ⊎ ((move_uncase gid t b ≡ (b', done (undone es)))
            ⊎ (move_uninterpose entries gid t b ≡ (b', done (undone es))))
      → play (some t) es ≡ ok (some t')
      → Dict.get t'.goals x.gid ≡ some g
  unfolding move_uncut move_uncase move_uninterpose uninterposing unless_strengthened apply
      Splits.uncase Splits.uninterpose
  undone-keeps_edited entries es (inl e) plays =
      let (unedited, answers) = answered_undo (λ m. undoing (uncut t gid)) es e in
      one_undo (Effect.uncut gid) is_cut (not_cut gid) es unedited
        (uncut-one t gid es (undoing-eq_done _ es answers)) refl plays
  undone-keeps_edited entries es (inr (inl e)) plays =
      let (unedited, answers) = answered_undo (λ m. undoing (Splits.uncase t gid)) es e in
      one_undo (Effect.uncase gid) cased (not_cased gid) es unedited
        (undo_effect-one t gid cased _ es (undoing-eq_done _ es answers)) refl plays
  undone-keeps_edited entries es (inr (inr e)) plays =
      let (unedited, answers) = answered_undo (λ m. uninterposing entries gid t) es e in
      let (goal, _, e1) = >>=-eq_done (goal_of t gid) (unless_strengthened entries gid t) answers in
      elim (Bool-cases (interposed_by_strengthen entries goal gid)) [
        | inl landed ↦ cc (rw landed at e1)
        | inr free ↦
            one_undo (Effect.uninterpose gid) interposed (not_interposed gid) es unedited
              (undo_effect-one t gid interposed _ es (undoing-eq_done _ es (rw free at e1))) refl
              plays
      ]
