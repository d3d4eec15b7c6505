-- ===== src/Goals/Moved.antt =====
-- What a step and a revert of engine/core/state/goals.ts do to the goal that they touch.
use alive_next.Prelude.{
  ℕ, suc, ◌+◌, Option, none, some, List, [], ◌∷◌, ◌++◌, ◌≡◌, refl, ◌∙◌, ap, subst, In, inl, inr,
  Bool-cases, Option-cases, eq_iff, ◌==◌, some-eq, get_last?-append,
}
use native.Mathlib.Numerals.{add-one}
use alive_next.Prelude.Dict
use alive_next.Prelude.Dict.{get-set_self}
use alive_next.Trajectory.{Hash, Side, StepEffect}
use alive_next.Trajectory.Side.{src, tgt}
use alive_next.Goals.Types.{
  GoalId, Goal, Tree, open_, DerivationError, ok, on, set_on, SideHistory, never_had,
}
use alive_next.Goals.Queries.{head, or_throw}
use alive_next.Goals.Moves.{put, editable}
use alive_next.Goals.Derive.{apply_step, apply_revert, push, last_index_of, slice}
use alive_next.Goals.Restatus.{>>=-eq_ok, ok-injective, reopened}
use alive_next.Goals.Editable.{editable-held}
use alive_next.Goals.Wf.{goals-name}

on-set_on : (g : Goal) (s : Side) (h : SideHistory) → on (set_on g s h) s ≡ h
on-set_on g src h = refl
on-set_on g tgt h = refl

children-set_on : (g : Goal) (s : Side) (h : SideHistory) → (set_on g s h).children ≡ g.children
children-set_on g src h = refl
children-set_on g tgt h = refl

status-set_on : (g : Goal) (s : Side) (h : SideHistory) → (set_on g s h).status ≡ g.status
status-set_on g src h = refl
status-set_on g tgt h = refl

on-reopened : (g : Goal) (s : Side) → on (reopened g) s ≡ on g s
on-reopened g src = refl
on-reopened g tgt = refl

pub or_throw-eq_ok :
    {A : Type 0} (o : Option A) (e : DerivationError) {a : A} → or_throw o e ≡ ok a → o ≡ some a
or_throw-eq_ok none e h = cc
or_throw-eq_ok (some a) e h = cc (h)

-- A goal after a step: its side has one program more, it is open, and its children are what they
-- were.
pub record IsStepped (e : StepEffect) (g g' : Goal) : Type 0 where
  pub head_is : head g' e.side ≡ ok e.to
  pub history : (on g' e.side).history ≡ (on g e.side).history ++ e.to ∷ []
  pub status : g'.status ≡ open_
  pub children : g'.children ≡ g.children

stepped :
    (e : StepEffect) (g : Goal)
    → IsStepped e g (set_on (reopened g) e.side (push (on (reopened g) e.side) e.to))
unfolding head
stepped e g =
    let h = push (on (reopened g) e.side) e.to in
    record {
      head_is =
          rw
            (
              on-set_on (reopened g) e.side h,
              get_last?-append (on (reopened g) e.side).history e.to,
            )
            refl;
      history = rw (on-set_on (reopened g) e.side h, on-reopened g e.side) refl;
      status = status-set_on (reopened g) e.side h;
      children = children-set_on (reopened g) e.side h;
    }

-- A step that is taken leaves its program at the head of its side and the goal open, also a goal
-- that was proved through its children, which keeps them.
pub step-IsStepped :
    (t : Tree) (e : StepEffect) {t' : Tree}
    → apply_step t e ≡ ok t'
    → (g g' : Goal) × (Dict.get t.goals e.gid ≡ some g)
      × (Dict.get t'.goals e.gid ≡ some g')
      × IsStepped e g g'
unfolding apply_step put
step-IsStepped t e h =
    let ((u, x), first, done) = >>=-eq_ok (editable t e.gid) _ h in
    let (g, there, (_, same)) = editable-held t e.gid first in
    let g' = set_on x e.side (push (on x e.side) e.to) in
    (
      g,
      g',
      there,
      subst (λ (v : Tree). Dict.get v.goals e.gid ≡ some g') (ok-injective done)
          (rw (goals-name (put u e.gid g') e.to) (get-set_self u.goals e.gid g')),
      rw same (stepped e g),
    )

-- `xs` ends at the last `h` of what `ys` is.
pub record EndsAt (h : Hash) (ys xs : List Hash) : Type 0 where
  pub before : List Hash
  pub after : List Hash
  pub whole : ys ≡ before ++ h ∷ after
  pub kept : xs ≡ before ++ h ∷ []
  pub last : In h after → ⊥

pub last_index_of-none : (xs : List Hash) (h : Hash) → last_index_of xs h ≡ none → In h xs → ⊥
unfolding last_index_of
last_index_of-none [] h e m = m
last_index_of-none (x ∷ xs) h e m = elim (Option-cases (last_index_of xs h)) [
  | inr (i, y) ↦ cc (rw (y, last_index_of) at e)
  | inl n ↦ elim m [
    | inl same ↦ cc (rw (n, last_index_of, (eq_iff x h).1 same) at e)
    | inr later ↦ last_index_of-none xs h n later
  ]
]

pub slice-EndsAt :
    (xs : List Hash) (h : Hash) (i : ℕ)
    → last_index_of xs h ≡ some i
    → EndsAt h xs (slice xs (suc i))
unfolding last_index_of slice
slice-EndsAt [] h i e = cc
slice-EndsAt (x ∷ xs) h i e = elim (Option-cases (last_index_of xs h)) [
  | inr (j, y) ↦
      let r = slice-EndsAt xs h j y in
      subst (λ n. EndsAt h (x ∷ xs) (slice (x ∷ xs) (suc n))) (some-eq (rw (y, last_index_of) at e))
        (record {
          before = x ∷ r.before;
          after = r.after;
          whole = ap (◌∷◌ x) r.whole;
          kept = ap (◌∷◌ x) r.kept;
          last = r.last;
        })
  | inl n ↦ elim (Bool-cases (x == h)) [
    | inl y ↦
        subst (λ n. EndsAt h (x ∷ xs) (slice (x ∷ xs) (suc n)))
          (some-eq (rw (n, last_index_of, y) at e))
          (record {
            before = [];
            after = xs;
            whole = ap (λ z. z ∷ xs) ((eq_iff x h).0 y);
            kept = ap (λ z. z ∷ []) ((eq_iff x h).0 y);
            last = last_index_of-none xs h n;
          })
    | inr z ↦ cc (rw (n, last_index_of, z) at e)
  ]
]

-- A revert that is taken cuts the side's history at the last place that held the program, which is
-- the head again, and leaves the goal open.
pub revert-EndsAt :
    (t : Tree) (k : GoalId) (s : Side) (to : Hash) {t' : Tree}
    → apply_revert t k s to ≡ ok t'
    → (g g' : Goal) × (Dict.get t.goals k ≡ some g)
      × (Dict.get t'.goals k ≡ some g')
      × EndsAt to (on g s).history (on g' s).history
      × (head g' s ≡ ok to)
      × (g'.status ≡ open_)
unfolding apply_revert put
revert-EndsAt t k s to h =
    let ((u, x), first, rest) = >>=-eq_ok (editable t k) _ h in
    let (g, there, (_, same)) = editable-held t k first in
    let (at, found, done) =
      >>=-eq_ok (or_throw (last_index_of (on x s).history to) (never_had k to s)) _ rest in
    let kept : SideHistory = record { history = slice (on x s).history (at + 1) } in
    let g' = set_on x s kept in
    let cut_at = cut x s to at found in
    (
      g,
      g',
      there,
      subst (λ (v : Tree). Dict.get v.goals k ≡ some g') (ok-injective done)
          (get-set_self u.goals k g'),
      subst (λ (v : SideHistory). EndsAt to v.history (on g' s).history)
          (ap (λ v. on v s) same ∙ on-reopened g s) (rw (on-set_on x s kept) cut_at),
      head_at x s kept to cut_at,
      status-set_on x s kept ∙ ap (λ (v : Goal). v.status) same,
    )
  where
    cut :
        (x : Goal) (s : Side) (to : Hash) (at : ℕ)
        → or_throw (last_index_of (on x s).history to) (never_had k to s) ≡ ok at
        → EndsAt to (on x s).history (slice (on x s).history (at + 1))
    cut x s to at found =
        rw add-one (slice-EndsAt (on x s).history to at (or_throw-eq_ok _ _ found))

    head_at :
        (x : Goal) (s : Side) (kept : SideHistory) (to : Hash)
        → EndsAt to (on x s).history kept.history
        → head (set_on x s kept) s ≡ ok to
    head_at x s kept to r =
        unfold head in rw (on-set_on x s kept, r.kept, get_last?-append r.before to) refl
