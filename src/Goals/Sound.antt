-- ===== src/Goals/Sound.antt =====
-- Each effect of engine/core/state/goals.ts keeps every child of a proved goal proved.
use alive_next.Prelude.{none, some, ◌≡◌, ◌≢◌, refl, sym, ◌∙◌, ap, subst, inl, inr, ◌<◌}
use alive_next.Prelude.Dict
use alive_next.Trajectory.{Hash, Side, Half, StepEffect, StrengthenEffect}
use alive_next.Trajectory.Side.{src, tgt}
use alive_next.Goals.Types.{
  GoalId, Goal, Tree, Status, open_, proved, split, Role, Made, never_had, ok, on, set_on,
  SideHistory,
}
use alive_next.Goals.Queries.{number, or_throw}
use alive_next.Goals.Moves.{put, name, editable, reopen, opened}
use alive_next.Goals.Derive.{
  apply_step, apply_revert, apply_strengthen, split_in_two, push, last_index_of,
}
use alive_next.Goals.Restatus.{>>=-eq_ok, ok-injective, reopened}
use alive_next.Goals.Editable.{editable-held}
use alive_next.Goals.Wf.{IsWf, goals-name}
use alive_next.Goals.Grow.{opened-eq_ok}
use alive_next.Goals.Split.{opened-IsWf, opened-cases}
use alive_next.Goals.Invariant.{editable-IsWf}
use alive_next.Goals.Reopen.{childless, reopen-eq_ok, itself}
use alive_next.Goals.Settled.{IsSettled, KidsProved, put-IsSettled, editable-IsSettled}

pub goals-IsSettled : (t t' : Tree) → t'.goals ≡ t.goals → IsSettled t → IsSettled t'
goals-IsSettled t t' e s = record {
  at = λ k g h p c x m f.
      s.at k g (subst (λ d. Dict.get d k ≡ some g) e h) p c x m
        (subst (λ d. Dict.get d c ≡ some x) e f);
}

name-IsSettled : (t : Tree) (h : Hash) → IsSettled t → IsSettled (name t h)
name-IsSettled t h s = goals-IsSettled t (name t h) (goals-name t h) s

is_open-ne : (g : Goal) (s : Status) → g ≡ reopened g → g.status ≢ proved
is_open-ne g s e q = cc (ap (λ (x : Goal). x.status) e, q)

set_on-status : (g : Goal) (s : Side) (h : SideHistory) → (set_on g s h).status ≡ g.status
set_on-status g src h = refl
set_on-status g tgt h = refl

module _ (t : Tree) (k : GoalId) {u : Tree} {g : Goal} (w : IsWf t) (s : IsSettled t)
    (h : editable t k ≡ ok (u, g)) where
  -- What an effect has in hand after `editable`.
  pub edited : IsWf u × (Dict.get u.goals k ≡ some g) × IsSettled u × (g.status ≡ open_)
  edited =
      let (w', held) = editable-IsWf t k w h in
      let (x, _, (_, e)) = editable-held t k h in
      (w', held, editable-IsSettled t k w s h, ap (λ (y : Goal). y.status) e)

  -- The edited goal may change while it stays open.
  edit-IsSettled : (g' : Goal) → g'.status ≡ g.status → IsSettled (put u k g')
  edit-IsSettled g' e =
      let (w', held, s', o) = edited in
      put-IsSettled u k g g' s' held (λ q. cc (o, q)) (λ q. cc (o, e, q))

pub apply_step-IsSettled :
    (t : Tree) (e : StepEffect) {t' : Tree}
    → IsWf t
    → IsSettled t
    → apply_step t e ≡ ok t'
    → IsSettled t'
unfolding apply_step
apply_step-IsSettled t e w s h =
    let ((u, g), first, done) = >>=-eq_ok (editable t e.gid) _ h in
    let g' = set_on g e.side (push (on g e.side) e.to) in
    subst IsSettled (ok-injective done) (
      name-IsSettled (put u e.gid g') e.to
        (edit-IsSettled t e.gid w s first g' (set_on-status g e.side _)))

pub apply_revert-IsSettled :
    (t : Tree) (k : GoalId) (d : Side) (to : Hash) {t' : Tree}
    → IsWf t
    → IsSettled t
    → apply_revert t k d to ≡ ok t'
    → IsSettled t'
unfolding apply_revert
apply_revert-IsSettled t k d to w s h =
    let ((u, g), first, rest) = >>=-eq_ok (editable t k) _ h in
    let (at, found, done) =
      >>=-eq_ok (or_throw (last_index_of (on g d).history to) (never_had k to d)) _ rest in
    subst IsSettled (ok-injective done)
      (edit-IsSettled t k w s first (set_on g d _) (set_on-status g d _))

pub apply_strengthen-IsSettled :
    (t : Tree) (e : StrengthenEffect) {t' : Tree}
    → IsWf t
    → IsSettled t
    → apply_strengthen t e ≡ ok t'
    → IsSettled t'
unfolding apply_strengthen
apply_strengthen-IsSettled t e w s h =
    let ((u, g), first, done) = >>=-eq_ok (editable t e.gid) _ h in
    let g' : Goal = record g { src = push g.src e.src; tgt = push g.tgt e.tgt } in
    subst IsSettled (ok-injective done) (
      name-IsSettled (name (put u e.gid g') e.src) e.tgt
        (name-IsSettled (put u e.gid g') e.src (edit-IsSettled t e.gid w s first g' refl)))

module _ (t : Tree) (k : GoalId) (p : Goal) (half : Half) (role : Role) (made : Made) where
  -- A new child is open, under a goal that is not proved.
  opened-IsSettled :
      {t' : Tree} {p' : Goal}
      → IsWf t
      → IsSettled t
      → Dict.get t.goals k ≡ some p
      → p.status ≡ open_
      → opened t k p half role made ≡ ok (t', p')
      → IsSettled t' × (p'.status ≡ open_)
  opened-IsSettled {t'} {p'} w s held o h =
      let (fresh, _, same) = opened-eq_ok t k p half role made h in
      (record { at = kids fresh }, sym (ap (λ (x : Goal). x.status) same) ∙ o)
    where
      kids :
          Dict.get t.goals half.gid ≡ none
          → (j : GoalId) (g : Goal) → Dict.get t'.goals j ≡ some g
          → g.status ≡ proved
          → KidsProved t' g
      kids fresh j g e q c x m f = elim (opened-cases t k p half role made j g w held h e) [
        | inl (_, same) ↦ cc (ap (λ (y : Goal). y.status) same, q)
        | inr (inl (_, same)) ↦ cc (ap (λ (y : Goal). y.status) same, q)
        | inr (inr e') ↦ elim (opened-cases t k p half role made c x w held h f) [
          | inl (here, same) ↦ cc (s.at j g e' q c p m (ap (Dict.get t.goals) (sym here) ∙ held))
          | inr (inl (here, same)) ↦
              let (y, f', _) = w.kids j g c e' m in cc (f', ap (Dict.get t.goals) here, fresh)
          | inr (inr f') ↦ s.at j g e' q c x m f'
        ]
      ]

pub split_in_two-IsSettled :
    (t : Tree) (k : GoalId) (p : Goal) (a : Half) (ra : Role) (b : Half) (rb : Role) (made : Made)
    {t' : Tree}
    → IsWf t
    → IsSettled t
    → Dict.get t.goals k ≡ some p
    → p.status ≡ open_
    → number k < number a.gid
    → number k < number b.gid
    → split_in_two t k p a ra b rb made ≡ ok t'
    → IsSettled t'
unfolding split_in_two
split_in_two-IsSettled t k p a ra b rb made w s held o low high h =
    let ((u, q), first, rest) = >>=-eq_ok (opened t k p a ra made) _ h in
    let ((v, r), second, done) = >>=-eq_ok (opened u k q b rb made) _ rest in
    let (w1, held1) = opened-IsWf t k p a ra made w held low first in
    let (s1, o1) = opened-IsSettled t k p a ra made w s held o first in
    let (w2, held2) = opened-IsWf u k q b rb made w1 held1 high second in
    let (s2, o2) = opened-IsSettled u k q b rb made w1 s1 held1 o1 second in
    subst IsSettled (ok-injective done)
      (put-IsSettled v k r (record r { status = split }) s2 held2 (λ e. cc (o2, e)) (λ e. cc e))

pub reopen-IsSettled :
    (t : Tree) (k : GoalId) (p : Goal) {t' : Tree}
    → IsWf t
    → IsSettled t
    → Dict.get t.goals k ≡ some p
    → p.status ≡ split
    → reopen t k p ≡ ok t'
    → IsSettled t'
reopen-IsSettled t k p w s held is_split h =
    let (u, pruned, e) = reopen-eq_ok t k p w h in
    let rest : IsSettled u = record {
      at = λ j g e q c x m f. s.at j g (pruned.sub j g e) q c x m (pruned.sub c x f);
    } in
    subst IsSettled e (
      put-IsSettled u k p (childless p) rest (itself t k p u w held pruned) (λ q. cc (is_split, q))
        (λ q. cc q))
