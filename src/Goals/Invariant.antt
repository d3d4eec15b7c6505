-- ===== src/Goals/Invariant.antt =====
-- Every effect of engine/core/state/goals.ts keeps the tree well formed, and so does the replay.
use alive_next.Prelude.{
  ◌+◌, ◌<◌, Bool, true, ◌&&◌, some, ◌≡◌, refl, sym, ◌∙◌, ap, subst, arith, inl, inr, Bool-cases,
  ◌==◌, eq_iff,
}
use alive_next.Prelude.Dict
use alive_next.Trajectory.{
  Hash, Side, Half, Effect, StepEffect, CutEffect, StrengthenEffect, step, interpose, case, cut,
  strengthen, uncut, uninterpose, uncase, revert, proved, refuted,
}
use alive_next.Trajectory.Side.{src, tgt}
use alive_next.Goals.Types.{
  GoalId, Goal, Tree, Status, Role, DerivationError, ok, same_status, on, set_on, SideHistory,
  never_had,
}
use alive_next.Goals.Queries.{number, find, head, or_throw}
use alive_next.Goals.Moves.{put, name, fuel, editable}
use alive_next.Goals.Derive.{
  apply_step, apply_revert, apply_cut, apply_interpose, apply_case, apply_strengthen, undo,
  apply_proved, apply_refuted, apply, split_in_two, push, nothing_made, last_index_of, slice,
}
use alive_next.Goals.Restatus.{
  >>=-eq_ok, ok-injective, find-eq_ok, editable-IsRestatus, settle-IsRestatus, put-IsRestatus,
}
use alive_next.Goals.Editable.{editable-held}
use alive_next.Goals.Wf.{
  IsWf, IsSameShape-IsWf, IsRestatus-IsSameShape, name-IsSameShape, put-IsSameShape, HasPlace,
}
use alive_next.Goals.Split.{split_in_two-IsWf}
use alive_next.Goals.Reopen.{reopen-IsWf}

-- The children that an effect opens are numbered above the goal that it splits.
abbrev pub Rises : GoalId → Half → Half → Type 0
Rises gid a b = (number gid < number a.gid) × (number gid < number b.gid)

abbrev pub IsRising : Effect → Type 0
IsRising (cut e) = Rises e.gid e.outer e.callee
IsRising (interpose gid l r) = Rises gid l r
IsRising (case gid c h f) = Rises gid h f
IsRising _ = Unit {0}

and3 : (a b c : Bool) → (a && b && c) ≡ true → (a ≡ true) × (b ≡ true) × (c ≡ true)
and3 a b c h = ground arith

pub editable-IsWf :
    (t : Tree) (k : GoalId) {t' : Tree} {g' : Goal}
    → IsWf t
    → editable t k ≡ ok (t', g')
    → IsWf t' × (Dict.get t'.goals k ≡ some g')
editable-IsWf t k w h = (
  IsSameShape-IsWf (IsRestatus-IsSameShape (editable-IsRestatus t k h)) w,
  (editable-held t k h).2.0,
)

set_on-HasPlace : (g : Goal) (s : Side) (h : SideHistory) → HasPlace g (set_on g s h)
set_on-HasPlace g src h = (refl, refl, refl)
set_on-HasPlace g tgt h = (refl, refl, refl)

apply_step-IsWf :
    (t : Tree) (e : StepEffect) {t' : Tree} → IsWf t → apply_step t e ≡ ok t' → IsWf t'
unfolding apply_step
apply_step-IsWf t e w h =
    let ((u, g), edited, done) = >>=-eq_ok (editable t e.gid) _ h in
    let (w', held) = editable-IsWf t e.gid w edited in
    let g' = set_on g e.side (push (on g e.side) e.to) in
    subst IsWf (ok-injective done) (
      IsSameShape-IsWf (name-IsSameShape (put u e.gid g') e.to)
        (IsSameShape-IsWf (put-IsSameShape u e.gid g g' held (set_on-HasPlace g e.side _)) w'))

apply_revert-IsWf :
    (t : Tree) (k : GoalId) (s : Side) (to : Hash) {t' : Tree}
    → IsWf t
    → apply_revert t k s to ≡ ok t'
    → IsWf t'
unfolding apply_revert
apply_revert-IsWf t k s to w h =
    let ((u, g), edited, rest) = >>=-eq_ok (editable t k) _ h in
    let (w', held) = editable-IsWf t k w edited in
    let (at, found, done) =
      >>=-eq_ok (or_throw (last_index_of (on g s).history to) (never_had k to s)) _ rest in
    subst IsWf (ok-injective done) (
      IsSameShape-IsWf
        (put-IsSameShape u k g (set_on g s (record { history = slice (on g s).history (at + 1) }))
          held (set_on-HasPlace g s _))
        w')

apply_strengthen-IsWf :
    (t : Tree) (e : StrengthenEffect) {t' : Tree} → IsWf t → apply_strengthen t e ≡ ok t' → IsWf t'
unfolding apply_strengthen
apply_strengthen-IsWf t e w h =
    let ((u, g), edited, done) = >>=-eq_ok (editable t e.gid) _ h in
    let (w', held) = editable-IsWf t e.gid w edited in
    let g' : Goal = record g { src = push g.src e.src; tgt = push g.tgt e.tgt } in
    subst IsWf (ok-injective done) (
      IsSameShape-IsWf (name-IsSameShape (name (put u e.gid g') e.src) e.tgt) (
        IsSameShape-IsWf (name-IsSameShape (put u e.gid g') e.src)
          (IsSameShape-IsWf (put-IsSameShape u e.gid g g' held (refl, refl, refl)) w')))

apply_cut-IsWf :
    (t : Tree) (e : CutEffect) {t' : Tree}
    → IsWf t
    → Rises e.gid e.outer e.callee
    → apply_cut t e ≡ ok t'
    → IsWf t'
unfolding apply_cut
apply_cut-IsWf t e w rises h =
    let ((u, g), edited, rest) = >>=-eq_ok (editable t e.gid) _ h in
    let (w', held) = editable-IsWf t e.gid w edited in
    split_in_two-IsWf u e.gid g e.outer _ e.callee _ _ w' held rises.0 rises.1 rest

apply_case-IsWf :
    (t : Tree) (k : GoalId) (a b : Half) {t' : Tree}
    → IsWf t
    → Rises k a b
    → apply_case t k a b ≡ ok t'
    → IsWf t'
unfolding apply_case
apply_case-IsWf t k a b w rises h =
    let ((u, g), edited, rest) = >>=-eq_ok (editable t k) _ h in
    let (w', held) = editable-IsWf t k w edited in
    split_in_two-IsWf u k g a _ b _ _ w' held rises.0 rises.1 rest

-- An interpose that is taken meets the goal's pair, and splits the goal.
pub apply_interpose-eq_ok :
    (t : Tree) (k : GoalId) (l r : Half) {t' : Tree}
    → apply_interpose t k l r ≡ ok t'
    → (u : Tree) × (g : Goal) × (editable t k ≡ ok (u, g))
      × (head g src ≡ ok l.src)
      × (head g tgt ≡ ok r.tgt)
      × (l.tgt ≡ r.src)
      × (split_in_two u k g l Role.lhs r Role.rhs nothing_made ≡ ok t')
unfolding apply_interpose
apply_interpose-eq_ok t k l r h =
    let ((u, g), edited, rest) = >>=-eq_ok (editable t k) _ h in
    let (a, at_src, rest') = >>=-eq_ok (head g src) _ rest in
    let (b, at_tgt, rest'') = >>=-eq_ok (head g tgt) _ rest' in
    elim (Bool-cases ((l.src == a) && (l.tgt == r.src) && (r.tgt == b))) [
      | inr n ↦ cc (rw n at rest'')
      | inl e ↦
          let (e1, e2, e3) = and3 (l.src == a) (l.tgt == r.src) (r.tgt == b) e in
          (
            u,
            g,
            edited,
            at_src ∙ ap ok (sym ((eq_iff l.src a).0 e1)),
            at_tgt ∙ ap ok (sym ((eq_iff r.tgt b).0 e3)),
            (eq_iff l.tgt r.src).0 e2,
            rw e at rest'',
          )
    ]

apply_interpose-IsWf :
    (t : Tree) (k : GoalId) (l r : Half) {t' : Tree}
    → IsWf t
    → Rises k l r
    → apply_interpose t k l r ≡ ok t'
    → IsWf t'
apply_interpose-IsWf t k l r w rises h =
    let (u, g, edited, _, _, _, rest) = apply_interpose-eq_ok t k l r h in
    let (w', held) = editable-IsWf t k w edited in
    split_in_two-IsWf u k g l _ r _ _ w' held rises.0 rises.1 rest

undo-IsWf :
    (t : Tree) (k : GoalId) (fits : Tree → Goal → Bool) (refused : DerivationError) {t' : Tree}
    → IsWf t
    → undo t k fits refused ≡ ok t'
    → IsWf t'
unfolding undo
undo-IsWf t k fits refused w h =
    let (p, found, rest) = >>=-eq_ok (find t k) _ h in
    elim (Bool-cases (same_status p.status Status.split && fits t p)) [
      | inl e ↦ reopen-IsWf t k p w (find-eq_ok t k found) (rw e at rest)
      | inr n ↦ cc (rw n at rest)
    ]

restatus-IsWf :
    (t : Tree) (k : GoalId) (g : Goal) (s : Status)
    → Dict.get t.goals k ≡ some g
    → IsWf t
    → IsWf (put t k (record g { status = s }))
restatus-IsWf t k g s held w =
    IsSameShape-IsWf (IsRestatus-IsSameShape (put-IsRestatus t k g s held)) w

apply_proved-IsWf :
    (t : Tree) (k : GoalId) {t' : Tree} → IsWf t → apply_proved t k ≡ ok t' → IsWf t'
unfolding apply_proved
apply_proved-IsWf t k w h =
    let (g, found, rest) = >>=-eq_ok (find t k) _ h in
    let u = put t k (record g { status = Status.proved }) in
    IsSameShape-IsWf (IsRestatus-IsSameShape (settle-IsRestatus (fuel u) u g.parent rest))
      (restatus-IsWf t k g Status.proved (find-eq_ok t k found) w)

apply_refuted-IsWf :
    (t : Tree) (k : GoalId) {t' : Tree} → IsWf t → apply_refuted t k ≡ ok t' → IsWf t'
unfolding apply_refuted
apply_refuted-IsWf t k w h =
    let (g, found, done) = >>=-eq_ok (find t k) _ h in
    subst IsWf (ok-injective done) (restatus-IsWf t k g Status.refuted (find-eq_ok t k found) w)

-- An effect whose children are numbered above the goal that it splits keeps the tree well formed.
pub apply-IsWf :
    (t : Tree) (e : Effect) {t' : Tree} → IsWf t → IsRising e → apply t e ≡ ok t' → IsWf t'
unfolding apply
apply-IsWf t (step e) w r h = apply_step-IsWf t e w h
apply-IsWf t (revert gid side to) w r h = apply_revert-IsWf t gid side to w h
apply-IsWf t (cut e) w r h = apply_cut-IsWf t e w r h
apply-IsWf t (interpose gid a b) w r h = apply_interpose-IsWf t gid a b w r h
apply-IsWf t (case gid c a b) w r h = apply_case-IsWf t gid a b w r h
apply-IsWf t (strengthen e) w r h = apply_strengthen-IsWf t e w h
apply-IsWf t (uncut gid) w r h = undo-IsWf t gid _ _ w h
apply-IsWf t (uninterpose gid) w r h = undo-IsWf t gid _ _ w h
apply-IsWf t (uncase gid) w r h = undo-IsWf t gid _ _ w h
apply-IsWf t (proved gid by) w r h = apply_proved-IsWf t gid w h
apply-IsWf t (refuted gid) w r h = apply_refuted-IsWf t gid w h
