-- ===== src/Goals/Verdict.antt =====
-- What `verdict` of engine/core/state/goals.ts stands on: a verified run has no goal below its root
-- that is not proved.
use alive_next.Prelude.{
  Bool, true, ◌&&◌, none, some, List, ◌≡◌, sym, ◌∙◌, ap, subst, arith, In, inl, inr, some-eq,
  Bool-cases, Option-cases,
}
use alive_next.Prelude.Dict
use alive_next.Prelude.Dict.{get-set_cases, get-empty}
use alive_next.Trajectory.{
  Hash, Half, Effect, Entry, CutEffect, step, interpose, case, cut, strengthen, uncut, uninterpose,
  uncase, revert,
}
use alive_next.Goals.Types.{
  GoalId, Goal, Tree, Status, proved, split, refuted, DerivationError, ok, same_status,
}
use alive_next.Goals.Queries.{find, verdict, verified, verdict_of}
use alive_next.Goals.Moves.{put, name, fuel, editable}
use alive_next.Goals.Derive.{
  apply_cut, apply_interpose, apply_case, undo, apply_proved, apply_refuted, apply, derive,
  start_tree,
}
use alive_next.Goals.Restatus.{>>=-eq_ok, ok-injective, find-eq_ok, same_status-eq}
use alive_next.Goals.Wf.{IsWf, goals-name}
use alive_next.Goals.Invariant.{Rises, IsRising, apply_interpose-eq_ok}
use alive_next.Goals.Replay.{PlaysAll, start_tree-IsWf, derive-keeps, seed, seed-only}
use alive_next.Goals.Ids.{TakesNext, apply-IsWf_next, TakesNext-IsRising}
use alive_next.Goals.Settled.{IsSettled, KidsProved, prove-IsSettled, settle-IsSettled}
use alive_next.Goals.Sound.{
  edited, apply_step-IsSettled, apply_revert-IsSettled, apply_strengthen-IsSettled,
  split_in_two-IsSettled, reopen-IsSettled, goals-IsSettled,
}

-- A goal that is discharged by a check has no unproved child, and only the root is refuted.
abbrev pub IsDisciplined : Tree → Effect → Type 0
IsDisciplined t (Effect.proved gid by) = (g : Goal) → Dict.get t.goals gid ≡ some g → KidsProved t g
IsDisciplined t (Effect.refuted gid) = gid ≡ t.root
IsDisciplined t _ = Unit {0}

split-IsSettled_cut :
    (t : Tree) (e : CutEffect) {t' : Tree}
    → IsWf t
    → IsSettled t
    → Rises e.gid e.outer e.callee
    → apply_cut t e ≡ ok t'
    → IsSettled t'
unfolding apply_cut
split-IsSettled_cut t e w s r h =
    let ((u, g), first, rest) = >>=-eq_ok (editable t e.gid) _ h in
    let (w', held, s', o) = edited t e.gid w s first in
    split_in_two-IsSettled u e.gid g e.outer _ e.callee _ _ w' s' held o r.0 r.1 rest

split-IsSettled_case :
    (t : Tree) (k : GoalId) (a b : Half) {t' : Tree}
    → IsWf t
    → IsSettled t
    → Rises k a b
    → apply_case t k a b ≡ ok t'
    → IsSettled t'
unfolding apply_case
split-IsSettled_case t k a b w s r h =
    let ((u, g), first, rest) = >>=-eq_ok (editable t k) _ h in
    let (w', held, s', o) = edited t k w s first in
    split_in_two-IsSettled u k g a _ b _ _ w' s' held o r.0 r.1 rest

split-IsSettled_interpose :
    (t : Tree) (k : GoalId) (a b : Half) {t' : Tree}
    → IsWf t
    → IsSettled t
    → Rises k a b
    → apply_interpose t k a b ≡ ok t'
    → IsSettled t'
split-IsSettled_interpose t k a b w s r h =
    let (u, g, first, _, _, _, rest) = apply_interpose-eq_ok t k a b h in
    let (w', held, s', o) = edited t k w s first in
    split_in_two-IsSettled u k g a _ b _ _ w' s' held o r.0 r.1 rest

undo-IsSettled :
    (t : Tree) (k : GoalId) (fits : Tree → Goal → Bool) (why : DerivationError) {t' : Tree}
    → IsWf t
    → IsSettled t
    → undo t k fits why ≡ ok t'
    → IsSettled t'
unfolding undo
undo-IsSettled t k fits why w s h =
    let (p, found, rest) = >>=-eq_ok (find t k) _ h in
    elim (Bool-cases (same_status p.status split && fits t p)) [
      | inl e ↦
          reopen-IsSettled t k p w s (find-eq_ok t k found)
            (same_status-eq p.status split (and_left (same_status p.status split) (fits t p) e))
            (rw e at rest)
      | inr n ↦ cc (rw n at rest)
    ]
  where
    and_left : (a b : Bool) → (a && b) ≡ true → a ≡ true
    and_left a b e = ground arith

apply_proved-IsSettled :
    (t : Tree) (k : GoalId) {t' : Tree}
    → IsSettled t
    → ((g : Goal) → Dict.get t.goals k ≡ some g → KidsProved t g)
    → apply_proved t k ≡ ok t'
    → IsSettled t'
unfolding apply_proved
apply_proved-IsSettled t k s kids h =
    let (g, found, rest) = >>=-eq_ok (find t k) _ h in
    let u = put t k (record g { status = proved }) in
    settle-IsSettled (fuel u) u g.parent (prove-IsSettled t k g s (kids g (find-eq_ok t k found)))
      rest

-- The root is nobody's child, so refuting it leaves every proved goal with its children proved.
apply_refuted-IsSettled :
    (t : Tree) (k : GoalId) {t' : Tree}
    → IsWf t
    → IsSettled t
    → k ≡ t.root
    → apply_refuted t k ≡ ok t'
    → IsSettled t'
unfolding apply_refuted put
apply_refuted-IsSettled t k w s is_root h =
    let (g, found, done) = >>=-eq_ok (find t k) _ h in
    subst IsSettled (ok-injective done) (record {
      at = λ j x e q c y m f. elim (get-set_cases t.goals k j (record g { status = refuted }) x e) [
        | inl (_, same) ↦ cc (ap (λ (z : Goal). z.status) same, q)
        | inr (_, e') ↦ elim (get-set_cases t.goals k c (record g { status = refuted }) y f) [
          | inl (here, _) ↦
              let (z, f', up) = w.kids j x c e' m in
              let (r, at_root, top) = w.top in
              cc (
                up,
                top,
                ap (λ (v : Goal). v.parent)
                    (some-eq (sym f' ∙ ap (Dict.get t.goals) (sym here ∙ is_root) ∙ at_root)),
              )
          | inr (_, f') ↦ s.at j x e' q c y m f'
        ]
      ];
    })

-- A well-formed tree in which every child of a proved goal is proved.
pub record IsSound (t : Tree) : Type 0 where
  pub wf : IsWf t
  pub settled : IsSettled t

abbrev pub IsSoundEffect : Tree → Effect → Type 0
IsSoundEffect t e = TakesNext t e × IsDisciplined t e

apply-IsSettled :
    (t : Tree) (e : Effect) {t' : Tree}
    → IsWf t
    → IsSettled t
    → IsRising e
    → IsDisciplined t e
    → apply t e ≡ ok t'
    → IsSettled t'
unfolding apply
apply-IsSettled t (step e) w s r d h = apply_step-IsSettled t e w s h
apply-IsSettled t (revert k side to) w s r d h = apply_revert-IsSettled t k side to w s h
apply-IsSettled t (cut e) w s r d h = split-IsSettled_cut t e w s r h
apply-IsSettled t (interpose k a b) w s r d h = split-IsSettled_interpose t k a b w s r h
apply-IsSettled t (case k c a b) w s r d h = split-IsSettled_case t k a b w s r h
apply-IsSettled t (strengthen e) w s r d h = apply_strengthen-IsSettled t e w s h
apply-IsSettled t (uncut k) w s r d h = undo-IsSettled t k _ _ w s h
apply-IsSettled t (uninterpose k) w s r d h = undo-IsSettled t k _ _ w s h
apply-IsSettled t (uncase k) w s r d h = undo-IsSettled t k _ _ w s h
apply-IsSettled t (Effect.proved k by) w s r d h = apply_proved-IsSettled t k s d h
apply-IsSettled t (Effect.refuted k) w s r d h = apply_refuted-IsSettled t k w s d h

pub apply-IsSound :
    (t : Tree) (e : Effect) (t' : Tree)
    → IsSound t
    → IsSoundEffect t e
    → apply t e ≡ ok t'
    → IsSound t'
apply-IsSound t e t' i d h = record {
  wf = apply-IsWf_next t e t' i.wf d.0 h;
  settled = apply-IsSettled t e i.wf i.settled (TakesNext-IsRising t e i.wf d.0 h) d.1 h;
}

pub start_tree-IsSound : (s t : Hash) → IsSound (start_tree s t)
unfolding start_tree
start_tree-IsSound s t = record {
  wf = start_tree-IsWf s t;
  settled =
      goals-IsSettled (seed s t) (start_tree s t)
        (goals-name (name (seed s t) s) t ∙ goals-name (seed s t) s)
        (record {
          at = λ k g h q.
              let (_, same) = seed-only s t k g h in cc (ap (λ (x : Goal). x.status) same, q);
        });
}

-- The goals that lie below a goal, itself included.
pub data Below (t : Tree) (k : GoalId) : GoalId → Type 0 where
  here : Below t k k
  child :
      {j : GoalId} (g : Goal) (c : GoalId)
      → Below t k j
      → Dict.get t.goals j ≡ some g
      → In c g.children
      → Below t k c

abbrev pub IsProved : Tree → GoalId → Type 0
IsProved t k = (g : Goal) × (Dict.get t.goals k ≡ some g) × (g.status ≡ proved)

Below-IsProved : {t : Tree} {k j : GoalId} → IsSound t → IsProved t k → Below t k j → IsProved t j
Below-IsProved i p here = p
Below-IsProved i p (child g c b e m) =
    let (g', e', q) = Below-IsProved i p b in
    let (x, f, _) = i.wf.kids _ g c e m in
    (x, f, i.settled.at _ g e (ap (λ (y : Goal). y.status) (some-eq (sym e ∙ e')) ∙ q) c x m f)

verdict_of-eq : (s : Status) → verdict_of s ≡ verified → s ≡ proved
verdict_of-eq s e = ground arith

pub verified-IsProved : (t : Tree) → verdict t ≡ verified → IsProved t t.root
unfolding verdict
verified-IsProved t v = elim (Option-cases (Dict.get t.goals t.root)) [
  | inl e ↦ cc (rw (e, verdict) at v)
  | inr (g, e) ↦ (g, e, verdict_of-eq g.status (rw (e, verdict) at v))
]

-- In a tree that is sound, a verified verdict has every goal below the root proved.
pub verdict-verified :
    (t : Tree) (j : GoalId) → IsSound t → verdict t ≡ verified → Below t t.root j → IsProved t j
verdict-verified t j i v b = Below-IsProved i (verified-IsProved t v) b

-- Replaying a log whose splits take the next ids, whose discharges are of goals with no unproved
-- child and whose refutations are of the root: if the verdict is verified, every goal below the
-- root is proved.
pub derive-verified :
    (entries : List Entry) (t : Tree) (j : GoalId)
    → PlaysAll IsSoundEffect none entries
    → derive entries ≡ ok t
    → verdict t ≡ verified
    → Below t t.root j
    → IsProved t j
derive-verified entries t j plays h v b =
    verdict-verified t j
      (derive-keeps IsSound IsSoundEffect start_tree-IsSound apply-IsSound entries t plays h) v b
