-- ===== src/Goals/Started.antt =====
-- engine/core/state/goals.ts: an effect that strengthens nothing keeps the root of the tree, and the
-- pair that it starts with is the pair of the run's start.
use alive_next.Prelude.{◌+◌, some, List, [], ◌∷◌, ◌++◌, ◌≡◌, refl, sym, subst, head?}
use native.Mathlib.Numerals.{add-one}
use alive_next.Prelude.Dict
use alive_next.Trajectory.{
  Hash, Side, src, tgt, StepEffect, Effect, step, interpose, case, cut, strengthen, uncut,
  uninterpose, uncase, revert,
}
use alive_next.Goals.Types.{GoalId, Goal, Tree, proved, refuted, ok, on, set_on, never_had}
use alive_next.Goals.Queries.{or_throw, find}
use alive_next.Goals.Moves.{put, fuel, editable}
use alive_next.Goals.Derive.{
  apply_step, apply_revert, apply_cut, apply_case, apply_proved, apply_refuted, apply,
  last_index_of, slice,
}
use alive_next.Goals.Restatus.{
  >>=-eq_ok, ok-injective, find-eq_ok, editable-IsRestatus, settle-IsRestatus,
}
use alive_next.Goals.Moved.{slice-EndsAt, or_throw-eq_ok}
use alive_next.Goals.Wf.{IsWf}
use alive_next.Goals.Invariant.{IsRising, apply_interpose-eq_ok, editable-IsWf}
use alive_next.Goals.Claims.{same-Starts, head?-append, head?-prefix}
use alive_next.Goals.Roots.{
  IsRootKept, IsRootKept-trans, restatus-IsRootKept, put-IsRootKept, name-IsRootKept,
  split_in_two-IsRootKept, undo-IsRootKept,
}

-- A side of a goal changes, and starts where it did.
side-IsRootKept :
    (t : Tree) (k : GoalId) (g : Goal) (s : Side) (hs : List Hash)
    → Dict.get t.goals k ≡ some g
    → ((a : Hash) → head? (on g s).history ≡ some a → head? hs ≡ some a)
    → IsRootKept t (put t k (set_on g s (record { history = hs })))
side-IsRootKept t k g src hs held starts = put-IsRootKept t k g _ held (starts, λ a e. e)
side-IsRootKept t k g tgt hs held starts = put-IsRootKept t k g _ held ((λ a e. e), starts)

editable-IsRootKept :
    (t : Tree) (k : GoalId) {u : Tree} {g : Goal} → editable t k ≡ ok (u, g) → IsRootKept t u
editable-IsRootKept t k h = restatus-IsRootKept (editable-IsRestatus t k h)

apply_step-IsRootKept :
    (t : Tree) (e : StepEffect) {t' : Tree} → IsWf t → apply_step t e ≡ ok t' → IsRootKept t t'
unfolding apply_step
apply_step-IsRootKept t e w h =
    let ((u, x), first, done) = >>=-eq_ok (editable t e.gid) _ h in
    let (_, held) = editable-IsWf t e.gid w first in
    let hs = (on x e.side).history ++ e.to ∷ [] in
    subst (IsRootKept t) (ok-injective done) (
      IsRootKept-trans (editable-IsRootKept t e.gid first) (
        IsRootKept-trans
          (side-IsRootKept u e.gid x e.side hs held
            λ a is. head?-append (on x e.side).history (e.to ∷ []) is)
          (name-IsRootKept (put u e.gid (set_on x e.side (record { history = hs }))) e.to)))

apply_revert-IsRootKept :
    (t : Tree) (k : GoalId) (s : Side) (to : Hash) {t' : Tree}
    → IsWf t
    → apply_revert t k s to ≡ ok t'
    → IsRootKept t t'
unfolding apply_revert
apply_revert-IsRootKept t k s to w h =
    let ((u, x), first, rest) = >>=-eq_ok (editable t k) _ h in
    let (_, held) = editable-IsWf t k w first in
    let (at, found, done) =
      >>=-eq_ok (or_throw (last_index_of (on x s).history to) (never_had k to s)) _ rest in
    let ends = slice-EndsAt (on x s).history to at (or_throw-eq_ok _ _ found) in
    subst (IsRootKept t) (ok-injective done) (
      IsRootKept-trans (editable-IsRootKept t k first) (
        side-IsRootKept u k x s (slice (on x s).history (at + 1)) held λ a is. rw (add-one at) (
          rw ends.kept (
            head?-prefix ends.before ends.after to
              (subst (λ hs. head? hs ≡ some a) ends.whole is)))))

-- Each effect but a strengthening, which moves both sides.
abbrev pub NoStrengthen : Effect → Type 0
NoStrengthen (strengthen e) = ⊥
NoStrengthen e = Unit {0}

-- An effect keeps the root and where it starts.
pub apply-IsRootKept :
    (t : Tree) (e : Effect) {t' : Tree}
    → IsWf t
    → IsRising e
    → NoStrengthen e
    → apply t e ≡ ok t'
    → IsRootKept t t'
unfolding apply apply_cut apply_case apply_proved apply_refuted
apply-IsRootKept t (step e) w rises plain h = apply_step-IsRootKept t e w h
apply-IsRootKept t (revert k side to) w rises plain h = apply_revert-IsRootKept t k side to w h
apply-IsRootKept t (cut e) w rises plain h =
    let ((u, g), first, rest) = >>=-eq_ok (editable t e.gid) _ h in
    let (w', held) = editable-IsWf t e.gid w first in
    IsRootKept-trans (editable-IsRootKept t e.gid first)
      (split_in_two-IsRootKept u e.gid g e.outer _ e.callee _ _ w' held rises.0 rises.1 rest)
apply-IsRootKept t (interpose k a b) w rises plain h =
    let (u, g, first, _, _, _, rest) = apply_interpose-eq_ok t k a b h in
    let (w', held) = editable-IsWf t k w first in
    IsRootKept-trans (editable-IsRootKept t k first)
      (split_in_two-IsRootKept u k g a _ b _ _ w' held rises.0 rises.1 rest)
apply-IsRootKept t (case k x a b) w rises plain h =
    let ((u, g), first, rest) = >>=-eq_ok (editable t k) _ h in
    let (w', held) = editable-IsWf t k w first in
    IsRootKept-trans (editable-IsRootKept t k first)
      (split_in_two-IsRootKept u k g a _ b _ _ w' held rises.0 rises.1 rest)
apply-IsRootKept t (strengthen e) w rises plain h = elim plain [ ]
apply-IsRootKept t (uncut k) w rises plain h = undo-IsRootKept t k _ _ w h
apply-IsRootKept t (uninterpose k) w rises plain h = undo-IsRootKept t k _ _ w h
apply-IsRootKept t (uncase k) w rises plain h = undo-IsRootKept t k _ _ w h
apply-IsRootKept t (Effect.proved k by) w rises plain h =
    let (g, found, rest) = >>=-eq_ok (find t k) _ h in
    let u = put t k (record g { status = proved }) in
    IsRootKept-trans
      (put-IsRootKept t k g (record g { status = proved }) (find-eq_ok t k found)
        (same-Starts g (record g { status = proved }) refl refl))
      (restatus-IsRootKept (settle-IsRestatus (fuel u) u g.parent rest))
apply-IsRootKept t (Effect.refuted k) w rises plain h =
    let (g, found, done) = >>=-eq_ok (find t k) _ h in
    subst (IsRootKept t) (ok-injective done) (
      put-IsRootKept t k g (record g { status = refuted }) (find-eq_ok t k found)
        (same-Starts g (record g { status = refuted }) refl refl))

-- The root of a tree, and the pair that it starts with.
pub record IsStarted (s q : Hash) (t : Tree) : Type 0 where
  pub goal : Goal
  pub held : Dict.get t.goals t.root ≡ some goal
  pub at_src : head? goal.src.history ≡ some s
  pub at_tgt : head? goal.tgt.history ≡ some q

pub IsRootKept-IsStarted :
    {t u : Tree} (s q : Hash) → IsRootKept t u → IsStarted s q t → IsStarted s q u
IsRootKept-IsStarted {t} {u} s q kept i =
    let (g, there, starts) = kept.top i.goal i.held in
    record {
      goal = g;
      held = subst (λ k. Dict.get u.goals k ≡ some g) (sym kept.root) there;
      at_src = starts.0 s i.at_src;
      at_tgt = starts.1 q i.at_tgt;
    }
