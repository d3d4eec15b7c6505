-- ===== src/Goals/Earned.antt =====
-- How `settle`, `unsettle`, a step and a revert of engine/core/state/goals.ts keep what is known of
-- the goals' claims.
use alive_next.Prelude.{
  ℕ, zero, suc, ◌+◌, Option, none, some, List, [], ◌∷◌, ◌++◌, ◌≡◌, ◌≢◌, refl, sym, ◌∙◌, ap, subst,
  arith, inl, inr, head?, get_last?,
}
use native.Mathlib.Numerals.{add-one}
use alive_next.Prelude.Dict
use alive_next.Trajectory.{Hash, Side, src, tgt, StepEffect}
use alive_next.Goals.Types.{
  GoalId, Goal, Tree, open_, proved, split, refuted, ok, on, set_on, SideHistory, never_had,
}
use alive_next.Goals.Queries.{or_throw}
use alive_next.Goals.Moves.{put, name, fuel, unsettle, settle, editable}
use alive_next.Goals.Derive.{apply_step, apply_revert, last_index_of, slice}
use alive_next.Goals.Restatus.{
  >>=-eq_ok, ok-injective, undone, reopened, same_status-eq, unsettle_step-eq_ok, settle_step-eq_ok,
  editable-eq_ok,
}
use alive_next.Goals.Editable.{editable-held}
use alive_next.Goals.Wf.{goals-name}
use alive_next.Goals.Settled.{find_all-proved}
use alive_next.Goals.Moved.{slice-EndsAt, or_throw-eq_ok}
use alive_next.Goals.Claims.{
  Refinement, Chain, Chain-append, Chain-prefix, head?-append, head?-prefix, same-Starts, Claim,
  Moves, Chains, IsKnown, IsEarned, Claim-First, open-IsKnown, stays-IsKnown, put-IsEarned,
}

module _ (r : Refinement) where
  pub goals-IsEarned : (t u : Tree) → u.goals ≡ t.goals → IsEarned r t → IsEarned r u
  goals-IsEarned t u same e = record {
    known = λ k g h.
        stays-IsKnown r t u g
          (λ c x m there.
            (x, subst (λ d. Dict.get d c ≡ some x) (sym same) there, same-Starts x x refl refl))
          (e.known k g (subst (λ d. Dict.get d k ≡ some g) same h));
  }

  pub name-IsEarned : (t : Tree) (h : Hash) → IsEarned r t → IsEarned r (name t h)
  name-IsEarned t h e = goals-IsEarned t (name t h) (goals-name t h) e

  -- A goal whose pair refines may become proved.
  pub prove-IsEarned :
      (t : Tree) (k : GoalId) (g : Goal)
      → Dict.get t.goals k ≡ some g
      → Claim r g
      → IsEarned r t
      → IsEarned r (put t k (record g { status = proved }))
  prove-IsEarned t k g held claim e =
      put-IsEarned r t k g (record g { status = proved }) held
        (same-Starts g (record g { status = proved }) refl refl)
        (record {
          chains = (e.known k g held).chains;
          proves = λ _. claim;
          splits = λ bad. cc (bad);
          refutes = λ bad. cc (bad);
        })
        e

  pub settle-IsEarned :
      (f : ℕ) (t : Tree) (p : Option GoalId) {t' : Tree}
      → IsEarned r t
      → settle f t p ≡ ok t'
      → IsEarned r t'
  unfolding settle
  settle-IsEarned f t none e h = subst (IsEarned r) (ok-injective h) e
  settle-IsEarned zero t (some k) e h = cc
  settle-IsEarned (suc f) t (some k) e h =
      let (g, held, rest) = settle_step-eq_ok (settle f) t k h in
      elim rest [
        | inl same ↦ subst (IsEarned r) same e
        | inr (cs, is_split, found, a, up) ↦
            settle-IsEarned f (put t k (record g { status = proved })) g.parent
              (prove-IsEarned t k g held
                ((e.known k g held).splits (same_status-eq g.status split is_split) λ c x m there.
                  Claim-First r x (e.known c x there).chains (
                    (e.known c x there).proves
                      (find_all-proved t g.children cs c x found a m there)))
                e)
              up
      ]

  -- A goal that was proved has a pair that refines, so it is known whatever it becomes by undoing.
  undone-IsKnown :
      (t : Tree) (g : Goal) → g.status ≡ proved → IsKnown r t g → IsKnown r t (undone g)
  undone-IsKnown t g is i = record {
    chains = i.chains;
    proves = λ _. i.proves is;
    splits = λ _ _. i.proves is;
    refutes = λ bad. absurd (undone-refuted g bad);
  }
    where
      undone-refuted : (g : Goal) → (undone g).status ≢ refuted
      undone-refuted g bad = ground arith

  unsettle-IsEarned :
      (f : ℕ) (t : Tree) (p : Option GoalId) {t' : Tree}
      → IsEarned r t
      → unsettle f t p ≡ ok t'
      → IsEarned r t'
  unfolding unsettle
  unsettle-IsEarned f t none e h = subst (IsEarned r) (ok-injective h) e
  unsettle-IsEarned zero t (some k) e h = cc
  unsettle-IsEarned (suc f) t (some k) e h =
      let (g, held, rest) = unsettle_step-eq_ok (unsettle f) t k h in
      elim rest [
        | inl (_, same) ↦ subst (IsEarned r) same e
        | inr (is, up) ↦
            unsettle-IsEarned f (put t k (undone g)) g.parent
              (put-IsEarned r t k g (undone g) held (same-Starts g (undone g) refl refl)
                (undone-IsKnown t g (same_status-eq g.status proved is) (e.known k g held)) e)
              up
      ]

  -- What an effect has in hand after `editable`: a known tree, and the goal, open, as it was.
  pub editable-IsEarned :
      (t : Tree) (k : GoalId) {u : Tree} {g' : Goal}
      → IsEarned r t
      → editable t k ≡ ok (u, g')
      → IsEarned r u
        × (Dict.get u.goals k ≡ some g')
        × ((g : Goal) × (Dict.get t.goals k ≡ some g) × (g' ≡ reopened g))
  editable-IsEarned t k {u} {g'} e h =
      let (g, there, (held, same)) = editable-held t k h in
      let (x, found, rest) = editable-eq_ok t k h in
      (
        elim rest [
          | inl (_, is, _) ↦ subst (IsEarned r) is e
          | inr (_, up, _) ↦
              unsettle-IsEarned (fuel t) (put t k (reopened x)) x.parent
                (put-IsEarned r t k x (reopened x) found (same-Starts x (reopened x) refl refl)
                  (open-IsKnown r t (reopened x) refl (e.known k x found).chains) e)
                up
        ],
        held,
        (g, there, same),
      )

  -- A side of an open goal may change if it is a chain of moves that starts where it did.
  moved-IsEarned :
      (t : Tree) (k : GoalId) (g : Goal) (s : Side) (hs : List Hash)
      → IsEarned r t
      → Dict.get t.goals k ≡ some g
      → g.status ≡ open_
      → Chain (Moves r s) hs
      → ((a : Hash) → head? (on g s).history ≡ some a → head? hs ≡ some a)
      → IsEarned r (put t k (set_on g s (record { history = hs })))
  moved-IsEarned t k g src hs e held o chain starts =
      put-IsEarned r t k g _ held (starts, λ a h. h)
        (open-IsKnown r t _ o (chain, (e.known k g held).chains.1)) e
  moved-IsEarned t k g tgt hs e held o chain starts =
      put-IsEarned r t k g _ held ((λ a h. h), starts)
        (open-IsKnown r t _ o ((e.known k g held).chains.0, chain)) e

  Chain-on : (g : Goal) (s : Side) → Chains r g → Chain (Moves r s) (on g s).history
  Chain-on g src c = c.0
  Chain-on g tgt c = c.1

  -- A step whose program refines, or is refined by, the head of its side, by the side's direction.
  abbrev pub IsMove : Tree → StepEffect → Type 0
  IsMove t e =
      (g : Goal) (a : Hash)
      → Dict.get t.goals e.gid ≡ some g
      → get_last? (on g e.side).history ≡ some a
      → Moves r e.side a e.to

  on-reopened : (g : Goal) (s : Side) → on (reopened g) s ≡ on g s
  on-reopened g src = refl
  on-reopened g tgt = refl

  pub apply_step-IsEarned :
      (t : Tree) (e : StepEffect) {t' : Tree}
      → IsEarned r t
      → IsMove t e
      → apply_step t e ≡ ok t'
      → IsEarned r t'
  unfolding apply_step
  apply_step-IsEarned t e i is_move h =
      let ((u, x), first, done) = >>=-eq_ok (editable t e.gid) _ h in
      let (i', held, (g, there, same)) = editable-IsEarned t e.gid i first in
      let old : on x e.side ≡ on g e.side =
        ap (λ (y : Goal). on y e.side) same ∙ on-reopened g e.side in
      let hs = (on x e.side).history ++ e.to ∷ [] in
      subst (IsEarned r) (ok-injective done) (
        name-IsEarned (put u e.gid (set_on x e.side (record { history = hs }))) e.to (
          moved-IsEarned u e.gid x e.side hs i' held (ap (λ (y : Goal). y.status) same)
            (Chain-append (Moves r e.side) (on x e.side).history e.to
              (Chain-on x e.side (i'.known e.gid x held).chains)
              λ a last.
                is_move g a there (ap (λ (y : SideHistory). get_last? y.history) (sym old) ∙ last))
            (λ a is. head?-append (on x e.side).history (e.to ∷ []) is)))

  pub apply_revert-IsEarned :
      (t : Tree) (k : GoalId) (s : Side) (to : Hash) {t' : Tree}
      → IsEarned r t
      → apply_revert t k s to ≡ ok t'
      → IsEarned r t'
  unfolding apply_revert
  apply_revert-IsEarned t k s to i h =
      let ((u, x), first, rest) = >>=-eq_ok (editable t k) _ h in
      let (i', held, (g, there, same)) = editable-IsEarned t k i first in
      let (at, found, done) =
        >>=-eq_ok (or_throw (last_index_of (on x s).history to) (never_had k to s)) _ rest in
      let ends = slice-EndsAt (on x s).history to at (or_throw-eq_ok _ _ found) in
      let kept : slice (on x s).history (at + 1) ≡ ends.before ++ to ∷ [] =
        rw (add-one at) ends.kept in
      subst (IsEarned r) (ok-injective done) (
        moved-IsEarned u k x s (slice (on x s).history (at + 1)) i' held
          (ap (λ (y : Goal). y.status) same)
          (rw kept (
            Chain-prefix (Moves r s) ends.before to ends.after
              (subst (Chain (Moves r s)) ends.whole (Chain-on x s (i'.known k x held).chains))))
          (λ a is. rw kept (
            head?-prefix ends.before ends.after to
              (subst (λ hs. head? hs ≡ some a) ends.whole is))))
