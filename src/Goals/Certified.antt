-- ===== src/Goals/Certified.antt =====
-- engine/core/state/goals.ts: a run whose effects are each certified is right about its verdict.
use alive_next.Prelude.{
  none, some, List, ◌≡◌, refl, sym, ◌∙◌, ap, subst, arith, some-eq, head?, get_last?, inl, inr,
  Option-cases,
}
use alive_next.Prelude.Dict
use alive_next.Trajectory.{
  Hash, src, tgt, Half, Effect, Entry, CutEffect, step, interpose, case, cut, strengthen, uncut,
  uninterpose, uncase, revert,
}
use alive_next.Goals.Types.{GoalId, Goal, Tree, Status, open_, proved, refuted, ok}
use alive_next.Goals.Queries.{find, head, verdict, verified, counterexample, verdict_of}
use alive_next.Goals.Moves.{put, name, fuel, editable}
use alive_next.Goals.Derive.{
  apply_cut, apply_interpose, apply_case, apply_proved, apply_refuted, apply, derive, start_tree,
}
use alive_next.Goals.Restatus.{>>=-eq_ok, ok-injective, find-eq_ok}
use alive_next.Goals.Wf.{IsWf, goals-name}
use alive_next.Goals.Invariant.{Rises, IsRising, apply_interpose-eq_ok, editable-IsWf}
use alive_next.Goals.Replay.{PlaysAll, start_tree-IsWf, derive-keeps, seed, seed-only, root_goal}
use alive_next.Goals.Ids.{TakesNext, apply-IsWf_next, TakesNext-IsRising}
use alive_next.Goals.Moved.{or_throw-eq_ok}
use alive_next.Goals.Verdict.{verified-IsProved}
use alive_next.Goals.Claims.{
  Refinement, Chain-head, Moves, same-Starts, Claim, First, IsKnown, IsEarned, Claim-First,
  put-IsEarned, open-IsKnown,
}
use alive_next.Goals.Earned.{
  goals-IsEarned, prove-IsEarned, settle-IsEarned, editable-IsEarned, IsMove, apply_step-IsEarned,
  apply_revert-IsEarned,
}
use alive_next.Goals.Earning.{split_in_two-IsEarned, undo-IsEarned}

verdict_of-refuted : (s : Status) → verdict_of s ≡ counterexample → s ≡ refuted
verdict_of-refuted s e = ground arith

counterexample-IsRefuted :
    (t : Tree)
    → verdict t ≡ counterexample
    → (g : Goal) × (Dict.get t.goals t.root ≡ some g) × (g.status ≡ refuted)
unfolding verdict
counterexample-IsRefuted t v = elim (Option-cases (Dict.get t.goals t.root)) [
  | inl e ↦ cc (rw (e, verdict) at v)
  | inr (g, e) ↦ (g, e, verdict_of-refuted g.status (rw (e, verdict) at v))
]

module _ (r : Refinement) where
  -- The two halves of a split are enough for the pair that the goal is at.
  abbrev pub IsEnough : Tree → GoalId → Half → Half → Type 0
  IsEnough t k a b =
      (g : Goal)
      → Dict.get t.goals k ≡ some g
      → r.refines a.src a.tgt
      → r.refines b.src b.tgt
      → Claim r g

  -- What is asked of an effect, by its kind: a step moves its side in its direction, a cut's or a
  -- case's halves are enough for the goal, a goal is discharged at a pair that refines, and refuted
  -- where its first pair does not. A strengthen is not covered.
  abbrev pub IsCertified : Tree → Effect → Type 0
  IsCertified t (step e) = IsMove r t e
  IsCertified t (revert k s to) = Unit {0}
  IsCertified t (cut e) = IsEnough t e.gid e.outer e.callee
  IsCertified t (interpose k a b) = Unit {0}
  IsCertified t (case k c a b) = IsEnough t k a b
  IsCertified t (strengthen e) = ⊥
  IsCertified t (uncut k) = Unit {0}
  IsCertified t (uninterpose k) = Unit {0}
  IsCertified t (uncase k) = Unit {0}
  IsCertified t (Effect.proved k by) = (g : Goal) → Dict.get t.goals k ≡ some g → Claim r g
  IsCertified t (Effect.refuted k) = (g : Goal) → Dict.get t.goals k ≡ some g → First r g → ⊥

  -- The edited goal's pair refines where the goal's did.
  module _ (t : Tree) (k : GoalId) {u : Tree} {g : Goal} (w : IsWf t) (e : IsEarned r t)
      (h : editable t k ≡ ok (u, g)) where
    edited : IsWf u × IsEarned r u × (Dict.get u.goals k ≡ some g) × (g.status ≡ open_)
    edited =
        let (w', held) = editable-IsWf t k w h in
        let (e', _, (_, _, same)) = editable-IsEarned r t k e h in
        (w', e', held, ap (λ (y : Goal). y.status) same)

    edited-enough :
        (a b : Half) → IsEnough t k a b → r.refines a.src a.tgt → r.refines b.src b.tgt → Claim r g
    edited-enough a b enough x y s q at_src at_tgt =
        let (_, _, (g', there, same)) = editable-IsEarned r t k e h in
        enough g' there x y s q (subst (λ (v : Goal). get_last? v.src.history ≡ some s) same at_src)
          (subst (λ (v : Goal). get_last? v.tgt.history ≡ some q) same at_tgt)

  apply_cut-IsEarned :
      (t : Tree) (e : CutEffect) {t' : Tree}
      → IsWf t
      → IsEarned r t
      → Rises e.gid e.outer e.callee
      → IsEnough t e.gid e.outer e.callee
      → apply_cut t e ≡ ok t'
      → IsEarned r t'
  unfolding apply_cut
  apply_cut-IsEarned t e w i rises enough h =
      let ((u, g), first, rest) = >>=-eq_ok (editable t e.gid) _ h in
      let (w', i', held, o) = edited t e.gid w i first in
      split_in_two-IsEarned r u e.gid g e.outer _ e.callee _ _ w' i' held o rises.0 rises.1
        (edited-enough t e.gid w i first e.outer e.callee enough) rest

  apply_case-IsEarned :
      (t : Tree) (k : GoalId) (a b : Half) {t' : Tree}
      → IsWf t
      → IsEarned r t
      → Rises k a b
      → IsEnough t k a b
      → apply_case t k a b ≡ ok t'
      → IsEarned r t'
  unfolding apply_case
  apply_case-IsEarned t k a b w i rises enough h =
      let ((u, g), first, rest) = >>=-eq_ok (editable t k) _ h in
      let (w', i', held, o) = edited t k w i first in
      split_in_two-IsEarned r u k g a _ b _ _ w' i' held o rises.0 rises.1
        (edited-enough t k w i first a b enough) rest

  -- The halves of an interpose meet, so they are enough.
  apply_interpose-IsEarned :
      (t : Tree) (k : GoalId) (a b : Half) {t' : Tree}
      → IsWf t
      → IsEarned r t
      → Rises k a b
      → apply_interpose t k a b ≡ ok t'
      → IsEarned r t'
  unfolding head
  apply_interpose-IsEarned t k a b w i rises h =
      let (u, g, first, at_src, at_tgt, meet, rest) = apply_interpose-eq_ok t k a b h in
      let (w', i', held, o) = edited t k w i first in
      split_in_two-IsEarned r u k g a _ b _ _ w' i' held o rises.0 rises.1
        (λ x y s q last_src last_tgt.
          subst (λ v. r.refines v q) (some-eq (sym (or_throw-eq_ok _ _ at_src) ∙ last_src))
            (subst (λ v. r.refines a.src v) (some-eq (sym (or_throw-eq_ok _ _ at_tgt) ∙ last_tgt))
              (r.through a.src a.tgt b.tgt x (subst (λ v. r.refines v b.tgt) (sym meet) y))))
        rest

  apply_proved-IsEarned :
      (t : Tree) (k : GoalId) {t' : Tree}
      → IsEarned r t
      → ((g : Goal) → Dict.get t.goals k ≡ some g → Claim r g)
      → apply_proved t k ≡ ok t'
      → IsEarned r t'
  unfolding apply_proved
  apply_proved-IsEarned t k i claim h =
      let (g, found, rest) = >>=-eq_ok (find t k) _ h in
      let held = find-eq_ok t k found in
      settle-IsEarned r (fuel (put t k (record g { status = proved }))) _ g.parent
        (prove-IsEarned r t k g held (claim g held) i) rest

  apply_refuted-IsEarned :
      (t : Tree) (k : GoalId) {t' : Tree}
      → IsEarned r t
      → ((g : Goal) → Dict.get t.goals k ≡ some g → First r g → ⊥)
      → apply_refuted t k ≡ ok t'
      → IsEarned r t'
  unfolding apply_refuted
  apply_refuted-IsEarned t k i no_first h =
      let (g, found, done) = >>=-eq_ok (find t k) _ h in
      let held = find-eq_ok t k found in
      subst (IsEarned r) (ok-injective done) (
        put-IsEarned r t k g (record g { status = refuted }) held
          (same-Starts g (record g { status = refuted }) refl refl)
          (record {
            chains = (i.known k g held).chains;
            proves = λ bad. cc (bad);
            splits = λ bad. cc (bad);
            refutes = λ _. no_first g held;
          })
          i)

  apply-IsEarned :
      (t : Tree) (e : Effect) {t' : Tree}
      → IsWf t
      → IsEarned r t
      → IsRising e
      → IsCertified t e
      → apply t e ≡ ok t'
      → IsEarned r t'
  unfolding apply
  apply-IsEarned t (step e) w i rises c h = apply_step-IsEarned r t e i c h
  apply-IsEarned t (revert k side to) w i rises c h = apply_revert-IsEarned r t k side to i h
  apply-IsEarned t (cut e) w i rises c h = apply_cut-IsEarned t e w i rises c h
  apply-IsEarned t (interpose k a b) w i rises c h = apply_interpose-IsEarned t k a b w i rises h
  apply-IsEarned t (case k x a b) w i rises c h = apply_case-IsEarned t k a b w i rises c h
  apply-IsEarned t (strengthen e) w i rises c h = elim c [ ]
  apply-IsEarned t (uncut k) w i rises c h = undo-IsEarned r t k _ _ w i h
  apply-IsEarned t (uninterpose k) w i rises c h = undo-IsEarned r t k _ _ w i h
  apply-IsEarned t (uncase k) w i rises c h = undo-IsEarned r t k _ _ w i h
  apply-IsEarned t (Effect.proved k by) w i rises c h = apply_proved-IsEarned t k i c h
  apply-IsEarned t (Effect.refuted k) w i rises c h = apply_refuted-IsEarned t k i c h

  -- A well-formed tree that is right about its goals, at the pair that the run started with.
  pub record IsRight (t : Tree) : Type 0 where
    pub wf : IsWf t
    pub earned : IsEarned r t

  abbrev pub IsCertifiedNext : Tree → Effect → Type 0
  IsCertifiedNext t e = TakesNext t e × IsCertified t e

  pub start_tree-IsRight : (s t : Hash) → IsRight (start_tree s t)
  unfolding start_tree
  start_tree-IsRight s t = record {
    wf = start_tree-IsWf s t;
    earned =
        goals-IsEarned r (seed s t) (start_tree s t)
          (goals-name (name (seed s t) s) t ∙ goals-name (seed s t) s)
          (record {
            known = λ k g h.
                let (_, same) = seed-only s t k g h in
                subst (IsKnown r (seed s t)) same
                  (open-IsKnown r (seed s t) (root_goal s t) refl (tt, tt));
          });
  }

  pub apply-IsRight :
      (t : Tree) (e : Effect) (t' : Tree)
      → IsRight t
      → IsCertifiedNext t e
      → apply t e ≡ ok t'
      → IsRight t'
  apply-IsRight t e t' i c h = record {
    wf = apply-IsWf_next t e t' i.wf c.0 h;
    earned = apply-IsEarned t e i.wf i.earned (TakesNext-IsRising t e i.wf c.0 h) c.1 h;
  }

  derive-IsRight :
      (entries : List Entry) (t : Tree)
      → PlaysAll IsCertifiedNext none entries
      → derive entries ≡ ok t
      → IsRight t
  derive-IsRight = derive-keeps IsRight IsCertifiedNext start_tree-IsRight apply-IsRight

  -- The pair that the root of a tree started with.
  abbrev pub RootPair : Tree → Hash → Hash → Type 0
  RootPair t s q =
      (g : Goal) × (Dict.get t.goals t.root ≡ some g)
      × (head? g.src.history ≡ some s)
      × (head? g.tgt.history ≡ some q)

  root-pair :
      (t : Tree) (g : Goal)
      → IsEarned r t
      → Dict.get t.goals t.root ≡ some g
      → (s q : Hash) × (head? g.src.history ≡ some s) × (head? g.tgt.history ≡ some q)
  root-pair t g i held =
      let c = (i.known t.root g held).chains in
      let (s, at_src) = Chain-head (Moves r src) g.src.history c.0 in
      let (q, at_tgt) = Chain-head (Moves r tgt) g.tgt.history c.1 in (s, q, at_src, at_tgt)

  -- Replaying a log whose splits take the next ids and whose effects are certified, each by its kind,
  -- and that strengthens nothing: a verified verdict is right, since the second of the pair of
  -- programs that the root started with refines the first.
  pub derive-verified_right :
      (entries : List Entry) (t : Tree)
      → PlaysAll IsCertifiedNext none entries
      → derive entries ≡ ok t
      → verdict t ≡ verified
      → (s q : Hash) × RootPair t s q × r.refines s q
  derive-verified_right entries t plays h v =
      let right = derive-IsRight entries t plays h in
      let (g, held, is) = verified-IsProved t v in
      let (s, q, at_src, at_tgt) = root-pair t g right.earned held in
      let known = right.earned.known t.root g held in
      (
        s,
        q,
        (g, held, at_src, at_tgt),
        Claim-First r g known.chains (known.proves is) s q at_src at_tgt,
      )

  -- Replaying such a log, a verdict of a counterexample is right: of the pair of programs that the
  -- root started with, the second does not refine the first.
  pub derive-counterexample_right :
      (entries : List Entry) (t : Tree)
      → PlaysAll IsCertifiedNext none entries
      → derive entries ≡ ok t
      → verdict t ≡ counterexample
      → (s q : Hash) × RootPair t s q × (r.refines s q → ⊥)
  derive-counterexample_right entries t plays h v =
      let right = derive-IsRight entries t plays h in
      let (g, held, is) = counterexample-IsRefuted t v in
      let (s, q, at_src, at_tgt) = root-pair t g right.earned held in
      (
        s,
        q,
        (g, held, at_src, at_tgt),
        λ refines. (right.earned.known t.root g held).refutes is λ s' q' is_s is_q.
            subst (λ x. r.refines s' x) (some-eq (sym at_tgt ∙ is_q))
              (subst (λ x. r.refines x q) (some-eq (sym at_src ∙ is_s)) refines),
      )
