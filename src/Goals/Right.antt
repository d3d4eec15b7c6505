-- ===== src/Goals/Right.antt =====
-- engine/core/state/goals.ts: the verdict of a run is right about the pair that its start event names.
use alive_next.Prelude.{none, List, ◌∷◌, ◌≡◌, refl, sym, ◌∙◌, ap, subst, some-eq, head?}
use alive_next.Prelude.Dict
use alive_next.Trajectory.{
  Hash, Effect, Entry, StartEvent, start, step, interpose, case, cut, strengthen, uncut,
  uninterpose, uncase, revert,
}
use alive_next.Goals.Types.{Goal, Tree, ok}
use alive_next.Goals.Queries.{verdict, verified, counterexample}
use alive_next.Goals.Moves.{name}
use alive_next.Goals.Derive.{apply, derive, start_tree}
use alive_next.Goals.Wf.{goals-name, root-name}
use alive_next.Goals.Replay.{PlaysAll, derive-keeps_from, seed, root_goal}
use alive_next.Goals.Ids.{TakesNext-IsRising}
use alive_next.Goals.Claims.{Refinement}
use alive_next.Goals.Certified.{
  IsCertified, IsCertifiedNext, IsRight, RootPair, start_tree-IsRight, apply-IsRight,
  derive-verified_right, derive-counterexample_right,
}
use alive_next.Goals.Roots.{goals-IsRootKept}
use alive_next.Goals.Started.{NoStrengthen, apply-IsRootKept, IsStarted, IsRootKept-IsStarted}

seed-IsStarted : (s q : Hash) → IsStarted s q (seed s q)
unfolding seed Dict.get Dict.set Dict.empty
seed-IsStarted s q = record { goal = root_goal s q; held = refl; at_src = refl; at_tgt = refl }

start_tree-IsStarted : (s q : Hash) → IsStarted s q (start_tree s q)
unfolding start_tree
start_tree-IsStarted s q =
    IsRootKept-IsStarted s q
      (goals-IsRootKept (seed s q) (start_tree s q)
        (root-name (name (seed s q) s) q ∙ root-name (seed s q) s)
        (goals-name (name (seed s q) s) q ∙ goals-name (seed s q) s))
      (seed-IsStarted s q)

module _ (r : Refinement) where
  certified-NoStrengthen : (t : Tree) (e : Effect) → IsCertified r t e → NoStrengthen e
  certified-NoStrengthen t (strengthen e) c = c
  certified-NoStrengthen t (step e) c = tt
  certified-NoStrengthen t (revert k s to) c = tt
  certified-NoStrengthen t (cut e) c = tt
  certified-NoStrengthen t (interpose k a b) c = tt
  certified-NoStrengthen t (case k x a b) c = tt
  certified-NoStrengthen t (uncut k) c = tt
  certified-NoStrengthen t (uninterpose k) c = tt
  certified-NoStrengthen t (uncase k) c = tt
  certified-NoStrengthen t (Effect.proved k by) c = tt
  certified-NoStrengthen t (Effect.refuted k) c = tt

  -- The tree of a run that is right, and whose root starts at the run's pair.
  abbrev RightFrom : Hash → Hash → Tree → Type 0
  RightFrom s q t = IsRight r t × IsStarted s q t

  apply-RightFrom :
      (s q : Hash) (t : Tree) (e : Effect) (t' : Tree)
      → RightFrom s q t
      → IsCertifiedNext r t e
      → apply t e ≡ ok t'
      → RightFrom s q t'
  apply-RightFrom s q t e t' (i, started) c h = (
    apply-IsRight r t e t' i c h,
    IsRootKept-IsStarted s q
        (apply-IsRootKept t e i.wf (TakesNext-IsRising t e i.wf c.0 h)
          (certified-NoStrengthen t e c.1) h)
        started,
  )

  module _ (run : Entry) (entries : List Entry) (s : StartEvent) (t : Tree)
      (begins : run.event ≡ start s) (plays : PlaysAll (IsCertifiedNext r) none (run ∷ entries))
      (h : derive (run ∷ entries) ≡ ok t) where
    ran-IsStarted : IsStarted s.src s.tgt t
    ran-IsStarted =
        (derive-keeps_from (RightFrom s.src s.tgt) (IsCertifiedNext r) (apply-RightFrom s.src s.tgt)
          run entries s t begins
          (start_tree-IsRight r s.src s.tgt, start_tree-IsStarted s.src s.tgt) plays h).1

    one-pair : (a b : Hash) → RootPair r t a b → (a ≡ s.src) × (b ≡ s.tgt)
    one-pair a b (g, held, at_src, at_tgt) =
        let i = ran-IsStarted in
        let same : g ≡ i.goal = some-eq (sym held ∙ i.held) in
        (
          some-eq (sym at_src ∙ ap (λ (x : Goal). head? x.src.history) same ∙ i.at_src),
          some-eq (sym at_tgt ∙ ap (λ (x : Goal). head? x.tgt.history) same ∙ i.at_tgt),
        )

-- A log that begins with its start, whose splits take the next ids and whose effects are certified,
-- each by its kind, and that strengthens nothing: if it derives a tree with a verified verdict, the
-- tgt program that the start names refines the src program.
pub derive-verified_run :
    (r : Refinement) (run : Entry) (entries : List Entry) (s : StartEvent) (t : Tree)
    → run.event ≡ start s
    → PlaysAll (IsCertifiedNext r) none (run ∷ entries)
    → derive (run ∷ entries) ≡ ok t
    → verdict t ≡ verified
    → r.refines s.src s.tgt
derive-verified_run r run entries s t begins plays h v =
    let (a, b, pair, holds) = derive-verified_right r (run ∷ entries) t plays h v in
    let (one, two) = one-pair r run entries s t begins plays h a b pair in
    subst (λ x. r.refines x s.tgt) one (subst (r.refines a) two holds)

-- Such a log that derives a tree with a verdict of a counterexample: the tgt program that the start
-- names does not refine the src program.
pub derive-counterexample_run :
    (r : Refinement) (run : Entry) (entries : List Entry) (s : StartEvent) (t : Tree)
    → run.event ≡ start s
    → PlaysAll (IsCertifiedNext r) none (run ∷ entries)
    → derive (run ∷ entries) ≡ ok t
    → verdict t ≡ counterexample
    → r.refines s.src s.tgt
    → ⊥
derive-counterexample_run r run entries s t begins plays h v holds =
    let (a, b, pair, fails) = derive-counterexample_right r (run ∷ entries) t plays h v in
    let (one, two) = one-pair r run entries s t begins plays h a b pair in
    fails (subst (λ x. r.refines x b) (sym one) (subst (r.refines s.src) (sym two) holds))
