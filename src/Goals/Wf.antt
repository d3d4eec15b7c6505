-- ===== src/Goals/Wf.antt =====
-- The shape of the goal tree of engine/core/state/goals.ts: what every replayed tree satisfies.
use alive_next.Prelude.{
  ◌<◌, Option, none, some, ◌≡◌, refl, sym, ◌∙◌, ap, subst, arith, In, inl, inr, some-eq,
}
use alive_next.Prelude.Dict
use alive_next.Prelude.Dict.{get-set_self, get-set_ne, str_cases}
use alive_next.Trajectory.{Hash}
use alive_next.Goals.Types.{GoalId, Goal, Tree}
use alive_next.Goals.Queries.{number}
use alive_next.Goals.Moves.{put, name}
use alive_next.Goals.Restatus.{IsRestatus, IsRestatused}

-- Every goal is stored under its id; parents and children name one another; the root is the goal
-- with no parent; numbers stay below the next one to be given and grow from parent to child.
pub record IsWf (t : Tree) : Type 0 where
  pub named : (k : GoalId) (g : Goal) → Dict.get t.goals k ≡ some g → g.id ≡ k
  pub kids :
      (k : GoalId) (g : Goal) (c : GoalId)
      → Dict.get t.goals k ≡ some g
      → In c g.children
      → (h : Goal) × (Dict.get t.goals c ≡ some h) × (h.parent ≡ some k)
  pub up :
      (k : GoalId) (g : Goal) (p : GoalId)
      → Dict.get t.goals k ≡ some g
      → g.parent ≡ some p
      → (q : Goal) × (Dict.get t.goals p ≡ some q) × In k q.children
  pub top : (g : Goal) × (Dict.get t.goals t.root ≡ some g) × (g.parent ≡ none)
  pub only : (k : GoalId) (g : Goal) → Dict.get t.goals k ≡ some g → g.parent ≡ none → k ≡ t.root
  pub numbered : (k : GoalId) (g : Goal) → Dict.get t.goals k ≡ some g → number k < t.next_goal
  pub rising :
      (k : GoalId) (g : Goal) (c : GoalId)
      → Dict.get t.goals k ≡ some g
      → In c g.children
      → number k < number c

-- Two states of a goal with the same place in the tree.
abbrev pub HasPlace : Goal → Goal → Type 0
HasPlace g g' = (g'.id ≡ g.id) × (g'.parent ≡ g.parent) × (g'.children ≡ g.children)

abbrev pub HavePlace : Option Goal → Option Goal → Type 0
HavePlace none none = Unit {0}
HavePlace (some g) (some g') = HasPlace g g'
HavePlace _ _ = ⊥

-- Trees whose goals have the same places.
pub record IsSameShape (t t' : Tree) : Type 0 where
  pub root : t'.root ≡ t.root
  pub next_goal : t'.next_goal ≡ t.next_goal
  pub at : (k : GoalId) → HavePlace (Dict.get t.goals k) (Dict.get t'.goals k)

HavePlace-refl : (g : Option Goal) → HavePlace g g
HavePlace-refl none = tt
HavePlace-refl (some g) = (refl, refl, refl)

IsRestatused-HavePlace : (g g' : Option Goal) → IsRestatused g g' → HavePlace g g'
IsRestatused-HavePlace none none e = tt
IsRestatused-HavePlace (some g) (some g') e =
    (ap (λ (x : Goal). x.id) e, ap (λ (x : Goal). x.parent) e, ap (λ (x : Goal). x.children) e)
IsRestatused-HavePlace none (some g') e = e
IsRestatused-HavePlace (some g) none e = e

pub IsRestatus-IsSameShape : {t t' : Tree} → IsRestatus t t' → IsSameShape t t'
IsRestatus-IsSameShape {t} {t'} r = record {
  root = r.root;
  next_goal = r.next_goal;
  at = λ k. IsRestatused-HavePlace (Dict.get t.goals k) (Dict.get t'.goals k) (r.at k);
}

pub put-IsSameShape :
    (t : Tree) (k : GoalId) (g g' : Goal)
    → Dict.get t.goals k ≡ some g
    → HasPlace g g'
    → IsSameShape t (put t k g')
unfolding put
put-IsSameShape t k g g' h place = record {
  root = refl;
  next_goal = refl;
  at = λ j. elim (str_cases k j) [
    | inl e ↦ rw (← e, get-set_self t.goals k g', h) place
    | inr n ↦ rw (get-set_ne t.goals k j g' n) (HavePlace-refl (Dict.get t.goals j))
  ];
}

pub goals-name : (t : Tree) (h : Hash) → (name t h).goals ≡ t.goals
unfolding name
goals-name t h = ground arith

pub root-name : (t : Tree) (h : Hash) → (name t h).root ≡ t.root
unfolding name
root-name t h = ground arith

pub next_goal-name : (t : Tree) (h : Hash) → (name t h).next_goal ≡ t.next_goal
unfolding name
next_goal-name t h = ground arith

pub name-IsSameShape : (t : Tree) (h : Hash) → IsSameShape t (name t h)
name-IsSameShape t h = record {
  root = root-name t h;
  next_goal = next_goal-name t h;
  at = λ k. rw (goals-name t h) (HavePlace-refl (Dict.get t.goals k));
}

-- A goal of the one tree is a goal of the other, in the same place.
there :
    (a b : Option Goal) (g : Goal)
    → HavePlace a b
    → a ≡ some g
    → (h : Goal) × (b ≡ some h) × HasPlace g h
there none b g p e = cc
there (some a) none g p e = elim p [ ]
there (some a) (some b) g p e = (b, refl, subst (λ x. HasPlace x b) (some-eq e) p)

back :
    (a b : Option Goal) (h : Goal)
    → HavePlace a b
    → b ≡ some h
    → (g : Goal) × (a ≡ some g) × HasPlace g h
back none none h p e = cc
back none (some b) h p e = elim p [ ]
back (some a) none h p e = cc
back (some a) (some b) h p e = (a, refl, subst (λ x. HasPlace a x) (some-eq e) p)

-- The shape is all that well-formedness reads.
pub IsSameShape-IsWf : {t t' : Tree} → IsSameShape t t' → IsWf t → IsWf t'
IsSameShape-IsWf {t} {t'} s w = record {
  named = λ k g h.
      let (x, e, pl) = back (Dict.get t.goals k) (Dict.get t'.goals k) g (s.at k) h in
      pl.0 ∙ w.named k x e;
  kids = λ k g c h m.
      let (x, e, pl) = back (Dict.get t.goals k) (Dict.get t'.goals k) g (s.at k) h in
      let (y, f, q) = w.kids k x c e (subst (In c) pl.2 m) in
      let (z, f', pl') = there (Dict.get t.goals c) (Dict.get t'.goals c) y (s.at c) f in
      (z, f', pl'.1 ∙ q);
  up = λ k g p h m.
      let (x, e, pl) = back (Dict.get t.goals k) (Dict.get t'.goals k) g (s.at k) h in
      let (y, f, q) = w.up k x p e (sym pl.1 ∙ m) in
      let (z, f', pl') = there (Dict.get t.goals p) (Dict.get t'.goals p) y (s.at p) f in
      (z, f', subst (In k) (sym pl'.2) q);
  top =
      let (x, e, q) = w.top in
      let (z, f, pl) =
        there (Dict.get t.goals t.root) (Dict.get t'.goals t.root) x (s.at t.root) e in
      (z, rw s.root f, pl.1 ∙ q);
  only = λ k g h m.
      let (x, e, pl) = back (Dict.get t.goals k) (Dict.get t'.goals k) g (s.at k) h in
      w.only k x e (sym pl.1 ∙ m) ∙ sym s.root;
  numbered = λ k g h.
      let (x, e, pl) = back (Dict.get t.goals k) (Dict.get t'.goals k) g (s.at k) h in
      rw s.next_goal (w.numbered k x e);
  rising = λ k g c h m.
      let (x, e, pl) = back (Dict.get t.goals k) (Dict.get t'.goals k) g (s.at k) h in
      w.rising k x c e (subst (In c) pl.2 m);
}
