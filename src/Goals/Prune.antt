-- ===== src/Goals/Prune.antt =====
-- `discard` of engine/core/state/goals.ts: which goals it takes out of the tree.
use alive_next.Prelude.{
  ℕ, zero, suc, Option, none, some, List, [], ◌∷◌, ◌≡◌, refl, sym, ◌∙◌, ap, subst, In, inl, inr,
  ◌⊎◌, Option-cases, some-eq,
}
use alive_next.Prelude.Dict
use alive_next.Prelude.Dict.{get-delete_self, get-delete_ne, get-delete_cases, str_cases}
use alive_next.Goals.Types.{GoalId, Goal, Tree, Result, ok}
use alive_next.Goals.Queries.{find}
use alive_next.Goals.Moves.{discard, discard_all}
use alive_next.Goals.Restatus.{>>=-eq_ok, ok-injective, find-eq_ok}

-- A child of a goal names that goal as its parent.
pub record HasParents (t : Tree) : Type 0 where
  pub at :
      (k : GoalId) (g : Goal) (c : GoalId) (h : Goal)
      → Dict.get t.goals k ≡ some g
      → In c g.children
      → Dict.get t.goals c ≡ some h
      → h.parent ≡ some k

-- `t'` is `t` without `ks` and what lies below: the rest stays as it was, with a goal go its
-- children, and nothing else goes.
pub record IsPruned (ks : List GoalId) (t t' : Tree) : Type 0 where
  pub root : t'.root ≡ t.root
  pub next_goal : t'.next_goal ≡ t.next_goal
  pub sub : (j : GoalId) (g : Goal) → Dict.get t'.goals j ≡ some g → Dict.get t.goals j ≡ some g
  pub ends : (j : GoalId) → In j ks → Dict.get t'.goals j ≡ none
  pub below :
      (j : GoalId) (g : Goal) (c : GoalId)
      → Dict.get t.goals j ≡ some g
      → Dict.get t'.goals j ≡ none
      → In c g.children
      → Dict.get t'.goals c ≡ none
  pub above :
      (j : GoalId) (g : Goal)
      → Dict.get t.goals j ≡ some g
      → Dict.get t'.goals j ≡ none
      → In j ks ⊎ ((p : GoalId) × (g.parent ≡ some p) × (Dict.get t'.goals p ≡ none))

sub-none : (a b : Option Goal) → ((g : Goal) → b ≡ some g → a ≡ some g) → a ≡ none → b ≡ none
sub-none a none h e = refl
sub-none a (some g) h e = cc (h g refl, e)

IsPruned-nil : (t : Tree) → IsPruned [] t t
IsPruned-nil t = record {
  root = refl;
  next_goal = refl;
  sub = λ j g h. h;
  ends = λ j m. absurd m;
  below = λ j g c h n m. cc (h, n);
  above = λ j g h n. cc (h, n);
}

IsPruned-cons :
    (k : GoalId) (ks : List GoalId) (a b c : Tree)
    → IsPruned (k ∷ []) a b
    → IsPruned ks b c
    → IsPruned (k ∷ ks) a c
IsPruned-cons k ks a b c p q = record {
  root = q.root ∙ p.root;
  next_goal = q.next_goal ∙ p.next_goal;
  sub = λ j g h. p.sub j g (q.sub j g h);
  ends = ends;
  below = λ j g x h n m. elim (Option-cases (Dict.get b.goals j)) [
    | inl gone ↦ later x (p.below j g x h gone m)
    | inr (g', e) ↦ q.below j g' x e n (rw (some-eq (sym (p.sub j g' e) ∙ h)) m)
  ];
  above = λ j g h n. elim (Option-cases (Dict.get b.goals j)) [
    | inl gone ↦ elim (p.above j g h gone) [
      | inl (inl e) ↦ inl (inl e)
      | inl (inr x) ↦ absurd x
      | inr (r, e, lost) ↦ inr (r, e, later r lost)
    ]
    | inr (g', e) ↦ elim (q.above j g' e n) [
      | inl i ↦ inl (inr i)
      | inr (r, e', lost) ↦ inr (r, rw (some-eq (sym h ∙ p.sub j g' e)) e', lost)
    ]
  ];
}
  where
    later : (x : GoalId) → Dict.get b.goals x ≡ none → Dict.get c.goals x ≡ none
    later x = sub-none (Dict.get b.goals x) (Dict.get c.goals x) (q.sub x)

    ends : (j : GoalId) → In j (k ∷ ks) → Dict.get c.goals j ≡ none
    ends j (inl e) = later j (p.ends j (inl e))
    ends j (inr i) = q.ends j i

pub HasParents-sub :
    (ks : List GoalId) (t t' : Tree) → IsPruned ks t t' → HasParents t → HasParents t'
HasParents-sub ks t t' p w = record {
  at = λ k g c h e m f. w.at k g c h (p.sub k g e) m (p.sub c h f);
}

abbrev Prunes : (Tree → GoalId → Result Tree) → Type 0
Prunes rec =
    (t : Tree) (k : GoalId) (t' : Tree) → HasParents t → rec t k ≡ ok t' → IsPruned (k ∷ []) t t'

pub discard_all-IsPruned :
    (rec : Tree → GoalId → Result Tree)
    → Prunes rec
    → (ks : List GoalId) (t t' : Tree) → HasParents t
    → discard_all rec t ks ≡ ok t'
    → IsPruned ks t t'
unfolding discard_all
discard_all-IsPruned rec prunes [] t t' w h =
    subst (IsPruned [] t) (ok-injective h) (IsPruned-nil t)
discard_all-IsPruned rec prunes (k ∷ ks) t t' w h =
    let (u, first, rest) = >>=-eq_ok (rec t k) _ h in
    let p = prunes t k u w first in
    IsPruned-cons k ks t u t' p
      (discard_all-IsPruned rec prunes ks u t' (HasParents-sub (k ∷ []) t u p w) rest)

without_goal : Tree → GoalId → Tree
without_goal t k = record t { goals = Dict.delete t.goals k }

-- The goal itself goes last, after its children.
IsPruned-delete :
    (k : GoalId) (g : Goal) (t u : Tree)
    → HasParents t
    → Dict.get t.goals k ≡ some g
    → IsPruned g.children t u
    → IsPruned (k ∷ []) t (without_goal u k)
unfolding without_goal
IsPruned-delete k g t u w held p = record {
  root = p.root;
  next_goal = p.next_goal;
  sub = λ j x h. let (_, h') = get-delete_cases u.goals k j x h in p.sub j x h';
  ends = λ j m. elim m [ inl e ↦ rw (← e) (get-delete_self u.goals k) | inr x ↦ absurd x ];
  below = λ j x c h n m. elim (str_cases k j) [
    | inl e ↦ gone c (
        p.ends c (
          subst (λ (y : Goal). In c y.children) (some-eq (sym (ap (Dict.get t.goals) e ∙ h) ∙ held))
            m))
    | inr ne ↦ gone c (p.below j x c h (sym (get-delete_ne u.goals k j ne) ∙ n) m)
  ];
  above = λ j x h n. elim (str_cases k j) [
    | inl e ↦ inl (inl e)
    | inr ne ↦ elim (p.above j x h (sym (get-delete_ne u.goals k j ne) ∙ n)) [
      | inl i ↦ inr (k, w.at k g j x held i h, get-delete_self u.goals k)
      | inr (r, e, lost) ↦ inr (r, e, gone r lost)
    ]
  ];
}
  where
    gone : (c : GoalId) → Dict.get u.goals c ≡ none → Dict.get (Dict.delete u.goals k) c ≡ none
    gone c e = elim (str_cases k c) [
      | inl same ↦ rw (← same) (get-delete_self u.goals k)
      | inr ne ↦ get-delete_ne u.goals k c ne ∙ e
    ]

-- What `discard` removes is the goal, all below it, and nothing else.
pub discard-IsPruned : (f : ℕ) → Prunes (discard f)
unfolding discard without_goal
discard-IsPruned zero t k t' w h = cc
discard-IsPruned (suc f) t k t' w h =
    let (g, found, rest) = >>=-eq_ok (find t k) _ h in
    let (u, all_gone, done) = >>=-eq_ok (discard_all (discard f) t g.children) _ rest in
    subst (IsPruned (k ∷ []) t) (ok-injective done) (
      IsPruned-delete k g t u w (find-eq_ok t k found)
        (discard_all-IsPruned (discard f) (discard-IsPruned f) g.children t u w all_gone))
