-- ===== src/Goals/Replay.antt =====
-- `derive` of engine/core/state/goals.ts: invariants of the replay of a whole log.
use alive_next.Prelude.{
  ℕ, ◌+◌, ◌<◌, ◌≤◌, String, Bool, true, false, Option, none, some, List, [], ◌∷◌, ◌≡◌, refl, sym,
  ◌∙◌, ap, subst, arith, In, All, inl, inr, ◌⊎◌, some-eq,
}
use alive_next.Prelude.Dict
use alive_next.Prelude.Dict.{get-set_cases, get-set_self, get-empty}
use alive_next.Trajectory.{Hash, Effect, Event, StartEvent, Entry, start, message}
use alive_next.Goals.Types.{GoalId, Goal, Tree, ok, Status, no_start}
use alive_next.Goals.Queries.{number, or_throw}
use alive_next.Goals.Moves.{name}
use alive_next.Goals.Derive.{
  apply, play, derive_event, derive_from, derive, start_tree, effects_of_event, nothing_made,
}
use alive_next.Goals.Restatus.{>>=-eq_ok, ok-injective}
use alive_next.Goals.Wf.{IsWf, IsSameShape-IsWf, name-IsSameShape}

abbrev pub root_goal : Hash → Hash → Goal
root_goal s t = record {
  id = "g1";
  parent = none;
  role = none;
  made = nothing_made;
  src = record { history = s ∷ [] };
  tgt = record { history = t ∷ [] };
  status = Status.open_;
  children = [];
}

abbrev pub seed : Hash → Hash → Tree
seed s t = record {
  root = "g1";
  goals = Dict.set Dict.empty "g1" (root_goal s t);
  programs = Dict.empty;
  next_goal = 2;
}

-- The one goal that a run starts with.
pub seed-only :
    (s t : Hash) (k : GoalId) (g : Goal)
    → Dict.get (seed s t).goals k ≡ some g
    → (◌≡◌ {A = String} "g1" k) × (root_goal s t ≡ g)
seed-only s t k g h = elim (get-set_cases Dict.empty "g1" k (root_goal s t) g h) [
  | inl e ↦ e
  | inr (_, x) ↦ cc (get-empty {V = Goal} k, x)
]

seed-IsWf : (s t : Hash) → IsWf (seed s t)
unfolding alive_next.Prelude.Decimal.read
seed-IsWf s t = record {
  named = λ k g h. let (e, same) = seed-only s t k g h in ap (λ (x : Goal). x.id) (sym same) ∙ e;
  kids = λ k g c h m.
      let (e, same) = seed-only s t k g h in
      absurd (subst (λ (x : Goal). In c x.children) (sym same) m);
  up = λ k g p h m. let (e, same) = seed-only s t k g h in cc (ap (λ (x : Goal). x.parent) same, m);
  top = (root_goal s t, get-set_self Dict.empty "g1" (root_goal s t), refl);
  only = λ k g h m. let (e, same) = seed-only s t k g h in sym e;
  numbered =
      λ k g h. let (e, same) = seed-only s t k g h in rw (← e) (unfold number in omega arith);
  rising = λ k g c h m.
      let (e, same) = seed-only s t k g h in
      absurd (subst (λ (x : Goal). In c x.children) (sym same) m);
}

pub start_tree-IsWf : (s t : Hash) → IsWf (start_tree s t)
unfolding start_tree
start_tree-IsWf s t =
    IsSameShape-IsWf (name-IsSameShape (name (seed s t) s) t)
      (IsSameShape-IsWf (name-IsSameShape (seed s t) s) (seed-IsWf s t))

-- What each effect of a log satisfies at the tree that it is applied to.
module _ (Q : Tree → Effect → Type 0) where
  abbrev pub Plays : Option Tree → List Effect → Type 0
  Plays t [] = Unit {0}
  Plays none (e ∷ es) = Unit {0}
  Plays (some t) (e ∷ es) = Q t e × ((t' : Tree) → apply t e ≡ ok t' → Plays (some t') es)

  abbrev pub PlaysAll : Option Tree → List Entry → Type 0
  PlaysAll t [] = Unit {0}
  PlaysAll t (x ∷ xs) =
      Plays t (effects_of_event x.event)
      × ((t' : Option Tree) → derive_event t x.event ≡ ok t' → PlaysAll t' xs)

-- An invariant of trees that the effects which satisfy `Q` keep, and that a start has where `Before`
-- holds before it.
module _ (Before : Type 0) (P : Tree → Type 0) (Q : Tree → Effect → Type 0)
    (starts : (s t : Hash) → Before → P (start_tree s t))
    (keeps : (t : Tree) (e : Effect) (t' : Tree) → P t → Q t e → apply t e ≡ ok t' → P t') where
  abbrev pub Holds : Option Tree → Type 0
  Holds none = Before
  Holds (some t) = P t

  play-Holds :
      (es : List Effect) (t : Option Tree) (t' : Option Tree)
      → Holds t
      → Plays Q t es
      → play t es ≡ ok t'
      → Holds t'
  unfolding play
  play-Holds [] none t' p q h = subst Holds (ok-injective h) p
  play-Holds [] (some t) t' p q h = subst Holds (ok-injective h) p
  play-Holds (e ∷ es) none t' p q h = cc
  play-Holds (e ∷ es) (some t) t' p q h =
      let (u, first, rest) = >>=-eq_ok (apply t e) _ h in
      play-Holds es (some u) t' (keeps t e u p q.0 first) (q.1 u first) rest

  derive_event-Holds :
      (t : Option Tree) (e : Event) (t' : Option Tree)
      → Holds t
      → Plays Q t (effects_of_event e)
      → derive_event t e ≡ ok t'
      → Holds t'
  unfolding derive_event
  derive_event-Holds none (start s) t' p q h = subst Holds (ok-injective h) (starts s.src s.tgt p)
  derive_event-Holds (some t) (start s) t' p q h = cc
  derive_event-Holds t (message m) t' p q h = play-Holds [] t t' p q h
  derive_event-Holds t e t' p q h = play-Holds (effects_of_event e) t t' p q h

  pub derive_from-Holds :
      (xs : List Entry) (t t' : Option Tree)
      → Holds t
      → PlaysAll Q t xs
      → derive_from t xs ≡ ok t'
      → Holds t'
  unfolding derive_from
  derive_from-Holds [] t t' p q h = subst Holds (ok-injective h) p
  derive_from-Holds (x ∷ xs) t t' p q h =
      let (u, first, rest) = >>=-eq_ok (derive_event t x.event) _ h in
      derive_from-Holds xs u t' (derive_event-Holds t x.event u p q.0 first) (q.1 u first) rest

-- An invariant of trees that the start has and that the effects which satisfy `Q` keep.
module _ (P : Tree → Type 0) (Q : Tree → Effect → Type 0)
    (starts : (s t : Hash) → P (start_tree s t))
    (keeps : (t : Tree) (e : Effect) (t' : Tree) → P t → Q t e → apply t e ≡ ok t' → P t') where
  pub derive-keeps : (xs : List Entry) (t : Tree) → PlaysAll Q none xs → derive xs ≡ ok t → P t
  unfolding derive
  derive-keeps xs t q h =
      let (u, played, rest) = >>=-eq_ok (derive_from none xs) _ h in
      ended u (derive_from-Holds (Unit {0}) P Q (λ s t u. starts s t) keeps xs none u tt q played)
        rest
    where
      ended :
          (u : Option Tree)
          → Holds (Unit {0}) P Q (λ s t u. starts s t) keeps u
          → or_throw u no_start ≡ ok t
          → P t
      ended none p e = cc
      ended (some u) p e = subst P (ok-injective e) p

-- An invariant of trees that the effects which satisfy `Q` keep, of a log that begins with its start.
module _ (P : Tree → Type 0) (Q : Tree → Effect → Type 0)
    (keeps : (t : Tree) (e : Effect) (t' : Tree) → P t → Q t e → apply t e ≡ ok t' → P t') where
  pub derive-keeps_from :
      (run : Entry) (xs : List Entry) (s : StartEvent) (t : Tree)
      → run.event ≡ start s
      → P (start_tree s.src s.tgt)
      → PlaysAll Q none (run ∷ xs)
      → derive (run ∷ xs) ≡ ok t
      → P t
  unfolding derive derive_from derive_event
  derive-keeps_from run xs s t is p q h =
      let (u, played, rest) = >>=-eq_ok (derive_from none (run ∷ xs)) _ h in
      let (v, first, more) = >>=-eq_ok (derive_event none run.event) _ played in
      let began : some (start_tree s.src s.tgt) ≡ v =
        ok-injective (sym (ap (derive_event none) is) ∙ first) in
      ended u
        (derive_from-Holds ⊥ P Q (λ s t lost. absurd lost) keeps xs v u
          (subst (Holds ⊥ P Q (λ s t lost. absurd lost) keeps) began p) (q.1 v first) more)
        rest
    where
      ended :
          (u : Option Tree)
          → Holds ⊥ P Q (λ s t lost. absurd lost) keeps u
          → or_throw u no_start ≡ ok t
          → P t
      ended none p e = cc
      ended (some u) p e = subst P (ok-injective e) p
