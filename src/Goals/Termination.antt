-- ===== src/Goals/Termination.antt =====
-- The recursions of engine/core/state/goals.ts up the tree end: each call changes one status for
-- good, so there are no more of them than goals.
use alive_next.Prelude.{
  ℕ, zero, suc, ◌+◌, ◌≤◌, ◌<◌, String, true, false, Option, none, some, List, [], ◌∷◌, ◌≡◌, ◌≢◌,
  refl, arith, if◌then◌else◌, inl, inr, ◌⊎◌, ◌∙◌, ap, some-eq, ◌==◌, Bool-cases, Option-cases, all,
}
use alive_next.Prelude.Dict
use alive_next.Prelude.Dict.{lookup, insert}
use alive_next.Goals.Types.{
  GoalId, Status, proved, split, Goal, Tree, Result, ok, err, out_of_fuel, no_goal, same_status,
  DerivationError,
}
use alive_next.Goals.Queries.{find}
use alive_next.Goals.Moves.{put, unsettle_step, unsettle, settle_step, settle, find_all, is_proved}
use alive_next.Goals.Restatus.{err-injective, undone}

abbrev pub count : Status → List (String × Goal) → ℕ
count s [] = 0
count s ((k, g) ∷ m) = (if same_status g.status s then 1 else 0) + count s m

count-insert :
    (s : Status) (k : String) (g g' : Goal) (m : List (String × Goal))
    → lookup k m ≡ some g
    → same_status g.status s ≡ true
    → same_status g'.status s ≡ false
    → suc (count s (insert k g' m)) ≡ count s m
unfolding lookup insert
count-insert s k g g' [] h old new = cc
count-insert s k g g' ((j, x) ∷ m) h old new = elim (Bool-cases (j == k)) [
  | inl e ↦ let same : x ≡ g = some-eq (rw e at h) in rw (e, same, old, new) (omega arith)
  | inr n ↦ rw n (omega (arith, count-insert s k g g' m (rw n at h) old new))
]

pub count-le-size : (s : Status) (t : Tree) → count s t.goals.entries ≤ Dict.size t.goals
unfolding Dict.size
count-le-size s t = go t.goals.entries
  where
    go : (m : List (String × Goal)) → count s m ≤ Dict.count m
    go [] = omega arith
    go ((k, g) ∷ m) = ground (arith, go m)

pub count-put :
    (s : Status) (t : Tree) (k : GoalId) (g g' : Goal)
    → Dict.get t.goals k ≡ some g
    → same_status g.status s ≡ true
    → same_status g'.status s ≡ false
    → suc (count s (put t k g').goals.entries) ≡ count s t.goals.entries
unfolding put Dict.get Dict.set
count-put s t k g g' h old new = count-insert s k g g' t.goals.entries h old new

pub find-ne-out_of_fuel : (t : Tree) (k : GoalId) → find t k ≢ err out_of_fuel
unfolding find
find-ne-out_of_fuel t k e = ground arith

find-cases :
    (t : Tree) (k : GoalId)
    → (find t k ≡ err (no_goal k))
      ⊎ ((g : Goal) × (Dict.get t.goals k ≡ some g) × (find t k ≡ ok g))
unfolding find
find-cases t k = elim (Option-cases (Dict.get t.goals k)) [
  | inl e ↦ inl (rw e refl)
  | inr (g, e) ↦ inr (g, e, rw e refl)
]

pub Result-cases {ℓ} :
    {A : Type ℓ} (r : Result A) → ((a : A) × (r ≡ ok a)) ⊎ ((e : DerivationError) × (r ≡ err e))
Result-cases (ok a) = inl (a, refl)
Result-cases (err e) = inr (e, refl)

find_all-ne-out_of_fuel : (t : Tree) (ks : List GoalId) → find_all t ks ≢ err out_of_fuel
unfolding find_all
find_all-ne-out_of_fuel t [] e = cc
find_all-ne-out_of_fuel t (k ∷ ks) e =
    ground (arith, find-ne-out_of_fuel t k, find_all-ne-out_of_fuel t ks)

undone-not_proved : (g : Goal) → same_status (undone g).status proved ≡ false
undone-not_proved g = ground arith

-- With more fuel than there are proved goals `unsettle` does not run out of it.
pub unsettle-enough :
    (f : ℕ) (t : Tree) (p : Option GoalId)
    → count proved t.goals.entries < f
    → unsettle f t p ≢ err out_of_fuel
unfolding unsettle
unsettle-enough f t none h e = cc
unsettle-enough zero t (some k) h e = elim h [ ]
unsettle-enough (suc f) t (some k) h e = elim (find-cases t k) [
  | inl none_there ↦ unfold unsettle_step in cc (rw none_there at e)
  | inr (g, there, found) ↦ elim (Bool-cases (same_status g.status proved)) [
    | inr n ↦ unfold unsettle_step in cc (rw (found, n) at e)
    | inl y ↦
        unsettle-enough f (put t k (undone g)) g.parent
          (omega (arith, count-put proved t k g (undone g) there y (undone-not_proved g)))
          (unfold unsettle_step in rw (found, y) at e)
  ]
]

settle_split :
    (f : ℕ) (t : Tree) (k : GoalId) (g : Goal)
    → Dict.get t.goals k ≡ some g
    → find t k ≡ ok g
    → same_status g.status split ≡ true
    → count split t.goals.entries < suc f
    → ((t' : Tree) (p : Option GoalId)
        → count split t'.goals.entries < f
        → settle f t' p ≢ err out_of_fuel)
    → settle_step (settle f) t k ≢ err out_of_fuel
unfolding settle_step
settle_split f t k g there found y h up e = elim (Result-cases (find_all t g.children)) [
  | inr (x, bad) ↦
      find_all-ne-out_of_fuel t g.children (bad ∙ ap err (err-injective (rw (found, y, bad) at e)))
  | inl (cs, good) ↦ elim (Bool-cases (all is_proved cs)) [
    | inr n ↦ cc (rw (found, y, good, n) at e)
    | inl a ↦
        let done : Goal = record g { status = proved } in
        up (put t k done) g.parent (omega (arith, count-put split t k g done there y refl))
          (rw (found, y, good, a) at e)
  ]
]

-- With more fuel than there are split goals `settle` does not run out of it.
pub settle-enough :
    (f : ℕ) (t : Tree) (p : Option GoalId)
    → count split t.goals.entries < f
    → settle f t p ≢ err out_of_fuel
unfolding settle
settle-enough f t none h e = cc
settle-enough zero t (some k) h e = elim h [ ]
settle-enough (suc f) t (some k) h e = elim (find-cases t k) [
  | inl none_there ↦ unfold settle_step in cc (rw none_there at e)
  | inr (g, there, found) ↦ elim (Bool-cases (same_status g.status split)) [
    | inr n ↦ unfold settle_step in cc (rw (found, n) at e)
    | inl y ↦ settle_split f t k g there found y h (settle-enough f) e
  ]
]
