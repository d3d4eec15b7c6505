-- ===== src/Goals/Ids.antt =====
-- The ids of engine/core/state/goals.ts: `nextGoalIds` names no goal twice, and a log whose splits
-- take its ids replays to a well-formed tree.
use alive_next.Prelude.{ℕ, ◌+◌, ◌≤◌, none, List, ◌≡◌, ◌≢◌, refl, ap, arith, inl, inr, Option-cases}
use alive_next.Prelude.Dict
use alive_next.Prelude.Decimal.{read-decimal}
use alive_next.Trajectory.{Half, Effect, Entry, step, interpose, case, cut}
use alive_next.Goals.Types.{GoalId, Goal, Tree, ok}
use alive_next.Goals.Queries.{number, goal_id, next_goal_ids}
use alive_next.Goals.Moves.{editable}
use alive_next.Goals.Derive.{apply, apply_cut, apply_interpose, apply_case, derive}
use alive_next.Goals.Restatus.{>>=-eq_ok}
use alive_next.Goals.Editable.{editable-held}
use alive_next.Goals.Wf.{IsWf}
use alive_next.Goals.Invariant.{Rises, IsRising, apply-IsWf}
use alive_next.Goals.Replay.{PlaysAll, start_tree-IsWf, derive-keeps}

-- A split takes the ids that `nextGoalIds` gives.
abbrev Takes : Tree → Half → Half → Type 0
Takes t a b = (a.gid, b.gid) ≡ next_goal_ids t

abbrev pub TakesNext : Tree → Effect → Type 0
TakesNext t (cut e) = Takes t e.outer e.callee
TakesNext t (interpose gid l r) = Takes t l r
TakesNext t (case gid c h f) = Takes t h f
TakesNext t _ = Unit {0}

number-goal_id : (n : ℕ) → number (goal_id n) ≡ n
unfolding number goal_id
number-goal_id n = rw (read-decimal n) refl

-- The next ids are numbered above every goal of the tree, so no goal has them, and they differ.
pub next_goal_ids-fresh :
    (t : Tree)
    → IsWf t
    → (Dict.get t.goals (next_goal_ids t).0 ≡ none)
      × (Dict.get t.goals (next_goal_ids t).1 ≡ none)
      × ((next_goal_ids t).0 ≢ (next_goal_ids t).1)
unfolding next_goal_ids
next_goal_ids-fresh t w =
    (absent t.next_goal (omega arith), absent (t.next_goal + 1) (omega arith), differ)
  where
    absent : (n : ℕ) → t.next_goal ≤ n → Dict.get t.goals (goal_id n) ≡ none
    absent n le = elim (Option-cases (Dict.get t.goals (goal_id n))) [
      | inl e ↦ e
      | inr (g, e) ↦ absurd (omega (arith, w.numbered (goal_id n) g e, number-goal_id n))
    ]

    differ : goal_id t.next_goal ≢ goal_id (t.next_goal + 1)
    differ e =
        omega (arith, number-goal_id t.next_goal, number-goal_id (t.next_goal + 1), ap number e)

Takes-Rises :
    (t : Tree) (k : GoalId) (a b : Half) {u : Tree} {g : Goal}
    → IsWf t
    → Takes t a b
    → editable t k ≡ ok (u, g)
    → Rises k a b
unfolding next_goal_ids
Takes-Rises t k a b w takes h =
    let (g, held, _) = editable-held t k h in
    let low = w.numbered k g held in
    (
      rw (ap (λ (x : GoalId × GoalId). x.0) takes, number-goal_id t.next_goal) low,
      rw (ap (λ (x : GoalId × GoalId). x.1) takes, number-goal_id (t.next_goal + 1)) (omega arith),
    )

pub TakesNext-IsRising :
    (t : Tree) (e : Effect) {t' : Tree} → IsWf t → TakesNext t e → apply t e ≡ ok t' → IsRising e
unfolding apply apply_cut apply_interpose apply_case
TakesNext-IsRising t (cut e) w takes h =
    Takes-Rises t e.gid e.outer e.callee w takes (>>=-eq_ok (editable t e.gid) _ h).1
TakesNext-IsRising t (interpose k a b) w takes h =
    Takes-Rises t k a b w takes (>>=-eq_ok (editable t k) _ h).1
TakesNext-IsRising t (case k c a b) w takes h =
    Takes-Rises t k a b w takes (>>=-eq_ok (editable t k) _ h).1
TakesNext-IsRising t (step e) w takes h = tt
TakesNext-IsRising t _ w takes h = tt

-- Applying an effect whose split takes the next ids to a well-formed tree makes a well-formed tree.
pub apply-IsWf_next :
    (t : Tree) (e : Effect) (t' : Tree) → IsWf t → TakesNext t e → apply t e ≡ ok t' → IsWf t'
apply-IsWf_next t e t' w takes h = apply-IsWf t e w (TakesNext-IsRising t e w takes h) h

-- A log whose every split takes the ids that `nextGoalIds` gives at that point replays to a
-- well-formed tree.
pub derive-IsWf :
    (entries : List Entry) (t : Tree)
    → PlaysAll TakesNext none entries
    → derive entries ≡ ok t
    → IsWf t
derive-IsWf entries t takes h =
    derive-keeps IsWf TakesNext start_tree-IsWf apply-IsWf_next entries t takes h
