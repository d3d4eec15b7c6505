-- ===== src/Tests/Budget.antt =====
-- The budget of engine/agent/budget.ts for a run that may take two turns.
use alive_next.Prelude.{ℕ, ◌≤◌, some, List, [], ◌∷◌, ◌≡◌, ◌⊎◌, refl}
use alive_next.Budget.{Limits, fresh, turns, spend, seconds, turns-fresh}

abbrev two_turns : Limits
two_turns = record { max_steps = some 2; max_seconds = some 60 }

abbrev readings : List ℕ
readings = 1000 ∷ 2000 ∷ 3000 ∷ []

two_are_taken : turns (fresh two_turns 0) readings ≡ 2
unfolding turns fresh spend seconds
two_are_taken = refl

-- The first turn is the last one when the minute is over.
time_runs_out : turns (fresh two_turns 0) (61000 ∷ 62000 ∷ []) ≡ 1
unfolding turns fresh spend seconds
time_runs_out = refl

turns-fresh_example :
    (turns (fresh two_turns 0) readings ≤ 1) ⊎ (turns (fresh two_turns 0) readings ≤ 2)
turns-fresh_example = turns-fresh two_turns 2 0 readings refl
