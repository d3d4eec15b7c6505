-- ===== src/Budget.antt =====
-- engine/agent/budget.ts: what a run may spend. The clock's reading is an argument, in milliseconds.
use alive_next.Prelude.{
  ℕ, suc, ◌+◌, ◌-◌, ◌/◌, ◌≤◌, ◌<◌, Bool, false, Option, none, some, List, [], ◌∷◌, ◌≡◌, ◌⊎◌, inl,
  inr, arith, leb, if◌then◌else◌, Bool-cases, some-eq,
}

pub record Limits : Type 0 where
  pub max_steps : Option ℕ
  pub max_seconds : Option ℕ

pub record Budget : Type 0 where
  pub limits : Limits
  pub steps : ℕ
  pub started : ℕ

pub data Stop : Type 0 where
  steps_spent seconds_spent : ℕ → Stop

unfoldable pub fresh : Limits → ℕ → Budget
fresh limits now = record { limits = limits; steps = 0; started = now }

-- Math.round((now - started) / 1000)
unfoldable pub seconds : Budget → ℕ → ℕ
seconds b now = (now - b.started + 500) / 1000

abbrev reaches : Option ℕ → ℕ → Bool
reaches none n = false
reaches (some limit) n = leb limit n

abbrev counted : Budget → Budget
counted b = record b { steps = b.steps + 1 }

-- Count one turn, and answer with why the run has to stop, or nothing while it may go on.
unfoldable pub spend : Budget → ℕ → Budget × Option Stop
unfolding seconds
spend b now = (
  counted b,
  if reaches b.limits.max_steps (b.steps + 1)
      then some (steps_spent (b.steps + 1))
      else if reaches b.limits.max_seconds (seconds b now)
      then some (seconds_spent (seconds b now))
      else none,
)

-- engine/agent/agent.ts, `shouldStopAfterTurn`: the turns that a run takes at these clock readings, up
-- to the one at which the budget stops it, where neither a verdict nor giving up does before.
unfoldable pub turns : Budget → List ℕ → ℕ
unfolding spend
turns b [] = 0
turns b (now ∷ later) =
    let (b', stop) = spend b now in
    let rest = turns b' later in elim stop [ none ↦ suc rest | some why ↦ 1 ]

turns-bound :
    (b : Budget) (m : ℕ) (times : List ℕ)
    → b.limits.max_steps ≡ some m
    → (turns b times ≤ 1) ⊎ (b.steps + turns b times ≤ m)
unfolding turns spend
turns-bound b m [] e = inl (omega arith)
turns-bound b m (now ∷ later) e = elim (Bool-cases (reaches b.limits.max_steps (b.steps + 1))) [
  | inl out ↦ inl (rw (out, turns) (omega arith))
  | inr more ↦ elim (Bool-cases (reaches b.limits.max_seconds (seconds b now))) [
    | inl late ↦ inl (rw (more, late, turns) (omega arith))
    | inr on_time ↦
        rw (more, on_time, turns)
          (elim (turns-bound (counted b) m later e) [
            | inl few ↦ inr (omega (arith, unreached b.limits.max_steps m (b.steps + 1) e more))
            | inr rest ↦ inr (omega (arith, rest))
          ])
  ]
]
  where
    unreached : (limit : Option ℕ) (m n : ℕ) → limit ≡ some m → reaches limit n ≡ false → n < m
    unreached none m n e off = cc
    unreached (some l) m n e off = let same : l ≡ m = some-eq e in ground arith

-- A run whose limits name a number of steps takes no more turns than that, but for the one turn that a
-- limit of none still counts.
pub turns-fresh :
    (limits : Limits) (m now : ℕ) (times : List ℕ)
    → limits.max_steps ≡ some m
    → (turns (fresh limits now) times ≤ 1) ⊎ (turns (fresh limits now) times ≤ m)
unfolding fresh
turns-fresh limits m now times e = elim (turns-bound (fresh limits now) m times e) [
  | inl few ↦ inl few
  | inr rest ↦ inr (omega (arith, rest))
]
