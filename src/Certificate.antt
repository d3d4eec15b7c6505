-- ===== src/Certificate.antt =====
-- engine/cert/manifest.ts: the chain of moves that a certificate gives for a goal. An effect is known by
-- its place in the log, as the source compares them by identity. The source's arrays `held` and `made`
-- of a side, which it changes in step, are one list of slots.
pub mod Slots
pub mod Chain
use alive_next.Prelude.{
  ℕ, zero, suc, ◌+◌, String, Bool, true, false, ◌&&◌, ◌||◌, not, Option, none, some, List, [], ◌∷◌,
  ◌++◌, if◌then◌else◌, nat_eq, head?, length, ◌==◌,
}
use alive_next.Trajectory.{
  Hash, Side, src, tgt, Effect, StepEffect, StrengthenEffect, How, rewrite, check, unfolds, By,
  alive2, Window, LlrwtInvocation, step, interpose, case, cut, strengthen, uncut, uninterpose,
  uncase, revert, proved, refuted,
}
use alive_next.Goals.Types.{GoalId, Goal, on}
use alive_next.Failure.{Failure, other, Attempt, thrown, done, ◌>>=◌}

-- One move along a goal's chain. What is before it is the goal's history at an index, which may be
-- missing from it.
pub data Step : Type 0 where
  checked : Side → Option Hash → Hash → By → Step
  rewritten : Option Hash → Hash → List String → LlrwtInvocation → Step
  narrowed : Side → Option Hash → Hash → Window → Step
  unfolded : Side → Option Hash → Hash → Step
  strengthened : Option Hash → Option Hash → StrengthenEffect → Step

-- A program that a side holds, and the place in the log of the move that made it.
pub record Slot : Type 0 where
  pub hash : Hash
  pub by : Option ℕ

pub record Held : Type 0 where
  pub on_src : List Slot
  pub on_tgt : List Slot

abbrev pub gid_of : Effect → GoalId
gid_of (step e) = e.gid
gid_of (interpose gid l r) = gid
gid_of (case gid c h f) = gid
gid_of (cut e) = e.gid
gid_of (strengthen e) = e.gid
gid_of (uncut gid) = gid
gid_of (uninterpose gid) = gid
gid_of (uncase gid) = gid
gid_of (revert gid side to) = gid
gid_of (proved gid by) = gid
gid_of (refuted gid) = gid

abbrev pub numbered : ℕ → List Effect → List (ℕ × Effect)
numbered n [] = []
numbered n (e ∷ es) = (n, e) ∷ numbered (suc n) es

abbrev pub nth {ℓ} : {A : Type ℓ} → List A → ℕ → Option A
nth [] n = none
nth (x ∷ xs) zero = some x
nth (x ∷ xs) (suc n) = nth xs n

-- The slots up to the last one that holds the program, or none.
unfoldable pub back_to : List Slot → Hash → List Slot
back_to [] to = []
back_to (x ∷ xs) to =
    let rest = back_to xs to in
    elim rest [ y ∷ ys ↦ x ∷ y ∷ ys | [] ↦ if x.hash == to then x ∷ [] else [] ]

abbrev pub slot : Hash → ℕ → List Slot
slot hash n = record { hash = hash; by = some n } ∷ []

abbrev pub push_on : Held → Side → List Slot → Held
push_on held src x = record held { on_src = held.on_src ++ x }
push_on held tgt x = record held { on_tgt = held.on_tgt ++ x }

abbrev pub cut_back : Held → Side → Hash → Held
cut_back held src to = record held { on_src = back_to held.on_src to }
cut_back held tgt to = record held { on_tgt = back_to held.on_tgt to }

-- One of the goal's moves, replayed.
unfoldable pub make : Held → ℕ → Effect → Held
make held n (step e) = push_on held e.side (slot e.to n)
make held n (strengthen e) = push_on (push_on held src (slot e.src n)) tgt (slot e.tgt n)
make held n (revert gid side to) = cut_back held side to
make held n _ = held

unfoldable pub make_all : GoalId → Held → List (ℕ × Effect) → Held
unfolding make
make_all gid held [] = held
make_all gid held ((n, e) ∷ es) = make_all gid (if gid_of e == gid then make held n e else held) es

abbrev pub first_slot : Hash → List Slot
first_slot hash = record { hash = hash; by = none } ∷ []

unfoldable pub first : Goal → Side → Attempt Hash
first goal side = elim (head? (on goal side).history) [
  | none ↦ thrown (other goal.id)
  | some h ↦ done h
]

-- The move that made each program a goal's side holds, by its place in the side's history.
unfoldable pub made_by : Goal → List Effect → Attempt Held
unfolding make_all first
made_by goal effects = do
  s ← first goal src
  t ← first goal tgt
  done (
      make_all goal.id (record { on_src = first_slot s; on_tgt = first_slot t })
        (numbered 0 effects))

abbrev is_by : Option Slot → ℕ → Bool
is_by none n = false
is_by (some x) n = elim x.by [ none ↦ false | some m ↦ nat_eq m n ]

-- `made[side][at] === effect`
unfoldable pub made_at : List Slot → ℕ → ℕ → Bool
made_at slots at n = is_by (nth slots at) n

abbrev or_alive2 : Option By → By
or_alive2 none = alive2
or_alive2 (some by) = by

-- A step of the chain, from the program that the history holds before it, by what it records.
unfoldable pub step_as :
    Option Hash
    → StepEffect
    → How
    → Side
    → Option (List String)
    → Option LlrwtInvocation
    → Option Window
    → Attempt Step
step_as from e rewrite tgt rules invocation window =
    thrown (other "a rewrite step was recorded on tgt")
step_as from e rewrite src none invocation window = thrown (other "a rewrite step names no rules")
step_as from e rewrite src (some []) invocation window =
    thrown (other "a rewrite step names no rules")
step_as from e rewrite src (some (r ∷ rs)) none window =
    thrown (other "a rewrite step records no invocation")
step_as from e rewrite src (some (r ∷ rs)) (some invocation) window =
    done (rewritten from e.to (r ∷ rs) invocation)
step_as from e unfolds side rules invocation window = done (unfolded side from e.to)
step_as from e check side rules invocation (some w) = done (narrowed side from e.to w)
step_as from e check side rules invocation none = done (checked side from e.to (or_alive2 e.by))

unfoldable pub step_of : Option Hash → StepEffect → Attempt Step
unfolding step_as
step_of from e = step_as from e e.how e.side e.rules e.invocation e.window

abbrev pub cons : Attempt Step → Attempt (List Step) → Attempt (List Step)
cons x rest = do s ← x; ss ← rest; done (s ∷ ss)

-- What a step of the goal adds to the chain, if it made the program at its side's next place.
unfoldable pub take_step :
    Goal
    → Held
    → ℕ
    → ℕ
    → ℕ
    → StepEffect
    → Side
    → (skipped on_src on_tgt : Attempt (List Step)) → Attempt (List Step)
unfolding made_at step_of
take_step goal held i j n e src skipped on_src on_tgt =
    if made_at held.on_src (suc i) n
    then cons (step_of (nth goal.src.history i) e) on_src
    else skipped
take_step goal held i j n e tgt skipped on_src on_tgt =
    if made_at held.on_tgt (suc j) n
    then cons (step_of (nth goal.tgt.history j) e) on_tgt
    else skipped

-- The loop of `chainOf`: `i` and `j` are the places of the programs that the sides are at, one before
-- the source's `si` and `ti`.
unfoldable pub chain_from : Goal → Held → ℕ → ℕ → List (ℕ × Effect) → Attempt (List Step)
unfolding made_at take_step
chain_from goal held i j [] =
    if nat_eq (suc i) (length goal.src.history) && nat_eq (suc j) (length goal.tgt.history)
    then done []
    else thrown (other "nothing in the log accounts for every pair")
chain_from goal held i j ((n, step e) ∷ es) =
    let skipped = chain_from goal held i j es in
    let on_src = chain_from goal held (suc i) j es in
    let on_tgt = chain_from goal held i (suc j) es in
    if e.gid == goal.id then take_step goal held i j n e e.side skipped on_src on_tgt else skipped
chain_from goal held i j ((n, strengthen e) ∷ es) =
    let skipped = chain_from goal held i j es in
    let both = chain_from goal held (suc i) (suc j) es in
    if (e.gid == goal.id) && made_at held.on_src (suc i) n && made_at held.on_tgt (suc j) n
    then cons (done (strengthened (nth goal.src.history i) (nth goal.tgt.history j) e)) both
    else skipped
chain_from goal held i j ((n, other_effect) ∷ es) = chain_from goal held i j es

-- The moves along a goal's surviving chain, in the order they happened.
unfoldable pub chain_of : Goal → List Effect → Attempt (List Step)
unfolding made_by chain_from
chain_of goal effects = do
  held ← made_by goal effects
  chain_from goal held 0 0 (numbered 0 effects)
