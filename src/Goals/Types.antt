-- ===== src/Goals/Types.antt =====
-- engine/core/state/goals.ts, its types: goals, the tree and the errors that replaying can throw.
use alive_next.Prelude.{ℕ, String, Bool, true, false, Option, List}
use alive_next.Prelude.Dict.{Dict}
use alive_next.Trajectory.{Hash, Side, src, tgt, Detach, Slots}

abbrev pub GoalId : Type 0
GoalId = String

pub data Role : Type 0 where
  outer callee lhs rhs holds fails : Role

pub data Status : Type 0 where
  open_ proved split refuted : Status

-- One side of a goal: every program it has been, the last one being current.
pub record SideHistory : Type 0 where
  pub history : List Hash

-- What a cut records on both of its children.
pub record Made : Type 0 where
  pub callee : Option String
  pub detach : Option Detach
  pub slots : Option Slots
  pub src_alone : Bool

pub record Goal : Type 0 where
  pub id : GoalId
  pub parent : Option GoalId
  pub role : Option Role
  pub made : Made
  pub src : SideHistory
  pub tgt : SideHistory
  pub status : Status
  pub children : List GoalId

pub record Tree : Type 0 where
  pub root : GoalId
  pub goals : Dict Goal
  pub programs : Dict String
  pub next_goal : ℕ

-- The errors of `DerivationError`; `out_of_fuel` stands for a recursion that does not end.
pub data DerivationError : Type 0 where
  no_program : GoalId → Side → DerivationError
  not_open : GoalId → Status → DerivationError
  no_child : GoalId → Role → DerivationError
  second_start before_start no_start : DerivationError
  never_had : GoalId → Hash → Side → DerivationError
  do_not_meet : GoalId → DerivationError
  not_cut not_interposed not_cased : GoalId → DerivationError
  already_exists : GoalId → DerivationError
  no_goal : GoalId → DerivationError
  out_of_fuel : DerivationError

pub data Result {ℓ} (A : Type ℓ) : Type ℓ where
  err : DerivationError → Result A
  ok : A → Result A

infixl 5 ◌>>=◌
abbrev pub ◌>>=◌ {ℓ κ} : {T : Type ℓ} {U : Type κ} → Result T → (T → Result U) → Result U
err thrown >>= next = err thrown
ok value >>= next = next value

abbrev pub same_status : Status → Status → Bool
same_status open_ open_ = true
same_status proved proved = true
same_status split split = true
same_status refuted refuted = true
same_status _ _ = false

abbrev pub same_role : Role → Role → Bool
same_role outer outer = true
same_role callee callee = true
same_role lhs lhs = true
same_role rhs rhs = true
same_role holds holds = true
same_role fails fails = true
same_role _ _ = false

-- goal[side]
abbrev pub on : Goal → Side → SideHistory
on goal src = goal.src
on goal tgt = goal.tgt

abbrev pub set_on : Goal → Side → SideHistory → Goal
set_on goal src h = record goal { src = h }
set_on goal tgt h = record goal { tgt = h }
