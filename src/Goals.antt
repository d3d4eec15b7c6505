-- ===== src/Goals.antt =====
-- engine/core/state/goals.ts: the goal tree and the replay of the log that derives it.
pub mod Types
pub mod Queries
pub mod Moves
pub mod Derive
pub mod Restatus
pub mod Termination
pub mod Wf
pub mod Grow
pub mod Split
pub mod Prune
pub mod Reopen
pub mod Editable
pub mod Invariant
pub mod Replay
pub mod Ids
pub mod Settled
pub mod Sound
pub mod Verdict
pub mod Ends
pub mod Moved
pub mod Undone
pub mod Claims
pub mod Roots
pub mod Started
pub mod Right
pub mod Earned
pub mod Earning
pub mod Certified
