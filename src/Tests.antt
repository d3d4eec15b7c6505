-- ===== src/Tests.antt =====
-- Runs of the definitions on concrete inputs, and the theorems applied to them.
mod Goals
mod Trajectory
mod State
mod Moves
mod Certificate
mod Budget
mod Steps
mod Claims
mod Refined
mod Session
mod Guards
