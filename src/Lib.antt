-- ===== src/Lib.antt =====
-- alive-next proves that one LLVM function refines another. A run holds a tree of goals, each a pair
-- of programs, and every change of the tree is an effect that a log records; the tree is derived by
-- replaying the log, and the verdict is read off its root. This library models the state behind a
-- run, which lies in engine/core/state, the session that runs and logs the moves, and the chain of
-- moves that its certificate gives, and proves what makes them correct.
--
-- Parts, and the files that model them:
--   engine/core/state/trajectory.ts   Trajectory (the events and effects), Trajectory/Chain (the file:
--       `Trajectory.constructor` is open_at, `append`, `read`, `parse`, `lastHashOf` is last_hash_of)
--   engine/core/state/goals.ts        Goals/Types, Goals/Queries (openLeaves, verdict, workable, child,
--       nextGoalIds), Goals/Moves (settle, unsettle, discard, reopen, editable, opened), Goals/Derive
--       (one function per effect, `applyEffect` is apply, `derive`)
--   engine/core/state/store.ts        Store (canonWith is canonicalize, put, hashOf is hash_of, get, has)
--   engine/core/state/transactions.ts Transactions (begin, edit, opt, commit, abort, isEditing,
--       isEditingBelow is is_editing_below)
--   engine/core/state/counterexamples.ts   Counterexamples (divergence, report, replay, loops, entry)
--   engine/core/state/interpose.ts, cases.ts   Splits (interpose, cases, uninterpose, uncase, INVERSE is
--       inverse, unfit, paramOf is param_of)
--   engine/core/state/steps.ts        Steps (the types, `unmoved`, `question`), Steps/Ask (alive2, loops,
--       refinementCheck, withoutSolver), Steps/Discharge (checkGoal, eagerCheck), Steps/Land (rewrite,
--       unfold), Steps/Params and Steps/Conditioned (overParams, tryConditionedWindow), Steps/Certify
--       (checkStep)
--   engine/core/refs.ts               Steps/Params
--   engine/core/session.ts            Session (the class, `act`, `logged`, `append`, `note`, `message` is
--       said, `finish`), Session/Opening (`start` is begin_run, `resume`), Session/Moves (`revert`,
--       `uncut`, `uncase` and `uninterpose` with their guards), Session/Methods (the methods that run a
--       move), Session/Reads (`status`, `show`, `program`, `analyze`, `execute`, `number` is marked)
--   engine/core/state/cuts.ts         Session/Moves (`uncut`)
--   engine/cert/manifest.ts           Certificate (chainOf is chain_of, madeBy is made_by)
--   engine/agent/budget.ts, agent.ts  Budget (spend, and the turns up to the one that it stops)
--   engine/core/drivers/*.ts          Drivers (the types of the answers that the parts above read)
-- The log's effects are what goals.ts replays: Goals uses the data of Trajectory. Transactions,
-- Counterexamples and Splits read the tree and the store, and what they answer are effects for the
-- tree; so is what Steps answers, which Steps/Refined and Steps/Directed put to the claims of
-- Goals/Claims. Session runs each of these as a move on its bench (the store, what Steps keeps and the
-- open transaction), appends the two lines of the move to its log and derives the tree anew; a method
-- comes back with the session also where it throws. A program that was put before a throw is not kept
-- in the model's store, and a move's time is a parameter by the number of the call. Transactions
-- takes the step check as a parameter. What Goals/Right says of a verdict covers the logs that
-- strengthen no program. The tests and the runs at concrete inputs are in Tests.
--
-- State and errors. A JavaScript Map is an association list in insertion order (Prelude/Dict). A goal
-- object that the source mutates is the entry under its id, and the function that holds it writes it
-- back. A thrown error is a value of Result (the goal tree) or Attempt (Failure). A message is a value
-- that names the texts it is made of. A value that the source types as unknown is its JSON text.
-- What the class of steps.ts keeps, its answers and its loops, is a World that each operation takes
-- and hands on, also where it throws; what alive-tv answers may depend on how many checks came before.
-- A number in a program's text is read in decimal digits, and white space is ASCII's.
-- Numbers are natural numbers; the source's stay far below 2^53.
--
-- Fuel. `settle`, `unsettle`, `discard` and `climb` go along the tree and take fuel, one more than the
-- number of goals and the next goal's number together: each call of the first two changes one status
-- for good, and numbers rise from a goal to its children, so on a well-formed tree it is enough.
--
-- Not modelled: the run-time refusal of a comparison whose op is none of the ten that the source's type
-- names (Splits takes the type), sha256 and JSON (parameters of Trajectory/Chain and Store), the processes behind the
-- drivers (parameters of Transactions, Steps, Counterexamples, Splits and Session, as are the window
-- search of narrow.ts and the rewriter), the sorted listing of the store, the cuts and strengthens of
-- engine/core/state and the session's moves that make them, its commit, its report of an input and its
-- listing of rules, the rest of the certificate, the simple prover, the rest of the agent, the web
-- page, and the checkers in Python and C++.
mod Prelude
pub mod Trajectory
pub mod Goals
pub mod Failure
pub mod Drivers
pub mod Store
pub mod Steps
pub mod Session
pub mod Transactions
pub mod Counterexamples
pub mod Splits
pub mod Certificate
pub mod Budget
mod Tests
