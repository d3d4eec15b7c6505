-- ===== src/Session.antt =====
-- engine/core/session.ts: a session, its state and the way in which each move is run and logged. The
-- fields of the class are a record; the store, what steps.ts keeps and the open transaction are what a
-- move may change, its bench. JSON, the clock and what the moves call are parameters.
pub mod Opening
pub mod Moves
pub mod Methods
pub mod Reads
pub mod Replayed
pub mod Ended
pub mod Reading
pub mod InStep
pub mod Resumed
pub mod Reverts
pub mod Undos
pub mod Editing
use alive_next.Prelude.{
  ℕ, suc, String, Bool, Option, none, some, List, [], ◌∷◌, ◌++◌, if◌then◌else◌, length, ◌==◌,
}
use alive_next.Prelude.Decimal.{decimal}
use alive_next.Trajectory.{
  Hash, Side, src, tgt, Effect, Event, Entry, start, message, tool_call, tool_result, framework,
  settled, Outcome,
}
use alive_next.Trajectory.Chain
use alive_next.Trajectory.Chain.{
  Text, Codec, Trajectory, TrajectoryBroken, not_json, out_of_chain, Parsed, entries, broken,
  open_at,
}
use alive_next.Goals.Types.{GoalId, Tree, Result, ok, err}
use alive_next.Goals.Queries.{Verdict, verified, counterexample, unknown, verdict}
use alive_next.Goals.Derive.{derive}
use alive_next.Failure.{Failure, derivation, other, Attempt, thrown, done}
use alive_next.Drivers.{LlopsResult, ValidateResult}
use alive_next.Splits.{concat, DefinedIn, function, unreadable, outside_shape, defined_in}
use alive_next.Steps.{Kit, World, Run, Timeouts, keep}
use alive_next.Steps.Discharge.{CheckGoalResult, eager_goal_check}
use alive_next.Transactions.{Transaction}

-- What a session is built on. The clock is read once for each entry, and the times that moves take
-- once for each move.
pub record Host : Type 1 where
  pub kit : Kit
  pub codec : Codec
  pub clock : ℕ → ℕ
  pub elapsed : ℕ → ℕ
  pub json : {A : Type 0} → A → String
  pub message_of : Failure → String

-- What a move may change beside the log.
pub record Bench : Type 0 where
  pub world : World
  pub editing : Option Transaction

pub record Session : Type 0 where
  pub bench : Bench
  pub log : Trajectory
  pub entries : List Entry
  pub derived : Option Tree
  pub calls : ℕ

-- A move: what it leaves of the bench, also where it throws.
abbrev pub Move : Type 0 → Type 0
Move A = Bench → Bench × Attempt A

-- What steps.ts does on the store and what it keeps.
unfoldable pub on_world : {A : Type 0} → Run A → Move A
on_world run bench =
    let (world, result) = run bench.world in (record bench { world = world }, result)

-- What a session is started with.
pub record Started : Type 0 where
  pub src_text : String
  pub tgt_text : String
  pub config : String
  pub toolchain : Option String
  pub versions : List (String × String)
  pub eager : Bool

-- A method of the class.
abbrev pub Act : Type 0 → Type 0
Act A = Session → Session × Attempt A

abbrev pub then_act : {A B : Type 0} → Session × Attempt A → (A → Act B) → Session × Attempt B
then_act (s, thrown f) next = (s, thrown f)
then_act (s, done a) next = next a s

infixl 5 ◌>>=◌ ◌>>◌
unfoldable pub ◌>>=◌ : {A B : Type 0} → Act A → (A → Act B) → Act B
◌>>=◌ m next s = then_act (m s) next

unfoldable pub ◌>>◌ : {B : Type 0} → Act (Unit {0}) → Act B → Act B
◌>>◌ m next s = then_act (m s) (λ _. next)

unfoldable pub give : {A : Type 0} → A → Act A
give a s = (s, done a)

unfoldable pub throws : {A : Type 0} → Failure → Act A
throws f s = (s, thrown f)

-- The tree is derived anew from the log, or the error of that is thrown.
unfoldable pub rederived : Result Tree → Session → Session × Attempt (Unit {0})
rederived (ok tree) s = (record s { derived = some tree }, done tt)
rederived (err e) s = (s, thrown (derivation e))

module _ (host : Host) where
  open host use {kit, codec, clock, elapsed, json, message_of}

  unfoldable pub append : Event → Act (Unit {0})
  unfolding rederived
  append event s =
      let (log', entry) = Chain.append codec s.log event (clock (length s.entries)) in
      rederived (derive (s.entries ++ entry ∷ []))
        (record s { log = log'; entries = s.entries ++ entry ∷ [] })

  abbrev numbered_call : Session → Session
  numbered_call s = record s { calls = suc s.calls }

  abbrev pub call_id : Session → String
  call_id s = String.◌∷◌ "t" (decimal s.calls)

  -- The two lines of a move, `s` being the session once the call is counted.
  abbrev pub lines : String → String → List Effect → String → Session → Event × Event
  lines tool args effects result s = (
    tool_call (call_id s) tool args,
    tool_result (call_id s) tool (some effects) result (elapsed s.calls),
  )

  -- The two lines that record one move: its call, and what it answered.
  unfoldable pub logged : String → String → List Effect → String → Act (Unit {0})
  unfolding append
  logged tool args effects result s =
      let s' = numbered_call s in
      let (call, answered) = lines tool args effects result s' in
      (append call >> append answered) s'

  -- `move(this.tree)`, where the tree is missing before the start.
  unfoldable pub attempted : {A : Type 0} → Option Tree → (Tree → Move A) → Move A
  attempted none move bench = (bench, thrown (other "the session has no start"))
  attempted (some tree) move bench = move tree bench

  unfoldable pub concluded :
      {A : Type 0} → String → String → (A → List Effect) → (A → String) → Attempt A → Act A
  unfolding logged
  concluded tool args effects_of written (thrown f) =
      logged tool args [] (json (message_of f)) >> throws f
  concluded tool args effects_of written (done a) =
      logged tool args (effects_of a) (written a) >> give a

  -- One move, with the two lines that record it.
  unfoldable pub act :
      {A : Type 0} → String → String → (Tree → Move A) → (A → List Effect) → (A → String) → Act A
  unfolding attempted concluded
  act tool args move effects_of written s =
      let (bench, result) = attempted s.derived move s.bench in
      concluded tool args effects_of written result (record s { bench = bench })

  -- An action that the framework takes on its own.
  unfoldable pub note : String → String → Option (List Effect) → Act (Unit {0})
  unfolding append
  note action outcome effects = append (framework action effects outcome)

  -- An agent turn.
  unfoldable pub said : String → Act (Unit {0})
  unfolding append
  said text = append (message text)

  abbrev pub outcome_of : Verdict → Outcome
  outcome_of verified = Outcome.verified
  outcome_of counterexample = Outcome.counterexample
  outcome_of unknown = Outcome.unknown

  abbrev pub closing : Option Tree → Option String → Act Outcome
  unfolding append
  closing none certificate = throws (other "the session has no start")
  closing (some tree) certificate =
      append (settled (outcome_of (verdict tree)) certificate) >> give (outcome_of (verdict tree))

  -- Close the run with the verdict that its log has reached.
  unfoldable pub finish : Option String → Act Outcome
  unfolding rederived closing
  finish certificate =
      (λ s. rederived (derive s.entries) s) >> (λ s. closing s.derived certificate s)
