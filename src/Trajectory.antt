-- ===== src/Trajectory.antt =====
-- engine/core/state/trajectory.ts: the alphabet of the log. A value that the source types as
-- `unknown` (a configuration, a message, a tool's arguments and answer) is its JSON text.
pub mod Chain
pub mod RoundTrip
pub mod Tamper
use alive_next.Prelude.{ℕ, String, Bool, Option, List}

-- Programs are named by their store hash wherever an event mentions one.
abbrev pub Hash : Type 0
Hash = String

pub data Side : Type 0 where
  src tgt : Side

-- engine/core/drivers/llops.ts, `Attrs`: names and the JSON texts of their values.
abbrev pub Attrs : Type 0
Attrs = List (String × String)

pub data ComparisonOp : Type 0 where
  eq ne slt sle sgt sge ult ule ugt uge : ComparisonOp

-- What a comparison compares: `Name | number`, the number as it is written.
pub data Operand : Type 0 where
  name : String → Operand
  number : String → Operand

pub record Comparison : Type 0 where
  pub op : ComparisonOp
  pub lhs : Operand
  pub rhs : Operand

pub data Predicate : Type 0 where
  insts : List String → Predicate
  compares : Comparison → Predicate

-- What a case splits on: a comparison, or whether parameter `defined` is poison.
pub data CaseOn : Type 0 where
  comparison : Comparison → CaseOn
  defined : String → CaseOn

-- A detached block: which callee parameters were its phis on each side, and a loop's hypothesis.
pub record Detach : Type 0 where
  pub phis_src : List ℕ
  pub phis_tgt : List ℕ
  pub hypothesis : Option String

pub record Slots : Type 0 where
  pub src : List ℕ
  pub tgt : List ℕ

pub record StepRef : Type 0 where
  pub gid : String
  pub hash : Hash

-- engine/core/drivers/llrwt.ts, `LlrwtInvocation`.
pub record LlrwtInvocation : Type 0 where
  pub binary : String
  pub rules : List String
  pub timeout_ms : ℕ
  pub mlir_translate : Option String
  pub mlir_opt : Option String

pub data How : Type 0 where
  rewrite check unfolds : How

pub data By : Type 0 where
  alive2 reshaped respected : By

pub record Window : Type 0 where
  pub callee : String
  pub outer : Hash
  pub from : Hash
  pub to : Hash
  pub preconditions : List (ℕ × Attrs)
  pub predicates : List Predicate

pub record StepEffect : Type 0 where
  pub gid : String
  pub side : Side
  pub to : Hash
  pub how : How
  pub by : Option By
  pub rules : Option (List String)
  pub invocation : Option LlrwtInvocation
  pub window : Option Window

-- A child that a split makes, with its initial pair.
pub record Half : Type 0 where
  pub gid : String
  pub src : Hash
  pub tgt : Hash

pub record CutEffect : Type 0 where
  pub gid : String
  pub name : String
  pub outer : Half
  pub callee : Half
  pub detach : Option Detach
  pub slots : Option Slots
  pub src_alone : Bool

pub record StrengthenEffect : Type 0 where
  pub gid : String
  pub src : Hash
  pub tgt : Hash
  pub param_attrs : Option (List (ℕ × Attrs))
  pub fn_attrs : Option Attrs
  pub predicates : Option (List Predicate)
  pub ret_attrs : Option Attrs
  pub by : Option (List StepRef)

-- What an event did to the goal tree.
pub data Effect : Type 0 where
  step : StepEffect → Effect
  interpose : String → Half → Half → Effect
  case : String → CaseOn → Half → Half → Effect
  cut : CutEffect → Effect
  strengthen : StrengthenEffect → Effect
  uncut : String → Effect
  uninterpose : String → Effect
  uncase : String → Effect
  revert : String → Side → Hash → Effect
  proved : String → Option By → Effect
  refuted : String → Effect

pub record StartEvent : Type 0 where
  pub src : Hash
  pub tgt : Hash
  pub config : String
  pub toolchain : Option String
  pub versions : List (String × String)

pub data Outcome : Type 0 where
  verified counterexample unknown : Outcome

-- `tool_result` and `framework` carry effects; the others change nothing.
pub data Event : Type 0 where
  start : StartEvent → Event
  message : String → Event
  tool_call : String → String → String → Event
  tool_result : String → String → Option (List Effect) → String → ℕ → Event
  framework : String → Option (List Effect) → String → Event
  settled : Outcome → Option String → Event

-- An event as it sits in the file: what happened, when, and what preceded it.
pub record Entry : Type 0 where
  pub event : Event
  pub time : ℕ
  pub prev : Hash
