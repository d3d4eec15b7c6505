-- ===== src/Drivers.antt =====
-- engine/core/drivers: what the tools answer, as far as the state layer reads it. A value that the
-- source types as unknown is its JSON text.
use alive_next.Prelude.{ℕ, String, Bool, Option, List}
use alive_next.Prelude.Dict.{Dict}
use alive_next.Trajectory.{Attrs, Predicate, LlrwtInvocation}

-- llops.ts, every llops answer: the payload, or the code and message it refused with.
pub data LlopsResult (A : Type 0) : Type 0 where
  answer : A → LlopsResult A
  refusal : String → String → LlopsResult A

pub data Place : Type 0 where
  before after : Place

pub data Extension : Type 0 where
  zext sext : Extension

-- llops.ts, the edit catalog.
pub data EditOp : Type 0 where
  swap : String → String → EditOp
  move : String → Place → String → EditOp
  hoist : String → EditOp
  substitute : String → String → EditOp
  replace : String → List String → EditOp
  insert_insts : Place → String → List String → EditOp
  erase : String → Option Bool → EditOp
  commute : String → EditOp
  retype : String → String → Option Extension → EditOp
  dedup : String → String → EditOp
  copy_block : String → List String → EditOp
  peel : String → EditOp
  set_body : String → EditOp
  drop_attrs drop_lifetimes : EditOp
  flags : String → List (String × Bool) → EditOp
  splice : String → String → String → String → String → List (String × String) → EditOp

-- llops.ts, one op of the `opt` subcommand; a pipeline also names the stage to take.
pub data OptOp : Type 0 where
  simplify : String → OptOp
  instcombine : Option ℕ → Option ℕ → OptOp
  pipeline : Option String → Option ℕ → OptOp

pub record ModuleResult : Type 0 where
  pub module_text : String

pub record OptResult : Type 0 where
  pub module_text : String
  pub stage : Option ℕ
  pub stages : Option (List String)

pub record FunctionParamMeta : Type 0 where
  pub index : ℕ
  pub type : String
  pub noundef : Bool

pub record FunctionMeta : Type 0 where
  pub defined : Bool
  pub return_type : String
  pub params : List FunctionParamMeta

pub record ValidateResult : Type 0 where
  pub conforms : Bool
  pub cyclic : Bool
  pub diagnostics : List (String × String)
  pub functions : List (String × FunctionMeta)

pub data InputArg : Type 0 where
  int : String → InputArg
  bytes : List ℕ → Option ℕ → InputArg
  null_arg poison_arg : InputArg

-- Whether one function only reshapes another's control flow, or only adds attributes it keeps.
pub record ReshapedResult : Type 0 where
  pub reshaped : Bool
  pub why : Option String

pub record RespectedResult : Type 0 where
  pub respected : Bool
  pub why : Option String

-- One instruction of a body, as far as a reference to it is resolved.
pub record Instruction : Type 0 where
  pub text : String
  pub value : Option String

pub record NumberResult : Type 0 where
  pub module_text : String
  pub body : List Instruction

-- One entry of the shared signature an outline produces.
pub record OutlineParam : Type 0 where
  pub param : String
  pub type : String
  pub live : String
  pub tgt : Option String

pub data AssumeAnchor : Type 0 where
  start before_calls before_inst : String → AssumeAnchor

pub data Assertion : Type 0 where
  fact : Attrs → String → Assertion
  predicate : Predicate → Assertion

pub record HarnessResult : Type 0 where
  pub module_text : String
  pub differences : List String

-- alive2.ts
pub data CheckOutcome : Type 0 where
  correct incorrect unknown error : CheckOutcome

-- Exactly what ran.
pub record Invocation : Type 0 where
  pub binary : String
  pub flags : List String
  pub timeout_ms : ℕ

pub record Summary : Type 0 where
  pub correct : ℕ
  pub incorrect : ℕ
  pub failed : ℕ
  pub errors : ℕ

pub record CheckResult : Type 0 where
  pub outcome : CheckOutcome
  pub detail : String
  pub invocation : Invocation
  pub summary : Option Summary
  pub stdout : String
  pub ms : ℕ

-- llubi.ts
pub data RunOutcome : Type 0 where
  returned ub failed : RunOutcome

pub record RunResult : Type 0 where
  pub outcome : RunOutcome
  pub observations : Dict String
  pub reason : String

-- llrwt.ts
pub record ApplyResult : Type 0 where
  pub module_text : String
  pub invocation : LlrwtInvocation
