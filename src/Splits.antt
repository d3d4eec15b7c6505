-- ===== src/Splits.antt =====
-- engine/core/state/interpose.ts and cases.ts: putting a program between a goal's sides, and splitting
-- a goal by cases on its inputs. llops is a parameter, and so are the store's tools.
pub mod Inverse
pub mod Ids
use alive_next.Prelude.{
  ℕ, zero, suc, String, Bool, true, false, not, ◌&&◌, ◌||◌, Option, none, some, List, [], ◌∷◌,
  if◌then◌else◌, nat_eq, ◌==◌,
}
use Prim.Native.Char.{code}
use alive_next.Prelude.Dict
use alive_next.Prelude.Decimal.{read}
use alive_next.Trajectory.{
  Hash, Side, Half, Effect, ComparisonOp, eq, ne, slt, sle, sgt, sge, ult, ule, ugt, uge, Operand,
  name, number, Comparison, CaseOn, comparison, defined,
}
use alive_next.Trajectory.Side.{src, tgt}
use alive_next.Goals.Types.{GoalId, Goal, Tree}
use alive_next.Goals.Queries.{workable, head, next_goal_ids, interposed, cased}
use alive_next.Failure.{Failure, no_such_goal, not_of_kind, Attempt, thrown, done, ◌>>=◌, lift}
use alive_next.Drivers.{
  LlopsResult, answer, refusal, ModuleResult, ValidateResult, FunctionMeta, FunctionParamMeta,
}
use alive_next.Store.{Disk, Tools, get, put}

-- Template literals and Array.prototype.join
unfoldable pub concat : String → String → String
concat String.[] t = t
concat (String.◌∷◌ c s) t = String.◌∷◌ c (concat s t)

unfoldable pub join_types : List FunctionParamMeta → String
unfolding concat
join_types [] = ""
join_types (p ∷ []) = p.type
join_types (p ∷ q ∷ ps) = concat p.type (concat ", " (join_types (q ∷ ps)))

unfoldable pub find_defined : List (String × FunctionMeta) → Option (String × FunctionMeta)
find_defined [] = none
find_defined ((n, fn) ∷ fns) = if fn.defined then some (n, fn) else find_defined fns

pub data DefinedIn : Type 0 where
  function : String → String → DefinedIn
  unreadable : String → DefinedIn
  outside_shape : List (String × String) → DefinedIn

abbrev function_of : Option (String × FunctionMeta) → DefinedIn
function_of none = function "" " ()"
function_of (some (n, fn)) =
    function n (concat fn.return_type (concat " (" (concat (join_types fn.params) ")")))

-- drivers/llops.ts: the one function a program defines, by name and type, or why there is none.
unfoldable pub defined_in : LlopsResult ValidateResult → DefinedIn
unfolding find_defined join_types concat
defined_in (refusal code message) = unreadable message
defined_in (answer r) =
    if r.conforms then function_of (find_defined r.functions) else outside_shape r.diagnostics

-- What the two moves ask llops.
pub record Llops : Type 0 where
  pub validate : String → LlopsResult ValidateResult
  pub noundef : String → String → ℕ → LlopsResult ModuleResult
  pub poison : String → ℕ → LlopsResult ModuleResult
  pub assume : String → String → Comparison → LlopsResult ModuleResult

pub data WhyRefused : Type 0 where
  undefined : DefinedIn → WhyRefused
  other_function : String → WhyRefused
  other_type : String → WhyRefused
  is_a_side : WhyRefused
  not_a_parameter : String → WhyRefused
  may_be_poison : String → WhyRefused
  names_no_parameter : WhyRefused
  side_refused : Side → String → WhyRefused

pub data MoveResult : Type 0 where
  moved : GoalId → GoalId → List Effect → MoveResult
  refused : WhyRefused → MoveResult

-- The program goes to the store, and the halves meet in it.
unfoldable pub interpose_at :
    Tools → Disk → Tree → GoalId → Hash → Hash → String → Attempt (Disk × MoveResult)
interpose_at tools disk tree gid s t program = do
  (disk', hash) ← put tools disk program
  let (l, r) = next_goal_ids tree
  if (hash == s) || (hash == t)
      then done (disk', refused is_a_side)
      else done (
        disk',
        moved l r (
            Effect.interpose gid (record { gid = l; src = s; tgt = hash })
              (record { gid = r; src = hash; tgt = t })
            ∷ []),
      )

-- Whether both programs define one function of one name and type.
unfoldable pub same_function : DefinedIn → DefinedIn → Option WhyRefused
same_function mine (unreadable message) = some (undefined (unreadable message))
same_function mine (outside_shape diagnostics) = some (undefined (outside_shape diagnostics))
same_function (unreadable message) (function n type) = some (other_function n)
same_function (outside_shape diagnostics) (function n type) = some (other_function n)
same_function (function n type) (function n' type') =
    if n == n'
    then (if type == type' then none else some (other_type type'))
    else some (other_function n')

-- Put `program` between the two sides of goal `gid`.
unfoldable pub interpose :
    Tools → Llops → Disk → Tree → GoalId → String → Attempt (Disk × MoveResult)
unfolding interpose_at same_function
interpose tools llops disk tree gid program = do
  goal ← lift (workable tree gid)
  s ← lift (head goal src)
  t ← lift (head goal tgt)
  text ← get tools disk s
  elim (same_function (defined_in (llops.validate text)) (defined_in (llops.validate program))) [
    | some why ↦ done (disk, refused why)
    | none ↦ interpose_at tools disk tree gid s t program
  ]

-- An undo's effect, for a goal that `fits`.
unfoldable pub undo_effect : Tree → GoalId → (Tree → Goal → Bool) → Effect → Attempt (List Effect)
undo_effect tree gid fits effect = elim (Dict.get tree.goals gid) [
  | none ↦ thrown (no_such_goal gid)
  | some goal ↦ if fits tree goal then done (effect ∷ []) else thrown (not_of_kind gid)
]

unfoldable pub uninterpose : Tree → GoalId → Attempt (List Effect)
unfolding undo_effect
uninterpose tree gid = undo_effect tree gid interposed (Effect.uninterpose gid)

unfoldable pub uncase : Tree → GoalId → Attempt (List Effect)
unfolding undo_effect
uncase tree gid = undo_effect tree gid cased (Effect.uncase gid)

-- `INVERSE`
unfoldable pub inverse : ComparisonOp → ComparisonOp
inverse eq = ne
inverse ne = eq
inverse slt = sge
inverse sge = slt
inverse sgt = sle
inverse sle = sgt
inverse ult = uge
inverse uge = ult
inverse ugt = ule
inverse ule = ugt

-- `/^!(0|[1-9]\d*)$/`
unfoldable pub param_of : String → Option ℕ
param_of (String.◌∷◌ bang (String.◌∷◌ c s)) =
    if nat_eq (code bang) b'!'
    then (if nat_eq (code c) b'0'
        then (if s == "" then some 0 else none)
        else read (String.◌∷◌ c s))
    else none
param_of _ = none

abbrev pub named : List Operand → List String
named [] = []
named (name n ∷ xs) = n ∷ named xs
named (number n ∷ xs) = named xs

unfoldable pub nth_param : List FunctionParamMeta → ℕ → Option FunctionParamMeta
nth_param [] k = none
nth_param (p ∷ ps) zero = some p
nth_param (p ∷ ps) (suc k) = nth_param ps k

abbrev at_param : List FunctionParamMeta → Option ℕ → Option FunctionParamMeta
at_param params none = none
at_param params (some k) = nth_param params k

abbrev judge_param : String → Option FunctionParamMeta → Option WhyRefused → Option WhyRefused
judge_param n none later = some (not_a_parameter n)
judge_param n (some p) later = if p.noundef then later else some (may_be_poison n)

unfoldable pub unfit_names : List FunctionParamMeta → List String → Option WhyRefused
unfolding nth_param param_of
unfit_names params [] = none
unfit_names params (n ∷ ns) =
    let later = unfit_names params ns in judge_param n (at_param params (param_of n)) later

abbrev params_of : Option (String × FunctionMeta) → List FunctionParamMeta
params_of none = []
params_of (some (n, fn)) = fn.params

abbrev unfit_in : LlopsResult ValidateResult → List String → Option WhyRefused
unfit_in (refusal code message) names = some (undefined (unreadable message))
unfit_in (answer r) names = unfit_names (params_of (find_defined r.functions)) names

-- Why a comparison cannot cut a goal whose src is `text`, or nothing.
unfoldable pub unfit : Llops → String → Comparison → Option WhyRefused
unfolding unfit_names find_defined
unfit llops text c = elim (named (c.lhs ∷ c.rhs ∷ [])) [
  | [] ↦ some names_no_parameter
  | n ∷ ns ↦ unfit_in (llops.validate text) (n ∷ ns)
]

pub data BothResult : Type 0 where
  pair : Hash → Hash → BothResult
  why_not : WhyRefused → BothResult

unfoldable pub both_texts :
    Tools
    → Disk
    → LlopsResult ModuleResult
    → Attempt (LlopsResult ModuleResult)
    → Attempt (Disk × BothResult)
both_texts tools disk (refusal code message) made_tgt =
    done (disk, why_not (side_refused src message))
both_texts tools disk (answer s) made_tgt = do
  other_side ← made_tgt
  elim other_side [
    | refusal code message ↦ done (disk, why_not (side_refused tgt message))
    | answer t ↦ (do
      (disk', h) ← put tools disk s.module_text
      (disk'', k) ← put tools disk' t.module_text
      done (disk'', pair h k))
  ]

-- Both programs of `goal`, each made into its case by `make` and stored.
unfoldable pub both :
    Tools → Disk → Goal → (String → LlopsResult ModuleResult) → Attempt (Disk × BothResult)
unfolding both_texts
both tools disk goal make = do
  s ← lift (head goal src)
  text ← get tools disk s
  both_texts tools disk (make text)
      (do t ← lift (head goal tgt); its ← get tools disk t; done (make its))

pub data TwoPairs : Type 0 where
  pairs : Hash → Hash → Hash → Hash → TwoPairs
  no_pairs : WhyRefused → TwoPairs

-- The case that holds, and then the one that fails.
unfoldable pub both_cases :
    Tools
    → Disk
    → Goal
    → (String → LlopsResult ModuleResult)
    → (String → LlopsResult ModuleResult)
    → Attempt (Disk × TwoPairs)
unfolding both
both_cases tools disk goal make_holds make_fails = do
  (disk', holds) ← both tools disk goal make_holds
  elim holds [
    | why_not why ↦ done (disk', no_pairs why)
    | pair hs ht ↦ (do
      (disk'', fails) ← both tools disk' goal make_fails
      elim fails [
        | why_not why ↦ done (disk'', no_pairs why)
        | pair fs ft ↦ done (disk'', pairs hs ht fs ft)
      ])
  ]

unfoldable pub by_case :
    Tools → Llops → Disk → Goal → String → String → CaseOn → Attempt (Disk × TwoPairs)
unfolding both_cases unfit inverse param_of
by_case tools llops disk goal text fn (defined n) = elim (param_of n) [
  | none ↦ done (disk, no_pairs (not_a_parameter n))
  | some k ↦
      both_cases tools disk goal (λ program. llops.noundef program fn k)
        (λ program. llops.poison program k)
]
by_case tools llops disk goal text fn (comparison c) = elim (unfit llops text c) [
  | some why ↦ done (disk, no_pairs why)
  | none ↦
      both_cases tools disk goal (λ program. llops.assume program fn c)
        (λ program. llops.assume program fn (record c { op = inverse c.op }))
]

abbrev cases_of : Tree → GoalId → CaseOn → TwoPairs → MoveResult
cases_of tree gid on (no_pairs why) = refused why
cases_of tree gid on (pairs hs ht fs ft) = moved (next_goal_ids tree).0 (next_goal_ids tree).1 (
    Effect.case gid on (record { gid = (next_goal_ids tree).0; src = hs; tgt = ht })
      (record { gid = (next_goal_ids tree).1; src = fs; tgt = ft })
    ∷ [])

unfoldable pub cases_in :
    Tools
    → Llops
    → Disk
    → Tree
    → GoalId
    → Goal
    → String
    → CaseOn
    → DefinedIn
    → Attempt (Disk × MoveResult)
unfolding by_case
cases_in tools llops disk tree gid goal text on (function fn type) = do
  (disk', made) ← by_case tools llops disk goal text fn on
  done (disk', cases_of tree gid on made)
cases_in tools llops disk tree gid goal text on unnamed = done (disk, refused (undefined unnamed))

-- Cut goal `gid` by cases on `on`.
unfoldable pub cases : Tools → Llops → Disk → Tree → GoalId → CaseOn → Attempt (Disk × MoveResult)
unfolding cases_in defined_in
cases tools llops disk tree gid on = do
  goal ← lift (workable tree gid)
  s ← lift (head goal src)
  text ← get tools disk s
  cases_in tools llops disk tree gid goal text on (defined_in (llops.validate text))
