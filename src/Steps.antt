-- ===== src/Steps.antt =====
-- engine/core/state/steps.ts: certified steps, their types and the parts that ask nobody. What the
-- source's class keeps (the two maps, and the store it was given) is a `World` that every operation
-- is handed and answers; the tools it calls are a `Kit`. alive-tv need not answer the same question
-- the same way twice, so its answer depends on how many checks came before.
pub mod Ask
pub mod Discharge
pub mod Land
pub mod Params
pub mod Conditioned
pub mod Certify
pub mod Runs
pub mod Backing
pub mod Discharging
pub mod Windows
pub mod Eager
pub mod Sound
pub mod Calls
pub mod Refined
pub mod Directed
pub mod Again
pub mod Certifying
pub mod Keeping
pub mod Stable
pub mod Answers
pub mod Questions
use alive_next.Prelude.{
  ℕ, suc, String, Bool, true, false, ◌&&◌, Option, none, some, List, [], ◌∷◌, ◌≡◌, refl, ap, head?,
  if◌then◌else◌, ◌==◌,
}
use Prim.Native.Char.{Char}
use alive_next.Prelude.Dict
use alive_next.Prelude.Dict.{Dict}
use alive_next.Prelude.Decimal.{decimal}
use alive_next.Trajectory.{Hash, Side, src, tgt, By, Effect, Attrs, Predicate, LlrwtInvocation}
use alive_next.Goals.Types.{GoalId, Goal, Tree, Result, ok, err, on}
use alive_next.Goals.Queries.{head}
use alive_next.Failure.{Failure, Attempt, thrown, done, lift}
use alive_next.Drivers.{
  LlopsResult, answer, refusal, ModuleResult, ValidateResult, ReshapedResult, RespectedResult,
  NumberResult, OutlineParam, AssumeAnchor, Assertion, ApplyResult, Invocation, CheckResult,
  CheckOutcome, correct, incorrect, error,
}
use alive_next.Store
use alive_next.Store.{Disk, Tools}
use alive_next.Splits.{concat}

pub record Pair : Type 0 where
  pub before : String
  pub after : String

-- Which program plays src in the call that certifies a step, `before` being the src of the call.
unfoldable pub orient : Side → String → String → Pair
orient src old new = record { before = old; after = new }
orient tgt old new = record { before = new; after = old }

pub record Timeouts : Type 0 where
  pub check_default_ms : ℕ
  pub check_cap_ms : ℕ
  pub eager_check_ms : ℕ
  pub llrwt_ms : ℕ

unfoldable pub default_timeouts : Timeouts
default_timeouts = record {
  check_default_ms = 30000;
  check_cap_ms = 60000;
  eager_check_ms = 3000;
  llrwt_ms = 30000;
}

-- What a configuration says of the timeouts.
pub record PartialTimeouts : Type 0 where
  pub check_default_ms : Option ℕ
  pub check_cap_ms : Option ℕ
  pub eager_check_ms : Option ℕ
  pub llrwt_ms : Option ℕ

abbrev pub or_else : Option ℕ → ℕ → ℕ
or_else none n = n
or_else (some m) n = m

unfoldable pub timeouts_from : PartialTimeouts → Timeouts
unfolding default_timeouts
timeouts_from config = record {
  check_default_ms = or_else config.check_default_ms default_timeouts.check_default_ms;
  check_cap_ms = or_else config.check_cap_ms default_timeouts.check_cap_ms;
  eager_check_ms = or_else config.eager_check_ms default_timeouts.eager_check_ms;
  llrwt_ms = or_else config.llrwt_ms default_timeouts.llrwt_ms;
}

-- What the steps call.
pub record Kit : Type 0 where
  pub tools : Tools
  pub timeouts : Timeouts
  pub check : ℕ → String → String → ℕ → List String → Attempt CheckResult
  pub validate : String → LlopsResult ValidateResult
  pub reshaped : String → String → LlopsResult ReshapedResult
  pub respected : String → String → LlopsResult RespectedResult
  pub unfold_loop : String → String → Option String → LlopsResult ModuleResult
  pub number : String → LlopsResult NumberResult
  pub assume : String → AssumeAnchor → List Assertion → LlopsResult ModuleResult
  pub inline_in : String → String → String → LlopsResult ModuleResult
  pub attrs : String → String → Attrs → ℕ → LlopsResult ModuleResult
  pub rewrite : String → List String → ℕ → LlopsResult ApplyResult

-- What the class keeps: alive2's last answers by question and what loops, over the store's disk.
pub record World : Type 0 where
  pub disk : Disk
  pub history : Dict CheckResult
  pub looping : Dict Bool
  pub asked : ℕ

-- An asynchronous method: what it leaves of the world, also where it throws.
abbrev pub Run : Type 0 → Type 0
Run A = World → World × Attempt A

unfoldable pub give : {A : Type 0} → A → Run A
give a w = (w, done a)

unfoldable pub raise : {A : Type 0} → Attempt A → Run A
raise a w = (w, a)

abbrev pub then_run : {A B : Type 0} → World × Attempt A → (A → Run B) → World × Attempt B
then_run (w, thrown f) next = (w, thrown f)
then_run (w, done a) next = next a w

infixl 5 ◌>>=◌
unfoldable pub ◌>>=◌ : {A B : Type 0} → Run A → (A → Run B) → Run B
◌>>=◌ m next w = then_run (m w) next

-- What a run that answers went through.
pub >>=-eq_done :
    {A B : Type 0} (m : Run A) (next : A → Run B) (w : World) {w' : World} {b : B}
    → (m >>= next) w ≡ (w', done b)
    → (v : World) × (a : A) × (m w ≡ (v, done a)) × (next a v ≡ (w', done b))
unfolding ◌>>=◌
>>=-eq_done {A = A} {B = B} m next w e = split_end (m w) e refl
  where
    split_end :
        (r : World × Attempt A) {w' : World} {b : B}
        → then_run r next ≡ (w', done b)
        → m w ≡ r
        → (v : World) × (a : A) × (m w ≡ (v, done a)) × (next a v ≡ (w', done b))
    split_end (v, thrown f) e same = cc (ap (λ p. p.1) e)
    split_end (v, done a) e same = (v, a, same, e)

unfoldable pub fetch : Kit → Hash → Run String
unfolding Store.get
fetch kit hash w = (w, Store.get kit.tools w.disk hash)

abbrev pub kept : World → Attempt (Disk × Hash) → World × Attempt Hash
kept w (thrown f) = (w, thrown f)
kept w (done (d, h)) = (record w { disk = d }, done h)

unfoldable pub keep : Kit → String → Run Hash
unfolding Store.put
keep kit text w = kept w (Store.put kit.tools w.disk text)

pub data GoalOutcome : Type 0 where
  proved refuted unknown : GoalOutcome

-- What a check's answer says about the goal it was asked about.
unfoldable pub goal_outcome : CheckOutcome → Bool → GoalOutcome
goal_outcome correct loops = if loops then unknown else proved
goal_outcome incorrect loops = refuted
goal_outcome _ loops = unknown

abbrev pub same_first : Result Hash → Option Hash → Result Bool
same_first (err e) first = err e
same_first (ok now) none = ok false
same_first (ok now) (some first) = ok (now == first)

-- Whether a side's head is the program that it started with.
unfoldable pub unmoved : Goal → Side → Result Bool
unfolding head
unmoved goal side = same_first (head goal side) (head? (on goal side).history)

abbrev pub and_then : Result Bool → Result Bool → Result Bool
and_then (err e) next = err e
and_then (ok false) next = ok false
and_then (ok true) next = next

-- Whether the checked pair is the root's original pair.
unfoldable pub root_pair : Tree → GoalId → Goal → Result Bool
unfolding unmoved
root_pair tree gid goal =
    and_then (ok (gid == tree.root)) (and_then (unmoved goal src) (unmoved goal tgt))

abbrev pub loops_detail : String
loops_detail =
    "alive2 checks a program that loops only through a window, or for the iterations it unrolls"

-- A loop's unasked check, saying why llops did not prove it either.
unfoldable pub unsolved : CheckResult → String → CheckResult
unfolding concat
unsolved check why =
    if check.detail == loops_detail
    then record check { detail = concat loops_detail (concat ", and " why) }
    else check

-- An answer that cost no solver time.
unfoldable pub unasked : String → CheckOutcome → CheckResult
unasked detail outcome = record {
  outcome = outcome;
  detail = detail;
  invocation = record { binary = ""; flags = []; timeout_ms = 0 };
  summary = none;
  stdout = "";
  ms = 0;
}

-- The flags every query is asked with: the no-`undef` model and any unroll factor.
unfoldable pub flags_for : Option ℕ → List String
unfolding concat
flags_for none = "--disable-undef-input" ∷ []
flags_for (some n) =
    "--disable-undef-input"
    ∷ concat "--src-unroll=" (decimal n)
    ∷ concat "--tgt-unroll=" (decimal n)
    ∷ []

abbrev pub nul : Char
nul = "\0"

-- Array.prototype.join with the character that no part holds.
unfoldable pub join_parts : List String → String
unfolding concat
join_parts [] = ""
join_parts (x ∷ []) = x
join_parts (x ∷ y ∷ xs) = concat x (String.◌∷◌ nul (join_parts (y ∷ xs)))

-- A question to alive2 as `history` keeps it: the two programs and the flags.
unfoldable pub question : Kit → Pair → Option ℕ → String
unfolding join_parts flags_for
question kit pair unroll =
    join_parts (kit.tools.sha256 pair.before ∷ kit.tools.sha256 pair.after ∷ flags_for unroll)
