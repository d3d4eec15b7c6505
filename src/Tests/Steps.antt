-- ===== src/Tests/Steps.antt =====
-- engine/core/state/steps.ts with tools of a few answers: a goal checked, a step checked.
use Prim.Native.Char.{Char, code}
use text.Mathlib.TextEquality.{Char-path}
use alive_next.Prelude.{
  ℕ, String, Bool, true, false, none, some, [], ◌∷◌, ◌≡◌, ◌≢◌, refl, sym, ap, nat_eq, if◌then◌else◌,
  ◌==◌, ◌&&◌, not, arith,
}
use alive_next.Prelude.Dict
use alive_next.Prelude.Dict.{Dict}
use alive_next.Trajectory.{Hash, tgt, By, Effect}
use alive_next.Goals.Types.{Goal, Tree, ok}
use alive_next.Goals.Queries
use alive_next.Goals.Replay.{root_goal}
use alive_next.Failure.{Attempt, thrown, done}
use alive_next.Drivers.{LlopsResult, answer, refusal, CheckResult, CheckOutcome, correct, incorrect}
use alive_next.Store
use alive_next.Store.{Disk, Tools}
use alive_next.Steps
use alive_next.Steps.{Kit, World, Pair}
use alive_next.Steps.Questions.{IsHash, Clean}
use alive_next.Steps.Calls.{
  fresh_world, fresh-IsRemembered, calls-IsRemembered, run_calls, checks_goal,
}
use alive_next.Steps.Answers.{IsRemembered}
use alive_next.Steps.Ask.{alive2, is_decided}
use alive_next.Steps.Again.{alive2-again}
use alive_next.Steps.Discharge
use alive_next.Steps.Discharge.{CheckGoalResult, check_goal}
use alive_next.Steps.Discharging.{IsPairOf, IsBacked, check_goal-IsBacked}
use alive_next.Steps.Certify.{
  CheckStepOptions, CheckStepResult, certified, Certified, On, check_step,
}
use alive_next.Steps.Sound.{IsStepBacked, check_step-IsStepBacked}

-- A hash that holds no NUL: a mark before each character, or for it.
abbrev pub marked : Bool → Char → String → String
marked true c rest = String.◌∷◌ "0" rest
marked false c rest = String.◌∷◌ "1" (String.◌∷◌ c rest)

unfoldable pub escaped : String → String
escaped String.[] = String.[]
escaped (String.◌∷◌ c s) = marked (nat_eq (code c) 0) c (escaped s)

marked-Clean :
    (b : Bool) (c : Char) (s : String) → nat_eq (code c) 0 ≡ b → Clean s → Clean (marked b c s)
marked-Clean true c s e clean = (refl, clean)
marked-Clean false c s e clean = (refl, (e, clean))

escaped-Clean : (s : String) → Clean (escaped s)
unfolding escaped
escaped-Clean String.[] = tt
escaped-Clean (String.◌∷◌ c s) = marked-Clean _ c (escaped s) refl (escaped-Clean s)

starts_as : String → ℕ
starts_as String.[] = 0
starts_as (String.◌∷◌ c s) = code c

is_zero : String → Bool
is_zero String.[] = false
is_zero (String.◌∷◌ c s) = nat_eq (code c) 48

tail : String → String
tail String.[] = String.[]
tail (String.◌∷◌ c s) = s

marked-ne : (b : Bool) (c : Char) (s : String) → marked b c s ≢ String.[]
marked-ne true c s e = cc (e)
marked-ne false c s e = cc (e)

zero-eq : (c d : Char) → nat_eq (code c) 0 ≡ true → nat_eq (code d) 0 ≡ true → c ≡ d
zero-eq c d e f = Char-path c d (ground arith)

marked-apart :
    (b b' : Bool) (c d : Char) (s t : String)
    → nat_eq (code c) 0 ≡ b
    → nat_eq (code d) 0 ≡ b'
    → marked b c s ≡ marked b' d t
    → (c ≡ d) × (s ≡ t)
unfolding starts_as is_zero tail
marked-apart true true c d s t y z e = (zero-eq c d y z, ap tail e)
marked-apart true false c d s t y z e = cc (ap is_zero e)
marked-apart false true c d s t y z e = cc (ap is_zero e)
marked-apart false false c d s t y z e =
    (Char-path c d (ap starts_as (ap tail e)), ap tail (ap tail e))

escaped-apart : (s t : String) → escaped s ≡ escaped t → s ≡ t
unfolding escaped
escaped-apart String.[] String.[] e = refl
escaped-apart String.[] (String.◌∷◌ d t) e = absurd (marked-ne _ d (escaped t) (sym e))
escaped-apart (String.◌∷◌ c s) String.[] e = absurd (marked-ne _ c (escaped s) e)
escaped-apart (String.◌∷◌ c s) (String.◌∷◌ d t) e =
    let (same, rest) = marked-apart _ _ c d (escaped s) (escaped t) refl refl e in
    cc (same, escaped-apart s t rest)

pub escaped-IsHash : IsHash escaped
escaped-IsHash = record { clean = escaped-Clean; apart = escaped-apart }

-- alive-tv finds each pair correct, but that of another program and one called "w".
unfoldable pub said : CheckOutcome → Attempt CheckResult
said o = done (record {
  outcome = o;
  detail = "";
  invocation = record { binary = "alive-tv"; flags = []; timeout_ms = 3000 };
  summary = none;
  stdout = "";
  ms = 1;
})

unfoldable pub unavailable : {A : Type 0} → LlopsResult A
unavailable = refusal "none" "no such tool"

abbrev pub kit : Kit
kit = record {
  tools = record { sha256 = escaped; canon = λ text. answer (record { module_text = text }) };
  timeouts = Steps.default_timeouts;
  check = λ n before after ms flags.
      said (if after == "w" && not (before == "w") then incorrect else correct);
  validate =
      λ text. answer (record { conforms = true; cyclic = false; diagnostics = []; functions = [] });
  reshaped = λ before after. unavailable;
  respected = λ before after. unavailable;
  unfold_loop = λ m hypothesis callee. unavailable;
  number = λ text. unavailable;
  assume = λ m anchor assertions. unavailable;
  inline_in = λ outer callee name. unavailable;
  attrs = λ m fn attrs param. unavailable;
  rewrite = λ text rules ms. unavailable;
}

abbrev pub disk : Disk
disk = record {
  programs = record { entries = ("1s", "s") ∷ ("1t", "t") ∷ [] };
  partials = Dict.empty;
}

abbrev pub tree : Tree
tree = record {
  root = "g1";
  goals = record { entries = ("g1", root_goal "1s" "1t") ∷ [] };
  programs = Dict.empty;
  next_goal = 2;
}

abbrev pub result_of : {A : Type 0} → A → Attempt A → A
result_of else_it (thrown f) = else_it
result_of else_it (done a) = a

-- The goal is checked on the budget of the configuration, and found proved by alive2.
pub checked : World × Attempt CheckGoalResult
checked = check_goal kit tree "g1" none none (fresh_world disk)

no_result : CheckGoalResult
no_result = Discharge.not_searched ""

pub answered : CheckGoalResult
answered = result_of no_result checked.1

pub checked-answered :
    check_goal kit tree "g1" none none (fresh_world disk) ≡ (checked.0, done answered)
unfolding checked answered check_goal Steps.◌>>=◌ Steps.raise Steps.give Queries.workable
    Queries.find Queries.head Steps.fetch Store.get Dict.get Discharge.check_apart
    Discharge.check_pair escaped unavailable Dict.set said fresh_world Dict.empty
checked-answered = refl

pub answered-proved : answered.effects ≡ Effect.proved "g1" (some By.alive2) ∷ []
unfolding checked answered check_goal Steps.◌>>=◌ Steps.raise Steps.give Queries.workable
    Queries.find Queries.head Steps.fetch Store.get Dict.get Discharge.check_apart
    Discharge.check_pair escaped unavailable Dict.set said fresh_world Dict.empty
answered-proved = refl

check_goal-IsBacked_example :
    (g : Goal) × (pair : Pair) × IsPairOf kit (fresh_world disk) tree "g1" g pair
    × IsBacked kit tree "g1" g pair answered.effects
check_goal-IsBacked_example =
    check_goal-IsBacked kit tree "g1" none none (fresh_world disk) checked.0 answered escaped-IsHash
      (fresh-IsRemembered kit disk) checked-answered

-- A step on the tgt to a program that alive2 finds the old one to refine.
abbrev pub options : CheckStepOptions
options = record {
  narrowed = none;
  preconditions = none;
  predicates = none;
  whole = true;
  eager = true;
}

pub stepped : World × Attempt CheckStepResult
stepped = check_step kit tree "g1" tgt "u" options (fresh_world disk)

nothing : Certified
nothing = record {
  hash = "";
  effects = [];
  by = By.alive2;
  on = On.whole;
  check = none;
  fallback = none;
  eager = none;
}

certified_or : CheckStepResult → Certified
certified_or (certified c) = c
certified_or _ = nothing

pub landed_step : Certified
landed_step = elim stepped.1 [ thrown f ↦ nothing | done r ↦ certified_or r ]

pub stepped-landed :
    check_step kit tree "g1" tgt "u" options (fresh_world disk)
    ≡ (stepped.0, done (certified landed_step))
unfolding stepped landed_step certified_or check_step Steps.◌>>=◌ Steps.raise Steps.give
    Queries.workable Queries.find Queries.head Steps.fetch Store.get Dict.get Dict.set escaped
    unavailable said fresh_world Dict.empty
stepped-landed = refl

check_step-IsStepBacked_example :
    (g : Goal) × (here after : Hash) × (programs : Pair) × (Queries.workable tree "g1" ≡ ok g)
    × (Queries.head g tgt ≡ ok here)
    × (Store.get (kit.tools) (fresh_world disk).disk here ≡ done programs.before)
    × ((v : World) × (Steps.keep kit "u" (fresh_world disk) ≡ (v, done after))
        × (Store.get (kit.tools) v.disk after ≡ done programs.after))
    × (programs.after ≢ programs.before)
    × IsStepBacked kit "g1" g tgt programs options after landed_step
check_step-IsStepBacked_example =
    check_step-IsStepBacked kit tree "g1" tgt "u" options (fresh_world disk) stepped.0 landed_step
      escaped-IsHash (fresh-IsRemembered kit disk) stepped-landed

-- Two calls of a session, the second of which asks nothing.
calls-IsRemembered_example : IsRemembered kit (
    run_calls kit
      (checks_goal tree "g1" none none ∷ checks_goal tree "g1" none none ∷ [])
      (fresh_world disk))
calls-IsRemembered_example =
    calls-IsRemembered kit disk
      (checks_goal tree "g1" none none ∷ checks_goal tree "g1" none none ∷ [])

-- A pair that alive2 finds correct, and is asked of again on less time.
again : Pair
again = record { before = "s"; after = "u" }

first_time : World × Attempt CheckResult
first_time = alive2 kit again 3000 none (fresh_world disk)

no_check : CheckResult
no_check = Steps.unasked "" incorrect

found : CheckResult
found = result_of no_check first_time.1

first_time-found : alive2 kit again 3000 none (fresh_world disk) ≡ (first_time.0, done found)
unfolding first_time found again alive2 Steps.◌>>=◌ Steps.give said fresh_world Dict.get Dict.set
    Dict.empty escaped
first_time-found = refl

found-decided : is_decided found.outcome ≡ true
unfolding first_time found again alive2 Steps.◌>>=◌ Steps.give said fresh_world Dict.get Dict.set
    Dict.empty escaped
found-decided = refl

alive2-again_example : alive2 kit again 10 none first_time.0 ≡ (first_time.0, done found)
alive2-again_example =
    alive2-again kit again 3000 10 none (fresh_world disk) first_time.0 found first_time-found
      found-decided
