-- ===== src/Steps/Certifying.antt =====
-- engine/core/state/steps.ts: a checked step keeps what is remembered of alive2's answers so.
use alive_next.Prelude.{ℕ, String, Bool, Option, none, some, List}
use alive_next.Trajectory.{Hash, Side, Attrs, Predicate}
use alive_next.Goals.Types.{GoalId, Goal, Tree}
use alive_next.Drivers.{LlopsResult, answer, refusal, ModuleResult}
use alive_next.Steps.{Kit, World, Pair}
use alive_next.Steps.Ask.{Free, by, why}
use alive_next.Steps.Conditioned.{
  Narrowed, Conditioned, Halves, halves, cannot, check_halves, check_inlined, check_assumed,
  check_mapped, try_conditioned_window,
}
use alive_next.Steps.Certify.{
  CheckStepOptions, Certified, Local, Fallback, landed, condition, ask_window, on_window, on_whole,
  by_answer, certify, check_step,
}
use alive_next.Steps.Stable.{IsStable, Keeps, Keeps-give}
use alive_next.Steps.Keeping.{keeping, eager_check-Keeps}

check_halves-Keeps :
    (kit : Kit) (P : World → Type 0) (st : IsStable kit P) (s : Side) (facts : List (ℕ × Attrs))
    (ps : List Predicate) (h : Halves)
    → Keeps P (check_halves kit s facts ps h)
unfolding check_halves
check_halves-Keeps kit P st s facts ps (cannot reason) = Keeps-give P _
check_halves-Keeps kit P st s facts ps (halves from to) = search keeping

module _ (kit : Kit) (P : World → Type 0) (st : IsStable kit P) (s : Side) (whole : String)
    (n : Narrowed) (facts : List (ℕ × Attrs)) where
  check_inlined-Keeps :
      (ps : List Predicate) (r : LlopsResult ModuleResult)
      → Keeps P (check_inlined kit s whole n facts ps r)
  unfolding check_inlined
  check_inlined-Keeps ps (refusal code message) = Keeps-give P _
  check_inlined-Keeps ps (answer r) = search (keeping, check_halves-Keeps)

  check_assumed-Keeps :
      (ps : List Predicate) (r : LlopsResult ModuleResult)
      → Keeps P (check_assumed kit s whole n facts ps r)
  unfolding check_assumed
  check_assumed-Keeps ps (refusal code message) = Keeps-give P _
  check_assumed-Keeps ps (answer r) = search (keeping, check_inlined-Keeps)

  check_mapped-Keeps :
      (asked : ℕ) (ps : Option (List Predicate))
      → Keeps P (check_mapped kit s whole n asked facts ps)
  unfolding check_mapped
  check_mapped-Keeps asked none = Keeps-give P _
  check_mapped-Keeps asked (some ps) = search (keeping, check_assumed-Keeps)

pub condition-Keeps :
    (kit : Kit) (P : World → Type 0) (st : IsStable kit P) (before after : String)
    (o : CheckStepOptions) (s : Side) (n : Option Narrowed)
    → Keeps P (condition kit before after o s n)
unfolding condition try_conditioned_window
condition-Keeps kit P st before after o s none = Keeps-give P _
condition-Keeps kit P st before after o s (some n) = search (keeping, check_mapped-Keeps)

pub ask_window-Keeps :
    (kit : Kit) (P : World → Type 0) (st : IsStable kit P) (s : Side) (n : Option Narrowed)
    (l : Option Local)
    → Keeps P (ask_window kit s n l)
unfolding ask_window
ask_window-Keeps kit P st s n (some l) = Keeps-give P _
ask_window-Keeps kit P st s none none = Keeps-give P _
ask_window-Keeps kit P st s (some n) none = search keeping

module _ (kit : Kit) (P : World → Type 0) (st : IsStable kit P) (g : Goal) where
  landed-Keeps : (s : Side) (c : Certified) (b : Bool) → Keeps P (landed kit g s c b)
  unfolding landed
  landed-Keeps s c b = search (keeping, eager_check-Keeps)

  module _ (k : GoalId) (s : Side) where
    on_window-Keeps :
        (h : Hash) (n : Option Narrowed) (l : Local) (f : Option Fallback) (b : Bool)
        → Keeps P (on_window kit g k s h n l f b)
    unfolding on_window
    on_window-Keeps h none l f b = search (keeping, landed-Keeps)
    on_window-Keeps h (some n) l f b = search (keeping, landed-Keeps)

    on_whole-Keeps :
        (p : Pair) (h : Hash) (r : String) (o : CheckStepOptions) (l : Option Local) (f : Fallback)
        → Keeps P (on_whole kit g k s p h r o l f)
    unfolding on_whole
    on_whole-Keeps p h r o l f = search (keeping, landed-Keeps)

    by_answer-Keeps :
        (p : Pair) (h : Hash) (r : String) (o : CheckStepOptions) (t : Option Conditioned)
        (l found : Option Local)
        → Keeps P (by_answer kit g k s p h r o t l found)
    unfolding by_answer
    by_answer-Keeps p h r o t l (some x) = search (keeping, on_window-Keeps)
    by_answer-Keeps p h r o t l none = search (keeping, on_whole-Keeps)

    certify-Keeps :
        (before text : String) (h : Hash) (o : CheckStepOptions) (f : Free)
        → Keeps P (certify kit g k s before text h o f)
    unfolding certify
    certify-Keeps before text h o (by c) = search (keeping, landed-Keeps)
    certify-Keeps before text h o (why r) =
        search (keeping, condition-Keeps, ask_window-Keeps, by_answer-Keeps)

-- A checked step keeps what is remembered so.
pub check_step-Keeps :
    (kit : Kit) (P : World → Type 0) (st : IsStable kit P) (t : Tree) (k : GoalId) (s : Side)
    (text : String) (o : CheckStepOptions)
    → Keeps P (check_step kit t k s text o)
unfolding check_step
check_step-Keeps kit P st t k s text o = search (keeping, certify-Keeps) depth 8
