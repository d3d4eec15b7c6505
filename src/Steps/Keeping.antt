-- ===== src/Steps/Keeping.antt =====
-- engine/core/state/steps.ts: every operation keeps what is remembered of alive2's answers so.
use alive_next.Prelude.{ℕ, String, Bool, true, false, Option, none, some, List, [], ◌∷◌}
use alive_next.Trajectory.{Hash, Side, src, tgt, Effect}
use alive_next.Goals.Types.{GoalId, Goal, Tree, Role, outer, callee, lhs, rhs, holds, fails}
use alive_next.Failure.{Attempt, thrown, done}
use alive_next.Drivers.{LlopsResult, answer, refusal, ModuleResult, ApplyResult, CheckOutcome}
use alive_next.Steps.{Kit, World, Pair, fetch, keep, kept, GoalOutcome}
use alive_next.Steps.GoalOutcome.{proved, refuted, unknown}
use alive_next.Store
use alive_next.Store.{Disk}
use alive_next.Steps.Ask.{Free, by, why}
use alive_next.Steps.Discharge.{
  history_of, check_pair, check_apart, check_goal, original_if_asked, landed_head, eager_apart,
  eager_same, eager_check,
}
use alive_next.Steps.Land.{
  hash_in, previewed, RewritePreview, preview, rewrite_preview, land_rewrite, rewrite_side,
  land_unfolded, loop_of, unfold_half, unfold_side,
}
use alive_next.Steps.Stable.{
  IsStable, Keeps, Keeps-bind, Keeps-give, Keeps-raise, Keeps-if, alive2-Keeps, either_loops-Keeps,
}

pub fetch-Keeps :
    (kit : Kit) (P : World → Type 0) (st : IsStable kit P) (h : Hash) → Keeps P (fetch kit h)
unfolding fetch
fetch-Keeps kit P st h = record { run = λ w i. i }

kept-stays :
    (kit : Kit) (P : World → Type 0) (st : IsStable kit P) (w : World) (r : Attempt (Disk × Hash))
    → P w
    → P (kept w r).0
kept-stays kit P st w (thrown f) i = i
kept-stays kit P st w (done (d, h)) i = st.stored w d i

pub keep-Keeps :
    (kit : Kit) (P : World → Type 0) (st : IsStable kit P) (text : String) → Keeps P (keep kit text)
unfolding keep
keep-Keeps kit P st text = record {
  run = λ w i. kept-stays kit P st w (Store.put kit.tools w.disk text) i;
}

pub original-Keeps :
    (kit : Kit) (P : World → Type 0) (st : IsStable kit P) (o : GoalOutcome) (c : CheckOutcome)
    (t : Tree) (k : GoalId) (g : Goal)
    → Keeps P (original_if_asked o c t k g)
unfolding original_if_asked
original-Keeps kit P st proved c t k g = Keeps-give P false
original-Keeps kit P st refuted c t k g = Keeps-if P _ _ _ (Keeps-raise P _) (Keeps-give P _)
original-Keeps kit P st unknown c t k g = Keeps-if P _ _ _ (Keeps-raise P _) (Keeps-give P _)

pub history-Keeps :
    (kit : Kit) (P : World → Type 0) (st : IsStable kit P) (pair : Pair) (u : Option ℕ)
    → Keeps P (history_of kit pair u)
history-Keeps kit P st pair u = record { run = λ w i. i }

-- How a run is put together of runs that keep what is remembered.
pub ruleset keeping = (
  Keeps-bind, Keeps-give, Keeps-raise, Keeps-if, alive2-Keeps, either_loops-Keeps, fetch-Keeps,
  keep-Keeps, original-Keeps, history-Keeps,
)

check_pair-Keeps :
    (kit : Kit) (P : World → Type 0) (st : IsStable kit P) (t : Tree) (k : GoalId) (g : Goal)
    (pair : Pair) (b : Bool) (ms u : Option ℕ)
    → Keeps P (check_pair kit t k g pair b ms u)
unfolding check_pair
check_pair-Keeps kit P st t k g pair b ms u = search keeping

check_apart-Keeps :
    (kit : Kit) (P : World → Type 0) (st : IsStable kit P) (t : Tree) (k : GoalId) (g : Goal)
    (pair : Pair) (ms u : Option ℕ) (f : Free)
    → Keeps P (check_apart kit t k g pair ms u f)
unfolding check_apart
check_apart-Keeps kit P st t k g pair ms u (by c) = Keeps-give P _
check_apart-Keeps kit P st t k g pair ms u (why r) = search (keeping, check_pair-Keeps)

-- Asking whether a goal holds keeps what is remembered so.
pub check_goal-Keeps :
    (kit : Kit) (P : World → Type 0) (st : IsStable kit P) (t : Tree) (k : GoalId) (ms u : Option ℕ)
    → Keeps P (check_goal kit t k ms u)
unfolding check_goal
check_goal-Keeps kit P st t k ms u = search (keeping, check_pair-Keeps, check_apart-Keeps) depth 8

landed_head-Keeps :
    (kit : Kit) (P : World → Type 0) (st : IsStable kit P) (g : Goal) (s : Side) (h : Hash)
    (r : Side)
    → Keeps P (landed_head g s h r)
unfolding landed_head
landed_head-Keeps kit P st g src h src = Keeps-give P _
landed_head-Keeps kit P st g src h tgt = Keeps-raise P _
landed_head-Keeps kit P st g tgt h src = Keeps-raise P _
landed_head-Keeps kit P st g tgt h tgt = Keeps-give P _

eager_same-Keeps :
    (kit : Kit) (P : World → Type 0) (st : IsStable kit P) (k : GoalId) (es : List Effect)
    (pair : Pair)
    → Keeps P (eager_same kit k es pair)
unfolding eager_same
eager_same-Keeps kit P st k es pair = search keeping

eager_apart-Keeps :
    (kit : Kit) (P : World → Type 0) (st : IsStable kit P) (k : GoalId) (es : List Effect)
    (pair : Pair) (f : Free)
    → Keeps P (eager_apart kit k es pair f)
unfolding eager_apart
eager_apart-Keeps kit P st k es pair (by c) = Keeps-give P _
eager_apart-Keeps kit P st k es pair (why r) = search keeping

pub eager_check-Keeps :
    (kit : Kit) (P : World → Type 0) (st : IsStable kit P) (g : Goal) (k : GoalId) (s : Side)
    (h : Hash) (es : List Effect)
    → Keeps P (eager_check kit g k s h es)
unfolding eager_check
eager_check-Keeps kit P st g k s h es =
    search (keeping, landed_head-Keeps, eager_same-Keeps, eager_apart-Keeps) depth 8

previewed-Keeps :
    (kit : Kit) (P : World → Type 0) (st : IsStable kit P) (h : Hash) (r : LlopsResult ApplyResult)
    → Keeps P (previewed kit h r)
unfolding previewed hash_in
previewed-Keeps kit P st h (refusal code message) = Keeps-give P _
previewed-Keeps kit P st h (answer r) =
    Keeps-bind P _ _ (λ x. Keeps-give P _) (record { run = λ w i. i })

rewrite_preview-Keeps :
    (kit : Kit) (P : World → Type 0) (st : IsStable kit P) (t : Tree) (k : GoalId) (s : Side)
    (rules : List String)
    → Keeps P (rewrite_preview kit t k s rules)
unfolding rewrite_preview
rewrite_preview-Keeps kit P st t k s [] = Keeps-give P _
rewrite_preview-Keeps kit P st t k s (r ∷ rs) = search (keeping, previewed-Keeps)

land_rewrite-Keeps :
    (kit : Kit) (P : World → Type 0) (st : IsStable kit P) (t : Tree) (k : GoalId) (s : Side)
    (rules : List String) (b : Bool) (p : RewritePreview)
    → Keeps P (land_rewrite kit t k s rules b p)
unfolding land_rewrite
land_rewrite-Keeps kit P st t k s rules b (RewritePreview.refused code message) = Keeps-give P _
land_rewrite-Keeps kit P st t k s rules b (preview p false i) = search keeping
land_rewrite-Keeps kit P st t k s rules b (preview p true i) = search (keeping, eager_check-Keeps)

-- A rewrite keeps what is remembered so.
pub rewrite_side-Keeps :
    (kit : Kit) (P : World → Type 0) (st : IsStable kit P) (t : Tree) (k : GoalId) (s : Side)
    (rules : List String) (b : Bool)
    → Keeps P (rewrite_side kit t k s rules b)
unfolding rewrite_side
rewrite_side-Keeps kit P st t k tgt rules b = Keeps-give P _
rewrite_side-Keeps kit P st t k src rules b =
    search (keeping, rewrite_preview-Keeps, land_rewrite-Keeps)

land_unfolded-Keeps :
    (kit : Kit) (P : World → Type 0) (st : IsStable kit P) (g : Goal) (k : GoalId) (s : Side)
    (r : LlopsResult ModuleResult)
    → Keeps P (land_unfolded kit g k s r)
unfolding land_unfolded
land_unfolded-Keeps kit P st g k s (refusal code message) = Keeps-give P _
land_unfolded-Keeps kit P st g k s (answer r) = search (keeping, eager_check-Keeps)

loop_of-Keeps :
    (kit : Kit) (P : World → Type 0) (st : IsStable kit P) (t : Tree) (g p : Goal) (s : Side)
    (r : Option Role)
    → Keeps P (loop_of kit t g p s r)
unfolding loop_of
loop_of-Keeps kit P st t g p s none = Keeps-give P _
loop_of-Keeps kit P st t g p s (some outer) = search keeping
loop_of-Keeps kit P st t g p s (some callee) = Keeps-give P _
loop_of-Keeps kit P st t g p s (some lhs) = Keeps-give P _
loop_of-Keeps kit P st t g p s (some rhs) = Keeps-give P _
loop_of-Keeps kit P st t g p s (some holds) = Keeps-give P _
loop_of-Keeps kit P st t g p s (some fails) = Keeps-give P _

unfold_half-Keeps :
    (kit : Kit) (P : World → Type 0) (st : IsStable kit P) (t : Tree) (g : Goal) (k : GoalId)
    (s : Side) (h : Option String) (p : Option Goal)
    → Keeps P (unfold_half kit t g k s h p)
unfolding unfold_half
unfold_half-Keeps kit P st t g k s none none = Keeps-give P _
unfold_half-Keeps kit P st t g k s none (some p) = Keeps-give P _
unfold_half-Keeps kit P st t g k s (some h) none = Keeps-give P _
unfold_half-Keeps kit P st t g k s (some h) (some p) =
    search (keeping, loop_of-Keeps, land_unfolded-Keeps)

-- Unfolding a loop keeps what is remembered so.
pub unfold_side-Keeps :
    (kit : Kit) (P : World → Type 0) (st : IsStable kit P) (t : Tree) (k : GoalId) (s : Side)
    → Keeps P (unfold_side kit t k s)
unfolding unfold_side
unfold_side-Keeps kit P st t k s = search (keeping, unfold_half-Keeps)
