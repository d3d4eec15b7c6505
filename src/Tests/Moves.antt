-- ===== src/Tests/Moves.antt =====
-- An interpose and a report of engine/core/state with tools that answer by a fixed rule, and the theorems
-- about them at those.
use alive_next.Prelude.{String, true, false, none, some, [], ◌∷◌, ◌≡◌, ◌⊎◌, refl}
use alive_next.Prelude.Dict
use alive_next.Prelude.Decimal.{decimal}
use alive_next.Trajectory.{Hash, Side, Effect}
use alive_next.Goals.Types.{Goal, Tree, Status, ok}
use alive_next.Goals.Queries.{workable, head, find, next_goal_ids}
use alive_next.Goals.Moves.{name}
use alive_next.Goals.Derive.{start_tree, apply}
use alive_next.Goals.Wf.{IsWf}
use alive_next.Goals.Replay.{start_tree-IsWf}
use alive_next.Failure.{done}
use alive_next.Drivers.{LlopsResult, answer, refusal, ValidateResult, CheckResult, incorrect, ub}
use alive_next.Store
use alive_next.Store.{Disk, Tools, canonicalize, write_partial, rename, has, get}
use alive_next.Counterexamples.{
  Checkers, refuted_by_alive2, refused, already_proved, origin, refuted, report, instantiated,
  decided,
}
use alive_next.Counterexamples.Reports.{IsBacked, report-IsBacked}
use alive_next.Splits.{
  Llops, defined_in, find_defined, join_types, concat, same_function, interpose_at, interpose,
}
use alive_next.Goals.Ids.{TakesNext}
use alive_next.Splits.Ids.{interposes, make_split, IsSplitBy, splits-IsWf}

abbrev tools : Tools
tools = record { sha256 = λ text. text; canon = λ text. answer (record { module_text = text }) }

abbrev disk : Disk
disk = record {
  programs = record { entries = ("hs", "hs") ∷ ("ht", "ht") ∷ [] };
  partials = Dict.empty;
}

abbrev tree : Tree
tree = start_tree "hs" "ht"

abbrev one_function : LlopsResult ValidateResult
one_function = answer (record {
  conforms = true;
  cyclic = false;
  diagnostics = [];
  functions = ("f", record { defined = true; return_type = "i32"; params = [] }) ∷ [];
})

abbrev llops : Llops
llops = record {
  validate = λ text. one_function;
  noundef = λ text fn k. refusal "no" "no";
  poison = λ text k. refusal "no" "no";
  assume = λ text fn c. refusal "no" "no";
}

between : Disk
unfolding rename write_partial Dict.get Dict.set Dict.delete Dict.empty
between = rename (write_partial disk "hm" "hm") "hm"

abbrev through_hm : Effect
through_hm =
    Effect.interpose "g1" (record { gid = "g2"; src = "hs"; tgt = "hm" })
      (record { gid = "g3"; src = "hm"; tgt = "ht" })

splits-IsWf_example :
    (("g2", "g3") ≡ next_goal_ids tree)
    × ((e : Effect) × (through_hm ∷ [] ≡ e ∷ [])
        × IsSplitBy tools llops disk tree "g1" (interposes "hm") "g2" "g3" e
        × TakesNext tree e
        × ((tree' : Tree) → apply tree e ≡ ok tree' → IsWf tree'))
unfolding make_split interpose interpose_at same_function defined_in find_defined join_types concat
    workable head find get start_tree name next_goal_ids decimal between Store.put canonicalize has
    Dict.get Dict.set Dict.empty Dict.size
splits-IsWf_example =
    splits-IsWf tools llops disk tree "g1" (interposes "hm") between "g2" "g3" (through_hm ∷ [])
      (start_tree-IsWf "hs" "ht") refl

abbrev wrong : CheckResult
wrong = record {
  outcome = incorrect;
  detail = "ERROR: Value mismatch";
  invocation = record { binary = "alive-tv"; flags = []; timeout_ms = 10 };
  summary = none;
  stdout = "";
  ms = 1;
}

abbrev checkers : Checkers
checkers = record {
  instantiate = λ s t input. answer (s, t);
  refinement_check = λ s t timeout_ms unroll. done wrong;
  validate = λ text. one_function;
  harness = λ text fn input. refusal "no" "no";
  run = λ text. record { outcome = ub; observations = Dict.empty; reason = "" };
}

abbrev root : Goal
root = record {
  id = "g1";
  parent = none;
  role = none;
  made = record { callee = none; detach = none; slots = none; src_alone = false };
  src = record { history = "hs" ∷ [] };
  tgt = record { history = "ht" ∷ [] };
  status = Status.open_;
  children = [];
}

report-IsBacked_example :
    (g : Goal) × (Dict.get tree.goals tree.root ≡ some g)
    × (((g.status ≡ Status.proved)
          × (refuted_by_alive2 (refuted root) wrong ≡ refused (already_proved g.id) none none))
        ⊎ ((a b : Hash) × (s t : String) × (origin g Side.src ≡ done a)
            × (get tools disk a ≡ done s)
            × (origin g Side.tgt ≡ done b)
            × (get tools disk b ≡ done t)
            × IsBacked checkers g s t [] none none (refuted_by_alive2 (refuted root) wrong)))
unfolding report origin instantiated decided refuted get start_tree name Dict.get Dict.set
    Dict.empty
report-IsBacked_example =
    report-IsBacked tools disk checkers tree [] none none (refuted_by_alive2 (refuted root) wrong)
      refl
