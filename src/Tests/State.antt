-- ===== src/Tests/State.antt =====
-- The store, the transactions, the counterexamples and the splits of engine/core/state with tools that
-- answer by a fixed rule, and the theorems about them at those.
use alive_next.Prelude.{String, true, false, none, some, [], ◌∷◌, ◌≡◌, ◌≢◌, ◌⊎◌, refl, ◌↔◌, not}
use alive_next.Prelude.Dict
use alive_next.Prelude.Dict.{Dict}
use alive_next.Trajectory.{Hash, Side, Effect, Half, cut, slt}
use alive_next.Goals.Types.{Goal, Tree, Status, Result, ok, err, not_cut, callee}
use alive_next.Goals.Queries.{workable, head, find, next_goal_ids, number}
use alive_next.Goals.Moves.{name, fuel}
use alive_next.Goals.Derive.{start_tree, apply, apply_cut, undo, is_cut}
use alive_next.Goals.Wf.{IsWf}
use alive_next.Goals.Ids.{apply-IsWf_next}
use alive_next.Goals.Verdict.{Below}
use alive_next.Prelude.Decimal.{decimal, read}
use alive_next.Goals.Replay.{start_tree-IsWf}
use alive_next.Failure.{Attempt, thrown, done}
use alive_next.Drivers.{answer, refusal, hoist, RunResult, returned}
use alive_next.Store
use alive_next.Store.{Disk, Tools, canonicalize, write_partial, rename, has, get}
use alive_next.Store.Kept.{IsIntact, put-keeps, put-IsIntact, get-put}
use alive_next.Transactions.{
  Transaction, Editor, Checks, CommitOptions, certified, Narrowing, narrowed, begin, edit,
  edit_with, require, climb, is_editing_below, commit, check_commit, check_found, narrow_for,
  applied, is_why, edited,
}
use alive_next.Transactions.Below.{is_editing_below-exact, undo-keeps_edited}
use alive_next.Transactions.Closing.{commit-closes, commit-certified}
use alive_next.Transactions.Scratch.{Reached-IsScratch, IsScratch, nothing, call, begins, edits}
use alive_next.Counterexamples.{divergence, judge, compare_returned, compare, includes, starts_with}
use alive_next.Splits.{inverse}
use alive_next.Splits.Inverse.{icmp, inverse-exact}
use alive_next.Counterexamples.Divergent.{Diverges, divergence-exact}

-- Programs are their own hashes, and canonical.
abbrev tools : Tools
tools = record { sha256 = λ text. text; canon = λ text. answer (record { module_text = text }) }

abbrev blank : Disk
blank = record { programs = Dict.empty; partials = Dict.empty }

abbrev disk : Disk
disk = record {
  programs = record { entries = ("hs", "hs") ∷ ("ht", "ht") ∷ [] };
  partials = Dict.empty;
}

blank-IsIntact : IsIntact tools blank
unfolding Dict.get Dict.empty
blank-IsIntact = record { named = λ h text e. cc e }

stored : Disk
unfolding rename write_partial Dict.get Dict.set Dict.delete Dict.empty
stored = rename (write_partial blank "hs" "hs") "hs"

value : Attempt (Disk × Hash) → Disk
value (done (d, h)) = d
value (thrown f) = blank

get-put_example : get tools stored "hs" ≡ done "hs"
unfolding stored Store.put canonicalize has Dict.get Dict.empty
get-put_example = get-put tools blank "hs" "hs" stored "hs" blank-IsIntact (λ a b e. e) refl refl

put-IsIntact_example : IsIntact tools stored
unfolding stored Store.put canonicalize has Dict.get Dict.empty
put-IsIntact_example = put-IsIntact tools blank "hs" stored "hs" blank-IsIntact refl

put-keeps_example :
    (Dict.get disk.programs "ht" ≡ some "ht")
    × (Dict.get (write_partial disk "hu" "h").programs "ht" ≡ some "ht")
unfolding Store.put canonicalize has Dict.get
put-keeps_example = put-keeps tools disk "hs" disk "hs" "hu" "h" refl "ht" "ht" refl

abbrev tree : Tree
tree = start_tree "hs" "ht"

abbrev opened : Transaction
opened = record { gid = "g1"; side = Side.src; from = "hs"; text = "hs"; ops = [] }

abbrev root : Goal
root = record {
  id = "g1";
  parent = none;
  role = none;
  made = record { callee = none; detach = none; slots = none; src_alone = false };
  src = record { history = "hs" ∷ [] };
  tgt = record { history = "ht" ∷ [] };
  status = Status.open_;
  children = [];
}

is_editing_below-exact_example :
    ((is_editing_below (some opened) tree "g1" ≡ ok true) × Below tree "g1" "g1")
    ⊎ ((is_editing_below (some opened) tree "g1" ≡ ok false) × (Below tree "g1" "g1" → ⊥))
unfolding start_tree name Dict.get Dict.set Dict.empty
is_editing_below-exact_example =
    is_editing_below-exact tree "g1" opened root (start_tree-IsWf "hs" "ht") refl

abbrev half : String → String → String → Half
half g s t = record { gid = g; src = s; tgt = t }

abbrev cut_in : String → String → String → Effect
cut_in k a b = cut (record {
  gid = k;
  name = "part";
  outer = half a "hs" "ht";
  callee = half b "hs" "ht";
  detach = none;
  slots = none;
  src_alone = false;
})

tree_of : Result Tree → Tree
tree_of (ok t) = t
tree_of (err e) = tree

-- g1 is cut into g2 and g3, and g2 into g4 and g5.
once : Tree
unfolding tree_of start_tree name find number decimal read Dict.get Dict.set Dict.empty Dict.size
    apply apply_cut
once = tree_of (apply tree (cut_in "g1" "g2" "g3"))

unfoldable pub twice : Tree
unfolding tree_of name find number decimal read Dict.get Dict.set Dict.empty Dict.size apply
    apply_cut once
twice = tree_of (apply once (cut_in "g2" "g4" "g5"))

unfoldable pub undone : Tree
unfolding tree_of undo is_cut find Dict.get Dict.set Dict.delete Dict.size twice
undone = tree_of (undo twice "g2" is_cut (not_cut "g2"))

once-IsWf : IsWf once
unfolding once next_goal_ids start_tree name decimal Dict.get Dict.set Dict.empty Dict.size
once-IsWf = apply-IsWf_next tree (cut_in "g1" "g2" "g3") once (start_tree-IsWf "hs" "ht") refl refl

pub twice-IsWf : IsWf twice
unfolding twice next_goal_ids decimal
twice-IsWf = apply-IsWf_next once (cut_in "g2" "g4" "g5") twice once-IsWf refl refl

abbrev pub elsewhere : Transaction
elsewhere = record { gid = "g3"; side = Side.tgt; from = "ht"; text = "ht"; ops = [] }

abbrev pub g3 : Goal
g3 = record {
  id = "g3";
  parent = some "g1";
  role = some callee;
  made = record { callee = some "part"; detach = none; slots = none; src_alone = false };
  src = record { history = "hs" ∷ [] };
  tgt = record { history = "ht" ∷ [] };
  status = Status.open_;
  children = [];
}

undo-keeps_edited_example : Dict.get undone.goals "g3" ≡ some g3
unfolding undone twice is_editing_below climb fuel Dict.get Dict.size
undo-keeps_edited_example =
    undo-keeps_edited twice "g2" is_cut (not_cut "g2") undone elsewhere g3 twice-IsWf refl refl refl

abbrev checks : Checks (Unit {0}) (Unit {0}) (Unit {0})
checks = record {
  narrow_at = λ before text w. done (narrowed tt);
  narrow = λ before text. done (narrowed tt);
  check_step = λ t gid side text found options. done (certified "proved");
}

abbrev options : CommitOptions (Unit {0}) (Unit {0})
options = record { window = none; narrow_off = false; passed_on = tt }

commit-closes_example :
    (((d : String) × ((commit tools disk checks (some opened) tree options false).1
          ≡ done (certified d))
        × ((commit tools disk checks (some opened) tree options false).0 ≡ none))
      ⊎ (((d : String)
            → (commit tools disk checks (some opened) tree options false).1 ≢ done (certified d))
          × ((commit tools disk checks (some opened) tree options false).0 ≡ some opened)))
    × ((commit tools disk checks (some opened) tree options true).0 ≡ none)
commit-closes_example = commit-closes tools disk checks opened tree options

commit-certified_example :
    (goal : Goal) × (at : String) × (before : String) × (found : Narrowing (Unit {0})) × (workable
        tree "g1"
      ≡ ok goal)
    × (head goal Side.src ≡ ok at)
    × (get tools disk at ≡ done before)
    × (narrow_for checks options before "hs" ≡ done found)
    × (checks.check_step tree "g1" Side.src "hs" found tt ≡ done (certified "proved"))
    × ((options.window ≡ none) ⊎ (is_why found ≡ false))
unfolding commit check_commit check_found narrow_for workable head find get start_tree name Dict.get
    Dict.set Dict.empty
commit-certified_example = commit-certified tools disk checks opened tree options true "proved" refl

abbrev editor : Editor
editor = record {
  edit = λ text op. answer (record { module_text = "hu" });
  opt = λ text op. refusal "no" "no";
}

abbrev after_edit : Transaction
after_edit = record opened { text = "hu"; ops = edited (hoist "%x") ∷ [] }

Reached-IsScratch_example : IsScratch tools editor after_edit
unfolding begin edit edit_with require workable head find get start_tree name Dict.get Dict.set
    Dict.empty
Reached-IsScratch_example = Reached-IsScratch tools editor after_edit (
    call (call nothing (begins {x = opened} disk none tree "g1" Side.src refl))
      (edits {x = after_edit} (some opened) (hoist "%x") (applied "hu" 1 none) refl))

abbrev run_of : String → RunResult
run_of value = record {
  outcome = returned;
  observations = record { entries = ("obs.result", value) ∷ [] };
  reason = "";
}

divergence-exact_example :
    ((divergence (run_of "i32 1") (run_of "i32 2")).confirmed ≡ true)
    ↔ Diverges (run_of "i32 1") (run_of "i32 2")
divergence-exact_example = divergence-exact (run_of "i32 1") (run_of "i32 2")

runs_differ : (divergence (run_of "i32 1") (run_of "i32 2")).confirmed ≡ true
unfolding divergence judge compare_returned compare includes starts_with Dict.get
runs_differ = refl

poison_allows_any : (divergence (run_of "i32 poison") (run_of "i32 2")).confirmed ≡ false
unfolding divergence judge compare_returned compare includes starts_with Dict.get
poison_allows_any = refl

inverse-exact_example :
    (icmp 8 (inverse slt) 3 12 ≡ not (icmp 8 slt 3 12)) × (inverse (inverse slt) ≡ slt)
inverse-exact_example = inverse-exact 8 slt 3 12
