-- ===== src/Tests/Guards.antt =====
-- The guards of the moves of engine/core/session.ts that go back, at concrete trees.
use alive_next.Prelude.{false, none, some, List, [], ◌∷◌, ◌≡◌, refl, inl, In}
use alive_next.Prelude.Dict
use alive_next.Trajectory.{Hash, src, Effect}
use alive_next.Goals.Types.{Goal, Tree, ok, err, on}
use alive_next.Goals.Derive
use alive_next.Goals.Queries
use alive_next.Goals.Derive.{derive, play, start_tree, undo, is_cut}
use alive_next.Goals.Replay.{root_goal}
use alive_next.Transactions.{is_editing, is_editing_below, climb}
use alive_next.Goals.Moves.{fuel}
use alive_next.Failure.{done}
use alive_next.Store
use alive_next.Steps.Calls.{fresh_world}
use alive_next.Session.{Session, Bench}
use alive_next.Session.Moves.{undone, reverted, move_revert, ProgramView, strengthened, move_uncut}
use alive_next.Session.Reverts.{move_revert-keeps}
use alive_next.Session.Undos.{undone-keeps_edited}
use alive_next.Session.Editing.{reverts, run_quiet, run_quiet-editing}
use alive_next.Tests.State
use alive_next.Tests.Steps
use alive_next.Tests.Session.{begun, host, bench}

-- A root that has stepped and goes back.
abbrev twice : Goal
twice = record (root_goal "1s" "1t") { src = record { history = "1s" ∷ "1u" ∷ [] } }

abbrev stepped : Tree
stepped = record {
  root = "g1";
  goals = record { entries = ("g1", twice) ∷ [] };
  programs = record { entries = ("1s", "p1") ∷ ("1t", "p2") ∷ ("1u", "p3") ∷ [] };
  next_goal = 2;
}

abbrev first_program : ProgramView
first_program = record { id = "p1"; hash = "1s"; text = "s" }

abbrev back : List Effect
back = Effect.revert "g1" src "1s" ∷ []

gone_back : Tree
gone_back = elim (play (some stepped) back) [
  | err e ↦ stepped
  | ok none ↦ stepped
  | ok (some t) ↦ t
]

revert-answers :
    move_revert host [] "g1" src "p1" stepped bench ≡ (bench, done (reverted back first_program))
unfolding move_revert fresh_world Store.get Steps.escaped Queries.workable Queries.find Queries.head
    Dict.get
revert-answers = refl

revert-plays : play (some stepped) back ≡ ok (some gone_back)
unfolding gone_back play Derive.apply_revert Dict.get Derive.apply
revert-plays = refl

move_revert-keeps_example :
    (is_editing bench.editing "g1" (some src) ≡ false)
    × ((g g' : Goal) × (Dict.get stepped.goals "g1" ≡ some g)
        × (Dict.get gone_back.goals "g1" ≡ some g')
        × (Queries.head g' src ≡ ok "1s")
        × ((h : Hash)
            → In h (strengthened [] "g1" src)
            → In h (on g src).history
            → In h (on g' src).history))
move_revert-keeps_example =
    move_revert-keeps host [] "g1" src "p1" stepped gone_back bench bench back first_program
      revert-answers revert-plays

abbrev apart : Bench
apart = record { world = fresh_world Steps.disk; editing = some State.elsewhere }

uncut-held : Dict.get State.twice.goals "g3" ≡ some State.g3
unfolding State.twice Dict.get
uncut-held = refl

uncut-answers : move_uncut "g2" State.twice apart ≡ (apart, done (undone (Effect.uncut "g2" ∷ [])))
unfolding move_uncut State.twice is_editing_below climb fuel Dict.get Dict.size
uncut-answers = refl

uncut-plays : play (some State.twice) (Effect.uncut "g2" ∷ []) ≡ ok (some State.undone)
unfolding State.undone State.twice play undo is_cut Queries.find Dict.get Dict.set Dict.delete
    Dict.size
uncut-plays = refl

undone-keeps_edited_example : Dict.get State.undone.goals "g3" ≡ some State.g3
undone-keeps_edited_example =
    undone-keeps_edited "g2" State.twice State.undone apart apart State.elsewhere State.g3
      State.twice-IsWf refl uncut-held [] (Effect.uncut "g2" ∷ []) (inl uncut-answers) uncut-plays

-- A session with a transaction open on another goal.
abbrev busy : Session
busy = record begun { bench = apart }

run_quiet-editing_example :
    (run_quiet host (reverts "g1" src "p1") busy).bench.editing ≡ some State.elsewhere
run_quiet-editing_example = run_quiet-editing host (reverts "g1" src "p1") busy
