-- ===== src/Tests/Session.antt =====
-- A session of engine/core/session.ts on the tools of Tests.Steps: its calls, and a run picked up again.
use alive_next.Prelude.{
  String, ℕ, zero, suc, false, Option, none, some, List, [], ◌∷◌, ◌≡◌, ◌≢◌, refl, inl, inr,
}
use alive_next.Prelude.Dict
use alive_next.Prelude.Decimal.{decimal, read}
use alive_next.Trajectory.{Hash, src, Effect, Entry}
use alive_next.Trajectory.Chain
use alive_next.Trajectory.Chain.{Text, Codec}
use alive_next.Trajectory.RoundTrip.{IsFaithful, AreFaithful}
use alive_next.Goals.Types.{Status, Tree, Result, ok, err, no_goal}
use alive_next.Goals.Derive
use alive_next.Goals.Moves
use alive_next.Goals.Queries
use alive_next.Goals.Derive.{derive, play, start_tree, undo, is_cut}
use alive_next.Goals.Moves.{fuel}
use alive_next.Failure.{derivation, Attempt, thrown, done}
use alive_next.Steps as model
use alive_next.Steps.Discharge
use alive_next.Store
use alive_next.Steps.Calls.{fresh_world}
use alive_next.Session
use alive_next.Session.{
  Host, Bench, Session, Started, append, note, said, finish, attempted, ◌>>=◌, ◌>>◌, rederived, act,
}
use alive_next.Session.Opening
use alive_next.Session.Opening.{opened, resume, begin_run}
use alive_next.Session.Moves.{RevertResult, revert_effects, move_revert}
use alive_next.Session.Resumed.{
  Call, starts, moves, says, finishes, run_call, run_calls, run_calls-resume,
}
use alive_next.Session.Ended.{act-done, act-thrown, act-refused, Stands, HasLogged, lines_for}
use alive_next.Session.Reads.{Analyzer, view_of, names_of}
use alive_next.Session.Moves.{goal_of}
use alive_next.Session.Reading.{IsRead, executes, run_read, run_read-IsRead}
use alive_next.Drivers.{answer, returned}
use alive_next.Tests.Steps

-- An entry is written as its time, and read by looking it up.
abbrev print : Entry → Text
print e = e.time ∷ []

abbrev nth : List Entry → ℕ → Option Entry
nth [] n = none
nth (e ∷ es) zero = some e
nth (e ∷ es) (suc n) = nth es n

abbrev scan : List Entry → Text → Option Entry
scan es (suc n ∷ []) = nth es n
scan es _ = none

abbrev sha : Text → Hash
sha [] = "none"
sha (n ∷ ns) = decimal n

abbrev host_of : List Entry → Host
host_of known = record {
  kit = Steps.kit;
  codec = record { sha256 = sha; stringify = print; parse_json = scan known };
  clock = suc;
  elapsed = λ n. 1;
  json = λ a. "";
  message_of = λ f. "thrown";
}

abbrev pub bench : Bench
bench = record { world = fresh_world Steps.disk; editing = none }

abbrev pair : Started
pair = record {
  src_text = "s";
  tgt_text = "t";
  config = "{}";
  toolchain = none;
  versions = [];
  eager = false;
}

-- A start, a turn, a move that proves the root, and the end.
abbrev calls : List Call
calls =
    starts pair
    ∷ says "go on"
    ∷ moves "prove" "{}" (λ es t b. (b, done tt)) (λ (u : Unit {0}). Effect.proved "g1" none ∷ [])
        (λ u. "")
    ∷ finishes none
    ∷ []

-- The run, its JSON reading back the entries `known`.
ran : List Entry → Session
unfolding run_calls run_call opened append note said finish begin_run attempted ◌>>=◌ ◌>>◌ rederived
    act Session.give Session.throws Session.concluded Session.logged Opening.refuse_outside_shape
    Opening.broken_line Chain.open_at Chain.append Chain.parse Chain.read Chain.last_hash_of
    Chain.parse_lines Chain.split_from Chain.split_lines Chain.lines_of Chain.is_empty derive play
    Derive.apply Moves.settle_step Queries.find start_tree Moves.name Dict.get Dict.set Dict.empty
    Dict.size decimal read Steps.escaped Steps.said fresh_world Derive.apply_proved
ran known = run_calls (host_of known) calls (opened (host_of known) none bench)

written : List Entry
unfolding ran
written = (ran []).entries

root_proved : Tree
unfolding ran
root_proved = elim (ran []).derived [ none ↦ start_tree "" "" | some t ↦ t ]

faithful :
    (e : Entry)
    → scan written (print e) ≡ some e
    → e.time ≢ 10
    → IsFaithful (host_of written).codec e
faithful e round other = record {
  round = round;
  one_line = λ m. elim m [ inl same ↦ other same | inr none_left ↦ none_left ];
  not_empty = λ x. cc x;
}

ran-AreFaithful : AreFaithful (host_of written).codec (ran written).entries
unfolding ran written fresh_world Derive.apply_proved
ran-AreFaithful = (
  faithful _ refl (λ e. cc e),
  (
    faithful _ refl (λ e. cc e),
    (faithful _ refl (λ e. cc e), (faithful _ refl (λ e. cc e), (faithful _ refl (λ e. cc e), tt))),
  ),
)

run_calls-resume_example :
    (s' : Session) × (resume (host_of written) (ran written).log.file bench ≡ done s')
    × (s'.entries ≡ (ran written).entries)
    × (s'.log ≡ (ran written).log)
    × ((ran written).derived ≡ some root_proved)
    × (s'.derived ≡ some root_proved)
unfolding ran root_proved fresh_world Derive.apply_proved
run_calls-resume_example =
    run_calls-resume (host_of written) bench calls bench root_proved ran-AreFaithful refl

abbrev pub host : Host
host = host_of []

-- The session that has been started, and its tree.
pub begun : Session
unfolding run_calls run_call opened append note said finish begin_run attempted ◌>>=◌ ◌>>◌ rederived
    act Session.give Session.throws Session.concluded Session.logged Opening.refuse_outside_shape
    Opening.broken_line Chain.open_at Chain.append Chain.parse Chain.read Chain.last_hash_of
    Chain.parse_lines Chain.split_from Chain.split_lines Chain.lines_of Chain.is_empty derive play
    Derive.apply Moves.settle_step Queries.find start_tree Moves.name Dict.get Dict.set Dict.empty
    Dict.size decimal read Steps.escaped Steps.said fresh_world Derive.apply_proved
begun = run_calls host (starts pair ∷ []) (opened host none bench)

first : Tree
unfolding begun
first = elim begun.derived [ none ↦ start_tree "" "" | some t ↦ t ]

begun-Stands : Stands begun first
unfolding begun first fresh_world
begun-Stands = record { derived = refl; derives = refl }

-- The check of the root, that alive2 finds correct.
checks : Tree → Session.Move Discharge.CheckGoalResult
checks tree = Session.on_world (Discharge.check_goal Steps.kit tree "g1" none none)

after_check : Bench × Attempt Discharge.CheckGoalResult
unfolding begun first
after_check = checks first begun.bench

found : Discharge.CheckGoalResult
unfolding after_check
found = Steps.result_of (Discharge.not_searched "") after_check.1

after : Tree
unfolding begun first
after = value (play (some first) found.effects)
  where
    value : Result (Option Tree) → Tree
    value (ok (some t)) = t
    value _ = first

check-answers : checks first begun.bench ≡ (after_check.0, done found)
unfolding after_check found begun first checks Session.on_world Discharge.check_goal model.◌>>=◌
    model.raise model.give Queries.workable Queries.find Queries.head model.fetch Store.get Dict.get
    Discharge.check_apart Discharge.check_pair Steps.escaped Steps.unavailable Dict.set Steps.said
    fresh_world Dict.empty
check-answers = refl

check-plays : play (some first) found.effects ≡ ok (some after)
unfolding after_check found begun first checks after play Derive.apply_proved Moves.settle_step
    Session.on_world Discharge.check_goal model.◌>>=◌ model.raise model.give Queries.workable
    Queries.find Queries.head model.fetch Store.get Dict.get Discharge.check_apart Dict.size
    Discharge.check_pair Steps.escaped Steps.unavailable Dict.set Steps.said fresh_world Dict.empty
check-plays = refl

act-done_example :
    (s' : Session) × (Session.act host "check" "{}" checks (λ r. r.effects) (λ r. "proved") begun
      ≡ (s', done found))
    × Stands s' after
    × HasLogged begun s' after_check.0
        (lines_for host "check" "{}" found.effects "proved" begun).0
        (lines_for host "check" "{}" found.effects "proved" begun).1
act-done_example =
    act-done host "check" "{}" checks (λ r. r.effects) (λ r. "proved") begun first after_check.0
      begun-Stands found after check-answers check-plays

-- A revert of a goal that is not there.
no_revert : Tree → Session.Move RevertResult
no_revert = move_revert host [] "g9" src "p1"

no_revert-throws : no_revert first begun.bench ≡ (begun.bench, thrown (derivation (no_goal "g9")))
unfolding no_revert move_revert begun first Queries.workable Queries.find Dict.get Dict.set
    Dict.empty fresh_world
no_revert-throws = refl

act-thrown_example :
    (s' : Session) × (Session.act host "revert" "{}" no_revert revert_effects (λ r. "") begun
      ≡ (s', thrown (derivation (no_goal "g9"))))
    × Stands s' first
    × HasLogged begun s' begun.bench
        (lines_for host "revert" "{}" [] "" begun).0
        (lines_for host "revert" "{}" [] "" begun).1
act-thrown_example =
    act-thrown host "revert" "{}" no_revert revert_effects (λ r. "") begun first begun.bench
      begun-Stands (derivation (no_goal "g9")) no_revert-throws

-- A move whose answer discharges a goal that is not there.
of_no_goal : Tree → Session.Move (Unit {0})
of_no_goal tree b = (b, done tt)

discharges : Unit {0} → List Effect
discharges u = Effect.proved "g9" none ∷ []

refused_there : play (some first) (discharges tt) ≡ err (no_goal "g9")
unfolding play Derive.apply_proved Queries.find first begun Dict.get Dict.set Dict.empty fresh_world
    discharges
refused_there = refl

act-refused_example :
    (s' : Session) × (Session.act host "prove" "{}" of_no_goal discharges (λ u. "") begun
      ≡ (s', thrown (derivation (no_goal "g9"))))
    × (s'.derived ≡ some first)
    × HasLogged begun s' begun.bench
        (lines_for host "prove" "{}" (discharges tt) "" begun).0
        (lines_for host "prove" "{}" (discharges tt) "" begun).1
unfolding of_no_goal
act-refused_example =
    act-refused host "prove" "{}" of_no_goal discharges (λ u. "") begun first begun.bench
      begun-Stands tt (no_goal "g9") refl refused_there

-- An llubi that stops at once, of a program that returns.
abbrev analyzer : Analyzer
analyzer = record {
  Kind = String;
  Answer = String;
  analyze = λ text kind point. answer kind;
  harness = λ text name input. answer (record { module_text = text; differences = [] });
  run = λ text n. record { outcome = returned; observations = Dict.empty; reason = "" };
}

run_read-IsRead_example :
    IsRead begun (run_read {analyzer = analyzer} host (executes "g1" src [] (some 7)) begun) first
run_read-IsRead_example =
    run_read-IsRead host begun first begun-Stands {analyzer = analyzer}
      (executes "g1" src [] (some 7))

a_root_is_shown :
    view_of Steps.kit.tools begun.bench.world.disk first "g1"
    ≡ done (record {
      gid = "g1";
      status = Status.open_;
      role = none;
      callee = none;
      parent = none;
      children = [];
      src = record { id = "p1"; hash = "1s"; text = "s"; history = "p1" ∷ [] };
      tgt = record { id = "p2"; hash = "1t"; text = "t"; history = "p2" ∷ [] };
    })
unfolding view_of first begun fresh_world goal_of Queries.head names_of Store.get Steps.escaped
    Dict.get
a_root_is_shown = refl
