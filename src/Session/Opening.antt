-- ===== src/Session/Opening.antt =====
-- engine/core/session.ts: how a session begins, on a new pair or picked up from its directory.
use alive_next.Prelude.{String, Bool, Option, none, some, List, [], ◌∷◌, if◌then◌else◌, ◌==◌}
use alive_next.Prelude.Decimal.{decimal}
use alive_next.Trajectory.{Entry, start}
use alive_next.Trajectory.Chain
use alive_next.Trajectory.Chain.{
  Text, Codec, Trajectory, TrajectoryBroken, not_json, out_of_chain, Parsed, entries, broken,
  open_at,
}
use alive_next.Goals.Types.{Tree, ok, err}
use alive_next.Goals.Derive.{derive}
use alive_next.Failure.{Failure, derivation, other, Attempt, thrown, done}
use alive_next.Splits.{concat, DefinedIn, function, unreadable, outside_shape, defined_in}
use alive_next.Steps.{Timeouts, keep}
use alive_next.Steps.Discharge.{eager_goal_check}
use alive_next.Session.{
  Host, Bench, Session, Move, on_world, Started, Act, ◌>>=◌, ◌>>◌, give, throws, append, note,
}

module _ (host : Host) where
  open host use {kit, codec, clock, elapsed, json, message_of}

  -- The constructor, on a directory that holds the trajectory's text, if it has one.
  unfoldable pub opened : Option Text → Bench → Session
  unfolding open_at
  opened file bench = record {
    bench = bench;
    log = open_at codec file;
    entries = [];
    derived = none;
    calls = 0;
  }

  unfoldable pub broken_line : TrajectoryBroken → Failure
  unfolding concat
  broken_line (not_json n) = other (concat "trajectory line " (concat (decimal n) ": not JSON"))
  broken_line (out_of_chain n found expected) =
      other (concat "trajectory line " (concat (decimal n) ": out of chain"))

  abbrev pub from_entries : Session → List Entry → Attempt Session
  from_entries s [] = thrown (other "the directory holds no run")
  from_entries s (e ∷ es) = elim (derive (e ∷ es)) [
    | ok tree ↦ done (record s { entries = e ∷ es; derived = some tree })
    | err fault ↦ thrown (derivation fault)
  ]

  unfoldable pub from_parsed : Session → Parsed → Attempt Session
  unfolding broken_line
  from_parsed s (entries es) = from_entries s es
  from_parsed s (broken fault) = thrown (broken_line fault)

  -- Pick a run back up from its directory.
  unfoldable pub resume : Option Text → Bench → Attempt Session
  unfolding opened Chain.read from_parsed
  resume file bench = from_parsed (opened file bench) (Chain.read codec (opened file bench).log)

  unfoldable pub unused : Parsed → Act (Unit {0})
  unfolding broken_line
  unused (entries []) = give tt
  unused (entries (e ∷ es)) = throws (other "the directory already holds a run")
  unused (broken fault) = throws (broken_line fault)

  -- The name and the type of the one function that a root program defines.
  unfoldable pub refuse_outside_shape : DefinedIn → Act (String × String)
  refuse_outside_shape (function name type) = give (name, type)
  refuse_outside_shape (unreadable why) = throws (other why)
  refuse_outside_shape (outside_shape diagnostics) = throws (other "outside the program shape")

  abbrev pub only_if : Bool → String → Act (Unit {0})
  only_if test why = if test then give tt else throws (other why)

  abbrev pub on_bench : {A : Type 0} → Move A → Act A
  on_bench move s = let (bench, result) = move s.bench in (record s { bench = bench }, result)

  abbrev pub with_tree : {A : Type 0} → Option Tree → (Tree → Act A) → Act A
  with_tree none next = throws (other "the session has no start")
  with_tree (some tree) next = next tree

  unfoldable pub check_root : Tree → Act (Unit {0})
  unfolding on_world note eager_goal_check
  check_root tree = do
    check ← on_bench (on_world (eager_goal_check kit tree tree.root))
    note host "eager_check" (json check) (some check.effects)

  -- The check of the root before a search begins.
  unfoldable pub eager_check : Act (Unit {0})
  unfolding check_root
  eager_check s = with_tree s.derived check_root s

  -- Begin a run on a pair, in a directory that has none.
  unfoldable pub begin_run : Started → Act (Unit {0})
  unfolding append eager_check refuse_outside_shape unused on_world Chain.read defined_in keep
  begin_run o = do
    (λ s. unused (Chain.read codec s.log) s)
    named ← refuse_outside_shape (defined_in (kit.validate o.src_text))
    other_one ← refuse_outside_shape (defined_in (kit.validate o.tgt_text))
    only_if (named.0 == other_one.0) "alive2 compares functions by name"
    only_if (named.1 == other_one.1) "alive2 compares only functions of the same type"
    s ← on_bench (on_world (keep kit o.src_text))
    t ← on_bench (on_world (keep kit o.tgt_text))
    append host (
        start (record {
          src = s;
          tgt = t;
          config = json {A = String × Timeouts} (o.config, kit.timeouts);
          toolchain = o.toolchain;
          versions = o.versions;
        }))
    if o.eager then eager_check else give tt
