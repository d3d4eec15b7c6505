-- ===== src/Session/Resumed.antt =====
-- engine/core/session.ts: a session picked up again from its directory.
use alive_next.Prelude.{String, Option, none, some, List, [], ◌∷◌, ◌≡◌, refl, ◌∙◌, ap}
use alive_next.Trajectory.{Effect, Entry}
use alive_next.Trajectory.Chain
use alive_next.Trajectory.Chain.{Text, Parsed, entries, broken, open_at}
use alive_next.Trajectory.RoundTrip.{IsWritten-empty, AreFaithful, read_written, reopened_last}
use alive_next.Goals.Types.{Tree, ok, err}
use alive_next.Goals.Derive.{derive, derive_from}
use alive_next.Failure.{derivation, thrown, done}
use alive_next.Session.{Host, Bench, Session, Move, act, note, said, finish, Started}
use alive_next.Session.Opening.{opened, resume, begin_run, from_entries, from_parsed}
use alive_next.Session.InStep.{
  IsInStep, act-Holds, note-Holds, said-Holds, finish-Holds, begin_run-Holds,
}

-- One call of the class: the start, or a method. A method's move may read the log.
pub data Call : Type 1 where
  starts : Started → Call
  moves :
      {A : Type 0}
      → String
      → String
      → (List Entry → Tree → Move A)
      → (A → List Effect)
      → (A → String)
      → Call
  notes : String → String → Option (List Effect) → Call
  says : String → Call
  finishes : Option String → Call

module _ (host : Host) where
  -- What a call leaves of the session, however it ends.
  unfoldable pub run_call : Call → Session → Session
  unfolding act note said finish begin_run
  run_call (starts o) s = (begin_run host o s).0
  run_call (moves tool args move effects_of written) s =
      (act host tool args (move s.entries) effects_of written s).0
  run_call (notes action outcome es) s = (note host action outcome es s).0
  run_call (says text) s = (said host text s).0
  run_call (finishes certificate) s = (finish host certificate s).0

  unfoldable pub run_calls : List Call → Session → Session
  unfolding run_call
  run_calls [] s = s
  run_calls (c ∷ cs) s = run_calls cs (run_call c s)

  run_call-IsInStep : (c : Call) (s : Session) → IsInStep host s → IsInStep host (run_call c s)
  unfolding run_call
  run_call-IsInStep (starts o) s i = (begin_run-Holds host o).run s i
  run_call-IsInStep (moves tool args move effects_of written) s i =
      (act-Holds host tool args effects_of written (move s.entries)).run s i
  run_call-IsInStep (notes action outcome es) s i = (note-Holds host action outcome es).run s i
  run_call-IsInStep (says text) s i = (said-Holds host text).run s i
  run_call-IsInStep (finishes certificate) s i = (finish-Holds host certificate).run s i

  pub run_calls-IsInStep :
      (cs : List Call) (s : Session) → IsInStep host s → IsInStep host (run_calls cs s)
  unfolding run_calls
  run_calls-IsInStep [] s i = i
  run_calls-IsInStep (c ∷ cs) s i = run_calls-IsInStep cs (run_call c s) (run_call-IsInStep c s i)

  pub opened-IsInStep : (bench : Bench) → IsInStep host (opened host none bench)
  unfolding opened derive
  opened-IsInStep bench = record { written = IsWritten-empty host.codec; tree = λ t e. cc (e) }

  file-open_at : (file : Option Text) → (open_at host.codec file).file ≡ file
  unfolding open_at
  file-open_at none = refl
  file-open_at (some text) = refl

  -- A log that was written is opened where it stands.
  open_at-written :
      (s : Session)
      → AreFaithful host.codec s.entries
      → IsInStep host s
      → open_at host.codec s.log.file ≡ s.log
  open_at-written s f i = λ k. record {
    file = file-open_at s.log.file k;
    last = reopened_last host.codec s.log s.entries f i.written k;
  }

  from_entries_ok :
      (s : Session) (es : List Entry) (t : Tree)
      → derive es ≡ ok t
      → from_entries host s es ≡ done (record s { entries = es; derived = some t })
  from_entries_ok s [] t d = absurd (unfold derive derive_from in cc (d))
  from_entries_ok s (e ∷ es) t d =
      ap
        (λ r. elim r [
          | ok tree ↦ done (record s { entries = e ∷ es; derived = some tree })
          | err fault ↦ thrown (derivation fault)
        ])
        d

  resume-in_step :
      (s : Session) (again : Bench) (t : Tree)
      → AreFaithful host.codec s.entries
      → IsInStep host s
      → derive s.entries ≡ ok t
      → resume host s.log.file again
        ≡ done (record (opened host s.log.file again) { entries = s.entries; derived = some t })
  unfolding resume from_parsed opened
  resume-in_step s again t f i d =
      ap (λ x. from_parsed host (opened host s.log.file again) (Chain.read host.codec x))
        (open_at-written s f i)
      ∙ ap (from_parsed host (opened host s.log.file again))
          (read_written host.codec s.log s.entries f i.written)
      ∙ from_entries_ok (opened host s.log.file again) s.entries t d

  -- A session of a new directory, after any calls, and picked up from its file: if JSON reads back
  -- each entry that was written and the entries derive a tree, that tree is the session's, and the
  -- session resumed has the same entries, the same tree and the same log.
  pub run_calls-resume :
      (bench : Bench) (cs : List Call) (again : Bench) (t : Tree)
      → AreFaithful host.codec (run_calls cs (opened host none bench)).entries
      → derive (run_calls cs (opened host none bench)).entries ≡ ok t
      → let s = run_calls cs (opened host none bench) in
        (s' : Session) × (resume host s.log.file again ≡ done s')
        × (s'.entries ≡ s.entries)
        × (s'.log ≡ s.log)
        × (s.derived ≡ some t)
        × (s'.derived ≡ some t)
  unfolding opened
  run_calls-resume bench cs again t f d =
      let s : Session = run_calls cs (opened host none bench) in
      let i = run_calls-IsInStep cs (opened host none bench) (opened-IsInStep bench) in
      (_, resume-in_step s again t f i d, refl, open_at-written s f i, i.tree t d, refl)
