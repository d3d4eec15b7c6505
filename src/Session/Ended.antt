-- ===== src/Session/Ended.antt =====
-- engine/core/session.ts, `act`: each of the ways in which a move ends.
use alive_next.Prelude.{suc, String, some, List, [], ◌∷◌, ◌++◌, ◌≡◌, refl, ◌∙◌, ap, map}
use mathlib.Core.List.{map-append, append_assoc}
use alive_next.Trajectory.{Effect, Event, Entry}
use alive_next.Trajectory.Chain
use alive_next.Goals.Types.{Tree, ok, err, DerivationError}
use alive_next.Goals.Derive.{play, derive_event, derive}
use alive_next.Failure.{Failure, derivation, Attempt, thrown, done}
use alive_next.Session.{
  Host, Bench, Session, Move, then_act, append, logged, lines, attempted, concluded, act, ◌>>◌,
  give, throws,
}
use alive_next.Session.Replayed.{wrote, append_ok, append_err}

abbrev pub events_of : List Entry → List Event
events_of = map (λ (e : Entry). e.event)

-- A session after the two lines of a move, and after the move's changes of the bench.
pub record HasLogged (s s' : Session) (bench : Bench) (call answered : Event) : Type 0 where
  pub bench_is : s'.bench ≡ bench
  pub calls : s'.calls ≡ suc s.calls
  pub events : events_of s'.entries ≡ events_of s.entries ++ call ∷ answered ∷ []

-- A session whose tree is the one that its log derives.
pub record Stands (s : Session) (t : Tree) : Type 0 where
  pub derived : s.derived ≡ some t
  pub derives : derive s.entries ≡ ok t

module _ (host : Host) (tool args : String) where
  open host use {json, message_of}

  abbrev counted : Session → Session
  counted s = record s { calls = suc s.calls }

  -- The lines that the next move of a session logs.
  abbrev pub lines_for : List Effect → String → Session → Event × Event
  lines_for effects result s = lines host tool args effects result (counted s)

  module _ (effects : List Effect) (result : String) (s : Session) (t : Tree)
      (h : derive s.entries ≡ ok t) where
    abbrev both : Event × Event
    both = lines_for effects result s

    abbrev after_call : Session
    after_call = record (wrote host both.0 (counted s)) { derived = some t }

    call_ok :
        (append host both.0 (counted s) ≡ (after_call, done tt))
        × (derive after_call.entries ≡ ok t)
    unfolding derive_event play
    call_ok = append_ok host both.0 (counted s) t h t refl

    abbrev after_both : Session
    after_both = wrote host both.1 after_call

    logged-HasLogged : HasLogged s after_both s.bench both.0 both.1
    unfolding Chain.append
    logged-HasLogged = record {
      bench_is = refl;
      calls = refl;
      events = simp (map-append, append_assoc);
    }

    logged_ok :
        (t' : Tree)
        → play (some t) effects ≡ ok (some t')
        → (logged host tool args effects result s
            ≡ (record after_both { derived = some t' }, done tt))
          × (derive after_both.entries ≡ ok t')
    unfolding logged ◌>>◌ derive_event
    logged_ok t' plays =
        let (call, derives) = call_ok in
        let (answered, derives') = append_ok host both.1 after_call t derives t' plays in
        (ap (λ r. then_act r (λ _. append host both.1)) call ∙ answered, derives')

    logged_err :
        (f : DerivationError)
        → play (some t) effects ≡ err f
        → logged host tool args effects result s ≡ (after_both, thrown (derivation f))
    unfolding logged ◌>>◌ derive_event
    logged_err f plays =
        let (call, derives) = call_ok in
        ap (λ r. then_act r (λ _. append host both.1)) call
        ∙ append_err host both.1 after_call t derives f plays

  module _ {A : Type 0} (move : Tree → Move A) (effects_of : A → List Effect) (written : A → String)
      (s : Session) (t : Tree) (bench : Bench) (stands : Stands s t) where
    abbrev with_bench : Session
    with_bench = record s { bench = bench }

    moved :
        (r : Attempt A)
        → move t s.bench ≡ (bench, r)
        → act host tool args move effects_of written s
          ≡ concluded host tool args effects_of written r with_bench
    unfolding act attempted
    moved r e =
        ap
          (λ d.
            concluded host tool args effects_of written (attempted host d move s.bench).1
              (record s { bench = (attempted host d move s.bench).0 }))
          stands.derived
        ∙ ap (λ p. concluded host tool args effects_of written p.1 (record s { bench = p.0 })) e

    -- A move that answers leaves the tree with its effects played, and its two lines in the log, which
    -- derives that tree.
    pub act-done :
        (a : A) (t' : Tree)
        → move t s.bench ≡ (bench, done a)
        → play (some t) (effects_of a) ≡ ok (some t')
        → (s' : Session) × (act host tool args move effects_of written s ≡ (s', done a))
          × Stands s' t'
          × HasLogged s s' bench
              (lines_for (effects_of a) (written a) s).0
              (lines_for (effects_of a) (written a) s).1
    unfolding concluded ◌>>◌ give
    act-done a t' e plays =
        let (ran, derives) =
          logged_ok (effects_of a) (written a) with_bench t stands.derives t' plays in
        let l = logged-HasLogged (effects_of a) (written a) with_bench t stands.derives in
        (
          _,
          moved (done a) e ∙ ap (λ r. then_act r (λ _. give a)) ran,
          record { derived = refl; derives = derives },
          record { bench_is = l.bench_is; calls = l.calls; events = l.events },
        )

    -- A move that throws is in the log with no effects, the tree is as it was, and the error is thrown
    -- on.
    pub act-thrown :
        (f : Failure)
        → move t s.bench ≡ (bench, thrown f)
        → (s' : Session) × (act host tool args move effects_of written s ≡ (s', thrown f))
          × Stands s' t
          × HasLogged s s' bench
              (lines_for [] (json (message_of f)) s).0
              (lines_for [] (json (message_of f)) s).1
    unfolding concluded ◌>>◌ throws play
    act-thrown f e =
        let (ran, derives) =
          logged_ok [] (json (message_of f)) with_bench t stands.derives t refl in
        let l = logged-HasLogged [] (json (message_of f)) with_bench t stands.derives in
        (
          _,
          moved (thrown f) e ∙ ap (λ r. then_act r (λ _. throws f)) ran,
          record { derived = refl; derives = derives },
          record { bench_is = l.bench_is; calls = l.calls; events = l.events },
        )

    -- Where the tree refuses an effect of the answer, that error is thrown in place of the answer: the
    -- two lines are in the log, and the session keeps the tree that it had.
    pub act-refused :
        (a : A) (f : DerivationError)
        → move t s.bench ≡ (bench, done a)
        → play (some t) (effects_of a) ≡ err f
        → (s' : Session) × (act host tool args move effects_of written s
            ≡ (s', thrown (derivation f)))
          × (s'.derived ≡ some t)
          × HasLogged s s' bench
              (lines_for (effects_of a) (written a) s).0
              (lines_for (effects_of a) (written a) s).1
    unfolding concluded ◌>>◌ give
    act-refused a f e plays =
        let l = logged-HasLogged (effects_of a) (written a) with_bench t stands.derives in
        (
          _,
          moved (done a) e
              ∙ ap (λ r. then_act r (λ _. give a))
                  (logged_err (effects_of a) (written a) with_bench t stands.derives f plays),
          refl,
          record { bench_is = l.bench_is; calls = l.calls; events = l.events },
        )
