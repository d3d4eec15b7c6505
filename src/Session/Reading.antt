-- ===== src/Session/Reading.antt =====
-- engine/core/session.ts: what the methods that read leave of the session.
use alive_next.Prelude.{ℕ, suc, String, Option, List, [], ◌∷◌, ◌++◌, ◌≡◌, refl, sym, ap, subst}
use alive_next.Trajectory.{Side, Event}
use alive_next.Goals.Types.{GoalId, Tree}
use alive_next.Goals.Derive.{play, effects_of_event}
use alive_next.Failure.{Attempt, thrown, done}
use alive_next.Drivers.{InputArg}
use alive_next.Session.{Host, Bench, Session, act}
use alive_next.Session.Methods.{no_effects}
use alive_next.Session.Reads.{Analyzer, reading, status, show, program, analyze, execute}
use alive_next.Session.Ended.{Stands, HasLogged, events_of, act-done, act-thrown}

-- The session as it was, but for the two lines of one move that has no effects.
pub record IsRead (s s' : Session) (t : Tree) : Type 0 where
  pub stands : Stands s' t
  pub bench_is : s'.bench ≡ s.bench
  pub calls : s'.calls ≡ suc s.calls
  pub lines :
      (call answered : Event) × (events_of s'.entries ≡ events_of s.entries ++ call ∷ answered ∷ [])
      × (effects_of_event call ≡ [])
      × (effects_of_event answered ≡ [])

logged-IsRead :
    {s s' : Session} {t : Tree} {call answered : Event}
    → Stands s' t
    → HasLogged s s' s.bench call answered
    → effects_of_event call ≡ []
    → effects_of_event answered ≡ []
    → IsRead s s' t
logged-IsRead st l c a = record {
  stands = st;
  bench_is = l.bench_is;
  calls = l.calls;
  lines = (_, _, l.events, c, a);
}

-- A method that reads.
pub data Read (analyzer : Analyzer) : Type 0 where
  asks_status : Read analyzer
  shows : GoalId → Read analyzer
  names : String → Read analyzer
  analyzes : GoalId → Side → analyzer.Kind → Option String → Read analyzer
  executes : GoalId → Side → List InputArg → Option ℕ → Read analyzer

-- The session after a read.
unfoldable pub run_read : {analyzer : Analyzer} → Host → Read analyzer → Session → Session
unfolding status show program analyze execute
run_read host asks_status s = (status host s).0
run_read host (shows gid) s = (show host gid s).0
run_read host (names ref) s = (program host ref s).0
run_read {analyzer = a} host (analyzes gid side kind point) s =
    (analyze host a gid side kind point s).0
run_read {analyzer = a} host (executes gid side input steps) s =
    (execute host a gid side input steps s).0

module _ (host : Host) (s : Session) (t : Tree) (stands : Stands s t) where
  act-IsRead :
      {A : Type 0} (tool args : String) (answers : Tree → Bench → Attempt A) (written : A → String)
      (r : Attempt A)
      → answers t s.bench ≡ r
      → IsRead s (act host tool args (reading answers) no_effects written s).0 t
  unfolding play
  act-IsRead tool args answers written (done a) e =
      let (s', ran, st, l) =
        act-done host tool args (reading answers) no_effects written s t s.bench stands a t
          (ap (λ r. (s.bench, r)) e) refl in
      subst (λ x. IsRead s x t) (ap (λ p. p.0) (sym ran)) (logged-IsRead st l refl refl)
  act-IsRead tool args answers written (thrown f) e =
      let (s', ran, st, l) =
        act-thrown host tool args (reading answers) no_effects written s t s.bench stands f
          (ap (λ r. (s.bench, r)) e) in
      subst (λ x. IsRead s x t) (ap (λ p. p.0) (sym ran)) (logged-IsRead st l refl refl)

  -- A call of status, show, program, analyze or execute, however it ends: the tree is the one that the
  -- session had and that its log derives, the store, what steps.ts keeps and the open transaction are
  -- as they were, and the log has two lines more, which have no effects.
  pub run_read-IsRead : {analyzer : Analyzer} (r : Read analyzer) → IsRead s (run_read host r s) t
  unfolding run_read status show program analyze execute
  run_read-IsRead asks_status = act-IsRead _ _ _ _ _ refl
  run_read-IsRead (shows gid) = act-IsRead _ _ _ _ _ refl
  run_read-IsRead (names ref) = act-IsRead _ _ _ _ _ refl
  run_read-IsRead (analyzes gid side kind point) = act-IsRead _ _ _ _ _ refl
  run_read-IsRead (executes gid side input steps) = act-IsRead _ _ _ _ _ refl
