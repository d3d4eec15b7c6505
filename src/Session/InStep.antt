-- ===== src/Session/InStep.antt =====
-- engine/core/session.ts: every method keeps the file, the log and the tree in step.
use alive_next.Prelude.{
  String, Bool, true, false, Option, none, some, List, [], ◌∷◌, ◌≡◌, refl, sym, ◌∙◌, ap, subst,
  length, if◌then◌else◌,
}
use alive_next.Trajectory.{Effect, Event}
use alive_next.Trajectory.Chain
use alive_next.Trajectory.Chain.{Text, Parsed, entries, broken, open_at}
use alive_next.Trajectory.RoundTrip.{IsWritten, append-IsWritten}
use alive_next.Goals.Types.{Tree, Result, ok, err}
use alive_next.Goals.Restatus.{ok-injective}
use alive_next.Goals.Derive.{derive}
use alive_next.Failure.{Failure, Attempt, thrown, done}
use alive_next.Splits.{DefinedIn, function, unreadable, outside_shape}
use alive_next.Session.{
  Host, Session, Move, Act, append, rederived, logged, attempted, concluded, act, note, said,
  finish, Started, closing, then_act, ◌>>=◌, ◌>>◌, give, throws,
}
use alive_next.Session.Opening.{
  begin_run, eager_check, check_root, only_if, refuse_outside_shape, unused, on_bench, with_tree,
}

module _ (host : Host) where
  open host use {codec, clock}

  -- The file holds the entries, chained, and the tree is the one that they derive, if they do.
  pub record IsInStep (s : Session) : Type 0 where
    pub written : IsWritten codec s.log s.entries
    pub tree : (t : Tree) → derive s.entries ≡ ok t → s.derived ≡ some t

  pub record Holds {A : Type 0} (m : Act A) : Type 0 where
    pub run : (s : Session) → IsInStep s → IsInStep (m s).0

  rederived-IsInStep :
      (s : Session) (r : Result Tree)
      → derive s.entries ≡ r
      → IsWritten codec s.log s.entries
      → IsInStep (rederived r s).0
  unfolding rederived
  rederived-IsInStep s (ok tree) e w = record {
    written = w;
    tree = λ t d. ap some (ok-injective (sym e ∙ d));
  }
  rederived-IsInStep s (err f) e w = record { written = w; tree = λ t d. cc (e, d) }

  pub append-Holds : (event : Event) → Holds (append host event)
  unfolding append
  append-Holds event = record {
    run = λ s i.
        rederived-IsInStep _ _ refl
          (append-IsWritten codec s.log s.entries event (clock (length s.entries)) i.written);
  }

  give-Holds : {A : Type 0} (a : A) → Holds (give a)
  unfolding give
  give-Holds a = record { run = λ s i. i }

  throws-Holds : {A : Type 0} (f : Failure) → Holds (throws {A = A} f)
  unfolding throws
  throws-Holds f = record { run = λ s i. i }

  then_act-IsInStep :
      {A B : Type 0} (r : Session × Attempt A) (next : A → Act B)
      → IsInStep r.0
      → ((a : A) → Holds (next a))
      → IsInStep (then_act r next).0
  then_act-IsInStep (s, thrown f) next i h = i
  then_act-IsInStep (s, done a) next i h = (h a).run s i

  bind-Holds :
      {A B : Type 0} (m : Act A) (next : A → Act B)
      → Holds m
      → ((a : A) → Holds (next a))
      → Holds (m >>= next)
  unfolding ◌>>=◌
  bind-Holds m next h k = record { run = λ s i. then_act-IsInStep (m s) next (h.run s i) k }

  seq-Holds :
      {B : Type 0} (m : Act (Unit {0})) (next : Act B) → Holds m → Holds next → Holds (m >> next)
  unfolding ◌>>◌
  seq-Holds m next h k = record {
    run = λ s i. then_act-IsInStep (m s) (λ _. next) (h.run s i) (λ _. k);
  }

  -- What the log and the tree do not depend on.
  aside-IsInStep :
      (s s' : Session)
      → s'.log ≡ s.log
      → s'.entries ≡ s.entries
      → s'.derived ≡ s.derived
      → IsInStep s
      → IsInStep s'
  aside-IsInStep s s' l e d i = record {
    written =
        subst (λ x. IsWritten codec x s'.entries) (sym l)
          (subst (IsWritten codec s.log) (sym e) i.written);
    tree = λ t h. d ∙ i.tree t (ap derive (sym e) ∙ h);
  }

  logged-Holds :
      (tool args : String) (effects : List Effect) (result : String)
      → Holds (logged host tool args effects result)
  unfolding logged
  logged-Holds tool args effects result = record {
    run = λ s i.
        (seq-Holds _ _ (append-Holds _) (append-Holds _)).run _
          (aside-IsInStep s _ refl refl refl i);
  }

  module _ {A : Type 0} (tool args : String) (effects_of : A → List Effect)
      (written : A → String) where
    concluded-Holds : (r : Attempt A) → Holds (concluded host tool args effects_of written r)
    unfolding concluded
    concluded-Holds (thrown f) = seq-Holds _ _ (logged-Holds tool args [] _) (throws-Holds f)
    concluded-Holds (done a) =
        seq-Holds _ _ (logged-Holds tool args (effects_of a) (written a)) (give-Holds a)

    -- Any move keeps the session in step, whatever it answers.
    pub act-Holds : (move : Tree → Move A) → Holds (act host tool args move effects_of written)
    unfolding act
    act-Holds move = record {
      run = λ s i.
          (concluded-Holds (attempted host s.derived move s.bench).1).run _
            (aside-IsInStep s _ refl refl refl i);
    }

  pub note-Holds :
      (action outcome : String) (es : Option (List Effect)) → Holds (note host action outcome es)
  unfolding note
  note-Holds action outcome es = append-Holds _

  pub said-Holds : (text : String) → Holds (said host text)
  unfolding said
  said-Holds text = append-Holds _

  pub finish-Holds : (certificate : Option String) → Holds (finish host certificate)
  unfolding finish closing
  finish-Holds certificate =
      seq-Holds (λ s. rederived (derive s.entries) s) _
        (record { run = λ s i. rederived-IsInStep s _ refl i.written })
        (record { run = λ s i. (closing-Holds s.derived).run s i })
    where
      closing-Holds : (d : Option Tree) → Holds (closing host d certificate)
      closing-Holds none = throws-Holds _
      closing-Holds (some t) = seq-Holds _ _ (append-Holds _) (give-Holds _)

  only_if-Holds : (test : Bool) (why : String) → Holds (only_if host test why)
  only_if-Holds true why = give-Holds tt
  only_if-Holds false why = throws-Holds _

  refuse-Holds : (d : DefinedIn) → Holds (refuse_outside_shape host d)
  unfolding refuse_outside_shape
  refuse-Holds (function name type) = give-Holds _
  refuse-Holds (unreadable why) = throws-Holds _
  refuse-Holds (outside_shape diagnostics) = throws-Holds _

  unused-Holds : (p : Parsed) → Holds (unused host p)
  unfolding unused
  unused-Holds (entries []) = give-Holds tt
  unused-Holds (entries (e ∷ es)) = throws-Holds _
  unused-Holds (broken fault) = throws-Holds _

  on_bench-Holds : {A : Type 0} (move : Move A) → Holds (on_bench host move)
  on_bench-Holds move = record { run = λ s i. aside-IsInStep s _ refl refl refl i }

  eager_check-Holds : Holds (eager_check host)
  unfolding eager_check check_root
  eager_check-Holds = record { run = λ s i. (go s.derived).run s i }
    where
      go : (d : Option Tree) → Holds (with_tree host d (check_root host))
      go none = throws-Holds _
      go (some t) = bind-Holds _ _ (on_bench-Holds _) (λ c. note-Holds _ _ _)

  pub begin_run-Holds : (o : Started) → Holds (begin_run host o)
  unfolding begin_run
  begin_run-Holds o =
      seq-Holds _ _ (record { run = λ s i. (unused-Holds (Chain.read codec s.log)).run s i })
        (bind-Holds _ _ (refuse-Holds _) λ named. bind-Holds _ _ (refuse-Holds _) λ other_one.
          seq-Holds _ _ (only_if-Holds _ _) (
            seq-Holds _ _ (only_if-Holds _ _) (
              bind-Holds _ _ (on_bench-Holds _) λ s.
                bind-Holds _ _ (on_bench-Holds _)
                  λ t. seq-Holds _ _ (append-Holds _) (eagerly o.eager))))
    where
      eagerly : (b : Bool) → Holds (if b then eager_check host else give tt)
      eagerly true = eager_check-Holds
      eagerly false = give-Holds tt
