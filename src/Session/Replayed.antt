-- ===== src/Session/Replayed.antt =====
-- engine/core/session.ts: what one move does to the session, by how it ends: `act`, and the two lines
-- that it logs.
use alive_next.Prelude.{
  Option, none, some, List, [], ◌∷◌, ◌++◌, ◌≡◌, refl, ◌∙◌, ap, length, some-eq,
}
use alive_next.Trajectory.{Effect, Event, Entry}
use alive_next.Trajectory.Chain
use alive_next.Goals.Types.{Tree, Result, ok, err, DerivationError, no_start, ◌>>=◌}
use alive_next.Goals.Derive.{play, apply, derive_event, derive_from, derive}
use alive_next.Goals.Restatus.{>>=-eq_ok, ok-injective}
use alive_next.Goals.Moved.{or_throw-eq_ok}
use alive_next.Failure.{derivation, thrown, done}
use alive_next.Session.{Host, Session, append, rederived}

then_ok : {A : Type 0} (m : Result A) → m >>= (λ x. ok x) ≡ m
then_ok (err f) = refl
then_ok (ok a) = refl

derive_from-append :
    (xs : List Entry) (e : Entry) (t u : Option Tree)
    → derive_from t xs ≡ ok u
    → derive_from t (xs ++ e ∷ []) ≡ derive_event u e.event
unfolding derive_from
derive_from-append [] e t u h =
    then_ok (derive_event t e.event) ∙ ap (λ v. derive_event v e.event) (ok-injective h)
derive_from-append (x ∷ xs) e t u h =
    let (v, first, rest) = >>=-eq_ok (derive_event t x.event) _ h in
    rw first (derive_from-append xs e v u rest)

-- A log that derives a tree, with one entry more.
module _ (es : List Entry) (e : Entry) (t : Tree) (h : derive es ≡ ok t) where
  derived_from : derive_from none es ≡ ok (some t)
  unfolding derive
  derived_from =
      let (u, from, rest) = >>=-eq_ok (derive_from none es) _ h in
      from ∙ ap ok (or_throw-eq_ok u no_start rest)

  derive-append_ok :
      (t' : Tree) → derive_event (some t) e.event ≡ ok (some t') → derive (es ++ e ∷ []) ≡ ok t'
  unfolding derive
  derive-append_ok t' next = rw (derive_from-append es e none (some t) derived_from, next) refl

  derive-append_err :
      (f : DerivationError) → derive_event (some t) e.event ≡ err f → derive (es ++ e ∷ []) ≡ err f
  unfolding derive
  derive-append_err f next = rw (derive_from-append es e none (some t) derived_from, next) refl

module _ (host : Host) where
  open host use {codec, clock, elapsed, json, message_of}

  -- The session once the line is in the log and in the entries.
  abbrev pub wrote : Event → Session → Session
  wrote event s =
      let (log', entry) = Chain.append codec s.log event (clock (length s.entries)) in
      record s { log = log'; entries = s.entries ++ entry ∷ [] }

  abbrev at_tree : Session → Tree → Session
  at_tree s t = record s { derived = some t }

  module _ (event : Event) (s : Session) (t : Tree) (h : derive s.entries ≡ ok t) where
    entry : Entry
    entry = record { event = event; time = clock (length s.entries); prev = s.log.last }

    pub append_ok :
        (t' : Tree)
        → derive_event (some t) event ≡ ok (some t')
        → (append host event s ≡ (at_tree (wrote event s) t', done tt))
          × (derive (wrote event s).entries ≡ ok t')
    unfolding append entry Chain.append rederived
    append_ok t' next =
        let derived = derive-append_ok s.entries entry t h t' next in
        (ap (λ r. rederived r (wrote event s)) derived, derived)

    pub append_err :
        (f : DerivationError)
        → derive_event (some t) event ≡ err f
        → append host event s ≡ (wrote event s, thrown (derivation f))
    unfolding append entry Chain.append rederived
    append_err f next =
        ap (λ r. rederived r (wrote event s)) (derive-append_err s.entries entry t h f next)

-- One effect is played by applying it.
pub played : (e : Effect) (t t' : Tree) → play (some t) (e ∷ []) ≡ ok (some t') → apply t e ≡ ok t'
unfolding play
played e t t' h =
    let (u, first, rest) = >>=-eq_ok (apply t e) _ h in first ∙ ap ok (some-eq (ok-injective rest))
