-- ===== src/Steps/Runs.antt =====
-- engine/core/state/steps.ts: what a run that answers went through, by the call that it starts with.
use alive_next.Prelude.{String, ◌≡◌, refl, ap}
use alive_next.Trajectory.{Hash}
use alive_next.Goals.Types.{Result, ok, err}
use alive_next.Failure.{Attempt, thrown, done, done-injective, lift}
use alive_next.Store
use alive_next.Steps.{Kit, World, Run, give, raise, then_run, ◌>>=◌, fetch}

pub give-eq_done :
    {A : Type 0} (a : A) (w : World) {w' : World} {b : A} → give a w ≡ (w', done b) → a ≡ b
unfolding give
give-eq_done a w e = done-injective (ap (λ p. p.1) e)

pub give-then :
    {A B : Type 0} (a : A) (next : A → Run B) (w : World) {w' : World} {b : B}
    → (give a >>= next) w ≡ (w', done b)
    → next a w ≡ (w', done b)
unfolding ◌>>=◌ give
give-then a next w e = e

module _ {A B : Type 0} (next : A → Run B) (w : World) {w' : World} {b : B} where
  pub raise-then :
      (r : Attempt A)
      → (raise r >>= next) w ≡ (w', done b)
      → (a : A) × (r ≡ done a) × (next a w ≡ (w', done b))
  unfolding ◌>>=◌ raise
  raise-then (thrown f) e = cc (ap (λ p. p.1) e)
  raise-then (done a) e = (a, refl, e)

  pub lift-then :
      (r : Result A)
      → (raise (lift r) >>= next) w ≡ (w', done b)
      → (a : A) × (r ≡ ok a) × (next a w ≡ (w', done b))
  unfolding ◌>>=◌ raise
  lift-then (err f) e = cc (ap (λ p. p.1) e)
  lift-then (ok a) e = (a, refl, e)

pub fetch-then :
    {B : Type 0} (kit : Kit) (h : Hash) (next : String → Run B) (w : World) {w' : World} {b : B}
    → (fetch kit h >>= next) w ≡ (w', done b)
    → (text : String) × (Store.get kit.tools w.disk h ≡ done text) × (next text w ≡ (w', done b))
unfolding ◌>>=◌ fetch
fetch-then kit h next w {w'} {b} e = got (Store.get kit.tools w.disk h) refl e
  where
    got :
        (r : Attempt String)
        → Store.get kit.tools w.disk h ≡ r
        → then_run (w, r) next ≡ (w', done b)
        → (text : String) × (Store.get kit.tools w.disk h ≡ done text)
          × (next text w ≡ (w', done b))
    got (thrown f) same e = cc (ap (λ p. p.1) e)
    got (done text) same e = (text, same, e)
