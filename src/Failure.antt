-- ===== src/Failure.antt =====
-- What engine/core/state can throw beyond the goal tree: an error of the store, of llops or of a
-- transaction, as a value.
use alive_next.Prelude.{String, ◌≡◌, refl}
use alive_next.Trajectory.{Hash, Side}
use alive_next.Goals.Types.{DerivationError, Result, ok, err}

pub data Failure : Type 0 where
  derivation : DerivationError → Failure
  canon_refused : String → String → Failure
  store_corrupt : Hash → Failure
  no_file : Hash → Failure
  already_open : String → Side → Failure
  none_open : Failure
  no_such_goal : String → Failure
  not_of_kind : String → Failure
  other : String → Failure

pub data Attempt {ℓ} (A : Type ℓ) : Type ℓ where
  thrown : Failure → Attempt A
  done : A → Attempt A

infixl 5 ◌>>=◌
abbrev pub ◌>>=◌ {κ ℓ} :
    {Begun : Type κ} {Ended : Type ℓ} → Attempt Begun → (Begun → Attempt Ended) → Attempt Ended
thrown why >>= then_do = thrown why
done begun >>= then_do = then_do begun

-- A derivation error, thrown through.
abbrev pub lift {ℓ} : {A : Type ℓ} → Result A → Attempt A
lift (ok a) = done a
lift (err e) = thrown (derivation e)

-- What a chain that succeeds went through.
pub >>=-eq_done {κ ℓ} :
    {Begun : Type κ} {Ended : Type ℓ} (m : Attempt Begun) (then_do : Begun → Attempt Ended)
    {ended : Ended}
    → m >>= then_do ≡ done ended
    → (begun : Begun) × (m ≡ done begun) × (then_do begun ≡ done ended)
>>=-eq_done (thrown why) then_do e = cc
>>=-eq_done (done begun) then_do e = (begun, refl, e)

pub done-injective {ℓ} : {A : Type ℓ} {a b : A} → done a ≡ done b → a ≡ b
done-injective e = cc

pub lift-eq_done {ℓ} : {A : Type ℓ} (r : Result A) {a : A} → lift r ≡ done a → r ≡ ok a
lift-eq_done (err e) h = cc (h)
lift-eq_done (ok a) h = cc (h)
