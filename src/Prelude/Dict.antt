-- ===== src/Prelude/Dict.antt =====
-- JavaScript's `Map` with string keys: an association list in insertion order. Writing to a key
-- that is there keeps its place, and a new key goes to the end.
use Prim.Native.Nat.{ℕ, suc}
use Prim.Native.String.{String}
use mathlib.Core.Path.{◌≡◌, refl, subst}
use mathlib.Core.Logic.{◌≢◌, ◌⊎◌, inl, inr}
use text.Mathlib.TextPositions.{eq_refl}
use mathlib.Core.Bool.{false}
use mathlib.Core.Option.{Option, none, some}
use mathlib.Core.List.{List, [], ◌∷◌}
use native.Mathlib.Omega.{arith}
use text.Mathlib.Text.{◌==◌}
use text.Mathlib.TextEquality.{eq_iff}
use alive_next.Prelude.Tests.{if◌then◌else◌, Bool-cases}

pub record Dict (V : Type 0) : Type 0 where
  pub entries : List (String × V)

module _ {V : Type 0} where
  unfoldable pub lookup : String → List (String × V) → Option V
  lookup k [] = none
  lookup k ((j, v) ∷ m) = if j == k then some v else lookup k m

  unfoldable pub insert : String → V → List (String × V) → List (String × V)
  insert k v [] = (k, v) ∷ []
  insert k v ((j, w) ∷ m) = if j == k then (j, v) ∷ m else (j, w) ∷ insert k v m

  unfoldable pub without : String → List (String × V) → List (String × V)
  without k [] = []
  without k ((j, v) ∷ m) = let rest = without k m in if j == k then rest else (j, v) ∷ rest

  lookup-insert :
      (key other : String) (new : V) (d : List (String × V))
      → lookup other (insert key new d) ≡ (if key == other then some new else lookup other d)
  unfolding lookup insert
  lookup-insert key other new [] = refl
  lookup-insert key other new ((first, held) ∷ d) =
      ground (
        lookup-insert key other new d,
        eq_iff key other,
        eq_iff first key,
        eq_iff first other,
        arith,
      )

  lookup-without :
      (k j : String) (m : List (String × V))
      → lookup j (without k m) ≡ (if k == j then none else lookup j m)
  unfolding lookup without
  lookup-without k j [] = ground arith
  lookup-without k j ((i, v) ∷ m) =
      ground (arith, lookup-without k j m, eq_iff i k, eq_iff i j, eq_iff k j)

  unfoldable pub empty : Dict V
  empty = record { entries = [] }

  unfoldable pub get : Dict V → String → Option V
  unfolding lookup
  get d k = lookup k d.entries

  unfoldable pub set : Dict V → String → V → Dict V
  unfolding insert
  set d k v = record { entries = insert k v d.entries }

  unfoldable pub delete : Dict V → String → Dict V
  unfolding without
  delete d k = record { entries = without k d.entries }

  abbrev pub count : List (String × V) → ℕ
  count [] = 0
  count (x ∷ xs) = suc (count xs)

  unfoldable pub size : Dict V → ℕ
  size d = count d.entries

  abbrev snds : List (String × V) → List V
  snds [] = []
  snds ((k, v) ∷ m) = v ∷ snds m

  -- Map.prototype.values
  unfoldable pub values : Dict V → List V
  values d = snds d.entries

  pub get-empty : (k : String) → get empty k ≡ none
  unfolding get empty
  get-empty k = refl

  pub get-set :
      (d : Dict V) (k j : String) (v : V) → get (set d k v) j ≡ (if k == j then some v else get d j)
  get-set d k j v = unfold get set in lookup-insert k j v d.entries

  pub get-delete :
      (d : Dict V) (k j : String) → get (delete d k) j ≡ (if k == j then none else get d j)
  get-delete d k j = unfold get delete in lookup-without k j d.entries

pub str_cases : (k j : String) → (k ≡ j) ⊎ (k ≢ j)
str_cases k j = elim (Bool-cases (k == j)) [
  | inl e ↦ inl ((eq_iff k j).0 e)
  | inr n ↦ inr (λ e. cc ((eq_iff k j).1 e, n))
]

pub str_ne : (k j : String) → k ≢ j → (k == j) ≡ false
str_ne k j h = elim (Bool-cases (k == j)) [ inl e ↦ absurd (h ((eq_iff k j).0 e)) | inr n ↦ n ]

module _ {V : Type 0} where
  pub get-set_self : (d : Dict V) (k : String) (v : V) → get (set d k v) k ≡ some v
  get-set_self d k v = rw (get-set, eq_refl k)

  pub get-set_ne : (d : Dict V) (k j : String) (v : V) → k ≢ j → get (set d k v) j ≡ get d j
  get-set_ne d k j v h = rw (get-set, str_ne k j h)

  pub get-set_cases :
      (d : Dict V) (k j : String) (v w : V)
      → get (set d k v) j ≡ some w
      → ((k ≡ j) × (v ≡ w)) ⊎ ((k ≢ j) × (get d j ≡ some w))
  get-set_cases d k j v w h = elim (str_cases k j) [
    | inl e ↦ inl (e, ground (arith, get-set d k j v, (eq_iff k j).1 e))
    | inr n ↦ inr (n, ground (arith, get-set d k j v, str_ne k j n))
  ]

  pub get-delete_self : (d : Dict V) (k : String) → get (delete d k) k ≡ none
  get-delete_self d k = rw (get-delete, eq_refl k)

  pub get-delete_ne : (d : Dict V) (k j : String) → k ≢ j → get (delete d k) j ≡ get d j
  get-delete_ne d k j h = rw (get-delete, str_ne k j h)

  pub get-delete_cases :
      (d : Dict V) (k j : String) (w : V)
      → get (delete d k) j ≡ some w
      → (k ≢ j) × (get d j ≡ some w)
  get-delete_cases d k j w h = elim (str_cases k j) [
    | inl e ↦ cc (subst (λ x. get (delete d k) x ≡ none) e (get-delete_self d k), h)
    | inr n ↦ (n, ground (arith, get-delete d k j, str_ne k j n))
  ]
