-- ===== src/Goals/Restatus.antt =====
-- What `settle`, `unsettle` and `editable` of engine/core/state/goals.ts leave alone.
use alive_next.Prelude.{
  ℕ, zero, suc, true, false, Option, none, some, List, ◌≡◌, refl, ap, ◌∙◌, subst, arith, ltb,
  length, if◌then◌else◌, all, ◌⊎◌, inl, inr, Bool-cases,
}
use alive_next.Prelude.Dict
use alive_next.Prelude.Dict.{get-set_self, get-set_ne, str_cases}
use alive_next.Goals.Types.{
  GoalId, Status, open_, proved, split, Goal, Tree, DerivationError, Result, ok, err, ◌>>=◌,
  same_status,
}
use alive_next.Goals.Queries.{find}
use alive_next.Goals.Moves.{
  put, fuel, unsettle_step, unsettle, settle_step, settle, find_all, editable, is_proved,
}

pub find-eq_ok : (t : Tree) (k : GoalId) {g : Goal} → find t k ≡ ok g → Dict.get t.goals k ≡ some g
unfolding find
find-eq_ok t k h = ground arith

pub >>=-eq_ok {ℓ κ} :
    {T : Type ℓ} {U : Type κ} (first : Result T) (next : T → Result U) {end : U}
    → first >>= next ≡ ok end
    → (mid : T) × (first ≡ ok mid) × (next mid ≡ ok end)
>>=-eq_ok (err thrown) next ended = cc
>>=-eq_ok (ok mid) next ended = (mid, refl, ended)

abbrev pub IsRestatused : Option Goal → Option Goal → Type 0
IsRestatused none none = Unit {0}
IsRestatused (some g) (some g') = g' ≡ record g { status = g'.status }
IsRestatused _ _ = ⊥

pub ok-injective {ℓ} : {A : Type ℓ} {a b : A} → ok a ≡ ok b → a ≡ b
ok-injective h = cc

pub err-injective {ℓ} :
    {A : Type ℓ} {e f : DerivationError} → ◌≡◌ {A = Result A} (err e) (err f) → e ≡ f
err-injective h = cc

-- The same goals up to their statuses, and nothing else changed.
pub record IsRestatus (t t' : Tree) : Type 0 where
  pub root : t'.root ≡ t.root
  pub programs : t'.programs ≡ t.programs
  pub next_goal : t'.next_goal ≡ t.next_goal
  pub at : (k : GoalId) → IsRestatused (Dict.get t.goals k) (Dict.get t'.goals k)

IsRestatused-refl : (g : Option Goal) → IsRestatused g g
IsRestatused-refl none = tt
IsRestatused-refl (some g) = refl

IsRestatused-trans : (a b c : Option Goal) → IsRestatused a b → IsRestatused b c → IsRestatused a c
IsRestatused-trans none none none p q = tt
IsRestatused-trans (some a) (some b) (some c) p q =
    q ∙ ap (λ (g : Goal). record g { status = c.status }) p
IsRestatused-trans none none (some c) p q = q
IsRestatused-trans none (some b) c p q = elim p [ ]
IsRestatused-trans (some a) none c p q = elim p [ ]
IsRestatused-trans (some a) (some b) none p q = q

pub IsRestatus-refl : (t : Tree) → IsRestatus t t
IsRestatus-refl t = record {
  root = refl;
  programs = refl;
  next_goal = refl;
  at = λ k. IsRestatused-refl (Dict.get t.goals k);
}

pub IsRestatus-trans : {a b c : Tree} → IsRestatus a b → IsRestatus b c → IsRestatus a c
IsRestatus-trans {a} {b} {c} p q = record {
  root = q.root ∙ p.root;
  programs = q.programs ∙ p.programs;
  next_goal = q.next_goal ∙ p.next_goal;
  at = λ k.
      IsRestatused-trans (Dict.get a.goals k) (Dict.get b.goals k) (Dict.get c.goals k) (p.at k)
        (q.at k);
}

pub put-IsRestatus :
    (t : Tree) (k : GoalId) (g : Goal) (s : Status)
    → Dict.get t.goals k ≡ some g
    → IsRestatus t (put t k (record g { status = s }))
unfolding put
put-IsRestatus t k g s h = record {
  root = refl;
  programs = refl;
  next_goal = refl;
  at = λ j. elim (str_cases k j) [
    | inl e ↦ rw (← e, get-set_self t.goals k (record g { status = s }), h) refl
    | inr n ↦
        rw (get-set_ne t.goals k j (record g { status = s }) n)
          (IsRestatused-refl (Dict.get t.goals j))
  ];
}

abbrev pub undone : Goal → Goal
undone g = record g { status = if ltb 0 (length g.children) then split else open_ }

-- A call of `unsettle_step` that returns stops at a goal that is not proved, or goes on above.
pub unsettle_step-eq_ok :
    (rec : Tree → Option GoalId → Result Tree) (t : Tree) (k : GoalId) {t' : Tree}
    → unsettle_step rec t k ≡ ok t'
    → (g : Goal) × (Dict.get t.goals k ≡ some g)
      × (((same_status g.status proved ≡ false) × (t ≡ t'))
          ⊎ ((same_status g.status proved ≡ true) × (rec (put t k (undone g)) g.parent ≡ ok t')))
unfolding unsettle_step
unsettle_step-eq_ok rec t k h =
    let (g, found, rest) = >>=-eq_ok (find t k) _ h in
    (
      g,
      find-eq_ok t k found,
      elim (Bool-cases (same_status g.status proved)) [
        | inl e ↦ inr (e, rw e at rest)
        | inr n ↦ inl (n, ok-injective (rw n at rest))
      ],
    )

pub settle_step-eq_ok :
    (rec : Tree → Option GoalId → Result Tree) (t : Tree) (k : GoalId) {t' : Tree}
    → settle_step rec t k ≡ ok t'
    → (g : Goal) × (Dict.get t.goals k ≡ some g)
      × ((t ≡ t')
          ⊎ ((cs : List Goal) × (same_status g.status split ≡ true)
              × (find_all t g.children ≡ ok cs)
              × (all is_proved cs ≡ true)
              × (rec (put t k (record g { status = proved })) g.parent ≡ ok t')))
unfolding settle_step
settle_step-eq_ok rec t k h =
    let (g, found, rest) = >>=-eq_ok (find t k) _ h in
    (
      g,
      find-eq_ok t k found,
      elim (Bool-cases (same_status g.status split)) [
        | inl e ↦
            let (cs, all_found, rest') = >>=-eq_ok (find_all t g.children) _ (rw e at rest) in
            elim (Bool-cases (all is_proved cs)) [
              | inl a ↦ inr (cs, e, all_found, a, rw a at rest')
              | inr n ↦ inl (ok-injective (rw n at rest'))
            ]
        | inr n ↦ inl (ok-injective (rw n at rest))
      ],
    )

-- `unsettle` changes statuses alone.
pub unsettle-IsRestatus :
    (f : ℕ) (t : Tree) (p : Option GoalId) {t' : Tree} → unsettle f t p ≡ ok t' → IsRestatus t t'
unfolding unsettle
unsettle-IsRestatus f t none h = subst (IsRestatus t) (ok-injective h) (IsRestatus-refl t)
unsettle-IsRestatus zero t (some k) h = cc
unsettle-IsRestatus (suc f) t (some k) h =
    let (g, found, rest) = unsettle_step-eq_ok (unsettle f) t k h in
    elim rest [
      | inl (_, e) ↦ subst (IsRestatus t) e (IsRestatus-refl t)
      | inr (_, up) ↦
          IsRestatus-trans (put-IsRestatus t k g (undone g).status found)
            (unsettle-IsRestatus f (put t k (undone g)) g.parent up)
    ]

-- `settle` changes statuses alone.
pub settle-IsRestatus :
    (f : ℕ) (t : Tree) (p : Option GoalId) {t' : Tree} → settle f t p ≡ ok t' → IsRestatus t t'
unfolding settle
settle-IsRestatus f t none h = subst (IsRestatus t) (ok-injective h) (IsRestatus-refl t)
settle-IsRestatus zero t (some k) h = cc
settle-IsRestatus (suc f) t (some k) h =
    let (g, found, rest) = settle_step-eq_ok (settle f) t k h in
    elim rest [
      | inl e ↦ subst (IsRestatus t) e (IsRestatus-refl t)
      | inr (cs, _, _, _, up) ↦
          IsRestatus-trans (put-IsRestatus t k g proved found)
            (settle-IsRestatus f (put t k (record g { status = proved })) g.parent up)
    ]

pub same_status-eq : (a b : Status) → same_status a b ≡ true → a ≡ b
same_status-eq a b h = ground arith

abbrev pub reopened : Goal → Goal
reopened g = record g { status = open_ }

-- `editable` answers the goal open, and changes no more than statuses.
pub editable-eq_ok :
    (t : Tree) (k : GoalId) {t' : Tree} {g' : Goal}
    → editable t k ≡ ok (t', g')
    → (g : Goal) × (Dict.get t.goals k ≡ some g)
      × (((g.status ≡ open_) × (t ≡ t') × (g ≡ g'))
          ⊎ ((g.status ≡ proved)
              × (unsettle (fuel t) (put t k (reopened g)) g.parent ≡ ok t')
              × (reopened g ≡ g')))
unfolding editable
editable-eq_ok t k h =
    let (g, found, rest) = >>=-eq_ok (find t k) _ h in
    (
      g,
      find-eq_ok t k found,
      elim (Bool-cases (is_proved g)) [
        | inl e ↦
            let (u, up, same) =
              >>=-eq_ok (unsettle (fuel t) (put t k (reopened g)) g.parent) _ (rw e at rest) in
            inr (same_status-eq g.status proved e, cc (up, same), cc (same))
        | inr n ↦ elim (Bool-cases (same_status g.status open_)) [
          | inl o ↦
              let same = ok-injective (rw (n, o) at rest) in
              inl (same_status-eq g.status open_ o, cc (same), cc (same))
          | inr c ↦ cc (rw (n, c) at rest)
        ]
      ],
    )

-- A goal that `editable` answers is in its tree, open, and the tree differs in statuses alone.
pub editable-IsRestatus :
    (t : Tree) (k : GoalId) {t' : Tree} {g' : Goal} → editable t k ≡ ok (t', g') → IsRestatus t t'
editable-IsRestatus t k h =
    let (g, found, rest) = editable-eq_ok t k h in
    elim rest [
      | inl (_, e, _) ↦ subst (IsRestatus t) e (IsRestatus-refl t)
      | inr (_, up, _) ↦
          IsRestatus-trans (put-IsRestatus t k g open_ found) (unsettle-IsRestatus _ _ _ up)
    ]
