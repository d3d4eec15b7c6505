-- ===== src/Goals/Ends.antt =====
-- Replaying ends: on a well-formed tree no effect of engine/core/state/goals.ts recurs for ever.
use alive_next.Prelude.{
  ℕ, zero, suc, ◌+◌, ◌<◌, Bool, ◌&&◌, some, List, [], ◌∷◌, ◌≡◌, ◌≢◌, refl, ◌∙◌, ap, arith, In, inl,
  inr, ◌⊎◌, Bool-cases, Option-cases, ◌==◌,
}
use alive_next.Prelude.Dict
use alive_next.Trajectory.{
  Hash, Side, Half, Effect, step, interpose, case, cut, strengthen, uncut, uninterpose, uncase,
  revert,
}
use alive_next.Goals.Types.{
  GoalId, Goal, Tree, open_, proved, split, Role, Made, DerivationError, out_of_fuel, Result, ok,
  err, ◌>>=◌, same_status, on,
}
use alive_next.Goals.Queries.{find, head, number}
use alive_next.Goals.Moves.{
  put, fuel, discard, discard_all, reopen, editable, opened, unsettle, is_proved,
}
use alive_next.Goals.Derive.{
  apply_step, apply_revert, apply_cut, apply_interpose, apply_case, apply_strengthen, undo,
  apply_proved, apply_refuted, apply, split_in_two, last_index_of,
}
use alive_next.Goals.Restatus.{find-eq_ok, reopened, err-injective}
use alive_next.Goals.Wf.{IsWf}
use alive_next.Goals.Prune.{HasParents, IsPruned, HasParents-sub, discard-IsPruned}
use alive_next.Goals.Reopen.{IsWf-HasParents}
use alive_next.Goals.Termination.{
  count-put, count-le-size, unsettle-enough, settle-enough, find-ne-out_of_fuel, Result-cases,
}

-- A chain fails where its first part fails, or else where the rest does.
>>=-eq_err {ℓ κ} :
    {A : Type ℓ} {B : Type κ} (m : Result A) (f : A → Result B) {e : DerivationError}
    → (m >>= f) ≡ err e
    → (◌≡◌ {A = Result A} m (err e)) ⊎ ((a : A) × (m ≡ ok a) × (f a ≡ err e))
>>=-eq_err (ok a) f h = inr (a, refl, h)
>>=-eq_err (err x) f h = inl (ap err (err-injective h))

-- What of a well-formed tree a part of it keeps, and `discard` recurs on.
record Descends (bound : ℕ) (t : Tree) : Type 0 where
  numbered : (k : GoalId) (g : Goal) → Dict.get t.goals k ≡ some g → number k < bound
  rising :
      (k : GoalId) (g : Goal) (c : GoalId)
      → Dict.get t.goals k ≡ some g
      → In c g.children
      → number k < number c
  parents : HasParents t

Descends-sub :
    (bound : ℕ) (ks : List GoalId) (t u : Tree)
    → IsPruned ks t u
    → Descends bound t
    → Descends bound u
Descends-sub bound ks t u p d = record {
  numbered = λ k g h. d.numbered k g (p.sub k g h);
  rising = λ k g c h m. d.rising k g c (p.sub k g h) m;
  parents = HasParents-sub ks t u p d.parents;
}

discard_all-enough :
    (bound f : ℕ)
    → ((t : Tree) (k : GoalId)
        → Descends bound t
        → 0 < f
        → bound < f + number k
        → discard f t k ≢ err out_of_fuel)
    → (ks : List GoalId) (t : Tree) → Descends bound t
    → 0 < f
    → ((c : GoalId) → In c ks → bound < f + number c)
    → discard_all (discard f) t ks ≢ err out_of_fuel
unfolding discard_all
discard_all-enough bound f one [] t d pos low e = cc
discard_all-enough bound f one (k ∷ ks) t d pos low e = elim (>>=-eq_err (discard f t k) _ e) [
  | inl bad ↦ one t k d pos (low k (inl refl)) bad
  | inr (u, first, rest) ↦
      discard_all-enough bound f one ks u
        (Descends-sub bound (k ∷ []) t u (discard-IsPruned f t k u d.parents first) d) pos
        (λ c m. low c (inr m)) rest
]

-- Each call goes to a goal with a greater number.
discard-enough :
    (bound f : ℕ) (t : Tree) (k : GoalId)
    → Descends bound t
    → 0 < f
    → bound < f + number k
    → discard f t k ≢ err out_of_fuel
unfolding discard
discard-enough bound zero t k d pos low e = elim pos [ ]
discard-enough bound (suc f) t k d pos low e = elim (>>=-eq_err (find t k) _ e) [
  | inl bad ↦ find-ne-out_of_fuel t k bad
  | inr (g, found, rest) ↦
      let held = find-eq_ok t k found in
      let small = d.numbered k g held in
      elim (>>=-eq_err (discard_all (discard f) t g.children) _ rest) [
        | inl bad ↦
            discard_all-enough bound f (discard-enough bound f) g.children t d (omega arith)
              (λ c m. omega (arith, d.rising k g c held m)) bad
        | inr (u, _, done) ↦ cc (done)
      ]
]

IsWf-Descends : (t : Tree) → IsWf t → Descends t.next_goal t
IsWf-Descends t w = record {
  numbered = w.numbered;
  rising = w.rising;
  parents = IsWf-HasParents t w;
}

reopen-ends : (t : Tree) (k : GoalId) (p : Goal) → IsWf t → reopen t k p ≢ err out_of_fuel
unfolding reopen
reopen-ends t k p w e = elim (>>=-eq_err (discard_all (discard (fuel t)) t p.children) _ e) [
  | inl bad ↦
      discard_all-enough t.next_goal (fuel t) (discard-enough t.next_goal (fuel t)) p.children t
        (IsWf-Descends t w) (unfold fuel in omega arith) (λ c m. unfold fuel in omega arith) bad
  | inr (u, _, done) ↦ cc (done)
]

undo-ends :
    (t : Tree) (k : GoalId) (fits : Tree → Goal → Bool) (why : DerivationError)
    → IsWf t
    → why ≢ out_of_fuel
    → undo t k fits why ≢ err out_of_fuel
unfolding undo
undo-ends t k fits why w other e = elim (>>=-eq_err (find t k) _ e) [
  | inl bad ↦ find-ne-out_of_fuel t k bad
  | inr (p, _, rest) ↦ elim (Bool-cases (same_status p.status split && fits t p)) [
    | inl y ↦ reopen-ends t k p w (rw y at rest)
    | inr n ↦ other (err-injective (rw n at rest))
  ]
]

-- `editable` ends on every tree.
pub editable-ends : (t : Tree) (k : GoalId) → editable t k ≢ err out_of_fuel
unfolding editable
editable-ends t k e = elim (>>=-eq_err (find t k) _ e) [
  | inl bad ↦ find-ne-out_of_fuel t k bad
  | inr (g, found, rest) ↦ elim (Bool-cases (is_proved g)) [
    | inl y ↦
        elim (>>=-eq_err (unsettle (fuel t) (put t k (reopened g)) g.parent) _ (rw y at rest)) [
          | inl bad ↦
              unsettle-enough (fuel t) (put t k (reopened g)) g.parent
                (unfold fuel in
                  omega (
                    arith,
                    count-le-size proved t,
                    count-put proved t k g (reopened g) (find-eq_ok t k found) y refl,
                  ))
                bad
          | inr (u, _, done) ↦ cc (done)
        ]
    | inr n ↦ elim (Bool-cases (same_status g.status open_)) [
      | inl o ↦ cc (rw (n, o) at rest)
      | inr c ↦ cc (rw (n, c) at rest)
    ]
  ]
]

-- `proved` ends on every tree.
pub apply_proved-ends : (t : Tree) (k : GoalId) → apply_proved t k ≢ err out_of_fuel
unfolding apply_proved
apply_proved-ends t k e = elim (>>=-eq_err (find t k) _ e) [
  | inl bad ↦ find-ne-out_of_fuel t k bad
  | inr (g, _, rest) ↦
      let u = put t k (record g { status = proved }) in
      settle-enough (fuel u) u g.parent (unfold fuel in omega (arith, count-le-size split u)) rest
]

opened-ends :
    (t : Tree) (k : GoalId) (p : Goal) (half : Half) (role : Role) (made : Made)
    → opened t k p half role made ≢ err out_of_fuel
unfolding opened
opened-ends t k p half role made e = elim (Option-cases (Dict.get t.goals half.gid)) [
  | inl n ↦ cc (rw (n, opened) at e)
  | inr (g, y) ↦ cc (rw (y, opened) at e)
]

split_in_two-ends :
    (t : Tree) (k : GoalId) (p : Goal) (a : Half) (ra : Role) (b : Half) (rb : Role) (made : Made)
    → split_in_two t k p a ra b rb made ≢ err out_of_fuel
unfolding split_in_two
split_in_two-ends t k p a ra b rb made e = elim (>>=-eq_err (opened t k p a ra made) _ e) [
  | inl bad ↦ opened-ends t k p a ra made bad
  | inr ((u, q), _, rest) ↦ elim (>>=-eq_err (opened u k q b rb made) _ rest) [
    | inl bad ↦ opened-ends u k q b rb made bad
    | inr ((v, r), _, done) ↦ cc (done)
  ]
]

head-ends : (g : Goal) (s : Side) → head g s ≢ err out_of_fuel
unfolding head
head-ends g s e = ground arith

-- An effect that starts with `editable` ends if what follows does.
after_editable-ends :
    (t : Tree) (k : GoalId) (f : Tree × Goal → Result Tree)
    → ((u : Tree) (g : Goal) → f (u, g) ≢ err out_of_fuel)
    → (editable t k >>= f) ≢ err out_of_fuel
after_editable-ends t k f rest e = elim (>>=-eq_err (editable t k) f e) [
  | inl bad ↦ editable-ends t k bad
  | inr ((u, g), _, bad) ↦ rest u g bad
]

apply_interpose-ends :
    (t : Tree) (k : GoalId) (l r : Half) → apply_interpose t k l r ≢ err out_of_fuel
unfolding apply_interpose
apply_interpose-ends t k l r = after_editable-ends t k _ λ u g e.
    elim (Result-cases (head g Side.src)) [
      | inr (x, bad) ↦ head-ends g Side.src (bad ∙ ap err (err-injective (rw bad at e)))
      | inl (a, ha) ↦ elim (Result-cases (head g Side.tgt)) [
        | inr (x, bad) ↦ head-ends g Side.tgt (bad ∙ ap err (err-injective (rw (ha, bad) at e)))
        | inl (b, hb) ↦ elim (Bool-cases ((l.src == a) && (l.tgt == r.src) && (r.tgt == b))) [
          | inl y ↦ split_in_two-ends u k g l _ r _ _ (rw (ha, hb, y) at e)
          | inr n ↦ cc (rw (ha, hb, n) at e)
        ]
      ]
    ]

apply_revert-ends :
    (t : Tree) (k : GoalId) (s : Side) (to : Hash) → apply_revert t k s to ≢ err out_of_fuel
unfolding apply_revert
apply_revert-ends t k s to = after_editable-ends t k _ λ u g e.
    elim (Option-cases (last_index_of (on g s).history to)) [
      | inl gone ↦ cc (rw gone at e)
      | inr (at, there) ↦ cc (rw there at e)
    ]

-- On a well-formed tree the replay of an effect comes to an end: the fuel is enough for every
-- recursion that it makes.
pub apply-ends : (t : Tree) (e : Effect) → IsWf t → apply t e ≢ err out_of_fuel
unfolding apply apply_step apply_cut apply_case apply_strengthen apply_refuted
apply-ends t (step e) w = after_editable-ends t e.gid _ λ u g h. cc (h)
apply-ends t (revert k s to) w = apply_revert-ends t k s to
apply-ends t (cut e) w =
    after_editable-ends t e.gid _ λ u g. split_in_two-ends u e.gid g e.outer _ e.callee _ _
apply-ends t (interpose k l r) w = apply_interpose-ends t k l r
apply-ends t (case k c a b) w = after_editable-ends t k _ λ u g. split_in_two-ends u k g a _ b _ _
apply-ends t (strengthen e) w = after_editable-ends t e.gid _ λ u g h. cc (h)
apply-ends t (uncut k) w = undo-ends t k _ _ w (λ e. cc e)
apply-ends t (uninterpose k) w = undo-ends t k _ _ w (λ e. cc e)
apply-ends t (uncase k) w = undo-ends t k _ _ w (λ e. cc e)
apply-ends t (Effect.proved k by) w = apply_proved-ends t k
apply-ends t (Effect.refuted k) w = λ e. elim (>>=-eq_err (find t k) _ e) [
  | inl bad ↦ find-ne-out_of_fuel t k bad
  | inr (g, _, done) ↦ cc (done)
]
