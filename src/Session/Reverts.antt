-- ===== src/Session/Reverts.antt =====
-- engine/core/session.ts, `revert`: what its guard against a strengthen keeps.
use alive_next.Prelude.{
  ℕ, suc, ◌<◌, String, Bool, false, ◌||◌, Option, some, List, [], ◌∷◌, ◌++◌, ◌≡◌, ◌⊎◌, refl, sym,
  ◌∙◌, ap, subst, arith, inl, inr, In, In-append_right, In-append_left, In-append_inv, any, length,
  Bool-cases, Option-cases, some-eq, eq_refl, ◌==◌,
}
use alive_next.Prelude.Dict
use alive_next.Trajectory.{Hash, Side, Effect, Entry}
use alive_next.Goals.Types.{GoalId, Goal, Tree, ok, on}
use alive_next.Goals.Queries.{workable, head}
use alive_next.Goals.Derive.{last_index_of, play, apply}
use alive_next.Goals.Moved.{EndsAt, slice-EndsAt, last_index_of-none, revert-EndsAt}
use alive_next.Failure.{done, >>=-eq_done, done-injective, lift, lift-eq_done}
use alive_next.Transactions.{Transaction, is_editing}
use alive_next.Steps.Refined.{workable-eq_ok}
use alive_next.Splits.{concat}
use alive_next.Session.{Host, Bench, Move}
use alive_next.Session.Moves.{
  reverted, refused, drops_strengthened, strengthened, includes, is_after, ProgramView, program_of,
  revert_to, reverting, move_revert, unless_editing, on_side,
}
use alive_next.Session.Replayed.{played}

last_index_of-In : (xs : List Hash) (h : Hash) → In h xs → (i : ℕ) × (last_index_of xs h ≡ some i)
last_index_of-In xs h m = elim (Option-cases (last_index_of xs h)) [
  | inl n ↦ absurd (last_index_of-none xs h n m)
  | inr found ↦ found
]

In-last_index_of : (xs : List Hash) (h : Hash) (i : ℕ) → last_index_of xs h ≡ some i → In h xs
In-last_index_of xs h i e =
    let ends = slice-EndsAt xs h i e in
    subst (In h) (sym ends.whole) (In-append_right h ends.before (h ∷ ends.after) (inl refl))

-- What stands after a place has its last index after it.
last_index_of_after :
    (before after : List Hash) (to h : Hash)
    → In h after
    → (i : ℕ) × (last_index_of (before ++ to ∷ after) h ≡ some i) × (length before < i)
unfolding last_index_of
last_index_of_after [] after to h m =
    let (i, e) = last_index_of-In after h m in (suc i, rw (e, last_index_of) refl, omega arith)
last_index_of_after (x ∷ before) after to h m =
    let (i, e, lt) = last_index_of_after before after to h m in
    (suc i, rw (e, last_index_of) refl, omega arith)

last_index_of_at :
    (before after : List Hash) (to : Hash)
    → (In to after → ⊥)
    → last_index_of (before ++ to ∷ after) to ≡ some (length before)
unfolding last_index_of
last_index_of_at [] after to last = elim (Option-cases (last_index_of after to)) [
  | inl n ↦ rw (n, last_index_of, eq_refl to) refl
  | inr (i, e) ↦ absurd (last (In-last_index_of after to i e))
]
last_index_of_at (x ∷ before) after to last =
    rw (last_index_of_at before after to last, last_index_of) refl

neither : (a b : Bool) → a || b ≡ false → (a ≡ false) × (b ≡ false)
neither a b e = ground arith

any-In : (p : Hash → Bool) (xs : List Hash) (h : Hash) → In h xs → any p xs ≡ false → p h ≡ false
any-In p [] h m e = elim m [ ]
any-In p (x ∷ xs) h (inl same) e = subst (λ y. p y ≡ false) same (neither (p x) (any p xs) e).0
any-In p (x ∷ xs) h (inr m) e = any-In p xs h m (neither (p x) (any p xs) e).1

not_after :
    (n i : ℕ) (o o' : Option ℕ) → o ≡ some n → o' ≡ some i → is_after o o' ≡ false → n < i → ⊥
not_after n i o o' e e' later lt = ground (arith, rw (e, e') at later)

-- A history cut at a program keeps each program that was not found after it.
EndsAt-keeps :
    (landed old new : List Hash) (to : Hash)
    → EndsAt to old new
    → drops_strengthened landed old to ≡ false
    → (h : Hash) → In h landed
    → In h old
    → In h new
unfolding drops_strengthened
EndsAt-keeps landed old new to ends e h lands m =
    subst (In h) (sym ends.kept)
      (elim (In-append_inv h ends.before (to ∷ ends.after) (subst (In h) ends.whole m)) [
        | inl early ↦ In-append_left h ends.before (to ∷ []) early
        | inr (inl same) ↦ In-append_right h ends.before (to ∷ []) (inl same)
        | inr (inr late) ↦
            let (i, found, lt) = last_index_of_after ends.before ends.after to h late in
            absurd (
              not_after (length ends.before) i _ _
                (ap (λ hs. last_index_of hs to) ends.whole
                  ∙ last_index_of_at ends.before ends.after to ends.last)
                (ap (λ hs. last_index_of hs h) ends.whole ∙ found) (any-In _ landed h lands e) lt)
      ])

reverted-injective :
    {es es' : List Effect} {v v' : ProgramView}
    → reverted es v ≡ reverted es' v'
    → (es ≡ es') × (v ≡ v')
reverted-injective e = (cc (e), cc (e))

revert_to-reverted :
    (entries : List Entry) (gid : GoalId) (side : Side) (goal : Goal) (target : ProgramView)
    (here : Hash) (es : List Effect) (v : ProgramView)
    → revert_to entries gid side goal target here ≡ reverted es v
    → (es ≡ Effect.revert gid side v.hash ∷ [])
      × (drops_strengthened (strengthened entries gid side) (on goal side).history v.hash ≡ false)
unfolding revert_to
revert_to-reverted entries gid side goal target here es v e =
    elim (Bool-cases (here == target.hash)) [
      | inl same ↦ cc (rw (same, revert_to) at e)
      | inr moves ↦
          elim (Bool-cases (
            drops_strengthened (strengthened entries gid side) (on goal side).history
              target.hash)) [
                | inl drops ↦ cc (rw (moves, drops, revert_to) at e)
                | inr keeps ↦
                    let (one, is) = reverted-injective (rw (moves, keeps, revert_to) at e) in
                    (
                      sym one ∙ ap (λ (x : ProgramView). Effect.revert gid side x.hash ∷ []) is,
                      subst
                          (λ (x : ProgramView).
                            drops_strengthened (strengthened entries gid side)
                              (on goal side).history x.hash
                            ≡ false)
                          is keeps,
                    )
              ]
    ]

-- A guarded move that answers was refused, or the goal is not being edited.
unless_editing-eq_done :
    {A : Type 0} (gid : GoalId) (side : Option Side) (refusal : Transaction → A) (move : Move A)
    (b : Bench) {b' : Bench} {a : A}
    → unless_editing gid side refusal move b ≡ (b', done a)
    → ((x : Transaction) × (refusal x ≡ a))
      ⊎ ((is_editing b.editing gid side ≡ false) × (move b ≡ (b', done a)))
unfolding unless_editing is_editing
unless_editing-eq_done gid side refusal move b e = elim (Option-cases b.editing) [
  | inl n ↦ inr (ap (λ o. is_editing o gid side) n, rw (n, unless_editing) at e)
  | inr (x, y) ↦ elim (Bool-cases (is_editing (some x) gid side)) [
    | inl busy ↦ inl (x, done-injective (ap (λ p. p.1) (rw (y, busy, unless_editing) at e)))
    | inr idle ↦ inr (ap (λ o. is_editing o gid side) y ∙ idle, rw (y, idle, unless_editing) at e)
  ]
]

reverting-reverted :
    (host : Host) (b : Bench) (entries : List Entry) (gid : GoalId) (side : Side) (to : String)
    (t : Tree) (es : List Effect) (v : ProgramView)
    → reverting host.kit.tools b.world.disk entries gid side to t ≡ done (reverted es v)
    → (g : Goal) × (Dict.get t.goals gid ≡ some g)
      × (es ≡ Effect.revert gid side v.hash ∷ [])
      × (drops_strengthened (strengthened entries gid side) (on g side).history v.hash ≡ false)
unfolding reverting
reverting-reverted host b entries gid side to t es v e =
    let (g, there, e1) = >>=-eq_done (lift (workable t gid)) _ e in
    let (target, found, e2) = >>=-eq_done (program_of host.kit.tools b.world.disk t to) _ e1 in
    elim (Bool-cases (includes (on g side).history target.hash)) [
      | inr never ↦ cc (rw never at e2)
      | inl was ↦
          let (here, now, e3) = >>=-eq_done (lift (head g side)) _ (rw was at e2) in
          let (one, keeps) =
            revert_to-reverted entries gid side g target here es v (done-injective e3) in
          (g, workable-eq_ok t gid (lift-eq_done _ there), one, keeps)
    ]

-- A revert that is taken is of a side that no transaction is open on, and after it the side still
-- holds each program that a strengthen landed on it and that it held before.
pub move_revert-keeps :
    (host : Host) (entries : List Entry) (gid : GoalId) (side : Side) (to : String) (t t' : Tree)
    (b b' : Bench) (es : List Effect) (v : ProgramView)
    → move_revert host entries gid side to t b ≡ (b', done (reverted es v))
    → play (some t) es ≡ ok (some t')
    → (is_editing b.editing gid (some side) ≡ false)
      × ((g g' : Goal) × (Dict.get t.goals gid ≡ some g)
          × (Dict.get t'.goals gid ≡ some g')
          × (head g' side ≡ ok v.hash)
          × ((h : Hash)
              → In h (strengthened entries gid side)
              → In h (on g side).history
              → In h (on g' side).history))
unfolding move_revert apply
move_revert-keeps host entries gid side to t t' b b' es v e plays =
    elim (unless_editing-eq_done gid (some side)
      (λ x. refused (concat "a transaction is open on " (on_side gid side)))
      (λ m. (m, reverting host.kit.tools m.world.disk entries gid side to t)) b e) [
        | inl (x, refusal) ↦ cc (refusal)
        | inr (idle, answers) ↦
            let (g, there, one, keeps) =
              reverting-reverted host b entries gid side to t es v (ap (λ p. p.1) answers) in
            let (g0, g', there0, held, ends, is_head, _) = revert-EndsAt t gid side v.hash (
              played (Effect.revert gid side v.hash) t t'
                (subst (λ x. play (some t) x ≡ ok (some t')) one plays)) in
            let same : g0 ≡ g = some-eq (sym there0 ∙ there) in
            (
              idle,
              (
                g,
                g',
                there,
                held,
                is_head,
                EndsAt-keeps (strengthened entries gid side) (on g side).history
                    (on g' side).history v.hash
                    (subst (λ (x : Goal). EndsAt v.hash (on x side).history (on g' side).history)
                      same ends)
                    keeps,
              ),
            )
      ]
