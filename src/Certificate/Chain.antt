-- ===== src/Certificate/Chain.antt =====
-- `chainOf` of engine/cert/manifest.ts gives a path: each move starts at the programs that the moves
-- before it left, and the last ones are the goal's heads.
use alive_next.Prelude.{
  ℕ, suc, ◌+◌, String, Bool, true, ◌&&◌, Option, none, some, List, [], ◌∷◌, ◌≡◌, refl, sym, ◌∙◌, ap,
  subst, arith, inl, inr, Bool-cases, nat_eq, head?, get_last?, length, ◌==◌,
}
use alive_next.Trajectory.{
  Hash, Side, src, tgt, Effect, StepEffect, How, rewrite, check, unfolds, Window, LlrwtInvocation,
  step, strengthen,
}
use alive_next.Goals.Types.{Goal}
use alive_next.Failure.{Attempt, done, >>=-eq_done, done-injective}
use alive_next.Certificate.{
  Step, checked, rewritten, narrowed, unfolded, strengthened, Held, numbered, nth, first_slot, cons,
  take_step, first, made_by, made_at, step_as, step_of, chain_from, chain_of,
}
use alive_next.Certificate.Slots.{
  puts_step, puts, hashes, nth-last, AreMade, AreLogged, make_all-AreMade, made_at-nth,
}

-- The programs that the sides are at.
abbrev pub At : Type 0
At = Option Hash × Option Hash

-- A move from one pair of programs to another.
abbrev pub Moves : At → Step → At → Type 0
Moves p (checked src from to by) q = (p.0 ≡ from) × (q ≡ (some to, p.1))
Moves p (checked tgt from to by) q = (p.1 ≡ from) × (q ≡ (p.0, some to))
Moves p (rewritten from to rules invocation) q = (p.0 ≡ from) × (q ≡ (some to, p.1))
Moves p (narrowed src from to w) q = (p.0 ≡ from) × (q ≡ (some to, p.1))
Moves p (narrowed tgt from to w) q = (p.1 ≡ from) × (q ≡ (p.0, some to))
Moves p (unfolded src from to) q = (p.0 ≡ from) × (q ≡ (some to, p.1))
Moves p (unfolded tgt from to) q = (p.1 ≡ from) × (q ≡ (p.0, some to))
Moves p (strengthened s t e) q = (p ≡ (s, t)) × (q ≡ (some e.src, some e.tgt))

pub data IsChain : At → List Step → At → Type 0 where
  arrived : {p : At} → IsChain p [] p
  moving :
      {p q r : At} {s : Step} {ss : List Step} → Moves p s q → IsChain q ss r → IsChain p (s ∷ ss) r

-- What a move of a side leaves.
abbrev moved : At → Side → Hash → At
moved p src to = (some to, p.1)
moved p tgt to = (p.0, some to)

abbrev at_side : At → Side → Option Hash
at_side p src = p.0
at_side p tgt = p.1

step_as-Moves :
    (p : At) (e : StepEffect) (how : How) (side : Side) (rules : Option (List String))
    (invocation : Option LlrwtInvocation) (window : Option Window) {s : Step}
    → step_as (at_side p side) e how side rules invocation window ≡ done s
    → Moves p s (moved p side e.to)
unfolding step_as
step_as-Moves p e rewrite tgt rules invocation window h = cc
step_as-Moves p e rewrite src none invocation window h = cc
step_as-Moves p e rewrite src (some []) invocation window h = cc
step_as-Moves p e rewrite src (some (r ∷ rs)) none window h = cc
step_as-Moves p e rewrite src (some (r ∷ rs)) (some i) window h =
    subst (λ s. Moves p s (moved p src e.to)) (done-injective h) (refl, refl)
step_as-Moves p e unfolds src rules invocation window h =
    subst (λ s. Moves p s (moved p src e.to)) (done-injective h) (refl, refl)
step_as-Moves p e unfolds tgt rules invocation window h =
    subst (λ s. Moves p s (moved p tgt e.to)) (done-injective h) (refl, refl)
step_as-Moves p e check src rules invocation (some w) h =
    subst (λ s. Moves p s (moved p src e.to)) (done-injective h) (refl, refl)
step_as-Moves p e check tgt rules invocation (some w) h =
    subst (λ s. Moves p s (moved p tgt e.to)) (done-injective h) (refl, refl)
step_as-Moves p e check src rules invocation none h =
    subst (λ s. Moves p s (moved p src e.to)) (done-injective h) (refl, refl)
step_as-Moves p e check tgt rules invocation none h =
    subst (λ s. Moves p s (moved p tgt e.to)) (done-injective h) (refl, refl)

cons-eq_done :
    (x : Attempt Step) (rest : Attempt (List Step)) {ss : List Step}
    → cons x rest ≡ done ss
    → (s : Step) × (ss' : List Step) × (x ≡ done s) × (rest ≡ done ss') × (s ∷ ss' ≡ ss)
cons-eq_done x rest e =
    let (s, first_done, e1) = >>=-eq_done x _ e in
    let (ss', rest_done, e2) = >>=-eq_done rest _ e1 in
    (s, ss', first_done, rest_done, done-injective e2)

module _ (log : List Effect) (goal : Goal) (held : Held) (are_made : AreMade log held)
    (on_src : hashes held.on_src ≡ goal.src.history)
    (on_tgt : hashes held.on_tgt ≡ goal.tgt.history) where
  abbrev pair : ℕ → ℕ → At
  pair i j = (nth goal.src.history i, nth goal.tgt.history j)

  abbrev end : At
  end = (get_last? goal.src.history, get_last? goal.tgt.history)

  src_at :
      (i n : ℕ) (e : Effect)
      → made_at held.on_src i n ≡ true
      → nth log n ≡ some e
      → nth goal.src.history i ≡ puts src e
  src_at i n e m l =
      ap (λ hs. nth hs i) (sym on_src) ∙ made_at-nth log src held.on_src i n e are_made.0 m l

  tgt_at :
      (j n : ℕ) (e : Effect)
      → made_at held.on_tgt j n ≡ true
      → nth log n ≡ some e
      → nth goal.tgt.history j ≡ puts tgt e
  tgt_at j n e m l =
      ap (λ hs. nth hs j) (sym on_tgt) ∙ made_at-nth log tgt held.on_tgt j n e are_made.1 m l

  abbrev Leads : ℕ → ℕ → Attempt (List Step) → Type 0
  Leads i j r = (ss : List Step) → r ≡ done ss → IsChain (pair i j) ss end

  -- A taken step moves its side to the next place of its history.
  take_step-Leads :
      (i j n : ℕ) (e : StepEffect) (side : Side) (skipped ahead_src ahead_tgt : Attempt (List Step))
      → e.side ≡ side
      → nth log n ≡ some (step e)
      → Leads i j skipped
      → Leads (suc i) j ahead_src
      → Leads i (suc j) ahead_tgt
      → Leads i j (take_step goal held i j n e side skipped ahead_src ahead_tgt)
  unfolding take_step step_of
  take_step-Leads i j n e src skipped ahead_src ahead_tgt at l p q r ss h =
      elim (Bool-cases (made_at held.on_src (suc i) n)) [
        | inr off ↦ p ss (rw off at h)
        | inl here ↦
            let (s, ss', one, rest, same) = cons-eq_done _ _ (rw here at h) in
            let there : nth goal.src.history (suc i) ≡ some e.to =
              src_at (suc i) n (step e) here l ∙ ap (λ x. puts_step src x e.to) at in
            subst (λ x. IsChain (pair i j) x end) same
              (moving
                (step_as-Moves (pair i j) e e.how src e.rules e.invocation e.window (
                  subst
                    (λ x.
                      step_as (nth goal.src.history i) e e.how x e.rules e.invocation e.window
                      ≡ done s)
                    at one))
                (subst (λ x. IsChain (x, nth goal.tgt.history j) ss' end) there (q ss' rest)))
      ]
  take_step-Leads i j n e tgt skipped ahead_src ahead_tgt at l p q r ss h =
      elim (Bool-cases (made_at held.on_tgt (suc j) n)) [
        | inr off ↦ p ss (rw off at h)
        | inl here ↦
            let (s, ss', one, rest, same) = cons-eq_done _ _ (rw here at h) in
            let there : nth goal.tgt.history (suc j) ≡ some e.to =
              tgt_at (suc j) n (step e) here l ∙ ap (λ x. puts_step tgt x e.to) at in
            subst (λ x. IsChain (pair i j) x end) same
              (moving
                (step_as-Moves (pair i j) e e.how tgt e.rules e.invocation e.window (
                  subst
                    (λ x.
                      step_as (nth goal.tgt.history j) e e.how x e.rules e.invocation e.window
                      ≡ done s)
                    at one))
                (subst (λ x. IsChain (nth goal.src.history i, x) ss' end) there (r ss' rest)))
      ]

  and3 : (a b c : Bool) → (a && b && c) ≡ true → (b ≡ true) × (c ≡ true)
  and3 a b c h = ground arith

  both_eq : (a b c d : ℕ) → (nat_eq a b && nat_eq c d) ≡ true → (a ≡ b) × (c ≡ d)
  both_eq a b c d h = (ground arith, ground arith)

  chain_from-Leads :
      (es : List (ℕ × Effect))
      → AreLogged log es
      → (i j : ℕ) → Leads i j (chain_from goal held i j es)
  unfolding chain_from
  chain_from-Leads [] a i j ss h =
      elim (Bool-cases
        (nat_eq (suc i) (length goal.src.history) && nat_eq (suc j) (length goal.tgt.history))) [
          | inr off ↦ cc (rw off at h)
          | inl whole ↦
              let (at_src, at_tgt) =
                both_eq (suc i) (length goal.src.history) (suc j) (length goal.tgt.history) whole in
              subst (λ x. IsChain (pair i j) x end) (done-injective (rw whole at h))
                (subst (λ (x : At). IsChain (pair i j) [] x)
                  (λ k.
                    (nth-last goal.src.history i at_src k, nth-last goal.tgt.history j at_tgt k))
                  arrived)
        ]
  chain_from-Leads ((n, step e) ∷ es) a i j ss h = elim (Bool-cases (e.gid == goal.id)) [
    | inr off ↦ chain_from-Leads es a.1 i j ss (rw off at h)
    | inl ours ↦
        take_step-Leads i j n e e.side _ _ _ refl a.0 (chain_from-Leads es a.1 i j)
          (chain_from-Leads es a.1 (suc i) j) (chain_from-Leads es a.1 i (suc j)) ss (rw ours at h)
  ]
  chain_from-Leads ((n, strengthen e) ∷ es) a i j ss h =
      elim (Bool-cases
        ((e.gid == goal.id) && made_at held.on_src (suc i) n && made_at held.on_tgt (suc j) n)) [
          | inr off ↦ chain_from-Leads es a.1 i j ss (rw off at h)
          | inl ours ↦
              let (s, ss', one, rest, same) = cons-eq_done _ _ (rw ours at h) in
              let (here_src, here_tgt) = and3 (e.gid == goal.id) _ _ ours in
              subst (λ x. IsChain (pair i j) x end) same
                (moving
                  (subst (λ x. Moves (pair i j) x (some e.src, some e.tgt)) (done-injective one)
                    (refl, refl))
                  (subst (λ (x : At). IsChain x ss' end)
                    (λ k. (
                      src_at (suc i) n (strengthen e) here_src a.0 k,
                      tgt_at (suc j) n (strengthen e) here_tgt a.0 k,
                    ))
                    (chain_from-Leads es a.1 (suc i) (suc j) ss' rest)))
        ]
  chain_from-Leads ((n, _) ∷ es) a i j ss h = chain_from-Leads es a.1 i j ss h

numbered-AreLogged :
    (log : List Effect) (n : ℕ) (es : List Effect)
    → ((k : ℕ) → nth log (n + k) ≡ nth es k)
    → AreLogged log (numbered n es)
numbered-AreLogged log n [] h = tt
numbered-AreLogged log n (e ∷ es) h = (
  subst (λ k. nth log k ≡ some e) (plus_zero n) (h 0),
  numbered-AreLogged log (suc n) es
      (λ k. subst (λ m. nth log m ≡ nth es k) (plus_suc n k) (h (suc k))),
)
  where
    plus_zero : (n : ℕ) → n + 0 ≡ n
    plus_zero n = omega arith

    plus_suc : (n k : ℕ) → n + suc k ≡ suc n + k
    plus_suc n k = omega arith

made_by-AreMade :
    (goal : Goal) (effects : List Effect) {held : Held}
    → made_by goal effects ≡ done held
    → AreMade effects held
unfolding made_by
made_by-AreMade goal effects e =
    let (s, _, e1) = >>=-eq_done (first goal src) _ e in
    let (t, _, e2) = >>=-eq_done (first goal tgt) _ e1 in
    subst (AreMade effects) (done-injective e2) (
      make_all-AreMade effects goal.id (record { on_src = first_slot s; on_tgt = first_slot t })
        (numbered 0 effects) (((λ n q. cc q), tt), ((λ n q. cc q), tt))
        (numbered-AreLogged effects 0 effects λ k. ap (nth effects) (zero_plus k)))
  where
    zero_plus : (k : ℕ) → 0 + k ≡ k
    zero_plus k = omega arith

nth-zero : (xs : List Hash) → nth xs 0 ≡ head? xs
nth-zero [] = refl
nth-zero (x ∷ xs) = refl

-- If replaying a goal's moves gives the programs that its sides hold, then the chain that is given for
-- it is a path of moves from the goal's first pair to its last: each move starts at the programs that
-- the moves before it left.
pub chain_of-IsChain :
    (goal : Goal) (effects : List Effect) (held : Held) (steps : List Step)
    → made_by goal effects ≡ done held
    → hashes held.on_src ≡ goal.src.history
    → hashes held.on_tgt ≡ goal.tgt.history
    → chain_of goal effects ≡ done steps
    → IsChain
        (head? goal.src.history, head? goal.tgt.history)
        steps
        (get_last? goal.src.history, get_last? goal.tgt.history)
unfolding chain_of
chain_of-IsChain goal effects held steps m on_src on_tgt h =
    let (held', m', rest) = >>=-eq_done (made_by goal effects) _ h in
    let same : held' ≡ held = done-injective (sym m' ∙ m) in
    subst (λ (x : At). IsChain x steps (get_last? goal.src.history, get_last? goal.tgt.history))
      (λ k. (nth-zero goal.src.history k, nth-zero goal.tgt.history k))
      (chain_from-Leads effects goal held (made_by-AreMade goal effects m) on_src on_tgt
        (numbered 0 effects)
        (numbered-AreLogged effects 0 effects λ k. ap (nth effects) (zero_plus k)) 0 0 steps
        (subst (λ (x : Held). chain_from goal x 0 0 (numbered 0 effects) ≡ done steps) same rest))
  where
    zero_plus : (k : ℕ) → 0 + k ≡ k
    zero_plus k = omega arith
