-- ===== src/Certificate/Slots.antt =====
-- `madeBy` of engine/cert/manifest.ts: each slot holds the program that the move at its place in the log
-- puts there.
use alive_next.Prelude.{
  ℕ, zero, suc, Bool, true, false, Option, none, some, List, [], ◌∷◌, ◌++◌, map, All, ◌≡◌, refl,
  sym, ◌∙◌, ap, subst, arith, inl, inr, Option-cases, some-eq, if◌then◌else◌, nat_eq, get_last?,
  length, ◌==◌,
}
use alive_next.Trajectory.{Hash, Side, src, tgt, Effect, step, strengthen, revert}
use alive_next.Goals.Types.{GoalId}
use alive_next.Certificate.{
  Slot, Held, gid_of, nth, push_on, cut_back, slot, back_to, make, make_all, made_at,
}

abbrev pub puts_step : Side → Side → Hash → Option Hash
puts_step src src to = some to
puts_step tgt tgt to = some to
puts_step _ _ to = none

-- The program that an effect puts on a side.
abbrev pub puts : Side → Effect → Option Hash
puts side (step e) = puts_step side e.side e.to
puts src (strengthen e) = some e.src
puts tgt (strengthen e) = some e.tgt
puts side _ = none

back_to-All : (P : Slot → Type 0) (xs : List Slot) (to : Hash) → All P xs → All P (back_to xs to)
unfolding back_to
back_to-All P [] to a = a
back_to-All P (x ∷ xs) to a =
    elim (back_to xs to)
        as (λ r.
          All P r
          → All P (elim r [ y ∷ ys ↦ x ∷ y ∷ ys | [] ↦ if x.hash == to then x ∷ [] else [] ])) [
            | y ∷ ys ↦ λ b. (a.0, b)
            | [] ↦ λ b. one (x.hash == to)
          ]
      (back_to-All P xs to a.1)
  where
    one : (c : Bool) → All P (if c then x ∷ [] else [])
    one true = (a.0, tt)
    one false = tt

All-snoc : (P : Slot → Type 0) (xs : List Slot) (x : Slot) → All P xs → P x → All P (xs ++ x ∷ [])
All-snoc P [] x a p = (p, tt)
All-snoc P (y ∷ xs) x a p = (a.0, All-snoc P xs x a.1 p)

pub nth-last : (xs : List Hash) (i : ℕ) → suc i ≡ length xs → nth xs i ≡ get_last? xs
nth-last [] i e = absurd (omega arith)
nth-last (x ∷ []) zero e = refl
nth-last (x ∷ []) (suc i) e = absurd (omega arith)
nth-last (x ∷ y ∷ xs) zero e = absurd (omega arith)
nth-last (x ∷ y ∷ xs) (suc i) e = nth-last (y ∷ xs) i (omega arith)

abbrev pub hashes : List Slot → List Hash
hashes = map (λ (x : Slot). x.hash)

module _ (log : List Effect) where
  -- A slot holds the program that the move at its place put there.
  abbrev pub IsMade : Side → Slot → Type 0
  IsMade side x =
      (n : ℕ) → x.by ≡ some n → (e : Effect) × (nth log n ≡ some e) × (puts side e ≡ some x.hash)

  abbrev pub AreMade : Held → Type 0
  AreMade h = All (IsMade src) h.on_src × All (IsMade tgt) h.on_tgt

  made :
      (side : Side) (to : Hash) (n : ℕ) (e : Effect)
      → nth log n ≡ some e
      → puts side e ≡ some to
      → IsMade side (record { hash = to; by = some n })
  made side to n e at p m same = (e, subst (λ k. nth log k ≡ some e) (some-eq same) at, p)

  push-AreMade :
      (h : Held) (side : Side) (to : Hash) (n : ℕ) (e : Effect)
      → AreMade h
      → nth log n ≡ some e
      → puts side e ≡ some to
      → AreMade (push_on h side (slot to n))
  push-AreMade h src to n e a at p = (All-snoc _ h.on_src _ a.0 (made src to n e at p), a.1)
  push-AreMade h tgt to n e a at p = (a.0, All-snoc _ h.on_tgt _ a.1 (made tgt to n e at p))

  puts_step_self : (side : Side) (to : Hash) → puts_step side side to ≡ some to
  puts_step_self src to = refl
  puts_step_self tgt to = refl

  cut_back-AreMade : (h : Held) (side : Side) (to : Hash) → AreMade h → AreMade (cut_back h side to)
  cut_back-AreMade h src to a = (back_to-All _ h.on_src to a.0, a.1)
  cut_back-AreMade h tgt to a = (a.0, back_to-All _ h.on_tgt to a.1)

  make-AreMade :
      (h : Held) (n : ℕ) (e : Effect) → AreMade h → nth log n ≡ some e → AreMade (make h n e)
  unfolding make
  make-AreMade h n (step e) a at =
      push-AreMade h e.side e.to n (step e) a at (puts_step_self e.side e.to)
  make-AreMade h n (strengthen e) a at =
      push-AreMade (push_on h src (slot e.src n)) tgt e.tgt n (strengthen e)
        (push-AreMade h src e.src n (strengthen e) a at refl) at refl
  make-AreMade h n (revert gid side to) a at = cut_back-AreMade h side to a
  make-AreMade h n _ a at = a

  abbrev pub AreLogged : List (ℕ × Effect) → Type 0
  AreLogged es = All (λ (p : ℕ × Effect). nth log p.0 ≡ some p.1) es

  pub make_all-AreMade :
      (gid : GoalId) (h : Held) (es : List (ℕ × Effect))
      → AreMade h
      → AreLogged es
      → AreMade (make_all gid h es)
  unfolding make_all
  make_all-AreMade gid h [] a l = a
  make_all-AreMade gid h ((n, e) ∷ es) a l =
      make_all-AreMade gid (if gid_of e == gid then make h n e else h) es (one (gid_of e == gid))
        l.1
    where
      one : (c : Bool) → AreMade (if c then make h n e else h)
      one true = make-AreMade h n e a l.0
      one false = a

  -- The slot at a place that a move made holds what the move puts there.
  pub made_at-nth :
      (side : Side) (slots : List Slot) (at n : ℕ) (e : Effect)
      → All (IsMade side) slots
      → made_at slots at n ≡ true
      → nth log n ≡ some e
      → nth (hashes slots) at ≡ puts side e
  unfolding made_at
  made_at-nth side [] at n e a m l = cc
  made_at-nth side (x ∷ xs) zero n e a m l = elim (Option-cases x.by) [
    | inl nobody ↦ cc (rw nobody at m)
    | inr (k, by) ↦
        let same : k ≡ n = eq_of k n (rw by at m) in
        let (e', at', p) = a.0 k by in
        sym p ∙ ap (puts side) (some-eq (sym at' ∙ ap (nth log) same ∙ l))
  ]
    where
      eq_of : (k n : ℕ) → nat_eq k n ≡ true → k ≡ n
      eq_of k n h = ground arith
  made_at-nth side (x ∷ xs) (suc at) n e a m l = made_at-nth side xs at n e a.1 m l
