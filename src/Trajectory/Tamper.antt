-- ===== src/Trajectory/Tamper.antt =====
-- Two logs that `parse` of engine/core/state/trajectory.ts accepts and that end in the same line
-- are the same, line by line, if no two lines have one hash.
use Prim.Native.Nat.{ℕ}
use mathlib.Core.List.{append-nil}
use alive_next.Prelude.{
  some, List, [], ◌∷◌, ◌++◌, ◌≡◌, ◌≢◌, refl, sym, ◌∙◌, ap, subst, ◌+◌, get_last?, head?, Bool-cases,
  Option-cases, inl, inr, some-eq, ◌==◌, eq_iff,
}
use alive_next.Trajectory.{Hash, Entry}
use alive_next.Trajectory.Chain.{
  Text, Codec, genesis, entries, split_lines, lines_of, parse_lines, parse,
}

-- No two texts have one hash, and no hash is empty.
pub record IsCollisionFree (codec : Codec) : Type 0 where
  pub injective : (a b : Text) → codec.sha256 a ≡ codec.sha256 b → a ≡ b
  pub not_empty : (a : Text) → codec.sha256 a ≢ genesis

entries-injective : {xs ys : List Entry} → entries xs ≡ entries ys → xs ≡ ys
entries-injective h = cc

-- The lines in reverse, in front of `acc`.
onto : List Text → List Text → List Text
onto acc [] = acc
onto acc (l ∷ ls) = onto (l ∷ acc) ls

onto-onto : (a b xs : List Text) → onto b (onto a xs) ≡ onto (xs ++ b) a
unfolding onto
onto-onto a b [] = refl
onto-onto a b (x ∷ xs) = onto-onto (x ∷ a) b xs

onto_twice : (xs : List Text) → onto [] (onto [] xs) ≡ xs
onto_twice xs = onto-onto [] [] xs ∙ unfold onto in append-nil xs

head?-onto : (l : Text) (ls acc : List Text) → head? (onto acc (l ∷ ls)) ≡ get_last? (l ∷ ls)
unfolding onto
head?-onto l [] acc = refl
head?-onto l (m ∷ ls) acc = head?-onto m ls (l ∷ acc)

module _ (codec : Codec) where
  open codec use {sha256, parse_json}

  abbrev newest : List Text → Hash
  newest [] = genesis
  newest (l ∷ ls) = sha256 l

  -- The lines of an accepted log, the newest first: each names the hash of the one before it.
  abbrev IsLinked : List Text → Type 0
  IsLinked [] = Unit {0}
  IsLinked (l ∷ ls) = ((e : Entry) × (parse_json l ≡ some e) × (e.prev ≡ newest ls)) × IsLinked ls

  parse_lines-IsLinked :
      (ls acc : List Text) (n : ℕ) (h : Hash) (done xs : List Entry)
      → IsLinked acc
      → h ≡ newest acc
      → parse_lines codec ls n h done ≡ entries xs
      → IsLinked (onto acc ls)
  unfolding parse_lines onto
  parse_lines-IsLinked [] acc n h done xs c e p = c
  parse_lines-IsLinked (l ∷ ls) acc n h done xs c e p = elim (Option-cases (parse_json l)) [
    | inl bad ↦ cc (rw (bad, parse_lines) at p)
    | inr (x, good) ↦ elim (Bool-cases (x.prev == h)) [
      | inr off ↦ cc (rw (good, parse_lines, off) at p)
      | inl follows ↦
          parse_lines-IsLinked ls (l ∷ acc) (n + 1) (sha256 l) (done ++ x ∷ []) xs
            ((x, good, (eq_iff x.prev h).0 follows ∙ e), c) refl
            (rw (good, parse_lines, follows) at p)
    ]
  ]

  same_newest :
      (l : Text) (a b : List Text) → IsLinked (l ∷ a) → IsLinked (l ∷ b) → newest a ≡ newest b
  same_newest l a b p q =
      sym p.0.2 ∙ ap (λ (x : Entry). x.prev) (some-eq (sym p.0.1 ∙ q.0.1)) ∙ q.0.2

  -- The newest line fixes all before it.
  IsLinked-unique :
      (free : IsCollisionFree codec) (l : Text) (a b : List Text)
      → IsLinked (l ∷ a)
      → IsLinked (l ∷ b)
      → a ≡ b
  IsLinked-unique free l [] [] p q = refl
  IsLinked-unique free l [] (y ∷ b) p q =
      absurd (free.not_empty y (sym (same_newest l [] (y ∷ b) p q)))
  IsLinked-unique free l (x ∷ a) [] p q = absurd (free.not_empty x (same_newest l (x ∷ a) [] p q))
  IsLinked-unique free l (x ∷ a) (y ∷ b) p q =
      let same = free.injective x y (same_newest l (x ∷ a) (y ∷ b) p q) in
      ap (◌∷◌ x) (IsLinked-unique free x a b p.1 (subst (λ z. IsLinked (z ∷ b)) (sym same) q.1))
      ∙ ap (λ z. z ∷ b) same

  same_from_last :
      (free : IsCollisionFree codec) (l : Text) (a b : List Text)
      → IsLinked a
      → IsLinked b
      → head? a ≡ some l
      → head? b ≡ some l
      → a ≡ b
  same_from_last free l [] b p q e e' = cc
  same_from_last free l (x ∷ a) [] p q e e' = cc
  same_from_last free l (x ∷ a) (y ∷ b) p q e e' =
      let same : x ≡ y = some-eq (e ∙ sym e') in
      ap (◌∷◌ x) (IsLinked-unique free x a b p (subst (λ z. IsLinked (z ∷ b)) (sym same) q))
      ∙ ap (λ z. z ∷ b) same

  head-newest : (ls : List Text) (l : Text) → get_last? ls ≡ some l → head? (onto [] ls) ≡ some l
  head-newest [] l e = cc
  head-newest (x ∷ ls) l e = head?-onto x ls [] ∙ e

  -- With a hash that no two texts share and no text has as the empty one: if two texts are accepted
  -- as trajectories and their last lines are the same line, then all their lines are the same, and
  -- so are the entries that are read.
  pub parse_tamper :
      (a b last : Text) (xs ys : List Entry)
      → IsCollisionFree codec
      → parse codec a ≡ entries xs
      → parse codec b ≡ entries ys
      → get_last? (lines_of (split_lines a)) ≡ some last
      → get_last? (lines_of (split_lines b)) ≡ some last
      → (lines_of (split_lines a) ≡ lines_of (split_lines b)) × (xs ≡ ys)
  unfolding parse
  parse_tamper a b last xs ys free p q la lb =
      let la' = lines_of (split_lines a) in
      let lb' = lines_of (split_lines b) in
      let same =
        sym (onto_twice la')
        ∙ ap (onto []) (
            same_from_last free last (onto [] la') (onto [] lb')
              (parse_lines-IsLinked la' [] 0 genesis [] xs tt refl p)
              (parse_lines-IsLinked lb' [] 0 genesis [] ys tt refl q) (head-newest la' last la)
              (head-newest lb' last lb))
        ∙ onto_twice lb' in
      (same, entries-injective (sym p ∙ ap (λ ls. parse_lines codec ls 0 genesis []) same ∙ q))
