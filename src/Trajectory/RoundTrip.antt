-- ===== src/Trajectory/RoundTrip.antt =====
-- A trajectory reads back what was appended to it, and opens again as it was left
-- (engine/core/state/trajectory.ts).
use Prim.Native.Nat.{ℕ}
use mathlib.Core.List.{append-nil, append_assoc}
use alive_next.Prelude.{
  false, none, some, List, [], ◌∷◌, ◌++◌, map, ◌≡◌, ◌≢◌, refl, sym, ◌∙◌, ap, subst, arith, ◌+◌, In,
  All, nat_eq, get_last?, Bool-cases, Option-cases, inl, inr, eq_iff,
}
use alive_next.Trajectory.{Hash, Event, Entry}
use alive_next.Trajectory.Chain.{
  Text, Codec, genesis, entries, split_from, split_lines, is_empty, lines_of, parse_lines, parse,
  hash_of, last_hash_of, Trajectory, contents, open_at, append, append_all, read,
}

-- What the source relies on for an entry: JSON reads back what it prints, on one line that is not
-- empty.
pub record IsFaithful (codec : Codec) (e : Entry) : Type 0 where
  pub round : codec.parse_json (codec.stringify e) ≡ some e
  pub one_line : In 10 (codec.stringify e) → ⊥
  pub not_empty : codec.stringify e ≢ []

-- Lines without a newline, each ended by one, split into themselves and an empty last line.
split_from-line :
    (acc line rest : Text)
    → (In 10 line → ⊥)
    → split_from acc (line ++ 10 ∷ rest) ≡ (acc ++ line) ∷ split_from [] rest
unfolding split_from
split_from-line acc [] rest h = ap (λ l. l ∷ split_from [] rest) (sym (append-nil acc))
split_from-line acc (c ∷ cs) rest h = elim (Bool-cases (nat_eq c 10)) [
  | inl e ↦ absurd (h (inl (ground arith)))
  | inr n ↦ rw n (
      split_from-line (acc ++ c ∷ []) cs rest (λ m. h (inr m))
      ∙ ap (λ l. l ∷ split_from [] rest) (append_assoc acc (c ∷ []) cs))
]

module _ (codec : Codec) where
  open codec use {sha256, stringify}

  abbrev pub AreFaithful : List Entry → Type 0
  AreFaithful es = All (IsFaithful codec) es

  abbrev file_of : List Entry → Text
  file_of [] = []
  file_of (e ∷ es) = stringify e ++ 10 ∷ file_of es

  -- Each entry names the hash of the line before it, the first one `h`.
  abbrev IsChained : Hash → List Entry → Type 0
  IsChained h [] = Unit {0}
  IsChained h (e ∷ es) = (e.prev ≡ h) × IsChained (sha256 (stringify e)) es

  abbrev end_of : Hash → List Entry → Hash
  end_of h [] = h
  end_of h (e ∷ es) = end_of (sha256 (stringify e)) es

  split_lines-file_of :
      (es : List Entry) → AreFaithful es → split_lines (file_of es) ≡ map stringify es ++ [] ∷ []
  unfolding split_lines split_from
  split_lines-file_of [] f = refl
  split_lines-file_of (e ∷ es) f =
      split_from-line [] (stringify e) (file_of es) f.0.one_line
      ∙ ap (◌∷◌ (stringify e)) (split_lines-file_of es f.1)

  not_empty : (l : Text) → l ≢ [] → is_empty l ≡ false
  unfolding is_empty
  not_empty [] h = absurd (h refl)
  not_empty (c ∷ cs) h = refl

  lines_of-map :
      (es : List Entry) → AreFaithful es → lines_of (map stringify es ++ [] ∷ []) ≡ map stringify es
  unfolding lines_of
  lines_of-map [] f = refl
  lines_of-map (e ∷ es) f =
      rw (not_empty (stringify e) f.0.not_empty) (ap (◌∷◌ (stringify e)) (lines_of-map es f.1))

  lines-file_of :
      (es : List Entry) → AreFaithful es → lines_of (split_lines (file_of es)) ≡ map stringify es
  lines-file_of es f = ap lines_of (split_lines-file_of es f) ∙ lines_of-map es f

  parse_lines-map :
      (es : List Entry) (n : ℕ) (h : Hash) (done : List Entry)
      → AreFaithful es
      → IsChained h es
      → parse_lines codec (map stringify es) n h done ≡ entries (done ++ es)
  unfolding parse_lines
  parse_lines-map [] n h done f c = ap entries (sym (append-nil done))
  parse_lines-map (e ∷ es) n h done f c =
      rw (f.0.round, (eq_iff e.prev h).1 c.0)
        (parse_lines-map es (n + 1) (sha256 (stringify e)) (done ++ e ∷ []) f.1 c.1
          ∙ ap entries (append_assoc done (e ∷ []) es))

  last_line :
      (e : Entry) (es : List Entry)
      → (l : Text) × (get_last? (map stringify (e ∷ es)) ≡ some l)
        × (sha256 l ≡ end_of (sha256 (stringify e)) es)
  last_line e [] = (stringify e, refl, refl)
  last_line e (e' ∷ es) = last_line e' es

  -- The file holds just these entries, chained, and `last` is the hash of the last line.
  pub record IsWritten (t : Trajectory) (es : List Entry) : Type 0 where
    pub file : contents t.file ≡ file_of es
    pub chained : IsChained genesis es
    pub last : t.last ≡ end_of genesis es

  IsChained-append :
      (h : Hash) (es : List Entry) (e : Entry)
      → IsChained h es
      → e.prev ≡ end_of h es
      → IsChained h (es ++ e ∷ [])
  IsChained-append h [] e c p = (p, tt)
  IsChained-append h (x ∷ es) e c p = (c.0, IsChained-append (sha256 (stringify x)) es e c.1 p)

  file_of-append :
      (es : List Entry) (e : Entry)
      → file_of (es ++ e ∷ []) ≡ file_of es ++ (stringify e ++ 10 ∷ [])
  file_of-append [] e = refl
  file_of-append (x ∷ es) e =
      ap (λ z. stringify x ++ 10 ∷ z) (file_of-append es e)
      ∙ sym (append_assoc (stringify x) (10 ∷ file_of es) (stringify e ++ 10 ∷ []))

  end_of-append :
      (h : Hash) (es : List Entry) (e : Entry) → end_of h (es ++ e ∷ []) ≡ sha256 (stringify e)
  end_of-append h [] e = refl
  end_of-append h (x ∷ es) e = end_of-append (sha256 (stringify x)) es e

  pub append-IsWritten :
      (t : Trajectory) (es : List Entry) (event : Event) (now : ℕ)
      → IsWritten t es
      → IsWritten (append codec t event now).0 (es ++ (append codec t event now).1 ∷ [])
  unfolding append
  append-IsWritten t es event now w =
      let e : Entry = record { event = event; time = now; prev = t.last } in
      record {
        file = ap (λ x. x ++ (stringify e ++ 10 ∷ [])) w.file ∙ sym (file_of-append es e);
        chained = IsChained-append genesis es e w.chained w.last;
        last = sym (end_of-append genesis es e);
      }

  append_all-IsWritten :
      (events : List (Event × ℕ)) (t : Trajectory) (es : List Entry)
      → IsWritten t es
      → IsWritten (append_all codec t events).0 (es ++ (append_all codec t events).1)
  unfolding append_all
  append_all-IsWritten [] t es w = rw append-nil w
  append_all-IsWritten ((event, now) ∷ rest) t es w =
      let (t', e) = append codec t event now in
      subst (IsWritten (append_all codec t' rest).0)
        (append_assoc es (e ∷ []) (append_all codec t' rest).1)
        (append_all-IsWritten rest t' (es ++ e ∷ []) (append-IsWritten t es event now w))

  nil-ne : (xs : Text) (c : ℕ) (ys : Text) → ◌≢◌ {A = Text} [] (xs ++ c ∷ ys)
  nil-ne [] c ys e = cc
  nil-ne (x ∷ xs) c ys e = cc

  file_of-nil : (es : List Entry) → [] ≡ file_of es → es ≡ []
  file_of-nil [] e = refl
  file_of-nil (x ∷ es) e = absurd (nil-ne (stringify x) 10 (file_of es) e)

  parse-file_of :
      (es : List Entry)
      → AreFaithful es
      → IsChained genesis es
      → parse codec (file_of es) ≡ entries es
  unfolding parse
  parse-file_of es f c = rw (lines-file_of es f) (parse_lines-map es 0 genesis [] f c)

  last_hash_of-file_of :
      (es : List Entry) → AreFaithful es → last_hash_of codec (file_of es) ≡ end_of genesis es
  unfolding last_hash_of
  last_hash_of-file_of [] f = refl
  last_hash_of-file_of (e ∷ es) f =
      let (l, at, hash) = last_line e es in
      ap (λ ls. hash_of codec (get_last? ls)) (lines-file_of (e ∷ es) f)
      ∙ ap (hash_of codec) at
      ∙ hash

  pub read_written :
      (t : Trajectory) (es : List Entry)
      → AreFaithful es
      → IsWritten t es
      → read codec t ≡ entries es
  read_written t es f w = elim (Option-cases t.file) [
    | inl n ↦
        unfold read in
        rw (n, read) (ap entries (sym (file_of-nil es (sym (ap contents n) ∙ w.file))))
    | inr (text, e) ↦
        unfold read in
        rw (e, read)
          (ap (parse codec) (sym (ap contents e) ∙ w.file) ∙ parse-file_of es f w.chained)
  ]

  pub IsWritten-empty : IsWritten (open_at codec none) []
  unfolding open_at
  IsWritten-empty = record { file = refl; chained = tt; last = refl }

  -- If JSON reads back each entry that was written, from one line that is not empty, then reading a
  -- trajectory that had no file gives back exactly the entries that were appended, in order.
  pub read-append_all :
      (events : List (Event × ℕ))
      → AreFaithful (append_all codec (open_at codec none) events).1
      → read codec (append_all codec (open_at codec none) events).0
        ≡ entries (append_all codec (open_at codec none) events).1
  read-append_all events f =
      read_written _ _ f (append_all-IsWritten events (open_at codec none) [] IsWritten-empty)

  pub reopened_last :
      (t : Trajectory) (es : List Entry)
      → AreFaithful es
      → IsWritten t es
      → (open_at codec t.file).last ≡ t.last
  unfolding open_at
  reopened_last t es f w = elim (Option-cases t.file) [
    | inl n ↦
        rw (n, open_at)
          (sym (w.last ∙ ap (end_of genesis) (file_of-nil es (sym (ap contents n) ∙ w.file))))
    | inr (text, e) ↦
        rw (e, open_at)
          (ap (last_hash_of codec) (sym (ap contents e) ∙ w.file)
            ∙ last_hash_of-file_of es f
            ∙ sym w.last)
  ]

  -- If JSON reads back each entry that was written, from one line that is not empty, then a
  -- trajectory that is opened again continues from the hash where the writer stood.
  pub open_at-append_all :
      (events : List (Event × ℕ))
      → AreFaithful (append_all codec (open_at codec none) events).1
      → let t = (append_all codec (open_at codec none) events).0 in
        (open_at codec t.file).last ≡ t.last
  open_at-append_all events f =
      reopened_last _ _ f (append_all-IsWritten events (open_at codec none) [] IsWritten-empty)
