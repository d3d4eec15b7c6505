-- ===== src/Tests/Trajectory.antt =====
-- The chain of engine/core/state/trajectory.ts with a codec of a few entries: appending, reading
-- back, and a log that has been tampered with.
use alive_next.Prelude.{
  ℕ, zero, suc, String, Bool, true, false, Option, none, some, List, [], ◌∷◌, ◌≡◌, ◌≢◌, refl, sym,
  ◌∙◌, ap, inl, inr, nat_eq,
}
use Prim.Native.Char.{code}
use alive_next.Trajectory.{Hash, Event, Entry, message, settled, unknown}
use alive_next.Trajectory.Chain.{
  Text, Codec, entries, broken, out_of_chain, split_from, split_lines, is_empty, lines_of,
  parse_lines, parse, open_at, append, append_all, read,
}
use alive_next.Trajectory.RoundTrip.{IsFaithful, AreFaithful, read-append_all, open_at-append_all}
use alive_next.Trajectory.Tamper.{IsCollisionFree, parse_tamper}

-- A text as a word: a number is that many a's and a b, and the word starts with an x.
abbrev unary : ℕ → String → String
unary zero s = String.◌∷◌ "b" s
unary (suc n) s = String.◌∷◌ "a" (unary n s)

abbrev word : Text → String
word [] = String.[]
word (n ∷ ns) = unary n (word ns)

abbrev sha : Text → Hash
sha t = String.◌∷◌ "x" (word t)

-- The entries of a short log, whose lines are their times.
abbrev first : Entry
first = record { event = message "hello"; time = 1; prev = "" }

abbrev second : Entry
second = record { event = settled unknown none; time = 2; prev = "xab" }

abbrev print : Entry → Text
print e = e.time ∷ []

abbrev scan : Text → Option Entry
scan (suc zero ∷ []) = some first
scan (suc (suc zero) ∷ []) = some second
scan _ = none

abbrev codec : Codec
codec = record { sha256 = sha; stringify = print; parse_json = scan }

abbrev events : List (Event × ℕ)
events = (first.event, 1) ∷ (second.event, 2) ∷ []

abbrev log : Text
log = 1 ∷ 10 ∷ 2 ∷ 10 ∷ []

abbrev entries_of_log : List Entry
entries_of_log = first ∷ second ∷ []

log_parses : parse codec log ≡ entries entries_of_log
unfolding parse split_lines split_from lines_of is_empty parse_lines
log_parses = refl

-- The second line alone does not continue an empty log.
a_cut_log_is_broken : parse codec (2 ∷ 10 ∷ []) ≡ broken (out_of_chain 1 "xab" "")
unfolding parse split_lines split_from lines_of is_empty parse_lines
a_cut_log_is_broken = refl

events-AreFaithful : AreFaithful codec (append_all codec (open_at codec none) events).1
unfolding append_all append open_at
events-AreFaithful = (faithful first refl (λ e. cc e), (faithful second refl (λ e. cc e), tt))
  where
    faithful : (e : Entry) → scan (print e) ≡ some e → e.time ≢ 10 → IsFaithful codec e
    faithful e round other = record {
      round = round;
      one_line = λ m. elim m [ inl same ↦ other same | inr none_left ↦ none_left ];
      not_empty = λ x. cc x;
    }

read-append_all_example :
    read codec (append_all codec (open_at codec none) events).0
    ≡ entries (append_all codec (open_at codec none) events).1
read-append_all_example = read-append_all codec events events-AreFaithful

open_at-append_all_example :
    (open_at codec (append_all codec (open_at codec none) events).0.file).last
    ≡ (append_all codec (open_at codec none) events).0.last
open_at-append_all_example = open_at-append_all codec events events-AreFaithful

abbrev is_b : String → Bool
is_b String.[] = false
is_b (String.◌∷◌ c s) = nat_eq (code c) b'b'

abbrev is_nil : String → Bool
is_nil String.[] = true
is_nil (String.◌∷◌ c s) = false

abbrev tail : String → String
tail String.[] = String.[]
tail (String.◌∷◌ c s) = s

true-ne-false : true ≢ false
true-ne-false e = cc e

unary-injective : (m n : ℕ) (s t : String) → unary m s ≡ unary n t → (m ≡ n) × (s ≡ t)
unary-injective zero zero s t e = (refl, ap tail e)
unary-injective zero (suc n) s t e = absurd (true-ne-false (ap is_b e))
unary-injective (suc m) zero s t e = absurd (true-ne-false (sym (ap is_b e)))
unary-injective (suc m) (suc n) s t e =
    let (same, rest) = unary-injective m n s t (ap tail e) in (ap suc same, rest)

is_nil-unary : (n : ℕ) (s : String) → is_nil (unary n s) ≡ false
is_nil-unary zero s = refl
is_nil-unary (suc n) s = refl

word-injective : (a b : Text) → word a ≡ word b → a ≡ b
word-injective [] [] e = refl
word-injective [] (n ∷ b) e = absurd (true-ne-false (ap is_nil e ∙ is_nil-unary n (word b)))
word-injective (m ∷ a) [] e = absurd (true-ne-false (sym (ap is_nil e) ∙ is_nil-unary m (word a)))
word-injective (m ∷ a) (n ∷ b) e =
    let (same, rest) = unary-injective m n (word a) (word b) e in
    ap (λ x. x ∷ a) same ∙ ap (◌∷◌ n) (word-injective a b rest)

sha-IsCollisionFree : IsCollisionFree codec
sha-IsCollisionFree = record {
  injective = λ a b e. word-injective a b (ap tail e);
  not_empty = λ a e. absurd (true-ne-false (sym (ap is_nil e)));
}

parse_tamper_example :
    (lines_of (split_lines log) ≡ lines_of (split_lines (1 ∷ 10 ∷ 10 ∷ 2 ∷ [])))
    × (entries_of_log ≡ entries_of_log)
unfolding parse split_lines split_from lines_of is_empty parse_lines
parse_tamper_example =
    parse_tamper codec log (1 ∷ 10 ∷ 10 ∷ 2 ∷ []) (2 ∷ []) entries_of_log entries_of_log
      sha-IsCollisionFree refl refl refl refl
