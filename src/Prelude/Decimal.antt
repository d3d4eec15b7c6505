-- ===== src/Prelude/Decimal.antt =====
-- Decimal numerals in texts: what a template literal `${n}` prints and what `Number` reads back.
-- JavaScript's numbers are exact below 2^53, and here they are natural numbers of any size.
use Prim.Native.Nat.{ℕ, zero, suc, ◌+◌, ◌-◌, ◌*◌, ◌/◌, ◌%◌, ◌<◌}
use Prim.Native.Char.{Char, code}
use Prim.Native.String.{String}
use mathlib.Core.Path.{◌≡◌, refl, sym, ap, ◌∙◌}
use mathlib.Core.Bool.{◌&&◌}
use mathlib.Core.Logic.{inl, inr}
use mathlib.Core.Option.{Option, none, some}
use mathlib.Core.List.{List, [], ◌∷◌, ◌++◌}
use native.Mathlib.Omega.{arith}
use alive_next.Prelude.Tests.{leb, ltb, if◌then◌else◌, Bool-cases}

abbrev digit_char : ℕ → Char
digit_char zero = "0"
digit_char (suc zero) = "1"
digit_char (suc (suc zero)) = "2"
digit_char (suc (suc (suc zero))) = "3"
digit_char (suc (suc (suc (suc zero)))) = "4"
digit_char (suc (suc (suc (suc (suc zero))))) = "5"
digit_char (suc (suc (suc (suc (suc (suc zero)))))) = "6"
digit_char (suc (suc (suc (suc (suc (suc (suc zero))))))) = "7"
digit_char (suc (suc (suc (suc (suc (suc (suc (suc zero)))))))) = "8"
digit_char _ = "9"

-- The digits of a number, the first one first; the fuel bounds their number.
digits : ℕ → ℕ → List ℕ
digits zero n = []
digits (suc f) n =
    let rest = digits f (n / 10) in if ltb n 10 then n ∷ [] else rest ++ (n % 10) ∷ []

text : List ℕ → String
text [] = String.[]
text (d ∷ ds) = String.◌∷◌ (digit_char d) (text ds)

unfoldable pub decimal : ℕ → String
unfolding digits text
decimal n = text (digits (suc n) n)

-- The value of a text of digits read after `acc`, if all of it is digits.
unfoldable pub read_from : ℕ → String → Option ℕ
read_from acc String.[] = some acc
read_from acc (String.◌∷◌ c s) =
    if leb 48 (code c) && leb (code c) 57 then read_from (acc * 10 + (code c - 48)) s else none

-- `\d+` over the whole text, and its number.
unfoldable pub read : String → Option ℕ
unfolding read_from
read String.[] = none
read (String.◌∷◌ c s) = read_from 0 (String.◌∷◌ c s)

abbrev AreDigits : List ℕ → Type 0
AreDigits [] = Unit {0}
AreDigits (d ∷ ds) = (d < 10) × AreDigits ds

AreDigits-append : (ds : List ℕ) (d : ℕ) → AreDigits ds → d < 10 → AreDigits (ds ++ d ∷ [])
AreDigits-append [] d h small = (small, tt)
AreDigits-append (c ∷ ds) d h small = (h.0, AreDigits-append ds d h.1 small)

read_digit :
    (d acc : ℕ) (s : String)
    → d < 10
    → read_from acc (String.◌∷◌ (digit_char d) s) ≡ read_from (acc * 10 + d) s
unfolding read_from
read_digit zero acc s h = refl
read_digit (suc zero) acc s h = refl
read_digit (suc (suc zero)) acc s h = refl
read_digit (suc (suc (suc zero))) acc s h = refl
read_digit (suc (suc (suc (suc zero)))) acc s h = refl
read_digit (suc (suc (suc (suc (suc zero))))) acc s h = refl
read_digit (suc (suc (suc (suc (suc (suc zero)))))) acc s h = refl
read_digit (suc (suc (suc (suc (suc (suc (suc zero))))))) acc s h = refl
read_digit (suc (suc (suc (suc (suc (suc (suc (suc zero)))))))) acc s h = refl
read_digit (suc (suc (suc (suc (suc (suc (suc (suc (suc zero))))))))) acc s h = refl
read_digit (suc (suc (suc (suc (suc (suc (suc (suc (suc (suc n)))))))))) acc s h =
    absurd (omega arith)

-- One more digit at the end.
read_from-append :
    (ds : List ℕ) (acc d : ℕ) {v : ℕ}
    → d < 10
    → AreDigits ds
    → read_from acc (text ds) ≡ some v
    → read_from acc (text (ds ++ d ∷ [])) ≡ some (v * 10 + d)
unfolding text
read_from-append [] acc d small all h =
    unfold read_from in (read_digit d acc String.[] small ∙ ap some (ground arith))
read_from-append (c ∷ ds) acc d small all h =
    read_digit c acc _ all.0
    ∙ read_from-append ds (acc * 10 + c) d small all.1 (sym (read_digit c acc (text ds) all.0) ∙ h)

digits-AreDigits : (f n : ℕ) → AreDigits (digits f n)
unfolding digits
digits-AreDigits zero n = tt
digits-AreDigits (suc f) n = elim (Bool-cases (ltb n 10)) [
  | inl one ↦ rw one (ground arith, tt)
  | inr more ↦
      rw more
        (AreDigits-append (digits f (n / 10)) (n % 10) (digits-AreDigits f (n / 10)) (omega arith))
]

read_from-digits : (f n : ℕ) → n < f → read_from 0 (text (digits f n)) ≡ some n
unfolding digits
read_from-digits zero n h = elim h [ ]
read_from-digits (suc f) n h = elim (Bool-cases (ltb n 10)) [
  | inl one ↦
      rw one
        (unfold text read_from in (read_digit n 0 String.[] (ground arith) ∙ ap some (omega arith)))
  | inr more ↦ rw more (
      read_from-append (digits f (n / 10)) 0 (n % 10) (omega arith) (digits-AreDigits f (n / 10))
        (read_from-digits f (n / 10) (ground arith))
      ∙ ap some (omega arith))
]

abbrev IsNonempty : String → Type 0
IsNonempty String.[] = ⊥
IsNonempty (String.◌∷◌ c s) = Unit {0}

text-append-IsNonempty : (ds : List ℕ) (d : ℕ) → IsNonempty (text (ds ++ d ∷ []))
unfolding text
text-append-IsNonempty [] d = tt
text-append-IsNonempty (c ∷ ds) d = tt

digits-IsNonempty : (f n : ℕ) → IsNonempty (text (digits (suc f) n))
unfolding digits text
digits-IsNonempty f n = elim (Bool-cases (ltb n 10)) [
  | inl one ↦ rw one tt
  | inr more ↦ rw more (text-append-IsNonempty (digits f (n / 10)) (n % 10))
]

read_nonempty : (s : String) {v : ℕ} → IsNonempty s → read_from 0 s ≡ some v → read s ≡ some v
unfolding read
read_nonempty String.[] e h = elim e [ ]
read_nonempty (String.◌∷◌ c s) e h = h

-- A printed number reads back.
pub read-decimal : (n : ℕ) → read (decimal n) ≡ some n
unfolding decimal
read-decimal n =
    read_nonempty (text (digits (suc n) n)) (digits-IsNonempty n n)
      (read_from-digits (suc n) n (omega arith))
