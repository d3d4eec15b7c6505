-- ===== src/Splits/Inverse.antt =====
-- The inverse comparisons of engine/core/state/cases.ts against what the comparisons mean.
use alive_next.Prelude.{ℕ, ◌+◌, ◌%◌, Bool, not, ltb, leb, nat_eq, ◌≡◌, refl, arith}
use alive_next.Trajectory.{ComparisonOp, eq, ne, slt, sle, sgt, sge, ult, ule, ugt, uge}
use alive_next.Splits.{inverse}

-- Two integers of as many bits as `half` says, half of the range: with signs, the upper half comes
-- before the lower one.
abbrev flipped : ℕ → ℕ → ℕ
flipped half a = (a + half) % (half + half)

-- What LLVM's icmp answers on integers that are not poison.
abbrev pub icmp : ℕ → ComparisonOp → ℕ → ℕ → Bool
icmp half eq a b = nat_eq a b
icmp half ne a b = not (nat_eq a b)
icmp half slt a b = ltb (flipped half a) (flipped half b)
icmp half sle a b = leb (flipped half a) (flipped half b)
icmp half sgt a b = ltb (flipped half b) (flipped half a)
icmp half sge a b = leb (flipped half b) (flipped half a)
icmp half ult a b = ltb a b
icmp half ule a b = leb a b
icmp half ugt a b = ltb b a
icmp half uge a b = leb b a

not-ltb : (a b : ℕ) → leb b a ≡ not (ltb a b)
not-ltb a b = ground arith

not-leb : (a b : ℕ) → ltb b a ≡ not (leb a b)
not-leb a b = ground arith

not-not : (a : Bool) → a ≡ not (not a)
not-not a = ground arith

-- A comparison's inverse holds exactly where it fails, and its inverse is the comparison again.
pub inverse-exact :
    (half : ℕ) (op : ComparisonOp) (a b : ℕ)
    → (icmp half (inverse op) a b ≡ not (icmp half op a b)) × (inverse (inverse op) ≡ op)
unfolding inverse
inverse-exact half eq a b = (refl, refl)
inverse-exact half ne a b = (not-not (nat_eq a b), refl)
inverse-exact half slt a b = (not-ltb (flipped half a) (flipped half b), refl)
inverse-exact half sle a b = (not-leb (flipped half a) (flipped half b), refl)
inverse-exact half sgt a b = (not-ltb (flipped half b) (flipped half a), refl)
inverse-exact half sge a b = (not-leb (flipped half b) (flipped half a), refl)
inverse-exact half ult a b = (not-ltb a b, refl)
inverse-exact half ule a b = (not-leb a b, refl)
inverse-exact half ugt a b = (not-ltb b a, refl)
inverse-exact half uge a b = (not-leb b a, refl)
