-- ===== src/Steps/Params/Predicates.antt =====
-- engine/core/state/steps.ts, `overParams`: a predicate over the parameters of a window.
use Prim.Native.Char.{Char, code}
use alive_next.Prelude.{
  ℕ, ltb, nat_eq, String, Bool, not, ◌&&◌, ◌||◌, Option, none, some, List, [], ◌∷◌, if◌then◌else◌,
  any, ◌==◌,
}
use alive_next.Prelude.Decimal.{decimal}
use alive_next.Trajectory.{Operand, name, number, Comparison, Predicate, insts, compares}
use alive_next.Splits.{concat}

-- `!N`, which names an argument by its index.
unfoldable pub param_name : ℕ → String
param_name k = String.◌∷◌ "!" (decimal k)

unfoldable pub operand_over : (String → Option ℕ) → Operand → Option Operand
unfolding param_name
operand_over param_of (number n) = some (number n)
operand_over param_of (name ref) = elim (param_of ref) [
  | none ↦ none
  | some k ↦ some (name (param_name k))
]

abbrev with_operands : Comparison → Option Operand → Option Operand → Option Predicate
with_operands c (some l) (some r) = some (compares (record c { lhs = l; rhs = r }))
with_operands c _ _ = none

-- `[-\w$.]`
abbrev is_name_char : Char → Bool
is_name_char c =
    between b'a' b'z' || between b'A' b'Z' || between b'0' b'9' || any (nat_eq (code c)) marks
  where
    between : ℕ → ℕ → Bool
    between lo hi = not (ltb (code c) lo) && not (ltb hi (code c))

    marks : List ℕ
    marks = b'_' ∷ b'-' ∷ b'$' ∷ b'.' ∷ []

-- `\s`, the ASCII ones
abbrev is_space : Char → Bool
is_space c = nat_eq (code c) 32 || (not (ltb (code c) 9) && not (ltb 13 (code c)))

-- A line as its references and what stands between them.
pub data Piece : Type 0 where
  mark : Char → Piece
  ref : String → Piece

-- The reference that is being read comes first: `%` and what has been read of its name.
abbrev finish : Option String → List Piece → List Piece
finish none rest = rest
finish (some String.[]) rest = mark "%" ∷ rest
finish (some (String.◌∷◌ c s)) rest = ref (String.◌∷◌ "%" (String.◌∷◌ c s)) ∷ rest

abbrev begin_at : Char → Option String
begin_at c = if nat_eq (code c) b'%' then some String.[] else none

abbrev grown : Option String → Char → Option String
grown none c = none
grown (some s) c = if is_name_char c then some (concat s (String.◌∷◌ c String.[])) else none

unfoldable pub pieces : Option String → String → List Piece
unfolding concat
pieces reading String.[] = finish reading []
pieces reading (String.◌∷◌ c s) = elim (grown reading c) [
  | some longer ↦ pieces (some longer) s
  | none ↦ elim (begin_at c) [
    | some fresh ↦ finish reading (pieces (some fresh) s)
    | none ↦ finish reading (mark c ∷ pieces none s)
  ]
]

unfoldable pub skip_spaces : List Piece → List Piece
skip_spaces (mark c ∷ rest) =
    let later = skip_spaces rest in if is_space c then later else mark c ∷ rest
skip_spaces rest = rest

abbrev followed_by_eq : String → List Piece → Option String
followed_by_eq s (mark c ∷ rest) = if nat_eq (code c) b'=' then some s else none
followed_by_eq s _ = none

-- The value that a line of IR defines.
unfoldable pub defined_by : List Piece → Option String
unfolding skip_spaces
defined_by line = elim (skip_spaces line) [
  | ref s ∷ rest ↦ followed_by_eq s (skip_spaces rest)
  | _ ↦ none
]

unfoldable pub defined_in_lines : List String → List String
unfolding pieces defined_by
defined_in_lines [] = []
defined_in_lines (line ∷ lines) =
    let later = defined_in_lines lines in
    elim (defined_by (pieces none line)) [ none ↦ later | some s ↦ s ∷ later ]

-- A reference to a value of the predicate's own stands, and another one becomes its parameter.
unfoldable pub ref_over : List String → (String → Option ℕ) → String → Option String
unfolding param_name
ref_over own param_of s =
    if any (λ o. o == s) own
    then some s
    else elim (param_of s) [ none ↦ none | some k ↦ some (param_name k) ]

unfoldable pub line_over : List String → (String → Option ℕ) → List Piece → Option String
unfolding ref_over concat
line_over own param_of [] = some String.[]
line_over own param_of (mark c ∷ rest) = elim (line_over own param_of rest) [
  | none ↦ none
  | some text ↦ some (String.◌∷◌ c text)
]
line_over own param_of (ref s ∷ rest) =
    let later = line_over own param_of rest in
    elim (ref_over own param_of s) [
      | none ↦ none
      | some t ↦ elim later [ none ↦ none | some text ↦ some (concat t text) ]
    ]

unfoldable pub lines_over : List String → (String → Option ℕ) → List String → Option (List String)
unfolding line_over pieces
lines_over own param_of [] = some []
lines_over own param_of (line ∷ lines) =
    let later = lines_over own param_of lines in
    elim (line_over own param_of (pieces none line)) [
      | none ↦ none
      | some text ↦ elim later [ none ↦ none | some texts ↦ some (text ∷ texts) ]
    ]

-- A predicate over a window's parameters, or nothing when a value it names has none.
unfoldable pub over_params : (String → Option ℕ) → Predicate → Option Predicate
unfolding operand_over lines_over defined_in_lines
over_params param_of (compares c) =
    with_operands c (operand_over param_of c.lhs) (operand_over param_of c.rhs)
over_params param_of (insts lines) = elim (lines_over (defined_in_lines lines) param_of lines) [
  | none ↦ none
  | some texts ↦ some (insts texts)
]

-- The predicates mapped, if each of them can be.
unfoldable pub all_over : (String → Option ℕ) → List Predicate → Option (List Predicate)
unfolding over_params
all_over param_of [] = some []
all_over param_of (p ∷ ps) =
    let later = all_over param_of ps in
    elim (over_params param_of p) [
      | none ↦ none
      | some q ↦ elim later [ none ↦ none | some qs ↦ some (q ∷ qs) ]
    ]
