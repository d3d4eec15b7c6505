-- ===== src/Steps/Params.antt =====
-- engine/core/refs.ts, and engine/core/state/steps.ts on what a precondition names: a value of the
-- program that the step opens on, as a parameter of the window. A position is written in digits; the
-- other spellings of a number that JavaScript reads, as `#0x1`, are no positions here.
mod Predicates
unfoldable pub use Predicates.{param_name, all_over}
use Prim.Native.Char.{Char, code}
use alive_next.Prelude.{
  ℕ, zero, suc, ltb, nat_eq, String, Bool, true, false, not, ◌&&◌, ◌||◌, Option, none, some, List,
  [], ◌∷◌, if◌then◌else◌, any, ◌==◌, length,
}
use alive_next.Prelude.Decimal.{decimal, read}
use alive_next.Trajectory.{Attrs, Operand, name, number, Comparison, Predicate, insts, compares}
use alive_next.Drivers.{LlopsResult, answer, refusal, NumberResult, Instruction, OutlineParam}
use alive_next.Splits.{concat}

abbrev is_sigil : Char → Bool
is_sigil c = nat_eq (code c) b'%' || nat_eq (code c) b'#'

-- The value a slot number or a name refers to.
unfoldable pub named_ref : String → String
named_ref String.[] = "%"
named_ref (String.◌∷◌ c s) = if is_sigil c then String.◌∷◌ c s else String.◌∷◌ "%" (String.◌∷◌ c s)

-- Array.prototype.findIndex
unfoldable pub find_index {ℓ} : {A : Type ℓ} → (A → Bool) → List A → Option ℕ
find_index p [] = none
find_index p (x ∷ xs) =
    let later = find_index p xs in
    if p x then some 0 else elim later [ none ↦ none | some i ↦ some (suc i) ]

abbrev same_text : Option String → String → Bool
same_text none s = false
same_text (some t) s = t == s

abbrev index_written : String → Option ℕ
index_written String.[] = some 0
index_written (String.◌∷◌ c s) = read (String.◌∷◌ c s)

abbrev within : ℕ → Option ℕ → Option ℕ
within n none = none
within n (some i) = if ltb i n then some i else none

abbrev by_value : List Instruction → String → Option ℕ
by_value body clean = find_index (λ (i : Instruction). same_text i.value clean) body

-- The index of the instruction a reference names.
unfoldable pub resolve_ref : List Instruction → String → Option ℕ
unfolding named_ref find_index
resolve_ref body String.[] = by_value body (named_ref String.[])
resolve_ref body (String.◌∷◌ c s) =
    if nat_eq (code c) b'#'
    then within (length body) (index_written s)
    else by_value body (named_ref (String.◌∷◌ c s))

unfoldable pub nth_value : List Instruction → ℕ → Option String
nth_value [] n = none
nth_value (i ∷ is) zero = i.value
nth_value (i ∷ is) (suc n) = nth_value is n

abbrev pub value_at : List Instruction → Option ℕ → Option String
value_at body none = none
value_at body (some i) = nth_value body i

-- The value that the outer has where the program that is opened on has the reference.
unfoldable pub outer_value :
    LlopsResult NumberResult → LlopsResult NumberResult → String → Option String
unfolding resolve_ref nth_value
outer_value (answer raw) (answer outer) ref = value_at outer.body (resolve_ref raw.body ref)
outer_value _ _ ref = none

-- The window's parameter that a reference names, by the parameter's own name or by the outer's.
unfoldable pub param_named :
    LlopsResult NumberResult → LlopsResult NumberResult → List OutlineParam → String → Option ℕ
unfolding outer_value named_ref find_index
param_named raw outer params ref =
    find_index
      (λ (p : OutlineParam).
        (p.live == named_ref ref) || same_text (outer_value raw outer ref) p.live)
      params

-- A record with a number for its key lists its keys in order, each of them once.
unfoldable pub set_fact : ℕ → Attrs → List (ℕ × Attrs) → List (ℕ × Attrs)
set_fact k fact [] = (k, fact) ∷ []
set_fact k fact ((j, held) ∷ rest) =
    let later = set_fact k fact rest in
    if nat_eq k j
    then (k, fact) ∷ rest
    else if ltb k j
    then (k, fact) ∷ (j, held) ∷ rest
    else (j, held) ∷ later

abbrev set_if : Option ℕ → Attrs → List (ℕ × Attrs) → List (ℕ × Attrs)
set_if none fact facts = facts
set_if (some k) fact facts = set_fact k fact facts

-- The facts by the parameters they are of, the ones that name none left out.
unfoldable pub map_facts :
    (String → Option ℕ) → List (ℕ × Attrs) → List (String × Attrs) → List (ℕ × Attrs)
unfolding set_fact
map_facts param_of facts [] = facts
map_facts param_of facts ((ref, fact) ∷ rest) =
    map_facts param_of (set_if (param_of ref) fact facts) rest
