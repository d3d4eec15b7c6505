-- ===== src/Trajectory/Chain.antt =====
-- engine/core/state/trajectory.ts: the file as a chain of lines. A text is the list of its code
-- units. `sha256` of engine/core/state/hash.ts and JSON are parameters: the source only calls them.
use Prim.Native.Nat.{ℕ}
use alive_next.Prelude.{
  Bool, true, false, Option, none, some, List, [], ◌∷◌, ◌++◌, ◌+◌, nat_eq, if◌then◌else◌, get_last?,
  ◌==◌,
}
use alive_next.Trajectory.{Hash, Event, Entry}

abbrev pub Text : Type 0
Text = List ℕ

-- What the source calls: the hash of a text, and JSON's print and parse.
pub record Codec : Type 0 where
  pub sha256 : Text → Hash
  pub stringify : Entry → Text
  pub parse_json : Text → Option Entry

abbrev pub genesis : Hash
genesis = ""

pub data TrajectoryBroken : Type 0 where
  not_json : ℕ → TrajectoryBroken
  out_of_chain : ℕ → Hash → Hash → TrajectoryBroken

pub data Parsed : Type 0 where
  entries : List Entry → Parsed
  broken : TrajectoryBroken → Parsed

-- `text.split("\n")`: the text before the first newline, and the lines after it.
unfoldable pub split_from : Text → Text → List Text
split_from line [] = line ∷ []
split_from line (c ∷ cs) =
    if nat_eq c 10 then line ∷ split_from [] cs else split_from (line ++ c ∷ []) cs

unfoldable pub split_lines : Text → List Text
unfolding split_from
split_lines text = split_from [] text

unfoldable pub is_empty : Text → Bool
is_empty [] = true
is_empty (c ∷ cs) = false

-- The lines that are not empty.
unfoldable pub lines_of : List Text → List Text
unfolding is_empty
lines_of [] = []
lines_of (l ∷ ls) = if is_empty l then lines_of ls else l ∷ lines_of ls

-- A trajectory: the text of its file, if there is one, and the hash that the next line continues.
pub record Trajectory : Type 0 where
  pub file : Option Text
  pub last : Hash

abbrev pub contents : Option Text → Text
contents none = []
contents (some text) = text

module _ (codec : Codec) where
  open codec use {sha256, stringify, parse_json}

  -- The loop of `parse`: the number of the last line, the hash expected next, the entries so far.
  unfoldable pub parse_lines : List Text → ℕ → Hash → List Entry → Parsed
  parse_lines [] number expected done = entries done
  parse_lines (line ∷ lines) number expected done = elim (parse_json line) [
    | none ↦ broken (not_json (number + 1))
    | some entry ↦
        let rest = parse_lines lines (number + 1) (sha256 line) (done ++ entry ∷ []) in
        if entry.prev == expected
        then rest
        else broken (out_of_chain (number + 1) entry.prev expected)
  ]

  -- Parse and verify a trajectory's text.
  unfoldable pub parse : Text → Parsed
  unfolding parse_lines lines_of split_lines
  parse text = parse_lines (lines_of (split_lines text)) 0 genesis []

  abbrev pub hash_of : Option Text → Hash
  hash_of none = genesis
  hash_of (some line) = sha256 line

  unfoldable pub last_hash_of : Text → Hash
  unfolding lines_of split_lines
  last_hash_of text = hash_of (get_last? (lines_of (split_lines text)))

  -- The constructor: a file that has lines is continued.
  unfoldable pub open_at : Option Text → Trajectory
  unfolding last_hash_of
  open_at none = record { file = none; last = genesis }
  open_at (some text) = record { file = some text; last = last_hash_of text }

  unfoldable pub append : Trajectory → Event → ℕ → Trajectory × Entry
  append t event now =
      let entry : Entry = record { event = event; time = now; prev = t.last } in
      let line = stringify entry in
      (record { file = some (contents t.file ++ (line ++ 10 ∷ [])); last = sha256 line }, entry)

  unfoldable pub read : Trajectory → Parsed
  unfolding parse
  read t = elim t.file [ none ↦ entries [] | some text ↦ parse text ]

  -- Appends the events at their times, one after the other.
  unfoldable pub append_all : Trajectory → List (Event × ℕ) → Trajectory × List Entry
  append_all t [] = (t, [])
  append_all t ((event, now) ∷ rest) =
      let (t', entry) = append t event now in
      let (t'', written) = append_all t' rest in (t'', entry ∷ written)
