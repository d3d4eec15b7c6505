-- ===== src/Store.antt =====
-- engine/core/state/store.ts: the program store. The directory is what its program files hold, under
-- the hash in each name, and what its temporary files hold; the two kinds of names end differently.
-- `sha256` and the canonicalizer are parameters: the source is given them.
pub mod Kept
use alive_next.Prelude.{String, Bool, true, false, Option, none, some, if◌then◌else◌, ◌==◌}
use alive_next.Prelude.Dict
use alive_next.Prelude.Dict.{Dict}
use alive_next.Trajectory.{Hash}
use alive_next.Failure.{
  Failure, canon_refused, store_corrupt, no_file, Attempt, thrown, done, ◌>>=◌,
}
use alive_next.Drivers.{LlopsResult, answer, refusal, ModuleResult}

pub record Disk : Type 0 where
  pub programs : Dict String
  pub partials : Dict String

-- What a store is built on: the hash, and `llops canon`.
pub record Tools : Type 0 where
  pub sha256 : String → Hash
  pub canon : String → LlopsResult ModuleResult

-- `canonWith`
unfoldable pub canonicalize : Tools → String → Attempt String
canonicalize tools text = elim (tools.canon text) [
  | refusal code message ↦ thrown (canon_refused code message)
  | answer r ↦ done r.module_text
]

-- `writeFileSync` of the temporary file, and `renameSync` of it.
unfoldable pub write_partial : Disk → Hash → String → Disk
write_partial disk hash text = record disk { partials = Dict.set disk.partials hash text }

unfoldable pub rename : Disk → Hash → Disk
rename disk hash = elim (Dict.get disk.partials hash) [
  | none ↦ disk
  | some text ↦ record disk {
    programs = Dict.set disk.programs hash text;
    partials = Dict.delete disk.partials hash;
  }
]

abbrev is_some {ℓ} : {A : Type ℓ} → Option A → Bool
is_some none = false
is_some (some a) = true

unfoldable pub has : Disk → Hash → Bool
has disk hash = is_some (Dict.get disk.programs hash)

unfoldable pub put : Tools → Disk → String → Attempt (Disk × Hash)
unfolding canonicalize has rename write_partial
put tools disk text = do
  canonical ← canonicalize tools text
  let hash = tools.sha256 canonical
  if has disk hash
      then done (disk, hash)
      else done (rename (write_partial disk hash canonical) hash, hash)

-- The hash `put` would answer for a program, without storing it.
unfoldable pub hash_of : Tools → String → Attempt Hash
unfolding canonicalize
hash_of tools text = do canonical ← canonicalize tools text; done (tools.sha256 canonical)

-- The program with this hash, or a throw when it is absent or altered.
unfoldable pub get : Tools → Disk → Hash → Attempt String
get tools disk hash = elim (Dict.get disk.programs hash) [
  | none ↦ thrown (no_file hash)
  | some text ↦ if tools.sha256 text == hash then done text else thrown (store_corrupt hash)
]
