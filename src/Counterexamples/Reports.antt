-- ===== src/Counterexamples/Reports.antt =====
-- What a report of engine/core/state/counterexamples.ts that refutes the root rests on, and what its
-- effect does to the goal tree.
use alive_next.Prelude.{
  ℕ, String, true, Option, none, some, List, [], ◌∷◌, ◌≡◌, ◌≢◌, refl, sym, subst, inl, inr, ◌⊎◌,
  Option-cases, Bool-cases, ◌==◌,
}
use alive_next.Prelude.Dict
use alive_next.Prelude.Dict.{get-set_self}
use alive_next.Trajectory.{Hash}
use alive_next.Trajectory.Side.{src, tgt}
use alive_next.Goals.Types.{Goal, Tree, Status, same_status}
use alive_next.Goals.Restatus.{same_status-eq}
use alive_next.Failure.{done, >>=-eq_done, done-injective}
use alive_next.Drivers.{
  LlopsResult, answer, refusal, InputArg, HarnessResult, CheckResult, CheckOutcome, correct,
  incorrect, unknown, error,
}
use alive_next.Store.{Disk, Tools, get}
use alive_next.Counterexamples.{
  Checkers, ReportResult, refuted_by_alive2, refuted_by_llubi, refused, origin, refuted, divergence,
  report, instantiated, decided, replay, entry, harnessed, with_harness, is_nil, replayed, loops,
  already_proved,
}

-- The check is of the pair at the input.
abbrev pub IsChecked :
    Checkers → String → String → List InputArg → Option ℕ → Option ℕ → CheckResult → Type 0
IsChecked checkers s t input unroll timeout_ms check =
    (s' t' : String) × (checkers.instantiate s t input ≡ answer (s', t'))
    × (checkers.refinement_check s' t' timeout_ms unroll ≡ done check)

-- What a result that refutes claims: alive2 found the pair incorrect at the input, or did not and the
-- runs of the pair's harnesses, of which llubi treats the src's as alive2 does, diverge.
abbrev pub IsBacked :
    Checkers → Goal → String → String → List InputArg → Option ℕ → Option ℕ → ReportResult → Type 0
IsBacked checkers root s t input unroll timeout_ms (refused reason check runs) = Unit {0}
IsBacked checkers root s t input unroll timeout_ms (refuted_by_alive2 effects check) =
    (effects ≡ refuted root)
    × IsChecked checkers s t input unroll timeout_ms check
    × (check.outcome ≡ incorrect)
IsBacked checkers root s t input unroll timeout_ms (refuted_by_llubi effects check runs reason) =
    (effects ≡ refuted root)
    × IsChecked checkers s t input unroll timeout_ms check
    × (check.outcome ≢ incorrect)
    × ((divergence runs.src runs.tgt).confirmed ≡ true)
    × ((a b : HarnessResult) × (checkers.harness s runs.entry input ≡ answer a)
        × (checkers.harness t runs.entry input ≡ answer b)
        × (a.differences ≡ [])
        × (runs.src ≡ checkers.run a.module_text)
        × (runs.tgt ≡ checkers.run b.module_text))

module _ (checkers : Checkers) (root : Goal) (s t : String) (input : List InputArg)
    (unroll timeout_ms : Option ℕ) where
  abbrev Backed : ReportResult → Type 0
  Backed r = IsBacked checkers root s t input unroll timeout_ms r

  module _ (check : CheckResult)
      (checked : IsChecked checkers s t input unroll timeout_ms check) where
    module _ (undecided : check.outcome ≢ incorrect) where
      replayed-IsBacked :
          (name : String) (a b : HarnessResult)
          → checkers.harness s name input ≡ answer a
          → checkers.harness t name input ≡ answer b
          → a.differences ≡ []
          → Backed (replayed checkers root name check a.module_text b.module_text)
      unfolding replayed
      replayed-IsBacked name a b ha hb same =
          elim (Bool-cases
            (divergence (checkers.run a.module_text) (checkers.run b.module_text)).confirmed) [
              | inl found ↦
                  rw found (refl, checked, undecided, found, (a, b, ha, hb, same, refl, refl))
              | inr off ↦ rw off tt
            ]

      harnessed-IsBacked :
          (name : String) (a : HarnessResult) (b : LlopsResult HarnessResult)
          → checkers.harness s name input ≡ answer a
          → checkers.harness t name input ≡ b
          → Backed (harnessed checkers root name check a b)
      unfolding harnessed
      harnessed-IsBacked name a (refusal code message) ha hb =
          elim (Bool-cases (is_nil a.differences)) [ inl same ↦ rw same tt | inr off ↦ rw off tt ]
      harnessed-IsBacked name a (answer b) ha hb = elim (Bool-cases (is_nil a.differences)) [
        | inl same ↦ rw same (replayed-IsBacked name a b ha hb (is_nil-eq a.differences same))
        | inr off ↦ rw off tt
      ]
        where
          is_nil-eq : (xs : List String) → is_nil xs ≡ true → xs ≡ []
          is_nil-eq [] e = refl
          is_nil-eq (x ∷ xs) e = cc

      after_harness :
          (name : String) (a : LlopsResult HarnessResult)
          → checkers.harness s name input ≡ a
          → Backed (with_harness checkers root t input name check a)
      unfolding with_harness
      after_harness name (refusal code message) ha = tt
      after_harness name (answer a) ha =
          harnessed-IsBacked name a (checkers.harness t name input) ha refl

      replay-IsBacked :
          {r : ReportResult} → replay checkers root s t input check ≡ done r → Backed r
      unfolding replay
      replay-IsBacked e =
          let (name, _, e1) = >>=-eq_done (entry checkers s) _ e in
          let (its, _, e2) = >>=-eq_done (entry checkers t) _ e1 in
          elim (Bool-cases (its == name)) [
            | inl same ↦
                subst Backed (done-injective (rw same at e2))
                  (after_harness name (checkers.harness s name input) refl)
            | inr off ↦ subst Backed (done-injective (rw off at e2)) tt
          ]

    decided-IsBacked :
        (o : CheckOutcome) {r : ReportResult}
        → check.outcome ≡ o
        → decided checkers root s t input check o ≡ done r
        → Backed r
    unfolding decided
    decided-IsBacked incorrect at e = subst Backed (done-injective e) (refl, checked, at)
    decided-IsBacked correct at e = elim (Bool-cases (loops checkers s t)) [
      | inl cyclic ↦ replay-IsBacked (λ q. cc (at, q)) (rw cyclic at e)
      | inr straight ↦ subst Backed (done-injective (rw straight at e)) tt
    ]
    decided-IsBacked unknown at e = replay-IsBacked (λ q. cc (at, q)) e
    decided-IsBacked error at e = replay-IsBacked (λ q. cc (at, q)) e

  instantiated-IsBacked :
      (pair : LlopsResult (String × String)) {r : ReportResult}
      → checkers.instantiate s t input ≡ pair
      → instantiated checkers root s t input unroll timeout_ms pair ≡ done r
      → Backed r
  unfolding instantiated
  instantiated-IsBacked (refusal code message) made e = subst Backed (done-injective e) tt
  instantiated-IsBacked (answer (s', t')) made e =
      let (check, asked, e1) =
        >>=-eq_done (checkers.refinement_check s' t' timeout_ms unroll) _ e in
      decided-IsBacked check (s', t', made, asked) check.outcome refl e1

-- A report that comes to a result has a root; either the root is proved and the report refused, or the
-- pair that the root started with is in the store and what the result claims of it is so.
pub report-IsBacked :
    (tools : Tools) (disk : Disk) (checkers : Checkers) (tree : Tree) (input : List InputArg)
    (unroll timeout_ms : Option ℕ) (r : ReportResult)
    → report tools disk checkers tree input unroll timeout_ms ≡ done r
    → (root : Goal) × (Dict.get tree.goals tree.root ≡ some root)
      × (((root.status ≡ Status.proved) × (r ≡ refused (already_proved root.id) none none))
          ⊎ ((a b : Hash) × (s t : String) × (origin root src ≡ done a)
              × (get tools disk a ≡ done s)
              × (origin root tgt ≡ done b)
              × (get tools disk b ≡ done t)
              × IsBacked checkers root s t input unroll timeout_ms r))
unfolding report
report-IsBacked tools disk checkers tree input unroll timeout_ms r e =
    elim (Option-cases (Dict.get tree.goals tree.root)) [
      | inl none_there ↦ cc (rw (none_there, report) at e)
      | inr (root, held) ↦ elim (Bool-cases (same_status root.status Status.proved)) [
        | inl proved_now ↦ (
          root,
          held,
          inl (
            same_status-eq root.status Status.proved proved_now,
            sym (done-injective (rw (held, report, proved_now) at e)),
          ),
        )
        | inr not_proved ↦
            let (a, at_src, e1) =
              >>=-eq_done (origin root src) _ (rw (held, report, not_proved) at e) in
            let (s, held_src, e2) = >>=-eq_done (get tools disk a) _ e1 in
            let (b, at_tgt, e3) = >>=-eq_done (origin root tgt) _ e2 in
            let (t, held_tgt, e4) = >>=-eq_done (get tools disk b) _ e3 in
            (
              root,
              held,
              inr (
                a,
                b,
                s,
                t,
                at_src,
                held_src,
                at_tgt,
                held_tgt,
                instantiated-IsBacked checkers root s t input unroll timeout_ms
                    (checkers.instantiate s t input) refl e4,
              ),
            )
      ]
    ]
