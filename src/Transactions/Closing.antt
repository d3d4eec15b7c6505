-- ===== src/Transactions/Closing.antt =====
-- How a commit of engine/core/state/transactions.ts ends: what is left of the transaction, and what
-- a certified commit rests on.
use alive_next.Prelude.{
  String, Bool, true, false, none, some, ◌≡◌, ◌≢◌, refl, inl, inr, ◌⊎◌, Option-cases, Bool-cases,
}
use alive_next.Goals.Types.{Goal, Tree, ok}
use alive_next.Goals.Queries.{workable, head}
use alive_next.Failure.{Attempt, thrown, done, >>=-eq_done, lift, lift-eq_done}
use alive_next.Store.{Disk, Tools, get}
use alive_next.Transactions.{
  Transaction, CheckStepResult, certified, not_certified, Narrowing, is_why, Checks, CommitOptions,
  narrow_for, check_found, check_commit, left, commit,
}

left-cases :
    (x : Transaction) (r : Attempt CheckStepResult)
    → ((d : String) × (r ≡ done (certified d)) × (left false x r ≡ none))
      ⊎ (((d : String) → r ≢ done (certified d)) × (left false x r ≡ some x))
unfolding left
left-cases x (thrown f) = inr (λ d e. cc e, refl)
left-cases x (done (certified d)) = inl (d, refl, refl)
left-cases x (done (not_certified d)) = inr (λ c e. cc e, refl)

module _ {Window N Options : Type 0} where
  -- A commit that is told to keep a rejected scratch closes the transaction just when the step is
  -- certified, and one that is not told so closes it however it ends.
  pub commit-closes :
      (tools : Tools) (disk : Disk) (checks : Checks Window N Options) (x : Transaction)
      (tree : Tree) (options : CommitOptions Window Options)
      → (((d : String) × ((commit tools disk checks (some x) tree options false).1
              ≡ done (certified d))
            × ((commit tools disk checks (some x) tree options false).0 ≡ none))
          ⊎ (((d : String)
                → (commit tools disk checks (some x) tree options false).1 ≢ done (certified d))
              × ((commit tools disk checks (some x) tree options false).0 ≡ some x)))
        × ((commit tools disk checks (some x) tree options true).0 ≡ none)
  unfolding commit
  commit-closes tools disk checks x tree options =
      (left-cases x (check_commit tools disk checks x tree options), unfold left in refl)

  check_found-certified :
      (checks : Checks Window N Options) (x : Transaction) (tree : Tree)
      (options : CommitOptions Window Options) (found : Narrowing N) {d : String}
      → check_found checks x tree options found ≡ done (certified d)
      → (checks.check_step tree x.gid x.side x.text found options.passed_on ≡ done (certified d))
        × ((options.window ≡ none) ⊎ (is_why found ≡ false))
  unfolding check_found
  check_found-certified checks x tree options found e = elim (Option-cases options.window) [
    | inl n ↦ (rw (n, check_found) at e, inl n)
    | inr (w, s) ↦ elim (Bool-cases (is_why found)) [
      | inl missing ↦ cc (rw (s, check_found, missing) at e)
      | inr there ↦ (rw (s, check_found, there) at e, inr there)
    ]
  ]

  -- A commit that is certified had a workable goal with the before program in the store, and the step
  -- check certified the scratch program as it stood, at a window that outlines if one was asked for.
  pub commit-certified :
      (tools : Tools) (disk : Disk) (checks : Checks Window N Options) (x : Transaction)
      (tree : Tree) (options : CommitOptions Window Options) (imm_abort : Bool) (d : String)
      → (commit tools disk checks (some x) tree options imm_abort).1 ≡ done (certified d)
      → (goal : Goal) × (at : String) × (before : String) × (found : Narrowing N) × (workable tree
            x.gid
          ≡ ok goal)
        × (head goal x.side ≡ ok at)
        × (get tools disk at ≡ done before)
        × (narrow_for checks options before x.text ≡ done found)
        × (checks.check_step tree x.gid x.side x.text found options.passed_on ≡ done (certified d))
        × ((options.window ≡ none) ⊎ (is_why found ≡ false))
  unfolding commit check_commit
  commit-certified tools disk checks x tree options imm_abort d e =
      let (goal, found_goal, e1) = >>=-eq_done (lift (workable tree x.gid)) _ e in
      let (at, found_head, e2) = >>=-eq_done (lift (head goal x.side)) _ e1 in
      let (before, held, e3) = >>=-eq_done (get tools disk at) _ e2 in
      let (found, narrows, e4) = >>=-eq_done (narrow_for checks options before x.text) _ e3 in
      let (checked, window) = check_found-certified checks x tree options found e4 in
      (
        goal,
        at,
        before,
        found,
        lift-eq_done (workable tree x.gid) found_goal,
        lift-eq_done (head goal x.side) found_head,
        held,
        narrows,
        checked,
        window,
      )
