-- ===== src/Transactions/Scratch.antt =====
-- The scratch program of engine/core/state/transactions.ts over every order of its operations.
use alive_next.Prelude.{
  String, Bool, true, false, Option, none, some, List, [], ◌∷◌, ◌++◌, ◌≡◌, refl, ap, subst, inl,
  inr, Bool-cases, ◌==◌,
}
use alive_next.Trajectory.{Side}
use alive_next.Goals.Types.{GoalId, Tree}
use alive_next.Goals.Queries.{workable, head}
use alive_next.Failure.{Attempt, thrown, done, >>=-eq_done, done-injective, lift}
use alive_next.Drivers.{LlopsResult, answer, refusal, ModuleResult, OptResult, EditOp, OptOp}
use alive_next.Store.{Disk, Tools, get}
use alive_next.Transactions.{
  Op, edited, optimized, Transaction, EditResult, begin, abort, require, edit, edit_with, opt,
  opt_with, kept_op, Editor, CheckStepResult, certified, not_certified, left,
}

module _ (tools : Tools) (editor : Editor) where
  -- A program that llops made of `start`, op by op.
  pub data Made (start : String) : String → List Op → Type 0 where
    begun : Made start start []
    by_edit :
        {text : String} {ops : List Op} (op : EditOp) (r : ModuleResult)
        → Made start text ops
        → editor.edit text op ≡ answer r
        → Made start r.module_text (ops ++ edited op ∷ [])
    by_opt :
        {text : String} {ops : List Op} (op : OptOp) (r : OptResult)
        → Made start text ops
        → editor.opt text op ≡ answer r
        → Made start r.module_text (ops ++ optimized (kept_op op r.stage) ∷ [])

  -- The scratch is what its ops made of the program it opened on, which a store held.
  pub record IsScratch (x : Transaction) : Type 0 where
    pub disk : Disk
    pub start : String
    pub held : get tools disk x.from ≡ done start
    pub made : Made start x.text x.ops

  -- One call of the class on its field `current`: an operation that throws leaves it, and a commit
  -- leaves what `left` says of its result, whatever that is.
  pub data Call : Option Transaction → Option Transaction → Type 0 where
    begins :
        {x : Transaction} (disk : Disk) (current : Option Transaction) (tree : Tree) (gid : GoalId)
        (side : Side)
        → begin tools disk current tree gid side ≡ done x
        → Call current (some x)
    edits :
        {x : Transaction} (current : Option Transaction) (op : EditOp) (answered : EditResult)
        → edit editor current op ≡ done (x, answered)
        → Call current (some x)
    opts :
        {x : Transaction} (current : Option Transaction) (op : OptOp) (answered : EditResult)
        → opt editor current op ≡ done (x, answered)
        → Call current (some x)
    commits :
        (x : Transaction) (imm_abort : Bool) (result : Attempt CheckStepResult)
        → Call (some x) (left imm_abort x result)
    aborts :
        {after : Option Transaction} (current : Option Transaction) (x : Transaction)
        → abort current ≡ done (after, x)
        → Call current after

  -- What calls lead to from no open transaction.
  pub data Reached : Option Transaction → Type 0 where
    nothing : Reached none
    call : {a b : Option Transaction} → Reached a → Call a b → Reached b

  AllScratch : Option Transaction → Type 0
  AllScratch none = Unit {0}
  AllScratch (some x) = IsScratch x

  begin-IsScratch :
      (disk : Disk) (current : Option Transaction) (tree : Tree) (gid : GoalId) (side : Side)
      {x : Transaction}
      → begin tools disk current tree gid side ≡ done x
      → IsScratch x
  unfolding begin
  begin-IsScratch disk (some y) tree gid side e = cc
  begin-IsScratch disk none tree gid side e =
      let (goal, _, e1) = >>=-eq_done (lift (workable tree gid)) _ e in
      let (from, _, e2) = >>=-eq_done (lift (head goal side)) _ e1 in
      let (text, held, e3) = >>=-eq_done (get tools disk from) _ e2 in
      subst IsScratch (done-injective e3)
        (record { disk = disk; start = text; held = held; made = begun })

  require-eq_done :
      (current : Option Transaction) {x : Transaction} → require current ≡ done x → current ≡ some x
  unfolding require
  require-eq_done none e = cc
  require-eq_done (some x) e = ap some (done-injective e)

  edit_with-IsScratch :
      (x : Transaction) (op : EditOp) (r : LlopsResult ModuleResult)
      → editor.edit x.text op ≡ r
      → IsScratch x
      → IsScratch (edit_with x op r).0
  unfolding edit_with
  edit_with-IsScratch x op (refusal code message) e i = i
  edit_with-IsScratch x op (answer r) e i = record {
    disk = i.disk;
    start = i.start;
    held = i.held;
    made = by_edit op r i.made e;
  }

  opt_with-IsScratch :
      (x : Transaction) (op : OptOp) (r : LlopsResult OptResult)
      → editor.opt x.text op ≡ r
      → IsScratch x
      → IsScratch (opt_with x op r).0
  opt_with-IsScratch x op (refusal code message) e i = unfold opt_with in i
  opt_with-IsScratch x op (answer r) e i = elim (Bool-cases (r.module_text == x.text)) [
    | inl same ↦ unfold opt_with in rw (same, opt_with) i
    | inr new ↦
        unfold opt_with in
        rw (new, opt_with)
          (record { disk = i.disk; start = i.start; held = i.held; made = by_opt op r i.made e })
  ]

  left-AllScratch :
      (imm_abort : Bool) (x : Transaction) (r : Attempt CheckStepResult)
      → IsScratch x
      → AllScratch (left imm_abort x r)
  unfolding left AllScratch
  left-AllScratch true x r i = tt
  left-AllScratch false x (thrown f) i = i
  left-AllScratch false x (done (certified d)) i = tt
  left-AllScratch false x (done (not_certified d)) i = i

  some-AllScratch :
      {current : Option Transaction} {x : Transaction}
      → current ≡ some x
      → AllScratch current
      → IsScratch x
  unfolding AllScratch
  some-AllScratch e i = subst AllScratch e i

  Call-AllScratch : {a b : Option Transaction} → Call a b → AllScratch a → AllScratch b
  unfolding AllScratch edit opt abort
  Call-AllScratch (begins disk current tree gid side e) i =
      begin-IsScratch disk current tree gid side e
  Call-AllScratch (edits current op answered e) i =
      let (x, open_on, rest) = >>=-eq_done (require current) _ e in
      subst IsScratch (ap (λ (p : Transaction × EditResult). p.0) (done-injective rest)) (
        edit_with-IsScratch x op (editor.edit x.text op) refl
          (some-AllScratch (require-eq_done current open_on) i))
  Call-AllScratch (opts current op answered e) i =
      let (x, open_on, rest) = >>=-eq_done (require current) _ e in
      subst IsScratch (ap (λ (p : Transaction × EditResult). p.0) (done-injective rest)) (
        opt_with-IsScratch x op (editor.opt x.text op) refl
          (some-AllScratch (require-eq_done current open_on) i))
  Call-AllScratch (commits x imm_abort result) i = left-AllScratch imm_abort x result i
  Call-AllScratch (aborts current x e) i =
      let (y, _, rest) = >>=-eq_done (require current) _ e in
      subst AllScratch (ap (λ (p : Option Transaction × Transaction). p.0) (done-injective rest)) tt

  Reached-AllScratch : {a : Option Transaction} → Reached a → AllScratch a
  unfolding AllScratch
  Reached-AllScratch nothing = tt
  Reached-AllScratch (call r c) = Call-AllScratch c (Reached-AllScratch r)

  -- After any calls, an open transaction's scratch program is what llops made, op by op in the order
  -- kept, of the program it opened on.
  pub Reached-IsScratch : (x : Transaction) → Reached (some x) → IsScratch x
  unfolding AllScratch
  Reached-IsScratch x r = Reached-AllScratch r
