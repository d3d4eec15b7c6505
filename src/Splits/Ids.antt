-- ===== src/Splits/Ids.antt =====
-- The effects that interpose.ts and cases.ts of engine/core/state make take the next ids of the tree, so
-- the tree stays well formed when they are applied.
use alive_next.Prelude.{
  String, List, false, [], ◌∷◌, ◌≡◌, ◌≢◌, refl, sym, ap, subst, inl, inr, Option-cases, Bool-cases,
  ◌||◌, ◌==◌, eq_iff, arith, Bool,
}
use alive_next.Trajectory.{Hash, Effect, CaseOn}
use alive_next.Trajectory.Side.{src, tgt}
use alive_next.Goals.Types.{GoalId, Goal, Tree, ok}
use alive_next.Goals.Queries.{workable, head, next_goal_ids}
use alive_next.Goals.Derive.{apply}
use alive_next.Goals.Wf.{IsWf}
use alive_next.Goals.Ids.{TakesNext, apply-IsWf_next}
use alive_next.Failure.{Attempt, done, >>=-eq_done, done-injective, lift, lift-eq_done}
use alive_next.Store.{Disk, Tools, get, put, hash_of}
use alive_next.Store.Kept.{put-hash_of}
use alive_next.Splits.{
  Llops, MoveResult, moved, refused, is_a_side, DefinedIn, function, unreadable, outside_shape,
  TwoPairs, pairs, no_pairs, defined_in, same_function, interpose_at, interpose, by_case, cases_of,
  cases_in, cases,
}

-- A move that splits a goal in two.
pub data SplitMove : Type 0 where
  interposes : String → SplitMove
  by_cases : CaseOn → SplitMove

unfoldable pub make_split :
    Tools → Llops → Disk → Tree → GoalId → SplitMove → Attempt (Disk × MoveResult)
unfolding interpose cases
make_split tools llops disk tree gid (interposes program) =
    interpose tools llops disk tree gid program
make_split tools llops disk tree gid (by_cases on) = cases tools llops disk tree gid on

-- A goal that a move may touch, its src's program and its tgt's.
pub record IsAt (tree : Tree) (gid : GoalId) (goal : Goal) (s t : Hash) : Type 0 where
  pub workable_is : workable tree gid ≡ ok goal
  pub src_is : head goal src ≡ ok s
  pub tgt_is : head goal tgt ≡ ok t

module _ (tools : Tools) (llops : Llops) (disk : Disk) (tree : Tree) (gid : GoalId) where
  -- The effect of a split: the children take the ids, and are the goal's sides with the program
  -- between, which is neither, or the pairs made of the goal's for the two cases.
  abbrev pub IsSplitBy : SplitMove → GoalId → GoalId → Effect → Type 0
  IsSplitBy (interposes program) l r e =
      (goal : Goal) × (s mid t : Hash) × IsAt tree gid goal s t
      × (hash_of tools program ≡ done mid)
      × (mid ≢ s)
      × (mid ≢ t)
      × (e
          ≡ Effect.interpose gid (record { gid = l; src = s; tgt = mid })
              (record { gid = r; src = mid; tgt = t }))
  IsSplitBy (by_cases on) l r e =
      (goal : Goal) × (disk' : Disk) × (text fn : String) × (hs ht fs ft : Hash) × (workable tree
          gid
        ≡ ok goal)
      × (by_case tools llops disk goal text fn on ≡ done (disk', pairs hs ht fs ft))
      × (e
          ≡ Effect.case gid on (record { gid = l; src = hs; tgt = ht })
              (record { gid = r; src = fs; tgt = ft }))

  -- One effect, of the move's kind, and the children are the tree's next ids.
  abbrev IsMade : SplitMove → MoveResult → Type 0
  IsMade m (refused why) = Unit {0}
  IsMade m (moved l r effects) =
      ((l, r) ≡ next_goal_ids tree) × ((e : Effect) × (effects ≡ e ∷ []) × IsSplitBy m l r e)

  answer-IsMade :
      (m : SplitMove) (r : MoveResult) (d : Disk) {disk' : Disk} {r' : MoveResult}
      → ◌≡◌ {A = Attempt (Disk × MoveResult)} (done (d, r)) (done (disk', r'))
      → IsMade m r
      → IsMade m r'
  answer-IsMade m r d e made =
      subst (IsMade m) (ap (λ (p : Disk × MoveResult). p.1) (done-injective e)) made

  neither_side : (mid s t : Hash) → (mid == s) || (mid == t) ≡ false → (mid ≢ s) × (mid ≢ t)
  neither_side mid s t e =
      let (a, b) = neither (mid == s) (mid == t) e in
      (λ same. cc (a, (eq_iff mid s).1 same), λ same. cc (b, (eq_iff mid t).1 same))
    where
      neither : (a b : Bool) → a || b ≡ false → (a ≡ false) × (b ≡ false)
      neither a b e = ground arith

  interpose_at-IsMade :
      (goal : Goal) (s t : Hash) (program : String) {disk' : Disk} {r : MoveResult}
      → IsAt tree gid goal s t
      → interpose_at tools disk tree gid s t program ≡ done (disk', r)
      → IsMade (interposes program) r
  unfolding interpose_at
  interpose_at-IsMade goal s t program at e =
      let ((d, mid), stored, rest) = >>=-eq_done (put tools disk program) _ e in
      elim (Bool-cases ((mid == s) || (mid == t))) [
        | inl side ↦ answer-IsMade (interposes program) (refused is_a_side) d (rw side at rest) tt
        | inr new ↦
            let (not_src, not_tgt) = neither_side mid s t new in
            answer-IsMade (interposes program) _ d (rw new at rest) (
              refl,
              (
                _,
                refl,
                (
                  goal,
                  s,
                  mid,
                  t,
                  at,
                  put-hash_of tools disk program stored,
                  not_src,
                  not_tgt,
                  refl,
                ),
              ),
            )
      ]

  interpose-IsMade :
      (program : String) {disk' : Disk} {r : MoveResult}
      → interpose tools llops disk tree gid program ≡ done (disk', r)
      → IsMade (interposes program) r
  unfolding interpose
  interpose-IsMade program e =
      let (goal, there, e1) = >>=-eq_done (lift (workable tree gid)) _ e in
      let (s, of_src, e2) = >>=-eq_done (lift (head goal src)) _ e1 in
      let (t, of_tgt, e3) = >>=-eq_done (lift (head goal tgt)) _ e2 in
      let (text, _, e4) = >>=-eq_done (get tools disk s) _ e3 in
      elim (Option-cases
        (same_function (defined_in (llops.validate text)) (defined_in (llops.validate program)))) [
          | inl same ↦
              interpose_at-IsMade goal s t program
                (record {
                  workable_is = lift-eq_done _ there;
                  src_is = lift-eq_done _ of_src;
                  tgt_is = lift-eq_done _ of_tgt;
                })
                (rw same at e4)
          | inr (why, apart) ↦
              answer-IsMade (interposes program) (refused why) disk (rw apart at e4) tt
        ]

  cases_in-IsMade :
      (goal : Goal) (text : String) (on : CaseOn) (fn : DefinedIn) {disk' : Disk} {r : MoveResult}
      → workable tree gid ≡ ok goal
      → cases_in tools llops disk tree gid goal text on fn ≡ done (disk', r)
      → IsMade (by_cases on) r
  unfolding cases_in
  cases_in-IsMade goal text on (function n type) there e =
      let ((d, made), by, rest) = >>=-eq_done (by_case tools llops disk goal text n on) _ e in
      answer-IsMade (by_cases on) (cases_of tree gid on made) d rest (of_pairs d made by)
    where
      of_pairs :
          (d : Disk) (made : TwoPairs)
          → by_case tools llops disk goal text n on ≡ done (d, made)
          → IsMade (by_cases on) (cases_of tree gid on made)
      of_pairs d (no_pairs why) by = tt
      of_pairs d (pairs hs ht fs ft) by =
          (refl, (_, refl, (goal, d, text, n, hs, ht, fs, ft, there, by, refl)))
  cases_in-IsMade goal text on (unreadable message) there e =
      answer-IsMade (by_cases on) (refused _) disk e tt
  cases_in-IsMade goal text on (outside_shape diagnostics) there e =
      answer-IsMade (by_cases on) (refused _) disk e tt

  make_split-IsMade :
      (m : SplitMove) {disk' : Disk} {r : MoveResult}
      → make_split tools llops disk tree gid m ≡ done (disk', r)
      → IsMade m r
  unfolding make_split cases
  make_split-IsMade (interposes program) e = interpose-IsMade program e
  make_split-IsMade (by_cases on) e =
      let (goal, there, e1) = >>=-eq_done (lift (workable tree gid)) _ e in
      let (s, _, e2) = >>=-eq_done (lift (head goal src)) _ e1 in
      let (text, _, e3) = >>=-eq_done (get tools disk s) _ e2 in
      cases_in-IsMade goal text on (defined_in (llops.validate text)) (lift-eq_done _ there) e3

  -- The effect of a split whose children are the next ids takes them.
  IsSplitBy-TakesNext :
      (m : SplitMove) (l r : GoalId) (e : Effect)
      → (l, r) ≡ next_goal_ids tree
      → IsSplitBy m l r e
      → TakesNext tree e
  IsSplitBy-TakesNext (interposes program) l r e ids (goal, s, mid, t, _, _, _, _, is) =
      subst (TakesNext tree) (sym is) ids
  IsSplitBy-TakesNext (by_cases on) l r e ids (goal, d, text, fn, hs, ht, fs, ft, _, _, is) =
      subst (TakesNext tree) (sym is) ids

-- An interpose or a split by cases that is made answers the tree's next ids and one effect, of its own
-- kind, that gives them to the two children. An interpose's children are the goal's src with the
-- program, by its hash, and the program with the goal's tgt, the program being neither of the two; the
-- children of a split by cases are the pairs that are made for the cases. A well-formed tree to which
-- the effect is applied stays well formed.
pub splits-IsWf :
    (tools : Tools) (llops : Llops) (disk : Disk) (tree : Tree) (gid : GoalId) (m : SplitMove)
    (disk' : Disk) (l r : GoalId) (effects : List Effect)
    → IsWf tree
    → make_split tools llops disk tree gid m ≡ done (disk', moved l r effects)
    → ((l, r) ≡ next_goal_ids tree)
      × ((e : Effect) × (effects ≡ e ∷ [])
          × IsSplitBy tools llops disk tree gid m l r e
          × TakesNext tree e
          × ((tree' : Tree) → apply tree e ≡ ok tree' → IsWf tree'))
splits-IsWf tools llops disk tree gid m disk' l r effects w made =
    let (ids, (e, one, split)) = make_split-IsMade tools llops disk tree gid m made in
    let takes = IsSplitBy-TakesNext tools llops disk tree gid m l r e ids split in
    (ids, (e, one, split, takes, λ tree' h. apply-IsWf_next tree e tree' w takes h))
