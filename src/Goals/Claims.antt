-- ===== src/Goals/Claims.antt =====
-- What the goals of engine/core/state/goals.ts claim, over an abstract refinement of programs, and
-- what the tree knows of those claims.
use alive_next.Prelude.{
  some, List, [], ◌∷◌, ◌++◌, ◌≡◌, ◌≢◌, refl, sym, ◌∙◌, ap, subst, In, inl, inr, some-eq, head?,
  get_last?,
}
use alive_next.Prelude.Dict
use alive_next.Trajectory.{Hash, Side, src, tgt}
use alive_next.Goals.Types.{GoalId, Goal, Tree, open_, proved, split, refuted}
use alive_next.Goals.Moves.{put}
use alive_next.Prelude.Dict.{str_cases, get-set_self, get-set_ne}
use alive_next.Goals.Settled.{put-cases}

-- That one program refines another: what is asked of it is that a run of checks can be joined.
pub record Refinement : Type 1 where
  pub refines : Hash → Hash → Type 0
  pub same : (h : Hash) → refines h h
  pub through : (a b c : Hash) → refines a b → refines b c → refines a c

-- One program at least, each of them related to the next.
abbrev pub Chain : (Hash → Hash → Type 0) → List Hash → Type 0
Chain R [] = ⊥
Chain R (x ∷ []) = Unit {0}
Chain R (x ∷ y ∷ xs) = R x y × Chain R (y ∷ xs)

pub head?-append : (xs ys : List Hash) {a : Hash} → head? xs ≡ some a → head? (xs ++ ys) ≡ some a
head?-append [] ys e = cc (e)
head?-append (x ∷ xs) ys e = e

pub head?-prefix :
    (before after : List Hash) (h : Hash) {a : Hash}
    → head? (before ++ h ∷ after) ≡ some a
    → head? (before ++ h ∷ []) ≡ some a
head?-prefix [] after h e = e
head?-prefix (x ∷ before) after h e = e

module _ (R : Hash → Hash → Type 0) where
  pub Chain-append :
      (xs : List Hash) (b : Hash)
      → Chain R xs
      → ((a : Hash) → get_last? xs ≡ some a → R a b)
      → Chain R (xs ++ b ∷ [])
  Chain-append [] b c last = elim c [ ]
  Chain-append (x ∷ []) b c last = (last x refl, tt)
  Chain-append (x ∷ y ∷ xs) b c last = (c.0, Chain-append (y ∷ xs) b c.1 last)

  pub Chain-prefix :
      (xs : List Hash) (h : Hash) (ys : List Hash) → Chain R (xs ++ h ∷ ys) → Chain R (xs ++ h ∷ [])
  Chain-prefix [] h ys c = tt
  Chain-prefix (x ∷ []) h ys c = (chain_first h ys c, tt)
    where
      chain_first : (h : Hash) (ys : List Hash) → Chain R (x ∷ h ∷ ys) → R x h
      chain_first h ys c = c.0
  Chain-prefix (x ∷ y ∷ xs) h ys c = (c.0, Chain-prefix (y ∷ xs) h ys c.1)

  pub Chain-head : (xs : List Hash) → Chain R xs → (a : Hash) × (head? xs ≡ some a)
  Chain-head [] c = elim c [ ]
  Chain-head (x ∷ xs) c = (x, refl)

  pub Chain-ends :
      (xs : List Hash) (a b : Hash)
      → ((h : Hash) → R h h)
      → ((x y z : Hash) → R x y → R y z → R x z)
      → Chain R xs
      → head? xs ≡ some a
      → get_last? xs ≡ some b
      → R a b
  Chain-ends [] a b same through c first last = cc (first)
  Chain-ends (x ∷ []) a b same through c first last =
      subst (R a) (some-eq (sym first ∙ last)) (same a)
  Chain-ends (x ∷ y ∷ xs) a b same through c first last =
      through a y b (subst (λ v. R v y) (some-eq first) c.0)
        (Chain-ends (y ∷ xs) y b same through c.1 refl last)

-- A side of a goal starts where it did.
abbrev pub Starts : Goal → Goal → Type 0
Starts g g' =
    ((a : Hash) → head? g.src.history ≡ some a → head? g'.src.history ≡ some a)
    × ((a : Hash) → head? g.tgt.history ≡ some a → head? g'.tgt.history ≡ some a)

pub same-Starts : (g g' : Goal) → g'.src ≡ g.src → g'.tgt ≡ g.tgt → Starts g g'
same-Starts g g' s q = (λ a h. rw s h, λ a h. rw q h)

last-some : (xs : List Hash) (a : Hash) → head? xs ≡ some a → (b : Hash) × (get_last? xs ≡ some b)
last-some [] a e = cc (e)
last-some (x ∷ []) a e = (x, refl)
last-some (x ∷ y ∷ xs) a e = last-some (y ∷ xs) y refl

pub get-put : (t : Tree) (k : GoalId) (g : Goal) → Dict.get (put t k g).goals k ≡ some g
unfolding put
get-put t k g = get-set_self t.goals k g

pub get-put_ne :
    (t : Tree) (k j : GoalId) (g : Goal) → k ≢ j → Dict.get (put t k g).goals j ≡ Dict.get t.goals j
unfolding put
get-put_ne t k j g ne = get-set_ne t.goals k j g ne

module _ (r : Refinement) where
  -- The pair that a goal is at refines, and the pair that it started with does.
  abbrev pub Claim : Goal → Type 0
  Claim g =
      (s q : Hash)
      → get_last? g.src.history ≡ some s
      → get_last? g.tgt.history ≡ some q
      → r.refines s q

  abbrev pub First : Goal → Type 0
  First g =
      (s q : Hash) → head? g.src.history ≡ some s → head? g.tgt.history ≡ some q → r.refines s q

  -- A step on a side moves from one program to another in the direction of the side.
  abbrev pub Moves : Side → Hash → Hash → Type 0
  Moves src a b = r.refines a b
  Moves tgt a b = r.refines b a

  abbrev pub Chains : Goal → Type 0
  Chains g = Chain (Moves src) g.src.history × Chain (Moves tgt) g.tgt.history

  abbrev pub KidsFirst : Tree → Goal → Type 0
  KidsFirst t g = (c : GoalId) (h : Goal) → In c g.children → Dict.get t.goals c ≡ some h → First h

  -- What is known of a goal: its sides are chains of moves; proved, its pair refines; split, it does
  -- if its children's first pairs do; refuted, its first pair does not.
  pub record IsKnown (t : Tree) (g : Goal) : Type 0 where
    pub chains : Chains g
    pub proves : g.status ≡ proved → Claim g
    pub splits : g.status ≡ split → KidsFirst t g → Claim g
    pub refutes : g.status ≡ refuted → First g → ⊥

  pub record IsEarned (t : Tree) : Type 0 where
    pub known : (k : GoalId) (g : Goal) → Dict.get t.goals k ≡ some g → IsKnown t g

  -- Where the sides are chains, a goal whose pair refines started with one that does.
  pub Claim-First : (g : Goal) → Chains g → Claim g → First g
  Claim-First g chains claim s q at_src at_tgt =
      let (s', last_src) = last-some g.src.history s at_src in
      let (q', last_tgt) = last-some g.tgt.history q at_tgt in
      let forward =
        Chain-ends (Moves src) g.src.history s s' r.same r.through chains.0 at_src last_src in
      let back =
        Chain-ends (Moves tgt) g.tgt.history q q' r.same (λ x y z a b. r.through z y x b a) chains.1
          at_tgt last_tgt in
      r.through s s' q forward (r.through s' q' q (claim s' q' last_src last_tgt) back)

  pub Starts-First : (g g' : Goal) → Starts g g' → First g' → First g
  Starts-First g g' starts first s q a b = first s q (starts.0 s a) (starts.1 q b)

  -- A goal that is neither proved, split nor refuted is known by its chains.
  pub open-IsKnown : (t : Tree) (g : Goal) → g.status ≡ open_ → Chains g → IsKnown t g
  open-IsKnown t g o c = record {
    chains = c;
    proves = λ e. cc (o, e);
    splits = λ e. cc (o, e);
    refutes = λ e. cc (o, e);
  }

  -- A goal that stays is known if each of its children stays, and starts where it did.
  pub stays-IsKnown :
      (t u : Tree) (g : Goal)
      → ((c : GoalId) (h : Goal)
          → In c g.children
          → Dict.get t.goals c ≡ some h
          → (h' : Goal) × (Dict.get u.goals c ≡ some h') × Starts h h')
      → IsKnown t g
      → IsKnown u g
  stays-IsKnown t u g stay i = record {
    chains = i.chains;
    proves = i.proves;
    splits = λ e kids. i.splits e λ c h m there.
        let (h', f, starts) = stay c h m there in Starts-First h h' starts (kids c h' m f);
    refutes = i.refutes;
  }

  -- Changing a goal that starts where it did, to one that is known, leaves the others known.
  module _ (t : Tree) (k : GoalId) (g g' : Goal) (held : Dict.get t.goals k ≡ some g)
      (starts : Starts g g') where
    put-IsKnown : (x : Goal) → IsKnown t x → IsKnown (put t k g') x
    put-IsKnown x i =
        stays-IsKnown t (put t k g') x
          (λ c y m there. elim (str_cases k c) [
            | inl here ↦ (
              g',
              subst (λ z. Dict.get (put t k g').goals z ≡ some g') here (get-put t k g'),
              subst (λ z. Starts z g') (some-eq (sym held ∙ ap (Dict.get t.goals) here ∙ there))
                  starts,
            )
            | inr ne ↦ (y, get-put_ne t k c g' ne ∙ there, same-Starts y y refl refl)
          ])
          i

    pub put-IsEarned : IsKnown t g' → IsEarned t → IsEarned (put t k g')
    put-IsEarned i e = record {
      known = λ j x h. elim (put-cases t k g' j x h) [
        | inl (_, same) ↦ put-IsKnown x (subst (IsKnown t) same i)
        | inr (_, h') ↦ put-IsKnown x (e.known j x h')
      ];
    }
