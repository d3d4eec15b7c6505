-- ===== src/Goals/Grow.antt =====
-- `opened` of engine/core/state/goals.ts: the tree with one child more is well formed.
use alive_next.Prelude.{
  ◌+◌, ◌<◌, none, some, [], ◌∷◌, ◌++◌, ◌≡◌, refl, sym, ◌∙◌, ap, subst, arith, In, max, inl, inr,
  ◌⊎◌, ◌≢◌, some-eq, Option-cases, In-append_left, In-append_right, In-append_inv,
}
use alive_next.Prelude.Dict
use alive_next.Prelude.Dict.{get-set_self, get-set_ne, get-set_cases, str_cases}
use alive_next.Trajectory.{Half}
use alive_next.Goals.Types.{GoalId, Goal, Tree, open_, Role, Made, ok}
use alive_next.Goals.Queries.{number}
use alive_next.Goals.Moves.{put, name, opened}
use alive_next.Goals.Restatus.{ok-injective}
use alive_next.Goals.Wf.{IsWf}

-- The child that `opened` makes of goal `parent`.
abbrev pub newborn : Goal → Half → Role → Made → Goal
newborn parent half role made = record {
  id = half.gid;
  parent = some parent.id;
  role = some role;
  made = made;
  src = record { history = half.src ∷ [] };
  tgt = record { history = half.tgt ∷ [] };
  status = open_;
  children = [];
}

abbrev pub with_child : Goal → GoalId → Goal
with_child parent n = record parent { children = parent.children ++ n ∷ [] }

abbrev pub grown : Tree → GoalId → Goal → Half → Role → Made → Tree
grown t k p half role made =
    let t' = put (put t half.gid (newborn p half role made)) k (with_child p half.gid) in
    record t' { next_goal = max t.next_goal (number half.gid + 1) }

module _ (t : Tree) (k : GoalId) (p : Goal) (half : Half) (role : Role) (made : Made) where
  pub opened-eq_ok :
      {t' : Tree} {p' : Goal}
      → opened t k p half role made ≡ ok (t', p')
      → (Dict.get t.goals half.gid ≡ none)
        × (name (name (grown t k p half role made) half.src) half.tgt ≡ t')
        × (with_child p half.gid ≡ p')
  unfolding opened
  opened-eq_ok h = elim (Option-cases (Dict.get t.goals half.gid)) [
    | inl e ↦ let same = ok-injective (rw (e, opened) at h) in (e, cc (same), cc (same))
    | inr (g, e) ↦ cc (rw (e, opened) at h)
  ]

module _ (t : Tree) (k : GoalId) (p : Goal) (half : Half) (role : Role) (made : Made) (w : IsWf t)
    (held : Dict.get t.goals k ≡ some p) (fresh : Dict.get t.goals half.gid ≡ none) where
  abbrev u : Tree
  u = grown t k p half role made

  pub k-ne-gid : k ≢ half.gid
  k-ne-gid e = cc (held, ap (Dict.get t.goals) e, fresh)

  pub get-parent : Dict.get u.goals k ≡ some (with_child p half.gid)
  unfolding put
  get-parent = get-set_self _ k _

  pub get-child : Dict.get u.goals half.gid ≡ some (newborn p half role made)
  unfolding put
  get-child = get-set_ne _ k half.gid _ k-ne-gid ∙ get-set_self t.goals half.gid _

  pub get-other : (j : GoalId) → k ≢ j → half.gid ≢ j → Dict.get u.goals j ≡ Dict.get t.goals j
  unfolding put
  get-other j a b = get-set_ne _ k j _ a ∙ get-set_ne t.goals half.gid j _ b

  -- What a goal of the grown tree is.
  pub grown-cases :
      (j : GoalId) (g : Goal)
      → Dict.get u.goals j ≡ some g
      → ((k ≡ j) × (with_child p half.gid ≡ g))
        ⊎ (((half.gid ≡ j) × (newborn p half role made ≡ g)) ⊎ (Dict.get t.goals j ≡ some g))
  unfolding put
  grown-cases j g h = elim (get-set_cases _ k j _ g h) [
    | inl e ↦ inl e
    | inr (_, h') ↦ elim (get-set_cases t.goals half.gid j _ g h') [
      | inl e ↦ inr (inl e)
      | inr (_, h'') ↦ inr (inr h'')
    ]
  ]

  -- What becomes of a goal of the tree.
  grown-there :
      (j : GoalId) (g : Goal)
      → Dict.get t.goals j ≡ some g
      → (h : Goal) × (Dict.get u.goals j ≡ some h)
        × (h.parent ≡ g.parent)
        × ((c : GoalId) → In c g.children → In c h.children)
  grown-there j g h = elim (str_cases k j) [
    | inl e ↦
        let same : p ≡ g = some-eq (sym held ∙ ap (Dict.get t.goals) e ∙ h) in
        (
          with_child p half.gid,
          subst (λ x. Dict.get u.goals x ≡ some (with_child p half.gid)) e get-parent,
          ap (λ (x : Goal). x.parent) same,
          λ c m. In-append_left c p.children (half.gid ∷ []) (rw same m),
        )
    | inr n ↦ (g, get-other j n (λ e. cc (h, ap (Dict.get t.goals) e, fresh)) ∙ h, refl, λ c m. m)
  ]

  grown-kids :
      (j : GoalId) (g : Goal) (c : GoalId)
      → Dict.get u.goals j ≡ some g
      → In c g.children
      → (h : Goal) × (Dict.get u.goals c ≡ some h) × (h.parent ≡ some j)
  grown-kids j g c h m = elim (grown-cases j g h) [
    | inl (e, same) ↦
        elim (In-append_inv c p.children (half.gid ∷ [])
          (subst (λ (x : Goal). In c x.children) (sym same) m)) [
            | inl old ↦
                let (y, f, q) = w.kids k p c held old in
                let (y', f', q', _) = grown-there c y f in (y', f', q' ∙ q ∙ ap some e)
            | inr (inl e') ↦ (
              newborn p half role made,
              subst (λ x. Dict.get u.goals x ≡ some (newborn p half role made)) e' get-child,
              ap some (w.named k p held ∙ e),
            )
            | inr (inr no_more) ↦ absurd no_more
          ]
    | inr (inl (e, same)) ↦ absurd (subst (λ (x : Goal). In c x.children) (sym same) m)
    | inr (inr h') ↦
        let (y, f, q) = w.kids j g c h' m in
        let (y', f', q', _) = grown-there c y f in (y', f', q' ∙ q)
  ]

  grown-up :
      (j : GoalId) (g : Goal) (q : GoalId)
      → Dict.get u.goals j ≡ some g
      → g.parent ≡ some q
      → (h : Goal) × (Dict.get u.goals q ≡ some h) × In j h.children
  grown-up j g q h m = elim (grown-cases j g h) [
    | inl (e, same) ↦
        let (y, f, i) = w.up k p q held (ap (λ (x : Goal). x.parent) same ∙ m) in
        let (y', f', _, more) = grown-there q y f in
        (y', f', more j (subst (λ x. In x y.children) e i))
    | inr (inl (e, same)) ↦
        let above : k ≡ q =
          sym (w.named k p held) ∙ some-eq (ap (λ (x : Goal). x.parent) same ∙ m) in
        (
          with_child p half.gid,
          subst (λ x. Dict.get u.goals x ≡ some (with_child p half.gid)) above get-parent,
          subst (λ x. In x (p.children ++ half.gid ∷ [])) e
              (In-append_right half.gid p.children (half.gid ∷ []) (inl refl)),
        )
    | inr (inr h') ↦
        let (y, f, i) = w.up j g q h' m in
        let (y', f', _, more) = grown-there q y f in (y', f', more j i)
  ]

  grown-rising :
      number k < number half.gid
      → (j : GoalId) (g : Goal) (c : GoalId) → Dict.get u.goals j ≡ some g
      → In c g.children
      → number j < number c
  grown-rising rises j g c h m = elim (grown-cases j g h) [
    | inl (e, same) ↦
        elim (In-append_inv c p.children (half.gid ∷ [])
          (subst (λ (x : Goal). In c x.children) (sym same) m)) [
            | inl old ↦ subst (λ x. number x < number c) e (w.rising k p c held old)
            | inr (inl e') ↦ rw (← e, ← e') rises
            | inr (inr no_more) ↦ absurd no_more
          ]
    | inr (inl (e, same)) ↦ absurd (subst (λ (x : Goal). In c x.children) (sym same) m)
    | inr (inr h') ↦ w.rising j g c h' m
  ]

  pub grown-IsWf : number k < number half.gid → IsWf u
  unfolding put
  grown-IsWf rises = record {
    named = λ j g h. elim (grown-cases j g h) [
      | inl (e, same) ↦ ap (λ (x : Goal). x.id) (sym same) ∙ w.named k p held ∙ e
      | inr (inl (e, same)) ↦ ap (λ (x : Goal). x.id) (sym same) ∙ e
      | inr (inr h') ↦ w.named j g h'
    ];
    kids = grown-kids;
    up = grown-up;
    top = let (g, h, q) = w.top in let (g', h', q', _) = grown-there t.root g h in (g', h', q' ∙ q);
    only = λ j g h m. elim (grown-cases j g h) [
      | inl (e, same) ↦ sym e ∙ w.only k p held (ap (λ (x : Goal). x.parent) same ∙ m)
      | inr (inl (e, same)) ↦ cc (ap (λ (x : Goal). x.parent) same, m)
      | inr (inr h') ↦ w.only j g h' m
    ];
    numbered = λ j g h. elim (grown-cases j g h) [
      | inl (e, same) ↦ subst (λ x. number x < u.next_goal) e (omega (arith, w.numbered k p held))
      | inr (inl (e, same)) ↦ subst (λ x. number x < u.next_goal) e (omega arith)
      | inr (inr h') ↦ omega (arith, w.numbered j g h')
    ];
    rising = grown-rising rises;
  }
