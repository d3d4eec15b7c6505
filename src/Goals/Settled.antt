-- ===== src/Goals/Settled.antt =====
-- What it takes for a goal of engine/core/state/goals.ts to be proved through its children, and
-- how `settle` and `unsettle` keep to it.
use alive_next.Prelude.{
  ℕ, zero, suc, Bool, true, false, ◌&&◌, Option, none, some, List, [], ◌∷◌, ◌≡◌, ◌≢◌, refl, sym,
  ◌∙◌, ap, subst, arith, In, all, inl, inr, ◌⊎◌, some-eq,
}
use alive_next.Prelude.Dict
use alive_next.Prelude.Dict.{get-set_cases, get-set_self, str_cases}
use alive_next.Goals.Types.{GoalId, Goal, Tree, Status, open_, proved, ok, same_status}
use alive_next.Goals.Queries.{find}
use alive_next.Goals.Moves.{put, fuel, unsettle, settle, find_all, is_proved, editable}
use alive_next.Goals.Restatus.{
  >>=-eq_ok, ok-injective, find-eq_ok, undone, reopened, same_status-eq, unsettle_step-eq_ok,
  settle_step-eq_ok, put-IsRestatus, editable-eq_ok,
}
use alive_next.Goals.Wf.{IsWf, IsSameShape-IsWf, IsRestatus-IsSameShape}

-- Every child of a proved goal is proved, `x` excepted.
abbrev pub SettledBut : GoalId → Tree → Type 0
SettledBut x t =
    (k : GoalId) (g : Goal) (c : GoalId) (h : Goal)
    → Dict.get t.goals k ≡ some g
    → g.status ≡ proved
    → In c g.children
    → Dict.get t.goals c ≡ some h
    → (h.status ≡ proved) ⊎ (c ≡ x)

abbrev pub KidsProved : Tree → Goal → Type 0
KidsProved t g =
    (c : GoalId) (h : Goal) → In c g.children → Dict.get t.goals c ≡ some h → h.status ≡ proved

-- Every child of a proved goal is proved.
pub record IsSettled (t : Tree) : Type 0 where
  pub at :
      (k : GoalId) (g : Goal) → Dict.get t.goals k ≡ some g → g.status ≡ proved → KidsProved t g

pub put-cases :
    (t : Tree) (k : GoalId) (g' : Goal) (j : GoalId) (g : Goal)
    → Dict.get (put t k g').goals j ≡ some g
    → ((k ≡ j) × (g' ≡ g)) ⊎ ((k ≢ j) × (Dict.get t.goals j ≡ some g))
unfolding put
put-cases t k g' j g h = get-set_cases t.goals k j g' g h

status-eq : {g h : Goal} {s : Status} → g ≡ h → g.status ≡ s → h.status ≡ s
status-eq e q = sym (ap (λ (x : Goal). x.status) e) ∙ q

-- A goal that is not proved may change in any way that does not make it so.
pub put-IsSettled :
    (t : Tree) (k : GoalId) (g g' : Goal)
    → IsSettled t
    → Dict.get t.goals k ≡ some g
    → g.status ≢ proved
    → g'.status ≢ proved
    → IsSettled (put t k g')
put-IsSettled t k g g' s held n n' = record {
  at = λ j x e p c h m f. elim (put-cases t k g' j x e) [
    | inl (_, same) ↦ absurd (n' (status-eq (sym same) p))
    | inr (_, e') ↦ elim (put-cases t k g' c h f) [
      | inl (here, same) ↦
          absurd (n (s.at j x e' p c g m (ap (Dict.get t.goals) (sym here) ∙ held)))
      | inr (_, f') ↦ s.at j x e' p c h m f'
    ]
  ];
}

-- A goal whose children are proved may become proved.
pub prove-IsSettled :
    (t : Tree) (k : GoalId) (g : Goal)
    → IsSettled t
    → KidsProved t g
    → IsSettled (put t k (record g { status = proved }))
prove-IsSettled t k g s kids = record {
  at = λ j x e p c h m f. elim (put-cases t k done c h f) [
    | inl (_, same) ↦ status-eq same refl
    | inr (_, f') ↦ elim (put-cases t k done j x e) [
      | inl (_, same) ↦ kids c h (subst (λ (y : Goal). In c y.children) (sym same) m) f'
      | inr (_, e') ↦ s.at j x e' p c h m f'
    ]
  ];
}
  where
    done : Goal
    done = record g { status = proved }

pub find_all-proved :
    (t : Tree) (ks : List GoalId) (gs : List Goal) (c : GoalId) (h : Goal)
    → find_all t ks ≡ ok gs
    → all is_proved gs ≡ true
    → In c ks
    → Dict.get t.goals c ≡ some h
    → h.status ≡ proved
unfolding find_all
find_all-proved t [] gs c h found a m f = absurd m
find_all-proved t (k ∷ ks) gs c h found a m f =
    let (g, e, rest) = >>=-eq_ok (find t k) _ found in
    let (gs', e', done) = >>=-eq_ok (find_all t ks) _ rest in
    let both =
      and2 (is_proved g) (all is_proved gs') (ap (all is_proved) (ok-injective done) ∙ a) in
    elim m [
      | inl same ↦
          status-eq (some-eq (sym (find-eq_ok t k e) ∙ ap (Dict.get t.goals) same ∙ f))
            (same_status-eq g.status proved both.0)
      | inr i ↦ find_all-proved t ks gs' c h e' both.1 i f
    ]
  where
    and2 : (x y : Bool) → (x && y) ≡ true → (x ≡ true) × (y ≡ true)
    and2 x y e = ground arith

-- `settle` proves a goal only when its children are.
pub settle-IsSettled :
    (f : ℕ) (t : Tree) (p : Option GoalId) {t' : Tree}
    → IsSettled t
    → settle f t p ≡ ok t'
    → IsSettled t'
unfolding settle
settle-IsSettled f t none s h = subst IsSettled (ok-injective h) s
settle-IsSettled zero t (some k) s h = cc
settle-IsSettled (suc f) t (some k) s h =
    let (g, held, rest) = settle_step-eq_ok (settle f) t k h in
    elim rest [
      | inl e ↦ subst IsSettled e s
      | inr (cs, _, found, a, up) ↦
          settle-IsSettled f (put t k (record g { status = proved })) g.parent
            (prove-IsSettled t k g s (λ c x m e. find_all-proved t g.children cs c x found a m e))
            up
    ]

undone-ne : (g : Goal) → (undone g).status ≢ proved
undone-ne g e = ground arith

kid-parent :
    (t : Tree) (k : GoalId) (g : Goal) (c x : GoalId) (y : Goal)
    → IsWf t
    → Dict.get t.goals k ≡ some g
    → In c g.children
    → c ≡ x
    → Dict.get t.goals x ≡ some y
    → y.parent ≡ some k
kid-parent t k g c x y w held m same there =
    let (z, f, q) = w.kids k g x held (subst (λ v. In v g.children) same m) in
    rw (some-eq (sym there ∙ f)) q

-- Undoing the parent of the exception makes the parent the exception.
undone-SettledBut :
    (t : Tree) (k : GoalId) (g : Goal) (x : GoalId) (y : Goal)
    → IsWf t
    → SettledBut x t
    → Dict.get t.goals x ≡ some y
    → y.parent ≡ some k
    → SettledBut k (put t k (undone g))
undone-SettledBut t k g x y w s there top j u c z e q m f = elim (put-cases t k (undone g) j u e) [
  | inl (_, same) ↦ absurd (undone-ne g (status-eq (sym same) q))
  | inr (ne, e') ↦ elim (put-cases t k (undone g) c z f) [
    | inl (here, _) ↦ inr (sym here)
    | inr (_, f') ↦ elim (s j u c z e' q m f') [
      | inl done ↦ inl done
      | inr same ↦ absurd (ne (some-eq (sym top ∙ kid-parent t j u c x y w e' m same there)))
    ]
  ]
]

-- The goals above an exception are undone until none is left.
pub unsettle-IsSettled :
    (f : ℕ) (t : Tree) (p : Option GoalId) (x : GoalId) (y : Goal) {t' : Tree}
    → IsWf t
    → SettledBut x t
    → Dict.get t.goals x ≡ some y
    → y.parent ≡ p
    → unsettle f t p ≡ ok t'
    → IsSettled t'
unfolding unsettle
unsettle-IsSettled f t none x y w s there top h = subst IsSettled (ok-injective h) (record {
  at = λ k g e q c z m e'. elim (s k g c z e q m e') [
    | inl done ↦ done
    | inr same ↦ cc (kid-parent t k g c x y w e m same there, top)
  ];
})
unsettle-IsSettled zero t (some k) x y w s there top h = cc
unsettle-IsSettled (suc f) t (some k) x y w s there top h =
    let (g, held, rest) = unsettle_step-eq_ok (unsettle f) t k h in
    elim rest [
      | inl (n, e) ↦ subst IsSettled e (record {
        at = λ j u e q c z m e'. elim (s j u c z e q m e') [
          | inl done ↦ done
          | inr same ↦ absurd (still g held n j u e q c m same)
        ];
      })
      | inr (_, up) ↦
          unsettle-IsSettled f (put t k (undone g)) g.parent k (undone g)
            (IsSameShape-IsWf (IsRestatus-IsSameShape (put-IsRestatus t k g (undone g).status held))
              w)
            (undone-SettledBut t k g x y w s there top)
            (unfold put in get-set_self t.goals k (undone g)) refl up
    ]
  where
    still :
        (g : Goal)
        → Dict.get t.goals k ≡ some g
        → same_status g.status proved ≡ false
        → (j : GoalId) (u : Goal) → Dict.get t.goals j ≡ some u
        → u.status ≡ proved
        → (c : GoalId) → In c u.children
        → c ≡ x
        → ⊥
    still g held n j u e q c m same =
        let above : k ≡ j = some-eq (sym top ∙ kid-parent t j u c x y w e m same there) in
        cc (n, status-eq (some-eq (sym e ∙ ap (Dict.get t.goals) (sym above) ∙ held)) q)

-- `editable` reopens a proved goal, and undoes what its proof settled above it.
pub editable-IsSettled :
    (t : Tree) (k : GoalId) {t' : Tree} {g' : Goal}
    → IsWf t
    → IsSettled t
    → editable t k ≡ ok (t', g')
    → IsSettled t'
editable-IsSettled t k w s h =
    let (g, held, rest) = editable-eq_ok t k h in
    elim rest [
      | inl (_, e, _) ↦ subst IsSettled e s
      | inr (_, up, _) ↦
          unsettle-IsSettled (fuel t) (put t k (reopened g)) g.parent k (reopened g)
            (IsSameShape-IsWf (IsRestatus-IsSameShape (put-IsRestatus t k g open_ held)) w)
            (λ j u c z e q m f. elim (put-cases t k (reopened g) j u e) [
              | inl (_, same) ↦ absurd (open-ne (status-eq (sym same) q))
              | inr (_, e') ↦ elim (put-cases t k (reopened g) c z f) [
                | inl (here, _) ↦ inr (sym here)
                | inr (_, f') ↦ inl (s.at j u e' q c z m f')
              ]
            ])
            (unfold put in get-set_self t.goals k (reopened g)) refl up
    ]
  where
    open-ne : open_ ≢ proved
    open-ne e = cc
