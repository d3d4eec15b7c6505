-- ===== src/Goals/Roots.antt =====
-- engine/core/state/goals.ts: the root of a tree stays, and starts at the pair that it started with.
use alive_next.Prelude.{
  ◌<◌, Bool, Option, none, some, ◌≡◌, refl, sym, ◌∙◌, ap, subst, some-eq, inl, inr, Bool-cases,
  ◌&&◌,
}
use alive_next.Prelude.Dict
use alive_next.Prelude.Dict.{str_cases}
use alive_next.Trajectory.{Hash, Half}
use alive_next.Goals.Types.{GoalId, Goal, Tree, Role, Made, split, ok, same_status, DerivationError}
use alive_next.Goals.Moves.{put, name, opened, reopen}
use alive_next.Goals.Queries.{find, number}
use alive_next.Goals.Derive.{split_in_two, undo}
use alive_next.Goals.Restatus.{IsRestatus, IsRestatused, ok-injective, >>=-eq_ok, find-eq_ok}
use alive_next.Goals.Wf.{IsWf, goals-name, root-name}
use alive_next.Goals.Grow.{newborn, with_child, grown, opened-eq_ok}
use alive_next.Goals.Split.{opened-IsWf}
use alive_next.Goals.Reopen.{childless, reopen-eq_ok, top_stays, itself}
use alive_next.Goals.Claims.{Starts, same-Starts, get-put, get-put_ne}

-- The root is the same, and each of its sides starts where it did.
pub record IsRootKept (t u : Tree) : Type 0 where
  pub root : u.root ≡ t.root
  pub top :
      (g : Goal)
      → Dict.get t.goals t.root ≡ some g
      → (g' : Goal) × (Dict.get u.goals t.root ≡ some g') × Starts g g'

pub goals-IsRootKept : (t u : Tree) → u.root ≡ t.root → u.goals ≡ t.goals → IsRootKept t u
goals-IsRootKept t u root same = record {
  root = root;
  top = λ g h. (g, subst (λ d. Dict.get d t.root ≡ some g) (sym same) h, same-Starts g g refl refl);
}

pub IsRootKept-trans : {a b c : Tree} → IsRootKept a b → IsRootKept b c → IsRootKept a c
IsRootKept-trans {a} {b} {c} p q = record {
  root = q.root ∙ p.root;
  top = λ g h.
      let (g', h', s) = p.top g h in
      let (g'', h'', s') = q.top g' (subst (λ k. Dict.get b.goals k ≡ some g') (sym p.root) h') in
      (
        g'',
        subst (λ k. Dict.get c.goals k ≡ some g'') p.root h'',
        ((λ x e. s'.0 x (s.0 x e)), (λ x e. s'.1 x (s.1 x e))),
      );
}

pub name-IsRootKept : (t : Tree) (h : Hash) → IsRootKept t (name t h)
name-IsRootKept t h = goals-IsRootKept t (name t h) (root-name t h) (goals-name t h)

pub restatus-IsRootKept : {t u : Tree} → IsRestatus t u → IsRootKept t u
restatus-IsRootKept {t} {u} i = record {
  root = i.root;
  top = λ g h. there (Dict.get t.goals t.root) (Dict.get u.goals t.root) g (i.at t.root) h;
}
  where
    there :
        (o o' : Option Goal) (g : Goal)
        → IsRestatused o o'
        → o ≡ some g
        → (g' : Goal) × (o' ≡ some g') × Starts g g'
    there none o' g r e = cc (e)
    there (some x) none g r e = elim r [ ]
    there (some x) (some x') g r e = (
      x',
      refl,
      same-Starts g x' (ap (λ (y : Goal). y.src) r ∙ ap (λ (y : Goal). y.src) (some-eq e))
          (ap (λ (y : Goal). y.tgt) r ∙ ap (λ (y : Goal). y.tgt) (some-eq e)),
    )

pub put-IsRootKept :
    (t : Tree) (k : GoalId) (g g' : Goal)
    → Dict.get t.goals k ≡ some g
    → Starts g g'
    → IsRootKept t (put t k g')
unfolding put
put-IsRootKept t k g g' held starts = record {
  root = refl;
  top = λ x h. elim (str_cases k t.root) [
    | inl here ↦ (
      g',
      subst (λ z. Dict.get (put t k g').goals z ≡ some g') here (get-put t k g'),
      subst (λ z. Starts z g') (some-eq (sym held ∙ ap (Dict.get t.goals) here ∙ h)) starts,
    )
    | inr ne ↦ (x, get-put_ne t k t.root g' ne ∙ h, same-Starts x x refl refl)
  ];
}

-- A new goal is none that was there.
put_new-IsRootKept :
    (t : Tree) (k : GoalId) (g' : Goal) → Dict.get t.goals k ≡ none → IsRootKept t (put t k g')
unfolding put
put_new-IsRootKept t k g' fresh = record {
  root = refl;
  top = λ x h. (
    x,
    get-put_ne t k t.root g' (λ same. cc (h, ap (Dict.get t.goals) same, fresh)) ∙ h,
    same-Starts x x refl refl,
  );
}

module _ (t : Tree) (k : GoalId) (p : Goal) (half : Half) (role : Role) (made : Made) {t' : Tree}
    {p' : Goal} (w : IsWf t) (held : Dict.get t.goals k ≡ some p)
    (h : opened t k p half role made ≡ ok (t', p')) where
  opened-IsRootKept : IsRootKept t t'
  opened-IsRootKept =
      let (fresh, e, _) = opened-eq_ok t k p half role made h in
      let v = put t half.gid (newborn p half role made) in
      let u = grown t k p half role made in
      subst (IsRootKept t) e (
        IsRootKept-trans (put_new-IsRootKept t half.gid (newborn p half role made) fresh) (
          IsRootKept-trans
            (put-IsRootKept v k p (with_child p half.gid)
              (get-put_ne t half.gid k _ (λ same. cc (held, ap (Dict.get t.goals) same, fresh))
                ∙ held)
              (same-Starts p (with_child p half.gid) refl refl))
            (IsRootKept-trans (goals-IsRootKept (put v k (with_child p half.gid)) u refl refl) (
              IsRootKept-trans (name-IsRootKept u half.src)
                (name-IsRootKept (name u half.src) half.tgt)))))

pub split_in_two-IsRootKept :
    (t : Tree) (k : GoalId) (p : Goal) (a : Half) (ra : Role) (b : Half) (rb : Role) (made : Made)
    {t' : Tree}
    → IsWf t
    → Dict.get t.goals k ≡ some p
    → number k < number a.gid
    → number k < number b.gid
    → split_in_two t k p a ra b rb made ≡ ok t'
    → IsRootKept t t'
unfolding split_in_two
split_in_two-IsRootKept t k p a ra b rb made w held low high h =
    let ((u, q), first, rest) = >>=-eq_ok (opened t k p a ra made) _ h in
    let ((v, x), second, done) = >>=-eq_ok (opened u k q b rb made) _ rest in
    let (w1, held1) = opened-IsWf t k p a ra made w held low first in
    let (w2, held2) = opened-IsWf u k q b rb made w1 held1 high second in
    subst (IsRootKept t) (ok-injective done) (
      IsRootKept-trans (opened-IsRootKept t k p a ra made w held first) (
        IsRootKept-trans (opened-IsRootKept u k q b rb made w1 held1 second) (
          put-IsRootKept v k x (record x { status = split }) held2
            (same-Starts x (record x { status = split }) refl refl))))

reopen-IsRootKept :
    (t : Tree) (k : GoalId) (p : Goal) {t' : Tree}
    → IsWf t
    → Dict.get t.goals k ≡ some p
    → reopen t k p ≡ ok t'
    → IsRootKept t t'
reopen-IsRootKept t k p w held h =
    let (u, cut, same) = reopen-eq_ok t k p w h in
    let (g, at_root, top) = w.top in
    let kept : IsRootKept t u = record {
      root = cut.root;
      top = λ x there. (
        x,
        subst (λ y. Dict.get u.goals t.root ≡ some y) (some-eq (sym at_root ∙ there))
            (top_stays t k p u w held cut g at_root top),
        same-Starts x x refl refl,
      );
    } in
    subst (IsRootKept t) same (
      IsRootKept-trans kept (
        put-IsRootKept u k p (childless p) (itself t k p u w held cut)
          (same-Starts p (childless p) refl refl)))

pub undo-IsRootKept :
    (t : Tree) (k : GoalId) (fits : Tree → Goal → Bool) (why : DerivationError) {t' : Tree}
    → IsWf t
    → undo t k fits why ≡ ok t'
    → IsRootKept t t'
unfolding undo
undo-IsRootKept t k fits why w h =
    let (p, found, rest) = >>=-eq_ok (find t k) _ h in
    elim (Bool-cases (same_status p.status split && fits t p)) [
      | inl y ↦ reopen-IsRootKept t k p w (find-eq_ok t k found) (rw y at rest)
      | inr n ↦ cc (rw n at rest)
    ]
