-- ===== src/Store/Kept.antt =====
-- The store of engine/core/state/store.ts keeps what it holds: a program that is put is got back, in
-- whatever order, and no file changes once it is there.
use alive_next.Prelude.{
  String, true, false, none, some, ◌≡◌, refl, sym, ◌∙◌, ap, subst, arith, inl, inr, ◌⊎◌,
  Option-cases, Bool-cases, ◌==◌, eq_iff,
}
use alive_next.Prelude.Dict
use alive_next.Prelude.Dict.{Dict, get-set, get-set_self, get-set_ne, get-set_cases, str_cases}
use alive_next.Trajectory.{Hash}
use alive_next.Failure.{done, ◌>>=◌, >>=-eq_done, done-injective}
use alive_next.Store.{Disk, Tools, canonicalize, write_partial, rename, has, put, get, hash_of}

-- Every program file holds a text that hashes to its name.
pub record IsIntact (tools : Tools) (d : Disk) : Type 0 where
  pub named : (h : Hash) (text : String) → Dict.get d.programs h ≡ some text → tools.sha256 text ≡ h

-- The directory after the rename of a new program.
unfoldable pub added : Disk → Hash → String → Disk
unfolding rename write_partial
added d h text = rename (write_partial d h text) h

pub programs-added :
    (d : Disk) (h : Hash) (text : String) → (added d h text).programs ≡ Dict.set d.programs h text
unfolding added write_partial
programs-added d h text = unfold rename in rw (get-set_self d.partials h text, rename) refl

-- What `put` does, when it answers.
put-eq_done :
    (tools : Tools) (d : Disk) (text : String) {d' : Disk} {h : Hash}
    → put tools d text ≡ done (d', h)
    → (canonical : String) × (canonicalize tools text ≡ done canonical)
      × (tools.sha256 canonical ≡ h)
      × (((has d h ≡ true) × (d ≡ d')) ⊎ ((has d h ≡ false) × (added d h canonical ≡ d')))
unfolding put added
put-eq_done tools d text {d'} {h} e =
    let (c, canon, rest) = >>=-eq_done (canonicalize tools text) _ e in
    elim (Bool-cases (has d (tools.sha256 c))) [
      | inl there ↦
          let same = done-injective (rw there at rest) in
          let name : tools.sha256 c ≡ h = ap (λ (x : Disk × Hash). x.1) same in
          (
            c,
            canon,
            name,
            inl (subst (λ x. has d x ≡ true) name there, ap (λ (x : Disk × Hash). x.0) same),
          )
      | inr new ↦
          let same = done-injective (rw new at rest) in
          let name : tools.sha256 c ≡ h = ap (λ (x : Disk × Hash). x.1) same in
          (
            c,
            canon,
            name,
            inr (
              subst (λ x. has d x ≡ false) name new,
              subst (λ x. added d x c ≡ d') name (ap (λ (x : Disk × Hash). x.0) same),
            ),
          )
    ]

-- The hash that `put` answers is the one that hashOf gives.
pub put-hash_of :
    (tools : Tools) (d : Disk) (text : String) {d' : Disk} {h : Hash}
    → put tools d text ≡ done (d', h)
    → hash_of tools text ≡ done h
unfolding hash_of
put-hash_of tools d text e =
    let (canonical, canon, name, _) = put-eq_done tools d text e in
    ap (λ r. r >>= λ c. done (tools.sha256 c)) canon ∙ ap done name

has-none : (d : Disk) (h : Hash) → has d h ≡ false → Dict.get d.programs h ≡ none
unfolding has
has-none d h e = ground arith

has-some :
    (d : Disk) (h : Hash) → has d h ≡ true → (text : String) × (Dict.get d.programs h ≡ some text)
unfolding has
has-some d h e = elim (Option-cases (Dict.get d.programs h)) [
  | inl n ↦ cc (rw n at e)
  | inr held ↦ held
]

-- A program file that is there keeps its text when a program is put, and so it does when the put
-- stops after the temporary file is written.
pub put-keeps :
    (tools : Tools) (d : Disk) (text : String) (d' : Disk) (h : Hash) (part : Hash) (torn : String)
    → put tools d text ≡ done (d', h)
    → (j : Hash) (held : String) → Dict.get d.programs j ≡ some held
    → (Dict.get d'.programs j ≡ some held)
      × (Dict.get (write_partial d part torn).programs j ≡ some held)
unfolding write_partial
put-keeps tools d text d' h part torn e j held there =
    let (c, _, name, rest) = put-eq_done tools d text e in
    (
      elim rest [
        | inl (_, same) ↦ subst (λ (x : Disk). Dict.get x.programs j ≡ some held) same there
        | inr (new, same) ↦
            subst (λ (x : Disk). Dict.get x.programs j ≡ some held) same
              (rw (programs-added d h c) (
                get-set_ne d.programs h j c
                  (λ k. cc (has-none d h new, there, ap (Dict.get d.programs) k))
                ∙ there))
      ],
      there,
    )

-- Putting a program keeps the directory intact: each program file hashes to its name.
pub put-IsIntact :
    (tools : Tools) (d : Disk) (text : String) (d' : Disk) (h : Hash)
    → IsIntact tools d
    → put tools d text ≡ done (d', h)
    → IsIntact tools d'
put-IsIntact tools d text d' h i e =
    let (c, _, name, rest) = put-eq_done tools d text e in
    elim rest [
      | inl (_, same) ↦ subst (IsIntact tools) same i
      | inr (_, same) ↦ subst (IsIntact tools) same (record {
        named = λ j x held.
            elim (get-set_cases d.programs h j c x (rw (programs-added d h c) at held)) [
              | inl (k, was) ↦ ap tools.sha256 (sym was) ∙ name ∙ k
              | inr (_, before) ↦ i.named j x before
            ];
      })
    ]

get-held :
    (tools : Tools) (d : Disk) (h : Hash) (text : String)
    → Dict.get d.programs h ≡ some text
    → tools.sha256 text ≡ h
    → get tools d h ≡ done text
unfolding get
get-held tools d h text held name = rw (held, get, (eq_iff (tools.sha256 text) h).1 name) refl

-- If the directory is intact and the hash has no collisions, then a program that is put is got back
-- under the answered hash, as its canonical text.
pub get-put :
    (tools : Tools) (d : Disk) (text canonical : String) (d' : Disk) (h : Hash)
    → IsIntact tools d
    → ((a b : String) → tools.sha256 a ≡ tools.sha256 b → a ≡ b)
    → canonicalize tools text ≡ done canonical
    → put tools d text ≡ done (d', h)
    → get tools d' h ≡ done canonical
get-put tools d text canonical d' h i free canon e =
    let (c, canon', name, rest) = put-eq_done tools d text e in
    let same_text : c ≡ canonical = done-injective (sym canon' ∙ canon) in
    elim rest [
      | inl (there, same) ↦
          let (x, held) = has-some d h there in
          subst (λ (y : Disk). get tools y h ≡ done canonical) same
            (get-held tools d h x held (i.named h x held)
              ∙ ap done (free x c (i.named h x held ∙ sym name) ∙ same_text))
      | inr (_, same) ↦
          subst (λ (y : Disk). get tools y h ≡ done canonical) same
            (get-held tools (added d h c) h c
                (rw (programs-added d h c) (get-set_self d.programs h c)) name
              ∙ ap done same_text)
    ]

-- Whatever happened to the files, a text that is got hashes to the name it was asked by.
pub get-checked :
    (tools : Tools) (d : Disk) (h : Hash) (text : String)
    → get tools d h ≡ done text
    → tools.sha256 text ≡ h
unfolding get
get-checked tools d h text e = elim (Option-cases (Dict.get d.programs h)) [
  | inl n ↦ cc (rw (n, get) at e)
  | inr (x, held) ↦ elim (Bool-cases (tools.sha256 x == h)) [
    | inr off ↦ cc (rw (held, get, off) at e)
    | inl good ↦
        let same : x ≡ text = done-injective (rw (held, get, good) at e) in
        ap tools.sha256 (sym same) ∙ (eq_iff (tools.sha256 x) h).0 good
  ]
]
