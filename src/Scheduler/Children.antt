-- ===== src/Scheduler/Children.antt =====
-- Which list of children the links hold, and how it changes.
use pracer.Base.{
  ℕ, ◌≡◌, refl, sym, Bool, true, false, ◌||◌, List, [], ◌∷◌, ◌++◌, ◌==◌, if◌then◌else◌, arith, inl,
  inr, Bool-cases, eqb_refl,
}
use pracer.Scheduler.{Links, double_link, push_child}

abbrev pub child_of : List ℕ → ℕ → Bool
child_of [] x = false
child_of (c ∷ rest) x = (x == c) || child_of rest x

abbrev pub first_of : List ℕ → ℕ
first_of [] = 0
first_of (c ∷ rest) = c

-- The child to the right of one, and to the left, where `p` stands before the first.
abbrev pub next_in : List ℕ → ℕ → ℕ
next_in [] x = 0
next_in (c ∷ rest) x = if x == c then first_of rest else next_in rest x

abbrev pub prev_in : (p : ℕ) → List ℕ → ℕ → ℕ
prev_in p [] x = 0
prev_in p (c ∷ rest) x = if x == c then p else prev_in c rest x

abbrev pub last_in : (p : ℕ) → List ℕ → ℕ
last_in p [] = p
last_in p (c ∷ rest) = last_in c rest

-- No child twice, and none is NULL.
abbrev pub Proper : List ℕ → Type 0
Proper [] = Unit
Proper (c ∷ rest) = ((c == 0) ≡ false) × (child_of rest c ≡ false) × Proper rest

abbrev pub without : ℕ → List ℕ → List ℕ
without c [] = []
without c (d ∷ rest) = let further = without c rest in if d == c then rest else d ∷ further

pub record Holds (s : Links) (parent : ℕ) (children : List ℕ) : Type 0 where
  pub proper : Proper children
  pub rights : (x : ℕ) → child_of children x ≡ true → s.right_sibling x ≡ next_in children x
  pub lefts : (x : ℕ) → child_of children x ≡ true → s.left_sibling x ≡ prev_in 0 children x
  pub last : s.rightmost_child parent ≡ last_in 0 children

pub not_zero : (l : List ℕ) → Proper l → (x : ℕ) → child_of l x ≡ true → (x == 0) ≡ false
not_zero [] proper x has = cc
not_zero (c ∷ rest) (nz, once, proper) x has = elim (Bool-cases (x == c)) [
  | inl same ↦ ground arith
  | inr other ↦ not_zero rest proper x (ground arith)
]

-- The last child is a child, or the list is empty.
pub child_of-last : (c : ℕ) (rest : List ℕ) → child_of (c ∷ rest) (last_in c rest) ≡ true
child_of-last c [] = ground (arith, eqb_refl c)
child_of-last c (d ∷ rest) = ground (arith, child_of-last d rest)

child_of-append : (l : List ℕ) (c x : ℕ) → child_of (l ++ c ∷ []) x ≡ (child_of l x || (x == c))
child_of-append [] c x = ground arith
child_of-append (d ∷ rest) c x = ground (arith, child_of-append rest c x)

Proper-append :
    (l : List ℕ) (c : ℕ) → Proper l → (c == 0) ≡ false → child_of l c ≡ false → Proper (l ++ c ∷ [])
Proper-append [] c proper nz out = (nz, refl, tt)
Proper-append (d ∷ rest) c (nzd, once, proper) nz out =
    (nzd, ground (arith, child_of-append rest c d), Proper-append rest c proper nz (ground arith))

last_in-append : (p : ℕ) (l : List ℕ) (c : ℕ) → last_in p (l ++ c ∷ []) ≡ c
last_in-append p [] c = refl
last_in-append p (d ∷ rest) c = last_in-append d rest c

next_in-append :
    (p : ℕ) (l : List ℕ) (c x : ℕ)
    → Proper l
    → child_of l p ≡ false
    → child_of l x ≡ true
    → (x == c) ≡ false
    → next_in (l ++ c ∷ []) x ≡ (if x == last_in p l then c else next_in l x)
next_in-append p [] c x proper out has ne = cc
next_in-append p (d ∷ []) c x proper out has ne = ground arith
next_in-append p (d ∷ e ∷ rest) c x (nz, once, proper) out has ne = elim (Bool-cases (x == d)) [
  | inl same ↦
      let apart : (x == last_in e rest) ≡ false = ground (arith, child_of-last e rest) in
      rw (same, apart) refl
  | inr other ↦ rw other (next_in-append d (e ∷ rest) c x proper once (ground arith) ne)
]

prev_in-append :
    (p : ℕ) (l : List ℕ) (c x : ℕ)
    → child_of l c ≡ false
    → child_of (l ++ c ∷ []) x ≡ true
    → prev_in p (l ++ c ∷ []) x ≡ (if x == c then last_in p l else prev_in p l x)
prev_in-append p [] c x out has = ground arith
prev_in-append p (d ∷ rest) c x out has = elim (Bool-cases (x == d)) [
  | inl same ↦ ground arith
  | inr other ↦ rw other (prev_in-append d rest c x (ground arith) (ground arith))
]

next_in-new : (l : List ℕ) (c : ℕ) → child_of l c ≡ false → next_in (l ++ c ∷ []) c ≡ 0
next_in-new [] c out = ground (arith, eqb_refl c)
next_in-new (d ∷ rest) c out = ground (arith, next_in-new rest c)

pub no_null : (l : List ℕ) → Proper l → child_of l 0 ≡ false
no_null [] proper = refl
no_null (c ∷ rest) (nz, once, proper) = ground (arith, no_null rest proper)

-- A new child that is not NULL and not a child yet stands to the right of all others, and the
-- links hold the list with it at the end.
pub push_child-Holds :
    (s : Links) (parent c : ℕ) (l : List ℕ)
    → Holds s parent l
    → (c == 0) ≡ false
    → child_of l c ≡ false
    → Holds (push_child parent c s) parent (l ++ c ∷ [])
unfolding push_child double_link
push_child-Holds s parent c l h nz out = record {
  proper = Proper-append l c h.proper nz out;
  rights = λ x has. elim (Bool-cases (x == c)) [
    | inl new ↦ let e : x ≡ c = ground arith in rw (e, nz, eqb_refl c) (sym (next_in-new l c out))
    | inr old ↦
        let was : child_of l x ≡ true = ground (arith, child_of-append l c x) in
        let nzx : (x == 0) ≡ false = not_zero l h.proper x was in
        let links = next_in-append 0 l c x h.proper (no_null l h.proper) was old in
        rw (nz, old, h.last, links) (ground (arith, h.rights x was))
  ];
  lefts = λ x has.
      rw (prev_in-append 0 l c x out has, nz, h.last)
        (elim (Bool-cases (x == c)) [
          | inl new ↦ rw new refl
          | inr old ↦ rw old (h.lefts x (ground (arith, child_of-append l c x)))
        ]);
  last = rw (eqb_refl parent) (sym (last_in-append 0 l c));
}
