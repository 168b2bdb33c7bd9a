-- ===== src/Scheduler/Unlink.antt =====
-- Taking a child out of the list.
use pracer.Base.{
  ℕ, ◌≡◌, ◌∙◌, refl, true, false, not, ◌&&◌, some, List, [], ◌∷◌, ◌==◌, if◌then◌else◌, arith, ◌⊎◌,
  inl, inr, Bool-cases, eqb_refl,
}
use pracer.Scheduler.{Links, put, clear, double_link, unlink_child}
use pracer.Scheduler.Children.{
  child_of, first_of, next_in, prev_in, last_in, Proper, without, Holds, not_zero, no_null,
}

child_of-without :
    (l : List ℕ) (c x : ℕ) → Proper l → child_of (without c l) x ≡ (child_of l x && not (x == c))
child_of-without [] c x proper = refl
child_of-without (d ∷ rest) c x (nz, once, proper) = elim (Bool-cases (d == c)) [
  | inl found ↦
      let e : d ≡ c = ground arith in
      rw found (elim (Bool-cases (x == c)) [
        | inl same ↦ let e' : x ≡ d = ground arith in rw (e', once, found) (ground arith)
        | inr other ↦ ground arith
      ])
  | inr on ↦ rw (on, child_of-without rest c x proper) (ground arith)
]

Proper-without : (l : List ℕ) (c : ℕ) → Proper l → Proper (without c l)
Proper-without [] c proper = tt
Proper-without (d ∷ rest) c (nz, once, proper) = elim (Bool-cases (d == c)) [
  | inl found ↦ rw found proper
  | inr on ↦
      rw on (nz, ground (arith, child_of-without rest c d proper), Proper-without rest c proper)
]

child_of-prev :
    (e : ℕ) (r : List ℕ) (c : ℕ) → child_of r c ≡ true → child_of (e ∷ r) (prev_in e r c) ≡ true
child_of-prev e [] c has = cc
child_of-prev e (d ∷ r) c has = elim (Bool-cases (c == d)) [
  | inl found ↦ rw found (ground (arith, eqb_refl e))
  | inr on ↦ rw on (ground (arith, child_of-prev d r c (ground arith)))
]

-- The right neighbour is a child or NULL.
child_of-next : (l : List ℕ) (c : ℕ) → (next_in l c ≡ 0) ⊎ (child_of l (next_in l c) ≡ true)
child_of-next [] c = inl refl
child_of-next (d ∷ []) c = elim (Bool-cases (c == d)) [
  | inl found ↦ inl (rw found refl)
  | inr on ↦ inl (rw on refl)
]
child_of-next (d ∷ e ∷ r) c = elim (Bool-cases (c == d)) [
  | inl found ↦ inr (rw found (ground (arith, eqb_refl e)))
  | inr on ↦ elim (child_of-next (e ∷ r) c) [
    | inl null ↦ inl (rw on null)
    | inr here ↦ inr (rw (on, here) (ground arith))
  ]
]

apart : (l : List ℕ) (x p : ℕ) → child_of l x ≡ true → child_of l p ≡ false → (x == p) ≡ false
apart l x p has out = elim (Bool-cases (x == p)) [
  | inl same ↦ let e : x ≡ p = ground arith in let both : child_of l p ≡ true = rw e at has in cc
  | inr other ↦ other
]

prev_in-first :
    (p d : ℕ) (rest : List ℕ) (x : ℕ)
    → child_of rest x ≡ true
    → prev_in p rest x ≡ (if x == first_of rest then p else prev_in d rest x)
prev_in-first p d [] x has = cc
prev_in-first p d (e ∷ r) x has = elim (Bool-cases (x == e)) [
  | inl found ↦ rw found refl
  | inr on ↦ rw on refl
]

next_in-ne :
    (rest : List ℕ) (d c : ℕ)
    → (d == 0) ≡ false
    → child_of rest d ≡ false
    → (d == next_in rest c) ≡ false
next_in-ne rest d c nz once = elim (child_of-next rest c) [
  | inl null ↦ rw null nz
  | inr here ↦ ground (arith, apart rest (next_in rest c) d here once)
]

next_in-first :
    (p d : ℕ) (rest : List ℕ) (c : ℕ)
    → child_of rest d ≡ false
    → child_of rest c ≡ true
    → (c == d) ≡ false
    → first_of (without c rest) ≡ (if d == prev_in d rest c then next_in rest c else first_of rest)
next_in-first p d [] c once has ne = cc
next_in-first p d (e ∷ r) c once has ne = elim (Bool-cases (c == e)) [
  | inl found ↦ let found' : (e == c) ≡ true = ground arith in rw (found, found', eqb_refl d) refl
  | inr on ↦
      let on' : (e == c) ≡ false = ground arith in
      let before = child_of-prev e r c (ground arith) in
      let apart : (d == prev_in e r c) ≡ false = ground (arith, before) in rw (on, on', apart) refl
]

next_in-without :
    (p : ℕ) (l : List ℕ) (c x : ℕ)
    → Proper l
    → child_of l p ≡ false
    → child_of l c ≡ true
    → child_of l x ≡ true
    → (x == c) ≡ false
    → next_in (without c l) x ≡ (if x == prev_in p l c then next_in l c else next_in l x)
next_in-without p [] c x proper out has hasx ne = cc
next_in-without p (d ∷ rest) c x (nz, once, proper) out has hasx ne = elim (Bool-cases (d == c)) [
  | inl found ↦
      let found' : (c == d) ≡ true = ground arith in
      let xd : (x == d) ≡ false = ground arith in
      rw (found, found', xd, apart (d ∷ rest) x p hasx out) refl
  | inr on ↦
      let on' : (c == d) ≡ false = ground arith in
      let further : child_of rest c ≡ true = ground arith in
      elim (Bool-cases (x == d)) [
        | inl same ↦
            let e : x ≡ d = ground arith in
            rw (on, on', e, eqb_refl d) (next_in-first p d rest c once further on')
        | inr other ↦
            rw (on, on', other) (next_in-without d rest c x proper once further (ground arith) ne)
      ]
]

prev_in-without :
    (p : ℕ) (l : List ℕ) (c x : ℕ)
    → Proper l
    → child_of l c ≡ true
    → child_of l x ≡ true
    → (x == c) ≡ false
    → prev_in p (without c l) x ≡ (if x == next_in l c then prev_in p l c else prev_in p l x)
prev_in-without p [] c x proper has hasx ne = cc
prev_in-without p (d ∷ rest) c x (nz, once, proper) has hasx ne = elim (Bool-cases (d == c)) [
  | inl found ↦
      let found' : (c == d) ≡ true = ground arith in
      let xd : (x == d) ≡ false = ground arith in
      rw (found, found', xd) (prev_in-first p d rest x (ground arith))
  | inr on ↦
      let on' : (c == d) ≡ false = ground arith in
      let further : child_of rest c ≡ true = ground arith in
      elim (Bool-cases (x == d)) [
        | inl same ↦
            let e : x ≡ d = ground arith in
            rw (on, on', e, eqb_refl d, next_in-ne rest d c nz once) refl
        | inr other ↦
            rw (on, on', other) (prev_in-without d rest c x proper further (ground arith) ne)
      ]
]

last_in-without :
    (p : ℕ) (l : List ℕ) (c : ℕ)
    → Proper l
    → child_of l c ≡ true
    → last_in p (without c l) ≡ (if next_in l c == 0 then prev_in p l c else last_in p l)
last_in-without p [] c proper has = cc
last_in-without p (d ∷ []) c (nz, once, proper) has = ground arith
last_in-without p (d ∷ e ∷ r) c (nz, once, proper) has = elim (Bool-cases (d == c)) [
  | inl found ↦ let found' : (c == d) ≡ true = ground arith in rw (found, found', proper.0) refl
  | inr on ↦
      let on' : (c == d) ≡ false = ground arith in
      rw (on, on') (last_in-without d (e ∷ r) c proper (ground arith))
]

last_in-end :
    (p : ℕ) (l : List ℕ) (c : ℕ)
    → Proper l
    → child_of l c ≡ true
    → next_in l c ≡ 0
    → last_in p l ≡ c
last_in-end p [] c proper has end_of = cc
last_in-end p (d ∷ []) c (nz, once, proper) has end_of = ground arith
last_in-end p (d ∷ e ∷ r) c (nz, once, proper) has end_of = elim (Bool-cases (c == d)) [
  | inl found ↦ let null : e ≡ 0 = rw found at end_of in absurd (ground arith)
  | inr on ↦ last_in-end d (e ∷ r) c proper (ground arith) (rw on at end_of)
]

put_if :
    (a v : ℕ) (f : ℕ → ℕ) (x : ℕ)
    → (x == 0) ≡ false
    → (if a == 0 then f else put a v f) x ≡ (if x == a then v else f x)
put_if a v f x nz = elim (Bool-cases (a == 0)) [
  | inl null ↦ let ne : (x == a) ≡ false = ground arith in rw (null, ne) refl
  | inr other ↦ rw other refl
]

without_was :
    (l : List ℕ) (c x : ℕ)
    → Proper l
    → child_of (without c l) x ≡ true
    → (child_of l x ≡ true) × ((x == c) ≡ false)
without_was l c x proper has = ground (arith, child_of-without l c x proper)

-- A child of the list is taken out: unlink_child passes its assertion, the links hold the list
-- without it, and its own siblings are NULL.
pub unlink_child-Holds :
    (s : Links) (parent c : ℕ) (l : List ℕ)
    → Holds s parent l
    → child_of l c ≡ true
    → (s' : Links) × (unlink_child parent c s ≡ some s')
      × Holds s' parent (without c l)
      × (s'.left_sibling c ≡ 0)
      × (s'.right_sibling c ≡ 0)
unfolding unlink_child double_link
unlink_child-Holds s parent c l h has =
    let left = prev_in 0 l c in
    let right = next_in l c in
    let same_left = h.lefts c has in
    let same_right = h.rights c has in
    let s1 = double_link left right s in
    let final =
      clear c s1 (if right == 0 then put parent left s.rightmost_child else s.rightmost_child) in
    (
      final,
      rw (same_left, same_right)
          (elim (Bool-cases (right == 0)) [
            | inl end_of ↦
                let at_end = h.last ∙ last_in-end 0 l c h.proper has (ground arith) in
                rw (end_of, at_end, eqb_refl c) refl
            | inr inner ↦ rw inner refl
          ]),
      record {
        proper = Proper-without l c h.proper;
        rights = λ x hasx.
            let (was, ne) = without_was l c x h.proper hasx in
            let nzx = not_zero l h.proper x was in
            let links = next_in-without 0 l c x h.proper (no_null l h.proper) has was ne in
            rw (ne, links) (put_if left right s.right_sibling x nzx ∙ rw (h.rights x was) refl);
        lefts = λ x hasx.
            let (was, ne) = without_was l c x h.proper hasx in
            let nzx = not_zero l h.proper x was in
            let links = prev_in-without 0 l c x h.proper has was ne in
            rw (ne, links) (put_if right left s.left_sibling x nzx ∙ rw (h.lefts x was) refl);
        last = rw (last_in-without 0 l c h.proper has) (elim (Bool-cases (right == 0)) [
          | inl end_of ↦ rw (end_of, eqb_refl parent) refl
          | inr inner ↦ rw inner h.last
        ]);
      },
      rw (eqb_refl c) refl,
      rw (eqb_refl c) refl,
    )
