-- ===== src/Scheduler/The/Contents.antt =====
-- The frames of the deque, and those taken from it.
use pracer.Base.{
  ℕ, suc, ◌≤◌, ◌<◌, ◌≡◌, ◌≢◌, ◌∙◌, refl, sym, ap, true, false, ltb, ◌==◌, List, ◌∷◌, mem, Unique,
  ◌⊎◌, inl, inr, arith, Bool-cases, eqb_of_ne,
}

-- The frames numbered below `next` are in the places `lo` to `hi` - 1, or in one of the two lists.
pub record Contents (lo hi : ℕ) (ltq : ℕ → ℕ) (next : ℕ) (popped stolen : List ℕ) : Type 0 where
  pub ascending : (i j : ℕ) → lo ≤ i → i < j → j < hi → ltq i < ltq j
  pub known : (i : ℕ) → lo ≤ i → i < hi → ltq i < next
  pub not_popped : (i : ℕ) → lo ≤ i → i < hi → mem (ltq i) popped ≡ false
  pub not_stolen : (i : ℕ) → lo ≤ i → i < hi → mem (ltq i) stolen ≡ false
  pub popped_known : (x : ℕ) → next ≤ x → mem x popped ≡ false
  pub stolen_known : (x : ℕ) → next ≤ x → mem x stolen ≡ false
  pub apart : (x : ℕ) → mem x popped ≡ true → mem x stolen ≡ false
  pub popped_once : Unique popped
  pub stolen_once : Unique stolen
  pub found :
      (x : ℕ)
      → x < next
      → (mem x popped ≡ true)
        ⊎ ((mem x stolen ≡ true) ⊎ ((i : ℕ) × (lo ≤ i) × (i < hi) × (ltq i ≡ x)))

module _ (lo hi : ℕ) (ltq : ℕ → ℕ) (next : ℕ) (popped stolen : List ℕ)
    (c : Contents lo hi ltq next popped stolen) where
  pub stored-Contents :
      (ltq' : ℕ → ℕ) → ((i : ℕ) → i < hi → ltq' i ≡ ltq i) → Contents lo hi ltq' next popped stolen
  stored-Contents ltq' same = record {
    ascending =
        λ i j le lt within. rw (same i (omega arith), same j within) (c.ascending i j le lt within);
    known = λ i le lt. rw (same i lt) (c.known i le lt);
    not_popped = λ i le lt. rw (same i lt) (c.not_popped i le lt);
    not_stolen = λ i le lt. rw (same i lt) (c.not_stolen i le lt);
    popped_known = c.popped_known;
    stolen_known = c.stolen_known;
    apart = c.apart;
    popped_once = c.popped_once;
    stolen_once = c.stolen_once;
    found = λ x lt. elim (c.found x lt) [
      | inl p ↦ inl p
      | inr (inl p) ↦ inr (inl p)
      | inr (inr (i, le, within, e)) ↦ inr (inr (i, le, within, same i within ∙ e))
    ];
  }

  last_or : (i : ℕ) → i < suc hi → (i < hi) ⊎ (i ≡ hi)
  last_or i lt = elim (Bool-cases (ltb i hi)) [
    | inl h ↦ inl (ground arith)
    | inr h ↦ inr (ground arith)
  ]

  pub pushed-Contents : lo ≤ hi → ltq hi ≡ next → Contents lo (suc hi) ltq (suc next) popped stolen
  pushed-Contents le at = record {
    ascending = λ i j from lt within. elim (last_or j within) [
      | inl inner ↦ c.ascending i j from lt inner
      | inr e ↦ rw (e, at) (c.known i from (omega arith))
    ];
    known = λ i from within. elim (last_or i within) [
      | inl inner ↦ omega (arith, c.known i from inner)
      | inr e ↦ rw (e, at) (omega arith)
    ];
    not_popped = λ i from within. elim (last_or i within) [
      | inl inner ↦ c.not_popped i from inner
      | inr e ↦ rw (e, at) (c.popped_known next (omega arith))
    ];
    not_stolen = λ i from within. elim (last_or i within) [
      | inl inner ↦ c.not_stolen i from inner
      | inr e ↦ rw (e, at) (c.stolen_known next (omega arith))
    ];
    popped_known = λ x ge. c.popped_known x (omega arith);
    stolen_known = λ x ge. c.stolen_known x (omega arith);
    apart = c.apart;
    popped_once = c.popped_once;
    stolen_once = c.stolen_once;
    found = λ x lt. elim (Bool-cases (ltb x next)) [
      | inl old ↦ elim (c.found x (ground arith)) [
        | inl p ↦ inl p
        | inr (inl p) ↦ inr (inl p)
        | inr (inr (i, from, within, e)) ↦ inr (inr (i, from, omega arith, e))
      ]
      | inr new ↦ let e : x ≡ next = ground arith in inr (inr (hi, le, omega arith, at ∙ sym e))
    ];
  }

-- Either end of the deque gives its frame to one of the lists.
cons_false : (x y : ℕ) (l : List ℕ) → x ≢ y → mem x l ≡ false → mem x (y ∷ l) ≡ false
cons_false x y l ne out = rw (eqb_of_ne x y ne, out) refl

cons_true : (x y : ℕ) (l : List ℕ) → mem x l ≡ true → mem x (y ∷ l) ≡ true
cons_true x y l h = ground arith

cons_here : (x y : ℕ) (l : List ℕ) → x ≡ y → mem x (y ∷ l) ≡ true
cons_here x y l e = ground arith

taken_apart :
    (x y : ℕ) (taken other : List ℕ)
    → mem y other ≡ false
    → (mem x taken ≡ true → mem x other ≡ false)
    → mem x (y ∷ taken) ≡ true
    → mem x other ≡ false
taken_apart x y taken other out apart h = elim (Bool-cases (x == y)) [
  | inl here ↦ let e : x ≡ y = ground arith in rw e out
  | inr there ↦ apart (rw there at h)
]

other_apart :
    (x y : ℕ) (taken other : List ℕ)
    → mem y taken ≡ false
    → (mem x taken ≡ true → mem x other ≡ false)
    → mem x taken ≡ true
    → mem x (y ∷ other) ≡ false
other_apart x y taken other out apart h = elim (Bool-cases (x == y)) [
  | inl here ↦
      let e : x ≡ y = ground arith in
      let out' : mem x taken ≡ false = rw e out in absurd (ground arith)
  | inr there ↦ rw (there, apart h) refl
]

module _ (lo hi : ℕ) (ltq : ℕ → ℕ) (next : ℕ) (popped stolen : List ℕ)
    (c : Contents lo hi ltq next popped stolen) where
  pub popped-Contents :
      (t : ℕ) → hi ≡ suc t → lo ≤ t → Contents lo t ltq next (ltq t ∷ popped) stolen
  popped-Contents t e le =
      let last = c.known t le (omega arith) in
      record {
        ascending = λ i j from lt within. c.ascending i j from lt (omega arith);
        known = λ i from within. c.known i from (omega arith);
        not_popped = λ i from within.
            let lt = c.ascending i t from within (omega arith) in
            cons_false (ltq i) (ltq t) popped (λ same. omega arith)
              (c.not_popped i from (omega arith));
        not_stolen = λ i from within. c.not_stolen i from (omega arith);
        popped_known =
            λ x ge. cons_false x (ltq t) popped (λ same. omega arith) (c.popped_known x ge);
        stolen_known = c.stolen_known;
        apart =
            λ x. taken_apart x (ltq t) popped stolen (c.not_stolen t le (omega arith)) (c.apart x);
        popped_once = (c.not_popped t le (omega arith), c.popped_once);
        stolen_once = c.stolen_once;
        found = λ x lt. elim (c.found x lt) [
          | inl p ↦ inl (cons_true x (ltq t) popped p)
          | inr (inl p) ↦ inr (inl p)
          | inr (inr (i, from, within, at)) ↦ elim (Bool-cases (ltb i t)) [
            | inl inner ↦ inr (inr (i, from, ground arith, at))
            | inr outer ↦
                let same : i ≡ t = ground arith in
                inl (cons_here x (ltq t) popped (sym at ∙ ap ltq same))
          ]
        ];
      }

  pub stolen-Contents : lo < hi → Contents (suc lo) hi ltq next popped (ltq lo ∷ stolen)
  stolen-Contents lt =
      let first = c.known lo (omega arith) lt in
      record {
        ascending = λ i j from less within. c.ascending i j (omega arith) less within;
        known = λ i from within. c.known i (omega arith) within;
        not_popped = λ i from within. c.not_popped i (omega arith) within;
        not_stolen = λ i from within.
            let less = c.ascending lo i (omega arith) (omega arith) within in
            cons_false (ltq i) (ltq lo) stolen (λ same. omega arith)
              (c.not_stolen i (omega arith) within);
        popped_known = c.popped_known;
        stolen_known =
            λ x ge. cons_false x (ltq lo) stolen (λ same. omega arith) (c.stolen_known x ge);
        apart = λ x.
            other_apart x (ltq lo) popped stolen (c.not_popped lo (omega arith) lt) (c.apart x);
        popped_once = c.popped_once;
        stolen_once = (c.not_stolen lo (omega arith) lt, c.stolen_once);
        found = λ x less. elim (c.found x less) [
          | inl p ↦ inl p
          | inr (inl p) ↦ inr (inl (cons_true x (ltq lo) stolen p))
          | inr (inr (i, from, within, at)) ↦ elim (Bool-cases (ltb lo i)) [
            | inl inner ↦ inr (inr (i, ground arith, within, at))
            | inr outer ↦
                let same : i ≡ lo = ground arith in
                inr (inl (cons_here x (ltq lo) stolen (sym at ∙ ap ltq same)))
          ]
        ];
      }
