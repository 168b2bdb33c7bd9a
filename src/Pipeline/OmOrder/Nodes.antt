-- ===== src/Pipeline/OmOrder/Nodes.antt =====
-- A list of numbered nodes is such an order.
use pracer.Base.{
  ℕ, suc, ◌≤◌, ◌≡◌, refl, ap, Bool, true, false, ◌||◌, List, [], ◌∷◌, ◌==◌, ltb, if◌then◌else◌,
  arith, Bool-cases, inl, inr, eqb_refl,
}
use pracer.Pipeline.OmOrder.{OmOrder}

abbrev pub among : List ℕ → ℕ → Bool
among [] x = false
among (n ∷ rest) x = (x == n) || among rest x

-- `x` stands before `y`.
abbrev pub before : List ℕ → ℕ → ℕ → Bool
before [] x y = false
before (n ∷ rest) x y = if y == n then false else if x == n then among rest y else before rest x y

abbrev pub fresh : List ℕ → ℕ
fresh [] = 0
fresh (n ∷ rest) = if ltb n (fresh rest) then fresh rest else suc n

abbrev pub insert_behind : (base new : ℕ) → List ℕ → List ℕ
insert_behind base new [] = []
insert_behind base new (n ∷ rest) =
    let further = insert_behind base new rest in if n == base then n ∷ new ∷ rest else n ∷ further

pub above_fresh : (l : List ℕ) (x : ℕ) → fresh l ≤ x → among l x ≡ false
above_fresh [] x le = refl
above_fresh (n ∷ rest) x le = ground (arith, above_fresh rest x)

module _ (base new : ℕ) where
  pub among-insert_behind :
      (l : List ℕ) (x : ℕ)
      → among l base ≡ true
      → among (insert_behind base new l) x ≡ ((x == new) || among l x)
  among-insert_behind [] x here = cc
  among-insert_behind (n ∷ rest) x here = elim (Bool-cases (n == base)) [
    | inl found ↦ rw found (ground arith)
    | inr on ↦ rw (on, among-insert_behind rest x (ground arith)) (ground arith)
  ]

  -- Where the base is not, nothing is inserted.
  insert_behind_none : (l : List ℕ) → among l base ≡ false → insert_behind base new l ≡ l
  insert_behind_none [] no_base = refl
  insert_behind_none (n ∷ rest) no_base =
      let on : (n == base) ≡ false = ground arith in
      rw (on, insert_behind_none rest (ground arith)) refl

  pub insert_behind-old :
      (l : List ℕ) (x y : ℕ)
      → (x == new) ≡ false
      → (y == new) ≡ false
      → before (insert_behind base new l) x y ≡ before l x y
  insert_behind-old [] x y nx ny = refl
  insert_behind-old (n ∷ rest) x y nx ny = elim (Bool-cases (n == base)) [
    | inl found ↦ rw (found, nx, ny) refl
    | inr on ↦ rw on (elim (Bool-cases (among rest base)) [
      | inl later ↦ rw (among-insert_behind rest y later, ny, insert_behind-old rest x y nx ny) refl
      | inr never ↦ rw (insert_behind_none rest never) refl
    ])
  ]

  pub insert_behind-below :
      (l : List ℕ) (x : ℕ)
      → among l new ≡ false
      → among l base ≡ true
      → among l x ≡ true
      → before (insert_behind base new l) x new ≡ ((x == base) || before l x base)
  insert_behind-below [] x out here has = cc
  insert_behind-below (n ∷ rest) x out here has = elim (Bool-cases (n == base)) [
    | inl found ↦ rw found (ground (arith, eqb_refl new))
    | inr on ↦
        let later : among rest base ≡ true = ground arith in
        rw on (
          ground (
            arith,
            among-insert_behind rest new later,
            eqb_refl new,
            insert_behind-below rest x (ground arith) later,
          ))
  ]

  pub insert_behind-above :
      (l : List ℕ) (x : ℕ)
      → among l new ≡ false
      → among l base ≡ true
      → among l x ≡ true
      → before (insert_behind base new l) new x ≡ before l base x
  insert_behind-above [] x out here has = cc
  insert_behind-above (n ∷ rest) x out here has = elim (Bool-cases (n == base)) [
    | inl found ↦ rw found (ground (arith, eqb_refl new))
    | inr on ↦
        let later : among rest base ≡ true = ground arith in
        rw on (ground (arith, insert_behind-above rest x (ground arith) later))
  ]

among-before : (l : List ℕ) (x y : ℕ) → before l x y ≡ true → among l y ≡ true
among-before [] x y lt = cc
among-before (n ∷ rest) x y lt = ground (arith, among-before rest x y)

pub before_trans :
    (l : List ℕ) (x y z : ℕ) → before l x y ≡ true → before l y z ≡ true → before l x z ≡ true
before_trans [] x y z xy yz = cc
before_trans (n ∷ rest) x y z xy yz = ground (arith, before_trans rest x y z, among-before rest y z)

pub before_asym : (l : List ℕ) (x y : ℕ) → before l x y ≡ true → before l y x ≡ false
before_asym [] x y xy = cc
before_asym (n ∷ rest) x y xy = ground (arith, before_asym rest x y)

pub different : (l : List ℕ) (x : ℕ) → among l x ≡ true → (x == fresh l) ≡ false
different l x has = elim (Bool-cases (x == fresh l)) [
  | inl same ↦
      let e : x ≡ fresh l = ground arith in
      cc (above_fresh l (fresh l) (omega arith), ap (among l) e)
  | inr other ↦ other
]

abbrev pub head_or_zero : List ℕ → ℕ
head_or_zero [] = 0
head_or_zero (n ∷ rest) = n

-- The base of an order is its first node.
abbrev pub nodes_order : OmOrder (List ℕ)
nodes_order = record {
  has = among;
  precedes = before;
  get_base = head_or_zero;
  insert = λ base l. (fresh l, insert_behind base (fresh l) l);
  insert_new = λ l base. above_fresh l (fresh l) (omega arith);
  insert_has = λ l base x here. among-insert_behind base (fresh l) l x here;
  insert_old = λ l base x y hx hy.
      insert_behind-old base (fresh l) l x y (different l x hx) (different l y hy);
  insert_below = λ l base x here has.
      insert_behind-below base (fresh l) l x (above_fresh l (fresh l) (omega arith)) here has;
  insert_above = λ l base x here has.
      insert_behind-above base (fresh l) l x (above_fresh l (fresh l) (omega arith)) here has;
  precedes_trans = λ l x y z xy yz. before_trans l x y z xy yz;
  precedes_asym = λ l x y xy. before_asym l x y xy;
}
