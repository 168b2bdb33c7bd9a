-- ===== src/Om/Chain/Insert.antt =====
-- A new entry behind a given one: what stays true of the list of nodes.
use pracer.Base.{
  ℕ, ◌≤◌, ◌<◌, ◌≡◌, ◌≢◌, true, false, Option, none, some, [], ◌∷◌, ◌++◌, arith, inl, inr,
  Bool-cases,
}
use pracer.Om.Label.{max_label}
use pracer.Om.Store.{Ptr, Node, Map}
use pracer.Om.Chain.{Cells, last, has, Distinct, Seg, Above, Sorted, has-append}

-- The label that a new entry before `ys` must stay below.
abbrev pub next_label : Cells → Option ℕ
next_label [] = none
next_label ((_, lab) ∷ ys) = some lab

abbrev pub Fits : ℕ → Cells → Type 0
Fits lab [] = lab ≤ max_label
Fits lab ((_, next) ∷ ys) = lab < next

pub Distinct-insert :
    (xs ys : Cells) (b n lb lab : ℕ)
    → Distinct (xs ++ (b, lb) ∷ ys)
    → has n (xs ++ (b, lb) ∷ ys) ≡ false
    → Distinct (xs ++ (b, lb) ∷ (n, lab) ∷ ys)
Distinct-insert [] ys b n lb lab d out = ground arith
Distinct-insert ((p, lp) ∷ xs) ys b n lb lab d out = (
  ground (arith, has-append p xs ((b, lb) ∷ ys), has-append p xs ((b, lb) ∷ (n, lab) ∷ ys)),
  Distinct-insert xs ys b n lb lab d.1 (ground arith),
)

Above-insert :
    (lo : ℕ) (xs ys : Cells) (b n lb lab : ℕ)
    → lb < lab
    → Fits lab ys
    → Above lo (xs ++ (b, lb) ∷ ys)
    → Above lo (xs ++ (b, lb) ∷ (n, lab) ∷ ys)
Above-insert lo [] [] b n lb lab lt fits a = ground arith
Above-insert lo [] (y ∷ ys) b n lb lab lt fits a = ground arith
Above-insert lo ((p, lp) ∷ xs) ys b n lb lab lt fits a =
    (a.0, a.1, Above-insert lp xs ys b n lb lab lt fits a.2)

pub Sorted-insert :
    (xs ys : Cells) (b n lb lab : ℕ)
    → lb < lab
    → Fits lab ys
    → Sorted (xs ++ (b, lb) ∷ ys)
    → Sorted (xs ++ (b, lb) ∷ (n, lab) ∷ ys)
Sorted-insert [] [] b n lb lab lt fits a = ground arith
Sorted-insert [] (y ∷ ys) b n lb lab lt fits a = ground arith
Sorted-insert ((p, lp) ∷ xs) ys b n lb lab lt fits a =
    (a.0, Above-insert lp xs ys b n lb lab lt fits a.1)

-- No address stands on both sides of an entry.
pub Distinct-front :
    (xs ys : Cells) (a : Ptr) → Distinct (xs ++ ys) → has a xs ≡ true → has a ys ≡ false
Distinct-front [] ys a d h = ground arith
Distinct-front ((p, lp) ∷ xs) ys a d h =
    ground (arith, has-append p xs ys, Distinct-front xs ys a d.1)

pub Distinct-back : (xs ys : Cells) → Distinct (xs ++ ys) → Distinct ys
Distinct-back [] ys d = d
Distinct-back ((p, lp) ∷ xs) ys d = Distinct-back xs ys d.1

pub Above-back : (lo : ℕ) (xs ys : Cells) → Above lo (xs ++ ys) → Sorted ys
Above-back lo [] [] a = tt
Above-back lo [] (y ∷ ys) a = (a.1, a.2)
Above-back lo ((p, lp) ∷ xs) ys a = Above-back lp xs ys a.2

pub Sorted-back : (xs ys : Cells) → Sorted (xs ++ ys) → Sorted ys
Sorted-back [] ys a = a
Sorted-back ((p, lp) ∷ xs) ys a = Above-back lp xs ys a.1

pub not-has_of_none :
    (m : Map Node) (l prev : Ptr) (xs : Cells) (end a : Ptr)
    → Seg m l prev xs end
    → m a ≡ none
    → has a xs ≡ false
not-has_of_none m l prev [] end a s e = ground arith
not-has_of_none m l prev ((p, lp) ∷ xs) end a (ne, at, s) e =
    ground (arith, not-has_of_none m l p xs end a s e)

-- The last of a list is its start or one of its entries.
pub last-ne : (a x : Ptr) (zs : Cells) → a ≢ x → has a zs ≡ false → a ≢ last x zs
last-ne a x [] ne out = ne
last-ne a x ((p, lp) ∷ zs) ne out = last-ne a p zs (ground arith) (ground arith)

-- Labels increase along the list.
pub Above-lt : (lo : ℕ) (xs zs : Cells) (q lq : ℕ) → Above lo (xs ++ (q, lq) ∷ zs) → lo < lq
Above-lt lo [] zs q lq a = a.0
Above-lt lo ((p, lp) ∷ xs) zs q lq a = omega (arith, a.0, Above-lt lp xs zs q lq a.2)

-- A node of the list has a label above every lower bound of the list.
lt_of_has :
    (m : Map Node) (l lo prev : ℕ) (xs : Cells) (end a : Ptr) (c : Node)
    → Seg m l prev xs end
    → Above lo xs
    → has a xs ≡ true
    → m a ≡ some c
    → lo < c.label
lt_of_has m l lo prev [] end a c seg ab h at = absurd (cc)
lt_of_has m l lo prev ((p, lp) ∷ xs) end a c (ne, at', seg) ab h at =
    ground (arith, lt_of_has m l lp p xs end a c seg ab.2)

not-has_of_le :
    (m : Map Node) (l lo prev : ℕ) (xs : Cells) (end a : Ptr) (c : Node)
    → Seg m l prev xs end
    → Above lo xs
    → m a ≡ some c
    → c.label ≤ lo
    → has a xs ≡ false
not-has_of_le m l lo prev xs end a c seg ab at le = elim (Bool-cases (has a xs)) [
  | inl h ↦ absurd (omega (arith, lt_of_has m l lo prev xs end a c seg ab h at))
  | inr h ↦ h
]

-- Increasing labels keep the nodes of a list apart.
pub Distinct-of_Above :
    (m : Map Node) (l lo prev : ℕ) (xs : Cells) (end : Ptr)
    → Seg m l prev xs end
    → Above lo xs
    → Distinct xs
Distinct-of_Above m l lo prev [] end seg ab = tt
Distinct-of_Above m l lo prev ((p, lp) ∷ xs) end (ne, at, seg) ab = (
  not-has_of_le m l lp p xs end p _ seg ab.2 at (omega arith),
  Distinct-of_Above m l lp p xs end seg ab.2,
)

pub Distinct-of_Sorted :
    (m : Map Node) (l p lp prev : ℕ) (xs : Cells) (end : Ptr)
    → Seg m l prev ((p, lp) ∷ xs) end
    → Above lp xs
    → Distinct ((p, lp) ∷ xs)
Distinct-of_Sorted m l p lp prev xs end (ne, at, seg) ab = (
  not-has_of_le m l lp p xs end p _ seg ab at (omega arith),
  Distinct-of_Above m l lp p xs end seg ab,
)
