-- ===== src/Om/Chain.antt =====
-- What a list in the store stands for: its nodes in order, each an address and a label.
pub mod Insert
use pracer.Base.{
  ℕ, ◌+◌, ◌≤◌, ◌<◌, ◌≡◌, ◌∙◌, ◌≢◌, refl, Bool, true, false, ◌||◌, Option, none, some, List, [], ◌∷◌,
  ◌++◌, arith, ◌==◌, length,
}
use pracer.Om.Label.{max_label}
use pracer.Om.Store.{Ptr, null, negsuc, Node, Blist, Store, Map, write}

abbrev pub Cells : Type 0
Cells = List (Ptr × ℕ)

abbrev pub first : Cells → Ptr → Ptr
first [] end = end
first ((p, _) ∷ xs) end = p

abbrev pub last : Ptr → Cells → Ptr
last p [] = p
last _ ((p, _) ∷ xs) = last p xs

-- A node at rest: no insertion behind it is under way.
abbrev pub cell : (label : ℕ) (next prev list : Ptr) → Node
cell label next prev list = record {
  label = label;
  next = next;
  prev = prev;
  list = list;
  in_use = 42;
  active_insert = 0;
  last_insert_id = negsuc 0;
}

abbrev pub has : Ptr → Cells → Bool
has a [] = false
has a ((p, _) ∷ xs) = (a == p) || has a xs

abbrev pub Distinct : Cells → Type 0
Distinct [] = Unit
Distinct ((p, _) ∷ xs) = (has p xs ≡ false) × Distinct xs

-- The nodes `xs` of list `l`, linked both ways, behind `prev` and before `end`.
abbrev pub Seg : Map Node → (l prev : Ptr) → Cells → (end : Ptr) → Type 0
Seg m l prev [] end = Unit
Seg m l prev ((p, lab) ∷ xs) end =
    (p ≢ null) × (m p ≡ some (cell lab (first xs end) prev l)) × Seg m l p xs end

-- Labels increase from `lo` on and are label_t values.
abbrev pub Above : ℕ → Cells → Type 0
Above lo [] = Unit
Above lo ((_, lab) ∷ xs) = (lo < lab) × (lab ≤ max_label) × Above lab xs

abbrev pub Sorted : Cells → Type 0
Sorted [] = Unit
Sorted ((_, lab) ∷ xs) = (lab ≤ max_label) × Above lab xs

-- List `l` of the store holds the nodes `xs`, and `above` and `heavy` are its own members.
pub record IsBlist (s : Store) (l : Ptr) (xs : Cells) (above heavy : ℕ) : Type 0 where
  pub ne_null : l ≢ null
  pub header :
      s.lists l
      ≡ some (record { head = first xs null; tail = last null xs; above = above; heavy = heavy })
  pub chain : Seg s.nodes l null xs null
  pub distinct : Distinct xs
  pub sorted : Sorted xs

pub has-append : (a : Ptr) (xs ys : Cells) → has a (xs ++ ys) ≡ (has a xs || has a ys)
has-append a [] ys = refl
has-append a ((p, _) ∷ xs) ys = ground (arith, has-append a xs ys)

pub first-append : (xs ys : Cells) (end : Ptr) → first (xs ++ ys) end ≡ first xs (first ys end)
first-append [] ys end = refl
first-append (x ∷ xs) ys end = refl

pub last-append : (p : Ptr) (xs ys : Cells) → last p (xs ++ ys) ≡ last (last p xs) ys
last-append p [] ys = refl
last-append p ((q, _) ∷ xs) ys = last-append q xs ys

module _ (m : Map Node) (l : Ptr) where
  -- A segment survives a change that spares its nodes.
  pub Seg-frame :
      (g : Map Node) (prev : Ptr) (xs : Cells) (end : Ptr)
      → Seg m l prev xs end
      → ((a : Ptr) → has a xs ≡ true → g a ≡ m a)
      → Seg g l prev xs end
  Seg-frame g prev [] end s same = tt
  Seg-frame g prev ((p, lab) ∷ xs) end (ne, at, s) same =
      (ne, same p (ground arith) ∙ at, Seg-frame g p xs end s (λ a h. same a (ground arith)))

  pub Seg-append :
      (prev : Ptr) (xs ys : Cells) (end : Ptr)
      → Seg m l prev xs (first ys end)
      → Seg m l (last prev xs) ys end
      → Seg m l prev (xs ++ ys) end
  Seg-append prev [] ys end s t = t
  Seg-append prev ((p, lab) ∷ xs) ys end (ne, at, s) t =
      (ne, rw (first-append xs ys end) at, Seg-append p xs ys end s t)

  pub Seg-split :
      (prev : Ptr) (xs ys : Cells) (end : Ptr)
      → Seg m l prev (xs ++ ys) end
      → Seg m l prev xs (first ys end) × Seg m l (last prev xs) ys end
  Seg-split prev [] ys end s = (tt, s)
  Seg-split prev ((p, lab) ∷ xs) ys end (ne, at, s) =
      let (front, back) = Seg-split p xs ys end s in
      ((ne, rw (first-append xs ys end) at at, front), back)
