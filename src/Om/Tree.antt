-- ===== src/Om/Tree.antt =====
-- The tree of top nodes in the store: its shape, and what each node holds.
use pracer.Base.{
  ℕ, suc, ◌+◌, ◌≤◌, ◌<◌, ◌≡◌, ◌∙◌, Bool, true, false, ◌||◌, some, List, [], ◌∷◌, ◌++◌, arith, ◌==◌,
  eqb_refl, mem, mem-append, length,
}
use pracer.Om.Label.{max_level}
use pracer.Om.Store.{Ptr, null, TlNode, Map}
use pracer.Om.Relabel.{middle}

pub data Shape : Type 0 where
  leaf : Ptr → Shape
  node : Ptr → Shape → Shape → Shape

abbrev pub root : Shape → Ptr
root (leaf p) = p
root (node n a b) = n

-- The leaves from left to right, and the inner nodes with a node before those below it.
abbrev pub leaves : Shape → List Ptr
leaves (leaf p) = p ∷ []
leaves (node n a b) = leaves a ++ leaves b

abbrev pub inner : Shape → List Ptr
inner (leaf p) = []
inner (node n a b) = n ∷ (inner a ++ inner b)

abbrev pub leaf_node : (label : ℕ) (parent below : Ptr) → TlNode
leaf_node label parent below = record {
  label = label;
  level = max_level;
  num_leaves = 1;
  parent = parent;
  left = null;
  right = null;
  below = below;
  needs_rebalance = false;
}

abbrev pub inner_node : (label level num_leaves : ℕ) (parent left right : Ptr) → TlNode
inner_node label level num_leaves parent left right = record {
  label = label;
  level = level;
  num_leaves = num_leaves;
  parent = parent;
  left = left;
  right = right;
  below = null;
  needs_rebalance = false;
}

-- The tree stands in the store with the labels `llab` to `rlab`, two at least where they are
-- divided, and each leaf over the list that `below` gives.
abbrev pub Holds : Map TlNode → (below : Ptr → Ptr) → (parent level llab rlab : ℕ) → Shape → Type 0
Holds m below parent level llab rlab (leaf p) = m p ≡ some (leaf_node llab parent (below p))
Holds m below parent level llab rlab (node n a b) =
    (m n ≡ some (inner_node rlab level (length (leaves a ++ leaves b)) parent (root a) (root b)))
    × (llab < rlab)
    × Holds m below n (level + 1) llab (middle llab rlab) a
    × Holds m below n (level + 1) (middle llab rlab + 1) rlab b

-- The addresses of a tree.
abbrev pub covers : Ptr → Shape → Bool
covers x sh = mem x (leaves sh) || mem x (inner sh)

or_left : (la lb ia ib n : Bool) → (la || ia) ≡ true → ((la || lb) || (n || (ia || ib))) ≡ true
or_left la lb ia ib n h = ground arith

or_right : (la lb ia ib n : Bool) → (lb || ib) ≡ true → ((la || lb) || (n || (ia || ib))) ≡ true
or_right la lb ia ib n h = ground arith

or_here : (x y : Bool) → (x || (true || y)) ≡ true
or_here x y = ground arith

covers-root : (n : Ptr) (a b : Shape) → covers n (node n a b) ≡ true
covers-root n a b =
    rw (eqb_refl n) (or_here (mem n (leaves a ++ leaves b)) (mem n (inner a ++ inner b)))

covers-left : (x n : Ptr) (a b : Shape) → covers x a ≡ true → covers x (node n a b) ≡ true
covers-left x n a b h =
    rw (mem-append x (leaves a) (leaves b), mem-append x (inner a) (inner b))
      (or_left (mem x (leaves a)) (mem x (leaves b)) (mem x (inner a)) (mem x (inner b)) (x == n) h)

covers-right : (x n : Ptr) (a b : Shape) → covers x b ≡ true → covers x (node n a b) ≡ true
covers-right x n a b h =
    rw (mem-append x (leaves a) (leaves b), mem-append x (inner a) (inner b))
      (or_right (mem x (leaves a)) (mem x (leaves b)) (mem x (inner a)) (mem x (inner b)) (x == n)
        h)

pub Holds-frame :
    (m g : Map TlNode) (below : Ptr → Ptr) (parent level llab rlab : ℕ) (sh : Shape)
    → Holds m below parent level llab rlab sh
    → ((a : Ptr) → covers a sh ≡ true → g a ≡ m a)
    → Holds g below parent level llab rlab sh
Holds-frame m g below parent level llab rlab (leaf p) h same = same p (ground arith) ∙ h
Holds-frame m g below parent level llab rlab (node n a b) h same = (
  same n (covers-root n a b) ∙ h.0,
  h.1,
  Holds-frame m g below n (level + 1) llab (middle llab rlab) a h.2
      (λ x i. same x (covers-left x n a b i)),
  Holds-frame m g below n (level + 1) (middle llab rlab + 1) rlab b h.3
      (λ x i. same x (covers-right x n a b i)),
)

-- The tops stand in the store with labels that rise from `lo` on and stay within `hi`.
abbrev pub Rising : Map TlNode → (lo hi : ℕ) → List Ptr → Type 0
Rising m lo hi [] = Unit
Rising m lo hi (p ∷ ps) =
    ((c : TlNode) × (m p ≡ some c) × (lo ≤ c.label) × (c.label ≤ hi) × Rising m (suc c.label) hi ps)

Rising-lower :
    (m : Map TlNode) (lo lo' hi : ℕ) (ps : List Ptr)
    → Rising m lo hi ps
    → lo' ≤ lo
    → Rising m lo' hi ps
Rising-lower m lo lo' hi [] r le = tt
Rising-lower m lo lo' hi (p ∷ ps) (c, at, low, high, r) le = (c, at, omega arith, high, r)

Rising-append :
    (m : Map TlNode) (lo mid hi : ℕ) (ps qs : List Ptr)
    → Rising m lo mid ps
    → Rising m (suc mid) hi qs
    → lo ≤ suc mid
    → mid ≤ hi
    → Rising m lo hi (ps ++ qs)
Rising-append m lo mid hi [] qs r t le le' = Rising-lower m (suc mid) lo hi qs t le
Rising-append m lo mid hi (p ∷ ps) qs (c, at, low, high, r) t le le' =
    (c, at, low, omega arith, Rising-append m (suc c.label) mid hi ps qs r t (omega arith) le')

-- The labels of the leaves rise from left to right.
pub Holds-Rising :
    (m : Map TlNode) (below : Ptr → Ptr) (parent level llab rlab : ℕ) (sh : Shape)
    → Holds m below parent level llab rlab sh
    → llab ≤ rlab
    → Rising m llab rlab (leaves sh)
Holds-Rising m below parent level llab rlab (leaf p) h le = (_, h, omega arith, omega arith, tt)
Holds-Rising m below parent level llab rlab (node n a b) h le =
    Rising-append m llab (middle llab rlab) rlab (leaves a) (leaves b)
      (Holds-Rising m below n (level + 1) llab (middle llab rlab) a h.2 (omega arith))
      (Rising-lower m _ _ rlab (leaves b)
        (Holds-Rising m below n (level + 1) (middle llab rlab + 1) rlab b h.3 (omega arith))
        (omega arith))
      (omega arith) (omega arith)

Rising-above :
    (m : Map TlNode) (lo hi : ℕ) (ps qs : List Ptr) (q : Ptr)
    → Rising m lo hi (ps ++ q ∷ qs)
    → (d : TlNode) × (m q ≡ some d) × (lo ≤ d.label)
Rising-above m lo hi [] qs q (d, at, low, high, r) = (d, at, low)
Rising-above m lo hi (p ∷ ps) qs q (c, at, low, high, r) =
    let (d, at_q, above) = Rising-above m (suc c.label) hi ps qs q r in (d, at_q, omega arith)

-- Of two tops, the one that stands first has the smaller label.
pub Rising-lt :
    (m : Map TlNode) (lo hi : ℕ) (os ps qs : List Ptr) (p q : Ptr)
    → Rising m lo hi (os ++ p ∷ (ps ++ q ∷ qs))
    → (c : TlNode) × (d : TlNode) × (m p ≡ some c) × (m q ≡ some d) × (c.label < d.label)
Rising-lt m lo hi [] ps qs p q (c, at, low, high, r) =
    let (d, at_q, above) = Rising-above m (suc c.label) hi ps qs q r in (c, d, at, at_q, above)
Rising-lt m lo hi (o ∷ os) ps qs p q (c, at, low, high, r) =
    Rising-lt m (suc c.label) hi os ps qs p q r
