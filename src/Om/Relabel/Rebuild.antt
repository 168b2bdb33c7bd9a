-- ===== src/Om/Relabel/Rebuild.antt =====
-- rebuild_recursive against the tree that it is to build.
use pracer.Base.{
  ℕ, suc, ◌+◌, ◌%◌, ◌^◌, ◌≤◌, ◌≡◌, ◌≢◌, ◌∙◌, ◌⊎◌, refl, true, false, some, List, [], ◌∷◌, ◌++◌,
  arith, leb, length, mem, Unique, Disjoint,
}
use pracer.Om.Store.{Ptr, null, TlNode, Store, Map, ok, write-same, write-other}
use pracer.Om.View.{with_top, set_top-ok}
use pracer.Om.Relabel.{rebuild_recursive}
use pracer.Om.Tree.{Shape, leaf, root, leaves, inner, Holds, leaf_node}

-- Each leaf of the array stands in the store over the list that `below` gives.
abbrev pub Leaves : Map TlNode → (Ptr → Ptr) → List Ptr → Type 0
Leaves m below [] = Unit
Leaves m below (p ∷ ps) =
    (p ≢ null) × ((x : TlNode) × (m p ≡ some x) × (x.below ≡ below p)) × Leaves m below ps

-- What rebuild_recursive is called on: leaves that fit into the 2 ^ h labels from `llab` to `rlab`,
-- and an allocator that gives a new address for each inner node.
pub record Ready (s : Store) (below : Ptr → Ptr) (parent level llab rlab h : ℕ)
    (array ps ms : List Ptr) : Type 0 where
  pub parent_ok : parent ≢ null
  pub above : TlNode
  pub at_parent : s.tops parent ≡ some above
  pub level_eq : above.level + 1 ≡ level
  pub width : rlab + 1 ≡ llab + 2 ^ h
  pub start : (h ≡ 0) ⊎ (llab % 2 ≡ 0)
  pub filled : 1 ≤ length array
  pub fits : length array ≤ 2 ^ h
  pub count : length ps + 1 ≡ length array
  pub mallocs : s.mallocs ≡ ps ++ ms
  pub at_leaves : Leaves s.tops below array
  pub unique_array : Unique array
  pub unique_ps : Unique ps
  pub apart : Disjoint array ps
  pub parent_array : mem parent array ≡ false
  pub parent_ps : mem parent ps ≡ false
  pub null_ps : mem null ps ≡ false

-- The tree stands in the store: the array's leaves in their order, the addresses from malloc as
-- inner nodes, and nothing else has changed.
pub record Rebuilt (s t : Store) (below : Ptr → Ptr) (n parent level llab rlab : ℕ)
    (array ps ms : List Ptr) : Type 0 where
  pub shape : Shape
  pub root_eq : root shape ≡ n
  pub leaves_eq : leaves shape ≡ array
  pub inner_eq : inner shape ≡ ps
  pub holds : Holds t.tops below parent level llab rlab shape
  pub tops : (a : Ptr) → mem a array ≡ false → mem a ps ≡ false → t.tops a ≡ s.tops a
  pub nodes : t.nodes ≡ s.nodes
  pub lists : t.lists ≡ s.lists
  pub mallocs : t.mallocs ≡ ms

pub order_of : (llab rlab w : ℕ) → rlab + 1 ≡ llab + w → 1 ≤ w → leb llab rlab ≡ true
order_of llab rlab w e pos = ground arith

pub rebuild_one :
    (fuel h : ℕ) (s : Store) (below : Ptr → Ptr) (parent level llab rlab p : ℕ) (ps ms : List Ptr)
    → Ready s below parent level llab rlab h (p ∷ []) ps ms
    → (n : Ptr) × (t : Store) × (rebuild_recursive (suc fuel) parent (p ∷ []) llab rlab s ≡ ok n t)
      × Rebuilt s t below n parent level llab rlab (p ∷ []) ps ms
unfolding rebuild_recursive
rebuild_one fuel h s below parent level llab rlab p (q ∷ ps) ms r = absurd (omega (arith, r.count))
rebuild_one fuel h s below parent level llab rlab p [] ms r =
    let (p_ok, (x, at, at_below), rest) = r.at_leaves in
    let x1 : TlNode = record x { parent = parent; needs_rebalance = false } in
    let s1 = with_top s p x1 in
    let order : leb llab rlab ≡ true = order_of llab rlab (2 ^ h) r.width r.fits in
    (
      p,
      with_top s1 p (leaf_node llab parent (below p)),
      rw (
        set_top-ok s p x _ p_ok at,
        order,
        set_top-ok s1 p x1 _ p_ok (write-same s.tops p _),
        at_below,
      ),
      record {
        shape = leaf p;
        root_eq = refl;
        leaves_eq = refl;
        inner_eq = refl;
        holds = write-same s1.tops p _;
        tops = λ a ha hp.
            write-other s1.tops p _ a (ground arith) ∙ write-other s.tops p _ a (ground arith);
        nodes = refl;
        lists = refl;
        mallocs = r.mallocs;
      },
    )
