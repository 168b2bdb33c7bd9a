-- ===== src/Om/Order.antt =====
-- om_precedes of rdtool/src/om/om.c.
use pracer.Base.{
  ℕ, ◌≡◌, ◌≢◌, true, false, some, List, ◌∷◌, ◌++◌, arith, ◌==◌, ltb, eqb_of_ne, eqb_refl,
}
use pracer.Om.Store.{Ptr, null, Node, Blist, Store, ok}
use pracer.Om.View.{load_node-ok, load_list-ok, load_top-ok}
use pracer.Om.Chain.{Cells, IsBlist, Seg-split}
use pracer.Om.Chain.Insert.{Sorted-back, Above-lt}
use pracer.Om.Tree.{Rising, Rising-lt}
use pracer.Om.Top.{om_precedes}

-- Two nodes of one well-formed list are in the order of the list.
pub om_precedes-list :
    (s : Store) (l x lx y ly above heavy : ℕ) (xs ys zs : Cells)
    → IsBlist s l (xs ++ (x, lx) ∷ (ys ++ (y, ly) ∷ zs)) above heavy
    → (om_precedes x y s ≡ ok true s) × (om_precedes y x s ≡ ok false s)
unfolding om_precedes
om_precedes-list s l x lx y ly above heavy xs ys zs is =
    let behind : Cells = (y, ly) ∷ zs in
    let (front, at_x) = Seg-split s.nodes l null xs ((x, lx) ∷ (ys ++ behind)) null is.chain in
    let (middle, at_y) = Seg-split s.nodes l x ys behind null at_x.2 in
    let lt = Above-lt lx ys zs y ly (Sorted-back xs ((x, lx) ∷ (ys ++ behind)) is.sorted).1 in
    let before : ltb lx ly ≡ true = ground arith in
    let after : ltb ly lx ≡ false = ground arith in
    let read_x = load_node-ok s x _ at_x.0 at_x.1 in
    let read_y = load_node-ok s y _ at_y.0 at_y.1 in
    let x_ok = eqb_of_ne x null at_x.0 in
    let y_ok = eqb_of_ne y null at_y.0 in
    (
      simp (x_ok, y_ok, read_x, read_y, eqb_refl, before),
      simp (x_ok, y_ok, read_x, read_y, eqb_refl, after),
    )

-- A node stands in a list over which a top node stands.
pub record Under (s : Store) (x l p : Ptr) : Type 0 where
  pub node : Node
  pub header : Blist
  pub x_ok : x ≢ null
  pub l_ok : l ≢ null
  pub p_ok : p ≢ null
  pub at_node : s.nodes x ≡ some node
  pub in_list : node.list ≡ l
  pub at_list : s.lists l ≡ some header
  pub over_list : header.above ≡ p

-- Two nodes of different lists are in the order of the tops over their lists, where the labels of
-- the tops rise.
pub om_precedes-tops :
    (s : Store) (x l p y k q lo hi : ℕ) (os ps qs : List Ptr)
    → Under s x l p
    → Under s y k q
    → l ≢ k
    → Rising s.tops lo hi (os ++ p ∷ (ps ++ q ∷ qs))
    → (om_precedes x y s ≡ ok true s) × (om_precedes y x s ≡ ok false s)
unfolding om_precedes
om_precedes-tops s x l p y k q lo hi os ps qs ux uy ne r =
    let (c, d, at_p, at_q, lt) = Rising-lt s.tops lo hi os ps qs p q r in
    let before : ltb c.label d.label ≡ true = ground arith in
    let after : ltb d.label c.label ≡ false = ground arith in
    let apart : (ux.node.list == uy.node.list) ≡ false = ground arith in
    let apart' : (uy.node.list == ux.node.list) ≡ false = ground arith in
    let x_ok = eqb_of_ne x null ux.x_ok in
    let y_ok = eqb_of_ne y null uy.x_ok in
    let read_x = load_node-ok s x ux.node ux.x_ok ux.at_node in
    let read_y = load_node-ok s y uy.node uy.x_ok uy.at_node in
    let list_x = load_list-ok s l ux.header ux.l_ok ux.at_list in
    let list_y = load_list-ok s k uy.header uy.l_ok uy.at_list in
    let top_x = load_top-ok s p c ux.p_ok at_p in
    let top_y = load_top-ok s q d uy.p_ok at_q in
    (
      rw (
        x_ok, y_ok, read_x, read_y, apart, ux.in_list, list_x, uy.in_list, list_y, ux.over_list,
        top_x, uy.over_list, top_y, before,
      ),
      rw (
        y_ok, x_ok, read_y, read_x, apart', uy.in_list, list_y, ux.in_list, list_x, uy.over_list,
        top_y, ux.over_list, top_x, after,
      ),
    )
