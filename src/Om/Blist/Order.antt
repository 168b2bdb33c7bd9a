-- ===== src/Om/Blist/Order.antt =====
-- bl_precedes against the positions in the list.
use pracer.Base.{ℕ, ◌≡◌, true, false, ◌∷◌, ◌++◌, arith, ltb, eqb_refl}
use pracer.Om.Store.{null, Store, ok}
use pracer.Om.View.{load_node-ok}
use pracer.Om.Chain.{Cells, IsBlist, Seg-split}
use pracer.Om.Chain.Insert.{Sorted-back, Above-lt}
use pracer.Om.Blist.{bl_precedes}

-- bl_precedes answers by position: true exactly when its first node stands before its second.
pub bl_precedes-order :
    (s : Store) (l p lp q lq above heavy : ℕ) (xs ys zs : Cells)
    → IsBlist s l (xs ++ (p, lp) ∷ (ys ++ (q, lq) ∷ zs)) above heavy
    → (bl_precedes p q s ≡ ok true s) × (bl_precedes q p s ≡ ok false s)
unfolding bl_precedes
bl_precedes-order s l p lp q lq above heavy xs ys zs is =
    let behind : Cells = (q, lq) ∷ zs in
    let (front, at_p) = Seg-split s.nodes l null xs ((p, lp) ∷ (ys ++ behind)) null is.chain in
    let (middle, at_q) = Seg-split s.nodes l p ys behind null at_p.2 in
    let lt = Above-lt lp ys zs q lq (Sorted-back xs ((p, lp) ∷ (ys ++ behind)) is.sorted).1 in
    let before : ltb lp lq ≡ true = ground arith in
    let after : ltb lq lp ≡ false = ground arith in
    let read_p = load_node-ok s p _ at_p.0 at_p.1 in
    let read_q = load_node-ok s q _ at_q.0 at_q.1 in
    (simp (read_p, read_q, eqb_refl, before), simp (read_p, read_q, eqb_refl, after))
