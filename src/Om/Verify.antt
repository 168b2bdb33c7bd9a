-- ===== src/Om/Verify.antt =====
-- verify of rdtool/src/om/om.c on the trees of top nodes that stand in the store.
use Prim.Native.Nat.{max}
use pracer.Base.{
  ℕ, zero, suc, ◌+◌, ◌≤◌, ◌<◌, ◌≡◌, ◌≢◌, refl, true, false, some, List, [], ◌∷◌, ◌++◌, arith, ◌==◌,
  leb, eqb_of_ne, lt→ltb, ◌%◌, ◌&&◌, ltb, ◌^◌, eqb_refl, length, length-append,
}
use pracer.Om.Label.{max_level}
use pracer.Om.Store.{Ptr, null, TlNode, Store, Map, ok}
use pracer.Om.View.{load_list-ok, load_top-ok}
use pracer.Om.Chain.{Cells, IsBlist}
use pracer.Om.Blist.Verify.{bl_verify-ok}
use pracer.Om.Tree.{Shape, leaf, node, root, leaves, Holds}
use pracer.Om.Relabel.{middle}
use pracer.Om.Top.{verify, int_add, int_to_size, both_positive, both_negative}

abbrev pub depth : Shape → ℕ
depth (leaf p) = 0
depth (node n a b) = suc (max (depth a) (depth b))

-- No address of the tree is NULL.
abbrev pub Located : Shape → Type 0
Located (leaf p) = p ≢ null
Located (node n a b) = (n ≢ null) × Located a × Located b

-- Under each leaf stands a well-formed list of 1 to `most` nodes, which points back to the leaf.
abbrev pub FullLists : Store → (below : Ptr → Ptr) → (most : ℕ) → List Ptr → Type 0
FullLists s below most [] = Unit
FullLists s below most (p ∷ ps) =
    ((q : Ptr) × (lab : ℕ) × (heavy : ℕ) × (xs : Cells) × IsBlist s (below p) ((q, lab) ∷ xs) p
        heavy
      × (length xs < most))
    × FullLists s below most ps

FullLists-append :
    (s : Store) (below : Ptr → Ptr) (most : ℕ) (ps qs : List Ptr)
    → FullLists s below most (ps ++ qs)
    → FullLists s below most ps × FullLists s below most qs
FullLists-append s below most [] qs h = (tt, h)
FullLists-append s below most (p ∷ ps) qs (here, h) =
    let (front, back) = FullLists-append s below most ps qs h in ((here, front), back)

root-parent :
    (m : Map TlNode) (below : Ptr → Ptr) (parent level llab rlab : ℕ) (sh : Shape)
    → Holds m below parent level llab rlab sh
    → (c : TlNode) × (m (root sh) ≡ some c) × (c.parent ≡ parent)
root-parent m below parent level llab rlab (leaf p) h = (_, h, refl)
root-parent m below parent level llab rlab (node n a b) h = (_, h.0, refl)

root-ne : (sh : Shape) → Located sh → root sh ≢ null
root-ne (leaf p) h = h
root-ne (node n a b) h = h.0

le_leb : (a b : ℕ) → a ≤ b → leb a b ≡ true
le_leb a b h = ground arith

eqb_of_lt : (a b : ℕ) → a < b → (a == b) ≡ false
eqb_of_lt a b h = ground arith

eqb_of_eq : (a b : ℕ) → a ≡ b → (a == b) ≡ true
eqb_of_eq a b h = ground arith

int_add-small :
    (left right : ℕ) (s : Store)
    → left + right < 2147483648
    → int_add left right s ≡ ok (left + right) s
unfolding int_add
int_add-small left right s few =
    let room : (both_positive left right && leb 2147483648 (left + right)) ≡ false = ground arith in
    let sign : (both_negative left right && ltb (left + right) (2 ^ 32 + 2147483648)) ≡ false =
      ground arith in
    let cut : (left + right) % 2 ^ 32 ≡ left + right = omega arith in rw (room, sign, cut) refl

-- verify passes on every tree of top nodes in the store over well-formed lists that are not empty,
-- if the tree is not too deep for its levels and has less than 2 ^ 31 leaves, so that their number
-- is an int; it returns this number. The fuel is above the depth and the bound on the lengths of
-- the lists taken together.
pub verify-leaves :
    (fuel most : ℕ) (s : Store) (below : Ptr → Ptr) (parent level llab rlab : ℕ) (sh : Shape)
    → Holds s.tops below parent level llab rlab sh
    → Located sh
    → FullLists s below most (leaves sh)
    → level + depth sh ≤ max_level
    → depth sh + most < fuel
    → length (leaves sh) < 2147483648
    → verify fuel (root sh) s ≡ ok (length (leaves sh)) s
unfolding verify
verify-leaves zero most s below parent level llab rlab sh h loc full low more few =
    absurd (omega arith)
verify-leaves (suc zero) most s below parent level llab rlab (leaf p) h loc
      ((q, lab, heavy, xs, is, len), rest) low more few =
    absurd (omega arith)
verify-leaves (suc (suc fuel)) most s below parent level llab rlab (leaf p) h loc
      ((q, lab, heavy, xs, is, len), rest) low more few =
    simp (
      eqb_of_ne p null loc,
      load_top-ok s p _ loc h,
      bl_verify-ok s (below p) q lab p heavy (suc fuel) xs is (omega arith),
      load_list-ok s (below p) _ is.ne_null is.header,
      eqb_refl,
    )
verify-leaves (suc fuel) most s below parent level llab rlab (node n a b) h loc full low more few =
    let sizes = length-append (leaves a) (leaves b) in
    let (full_a, full_b) = FullLists-append s below most (leaves a) (leaves b) full in
    let in_a =
      verify-leaves fuel most s below n (level + 1) llab (middle llab rlab) a h.2 loc.1 full_a
        (omega arith) (omega arith) (omega (arith, sizes, few)) in
    let in_b =
      verify-leaves fuel most s below n (level + 1) (middle llab rlab + 1) rlab b h.3 loc.2 full_b
        (omega arith) (omega arith) (omega (arith, sizes, few)) in
    let (c, at_a, par_a) = root-parent s.tops below n (level + 1) llab (middle llab rlab) a h.2 in
    let (d, at_b, par_b) =
      root-parent s.tops below n (level + 1) (middle llab rlab + 1) rlab b h.3 in
    let low_level : leb level max_level ≡ true = le_leb level max_level (omega arith) in
    let not_leaf : (level == max_level) ≡ false = eqb_of_lt level max_level (omega arith) in
    let total : length (leaves a) + length (leaves b) < 2147483648 = omega (arith, sizes, few) in
    let sum : (length (leaves a ++ leaves b) == int_to_size (length (leaves a) + length (leaves b)))
        ≡ true =
      rw (lt→ltb (length (leaves a) + length (leaves b)) 2147483648 total)
        (eqb_of_eq _ _ (length-append (leaves a) (leaves b))) in
    let cut : length (leaves a ++ leaves b) % 2 ^ 32 ≡ length (leaves a ++ leaves b) =
      omega (arith, few) in
    let back_a : (c.parent == n) ≡ true = eqb_of_eq c.parent n par_a in
    let back_b : (d.parent == n) ≡ true = eqb_of_eq d.parent n par_b in
    simp (
      eqb_of_ne n null loc.0,
      load_top-ok s n _ loc.0 h.0,
      low_level,
      in_a,
      in_b,
      eqb_of_ne (root a) null (root-ne a loc.1),
      load_top-ok s (root a) c (root-ne a loc.1) at_a,
      back_a,
      eqb_of_ne (root b) null (root-ne b loc.2),
      load_top-ok s (root b) d (root-ne b loc.2) at_b,
      back_b,
      not_leaf,
      int_add-small _ _ s total,
      sum,
      cut,
    )
