-- ===== src/Tests/Lists.antt =====
-- A list of two nodes, at the addresses 20 and 40, with the smallest and the largest label.
use pracer.Base.{
  ◌-◌, ◌^◌, ◌≤◌, ◌≡◌, refl, true, false, Option, none, some, [], ◌∷◌, arith, ◌==◌, if◌then◌else◌,
}
use pracer.Om.Label.{max_label, midpoint}
use pracer.Om.Store.{Ptr, null, Node, Blist, Store, ok}
use pracer.Om.Chain.{Cells, cell, IsBlist}
use pracer.Om.Blist.{bl_insert, bl_verify, bl_size}
use pracer.Om.Blist.Insert.{Updated, bl_insert-room}
use pracer.Om.Blist.Verify.{bl_size-length, bl_verify-ok}
use pracer.Om.Blist.Sound.{bl_verify_sound}
use pracer.Om.Tree.{leaf_node}
use pracer.Om.Insert.{TopLeaf, om_insert-precedes}
use pracer.Om.Top.{om_precedes, om_insert}
use pracer.Om.Order.{om_precedes-list}

abbrev header : Blist
header = record { head = 20; tail = 40; above = 5; heavy = 0 }

abbrev nodes_at : Ptr → Option Node
nodes_at p =
    if p == 20
    then some (cell 0 40 null 10)
    else if p == 40
    then some (cell max_label null 20 10)
    else none

abbrev store : Store
store = record {
  nodes = nodes_at;
  lists = λ p. if p == 10 then some header else none;
  tops = λ p. if p == 5 then some (leaf_node 0 null 10) else none;
  mallocs = 30 ∷ [];
}

abbrev cells : Cells
cells = (20, 0) ∷ (40, max_label) ∷ []

is_list : IsBlist store 10 cells 5 0
is_list = record {
  ne_null = ground arith;
  header = refl;
  chain = (ground arith, refl, (ground arith, refl, tt));
  distinct = (refl, (refl, tt));
  sorted = (omega arith, (omega arith, omega arith, tt));
}

small_labels : (a : Ptr) (c : Node) → store.nodes a ≡ some c → c.label ≤ max_label
small_labels a c h = ground arith

bl_insert-room_example :
    (t : Store) × (bl_insert 10 20 store ≡ ok 30 t)
    × Updated store t 10 ((20, 0) ∷ (30, 2 ^ 63 - 1) ∷ (40, max_label) ∷ []) 5 0 []
unfolding midpoint
bl_insert-room_example =
    bl_insert-room store 10 20 30 0 (2 ^ 63 - 1) 5 0 [] [] ((40, max_label) ∷ []) is_list
      (ground arith) refl refl refl (ground arith)

bl_size-length_example : bl_size 3 10 store ≡ ok 2 store
bl_size-length_example = bl_size-length store 10 5 0 3 cells is_list (omega arith)

om_precedes-list_example :
    (om_precedes 20 40 store ≡ ok true store) × (om_precedes 40 20 store ≡ ok false store)
om_precedes-list_example = om_precedes-list store 10 20 0 40 max_label 5 0 [] [] [] is_list

bl_verify_sound_example : (xs : Cells) × IsBlist store 10 xs 5 0
unfolding bl_verify
bl_verify_sound_example =
    bl_verify_sound store store 10 2 header small_labels (ground arith) refl
      (bl_verify-ok store 10 20 0 5 0 2 ((40, max_label) ∷ []) is_list (omega arith))

top_leaf : TopLeaf store 10 5
top_leaf = record {
  p_ok = ground arith;
  top = leaf_node 0 null 10;
  at_top = refl;
  level_eq = refl;
  below_eq = refl;
}

om_insert-precedes_example :
    (t : Store) × (om_insert 20 store ≡ ok 30 t)
    × Updated store t 10 ((20, 0) ∷ (30, 2 ^ 63 - 1) ∷ (40, max_label) ∷ []) 5 0 []
    × (om_precedes 20 30 t ≡ ok true t)
    × (om_precedes 30 20 t ≡ ok false t)
unfolding midpoint
om_insert-precedes_example =
    om_insert-precedes store 10 20 30 0 (2 ^ 63 - 1) 5 0 [] [] ((40, max_label) ∷ []) is_list
      top_leaf (ground arith) refl refl refl (ground arith)

-- The same list with a node between the two.
abbrev longer : Store
longer = record store {
  nodes = λ p.
      if p == 20
      then some (cell 0 25 null 10)
      else if p == 25
      then some (cell 16 40 20 10)
      else if p == 40
      then some (cell max_label null 25 10)
      else none;
}

abbrev empty : Store
empty = record store {
  nodes = λ p. none;
  lists = λ p.
      if p == 10 then some (record { head = null; tail = null; above = 5; heavy = 0 }) else none;
}

empty_list : IsBlist empty 10 [] 5 0
empty_list = record {
  ne_null = ground arith;
  header = refl;
  chain = tt;
  distinct = tt;
  sorted = tt;
}
