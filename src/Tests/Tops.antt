-- ===== src/Tests/Tops.antt =====
-- Three leaves under a root, and the tree that is rebuilt over them.
use pracer.Base.{
  ◌+◌, ◌<◌, ◌≡◌, inr, refl, true, false, Option, none, some, [], ◌∷◌, arith, ◌==◌, if◌then◌else◌,
}
use pracer.Om.Store.{Ptr, null, Blist, TlNode, Store, ok}
use pracer.Om.Chain.{cell, IsBlist}
use pracer.Om.Verify.{verify-leaves}
use pracer.Om.Tree.{Holds, leaf, node}
use pracer.Om.Top.{verify}
use pracer.Om.Tree.{leaf_node, inner_node, Rising}
use pracer.Om.Top.{om_precedes}
use pracer.Om.Order.{Under, om_precedes-tops}
use pracer.Om.Relabel.{rebuild_recursive}
use pracer.Om.Relabel.Rebuild.{Ready}
use pracer.Om.Relabel.Total.{Runs, rebuild_recursive-Rebuilt, rebuild_recursive-order}

abbrev tops_at : Ptr → Option TlNode
tops_at p =
    if p == 1
    then some (inner_node 3 0 3 null 2 3)
    else if p == 11
    then some (leaf_node 0 1 101)
    else if p == 12
    then some (leaf_node 1 1 102)
    else if p == 13
    then some (leaf_node 2 1 103)
    else none

abbrev header_under : Ptr → Blist
header_under p = record { head = null; tail = null; above = p; heavy = 0 }

abbrev store : Store
store = record {
  nodes = λ p.
      if p == 201
      then some (cell 5 null null 101)
      else if p == 202
      then some (cell 4 null null 102)
      else none;
  lists = λ p.
      if p == 101
      then some (header_under 11)
      else if p == 102
      then some (header_under 12)
      else none;
  tops = tops_at;
  mallocs = 21 ∷ 22 ∷ 23 ∷ [];
}

abbrev lists_below : Ptr → Ptr
lists_below p = p + 90

is_Ready : Ready store lists_below 1 1 0 3 2 (11 ∷ 12 ∷ 13 ∷ []) (21 ∷ 22 ∷ []) (23 ∷ [])
is_Ready = record {
  parent_ok = ground arith;
  above = inner_node 3 0 3 null 2 3;
  at_parent = refl;
  level_eq = refl;
  width = refl;
  start = inr refl;
  filled = omega arith;
  fits = omega arith;
  count = refl;
  mallocs = refl;
  at_leaves = (
    ground arith,
    (leaf_node 0 1 101, refl, refl),
    (
      ground arith,
      (leaf_node 1 1 102, refl, refl),
      (ground arith, (leaf_node 2 1 103, refl, refl), tt),
    ),
  );
  unique_array = (refl, (refl, (refl, tt)));
  unique_ps = (refl, (refl, tt));
  apart = ground arith;
  parent_array = refl;
  parent_ps = refl;
  null_ps = refl;
}

rebuild_recursive-Rebuilt_example :
    Runs 3 store lists_below 1 1 0 3 (11 ∷ 12 ∷ 13 ∷ []) (21 ∷ 22 ∷ []) (23 ∷ [])
rebuild_recursive-Rebuilt_example =
    rebuild_recursive-Rebuilt 3 2 store lists_below 1 1 0 3 (11 ∷ 12 ∷ 13 ∷ []) (21 ∷ 22 ∷ [])
      (23 ∷ []) is_Ready (omega arith)

rebuild_recursive-order_example :
    (n : Ptr) × (t : Store) × (c : TlNode) × (d : TlNode) × (rebuild_recursive 3 1
        (11 ∷ 12 ∷ 13 ∷ [])
        0
        3
        store
      ≡ ok n t)
    × (t.tops 11 ≡ some c)
    × (t.tops 13 ≡ some d)
    × (c.label < d.label)
rebuild_recursive-order_example =
    rebuild_recursive-order 3 2 store lists_below 1 1 0 3 11 13 [] (12 ∷ []) [] (21 ∷ 22 ∷ [])
      (23 ∷ []) is_Ready (omega arith)

Under-first : Under store 201 101 11
Under-first = record {
  node = cell 5 null null 101;
  header = header_under 11;
  x_ok = ground arith;
  l_ok = ground arith;
  p_ok = ground arith;
  at_node = refl;
  in_list = refl;
  at_list = refl;
  over_list = refl;
}

Under-second : Under store 202 102 12
Under-second = record {
  node = cell 4 null null 102;
  header = header_under 12;
  x_ok = ground arith;
  l_ok = ground arith;
  p_ok = ground arith;
  at_node = refl;
  in_list = refl;
  at_list = refl;
  over_list = refl;
}

rising : Rising store.tops 0 3 (11 ∷ 12 ∷ [])
rising = (
  leaf_node 0 1 101,
  refl,
  omega arith,
  omega arith,
  (leaf_node 1 1 102, refl, omega arith, omega arith, tt),
)

om_precedes-tops_example :
    (om_precedes 201 202 store ≡ ok true store) × (om_precedes 202 201 store ≡ ok false store)
om_precedes-tops_example =
    om_precedes-tops store 201 101 11 202 102 12 0 3 [] [] [] Under-first Under-second
      (ground arith) rising

-- A root over two leaves with a list of one node each.
abbrev small_tree : Store
small_tree = record store {
  nodes = λ p.
      if p == 201
      then some (cell 5 null null 101)
      else if p == 202
      then some (cell 4 null null 102)
      else none;
  lists = λ p.
      if p == 101
      then some (record { head = 201; tail = 201; above = 11; heavy = 0 })
      else if p == 102
      then some (record { head = 202; tail = 202; above = 12; heavy = 0 })
      else none;
  tops = λ p.
      if p == 1
      then some (inner_node 1 0 2 null 11 12)
      else if p == 11
      then some (leaf_node 0 1 101)
      else if p == 12
      then some (leaf_node 1 1 102)
      else none;
}

small_tree-Holds : Holds small_tree.tops lists_below null 0 0 1 (node 1 (leaf 11) (leaf 12))
small_tree-Holds = (refl, omega arith, refl, refl)

first_list : IsBlist small_tree 101 ((201, 5) ∷ []) 11 0
first_list = record {
  ne_null = ground arith;
  header = refl;
  chain = (ground arith, refl, tt);
  distinct = (refl, tt);
  sorted = (omega arith, tt);
}

second_list : IsBlist small_tree 102 ((202, 4) ∷ []) 12 0
second_list = record {
  ne_null = ground arith;
  header = refl;
  chain = (ground arith, refl, tt);
  distinct = (refl, tt);
  sorted = (omega arith, tt);
}

verify-leaves_example : verify 3 1 small_tree ≡ ok 2 small_tree
verify-leaves_example =
    verify-leaves 3 1 small_tree lists_below null 0 0 1 (node 1 (leaf 11) (leaf 12))
      small_tree-Holds (ground arith, ground arith, ground arith)
      ((201, 5, 0, [], first_list, omega arith), ((202, 4, 0, [], second_list, omega arith), tt))
      (omega arith) (omega arith) (omega arith)
