-- ===== src/Om/Relabel/Run.antt =====
-- One call of rebuild_recursive on two leaves or more, given what its two inner calls return.
use pracer.Base.{
  ℕ, suc, ◌+◌, ◌%◌, ◌≡◌, ◌≢◌, ◌∙◌, true, false, some, List, ◌∷◌, ◌==◌, leb, eqb_of_ne, length, take,
  drop,
}
use pracer.Om.Store.{Ptr, null, TlNode, Store, ok, write-same, write-other}
use pracer.Om.View.{malloc-ok, load_top-ok, set_top-ok, with_top}
use pracer.Om.Split.{tl_node_new, raw_top}
use pracer.Om.Relabel.{rebuild_recursive, middle, half_up}
use pracer.Om.Tree.{inner_node}

-- The new node before its label is set.
abbrev pub started : (parent level left right : ℕ) → TlNode
started parent level left right = record raw_top {
  level = level;
  parent = parent;
  left = left;
  right = right;
}

abbrev pub before_left : Store → (n parent level : ℕ) → List Ptr → Store
before_left s n parent level ms =
    with_top
      (with_top (with_top (record s { mallocs = ms }) n raw_top) n (started parent 0 null null)) n
      (started parent level null null)

abbrev pub finished : Store → (n parent level left right size rlab : ℕ) → Store
finished t n parent level left right size rlab =
    with_top (with_top t n (started parent level left right)) n
      (inner_node rlab level size parent left right)

module _ (s : Store) (n parent level llab rlab : ℕ) (p : TlNode) (ms array : List Ptr)
    (n_ok : n ≢ null) (parent_ok : parent ≢ null) (apart : parent ≢ n)
    (at_parent : s.tops parent ≡ some p) (level_eq : p.level + 1 ≡ level)
    (got : s.mallocs ≡ n ∷ ms) where
  tl_node_new-ok : tl_node_new s ≡ ok n (with_top (record s { mallocs = ms }) n raw_top)
  unfolding tl_node_new
  tl_node_new-ok = rw (malloc-ok s n ms got, eqb_of_ne n null n_ok)

  pub inner_run :
      (fuel left right : ℕ) (t1 t2 : Store)
      → (length array == 1) ≡ false
      → leb llab rlab ≡ true
      → (rlab % 2 == 1) ≡ true
      → t1.tops n ≡ some (started parent level null null)
      → t2.tops n ≡ some (started parent level left null)
      → rebuild_recursive fuel n
          (take (half_up (length array)) array)
          llab
          (middle llab rlab)
          (before_left s n parent level ms)
        ≡ ok left t1
      → rebuild_recursive fuel n
          (drop (half_up (length array)) array)
          (middle llab rlab + 1)
          rlab
          (with_top t1 n (started parent level left null))
        ≡ ok right t2
      → rebuild_recursive (suc fuel) parent array llab rlab s
        ≡ ok n (finished t2 n parent level left right (length array) rlab)
  unfolding rebuild_recursive
  inner_run fuel left right t1 t2 many order odd at1 at2 run_left run_right =
      let s1 = with_top (record s { mallocs = ms }) n raw_top in
      let s2 = with_top s1 n (started parent 0 null null) in
      let t3 = with_top t2 n (started parent level left right) in
      let kept : s2.tops parent ≡ some p =
        write-other s1.tops n _ parent apart ∙ write-other s.tops n _ parent apart ∙ at_parent in
      rw
        (
          many,
          tl_node_new-ok,
          set_top-ok s1 n raw_top _ n_ok (write-same s.tops n _),
          order,
          load_top-ok s2 parent p parent_ok kept,
          level_eq,
          set_top-ok s2 n (started parent 0 null null) _ n_ok (write-same s1.tops n _),
        )
        (rw (
          run_left,
          set_top-ok t1 n (started parent level null null) _ n_ok at1,
          run_right,
          set_top-ok t2 n (started parent level left null) _ n_ok at2,
          set_top-ok t3 n (started parent level left right) _ n_ok (write-same t2.tops n _),
          odd,
        ))
