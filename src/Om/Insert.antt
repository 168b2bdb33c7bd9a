-- ===== src/Om/Insert.antt =====
-- om_insert and bl_insert_initial of rdtool/src/om, against the order that om_precedes answers.
use pracer.Base.{
  ℕ, ◌<◌, ◌≡◌, ◌≢◌, ◌∙◌, refl, true, false, none, some, List, [], ◌∷◌, ◌++◌, arith, ◌==◌, ltb,
  eqb_of_ne,
}
use pracer.Om.Label.{midpoint, max_level}
use pracer.Om.Store.{Ptr, null, Blist, TlNode, Store, ok, write-same, write-other}
use pracer.Om.View.{
  load_node-ok, load_list-ok, load_top-ok, malloc-ok, with_node, with_list, set_node-ok,
  set_list-ok,
}
use pracer.Om.Chain.{Cells, cell, IsBlist, Seg-split}
use pracer.Om.Chain.Insert.{next_label, Sorted-back}
use pracer.Om.Blist.{bl_insert, bl_insert_initial, insert_internal, link_first, node_new, raw_node}
use pracer.Om.Blist.Insert.{Updated, bl_insert-room}
use pracer.Om.Top.{om_insert, om_precedes}
use pracer.Om.Order.{om_precedes-list}

-- A leaf of the top tree stands over list `l`.
pub record TopLeaf (s : Store) (l p : Ptr) : Type 0 where
  pub p_ok : p ≢ null
  pub top : TlNode
  pub at_top : s.tops p ≡ some top
  pub level_eq : top.level ≡ max_level
  pub below_eq : top.below ≡ l

-- The run of om_insert around the run of bl_insert.
om_insert-run :
    (s t : Store) (l b n lb lab p heavy : ℕ) (xs ys zs : Cells)
    → IsBlist s l (xs ++ (b, lb) ∷ ys) p heavy
    → TopLeaf s l p
    → n ≢ null
    → IsBlist t l (xs ++ (b, lb) ∷ (n, lab) ∷ zs) p heavy
    → bl_insert l b s ≡ ok n t
    → om_insert b s ≡ ok n t
unfolding om_insert
om_insert-run s t l b n lb lab p heavy xs ys zs is top n_ok is' run =
    let (front, at_b) = Seg-split s.nodes l null xs ((b, lb) ∷ ys) null is.chain in
    let (front', at_b') = Seg-split t.nodes l null xs ((b, lb) ∷ (n, lab) ∷ zs) null is'.chain in
    let lt : lb < lab = (Sorted-back xs ((b, lb) ∷ (n, lab) ∷ zs) is'.sorted).1.0 in
    let up : ltb lb lab ≡ true = ground arith in
    let leaf : (top.top.level == max_level) ≡ true = ground (arith, top.level_eq) in
    let over : (top.top.below == l) ≡ true = ground (arith, top.below_eq) in
    simp (
      load_node-ok s b _ at_b.0 at_b.1,
      load_list-ok s l _ is.ne_null is.header,
      load_top-ok s p top.top top.p_ok top.at_top,
      leaf,
      over,
      run,
      eqb_of_ne n null n_ok,
      load_node-ok t b _ at_b'.0 at_b'.1,
      load_node-ok t n _ at_b'.2.0 at_b'.2.1,
      up,
    )

-- om_insert behind a base with room, in a list under a leaf of the top tree: it returns the new
-- node, the list has it right behind the base, and om_precedes puts the base before it and not
-- after it. malloc returns an unused address.
pub om_insert-precedes :
    (s : Store) (l b n lb lab p heavy : ℕ) (ms : List Ptr) (xs ys : Cells)
    → IsBlist s l (xs ++ (b, lb) ∷ ys) p heavy
    → TopLeaf s l p
    → n ≢ null
    → s.nodes n ≡ none
    → s.mallocs ≡ n ∷ ms
    → midpoint lb (next_label ys) ≡ lab
    → lab ≢ 0
    → (t : Store) × (om_insert b s ≡ ok n t)
      × Updated s t l (xs ++ (b, lb) ∷ (n, lab) ∷ ys) p heavy ms
      × (om_precedes b n t ≡ ok true t)
      × (om_precedes n b t ≡ ok false t)
om_insert-precedes s l b n lb lab p heavy ms xs ys is top n_ok fresh got e ne =
    let (t, run, new) = bl_insert-room s l b n lb lab p heavy ms xs ys is n_ok fresh got e ne in
    let (before, after) = om_precedes-list t l b lb n lab p heavy xs [] ys new.is_blist in
    (
      t,
      om_insert-run s t l b n lb lab p heavy xs ys ys is top n_ok new.is_blist run,
      new,
      before,
      after,
    )

node_new-ok :
    (s : Store) (n : Ptr) (ms : List Ptr)
    → n ≢ null
    → s.mallocs ≡ n ∷ ms
    → node_new s ≡ ok n (with_node (record s { mallocs = ms }) n raw_node)
unfolding node_new
node_new-ok s n ms n_ok got = simp (malloc-ok s n ms got, eqb_of_ne n null n_ok)

-- bl_insert_initial on an empty list returns the new node, and the list is then well-formed and
-- has only this node, with label 0. malloc returns an address that is not NULL.
pub bl_insert_initial-first :
    (s : Store) (l n p heavy : ℕ) (ms : List Ptr)
    → IsBlist s l [] p heavy
    → n ≢ null
    → s.mallocs ≡ n ∷ ms
    → (t : Store) × (bl_insert_initial l s ≡ ok n t) × Updated s t l ((n, 0) ∷ []) p heavy ms
unfolding bl_insert_initial insert_internal link_first
bl_insert_initial-first s l n p heavy ms is n_ok got =
    let s1 : Store = with_node (record s { mallocs = ms }) n raw_node in
    let h : Blist = record { head = n; tail = n; above = p; heavy = heavy } in
    let s2 : Store = with_list s1 l h in
    let s3 : Store = with_node s2 n raw_node in
    let t : Store = with_node s3 n (cell 0 null null l) in
    (
      t,
      simp (
        load_list-ok s l _ is.ne_null is.header,
        node_new-ok s n ms n_ok got,
        set_list-ok s1 l _ (λ l. record l { head = n; tail = n }) is.ne_null is.header,
        set_node-ok s2 n raw_node (λ x. record x { next = null; prev = null; label = 0 }) n_ok
            (write-same s.nodes n _),
        set_node-ok s3 n raw_node (λ x. record x { list = l }) n_ok (write-same s2.nodes n _),
      ),
      record {
        is_blist = record {
          ne_null = is.ne_null;
          header = write-same s.lists l _;
          chain = (n_ok, write-same s3.nodes n _, tt);
          distinct = (refl, tt);
          sorted = (omega arith, tt);
        };
        nodes = λ a out.
            let other : a ≢ n = ground arith in
            write-other s3.nodes n _ a other
            ∙ write-other s2.nodes n _ a other
            ∙ write-other s.nodes n _ a other;
        lists = λ a other. write-other s.lists l _ a other;
        tops = refl;
        mallocs = refl;
      },
    )
