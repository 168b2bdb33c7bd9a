-- ===== src/Om/Blist/Insert.antt =====
-- bl_insert against the list of nodes that it works on.
use pracer.Base.{
  ℕ, ◌+◌, ◌<◌, ◌≡◌, ◌≢◌, ◌∙◌, refl, sym, ap, false, none, some, List, [], ◌∷◌, ◌++◌, arith,
}
use pracer.Om.Label.{midpoint, midpoint-some, midpoint-none}
use pracer.Om.Store.{Ptr, null, Node, Blist, Store, Map, write, write-same, write-other, ok}
use pracer.Om.View.{Apart, view, view-at, three, three-keep}
use pracer.Om.Chain.{
  Cells, first, last, cell, has, Sorted, IsBlist, has-append, first-append, last-append, Seg-frame,
  Seg-append, Seg-split,
}
use pracer.Om.Chain.Insert.{
  next_label, Fits, Distinct-insert, Sorted-insert, Distinct-front, Distinct-back, Sorted-back,
  not-has_of_none, last-ne,
}
use pracer.Om.Blist.{bl_insert}
use pracer.Om.Blist.Steps.{bl_insert-mid, bl_insert-end}

-- `t` is `s` with the nodes `xs` in list `l`; all other objects are as before, and the allocator
-- has `ms` left.
pub record Updated (s t : Store) (l : Ptr) (xs : Cells) (above heavy : ℕ) (ms : List Ptr)
    : Type 0 where
  pub is_blist : IsBlist t l xs above heavy
  pub nodes : (a : Ptr) → has a xs ≡ false → t.nodes a ≡ s.nodes a
  pub lists : (a : Ptr) → a ≢ l → t.lists a ≡ s.lists a
  pub tops : t.tops ≡ s.tops
  pub mallocs : t.mallocs ≡ ms

-- A label that the midpoint rule gives lies strictly between its neighbours.
midpoint-Fits :
    (lb lab : ℕ) (ys : Cells)
    → Sorted ((0, lb) ∷ ys)
    → midpoint lb (next_label ys) ≡ lab
    → lab ≢ 0
    → (lb < lab) × Fits lab ys
midpoint-Fits lb lab [] sorted e ne = ground (arith, midpoint-none lb)
midpoint-Fits lb lab ((p, lp) ∷ ys) sorted e ne = ground (arith, midpoint-some lb lp)

module _ (s : Store) (l b n lb lab : ℕ) (above heavy : ℕ) (ms : List Ptr) (xs : Cells)
    (n_ok : n ≢ null) (fresh : s.nodes n ≡ none) (got : s.mallocs ≡ n ∷ ms) (ne : lab ≢ 0) where
  insert_mid :
      (x lx : ℕ) (zs : Cells)
      → IsBlist s l (xs ++ (b, lb) ∷ (x, lx) ∷ zs) above heavy
      → midpoint lb (some lx) ≡ lab
      → (t : Store) × (bl_insert l b s ≡ ok n t)
        × Updated s t l (xs ++ (b, lb) ∷ (n, lab) ∷ (x, lx) ∷ zs) above heavy ms
  insert_mid x lx zs is e =
      let ys : Cells = (b, lb) ∷ (x, lx) ∷ zs in
      let (front, back) = Seg-split s.nodes l null xs ys null is.chain in
      let out = not-has_of_none s.nodes l null (xs ++ ys) null n is.chain fresh in
      let db = Distinct-back xs ys is.distinct in
      let sb = Sorted-back xs ys is.sorted in
      let apart : Apart b n x = ground (arith, has-append n xs ys) in
      let fits = midpoint-Fits lb lab ((x, lx) ∷ zs) (sb.0, sb.1) e ne in
      let m' : Map Node =
        three s.nodes b n x (some (cell lb n (last null xs) l)) (some (cell lab x b l))
          (some (cell lx (first zs null) n l)) in
      let keep_front = Seg-frame s.nodes l m' null xs b front (λ a h.
        ground
          (arith, has-append a xs ys, Distinct-front xs ys a is.distinct, has-append n xs ys)) in
      let keep_back =
        Seg-frame s.nodes l m' x zs null back.2.2 (λ a h. ground (arith, has-append n xs ys)) in
      (
        view s b n x s.lists (some (cell lb n (last null xs) l)) (some (cell lab x b l))
            (some (cell lx (first zs null) n l)) ms,
        ap (bl_insert l b) (
              view-at s b n x (some (cell lb x (last null xs) l)) none
                (some (cell lx (first zs null) b l)) (n ∷ ms) back.1 fresh back.2.1 got)
            ∙ bl_insert-mid s apart l is.ne_null s.lists lb (last null xs) lx (first zs null) sb.1.0
                lab _ ms none is.header
                (rw (last-append null xs ys) (last-ne b x zs (ground arith) (ground arith))) e
                fits.0,
        record {
          is_blist = record {
            ne_null = is.ne_null;
            header =
                rw
                  (
                    first-append xs ((b, lb) ∷ (n, lab) ∷ (x, lx) ∷ zs),
                    last-append null xs ((b, lb) ∷ (n, lab) ∷ (x, lx) ∷ zs),
                  )
                  (rw (first-append xs ys, last-append null xs ys) at is.header);
            chain = Seg-append m' l null xs ((b, lb) ∷ (n, lab) ∷ (x, lx) ∷ zs) null keep_front (
              ground arith,
              ground arith,
              (ground arith, ground arith, (ground arith, ground arith, keep_back)),
            );
            distinct = Distinct-insert xs ((x, lx) ∷ zs) b n lb lab is.distinct out;
            sorted = Sorted-insert xs ((x, lx) ∷ zs) b n lb lab fits.0 fits.1 is.sorted;
          };
          nodes = λ a h. ground (arith, has-append a xs ((b, lb) ∷ (n, lab) ∷ (x, lx) ∷ zs));
          lists = λ a h. refl;
          tops = refl;
          mallocs = refl;
        },
      )

  insert_end :
      IsBlist s l (xs ++ (b, lb) ∷ []) above heavy
      → midpoint lb none ≡ lab
      → (t : Store) × (bl_insert l b s ≡ ok n t)
        × Updated s t l (xs ++ (b, lb) ∷ (n, lab) ∷ []) above heavy ms
  insert_end is e =
      let ys : Cells = (b, lb) ∷ [] in
      let (front, back) = Seg-split s.nodes l null xs ys null is.chain in
      let out = not-has_of_none s.nodes l null (xs ++ ys) null n is.chain fresh in
      let sb = Sorted-back xs ys is.sorted in
      let x : ℕ = b + n + 1 in
      let apart : Apart b n x = ground (arith, has-append n xs ys) in
      let fits = midpoint-Fits lb lab [] (sb.0, sb.1) e ne in
      let m' : Map Node =
        three s.nodes b n x (some (cell lb n (last null xs) l)) (some (cell lab null b l))
          (s.nodes x) in
      let keep_front = Seg-frame s.nodes l m' null xs b front (λ a h.
        three-keep s.nodes b n x a _ _ (ground (arith, Distinct-front xs ys a is.distinct))
          (ground (arith, has-append n xs ys))) in
      let hdr : Blist = record {
        head = first (xs ++ ys) null;
        tail = last null (xs ++ ys);
        above = above;
        heavy = heavy;
      } in
      let ls : Map Blist = write s.lists l (some (record hdr { tail = n })) in
      (
        view s b n x ls (some (cell lb n (last null xs) l)) (some (cell lab null b l)) (s.nodes x)
            ms,
        ap (bl_insert l b) (
              view-at s b n x (some (cell lb null (last null xs) l)) none (s.nodes x) (n ∷ ms)
                back.1 fresh refl got)
            ∙ bl_insert-end s apart l is.ne_null s.lists lb (last null xs) hdr is.header
                (sym (last-append null xs ys)) lab none (s.nodes x) ms e fits.0,
        record {
          is_blist = record {
            ne_null = is.ne_null;
            header =
                write-same s.lists l _
                ∙ rw
                    (
                      first-append xs ys,
                      first-append xs ((b, lb) ∷ (n, lab) ∷ []),
                      last-append null xs ((b, lb) ∷ (n, lab) ∷ []),
                    )
                    refl;
            chain =
                Seg-append m' l null xs ((b, lb) ∷ (n, lab) ∷ []) null keep_front
                  (ground arith, ground arith, (ground arith, ground arith, tt));
            distinct = Distinct-insert xs [] b n lb lab is.distinct out;
            sorted = Sorted-insert xs [] b n lb lab fits.0 fits.1 is.sorted;
          };
          nodes = λ a h.
              three-keep s.nodes b n x a _ _
                (ground (arith, has-append a xs ((b, lb) ∷ (n, lab) ∷ [])))
                (ground (arith, has-append a xs ((b, lb) ∷ (n, lab) ∷ [])));
          lists = λ a h. write-other s.lists l _ a h;
          tops = refl;
          mallocs = refl;
        },
      )

-- With room behind the base, bl_insert returns the new node, which then stands right behind the
-- base: the list stays well-formed, with links both ways and increasing labels, and no node of
-- another list is written. The base is any node of the list, and malloc returns an unused address.
pub bl_insert-room :
    (s : Store) (l b n lb lab above heavy : ℕ) (ms : List Ptr) (xs ys : Cells)
    → IsBlist s l (xs ++ (b, lb) ∷ ys) above heavy
    → n ≢ null
    → s.nodes n ≡ none
    → s.mallocs ≡ n ∷ ms
    → midpoint lb (next_label ys) ≡ lab
    → lab ≢ 0
    → (t : Store) × (bl_insert l b s ≡ ok n t)
      × Updated s t l (xs ++ (b, lb) ∷ (n, lab) ∷ ys) above heavy ms
bl_insert-room s l b n lb lab above heavy ms xs [] is n_ok fresh got e ne =
    insert_end s l b n lb lab above heavy ms xs n_ok fresh got ne is e
bl_insert-room s l b n lb lab above heavy ms xs ((x, lx) ∷ zs) is n_ok fresh got e ne =
    insert_mid s l b n lb lab above heavy ms xs n_ok fresh got ne x lx zs is e
