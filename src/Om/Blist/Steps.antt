-- ===== src/Om/Blist/Steps.antt =====
-- The steps of bl_insert on the three nodes that it touches: the base `b`, the new node `n` and
-- the node `x` behind the base.
use pracer.Base.{
  ℕ, ◌<◌, ◌≡◌, ◌≢◌, refl, true, ◌||◌, Option, none, some, List, ◌∷◌, arith, lt→ltb, ◌==◌, eqb_of_ne,
  ltb,
}
use pracer.Om.Label.{midpoint}
use pracer.Om.Store.{Ptr, null, Node, Blist, Store, Map, write, ok, malloc, load_list, set_list}
use pracer.Om.Chain.{cell}
use pracer.Om.View
use pracer.Om.View.{Apart, view, load_list-ok}
use pracer.Om.Blist.{
  get_new_label, link_after, insert_internal, node_new, insert_new, bl_insert, raw_node,
}

-- The base while an insertion behind it is under way.
abbrev busy : (label : ℕ) (next prev list : Ptr) → Node
busy label next prev list = record (cell label next prev list) { active_insert = 1 }

module _ (s : Store) {b n x : Ptr} (apart : Apart b n x) (self : Ptr) (self_ok : self ≢ null)
    (ls : Map Blist) (lb pv : ℕ) where
  abbrev v : Map Blist → (cb cn cx : Option Node) → List Ptr → Store
  v = view s b n x

  node_new-view :
      (cb cn cx : Option Node) (ms : List Ptr)
      → node_new (v ls cb cn cx (n ∷ ms)) ≡ ok n (v ls cb (some raw_node) cx ms)
  unfolding node_new malloc
  node_new-view cb cn cx ms =
      rw (eqb_of_ne n null apart.n_ok) (rw (View.put_n s apart ls cb cn cx ms (some raw_node)))

  -- A reading of the list's own object, which these steps leave alone.
  header :
      (hdr : Blist) (cb cn cx : Option Node) (ms : List Ptr)
      → ls self ≡ some hdr
      → load_list self (v ls cb cn cx ms) ≡ ok hdr (v ls cb cn cx ms)
  header hdr cb cn cx ms at = load_list-ok (v ls cb cn cx ms) self hdr self_ok at

  module _ (lx nn : ℕ) (lt : lb < lx) where
    pub get_new_label-mid :
        (lab : ℕ) (d : Option Node) (ms : List Ptr)
        → midpoint lb (some lx) ≡ lab
        → ((lab == 0) || ltb lb lab) ≡ true
        → get_new_label b (v ls (some (busy lb x pv self)) d (some (cell lx nn b self)) ms)
          ≡ ok lab (v ls (some (busy lb x pv self)) d (some (cell lx nn b self)) ms)
    unfolding get_new_label
    get_new_label-mid lab d ms e room = simp (
      View.load_b s apart,
      eqb_of_ne x null apart.x_ok,
      View.load_x s apart,
      lt→ltb lb lx lt,
      e,
      room,
    )

    insert_internal-mid :
        (lab : ℕ) (hdr : Blist) (ms : List Ptr) (c : Node)
        → ls self ≡ some hdr
        → b ≢ hdr.tail
        → lb < lab
        → insert_internal self b n (
            v ls
              (some (busy lb x pv self))
              (some (record c { label = lab }))
              (some (cell lx nn b self))
              ms)
          ≡ ok tt (
              v ls
                (some (busy lb n pv self))
                (some (record c { label = lab; next = x; prev = b; list = self }))
                (some (cell lx nn n self))
                ms)
    unfolding insert_internal link_after
    insert_internal-mid lab hdr ms c at mid lt' = simp (
      View.load_b s apart,
      View.load_n s apart,
      View.set_b s apart,
      View.set_n s apart,
      View.set_x s apart,
      lt→ltb lb lab lt',
      header hdr,
      eqb_of_ne b null apart.b_ok,
      eqb_of_ne b hdr.tail mid,
      at,
    )

    -- With room between the base and its successor.
    pub bl_insert-mid :
        (lab : ℕ) (hdr : Blist) (ms : List Ptr) (d : Option Node)
        → ls self ≡ some hdr
        → b ≢ hdr.tail
        → midpoint lb (some lx) ≡ lab
        → lb < lab
        → bl_insert self b (v ls (some (cell lb x pv self)) d (some (cell lx nn b self)) (n ∷ ms))
          ≡ ok n (
              v ls
                (some (cell lb n pv self))
                (some (cell lab x b self))
                (some (cell lx nn n self))
                ms)
    unfolding bl_insert insert_new
    bl_insert-mid lab hdr ms d at mid e lt' =
        let get = get_new_label-mid lab d (n ∷ ms) e (ground arith) in
        simp (
          eqb_of_ne b null apart.b_ok,
          View.load_b s apart,
          View.set_b s apart,
          get,
          eqb_of_ne lab 0 (omega arith),
          node_new-view,
          View.set_n s apart,
          insert_internal-mid lab hdr ms raw_node at mid lt',
        )

    -- With no room between them nothing changes.
    pub bl_insert-full :
        (ms : List Ptr) (d : Option Node)
        → midpoint lb (some lx) ≡ 0
        → bl_insert self b (v ls (some (cell lb x pv self)) d (some (cell lx nn b self)) ms)
          ≡ ok null (v ls (some (cell lb x pv self)) d (some (cell lx nn b self)) ms)
    unfolding bl_insert insert_new
    bl_insert-full ms d e =
        let get = get_new_label-mid 0 d ms e refl in
        simp (eqb_of_ne b null apart.b_ok, View.load_b s apart, View.set_b s apart, get)

  -- The base is the last node: `x` is then any third address, and keeps what it holds.
  get_new_label-end :
      (lab : ℕ) (d e : Option Node) (ms : List Ptr)
      → midpoint lb none ≡ lab
      → ((lab == 0) || ltb lb lab) ≡ true
      → get_new_label b (v ls (some (busy lb null pv self)) d e ms)
        ≡ ok lab (v ls (some (busy lb null pv self)) d e ms)
  unfolding get_new_label
  get_new_label-end lab d e ms eq room = simp (View.load_b s apart, eq, room)

  abbrev ended : Blist → Map Blist
  ended hdr = write ls self (some (record hdr { tail = n }))

  set_tail :
      (hdr : Blist) (cb cn cx : Option Node) (ms : List Ptr)
      → ls self ≡ some hdr
      → set_list self (λ l. record l { tail = n }) (v ls cb cn cx ms)
        ≡ ok tt (v (ended hdr) cb cn cx ms)
  unfolding set_list
  set_tail hdr cb cn cx ms at = rw (header hdr cb cn cx ms at)

module _ (s : Store) {b n x : Ptr} (apart : Apart b n x) (self : Ptr) (self_ok : self ≢ null)
    (ls : Map Blist) (lb pv : ℕ) (hdr : Blist) (at : ls self ≡ some hdr) (here : b ≡ hdr.tail) where
  abbrev w : (cb cn cx : Option Node) → List Ptr → Store
  w = view s b n x ls

  abbrev w' : (cb cn cx : Option Node) → List Ptr → Store
  w' = view s b n x (ended s apart self self_ok ls lb pv hdr)

  insert_internal-end :
      (c : Node) (lab : ℕ) (e : Option Node) (ms : List Ptr)
      → lb < lab
      → insert_internal self b n
          (w (some (busy lb null pv self)) (some (record c { label = lab })) e ms)
        ≡ ok tt (
            w'
              (some (busy lb n pv self))
              (some (record c { label = lab; next = null; prev = b; list = self }))
              e
              ms)
  unfolding insert_internal link_after
  insert_internal-end c lab e ms lt' =
      let same : (b == hdr.tail) ≡ true = ground arith in
      let ls' = ended s apart self self_ok ls lb pv hdr in
      simp (
        View.load_b s apart ls,
        View.load_n s apart ls,
        lt→ltb lb lab lt',
        header s apart self self_ok ls lb pv hdr,
        eqb_of_ne b null apart.b_ok,
        same,
        at,
        set_tail s apart self self_ok ls lb pv hdr,
        View.set_b s apart ls',
        View.set_n s apart ls',
      )

  pub bl_insert-end :
      (lab : ℕ) (d e : Option Node) (ms : List Ptr)
      → midpoint lb none ≡ lab
      → lb < lab
      → bl_insert self b (w (some (cell lb null pv self)) d e (n ∷ ms))
        ≡ ok n (w' (some (cell lb n pv self)) (some (cell lab null b self)) e ms)
  unfolding bl_insert insert_new
  bl_insert-end lab d e ms eq lt' =
      let ls' = ended s apart self self_ok ls lb pv hdr in
      let get =
        get_new_label-end s apart self self_ok ls lb pv lab d e (n ∷ ms) eq (ground arith) in
      simp (
        eqb_of_ne b null apart.b_ok,
        View.load_b s apart ls,
        View.load_b s apart ls',
        View.set_b s apart ls,
        View.set_b s apart ls',
        get,
        eqb_of_ne lab 0 (omega arith),
        node_new-view s apart self self_ok ls lb pv,
        View.set_n s apart ls,
        insert_internal-end raw_node lab e ms lt',
      )

  pub bl_insert-end_full :
      (d e : Option Node) (ms : List Ptr)
      → midpoint lb none ≡ 0
      → bl_insert self b (w (some (cell lb null pv self)) d e ms)
        ≡ ok null (w (some (cell lb null pv self)) d e ms)
  unfolding bl_insert insert_new
  bl_insert-end_full d e ms eq =
      let get = get_new_label-end s apart self self_ok ls lb pv 0 d e ms eq refl in
      simp (eqb_of_ne b null apart.b_ok, View.load_b s apart ls, View.set_b s apart ls, get)
