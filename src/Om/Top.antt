-- ===== src/Om/Top.antt =====
-- rdtool/src/om/om.c: the structure as its clients see it.
use pracer.Base.{
  ℕ, ◌%◌, ◌^◌, ◌-◌, zero, suc, ◌+◌, Bool, true, false, ◌&&◌, ◌||◌, none, ◌==◌, ltb, leb,
  if◌then◌else◌,
}
use pracer.Om.Label.{max_level}
use pracer.Om.Store.{
  Ptr, null, Cmd, TlNode, out_of_fuel, undefined, pure, ◌>>=◌, ◌>>◌, assert, load_node, load_list,
  load_top, put_top, set_top, set_list,
}
use pracer.Om.Blist.{bl_new, bl_insert, bl_insert_initial, bl_free, bl_verify}
use pracer.Om.Split.{tl_node_new}

-- `struct om_s`.
pub record Om : Type 0 where
  pub root : Ptr
  pub head : Ptr
  pub tail : Ptr
  pub height : ℕ

unfoldable pub om_create : Cmd Om
om_create = do
  root ← tl_node_new
  below ← bl_new
  set_top root (λ x. record x { below = below })
  set_list below (λ x. record x { above = root })
  set_top root (λ x. record x {
    level = max_level;
    num_leaves = 1;
    label = 0;
    needs_rebalance = false;
    parent = null;
    left = null;
    right = null;
  })
  pure (record { root = root; head = root; tail = root; height = 0 })

-- The top node over a node's list.
unfoldable pub above_of : Ptr → Cmd (Ptr × TlNode)
above_of n = do x ← load_node n; l ← load_list x.list; a ← load_top l.above; pure (l.above, a)

unfoldable pub om_get_tl : Ptr → Cmd Ptr
unfolding above_of
om_get_tl n = do (p, a) ← above_of n; assert (a.level == max_level); pure p

unfoldable pub om_insert_initial : Om → Cmd Ptr
om_insert_initial self = do
  r ← load_top self.root
  assert (r.num_leaves == 1)
  n ← bl_insert_initial r.below
  x ← load_node n
  assert (x.list == r.below)
  pure n

unfoldable pub om_insert : (base : Ptr) → Cmd Ptr
unfolding above_of
om_insert base = do
  b ← load_node base
  (p, a) ← above_of base
  assert (a.level == max_level)
  assert (a.below == b.list)
  n ← bl_insert b.list base
  if n == null
      then pure n
      else do x ← load_node n; b ← load_node base; assert (ltb b.label x.label); pure n

unfoldable pub om_precedes : (x y : Ptr) → Cmd Bool
om_precedes x y = if x == null then pure true else if y == null then pure false else do
  a ← load_node x
  b ← load_node y
  if a.list == b.list then pure (ltb a.label b.label) else do
    la ← load_list a.list
    lb ← load_list b.list
    ta ← load_top la.above
    tb ← load_top lb.above
    pure (ltb ta.label tb.label)

unfoldable pub is_leaf : TlNode → Bool
is_leaf n = (n.level == max_level) || ((n.left == null) && (n.right == null))

-- tl_node_free_recursive frees the top nodes alone, destroy also the lists below the leaves.
unfoldable pub tl_node_free_recursive : ℕ → Ptr → Cmd (Unit {0})
tl_node_free_recursive zero n = λ s. out_of_fuel
tl_node_free_recursive (suc fuel) n = do
  x ← load_top n
  (if ltb x.level max_level
      then (do
        (if x.left == null then pure tt else tl_node_free_recursive fuel x.left)
        (if x.right == null then pure tt else tl_node_free_recursive fuel x.right))
      else pure tt)
  put_top n none

unfoldable pub destroy : ℕ → Ptr → Cmd (Unit {0})
destroy zero n = λ s. out_of_fuel
destroy (suc fuel) n = if n == null then pure tt else do
  x ← load_top n
  (if ltb x.level max_level
      then (do destroy fuel x.left; destroy fuel x.right)
      else bl_free fuel x.below)
  put_top n none

-- An int stands by its 32 bits. Its value as a size_t extends the sign; a sum that has no int is
-- undefined.
abbrev pub int_to_size : ℕ → ℕ
int_to_size i = if ltb i 2147483648 then i else i + (2 ^ 64 - 2 ^ 32)

abbrev pub both_positive : (left right : ℕ) → Bool
both_positive left right = ltb left 2147483648 && ltb right 2147483648

abbrev pub both_negative : (left right : ℕ) → Bool
both_negative left right = leb 2147483648 left && leb 2147483648 right

unfoldable pub int_add : (left right : ℕ) → Cmd ℕ
int_add left right =
    if both_positive left right && leb 2147483648 (left + right)
    then (λ s. undefined)
    else if both_negative left right && ltb (left + right) (2 ^ 32 + 2147483648)
    then (λ s. undefined)
    else pure ((left + right) % 2 ^ 32)

-- The number of leaves, cut to an int, with every assertion on the way.
unfoldable pub verify : ℕ → Ptr → Cmd ℕ
unfolding int_add
verify zero n = λ s. out_of_fuel
verify (suc fuel) n = if n == null then pure 0 else do
  x ← load_top n
  assert (leb x.level max_level)
  left ← verify fuel x.left
  right ← verify fuel x.right
  (if x.left == null then pure tt else do l ← load_top x.left; assert (l.parent == n))
  (if x.right == null then pure tt else do r ← load_top x.right; assert (r.parent == n))
  (if x.level == max_level
      then (do
        assert (x.num_leaves == 1)
        assert ((x.left == null) && (x.right == null))
        bl_verify fuel x.below
        b ← load_list x.below
        assert (b.above == n))
      else (do sum ← int_add left right; assert (x.num_leaves == int_to_size sum)))
  pure (x.num_leaves % 2 ^ 32)

unfoldable pub om_verify : ℕ → Om → Cmd ℕ
om_verify fuel self = do
  r ← load_top self.root
  assert (r.parent == null)
  n ← verify fuel self.root
  pure 0

unfoldable pub om_destroy : ℕ → Om → Cmd (Unit {0})
om_destroy fuel self = destroy fuel self.root
