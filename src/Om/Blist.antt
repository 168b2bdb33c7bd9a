-- ===== src/Om/Blist.antt =====
-- The lower list of the order-maintenance structure: rdtool/src/om/blist.c, on the store. An
-- address of a new object is what malloc returns. Loops run on fuel.
mod Steps
pub mod Insert
pub mod Order
pub mod Sound
pub mod Verify
use pracer.Base.{
  ℕ, zero, suc, ◌+◌, ◌-◌, Bool, true, false, not, ◌&&◌, ◌||◌, Option, none, some, ◌==◌, ltb, leb,
  if◌then◌else◌,
}
use pracer.Om.Label.{midpoint, node_interval, sublist_size, max_level}
use pracer.Om.Store.{
  Ptr, null, pos, negsuc, is_minus_one, Node, Blist, TlNode, Cmd, fault, out_of_fuel, pure, ◌>>=◌,
  ◌>>◌, assert, malloc, load_node, load_list, put_node, put_list, set_node, set_list, load_top,
}

-- get_new_label: 0 where there is no room behind the base.
unfoldable pub get_new_label : Ptr → Cmd ℕ
get_new_label base = do
  b ← load_node base
  next_label ←
      (if b.next == null
        then pure none
        else do n ← load_node b.next; assert (ltb b.label n.label); pure (some n.label))
  let lab = midpoint b.label next_label
  assert ((lab == 0) || ltb b.label lab)
  pure lab

-- The branches of insert_internal: the first node of a list, and a node behind a base.
unfoldable pub link_first : (self n : Ptr) → Cmd (Unit {0})
link_first self n = do
  set_list self (λ l. record l { head = n; tail = n })
  set_node n (λ x. record x { next = null; prev = null; label = 0 })

unfoldable pub link_after : (self base n : Ptr) → Cmd (Unit {0})
link_after self base n = do
  b ← load_node base
  x ← load_node n
  assert (ltb b.label x.label)
  l ← load_list self
  (if base == l.tail
      then (do
        set_list self (λ l. record l { tail = n })
        set_node n (λ x. record x { next = null }))
      else do
        set_node n (λ x. record x { next = b.next })
        set_node b.next (λ x. record x { prev = n }))
  set_node base (λ x. record x { next = n })
  set_node n (λ x. record x { prev = base })

unfoldable pub insert_internal : (self base n : Ptr) → Cmd (Unit {0})
insert_internal self base n = do
  (if base == null then link_first self n else link_after self base n)
  set_node n (λ x. record x { list = self })

-- malloc leaves the members that node_new does not set undetermined: they are 0 here, and every
-- caller sets them before they are read.
abbrev pub raw_node : Node
raw_node = record {
  label = 0;
  next = null;
  prev = null;
  list = null;
  in_use = 42;
  active_insert = 0;
  last_insert_id = negsuc 0;
}

unfoldable pub node_new : Cmd Ptr
node_new = do n ← malloc; (if n == null then (λ s. fault) else put_node n (some raw_node)); pure n

-- bl_create sets every member of the list that it is given.
unfoldable pub bl_create : Ptr → Cmd (Unit {0})
bl_create self =
    if self == null
    then (λ s. fault)
    else put_list self (some (record { head = null; tail = null; above = null; heavy = 0 }))

unfoldable pub bl_new : Cmd Ptr
unfolding bl_create
bl_new = do p ← malloc; bl_create p; pure p

unfoldable pub bl_insert_initial : Ptr → Cmd Ptr
bl_insert_initial self = do
  l ← load_list self
  assert (l.head == null)
  n ← node_new
  insert_internal self null n
  pure n

-- The part of bl_insert between the two updates of active_insert.
unfoldable pub insert_new : (self base : Ptr) → Cmd Ptr
insert_new self base = do
  lab ← get_new_label base
  if lab == 0 then pure null else do
    n ← node_new
    set_node n (λ x. record x { label = lab })
    insert_internal self base n
    pure n

-- One worker at a time inserts behind a base: another that finds active_insert set aborts.
unfoldable pub bl_insert : (self base : Ptr) → Cmd Ptr
bl_insert self base = do
  assert (not (base == null))
  b ← load_node base
  assert ((b.active_insert == 0) && is_minus_one b.last_insert_id)
  set_node base (λ x. record x { active_insert = x.active_insert + 1 })
  n ← insert_new self base
  set_node base (λ x. record x { active_insert = x.active_insert - 1 })
  b ← load_node base
  assert (b.active_insert == 0)
  set_node base (λ x. record x { last_insert_id = negsuc 0 })
  pure n

unfoldable pub bl_precedes : (x y : Ptr) → Cmd Bool
bl_precedes x y = do
  a ← load_node x
  b ← load_node y
  assert (a.list == b.list)
  pure (ltb a.label b.label)

size_loop : ℕ → (current : Ptr) → ℕ → Cmd ℕ
size_loop zero current count = λ s. out_of_fuel
size_loop (suc fuel) current count =
    if current == null
    then pure count
    else do n ← load_node current; size_loop fuel n.next (count + 1)

unfoldable pub bl_size : (fuel : ℕ) → Ptr → Cmd ℕ
unfolding size_loop
bl_size fuel self = do l ← load_list self; size_loop fuel l.head 0

destroy_loop : ℕ → (it : Ptr) → Cmd (Unit {0})
destroy_loop zero it = λ s. out_of_fuel
destroy_loop (suc fuel) it = if it == null then pure tt else do
  n ← load_node it
  set_node n.prev (λ x. record x { in_use = 69 })
  put_node n.prev none
  destroy_loop fuel n.next

-- `free` of NULL does nothing.
unfoldable pub bl_destroy : (fuel : ℕ) → Ptr → Cmd (Unit {0})
unfolding destroy_loop
bl_destroy fuel self = do
  l ← load_list self
  if l.head == null then pure tt else do
    h ← load_node l.head
    destroy_loop fuel h.next
    l ← load_list self
    if l.tail == null then pure tt else put_node l.tail none

unfoldable pub bl_free : (fuel : ℕ) → Ptr → Cmd (Unit {0})
bl_free fuel self = do
  l ← load_list self
  (if l.head == null then pure tt else bl_destroy fuel self)
  put_list self none

-- What bl_verify asserts of each node.
abbrev pub node_good : (self : Ptr) → Node → Bool
node_good self n =
    (n.in_use == 42) && (n.active_insert == 0) && is_minus_one n.last_insert_id && (n.list == self)

verify_loop : ℕ → (self p : Ptr) → Cmd (Unit {0})
verify_loop zero self p = λ s. out_of_fuel
verify_loop (suc fuel) self p = do
  n ← load_node p
  assert (node_good self n)
  if n.next == null then (do l ← load_list self; assert (l.tail == p)) else do
    assert (not (n.next == p))
    m ← load_node n.next
    assert (ltb n.label m.label && (m.prev == p))
    verify_loop fuel self n.next

unfoldable pub bl_verify : (fuel : ℕ) → Ptr → Cmd (Unit {0})
unfolding verify_loop
bl_verify fuel self = do
  l ← load_list self
  if l.head == null
      then assert ((l.tail == null) && (l.heavy == 0))
      else do n ← load_node l.head; assert (n.prev == null); verify_loop fuel self l.head
