-- ===== src/Om/Store.antt =====
-- The objects of the order-maintenance structure in memory, and commands over them:
-- `bl_node` and `blist` of rdtool/src/om/blist.h and `tl_node` of rdtool/src/om/om.h.
use pracer.Base.{
  ℕ, Option, none, some, Bool, true, false, List, [], ◌∷◌, ◌==◌, if◌then◌else◌, eqb_refl, eqb_of_ne,
  ◌≡◌, ◌≢◌,
}

abbrev pub Ptr : Type 0
Ptr = ℕ

abbrev pub null : Ptr
null = 0

-- The values that an `int` takes here.
pub data ℤ : Type 0 where
  pos : ℕ → ℤ
  negsuc : ℕ → ℤ

abbrev pub is_minus_one : ℤ → Bool
is_minus_one (pos n) = false
is_minus_one (negsuc n) = n == 0

pub record Node : Type 0 where
  pub label : ℕ
  pub next : Ptr
  pub prev : Ptr
  pub list : Ptr
  pub in_use : ℕ
  pub active_insert : ℕ
  pub last_insert_id : ℤ

pub record Blist : Type 0 where
  pub head : Ptr
  pub tail : Ptr
  pub above : Ptr
  pub heavy : ℕ

-- A union is one field: `left` is also `prev`, `right` is also `next`, `below` also `split_nodes`.
pub record TlNode : Type 0 where
  pub label : ℕ
  pub level : ℕ
  pub num_leaves : ℕ
  pub parent : Ptr
  pub left : Ptr
  pub right : Ptr
  pub below : Ptr
  pub needs_rebalance : Bool

-- `mallocs` holds what the coming calls of malloc return; an allocator with nothing left returns
-- NULL. A map gives `none` where no object of its type stands.
pub record Store : Type 0 where
  pub nodes : Ptr → Option Node
  pub lists : Ptr → Option Blist
  pub tops : Ptr → Option TlNode
  pub mallocs : List Ptr

abbrev pub Map : Type 0 → Type 0
Map A = Ptr → Option A

unfoldable pub write : {A : Type 0} → Map A → Ptr → Option A → Map A
write m p c a = if a == p then c else m a

pub write-same : {A : Type 0} (m : Map A) (p : Ptr) (c : Option A) → write m p c p ≡ c
unfolding write
write-same m p c = rw (eqb_refl p)

pub write-other :
    {A : Type 0} (m : Map A) (p : Ptr) (c : Option A) (a : Ptr) → a ≢ p → write m p c a ≡ m a
unfolding write
write-other m p c a ne = rw (eqb_of_ne a p ne)

-- `fault` is an access through NULL or through a pointer to no object; `assert_failed` is abort;
-- `out_of_fuel` is a loop that has used its fuel; `undefined` is a shift or a sum of ints that the
-- C standard leaves undefined; `exited` is a call of exit.
pub data Outcome (A : Type 0) : Type 0 where
  ok : A → Store → Outcome A
  assert_failed : Outcome A
  fault : Outcome A
  out_of_fuel : Outcome A
  undefined : Outcome A
  exited : Outcome A

abbrev pub Cmd : Type 0 → Type 0
Cmd A = Store → Outcome A

abbrev pub pure : {A : Type 0} → A → Cmd A
pure a s = ok a s

module _ {A B : Type 0} where
  abbrev pub and_then : Outcome A → (A → Cmd B) → Outcome B
  and_then (ok a s) k = k a s
  and_then assert_failed k = assert_failed
  and_then fault k = fault
  and_then out_of_fuel k = out_of_fuel
  and_then undefined k = undefined
  and_then exited k = exited

  infixl 5 ◌>>=◌ ◌>>◌
  abbrev pub ◌>>=◌ : Cmd A → (A → Cmd B) → Cmd B
  m >>= k = λ s. and_then (m s) k

  abbrev pub ◌>>◌ : Cmd A → Cmd B → Cmd B
  m >> n = m >>= λ _. n

abbrev pub assert : Bool → Cmd (Unit {0})
assert true = ok tt
assert false = λ s. assert_failed

abbrev pub read : {A : Type 0} → Option A → Cmd A
read none = λ s. fault
read (some a) = ok a

unfoldable pub malloc : Cmd Ptr
malloc s = elim s.mallocs [ [] ↦ ok null s | p ∷ ps ↦ ok p (record s { mallocs = ps }) ]

unfoldable pub load_node : Ptr → Cmd Node
load_node p s = if p == null then fault else read (s.nodes p) s

unfoldable pub load_list : Ptr → Cmd Blist
load_list p s = if p == null then fault else read (s.lists p) s

unfoldable pub load_top : Ptr → Cmd TlNode
load_top p s = if p == null then fault else read (s.tops p) s

-- The object at an address takes a new value.
abbrev pub put_node : Ptr → Option Node → Cmd (Unit {0})
put_node p c s = ok tt (record s { nodes = write s.nodes p c })

abbrev pub put_list : Ptr → Option Blist → Cmd (Unit {0})
put_list p c s = ok tt (record s { lists = write s.lists p c })

abbrev pub put_top : Ptr → Option TlNode → Cmd (Unit {0})
put_top p c s = ok tt (record s { tops = write s.tops p c })

-- `p->f = e`: a read of the object and a write of its new value.
unfoldable pub set_node : Ptr → (Node → Node) → Cmd (Unit {0})
unfolding load_node
set_node p f = do x ← load_node p; put_node p (some (f x))

unfoldable pub set_list : Ptr → (Blist → Blist) → Cmd (Unit {0})
unfolding load_list
set_list p f = do x ← load_list p; put_list p (some (f x))

unfoldable pub set_top : Ptr → (TlNode → TlNode) → Cmd (Unit {0})
unfolding load_top
set_top p f = do x ← load_top p; put_top p (some (f x))
