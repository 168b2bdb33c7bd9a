-- ===== src/Om/View.antt =====
-- A store in which at most three nodes have changed: reads and writes of these in closed form.
use mathlib.Core.Path.{fun_ext}
use pracer.Base.{◌≡◌, ◌≢◌, Option, none, some, List, ◌∷◌, arith, ◌==◌, if◌then◌else◌}
use pracer.Om.Store.{
  Ptr, null, Node, Blist, Store, Map, write, ok, fault, malloc, load_node, load_list, set_node,
  set_list, TlNode, load_top, set_top,
}

abbrev pub three : Map Node → (b n x : Ptr) → (cb cn cx : Option Node) → Map Node
three m b n x cb cn cx a = if a == b then cb else if a == n then cn else if a == x then cx else m a

pub malloc-ok :
    (s : Store) (p : Ptr) (ms : List Ptr)
    → s.mallocs ≡ p ∷ ms
    → malloc s ≡ ok p (record s { mallocs = ms })
unfolding malloc
malloc-ok s p ms e = ground arith

-- Where the third node keeps what it holds, only two have changed.
pub three-keep :
    (m : Map Node) (b n x a : Ptr) (cb cn : Option Node)
    → a ≢ b
    → a ≢ n
    → three m b n x cb cn (m x) a ≡ m a
three-keep m b n x a cb cn ab an = ground arith

pub load_node-ok :
    (s : Store) (p : Ptr) (c : Node) → p ≢ null → s.nodes p ≡ some c → load_node p s ≡ ok c s
unfolding load_node
load_node-ok s p c ne e = ground arith

pub load_node-none : (s : Store) (p : Ptr) → s.nodes p ≡ none → load_node p s ≡ fault
unfolding load_node
load_node-none s p e = ground arith

pub load_node-null : (s : Store) (p : Ptr) → p ≡ null → load_node p s ≡ fault
unfolding load_node
load_node-null s p e = ground arith

pub load_list-ok :
    (s : Store) (p : Ptr) (c : Blist) → p ≢ null → s.lists p ≡ some c → load_list p s ≡ ok c s
unfolding load_list
load_list-ok s p c ne e = ground arith

-- Three different addresses of objects.
pub record Apart (b n x : Ptr) : Type 0 where
  pub b_ok : b ≢ null
  pub n_ok : n ≢ null
  pub x_ok : x ≢ null
  pub nb : n ≢ b
  pub nx : n ≢ x
  pub xb : x ≢ b

abbrev pub view : Store → (b n x : Ptr) → Map Blist → (cb cn cx : Option Node) → List Ptr → Store
view s b n x ls cb cn cx ms = record s {
  nodes = three s.nodes b n x cb cn cx;
  lists = ls;
  mallocs = ms;
}

pub view-at :
    (s : Store) (b n x : Ptr) (cb cn cx : Option Node) (ms : List Ptr)
    → s.nodes b ≡ cb
    → s.nodes n ≡ cn
    → s.nodes x ≡ cx
    → s.mallocs ≡ ms
    → s ≡ view s b n x s.lists cb cn cx ms
view-at s b n x cb cn cx ms eb en ex em =
    λ i. record s { nodes = fun_ext {f = s.nodes} (λ a. same a) i; mallocs = em i }
  where
    same : (a : Ptr) → s.nodes a ≡ three s.nodes b n x cb cn cx a
    same a = ground arith

module _ (s : Store) {b n x : Ptr} (apart : Apart b n x) where
  abbrev v : Map Blist → (cb cn cx : Option Node) → List Ptr → Store
  v = view s b n x

  module _ (ls : Map Blist) (cb cn cx : Option Node) (ms : List Ptr) where
    pub put_b :
        (c : Option Node) → write (three s.nodes b n x cb cn cx) b c ≡ three s.nodes b n x c cn cx
    unfolding write
    put_b c = fun_ext λ a. ground arith

    pub put_n :
        (c : Option Node) → write (three s.nodes b n x cb cn cx) n c ≡ three s.nodes b n x cb c cx
    unfolding write
    put_n c = fun_ext λ a. ground arith

    pub put_x :
        (c : Option Node) → write (three s.nodes b n x cb cn cx) x c ≡ three s.nodes b n x cb cn c
    unfolding write
    put_x c = fun_ext λ a. ground arith

  module _ (ls : Map Blist) (c : Node) (d e : Option Node) (ms : List Ptr) where
    pub load_b : load_node b (v ls (some c) d e ms) ≡ ok c (v ls (some c) d e ms)
    load_b = load_node-ok _ b c apart.b_ok (ground arith)

    pub load_n : load_node n (v ls d (some c) e ms) ≡ ok c (v ls d (some c) e ms)
    load_n = load_node-ok _ n c apart.n_ok (ground arith)

    pub load_x : load_node x (v ls d e (some c) ms) ≡ ok c (v ls d e (some c) ms)
    load_x = load_node-ok _ x c apart.x_ok (ground arith)

    pub set_b :
        (f : Node → Node) → set_node b f (v ls (some c) d e ms) ≡ ok tt (v ls (some (f c)) d e ms)
    unfolding set_node
    set_b f = rw load_b (rw (put_b ls (some c) d e ms (some (f c))))

    pub set_n :
        (f : Node → Node) → set_node n f (v ls d (some c) e ms) ≡ ok tt (v ls d (some (f c)) e ms)
    unfolding set_node
    set_n f = rw load_n (rw (put_n ls d (some c) e ms (some (f c))))

    pub set_x :
        (f : Node → Node) → set_node x f (v ls d e (some c) ms) ≡ ok tt (v ls d e (some (f c)) ms)
    unfolding set_node
    set_x f = rw load_x (rw (put_x ls d e (some c) ms (some (f c))))

pub load_top-ok :
    (s : Store) (p : Ptr) (c : TlNode) → p ≢ null → s.tops p ≡ some c → load_top p s ≡ ok c s
unfolding load_top
load_top-ok s p c ne e = ground arith

abbrev pub with_top : Store → Ptr → TlNode → Store
with_top s p c = record s { tops = write s.tops p (some c) }

pub set_top-ok :
    (s : Store) (p : Ptr) (c : TlNode) (f : TlNode → TlNode)
    → p ≢ null
    → s.tops p ≡ some c
    → set_top p f s ≡ ok tt (with_top s p (f c))
unfolding set_top
set_top-ok s p c f ne e = rw (load_top-ok s p c ne e)

abbrev pub with_node : Store → Ptr → Node → Store
with_node s p c = record s { nodes = write s.nodes p (some c) }

pub set_node-ok :
    (s : Store) (p : Ptr) (c : Node) (f : Node → Node)
    → p ≢ null
    → s.nodes p ≡ some c
    → set_node p f s ≡ ok tt (with_node s p (f c))
unfolding set_node
set_node-ok s p c f ne e = rw (load_node-ok s p c ne e)

abbrev pub with_list : Store → Ptr → Blist → Store
with_list s p c = record s { lists = write s.lists p (some c) }

pub set_list-ok :
    (s : Store) (p : Ptr) (c : Blist) (f : Blist → Blist)
    → p ≢ null
    → s.lists p ≡ some c
    → set_list p f s ≡ ok tt (with_list s p (f c))
unfolding set_list
set_list-ok s p c f ne e = rw (load_list-ok s p c ne e)
