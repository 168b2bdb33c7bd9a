-- ===== src/Om/Relabel/Total.antt =====
-- rebuild_recursive returns, with the tree that it is to build.
use native.Mathlib.Nat.{pow-suc}
use mathlib.Core.Path.{ap₂}
use pracer.Base.{
  ℕ, zero, suc, ◌+◌, ◌*◌, ◌%◌, ◌^◌, ◌≤◌, ◌<◌, ◌≡◌, ◌≢◌, ◌∙◌, ◌⊎◌, inl, inr, refl, sym, ap, ◌==◌,
  leb, Bool, true, false, ◌||◌, some, List, [], ◌∷◌, ◌++◌, arith, length, take, drop, mem,
  ne_of_mem, Bool-cases,
}
use pracer.Om.Store.{Ptr, null, TlNode, Store, ok, write-same, write-other}
use pracer.Om.View.{with_top}
use pracer.Om.Relabel.{middle, rebuild_recursive}
use pracer.Om.Relabel.Rebuild.{Ready, Rebuilt, rebuild_one, order_of}
use pracer.Om.Relabel.Run.{started, before_left, finished, inner_run}
use pracer.Om.Relabel.Halves.{Cut, mem-front, mem-back, not-mem_parts}
use pracer.Om.Relabel.Ready.{
  Ready-left, Ready-right, Cut-array, Cut-ps, n_array, apart_rs, pow_pos, front_ps, back_ps, m,
}
use pracer.Om.Tree.{node, leaves, Holds-frame, Holds-Rising, Rising-lt, inner_node, covers}

-- A total run with its result.
abbrev pub Runs :
    (fuel : ℕ) (s : Store) (below : Ptr → Ptr) (parent level llab rlab : ℕ) (array ps ms : List Ptr)
    → Type 0
Runs fuel s below parent level llab rlab array ps ms =
    (n : Ptr) × (t : Store) × (rebuild_recursive fuel parent array llab rlab s ≡ ok n t)
    × Rebuilt s t below n parent level llab rlab array ps ms

-- The right end of a range of an even number of labels from an even label on is odd.
rlab_odd :
    (llab rlab w : ℕ) → llab % 2 ≡ 0 → rlab + 1 ≡ llab + w * 2 → 1 ≤ w → (rlab % 2 == 1) ≡ true
rlab_odd llab rlab w even e pos = ground arith

module _ (s : Store) (below : Ptr → Ptr) (parent level llab rlab k n : ℕ) (array rs ms : List Ptr)
    (r : Ready s below parent level llab rlab (suc k) array (n ∷ rs) ms)
    (two : 2 ≤ length array) where
  abbrev mid : ℕ
  mid = m s below parent level llab rlab k n array rs ms r two

  abbrev ps1 : List Ptr
  ps1 = front_ps s below parent level llab rlab k n array rs ms r two

  abbrev ps2 : List Ptr
  ps2 = back_ps s below parent level llab rlab k n array rs ms r two

  abbrev s3 : Store
  s3 = before_left s n parent level (rs ++ ms)

  at_s3 : s3.tops n ≡ some (started parent level null null)
  at_s3 = write-same _ n _

  same_s3 : (a : Ptr) → a ≢ n → s3.tops a ≡ s.tops a
  same_s3 a ne = write-other _ n _ a ne ∙ write-other _ n _ a ne ∙ write-other s.tops n _ a ne

  left-Ready :
      Ready s3 below n (level + 1) llab (middle llab rlab) k (take mid array) ps1 (ps2 ++ ms)
  left-Ready = Ready-left s below parent level llab rlab k n array rs ms r two s3 at_s3 same_s3 refl

  array-Cut : Cut array (take mid array) (drop mid array)
  array-Cut = Cut-array s below parent level llab rlab k n array rs ms r two

  ps-Cut : Cut rs ps1 ps2
  ps-Cut = Cut-ps s below parent level llab rlab k n array rs ms r two

  out_rs : (a : ℕ) → mem a array ≡ true → mem a rs ≡ false
  out_rs = apart_rs s below parent level llab rlab k n array rs ms r two

  out_array : (a : ℕ) → mem a rs ≡ true → mem a array ≡ false
  out_array a i = elim (Bool-cases (mem a array)) [ inl h ↦ cc (out_rs a h) | inr h ↦ h ]

  ne_n : (a : ℕ) → (mem a array ≡ true) ⊎ (mem a rs ≡ true) → a ≢ n
  ne_n a (inl i) =
      ne_of_mem a n array i (n_array s below parent level llab rlab k n array rs ms r two)
  ne_n a (inr i) = ne_of_mem a n rs i r.unique_ps.0

  or_cases : (x y : Bool) → (x || y) ≡ true → (x ≡ true) ⊎ (y ≡ true)
  or_cases x y h = ground arith

  front_apart :
      (a : ℕ)
      → (mem a (take mid array) ≡ true) ⊎ (mem a ps1 ≡ true)
      → (a ≢ n) × (mem a (drop mid array) ≡ false) × (mem a ps2 ≡ false)
  front_apart a (inl i) =
      let in_array = mem-front a array-Cut i in
      (
        ne_n a (inl in_array),
        array-Cut.front_sub a i,
        (not-mem_parts a ps-Cut (out_rs a in_array)).1,
      )
  front_apart a (inr i) =
      let in_rs = mem-front a ps-Cut i in
      (ne_n a (inr in_rs), (not-mem_parts a array-Cut (out_array a in_rs)).1, ps-Cut.front_sub a i)

  back_ne : (a : ℕ) → (mem a (drop mid array) ≡ true) ⊎ (mem a ps2 ≡ true) → a ≢ n
  back_ne a (inl i) = ne_n a (inl (mem-back a array-Cut i))
  back_ne a (inr i) = ne_n a (inr (mem-back a ps-Cut i))

  module _ (t1 : Store) (left : ℕ)
      (one : Rebuilt s3 t1 below left n
        (level + 1)
        llab
        (middle llab rlab)
        (take mid array)
        ps1
        (ps2 ++ ms)) where
    n_out : (mem n (take mid array) ≡ false) × (mem n (drop mid array) ≡ false)
    n_out = not-mem_parts n array-Cut (n_array s below parent level llab rlab k n array rs ms r two)

    n_new : (mem n ps1 ≡ false) × (mem n ps2 ≡ false)
    n_new = not-mem_parts n ps-Cut r.unique_ps.0

    at_t1 : t1.tops n ≡ some (started parent level null null)
    at_t1 = one.tops n n_out.0 n_new.0 ∙ at_s3

    abbrev s4 : Store
    s4 = with_top t1 n (started parent level left null)

    same_s4 :
        (a : Ptr)
        → a ≢ n
        → mem a (take mid array) ≡ false
        → mem a ps1 ≡ false
        → s4.tops a ≡ s.tops a
    same_s4 a ne out out' = write-other t1.tops n _ a ne ∙ one.tops a out out' ∙ same_s3 a ne

    right-Ready : Ready s4 below n (level + 1) (middle llab rlab + 1) rlab k (drop mid array) ps2 ms
    right-Ready =
        Ready-right s below parent level llab rlab k n array rs ms r two s4 left
          (write-same t1.tops n _) same_s4 one.mallocs

    module _ (t2 : Store) (right : ℕ)
        (other : Rebuilt s4 t2 below right n
          (level + 1)
          (middle llab rlab + 1)
          rlab
          (drop mid array)
          ps2
          ms) where
      abbrev t : Store
      t = finished t2 n parent level left right (length array) rlab

      at_t2 : t2.tops n ≡ some (started parent level left null)
      at_t2 = other.tops n n_out.1 n_new.1 ∙ write-same t1.tops n _

      at_t : (a : Ptr) → a ≢ n → t.tops a ≡ t2.tops a
      at_t a ne = write-other _ n _ a ne ∙ write-other t2.tops n _ a ne

      leaves_all : leaves one.shape ++ leaves other.shape ≡ array
      leaves_all = ap₂ ◌++◌ one.leaves_eq other.leaves_eq ∙ array-Cut.whole

      front_same : (a : Ptr) → covers a one.shape ≡ true → t.tops a ≡ t1.tops a
      front_same a c =
          let (ne, out, out') = front_apart a (
            or_cases (mem a (take mid array)) (mem a ps1)
              (rw (one.leaves_eq, one.inner_eq) at c)) in
          at_t a ne ∙ other.tops a out out' ∙ write-other t1.tops n _ a ne

      back_same : (a : Ptr) → covers a other.shape ≡ true → t.tops a ≡ t2.tops a
      back_same a c = at_t a (
          back_ne a (
            or_cases (mem a (drop mid array)) (mem a ps2)
              (rw (other.leaves_eq, other.inner_eq) at c)))

      rest_same : (a : Ptr) → mem a array ≡ false → mem a (n ∷ rs) ≡ false → t.tops a ≡ s.tops a
      rest_same a out out' =
          let (out1, out2) = not-mem_parts a array-Cut out in
          let (in1, in2) = not-mem_parts a ps-Cut (ground arith) in
          let ne : a ≢ n = ground arith in at_t a ne ∙ other.tops a out2 in2 ∙ same_s4 a ne out1 in1

      wide : llab < rlab
      wide = omega (arith, r.width, pow-suc 2 k, pow_pos k)

      pub whole : Rebuilt s t below n parent level llab rlab array (n ∷ rs) ms
      whole = record {
        shape = node n one.shape other.shape;
        root_eq = refl;
        leaves_eq = leaves_all;
        inner_eq = ap (λ l. n ∷ l) (ap₂ ◌++◌ one.inner_eq other.inner_eq ∙ ps-Cut.whole);
        holds = (
          write-same _ n _
              ∙ ap some (λ i.
                inner_node rlab level (length (sym leaves_all i)) parent (sym one.root_eq i)
                  (sym other.root_eq i)),
          wide,
          Holds-frame t1.tops t.tops below n (level + 1) llab (middle llab rlab) one.shape one.holds
              front_same,
          Holds-frame t2.tops t.tops below n (level + 1) (middle llab rlab + 1) rlab other.shape
              other.holds back_same,
        );
        tops = rest_same;
        nodes = other.nodes ∙ one.nodes;
        lists = other.lists ∙ one.lists;
        mallocs = other.mallocs;
      }

  -- One call from its two inner calls.
  rebuild_many :
      (fuel : ℕ)
      → Runs fuel s3 below n (level + 1) llab (middle llab rlab) (take mid array) ps1 (ps2 ++ ms)
      → ((t1 : Store) (left : ℕ)
          → Ready
              (with_top t1 n (started parent level left null))
              below
              n
              (level + 1)
              (middle llab rlab + 1)
              rlab
              k
              (drop mid array)
              ps2
              ms
          → Runs fuel
              (with_top t1 n (started parent level left null))
              below
              n
              (level + 1)
              (middle llab rlab + 1)
              rlab
              (drop mid array)
              ps2
              ms)
      → Runs (suc fuel) s below parent level llab rlab array (n ∷ rs) ms
  rebuild_many fuel (left, t1, run1, one) rec =
      let (right, t2, run2, other) = rec t1 left (right-Ready t1 left one) in
      (
        n,
        finished t2 n parent level left right (length array) rlab,
        inner_run s n parent level llab rlab r.above (rs ++ ms) array n_ok r.parent_ok parent_ne
            r.at_parent r.level_eq r.mallocs fuel left right t1 t2 many order odd
            (at_t1 t1 left one) (at_t2 t1 left one t2 right other) run1 run2,
        whole t1 left one t2 right other,
      )
    where
      n_ok : n ≢ null
      n_ok = ground (arith, r.null_ps)

      parent_ne : parent ≢ n
      parent_ne = ground (arith, r.parent_ps)

      many : (length array == 1) ≡ false
      many = ground arith

      order : leb llab rlab ≡ true
      order = order_of llab rlab (2 ^ suc k) r.width (pow_pos (suc k))

      odd : (rlab % 2 == 1) ≡ true
      odd =
          rlab_odd llab rlab (2 ^ k) (ground (arith, r.start))
            (r.width ∙ ap (λ w. llab + w) (pow-suc 2 k)) (pow_pos k)

-- On fuel above the height, rebuild_recursive returns the root of a tree in the store whose leaves
-- are the array's, in their order; its inner nodes come from malloc, each leaf keeps its list, the
-- levels, parents and leaf counts fit, and no other object has changed. The leaves are at most
-- 2 ^ h, and as many labels are given.
pub rebuild_recursive-Rebuilt :
    (fuel h : ℕ) (s : Store) (below : Ptr → Ptr) (parent level llab rlab : ℕ)
    (array ps ms : List Ptr)
    → Ready s below parent level llab rlab h array ps ms
    → h < fuel
    → Runs fuel s below parent level llab rlab array ps ms
rebuild_recursive-Rebuilt zero h s below parent level llab rlab array ps ms r lt =
    absurd (omega arith)
rebuild_recursive-Rebuilt (suc fuel) h s below parent level llab rlab [] ps ms r lt =
    absurd (omega (arith, r.filled))
rebuild_recursive-Rebuilt (suc fuel) h s below parent level llab rlab (p ∷ []) ps ms r lt =
    rebuild_one fuel h s below parent level llab rlab p ps ms r
rebuild_recursive-Rebuilt (suc fuel) zero s below parent level llab rlab (p ∷ q ∷ array) ps ms r
      lt =
    absurd (omega (arith, r.fits))
rebuild_recursive-Rebuilt (suc fuel) (suc k) s below parent level llab rlab (p ∷ q ∷ array) [] ms r
      lt =
    absurd (omega (arith, r.count))
rebuild_recursive-Rebuilt (suc fuel) (suc k) s below parent level llab rlab (p ∷ q ∷ array) (n ∷ rs)
      ms r lt =
    let two : 2 ≤ length (p ∷ q ∷ array) = omega arith in
    rebuild_many s below parent level llab rlab k n (p ∷ q ∷ array) rs ms r two fuel
      (rebuild_recursive-Rebuilt fuel k _ below n (level + 1) llab (middle llab rlab) _ _ _
        (left-Ready s below parent level llab rlab k n (p ∷ q ∷ array) rs ms r two) (omega arith))
      (λ t1 left r'.
        rebuild_recursive-Rebuilt fuel k _ below n (level + 1) (middle llab rlab + 1) rlab _ _ ms r'
          (omega arith))

-- On fuel above the height h, with at most 2 ^ h leaves for as many labels, rebuild_recursive
-- returns, and then the labels of two leaves are in the order of the array.
pub rebuild_recursive-order :
    (fuel h : ℕ) (s : Store) (below : Ptr → Ptr) (parent level llab rlab p q : ℕ)
    (xs ys zs ps ms : List Ptr)
    → Ready s below parent level llab rlab h (xs ++ p ∷ (ys ++ q ∷ zs)) ps ms
    → h < fuel
    → (n : Ptr) × (t : Store) × (c : TlNode) × (d : TlNode) × (rebuild_recursive fuel parent
          (xs ++ p ∷ (ys ++ q ∷ zs))
          llab
          rlab
          s
        ≡ ok n t)
      × (t.tops p ≡ some c)
      × (t.tops q ≡ some d)
      × (c.label < d.label)
rebuild_recursive-order fuel h s below parent level llab rlab p q xs ys zs ps ms r lt =
    let (n, t, run, done) =
      rebuild_recursive-Rebuilt fuel h s below parent level llab rlab _ ps ms r lt in
    let rising =
      Holds-Rising t.tops below parent level llab rlab done.shape done.holds
        (omega (arith, r.width, pow_pos h)) in
    let (c, d, at_p, at_q, less) =
      Rising-lt t.tops llab rlab xs ys zs p q (rw done.leaves_eq at rising) in
    (n, t, c, d, run, at_p, at_q, less)
