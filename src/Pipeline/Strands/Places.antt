-- ===== src/Pipeline/Strands/Places.antt =====
-- Where the nodes that createOrder makes for a strand stand in the two orders.
use pracer.Base.{ℕ, ◌≡◌, ◌∙◌, refl, true, arith, eqb_refl}
use pracer.Pipeline.OmOrder.{OmOrder}
use pracer.Pipeline.Strands.{StageFrame, create_order}

module _ {S : Type 0} (o : OmOrder S) where
  -- Two insertions, the second behind the first: `a` right behind `base`, `b` right behind `a`.
  abbrev pub twice : ℕ → S → ℕ × ℕ × S
  twice base s = let (a, s1) = o.insert base s in let (b, s2) = o.insert a s1 in (a, b, s2)

  pub record Behind (s s' : S) (base a b : ℕ) : Type 0 where
    pub base_a : o.precedes s' base a ≡ true
    pub a_b : o.precedes s' a b ≡ true
    pub base_b : o.precedes s' base b ≡ true
    pub older :
        (x y : ℕ) → o.has s x ≡ true → o.has s y ≡ true → o.precedes s' x y ≡ o.precedes s x y
    pub below : (x : ℕ) → o.has s x ≡ true → o.precedes s base x ≡ true → o.precedes s' b x ≡ true
    pub keeps : (x : ℕ) → o.has s x ≡ true → o.has s' x ≡ true
    pub has_a : o.has s' a ≡ true
    pub has_b : o.has s' b ≡ true
    pub above : (x : ℕ) → o.has s x ≡ true → o.precedes s x base ≡ true → o.precedes s' x a ≡ true

  pub has-insert :
      (s : S) (base x : ℕ)
      → o.has s base ≡ true
      → o.has s x ≡ true
      → o.has (o.insert base s).1 x ≡ true
  has-insert s base x here has = ground (arith, o.insert_has s base x here)

  pub has-insert_new :
      (s : S) (base : ℕ)
      → o.has s base ≡ true
      → o.has (o.insert base s).1 (o.insert base s).0 ≡ true
  has-insert_new s base here =
      ground (arith, o.insert_has s base (o.insert base s).0 here, eqb_refl (o.insert base s).0)

  pub precedes-insert :
      (s : S) (base : ℕ)
      → o.has s base ≡ true
      → o.precedes (o.insert base s).1 base (o.insert base s).0 ≡ true
  precedes-insert s base here = ground (arith, o.insert_below s base base here here, eqb_refl base)

  pub twice-Behind :
      (s : S) (base : ℕ)
      → o.has s base ≡ true
      → Behind s (twice base s).2 base (twice base s).0 (twice base s).1
  twice-Behind s base here =
      let a = (o.insert base s).0 in
      let s1 = (o.insert base s).1 in
      let has_a = has-insert_new s base here in
      let old = λ (x : ℕ) (has : o.has s x ≡ true). has-insert s base x here has in
      record {
        base_a = o.insert_old s1 a base a (old base here) has_a ∙ precedes-insert s base here;
        a_b = precedes-insert s1 a has_a;
        base_b =
            ground
              (arith, o.insert_below s1 a base has_a (old base here), precedes-insert s base here);
        older = λ x y hx hy.
            o.insert_old s1 a x y (old x hx) (old y hy) ∙ o.insert_old s base x y hx hy;
        below = λ x hx lt.
            o.insert_above s1 a x has_a (old x hx) ∙ o.insert_above s base x here hx ∙ lt;
        above = λ x hx lt.
            o.insert_old s1 a x a (old x hx) has_a
            ∙ ground (arith, o.insert_below s base x here hx);
        keeps = λ x hx. has-insert s1 a x has_a (old x hx);
        has_a = has-insert s1 a a has_a has_a;
        has_b = has-insert_new s1 a has_a;
      }

  -- Let the strand's two nodes be in the orders. After createOrder the strand is followed, in the
  -- down-first order, by its down and then its right continuation, and in the right-first order by
  -- its right and then its down continuation. In each order, what came after the strand comes after
  -- the later of the two, what came before it comes before the earlier, and older nodes keep their
  -- order.
  pub create_order-Behind :
      (sf : StageFrame) (english hebrew : S)
      → o.has english sf.down_first.current ≡ true
      → o.has hebrew sf.right_first.current ≡ true
      → (let (sf', e, h) = create_order o sf english hebrew in
          Behind english e sf.down_first.current sf'.down_first.down_cont sf'.down_first.right_cont
          × Behind hebrew h sf.right_first.current sf'.right_first.right_cont
              sf'.right_first.down_cont
          × (sf'.down_first.current ≡ sf.down_first.current)
          × (sf'.right_first.current ≡ sf.right_first.current))
  unfolding create_order
  create_order-Behind sf english hebrew in_e in_h = (
    twice-Behind english sf.down_first.current in_e,
    twice-Behind hebrew sf.right_first.current in_h,
    refl,
    refl,
  )
