-- ===== src/Detector/Slot/Clashes.antt =====
-- A race with what a slot keeps is a clash with the history, and the other way round.
use pracer.Base.{
  ℕ, ◌≤◌, ◌≡◌, ◌∙◌, refl, sym, Bool, true, false, ◌&&◌, ◌||◌, not, Option, none, some, List, [],
  ◌∷◌, ltb, arith, ◌⊎◌, inl, inr, Bool-cases,
}
use pracer.Detector.Access.{MemAccess, races_with}
use pracer.Detector.Slot.{Slot, Access, races_with_last, check_read, check_write}
use pracer.Detector.Slot.Order.{Before, parallel, Consistent, Later, clashes}

-- `P` of every read of a history, or of every write.
abbrev pub Every : (MemAccess → Type 0) → (is_read : Bool) → List Access → Type 0
Every P k [] = Unit
Every P k (b ∷ before) = (b.is_read ≡ k → P b.by) × Every P k before

abbrev pub Among : MemAccess → (is_read : Bool) → List Access → Type 0
Among w k [] = ⊥
Among w k (b ∷ before) = ((b.is_read ≡ k) × (b.by ≡ w)) ⊎ Among w k before

pub Every-map :
    (P Q : MemAccess → Type 0) (k : Bool) (before : List Access)
    → ((b : MemAccess) → P b → Q b)
    → Every P k before
    → Every Q k before
Every-map P Q k [] f all = tt
Every-map P Q k (b ∷ before) f (here, all) = (λ e. f b.by (here e), Every-map P Q k before f all)

pub Every-and :
    (P Q : MemAccess → Type 0) (k : Bool) (before : List Access)
    → Every P k before
    → Every Q k before
    → Every (λ b. P b × Q b) k before
Every-and P Q k [] ps qs = tt
Every-and P Q k (b ∷ before) (p, ps) (q, qs) = (λ i. (p i, q i), Every-and P Q k before ps qs)

-- What a slot keeps of one kind of accesses: nothing of none, else one of them of which `Below`
-- holds for all.
abbrev pub Top :
    (Below : MemAccess → MemAccess → Type 0)
    → (is_read : Bool) → Option MemAccess
    → List Access
    → Type 0
Top Below k none before = Every (λ b. ⊥) k before
Top Below k (some w) before = Among w k before × Every (Below w) k before

pub or_true : (b : Bool) → (b || true) ≡ true
or_true b = ground arith

and_false : (b : Bool) → ((b && false) || false) ≡ false
and_false b = ground arith

module _ (e h : ℕ → ℕ) where
  abbrev pub BelowBoth : MemAccess → MemAccess → Type 0
  BelowBoth w b = (e b.estrand ≤ e w.estrand) × (h b.hstrand ≤ h w.hstrand)

  abbrev pub BelowE : MemAccess → MemAccess → Type 0
  BelowE w b = e b.estrand ≤ e w.estrand

  abbrev pub BelowH : MemAccess → MemAccess → Type 0
  BelowH w b = h b.hstrand ≤ h w.hstrand

  pub record Kept (s : Slot) (before : List Access) : Type 0 where
    pub writer : Top BelowBoth false s.writer before
    pub rreader : Top BelowE true s.rreader before
    pub lreader : Top BelowH true s.lreader before

  pub Later-Among :
      (a w : MemAccess) (k : Bool) (before : List Access)
      → Later e h a before
      → Among w k before
      → (Before e h a w → ⊥) × Consistent e h a w
  Later-Among a w k [] l m = absurd m
  Later-Among a w k (b ∷ before) (no_path, same, l) (inl (kind, at)) = rw (← at) (no_path, same)
  Later-Among a w k (b ∷ before) (no_path, same, l) (inr m) = Later-Among a w k before l m

  -- A kept access that is parallel shows a clash.
  clashes-Among :
      (with_reads k : Bool) (a w : MemAccess) (before : List Access)
      → (with_reads || not k) ≡ true
      → Among w k before
      → parallel e h w a ≡ true
      → clashes e h with_reads a before ≡ true
  clashes-Among r k a w [] c m p = absurd m
  clashes-Among r k a w (b ∷ before) c (inl (kind, at)) p = rw (at, p, kind, c) refl
  clashes-Among r k a w (b ∷ before) c (inr m) p =
      rw (clashes-Among r k a w before c m p) (or_true _)

  clashes-none :
      (with_reads : Bool) (a : MemAccess) (before : List Access)
      → Every (λ b. parallel e h b a ≡ false) false before
      → (with_reads ≡ true → Every (λ b. parallel e h b a ≡ false) true before)
      → clashes e h with_reads a before ≡ false
  clashes-none r a [] ws rs = refl
  clashes-none r a (b ∷ before) (w, ws) rs =
      let rest = clashes-none r a before ws (λ t. (rs t).1) in
      elim (Bool-cases b.is_read) [
        | inr written ↦ rw (w written, rest) refl
        | inl read ↦ elim (Bool-cases r) [
          | inl t ↦ rw ((rs t).0 read, rest) refl
          | inr f ↦ rw (f, read, rest) (and_false _)
        ]
      ]

  -- The latest reader in each order stands for all readers.
  below_reads :
      (a l r b : MemAccess)
      → (Before e h a l → ⊥)
      → Consistent e h a l
      → parallel e h l a ≡ false
      → (Before e h a r → ⊥)
      → Consistent e h a r
      → parallel e h r a ≡ false
      → (Before e h a b → ⊥)
      → Consistent e h a b
      → BelowH l b
      → BelowE r b
      → parallel e h b a ≡ false
  below_reads a l r b pl cl al pr cr ar pb cb hl er = ground arith

  -- One kept access against a new one.
  module _ (a w b : MemAccess) (no_path : Before e h a w → ⊥) (same : Consistent e h a w)
      (no_path' : Before e h a b → ⊥) (same' : Consistent e h a b)
      (apart : parallel e h w a ≡ false) where
    below_both : BelowBoth w b → parallel e h b a ≡ false
    below_both le = ground arith

  -- An access that is not parallel to a new one stands before it, or is the same strand.
  pub not_parallel :
      (a b : MemAccess)
      → (Before e h a b → ⊥)
      → Consistent e h a b
      → parallel e h b a ≡ false
      → BelowBoth a b
  not_parallel a b pb cb ab = ground arith

  races_with-parallel :
      (english hebrew : ℕ → ℕ → Bool) (w a : MemAccess)
      → english w.estrand a.estrand ≡ ltb (e w.estrand) (e a.estrand)
      → hebrew w.hstrand a.hstrand ≡ ltb (h w.hstrand) (h a.hstrand)
      → Consistent e h a w
      → races_with english hebrew w a ≡ parallel e h w a
  unfolding races_with
  races_with-parallel english hebrew w a le lh c = rw (le, lh) (ground arith)

  pub Every-Later :
      (P Q : MemAccess → Type 0) (k : Bool) (a : MemAccess) (before : List Access)
      → ((b : MemAccess) → (Before e h a b → ⊥) → Consistent e h a b → P b → Q b)
      → Later e h a before
      → Every P k before
      → Every Q k before
  Every-Later P Q k a [] f l all = tt
  Every-Later P Q k a (b ∷ before) f (no_path, same, l) (here, all) =
      (λ i. f b.by no_path same (here i), Every-Later P Q k a before f l all)

  abbrev pub Apart : MemAccess → (is_read : Bool) → List Access → Type 0
  Apart a k before = Every (λ b. parallel e h b a ≡ false) k before

  module _ (english hebrew : ℕ → ℕ → Bool) (e_law : (x y : ℕ) → english x y ≡ ltb (e x) (e y))
      (h_law : (x y : ℕ) → hebrew x y ≡ ltb (h x) (h y)) (a : MemAccess) (before : List Access)
      (l : Later e h a before) where
    abbrev pub races : Option MemAccess → Bool
    races o = races_with_last english hebrew o a

    races-Among : (w : MemAccess) (k : Bool) → Among w k before → races (some w) ≡ parallel e h w a
    unfolding races_with_last
    races-Among w k m =
        races_with-parallel english hebrew w a (e_law _ _) (h_law _ _)
          (Later-Among a w k before l m).1

    -- A race with a kept access is a clash.
    races-clashes :
        (Below : MemAccess → MemAccess → Type 0) (with_reads k : Bool) (o : Option MemAccess)
        → (with_reads || not k) ≡ true
        → Top Below k o before
        → races o ≡ true
        → clashes e h with_reads a before ≡ true
    unfolding races_with_last
    races-clashes Below r k none c top race = cc
    races-clashes Below r k (some w) c (m, all) race =
        clashes-Among r k a w before c m (sym (races-Among w k m) ∙ race)

    -- No race with the kept write: no write clashes.
    pub writer-Apart :
        (o : Option MemAccess)
        → Top BelowBoth false o before
        → races o ≡ false
        → Apart a false before
    writer-Apart none top race = Every-map _ _ false before (λ b no. absurd no) top
    writer-Apart (some w) (m, all) race =
        let (no_path, same) = Later-Among a w false before l m in
        let apart = sym (races-Among w false m) ∙ race in
        Every-Later _ _ false a before (λ b p c le. below_both a w b no_path same p c apart le) l
          all

    -- No race with the two kept reads: no read clashes.
    readers-Apart :
        (o r : Option MemAccess)
        → Top BelowH true o before
        → Top BelowE true r before
        → races o ≡ false
        → races r ≡ false
        → Apart a true before
    readers-Apart none r top top' race race' = Every-map _ _ true before (λ b no. absurd no) top
    readers-Apart (some w) none top top' race race' =
        Every-map _ _ true before (λ b no. absurd no) top'
    readers-Apart (some w) (some v) (m, all) (n, all') race race' =
        let (pw, cw) = Later-Among a w true before l m in
        let (pv, cv) = Later-Among a v true before l n in
        Every-Later _ _ true a before
          (λ b p c both.
            below_reads a w v b pw cw (sym (races-Among w true m) ∙ race) pv cv
              (sym (races-Among v true n) ∙ race') p c both.0 both.1)
          l (Every-and _ _ true before all all')

    pub check_read-clashes :
        (s : Slot) → Kept s before → (check_read english hebrew a s).0 ≡ clashes e h false a before
    unfolding check_read
    check_read-clashes s kept = elim (Bool-cases (races s.writer)) [
      | inl race ↦ race ∙ sym (races-clashes BelowBoth false false s.writer refl kept.writer race)
      | inr calm ↦
          calm
          ∙ sym (
              clashes-none false a before (writer-Apart s.writer kept.writer calm)
                (λ i. absurd (ground arith)))
    ]

    or_all :
        (x y z c : Bool)
        → (x ≡ true → c ≡ true)
        → (y ≡ true → c ≡ true)
        → (z ≡ true → c ≡ true)
        → (x ≡ false → y ≡ false → z ≡ false → c ≡ false)
        → (x || y || z) ≡ c
    or_all x y z c fx fy fz none_of = ground arith

    pub check_write-clashes :
        (s : Slot) → Kept s before → (check_write english hebrew a s).0 ≡ clashes e h true a before
    unfolding check_write
    check_write-clashes s kept =
        or_all (races s.writer) (races s.lreader) (races s.rreader) (clashes e h true a before)
          (races-clashes BelowBoth true false s.writer refl kept.writer)
          (races-clashes BelowH true true s.lreader refl kept.lreader)
          (races-clashes BelowE true true s.rreader refl kept.rreader)
          (λ x y z.
            clashes-none true a before (writer-Apart s.writer kept.writer x)
              (λ i. readers-Apart s.lreader s.rreader kept.lreader kept.rreader y z))
