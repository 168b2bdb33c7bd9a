-- ===== src/Detector/Slot/Exact.antt =====
-- What run finds is what the reference finds.
use pracer.Base.{
  ℕ, ◌≡◌, ◌∙◌, refl, sym, Bool, true, false, ◌||◌, not, Option, none, some, List, [], ◌∷◌, ltb,
  arith, inl, inr, Bool-cases,
}
use pracer.Detector.Access.{MemAccess}
use pracer.Detector.Slot.{
  Slot, Access, update_lreader, update_rreader, check_read, check_write, check, run,
}
use pracer.Detector.Slot.Order.{Before, Consistent, Later, Executed, clashes, racy}
use pracer.Detector.Slot.Clashes.{
  Every, Top, Every-map, BelowBoth, BelowE, BelowH, Kept, not_parallel, Every-Later, writer-Apart,
  check_read-clashes, check_write-clashes, Later-Among, or_true,
}

-- A new access of the other kind changes nothing.
Top-skip :
    (Below : MemAccess → MemAccess → Type 0) (k : Bool) (o : Option MemAccess) (a : Access)
    (before : List Access)
    → (a.is_read ≡ k → ⊥)
    → Top Below k o before
    → Top Below k o (a ∷ before)
Top-skip Below k none a before other top = (λ i. other i, top)
Top-skip Below k (some w) a before other (m, all) = (inr m, (λ i. absurd (other i), all))

-- A new access above all others of its kind is kept.
Top-new :
    (Below : MemAccess → MemAccess → Type 0) (k : Bool) (a : Access) (before : List Access)
    → a.is_read ≡ k
    → Below a.by a.by
    → Every (Below a.by) k before
    → Top Below k (some a.by) (a ∷ before)
Top-new Below k a before kind here all = (inl (kind, refl), (λ i. here, all))

-- An access below the kept one changes nothing.
Top-below :
    (Below : MemAccess → MemAccess → Type 0) (k : Bool) (w : MemAccess) (a : Access)
    (before : List Access)
    → Below w a.by
    → Top Below k (some w) before
    → Top Below k (some w) (a ∷ before)
Top-below Below k w a before below (m, all) = (inr m, (λ i. below, all))

module _ (e h : ℕ → ℕ) (english hebrew : ℕ → ℕ → Bool)
    (e_law : (x y : ℕ) → english x y ≡ ltb (e x) (e y))
    (h_law : (x y : ℕ) → hebrew x y ≡ ltb (h x) (h y)) where
  update_rreader-Top :
      (o : Option MemAccess) (a : Access) (before : List Access)
      → a.is_read ≡ true
      → Top (BelowE e h) true o before
      → Top (BelowE e h) true (update_rreader english hebrew o a.by) (a ∷ before)
  unfolding update_rreader
  update_rreader-Top none a before kind top =
      Top-new (BelowE e h) true a before kind (omega arith)
        (Every-map _ _ true before (λ b no. absurd no) top)
  update_rreader-Top (some w) a before kind (m, all) =
      elim (Bool-cases (ltb (e w.estrand) (e a.by.estrand))) [
        | inl lt ↦
            rw (e_law _ _, lt)
              (Top-new (BelowE e h) true a before kind (omega arith)
                (Every-map _ _ true before (λ b le. ground arith) all))
        | inr ge ↦
            rw (e_law _ _, ge) (Top-below (BelowE e h) true w a before (ground arith) (m, all))
      ]

  -- The test of update_lreader is that the kept read is earlier in the Hebrew order.
  left_test :
      (w a : MemAccess)
      → (Before e h a w → ⊥)
      → Consistent e h a w
      → (english a.estrand w.estrand || hebrew w.hstrand a.hstrand)
        ≡ ltb (h w.hstrand) (h a.hstrand)
  left_test w a no_path same = rw (e_law _ _, h_law _ _) (ground arith)

  update_lreader-Top :
      (o : Option MemAccess) (a : Access) (before : List Access)
      → a.is_read ≡ true
      → Later e h a.by before
      → Top (BelowH e h) true o before
      → Top (BelowH e h) true (update_lreader english hebrew o a.by) (a ∷ before)
  unfolding update_lreader
  update_lreader-Top none a before kind l top =
      Top-new (BelowH e h) true a before kind (omega arith)
        (Every-map _ _ true before (λ b no. absurd no) top)
  update_lreader-Top (some w) a before kind l (m, all) =
      let (no_path, same) = Later-Among e h a.by w true before l m in
      elim (Bool-cases (ltb (h w.hstrand) (h a.by.hstrand))) [
        | inl lt ↦
            rw (left_test w a.by no_path same, lt)
              (Top-new (BelowH e h) true a before kind (omega arith)
                (Every-map _ _ true before (λ b le. ground arith) all))
        | inr ge ↦
            rw (left_test w a.by no_path same, ge)
              (Top-below (BelowH e h) true w a before (ground arith) (m, all))
      ]

  check_read-Kept :
      (a : Access) (before : List Access) (s : Slot)
      → a.is_read ≡ true
      → Later e h a.by before
      → Kept e h s before
      → Kept e h (check_read english hebrew a.by s).1 (a ∷ before)
  unfolding check_read
  check_read-Kept a before s kind l kept = record {
    writer = Top-skip (BelowBoth e h) false s.writer a before (λ i. ground arith) kept.writer;
    rreader = update_rreader-Top s.rreader a before kind kept.rreader;
    lreader = update_lreader-Top s.lreader a before kind l kept.lreader;
  }

  -- Where a write races with nothing, all earlier writes have a path to it.
  check_write-Kept :
      (a : Access) (before : List Access) (s : Slot)
      → a.is_read ≡ false
      → Later e h a.by before
      → Kept e h s before
      → (check_write english hebrew a.by s).0 ≡ false
      → Kept e h (check_write english hebrew a.by s).1 (a ∷ before)
  unfolding check_write
  check_write-Kept a before s kind l kept calm = record {
    writer = Top-new (BelowBoth e h) false a before kind (omega arith) (
        Every-Later e h _ _ false a.by before (λ b p c apart. not_parallel e h a.by b p c apart) l
          (writer-Apart e h english hebrew e_law h_law a.by before l s.writer kept.writer
            (ground arith)));
    rreader = Top-skip (BelowE e h) true s.rreader a before (λ i. ground arith) kept.rreader;
    lreader = Top-skip (BelowH e h) true s.lreader a before (λ i. ground arith) kept.lreader;
  }

  check-clashes :
      (k : Bool) (a : Access) (before : List Access) (s : Slot)
      → Later e h a.by before
      → Kept e h s before
      → (check english hebrew k a.by s).0 ≡ clashes e h (not k) a.by before
  unfolding check
  check-clashes true a before s l kept =
      check_read-clashes e h english hebrew e_law h_law a.by before l s kept
  check-clashes false a before s l kept =
      check_write-clashes e h english hebrew e_law h_law a.by before l s kept

  check-Kept :
      (k : Bool) (a : Access) (before : List Access) (s : Slot)
      → a.is_read ≡ k
      → Later e h a.by before
      → Kept e h s before
      → (check english hebrew k a.by s).0 ≡ false
      → Kept e h (check english hebrew k a.by s).1 (a ∷ before)
  unfolding check
  check-Kept true a before s kind l kept calm = check_read-Kept a before s kind l kept
  check-Kept false a before s kind l kept calm = check_write-Kept a before s kind l kept calm

  or_calm : (x y : Bool) → (x || y) ≡ false → (x ≡ false) × (y ≡ false)
  or_calm x y c = ground arith

  -- Until the first race the slot keeps what it should.
  run-Kept :
      (before : List Access)
      → Executed e h before
      → ((run english hebrew before).0 ≡ racy e h before)
        × ((run english hebrew before).0 ≡ false → Kept e h (run english hebrew before).1 before)
  unfolding run
  run-Kept [] ex = (refl, λ i. record { writer = tt; rreader = tt; lreader = tt })
  run-Kept (a ∷ before) (l, ex) =
      let s = (run english hebrew before).1 in
      let (same, kept) = run-Kept before ex in
      (
        elim (Bool-cases (run english hebrew before).0) [
          | inl found ↦ rw (found, sym same ∙ found, or_true _, or_true _) refl
          | inr calm ↦ rw (check-clashes a.is_read a before s l (kept calm), same) refl
        ],
        λ c.
            let (here, calm) = or_calm _ _ c in
            check-Kept a.is_read a before s refl l (kept calm) here,
      )

  -- Let the two om_precedes be the orders of the strands' positions, and a history one that the
  -- program can have. The checks of all its accesses to a grain find a race exactly when two of
  -- them, one at least a write, are by parallel strands.
  pub run-racy :
      (before : List Access) → Executed e h before → (run english hebrew before).0 ≡ racy e h before
  run-racy before ex = (run-Kept before ex).0
