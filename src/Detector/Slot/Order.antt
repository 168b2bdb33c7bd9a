-- ===== src/Detector/Slot/Order.antt =====
-- Strands by their positions in the two orders: which are parallel, and which histories can be.
use pracer.Base.{ℕ, ◌<◌, ◌≡◌, Bool, false, ◌&&◌, ◌||◌, not, List, [], ◌∷◌, ltb, ◌↔◌}
use pracer.Detector.Access.{MemAccess}
use pracer.Detector.Slot.{Access}

module _ (e h : ℕ → ℕ) where
  -- Before in both orders: there is a path from the one strand to the other.
  abbrev pub Before : MemAccess → MemAccess → Type 0
  Before a b = (e a.estrand < e b.estrand) × (h a.hstrand < h b.hstrand)

  -- Before in one order and after in the other.
  abbrev pub parallel : MemAccess → MemAccess → Bool
  parallel a b =
      (ltb (e a.estrand) (e b.estrand) && ltb (h b.hstrand) (h a.hstrand))
      || (ltb (e b.estrand) (e a.estrand) && ltb (h a.hstrand) (h b.hstrand))

  -- Two strands are the same in both orders or in none.
  abbrev pub Consistent : MemAccess → MemAccess → Type 0
  Consistent a b = (e a.estrand ≡ e b.estrand) ↔ (h a.hstrand ≡ h b.hstrand)

  -- The accesses are in an order in which the program can make them: none comes after one that it
  -- has a path to.
  abbrev pub Later : MemAccess → List Access → Type 0
  Later a [] = Unit
  Later a (b ∷ before) = (Before a b.by → ⊥) × Consistent a b.by × Later a before

  abbrev pub Executed : List Access → Type 0
  Executed [] = Unit
  Executed (a ∷ before) = Later a.by before × Executed before

  -- The reference: an access clashes with earlier writes, a write also with earlier reads.
  abbrev pub clashes : (with_reads : Bool) → MemAccess → List Access → Bool
  clashes with_reads a [] = false
  clashes with_reads a (b ∷ before) =
      (parallel b.by a && (with_reads || not b.is_read)) || clashes with_reads a before

  abbrev pub racy : List Access → Bool
  racy [] = false
  racy (a ∷ before) = clashes (not a.is_read) a.by before || racy before
