-- ===== src/Detector/Memory/Bytes.antt =====
-- The accesses to a byte, and the race detection of all memory beside them.
use pracer.Base.{
  ℕ, ◌+◌, ◌*◌, ◌/◌, ◌%◌, ◌≤◌, ◌<◌, ◌≡◌, ◌∙◌, refl, sym, ap, Bool, true, false, ◌&&◌, ltb, leb,
  if◌then◌else◌, arith, ◌↔◌, inl, inr, Bool-cases, some, List, [], ◌∷◌, ltb→lt,
}
use pracer.Detector.Access.{num_slots}
use pracer.Detector.Slot.{Access}
use pracer.Detector.Slot.Order.{Executed, racy}
use pracer.Detector.Shadow.{ShadowDir}
use pracer.Detector.Memory.{MemEvent, MemAccessList, start_of, grains_of, record_all}
use pracer.Detector.Memory.Block.{covers}
use pracer.Detector.Memory.Exact.{access_of, of_grain, accesses, Fits, record_all-grains}

-- An access is to the bytes from its address on, as many as its size.
abbrev pub touches : MemEvent → (byte : ℕ) → Bool
touches a byte = leb a.addr byte && ltb byte (a.addr + a.mem_size)

abbrev pub of_byte : (byte : ℕ) → List MemEvent → List Access
of_byte byte [] = []
of_byte byte (a ∷ before) =
    let rest = of_byte byte before in if touches a byte then access_of a ∷ rest else rest

-- Every access begins at a multiple of 4, has a size that is one, and lies within 16 bytes from a
-- multiple of 16 on.
abbrev pub Aligned : MemEvent → Type 0
Aligned a = (a.addr % 4 ≡ 0) × (a.mem_size % 4 ≡ 0) × (a.addr % 16 + a.mem_size ≤ 16)

abbrev pub AllAligned : List MemEvent → Type 0
AllAligned [] = Unit
AllAligned (a ∷ before) = Aligned a × AllAligned before

Aligned-Fits : (before : List MemEvent) → AllAligned before → Fits before
Aligned-Fits [] al = tt
Aligned-Fits (a ∷ before) ((at, size, within), al) = (omega arith, Aligned-Fits before al)

covers_touched :
    (a : MemEvent) (byte : ℕ) → Aligned a → touches a byte ≡ covers a (byte / 16) (byte % 16 / 4)
covers_touched a byte (at, size, within) = ground arith

of_byte-of_grain :
    (byte : ℕ) (before : List MemEvent)
    → AllAligned before
    → of_byte byte before ≡ of_grain (byte / 16) (byte % 16 / 4) before
of_byte-of_grain byte [] al = refl
of_byte-of_grain byte (a ∷ before) (here, al) =
    rw (covers_touched a byte here, of_byte-of_grain byte before al) refl

-- No access is to a grain beyond the four of a block.
not_covered :
    (a : MemEvent) (key j : ℕ)
    → start_of a + grains_of a ≤ num_slots
    → 4 ≤ j
    → covers a key j ≡ false
not_covered a key j fit beyond = ground arith

none_of_grain :
    (key j : ℕ) (before : List MemEvent) → Fits before → 4 ≤ j → of_grain key j before ≡ []
none_of_grain key j [] fits beyond = refl
none_of_grain key j (a ∷ before) (fit, fits) beyond =
    rw (not_covered a key j fit beyond) (none_of_grain key j before fits beyond)

first_byte :
    (key j : ℕ) → j < 4 → ((16 * key + 4 * j) / 16 ≡ key) × ((16 * key + 4 * j) % 16 / 4 ≡ j)
first_byte key j lt = (omega arith, omega arith)

module _ (e h : ℕ → ℕ) (before : List MemEvent) (al : AllAligned before) where
  byte_of_grain :
      (key j : ℕ)
      → racy e h (of_grain key j before) ≡ true
      → (byte : ℕ) × (racy e h (of_byte byte before) ≡ true)
  byte_of_grain key j clash = elim (Bool-cases (ltb j 4)) [
    | inl inner ↦
        let (same_key, same_j) = first_byte key j (ltb→lt _ _ inner) in
        (
          16 * key + 4 * j,
          ap (racy e h) (of_byte-of_grain (16 * key + 4 * j) before al)
              ∙ rw (same_key, same_j) clash,
        )
    | inr beyond ↦
        let past : 4 ≤ j = ground arith in
        let none = none_of_grain key j before (Aligned-Fits before al) past in
        let no_clash : racy e h [] ≡ true = sym (ap (racy e h) none) ∙ clash in
        absurd (ground arith)
  ]

  grain_of_byte :
      (byte : ℕ)
      → racy e h (of_byte byte before) ≡ true
      → racy e h (of_grain (byte / 16) (byte % 16 / 4) before) ≡ true
  grain_of_byte byte clash = ap (racy e h) (sym (of_byte-of_grain byte before al)) ∙ clash

module _ (e h : ℕ → ℕ) (english hebrew : ℕ → ℕ → Bool)
    (e_law : (x y : ℕ) → english x y ≡ ltb (e x) (e y))
    (h_law : (x y : ℕ) → hebrew x y ≡ ltb (h x) (h y)) where
  -- Let the two om_precedes be the orders of the strands' positions, and a history one that the
  -- program can have, whose accesses each begin at a multiple of 4 bytes, have a size that is one,
  -- and lie within a block of 16 bytes. Then recording it does not leave the arrays, and it finds a
  -- race exactly when, at some byte of memory, two accesses, one at least a write, are by parallel
  -- strands.
  pub record_all-racy :
      (before : List MemEvent)
      → AllAligned before
      → Executed e h (accesses before)
      → (found : Bool) × (dir : ShadowDir MemAccessList) × (record_all english hebrew before
          ≡ some (found, dir))
        × ((found ≡ true) ↔ ((byte : ℕ) × (racy e h (of_byte byte before) ≡ true)))
  record_all-racy before al ex =
      let (found, dir, done, at_grains) =
        record_all-grains e h english hebrew e_law h_law before (Aligned-Fits before al) ex in
      (
        found,
        dir,
        done,
        (
          λ hit. let (key, j, clash) = at_grains.0 hit in byte_of_grain e h before al key j clash,
          λ (byte, clash).
              at_grains.1 (byte / 16, byte % 16 / 4, grain_of_byte e h before al byte clash),
        ),
      )
