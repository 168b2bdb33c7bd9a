-- ===== src/Detector/Memory/Exact.antt =====
-- Recording the accesses to all memory is, grain by grain, the run of the accesses to that grain.
use pracer.Base.{
  ℕ, ◌+◌, ◌≤◌, ◌≡◌, ◌∙◌, refl, sym, ap, Bool, true, false, ◌||◌, ltb, leb, if◌then◌else◌, arith,
  ◌⊎◌, ◌↔◌, inl, inr, Bool-cases, some, List, [], ◌∷◌,
}
use pracer.Detector.Access.{MemAccess, num_slots, addr_to_key}
use pracer.Detector.Slot.{Slot, empty_slot, Access, check, run}
use pracer.Detector.Slot.Order.{Later, Executed, racy}
use pracer.Detector.Slot.Exact.{run-racy}
use pracer.Detector.Shadow.{ShadowDir, empty_dir, find}
use pracer.Detector.Memory.{
  MemEvent, MemAccessList, start_of, grains_of, record_block, record_mem_helper, record_all,
}
use pracer.Detector.Memory.Block.{
  covers, slot_at, record_block-slot, record_block-found, found-record_block,
}

abbrev pub access_of : MemEvent → Access
access_of a = record { is_read = a.is_read; by = a.by }

-- The accesses to one grain.
abbrev pub of_grain : (key j : ℕ) → List MemEvent → List Access
of_grain key j [] = []
of_grain key j (a ∷ before) =
    let rest = of_grain key j before in if covers a key j then access_of a ∷ rest else rest

abbrev pub accesses : List MemEvent → List Access
accesses [] = []
accesses (a ∷ before) = access_of a ∷ accesses before

-- Every access lies within its block.
abbrev pub Fits : List MemEvent → Type 0
Fits [] = Unit
Fits (a ∷ before) = (start_of a + grains_of a ≤ num_slots) × Fits before

true_or : (a b : Bool) → a ≡ true → (a || b) ≡ true
true_or a b p = ground arith

or_true' : (a b : Bool) → b ≡ true → (a || b) ≡ true
or_true' a b p = ground arith

or_cases : (a b : Bool) → (a || b) ≡ true → (a ≡ true) ⊎ (b ≡ true)
or_cases a b p = ground arith

le→leb : (a b : ℕ) → a ≤ b → leb a b ≡ true
le→leb a b p = ground arith

module _ (e h : ℕ → ℕ) where
  Later-of_grain :
      (a : MemAccess) (key j : ℕ) (before : List MemEvent)
      → Later e h a (accesses before)
      → Later e h a (of_grain key j before)
  Later-of_grain a key j [] l = tt
  Later-of_grain a key j (b ∷ before) (no_path, same, l) = elim (Bool-cases (covers b key j)) [
    | inl c ↦ rw c (no_path, same, Later-of_grain a key j before l)
    | inr c ↦ rw c (Later-of_grain a key j before l)
  ]

  Executed-of_grain :
      (key j : ℕ) (before : List MemEvent)
      → Executed e h (accesses before)
      → Executed e h (of_grain key j before)
  Executed-of_grain key j [] ex = tt
  Executed-of_grain key j (a ∷ before) (l, ex) = elim (Bool-cases (covers a key j)) [
    | inl c ↦ rw c (Later-of_grain a.by key j before l, Executed-of_grain key j before ex)
    | inr c ↦ rw c (Executed-of_grain key j before ex)
  ]

module _ (english hebrew : ℕ → ℕ → Bool) where
  abbrev grain_run : (key j : ℕ) → List MemEvent → Bool × Slot
  grain_run key j before = run english hebrew (of_grain key j before)

  -- Found somewhere is found at a grain, and the slots are those of the grains' runs.
  record Recorded (before : List MemEvent) (found : Bool) (dir : ShadowDir MemAccessList)
      : Type 0 where
    same_slot : (key j : ℕ) → slot_at dir key j ≡ (grain_run key j before).1
    somewhere : found ≡ true → (key : ℕ) × (j : ℕ) × ((grain_run key j before).0 ≡ true)
    anywhere : (key j : ℕ) → (grain_run key j before).0 ≡ true → found ≡ true

  grain_run-covers :
      (a : MemEvent) (before : List MemEvent) (key j : ℕ)
      → covers a key j ≡ true
      → grain_run key j (a ∷ before) ≡ (
        (check english hebrew a.is_read a.by (grain_run key j before).1).0
            || (grain_run key j before).0,
        (check english hebrew a.is_read a.by (grain_run key j before).1).1,
      )
  unfolding run
  grain_run-covers a before key j c = rw c refl

  grain_run-other :
      (a : MemEvent) (before : List MemEvent) (key j : ℕ)
      → covers a key j ≡ false
      → grain_run key j (a ∷ before) ≡ grain_run key j before
  grain_run-other a before key j c = rw c refl

  grain_run_keeps :
      (a : MemEvent) (before : List MemEvent) (key j : ℕ)
      → (grain_run key j before).0 ≡ true
      → (grain_run key j (a ∷ before)).0 ≡ true
  grain_run_keeps a before key j earlier = elim (Bool-cases (covers a key j)) [
    | inl c ↦ ap (λ q. q.0) (grain_run-covers a before key j c) ∙ or_true' _ _ earlier
    | inr c ↦ ap (λ q. q.0) (grain_run-other a before key j c) ∙ earlier
  ]

  nothing_kept : (key j : ℕ) → slot_at empty_dir key j ≡ empty_slot
  unfolding find
  nothing_kept key j = refl

  record_block-Recorded :
      (a : MemEvent) (before : List MemEvent) (found : Bool) (dir : ShadowDir MemAccessList)
      → Recorded before found dir
      → Recorded
          (a ∷ before)
          ((record_block english hebrew a dir).0 || found)
          (record_block english hebrew a dir).1
  record_block-Recorded a before found dir r = record {
    same_slot = λ key j.
        record_block-slot english hebrew a dir key j ∙ elim (Bool-cases (covers a key j)) [
          | inl c ↦ rw (grain_run-covers a before key j c, c, r.same_slot key j) refl
          | inr c ↦ rw (grain_run-other a before key j c, c, r.same_slot key j) refl
        ];
    somewhere = λ hit. elim (Bool-cases (record_block english hebrew a dir).0) [
      | inl here ↦
          let key = addr_to_key a.addr in
          let (j, inside, at_slot) = record_block-found english hebrew a dir here in
          let now = rw (r.same_slot key j) at at_slot in
          (key, j, ap (λ q. q.0) (grain_run-covers a before key j inside) ∙ true_or _ _ now)
      | inr calm ↦
          let (key, j, earlier) = r.somewhere (rw calm at hit) in
          (key, j, grain_run_keeps a before key j earlier)
    ];
    anywhere = λ key j hit. elim (Bool-cases (covers a key j)) [
      | inl c ↦
          elim (or_cases _ _ (sym (ap (λ q. q.0) (grain_run-covers a before key j c)) ∙ hit)) [
            | inl now ↦
                true_or _ _
                  (found-record_block english hebrew a dir key j c (rw (r.same_slot key j) now))
            | inr earlier ↦ or_true' _ _ (r.anywhere key j earlier)
          ]
      | inr c ↦
          or_true' _ _
            (r.anywhere key j (sym (ap (λ q. q.0) (grain_run-other a before key j c)) ∙ hit))
    ];
  }

  record_all-Recorded :
      (before : List MemEvent)
      → Fits before
      → (found : Bool) × (dir : ShadowDir MemAccessList) × (record_all english hebrew before
          ≡ some (found, dir))
        × Recorded before found dir
  unfolding record_all record_mem_helper run
  record_all-Recorded [] fits = (
    false,
    empty_dir,
    refl,
    record {
      same_slot = λ key j. nothing_kept key j;
      somewhere = λ hit. cc;
      anywhere = λ key j hit. cc;
    },
  )
  record_all-Recorded (a ∷ before) (fit, fits) =
      let (found, dir, done, r) = record_all-Recorded before fits in
      (
        (record_block english hebrew a dir).0 || found,
        (record_block english hebrew a dir).1,
        rw (done, le→leb _ _ fit) refl,
        record_block-Recorded a before found dir r,
      )

module _ (e h : ℕ → ℕ) (english hebrew : ℕ → ℕ → Bool)
    (e_law : (x y : ℕ) → english x y ≡ ltb (e x) (e y))
    (h_law : (x y : ℕ) → hebrew x y ≡ ltb (h x) (h y)) where
  -- Let the two om_precedes be the orders of the strands' positions, and a history one that the
  -- program can have, whose accesses each lie within a block of 16 bytes. Then recording it does
  -- not leave the arrays, and it finds a race exactly when, at some grain of memory, two accesses,
  -- one at least a write, are by parallel strands.
  pub record_all-grains :
      (before : List MemEvent)
      → Fits before
      → Executed e h (accesses before)
      → (found : Bool) × (dir : ShadowDir MemAccessList) × (record_all english hebrew before
          ≡ some (found, dir))
        × ((found ≡ true) ↔ ((key : ℕ) × (j : ℕ) × (racy e h (of_grain key j before) ≡ true)))
  record_all-grains before fits ex =
      let (found, dir, done, r) = record_all-Recorded english hebrew before fits in
      let same = λ (key j : ℕ).
        run-racy e h english hebrew e_law h_law (of_grain key j before)
          (Executed-of_grain e h key j before ex) in
      (
        found,
        dir,
        done,
        (
          λ hit. let (key, j, at_grain) = r.somewhere hit in (key, j, sym (same key j) ∙ at_grain),
          λ (key, j, clash). r.anywhere key j (same key j ∙ clash),
        ),
      )
