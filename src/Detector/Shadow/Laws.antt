-- ===== src/Detector/Shadow/Laws.antt =====
-- What is found in the shadow memory after an insertion, an erasure and a clearing.
use pracer.Base.{
  ℕ, zero, suc, ◌+◌, ◌*◌, ◌/◌, ◌%◌, ◌<◌, ◌≡◌, ◌∙◌, refl, sym, ap, true, false, ◌&&◌, Option, none,
  some, ◌==◌, ltb, leb, if◌then◌else◌, arith, inl, inr, Bool-cases, eqb_of_ne, Option-cases,
}
use pracer.Detector.Access.{addr_to_key, max_grain_size}
use pracer.Detector.Shadow.{
  tbl_size, ShadowTbl, ShadowDir, in_tbl, find, put_slot, insert, erase, modify,
  clear_shadow_memory,
}

-- Two keys with one table and one place in it are one key.
same_key : (k j : ℕ) → (j == k) ≡ ((j / tbl_size == k / tbl_size) && (j % tbl_size == k % tbl_size))
same_key k j = ground arith

eqb_true : (a b : ℕ) → a ≡ b → (a == b) ≡ true
eqb_true a b e = ground arith

empty_range : (first j : ℕ) → (leb first j && ltb j (first + 0)) ≡ false
empty_range first j = ground arith

next_key : (first : ℕ) → addr_to_key (first * max_grain_size) ≡ first
next_key first = omega arith

next_start : (first : ℕ) → first * max_grain_size + max_grain_size ≡ suc first * max_grain_size
next_start first = omega arith

next_end : (first n : ℕ) → (first + suc n) * max_grain_size ≡ (suc first + n) * max_grain_size
next_end first n = omega arith

module _ {T : Type 0} where
  find-put_slot :
      (dir : ShadowDir T) (k : ℕ) (v : Option T) (tbl : ShadowTbl T) (j : ℕ)
      → (j / tbl_size ≡ k / tbl_size → tbl (j % tbl_size) ≡ find dir j)
      → find (put_slot k v (some tbl) dir) j ≡ (if j == k then v else find dir j)
  unfolding find
  find-put_slot dir k v tbl j same = elim (Bool-cases (j / tbl_size == k / tbl_size)) [
    | inl row ↦ elim (Bool-cases (j % tbl_size == k % tbl_size)) [
      | inl column ↦ rw (row, column, same_key k j, row, column) refl
      | inr other ↦ rw (row, other, same_key k j, row, other) (same (ground arith))
    ]
    | inr other ↦ rw (other, same_key k j, other) refl
  ]

  find_row :
      (dir : ShadowDir T) (k j : ℕ)
      → j / tbl_size ≡ k / tbl_size
      → find dir j ≡ in_tbl j (dir (k / tbl_size))
  unfolding find
  find_row dir k j row =
      rw row
        (elim (Option-cases (dir (k / tbl_size))) [ inl e ↦ rw e refl | inr (tbl, e) ↦ rw e refl ])

  pub find-insert :
      (dir : ShadowDir T) (k : ℕ) (v : T) (j : ℕ)
      → find (insert dir k v).1 j ≡ (if j == k then some (insert dir k v).0 else find dir j)
  unfolding insert
  find-insert dir k v j = elim (Option-cases (dir (k / tbl_size))) [
    | inl e ↦ rw e (
        find-put_slot dir k (some v) (λ _. none) j
          (λ row. sym (find_row dir k j row ∙ ap (in_tbl j) e)))
    | inr (tbl, e) ↦
        rw e (find-put_slot dir k _ tbl j (λ row. sym (find_row dir k j row ∙ ap (in_tbl j) e)))
  ]

  pub insert-find : (dir : ShadowDir T) (k : ℕ) (v : T) → find dir k ≡ none → (insert dir k v).0 ≡ v
  unfolding insert find
  insert-find dir k v free = elim (Option-cases (dir (k / tbl_size))) [
    | inl e ↦ rw e refl
    | inr (tbl, e) ↦ let free' : tbl (k % tbl_size) ≡ none = rw e at free in rw (e, free') refl
  ]

  pub find-erase :
      (dir : ShadowDir T) (k j : ℕ) → find (erase dir k) j ≡ (if j == k then none else find dir j)
  unfolding erase
  find-erase dir k j = elim (Option-cases (dir (k / tbl_size))) [
    | inl e ↦ rw e (elim (Bool-cases (j == k)) [
      | inl same ↦ rw same (find_row dir k j (ground arith) ∙ ap (in_tbl j) e)
      | inr other ↦ rw other refl
    ])
    | inr (tbl, e) ↦
        rw e (find-put_slot dir k none tbl j (λ row. sym (find_row dir k j row ∙ ap (in_tbl j) e)))
  ]

  pub find-modify :
      (dir : ShadowDir T) (k : ℕ) (v old : T) (j : ℕ)
      → find dir k ≡ some old
      → find (modify dir k v) j ≡ (if j == k then some v else find dir j)
  unfolding modify
  find-modify dir k v old j here = elim (Option-cases (dir (k / tbl_size))) [
    | inl e ↦ cc (find_row dir k k refl, ap (in_tbl k) e)
    | inr (tbl, e) ↦
        rw e
          (find-put_slot dir k (some v) tbl j (λ row. sym (find_row dir k j row ∙ ap (in_tbl j) e)))
  ]

  -- Clearing a range of whole blocks returns, given fuel for each block, and afterwards the keys
  -- of the blocks have nothing under them and all others what they had.
  pub find-clear_shadow_memory :
      (n fuel first : ℕ) (dir : ShadowDir T)
      → n < fuel
      → (dir' : ShadowDir T) × (clear_shadow_memory fuel
            (first * max_grain_size)
            ((first + n) * max_grain_size)
            dir
          ≡ some dir')
        × ((j : ℕ) → find dir' j ≡ (if leb first j && ltb j (first + n) then none else find dir j))
  unfolding clear_shadow_memory
  find-clear_shadow_memory n zero first dir enough = absurd (omega arith)
  find-clear_shadow_memory zero (suc fuel) first dir enough = (
    dir,
    rw (eqb_true (first * max_grain_size) ((first + 0) * max_grain_size) (omega arith)) refl,
    λ j. rw (empty_range first j) refl,
  )
  find-clear_shadow_memory (suc n) (suc fuel) first dir enough =
      let (dir', done, found) =
        find-clear_shadow_memory n fuel (suc first) (erase dir first) (omega arith) in
      (
        dir',
        rw
            (
              eqb_of_ne (first * max_grain_size) ((first + suc n) * max_grain_size) (omega arith),
              next_key first,
              next_start first,
              next_end first n,
            )
            done,
        λ j. found j ∙ ground (arith, find-erase dir first j),
      )
