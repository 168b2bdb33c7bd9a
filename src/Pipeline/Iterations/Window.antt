-- ===== src/Pipeline/Iterations/Window.antt =====
-- The ring keeps the last iterations where get_index looks for them.
use pracer.Base.{
  ℕ, zero, ◌+◌, ◌-◌, ◌≤◌, ◌<◌, ◌≡◌, ◌∙◌, refl, some, ◌==◌, ltb, arith, ◌*◌, Bool-cases, ltb→lt, ap,
  suc, inl, inr,
}
use pracer.Pipeline.Iterations.{Iterations, new_iterations, get_stage_frame_list, insert_all}
use pracer.Pipeline.Iterations.Laid.{
  Laid, eq_of, ne_lt, get_index-place, new_iterations-Laid, insert-inner, insert-wrap,
}

module _ {A : Type 0} (list : ℕ → A) (limit : ℕ) (pos : 1 ≤ limit) where
  insert_all-Laid :
      (n : ℕ)
      → (q : ℕ) × (s : Iterations A) × (insert_all list n (new_iterations limit) ≡ some s)
        × Laid list limit pos q n s
  unfolding insert_all
  insert_all-Laid zero = (0, new_iterations limit, refl, new_iterations-Laid list limit pos)
  insert_all-Laid (suc n) =
      let (q, s, done, laid) = insert_all-Laid n in
      elim (Bool-cases (s.head == limit + 1)) [
        | inl full ↦
            let (s', step, laid') = insert-wrap list limit pos q n s laid (eq_of _ _ full) in
            (suc q, s', rw done step, laid')
        | inr open_lap ↦
            let (s', step, laid') =
              insert-inner list limit pos q n s laid (ne_lt _ _ laid.within open_lap) in
            (q, s', rw done step, laid')
      ]

  -- A list is found where it was put.
  found_at :
      (s : Iterations A) (q i : ℕ)
      → s.throttle_limit ≡ limit
      → i ≤ limit
      → s.p i ≡ some (list (q * (limit + 1) + suc i))
      → (j : ℕ) → j ≡ q * (limit + 1) + suc i
      → get_stage_frame_list s j ≡ some (list j)
  unfolding get_stage_frame_list
  found_at s q i same le here j e =
      rw e (ap s.p (get_index-place list limit pos s q i same le) ∙ here)

  earlier_lap :
      (q n : ℕ) (s : Iterations A)
      → Laid list limit pos q n s
      → (j : ℕ) → 1 ≤ j
      → n < j + (limit + 1)
      → j ≤ q * (limit + 1)
      → get_stage_frame_list s j ≡ some (list j)
  earlier_lap zero n s laid j first near le = absurd (omega arith)
  earlier_lap (suc q) n s laid j first near le =
      let i = j - q * (limit + 1) - 1 in
      let lap : suc q * (limit + 1) ≡ q * (limit + 1) + (limit + 1) = grind arith in
      let after : s.head ≤ i = omega (arith, laid.count) in
      let bound : i ≤ limit = omega arith in
      found_at s q i laid.same_limit bound (laid.older i q refl after bound) j
        (omega (arith, laid.count))

  pub Laid-window :
      (q n : ℕ) (s : Iterations A)
      → Laid list limit pos q n s
      → (j : ℕ) → 1 ≤ j
      → j ≤ n
      → n < j + (limit + 1)
      → get_stage_frame_list s j ≡ some (list j)
  Laid-window q n s laid j first last near = elim (Bool-cases (ltb (q * (limit + 1)) j)) [
    | inl lap ↦
        let lt : q * (limit + 1) < j = ltb→lt _ _ lap in
        let i = j - q * (limit + 1) - 1 in
        let inside : i < s.head = omega (arith, laid.count) in
        found_at s q i laid.same_limit (omega (arith, laid.within)) (laid.newest i inside) j
          (omega arith)
    | inr before ↦ earlier_lap q n s laid j first near (ground arith)
  ]

  -- With a throttle limit of one at least, the insertions of the iterations 1 to n all succeed,
  -- and then getStageFrameList finds for each of the last limit + 1 iterations its own list.
  pub insert_all-window :
      (n : ℕ)
      → (s : Iterations A) × (insert_all list n (new_iterations limit) ≡ some s)
        × ((j : ℕ) → 1 ≤ j → j ≤ n → n < j + (limit + 1) → get_stage_frame_list s j ≡ some (list j))
  insert_all-window n =
      let (q, s, done, laid) = insert_all-Laid n in (s, done, Laid-window q n s laid)
