-- ===== src/Pipeline/Left/Scan.antt =====
-- Which stages getLeftDependency passes, where the stages of the iteration before rise.
use pracer.Base.{
  ℕ, zero, suc, ◌+◌, ◌-◌, ◌≤◌, ◌<◌, ◌≡◌, refl, drop, ◌==◌, ltb, arith, Bool-cases, inl, inr,
}
use pracer.Pipeline.Left.{left_loop, later_of, get_left_dependency}
use pracer.Pipeline.Left.Cases.{tab}

-- The search from a on ends at index', behind the stages that are not after `stage` and before
-- those that are.
abbrev pub Scanned : (stage : ℕ) → (ℕ → ℕ) → (a bound index' : ℕ) → Type 0
Scanned stage number a bound index' =
    (a ≤ index')
    × ((l : ℕ) → a ≤ l → l < index' → number l ≤ stage)
    × ((l : ℕ) → index' ≤ l → l < bound → stage < number l)

module _ (number : ℕ → ℕ) (rising : (k : ℕ) → number k < number (suc k)) where
  rising_by : (d a l : ℕ) → l ≡ a + d → number a ≤ number l
  rising_by zero a l e = let same : a ≡ l = omega arith in rw same (omega arith)
  rising_by (suc d) a zero e = absurd (omega arith)
  rising_by (suc d) a (suc l) e = omega (arith, rising_by d a l (omega arith), rising l)

  rising_le : (a l : ℕ) → a ≤ l → number a ≤ number l
  rising_le a l le = rising_by (l - a) a l (omega arith)

  left_loop-Scanned :
      (stage n a i_pre : ℕ)
      → Scanned stage number a (a + n) (later_of (left_loop stage (tab number a n) a i_pre)).1
  unfolding left_loop
  left_loop-Scanned stage zero a i_pre =
      (omega arith, λ l from to. absurd (omega arith), λ l from to. absurd (omega arith))
  left_loop-Scanned stage (suc n) a i_pre = elim (Bool-cases (number a == stage)) [
    | inl same ↦
        let e : number a ≡ stage = ground arith in
        rw same (
          omega arith,
          λ l from to. let here : l ≡ a = omega arith in rw here (omega arith),
          λ l from to. omega (arith, rising a, rising_le (suc a) l from),
        )
    | inr other ↦ elim (Bool-cases (ltb (number a) stage)) [
      | inl before ↦
          let lt : number a < stage = ground arith in
          let (past, passed, left) = left_loop-Scanned stage n (suc a) a in
          rw (other, before)
            (
              omega arith,
              λ l from to. elim (Bool-cases (l == a)) [
                | inl here ↦ let e : l ≡ a = ground arith in rw e (omega arith)
                | inr later ↦ passed l (ground arith) to
              ],
              λ l from to. left l from (omega arith),
            )
      | inr after ↦
          let gt : stage < number a = ground arith in
          rw (other, after)
            (
              omega arith,
              λ l from to. absurd (omega arith),
              λ l from to. omega (arith, rising_le a l from),
            )
    ]
  ]

  drop-tab :
      (index from n : ℕ) → drop index (tab number from n) ≡ tab number (from + index) (n - index)
  drop-tab zero from n =
      let e : from + 0 ≡ from = omega arith in let e' : n - 0 ≡ n = omega arith in rw (e, e') refl
  drop-tab (suc index) from zero = let e : 0 - suc index ≡ 0 = omega arith in rw e refl
  drop-tab (suc index) from (suc n) =
      let e : from + suc index ≡ suc from + index = omega arith in
      let e' : suc n - suc index ≡ n - index = omega arith in
      rw (e, e') (drop-tab index (suc from) n)

  pub get_left_dependency-Scanned :
      (stage n index : ℕ)
      → Scanned stage number index n (get_left_dependency (tab number 0 n) index stage).1
  unfolding get_left_dependency
  get_left_dependency-Scanned stage n index =
      let none : 0 + index ≡ index = omega arith in
      let (past, passed, left) = left_loop-Scanned stage (n - index) index 0 in
      rw (drop-tab index 0 n, none) (past, passed, λ l from to. left l from (omega arith))
