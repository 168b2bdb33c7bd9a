-- ===== src/Pipeline/Iterations/Laid.antt =====
-- After n insertions: which list is where in the ring, and how one more changes it.
use pracer.Base.{
  ℕ, ◌+◌, ◌%◌, ◌≤◌, ◌<◌, ◌≡◌, ◌∙◌, refl, sym, true, false, some, ◌==◌, ltb, if◌then◌else◌, arith,
  ◌*◌, Bool-cases, lt→ltb, ap, eqb_of_ne, suc, ◌⊎◌, inl, inr,
}
use native.Mathlib.Nat.{mod_self, mod-eq_of_lt, mul-add-mod_self_right}
use pracer.Pipeline.Iterations.{
  Iterations, new_iterations, get_index, next_place, insert_stage_frame_list,
}

eq_limit : (limit i : ℕ) → (i == limit) ≡ true → suc i ≡ limit + 1
eq_limit limit i h = ground arith

inner_lt : (limit i : ℕ) → i ≤ limit → (i == limit) ≡ false → suc i < limit + 1
inner_lt limit i le ne = ground arith

pub ne_lt : (a b : ℕ) → a ≤ b → (a == b) ≡ false → a < b
ne_lt a b le ne = ground arith

pub eq_of : (a b : ℕ) → (a == b) ≡ true → a ≡ b
eq_of a b h = ground arith

mod_next :
    (limit head : ℕ)
    → head < limit + 1
    → suc head % (limit + 1) ≡ (if suc head == limit + 1 then 0 else suc head)
mod_next limit head lt = elim (Bool-cases (suc head == limit + 1)) [
  | inl last ↦ rw (last, eq_of (suc head) (limit + 1) last) (mod_self (limit + 1))
  | inr inner ↦ rw inner (mod-eq_of_lt (ne_lt (suc head) (limit + 1) (omega arith) inner))
]

get_index_at :
    (limit q i : ℕ)
    → i ≤ limit
    → (q * (limit + 1) + suc i) % (limit + 1) ≡ (if i == limit then 0 else suc i)
get_index_at limit q i le = elim (Bool-cases (i == limit)) [
  | inl last ↦ rw last (
      mul-add-mod_self_right q (limit + 1) (suc i)
      ∙ rw (eq_limit limit i last) (mod_self (limit + 1)))
  | inr inner ↦
      rw inner
        (mul-add-mod_self_right q (limit + 1) (suc i) ∙ mod-eq_of_lt (inner_lt limit i le inner))
]

module _ {A : Type 0} (list : ℕ → A) (limit : ℕ) (pos : 1 ≤ limit) where
  pub get_index-place :
      (s : Iterations A) (q i : ℕ)
      → s.throttle_limit ≡ limit
      → i ≤ limit
      → get_index s (q * (limit + 1) + suc i) ≡ i
  unfolding get_index
  get_index-place s q i same le = rw (same, get_index_at limit q i le) (ground arith)

  -- After n insertions: the whole laps, and where the head and the tail are.
  pub record Laid (q n : ℕ) (s : Iterations A) : Type 0 where
    pub same_limit : s.throttle_limit ≡ limit
    pub count : n ≡ q * (limit + 1) + s.head
    pub within : s.head ≤ limit + 1
    pub tail_at :
        ((q ≡ 0) × (s.tail ≡ 0))
        ⊎ ((1 ≤ q) × (1 ≤ s.head) × (s.tail ≡ (if s.head == limit + 1 then 1 else suc s.head)))
    pub newest : (i : ℕ) → i < s.head → s.p i ≡ some (list (q * (limit + 1) + suc i))
    pub older :
        (i q' : ℕ)
        → q ≡ suc q'
        → s.head ≤ i
        → i ≤ limit
        → s.p i ≡ some (list (q' * (limit + 1) + suc i))

  pub new_iterations-Laid : Laid 0 0 (new_iterations limit)
  unfolding new_iterations
  new_iterations-Laid = record {
    same_limit = refl;
    count = omega arith;
    within = omega arith;
    tail_at = inl (refl, refl);
    newest = λ i lt. absurd (omega arith);
    older = λ i q' e. absurd (omega arith);
  }

  -- Within a lap the head goes on by one.
  next_place-inner :
      (q n : ℕ) (s : Iterations A)
      → Laid q n s
      → s.head < limit + 1
      → next_place s
        ≡ some (s.head, suc s.head, if q == 0 then 0 else suc (suc s.head % (limit + 1)))
  unfolding next_place
  next_place-inner q n s laid lt = elim laid.tail_at [
    | inl (first, no_tail) ↦ rw (laid.same_limit, first, no_tail, lt→ltb _ _ lt) (ground arith)
    | inr (later, started, behind) ↦
        let tail : s.tail ≡ suc s.head = ground arith in rw (laid.same_limit, tail) (ground arith)
  ]

  -- At the end of a lap it starts again.
  next_place-wrap :
      (q n : ℕ) (s : Iterations A) → Laid q n s → s.head ≡ limit + 1 → next_place s ≡ some (0, 1, 2)
  unfolding next_place
  next_place-wrap q n s laid full = elim laid.tail_at [
    | inl (first, no_tail) ↦ rw (laid.same_limit, no_tail) (ground arith)
    | inr (later, started, behind) ↦
        let tail : s.tail ≡ 1 = ground arith in rw (laid.same_limit, tail) (ground arith)
  ]

  next_tail :
      (q head : ℕ)
      → head < limit + 1
      → (let tail : ℕ = if q == 0 then 0 else suc (suc head % (limit + 1)) in
          ((q ≡ 0) × (tail ≡ 0))
          ⊎ ((1 ≤ q)
              × (1 ≤ suc head)
              × (tail ≡ (if suc head == limit + 1 then 1 else suc (suc head)))))
  next_tail q head lt = elim (Bool-cases (q == 0)) [
    | inl first ↦ rw first (inl (eq_of q 0 first, refl))
    | inr later ↦ rw (later, mod_next limit head lt) (inr (ground arith, omega arith, ground arith))
  ]

  pub insert-inner :
      (q n : ℕ) (s : Iterations A)
      → Laid q n s
      → s.head < limit + 1
      → (s' : Iterations A) × (insert_stage_frame_list (suc n) (list (suc n)) s ≡ some s')
        × Laid q (suc n) s'
  unfolding insert_stage_frame_list
  insert-inner q n s laid lt =
      let here : ltb s.head (limit + 1) ≡ true = lt→ltb _ _ lt in
      let this : suc n ≡ q * (limit + 1) + suc s.head = omega (arith, laid.count) in
      (
        record s {
          p = λ i. if i == s.head then some (list (suc n)) else s.p i;
          iter_num_list = λ i. if i == s.head then some (suc n) else s.iter_num_list i;
          head = suc s.head;
          tail = if q == 0 then 0 else suc (suc s.head % (limit + 1));
        },
        rw (next_place-inner q n s laid lt, laid.same_limit, here) refl,
        record {
          same_limit = laid.same_limit;
          count = this;
          within = omega arith;
          tail_at = next_tail q s.head (omega arith);
          newest = λ i lt'. elim (Bool-cases (i == s.head)) [
            | inl new ↦ rw new (
                ap (λ m. some (list m))
                  (this ∙ ap (λ m. q * (limit + 1) + suc m) (sym (eq_of i s.head new))))
            | inr old ↦ rw old (laid.newest i (ground arith))
          ];
          older = λ i q' e le le'.
              rw (eqb_of_ne i s.head (omega arith)) (laid.older i q' e (omega arith) le');
        },
      )

  wrapped :
      (q q' i n : ℕ) (s : Iterations A)
      → suc q ≡ suc q'
      → Laid q n s
      → s.head ≡ limit + 1
      → i ≤ limit
      → s.p i ≡ some (list (q' * (limit + 1) + suc i))
  wrapped q q' i n s e laid full le =
      laid.newest i (omega arith) ∙ ap (λ r. some (list (r * (limit + 1) + suc i))) (omega arith)

  pub insert-wrap :
      (q n : ℕ) (s : Iterations A)
      → Laid q n s
      → s.head ≡ limit + 1
      → (s' : Iterations A) × (insert_stage_frame_list (suc n) (list (suc n)) s ≡ some s')
        × Laid (suc q) (suc n) s'
  unfolding insert_stage_frame_list
  insert-wrap q n s laid full =
      let this : suc n ≡ suc q * (limit + 1) + 1 = grind (arith, laid.count) in
      (
        record s {
          p = λ i. if i == 0 then some (list (suc n)) else s.p i;
          iter_num_list = λ i. if i == 0 then some (suc n) else s.iter_num_list i;
          head = 1;
          tail = 2;
        },
        rw (next_place-wrap q n s laid full, laid.same_limit) (ground arith),
        record {
          same_limit = laid.same_limit;
          count = this;
          within = omega arith;
          tail_at = inr (omega arith, omega arith, ground arith);
          newest = λ i lt'. let e : i ≡ 0 = omega arith in rw (e, this) refl;
          older = λ i q' e le le'.
              rw (eqb_of_ne i 0 (omega arith)) (wrapped q q' i n s e laid full le');
        },
      )
