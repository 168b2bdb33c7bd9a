-- ===== src/ShadowStack/Stack/Kept.antt =====
-- Growing and shrinking keep the elements of a stack, and its head within its capacity.
use pracer.Base.{
  ℕ, ◌+◌, ◌-◌, ◌*◌, ◌/◌, ◌%◌, ◌≤◌, ◌<◌, ◌≡◌, ◌∙◌, refl, ◌&&◌, ◌==◌, ltb, if◌then◌else◌, arith, ◌⊎◌,
  inl, inr, Bool-cases, lt→ltb,
}
use pracer.ShadowStack.Stack.{word, default_capacity, Stack, push, pop}

next_head :
    (head capacity : ℕ)
    → 64 ≤ capacity
    → capacity < 2147483648
    → (head ≡ word - 1) ⊎ (head < capacity)
    → (head + 1) % word ≤ capacity
next_head head capacity least most (inl empty) = omega arith
next_head head capacity least most (inr within) = omega arith

double_copy :
    (capacity : ℕ)
    → capacity < 1073741824
    → (if ltb (capacity * 2 % word) capacity then capacity * 2 % word else capacity) ≡ capacity
double_copy capacity small = ground arith

half_copy :
    (capacity : ℕ)
    → 64 ≤ capacity
    → (if ltb (capacity / 2) capacity then capacity / 2 else capacity) ≡ capacity / 2
half_copy capacity least = ground arith

prev_head :
    (head capacity : ℕ)
    → capacity < 2147483648
    → head < capacity
    → (head + (word - 1)) % word ≡ (if head == 0 then word - 1 else head - 1)
prev_head head capacity most within = ground arith

prev_within :
    (head capacity : ℕ)
    → capacity < 2147483648
    → head < capacity
    → ((head + (word - 1)) % word ≡ word - 1) ⊎ ((head + (word - 1)) % word < capacity)
prev_within head capacity most within = elim (Bool-cases (head == 0)) [
  | inl first ↦ inl (ground arith)
  | inr later ↦ inr (ground arith)
]

head_again :
    (head capacity : ℕ)
    → capacity < 2147483648
    → (head ≡ word - 1) ⊎ (head < capacity)
    → (if (head + 1) % word == 0 then word - 1 else (head + 1) % word - 1) ≡ head
head_again head capacity most (inl empty) = ground arith
head_again head capacity most (inr within) = ground arith

module _ {A : Type 0} (blank : A) where
  -- The head is -1 or below the capacity, which can be doubled.
  abbrev pub Fits : Stack A → Type 0
  Fits s =
      (64 ≤ s.capacity) × (s.capacity < 2147483648) × ((s.head ≡ word - 1) ⊎ (s.head < s.capacity))

  -- With fewer than 2 ^ 30 places, a push makes room for one more element and keeps all others.
  pub push-kept :
      (s : Stack A)
      → Fits s
      → s.capacity < 1073741824
      → Fits (push blank s)
        × ((push blank s).head < (push blank s).capacity)
        × ((i : ℕ) → i < (push blank s).head → (push blank s).stack i ≡ s.stack i)
  unfolding push
  push-kept s (least, most, at_head) small =
      let le = next_head s.head s.capacity least most at_head in
      elim (Bool-cases ((s.head + 1) % word == s.capacity)) [
        | inl full ↦
            rw (full, double_copy s.capacity small)
              (
                (ground arith, ground arith, inr (ground arith)),
                ground arith,
                λ i lt. rw (lt→ltb i s.capacity (ground arith)) refl,
              )
        | inr room ↦ rw room ((least, most, inr (ground arith)), ground arith, λ i lt. refl)
      ]

  push-head : (s : Stack A) → (push blank s).head ≡ (s.head + 1) % word
  unfolding push
  push-head s = elim (Bool-cases ((s.head + 1) % word == s.capacity)) [
    | inl full ↦ rw full refl
    | inr room ↦ rw room refl
  ]

  -- A pop of an element keeps those below it, also where the array is halved.
  pub pop-kept :
      (s : Stack A)
      → Fits s
      → s.head < s.capacity
      → Fits (pop blank s)
        × ((pop blank s).head ≡ (if s.head == 0 then word - 1 else s.head - 1))
        × ((i : ℕ) → i < s.head → (pop blank s).stack i ≡ s.stack i)
  unfolding pop
  pop-kept s (least, most, at_head) within =
      let below = prev_head s.head s.capacity most within in
      elim (Bool-cases
        (ltb default_capacity s.capacity && ltb ((s.head + (word - 1)) % word) (s.capacity / 2))) [
          | inl less ↦
              rw (less, half_copy s.capacity least)
                (
                  (ground arith, ground arith, inr (ground arith)),
                  below,
                  λ i lt. rw (lt→ltb i (s.capacity / 2) (ground arith)) refl,
                )
          | inr enough ↦
              rw enough
                ((least, most, prev_within s.head s.capacity most within), below, λ i lt. refl)
        ]

  -- On a stack with 64 to 2 ^ 30 - 1 places, whose head is -1 or one of the places, popping what was
  -- pushed gives the old head and all elements up to it, and leaves such a stack again, of less than
  -- 2 ^ 31 places.
  pub pop-push :
      (s : Stack A)
      → Fits s
      → s.capacity < 1073741824
      → Fits (pop blank (push blank s))
        × ((pop blank (push blank s)).head ≡ s.head)
        × ((i : ℕ) → i < (push blank s).head → (pop blank (push blank s)).stack i ≡ s.stack i)
  pop-push s fits small =
      let (fits', within, kept) = push-kept s fits small in
      let (fits'', head, kept') = pop-kept (push blank s) fits' within in
      (
        fits'',
        head ∙ rw (push-head s) (head_again s.head s.capacity fits.1 fits.2),
        λ i lt. kept' i lt ∙ kept i lt,
      )
