-- ===== src/Pipeline/Items/Laws.antt =====
-- The array has room for the list, and appending adds one element at its end.
use pracer.Base.{
  ℕ, suc, ◌≤◌, ◌<◌, ◌≡◌, ◌≢◌, refl, false, none, some, ◌==◌, ltb, if◌then◌else◌, arith, Bool-cases,
  inl, inr, lt→ltb, sym, ◌∙◌, ap,
}
use pracer.Pipeline.Items.{Items, extend_list, new_items, room, written, append, get}

lt_of_ne : (a b : ℕ) → a ≤ b → (a == b) ≡ false → a < b
lt_of_ne a b le ne = ground arith

ltb_past : (i n : ℕ) → (i == n) ≡ false → ltb i n ≡ false → ltb i (suc n) ≡ false
ltb_past i n ne after = ground arith

module _ {A : Type 0} where
  pub record IsRoomy (l : Items A) : Type 0 where
    pub within : l.length ≤ l.size
    pub filled : (i : ℕ) → i < l.size → l.p i ≢ none

  pub new_items-IsRoomy : (blank : A) → IsRoomy (new_items blank)
  unfolding new_items
  new_items-IsRoomy blank = record { within = omega arith; filled = λ i lt e. ground arith }

  room-IsRoomy :
      (blank : A) (l : Items A)
      → IsRoomy l
      → (l.length < (room blank l).size)
        × ((room blank l).length ≡ l.length)
        × ((i : ℕ) → i < (room blank l).size → (room blank l).p i ≢ none)
        × ((i : ℕ) → i < l.length → (room blank l).p i ≡ l.p i)
  unfolding room extend_list
  room-IsRoomy blank l r = elim (Bool-cases (l.length == l.size)) [
    | inl full ↦ rw full (
      ground arith,
      refl,
      λ i lt e. elim (Bool-cases (ltb i l.size)) [
        | inl old ↦ r.filled i (ground arith) (sym (rw old refl) ∙ e)
        | inr new ↦ ground arith
      ],
      λ i lt. rw (lt→ltb i l.size (ground arith)) refl,
    )
    | inr free ↦ rw free (lt_of_ne l.length l.size r.within free, refl, r.filled, λ i lt. refl)
  ]

  -- The list that appending leaves.
  abbrev pub appended : A → A → Items A → Items A
  appended blank element l = written element (room blank l)

  -- Appending writes within the array.
  pub append-appended :
      (blank element : A) (l : Items A)
      → IsRoomy l
      → append blank element l ≡ some (appended blank element l)
  unfolding append
  append-appended blank element l r =
      let (space, same, filled, kept) = room-IsRoomy blank l r in
      let fits : (room blank l).length < (room blank l).size = rw same space in
      rw (lt→ltb (room blank l).length (room blank l).size fits) refl

  pub appended-length :
      (blank element : A) (l : Items A)
      → IsRoomy l
      → (appended blank element l).length ≡ suc l.length
  appended-length blank element l r = ap suc (room-IsRoomy blank l r).1

  -- The array has room for the list after appending, which adds the element at the end, and leaves
  -- all before it.
  pub get-appended :
      (blank element : A) (l : Items A)
      → IsRoomy l
      → IsRoomy (appended blank element l)
        × (l.length < (appended blank element l).size)
        × ((i : ℕ)
            → get (appended blank element l) i ≡ (if i == l.length then some element else get l i))
  unfolding get
  get-appended blank element l r =
      let (space, same, filled, kept) = room-IsRoomy blank l r in
      (
        record {
          within = rw same space;
          filled = λ i lt e. elim (Bool-cases (i == (room blank l).length)) [
            | inl new ↦ let filled_now : some element ≡ none = rw new at e in cc
            | inr old ↦ filled i lt (rw old at e)
          ];
        },
        space,
        λ i. elim (Bool-cases (i == l.length)) [
          | inl new ↦ rw (same, new) (ground arith)
          | inr old ↦
              rw (same, old)
                (elim (Bool-cases (ltb i l.length)) [
                  | inl before ↦
                      rw (lt→ltb i (suc l.length) (ground arith), before) (kept i (ground arith))
                  | inr after ↦ rw (ltb_past i l.length old after, after) refl
                ])
        ],
      )
