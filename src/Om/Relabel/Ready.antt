-- ===== src/Om/Relabel/Ready.antt =====
-- The calls on the left and on the right half are ready.
use native.Mathlib.Nat.{pow-suc}
use mathlib.Core.List.{append_assoc}
use pracer.Base.{
  ℕ, zero, suc, ◌+◌, ◌-◌, ◌*◌, ◌%◌, ◌^◌, ◌≤◌, ◌≡◌, ◌≢◌, ◌∙◌, ◌⊎◌, inl, inr, refl, sym, ap, true,
  false, some, List, ◌∷◌, ◌++◌, arith, length, length-take, length-drop, take, drop,
  take-append-drop, mem, ne_of_mem, Bool-cases,
}
use pracer.Om.Store.{Ptr, null, Store}
use pracer.Om.Relabel.{middle, half_up}
use pracer.Om.Relabel.Rebuild.{Leaves, Ready}
use pracer.Om.Relabel.Run.{started}
use pracer.Om.Relabel.Halves.{
  Leaves-split, Leaves-frame, Cut, mem-front, mem-back, not-mem_parts, cut,
}

pub pow_pos : (k : ℕ) → 1 ≤ 2 ^ k
pow_pos zero = omega arith
pow_pos (suc k) = omega (arith, pow-suc 2 k, pow_pos k)

even_half : (k : ℕ) → (k ≡ 0) ⊎ (2 ^ k % 2 ≡ 0)
even_half zero = inl refl
even_half (suc k) = inr (omega (arith, pow-suc 2 k))

middle_lem : (llab rlab w : ℕ) → 1 ≤ w → rlab + 1 ≡ llab + w * 2 → middle llab rlab + 1 ≡ llab + w
middle_lem llab rlab w pos e = omega arith

module _ (s : Store) (below : Ptr → Ptr) (parent level llab rlab k n : ℕ) (array rs ms : List Ptr)
    (r : Ready s below parent level llab rlab (suc k) array (n ∷ rs) ms)
    (two : 2 ≤ length array) where
  abbrev pub m : ℕ
  m = half_up (length array)

  abbrev pub front_ps : List Ptr
  front_ps = take (m - 1) rs

  abbrev pub back_ps : List Ptr
  back_ps = drop (m - 1) rs

  pub Cut-array : Cut array (take m array) (drop m array)
  Cut-array = cut m array r.unique_array

  pub Cut-ps : Cut rs front_ps back_ps
  Cut-ps = cut (m - 1) rs r.unique_ps.1

  pub n_array : mem n array ≡ false
  n_array = elim (Bool-cases (mem n array)) [ inl i ↦ ground (arith, r.apart n i) | inr out ↦ out ]

  middle_eq : middle llab rlab + 1 ≡ llab + 2 ^ k
  middle_eq = middle_lem llab rlab (2 ^ k) (pow_pos k) (r.width ∙ ap (λ w. llab + w) (pow-suc 2 k))

  start_left : (k ≡ 0) ⊎ (llab % 2 ≡ 0)
  start_left = ground (arith, r.start)

  start_right : (k ≡ 0) ⊎ ((middle llab rlab + 1) % 2 ≡ 0)
  start_right = ground (arith, r.start, even_half k, middle_eq)

  pub apart_rs : (a : ℕ) → mem a array ≡ true → mem a rs ≡ false
  apart_rs a i = ground (arith, r.apart a i)

  null_rs : mem null rs ≡ false
  null_rs = ground (arith, r.null_ps)

  halves : Leaves s.tops below (take m array) × Leaves s.tops below (drop m array)
  halves =
      Leaves-split s.tops below (take m array) (drop m array)
        (rw (take-append-drop m array) r.at_leaves)

  -- Before the left call only `n` has changed.
  pub Ready-left :
      (s3 : Store)
      → s3.tops n ≡ some (started parent level null null)
      → ((a : Ptr) → a ≢ n → s3.tops a ≡ s.tops a)
      → s3.mallocs ≡ rs ++ ms
      → Ready s3 below n
          (level + 1)
          llab
          (middle llab rlab)
          k
          (take m array)
          front_ps
          (back_ps ++ ms)
  Ready-left s3 at same got = record {
    parent_ok = ground (arith, r.null_ps);
    above = started parent level null null;
    at_parent = at;
    level_eq = refl;
    width = middle_eq;
    start = start_left;
    filled = omega (arith, length-take m array);
    fits = omega (arith, length-take m array, r.fits, pow-suc 2 k);
    count = omega (arith, length-take m array, length-take (m - 1) rs, r.count);
    mallocs = got ∙ ap (λ l. l ++ ms) (sym Cut-ps.whole) ∙ append_assoc front_ps back_ps ms;
    at_leaves =
        Leaves-frame s.tops s3.tops below (take m array) halves.0
          (λ a i. same a (ne_of_mem a n array (mem-front a Cut-array i) n_array));
    unique_array = Cut-array.unique_front;
    unique_ps = Cut-ps.unique_front;
    apart = λ a i. (not-mem_parts a Cut-ps (apart_rs a (mem-front a Cut-array i))).0;
    parent_array = (not-mem_parts n Cut-array n_array).0;
    parent_ps = (not-mem_parts n Cut-ps r.unique_ps.0).0;
    null_ps = (not-mem_parts null Cut-ps null_rs).0;
  }

  -- Before the right call `n` and what the left call owns have changed.
  pub Ready-right :
      (s4 : Store) (left : ℕ)
      → s4.tops n ≡ some (started parent level left null)
      → ((a : Ptr)
          → a ≢ n
          → mem a (take m array) ≡ false
          → mem a front_ps ≡ false
          → s4.tops a ≡ s.tops a)
      → s4.mallocs ≡ back_ps ++ ms
      → Ready s4 below n (level + 1) (middle llab rlab + 1) rlab k (drop m array) back_ps ms
  Ready-right s4 left at same got = record {
    parent_ok = ground (arith, r.null_ps);
    above = started parent level left null;
    at_parent = at;
    level_eq = refl;
    width = omega (arith, r.width, middle_eq, pow-suc 2 k);
    start = start_right;
    filled = omega (arith, length-drop m array);
    fits = omega (arith, length-drop m array, r.fits, pow-suc 2 k);
    count = omega (arith, length-drop m array, length-drop (m - 1) rs, r.count);
    mallocs = got;
    at_leaves = Leaves-frame s.tops s4.tops below (drop m array) halves.1 (λ a i.
        same a (ne_of_mem a n array (mem-back a Cut-array i) n_array) (not-front a i)
          (not-mem_parts a Cut-ps (apart_rs a (mem-back a Cut-array i))).0);
    unique_array = Cut-array.unique_back;
    unique_ps = Cut-ps.unique_back;
    apart = λ a i. (not-mem_parts a Cut-ps (apart_rs a (mem-back a Cut-array i))).1;
    parent_array = (not-mem_parts n Cut-array n_array).1;
    parent_ps = (not-mem_parts n Cut-ps r.unique_ps.0).1;
    null_ps = (not-mem_parts null Cut-ps null_rs).1;
  }
    where
      not-front : (a : ℕ) → mem a (drop m array) ≡ true → mem a (take m array) ≡ false
      not-front a i = elim (Bool-cases (mem a (take m array))) [
        | inl h ↦ cc (Cut-array.front_sub a h)
        | inr h ↦ h
      ]
