-- ===== src/Base/Members.antt =====
-- Lists of addresses: Boolean membership, and lists without repetition.
use Prim.Native.Nat.{ℕ}
use mathlib.Core.Path.{◌≡◌, refl}
use mathlib.Core.Logic.{◌≢◌}
use mathlib.Core.Bool.{Bool, true, false, ◌||◌}
use mathlib.Core.List.{List, [], ◌∷◌, ◌++◌}
use native.Mathlib.Omega.{arith}
use pracer.Base.Tests.{◌==◌}

abbrev pub mem : ℕ → List ℕ → Bool
mem a [] = false
mem a (x ∷ xs) = (a == x) || mem a xs

abbrev pub Unique : List ℕ → Type 0
Unique [] = Unit
Unique (x ∷ xs) = (mem x xs ≡ false) × Unique xs

abbrev pub Disjoint : List ℕ → List ℕ → Type 0
Disjoint xs ys = (a : ℕ) → mem a xs ≡ true → mem a ys ≡ false

pub mem-append : (a : ℕ) (xs ys : List ℕ) → mem a (xs ++ ys) ≡ (mem a xs || mem a ys)
mem-append a [] ys = refl
mem-append a (x ∷ xs) ys = ground (arith, mem-append a xs ys)

pub Unique-append : (xs ys : List ℕ) → Unique (xs ++ ys) → Unique xs × Unique ys × Disjoint xs ys
Unique-append [] ys u = (tt, u, λ a h. ground arith)
Unique-append (x ∷ xs) ys (new, u) =
    let (ux, uy, apart) = Unique-append xs ys u in
    (
      (ground (arith, mem-append x xs ys), ux),
      uy,
      λ a h. ground (arith, mem-append x xs ys, apart a),
    )

pub ne_of_mem : (a b : ℕ) (xs : List ℕ) → mem a xs ≡ true → mem b xs ≡ false → a ≢ b
ne_of_mem a b xs i out e = cc (rw e at i)
