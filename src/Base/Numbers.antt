-- ===== src/Base/Numbers.antt =====
-- Finite sets of numbers as lists.
use Prim.Native.Nat.{ℕ, ◌≤◌, ◌<◌, max}
use mathlib.Core.Path.{◌≡◌, refl}
use mathlib.Core.Bool.{Bool, true, false, ◌||◌, ◌&&◌}
use mathlib.Core.List.{List, [], ◌∷◌, ◌++◌}
use native.Mathlib.Omega.{arith}
use mathlib.Core.Logic.{inl, inr}
use package.gtp_rs.Base.Tests.{◌==◌, if◌then◌else◌, Bool-cases}
use package.gtp_rs.Base.Lists.{length}

abbrev pub contains : List ℕ → ℕ → Bool
contains [] n = false
contains (x ∷ xs) n = n == x || contains xs n

abbrev pub maximum : List ℕ → ℕ
maximum [] = 0
maximum (x ∷ xs) = max x (maximum xs)

abbrev pub is_empty {ℓ} : {A : Type ℓ} → List A → Bool
is_empty [] = true
is_empty (x ∷ xs) = false

abbrev pub IsDistinct : List ℕ → Type 0
IsDistinct [] = Unit {0}
IsDistinct (x ∷ xs) = (contains xs x ≡ false) × IsDistinct xs

pub contains-above_maximum : (xs : List ℕ) (n : ℕ) → maximum xs < n → contains xs n ≡ false
contains-above_maximum [] n h = refl
contains-above_maximum (x ∷ xs) n h = ground (arith, contains-above_maximum xs n)

pub le-maximum : (xs : List ℕ) (n : ℕ) → contains xs n ≡ true → n ≤ maximum xs
le-maximum [] n h = cc
le-maximum (x ∷ xs) n h = ground (arith, le-maximum xs n)

pub contains-maximum : (x : ℕ) (xs : List ℕ) → contains (x ∷ xs) (maximum (x ∷ xs)) ≡ true
contains-maximum x [] = ground arith
contains-maximum x (y ∷ ys) = ground (arith, contains-maximum y ys)

pub contains-append :
    (xs ys : List ℕ) (n : ℕ) → contains (xs ++ ys) n ≡ (contains xs n || contains ys n)
contains-append [] ys n = refl
contains-append (x ∷ xs) ys n = ground (arith, contains-append xs ys n)

-- Equality of byte strings.
abbrev pub bytes_eq : List ℕ → List ℕ → Bool
bytes_eq [] [] = true
bytes_eq [] (y ∷ ys) = false
bytes_eq (x ∷ xs) [] = false
bytes_eq (x ∷ xs) (y ∷ ys) = x == y && bytes_eq xs ys

pub bytes_eq→eq : (xs ys : List ℕ) → bytes_eq xs ys ≡ true → xs ≡ ys
bytes_eq→eq [] [] h = refl
bytes_eq→eq [] (y ∷ ys) h = cc
bytes_eq→eq (x ∷ xs) [] h = cc
bytes_eq→eq (x ∷ xs) (y ∷ ys) h = ground (arith, bytes_eq→eq xs ys)

pub bytes_eq_refl : (xs : List ℕ) → bytes_eq xs xs ≡ true
bytes_eq_refl [] = refl
bytes_eq_refl (x ∷ xs) = ground (arith, bytes_eq_refl xs)

-- What a `retain` of the other numbers keeps.
abbrev pub without : ℕ → List ℕ → List ℕ
without k [] = []
without k (j ∷ js) = let rest = without k js in if j == k then rest else j ∷ rest

pub without-absent : (k : ℕ) (js : List ℕ) → contains js k ≡ false → without k js ≡ js
without-absent k [] h = refl
without-absent k (j ∷ js) h = ground (arith, without-absent k js)

pub contains-without :
    (k : ℕ) (js : List ℕ) (i : ℕ)
    → contains (without k js) i ≡ (if i == k then false else contains js i)
contains-without k [] i = ground arith
contains-without k (j ∷ js) i = ground (arith, contains-without k js i)

pub IsDistinct-without : (k : ℕ) (js : List ℕ) → IsDistinct js → IsDistinct (without k js)
IsDistinct-without k [] d = tt
IsDistinct-without k (j ∷ js) d = elim (Bool-cases (j == k)) [
  | inl same ↦ rw same (IsDistinct-without k js d.1)
  | inr other ↦ rw other (ground (arith, contains-without k js j, d.0), IsDistinct-without k js d.1)
]

pub length-without_le : (k : ℕ) (js : List ℕ) → length (without k js) ≤ length js
length-without_le k [] = omega arith
length-without_le k (j ∷ js) = ground (arith, length-without_le k js)

pub IsDistinct-snoc :
    (ks : List ℕ) (k : ℕ) → IsDistinct ks → contains ks k ≡ false → IsDistinct (ks ++ (k ∷ []))
IsDistinct-snoc [] k d h = (refl, tt)
IsDistinct-snoc (j ∷ ks) k d h =
    (ground (arith, contains-append ks (k ∷ []) j), IsDistinct-snoc ks k d.1 (ground arith))
