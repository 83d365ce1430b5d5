-- ===== src/Base/Maps.antt =====
-- Finite maps from numbers as lists of pairs: a new key goes to the end.
use Prim.Native.Nat.{ℕ, suc, ◌+◌}
use mathlib.Core.Path.{◌≡◌, refl, ap, sym, subst, ◌∙◌}
use mathlib.Core.Bool.{true, false}
use mathlib.Core.Option.{Option, none, some}
use mathlib.Core.List.{List, [], ◌∷◌, ◌++◌}
use native.Mathlib.Omega.{arith}
use mathlib.Core.Logic.{inl, inr}
use package.gtp_rs.Base.Tests.{◌==◌, if◌then◌else◌, Bool-cases, ==_iff}
use package.gtp_rs.Base.Lists.{length}
use package.gtp_rs.Base.Numbers.{contains, IsDistinct, without, without-absent}

module _ {ℓ} {A : Type ℓ} where
  abbrev pub map_get : List (ℕ × A) → ℕ → Option A
  map_get [] k = none
  map_get ((j, a) ∷ m) k = if k == j then some a else map_get m k

  abbrev pub map_put : List (ℕ × A) → ℕ → A → List (ℕ × A)
  map_put [] k v = (k, v) ∷ []
  map_put ((j, a) ∷ m) k v =
      let rest = map_put m k v in if k == j then (j, v) ∷ m else (j, a) ∷ rest

  abbrev pub map_remove : List (ℕ × A) → ℕ → List (ℕ × A)
  map_remove [] k = []
  map_remove ((j, a) ∷ m) k = let rest = map_remove m k in if k == j then m else (j, a) ∷ rest

  abbrev pub map_keys : List (ℕ × A) → List ℕ
  map_keys [] = []
  map_keys ((j, a) ∷ m) = j ∷ map_keys m

  pub length-map_keys : (m : List (ℕ × A)) → length (map_keys m) ≡ length m
  length-map_keys [] = refl
  length-map_keys ((j, a) ∷ m) = ap suc (length-map_keys m)

  pub map_get-absent :
      (m : List (ℕ × A)) (k : ℕ) → map_get m k ≡ none → contains (map_keys m) k ≡ false
  map_get-absent [] k h = refl
  map_get-absent ((j, a) ∷ m) k h = ground (arith, map_get-absent m k)

  pub map_keys-put_absent :
      (m : List (ℕ × A)) (k : ℕ) (v : A)
      → map_get m k ≡ none
      → map_keys (map_put m k v) ≡ map_keys m ++ (k ∷ [])
  map_keys-put_absent [] k v h = refl
  map_keys-put_absent ((j, a) ∷ m) k v h = ground (arith, map_keys-put_absent m k v)

  pub map_keys-put_present :
      (m : List (ℕ × A)) (k : ℕ) (v old : A)
      → map_get m k ≡ some old
      → map_keys (map_put m k v) ≡ map_keys m
  map_keys-put_present [] k v old h = cc
  map_keys-put_present ((j, a) ∷ m) k v old h = ground (arith, map_keys-put_present m k v old)

  pub map_get-put :
      (m : List (ℕ × A)) (k j : ℕ) (v : A)
      → map_get (map_put m k v) j ≡ (if j == k then some v else map_get m j)
  map_get-put [] k j v = refl
  map_get-put ((i, a) ∷ m) k j v = ground (arith, map_get-put m k j v)

  -- The sum of a measure of the values.
  abbrev pub map_sum : (A → ℕ) → List (ℕ × A) → ℕ
  map_sum f [] = 0
  map_sum f ((j, a) ∷ m) = f a + map_sum f m

  pub map_sum-put_absent :
      (f : A → ℕ) (m : List (ℕ × A)) (k : ℕ) (v : A)
      → map_get m k ≡ none
      → map_sum f (map_put m k v) ≡ map_sum f m + f v
  map_sum-put_absent f [] k v h = omega arith
  map_sum-put_absent f ((j, a) ∷ m) k v h = ground (arith, map_sum-put_absent f m k v)

  pub map_sum-put_present :
      (f : A → ℕ) (m : List (ℕ × A)) (k : ℕ) (v old : A)
      → map_get m k ≡ some old
      → map_sum f (map_put m k v) + f old ≡ map_sum f m + f v
  map_sum-put_present f [] k v old h = cc
  map_sum-put_present f ((j, a) ∷ m) k v old h = ground (arith, map_sum-put_present f m k v old)

  pub map_sum-remove :
      (f : A → ℕ) (m : List (ℕ × A)) (k : ℕ) (v : A)
      → map_get m k ≡ some v
      → map_sum f (map_remove m k) + f v ≡ map_sum f m
  map_sum-remove f [] k v h = cc
  map_sum-remove f ((j, a) ∷ m) k v h = ground (arith, map_sum-remove f m k v)

  -- A predicate of keys and values.
  abbrev pub MapAll {κ} : (ℕ → A → Type κ) → List (ℕ × A) → Type κ
  MapAll P [] = Unit {κ}
  MapAll P ((j, a) ∷ m) = P j a × MapAll P m

  pub MapAll-get {κ} :
      (P : ℕ → A → Type κ) (m : List (ℕ × A)) (k : ℕ) (v : A)
      → MapAll P m
      → map_get m k ≡ some v
      → P k v
  MapAll-get P [] k v h e = cc
  MapAll-get P ((j, a) ∷ m) k v h e = elim (Bool-cases (k == j)) [
    | inl same ↦
        let found : a ≡ v = ground arith in
        subst (P k) found (subst (λ i. P i a) (sym ((==_iff k j).0 same)) h.0)
    | inr other ↦ MapAll-get P m k v h.1 (rw other at e)
  ]

  pub MapAll-put {κ} :
      (P : ℕ → A → Type κ) (m : List (ℕ × A)) (k : ℕ) (v : A)
      → MapAll P m
      → P k v
      → MapAll P (map_put m k v)
  MapAll-put P [] k v h p = (p, tt)
  MapAll-put P ((j, a) ∷ m) k v h p = elim (Bool-cases (k == j)) [
    | inl same ↦ rw same (subst (λ i. P i v) ((==_iff k j).0 same) p, h.1)
    | inr other ↦ rw other (h.0, MapAll-put P m k v h.1 p)
  ]

  pub MapAll-remove {κ} :
      (P : ℕ → A → Type κ) (m : List (ℕ × A)) (k : ℕ) → MapAll P m → MapAll P (map_remove m k)
  MapAll-remove P [] k h = tt
  MapAll-remove P ((j, a) ∷ m) k h = elim (Bool-cases (k == j)) [
    | inl same ↦ rw same h.1
    | inr other ↦ rw other (h.0, MapAll-remove P m k h.1)
  ]

  pub map_keys-remove :
      (m : List (ℕ × A)) (k : ℕ)
      → IsDistinct (map_keys m)
      → map_keys (map_remove m k) ≡ without k (map_keys m)
  map_keys-remove [] k d = refl
  map_keys-remove ((j, a) ∷ m) k d = elim (Bool-cases (k == j)) [
    | inl same ↦
        let e : k ≡ j = (==_iff k j).0 same in
        let e' : (j == k) ≡ true = ground arith in
        rw (same, e') (sym (without-absent k (map_keys m) (ap (contains (map_keys m)) e ∙ d.0)))
    | inr other ↦
        let e' : (j == k) ≡ false = ground arith in
        rw (other, e') (ap (λ ks. j ∷ ks) (map_keys-remove m k d.1))
  ]

  pub map_remove-absent : (m : List (ℕ × A)) (k : ℕ) → map_get m k ≡ none → map_remove m k ≡ m
  map_remove-absent [] k h = refl
  map_remove-absent ((j, a) ∷ m) k h = ground (arith, map_remove-absent m k)

  -- An entry that is written and taken out again.
  pub MapAll-put_remove {κ} :
      (P : ℕ → A → Type κ) (m : List (ℕ × A)) (k : ℕ) (v : A)
      → MapAll P m
      → MapAll P (map_remove (map_put m k v) k)
  MapAll-put_remove P [] k v h = let same : (k == k) ≡ true = ground arith in rw same tt
  MapAll-put_remove P ((j, a) ∷ m) k v h = elim (Bool-cases (k == j)) [
    | inl same ↦ rw (same, same) h.1
    | inr other ↦ rw (other, other) (h.0, MapAll-put_remove P m k v h.1)
  ]

  pub map_get-remove_none :
      (m : List (ℕ × A)) (j k : ℕ) → map_get m k ≡ none → map_get (map_remove m j) k ≡ none
  map_get-remove_none [] j k h = refl
  map_get-remove_none ((i, a) ∷ m) j k h = ground (arith, map_get-remove_none m j k)
