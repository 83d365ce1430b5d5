-- ===== src/Core/Fragment/Slots.antt =====
-- The slots of one message: how many are filled, with how many bytes, and what they make together.
use gtp_rs.Base.{
  ℕ, zero, suc, ◌+◌, ◌≤◌, ◌≡◌, refl, ap, arith, Option, none, some, Option-cases, inl, inr, List,
  [], ◌∷◌, ◌++◌, length, replicate, set, get_elem?,
}
use gtp_rs.Core.Fragment.{assemble}

abbrev pub Slots : Type 0
Slots = List (Option (List ℕ))

abbrev pub slot_bytes : Slots → ℕ
slot_bytes [] = 0
slot_bytes (none ∷ ps) = slot_bytes ps
slot_bytes (some p ∷ ps) = length p + slot_bytes ps

abbrev pub filled : Slots → ℕ
filled [] = 0
filled (none ∷ ps) = filled ps
filled (some p ∷ ps) = suc (filled ps)

pub filled-le_length : (ps : Slots) → filled ps ≤ length ps
filled-le_length [] = omega arith
filled-le_length (none ∷ ps) = omega (arith, filled-le_length ps)
filled-le_length (some p ∷ ps) = omega (arith, filled-le_length ps)

-- A payload for an empty slot.
pub slot-set :
    (ps : Slots) (i : ℕ) (b : List ℕ)
    → get_elem? ps i ≡ some none
    → (slot_bytes (set ps i (some b)) ≡ slot_bytes ps + length b)
      × (filled (set ps i (some b)) ≡ suc (filled ps))
slot-set [] i b h = cc
slot-set (none ∷ ps) zero b h = (omega arith, refl)
slot-set (some p ∷ ps) zero b h = cc
slot-set (none ∷ ps) (suc i) b h = slot-set ps i b h
slot-set (some p ∷ ps) (suc i) b h = let (e, f) = slot-set ps i b h in (omega arith, ap suc f)

pub get_elem?-some :
    (ps : Slots) (i : ℕ) → suc i ≤ length ps → (o : Option (List ℕ)) × (get_elem? ps i ≡ some o)
get_elem?-some [] i h = elim h [ ]
get_elem?-some (p ∷ ps) zero h = (p, refl)
get_elem?-some (p ∷ ps) (suc i) h = get_elem?-some ps i (omega arith)

pub slot-replicate : (n : ℕ) → (slot_bytes (replicate n none) ≡ 0) × (filled (replicate n none) ≡ 0)
slot-replicate zero = (refl, refl)
slot-replicate (suc n) = slot-replicate n

-- With every slot filled, no `expect` fails.
pub assemble-full :
    (ps : Slots) → filled ps ≡ length ps → (full : List ℕ) × (assemble ps ≡ some full)
unfolding assemble
assemble-full [] h = ([], refl)
assemble-full (none ∷ ps) h = absurd (omega (arith, filled-le_length ps))
assemble-full (some p ∷ ps) h =
    let (rest, e) = assemble-full ps (omega arith) in (p ++ rest, rw (e, assemble) refl)

-- Every payload in a slot is the fragment of that index.
abbrev pub PartsOf : List (List ℕ) → Slots → Type 0
PartsOf [] [] = Unit {0}
PartsOf [] (o ∷ ps) = ⊥
PartsOf (f ∷ fs) [] = ⊥
PartsOf (f ∷ fs) (none ∷ ps) = PartsOf fs ps
PartsOf (f ∷ fs) (some p ∷ ps) = (p ≡ f) × PartsOf fs ps

abbrev pub concat : List (List ℕ) → List ℕ
concat [] = []
concat (f ∷ fs) = f ++ concat fs

pub PartsOf-replicate : (fs : List (List ℕ)) → PartsOf fs (replicate (length fs) none)
PartsOf-replicate [] = tt
PartsOf-replicate (f ∷ fs) = PartsOf-replicate fs

pub PartsOf-set :
    (fs : List (List ℕ)) (ps : Slots) (i : ℕ) (p : List ℕ)
    → PartsOf fs ps
    → get_elem? fs i ≡ some p
    → PartsOf fs (set ps i (some p))
PartsOf-set [] [] i p h e = tt
PartsOf-set [] (o ∷ ps) i p h e = elim h [ ]
PartsOf-set (f ∷ fs) [] i p h e = elim h [ ]
PartsOf-set (f ∷ fs) (none ∷ ps) zero p h e = (cc, h)
PartsOf-set (f ∷ fs) (some q ∷ ps) zero p h e = (cc, h.1)
PartsOf-set (f ∷ fs) (none ∷ ps) (suc i) p h e = PartsOf-set fs ps i p h e
PartsOf-set (f ∷ fs) (some q ∷ ps) (suc i) p h e = (h.0, PartsOf-set fs ps i p h.1 e)

pub assemble-PartsOf :
    (fs : List (List ℕ)) (ps : Slots) (full : List ℕ)
    → PartsOf fs ps
    → assemble ps ≡ some full
    → full ≡ concat fs
unfolding assemble
assemble-PartsOf [] [] full h e = cc
assemble-PartsOf [] (o ∷ ps) full h e = elim h [ ]
assemble-PartsOf (f ∷ fs) [] full h e = elim h [ ]
assemble-PartsOf (f ∷ fs) (none ∷ ps) full h e = cc
assemble-PartsOf (f ∷ fs) (some p ∷ ps) full h e = elim (Option-cases (assemble ps)) [
  | inl stuck ↦ let no_value : none ≡ some full = rw (stuck, assemble) at e in cc
  | inr (rest, found) ↦
      let whole : some (p ++ rest) ≡ some full = rw (found, assemble) at e in
      let tail = assemble-PartsOf fs ps rest h.1 found in ground (arith, tail, whole, h.0)
]
