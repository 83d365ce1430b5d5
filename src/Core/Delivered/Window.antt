-- ===== src/Core/Delivered/Window.antt =====
-- The index refuses exactly the keys among the last ones that it let through.
use gtp_rs.Base.{
  ℕ, zero, suc, ◌+◌, ◌-◌, ◌≤◌, ◌<◌, ◌≡◌, refl, sym, ap, ◌∙◌, arith, max, ltb, ◌==◌, not,
  if◌then◌else◌, Bool-cases, ==_iff, true, false, inl, inr, List, [], ◌∷◌, ◌++◌, length,
  length-append, drop, length-drop, contains, contains-append, without, contains-without,
  IsDistinct, IsDistinct-snoc,
}
use gtp_rs.Core.Delivered.{DeliveredIndex, new, forget, insert_if_new}

suc_zero : (n : ℕ) → suc n + 0 ≡ suc n
suc_zero n = omega arith

suc_plus_suc : (n m : ℕ) → suc n + suc m ≡ suc (n + suc m)
suc_plus_suc n m = omega arith

suc_plus : (n m : ℕ) → suc (n + m) ≡ suc n + m
suc_plus n m = omega arith

drop-drop : (m n : ℕ) (xs : List ℕ) → drop m (drop n xs) ≡ drop (n + m) xs
drop-drop m zero xs = ap (λ k. drop k xs) (omega arith)
drop-drop zero (suc n) [] = sym (ap (λ k. drop k []) (suc_zero n))
drop-drop (suc m) (suc n) [] = sym (ap (λ k. drop k []) (suc_plus_suc n m))
drop-drop m (suc n) (x ∷ xs) = drop-drop m n xs ∙ ap (λ k. drop k (x ∷ xs)) (suc_plus n m)

drop-snoc :
    (n : ℕ) (xs : List ℕ) (x : ℕ) → n ≤ length xs → drop n (xs ++ (x ∷ [])) ≡ drop n xs ++ (x ∷ [])
drop-snoc zero xs x h = refl
drop-snoc (suc n) [] x h = absurd (omega (arith, h))
drop-snoc (suc n) (y ∷ xs) x h = drop-snoc n xs x (omega (arith, h))

-- The last keys of a history.
abbrev pub recent : ℕ → List ℕ → List ℕ
recent capacity keys = drop (length keys - capacity) keys

recent-snoc :
    (capacity : ℕ) (keys : List ℕ) (k : ℕ)
    → 0 < capacity
    → recent capacity (recent capacity keys ++ (k ∷ [])) ≡ recent capacity (keys ++ (k ∷ []))
recent-snoc capacity keys k h =
    let m : ℕ = length keys - capacity in
    let whole = sym (drop-snoc m keys k (omega arith)) in
    let over : ℕ = length (drop m keys ++ (k ∷ [])) - capacity in
    ap (drop over) whole
    ∙ drop-drop over m (keys ++ (k ∷ []))
    ∙ ap (λ n. drop n (keys ++ (k ∷ [])))
        (omega (
          arith,
          length-append (drop m keys) (k ∷ []),
          length-append keys (k ∷ []),
          length-drop m keys,
          h,
        ))

-- The set holds the keys of the queue.
abbrev Agrees : List ℕ → List ℕ → Type 0
Agrees seen order = (k : ℕ) → contains seen k ≡ contains order k

-- What is left is the last of the queue, and the set is still that of the queue.
record IsForgotten (capacity : ℕ) (order : List ℕ) (left : List ℕ × List ℕ) : Type 0 where
  last : left.1 ≡ recent capacity order
  agrees : Agrees left.0 left.1
  distinct : IsDistinct left.1

forget-IsForgotten :
    (capacity : ℕ) (seen order : List ℕ)
    → Agrees seen order
    → IsDistinct order
    → IsForgotten capacity order (forget capacity seen order)
unfolding forget
forget-IsForgotten capacity seen [] a d = record {
  last = sym (ap (λ k. drop k []) (none_left capacity));
  agrees = a;
  distinct = d;
}
  where
    none_left : (capacity : ℕ) → 0 - capacity ≡ 0
    none_left capacity = omega arith
forget-IsForgotten capacity seen (old ∷ order) a d =
    elim (Bool-cases (ltb capacity (length (old ∷ order)))) [
      | inl many ↦
          let f = forget-IsForgotten capacity (without old seen) order (λ k. shrink k (a k)) d.1 in
          let one_less : length (old ∷ order) - capacity ≡ suc (length order - capacity) =
            ground (arith, many) in
          rw many (record {
            last = f.last ∙ sym (ap (λ n. drop n (old ∷ order)) one_less);
            agrees = f.agrees;
            distinct = f.distinct;
          })
      | inr few ↦
          let all_stay : length (old ∷ order) - capacity ≡ 0 = ground (arith, few) in
          rw few (record {
            last = sym (ap (λ n. drop n (old ∷ order)) all_stay);
            agrees = a;
            distinct = d;
          })
    ]
  where
    shrink :
        (k : ℕ)
        → contains seen k ≡ contains (old ∷ order) k
        → contains (without old seen) k ≡ contains order k
    shrink k same = elim (Bool-cases (k == old)) [
      | inl it ↦
          let absent : contains order k ≡ false = ap (contains order) ((==_iff k old).0 it) ∙ d.0 in
          contains-without old seen k ∙ rw (it, absent) refl
      | inr other ↦ contains-without old seen k ∙ rw other (same ∙ rw other refl)
    ]

-- The keys that were let through, oldest first.
abbrev pub history : ℕ → List ℕ → List ℕ → List ℕ
history capacity past [] = past
history capacity past (k ∷ keys) =
    history capacity (if contains (recent capacity past) k then past else past ++ (k ∷ [])) keys

abbrev pub insert_all : DeliveredIndex → List ℕ → DeliveredIndex
insert_all d [] = d
insert_all d (k ∷ keys) = insert_all (insert_if_new d k).0 keys

-- The index remembers the last keys of the history.
record Remembers (capacity : ℕ) (past : List ℕ) (d : DeliveredIndex) : Type 0 where
  size : d.capacity ≡ capacity
  positive : 0 < capacity
  last : d.order ≡ recent capacity past
  agrees : Agrees d.seen d.order
  distinct : IsDistinct d.order

answer :
    (capacity : ℕ) (past : List ℕ) (d : DeliveredIndex) (k : ℕ)
    → Remembers capacity past d
    → contains d.seen k ≡ contains (recent capacity past) k
answer capacity past d k r = r.agrees k ∙ ap (λ o. contains o k) r.last

insert_if_new-Remembers :
    (capacity : ℕ) (past : List ℕ) (d : DeliveredIndex) (k : ℕ)
    → Remembers capacity past d
    → Remembers capacity
        (if contains (recent capacity past) k then past else past ++ (k ∷ []))
        (insert_if_new d k).0
unfolding insert_if_new
insert_if_new-Remembers capacity past d k r = elim (Bool-cases (contains d.seen k)) [
  | inl old ↦
      let known : contains (recent capacity past) k ≡ true =
        sym (answer capacity past d k r) ∙ old in
      rw (old, known) r
  | inr fresh ↦
      let unknown : contains (recent capacity past) k ≡ false =
        sym (answer capacity past d k r) ∙ fresh in
      let f =
        forget-IsForgotten d.capacity (k ∷ d.seen) (d.order ++ (k ∷ []))
          (λ i. ground (arith, r.agrees i, contains-append d.order (k ∷ []) i))
          (IsDistinct-snoc d.order k r.distinct (sym (r.agrees k) ∙ fresh)) in
      rw (fresh, unknown)
        (record {
          size = r.size;
          positive = r.positive;
          last =
              f.last
              ∙ ap (λ c. recent c (d.order ++ (k ∷ []))) r.size
              ∙ ap (λ o. recent capacity (o ++ (k ∷ []))) r.last
              ∙ recent-snoc capacity past k r.positive;
          agrees = f.agrees;
          distinct = f.distinct;
        })
]

insert_all-Remembers :
    (capacity : ℕ) (past keys : List ℕ) (d : DeliveredIndex)
    → Remembers capacity past d
    → Remembers capacity (history capacity past keys) (insert_all d keys)
insert_all-Remembers capacity past [] d r = r
insert_all-Remembers capacity past (k ∷ keys) d r =
    insert_all-Remembers capacity
      (if contains (recent capacity past) k then past else past ++ (k ∷ [])) keys
      (insert_if_new d k).0 (insert_if_new-Remembers capacity past d k r)

new-Remembers : (asked : ℕ) → Remembers (max asked 16) [] (new asked)
unfolding new
new-Remembers asked = record {
  size = refl;
  positive = omega arith;
  last = sym (ap (λ k. drop k []) (none_left (max asked 16)));
  agrees = λ k. refl;
  distinct = tt;
}
  where
    none_left : (capacity : ℕ) → 0 - capacity ≡ 0
    none_left capacity = omega arith

-- After any keys were given to a new index, a key counts as new exactly when it is not among the last
-- keys that were let through, as many of them as the capacity (at least 16).
pub insert_if_new-window :
    (asked : ℕ) (keys : List ℕ) (key : ℕ)
    → let capacity = max asked 16 in
      (insert_if_new (insert_all (new asked) keys) key).1
      ≡ not (contains (recent capacity (history capacity [] keys)) key)
unfolding insert_if_new
insert_if_new-window asked keys key =
    let r = insert_all-Remembers (max asked 16) [] keys (new asked) (new-Remembers asked) in
    let same =
      answer (max asked 16) (history (max asked 16) [] keys) (insert_all (new asked) keys) key r in
    elim (Bool-cases (contains (insert_all (new asked) keys).seen key)) [
      | inl old ↦ rw (old, sym same ∙ old) refl
      | inr fresh ↦ rw (fresh, sym same ∙ fresh) refl
    ]
