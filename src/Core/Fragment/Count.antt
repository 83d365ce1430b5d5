-- ===== src/Core/Fragment/Count.antt =====
-- How many fragments a message needs.
use gtp_rs.Base.{
  ℕ, ◌+◌, ◌-◌, ◌*◌, ◌%◌, ◌^◌, ◌≤◌, ◌<◌, max, ◌≡◌, ◌⊎◌, inl, inr, refl, ap, arith, ltb, ◌==◌,
  Bool-cases, ==_iff, true,
}
use gtp_rs.Types.Errors.{ok, err, payload_too_large}
use native.Mathlib.Nat.{mod-lt, mul-le-mul_right, div-add-mod'}
use gtp_rs.Core.Fragment.{message_fragment_count, div_ceil}

div_ceil-bounds : (n d : ℕ) → 0 < d → (n ≤ div_ceil n d * d) × (div_ceil n d * d < n + d)
div_ceil-bounds n d positive =
    omega (arith, div-add-mod' (n + d - 1) d, mod-lt (n + d - 1) positive)

over : {n : ℕ} → ltb 65535 n ≡ true → 65536 ≤ n
over many = ground arith

-- With `b` the budget, at least 1: a message of more than 0 and at most 65535 * b bytes is cut into
-- the least number of fragments of b bytes that hold it, at most 65535; any other is refused, with
-- 65535 * b modulo 2^64 as the maximum.
pub message_fragment_count_least :
    (len budget : ℕ)
    → ((n : ℕ) × (message_fragment_count len budget ≡ ok n)
        × (len ≤ n * max budget 1)
        × (n * max budget 1 < len + max budget 1)
        × (0 < n)
        × (n ≤ 65535))
      ⊎ ((message_fragment_count len budget
            ≡ err (payload_too_large (max budget 1 * 65535 % 2 ^ 64)))
          × ((len ≡ 0) ⊎ (max budget 1 * 65535 < len)))
unfolding message_fragment_count
message_fragment_count_least len budget =
    let b : ℕ = max budget 1 in
    let n : ℕ = div_ceil len b in
    let (enough, least) = div_ceil-bounds len b (omega arith) in
    elim (Bool-cases (n == 0)) [
      | inl none_sent ↦
          rw none_sent
            (inr (refl, inl (omega (arith, enough, ap (λ m. m * b) ((==_iff n 0).0 none_sent)))))
      | inr sent ↦ rw sent (elim (Bool-cases (ltb 65535 n)) [
        | inl many ↦
            rw many (inr (refl, inr (omega (arith, least, mul-le-mul_right b (over many)))))
        | inr few ↦ rw few (inl (n, refl, enough, least, ground arith, ground arith))
      ])
    ]
