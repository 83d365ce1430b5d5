-- ===== src/Path/AntiAmplification/Budget.antt =====
-- The amplification bound over every sequence of receipts and guarded sends.
use gtp_rs.Base.{
  ℕ, ◌+◌, ◌*◌, ◌≤◌, ◌<◌, ◌≡◌, refl, inl, inr, Bool-cases, min, true, false, if◌then◌else◌, List, [],
  ◌∷◌, arith,
}
use gtp_rs.Types.Time.{u64_max}
use native.Mathlib.Nat.{mul-le-mul_left, mul-le-mul_right}
use gtp_rs.Path.AntiAmplification.{
  new, AntiAmplificationLimiter, with_factor, on_bytes_received, can_send, on_bytes_sent,
}

pub data Event : Type 0 where
  received : ℕ → Event
  send : ℕ → Event

-- The bytes an unvalidated connection really sends: `can_send` guards every datagram.
unfoldable pub sent_bytes : AntiAmplificationLimiter → List Event → ℕ
sent_bytes l [] = 0
sent_bytes l (received n ∷ es) = sent_bytes (on_bytes_received l n) es
sent_bytes l (send n ∷ es) =
    let rest = sent_bytes (on_bytes_sent l n) es in
    let refused = sent_bytes l es in if can_send l n then n + rest else refused

abbrev pub received_bytes : List Event → ℕ
received_bytes [] = 0
received_bytes (received n ∷ es) = n + received_bytes es
received_bytes (send n ∷ es) = received_bytes es

le-mul_self : (a f : ℕ) → 1 ≤ f → a ≤ a * f
le-mul_self a f h = omega (arith, mul-le-mul_left a h)

le-add : (a b : ℕ) → a ≤ a + b
le-add a b = omega arith

-- The counters of a limiter that stayed within its budget.
abbrev pub Within : AntiAmplificationLimiter → Type 0
Within l = (l.validated ≡ false) × (1 ≤ l.factor) × (l.bytes_sent ≤ l.bytes_received * l.factor)

pub with_factor-Within : (f : ℕ) → Within (with_factor f)
unfolding with_factor new
with_factor-Within f = (refl, omega arith, omega arith)

on_bytes_received-Within :
    (l : AntiAmplificationLimiter) (n : ℕ)
    → Within l
    → (l.bytes_received + n) * l.factor < u64_max
    → Within (on_bytes_received l n)
      × ((on_bytes_received l n).bytes_received ≡ l.bytes_received + n)
      × ((on_bytes_received l n).bytes_sent ≡ l.bytes_sent)
      × ((on_bytes_received l n).factor ≡ l.factor)
unfolding on_bytes_received
on_bytes_received-Within l n w h =
    let fits : l.bytes_received + n < u64_max =
      omega (arith, le-mul_self (l.bytes_received + n) l.factor w.1, h) in
    let e : min (l.bytes_received + n) u64_max ≡ l.bytes_received + n = omega arith in
    let more : l.bytes_received * l.factor ≤ (l.bytes_received + n) * l.factor =
      mul-le-mul_right l.factor (omega arith) in
    ((w.0, w.1, rw e (omega (arith, more, w.2))), e, refl, refl)

on_bytes_sent-Within :
    (l : AntiAmplificationLimiter) (n : ℕ)
    → Within l
    → l.bytes_received * l.factor < u64_max
    → can_send l n ≡ true
    → Within (on_bytes_sent l n)
      × ((on_bytes_sent l n).bytes_sent ≡ l.bytes_sent + n)
      × ((on_bytes_sent l n).bytes_received ≡ l.bytes_received)
      × ((on_bytes_sent l n).factor ≡ l.factor)
unfolding on_bytes_sent can_send
on_bytes_sent-Within l n w h e = ground arith

within_budget :
    (s s' r r' f f' d e x y : ℕ)
    → s' ≡ s + d
    → r' ≡ r + e
    → f' ≡ f
    → s' + x ≤ (r' + y) * f'
    → s + d + x ≤ (r + e + y) * f
within_budget s s' r r' f f' d e x y es er ef h = rw (es, er, ef) at h

-- From a limiter within its budget and not validated, the bytes sent never exceed the factor times the bytes received,
-- whatever is received and whatever sends are attempted, as long as that bound is less than 2^64 - 1.
pub sent_bytes_le :
    (es : List Event) (l : AntiAmplificationLimiter)
    → Within l
    → (l.bytes_received + received_bytes es) * l.factor < u64_max
    → l.bytes_sent + sent_bytes l es ≤ (l.bytes_received + received_bytes es) * l.factor
unfolding sent_bytes
sent_bytes_le [] l w h = omega (arith, w.2)
sent_bytes_le (received n ∷ es) l w h =
    let now : (l.bytes_received + n) * l.factor < u64_max =
      omega
        (arith, h, mul-le-mul_right l.factor (le-add (l.bytes_received + n) (received_bytes es))) in
    let step = on_bytes_received-Within l n w now in
    let same : l.bytes_received + n + received_bytes es
        ≡ l.bytes_received + (n + received_bytes es) =
      omega arith in
    let ih = sent_bytes_le es (on_bytes_received l n) step.0 (rw (step.1, step.3, same) h) in
    let l' = on_bytes_received l n in
    let none_sent : l'.bytes_sent ≡ l.bytes_sent + 0 = omega (arith, step.2) in
    omega (
      arith,
      within_budget l.bytes_sent l'.bytes_sent l.bytes_received l'.bytes_received l.factor l'.factor
          0 n (sent_bytes l' es) (received_bytes es) none_sent step.1 step.3 ih,
    )
sent_bytes_le (send n ∷ es) l w h = elim (Bool-cases (can_send l n)) [
  | inl sent ↦
      let now : l.bytes_received * l.factor < u64_max =
        omega (arith, h, mul-le-mul_right l.factor (le-add l.bytes_received (received_bytes es))) in
      let step = on_bytes_sent-Within l n w now sent in
      let ih = sent_bytes_le es (on_bytes_sent l n) step.0 (rw (step.2, step.3) h) in
      let l' = on_bytes_sent l n in
      let none_received : l'.bytes_received ≡ l.bytes_received + 0 = omega (arith, step.2) in
      rw sent (
        omega (
          arith,
          within_budget l.bytes_sent l'.bytes_sent l.bytes_received l'.bytes_received l.factor
              l'.factor n 0 (sent_bytes l' es) (received_bytes es) step.1 none_received step.3 ih,
        ))
  | inr refused ↦ rw refused (sent_bytes_le es l w h)
]

-- A limiter within its budget before validation allows, after `n` bytes arrived, to send `n` bytes,
-- as long as the new bound is less than 2^64 - 1.
pub can_send-reply :
    (l : AntiAmplificationLimiter) (n : ℕ)
    → Within l
    → (l.bytes_received + n) * l.factor < u64_max
    → can_send (on_bytes_received l n) n ≡ true
unfolding can_send on_bytes_received
can_send-reply l n w h =
    let fits : l.bytes_received + n < u64_max =
      omega (arith, le-mul_self (l.bytes_received + n) l.factor w.1, h) in
    let e : min (l.bytes_received + n) u64_max ≡ l.bytes_received + n = omega arith in
    let more : n ≤ n * l.factor = le-mul_self n l.factor w.1 in
    rw e (ground (arith, more, w.2, w.0, h))
