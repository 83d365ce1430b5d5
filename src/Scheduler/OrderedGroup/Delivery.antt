-- ===== src/Scheduler/OrderedGroup/Delivery.antt =====
-- What is delivered over a run of arrivals, refused ones included.
use gtp_rs.Base.{
  ℕ, zero, suc, ◌+◌, ◌-◌, ◌≡◌, refl, sym, ap, ap₂, ◌∙◌, arith, ltb, ◌==◌, inl, inr, Bool-cases,
  none, some, Option-cases, List, [], ◌∷◌, ◌++◌, length, length-append, map_get, map_remove,
  map_keys,
}
use gtp_rs.Types.Errors.{Result, ok, err}
use gtp_rs.Scheduler.OrderedGroup.{
  OrderedGroupReceiver, next_seq, drain, deliver, buffer, on_incoming, seq_is_stale,
}

-- `count` numbers in a row, across the wrap at 2^32.
abbrev pub successors : ℕ → ℕ → List ℕ
successors start zero = []
successors start (suc count) = start ∷ successors (next_seq start) count

abbrev pub advance : ℕ → ℕ → ℕ
advance start zero = start
advance start (suc count) = advance (next_seq start) count

pub drain-none :
    (fuel next bytes : ℕ) (buf : List (ℕ × List ℕ))
    → map_get buf next ≡ none
    → drain (suc fuel) next bytes buf
      ≡ (record { next = next; bytes = bytes; buffer = buf; ready = [] })
unfolding drain
drain-none fuel next bytes buf h = rw (h, drain) refl

pub drain-some :
    (fuel next bytes : ℕ) (buf : List (ℕ × List ℕ)) (b : List ℕ)
    → map_get buf next ≡ some b
    → drain (suc fuel) next bytes buf ≡ (
        let rest = drain fuel (next_seq next) (bytes - length b) (map_remove buf next) in
        record rest { ready = (next, b) ∷ rest.ready })
unfolding drain
drain-some fuel next bytes buf b h = rw (h, drain) refl

drain-InOrder :
    (fuel next bytes : ℕ) (buf : List (ℕ × List ℕ))
    → let d = drain fuel next bytes buf in
      (map_keys d.ready ≡ successors next (length d.ready))
      × (d.next ≡ advance next (length d.ready))
drain-InOrder zero next bytes buf = unfold drain in (refl, refl)
drain-InOrder (suc fuel) next bytes buf = elim (Option-cases (map_get buf next)) [
  | inl absent ↦ rw (drain-none fuel next bytes buf absent) (refl, refl)
  | inr (b, found) ↦
      let rest = drain-InOrder fuel (next_seq next) (bytes - length b) (map_remove buf next) in
      rw (drain-some fuel next bytes buf b found) (ap (λ ks. next ∷ ks) rest.0, rest.1)
]

-- The payloads of an answer; a refusal has none.
abbrev pub delivered : Result (List (ℕ × List ℕ)) → List (ℕ × List ℕ)
delivered (ok ready) = ready
delivered (err e) = []

-- A buffered or refused payload delivers nothing and moves nothing on.
buffer_quiet :
    (r : OrderedGroupReceiver) (seq : ℕ) (payload : List ℕ)
    → (delivered (buffer r seq payload).1 ≡ [])
      × ((buffer r seq payload).0.next_expected ≡ r.next_expected)
unfolding buffer
buffer_quiet r seq payload =
    elim (Bool-cases (ltb r.max_buffer_items (length r.reorder_buffer + 1))) [
      | inl items ↦ rw items (refl, refl)
      | inr room ↦
          rw room
            (elim (Bool-cases (ltb r.max_buffer_bytes (r.current_buffer_bytes + length payload))) [
              | inl bytes ↦ rw bytes (refl, refl)
              | inr fits ↦ rw fits (elim (Option-cases (map_get r.reorder_buffer seq)) [
                | inl vacant ↦ rw vacant (refl, refl)
                | inr (b, occupied) ↦ rw occupied (refl, refl)
              ])
            ])
    ]

on_incoming-InOrder :
    (r : OrderedGroupReceiver) (seq : ℕ) (payload : List ℕ)
    → let o = on_incoming r seq payload in
      (map_keys (delivered o.1) ≡ successors r.next_expected (length (delivered o.1)))
      × (o.0.next_expected ≡ advance r.next_expected (length (delivered o.1)))
unfolding on_incoming deliver
on_incoming-InOrder r seq payload = elim (Bool-cases (seq_is_stale seq r.next_expected)) [
  | inl stale ↦ rw stale (refl, refl)
  | inr fresh ↦ rw fresh (elim (Bool-cases (seq == r.next_expected)) [
    | inl now ↦
        let d =
          drain-InOrder (length r.reorder_buffer) (next_seq r.next_expected) r.current_buffer_bytes
            r.reorder_buffer in
        let e : seq ≡ r.next_expected = ground arith in rw now (ap₂ ◌∷◌ e d.0, d.1)
    | inr later ↦ let q = buffer_quiet r seq payload in rw (later, q.0) (refl, q.1)
  ])
]

-- A run of arrivals: the receiver after it, and everything delivered.
unfoldable pub receive :
    OrderedGroupReceiver → List (ℕ × List ℕ) → OrderedGroupReceiver × List (ℕ × List ℕ)
receive r [] = (r, [])
receive r ((seq, payload) ∷ arrivals) =
    let o = on_incoming r seq payload in
    let rest = receive o.0 arrivals in (rest.0, delivered o.1 ++ rest.1)

successors-append :
    (start n m : ℕ)
    → successors start n ++ successors (advance start n) m ≡ successors start (n + m)
successors-append start zero m = ap (successors start) (omega arith)
successors-append start (suc n) m =
    ap (λ ks. start ∷ ks) (successors-append (next_seq start) n m) ∙ ap (successors start) more
  where
    more : suc (n + m) ≡ suc n + m
    more = omega arith

map_keys-append : (xs ys : List (ℕ × List ℕ)) → map_keys (xs ++ ys) ≡ map_keys xs ++ map_keys ys
map_keys-append [] ys = refl
map_keys-append ((k, v) ∷ xs) ys = ap (λ ks. k ∷ ks) (map_keys-append xs ys)

-- Whatever arrives, in whatever order, repeated or refused: the payloads that a group delivers carry
-- the numbers from the first expected one on, one after the other, none skipped and none twice.
pub receive-InOrder :
    (arrivals : List (ℕ × List ℕ)) (r : OrderedGroupReceiver)
    → map_keys (receive r arrivals).1 ≡ successors r.next_expected (length (receive r arrivals).1)
unfolding receive
receive-InOrder [] r = refl
receive-InOrder ((seq, payload) ∷ arrivals) r =
    let o = on_incoming r seq payload in
    let first = on_incoming-InOrder r seq payload in
    let rest = receive-InOrder arrivals o.0 in
    let out = (receive o.0 arrivals).1 in
    map_keys-append (delivered o.1) out
    ∙ ap₂ ◌++◌ first.0 (rest ∙ ap (λ n. successors n (length out)) first.1)
    ∙ successors-append r.next_expected (length (delivered o.1)) (length out)
    ∙ ap (successors r.next_expected) (sym (length-append (delivered o.1) out))
