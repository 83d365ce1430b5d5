-- ===== src/Core/Fragment/Bounds.antt =====
-- Whatever a peer sends, the reassembler keeps within its caps, counts its bytes and never panics.
use gtp_rs.Base.{
  ℕ, ◌≤◌, ◌≡◌, refl, ap, ◌∙◌, arith, leb, ◌==◌, inl, inr, Bool-cases, Option, none, some,
  Option-cases, List, [], ◌∷◌, ◌++◌, length, map_get, length-map_keys, map_sum, MapAll,
}
use gtp_rs.Base.Options.{◌>>=◌}
use gtp_rs.Core.Fragment.{
  MessageReassembler, Partial, Pushed, PushOutcome, partial, dropped, delivered,
  max_reassembly_messages, max_reassembly_bytes, sweep_loop, stale_ids, sweep, push, new,
}
use gtp_rs.Core.Fragment.Slots.{slot_bytes}
use gtp_rs.Core.Fragment.Invariant.{
  IsPartial, weight, IsReassembler, IsFine, new-IsReassembler, sweep_loop-IsReassembler,
}
use gtp_rs.Core.Fragment.Storing.{push_known-IsFine}
use gtp_rs.Core.Fragment.Opening.{push_new-IsFine}

push-IsFine :
    (r : MessageReassembler) (id idx total : ℕ) (payload : List ℕ) (now : ℕ)
    → IsReassembler r
    → IsFine (push r id idx total payload now)
unfolding push sweep
push-IsFine r id idx total payload now w = elim (Bool-cases (total == 0)) [
  | inl empty ↦ rw empty w
  | inr some_parts ↦ rw some_parts (elim (Bool-cases (leb total idx)) [
    | inl outside ↦ rw outside w
    | inr inside ↦
        let swept = sweep_loop-IsReassembler (stale_ids now r.entries) r w in
        let s = sweep_loop (stale_ids now r.entries) r in
        rw inside (elim (Option-cases (map_get s.entries id)) [
          | inl absent ↦
              rw absent (push_new-IsFine s id idx total payload now swept absent (ground arith))
          | inr (e, found) ↦
              rw found (push_known-IsFine s id e idx total payload now swept found (ground arith))
        ])
  ])
]

-- One call of `push`.
pub record Arrival : Type 0 where
  pub message_id : ℕ
  pub idx : ℕ
  pub total : ℕ
  pub payload : List ℕ
  pub now : ℕ

-- The payload an outcome hands to the application.
abbrev pub delivery : ℕ → PushOutcome → List (ℕ × List ℕ)
delivery id (delivered full) = (id, full) ∷ []
delivery id partial = []
delivery id dropped = []

-- The calls of `push` one after the other, with what they deliver. A panic ends the run with `none`.
unfoldable pub run :
    MessageReassembler → List Arrival → Option (MessageReassembler × List (ℕ × List ℕ))
run r [] = some (r, [])
run r (a ∷ arrivals) = do
  (next, outcome) ← push r a.message_id a.idx a.total a.payload a.now
  (end, rest) ← run next arrivals
  some (end, delivery a.message_id outcome ++ rest)

IsFine-some :
    (p : Pushed)
    → IsFine p
    → (r : MessageReassembler) × (o : PushOutcome) × (p ≡ some (r, o)) × IsReassembler r
IsFine-some none h = elim h [ ]
IsFine-some (some (r, o)) h = (r, o, refl, h)

pub run-cons :
    (r next end : MessageReassembler) (a : Arrival) (more : List Arrival) (o : PushOutcome)
    (out : List (ℕ × List ℕ))
    → push r a.message_id a.idx a.total a.payload a.now ≡ some (next, o)
    → run next more ≡ some (end, out)
    → run r (a ∷ more) ≡ some (end, delivery a.message_id o ++ out)
unfolding run
run-cons r next end a more o out pushed ran = rw (pushed, ran) refl

pub run-IsReassembler :
    (r : MessageReassembler) (arrivals : List Arrival)
    → IsReassembler r
    → (end : MessageReassembler) × (out : List (ℕ × List ℕ)) × (run r arrivals ≡ some (end, out))
      × IsReassembler end
unfolding run
run-IsReassembler r [] w = (r, [], refl, w)
run-IsReassembler r (a ∷ arrivals) w =
    let (next, o, pushed, kept) =
      IsFine-some _ (push-IsFine r a.message_id a.idx a.total a.payload a.now w) in
    let (end, out, ran, good) = run-IsReassembler next arrivals kept in
    (end, delivery a.message_id o ++ out, run-cons r next end a arrivals o out pushed ran, good)

map_sum-all :
    (m : List (ℕ × Partial))
    → MapAll (λ id e. IsPartial e) m
    → map_sum weight m ≡ map_sum (λ e. slot_bytes e.parts) m
map_sum-all [] h = refl
map_sum-all ((id, e) ∷ m) h = omega (arith, h.0.weighed, map_sum-all m h.1)

-- From an empty reassembler, any sequence of fragments, genuine or forged, at any times: no call
-- panics, at most 64 messages are held, and the byte counter is the sum of the payload bytes in the
-- slots and at most 4 MiB.
pub run_bounded :
    (arrivals : List Arrival)
    → (end : MessageReassembler) × (out : List (ℕ × List ℕ)) × (run new arrivals ≡ some (end, out))
      × (length end.entries ≤ max_reassembly_messages)
      × (end.total_bytes ≡ map_sum (λ e. slot_bytes e.parts) end.entries)
      × (end.total_bytes ≤ max_reassembly_bytes)
run_bounded arrivals =
    let (end, out, ran, w) = run-IsReassembler new arrivals new-IsReassembler in
    (
      end,
      out,
      ran,
      omega (arith, length-map_keys end.entries, ap length w.same_keys, w.few),
      w.weighed ∙ map_sum-all end.entries w.sound,
      w.light,
    )
