-- ===== src/Core/Fragment/Completion.antt =====
-- A message whose fragments arrive in order is delivered with the last of them.
use gtp_rs.Base.{
  ℕ, suc, ◌+◌, ◌-◌, ◌≤◌, ◌<◌, ◌≡◌, refl, sym, ap, ◌∙◌, arith, ltb, leb, ◌==◌, true, false, none,
  some, List, [], ◌∷◌, ◌++◌, length, length-append, append_assoc, append-nil, replicate, set,
  get_elem?,
}
use gtp_rs.Core.Fragment.{
  MessageReassembler, partial, delivered, max_reassembly_bytes, reassembly_ttl, sweep_loop,
  stale_ids, sweep, assemble, complete, store, push_known, evict_loop, push_new, push, new,
}
use gtp_rs.Core.Fragment.Slots.{Slots, concat}
use gtp_rs.Core.Fragment.Bounds.{Arrival, run, run-cons}

-- The slots after the fragments of `done`, in order, with those of `todo` missing.
abbrev slots : List (List ℕ) → List (List ℕ) → Slots
slots [] todo = replicate (length todo) none
slots (f ∷ fs) todo = some f ∷ slots fs todo

slots-vacant :
    (fs : List (List ℕ)) (p : List ℕ) (todo : List (List ℕ))
    → get_elem? (slots fs (p ∷ todo)) (length fs) ≡ some none
slots-vacant [] p todo = refl
slots-vacant (f ∷ fs) p todo = slots-vacant fs p todo

slots-set :
    (fs : List (List ℕ)) (p : List ℕ) (todo : List (List ℕ))
    → set (slots fs (p ∷ todo)) (length fs) (some p) ≡ slots (fs ++ (p ∷ [])) todo
slots-set [] p todo = refl
slots-set (f ∷ fs) p todo = ap (λ s. some f ∷ s) (slots-set fs p todo)

slots-full : (fs : List (List ℕ)) → assemble (slots fs []) ≡ some (concat fs)
unfolding assemble
slots-full [] = refl
slots-full (f ∷ fs) = rw (slots-full fs, assemble) refl

concat-snoc :
    (fs : List (List ℕ)) (p : List ℕ)
    → length (concat (fs ++ (p ∷ []))) ≡ length (concat fs) + length p
concat-snoc [] p = omega (arith, ap length (append-nil p))
concat-snoc (f ∷ fs) p = omega (
  arith,
  concat-snoc fs p,
  length-append f (concat (fs ++ (p ∷ []))),
  length-append f (concat fs),
)

-- A state that holds one message, touched at `touch`; the next fragment comes at `now`, in time.
module _ (id total : ℕ) where
  abbrev held : ℕ → Slots → ℕ → ℕ → MessageReassembler
  held touch parts received bytes = record {
    entries =
        (
          id,
          record {
            total = total;
            parts = parts;
            received = received;
            bytes = bytes;
            last_touch = touch;
          },
        )
        ∷ [];
    order = id ∷ [];
    total_bytes = bytes;
  }

  module _ (touch now : ℕ) (prompt : now ≤ touch + reassembly_ttl) where
    sweep-held : (parts : Slots) (n b : ℕ) → sweep (held touch parts n b) now ≡ held touch parts n b
    unfolding sweep sweep_loop stale_ids
    sweep-held parts n b =
        let fresh : ltb 5000000 (now - touch) ≡ false = ground arith in rw fresh refl

    -- What `push` does with a fragment for an empty slot.
    push-held :
        (parts : Slots) (n b idx : ℕ) (p : List ℕ)
        → idx < total
        → get_elem? parts idx ≡ some none
        → push (held touch parts n b) id idx total p now
          ≡ store
              (held touch parts n b)
              id
              (record { total = total; parts = parts; received = n; bytes = b; last_touch = now })
              idx
              p
    unfolding push push_known
    push-held parts n b idx p inside vacant =
        let positive : (total == 0) ≡ false = ground arith in
        let within : leb total idx ≡ false = ground arith in
        let same : (total == total) ≡ true = ground arith in
        let self : (id == id) ≡ true = ground arith in
        rw (positive, within, sweep-held parts n b, self, same, vacant) refl

    -- One more fragment, but not the last.
    push-more :
        (parts : Slots) (n b idx : ℕ) (p : List ℕ)
        → idx < total
        → get_elem? parts idx ≡ some none
        → suc n < total
        → b + length p ≤ max_reassembly_bytes
        → push (held touch parts n b) id idx total p now
          ≡ some (held now (set parts idx (some p)) (n + 1) (b + length p), partial)
    unfolding store
    push-more parts n b idx p inside vacant more light =
        let fits : ltb max_reassembly_bytes (b + length p) ≡ false = ground arith in
        let open_still : (n + 1 == total) ≡ false = ground arith in
        let self : (id == id) ≡ true = ground arith in
        rw (push-held parts n b idx p inside vacant, fits, open_still, self) refl

    -- The last fragment.
    push-last :
        (parts : Slots) (n b idx : ℕ) (p full : List ℕ)
        → idx < total
        → get_elem? parts idx ≡ some none
        → suc n ≡ total
        → b + length p ≤ max_reassembly_bytes
        → assemble (set parts idx (some p)) ≡ some full
        → push (held touch parts n b) id idx total p now ≡ some (new, delivered full)
    unfolding store complete new
    push-last parts n b idx p full inside vacant last light whole =
        let fits : ltb max_reassembly_bytes (b + length p) ≡ false = ground arith in
        let closed : (n + 1 == total) ≡ true = ground arith in
        let self : (id == id) ≡ true = ground arith in
        let empty : b + length p - (b + length p) ≡ 0 = omega arith in
        rw (push-held parts n b idx p inside vacant, fits, closed, self, whole, empty, self) refl

-- The calls for the fragments `todo`, the first of which has the index `i`; the fragment with the
-- index `j` is pushed at the time `clock j`.
abbrev pub sends : ℕ → (ℕ → ℕ) → ℕ → ℕ → List (List ℕ) → List Arrival
sends id clock total i [] = []
sends id clock total i (p ∷ todo) =
    record { message_id = id; idx = i; total = total; payload = p; now = clock i }
    ∷ sends id clock total (i + 1) todo

-- Each fragment comes within the lifetime of the one before.
abbrev pub AreInTime : (ℕ → ℕ) → Type 0
AreInTime clock = (j : ℕ) → clock (j + 1) ≤ clock j + reassembly_ttl

concat-append :
    (fs : List (List ℕ)) (gs : List (List ℕ)) → concat (fs ++ gs) ≡ concat fs ++ concat gs
concat-append [] gs = refl
concat-append (f ∷ fs) gs =
    ap (λ t. f ++ t) (concat-append fs gs) ∙ sym (append_assoc f (concat fs) (concat gs))

run-done : run new [] ≡ some (new, [])
unfolding run
run-done = refl

-- The fragments of `fs` are held, and those of `p ∷ todo` arrive.
run-rest :
    (id touch : ℕ) (clock : ℕ → ℕ) (total i bytes : ℕ) (parts : Slots) (fs : List (List ℕ))
    (p : List ℕ) (todo : List (List ℕ))
    → AreInTime clock
    → clock i ≤ touch + reassembly_ttl
    → total ≡ length fs + length (p ∷ todo)
    → i ≡ length fs
    → bytes ≡ length (concat fs)
    → parts ≡ slots fs (p ∷ todo)
    → bytes + length (concat (p ∷ todo)) ≤ max_reassembly_bytes
    → run (held id total touch parts i bytes) (sends id clock total i (p ∷ todo))
      ≡ some (new, (id, concat (fs ++ (p ∷ todo))) ∷ [])
run-rest id touch clock total i bytes parts fs p [] steady prompt size index weight held_parts
      light =
    let filled_parts : set parts i (some p) ≡ slots (fs ++ (p ∷ [])) [] =
      rw (held_parts, index) (slots-set fs p []) in
    run-cons (held id total touch parts i bytes) new new
      (record { message_id = id; idx = i; total = total; payload = p; now = clock i }) [] _ []
      (push-last id total touch (clock i) prompt parts i bytes i p (concat (fs ++ (p ∷ [])))
        (omega (arith, size, index)) (rw (held_parts, index) (slots-vacant fs p []))
        (omega (arith, size, index)) (omega (arith, light, length-append p []))
        (ap assemble filled_parts ∙ slots-full (fs ++ (p ∷ []))))
      run-done
run-rest id touch clock total i bytes parts fs p (q ∷ todo) steady prompt size index weight
      held_parts light =
    let split = length-append p (concat (q ∷ todo)) in
    let rest =
      run-rest id (clock i) clock total (i + 1) (bytes + length p) (set parts i (some p))
        (fs ++ (p ∷ [])) q todo steady (steady i) (omega (arith, size, length-append fs (p ∷ [])))
        (omega (arith, index, length-append fs (p ∷ []))) (omega (arith, weight, concat-snoc fs p))
        (rw (held_parts, index) (slots-set fs p (q ∷ todo))) (omega (arith, light, split)) in
    run-cons (held id total touch parts i bytes) _ new
      (record { message_id = id; idx = i; total = total; payload = p; now = clock i }) _ _ _
      (push-more id total touch (clock i) prompt parts i bytes i p (omega (arith, size, index))
        (rw (held_parts, index) (slots-vacant fs p (q ∷ todo))) (omega (arith, size, index))
        (omega (arith, light, split)))
      (rest ∙ ap (λ t. some (new, (id, concat t) ∷ [])) (append_assoc fs (p ∷ []) (q ∷ todo)))

push-first :
    (id now total : ℕ) (p : List ℕ)
    → 1 < total
    → length p ≤ max_reassembly_bytes
    → push new id 0 total p now
      ≡ some (held id total now (set (replicate total none) 0 (some p)) 1 (length p), partial)
unfolding push push_new sweep sweep_loop stale_ids evict_loop new
push-first id now total p several light =
    let positive : (total == 0) ≡ false = ground arith in
    let within : leb total 0 ≡ false = ground arith in
    let multiple : (total == 1) ≡ false = ground arith in
    let fits : ltb max_reassembly_bytes (length p) ≡ false = ground arith in
    let none_held : 0 + length p ≡ length p = omega arith in
    rw (positive, within, multiple, fits) (rw (none_held, fits) refl)

push-single :
    (id now : ℕ) (p : List ℕ)
    → length p ≤ max_reassembly_bytes
    → push new id 0 1 p now ≡ some (new, delivered p)
unfolding push push_new sweep sweep_loop stale_ids evict_loop complete assemble new
push-single id now p light =
    let fits : ltb max_reassembly_bytes (length p) ≡ false = ground arith in
    let none_held : 0 + length p ≡ length p = omega arith in
    let emptied : length p - length p ≡ 0 = omega arith in
    let self : (id == id) ≡ true = ground arith in
    rw fits (rw (none_held, fits) (rw (self, emptied, append-nil p) refl))

-- The fragments of a message of at most 4 MiB, pushed in their order into an empty reassembler, each
-- at most 5 seconds after the one before: the calls together deliver the whole message, once, and
-- nothing else, no call panics, and the reassembler is empty again.
pub fragments_delivered :
    (id : ℕ) (clock : ℕ → ℕ) (p : List ℕ) (todo : List (List ℕ))
    → AreInTime clock
    → length (concat (p ∷ todo)) ≤ max_reassembly_bytes
    → run new (sends id clock (length (p ∷ todo)) 0 (p ∷ todo))
      ≡ some (new, (id, concat (p ∷ todo)) ∷ [])
fragments_delivered id clock p [] steady light =
    run-cons new new new
      (record { message_id = id; idx = 0; total = 1; payload = p; now = clock 0 }) [] _ []
      (push-single id (clock 0) p (omega (arith, light, length-append p []))) run-done
    ∙ ap (λ t. some (new, (id, t) ∷ [])) (sym (append-nil p))
fragments_delivered id clock p (q ∷ todo) steady light =
    let total = length (p ∷ q ∷ todo) in
    let split = length-append p (concat (q ∷ todo)) in
    run-cons new _ new
      (record { message_id = id; idx = 0; total = total; payload = p; now = clock 0 }) _ _ _
      (push-first id (clock 0) total p (omega arith) (omega (arith, light, split)))
      (run-rest id (clock 0) clock total 1 (length p) _ (p ∷ []) q todo steady (steady 0)
        (omega arith) refl (ap length (sym (append-nil p))) refl (omega (arith, light, split)))
