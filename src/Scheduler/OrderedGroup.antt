-- ===== src/Scheduler/OrderedGroup.antt =====
-- crates/gtp-scheduler/src/ordered_group.rs: in-order delivery within one group.
pub mod Delivery
pub mod Buffer
mod Examples
use gtp_rs.Base.{
  ℕ, zero, suc, ◌+◌, ◌-◌, ◌*◌, ◌%◌, ◌^◌, ltb, leb, ◌==◌, ◌&&◌, not, if◌then◌else◌, Bool, true,
  false, Option, none, some, List, [], ◌∷◌, length, map_get, map_put, map_remove,
}
use gtp_rs.Types.Errors.{Result, ok, err, resource_limit_exceeded}
use gtp_rs.Types.Serial.{wrapping_sub_u32}

abbrev pub default_max_group_buffer_bytes : ℕ
default_max_group_buffer_bytes = 256 * 1024

abbrev pub default_max_group_buffer_items : ℕ
default_max_group_buffer_items = 1024

pub record OrderedGroupReceiver : Type 0 where
  pub group_id : ℕ
  pub next_expected : ℕ
  pub reorder_buffer : List (ℕ × List ℕ)
  pub max_buffer_bytes : ℕ
  pub current_buffer_bytes : ℕ
  pub max_buffer_items : ℕ

unfoldable pub new : ℕ → OrderedGroupReceiver
new group_id = record {
  group_id = group_id;
  next_expected = 0;
  reorder_buffer = [];
  max_buffer_bytes = default_max_group_buffer_bytes;
  current_buffer_bytes = 0;
  max_buffer_items = default_max_group_buffer_items;
}

unfoldable pub seq_is_stale : ℕ → ℕ → Bool
seq_is_stale seq next_expected =
    let diff = wrapping_sub_u32 seq next_expected in leb 0x80000000 diff && not (diff == 0)

-- `wrapping_add(1)` on a u32.
abbrev pub next_seq : ℕ → ℕ
next_seq n = (n + 1) % 2 ^ 32

-- The loop that drains the buffer: the next number, the counter, the buffer, and what became ready.
pub record Drained : Type 0 where
  pub next : ℕ
  pub bytes : ℕ
  pub buffer : List (ℕ × List ℕ)
  pub ready : List (ℕ × List ℕ)

-- Each round takes one payload out of the buffer, so that its size is fuel enough.
unfoldable pub drain : ℕ → ℕ → ℕ → List (ℕ × List ℕ) → Drained
drain zero next bytes buffer = record { next = next; bytes = bytes; buffer = buffer; ready = [] }
drain (suc fuel) next bytes buffer = elim (map_get buffer next) [
  | none ↦ record { next = next; bytes = bytes; buffer = buffer; ready = [] }
  | some buffered ↦
      let rest = drain fuel (next_seq next) (bytes - length buffered) (map_remove buffer next) in
      record rest { ready = (next, buffered) ∷ rest.ready }
]

-- The branch of the expected number.
unfoldable pub deliver :
    OrderedGroupReceiver → ℕ → List ℕ → OrderedGroupReceiver × Result (List (ℕ × List ℕ))
deliver r order_seq payload =
    let d =
      drain (length r.reorder_buffer) (next_seq r.next_expected) r.current_buffer_bytes
        r.reorder_buffer in
    (
      record r {
        next_expected = d.next;
        current_buffer_bytes = d.bytes;
        reorder_buffer = d.buffer;
      },
      ok ((order_seq, payload) ∷ d.ready),
    )

abbrev insert_vacant : Option (List ℕ) → OrderedGroupReceiver → ℕ → List ℕ → OrderedGroupReceiver
insert_vacant (some buffered) r order_seq payload = r
insert_vacant none r order_seq payload = record r {
  current_buffer_bytes = r.current_buffer_bytes + length payload;
  reorder_buffer = map_put r.reorder_buffer order_seq payload;
}

-- The branch of a later number: an occupied slot keeps its payload.
unfoldable pub buffer :
    OrderedGroupReceiver → ℕ → List ℕ → OrderedGroupReceiver × Result (List (ℕ × List ℕ))
buffer r order_seq payload =
    if ltb r.max_buffer_items (length r.reorder_buffer + 1)
    then (r, err (resource_limit_exceeded "Ordered group buffer item capacity exceeded"))
    else if ltb r.max_buffer_bytes (r.current_buffer_bytes + length payload)
    then (r, err (resource_limit_exceeded "Ordered group buffer capacity exceeded"))
    else (insert_vacant (map_get r.reorder_buffer order_seq) r order_seq payload, ok [])

unfoldable pub on_incoming :
    OrderedGroupReceiver → ℕ → List ℕ → OrderedGroupReceiver × Result (List (ℕ × List ℕ))
on_incoming r order_seq payload =
    if seq_is_stale order_seq r.next_expected
    then (r, ok [])
    else if order_seq == r.next_expected
    then deliver r order_seq payload
    else buffer r order_seq payload
