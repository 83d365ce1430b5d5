-- ===== src/Wire/Frame.antt =====
-- crates/gtp-wire/src/frame.rs: the frame type. A byte slice is a list of numbers; an identifier
-- is its number. The reason of a close frame is its UTF-8 bytes.
use gtp_rs.Base.{ℕ, List}
use gtp_rs.Types.Serial.{StateKey}

abbrev pub max_ack_ranges : ℕ
max_ack_ranges = 32

pub record AckRange : Type 0 where
  pub gap : ℕ
  pub length : ℕ

-- `AckRange::default()`.
abbrev pub default_range : AckRange
default_range = record { gap = 0; length = 0 }

-- The fields of `Frame::Ack`; `ranges` is the array of 32.
pub record AckFields : Type 0 where
  pub largest_acked : ℕ
  pub ack_delay_us : ℕ
  pub ranges : List AckRange
  pub range_count : ℕ
  pub ect0_count : ℕ
  pub ect1_count : ℕ
  pub ce_count : ℕ

pub record DataFields : Type 0 where
  pub message_id : ℕ
  pub state_key : StateKey
  pub sequence : ℕ
  pub generation : ℕ
  pub deadline_ms : ℕ
  pub payload : List ℕ

pub record ReliableFields : Type 0 where
  pub message_id : ℕ
  pub fragment_id : ℕ
  pub total_fragments : ℕ
  pub group_id : ℕ
  pub order_seq : ℕ
  pub payload : List ℕ

pub record RetxFields : Type 0 where
  pub message_id : ℕ
  pub fragment_id : ℕ
  pub transmission_id : ℕ
  pub payload : List ℕ

pub record ServerHelloFields : Type 0 where
  pub server_public_key : List ℕ
  pub server_nonce : List ℕ
  pub stateless_cookie : List ℕ
  pub assigned_cid : ℕ
  pub server_static_pk : List ℕ

pub data Frame : Type 0 where
  ack : AckFields → Frame
  data_frame : DataFields → Frame
  reliable_data : ReliableFields → Frame
  retx : RetxFields → Frame
  ping : ℕ → Frame
  path_challenge : List ℕ → Frame
  path_response : List ℕ → Frame
  mtu_probe : ℕ → ℕ → Frame
  close : ℕ → List ℕ → Frame
  ack_frequency : ℕ → ℕ → ℕ → Frame
  client_hello : List ℕ → List ℕ → ℕ → Frame
  server_hello : ServerHelloFields → Frame
  handshake_finish : List ℕ → List ℕ → Frame
  server_finish : List ℕ → Frame
  key_update : ℕ → List ℕ → Frame
  padding : ℕ → Frame
