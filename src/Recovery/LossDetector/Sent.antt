-- ===== src/Recovery/LossDetector/Sent.antt =====
-- crates/gtp-recovery/src/sent_packet.rs, and the map of sent packets by rising number.
use gtp_rs.Base.{ℕ, Bool, ltb, ◌==◌, if◌then◌else◌, List, [], ◌∷◌, Option, none, some}

pub record RetransmissionRecord : Type 0 where
  pub message_id : ℕ
  pub fragment_id : ℕ
  pub transmission_id : ℕ
  pub group_id : ℕ
  pub order_seq : ℕ
  pub total_fragments : ℕ
  pub payload : List ℕ

pub record SentPacketRecord : Type 0 where
  pub packet_number : ℕ
  pub send_time : ℕ
  pub bytes : ℕ
  pub ack_eliciting : Bool
  pub in_flight : Bool
  pub retransmittable_frames : List RetransmissionRecord

abbrev pub SentPackets : Type 0
SentPackets = List (ℕ × SentPacketRecord)

unfoldable pub lookup : ℕ → SentPackets → Option SentPacketRecord
lookup pn [] = none
lookup pn ((k, r) ∷ m) = if k == pn then some r else lookup pn m

unfoldable pub insert : ℕ → SentPacketRecord → SentPackets → SentPackets
insert pn r [] = (pn, r) ∷ []
insert pn r ((k, s) ∷ m) =
    if k == pn
    then (pn, r) ∷ m
    else if ltb pn k
    then (pn, r) ∷ (k, s) ∷ m
    else (k, s) ∷ insert pn r m

unfoldable pub remove : ℕ → SentPackets → SentPackets
remove pn [] = []
remove pn ((k, s) ∷ m) = if k == pn then m else (k, s) ∷ remove pn m
