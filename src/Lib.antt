-- ===== src/Lib.antt =====
-- A verification library of GTP-rs, a UDP transport for games.
--
-- The program. crates/gtp-types holds the identifiers, the clock and the errors. crates/gtp-wire
-- writes and reads frames. crates/gtp-crypto seals packets and refuses replayed numbers.
-- crates/gtp-recovery has the two ends of acknowledgement: the receiver's tracker builds ACK frames,
-- the sender's loss detector reads them, measures round trips and finds losses. crates/gtp-path
-- decides which addresses may be sent to. The engine (crates/gtp-core), with a scheduler
-- (crates/gtp-scheduler) and congestion control (crates/gtp-cc), calls all of these for one
-- connection; crates/gtp-route picks among paths.
--
-- The library.
--   Base       helpers: tests into Bool, lists, bits of machine words, big-endian bytes
--   Types      Errors (gtp-types/src/error.rs), Serial (identifiers.rs), Time (time.rs) and
--              Semantics (semantics.rs)
--   Wire       gtp-wire/src/frame.rs: Frame (the enum), Reader (the checked reads), Utf8
--              (`str::from_utf8`), Encode and Decode (`Frame::encode`, `Frame::decode`), RoundTrip;
--              and VarInt (gtp-wire/src/varint.rs), Header (header.rs), Codec (codec.rs: the frame iterator
--              and the packet builder)
--   Crypto     Replay: gtp-crypto/src/replay.rs, the sliding window of packet numbers, against the
--              set of the numbers seen (Replay/Refine)
--   Recovery   Rtt (gtp-recovery/src/rtt.rs), Owd (owd.rs), AckTracker (ack_tracker.rs), LossDetector
--              (loss_detector.rs and sent_packet.rs), and AckFrame: what the frame that the one
--              builds means to the other
--   Scheduler  StateTable (gtp-scheduler/src/state_table.rs), the newest state of each key, and
--              OrderedGroup (ordered_group.rs), in-order delivery within a group; Item (item.rs) and
--              Tiers (scheduler.rs), the queues of the priority tiers: Tiers itself has the state and
--              the admission, Tiers/Service `pop_next`
--   Path       StateMachine, AntiAmplification, PathValidator and StatelessToken, one for each file
--              of gtp-path/src
--   Core       Fragment (gtp-core/src/fragment.rs), the reassembly of messages; Delivered and KeyPhase
--              (state.rs: the index of delivered messages, the rotation of keys), Control
--              (connection.rs and state.rs: the control frames, and the loop that puts them into a
--              datagram)
--
-- Correspondence. A struct is a record with the source's field names, an enum a data type, a
-- method a function from the old state to the new state and its answer, under the method's name; a
-- file's functions stand in one module, long ones in the parts that its loops and branches are.
-- `Result` and `?` are the type and the bind of Types/Errors. A u64 is a number below 2^64 with
-- the wrap of a release build written out where the source adds or multiplies, and with the
-- saturation where it saturates; that the sum of sizes with the padding of a probe (frame.rs, MtuProbe)
-- overflows a usize is left out. A BTreeMap of sent packets is a list in ascending order of keys;
-- the maps of gtp-scheduler are lists of pairs (Base/Maps), since nothing reads their order. The
-- offset of the frame readers is the list of the bytes that are left. Loops are recursions on the
-- list they walk.
--
-- Parameters. The clock is the argument `now`. HMAC-SHA256, the text of a socket address and the
-- equality of socket addresses are arguments of Path/StatelessToken, Path/PathValidator and
-- Core/Control. The derivation of keys and the making of ciphers are arguments of Core/KeyPhase. The
-- delivery rate, which the source computes in floating point and only reports, is an argument of
-- LossDetector.on_ack_received.
--
-- Bounds. The drain of an ordered group runs on fuel, the size of its buffer, which
-- Scheduler/OrderedGroup/Buffer shows to be enough, and a loop over the frames of a payload on one
-- more than its bytes (Wire/Codec/Termination). The round robin takes the four turns of the source.
-- Packet numbers start at 1, as the engine gives them out, where a theorem says so; byte counters
-- are below 2^64 where one says so.
--
-- Not modelled: the ciphers and the handshake of gtp-crypto, gtp-cc (floating point), the rest of
-- gtp-core (the two large functions of connection.rs, configuration, events and metrics), gtp-route,
-- the runtime, the simulator and the command line.
pub mod Base
pub mod Types
pub mod Wire
pub mod Crypto
pub mod Recovery
pub mod Path
pub mod Scheduler
pub mod Core
