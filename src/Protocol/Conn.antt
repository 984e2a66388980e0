-- ===== src/Protocol/Conn.antt =====
-- `struct fpproto_conn` of protocol/fpproto.h: the state of one connection, its statistics, and
-- the calls it makes of its user.
pub mod Inwnd
pub mod Outwnd
pub mod Reset
pub mod Ack
pub mod Payload
pub mod Receive
pub mod Encode
pub mod Areqs
use flexplane.Base.{ℕ, ◌+◌, Bool, true, false, not, ◌&&◌, List, [], ◌∷◌, ◌++◌, Option, add64}
use flexplane.Protocol.Window.{FpWindow}

-- How the source is built: for an end node or for the controller, with or without emulation,
-- and the ops' `alloc_bytes_per_tslot`.
pub record Config : Type 0 where
  pub is_endpoint : Bool
  pub emulation : Bool
  pub alloc_bytes_per_tslot : ℕ

-- RETRANSMIT_UNACKED_ALLOCS
abbrev pub retransmit_unacked_allocs : Config → Bool
retransmit_unacked_allocs c = not c.is_endpoint && c.emulation

pub record AreqDesc : Type 0 where
  pub src_dst_key : ℕ
  pub tslots : ℕ

-- `struct fpproto_pktdesc` without the fields that only emulation has.
pub record PktDesc : Type 0 where
  pub sent_timestamp : ℕ
  pub seqno : ℕ
  pub ack_seq : ℕ
  pub ack_vec : ℕ
  pub send_reset : Bool
  pub reset_timestamp : ℕ
  pub areq : List AreqDesc
  pub alloc_tslot : ℕ
  pub base_tslot : ℕ
  pub dsts : List ℕ
  pub tslot_desc : List ℕ

-- A call of `struct fpproto_ops`, or of fpproto_pktdesc_free.
pub data Call : Type 0 where
  handle_reset : Call
  handle_ack : Option PktDesc → Call
  handle_neg_ack : Option PktDesc → Call
  handle_skipped_ack : Option PktDesc → Call
  trigger_request : Call
  handle_alloc : (base_tslot : ℕ) (dst tslots : List ℕ) (n_tslots : ℕ) → Call
  handle_areq : (dst_and_count : List ℕ) (n : ℕ) → Call
  set_timer : ℕ → Call
  cancel_timer : Call
  pktdesc_free : Option PktDesc → Call

-- The counters of `struct fp_proto_stat`; the other fields copy the state of the connection.
pub record Stat : Type 0 where
  pub timeout_handler_runs : ℕ
  pub ack_payloads : ℕ
  pub too_early_ack : ℕ
  pub acked_packets : ℕ
  pub timeout_pkts : ℕ
  pub skip_ack_pkts : ℕ
  pub informative_ack_payloads : ℕ
  pub reprogrammed_timer : ℕ
  pub committed_pkts : ℕ
  pub never_acked_pkts : ℕ
  pub fall_off_outwnd : ℕ
  pub rx_pkts : ℕ
  pub rx_too_short : ℕ
  pub rx_unknown_payload : ℕ
  pub rx_incomplete_reset : ℕ
  pub rx_incomplete_alloc : ℕ
  pub rx_incomplete_ack : ℕ
  pub rx_incomplete_areq : ℕ
  pub rx_dup_pkt : ℕ
  pub rx_out_of_order : ℕ
  pub rx_checksum_error : ℕ
  pub inwnd_jumped : ℕ
  pub seqno_before_inwnd : ℕ
  pub reset_payloads : ℕ
  pub proto_resets : ℕ
  pub redundant_reset : ℕ
  pub reset_both_recent_last_reset_wins : ℕ
  pub reset_both_recent_payload_wins : ℕ
  pub reset_last_recent_payload_old : ℕ
  pub reset_last_old_payload_recent : ℕ
  pub reset_both_old : ℕ
  pub no_reset_because_recent : ℕ
  pub reset_from_bad_pkts : ℕ
  pub forced_reset : ℕ

-- `calls` lists the calls made so far, latest last: every callback is set, and none changes the
-- connection. A `none` in `unacked_pkts` is a null pointer.
pub record Conn : Type 0 where
  pub last_reset_time : ℕ
  pub in_max_seqno : ℕ
  pub in_sync : Bool
  pub rst_win_ns : ℕ
  pub send_timeout : ℕ
  pub consecutive_bad_pkts : ℕ
  pub outwnd : FpWindow
  pub unacked_pkts : ℕ → Option PktDesc
  pub next_timeout_seqno : ℕ
  pub next_skip_ack_seqno : ℕ
  pub inwnd : ℕ
  pub stat : Stat
  pub calls : List Call

abbrev pub call : Conn → Call → Conn
call c a = record c { calls = c.calls ++ (a ∷ []) }

-- `conn->stat.<counter>++`
abbrev pub inc : ℕ → ℕ
inc n = add64 n 1
