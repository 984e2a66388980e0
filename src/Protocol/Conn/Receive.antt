-- ===== src/Protocol/Conn/Receive.antt =====
-- fpproto_handle_rx_packet, fpproto_handle_rx_complete and the functions around them in
-- protocol/fpproto.c. A packet is the list of its bytes at `address`; `now` is what
-- fp_get_time_ns returns.
pub mod Numbers
use flexplane.Base.{
  ℕ, ◌+◌, ◌-◌, ◌*◌, ◌/◌, ◌%◌, ◌^◌, bit_and, bit_or, Bool, true, false, not, ◌&&◌, List, ltb, leb,
  ◌==◌, Option, none, some, if◌then◌else◌, get_or, set, add64, sub64, shl64, shr64, not64,
}
use flexplane.Base.Checked.{Checked, ok, bug, ◌>>=◌}
use flexplane.Protocol.Window.{wnd_head, wnd_reset}
use flexplane.Protocol.Checksum.{fastpass_checksum, read16}
use flexplane.Protocol.Conn.{Config, Conn, Stat, trigger_request, call, inc}
use flexplane.Protocol.Conn.Inwnd.{update_inwnd, at_most_once_may_accept}
use flexplane.Protocol.Conn.Outwnd.{free_unacked}
use flexplane.Protocol.Conn.Reset.{
  base_seqno_from_timestamp, ingress_seqno_offset, egress_seqno_offset, do_proto_reset,
  reset_payload_handler, got_good_packet, got_bad_packet,
}
use flexplane.Protocol.Conn.Ack.{ack_payload_handler}
use flexplane.Protocol.Conn.Payload.{
  net16, net32, ptype_reset, ptype_ack, fpproto_perform_rx_callbacks,
}

-- `seq += (ntohs(low) - seq) & 0xFFFF`
unfoldable pub extend_seqno : ℕ → ℕ → ℕ
extend_seqno seq low = add64 seq (bit_and (sub64 low seq) 0xFFFF)

-- The 64-bit timestamp around `now` from its 56 low bits.
unfoldable pub extend_tstamp : ℕ → ℕ → ℕ
extend_tstamp now partial_tstamp =
    let rst_tstamp = sub64 now (2 ^ 55) in
    add64 rst_tstamp (bit_and (sub64 partial_tstamp rst_tstamp) (2 ^ 56 - 1))

-- The 64-bit ACK vector from the 16 bits of the header.
unfoldable pub expand_ack_vec : ℕ → ℕ
expand_ack_vec ack_vec16 =
    bit_or
      (bit_or (bit_and (sub64 (2 ^ 48) (ack_vec16 / 2 ^ 15)) (not64 (2 ^ 48)))
        (shl64 (bit_and ack_vec16 0x7FFF) 48))
      (shl64 1 63)

abbrev reset_tstamp : List ℕ → ℕ → ℕ
reset_tstamp pkt now =
    extend_tstamp now ((bit_and (net32 pkt 8) (2 ^ 24 - 1)) * 2 ^ 32 + net32 pkt 12)

-- `in_seq` and `ack_seq` before their 16 low bits are set from the header.
unfoldable pub in_seq_base : Config → Conn → List ℕ → ℕ → Bool → ℕ
in_seq_base cfg conn pkt now is_reset =
    if is_reset
    then add64 (base_seqno_from_timestamp (reset_tstamp pkt now)) (ingress_seqno_offset cfg)
    else sub64 conn.in_max_seqno (2 ^ 14)

unfoldable pub ack_seq_base : Config → Conn → List ℕ → ℕ → Bool → ℕ
ack_seq_base cfg conn pkt now is_reset =
    if is_reset
    then sub64 (add64 (base_seqno_from_timestamp (reset_tstamp pkt now)) (egress_seqno_offset cfg))
        1
    else add64 (sub64 (wnd_head conn.outwnd) (2 ^ 16)) 1

-- The result of fpproto_handle_rx_packet: what it returns, and what it stores through
-- `returned_in_seq`.
pub record Rx : Type 0 where
  pub accepted : Bool
  pub conn : Conn
  pub in_seq : ℕ

abbrev drop_packet : Conn → Rx
drop_packet conn = record { accepted = false; conn = conn; in_seq = 0 }

unfoldable pub fpproto_successful_rx : Conn → ℕ → Conn
fpproto_successful_rx conn in_seq = (update_inwnd conn in_seq).0

-- The extended ACK, from `curp`.
unfoldable pub handle_extended_ack : Config → Conn → List ℕ → ℕ → ℕ → ℕ → ℕ → Checked Rx
handle_extended_ack cfg conn pkt curp data_end in_seq ack_seq =
    let ack_vec =
      bit_or (shl64 (bit_and (net32 pkt curp) (2 ^ 28 - 1)) 20) (net16 pkt (curp + 4) * 16) in
    if not (get_or pkt curp 0 / 16 == ptype_ack)
    then ok (record { accepted = true; conn = conn; in_seq = in_seq })
    else if ltb data_end (curp + 6)
    then ok (
        drop_packet (record conn {
          stat = record conn.stat { rx_incomplete_ack = inc conn.stat.rx_incomplete_ack };
        }))
    else (do
      acked ← ack_payload_handler cfg conn ack_seq ack_vec
      ok (record { accepted = true; conn = acked; in_seq = in_seq }))

-- From the at-most-once test on, with `curp` after a reset payload.
unfoldable pub handle_accepted : Config → Conn → List ℕ → ℕ → ℕ → ℕ → ℕ → Checked Rx
handle_accepted cfg conn pkt curp len in_seq ack_seq =
    if at_most_once_may_accept conn in_seq then ok (drop_packet conn) else (do
      acked ← ack_payload_handler cfg conn ack_seq (expand_ack_vec (net16 pkt 4))
      (if curp == len
          then ok (drop_packet (fpproto_successful_rx acked in_seq))
          else handle_extended_ack cfg acked pkt curp len in_seq ack_seq))

-- From the good checksum on.
unfoldable pub handle_verified : Config → Conn → List ℕ → ℕ → ℕ → Bool → ℕ → ℕ → Checked Rx
handle_verified cfg conn pkt len now is_reset in_seq ack_seq =
    let out_of_sync = record conn { in_sync = false } in
    let triggered = if cfg.is_endpoint then out_of_sync else call out_of_sync trigger_request in
    if is_reset
    then (do
      handled ← reset_payload_handler cfg triggered (reset_tstamp pkt now) now
      (if handled.1
          then ok (drop_packet handled.0)
          else handle_accepted cfg handled.0 pkt 16 len in_seq ack_seq))
    else handle_accepted cfg (record conn { in_sync = true }) pkt 8 len in_seq ack_seq

unfoldable pub bad_checksum : Config → Conn → ℕ → Checked Rx
bad_checksum cfg conn now = do
  counted ← got_bad_packet cfg conn now
  ok (
      drop_packet (record counted {
        stat = record counted.stat { rx_checksum_error = inc counted.stat.rx_checksum_error };
      }))

unfoldable pub fpproto_handle_rx_packet : Config → Conn → ℕ → List ℕ → ℕ → ℕ → Checked Rx
fpproto_handle_rx_packet cfg conn address pkt len now =
    let stat = record conn.stat { rx_pkts = inc conn.stat.rx_pkts } in
    let counted = record conn { stat = stat } in
    let is_reset = not (len == 8) && (get_or pkt 8 0 / 16 == ptype_reset) in
    let in_seq = extend_seqno (in_seq_base cfg conn pkt now is_reset) (net16 pkt 0) in
    let ack_seq = extend_seqno (ack_seq_base cfg conn pkt now is_reset) (net16 pkt 2) in
    let unsigned = set (set pkt 6 0) 7 0 in
    if ltb len 8
    then ok (
        drop_packet
          (record counted { stat = record stat { rx_too_short = inc stat.rx_too_short } }))
    else if is_reset && ltb len 16
    then ok (
        drop_packet (record counted {
          stat = record stat { rx_incomplete_reset = inc stat.rx_incomplete_reset };
        }))
    else if fastpass_checksum address unsigned len in_seq ack_seq == read16 pkt 6
    then handle_verified cfg (got_good_packet counted) unsigned len now is_reset in_seq ack_seq
    else bad_checksum cfg counted now

unfoldable pub fpproto_handle_rx_complete : Config → Conn → ℕ → List ℕ → ℕ → ℕ → Checked Conn
fpproto_handle_rx_complete cfg conn address pkt len now = do
  received ← fpproto_handle_rx_packet cfg conn address pkt len now
  (if not received.accepted then ok received.conn else (do
    handled ← fpproto_perform_rx_callbacks cfg received.conn pkt len
    ok (if handled.0 then fpproto_successful_rx handled.1 received.in_seq else handled.1)))

unfoldable pub fpproto_destroy_conn : Conn → Checked Conn
fpproto_destroy_conn conn = free_unacked conn

unfoldable pub fpproto_init_conn : Config → Conn → ℕ → ℕ → ℕ → Checked Conn
fpproto_init_conn cfg conn now rst_win_ns send_timeout = do
  reset ← do_proto_reset cfg conn now false
  ok (record reset { rst_win_ns = rst_win_ns; send_timeout = send_timeout % 2 ^ 32 })
