-- ===== src/Protocol/Conn/Reset.antt =====
-- Resets in protocol/fpproto.c: the sequence numbers that follow from a reset's time, the choice
-- between two resets, and the count of bad packets. `now` is what fp_get_time_ns returns.
pub mod Decide
use flexplane.Base.{
  ℕ, ◌*◌, ◌/◌, ◌^◌, Bool, true, false, not, ◌&&◌, ltb, leb, ◌==◌, if◌then◌else◌, add64, add32,
  sub64, shl64, u32, ones64,
}
use flexplane.Base.Checked.{Checked, ok, ◌>>=◌}
use flexplane.Protocol.Platform.{time_before64, time_after_eq64, time_before_eq64}
use flexplane.Protocol.Window.{wnd_head, wnd_reset}
use flexplane.Protocol.Checksum.{fp_jhash_1word}
use flexplane.Protocol.Conn.{Config, Conn, handle_reset, trigger_request, call, inc}
use flexplane.Protocol.Conn.Outwnd.{free_unacked}

abbrev to_controller_seqno_offset : ℕ
to_controller_seqno_offset = 0

abbrev to_endpoint_seqno_offset : ℕ
to_endpoint_seqno_offset = 0xDEADBEEF

abbrev pub egress_seqno_offset : Config → ℕ
egress_seqno_offset cfg =
    if cfg.is_endpoint then to_controller_seqno_offset else to_endpoint_seqno_offset

abbrev pub ingress_seqno_offset : Config → ℕ
ingress_seqno_offset cfg =
    if cfg.is_endpoint then to_endpoint_seqno_offset else to_controller_seqno_offset

abbrev bad_pkt_reset_threshold : ℕ
bad_pkt_reset_threshold = 10

abbrev reset_window_ns : ℕ
reset_window_ns = 1000 * 1000 * 1000

unfoldable pub base_seqno_from_timestamp : ℕ → ℕ
base_seqno_from_timestamp reset_time =
    let time_hash = fp_jhash_1word (u32 reset_time) (u32 (reset_time / 2 ^ 32)) in
    add64 (add64 reset_time time_hash) (shl64 time_hash 32)

unfoldable pub tstamp_in_window : ℕ → ℕ → ℕ → Bool
tstamp_in_window tstamp win_middle win_size =
    leb (sub64 win_middle (win_size / 2)) tstamp
    && ltb tstamp (add64 win_middle (add64 win_size 1 / 2))

unfoldable pub do_proto_reset : Config → Conn → ℕ → Bool → Checked Conn
do_proto_reset cfg conn reset_time in_sync = do
  let base_seqno = base_seqno_from_timestamp reset_time
  freed ← free_unacked conn
  let outwnd = wnd_reset (sub64 (add64 base_seqno (egress_seqno_offset cfg)) 1)
  ok (record freed {
    last_reset_time = reset_time;
    outwnd = outwnd;
    in_max_seqno = sub64 (add64 base_seqno (ingress_seqno_offset cfg)) 1;
    inwnd = ones64;
    consecutive_bad_pkts = 0;
    next_timeout_seqno = add64 (wnd_head outwnd) 1;
    next_skip_ack_seqno = add64 (wnd_head outwnd) 1;
    in_sync = in_sync;
    stat = record freed.stat { proto_resets = inc freed.stat.proto_resets };
  })

unfoldable pub fpproto_force_reset : Config → Conn → ℕ → Checked Conn
fpproto_force_reset cfg conn now =
    do_proto_reset cfg
      (record conn { stat = record conn.stat { forced_reset = inc conn.stat.forced_reset } }) now
      false

-- The reset and the callback that follow the decision to accept.
unfoldable pub accept_reset : Config → Conn → ℕ → Checked Conn
accept_reset cfg conn tstamp = do
  reset ← do_proto_reset cfg conn tstamp cfg.is_endpoint
  ok (call reset handle_reset)

-- The result is true for the result 1: the caller drops the packet.
unfoldable pub reset_payload_handler : Config → Conn → ℕ → ℕ → Checked (Conn × Bool)
reset_payload_handler cfg conn full_tstamp now =
    let stat = record conn.stat { reset_payloads = inc conn.stat.reset_payloads } in
    let last_is_recent = tstamp_in_window conn.last_reset_time now conn.rst_win_ns in
    let payload_is_recent = tstamp_in_window full_tstamp now conn.rst_win_ns in
    if full_tstamp == conn.last_reset_time
    then ok (
      record conn {
        stat =
            if cfg.is_endpoint && not conn.in_sync
            then stat
            else record stat { redundant_reset = inc stat.redundant_reset };
        in_sync = cfg.is_endpoint;
      },
      false,
    )
    else if last_is_recent && payload_is_recent && time_before64 full_tstamp conn.last_reset_time
    then ok (
      record conn {
        stat = record stat {
          reset_both_recent_last_reset_wins = inc stat.reset_both_recent_last_reset_wins;
        };
      },
      true,
    )
    else if last_is_recent && payload_is_recent
    then (do
      reset ←
          accept_reset cfg
            (record conn {
              stat = record stat {
                reset_both_recent_payload_wins = inc stat.reset_both_recent_payload_wins;
              };
            })
            full_tstamp
      ok (reset, false))
    else if last_is_recent
    then ok (
      record conn {
        stat = record stat {
          reset_last_recent_payload_old = inc stat.reset_last_recent_payload_old;
        };
      },
      true,
    )
    else if payload_is_recent
    then (do
      reset ←
          accept_reset cfg
            (record conn {
              stat = record stat {
                reset_last_old_payload_recent = inc stat.reset_last_old_payload_recent;
              };
            })
            full_tstamp
      ok (reset, false))
    else (do
      reset ←
          accept_reset cfg
            (record conn { stat = record stat { reset_both_old = inc stat.reset_both_old } }) now
      ok (reset, true))

unfoldable pub got_good_packet : Conn → Conn
got_good_packet conn = record conn { consecutive_bad_pkts = 0 }

abbrev time_in_range64 : ℕ → ℕ → ℕ → Bool
time_in_range64 a b c = time_after_eq64 a b && time_before_eq64 a c

unfoldable pub got_bad_packet : Config → Conn → ℕ → Checked Conn
got_bad_packet cfg conn now =
    let n_bad = add32 conn.consecutive_bad_pkts 1 in
    let counted = record conn { in_sync = false; consecutive_bad_pkts = n_bad } in
    let cleared = record conn { in_sync = false; consecutive_bad_pkts = 0 } in
    let stat = conn.stat in
    if ltb n_bad bad_pkt_reset_threshold
    then ok (call counted trigger_request)
    else if time_in_range64 conn.last_reset_time (sub64 now reset_window_ns)
        (add64 now reset_window_ns)
    then ok (
        call
          (record cleared {
            stat = record stat { no_reset_because_recent = inc stat.no_reset_because_recent };
          })
          trigger_request)
    else (do
      reset ←
          do_proto_reset cfg
            (record cleared {
              stat = record stat { reset_from_bad_pkts = inc stat.reset_from_bad_pkts };
            })
            now false
      ok (call (call reset handle_reset) trigger_request))
