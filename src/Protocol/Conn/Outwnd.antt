-- ===== src/Protocol/Conn/Outwnd.antt =====
-- protocol/outwnd.h, and the functions of protocol/fpproto.c on the packets that wait for an
-- ACK: timers, ACKs, negative ACKs and the release of all packets.
pub mod Free
use flexplane.Base.{
  ℕ, zero, suc, ◌+◌, ◌%◌, ◌^◌, Bool, true, false, Option, none, some, if◌then◌else◌, add64, sub64,
}
use flexplane.Base.Checked.{Checked, ok, bug, bug_on, ◌>>=◌, ◌>>◌}
use flexplane.Base.Table.{update}
use flexplane.Protocol.Platform.{time_after64, time_after_eq64}
use flexplane.Protocol.Window.{
  FpWindow, wnd_pos, wnd_head, wnd_edge, wnd_seq_before, wnd_seq_after, wnd_is_marked, wnd_mark,
  wnd_clear, wnd_advance, wnd_at_or_before, wnd_at_or_after,
}
use flexplane.Protocol.Conn.{
  Conn, PktDesc, Call, handle_ack, handle_neg_ack, handle_skipped_ack, set_timer, cancel_timer,
  pktdesc_free, call, inc,
}

unfoldable pub outwnd_add : Conn → PktDesc → Checked Conn
outwnd_add conn pd = do
  advanced ← wnd_advance conn.outwnd 1
  marked ← wnd_mark advanced advanced.head
  ok (record conn {
    outwnd = marked;
    unacked_pkts = update conn.unacked_pkts (wnd_pos marked.head) (some pd);
  })

-- The packet, and the connection without it.
unfoldable pub outwnd_pop : Conn → ℕ → Checked (Option PktDesc × Conn)
outwnd_pop conn seqno = do
  cleared ← wnd_clear conn.outwnd seqno
  ok (
    conn.unacked_pkts (wnd_pos seqno),
    record conn { outwnd = cleared; unacked_pkts = update conn.unacked_pkts (wnd_pos seqno) none },
  )

unfoldable pub outwnd_peek : Conn → ℕ → Option PktDesc
outwnd_peek conn seqno = conn.unacked_pkts (wnd_pos seqno)

-- `outwnd_peek(conn, seqno)->sent_timestamp + conn->send_timeout`; a null pointer is a bug.
unfoldable pub timeout_of : Conn → ℕ → Checked ℕ
timeout_of conn seqno = elim (outwnd_peek conn seqno) [
  | none ↦ bug
  | some pd ↦ ok (add64 pd.sent_timestamp conn.send_timeout)
]

unfoldable pub recompute_and_reset_retrans_timer : Conn → Checked Conn
recompute_and_reset_retrans_timer conn =
    elim (wnd_at_or_after conn.outwnd conn.next_timeout_seqno) [
      | none ↦
          ok (call (record conn { next_timeout_seqno = inc (wnd_head conn.outwnd) }) cancel_timer)
      | some seqno ↦ (do
        timeout ← timeout_of conn seqno
        let timed = record conn {
          next_timeout_seqno = seqno;
          stat = record conn.stat { reprogrammed_timer = inc conn.stat.reprogrammed_timer };
        }
        ok (call (call timed cancel_timer) (set_timer timeout)))
    ]

unfoldable pub do_ack_seqno : Conn → ℕ → Checked Conn
do_ack_seqno conn seqno = do
  bug_on (wnd_seq_after conn.outwnd seqno)
  bug_on (wnd_seq_before conn.outwnd seqno)
  let counted = record conn {
    stat = record conn.stat { acked_packets = inc conn.stat.acked_packets };
  }
  bug_on (if wnd_is_marked conn.outwnd seqno then false else true)
  popped ← outwnd_pop counted seqno
  ok (call (call popped.1 (handle_ack popped.0)) (pktdesc_free popped.0))

unfoldable pub do_neg_ack_seqno : Conn → ℕ → Conn
do_neg_ack_seqno conn seq = call conn (handle_neg_ack (outwnd_peek conn seq))

unfoldable pub do_skipped_ack_seqno : Conn → ℕ → Conn
do_skipped_ack_seqno conn seq = call conn (handle_skipped_ack (outwnd_peek conn seq))

-- The loop from `clear_next_unacked`; running out of fuel is a bug.
unfoldable pub clear_next_unacked : ℕ → Conn → ℕ → Checked Conn
clear_next_unacked zero conn tslot = bug
clear_next_unacked (suc fuel) conn tslot = do
  gap ← wnd_at_or_before conn.outwnd tslot
  elim gap [
    | none ↦ ok conn
    | some d ↦ (do
      popped ← outwnd_pop conn (sub64 tslot d)
      clear_next_unacked fuel (call popped.1 (pktdesc_free popped.0)) (sub64 tslot d))
  ]

-- One pass for each place of the bitmap, and one to find none.
abbrev pub free_fuel : ℕ
free_fuel = 257

unfoldable pub free_unacked : Conn → Checked Conn
free_unacked conn = clear_next_unacked free_fuel conn (wnd_head conn.outwnd)
