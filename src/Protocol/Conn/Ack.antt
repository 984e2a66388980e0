-- ===== src/Protocol/Conn/Ack.antt =====
-- ACKs and timeouts in protocol/fpproto.c: ack_payload_handler, fpproto_handle_timeout,
-- fpproto_prepare_to_send and fpproto_commit_packet.
use flexplane.Base.{
  ℕ, zero, suc, ◌^◌, bit_and, bit_or, true, false, not, ◌&&◌, ltb, leb, ◌==◌, none, some,
  if◌then◌else◌, add64, sub64, shl64, shr64, not64, ones64,
}
use flexplane.Base.Checked.{Checked, ok, bug, bug_on, ◌>>=◌, ◌>>◌}
use flexplane.Protocol.Platform.{time_after64, time_after_eq64, ffs}
use flexplane.Protocol.Window.{
  wnd_head, wnd_edge, wnd_seq_before, wnd_is_marked, wnd_get_mask, wnd_at_or_after,
}
use flexplane.Protocol.Conn.{
  Config, Conn, PktDesc, set_timer, pktdesc_free, call, inc, retransmit_unacked_allocs,
}
use flexplane.Protocol.Conn.Outwnd.{
  do_ack_seqno, do_neg_ack_seqno, do_skipped_ack_seqno, outwnd_add, outwnd_pop, timeout_of,
  recompute_and_reset_retrans_timer,
}

-- The loop over the set bits of `todo_mask`, one unit of fuel for each; running out is a bug.
unfoldable pub ack_todo : ℕ → Conn → ℕ → ℕ → Checked Conn
ack_todo zero conn ack_seq todo_mask = if todo_mask == 0 then ok conn else bug
ack_todo (suc fuel) conn ack_seq todo_mask = elim (todo_mask == 0) [
  | true ↦ ok conn
  | false ↦ (do
    let offset = ffs todo_mask
    let cur_seqno = add64 (sub64 ack_seq 63) offset
    bug_on (wnd_seq_before conn.outwnd cur_seqno)
    bug_on (not (wnd_is_marked conn.outwnd cur_seqno))
    acked ← do_ack_seqno conn cur_seqno
    ack_todo fuel acked ack_seq (bit_and todo_mask (not64 (shl64 1 offset))))
]

-- `todo_mask` has 64 bits.
abbrev bits_per_todo : ℕ
bits_per_todo = 64

-- The loop that tells of the packets before `ack_seq` that were skipped.
unfoldable pub skip_acks : ℕ → Conn → ℕ → ℕ → Checked Conn
skip_acks zero conn ack_seq cur_seqno = bug
skip_acks (suc fuel) conn ack_seq cur_seqno = elim (wnd_at_or_after conn.outwnd cur_seqno) [
  | none ↦ ok conn
  | some next ↦ elim (ltb next ack_seq) [
    | false ↦ ok conn
    | true ↦
        let counted = record conn {
          stat = record conn.stat { skip_ack_pkts = inc conn.stat.skip_ack_pkts };
        } in
        skip_acks fuel (do_skipped_ack_seqno counted next) ack_seq (add64 next 1)
  ]
]

-- One pass for each place of the bitmap, and one to find none.
abbrev pub scan_fuel : ℕ
scan_fuel = 257

unfoldable pub skip_before_ack : Config → Conn → ℕ → Checked Conn
skip_before_ack cfg conn ack_seq =
    if retransmit_unacked_allocs cfg && leb conn.next_skip_ack_seqno ack_seq
    then (do
      skipped ← skip_acks scan_fuel conn ack_seq conn.next_skip_ack_seqno
      ok (record skipped { next_skip_ack_seqno = add64 ack_seq 1 }))
    else ok conn

-- The timer and the count that follow where a packet was acked.
unfoldable pub note_informative : Conn → ℕ → Checked Conn
note_informative conn todo_mask = if todo_mask == 0 then ok conn else (do
  timed ← recompute_and_reset_retrans_timer conn
  ok (record timed {
    stat = record timed.stat { informative_ack_payloads = inc timed.stat.informative_ack_payloads };
  }))

unfoldable pub ack_payload_handler : Config → Conn → ℕ → ℕ → Checked Conn
ack_payload_handler cfg conn ack_seq ack_vec =
    let counted = record conn {
      stat = record conn.stat { ack_payloads = inc conn.stat.ack_payloads };
    } in
    let todo_mask = bit_and ack_vec (wnd_get_mask conn.outwnd ack_seq) in
    if wnd_seq_before conn.outwnd ack_seq
    then ok (record counted {
      stat = record counted.stat { too_early_ack = inc counted.stat.too_early_ack };
    })
    else (do
      acked ← ack_todo bits_per_todo counted ack_seq todo_mask
      skipped ← skip_before_ack cfg acked ack_seq
      note_informative skipped todo_mask)

-- The loop over the packets whose timeout is over.
unfoldable pub expire : ℕ → Conn → ℕ → ℕ → Checked Conn
expire zero conn now seqno = bug
expire (suc fuel) conn now seqno = elim (wnd_at_or_after conn.outwnd seqno) [
  | none ↦ ok (record conn { next_timeout_seqno = add64 (wnd_head conn.outwnd) 1 })
  | some next ↦ (do
    timeout ← timeout_of conn next
    let counted = record conn {
      stat = record conn.stat { timeout_pkts = inc conn.stat.timeout_pkts };
    }
    elim (time_after64 timeout now) [
      | true ↦ ok (call (record conn { next_timeout_seqno = next }) (set_timer timeout))
      | false ↦ expire fuel (do_neg_ack_seqno counted next) now (add64 next 1)
    ])
]

unfoldable pub fpproto_handle_timeout : Conn → ℕ → Checked Conn
fpproto_handle_timeout conn now =
    let counted = record conn {
      stat = record conn.stat { timeout_handler_runs = inc conn.stat.timeout_handler_runs };
    } in
    expire scan_fuel counted now conn.next_timeout_seqno

-- The NACK of a packet that falls off the window and has had none.
unfoldable pub nack_at_edge : Conn → ℕ → Checked Conn
nack_at_edge conn window_edge =
    let counted = record conn {
      stat = record conn.stat { fall_off_outwnd = inc conn.stat.fall_off_outwnd };
    } in
    if time_after_eq64 window_edge conn.next_timeout_seqno
    then recompute_and_reset_retrans_timer
        (record (do_neg_ack_seqno counted window_edge) { next_timeout_seqno = add64 window_edge 1 })
    else ok conn

unfoldable pub fpproto_prepare_to_send : Conn → Checked Conn
fpproto_prepare_to_send conn =
    let window_edge = wnd_edge conn.outwnd in
    let counted = record conn {
      stat = record conn.stat { never_acked_pkts = inc conn.stat.never_acked_pkts };
    } in
    if wnd_is_marked conn.outwnd window_edge
    then (do
      nacked ← nack_at_edge counted window_edge
      popped ← outwnd_pop nacked window_edge
      ok (call popped.1 (pktdesc_free popped.0)))
    else ok conn

-- The packet as it is stored: numbered, and with the ACK of what was received.
unfoldable pub commit_desc : Conn → PktDesc → ℕ → PktDesc
commit_desc conn pd timestamp = record pd {
  sent_timestamp = timestamp;
  seqno = add64 (wnd_head conn.outwnd) 1;
  send_reset = not conn.in_sync;
  reset_timestamp = conn.last_reset_time;
  ack_seq = conn.in_max_seqno;
  ack_vec =
      bit_or (bit_and (shr64 conn.inwnd 48) 0x7FFF)
        (if bit_and conn.inwnd (shr64 ones64 16) == shr64 ones64 16 then 2 ^ 15 else 0);
}

-- The packet as committed, and the connection.
unfoldable pub fpproto_commit_packet : Conn → PktDesc → ℕ → Checked (PktDesc × Conn)
fpproto_commit_packet conn pd timestamp = do
  let committed = commit_desc conn pd timestamp
  added ← outwnd_add conn committed
  timed ←
      recompute_and_reset_retrans_timer (record added {
        stat = record added.stat { committed_pkts = inc added.stat.committed_pkts };
      })
  ok (committed, timed)
