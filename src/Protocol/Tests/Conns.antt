-- ===== src/Protocol/Tests/Conns.antt =====
-- The laws of the connection at a fresh connection, and of its packets.
use flexplane.Base.{
  ℕ, ◌+◌, ◌-◌, ◌^◌, ◌<◌, ◌≡◌, Bool, true, false, ◌&&◌, ◌||◌, ltb, leb, ◌==◌, if◌then◌else◌, bit_and,
  none, sub64, inl, inr, List, [], ◌∷◌, arith,
}
use flexplane.Base.Bits.{bit}
use flexplane.Base.Checked.{ok}
use flexplane.Protocol.Window.{wnd_reset}
use flexplane.Protocol.Window.Inv.{IsValid}
use flexplane.Protocol.Conn.{Config, Stat, Conn, PktDesc}
use flexplane.Protocol.Conn.Inwnd.{update_inwnd, at_most_once_may_accept, update_inwnd_lem}
use flexplane.Protocol.Conn.Outwnd.{free_unacked}
use flexplane.Protocol.Conn.Outwnd.Free.{IsFreed, free_unacked-IsFreed}
use flexplane.Protocol.Conn.Reset.{reset_payload_handler}
use flexplane.Protocol.Conn.Reset.Decide.{chosen_reset, reset_payload_handler_lem}
use flexplane.Protocol.Conn.Ack.{commit_desc}
use flexplane.Protocol.Conn.Payload.{fpproto_perform_rx_callbacks}
use flexplane.Protocol.Conn.Payload.Laws.{fpproto_perform_rx_callbacks-returns}
use flexplane.Protocol.Conn.Receive.{expand_ack_vec}
use flexplane.Protocol.Conn.Receive.Numbers.{ack_vec-honest}
use flexplane.Protocol.Conn.Encode.{encoded, fpproto_encode_packet}
use flexplane.Protocol.Conn.Encode.Roundtrip.{IsReadBack, fpproto_encode_packet-IsReadBack}
use flexplane.Protocol.Tests.Windows.{one_mark, marked}

abbrev pub controller : Config
controller = record { is_endpoint = false; emulation = false; alloc_bytes_per_tslot = 1 }

abbrev pub no_stat : Stat
no_stat = record {
  timeout_handler_runs = 0;
  ack_payloads = 0;
  too_early_ack = 0;
  acked_packets = 0;
  timeout_pkts = 0;
  skip_ack_pkts = 0;
  informative_ack_payloads = 0;
  reprogrammed_timer = 0;
  committed_pkts = 0;
  never_acked_pkts = 0;
  fall_off_outwnd = 0;
  rx_pkts = 0;
  rx_too_short = 0;
  rx_unknown_payload = 0;
  rx_incomplete_reset = 0;
  rx_incomplete_alloc = 0;
  rx_incomplete_ack = 0;
  rx_incomplete_areq = 0;
  rx_dup_pkt = 0;
  rx_out_of_order = 0;
  rx_checksum_error = 0;
  inwnd_jumped = 0;
  seqno_before_inwnd = 0;
  reset_payloads = 0;
  proto_resets = 0;
  redundant_reset = 0;
  reset_both_recent_last_reset_wins = 0;
  reset_both_recent_payload_wins = 0;
  reset_last_recent_payload_old = 0;
  reset_last_old_payload_recent = 0;
  reset_both_old = 0;
  no_reset_because_recent = 0;
  reset_from_bad_pkts = 0;
  forced_reset = 0;
}

-- The newest number received is 500, and all of the 64 up to it but 490 were.
abbrev pub conn : Conn
conn = record {
  last_reset_time = 0;
  in_max_seqno = 500;
  in_sync = true;
  rst_win_ns = 1000;
  send_timeout = 2000;
  consecutive_bad_pkts = 0;
  outwnd = wnd_reset 1000;
  unacked_pkts = λ i. none;
  next_timeout_seqno = 1001;
  next_skip_ack_seqno = 1001;
  inwnd = 2 ^ 64 - 1 - 2 ^ 53;
  stat = no_stat;
  calls = [];
}

update_inwnd_lem_example :
    ((update_inwnd conn 490).1 ≡ at_most_once_may_accept conn 490)
    × ((update_inwnd conn 490).0.inwnd < 2 ^ 64)
    × (at_most_once_may_accept (update_inwnd conn 490).0 501 ≡ (
        (490 == 501)
        || at_most_once_may_accept conn 501
        || (ltb (sub64 (update_inwnd conn 490).0.in_max_seqno 501) (2 ^ 63)
            && leb 64 (sub64 (update_inwnd conn 490).0.in_max_seqno 501))))
update_inwnd_lem_example =
    update_inwnd_lem conn 490 501 (omega arith) (omega arith) (omega arith) (omega arith)
      (inl (omega arith)) (inr (omega arith))

-- A packet waits for its ACK.
abbrev waiting : Conn
waiting = record conn { outwnd = one_mark }

free_unacked-IsFreed_example : (c' : Conn) × (free_unacked waiting ≡ ok c') × IsFreed waiting c'
free_unacked-IsFreed_example = free_unacked-IsFreed waiting marked.2

-- The header, and an ACK payload of 6 bytes.
abbrev pkt : List ℕ
pkt = 0 ∷ 1 ∷ 0 ∷ 1 ∷ 0 ∷ 0 ∷ 0 ∷ 0 ∷ 64 ∷ 0 ∷ 0 ∷ 0 ∷ 0 ∷ 1 ∷ []

fpproto_perform_rx_callbacks-returns_example :
    (r : Bool × Conn) × (fpproto_perform_rx_callbacks controller conn pkt 14 ≡ ok r)
fpproto_perform_rx_callbacks-returns_example =
    fpproto_perform_rx_callbacks-returns controller conn pkt 14 (omega arith)

abbrev desc : PktDesc
desc = record {
  sent_timestamp = 0;
  seqno = 1001;
  ack_seq = 500;
  ack_vec = 0;
  send_reset = true;
  reset_timestamp = 2 ^ 57 + 5;
  areq = [];
  alloc_tslot = 2;
  base_tslot = 7;
  dsts = 3 ∷ [];
  tslot_desc = 16 ∷ 0 ∷ [];
}

ack_vec-honest_example :
    (bit (expand_ack_vec (commit_desc conn desc 9).ack_vec) 53
      ≡ (if ltb 53 48 then bit_and conn.inwnd (2 ^ 48 - 1) == 2 ^ 48 - 1 else bit conn.inwnd 53))
    × (bit (expand_ack_vec (commit_desc conn desc 9).ack_vec) 53 ≡ true → bit conn.inwnd 53 ≡ true)
ack_vec-honest_example = ack_vec-honest conn desc 9 53 (omega arith)

fpproto_encode_packet-IsReadBack_example :
    (bytes : List ℕ) × (fpproto_encode_packet controller desc 0 1500 46 ≡ encoded bytes)
    × IsReadBack desc bytes
fpproto_encode_packet-IsReadBack_example =
    fpproto_encode_packet-IsReadBack controller desc 0 1500 46 (omega arith) (omega arith)
      (omega arith) (omega arith) (omega arith) (omega arith) (omega arith)

reset_payload_handler_lem_example :
    (c' : Conn) × (drop : Bool) × (reset_payload_handler controller waiting 5001 5000
      ≡ ok (c', drop))
    × IsValid c'.outwnd
    × (c'.last_reset_time
        ≡ (if 5001 == waiting.last_reset_time then 5001 else chosen_reset waiting 5001 5000))
    × (drop ≡ false → c'.last_reset_time ≡ 5001)
reset_payload_handler_lem_example = reset_payload_handler_lem controller waiting 5001 5000 marked.2
