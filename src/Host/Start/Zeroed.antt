-- ===== src/Host/Start/Zeroed.antt =====
-- The memory of an endpoint and its packet queues that the kernel gives them, which is zero.
use flexplane.Base.{false, none, [], replicate}
use flexplane.Protocol.Window.{FpWindow, wnd_words}
use flexplane.Protocol.Conn.{Stat, Conn}
use flexplane.Endpoint.Sched.{flow_unqueued, SchedStat, FpSchedData}
use flexplane.Tsq.Tree.{leaf}
use flexplane.Tsq.Sched.{TsqStat, TsqSchedData, empty_dst}

abbrev pub zeroed_stat : Stat
zeroed_stat = record {
  timeout_handler_runs = 0;
  ack_payloads = 0;
  too_early_ack = 0;
  acked_packets = 0;
  timeout_pkts = 0;
  skip_ack_pkts = 0;
  informative_ack_payloads = 0;
  reprogrammed_timer = 0;
  committed_pkts = 0;
  never_acked_pkts = 0;
  fall_off_outwnd = 0;
  rx_pkts = 0;
  rx_too_short = 0;
  rx_unknown_payload = 0;
  rx_incomplete_reset = 0;
  rx_incomplete_alloc = 0;
  rx_incomplete_ack = 0;
  rx_incomplete_areq = 0;
  rx_dup_pkt = 0;
  rx_out_of_order = 0;
  rx_checksum_error = 0;
  inwnd_jumped = 0;
  seqno_before_inwnd = 0;
  reset_payloads = 0;
  proto_resets = 0;
  redundant_reset = 0;
  reset_both_recent_last_reset_wins = 0;
  reset_both_recent_payload_wins = 0;
  reset_last_recent_payload_old = 0;
  reset_last_old_payload_recent = 0;
  reset_both_old = 0;
  no_reset_because_recent = 0;
  reset_from_bad_pkts = 0;
  forced_reset = 0;
}

abbrev pub zeroed_window : FpWindow
zeroed_window = record {
  marked = replicate wnd_words 0;
  summary = 0;
  head = 0;
  head_word = 0;
  num_marked = 0;
}

abbrev pub zeroed_conn : Conn
zeroed_conn = record {
  last_reset_time = 0;
  in_max_seqno = 0;
  in_sync = false;
  rst_win_ns = 0;
  send_timeout = 0;
  consecutive_bad_pkts = 0;
  outwnd = zeroed_window;
  unacked_pkts = λ i. none;
  next_timeout_seqno = 0;
  next_skip_ack_seqno = 0;
  inwnd = 0;
  stat = zeroed_stat;
  calls = [];
}

abbrev pub zeroed_sched_stat : SchedStat
zeroed_sched_stat = record {
  admitted_timeslots = 0;
  early_enqueue = 0;
  late_enqueue1 = 0;
  late_enqueue2 = 0;
  late_enqueue3 = 0;
  late_enqueue4 = 0;
  req_alloc_errors = 0;
  request_with_empty_flowqueue = 0;
  queued_flow_already_acked = 0;
  unwanted_alloc = 0;
  alloc_report_larger_than_requested = 0;
  timeslots_assumed_lost = 0;
}

abbrev pub zeroed_fp : FpSchedData
zeroed_fp = record {
  tslot_mul = 0;
  tslot_shift = 0;
  unreq_flows = λ i. 0;
  unreq_dsts_head = 0;
  unreq_dsts_tail = 0;
  dsts = λ k. record {
    demand_tslots = 0;
    requested_tslots = 0;
    acked_tslots = 0;
    alloc_tslots = 0;
    used_tslots = 0;
    state = flow_unqueued;
  };
  request_pacer = record { t = 0; next_event = 0; cost = 0; max_credit = 0; min_gap = 0 };
  is_destroyed = false;
  conn = zeroed_conn;
  totals = record {
    demand_tslots = 0;
    requested_tslots = 0;
    alloc_tslots = 0;
    acked_tslots = 0;
    used_tslots = 0;
  };
  stat = zeroed_sched_stat;
  calls = [];
}

abbrev pub zeroed_tsq_stat : TsqStat
zeroed_tsq_stat = record {
  ctrl_pkts = 0;
  ntp_pkts = 0;
  ptp_pkts = 0;
  arp_pkts = 0;
  igmp_pkts = 0;
  ssh_pkts = 0;
  data_pkts = 0;
  classify_errors = 0;
  classified_ipv6 = 0;
  above_plimit = 0;
  enqueued = 0;
  enqueued_hi_pri = 0;
  allocation_errors = 0;
  pkt_too_big = 0;
  added_tslots = 0;
  dequeued = 0;
  used_timeslots = 0;
  dropped_timeslots = 0;
  modified_timeslots = 0;
  unwanted_alloc = 0;
  dst_not_found_handle_now = 0;
  unrecognized_id = 0;
  unrecognized_action = 0;
}

abbrev pub zeroed_tsq : TsqSchedData
zeroed_tsq = record {
  hash_tbl_log = 0;
  tslot_len_approx = 0;
  hash_tbl_locked = false;
  dst_hash_tbl = λ cell. leaf;
  dsts = λ k. empty_dst;
  enqueue_skb_q = [];
  reg_prio = [];
  hi_prio = [];
  prequeue = [];
  dropqueue = [];
  flows = 0;
  inactive_flows = 0;
  qlen = 0;
  limit = 0;
  stat = zeroed_tsq_stat;
  added = [];
  dropped = [];
}
