-- ===== src/Endpoint/Tests.antt =====
-- The laws of the endpoint at a scheduler with one busy flow.
use flexplane.Base.{
  ℕ, ◌-◌, ◌*◌, ◌^◌, ◌<◌, ◌≡◌, refl, false, ◌==◌, if◌then◌else◌, arith, List, [], ◌∷◌, length,
}
use flexplane.Base.Checked.{ok}
use flexplane.Base.Ring.Once
use flexplane.Protocol.Conn.{AreqDesc, PktDesc}
use flexplane.Protocol.Conn.Areqs.{highest}
use flexplane.Protocol.Pacer.{FpPacer}
use flexplane.Protocol.Window.Inv.{wnd_reset-IsValid}
use flexplane.Protocol.Tests.Conns.{controller, conn}
use flexplane.Endpoint.Sched.{flow_unqueued, flow_pos, SchedStat, FpSchedData, flow_inc_demand}
use flexplane.Endpoint.Alloc.{handle_reset}
use flexplane.Endpoint.Report.{handle_areq, handle_ack}
use flexplane.Endpoint.Send.{request_pd, fill_areqs, areq_fuel}
use flexplane.Endpoint.Inv.{IsValid, flow_inc_demand-IsValid}
use flexplane.Endpoint.Inv.Acks.{IsAcked, handle_ack_lem}
use flexplane.Endpoint.Inv.Requests.{AreFilled, fill_areqs-AreFilled}
use flexplane.Endpoint.Inv.Resets.{after_reset, handle_reset_lem}
use flexplane.Endpoint.Inv.Reports.{IsReported, handle_areq-IsReported}

abbrev pub idle_pacer : FpPacer
idle_pacer = record { t = 0; next_event = 2 ^ 64 - 1; cost = 10; max_credit = 40; min_gap = 5 }

abbrev no_sched_stat : SchedStat
no_sched_stat = record {
  admitted_timeslots = 0;
  early_enqueue = 0;
  late_enqueue1 = 0;
  late_enqueue2 = 0;
  late_enqueue3 = 0;
  late_enqueue4 = 0;
  req_alloc_errors = 0;
  request_with_empty_flowqueue = 0;
  queued_flow_already_acked = 0;
  unwanted_alloc = 0;
  alloc_report_larger_than_requested = 0;
  timeslots_assumed_lost = 0;
}

-- Flow 7 has requested all of its 3 timeslots, 1 of which was acked and used.
abbrev pub sched : FpSchedData
sched = record {
  tslot_mul = 1;
  tslot_shift = 10;
  unreq_flows = λ i. 0;
  unreq_dsts_head = 0;
  unreq_dsts_tail = 0;
  dsts = λ k. record {
    demand_tslots = if k == 7 then 3 else 0;
    requested_tslots = if k == 7 then 3 else 0;
    acked_tslots = if k == 7 then 1 else 0;
    alloc_tslots = if k == 7 then 1 else 0;
    used_tslots = if k == 7 then 1 else 0;
    state = flow_unqueued;
  };
  request_pacer = idle_pacer;
  is_destroyed = false;
  conn = conn;
  totals = record {
    demand_tslots = 3;
    requested_tslots = 3;
    alloc_tslots = 1;
    acked_tslots = 1;
    used_tslots = 1;
  };
  stat = no_sched_stat;
  calls = [];
}

pub sched-IsValid : IsValid sched
sched-IsValid = record {
  queue = Once.empty-IsOnce flow_pos (λ i. 0);
  flows = λ k lt. record {
    used_le = ground arith;
    alloc_eq = refl;
    acked_le = ground arith;
    requested_le = ground arith;
    demand_small = ground arith;
    in_window = ground arith;
    remembered = λ e less. absurd (ground (arith, less));
  };
}

-- Flow 9 has 2 timeslots to request.
abbrev pub waiting_sched : FpSchedData
waiting_sched = flow_inc_demand sched 9 2 100

pub waiting_sched-IsValid : IsValid waiting_sched
waiting_sched-IsValid =
    flow_inc_demand-IsValid sched 9 2 100 sched-IsValid (omega arith) (omega arith)

fill_areqs-AreFilled_example :
    (r : List AreqDesc × FpSchedData) × (fill_areqs areq_fuel [] waiting_sched ≡ ok r)
    × AreFilled waiting_sched r
fill_areqs-AreFilled_example = fill_areqs-AreFilled waiting_sched waiting_sched-IsValid

abbrev two_requested : PktDesc
two_requested = request_pd (record { src_dst_key = 7; tslots = 2 } ∷ [])

handle_ack_lem_example :
    (q' : FpSchedData) × (handle_ack sched two_requested 100 ≡ ok q')
    × IsValid q'
    × ((k : ℕ)
        → IsAcked
            (sched.dsts k)
            (q'.dsts k)
            (highest two_requested.areq k (sched.dsts k).acked_tslots))
handle_ack_lem_example =
    handle_ack_lem sched two_requested 100 sched-IsValid (omega arith, omega arith, tt)

handle_reset_lem_example :
    IsValid (handle_reset sched 200 100)
    × ((handle_reset sched 200 100).conn ≡ sched.conn)
    × ((k : ℕ) → k < 256 → (handle_reset sched 200 100).dsts k ≡ after_reset (sched.dsts k))
handle_reset_lem_example = handle_reset_lem sched 200 100 (omega arith) sched-IsValid

abbrev one_report : List ℕ
one_report = 7 ∷ 2 ∷ []

handle_areq-IsReported_example :
    (q' : FpSchedData) × (handle_areq controller sched one_report 200 5000 100 ≡ ok q')
    × IsReported sched (length one_report * 2 ^ 15) q'
handle_areq-IsReported_example =
    handle_areq-IsReported controller sched one_report 200 5000 100 sched-IsValid
      (wnd_reset-IsValid 1000 (omega arith)) (omega arith) (omega arith, omega arith, tt)
      (λ k lt. ground arith)
