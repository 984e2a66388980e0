-- ===== src/Arbiter/Tests.antt =====
-- The laws of the arbiter's side at an end node with two pending allocations and no demand.
use flexplane.Base.{
  ℕ, ◌/◌, ◌%◌, ◌^◌, ◌≡◌, refl, true, false, ◌==◌, if◌then◌else◌, arith, List, [], ◌∷◌, ◌++◌, add32,
  sub32,
}
use flexplane.Base.Checked.{Checked, ok, bug}
use flexplane.Base.Ring.Once
use flexplane.Base.Table.{update}
use flexplane.GraphAlgo.Seq.Demand.{Status}
use flexplane.GraphAlgo.Tests.{status, no_owed}
use flexplane.Protocol.Conn.{AreqDesc, PktDesc}
use flexplane.Protocol.Conn.Areqs.{wire, highest}
use flexplane.Protocol.Tests.Conns.{conn}
use flexplane.Protocol.Window.{wnd_pos}
use flexplane.Endpoint.Sched.{
  FpSchedData, flow_inc_demand, unreq_dsts_enqueue_if_not_queued, unreq_dsts_dequeue_and_get,
  trigger_tx,
}
use flexplane.Endpoint.Send.{request_pd, new_requested, request_flow, fill_areqs, areq_fuel}
use flexplane.Endpoint.Tests.{idle_pacer, sched, waiting_sched, waiting_sched-IsValid}
use flexplane.Endpoint.Inv.Requests.{fill_areqs-AreFilled}
use flexplane.Arbiter.Node.{
  PendingAlloc, PendingAllocQueue, AllocReportQueue, EndNode, report_pos, report_empty, handle_areq,
}
use flexplane.Arbiter.Reports.{report_pos_apart, reports, IsQueue}
use flexplane.Arbiter.Demands.{IsNear, IsRequested, handle_areq-IsRequested}
use flexplane.Arbiter.Allocs.{
  CommCore, make_room, push_alloc, allocate_to, fill_packet_alloc, fill_packet_report,
}
use flexplane.Arbiter.Pending.{unsent, IsCounted, push_alloc_overwrites}
use flexplane.Arbiter.Packets.Deliver.{IsDelivered, fill_packet_alloc_lem}
use flexplane.Arbiter.Packets.Report.{IsReportedIn, fill_packet_report_lem, allocate_to_lem}
use flexplane.Arbiter.Exchange.{IsBehind, AreForNodes, requests-IsBehind}

abbrev alloc_to : ℕ → PendingAlloc
alloc_to dst = record { dst = dst; timeslot = 100; flags = 2 }

abbrev two_allocs : PendingAllocQueue
two_allocs = record { allocs = λ i. if i == 0 then alloc_to 3 else alloc_to 5; head = 0; tail = 2 }

abbrev no_reports : AllocReportQueue
no_reports = record { is_pending = λ i. false; q_pending = λ i. 0; head = 0; tail = 0 }

abbrev node : EndNode
node = record {
  conn = conn;
  pending_allocs = two_allocs;
  demands = λ k. if k == 7 then 2 else 0;
  alloc_to_dst = λ k. if k == 7 then 1 else 0;
  acked_allocs = λ k. 0;
  report_queue = no_reports;
  tx_pacer = idle_pacer;
  tx_timer = [];
}

no_reports-IsQueue : IsQueue no_reports
no_reports-IsQueue = Once.empty-IsOnce report_pos (λ i. 0)

two-IsCounted : IsCounted two_allocs
two-IsCounted = record { head_small = omega arith; tail_small = omega arith }

-- A queue with one report.
abbrev one_report : AllocReportQueue
one_report = record {
  is_pending = update (λ i. false) 7 true;
  q_pending = update (λ i. 0) (report_pos 0) 7;
  head = 0;
  tail = 1;
}

one_report-IsQueue : IsQueue one_report
one_report-IsQueue =
    (Once.push-IsOnce report_pos report_pos_apart (λ i. 0) 0 0 (λ i. false) 7 no_reports-IsQueue
      (omega arith) refl).1

has_report : report_empty one_report ≡ false
unfolding report_empty
has_report = refl

-- Flow 7 asks for 5 timeslots, where 2 are known of.
abbrev five : List AreqDesc
five = record { src_dst_key = 7; tslots = 5 } ∷ []

node-IsNear : IsNear (λ k. 0) 3 (status 0) node
node-IsNear = record {
  low = λ k lt. omega arith;
  high = λ k lt. ground arith;
  small = λ k lt. omega arith;
  room = λ k lt. rw (no_owed 3 k) (ground arith);
  idle = λ i off. refl;
}

handle_areq-IsRequested_example :
    (st' : Status) × (en' : EndNode) × (handle_areq (status 0) node 3 (wire five) 100
      ≡ ok (st', en'))
    × IsNear (λ k. 0) 3 st' en'
    × IsRequested 3 (status 0) node st' en' (λ k. highest five k (node.demands k))
handle_areq-IsRequested_example =
    handle_areq-IsRequested five (λ k. 0) (status 0) node 3 100 (omega arith) node-IsNear
      (omega arith, omega arith, omega arith, tt)

abbrev full_allocs : PendingAllocQueue
full_allocs = record { allocs = λ i. alloc_to 5; head = 0; tail = 256 }

push_alloc_overwrites_example :
    ((push_alloc (make_room full_allocs) (alloc_to 9)).head ≡ full_allocs.head)
    × ((push_alloc (make_room full_allocs) (alloc_to 9)).allocs (wnd_pos full_allocs.head)
        ≡ alloc_to 9)
    × (sub32
          (push_alloc (make_room full_allocs) (alloc_to 9)).tail
          (push_alloc (make_room full_allocs) (alloc_to 9)).head
        ≡ 257)
push_alloc_overwrites_example =
    push_alloc_overwrites full_allocs (alloc_to 9)
      (record { head_small = omega arith; tail_small = omega arith }) (omega arith)

abbrev comm_core : CommCore
comm_core = record { alloc_enc_space = λ k. 0; latest_timeslot = λ i. 100 }

fill_packet_alloc_lem_example :
    (core' : CommCore) × (pd' : PktDesc) × (en' : EndNode) × (fill_packet_alloc comm_core
        (request_pd [])
        node
      ≡ ok (core', pd', en'))
    × IsDelivered node core' pd' en'
fill_packet_alloc_lem_example =
    fill_packet_alloc_lem comm_core (request_pd []) node two-IsCounted (λ e. omega (arith, e))
      (λ k. refl)

abbrev reporting : EndNode
reporting = record node { report_queue = one_report }

fill_packet_report_lem_example :
    (pd' : PktDesc) × (en' : EndNode) × (fill_packet_report (request_pd []) reporting 100
      ≡ ok (pd', en'))
    × IsReportedIn reporting 100 pd' en'
fill_packet_report_lem_example =
    fill_packet_report_lem (request_pd []) reporting 100 one_report-IsQueue

allocate_to_lem_example :
    (unsent (allocate_to node 7 2 1600 100).pending_allocs
      ≡ unsent node.pending_allocs
        ++ record { dst = 7; timeslot = 1600 / 2 ^ 4 % 2 ^ 16; flags = 2 % 2 ^ 4 } ∷ [])
    × IsQueue (allocate_to node 7 2 1600 100).report_queue
    × (reports (allocate_to node 7 2 1600 100).report_queue ≡ (
        if node.report_queue.is_pending 7
        then reports node.report_queue
        else reports node.report_queue ++ 7 ∷ []))
    × ((allocate_to node 7 2 1600 100).alloc_to_dst
        ≡ update node.alloc_to_dst 7 (add32 (node.alloc_to_dst 7) 1))
allocate_to_lem_example =
    allocate_to_lem node 7 2 1600 100 two-IsCounted (omega arith) no_reports-IsQueue (omega arith)

-- What the endpoint asks for: 2 timeslots of flow 9.
abbrev value_or : Checked (List AreqDesc × FpSchedData) → List AreqDesc × FpSchedData
value_or (ok r) = r
value_or bug = ([], sched)

asked : List AreqDesc × FpSchedData
asked = value_or (fill_areqs areq_fuel [] waiting_sched)

asked_filled : fill_areqs areq_fuel [] waiting_sched ≡ ok asked
unfolding asked
asked_filled =
    let (r, filled, _) = fill_areqs-AreFilled waiting_sched waiting_sched-IsValid in rw filled refl

asked-AreForNodes : AreForNodes asked.0
unfolding asked fill_areqs unreq_dsts_dequeue_and_get request_flow new_requested flow_inc_demand
    unreq_dsts_enqueue_if_not_queued trigger_tx update
asked-AreForNodes = (omega arith, tt)

waiting-IsBehind : IsBehind waiting_sched.dsts 3 (status 0) node
unfolding flow_inc_demand unreq_dsts_enqueue_if_not_queued trigger_tx update
waiting-IsBehind = record {
  acked_le = λ k lt. ground arith;
  le_requested = λ k lt. ground arith;
  small = λ k lt. ground arith;
  room = λ k lt. rw (no_owed 3 k) (ground arith);
  idle = λ i off. refl;
}

requests-IsBehind_example :
    (st' : Status) × (en' : EndNode) × (handle_areq (status 0) node 3 (wire asked.0) 100
      ≡ ok (st', en'))
    × ((k : ℕ) → en'.demands k ≡ highest asked.0 k (node.demands k))
    × IsBehind asked.1.dsts 3 st' en'
requests-IsBehind_example =
    requests-IsBehind waiting_sched asked (status 0) node 3 100 waiting_sched-IsValid asked_filled
      asked-AreForNodes (omega arith) waiting-IsBehind
