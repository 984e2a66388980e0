-- ===== src/Endpoint/Sched.antt =====
-- kernel-mod/sch_fastpass.c: the state of the scheduler, the queue of flows that have something to
-- request, and the counters of a flow. Locks are left out.
use flexplane.Base.{
  ℕ, ◌%◌, ◌^◌, Bool, true, false, ◌==◌, if◌then◌else◌, add64, add32, sub32, List, [], ◌∷◌, ◌++◌,
  Option, none, some,
}
use flexplane.Base.Table.{update}
use flexplane.Protocol.Pacer.{FpPacer, pacer_trigger}
use flexplane.Protocol.Conn.{Conn}

-- MAX_FLOWS of protocol/topology.h
abbrev pub max_flows : ℕ
max_flows = 256

abbrev pub fastpass_request_window_size : ℕ
fastpass_request_window_size = 2 ^ 13

pub data FlowState : Type 0 where
  flow_unqueued : FlowState
  flow_request_queue : FlowState

abbrev pub is_queued : FlowState → Bool
is_queued flow_unqueued = false
is_queued flow_request_queue = true

-- `struct fp_dst`
pub record FpDst : Type 0 where
  pub demand_tslots : ℕ
  pub requested_tslots : ℕ
  pub acked_tslots : ℕ
  pub alloc_tslots : ℕ
  pub used_tslots : ℕ
  pub state : FlowState

-- A call of the functions that handle the packets of a flow, in kernel-mod/sch_timeslot.c.
pub data TsqCall : Type 0 where
  admit_head : (dst_id : ℕ) → TsqCall
  reset_ids : (dst_id : ℕ) → TsqCall

-- The counters of `struct fp_sched_stat` that are counted without emulation.
pub record SchedStat : Type 0 where
  pub admitted_timeslots : ℕ
  pub early_enqueue : ℕ
  pub late_enqueue1 : ℕ
  pub late_enqueue2 : ℕ
  pub late_enqueue3 : ℕ
  pub late_enqueue4 : ℕ
  pub req_alloc_errors : ℕ
  pub request_with_empty_flowqueue : ℕ
  pub queued_flow_already_acked : ℕ
  pub unwanted_alloc : ℕ
  pub alloc_report_larger_than_requested : ℕ
  pub timeslots_assumed_lost : ℕ

-- The totals over all flows; the atomic ones are 32-bit words.
pub record Totals : Type 0 where
  pub demand_tslots : ℕ
  pub requested_tslots : ℕ
  pub alloc_tslots : ℕ
  pub acked_tslots : ℕ
  pub used_tslots : ℕ

-- `struct fp_sched_data`; `calls` lists the calls of the packet queues, latest last.
pub record FpSchedData : Type 0 where
  pub tslot_mul : ℕ
  pub tslot_shift : ℕ
  pub unreq_flows : ℕ → ℕ
  pub unreq_dsts_head : ℕ
  pub unreq_dsts_tail : ℕ
  pub dsts : ℕ → FpDst
  pub request_pacer : FpPacer
  pub is_destroyed : Bool
  pub conn : Conn
  pub totals : Totals
  pub stat : SchedStat
  pub calls : List TsqCall

abbrev pub flow_pos : ℕ → ℕ
flow_pos counter = counter % max_flows

abbrev pub tsq_call : FpSchedData → TsqCall → FpSchedData
tsq_call q a = record q { calls = q.calls ++ (a ∷ []) }

-- `now` is what fp_monotonic_time_ns returns.
unfoldable pub trigger_tx : FpSchedData → ℕ → Bool × FpSchedData
trigger_tx q now =
    let (res, pacer) = pacer_trigger q.request_pacer now in
    (res, record q { request_pacer = pacer })

-- `get_dst` gives `q.dsts index`, and this stores it.
abbrev pub put_dst : FpSchedData → ℕ → FpDst → FpSchedData
put_dst q index dst = record q { dsts = update q.dsts index dst }

unfoldable pub unreq_dsts_enqueue_if_not_queued : FpSchedData → ℕ → ℕ → FpSchedData
unreq_dsts_enqueue_if_not_queued q dst_id now =
    let dst = q.dsts dst_id in
    let enqueued = record q {
      unreq_flows = update q.unreq_flows (flow_pos q.unreq_dsts_tail) (dst_id % 2 ^ 16);
      unreq_dsts_tail = add32 q.unreq_dsts_tail 1;
      dsts = update q.dsts dst_id (record dst { state = flow_request_queue });
    } in
    if is_queued dst.state then q else (trigger_tx enqueued now).1

-- `none` if the queue is empty.
unfoldable pub unreq_dsts_dequeue_and_get : FpSchedData → Option ℕ × FpSchedData
unreq_dsts_dequeue_and_get q =
    let dst_id = q.unreq_flows (flow_pos q.unreq_dsts_head) in
    let dequeued = record q { unreq_dsts_head = add32 q.unreq_dsts_head 1 } in
    if q.unreq_dsts_head == q.unreq_dsts_tail
    then (none, q)
    else (some dst_id, put_dst dequeued dst_id (record (q.dsts dst_id) { state = flow_unqueued }))

unfoldable pub n_unreq_dsts : FpSchedData → ℕ
n_unreq_dsts q = sub32 q.unreq_dsts_tail q.unreq_dsts_head

unfoldable pub flow_inc_used : FpSchedData → ℕ → ℕ → FpSchedData
flow_inc_used q dst_id amount =
    let dst = q.dsts dst_id in
    record (put_dst q dst_id (record dst { used_tslots = add64 dst.used_tslots amount })) {
      totals = record q.totals { used_tslots = add64 q.totals.used_tslots amount };
    }

unfoldable pub flow_inc_demand : FpSchedData → ℕ → ℕ → ℕ → FpSchedData
flow_inc_demand q dst_id amount now =
    let dst = q.dsts dst_id in
    let raised = put_dst q dst_id (record dst { demand_tslots = add64 dst.demand_tslots amount }) in
    let enqueued = unreq_dsts_enqueue_if_not_queued raised dst_id now in
    record enqueued {
      totals = record enqueued.totals {
        demand_tslots = add32 enqueued.totals.demand_tslots amount;
      };
    }

-- One more packet to send.
unfoldable pub fpq_add_timeslot : FpSchedData → ℕ → ℕ → FpSchedData
fpq_add_timeslot q dst_id now = flow_inc_demand q dst_id 1 now
