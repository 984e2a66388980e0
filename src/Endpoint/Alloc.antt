-- ===== src/Endpoint/Alloc.antt =====
-- kernel-mod/sch_fastpass.c: resets of all flows, and allocations that come from the arbiter.
use flexplane.Base.{
  ℕ, zero, suc, ◌-◌, ◌*◌, ◌/◌, ◌^◌, ◌==◌, ltb, if◌then◌else◌, add64, sub64, add32, sub32, u32, u64,
  shr64, bit_and, List, [], ◌∷◌, get_or,
}
use flexplane.Protocol.Conn.{inc}
use flexplane.Endpoint.Sched.{
  max_flows, FpDst, admit_head, reset_ids, FpSchedData, SchedStat, tsq_call, trigger_tx, put_dst,
  unreq_dsts_enqueue_if_not_queued, flow_inc_used,
}

-- The counters of a flow with timeslots pending, counted from 0.
unfoldable pub rebased : FpDst → FpDst
rebased dst = record dst {
  demand_tslots = sub64 dst.demand_tslots dst.used_tslots;
  alloc_tslots = 0;
  acked_tslots = 0;
  requested_tslots = 0;
  used_tslots = 0;
}

unfoldable pub reset_flow : FpSchedData → ℕ → ℕ → FpSchedData
reset_flow q dst_id now =
    let dst = q.dsts dst_id in
    let counted = record (put_dst q dst_id (rebased dst)) {
      totals = record q.totals {
        demand_tslots = add32 q.totals.demand_tslots (rebased dst).demand_tslots;
      };
    } in
    if dst.demand_tslots == dst.used_tslots
    then q
    else tsq_call (unreq_dsts_enqueue_if_not_queued counted dst_id now) (reset_ids dst_id)

-- The last `n` rounds of the loop over the flows.
unfoldable pub reset_flows : ℕ → FpSchedData → ℕ → ℕ → FpSchedData
reset_flows zero q base_idx now = q
reset_flows (suc n) q base_idx now =
    reset_flows n (reset_flow q (bit_and (add32 (max_flows - suc n) base_idx) (max_flows - 1)) now)
      base_idx now

-- `base_idx` is the hash of the time, cut to a flow.
unfoldable pub handle_reset : FpSchedData → ℕ → ℕ → FpSchedData
handle_reset q base_idx now =
    reset_flows max_flows
      (record q {
        totals = record {
          demand_tslots = 0;
          requested_tslots = 0;
          alloc_tslots = 0;
          acked_tslots = 0;
          used_tslots = 0;
        };
      })
      base_idx now

abbrev pub miss_threshold : ℕ
miss_threshold = 16

-- The result 1 is left out.
unfoldable pub handle_single_alloc : FpSchedData → ℕ → FpSchedData
handle_single_alloc q dst_id = record (tsq_call q (admit_head dst_id)) {
  stat = record q.stat { admitted_timeslots = inc q.stat.admitted_timeslots };
}

-- The counter for an allocation so early or late.
unfoldable pub count_lateness : SchedStat → ℕ → ℕ → SchedStat
count_lateness stat full_tslot current_timeslot =
    if ltb current_timeslot full_tslot
    then record stat { early_enqueue = inc stat.early_enqueue }
    else if ltb full_tslot (sub64 current_timeslot (miss_threshold / 2))
    then if ltb full_tslot (sub64 current_timeslot (3 * (miss_threshold / 4)))
      then record stat { late_enqueue4 = inc stat.late_enqueue4 }
      else record stat { late_enqueue3 = inc stat.late_enqueue3 }
    else if ltb full_tslot (sub64 current_timeslot (miss_threshold / 4))
    then record stat { late_enqueue2 = inc stat.late_enqueue2 }
    else record stat { late_enqueue1 = inc stat.late_enqueue1 }

-- One timeslot for the flow.
unfoldable pub admit_timeslot : FpSchedData → ℕ → ℕ → ℕ → FpSchedData
admit_timeslot q dst_id full_tslot current_timeslot =
    let used = flow_inc_used q dst_id 1 in
    let dst = used.dsts dst_id in
    let allocated = put_dst used dst_id (record dst { alloc_tslots = add64 dst.alloc_tslots 1 }) in
    let handled = handle_single_alloc allocated dst_id in
    let counted = record handled {
      totals = record handled.totals { alloc_tslots = add32 handled.totals.alloc_tslots 1 };
      stat = count_lateness handled.stat full_tslot current_timeslot;
    } in
    if (q.dsts dst_id).used_tslots == (q.dsts dst_id).demand_tslots
    then record q { stat = record q.stat { unwanted_alloc = inc q.stat.unwanted_alloc } }
    else counted

-- The loop over the timeslots. An index of no destination ends it.
unfoldable pub admit_timeslots : List ℕ → FpSchedData → List ℕ → ℕ → ℕ → ℕ → FpSchedData
admit_timeslots [] q dst_ids n_dst full_tslot current_timeslot = q
admit_timeslots (spec ∷ tslots) q dst_ids n_dst full_tslot current_timeslot =
    let dst_id_idx = spec / 16 in
    let admitted =
      admit_timeslots tslots
        (if dst_id_idx == 0
          then q
          else admit_timeslot q (get_or dst_ids (dst_id_idx - 1) 0) full_tslot current_timeslot)
        dst_ids n_dst full_tslot current_timeslot in
    if ltb n_dst dst_id_idx then q else admitted

-- The timeslot nearest to the current one with the given 20 low bits.
unfoldable pub full_tslot_of : ℕ → ℕ → ℕ
full_tslot_of current_timeslot base_tslot =
    let full_tslot = sub64 current_timeslot (2 ^ 18) in
    add64 full_tslot (bit_and (sub32 base_tslot (u32 full_tslot)) 0xFFFFF)

-- `now_real` is what fp_get_time_ns returns.
unfoldable pub handle_alloc : FpSchedData → ℕ → List ℕ → ℕ → List ℕ → ℕ → ℕ → FpSchedData
handle_alloc q base_tslot dst_ids n_dst tslots now_real now =
    let current_timeslot = shr64 (u64 (now_real * q.tslot_mul)) q.tslot_shift in
    admit_timeslots tslots (trigger_tx q now).1 dst_ids n_dst
      (full_tslot_of current_timeslot base_tslot) current_timeslot
