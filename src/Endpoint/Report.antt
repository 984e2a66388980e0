-- ===== src/Endpoint/Report.antt =====
-- kernel-mod/sch_fastpass.c: the arbiter's reports of what it allocated, and the ACKs and negative
-- ACKs of requests.
use flexplane.Base.{
  ℕ, ◌^◌, Bool, true, false, ◌&&◌, ◌==◌, ltb, leb, if◌then◌else◌, add64, sub64, add32, sub16, u16,
  List, [], ◌∷◌,
}
use flexplane.Base.Checked.{Checked, ok, bug_on, ◌>>=◌, ◌>>◌}
use flexplane.Protocol.Conn.{Config, AreqDesc, PktDesc, inc}
use flexplane.Protocol.Conn.Reset.{fpproto_force_reset}
use flexplane.Endpoint.Sched.{
  FpSchedData, trigger_tx, put_dst, unreq_dsts_enqueue_if_not_queued, flow_inc_used,
  flow_inc_demand,
}
use flexplane.Endpoint.Alloc.{handle_reset}

-- `(s64)(a - b) > 0`
abbrev pub after64 : ℕ → ℕ → Bool
after64 a b = ltb 0 (sub64 a b) && ltb (sub64 a b) (2 ^ 63)

-- The count that has the given 16 low bits, from 2 ^ 15 before the number of allocations on.
unfoldable pub full_count : ℕ → ℕ → ℕ
full_count alloc_tslots count_low =
    let count = sub64 alloc_tslots (2 ^ 15) in add64 count (sub16 count_low (u16 count))

-- Timeslots that were allocated but did not arrive are requested again.
unfoldable pub assume_lost : FpSchedData → ℕ → ℕ → ℕ → FpSchedData
assume_lost q dst_id n_lost now =
    let dst = q.dsts dst_id in
    let allocated =
      put_dst q dst_id (record dst { alloc_tslots = add64 dst.alloc_tslots n_lost }) in
    let raised = flow_inc_demand (flow_inc_used allocated dst_id n_lost) dst_id n_lost now in
    record raised {
      totals = record raised.totals { alloc_tslots = add32 raised.totals.alloc_tslots n_lost };
      stat = record raised.stat {
        timeslots_assumed_lost = add64 raised.stat.timeslots_assumed_lost n_lost;
      };
    }

-- One report, and whether the handler returns after it: a report of more timeslots than were
-- requested forces a reset. `base_idx` and `now_real` are for that reset.
unfoldable pub report_flow : Config → FpSchedData → ℕ → ℕ → ℕ → ℕ → ℕ → Checked (Bool × FpSchedData)
report_flow cfg q dst_id count_low base_idx now_real now =
    let dst = q.dsts dst_id in
    let count = full_count dst.alloc_tslots count_low in
    if after64 count dst.alloc_tslots
    then if after64 count dst.requested_tslots
      then (do
        conn ← fpproto_force_reset cfg q.conn now_real
        let reset = record q {
          conn = conn;
          stat = record q.stat {
            alloc_report_larger_than_requested = inc q.stat.alloc_report_larger_than_requested;
          };
        }
        ok (true, handle_reset reset base_idx now))
      else ok (false, assume_lost q dst_id (sub64 count dst.alloc_tslots) now)
    else ok (false, q)

-- The list has the flow and the 16 low bits of its count for each report.
unfoldable pub report_flows : List ℕ → Config → FpSchedData → ℕ → ℕ → ℕ → Checked FpSchedData
report_flows [] cfg q base_idx now_real now = ok q
report_flows (dst_id ∷ []) cfg q base_idx now_real now = ok q
report_flows (dst_id ∷ count_low ∷ rest) cfg q base_idx now_real now =
    report_flow cfg q dst_id count_low base_idx now_real now >>= λ r.
    if r.0 then ok r.1 else report_flows rest cfg r.1 base_idx now_real now

unfoldable pub handle_areq : Config → FpSchedData → List ℕ → ℕ → ℕ → ℕ → Checked FpSchedData
handle_areq cfg q dst_and_count base_idx now_real now =
    report_flows dst_and_count cfg (trigger_tx q now).1 base_idx now_real now

-- The ACK of one request.
unfoldable pub ack_flow : FpSchedData → AreqDesc → ℕ → Checked FpSchedData
ack_flow q areq now =
    let dst_id = areq.src_dst_key in
    let dst = q.dsts dst_id in
    let acked = record (put_dst q dst_id (record dst { acked_tslots = areq.tslots })) {
      totals = record q.totals {
        acked_tslots = add64 q.totals.acked_tslots (sub64 areq.tslots dst.acked_tslots);
      };
    } in
    if ltb dst.acked_tslots areq.tslots
    then bug_on (ltb dst.demand_tslots areq.tslots)
      >> ok (
          if dst.requested_tslots == dst.demand_tslots
          then acked
          else unreq_dsts_enqueue_if_not_queued acked dst_id now)
    else ok q

unfoldable pub ack_flows : List AreqDesc → FpSchedData → ℕ → Checked FpSchedData
ack_flows [] q now = ok q
ack_flows (areq ∷ rest) q now = ack_flow q areq now >>= λ q'. ack_flows rest q' now

unfoldable pub handle_ack : FpSchedData → PktDesc → ℕ → Checked FpSchedData
handle_ack q pd now = ack_flows pd.areq q now

unfoldable pub nack_flow : FpSchedData → AreqDesc → ℕ → FpSchedData
nack_flow q areq now =
    if leb areq.tslots (q.dsts areq.src_dst_key).acked_tslots
    then q
    else unreq_dsts_enqueue_if_not_queued q areq.src_dst_key now

unfoldable pub nack_flows : List AreqDesc → FpSchedData → ℕ → FpSchedData
nack_flows [] q now = q
nack_flows (areq ∷ rest) q now = nack_flows rest (nack_flow q areq now) now

unfoldable pub handle_neg_ack : FpSchedData → PktDesc → ℕ → FpSchedData
handle_neg_ack q pd now = nack_flows pd.areq q now
