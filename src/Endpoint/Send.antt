-- ===== src/Endpoint/Send.antt =====
-- kernel-mod/sch_fastpass.c: send_request and the tasklets that run it and the timeouts.
use flexplane.Base.{
  ℕ, zero, suc, ◌+◌, ◌-◌, ◌^◌, Bool, false, not, ◌&&◌, ◌==◌, ltb, leb, if◌then◌else◌, add64, sub64,
  List, [], ◌∷◌, ◌++◌, length, Option, none, some,
}
use flexplane.Base.Checked.{Checked, ok, bug, ◌>>=◌}
use flexplane.Protocol.Platform.{time_after_eq64}
use flexplane.Protocol.Pacer.{pacer_is_triggered, pacer_next_event, pacer_reset}
use flexplane.Protocol.Conn.{AreqDesc, PktDesc, inc}
use flexplane.Protocol.Conn.Ack.{
  fpproto_prepare_to_send, fpproto_commit_packet, fpproto_handle_timeout,
}
use flexplane.Endpoint.Sched.{
  fastpass_request_window_size, FpDst, FpSchedData, trigger_tx, put_dst, unreq_dsts_dequeue_and_get,
}

abbrev pub fastpass_pkt_max_areq : ℕ
fastpass_pkt_max_areq = 10

unfoldable pub new_requested : FpDst → ℕ
new_requested dst =
    let limit = add64 dst.acked_tslots (fastpass_request_window_size - 1) in
    if ltb dst.demand_tslots limit then dst.demand_tslots else limit

-- The requests so far, and one for the flow that was dequeued, unless it is fully acked.
unfoldable pub request_flow : List AreqDesc → FpSchedData → ℕ → List AreqDesc × FpSchedData
request_flow areqs q dst_id =
    let dst = q.dsts dst_id in
    let requested = new_requested dst in
    if leb requested dst.acked_tslots
    then (
      areqs,
      record q {
        stat = record q.stat { queued_flow_already_acked = inc q.stat.queued_flow_already_acked };
      },
    )
    else (
      areqs ++ (record { src_dst_key = dst_id; tslots = requested } ∷ []),
      record (put_dst q dst_id (record dst { requested_tslots = requested })) {
        totals = record q.totals {
          requested_tslots = add64 q.totals.requested_tslots (sub64 requested dst.requested_tslots);
        };
      },
    )

-- The loop over the queue; running out of fuel is a bug.
unfoldable pub fill_areqs : ℕ → List AreqDesc → FpSchedData → Checked (List AreqDesc × FpSchedData)
fill_areqs zero areqs q = bug
fill_areqs (suc fuel) areqs q =
    let dequeued = unreq_dsts_dequeue_and_get q in
    let more : Checked (List AreqDesc × FpSchedData) = elim dequeued.0 [
      | none ↦ ok (areqs, q)
      | some dst_id ↦
          let next = request_flow areqs dequeued.1 dst_id in fill_areqs fuel next.0 next.1
    ] in
    if ltb (length areqs) fastpass_pkt_max_areq then more else ok (areqs, q)

-- One pass for each flow, and one that finds the queue empty.
abbrev pub areq_fuel : ℕ
areq_fuel = 257

-- `pd` after the loop; the rest of it is set when it is committed.
abbrev pub request_pd : List AreqDesc → PktDesc
request_pd areqs = record {
  sent_timestamp = 0;
  seqno = 0;
  ack_seq = 0;
  ack_vec = 0;
  send_reset = false;
  reset_timestamp = 0;
  areq = areqs;
  alloc_tslot = 0;
  base_tslot = 0;
  dsts = [];
  tslot_desc = [];
}

-- `(u64)(int)n`
abbrev pub sign_extend : ℕ → ℕ
sign_extend n = if ltb n (2 ^ 31) then n else n + 2 ^ 64 - 2 ^ 32

-- The trigger at the end, where something is left to request.
unfoldable pub trigger_if_unrequested : FpSchedData → ℕ → FpSchedData
trigger_if_unrequested q now =
    if q.totals.requested_tslots == sign_extend q.totals.demand_tslots
    then q
    else (trigger_tx q now).1

unfoldable pub count_empty_request : FpSchedData → List AreqDesc → FpSchedData
count_empty_request q [] = record q {
  stat = record q.stat { request_with_empty_flowqueue = inc q.stat.request_with_empty_flowqueue };
}
count_empty_request q (_ ∷ _) = q

-- The packet that is sent, if any. `allocated` is false if no packet descriptor is left.
unfoldable pub send_request : FpSchedData → Bool → ℕ → Checked (Option PktDesc × FpSchedData)
send_request q allocated now =
    let no_pd = record q {
      stat = record q.stat { req_alloc_errors = inc q.stat.req_alloc_errors };
    } in
    if not allocated
    then ok (none, (trigger_tx no_pd now).1)
    else if q.is_destroyed
    then ok (none, q)
    else (do
      prepared ← fpproto_prepare_to_send q.conn
      filled ← fill_areqs areq_fuel [] (record q { conn = prepared })
      let counted = count_empty_request filled.1 filled.0
      committed ← fpproto_commit_packet counted.conn (request_pd filled.0) now
      ok (some committed.0, trigger_if_unrequested (record counted { conn = committed.1 }) now))

unfoldable pub maintenance_tasklet_func :
    FpSchedData → Bool → ℕ → Checked (Option PktDesc × FpSchedData)
maintenance_tasklet_func q allocated now =
    if pacer_is_triggered q.request_pacer && time_after_eq64 now (pacer_next_event q.request_pacer)
    then send_request (record q { request_pacer = pacer_reset q.request_pacer }) allocated now
    else ok (none, q)

unfoldable pub retrans_tasklet_func : FpSchedData → ℕ → Checked FpSchedData
retrans_tasklet_func q now =
    if q.is_destroyed
    then ok q
    else fpproto_handle_timeout q.conn now >>= λ conn. ok (record q { conn = conn })
