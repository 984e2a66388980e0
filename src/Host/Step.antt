-- ===== src/Host/Step.antt =====
-- An endpoint with its packet queues: the handlers of kernel-mod/sch_fastpass.c with the calls of
-- kernel-mod/sch_timeslot.c that they make, in order. The packet queues do not call back from
-- these calls, so they run after the handler.
use flexplane.Base.{ℕ, true, List, [], ◌∷◌}
use flexplane.Base.Checked.{Checked, ok, ◌>>=◌}
use flexplane.Protocol.Conn.{Config}
use flexplane.Endpoint.Sched.{TsqCall, admit_head, reset_ids, FpSchedData, fpq_add_timeslot}
use flexplane.Endpoint.Alloc.{handle_alloc, handle_reset}
use flexplane.Endpoint.Report.{handle_areq}
use flexplane.Tsq.Packet.{SkBuff}
use flexplane.Tsq.Sched.{Kernel, TsqSchedData}
use flexplane.Tsq.Enqueue.{enqueue_single_skb}
use flexplane.Tsq.Handle
use flexplane.Tsq.Handle.{tsq_handle_now, tsq_reset_ids}

-- The calls are those that the last handler made.
pub record Host : Type 0 where
  pub fp : FpSchedData
  pub tsq : TsqSchedData

unfoldable pub run_call : Kernel → (SkBuff → SkBuff) → TsqSchedData → TsqCall → Checked TsqSchedData
run_call kernel prepare_to_send q (admit_head dst_id) =
    tsq_handle_now kernel prepare_to_send q dst_id Handle.admit_head 0 >>= λ r. ok r.1
run_call kernel prepare_to_send q (reset_ids dst_id) = tsq_reset_ids kernel q dst_id

unfoldable pub run_calls :
    Kernel → (SkBuff → SkBuff) → List TsqCall → TsqSchedData → Checked TsqSchedData
run_calls kernel prepare_to_send [] q = ok q
run_calls kernel prepare_to_send (c ∷ cs) q =
    run_call kernel prepare_to_send q c >>= λ q'. run_calls kernel prepare_to_send cs q'

-- The host after a handler of the endpoint.
unfoldable pub settle : Kernel → (SkBuff → SkBuff) → FpSchedData → TsqSchedData → Checked Host
settle kernel prepare_to_send fp tsq =
    run_calls kernel prepare_to_send fp.calls tsq >>= λ tsq'. ok (record { fp = fp; tsq = tsq' })

abbrev pub no_calls : FpSchedData → FpSchedData
no_calls fp = record fp { calls = [] }

unfoldable pub host_alloc :
    Kernel → (SkBuff → SkBuff) → Host → ℕ → List ℕ → ℕ → List ℕ → ℕ → ℕ → Checked Host
host_alloc kernel prepare_to_send h base_tslot dst_ids n_dst tslots now_real now =
    settle kernel prepare_to_send
      (handle_alloc (no_calls h.fp) base_tslot dst_ids n_dst tslots now_real now) h.tsq

unfoldable pub host_reset : Kernel → (SkBuff → SkBuff) → Host → ℕ → ℕ → Checked Host
host_reset kernel prepare_to_send h base_idx now =
    settle kernel prepare_to_send (handle_reset (no_calls h.fp) base_idx now) h.tsq

unfoldable pub host_report :
    Kernel → (SkBuff → SkBuff) → Config → Host → List ℕ → ℕ → ℕ → ℕ → Checked Host
host_report kernel prepare_to_send cfg h dst_and_count base_idx now_real now =
    handle_areq cfg (no_calls h.fp) dst_and_count base_idx now_real now >>= λ fp.
    settle kernel prepare_to_send fp h.tsq

-- fpq_add_timeslot for each timeslot that was announced.
unfoldable pub add_timeslots : List ℕ → FpSchedData → ℕ → FpSchedData
add_timeslots [] fp now = fp
add_timeslots (key ∷ keys) fp now = add_timeslots keys (fpq_add_timeslot fp key now) now

-- A data packet comes, with memory for it.
unfoldable pub host_packet : Kernel → Host → SkBuff → ℕ → Checked Host
host_packet kernel h skb now =
    enqueue_single_skb kernel (record h.tsq { added = [] }) skb true true >>= λ tsq.
    ok (record { fp = add_timeslots tsq.added h.fp now; tsq = tsq })
