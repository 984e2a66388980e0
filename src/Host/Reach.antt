-- ===== src/Host/Reach.antt =====
-- An endpoint with its packet queues: the states that its handlers lead to.
mod SameTable
use flexplane.Base.{
  ℕ, ◌+◌, ◌*◌, ◌^◌, ◌<◌, ◌≤◌, Bool, ◌≡◌, inl, inr, refl, sym, ◌∙◌, Bool-cases, List, [], ◌∷◌, ◌++◌,
  length, get_or, arith, leb, true, ap,
}
use mathlib.Core.Path.{subst}
use flexplane.Base.Checked.{ok, ok-injective}
use flexplane.Protocol.Conn.{Config, Conn, AreqDesc, PktDesc}
use flexplane.Protocol.Pacer.{FpPacer}
use flexplane.Protocol.Window.Inv as Window
use flexplane.Endpoint.Sched.{FpSchedData, SchedStat}
use flexplane.Endpoint.Report.{handle_ack, handle_neg_ack}
use flexplane.Endpoint.Send.{fill_areqs, areq_fuel}
use flexplane.Endpoint.Inv
use flexplane.Endpoint.Inv.Acks.{
  AreSent, AreKnown, handle_ack_lem, handle_neg_ack-IsValid, handle_neg_ack_pending,
}
use flexplane.Endpoint.Inv.Requests.{filled-AreFilled}
use flexplane.Endpoint.Inv.Reports.{AreReports}
use flexplane.Tsq.Packet.{SkBuff}
use flexplane.Tsq.Sched.{Kernel, TsqSchedData, TsqStat}
use flexplane.Tsq.Enqueue.{
  Class, hi, reg, data_pkt, classify_hi_prio, data_key, enqueue_class, tsq_enqueue,
}
use flexplane.Tsq.Handle.{got_skb, drop_skb, dequeue_from, tsq_dequeue}
use flexplane.Tsq.Inv.{IsKernel}
use flexplane.Tsq.Resize.{tsq_tc_resize}
use flexplane.Tsq.Inv.Resized.Moved.{IsPlaced}
use flexplane.Tsq.Inv.Resized.{tsq_tc_resize_lem}
use flexplane.Host.Step.{Host, host_alloc, host_reset, host_report, host_packet}
use flexplane.Host.Reach.SameTable.{
  same_table-IsInStep, tsq_enqueue-IsSameTable, tsq_dequeue-IsSameTable,
}
use flexplane.Host.Calls.{IsInStep}
use flexplane.Host.Allocs.{host_alloc_lem}
use flexplane.Host.Resets.{host_reset_lem}
use flexplane.Host.Packets.{host_packet_lem}
use flexplane.Host.Reports.{host_report_lem}

-- One handler that runs. Its conditions:
--   allocated: an ALLOC names destinations below 256;
--   reported: the reports are for flows below 256, their counts have 16 bits, the window of the
--     connection is valid, the hash has 32 bits, and the demands stay below 2 ^ 63;
--   received: there is memory for a flow and a timeslot (without it, the table's lock is not
--     released), and the demand of the packet's flow stays below 2 ^ 63;
--   acked: the requests of the packet were sent; lost: they are for flows below 256;
--   resized: there is memory, each flow is in its cell, and the table has at most 2 ^ 32 cells.
-- `requested` is the loop of send_request, `queued` tsq_enqueue, `sent` tsq_dequeue, and
-- `connected` what the protocol does with the connection, the pacer and the counters in the
-- meantime; these and `was_reset` have no conditions.
pub data Step (kernel : Kernel) (p : SkBuff → SkBuff) (cfg : Config) (h : Host)
    : Host → Type 0 where
  allocated :
      (h' : Host) (base_tslot : ℕ) (dst_ids : List ℕ) (n_dst : ℕ) (tslots : List ℕ)
      (now_real now : ℕ)
      → ((i : ℕ) → get_or dst_ids i 0 < 256)
      → host_alloc kernel p h base_tslot dst_ids n_dst tslots now_real now ≡ ok h'
      → Step kernel p cfg h h'
  was_reset :
      (h' : Host) (base_idx now : ℕ)
      → host_reset kernel p h base_idx now ≡ ok h'
      → Step kernel p cfg h h'
  reported :
      (h' : Host) (reports : List ℕ) (base_idx now_real now : ℕ)
      → Window.IsValid h.fp.conn.outwnd
      → base_idx < 2 ^ 32
      → AreReports reports
      → ((k : ℕ) → k < 256 → (h.fp.dsts k).demand_tslots + length reports * 2 ^ 15 < 2 ^ 63)
      → host_report kernel p cfg h reports base_idx now_real now ≡ ok h'
      → Step kernel p cfg h h'
  received :
      (h' : Host) (skb : SkBuff) (now : ℕ)
      → (h.fp.dsts (data_key skb)).demand_tslots + 1 < 2 ^ 63
      → host_packet kernel h skb now ≡ ok h'
      → Step kernel p cfg h h'
  requested :
      (r : List AreqDesc × FpSchedData)
      → fill_areqs areq_fuel [] h.fp ≡ ok r
      → Step kernel p cfg h (record h { fp = r.1 })
  acked :
      (fp' : FpSchedData) (pd : PktDesc) (now : ℕ)
      → AreSent h.fp.dsts pd.areq
      → handle_ack h.fp pd now ≡ ok fp'
      → Step kernel p cfg h (record h { fp = fp' })
  lost :
      (pd : PktDesc) (now : ℕ)
      → AreKnown pd.areq
      → Step kernel p cfg h (record h { fp = handle_neg_ack h.fp pd now })
  queued : (skb : SkBuff) → Step kernel p cfg h (record h { tsq = (tsq_enqueue skb h.tsq).1 })
  sent : Step kernel p cfg h (record h { tsq = (tsq_dequeue h.tsq).1 })
  resized :
      (q' : TsqSchedData) (log : ℕ)
      → IsPlaced kernel h.tsq.hash_tbl_log h.tsq.dst_hash_tbl
      → h.tsq.hash_tbl_log ≤ 32
      → tsq_tc_resize kernel h.tsq true log true ≡ ok (true, q')
      → Step kernel p cfg h (record h { tsq = q' })
  connected :
      (conn : Conn) (pacer : FpPacer) (stat : SchedStat)
      → Step kernel p cfg h
          (record h { fp = record h.fp { conn = conn; request_pacer = pacer; stat = stat } })

-- Any number of handlers, each under the conditions of `Step`.
pub data Steps (kernel : Kernel) (p : SkBuff → SkBuff) (cfg : Config) (h : Host)
    : Host → Type 0 where
  here : Steps kernel p cfg h h
  then_step :
      {h' h'' : Host}
      → Steps kernel p cfg h h'
      → Step kernel p cfg h' h''
      → Steps kernel p cfg h h''

-- The endpoint changes no demand and no used timeslot.
endpoint-IsInStep :
    (kernel : Kernel) (fp fp' : FpSchedData) (q : TsqSchedData)
    → IsInStep kernel fp q
    → Inv.IsValid fp'
    → ((k : ℕ)
        → ((fp'.dsts k).demand_tslots ≡ (fp.dsts k).demand_tslots)
          × ((fp'.dsts k).used_tslots ≡ (fp.dsts k).used_tslots))
    → IsInStep kernel fp' q
endpoint-IsInStep kernel fp fp' q s valid same = record {
  endpoint = valid;
  queues = s.queues;
  pending = λ k lt. omega (arith, s.pending k lt, same k);
}

-- Every handler that runs keeps the two sides in agreement.
Step-IsInStep :
    (kernel : Kernel) (p : SkBuff → SkBuff) (cfg : Config) (h h' : Host)
    → IsKernel kernel
    → IsInStep kernel h.fp h.tsq
    → Step kernel p cfg h h'
    → IsInStep kernel h'.fp h'.tsq
Step-IsInStep kernel p cfg h _ ok_kernel s
      (allocated h' base_tslot dst_ids n_dst tslots now_real now known done) =
    let (r, done', served) =
      host_alloc_lem kernel p h base_tslot dst_ids n_dst tslots now_real now s known in
    subst (λ (x : Host). IsInStep kernel x.fp x.tsq) (ok-injective (sym done' ∙ done))
      served.in_step
Step-IsInStep kernel p cfg h _ ok_kernel s (was_reset h' base_idx now done) =
    let (r, done', held) = host_reset_lem kernel p h base_idx now s in
    subst (λ (x : Host). IsInStep kernel x.fp x.tsq) (ok-injective (sym done' ∙ done)) held.in_step
Step-IsInStep kernel p cfg h _ ok_kernel s
      (reported h' reports base_idx now_real now w hb known room done) =
    let (r, done', held) =
      host_report_lem kernel p cfg h reports base_idx now_real now s w hb known room in
    subst (λ (x : Host). IsInStep kernel x.fp x.tsq) (ok-injective (sym done' ∙ done)) held.in_step
Step-IsInStep kernel p cfg h _ ok_kernel s (received h' skb now fits done) =
    let (r, done', in_order) = host_packet_lem kernel h skb now ok_kernel s fits in
    subst (λ (x : Host). IsInStep kernel x.fp x.tsq) (ok-injective (sym done' ∙ done))
      in_order.in_step
Step-IsInStep kernel p cfg h _ ok_kernel s (requested r done) =
    let f = filled-AreFilled h.fp r s.endpoint done in
    endpoint-IsInStep kernel h.fp r.1 h.tsq s f.valid
      (λ k. ((f.counters k).demand, (f.counters k).used))
Step-IsInStep kernel p cfg h _ ok_kernel s (acked fp' pd now were_sent done) =
    let (r, done', v, a) = handle_ack_lem h.fp pd now s.endpoint were_sent in
    subst (λ fp. IsInStep kernel fp h.tsq) (ok-injective (sym done' ∙ done))
      (endpoint-IsInStep kernel h.fp r h.tsq s v (λ k. ((a k).demand, (a k).used)))
Step-IsInStep kernel p cfg h _ ok_kernel s (lost pd now known) =
    endpoint-IsInStep kernel h.fp (handle_neg_ack h.fp pd now) h.tsq s
      (handle_neg_ack-IsValid h.fp pd now s.endpoint known)
      (handle_neg_ack_pending h.fp pd now s.endpoint known)
Step-IsInStep kernel p cfg h _ ok_kernel s (queued skb) =
    same_table-IsInStep kernel h.fp h.tsq (tsq_enqueue skb h.tsq).1 s
      (tsq_enqueue-IsSameTable skb h.tsq)
Step-IsInStep kernel p cfg h _ ok_kernel s sent =
    same_table-IsInStep kernel h.fp h.tsq (tsq_dequeue h.tsq).1 s (tsq_dequeue-IsSameTable h.tsq)
Step-IsInStep kernel p cfg h _ ok_kernel s (resized q' log placed le done) =
    let (r, done', is) = tsq_tc_resize_lem kernel h.tsq log ok_kernel s.queues placed le in
    let same : r ≡ q' = ap (λ (x : Bool × TsqSchedData). x.1) (ok-injective (sym done' ∙ done)) in
    subst (λ q. IsInStep kernel h.fp q) same
      (record {
        endpoint = s.endpoint;
        queues = is.valid;
        pending = λ k lt. omega (arith, s.pending k lt, ap length (is.same_slots k));
      })
Step-IsInStep kernel p cfg h _ ok_kernel s (connected conn pacer stat) = record {
  endpoint = s.endpoint;
  queues = s.queues;
  pending = s.pending;
}

-- Where sending takes some time but less than 2 ^ 62 ns, and rebalancing a tree keeps its order and
-- its keys: from a state in which an endpoint and its packet queues are valid and agree on what is
-- pending, any sequence of handlers that run under the conditions of `Step` leads to such a state.
-- The conditions are that packets come with memory for their flow and timeslot and a demand below
-- 2 ^ 63; that ALLOCs, reports and lost requests name flows below 256, and reports come with a
-- valid window, a 32-bit hash, 16-bit counts and demands below 2 ^ 63; that ACKs are of requests
-- that were sent; and that a table is resized with memory, with each flow in its cell, and from at
-- most 2 ^ 32 cells.
pub Steps-IsInStep :
    (kernel : Kernel) (p : SkBuff → SkBuff) (cfg : Config) (h h' : Host)
    → IsKernel kernel
    → IsInStep kernel h.fp h.tsq
    → Steps kernel p cfg h h'
    → IsInStep kernel h'.fp h'.tsq
Steps-IsInStep kernel p cfg h h' ok_kernel s here = s
Steps-IsInStep kernel p cfg h h' ok_kernel s (then_step {h' = h1} before step) =
    Step-IsInStep kernel p cfg h1 h' ok_kernel (Steps-IsInStep kernel p cfg h h1 ok_kernel s before)
      step
