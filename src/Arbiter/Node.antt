-- ===== src/Arbiter/Node.antt =====
-- arbiter/comm_core.c: the state of an end node, its queue of reports, and the handlers that the
-- connection calls. The clock is read once for each handler, and logs are left out.
use flexplane.Base.{
  ℕ, ◌-◌, ◌^◌, Bool, true, false, not, ◌&&◌, ◌==◌, ltb, if◌then◌else◌, add32, sub32, u16, bit_and,
  List, [], ◌∷◌, ◌++◌,
}
use flexplane.Base.Checked.{Checked, ok, bug_on, ◌>>=◌, ◌>>◌}
use flexplane.Base.Table.{update}
use flexplane.Protocol.Pacer.{FpPacer, pacer_trigger, pacer_next_event}
use flexplane.Protocol.Conn.{Conn, AreqDesc, PktDesc}
use flexplane.GraphAlgo.Seq.Demand.{Status, seq_add_backlog, seq_reset_sender}

-- NUM_NODES of protocol/topology.h
abbrev pub num_nodes : ℕ
num_nodes = 64

abbrev pub alloc_report_queue_size : ℕ
alloc_report_queue_size = 2 ^ 9

-- `struct pending_alloc`
pub record PendingAlloc : Type 0 where
  pub dst : ℕ
  pub timeslot : ℕ
  pub flags : ℕ

-- `struct pending_alloc_queue`
pub record PendingAllocQueue : Type 0 where
  pub allocs : ℕ → PendingAlloc
  pub head : ℕ
  pub tail : ℕ

-- `struct alloc_report_queue`; `is_pending` is 1 for true.
pub record AllocReportQueue : Type 0 where
  pub is_pending : ℕ → Bool
  pub q_pending : ℕ → ℕ
  pub head : ℕ
  pub tail : ℕ

-- `struct end_node_state` without addresses and the timer of the connection; `tx_timer` lists the
-- times that fp_timer_reset was called with for the egress timer, latest last.
pub record EndNode : Type 0 where
  pub conn : Conn
  pub pending_allocs : PendingAllocQueue
  pub demands : ℕ → ℕ
  pub alloc_to_dst : ℕ → ℕ
  pub acked_allocs : ℕ → ℕ
  pub report_queue : AllocReportQueue
  pub tx_pacer : FpPacer
  pub tx_timer : List ℕ

abbrev pub report_pos : ℕ → ℕ
report_pos counter = bit_and counter (alloc_report_queue_size - 1)

-- `now` is what rte_get_timer_cycles returns.
unfoldable pub trigger_request : EndNode → ℕ → EndNode
trigger_request en now =
    let (fired, pacer) = pacer_trigger en.tx_pacer now in
    if fired
    then record en { tx_pacer = pacer; tx_timer = en.tx_timer ++ (pacer_next_event pacer ∷ []) }
    else en

unfoldable pub trigger_report : EndNode → ℕ → ℕ → EndNode
trigger_report en dst now =
    let q = en.report_queue in
    let queued : AllocReportQueue = record q {
      is_pending = update q.is_pending dst true;
      q_pending = update q.q_pending (report_pos q.tail) dst;
      tail = add32 q.tail 1;
    } in
    if q.is_pending dst then en else trigger_request (record en { report_queue = queued }) now

unfoldable pub report_empty : AllocReportQueue → Bool
report_empty q = q.head == q.tail

unfoldable pub report_pop : AllocReportQueue → Checked (ℕ × AllocReportQueue)
report_pop q = do
  bug_on (report_empty q)
  let node = q.q_pending (report_pos q.head)
  bug_on (not (q.is_pending node))
  ok (node, record q { is_pending = update q.is_pending node false; head = add32 q.head 1 })

-- `(int32_t)a - (int32_t)b > 0`
abbrev pub after32 : ℕ → ℕ → Bool
after32 a b = ltb 0 (sub32 a b) && ltb (sub32 a b) (2 ^ 31)

-- The demand that has the given 16 low bits, from 2 ^ 15 before the old one on.
unfoldable pub full_demand : ℕ → ℕ → ℕ
full_demand orig_demand count =
    let demand = sub32 orig_demand (2 ^ 15) in add32 demand (bit_and (sub32 count demand) 0xFFFF)

-- One request of an end node.
unfoldable pub request_flow : Status → EndNode → ℕ → ℕ → ℕ → Checked (Status × EndNode)
request_flow status en node_id dst count =
    let orig_demand = en.demands dst in
    let demand = full_demand orig_demand count in
    if after32 demand orig_demand
    then (do
      raised ← seq_add_backlog status node_id dst (sub32 demand orig_demand)
      ok (raised, record en { demands = update en.demands dst demand }))
    else ok (status, en)

-- The loop over the requests; the result says whether it came to its end. The list has a
-- destination and the 16 low bits of its demand for each.
unfoldable pub request_flows : List ℕ → Status → EndNode → ℕ → Checked (Bool × Status × EndNode)
request_flows [] status en node_id = ok (true, status, en)
request_flows (dst ∷ []) status en node_id = ok (true, status, en)
request_flows (dst ∷ count ∷ rest) status en node_id =
    if ltb node_id num_nodes && ltb dst num_nodes
    then (request_flow status en node_id dst count >>= λ r. request_flows rest r.0 r.1 node_id)
    else ok (false, status, en)

unfoldable pub handle_areq : Status → EndNode → ℕ → List ℕ → ℕ → Checked (Status × EndNode)
handle_areq status en node_id dst_and_count now = do
  r ← request_flows dst_and_count status en node_id
  ok (r.1, if r.0 then trigger_request r.2 now else r.2)

unfoldable pub handle_reset : Status → EndNode → ℕ → Status × EndNode
handle_reset status en node_id = (
  seq_reset_sender status node_id,
  record en {
    demands = λ i. 0;
    alloc_to_dst = λ i. 0;
    acked_allocs = λ i. 0;
    report_queue = record en.report_queue { head = 0; tail = 0; is_pending = λ i. false };
  },
)

unfoldable pub nack_reports : List AreqDesc → EndNode → ℕ → EndNode
nack_reports [] en now = en
nack_reports (areq ∷ rest) en now =
    let dst = u16 areq.src_dst_key in
    nack_reports rest
      (if after32 areq.tslots (en.acked_allocs dst) then trigger_report en dst now else en) now

unfoldable pub handle_neg_ack : EndNode → PktDesc → ℕ → EndNode
handle_neg_ack en pd now = nack_reports pd.areq en now

unfoldable pub ack_reports : List AreqDesc → EndNode → EndNode
ack_reports [] en = en
ack_reports (areq ∷ rest) en =
    let dst = u16 areq.src_dst_key in
    let acked = en.acked_allocs dst in
    let newer = record en {
      acked_allocs = update en.acked_allocs dst (add32 acked (sub32 areq.tslots acked));
    } in
    ack_reports rest (if after32 areq.tslots acked then newer else en)

unfoldable pub handle_ack : EndNode → PktDesc → EndNode
handle_ack en pd = ack_reports pd.areq en
