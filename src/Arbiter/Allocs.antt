-- ===== src/Arbiter/Allocs.antt =====
-- arbiter/comm_core.c: the allocations of a batch, put into the queues of their sources, and the
-- allocations and reports that fill a packet.
use flexplane.Base.{
  ℕ, zero, suc, ◌+◌, ◌-◌, ◌*◌, ◌/◌, ◌^◌, not, ◌&&◌, ◌==◌, leb, if◌then◌else◌, add32, sub32, add64,
  u8, bit_and, bit_or, List, [], ◌∷◌, ◌++◌, length, Option, none, some,
}
use flexplane.Base.Checked.{Checked, ok, bug_on, ◌>>=◌, ◌>>◌}
use flexplane.Base.Table.{update}
use flexplane.GraphAlgo.Admitted.{AdmittedEdge, AdmittedTraffic}
use flexplane.Protocol.Pacer.{pacer_reset}
use flexplane.Protocol.Window.{wnd_pos}
use flexplane.Protocol.Conn.{AreqDesc, PktDesc}
use flexplane.Protocol.Conn.Ack.{fpproto_prepare_to_send, fpproto_commit_packet}
use flexplane.Arbiter.Node.{
  PendingAlloc, PendingAllocQueue, EndNode, trigger_request, trigger_report, report_empty,
  report_pop,
}

-- graph-algo/path_selection.h, for the pipelined allocator
abbrev dst_mask : ℕ
dst_mask = 0x3FFF

abbrev path_mask : ℕ
path_mask = 0xC000

abbrev path_shift : ℕ
path_shift = 14

-- protocol/flags.h
abbrev pub flags_mask : ℕ
flags_mask = 0xF

-- `struct comm_core_state` without its timers
pub record CommCore : Type 0 where
  pub alloc_enc_space : ℕ → ℕ
  pub latest_timeslot : ℕ → ℕ

-- Source, destination and flags.
unfoldable pub get_admitted_fields : AdmittedEdge → ℕ × ℕ × ℕ
get_admitted_fields edge =
    (edge.src, bit_and edge.dst dst_mask, bit_and edge.dst path_mask / 2 ^ path_shift)

-- The queue with its oldest entry thrown away if the test for a full queue holds.
unfoldable pub make_room : PendingAllocQueue → PendingAllocQueue
make_room q = if q.head == add32 q.tail 1 then record q { head = add32 q.head 1 } else q

unfoldable pub push_alloc : PendingAllocQueue → PendingAlloc → PendingAllocQueue
push_alloc q alloc = record q {
  allocs = update q.allocs (wnd_pos q.tail) alloc;
  tail = add32 q.tail 1;
}

-- One allocation for an end node.
unfoldable pub allocate_to : EndNode → ℕ → ℕ → ℕ → ℕ → EndNode
allocate_to en dst flags current_timeslot now =
    let alloc : PendingAlloc = record {
      dst = dst;
      timeslot = bit_and (current_timeslot / 2 ^ 4) 0xFFFF;
      flags = bit_and flags flags_mask;
    } in
    trigger_report
      (record en {
        pending_allocs = push_alloc (make_room en.pending_allocs) alloc;
        alloc_to_dst = update en.alloc_to_dst dst (add32 (en.alloc_to_dst dst) 1);
      })
      dst now

unfoldable pub process_edges : List AdmittedEdge → (ℕ → EndNode) → ℕ → ℕ → ℕ → EndNode
process_edges [] end_nodes current_timeslot now = end_nodes
process_edges (edge ∷ edges) end_nodes current_timeslot now =
    let (src, dst, flags) = get_admitted_fields edge in
    process_edges edges
      (update end_nodes src (allocate_to (end_nodes src) dst flags current_timeslot now))
      current_timeslot now

-- The admitted traffic that was dequeued, one timeslot after the other.
unfoldable pub process_allocated_traffic_one_q :
    List AdmittedTraffic → CommCore → (ℕ → EndNode) → ℕ → CommCore × (ℕ → EndNode)
process_allocated_traffic_one_q [] core end_nodes now = (core, end_nodes)
process_allocated_traffic_one_q (admitted ∷ rest) core end_nodes now =
    let current_timeslot = add64 (core.latest_timeslot admitted.partition) 1 in
    process_allocated_traffic_one_q rest
      (record core {
        latest_timeslot = update core.latest_timeslot admitted.partition current_timeslot;
      })
      (process_edges admitted.edges end_nodes current_timeslot now) now

-- The loop of fill_packet_report, while the packet has room for more reports.
unfoldable pub fill_reports : ℕ → List AreqDesc → EndNode → Checked (List AreqDesc × EndNode)
fill_reports zero areqs en = ok (areqs, en)
fill_reports (suc room) areqs en =
    let pending_q = en.pending_allocs in
    let unsent_allocs = sub32 pending_q.tail pending_q.head in
    let more = do
      popped ← report_pop en.report_queue
      let node = popped.0
      let report : AreqDesc = record {
        src_dst_key = node;
        tslots = sub32 (en.alloc_to_dst node) unsent_allocs;
      }
      fill_reports room (areqs ++ (report ∷ [])) (record en { report_queue = popped.1 })
    in if report_empty en.report_queue then ok (areqs, en) else more

abbrev fastpass_pkt_max_areq : ℕ
fastpass_pkt_max_areq = 10

unfoldable pub fill_packet_report : PktDesc → EndNode → ℕ → Checked (PktDesc × EndNode)
fill_packet_report pd en now = do
  filled ← fill_reports fastpass_pkt_max_areq [] en
  ok (
    record pd { areq = filled.0 },
    if report_empty filled.1.report_queue then filled.1 else trigger_request filled.1 now,
  )

abbrev pub fastpass_pkt_max_alloc_tslots : ℕ
fastpass_pkt_max_alloc_tslots = 64

-- What the loop of fill_packet_alloc works on.
pub record AllocFill : Type 0 where
  pub dsts : List ℕ
  pub tslot_desc : List ℕ
  pub alloc_enc_space : ℕ → ℕ
  pub queue : PendingAllocQueue

-- The destination gets the next place in the packet, if it has none.
unfoldable pub place_dst : AllocFill → ℕ → AllocFill
place_dst s dst =
    if s.alloc_enc_space dst == 0
    then record s {
      dsts = s.dsts ++ (dst ∷ []);
      alloc_enc_space = update s.alloc_enc_space dst (u8 (length s.dsts + 1));
    }
    else s

-- The allocation byte of the oldest allocation, which leaves the queue.
unfoldable pub encode_tslot : AllocFill → PendingAlloc → AllocFill
encode_tslot s cur_alloc = record s {
  tslot_desc =
      s.tslot_desc
      ++ (u8 (bit_or (s.alloc_enc_space cur_alloc.dst * 2 ^ 4) (bit_and cur_alloc.flags flags_mask))
          ∷ []);
  queue = record s.queue { head = add32 s.queue.head 1 };
}

-- The loop from `next_alloc`; each round fills one timeslot, so 64 rounds are enough.
unfoldable pub next_alloc : ℕ → AllocFill → AllocFill
next_alloc zero s = s
next_alloc (suc fuel) s =
    let cur_alloc = s.queue.allocs (wnd_pos s.queue.head) in
    let encoded = encode_tslot (place_dst s cur_alloc.dst) cur_alloc in
    let more = next_alloc fuel encoded in
    if (s.alloc_enc_space cur_alloc.dst == 0) && (length s.dsts == 15)
    then s
    else if not (encoded.queue.tail == encoded.queue.head)
        && leb (length encoded.tslot_desc) (fastpass_pkt_max_alloc_tslots - 2)
    then more
    else encoded

unfoldable pub clear_enc_space : List ℕ → (ℕ → ℕ) → ℕ → ℕ
clear_enc_space [] space = space
clear_enc_space (dst ∷ dsts) space = clear_enc_space dsts (update space dst 0)

-- The timeslots, padded to an even number.
unfoldable pub pad_even : List ℕ → List ℕ
pad_even tslots = if bit_and (length tslots) 1 == 1 then tslots ++ (0 ∷ []) else tslots

unfoldable pub fill_packet_alloc :
    CommCore → PktDesc → EndNode → Checked (CommCore × PktDesc × EndNode)
fill_packet_alloc core pd en =
    let q = en.pending_allocs in
    let filled =
      next_alloc fastpass_pkt_max_alloc_tslots (record {
        dsts = [];
        tslot_desc = [];
        alloc_enc_space = core.alloc_enc_space;
        queue = q;
      }) in
    let padded = pad_even filled.tslot_desc in
    let packed : PktDesc = record pd {
      base_tslot = (q.allocs (wnd_pos q.head)).timeslot;
      dsts = filled.dsts;
      tslot_desc = padded;
      alloc_tslot = length padded;
    } in
    if q.head == q.tail
    then ok (core, record pd { dsts = []; tslot_desc = []; alloc_tslot = 0 }, en)
    else (do
      bug_on (not (bit_and (length padded) 1 == 0))
      ok (
        record core { alloc_enc_space = clear_enc_space filled.dsts filled.alloc_enc_space },
        packed,
        record en { pending_allocs = filled.queue },
      ))

-- The packet that is committed, if any; `pd` is `none` if no packet descriptor is left.
unfoldable pub tx_end_node :
    CommCore → EndNode → Option PktDesc → ℕ → Checked (Option PktDesc × CommCore × EndNode)
tx_end_node core en pd now = do
  let reset = record en { tx_pacer = pacer_reset en.tx_pacer }
  prepared ← fpproto_prepare_to_send reset.conn
  let ready = record reset { conn = prepared }
  elim pd [
    | none ↦ ok (none, core, trigger_request ready now)
    | some desc ↦ (do
      allocs ← fill_packet_alloc core desc ready
      reports ← fill_packet_report allocs.1 allocs.2 now
      committed ← fpproto_commit_packet reports.1.conn reports.0 now
      ok (some committed.0, allocs.0, record reports.1 { conn = committed.1 }))
  ]
