-- ===== src/Arbiter/Packets/Report.antt =====
-- arbiter/comm_core.c: allocations on their way to a packet, and fill_packet_report.
use flexplane.Base.{
  ℕ, zero, suc, ◌%◌, ◌^◌, ◌<◌, ◌≤◌, ◌≡◌, ◌⊎◌, refl, ap, ◌∙◌, sym, true, if◌then◌else◌, Bool-cases,
  inl, inr, arith, List, [], ◌∷◌, ◌++◌, length, sub32, add32, ◌/◌,
}
use mathlib.Core.List.{append_assoc, append-nil}
use flexplane.Base.Bits.{bit_and-mask}
use flexplane.Base.Checked.{ok}
use flexplane.Base.Table.{update}
use flexplane.Base.Ring.Once
use flexplane.Protocol.Conn.{AreqDesc, PktDesc}
use flexplane.Arbiter.Node.{
  PendingAlloc, AllocReportQueue, EndNode, report_pos, trigger_request, trigger_report,
  report_empty,
}
use flexplane.Arbiter.Allocs.{allocate_to, fill_reports, fill_packet_report, make_room, push_alloc}
use flexplane.Arbiter.Reports.{reports, IsQueue, report_pop_lem, trigger_report_lem}
use flexplane.Arbiter.Pending.{unsent, IsCounted, push_alloc_lem}

-- The reports on the given destinations: what was allocated, less all that was not sent yet.
abbrev pub reports_for : EndNode → List ℕ → List AreqDesc
reports_for en [] = []
reports_for en (node ∷ nodes) =
    record {
      src_dst_key = node;
      tslots = sub32 (en.alloc_to_dst node) (sub32 en.pending_allocs.tail en.pending_allocs.head);
    }
    ∷ reports_for en nodes

reports_for_same :
    (en : EndNode) (q : AllocReportQueue) (nodes : List ℕ)
    → reports_for (record en { report_queue = q }) nodes ≡ reports_for en nodes
reports_for_same en q [] = refl
reports_for_same en q (node ∷ nodes) = rw (reports_for_same en q nodes) refl

one_more :
    (left taken : List ℕ) (node room : ℕ)
    → (left ≡ []) ⊎ (length taken ≡ room)
    → (left ≡ []) ⊎ (length (node ∷ taken) ≡ suc room)
one_more left taken node room (inl none) = inl none
one_more left taken node room (inr full) = inr (ap suc full)

reports-empty : (q : AllocReportQueue) → report_empty q ≡ true → reports q ≡ []
unfolding report_empty
reports-empty q e = Once.queued-empty report_pos q.q_pending q.head q.tail (ground arith)

-- What the loop leaves behind: the oldest reports in the packet, and the others in the queue.
record IsReported (room : ℕ) (areqs : List AreqDesc) (en : EndNode) (r : List AreqDesc × EndNode)
    : Type 0 where
  pub taken : List ℕ
  pub queue : AllocReportQueue
  pub rest : r.1 ≡ record en { report_queue = queue }
  pub valid : IsQueue queue
  pub order : reports en.report_queue ≡ taken ++ reports queue
  pub filled : r.0 ≡ areqs ++ reports_for en taken
  pub few : length taken ≤ room
  pub all : (reports queue ≡ []) ⊎ (length taken ≡ room)

fill_reports_lem :
    (room : ℕ) (areqs : List AreqDesc) (en : EndNode)
    → IsQueue en.report_queue
    → (r : List AreqDesc × EndNode) × (fill_reports room areqs en ≡ ok r)
      × IsReported room areqs en r
unfolding fill_reports
fill_reports_lem zero areqs en v = (
  (areqs, en),
  refl,
  record {
    taken = [];
    queue = en.report_queue;
    rest = refl;
    valid = v;
    order = refl;
    filled = sym (append-nil areqs);
    few = omega arith;
    all = inr refl;
  },
)
fill_reports_lem (suc room) areqs en v = elim (Bool-cases (report_empty en.report_queue)) [
  | inl empty ↦ (
    (areqs, en),
    rw empty refl,
    record {
      taken = [];
      queue = en.report_queue;
      rest = refl;
      valid = v;
      order = refl;
      filled = sym (append-nil areqs);
      few = omega arith;
      all = inl (reports-empty en.report_queue empty);
    },
  )
  | inr more ↦
      let (node, q', popped, known, order, v') = report_pop_lem en.report_queue v more in
      let next : EndNode = record en { report_queue = q' } in
      let (r, done, later) = fill_reports_lem room (areqs ++ reports_for en (node ∷ [])) next v' in
      (
        r,
        rw (more, popped) done,
        record {
          taken = node ∷ later.taken;
          queue = later.queue;
          rest = later.rest;
          valid = later.valid;
          order = order ∙ ap (λ (t : List ℕ). node ∷ t) later.order;
          filled =
              later.filled
              ∙ rw (reports_for_same en q' later.taken)
                  (append_assoc areqs (reports_for en (node ∷ [])) (reports_for en later.taken));
          few = omega (arith, later.few);
          all = one_more (reports later.queue) later.taken node room later.all;
        },
      )
]

-- The reports of a packet: the oldest ones, at most 10, and fewer only if none is left. Where some
-- are left, another packet is triggered.
pub record IsReportedIn (en : EndNode) (now : ℕ) (pd' : PktDesc) (en' : EndNode) : Type 0 where
  pub taken : List ℕ
  pub queue : AllocReportQueue
  pub valid : IsQueue queue
  pub order : reports en.report_queue ≡ taken ++ reports queue
  pub filled : pd'.areq ≡ reports_for en taken
  pub few : length taken ≤ 10
  pub all : (reports queue ≡ []) ⊎ (length taken ≡ 10)
  pub triggers : en' ≡ (
      if report_empty queue
      then record en { report_queue = queue }
      else trigger_request (record en { report_queue = queue }) now)

-- On a queue with each pending destination once, `fill_packet_report` fires no assert. The packet
-- reports the oldest destinations, at most 10 and fewer only if none is left: for each, what was
-- allocated to it, less all that was not sent yet. The others stay in order, each once, and if
-- there are any, another packet is triggered.
pub fill_packet_report_lem :
    (pd : PktDesc) (en : EndNode) (now : ℕ)
    → IsQueue en.report_queue
    → (pd' : PktDesc) × (en' : EndNode) × (fill_packet_report pd en now ≡ ok (pd', en'))
      × IsReportedIn en now pd' en'
unfolding fill_packet_report
fill_packet_report_lem pd en now v =
    let (r, done, f) = fill_reports_lem 10 [] en v in
    (
      record pd { areq = r.0 },
      (if report_empty r.1.report_queue then r.1 else trigger_request r.1 now),
      rw done refl,
      record {
        taken = f.taken;
        queue = f.queue;
        valid = f.valid;
        order = f.order;
        filled = f.filled;
        few = f.few;
        all = f.all;
        triggers = rw (f.rest) refl;
      },
    )

trigger_report_allocs :
    (en : EndNode) (dst now : ℕ)
    → ((trigger_report en dst now).pending_allocs ≡ en.pending_allocs)
      × ((trigger_report en dst now).alloc_to_dst ≡ en.alloc_to_dst)
unfolding trigger_report trigger_request
trigger_report_allocs en dst now = ground arith

-- An end node with room for one more pending allocation, and with each pending destination once
-- in its queue of reports, gets the allocation at the end of its queue, with the 4 low bits of
-- the flags and the 16 bits from the fourth on of the timeslot. The destination of the
-- allocation, a flow, is then pending, each pending one still once, and one more timeslot
-- counts as allocated to it.
pub allocate_to_lem :
    (en : EndNode) (dst flags current_timeslot now : ℕ)
    → IsCounted en.pending_allocs
    → sub32 en.pending_allocs.tail en.pending_allocs.head < 256
    → IsQueue en.report_queue
    → dst < 256
    → (unsent (allocate_to en dst flags current_timeslot now).pending_allocs
        ≡ unsent en.pending_allocs
          ++ record {
            dst = dst;
            timeslot = current_timeslot / 2 ^ 4 % 2 ^ 16;
            flags = flags % 2 ^ 4;
          }
            ∷ [])
      × IsQueue (allocate_to en dst flags current_timeslot now).report_queue
      × (reports (allocate_to en dst flags current_timeslot now).report_queue ≡ (
          if en.report_queue.is_pending dst
          then reports en.report_queue
          else reports en.report_queue ++ dst ∷ []))
      × ((allocate_to en dst flags current_timeslot now).alloc_to_dst
          ≡ update en.alloc_to_dst dst (add32 (en.alloc_to_dst dst) 1))
unfolding allocate_to
allocate_to_lem en dst flags current_timeslot now v room queue small =
    let alloc : PendingAlloc = record {
      dst = dst;
      timeslot = current_timeslot / 2 ^ 4 % 2 ^ 16;
      flags = flags % 2 ^ 4;
    } in
    let given : EndNode = record en {
      pending_allocs = push_alloc (make_room en.pending_allocs) alloc;
      alloc_to_dst = update en.alloc_to_dst dst (add32 (en.alloc_to_dst dst) 1);
    } in
    let same = trigger_report_allocs given dst now in
    let reported = trigger_report_lem given dst now queue small in
    rw (bit_and-mask 16 (current_timeslot / 2 ^ 4), bit_and-mask 4 flags, same.0, same.1)
      ((push_alloc_lem en.pending_allocs alloc v room).1, reported.0, reported.1, refl)
