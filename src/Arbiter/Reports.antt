-- ===== src/Arbiter/Reports.antt =====
-- arbiter/comm_core.c: the queue of reports as a list.
use flexplane.Base.{
  ℕ, ◌<◌, ◌≡◌, ◌≢◌, refl, true, false, if◌then◌else◌, Bool-cases, inl, inr, arith, List, [], ◌∷◌,
  ◌++◌, add32,
}
use flexplane.Base.Bits.{bit_and-mask}
use flexplane.Base.Checked.{ok}
use flexplane.Base.Table.{update}
use flexplane.Base.Ring.Once
use flexplane.Base.Ring.Once.{IsOnce}
use flexplane.Arbiter.Node.{
  AllocReportQueue, EndNode, report_pos, trigger_request, trigger_report, report_empty, report_pop,
}

pub report_pos_apart :
    (h i j : ℕ) → i < j → j < 256 → report_pos (add32 h i) ≢ report_pos (add32 h j)
report_pos_apart h i j p q e =
    omega (arith, e, bit_and-mask 9 (add32 h i), bit_and-mask 9 (add32 h j))

-- The destinations that wait to be reported, oldest first.
abbrev pub reports : AllocReportQueue → List ℕ
reports q = Once.queued report_pos q.q_pending q.head q.tail

-- Each pending destination stands in the queue once, and no other does.
abbrev pub IsQueue : AllocReportQueue → Type 0
IsQueue q = IsOnce report_pos q.q_pending q.head q.tail q.is_pending

trigger_request_same :
    (en : EndNode) (now : ℕ) → (trigger_request en now).report_queue ≡ en.report_queue
unfolding trigger_request
trigger_request_same en now = ground arith

-- On a queue with each pending destination once, `trigger_report` appends a flow below 256 that
-- is not pending and does nothing for one that is, and keeps each pending destination once.
pub trigger_report_lem :
    (en : EndNode) (dst now : ℕ)
    → IsQueue en.report_queue
    → dst < 256
    → IsQueue (trigger_report en dst now).report_queue
      × (reports (trigger_report en dst now).report_queue ≡ (
          if en.report_queue.is_pending dst
          then reports en.report_queue
          else reports en.report_queue ++ dst ∷ []))
unfolding trigger_report
trigger_report_lem en dst now v small =
    let q = en.report_queue in
    elim (Bool-cases (q.is_pending dst)) [
      | inl there ↦ rw there (v, refl)
      | inr free ↦
          let pushed =
            Once.push-IsOnce report_pos report_pos_apart q.q_pending q.head q.tail q.is_pending dst
              v small free in
          let queued : AllocReportQueue = record q {
            is_pending = update q.is_pending dst true;
            q_pending = update q.q_pending (report_pos q.tail) dst;
            tail = add32 q.tail 1;
          } in
          rw (free, trigger_request_same (record en { report_queue = queued }) now)
            (pushed.1, pushed.0)
    ]

-- On a queue with each pending destination once that is not empty, `report_pop` fires no assert,
-- returns the oldest destination, which is a flow, and leaves the others in order, each once.
pub report_pop_lem :
    (q : AllocReportQueue)
    → IsQueue q
    → report_empty q ≡ false
    → (node : ℕ) × (q' : AllocReportQueue) × (report_pop q ≡ ok (node, q'))
      × (node < 256)
      × (reports q ≡ node ∷ reports q')
      × IsQueue q'
unfolding report_pop report_empty
report_pop_lem q v some_left =
    let popped =
      Once.pop-IsOnce report_pos report_pos_apart q.q_pending q.head q.tail q.is_pending v
        (ground arith) in
    (
      q.q_pending (report_pos q.head),
      _,
      rw (some_left, popped.1) refl,
      popped.2,
      popped.0,
      popped.3,
    )
