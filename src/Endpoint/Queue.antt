-- ===== src/Endpoint/Queue.antt =====
-- kernel-mod/sch_fastpass.c: the queue of flows that have something to request, as a list.
use flexplane.Base.{
  ℕ, ◌%◌, ◌^◌, ◌<◌, ◌≤◌, ◌⊎◌, length, ◌≡◌, ◌≢◌, refl, true, false, ◌==◌, if◌then◌else◌, Bool-cases,
  inl, inr, arith, List, [], ◌∷◌, ◌++◌, Option, none, some, add32,
}
use flexplane.Base.Table.{update, update_lem}
use flexplane.Base.Ring.Once
use flexplane.Base.Ring.Once.{IsOnce}
use flexplane.Endpoint.Sched.{
  FlowState, flow_unqueued, flow_request_queue, is_queued, FpDst, FpSchedData, flow_pos, trigger_tx,
  unreq_dsts_enqueue_if_not_queued, unreq_dsts_dequeue_and_get, n_unreq_dsts,
}

pub flow_pos_apart : (h i j : ℕ) → i < j → j < 256 → flow_pos (add32 h i) ≢ flow_pos (add32 h j)
flow_pos_apart h i j p q e = omega arith

-- The flows that wait to be requested, oldest first.
abbrev pub waiting : FpSchedData → List ℕ
waiting q = Once.queued flow_pos q.unreq_flows q.unreq_dsts_head q.unreq_dsts_tail

-- Each flow in the queue's state stands in the queue once, and no other does.
abbrev pub IsQueue : FpSchedData → Type 0
IsQueue q =
    IsOnce flow_pos q.unreq_flows q.unreq_dsts_head q.unreq_dsts_tail
      λ k. is_queued (q.dsts k).state

-- The flow, put into the queue's state.
abbrev pub as_queued : FpDst → FpDst
as_queued d = record d { state = flow_request_queue }

-- Storing a flow changes its own flag only.
pub flag-update :
    (dsts : ℕ → FpDst) (id : ℕ) (d : FpDst) (k : ℕ)
    → update (λ i. is_queued (dsts i).state) id (is_queued d.state) k
      ≡ is_queued (update dsts id d k).state
flag-update dsts id d k = elim (Bool-cases (id == k)) [
  | inl same ↦
      rw
        (
          update_lem (λ i. is_queued (dsts i).state) id k (is_queued d.state),
          update_lem dsts id k d,
          same,
        )
        refl
  | inr other ↦
      rw
        (
          update_lem (λ i. is_queued (dsts i).state) id k (is_queued d.state),
          update_lem dsts id k d,
          other,
        )
        refl
]

queued_state : (s : FlowState) → is_queued s ≡ true → flow_request_queue ≡ s
queued_state flow_unqueued h = cc
queued_state flow_request_queue h = refl

already_queued : (d : FpDst) → is_queued d.state ≡ true → d ≡ as_queued d
already_queued d h = rw (queued_state d.state h) refl

-- The operation as seen by its callers.
pub record IsEnqueued (q : FpSchedData) (id : ℕ) (q' : FpSchedData) : Type 0 where
  pub queue : IsQueue q'
  pub order : waiting q' ≡ (if is_queued (q.dsts id).state then waiting q else waiting q ++ id ∷ [])
  pub flows : (k : ℕ) → q'.dsts k ≡ (if id == k then as_queued (q.dsts k) else q.dsts k)
  pub conn : q'.conn ≡ q.conn

flows_there :
    (q : FpSchedData) (id : ℕ)
    → is_queued (q.dsts id).state ≡ true
    → (k : ℕ) → q.dsts k ≡ (if id == k then as_queued (q.dsts k) else q.dsts k)
flows_there q id there k = elim (Bool-cases (id == k)) [
  | inl same ↦ let e : id ≡ k = ground arith in rw same (already_queued (q.dsts k) (rw (← e) there))
  | inr other ↦ rw other refl
]

flows_stored :
    (dsts : ℕ → FpDst) (id k : ℕ)
    → update dsts id (as_queued (dsts id)) k ≡ (if id == k then as_queued (dsts k) else dsts k)
flows_stored dsts id k = elim (Bool-cases (id == k)) [
  | inl same ↦
      let e : id ≡ k = ground arith in rw (update_lem dsts id k (as_queued (dsts id)), same, e) refl
  | inr other ↦ rw (update_lem dsts id k (as_queued (dsts id)), other) refl
]

-- On a queue with each queued flow once, `unreq_dsts_enqueue_if_not_queued` appends a flow below
-- 256 that is not queued and marks it as queued, and does nothing for one that is queued. The
-- queue keeps each queued flow once, and other flows and the connection stay.
pub unreq_dsts_enqueue_if_not_queued_lem :
    (q : FpSchedData) (id now : ℕ)
    → IsQueue q
    → id < 256
    → IsEnqueued q id (unreq_dsts_enqueue_if_not_queued q id now)
unfolding unreq_dsts_enqueue_if_not_queued trigger_tx
unreq_dsts_enqueue_if_not_queued_lem q id now v small =
    elim (Bool-cases (is_queued (q.dsts id).state)) [
      | inl there ↦
          rw there (record {
            queue = v;
            order = rw there refl;
            flows = flows_there q id there;
            conn = refl;
          })
      | inr free ↦
          let word : id % 2 ^ 16 ≡ id = omega arith in
          let flag = λ (k : ℕ). is_queued (q.dsts k).state in
          let pushed =
            Once.push-IsOnce flow_pos flow_pos_apart q.unreq_flows q.unreq_dsts_head
              q.unreq_dsts_tail flag id v small free in
          rw (free, word)
            (record {
              queue =
                  Once.IsOnce-congr flow_pos (update q.unreq_flows (flow_pos q.unreq_dsts_tail) id)
                    q.unreq_dsts_head (add32 q.unreq_dsts_tail 1) (update flag id true)
                    (λ k. is_queued (update q.dsts id (as_queued (q.dsts id)) k).state)
                    (flag-update q.dsts id (as_queued (q.dsts id))) pushed.1;
              order = rw free pushed.0;
              flows = flows_stored q.dsts id;
              conn = refl;
            })
    ]

-- The oldest flow left the queue.
pub record IsFirst (q : FpSchedData) (id : ℕ) (q' : FpSchedData) : Type 0 where
  pub known : id < 256
  pub was_queued : is_queued (q.dsts id).state ≡ true
  pub order : waiting q ≡ id ∷ waiting q'
  pub queue : IsQueue q'
  pub flows : q'.dsts ≡ update q.dsts id (record (q.dsts id) { state = flow_unqueued })

-- The queue is empty, or its oldest flow leaves it.
abbrev pub IsDequeued : FpSchedData → Option ℕ → FpSchedData → Type 0
IsDequeued q r q' =
    ((r ≡ none) × (q' ≡ q) × (waiting q ≡ [])) ⊎ ((id : ℕ) × (r ≡ some id) × IsFirst q id q')

-- On a queue with each queued flow once, `unreq_dsts_dequeue_and_get` returns no flow and changes
-- nothing if the queue is empty. Otherwise it returns the oldest flow and marks it as not queued,
-- and leaves the others in order, each once, and the other flows as they are.
pub unreq_dsts_dequeue_and_get_lem :
    (q : FpSchedData)
    → IsQueue q
    → IsDequeued q (unreq_dsts_dequeue_and_get q).0 (unreq_dsts_dequeue_and_get q).1
unfolding unreq_dsts_dequeue_and_get
unreq_dsts_dequeue_and_get_lem q v = elim (Bool-cases (q.unreq_dsts_head == q.unreq_dsts_tail)) [
  | inl empty ↦
      let none_left =
        Once.queued-empty flow_pos q.unreq_flows q.unreq_dsts_head q.unreq_dsts_tail
          (ground arith) in
      rw empty (inl (refl, refl, none_left))
  | inr some_left ↦
      let flag = λ (k : ℕ). is_queued (q.dsts k).state in
      let id = q.unreq_flows (flow_pos q.unreq_dsts_head) in
      let left : FpDst = record (q.dsts id) { state = flow_unqueued } in
      let popped =
        Once.pop-IsOnce flow_pos flow_pos_apart q.unreq_flows q.unreq_dsts_head q.unreq_dsts_tail
          flag v (ground arith) in
      rw some_left (
        inr (
          id,
          refl,
          record {
            known = popped.2;
            was_queued = popped.1;
            order = popped.0;
            queue =
                Once.IsOnce-congr flow_pos q.unreq_flows (add32 q.unreq_dsts_head 1)
                  q.unreq_dsts_tail (update flag id false)
                  (λ k. is_queued (update q.dsts id left k).state) (flag-update q.dsts id left)
                  popped.3;
            flows = refl;
          },
        ))
]

-- As many flows wait as `n_unreq_dsts` says, and at most all of them.
pub length-waiting :
    (q : FpSchedData)
    → IsQueue q
    → (length (waiting q) ≡ n_unreq_dsts q) × (length (waiting q) ≤ 256)
unfolding n_unreq_dsts
length-waiting q v =
    Once.length-queued flow_pos q.unreq_flows q.unreq_dsts_head q.unreq_dsts_tail
      (λ k. is_queued (q.dsts k).state) v
