-- ===== src/Endpoint/Inv.antt =====
-- kernel-mod/sch_fastpass.c: what holds of the flows and of their queue between two operations.
pub mod Acks
pub mod Requests
pub mod Allocs
pub mod Resets
pub mod Reports
use flexplane.Base.{
  ℕ, ◌+◌, ◌%◌, ◌^◌, ◌<◌, ◌≤◌, ◌≡◌, refl, Bool, true, false, ◌==◌, if◌then◌else◌, Bool-cases, inl,
  inr, arith, ==-refl, add64, sym, ap, ◌∙◌,
}
use mathlib.Core.Path.{subst}
use flexplane.Base.Table.{update, update_lem}
use flexplane.Base.Ring.Once
use flexplane.Base.Ring.Once.{IsOnce}
use flexplane.Endpoint.Sched.{
  is_queued, FpDst, FpSchedData, flow_pos, flow_inc_demand, unreq_dsts_enqueue_if_not_queued,
}
use flexplane.Endpoint.Queue.{IsQueue, as_queued, IsEnqueued, unreq_dsts_enqueue_if_not_queued_lem}

-- A flow outside the queue has requested all it needs, or its window of requests is full.
pub record IsFlow (d : FpDst) : Type 0 where
  pub used_le : d.used_tslots ≤ d.demand_tslots
  pub alloc_eq : d.alloc_tslots ≡ d.used_tslots
  pub acked_le : d.acked_tslots ≤ d.requested_tslots
  pub requested_le : d.requested_tslots ≤ d.demand_tslots
  pub demand_small : d.demand_tslots < 2 ^ 63
  pub in_window : d.requested_tslots < d.acked_tslots + 2 ^ 13
  pub remembered :
      is_queued d.state ≡ false
      → d.requested_tslots < d.demand_tslots
      → d.requested_tslots + 1 ≡ d.acked_tslots + 2 ^ 13

pub record IsSched (unreq_flows : ℕ → ℕ) (head tail : ℕ) (dsts : ℕ → FpDst) : Type 0 where
  pub queue : IsOnce flow_pos unreq_flows head tail λ k. is_queued (dsts k).state
  pub flows : (k : ℕ) → k < 256 → IsFlow (dsts k)

abbrev pub IsValid : FpSchedData → Type 0
IsValid q = IsSched q.unreq_flows q.unreq_dsts_head q.unreq_dsts_tail q.dsts

-- Being put into the queue never breaks the invariant of a flow.
pub as_queued-IsFlow : (d : FpDst) → IsFlow d → IsFlow (as_queued d)
as_queued-IsFlow d v = record {
  used_le = v.used_le;
  acked_le = v.acked_le;
  alloc_eq = v.alloc_eq;
  requested_le = v.requested_le;
  demand_small = v.demand_small;
  in_window = v.in_window;
  remembered = λ e lt. cc;
}

pub enqueue-IsValid :
    (q : FpSchedData) (id now : ℕ)
    → IsQueue q
    → id < 256
    → ((k : ℕ) → k < 256 → (id == k) ≡ false → IsFlow (q.dsts k))
    → IsFlow (as_queued (q.dsts id))
    → IsValid (unreq_dsts_enqueue_if_not_queued q id now)
enqueue-IsValid q id now v small others flow =
    let e = unreq_dsts_enqueue_if_not_queued_lem q id now v small in
    record {
      queue = e.queue;
      flows = λ k lt. elim (Bool-cases (id == k)) [
        | inl same ↦
            let eq : id ≡ k = ground arith in
            rw (e.flows k, same) (subst (λ (j : ℕ). IsFlow (as_queued (q.dsts j))) eq flow)
        | inr other ↦ rw (e.flows k, other) (others k lt other)
      ];
    }

-- Storing a flow in the same state keeps the queue.
pub put-IsQueue :
    (q : FpSchedData) (id : ℕ) (d : FpDst)
    → IsQueue q
    → is_queued d.state ≡ is_queued (q.dsts id).state
    → IsOnce flow_pos q.unreq_flows q.unreq_dsts_head q.unreq_dsts_tail
        λ k. is_queued (update q.dsts id d k).state
put-IsQueue q id d v same =
    Once.IsOnce-congr flow_pos q.unreq_flows q.unreq_dsts_head q.unreq_dsts_tail
      (λ k. is_queued (q.dsts k).state) (λ k. is_queued (update q.dsts id d k).state)
      (λ k. elim (Bool-cases (id == k)) [
        | inl here ↦
            let eq : id ≡ k = ground arith in
            rw (update_lem q.dsts id k d, here)
              (sym (same ∙ ap (λ (j : ℕ). is_queued (q.dsts j).state) eq))
        | inr other ↦ rw (update_lem q.dsts id k d, other) refl
      ])
      v

pub put-flows :
    (dsts : ℕ → FpDst) (id : ℕ) (d : FpDst)
    → ((k : ℕ) → k < 256 → (id == k) ≡ false → IsFlow (dsts k))
    → IsFlow d
    → (k : ℕ) → k < 256
    → IsFlow (update dsts id d k)
put-flows dsts id d v flow k lt = elim (Bool-cases (id == k)) [
  | inl same ↦ rw (update_lem dsts id k d, same) flow
  | inr other ↦ rw (update_lem dsts id k d, other) (v k lt other)
]

-- A flow that is stored and then put into the queue.
pub put-stored :
    (dsts : ℕ → FpDst) (id : ℕ) (d : FpDst) (k : ℕ)
    → (if id == k then as_queued (update dsts id d k) else update dsts id d k)
      ≡ (if id == k then as_queued d else dsts k)
put-stored dsts id d k = elim (Bool-cases (id == k)) [
  | inl same ↦ rw (update_lem dsts id k d, same) refl
  | inr other ↦ rw (update_lem dsts id k d, other) refl
]

pub flows_kept : (dsts : ℕ → FpDst) (id k : ℕ) → dsts k ≡ (if id == k then dsts id else dsts k)
flows_kept dsts id k = elim (Bool-cases (id == k)) [
  | inl same ↦ let eq : id ≡ k = ground arith in rw (same, eq) refl
  | inr other ↦ rw other refl
]

-- What is stored for one flow, as a function of the old flows.
pub map_at :
    (dsts : ℕ → FpDst) (id : ℕ) (g : FpDst → FpDst) (d : FpDst)
    → d ≡ g (dsts id)
    → (k : ℕ) → (if id == k then d else dsts k) ≡ (if id == k then g (dsts k) else dsts k)
map_at dsts id g d is k = elim (Bool-cases (id == k)) [
  | inl same ↦ let eq : id ≡ k = ground arith in rw same (is ∙ ap (λ (j : ℕ). g (dsts j)) eq)
  | inr other ↦ rw other refl
]

-- A flow may be stored in its place, in the same state.
pub put-IsValid :
    (q : FpSchedData) (id : ℕ) (d : FpDst)
    → IsValid q
    → is_queued d.state ≡ is_queued (q.dsts id).state
    → IsFlow d
    → IsSched q.unreq_flows q.unreq_dsts_head q.unreq_dsts_tail (update q.dsts id d)
put-IsValid q id d v same flow = record {
  queue = put-IsQueue q id d v.queue same;
  flows = put-flows q.dsts id d (λ k lt other. v.flows k lt) flow;
}

-- A flow may be stored and put into the queue at once.
pub put-enqueue-IsValid :
    (q q' : FpSchedData) (id now : ℕ) (d : FpDst)
    → IsValid q
    → id < 256
    → q'.unreq_flows ≡ q.unreq_flows
    → q'.unreq_dsts_head ≡ q.unreq_dsts_head
    → q'.unreq_dsts_tail ≡ q.unreq_dsts_tail
    → q'.dsts ≡ update q.dsts id d
    → is_queued d.state ≡ is_queued (q.dsts id).state
    → IsFlow (as_queued d)
    → IsValid (unreq_dsts_enqueue_if_not_queued q' id now)
put-enqueue-IsValid q q' id now d v small cells head tail dsts same flow =
    enqueue-IsValid q' id now (rw (cells, head, tail, dsts) (put-IsQueue q id d v.queue same)) small
      (λ k lt other. rw (dsts, update_lem q.dsts id k d, other) (v.flows k lt))
      (rw (dsts, update_lem q.dsts id id d, ==-refl id) flow)

-- More demand of a known flow, that stays below 2 ^ 63, keeps a state valid: in particular a flow
-- with demand that was not requested is queued, or waits for an ACK with a full window.
pub flow_inc_demand-IsValid :
    (q : FpSchedData) (id amount now : ℕ)
    → IsValid q
    → id < 256
    → (q.dsts id).demand_tslots + amount < 2 ^ 63
    → IsValid (flow_inc_demand q id amount now)
unfolding flow_inc_demand
flow_inc_demand-IsValid q id amount now v small fits =
    let f = v.flows id small in
    put-enqueue-IsValid q _ id now _ v small refl refl refl refl refl (record {
      used_le = omega (arith, f.used_le);
      acked_le = f.acked_le;
      alloc_eq = f.alloc_eq;
      requested_le = omega (arith, f.requested_le);
      demand_small = omega arith;
      in_window = f.in_window;
      remembered = λ e lt. cc;
    })
