-- ===== src/Endpoint/Inv/Requests.antt =====
-- kernel-mod/sch_fastpass.c: the requests that send_request takes from the queue.
use flexplane.Base.{
  ℕ, zero, suc, ◌+◌, ◌<◌, ◌≤◌, ◌≡◌, ◌⊎◌, refl, true, false, ◌==◌, ltb, leb, Bool-cases, inl, inr,
  arith, sym, ap, ==-refl, ◌∙◌, List, [], ◌∷◌, ◌++◌, length, length-append,
}
use mathlib.Core.Path.{subst}
use flexplane.Base.Checked.{ok, ok-injective}
use flexplane.Base.Table.{update, update_lem, update-update}
use flexplane.Protocol.Conn.{AreqDesc}
use flexplane.Endpoint.Sched.{flow_unqueued, FpDst, FpSchedData, unreq_dsts_dequeue_and_get}
use flexplane.Endpoint.Queue.{IsFirst, waiting, unreq_dsts_dequeue_and_get_lem, length-waiting}
use flexplane.Endpoint.Send.{new_requested, request_flow, fill_areqs, areq_fuel}
use flexplane.Endpoint.Inv.{IsFlow, IsValid, put-IsQueue, put-flows}

-- Requests of flows for more than was acked, and for no more than is requested.
abbrev pub AreMade : (ℕ → FpDst) → List AreqDesc → Type 0
AreMade dsts [] = Unit
AreMade dsts (a ∷ rest) =
    (a.src_dst_key < 256)
    × ((dsts a.src_dst_key).acked_tslots < a.tslots)
    × (a.tslots ≤ (dsts a.src_dst_key).requested_tslots)
    × AreMade dsts rest

-- A flow that left the queue because all of it is acked.
idle-IsFlow :
    (d : FpDst)
    → IsFlow d
    → leb (new_requested d) d.acked_tslots ≡ true
    → IsFlow (record d { state = flow_unqueued })
unfolding new_requested
idle-IsFlow d f acked = record {
  used_le = f.used_le;
  acked_le = f.acked_le;
  alloc_eq = f.alloc_eq;
  requested_le = f.requested_le;
  demand_small = f.demand_small;
  in_window = f.in_window;
  remembered = λ e lt. absurd (ground (arith, f.acked_le, f.requested_le, f.demand_small));
}

-- A flow whose request was sent.
requested-IsFlow :
    (d : FpDst)
    → IsFlow d
    → leb (new_requested d) d.acked_tslots ≡ false
    → IsFlow (record d { state = flow_unqueued; requested_tslots = new_requested d })
      × (d.requested_tslots ≤ new_requested d)
unfolding new_requested
requested-IsFlow d f more = (
  record {
    used_le = f.used_le;
    acked_le = ground arith;
    alloc_eq = f.alloc_eq;
    requested_le = ground arith;
    demand_small = f.demand_small;
    in_window = ground (arith, f.acked_le, f.requested_le, f.demand_small);
    remembered = λ e lt. ground (arith, f.acked_le, f.requested_le, f.demand_small);
  },
  ground (arith, f.acked_le, f.requested_le, f.demand_small, f.in_window),
)

-- Only the requested timeslots differ, which have not become fewer, and the state.
pub record IsRequested (d d' : FpDst) : Type 0 where
  pub demand : d'.demand_tslots ≡ d.demand_tslots
  pub grown : d.requested_tslots ≤ d'.requested_tslots
  pub acked : d'.acked_tslots ≡ d.acked_tslots
  pub alloc : d'.alloc_tslots ≡ d.alloc_tslots
  pub used : d'.used_tslots ≡ d.used_tslots

chain-IsRequested : (d d' d'' : FpDst) → IsRequested d d' → IsRequested d' d'' → IsRequested d d''
chain-IsRequested d d' d'' x y = record {
  demand = y.demand ∙ x.demand;
  grown = omega (arith, x.grown, y.grown);
  acked = y.acked ∙ x.acked;
  alloc = y.alloc ∙ x.alloc;
  used = y.used ∙ x.used;
}

AreMade-grown :
    (dsts dsts' : ℕ → FpDst) (areqs : List AreqDesc)
    → ((k : ℕ) → IsRequested (dsts k) (dsts' k))
    → AreMade dsts areqs
    → AreMade dsts' areqs
AreMade-grown dsts dsts' [] grown v = tt
AreMade-grown dsts dsts' (a ∷ rest) grown v = (
  v.0,
  omega (arith, (grown a.src_dst_key).acked, v.1),
  omega (arith, (grown a.src_dst_key).grown, v.2),
  AreMade-grown dsts dsts' rest grown v.3,
)

AreMade-append :
    (dsts : ℕ → FpDst) (areqs : List AreqDesc) (a : AreqDesc)
    → AreMade dsts areqs
    → a.src_dst_key < 256
    → (dsts a.src_dst_key).acked_tslots < a.tslots
    → a.tslots ≤ (dsts a.src_dst_key).requested_tslots
    → AreMade dsts (areqs ++ a ∷ [])
AreMade-append dsts [] a v known more sent = (known, more, sent, tt)
AreMade-append dsts (b ∷ rest) a v known more sent =
    (v.0, v.1, v.2, AreMade-append dsts rest a v.3 known more sent)

-- A flow stored over an old one, where the others are old.
IsRequested-stored :
    (dsts : ℕ → FpDst) (id : ℕ) (d : FpDst)
    → IsRequested (dsts id) d
    → (k : ℕ) → IsRequested (dsts k) (update dsts id d k)
IsRequested-stored dsts id d here k = elim (Bool-cases (id == k)) [
  | inl same ↦
      let eq : id ≡ k = ground arith in
      rw (update_lem dsts id k d, same) (subst (λ (j : ℕ). IsRequested (dsts j) d) eq here)
  | inr other ↦
      rw (update_lem dsts id k d, other)
        (record { demand = refl; grown = omega arith; acked = refl; alloc = refl; used = refl })
]

no_change : (d : FpDst) → IsRequested d d
no_change d = record { demand = refl; grown = omega arith; acked = refl; alloc = refl; used = refl }

-- One round: the oldest flow leaves the queue, and is requested unless it is fully acked.
record IsRound (areqs : List AreqDesc) (q q1 : FpSchedData) (r : List AreqDesc × FpSchedData)
    : Type 0 where
  pub valid : IsValid r.1
  pub order : waiting r.1 ≡ waiting q1
  pub sent : AreMade r.1.dsts r.0
  pub longer : length r.0 ≤ length areqs + 1
  pub counters : (k : ℕ) → IsRequested (q.dsts k) (r.1.dsts k)

unqueued_fields : (d : FpDst) → IsRequested d (record d { state = flow_unqueued })
unqueued_fields d = record {
  demand = refl;
  grown = omega arith;
  acked = refl;
  alloc = refl;
  used = refl;
}

-- The queue as it was, and the flows as given.
abbrev HasFlows : FpSchedData → (ℕ → FpDst) → FpSchedData → Type 0
HasFlows q1 dsts q' =
    (q'.unreq_flows ≡ q1.unreq_flows)
    × (q'.unreq_dsts_head ≡ q1.unreq_dsts_head)
    × (q'.unreq_dsts_tail ≡ q1.unreq_dsts_tail)
    × (q'.dsts ≡ dsts)

skip-IsRound :
    (areqs : List AreqDesc) (q : FpSchedData) (id : ℕ) (q1 q' : FpSchedData)
    → IsValid q
    → IsFirst q id q1
    → AreMade q.dsts areqs
    → leb (new_requested (q.dsts id)) (q.dsts id).acked_tslots ≡ true
    → HasFlows q1 q1.dsts q'
    → IsRound areqs q q1 (areqs, q')
skip-IsRound areqs q id q1 q' v first sent acked same =
    let dst = q.dsts id in
    let left : FpDst = record dst { state = flow_unqueued } in
    let counters : (k : ℕ) → IsRequested (q.dsts k) (q'.dsts k) =
      rw (same.3, first.flows) (IsRequested-stored q.dsts id left (unqueued_fields dst)) in
    record {
      valid = record {
        queue = rw (same.0, same.1, same.2, same.3) first.queue;
        flows =
            rw (same.3, first.flows)
              (put-flows q.dsts id left (λ k lt other. v.flows k lt)
                (idle-IsFlow dst (v.flows id first.known) acked));
      };
      order = rw (same.0, same.1, same.2) refl;
      sent = AreMade-grown q.dsts q'.dsts areqs counters sent;
      longer = omega arith;
      counters = counters;
    }

request-IsRound :
    (areqs : List AreqDesc) (q : FpSchedData) (id : ℕ) (q1 q' : FpSchedData) (d : FpDst)
    → IsValid q
    → IsFirst q id q1
    → AreMade q.dsts areqs
    → leb (new_requested (q.dsts id)) (q.dsts id).acked_tslots ≡ false
    → d ≡ record (q.dsts id) { state = flow_unqueued; requested_tslots = new_requested (q.dsts id) }
    → HasFlows q1 (update q1.dsts id d) q'
    → IsRound areqs q q1
        (areqs ++ (record { src_dst_key = id; tslots = new_requested (q.dsts id) } ∷ []), q')
request-IsRound areqs q id q1 q' d v first sent more is same =
    let dst = q.dsts id in
    let f = requested-IsFlow dst (v.flows id first.known) more in
    let left : FpDst = record dst { state = flow_unqueued } in
    let stored : q'.dsts ≡ update q.dsts id d =
      same.3 ∙ rw first.flows (update-update q.dsts id left d) in
    let grown : IsRequested dst d =
      rw is (record { demand = refl; grown = f.1; acked = refl; alloc = refl; used = refl }) in
    let counters : (k : ℕ) → IsRequested (q.dsts k) (q'.dsts k) =
      rw stored (IsRequested-stored q.dsts id d grown) in
    let in_place : (q1.dsts id).state ≡ flow_unqueued =
      rw (first.flows, update_lem q.dsts id id left, ==-refl id) refl in
    record {
      valid = record {
        queue =
            rw (same.0, same.1, same.2, same.3)
              (put-IsQueue q1 id d first.queue (rw (is, in_place) refl));
        flows = rw stored (put-flows q.dsts id d (λ k lt other. v.flows k lt) (rw is f.0));
      };
      order = rw (same.0, same.1, same.2) refl;
      sent =
          AreMade-append q'.dsts areqs _ (AreMade-grown q.dsts q'.dsts areqs counters sent)
            first.known
            (rw (stored, update_lem q.dsts id id d, ==-refl id, is) (ground (arith, more)))
            (rw (stored, update_lem q.dsts id id d, ==-refl id, is) (omega arith));
      longer = omega (
        arith,
        length-append areqs (record { src_dst_key = id; tslots = new_requested dst } ∷ []),
      );
      counters = counters;
    }

request_flow-IsRound :
    (areqs : List AreqDesc) (q : FpSchedData) (id : ℕ) (q1 : FpSchedData)
    → IsValid q
    → IsFirst q id q1
    → AreMade q.dsts areqs
    → IsRound areqs q q1 (request_flow areqs q1 id)
unfolding request_flow new_requested
request_flow-IsRound areqs q id q1 v first sent =
    let dst = q.dsts id in
    let left : FpDst = record dst { state = flow_unqueued } in
    let d1 : q1.dsts id ≡ left = rw (first.flows, update_lem q.dsts id id left, ==-refl id) refl in
    elim (Bool-cases (leb (new_requested dst) dst.acked_tslots)) [
      | inl acked ↦
          rw (d1, acked) (skip-IsRound areqs q id q1 _ v first sent acked (refl, refl, refl, refl))
      | inr more ↦
          rw (d1, more)
            (request-IsRound areqs q id q1 _ _ v first sent more refl (refl, refl, refl, refl))
    ]

-- What the loop over the queue leaves behind.
pub record AreFilled (q : FpSchedData) (r : List AreqDesc × FpSchedData) : Type 0 where
  pub valid : IsValid r.1
  pub sent : AreMade r.1.dsts r.0
  pub fits : length r.0 ≤ 10
  pub greedy : (waiting r.1 ≡ []) ⊎ (length r.0 ≡ 10)
  pub counters : (k : ℕ) → IsRequested (q.dsts k) (r.1.dsts k)

fill_areqs_lem :
    (fuel : ℕ) (areqs : List AreqDesc) (q : FpSchedData)
    → IsValid q
    → AreMade q.dsts areqs
    → length areqs ≤ 10
    → length (waiting q) < fuel
    → (r : List AreqDesc × FpSchedData) × (fill_areqs fuel areqs q ≡ ok r) × AreFilled q r
unfolding fill_areqs
fill_areqs_lem zero areqs q v sent short enough = absurd (omega arith)
fill_areqs_lem (suc fuel) areqs q v sent short enough = elim (Bool-cases (ltb (length areqs) 10)) [
  | inr full ↦ (
    (areqs, q),
    rw full refl,
    record {
      valid = v;
      sent = sent;
      fits = short;
      greedy = inr (ground arith);
      counters = λ k. no_change (q.dsts k);
    },
  )
  | inl room ↦ elim (unreq_dsts_dequeue_and_get_lem q v.queue) [
    | inl (empty, _, none_left) ↦ (
      (areqs, q),
      rw (room, empty) refl,
      record {
        valid = v;
        sent = sent;
        fits = short;
        greedy = inl none_left;
        counters = λ k. no_change (q.dsts k);
      },
    )
    | inr (id, taken, first) ↦
        let q1 = (unreq_dsts_dequeue_and_get q).1 in
        let next = request_flow areqs q1 id in
        let round = request_flow-IsRound areqs q id q1 v first sent in
        let (r, done, filled) =
          fill_areqs_lem fuel next.0 next.1 round.valid round.sent (ground (arith, round.longer))
            (omega (arith, ap length first.order, ap length round.order)) in
        (
          r,
          rw (room, taken) done,
          record {
            valid = filled.valid;
            sent = filled.sent;
            fits = filled.fits;
            greedy = filled.greedy;
            counters = λ k.
                chain-IsRequested (q.dsts k) (next.1.dsts k) (r.1.dsts k) (round.counters k)
                  (filled.counters k);
          },
        )
  ]
]

-- From a valid state the loop of `send_request` takes flows from the queue without running out of
-- fuel. It leaves a valid state, in which every request made is for more than its flow has acked
-- and no more than it has requested; they are at most 10, and fewer only if the queue is left
-- empty. Only the requested timeslots and the states of flows change, and no flow has requested
-- fewer.
pub fill_areqs-AreFilled :
    (q : FpSchedData)
    → IsValid q
    → (r : List AreqDesc × FpSchedData) × (fill_areqs areq_fuel [] q ≡ ok r) × AreFilled q r
fill_areqs-AreFilled q v =
    fill_areqs_lem 257 [] q v tt (omega arith) (omega (arith, (length-waiting q v.queue).1))

pub filled-AreFilled :
    (q : FpSchedData) (r : List AreqDesc × FpSchedData)
    → IsValid q
    → fill_areqs areq_fuel [] q ≡ ok r
    → AreFilled q r
filled-AreFilled q r v filled =
    let (r', filled', f) = fill_areqs-AreFilled q v in
    subst (AreFilled q) (ok-injective (sym filled' ∙ filled)) f
