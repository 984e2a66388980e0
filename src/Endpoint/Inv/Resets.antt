-- ===== src/Endpoint/Inv/Resets.antt =====
-- kernel-mod/sch_fastpass.c: handle_reset.
use flexplane.Base.{
  ℕ, zero, suc, ◌+◌, ◌-◌, ◌%◌, ◌^◌, ◌<◌, ◌≤◌, ◌≡◌, refl, true, false, ◌==◌, leb, if◌then◌else◌,
  Bool-cases, inl, inr, arith, ap, ◌∙◌, add32, bit_and, sub64,
}
use flexplane.Base.Bits.{bit_and-mask}
use flexplane.Base.Table.{update}
use flexplane.Endpoint.Sched.{flow_request_queue, FpDst, FpSchedData}
use flexplane.Endpoint.Queue.{as_queued, unreq_dsts_enqueue_if_not_queued_lem}
use flexplane.Endpoint.Alloc.{rebased, reset_flow, reset_flows, handle_reset}
use flexplane.Endpoint.Inv.{
  IsFlow, IsValid, put-IsQueue, put-enqueue-IsValid, put-stored, flows_kept, map_at,
}

-- What is known of a flow after a reset: one with timeslots pending starts again with these as
-- its demand, nothing requested, and a place in the queue; any other stays as it is.
unfoldable pub after_reset : FpDst → FpDst
after_reset d = if d.demand_tslots == d.used_tslots then d else record {
  demand_tslots = d.demand_tslots - d.used_tslots;
  requested_tslots = 0;
  acked_tslots = 0;
  alloc_tslots = 0;
  used_tslots = 0;
  state = flow_request_queue;
}

-- The counters that the code computes for a flow with timeslots pending.
rebased-after_reset :
    (d : FpDst)
    → IsFlow d
    → (d.demand_tslots == d.used_tslots) ≡ false
    → as_queued (rebased d) ≡ after_reset d
unfolding rebased after_reset
rebased-after_reset d f pending =
    let exact : sub64 d.demand_tslots d.used_tslots ≡ d.demand_tslots - d.used_tslots =
      omega (arith, f.used_le, f.demand_small) in
    rw (pending, exact) refl

rebased-IsFlow : (d : FpDst) → IsFlow d → IsFlow (as_queued (rebased d))
unfolding rebased
rebased-IsFlow d f = record {
  used_le = omega arith;
  alloc_eq = refl;
  acked_le = omega arith;
  requested_le = omega arith;
  demand_small = omega (arith, f.demand_small, f.used_le);
  in_window = omega arith;
  remembered = λ e lt. cc;
}

pub reset_flow_lem :
    (q : FpSchedData) (id now : ℕ)
    → IsValid q
    → id < 256
    → IsValid (reset_flow q id now)
      × ((reset_flow q id now).conn ≡ q.conn)
      × ((k : ℕ)
          → (reset_flow q id now).dsts k ≡ (if id == k then after_reset (q.dsts k) else q.dsts k))
unfolding reset_flow after_reset rebased
reset_flow_lem q id now v small =
    let dst = q.dsts id in
    elim (Bool-cases (dst.demand_tslots == dst.used_tslots)) [
      | inl idle ↦
          rw idle (
            v,
            refl,
            λ k. flows_kept q.dsts id k ∙ map_at q.dsts id after_reset dst (rw idle refl) k,
          )
      | inr pending ↦
          let d = rebased dst in
          let counted : FpSchedData = record q {
            dsts = update q.dsts id d;
            totals = record q.totals {
              demand_tslots = add32 q.totals.demand_tslots d.demand_tslots;
            };
          } in
          let e =
            unreq_dsts_enqueue_if_not_queued_lem counted id now (put-IsQueue q id d v.queue refl)
              small in
          rw pending (
            put-enqueue-IsValid q counted id now d v small refl refl refl refl refl
                (rebased-IsFlow dst (v.flows id small)),
            e.conn,
            λ k.
                e.flows k
                ∙ put-stored q.dsts id d k
                ∙ map_at q.dsts id after_reset (as_queued d)
                    (rebased-after_reset dst (v.flows id small) pending) k,
          )
    ]

-- The round of the loop that comes to a flow.
abbrev round_of : ℕ → ℕ → ℕ
round_of k base_idx = (k + 2 ^ 32 - base_idx) % 256

at_its_round :
    (k base_idx n : ℕ)
    → base_idx < 2 ^ 32
    → k < 256
    → n < 256
    → (bit_and (add32 n base_idx) 255 == k) ≡ (round_of k base_idx == n)
at_its_round k base_idx n hb hk hn =
    let low = bit_and-mask 8 (add32 n base_idx) in rw low (ground arith)

-- A flow after one round and the later ones.
later_rounds :
    (d d1 : FpDst) (m r : ℕ)
    → d1 ≡ (if r == m then after_reset d else d)
    → (if leb (suc m) r then after_reset d1 else d1) ≡ (if leb m r then after_reset d else d)
later_rounds d d1 m r is = elim (Bool-cases (r == m)) [
  | inl now ↦
      let past : leb (suc m) r ≡ false = ground arith in
      let here : leb m r ≡ true = ground arith in rw (past, here) (is ∙ rw now refl)
  | inr other ↦
      let same : leb (suc m) r ≡ leb m r = ground arith in
      let is' : d1 ≡ d = is ∙ rw other refl in rw (same, is') refl
]

reset_flows_lem :
    (n : ℕ) (q : FpSchedData) (base_idx now : ℕ)
    → n ≤ 256
    → base_idx < 2 ^ 32
    → IsValid q
    → IsValid (reset_flows n q base_idx now)
      × ((reset_flows n q base_idx now).conn ≡ q.conn)
      × ((k : ℕ)
          → k < 256
          → (reset_flows n q base_idx now).dsts k
            ≡ (if leb (256 - n) (round_of k base_idx) then after_reset (q.dsts k) else q.dsts k))
unfolding reset_flows
reset_flows_lem zero q base_idx now le hb v = (
  v,
  refl,
  λ k lt. let late : leb (256 - 0) (round_of k base_idx) ≡ false = ground arith in rw late refl,
)
reset_flows_lem (suc n) q base_idx now le hb v =
    let id = bit_and (add32 (256 - suc n) base_idx) 255 in
    let small : id < 256 = omega (arith, bit_and-mask 8 (add32 (256 - suc n) base_idx)) in
    let first = reset_flow_lem q id now v small in
    let rest = reset_flows_lem n (reset_flow q id now) base_idx now (omega arith) hb first.0 in
    let m : ℕ = 256 - suc n in
    let next : 256 - n ≡ suc m = omega arith in
    (
      rest.0,
      rest.1 ∙ first.1,
      λ k lt.
          rest.2 k lt
          ∙ rw next (
              later_rounds (q.dsts k) ((reset_flow q id now).dsts k) m (round_of k base_idx) (
                first.2 k
                ∙ ap (λ b. if b then after_reset (q.dsts k) else q.dsts k)
                    (at_its_round k base_idx m hb lt (omega arith)))),
    )

-- With a valid state and a hash of 32 bits, `handle_reset` keeps the invariant, whichever flow it
-- starts from. A flow below 256 with timeslots pending is left with these as its demand, its other
-- counters 0, and in the queue of flows to request; one with none pending stays as it is. The
-- connection stays as it is.
pub handle_reset_lem :
    (q : FpSchedData) (base_idx now : ℕ)
    → base_idx < 2 ^ 32
    → IsValid q
    → IsValid (handle_reset q base_idx now)
      × ((handle_reset q base_idx now).conn ≡ q.conn)
      × ((k : ℕ) → k < 256 → (handle_reset q base_idx now).dsts k ≡ after_reset (q.dsts k))
unfolding handle_reset
handle_reset_lem q base_idx now hb v =
    let all = reset_flows_lem 256 _ base_idx now (omega arith) hb v in
    (
      all.0,
      all.1,
      λ k lt.
          let always : leb (256 - 256) (round_of k base_idx) ≡ true = ground arith in
          all.2 k lt ∙ rw always refl,
    )
