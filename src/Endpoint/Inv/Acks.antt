-- ===== src/Endpoint/Inv/Acks.antt =====
-- kernel-mod/sch_fastpass.c: handle_ack and handle_neg_ack.
use flexplane.Base.{
  ℕ, ◌<◌, ◌≤◌, ◌≡◌, refl, true, false, ◌==◌, ltb, leb, if◌then◌else◌, Bool-cases, inl, inr, arith,
  ap, ◌∙◌, add64, sub64, List, [], ◌∷◌,
}
use mathlib.Core.Path.{subst}
use flexplane.Base.Checked.{ok}
use flexplane.Base.Table.{update, update_lem}
use flexplane.Protocol.Conn.{AreqDesc, PktDesc}
use flexplane.Protocol.Conn.Areqs.{highest}
use flexplane.Endpoint.Sched.{FpDst, FpSchedData, unreq_dsts_enqueue_if_not_queued}
use flexplane.Endpoint.Queue.{as_queued, unreq_dsts_enqueue_if_not_queued_lem}
use flexplane.Endpoint.Report.{
  ack_flow, ack_flows, handle_ack, nack_flow, nack_flows, handle_neg_ack,
}
use flexplane.Endpoint.Inv.{
  IsFlow, IsValid, as_queued-IsFlow, enqueue-IsValid, put-IsValid, put-IsQueue, put-enqueue-IsValid,
  put-stored, flows_kept,
}

-- Requests that were sent: of known flows, and for no more than was requested.
abbrev pub AreSent : (ℕ → FpDst) → List AreqDesc → Type 0
AreSent dsts [] = Unit
AreSent dsts (a ∷ rest) =
    (a.src_dst_key < 256) × (a.tslots ≤ (dsts a.src_dst_key).requested_tslots) × AreSent dsts rest

-- Only the acked timeslots differ, and the state.
pub record IsAcked (d d' : FpDst) (acked : ℕ) : Type 0 where
  pub demand : d'.demand_tslots ≡ d.demand_tslots
  pub requested : d'.requested_tslots ≡ d.requested_tslots
  pub acked_now : d'.acked_tslots ≡ acked
  pub alloc : d'.alloc_tslots ≡ d.alloc_tslots
  pub used : d'.used_tslots ≡ d.used_tslots

IsAcked-fields : (d : FpDst) (n : ℕ) → IsAcked d (record d { acked_tslots = n }) n
IsAcked-fields d n = record {
  demand = refl;
  requested = refl;
  acked_now = refl;
  alloc = refl;
  used = refl;
}

AreSent-frame :
    (dsts dsts' : ℕ → FpDst) (areqs : List AreqDesc)
    → ((k : ℕ) → (dsts' k).requested_tslots ≡ (dsts k).requested_tslots)
    → AreSent dsts areqs
    → AreSent dsts' areqs
AreSent-frame dsts dsts' [] same v = tt
AreSent-frame dsts dsts' (a ∷ rest) same v =
    (v.0, omega (arith, same a.src_dst_key, v.1), AreSent-frame dsts dsts' rest same v.2)

-- What an ACK stores at its own flow holds at every flow.
IsAcked-stored :
    (dsts dsts' : ℕ → FpDst) (a : AreqDesc) (d : FpDst)
    → ((k : ℕ) → dsts' k ≡ (if a.src_dst_key == k then d else dsts k))
    → IsAcked (dsts a.src_dst_key) d (
        if ltb (dsts a.src_dst_key).acked_tslots a.tslots
        then a.tslots
        else (dsts a.src_dst_key).acked_tslots)
    → (k : ℕ) → IsAcked (dsts k) (dsts' k) (highest (a ∷ []) k (dsts k).acked_tslots)
IsAcked-stored dsts dsts' a d stored here k = elim (Bool-cases (a.src_dst_key == k)) [
  | inl same ↦
      let eq : a.src_dst_key ≡ k = ground arith in
      rw (stored k, same)
        (subst
          (λ (j : ℕ).
            IsAcked (dsts j) d
              (if ltb (dsts j).acked_tslots a.tslots then a.tslots else (dsts j).acked_tslots))
          eq here)
  | inr other ↦ rw (stored k, other) (IsAcked-fields (dsts k) (dsts k).acked_tslots)
]

-- The flow with a newer ACK, in the queue, or with all its demand requested.
acked_queued-IsFlow :
    (d : FpDst) (n : ℕ)
    → IsFlow d
    → ltb d.acked_tslots n ≡ true
    → n ≤ d.requested_tslots
    → IsFlow (as_queued (record d { acked_tslots = n }))
acked_queued-IsFlow d n f newer sent = record {
  used_le = f.used_le;
  acked_le = sent;
  alloc_eq = f.alloc_eq;
  requested_le = f.requested_le;
  demand_small = f.demand_small;
  in_window = ground (arith, f.in_window);
  remembered = λ e lt. cc;
}

acked-IsFlow :
    (d : FpDst) (n : ℕ)
    → IsFlow d
    → ltb d.acked_tslots n ≡ true
    → n ≤ d.requested_tslots
    → (d.requested_tslots == d.demand_tslots) ≡ true
    → IsFlow (record d { acked_tslots = n })
acked-IsFlow d n f newer sent all = record {
  used_le = f.used_le;
  acked_le = sent;
  alloc_eq = f.alloc_eq;
  requested_le = f.requested_le;
  demand_small = f.demand_small;
  in_window = ground (arith, f.in_window);
  remembered = λ e lt. absurd (ground arith);
}

pub ack_flow_lem :
    (q : FpSchedData) (a : AreqDesc) (now : ℕ)
    → IsValid q
    → a.src_dst_key < 256
    → a.tslots ≤ (q.dsts a.src_dst_key).requested_tslots
    → (q' : FpSchedData) × (ack_flow q a now ≡ ok q')
      × IsValid q'
      × ((k : ℕ) → IsAcked (q.dsts k) (q'.dsts k) (highest (a ∷ []) k (q.dsts k).acked_tslots))
unfolding ack_flow
ack_flow_lem q a now v small sent =
    let id = a.src_dst_key in
    let dst = q.dsts id in
    let f = v.flows id small in
    let d : FpDst = record dst { acked_tslots = a.tslots } in
    let acked : FpSchedData = record q {
      dsts = update q.dsts id d;
      totals = record q.totals {
        acked_tslots = add64 q.totals.acked_tslots (sub64 a.tslots dst.acked_tslots);
      };
    } in
    elim (Bool-cases (ltb dst.acked_tslots a.tslots)) [
      | inr old ↦ (
        q,
        rw old refl,
        v,
        IsAcked-stored q.dsts q.dsts a dst (flows_kept q.dsts id)
            (rw old (IsAcked-fields dst dst.acked_tslots)),
      )
      | inl newer ↦
          let no_bug : ltb dst.demand_tslots a.tslots ≡ false = ground (arith, f.requested_le) in
          elim (Bool-cases (dst.requested_tslots == dst.demand_tslots)) [
            | inl all_requested ↦ (
              acked,
              rw (newer, no_bug, all_requested) refl,
              put-IsValid q id d v refl (acked-IsFlow dst a.tslots f newer sent all_requested),
              IsAcked-stored q.dsts acked.dsts a d (λ k. update_lem q.dsts id k d)
                  (rw newer (IsAcked-fields dst a.tslots)),
            )
            | inr more ↦
                let queue = put-IsQueue q id d v.queue refl in
                let e = unreq_dsts_enqueue_if_not_queued_lem acked id now queue small in
                (
                  unreq_dsts_enqueue_if_not_queued acked id now,
                  rw (newer, no_bug, more) refl,
                  put-enqueue-IsValid q acked id now d v small refl refl refl refl refl
                      (acked_queued-IsFlow dst a.tslots f newer sent),
                  IsAcked-stored q.dsts _ a (as_queued d)
                      (λ k. e.flows k ∙ put-stored q.dsts id d k)
                      (rw newer (record {
                        demand = refl;
                        requested = refl;
                        acked_now = refl;
                        alloc = refl;
                        used = refl;
                      })),
                )
          ]
    ]

chain-IsAcked :
    (a : AreqDesc) (rest : List AreqDesc) (k : ℕ) (d d' d'' : FpDst)
    → IsAcked d d' (highest (a ∷ []) k d.acked_tslots)
    → IsAcked d' d'' (highest rest k d'.acked_tslots)
    → IsAcked d d'' (highest (a ∷ rest) k d.acked_tslots)
chain-IsAcked a rest k d d' d'' x y = record {
  demand = y.demand ∙ x.demand;
  requested = y.requested ∙ x.requested;
  acked_now = y.acked_now ∙ ap (λ n. highest rest k n) x.acked_now;
  alloc = y.alloc ∙ x.alloc;
  used = y.used ∙ x.used;
}

ack_flows_lem :
    (areqs : List AreqDesc) (q : FpSchedData) (now : ℕ)
    → IsValid q
    → AreSent q.dsts areqs
    → (q' : FpSchedData) × (ack_flows areqs q now ≡ ok q')
      × IsValid q'
      × ((k : ℕ) → IsAcked (q.dsts k) (q'.dsts k) (highest areqs k (q.dsts k).acked_tslots))
unfolding ack_flows
ack_flows_lem [] q now v sent = (q, refl, v, λ k. IsAcked-fields (q.dsts k) (q.dsts k).acked_tslots)
ack_flows_lem (a ∷ rest) q now v sent =
    let (q1, done, v1, first) = ack_flow_lem q a now v sent.0 sent.1 in
    let (q2, done2, v2, second) =
      ack_flows_lem rest q1 now v1
        (AreSent-frame q.dsts q1.dsts rest (λ k. (first k).requested) sent.2) in
    (
      q2,
      rw done done2,
      v2,
      λ k. chain-IsAcked a rest k (q.dsts k) (q1.dsts k) (q2.dsts k) (first k) (second k),
    )

-- Where the packet's requests were sent, `handle_ack` fires no BUG_ON, keeps the invariant, and
-- leaves each flow acked up to the highest of its old ACK and the packet's requests for it; its
-- other counters stay.
pub handle_ack_lem :
    (q : FpSchedData) (pd : PktDesc) (now : ℕ)
    → IsValid q
    → AreSent q.dsts pd.areq
    → (q' : FpSchedData) × (handle_ack q pd now ≡ ok q')
      × IsValid q'
      × ((k : ℕ) → IsAcked (q.dsts k) (q'.dsts k) (highest pd.areq k (q.dsts k).acked_tslots))
unfolding handle_ack
handle_ack_lem q pd now v sent = ack_flows_lem pd.areq q now v sent

-- Requests of known flows.
abbrev pub AreKnown : List AreqDesc → Type 0
AreKnown [] = Unit
AreKnown (a ∷ rest) = (a.src_dst_key < 256) × AreKnown rest

nack_flow-IsValid :
    (q : FpSchedData) (a : AreqDesc) (now : ℕ)
    → IsValid q
    → a.src_dst_key < 256
    → IsValid (nack_flow q a now)
unfolding nack_flow
nack_flow-IsValid q a now v small =
    elim (Bool-cases (leb a.tslots (q.dsts a.src_dst_key).acked_tslots)) [
      | inl acked ↦ rw acked v
      | inr lost ↦
          let id = a.src_dst_key in
          rw lost (
            enqueue-IsValid q id now v.queue small (λ k lt other. v.flows k lt)
              (as_queued-IsFlow (q.dsts id) (v.flows id small)))
    ]

nack_flows-IsValid :
    (areqs : List AreqDesc) (q : FpSchedData) (now : ℕ)
    → IsValid q
    → AreKnown areqs
    → IsValid (nack_flows areqs q now)
unfolding nack_flows
nack_flows-IsValid [] q now v known = v
nack_flows-IsValid (a ∷ rest) q now v known =
    nack_flows-IsValid rest (nack_flow q a now) now (nack_flow-IsValid q a now v known.0) known.1

-- `handle_neg_ack` of a packet of known flows keeps the invariant.
pub handle_neg_ack-IsValid :
    (q : FpSchedData) (pd : PktDesc) (now : ℕ)
    → IsValid q
    → AreKnown pd.areq
    → IsValid (handle_neg_ack q pd now)
unfolding handle_neg_ack
handle_neg_ack-IsValid q pd now v known = nack_flows-IsValid pd.areq q now v known

-- A lost packet changes no demand and no used timeslot.
nack_flow_pending :
    (q : FpSchedData) (a : AreqDesc) (now : ℕ)
    → IsValid q
    → a.src_dst_key < 256
    → (k : ℕ)
    → (((nack_flow q a now).dsts k).demand_tslots ≡ (q.dsts k).demand_tslots)
      × (((nack_flow q a now).dsts k).used_tslots ≡ (q.dsts k).used_tslots)
unfolding nack_flow
nack_flow_pending q a now v small k =
    elim (Bool-cases (leb a.tslots (q.dsts a.src_dst_key).acked_tslots)) [
      | inl acked ↦ rw acked (refl, refl)
      | inr lost ↦
          let id = a.src_dst_key in
          let e = unreq_dsts_enqueue_if_not_queued_lem q id now v.queue small in
          elim (Bool-cases (id == k)) [
            | inl same ↦ rw (lost, e.flows k, same) (refl, refl)
            | inr other ↦ rw (lost, e.flows k, other) (refl, refl)
          ]
    ]

nack_flows_pending :
    (areqs : List AreqDesc) (q : FpSchedData) (now : ℕ)
    → IsValid q
    → AreKnown areqs
    → (k : ℕ)
    → (((nack_flows areqs q now).dsts k).demand_tslots ≡ (q.dsts k).demand_tslots)
      × (((nack_flows areqs q now).dsts k).used_tslots ≡ (q.dsts k).used_tslots)
unfolding nack_flows
nack_flows_pending [] q now v known k = (refl, refl)
nack_flows_pending (a ∷ rest) q now v known k =
    let one = nack_flow_pending q a now v known.0 k in
    let more =
      nack_flows_pending rest (nack_flow q a now) now (nack_flow-IsValid q a now v known.0) known.1
        k in
    (more.0 ∙ one.0, more.1 ∙ one.1)

pub handle_neg_ack_pending :
    (q : FpSchedData) (pd : PktDesc) (now : ℕ)
    → IsValid q
    → AreKnown pd.areq
    → (k : ℕ)
    → (((handle_neg_ack q pd now).dsts k).demand_tslots ≡ (q.dsts k).demand_tslots)
      × (((handle_neg_ack q pd now).dsts k).used_tslots ≡ (q.dsts k).used_tslots)
unfolding handle_neg_ack
handle_neg_ack_pending q pd now v known k = nack_flows_pending pd.areq q now v known k
