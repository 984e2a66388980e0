-- ===== src/Host/Packets.antt =====
-- An endpoint with its packet queues: packets that come.
use flexplane.Base.{
  ℕ, suc, ◌+◌, ◌*◌, ◌^◌, ◌<◌, ◌≡◌, inl, inr, refl, sym, ap, ◌∙◌, false, ◌==◌, if◌then◌else◌,
  Bool-cases, [], ◌∷◌, ◌++◌, length, arith, add64, bit_or, bit_and,
}
use mathlib.Core.Path.{subst}
use flexplane.Base.Bits.{bit_and-mask, bit_or-zero}
use flexplane.Base.Table.{update}
use flexplane.Base.Checked.{ok}
use flexplane.Endpoint.Sched.{FpDst, FpSchedData, flow_inc_demand, fpq_add_timeslot}
use flexplane.Endpoint.Queue.{as_queued, unreq_dsts_enqueue_if_not_queued_lem}
use flexplane.Endpoint.Inv
use flexplane.Endpoint.Inv.{flow_inc_demand-IsValid, put-IsQueue, put-stored}
use flexplane.Tsq.Packet.{SkBuff, eth_p_ipv6, fp_map_ip_to_id, get_priority, flow_shift, flow_mask}
use flexplane.Tsq.Sched.{Kernel, TsqSchedData}
use flexplane.Tsq.Enqueue.{data_key}
use flexplane.Tsq.Inv.{IsKernel, slots}
use flexplane.Tsq.Inv as Queues
use flexplane.Tsq.Inv.Slots.{packets}
use flexplane.Tsq.Inv.Enqueued.{enqueue_single_skb_lem}
use flexplane.Host.Step.{Host, add_timeslots, host_packet}
use flexplane.Host.Calls.{IsInStep}

-- With no bits for a flow within a node, the key is the node.
key_of_node : (id prio : ℕ) → id < 256 → bit_or (id * 2 ^ flow_shift) (bit_and prio flow_mask) < 256
key_of_node id prio lt =
    let no_flow : bit_and prio flow_mask ≡ 0 = omega (arith, bit_and-mask 0 prio) in
    let same : id * 1 ≡ id = omega arith in rw (no_flow, same, bit_or-zero id id (omega arith)) lt

pub data_key-lt : (skb : SkBuff) → data_key skb < 256
unfolding data_key fp_map_ip_to_id
data_key-lt skb = elim (Bool-cases (skb.protocol == eth_p_ipv6)) [
  | inl six ↦ rw six (key_of_node _ (get_priority skb) (omega arith))
  | inr four ↦ rw four (key_of_node _ (get_priority skb) (omega arith))
]

-- The endpoint with more demand of a flow, before it is put into the queue.
abbrev raised : FpSchedData → ℕ → ℕ → FpSchedData
raised q id amount = record q {
  dsts =
      update q.dsts id
        (record (q.dsts id) { demand_tslots = add64 (q.dsts id).demand_tslots amount });
}

-- More demand of one flow.
more_demand :
    (q : FpSchedData) (id amount now : ℕ)
    → Inv.IsValid q
    → id < 256
    → (q.dsts id).demand_tslots + amount < 2 ^ 63
    → (k : ℕ)
    → (((flow_inc_demand q id amount now).dsts k).demand_tslots
        ≡ (q.dsts k).demand_tslots + (if id == k then amount else 0))
      × (((flow_inc_demand q id amount now).dsts k).used_tslots ≡ (q.dsts k).used_tslots)
unfolding flow_inc_demand
more_demand q id amount now v small fits k =
    let d : FpDst = record (q.dsts id) { demand_tslots = add64 (q.dsts id).demand_tslots amount } in
    let e =
      unreq_dsts_enqueue_if_not_queued_lem (raised q id amount) id now
        (put-IsQueue q id d v.queue refl) small in
    let is = e.flows k ∙ put-stored q.dsts id d k in
    elim (Bool-cases (id == k)) [
      | inl same ↦
          let eq : id ≡ k = ground arith in
          let is' : _ ≡ as_queued d = is ∙ rw same refl in
          let demand : (q.dsts id).demand_tslots ≡ (q.dsts k).demand_tslots =
            ap (λ (j : ℕ). (q.dsts j).demand_tslots) eq in
          let used : (q.dsts id).used_tslots ≡ (q.dsts k).used_tslots =
            ap (λ (j : ℕ). (q.dsts j).used_tslots) eq in
          (
            ap (λ (x : FpDst). x.demand_tslots) is' ∙ rw same (omega (arith, demand)),
            ap (λ (x : FpDst). x.used_tslots) is' ∙ used,
          )
      | inr other ↦
          let is' : _ ≡ q.dsts k = is ∙ rw other refl in
          (
            ap (λ (x : FpDst). x.demand_tslots) is' ∙ rw other (omega arith),
            ap (λ (x : FpDst). x.used_tslots) is',
          )
    ]

-- The packet follows the others of its flow, and the two sides agree.
pub record IsReceived (kernel : Kernel) (q : TsqSchedData) (skb : SkBuff) (h' : Host) : Type 0 where
  pub in_step : IsInStep kernel h'.fp h'.tsq
  pub one_more :
      packets (slots kernel h'.tsq (data_key skb))
      ≡ packets (slots kernel q (data_key skb)) ++ skb ∷ []
  pub others : (k : ℕ) → (data_key skb == k) ≡ false → slots kernel h'.tsq k ≡ slots kernel q k

-- A timeslot that was announced.
announced-IsInStep :
    (kernel : Kernel) (fp : FpSchedData) (q q' : TsqSchedData) (key now : ℕ)
    → IsInStep kernel fp q
    → key < 256
    → (fp.dsts key).demand_tslots + 1 < 2 ^ 63
    → Queues.IsValid kernel q'
    → length (slots kernel q' key) ≡ suc (length (slots kernel q key))
    → ((k : ℕ) → (key == k) ≡ false → slots kernel q' k ≡ slots kernel q k)
    → IsInStep kernel (fpq_add_timeslot fp key now) q'
unfolding fpq_add_timeslot
announced-IsInStep kernel fp q q' key now s small fits valid longer others = record {
  endpoint = flow_inc_demand-IsValid fp key 1 now s.endpoint small fits;
  queues = valid;
  pending = λ k lt.
      let more = more_demand fp key 1 now s.endpoint small fits k in
      elim (Bool-cases (key == k)) [
        | inl same ↦
            let eq : key ≡ k = ground arith in
            let longer_k : length (slots kernel q' k) ≡ suc (length (slots kernel q k)) =
              subst (λ (j : ℕ). length (slots kernel q' j) ≡ suc (length (slots kernel q j))) eq
                longer in
            let bonus : ℕ = if key == k then 1 else 0 in
            let one : bonus ≡ 1 = rw same refl in omega (arith, more, one, longer_k, s.pending k lt)
        | inr other ↦
            let bonus : ℕ = if key == k then 1 else 0 in
            let none_new : bonus ≡ 0 = rw other refl in
            omega (arith, more, none_new, ap length (others k other), s.pending k lt)
      ];
}

same-IsInStep :
    (kernel : Kernel) (fp : FpSchedData) (q q' : TsqSchedData) (key : ℕ)
    → IsInStep kernel fp q
    → Queues.IsValid kernel q'
    → length (slots kernel q' key) ≡ length (slots kernel q key)
    → ((k : ℕ) → (key == k) ≡ false → slots kernel q' k ≡ slots kernel q k)
    → IsInStep kernel fp q'
same-IsInStep kernel fp q q' key s valid same others = record {
  endpoint = s.endpoint;
  queues = valid;
  pending = λ k lt. elim (Bool-cases (key == k)) [
    | inl here ↦
        let eq : key ≡ k = ground arith in
        let same_k : length (slots kernel q' k) ≡ length (slots kernel q k) =
          subst (λ (j : ℕ). length (slots kernel q' j) ≡ length (slots kernel q j)) eq same in
        omega (arith, same_k, s.pending k lt)
    | inr other ↦ omega (arith, ap length (others k other), s.pending k lt)
  ];
}

-- Where an endpoint and its queues agree on what is pending, a data packet that comes fires no bug,
-- with memory for it and the demand of its flow far from 2 ^ 63. The packet follows the others of
-- its flow, other flows keep their timeslots, and the two sides agree again: the endpoint's demand
-- grew if a timeslot was added.
pub host_packet_lem :
    (kernel : Kernel) (h : Host) (skb : SkBuff) (now : ℕ)
    → IsKernel kernel
    → IsInStep kernel h.fp h.tsq
    → (h.fp.dsts (data_key skb)).demand_tslots + 1 < 2 ^ 63
    → (h' : Host) × (host_packet kernel h skb now ≡ ok h') × IsReceived kernel h.tsq skb h'
unfolding host_packet add_timeslots
host_packet_lem kernel h skb now ok_kernel s fits =
    let key = data_key skb in
    let q0 : TsqSchedData = record h.tsq { added = [] } in
    let (q', done, e) = enqueue_single_skb_lem kernel q0 skb ok_kernel (record {
      unlocked = s.queues.unlocked;
      table = record {
        len_small = s.queues.table.len_small;
        ordered = s.queues.table.ordered;
        flows = s.queues.table.flows;
      };
    }) in
    let after : Host = record { fp = add_timeslots q'.added h.fp now; tsq = q' } in
    let in_step : IsInStep kernel after.fp q' = elim e.announced [
      | inl (none_new, same) ↦
          subst (λ keys. IsInStep kernel (add_timeslots keys h.fp now) q') (sym none_new)
            (same-IsInStep kernel h.fp h.tsq q' key s e.valid same e.others)
      | inr (new, longer) ↦
          subst (λ keys. IsInStep kernel (add_timeslots keys h.fp now) q') (sym new)
            (announced-IsInStep kernel h.fp h.tsq q' key now s (data_key-lt skb) fits e.valid longer
              e.others)
    ] in
    (after, rw done refl, record { in_step = in_step; one_more = e.one_more; others = e.others })
