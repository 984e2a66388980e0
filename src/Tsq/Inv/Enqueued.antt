-- ===== src/Tsq/Inv/Enqueued.antt =====
-- kernel-mod/sch_timeslot.c: enqueue_single_skb and the loop of the tasklet.
use flexplane.Base.{
  ℕ, suc, ◌+◌, ◌^◌, ◌≡◌, ◌⊎◌, inl, inr, refl, sym, ap, ◌∙◌, ◌==◌, true, false, if◌then◌else◌,
  Bool-cases, ==-refl, [], ◌∷◌, ◌++◌, length, length-append, arith, sub64, ◌%◌,
}
use flexplane.Base.Checked.{ok}
use flexplane.Base.Table.{update, update_lem}
use flexplane.Protocol.Conn.{inc}
use flexplane.Tsq.Packet.{SkBuff, eth_p_ipv6}
use flexplane.Tsq.Sched.{Kernel, TsqDst, TsqSchedData, lock_table}
use flexplane.Tsq.Enqueue.{
  gt_s64, data_key, classify_data, new_timeslot, same_timeslot, enqueue_single_skb,
}
use flexplane.Tsq.Inv.{IsKernel, present, slots, IsDst, IsTable, IsValid, dst_lookup_creates}
use flexplane.Tsq.Inv.Slots.{
  packets, packets-append, AreSlots-append, IsCredit-append, alone-IsSlot, enqueue_last_lem,
}

-- The flow of one key is stored anew.
pub put-flows :
    (kernel : Kernel) (q : TsqSchedData) (key : ℕ) (d : TsqDst)
    → IsTable kernel q
    → IsDst kernel q.tslot_len_approx d
    → (k : ℕ) → present kernel q k ≡ true
    → IsDst kernel q.tslot_len_approx (update q.dsts key d k)
put-flows kernel q key d v is k there = elim (Bool-cases (key == k)) [
  | inl same ↦ rw (update_lem q.dsts key k d, same) is
  | inr other ↦ rw (update_lem q.dsts key k d, other) (v.flows k there)
]

pub put-IsTable :
    (kernel : Kernel) (q : TsqSchedData) (key : ℕ) (d : TsqDst)
    → IsTable kernel q
    → IsDst kernel q.tslot_len_approx d
    → IsTable kernel (record q { dsts = update q.dsts key d })
put-IsTable kernel q key d v is = record {
  len_small = v.len_small;
  ordered = v.ordered;
  flows = put-flows kernel q key d v is;
}

pub slots_put :
    (kernel : Kernel) (q : TsqSchedData) (key : ℕ) (d : TsqDst)
    → present kernel q key ≡ true
    → (k : ℕ)
    → slots kernel (record q { dsts = update q.dsts key d }) k
      ≡ (if key == k then d.skb_qs else slots kernel q k)
slots_put kernel q key d there k = elim (Bool-cases (key == k)) [
  | inl same ↦
      let e : key ≡ k = ground arith in
      let there' : present kernel q k ≡ true = ap (present kernel q) (sym e) ∙ there in
      rw (update_lem q.dsts key k d, same, there') refl
  | inr other ↦ rw (update_lem q.dsts key k d, other) refl
]

-- One packet more for a flow, in a new timeslot that is announced or in the newest one.
pub record IsEnqueued (kernel : Kernel) (q : TsqSchedData) (key : ℕ) (skb : SkBuff)
    (q' : TsqSchedData) : Type 0 where
  pub valid : IsValid kernel q'
  pub others : (k : ℕ) → (key == k) ≡ false → slots kernel q' k ≡ slots kernel q k
  pub one_more : packets (slots kernel q' key) ≡ packets (slots kernel q key) ++ skb ∷ []
  pub announced :
      ((q'.added ≡ q.added) × (length (slots kernel q' key) ≡ length (slots kernel q key)))
      ⊎ ((q'.added ≡ q.added ++ key ∷ [])
          × (length (slots kernel q' key) ≡ suc (length (slots kernel q key))))

-- The table of a state that differs in the lock and the counters.
abbrev pub AreSameFlows : TsqSchedData → TsqSchedData → Type 0
AreSameFlows q q' =
    (q'.dst_hash_tbl ≡ q.dst_hash_tbl) × (q'.dsts ≡ q.dsts) × (q'.hash_tbl_log ≡ q.hash_tbl_log)

slot_at_key :
    (kernel : Kernel) (q : TsqSchedData) (key : ℕ)
    → present kernel q key ≡ true
    → (q.dsts key).skb_qs ≡ slots kernel q key
slot_at_key kernel q key there = rw there refl

new_timeslot-IsEnqueued :
    (kernel : Kernel) (q : TsqSchedData) (key : ℕ) (skb : SkBuff)
    → IsKernel kernel
    → IsTable kernel q
    → present kernel q key ≡ true
    → IsEnqueued kernel q key skb (new_timeslot q key skb (kernel.psched_l2t_ns skb.pkt_len))
unfolding new_timeslot
new_timeslot-IsEnqueued kernel q key skb ok_kernel v there =
    let old = q.dsts key in
    let is = v.flows key there in
    let d : TsqDst = record {
      skb_qs = old.skb_qs ++ record { skbs = skb ∷ []; id = old.next_id } ∷ [];
      credit = sub64 q.tslot_len_approx (kernel.psched_l2t_ns skb.pkt_len);
      next_id = (old.next_id + 1) % 2 ^ 16;
    } in
    let alone = alone-IsSlot kernel q.tslot_len_approx old.next_id skb ok_kernel in
    let sum : kernel.psched_l2t_ns skb.pkt_len + 0 ≡ kernel.psched_l2t_ns skb.pkt_len =
      omega arith in
    let d-IsDst : IsDst kernel q.tslot_len_approx d = record {
      slots = AreSlots-append kernel q.tslot_len_approx old.skb_qs _ is.slots alone;
      credit = rw (← sum) (
          IsCredit-append kernel q.tslot_len_approx old.skb_qs
            (record { skbs = skb ∷ []; id = old.next_id }));
    } in
    let stored = put-IsTable kernel q key d v d-IsDst in
    let at = slots_put kernel q key d there in
    let here : slots kernel (record q { dsts = update q.dsts key d }) key ≡ d.skb_qs =
      at key ∙ rw (==-refl key) refl in
    let before = slot_at_key kernel q key there in
    record {
      valid = record {
        unlocked = refl;
        table = record { len_small = v.len_small; ordered = v.ordered; flows = stored.flows };
      };
      others = λ k other. at k ∙ rw other refl;
      one_more =
          ap packets here ∙ packets-append old.skb_qs _ ∙ ap (λ ts. packets ts ++ skb ∷ []) before;
      announced =
          inr (refl, ap length here ∙ length-append old.skb_qs _ ∙ omega (arith, ap length before));
    }

same_timeslot-IsEnqueued :
    (kernel : Kernel) (q : TsqSchedData) (key : ℕ) (skb : SkBuff)
    → IsKernel kernel
    → IsTable kernel q
    → present kernel q key ≡ true
    → gt_s64 (kernel.psched_l2t_ns skb.pkt_len) (q.dsts key).credit ≡ false
    → (q' : TsqSchedData) × (same_timeslot q key skb (kernel.psched_l2t_ns skb.pkt_len) ≡ ok q')
      × IsEnqueued kernel q key skb q'
unfolding same_timeslot
same_timeslot-IsEnqueued kernel q key skb ok_kernel v there le =
    let old = q.dsts key in
    let is = v.flows key there in
    let (ts', done, m) =
      enqueue_last_lem kernel q.tslot_len_approx old.skb_qs skb old.credit v.len_small ok_kernel
        is.slots is.credit le in
    let d : TsqDst = record old {
      skb_qs = ts';
      credit = sub64 old.credit (kernel.psched_l2t_ns skb.pkt_len);
    } in
    let stored =
      put-IsTable kernel q key d v (record { slots = m.slots; credit = m.credit_left }) in
    let at = slots_put kernel q key d there in
    let here : slots kernel (record q { dsts = update q.dsts key d }) key ≡ ts' =
      at key ∙ rw (==-refl key) refl in
    let before = slot_at_key kernel q key there in
    (
      record q { dsts = update q.dsts key d; hash_tbl_locked = false },
      rw done refl,
      record {
        valid = record {
          unlocked = refl;
          table = record { len_small = v.len_small; ordered = v.ordered; flows = stored.flows };
        };
        others = λ k other. at k ∙ rw other refl;
        one_more = ap packets here ∙ m.one_more ∙ ap (λ ts. packets ts ++ skb ∷ []) before;
        announced = inl (refl, ap length here ∙ m.same_length ∙ ap length before);
      },
    )

-- The state in which the flow is looked up.
abbrev classified : Kernel → TsqSchedData → SkBuff → TsqSchedData
classified kernel q skb = record q {
  hash_tbl_locked = true;
  stat = record q.stat {
    classified_ipv6 =
        if skb.protocol == eth_p_ipv6 then inc q.stat.classified_ipv6 else q.stat.classified_ipv6;
    data_pkts = inc q.stat.data_pkts;
  };
}

-- What the lookup before it leaves as it was.
IsEnqueued-from :
    (kernel : Kernel) (q q1 q' : TsqSchedData) (key : ℕ) (skb : SkBuff)
    → ((k : ℕ) → slots kernel q1 k ≡ slots kernel q k)
    → q1.added ≡ q.added
    → IsEnqueued kernel q1 key skb q'
    → IsEnqueued kernel q key skb q'
IsEnqueued-from kernel q q1 q' key skb same added e = record {
  valid = e.valid;
  others = λ k other. e.others k other ∙ same k;
  one_more = e.one_more ∙ ap (λ ts. packets ts ++ skb ∷ []) (same key);
  announced = elim e.announced [
    | inl old ↦ inl (old.0 ∙ added, old.1 ∙ ap length (same key))
    | inr new ↦
        inr (new.0 ∙ ap (λ l. l ++ key ∷ []) added, new.1 ∙ ap (λ ts. suc (length ts)) (same key))
  ];
}

-- From a valid state and with memory, `enqueue_single_skb` fires no bug. It keeps the state valid:
-- timeslots have packets that fit in them or one that is larger than a timeslot, and the credit
-- of a flow is what its newest timeslot has left. The packet follows the others of the flow of its
-- key, and other flows keep their timeslots. Either no timeslot is added, or one, which is
-- announced to the endpoint.
pub enqueue_single_skb_lem :
    (kernel : Kernel) (q : TsqSchedData) (skb : SkBuff)
    → IsKernel kernel
    → IsValid kernel q
    → (q' : TsqSchedData) × (enqueue_single_skb kernel q skb true true ≡ ok q')
      × IsEnqueued kernel q (data_key skb) skb q'
unfolding enqueue_single_skb lock_table classify_data
enqueue_single_skb_lem kernel q skb ok_kernel v =
    let key = data_key skb in
    let c = kernel.psched_l2t_ns skb.pkt_len in
    let q0 = (classified kernel q skb) in
    let v0 : IsTable kernel q0 = record {
      len_small = v.table.len_small;
      ordered = v.table.ordered;
      flows = v.table.flows;
    } in
    let (q1, found, looked, kept) = dst_lookup_creates kernel q0 key ok_kernel v0 in
    let added : q1.added ≡ q.added = elim kept [
      | inl same ↦ ap (λ (r : TsqSchedData). r.added) same
      | inr new ↦ ap (λ (r : TsqSchedData). r.added) new
    ] in
    elim (Bool-cases (gt_s64 c (q1.dsts key).credit)) [
      | inl more ↦ (
        new_timeslot q1 key skb c,
        rw (v.unlocked, found, more) refl,
        IsEnqueued-from kernel q q1 _ key skb looked.same_slots added
            (new_timeslot-IsEnqueued kernel q1 key skb ok_kernel looked.table looked.there),
      )
      | inr le ↦
          let (q', done, e) =
            same_timeslot-IsEnqueued kernel q1 key skb ok_kernel looked.table looked.there le in
          (
            q',
            rw (v.unlocked, found, le) done,
            IsEnqueued-from kernel q q1 q' key skb looked.same_slots added e,
          )
    ]
