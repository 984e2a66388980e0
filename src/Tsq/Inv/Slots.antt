-- ===== src/Tsq/Inv/Slots.antt =====
-- kernel-mod/sch_timeslot.c: adding a packet to the timeslots of a flow.
use flexplane.Base.{
  ℕ, suc, ◌+◌, ◌^◌, ◌<◌, ◌≤◌, ◌≡◌, inl, inr, refl, sym, ap, ◌∙◌, false, List, [], ◌∷◌, ◌++◌, length,
  length-append, append_assoc, append_nil, arith, sub64,
}
use flexplane.Base.Checked.{ok}
use flexplane.Tsq.Packet.{SkBuff}
use flexplane.Tsq.Sched.{Kernel, TimeslotSkbQ}
use flexplane.Tsq.Enqueue.{gt_s64, enqueue_last}
use flexplane.Tsq.Inv.{IsKernel, IsSlot, AreSlots, IsCredit, cost, cost-append}

-- The packets of some timeslots, oldest first.
abbrev pub packets : List TimeslotSkbQ → List SkBuff
packets [] = []
packets (t ∷ ts) = t.skbs ++ packets ts

pub packets-append : (ts us : List TimeslotSkbQ) → packets (ts ++ us) ≡ packets ts ++ packets us
packets-append [] us = refl
packets-append (t ∷ ts) us =
    ap (λ l. t.skbs ++ l) (packets-append ts us)
    ∙ sym (append_assoc t.skbs (packets ts) (packets us))

pub AreSlots-append :
    (kernel : Kernel) (len : ℕ) (ts : List TimeslotSkbQ) (t : TimeslotSkbQ)
    → AreSlots kernel len ts
    → IsSlot kernel len t
    → AreSlots kernel len (ts ++ t ∷ [])
AreSlots-append kernel len [] t v s = (s, tt)
AreSlots-append kernel len (u ∷ ts) t v s = (v.0, AreSlots-append kernel len ts t v.1 s)

pub IsCredit-append :
    (kernel : Kernel) (len : ℕ) (ts : List TimeslotSkbQ) (t : TimeslotSkbQ)
    → IsCredit kernel len (ts ++ t ∷ []) (sub64 len (cost kernel t.skbs))
IsCredit-append kernel len [] t = refl
IsCredit-append kernel len (u ∷ []) t = refl
IsCredit-append kernel len (u ∷ u' ∷ ts) t = IsCredit-append kernel len (u' ∷ ts) t

-- A packet alone in its timeslot.
pub alone-IsSlot :
    (kernel : Kernel) (len id : ℕ) (skb : SkBuff)
    → IsKernel kernel
    → IsSlot kernel len (record { skbs = skb ∷ []; id = id })
alone-IsSlot kernel len id skb k = record {
  some_skb = omega arith;
  fits = inr refl;
  bounded = omega (arith, k.cost_small skb.pkt_len);
}

-- What is left of a timeslot has room for the packet, unless the packet costs more.
room_for :
    (len total c : ℕ)
    → len < 2 ^ 32
    → total < 2 ^ 62
    → 0 < c
    → c < 2 ^ 62
    → gt_s64 c (sub64 len total) ≡ false
    → total + c ≤ len
room_for len total c hl ht hc hc' le = ground arith

more-IsSlot :
    (kernel : Kernel) (len : ℕ) (t : TimeslotSkbQ) (skb : SkBuff)
    → len < 2 ^ 32
    → IsKernel kernel
    → IsSlot kernel len t
    → gt_s64 (kernel.psched_l2t_ns skb.pkt_len) (sub64 len (cost kernel t.skbs)) ≡ false
    → IsSlot kernel len (record t { skbs = t.skbs ++ skb ∷ [] })
      × (sub64 (sub64 len (cost kernel t.skbs)) (kernel.psched_l2t_ns skb.pkt_len)
          ≡ sub64 len (cost kernel (t.skbs ++ skb ∷ [])))
more-IsSlot kernel len t skb hl k s le =
    let sum = cost-append kernel t.skbs (skb ∷ []) in
    let room =
      room_for len (cost kernel t.skbs) (kernel.psched_l2t_ns skb.pkt_len) hl s.bounded
        (k.cost_positive skb.pkt_len) (k.cost_small skb.pkt_len) le in
    (
      record {
        some_skb = omega (arith, length-append t.skbs (skb ∷ []));
        fits = inl (omega (arith, sum, room));
        bounded = omega (arith, sum, room);
      },
      omega (arith, sum, room),
    )

-- The newest timeslot with the packet.
pub record IsMore (kernel : Kernel) (len : ℕ) (ts : List TimeslotSkbQ) (skb : SkBuff) (credit : ℕ)
    (ts' : List TimeslotSkbQ) : Type 0 where
  pub slots : AreSlots kernel len ts'
  pub credit_left : IsCredit kernel len ts' credit
  pub same_length : length ts' ≡ length ts
  pub one_more : packets ts' ≡ packets ts ++ skb ∷ []

-- A packet that costs no more than the credit goes to the newest timeslot: there is one, as the
-- credit of no timeslot is 0.
pub enqueue_last_lem :
    (kernel : Kernel) (len : ℕ) (ts : List TimeslotSkbQ) (skb : SkBuff) (credit : ℕ)
    → len < 2 ^ 32
    → IsKernel kernel
    → AreSlots kernel len ts
    → IsCredit kernel len ts credit
    → gt_s64 (kernel.psched_l2t_ns skb.pkt_len) credit ≡ false
    → (ts' : List TimeslotSkbQ) × (enqueue_last ts skb ≡ ok ts')
      × IsMore kernel len ts skb (sub64 credit (kernel.psched_l2t_ns skb.pkt_len)) ts'
unfolding enqueue_last
enqueue_last_lem kernel len [] skb credit hl k v c le =
    absurd (ground (arith, k.cost_positive skb.pkt_len, k.cost_small skb.pkt_len))
enqueue_last_lem kernel len (t ∷ []) skb credit hl k v c le =
    let more = more-IsSlot kernel len t skb hl k v.0 (rw (← c) le) in
    (
      record t { skbs = t.skbs ++ skb ∷ [] } ∷ [],
      refl,
      record {
        slots = (more.0, tt);
        credit_left = rw c more.1;
        same_length = refl;
        one_more =
            append_nil (t.skbs ++ skb ∷ []) ∙ ap (λ l. l ++ skb ∷ []) (sym (append_nil t.skbs));
      },
    )
enqueue_last_lem kernel len (t ∷ t' ∷ ts) skb credit hl k v c le =
    let (rest, done, m) = enqueue_last_lem kernel len (t' ∷ ts) skb credit hl k v.1 c le in
    (
      t ∷ rest,
      rw done refl,
      record {
        slots = (v.0, m.slots);
        credit_left = later_credit kernel len t rest _ m.same_length m.credit_left;
        same_length = ap suc m.same_length;
        one_more =
            ap (λ l. t.skbs ++ l) m.one_more
            ∙ sym (append_assoc t.skbs (packets (t' ∷ ts)) (skb ∷ []));
      },
    )
  where
    later_credit :
        (kernel : Kernel) (len : ℕ) (t : TimeslotSkbQ) (rest : List TimeslotSkbQ) (credit : ℕ)
        {n : ℕ}
        → length rest ≡ suc n
        → IsCredit kernel len rest credit
        → IsCredit kernel len (t ∷ rest) credit
    later_credit kernel len t [] credit e c = absurd (omega (arith, e))
    later_credit kernel len t (u ∷ us) credit e c = c
