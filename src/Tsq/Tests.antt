-- ===== src/Tsq/Tests.antt =====
-- The laws of the packet queues at an empty state and at a state with one packet.
use flexplane.Base.{
  ℕ, ◌+◌, ◌-◌, ◌*◌, ◌^◌, ◌≡◌, ◌⊎◌, inl, refl, true, false, none, [], ◌∷◌, arith, Bool, sym, ◌∙◌,
  ◌==◌, if◌then◌else◌, Bool-cases, inr,
}
use flexplane.Base.Checked.{ok, bug}
use flexplane.Tsq.Packet.{SkBuff, eth_p_ip}
use flexplane.Tsq.Tree.{leaf, node, find, holds, IsOrdered}
use flexplane.Tsq.Sched.{
  Kernel, TimeslotSkbQ, TsqStat, TsqSchedData, src_dst_key_hash, hash_cell, empty_dst, dst_lookup,
}
use flexplane.Tsq.Enqueue.{data_key, enqueue_single_skb}
use flexplane.Tsq.Handle.{Action, admit_head, tsq_handle_now}
use flexplane.Tsq.Inv.{IsKernel, IsValid, IsLookedUp, created, slots, dst_lookup_creates}
use flexplane.Tsq.Inv.Enqueued.{IsEnqueued, enqueue_single_skb_lem}
use flexplane.Tsq.Inv.Handled.{IsAdmitted, tsq_handle_now_lem, tsq_handle_now_stuck}
use flexplane.Tsq.Resize.{tsq_tc_resize}
use flexplane.Tsq.Inv.Resized.Moved.{IsPlaced}
use flexplane.Tsq.Inv.Resized.{IsResized, tsq_tc_resize_lem}
use flexplane.Tsq.Sent.{sendable, send_n, send_all}

-- Trees that are not rebalanced, a hash of one value, and packets that take 1000 ns.
abbrev pub plain_kernel : Kernel
plain_kernel = record {
  rb_insert_color = λ t. t;
  jhash_2words = λ a b c. 5 * 2 ^ 22;
  psched_l2t_ns = λ len. 1000;
}

pub plain_kernel-IsKernel : IsKernel plain_kernel
plain_kernel-IsKernel = record {
  rebalanced = λ t v. v;
  same_keys = λ t k. refl;
  cost_positive = λ len. omega arith;
  cost_small = λ len. omega arith;
}

-- For the node 7.
abbrev pub some_skb : SkBuff
some_skb = record {
  protocol = eth_p_ip;
  h_dest = [];
  dissected = none;
  tos = 0;
  ip_daddr = 64 * 9 + 7;
  ip6_daddr = 0;
  pkt_len = 1500;
}

abbrev pub no_tsq_stat : TsqStat
no_tsq_stat = record {
  ctrl_pkts = 0;
  ntp_pkts = 0;
  ptp_pkts = 0;
  arp_pkts = 0;
  igmp_pkts = 0;
  ssh_pkts = 0;
  data_pkts = 0;
  classify_errors = 0;
  classified_ipv6 = 0;
  above_plimit = 0;
  enqueued = 0;
  enqueued_hi_pri = 0;
  allocation_errors = 0;
  pkt_too_big = 0;
  added_tslots = 0;
  dequeued = 0;
  used_timeslots = 0;
  dropped_timeslots = 0;
  modified_timeslots = 0;
  unwanted_alloc = 0;
  dst_not_found_handle_now = 0;
  unrecognized_id = 0;
  unrecognized_action = 0;
}

abbrev pub empty_tsq : TsqSchedData
empty_tsq = record {
  hash_tbl_log = 10;
  tslot_len_approx = 2 ^ 20;
  hash_tbl_locked = false;
  dst_hash_tbl = λ cell. leaf;
  dsts = λ k. empty_dst;
  enqueue_skb_q = [];
  reg_prio = [];
  hi_prio = [];
  prequeue = [];
  dropqueue = [];
  flows = 0;
  inactive_flows = 0;
  qlen = 0;
  limit = 10000;
  stat = no_tsq_stat;
  added = [];
  dropped = [];
}

no_flow : false ≡ true → ⊥
no_flow e = cc

empty_tsq-IsValid : IsValid plain_kernel empty_tsq
unfolding find
empty_tsq-IsValid = record {
  unlocked = refl;
  table = record {
    len_small = omega arith;
    ordered = λ cell. tt;
    flows = λ k there. absurd (no_flow there);
  };
}

dst_lookup_creates_example :
    (q' : TsqSchedData) × (dst_lookup plain_kernel empty_tsq 7 true true ≡ (true, q'))
    × IsLookedUp plain_kernel empty_tsq 7 q'
    × ((q' ≡ empty_tsq) ⊎ (q' ≡ created plain_kernel empty_tsq 7))
dst_lookup_creates_example =
    dst_lookup_creates plain_kernel empty_tsq 7 plain_kernel-IsKernel empty_tsq-IsValid.table

enqueue_single_skb_lem_example :
    (q' : TsqSchedData) × (enqueue_single_skb plain_kernel empty_tsq some_skb true true ≡ ok q')
    × IsEnqueued plain_kernel empty_tsq (data_key some_skb) some_skb q'
enqueue_single_skb_lem_example =
    enqueue_single_skb_lem plain_kernel empty_tsq some_skb plain_kernel-IsKernel empty_tsq-IsValid

abbrev one_slot : TimeslotSkbQ
one_slot = record { skbs = some_skb ∷ []; id = 0 }

-- Every cell has the flow 7, with one timeslot.
abbrev busy_tsq : TsqSchedData
busy_tsq = record empty_tsq {
  dst_hash_tbl = λ cell. node leaf 7 leaf;
  dsts = λ k. record { skb_qs = one_slot ∷ []; credit = 2 ^ 20 - 1000; next_id = 1 };
  prequeue = some_skb ∷ some_skb ∷ [];
}

busy_tsq-IsValid : IsValid plain_kernel busy_tsq
busy_tsq-IsValid = record {
  unlocked = refl;
  table = record {
    len_small = omega arith;
    ordered = λ cell. (tt, tt, tt, tt);
    flows = λ k there. record {
      slots =
          (record { some_skb = omega arith; fits = inl (omega arith); bounded = omega arith }, tt);
      credit = refl;
    };
  };
}

seven_waits : slots plain_kernel busy_tsq 7 ≡ one_slot ∷ []
unfolding find
seven_waits = refl

tsq_handle_now_lem_example :
    (q' : TsqSchedData) × (tsq_handle_now plain_kernel (λ skb. skb) busy_tsq 7 admit_head 0
      ≡ ok (1, q'))
    × IsAdmitted plain_kernel busy_tsq 7 one_slot [] q'
tsq_handle_now_lem_example =
    tsq_handle_now_lem plain_kernel (λ skb. skb) busy_tsq 7 0 one_slot [] busy_tsq-IsValid
      seven_waits

eight_is_idle : slots plain_kernel busy_tsq 8 ≡ []
unfolding find
eight_is_idle = refl

tsq_handle_now_stuck_example :
    (q' : TsqSchedData) × (tsq_handle_now plain_kernel (λ skb. skb) busy_tsq 8 admit_head 0
      ≡ ok (0, q'))
    × ((skb : SkBuff) (dst_allocated q_allocated : Bool)
        → enqueue_single_skb plain_kernel q' skb dst_allocated q_allocated ≡ bug)
    × ((key' : ℕ) (action' : Action) (id' : ℕ)
        → tsq_handle_now plain_kernel (λ skb. skb) q' key' action' id' ≡ bug)
tsq_handle_now_stuck_example =
    tsq_handle_now_stuck plain_kernel (λ skb. skb) busy_tsq 8 admit_head 0 refl eight_is_idle

send_all_example : (send_n 2 busy_tsq).0 ≡ sendable busy_tsq
send_all_example = send_all 2 busy_tsq refl

hash_of_all : (k : ℕ) → hash_cell plain_kernel 10 k ≡ 5
unfolding hash_cell src_dst_key_hash
hash_of_all k = refl

-- The flows 7 and 9 are in the only cell that is used.
abbrev two_flows : TsqSchedData
two_flows = record empty_tsq {
  dst_hash_tbl = λ cell. if cell == 5 then node (node leaf 9 leaf) 7 leaf else leaf;
  dsts = λ k. record { skb_qs = one_slot ∷ []; credit = 2 ^ 20 - 1000; next_id = 1 };
}

two_flows-IsOrdered : (cell : ℕ) → IsOrdered (two_flows.dst_hash_tbl cell)
two_flows-IsOrdered cell = elim (Bool-cases (cell == 5)) [
  | inl e ↦ rw e ((tt, omega arith, tt), tt, (tt, tt, tt, tt), tt)
  | inr e ↦ rw e tt
]

two_flows-IsValid : IsValid plain_kernel two_flows
two_flows-IsValid = record {
  unlocked = refl;
  table = record {
    len_small = omega arith;
    ordered = two_flows-IsOrdered;
    flows = λ k there. record {
      slots =
          (record { some_skb = omega arith; fits = inl (omega arith); bounded = omega arith }, tt);
      credit = refl;
    };
  };
}

two_flows-IsPlaced : IsPlaced plain_kernel 10 two_flows.dst_hash_tbl
unfolding holds
two_flows-IsPlaced cell k h = elim (Bool-cases (cell == 5)) [
  | inl e ↦ hash_of_all k ∙ (ground (arith, e))
  | inr e ↦
      let none : holds (two_flows.dst_hash_tbl cell) k ≡ false = rw e refl in
      absurd (no_flow (sym none ∙ h))
]

tsq_tc_resize_lem_example :
    (q' : TsqSchedData) × (tsq_tc_resize plain_kernel two_flows true 12 true ≡ ok (true, q'))
    × IsResized plain_kernel 12 two_flows q'
tsq_tc_resize_lem_example =
    tsq_tc_resize_lem plain_kernel two_flows 12 plain_kernel-IsKernel two_flows-IsValid
      two_flows-IsPlaced (omega arith)
