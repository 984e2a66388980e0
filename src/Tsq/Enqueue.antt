-- ===== src/Tsq/Enqueue.antt =====
-- kernel-mod/sch_timeslot.c: classifying and enqueueing packets. The calls that wake the qdisc
-- and the locks other than the table's are left out.
use flexplane.Base.{
  ℕ, ◌+◌, ◌*◌, ◌^◌, ◌==◌, ltb, leb, Bool, true, false, not, ◌||◌, if◌then◌else◌, Option, none, some,
  List, [], ◌∷◌, ◌++◌, bit_and, bit_or, add64, sub64, add32, sub32, u16,
}
use flexplane.Base.Checked.{Checked, ok, bug, ◌>>=◌}
use flexplane.Base.Table.{update}
use flexplane.Protocol.Checksum.{ipproto_fastpass}
use flexplane.Protocol.Conn.{inc}
use flexplane.Tsq.Packet.{
  FlowKeys, SkBuff, eth_p_all, eth_p_ip, eth_p_arp, eth_p_ipv6, eth_p_1588, ipproto_igmp,
  ipproto_tcp, ipproto_udp, get_dst_mac, get_priority, flow_shift, flow_mask, fp_map_ip_to_id,
}
use flexplane.Tsq.Sched.{Kernel, TimeslotSkbQ, TsqStat, TsqSchedData, lock_table, dst_lookup}

-- Where a packet goes: `data` is the NULL of classify_hi_prio.
pub data Class : Type 0 where
  hi : Class
  reg : Class
  data_pkt : Class

unfoldable pub cannot_classify : TsqStat → Class × TsqStat
cannot_classify stat = (reg, record stat { classify_errors = inc stat.classify_errors })

-- The switch over ip_proto. `((ntohs(port) - 1) & ~1) == 318` holds of the ports 319 and 320.
unfoldable pub classify_ip : Option FlowKeys → TsqStat → Class × TsqStat
classify_ip none stat = cannot_classify stat
classify_ip (some keys) stat =
    if keys.ip_proto == ipproto_igmp
    then (reg, record stat { igmp_pkts = inc stat.igmp_pkts })
    else if keys.ip_proto == ipproto_udp
    then if keys.port_dst == 123
      then (hi, record stat { ntp_pkts = inc stat.ntp_pkts })
      else if keys.port_dst == 319 || keys.port_dst == 320
      then (hi, record stat { ptp_pkts = inc stat.ptp_pkts })
      else (data_pkt, stat)
    else if keys.ip_proto == ipproto_tcp
    then if keys.port_src == 22 || keys.port_dst == 22
      then (reg, record stat { ssh_pkts = inc stat.ssh_pkts })
      else (data_pkt, stat)
    else if keys.ip_proto == ipproto_fastpass
    then (hi, record stat { ctrl_pkts = inc stat.ctrl_pkts })
    else (data_pkt, stat)

unfoldable pub classify_hi_prio : SkBuff → TsqStat → Class × TsqStat
classify_hi_prio skb stat =
    if skb.protocol == eth_p_arp
    then (reg, record stat { arp_pkts = inc stat.arp_pkts })
    else if skb.protocol == eth_p_1588 || skb.protocol == eth_p_all
    then if get_dst_mac skb == 0x011b19000000
      then (hi, record stat { ptp_pkts = inc stat.ptp_pkts })
      else cannot_classify stat
    else if skb.protocol == eth_p_ipv6 || skb.protocol == eth_p_ip
    then classify_ip skb.dissected stat
    else cannot_classify stat

-- The key of the flow of a data packet, by its IP address.
unfoldable pub data_key : SkBuff → ℕ
data_key skb =
    let dst_id =
      if skb.protocol == eth_p_ipv6
      then fp_map_ip_to_id skb.ip6_daddr
      else fp_map_ip_to_id skb.ip_daddr in
    bit_or (dst_id * 2 ^ flow_shift) (bit_and (get_priority skb) flow_mask)

unfoldable pub classify_data : Kernel → SkBuff → TsqSchedData → Bool → Bool × TsqSchedData
classify_data kernel skb q allocated =
    let stat = record q.stat {
      classified_ipv6 =
          if skb.protocol == eth_p_ipv6 then inc q.stat.classified_ipv6 else q.stat.classified_ipv6;
      data_pkts = inc q.stat.data_pkts;
    } in
    dst_lookup kernel (record q { stat = stat }) (data_key skb) true allocated

-- A packet of class `hi` or `reg` is queued for the link, a data packet for the tasklet, if the
-- qdisc has room; the Boolean is false if it was dropped.
unfoldable pub enqueue_class : Class → TsqStat → SkBuff → TsqSchedData → Bool × TsqSchedData
enqueue_class hi stat skb q = (
  true,
  record q {
    stat = record stat { enqueued_hi_pri = inc stat.enqueued_hi_pri };
    hi_prio = q.hi_prio ++ skb ∷ [];
    qlen = add32 q.qlen 1;
  },
)
enqueue_class reg stat skb q = (
  true,
  record q {
    stat = record stat { enqueued_hi_pri = inc stat.enqueued_hi_pri };
    reg_prio = q.reg_prio ++ skb ∷ [];
    qlen = add32 q.qlen 1;
  },
)
enqueue_class data_pkt stat skb q =
    if leb q.limit q.qlen
    then (
      false,
      record q {
        stat = record stat { above_plimit = inc stat.above_plimit };
        dropped = q.dropped ++ skb ∷ [];
      },
    )
    else (
      true,
      record q {
        stat = record stat { enqueued = inc stat.enqueued };
        enqueue_skb_q = q.enqueue_skb_q ++ skb ∷ [];
        qlen = add32 q.qlen 1;
      },
    )

unfoldable pub tsq_enqueue : SkBuff → TsqSchedData → Bool × TsqSchedData
tsq_enqueue skb q =
    let (class, stat) = classify_hi_prio skb q.stat in enqueue_class class stat skb q

-- `a > b` of two s64.
abbrev pub gt_s64 : ℕ → ℕ → Bool
gt_s64 a b = ltb (add64 b (2 ^ 63)) (add64 a (2 ^ 63))

-- The newest timeslot of a flow gets the packet; an empty list has none.
unfoldable pub enqueue_last : List TimeslotSkbQ → SkBuff → Checked (List TimeslotSkbQ)
enqueue_last [] skb = bug
enqueue_last (t ∷ []) skb = ok (record t { skbs = t.skbs ++ skb ∷ [] } ∷ [])
enqueue_last (t ∷ t' ∷ ts) skb = enqueue_last (t' ∷ ts) skb >>= λ rest. ok (t ∷ rest)

-- A new timeslot with the packet, for the flow of the key.
unfoldable pub new_timeslot : TsqSchedData → ℕ → SkBuff → ℕ → TsqSchedData
new_timeslot q src_dst_key skb cost =
    let dst = q.dsts src_dst_key in
    record q {
      dsts = update q.dsts src_dst_key (record {
        skb_qs = dst.skb_qs ++ record { skbs = skb ∷ []; id = dst.next_id } ∷ [];
        credit = sub64 q.tslot_len_approx cost;
        next_id = u16 (dst.next_id + 1);
      });
      inactive_flows = elim dst.skb_qs [ [] ↦ sub32 q.inactive_flows 1 | _ ∷ _ ↦ q.inactive_flows ];
      stat = record q.stat {
        added_tslots = inc q.stat.added_tslots;
        pkt_too_big =
            if gt_s64 cost q.tslot_len_approx then inc q.stat.pkt_too_big else q.stat.pkt_too_big;
      };
      added = q.added ++ src_dst_key ∷ [];
      hash_tbl_locked = false;
    }

-- The newest timeslot of the flow gets the packet.
unfoldable pub same_timeslot : TsqSchedData → ℕ → SkBuff → ℕ → Checked TsqSchedData
same_timeslot q src_dst_key skb cost =
    let dst = q.dsts src_dst_key in
    enqueue_last dst.skb_qs skb >>= λ skb_qs. ok (record q {
      dsts =
          update q.dsts src_dst_key
            (record dst { skb_qs = skb_qs; credit = sub64 dst.credit cost });
      hash_tbl_locked = false;
    })

-- The jump to enqueue_to_prequeue leaves the table locked.
abbrev pub enqueue_to_prequeue : TsqSchedData → SkBuff → TsqSchedData
enqueue_to_prequeue q skb = record q { prequeue = q.prequeue ++ skb ∷ [] }

-- `dst_allocated` and `q_allocated` are false if there is no memory for a flow and a timeslot.
unfoldable pub enqueue_single_skb :
    Kernel → TsqSchedData → SkBuff → Bool → Bool → Checked TsqSchedData
enqueue_single_skb kernel q skb dst_allocated q_allocated =
    let cost = kernel.psched_l2t_ns skb.pkt_len in
    lock_table q >>= λ locked.
    let (found, classified) = classify_data kernel skb locked dst_allocated in
    let key = data_key skb in
    if not found
    then ok (enqueue_to_prequeue classified skb)
    else if gt_s64 cost (classified.dsts key).credit
    then if not q_allocated
      then ok (enqueue_to_prequeue classified skb)
      else ok (new_timeslot classified key skb cost)
    else same_timeslot classified key skb cost

-- The loop of the tasklet over its packets, with memory for all.
unfoldable pub enqueue_skbs : Kernel → TsqSchedData → List SkBuff → Checked TsqSchedData
enqueue_skbs kernel q [] = ok q
enqueue_skbs kernel q (skb ∷ skbs) =
    enqueue_single_skb kernel q skb true true >>= λ q'. enqueue_skbs kernel q' skbs

unfoldable pub enqueue_tasklet_func : Kernel → TsqSchedData → Checked TsqSchedData
enqueue_tasklet_func kernel q =
    enqueue_skbs kernel (record q { enqueue_skb_q = [] }) q.enqueue_skb_q
