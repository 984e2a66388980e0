-- ===== src/Host/Reach/SameTable.antt =====
-- Packets that come or go outside of the flows: the table of flows is as before.
use flexplane.Base.{◌≡◌, inl, inr, refl, ◌∙◌, Bool-cases, List, [], ◌∷◌, ◌++◌, leb}
use flexplane.Endpoint.Sched.{FpSchedData}
use flexplane.Tsq.Packet.{SkBuff}
use flexplane.Tsq.Sched.{Kernel, TsqSchedData, TsqStat}
use flexplane.Tsq.Enqueue.{Class, hi, reg, data_pkt, classify_hi_prio, enqueue_class, tsq_enqueue}
use flexplane.Tsq.Handle.{got_skb, drop_skb, dequeue_from, tsq_dequeue}
use flexplane.Host.Calls.{IsInStep}

-- The queues keep the table and its flows.
pub record IsSameTable (q q' : TsqSchedData) : Type 0 where
  pub lock : q'.hash_tbl_locked ≡ q.hash_tbl_locked
  pub len : q'.tslot_len_approx ≡ q.tslot_len_approx
  pub log : q'.hash_tbl_log ≡ q.hash_tbl_log
  pub table : q'.dst_hash_tbl ≡ q.dst_hash_tbl
  pub dsts : q'.dsts ≡ q.dsts

pub same_table-IsInStep :
    (kernel : Kernel) (fp : FpSchedData) (q q' : TsqSchedData)
    → IsInStep kernel fp q
    → IsSameTable q q'
    → IsInStep kernel fp q'
same_table-IsInStep kernel fp q q' s same =
    let v = s.queues.table in
    record {
      endpoint = s.endpoint;
      queues = record {
        unlocked = same.lock ∙ s.queues.unlocked;
        table = record {
          len_small = rw (same.len) v.len_small;
          ordered = rw (same.table) v.ordered;
          flows = rw (same.len, same.log, same.table, same.dsts) v.flows;
        };
      };
      pending = rw (same.log, same.table, same.dsts) s.pending;
    }

enqueue_class-IsSameTable :
    (c : Class) (stat : TsqStat) (skb : SkBuff) (q : TsqSchedData)
    → IsSameTable q (enqueue_class c stat skb q).1
unfolding enqueue_class
enqueue_class-IsSameTable hi stat skb q = record {
  lock = refl;
  len = refl;
  log = refl;
  table = refl;
  dsts = refl;
}
enqueue_class-IsSameTable reg stat skb q = record {
  lock = refl;
  len = refl;
  log = refl;
  table = refl;
  dsts = refl;
}
enqueue_class-IsSameTable data_pkt stat skb q = elim (Bool-cases (leb q.limit q.qlen)) [
  | inl full ↦ rw (full) (record { lock = refl; len = refl; log = refl; table = refl; dsts = refl })
  | inr room ↦ rw (room) (record { lock = refl; len = refl; log = refl; table = refl; dsts = refl })
]

pub tsq_enqueue-IsSameTable :
    (skb : SkBuff) (q : TsqSchedData) → IsSameTable q (tsq_enqueue skb q).1
unfolding tsq_enqueue
tsq_enqueue-IsSameTable skb q =
    enqueue_class-IsSameTable (classify_hi_prio skb q.stat).0 (classify_hi_prio skb q.stat).1 skb q

drop_skb-IsSameTable : (q : TsqSchedData) → IsSameTable q (drop_skb q)
unfolding drop_skb
drop_skb-IsSameTable q = go q q.dropqueue
  where
    go :
        (q : TsqSchedData) (l : List SkBuff)
        → IsSameTable q (elim l [
          | [] ↦ q
          | skb ∷ skbs ↦ got_skb (record q { dropqueue = skbs; dropped = q.dropped ++ skb ∷ [] })
        ])
    go q [] = record { lock = refl; len = refl; log = refl; table = refl; dsts = refl }
    go q (skb ∷ skbs) = record { lock = refl; len = refl; log = refl; table = refl; dsts = refl }

dequeue_from-IsSameTable :
    (q : TsqSchedData) (hi_prio reg_prio prequeue : List SkBuff)
    → IsSameTable q (dequeue_from q hi_prio reg_prio prequeue).1
unfolding dequeue_from
dequeue_from-IsSameTable q (skb ∷ skbs) reg_prio prequeue = record {
  lock = refl;
  len = refl;
  log = refl;
  table = refl;
  dsts = refl;
}
dequeue_from-IsSameTable q [] (skb ∷ skbs) prequeue = record {
  lock = refl;
  len = refl;
  log = refl;
  table = refl;
  dsts = refl;
}
dequeue_from-IsSameTable q [] [] (skb ∷ skbs) = record {
  lock = refl;
  len = refl;
  log = refl;
  table = refl;
  dsts = refl;
}
dequeue_from-IsSameTable q [] [] [] = drop_skb-IsSameTable q

pub tsq_dequeue-IsSameTable : (q : TsqSchedData) → IsSameTable q (tsq_dequeue q).1
unfolding tsq_dequeue
tsq_dequeue-IsSameTable q = dequeue_from-IsSameTable q q.hi_prio q.reg_prio q.prequeue
