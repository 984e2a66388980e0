-- ===== src/Tsq/Handle.antt =====
-- kernel-mod/sch_timeslot.c: admitting, dropping and sending the packets of timeslots.
use flexplane.Base.{
  ℕ, ◌+◌, ◌==◌, Bool, true, false, if◌then◌else◌, Option, none, some, List, [], ◌∷◌, ◌++◌, add32,
  sub32, u16,
}
use flexplane.Base.Checked.{Checked, ok, bug, ◌>>=◌}
use flexplane.Base.Table.{update}
use flexplane.Protocol.Conn.{inc}
use flexplane.Tsq.Packet.{SkBuff}
use flexplane.Tsq.Sched.{
  Kernel, TimeslotSkbQ, TsqSchedData, lock_table, unlock_table, skb_q_append, dst_lookup,
}

-- The actions on a timeslot; `unrecognized` is any other number.
pub data Action : Type 0 where
  admit_head : Action
  admit_by_id : Action
  drop_by_id : Action
  modify_by_id : Action
  unrecognized : Action

-- The oldest timeslot with the id, and the others.
unfoldable pub take_id : List TimeslotSkbQ → ℕ → Option (TimeslotSkbQ × List TimeslotSkbQ)
take_id [] id = none
take_id (t ∷ ts) id =
    let later = take_id ts id in
    if t.id == id
    then some (t, ts)
    else elim later [ none ↦ none | some found ↦ some (found.0, t ∷ found.1) ]

unfoldable pub take_head : List TimeslotSkbQ → Option (TimeslotSkbQ × List TimeslotSkbQ)
take_head [] = none
take_head (t ∷ ts) = some (t, ts)

-- The timeslot that an action is for.
unfoldable pub take_timeslot :
    Action → List TimeslotSkbQ → ℕ → Option (TimeslotSkbQ × List TimeslotSkbQ)
take_timeslot admit_head ts id = take_head ts
take_timeslot admit_by_id ts id = take_id ts id
take_timeslot drop_by_id ts id = take_id ts id
take_timeslot modify_by_id ts id = take_id ts id
take_timeslot unrecognized ts id = none

-- At no_match.
unfoldable pub no_match : Action → TsqSchedData → TsqSchedData
no_match unrecognized q =
    unlock_table
      (record q { stat = record q.stat { unrecognized_action = inc q.stat.unrecognized_action } })
no_match _ q =
    unlock_table
      (record q { stat = record q.stat { unrecognized_id = inc q.stat.unrecognized_id } })

-- The counter of an action that found its timeslot.
unfoldable pub count_action : Action → TsqSchedData → TsqSchedData
count_action drop_by_id q = record q {
  stat = record q.stat { dropped_timeslots = inc q.stat.dropped_timeslots };
}
count_action modify_by_id q = record q {
  stat = record q.stat { modified_timeslots = inc q.stat.modified_timeslots };
}
count_action _ q = record q { stat = record q.stat { used_timeslots = inc q.stat.used_timeslots } }

unfoldable pub map_skbs : (SkBuff → SkBuff) → List SkBuff → List SkBuff
map_skbs f [] = []
map_skbs f (skb ∷ skbs) = f skb ∷ map_skbs f skbs

-- What happens to the packets of the timeslot; `prepare_to_send` is the endpoint's callback.
unfoldable pub perform :
    Action → (SkBuff → SkBuff) → TsqSchedData → List SkBuff → Checked TsqSchedData
perform drop_by_id prepare_to_send q skbs =
    skb_q_append q.dropqueue skbs >>= λ dropqueue. ok (record q { dropqueue = dropqueue })
perform modify_by_id prepare_to_send q skbs =
    skb_q_append q.prequeue (map_skbs prepare_to_send skbs) >>= λ prequeue.
    ok (record q { prequeue = prequeue })
perform _ prepare_to_send q skbs =
    skb_q_append q.prequeue skbs >>= λ prequeue. ok (record q { prequeue = prequeue })

-- The flow without the timeslot, which `found_entry` unlinks.
unfoldable pub unlink : TsqSchedData → ℕ → List TimeslotSkbQ → TsqSchedData
unlink q src_dst_key [] = record q {
  dsts = update q.dsts src_dst_key (record (q.dsts src_dst_key) { skb_qs = []; credit = 0 });
  inactive_flows = add32 q.inactive_flows 1;
}
unlink q src_dst_key (t ∷ ts) = record q {
  dsts = update q.dsts src_dst_key (record (q.dsts src_dst_key) { skb_qs = t ∷ ts });
}

-- After the lookup of the flow. The returns for a flow that is not there and for one without a
-- timeslot leave the table locked.
unfoldable pub handle_looked :
    (SkBuff → SkBuff) → ℕ → Action → ℕ → Bool × TsqSchedData → Checked (ℕ × TsqSchedData)
handle_looked prepare_to_send src_dst_key action id (false, q) = ok (
  0,
  record q {
    stat = record q.stat { dst_not_found_handle_now = inc q.stat.dst_not_found_handle_now };
  },
)
handle_looked prepare_to_send src_dst_key action id (true, q) = elim (q.dsts src_dst_key).skb_qs [
  | [] ↦ ok (0, record q { stat = record q.stat { unwanted_alloc = inc q.stat.unwanted_alloc } })
  | t ∷ ts ↦ elim (take_timeslot action (t ∷ ts) id) [
    | none ↦ ok (0, no_match action q)
    | some taken ↦
        perform action prepare_to_send
          (unlock_table (count_action action (unlink q src_dst_key taken.1))) taken.0.skbs
        >>= λ q'. ok (1, q')
  ]
]

-- The number of timeslots handled.
unfoldable pub tsq_handle_now :
    Kernel → (SkBuff → SkBuff) → TsqSchedData → ℕ → Action → ℕ → Checked (ℕ × TsqSchedData)
tsq_handle_now kernel prepare_to_send q src_dst_key action id = lock_table q >>= λ locked.
    handle_looked prepare_to_send src_dst_key action id
      (dst_lookup kernel locked src_dst_key false true)

-- New ids, from `id` on.
unfoldable pub renumber : List TimeslotSkbQ → ℕ → List TimeslotSkbQ × ℕ
renumber [] id = ([], id)
renumber (t ∷ ts) id =
    let rest = renumber ts (u16 (id + 1)) in (record t { id = id } ∷ rest.0, rest.1)

-- After the lookup of the flow, which is not tested for NULL.
unfoldable pub reset_looked : ℕ → Bool × TsqSchedData → Checked TsqSchedData
reset_looked src_dst_key (false, q) = bug
reset_looked src_dst_key (true, q) =
    let dst = q.dsts src_dst_key in
    let numbered = renumber dst.skb_qs 0 in
    ok (
      unlock_table (record q {
        dsts = update q.dsts src_dst_key (record dst { skb_qs = numbered.0; next_id = numbered.1 });
      }))

unfoldable pub tsq_reset_ids : Kernel → TsqSchedData → ℕ → Checked TsqSchedData
tsq_reset_ids kernel q src_dst_key = lock_table q >>= λ locked.
    reset_looked src_dst_key (dst_lookup kernel locked src_dst_key false true)

-- A packet to send, counted.
abbrev pub got_skb : TsqSchedData → TsqSchedData
got_skb q = record q {
  stat = record q.stat { dequeued = inc q.stat.dequeued };
  qlen = sub32 q.qlen 1;
}

-- One packet of the drop queue: skb_q_dequeue cut it from the others, so the loop ends.
unfoldable pub drop_skb : TsqSchedData → TsqSchedData
drop_skb q = elim q.dropqueue [
  | [] ↦ q
  | skb ∷ skbs ↦ got_skb (record q { dropqueue = skbs; dropped = q.dropped ++ skb ∷ [] })
]

-- The packet from the queues of packets to send, in their order.
unfoldable pub dequeue_from :
    TsqSchedData → List SkBuff → List SkBuff → List SkBuff → Option SkBuff × TsqSchedData
dequeue_from q (skb ∷ skbs) reg_prio prequeue = (some skb, got_skb (record q { hi_prio = skbs }))
dequeue_from q [] (skb ∷ skbs) prequeue = (some skb, got_skb (record q { reg_prio = skbs }))
dequeue_from q [] [] (skb ∷ skbs) = (some skb, got_skb (record q { prequeue = skbs }))
dequeue_from q [] [] [] = (none, drop_skb q)

unfoldable pub tsq_dequeue : TsqSchedData → Option SkBuff × TsqSchedData
tsq_dequeue q = dequeue_from q q.hi_prio q.reg_prio q.prequeue
