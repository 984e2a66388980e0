-- ===== src/Tsq/Sched.antt =====
-- kernel-mod/sch_timeslot.c: the state of the queues and the lookup of a flow. A queue of packets
-- is the list of its `skb->next` pointers, oldest first. `bug` also stands for a spin on a lock
-- that the code itself holds, and for a read or write through a pointer to nothing.
use flexplane.Base.{
  ℕ, ◌-◌, ◌/◌, ◌^◌, Bool, true, false, not, if◌then◌else◌, add32, u32, List, [], ◌∷◌, ◌++◌,
}
use flexplane.Base.Checked.{Checked, ok, bug}
use flexplane.Base.Table.{update}
use flexplane.Protocol.Conn.{inc}
use flexplane.Tsq.Packet.{SkBuff}
use flexplane.Tsq.Tree.{Tree, find, link}

-- What the kernel provides: rb_insert_color on a tree with a new flow, jhash_2words, and
-- psched_l2t_ns for the configured rate.
pub record Kernel : Type 0 where
  pub rb_insert_color : Tree → Tree
  pub jhash_2words : ℕ → ℕ → ℕ → ℕ
  pub psched_l2t_ns : ℕ → ℕ

-- `struct timeslot_skb_q`, for a timeslot of a flow.
pub record TimeslotSkbQ : Type 0 where
  pub skbs : List SkBuff
  pub id : ℕ

-- `struct tsq_dst`; `credit` is a 64-bit word that is read with a sign.
pub record TsqDst : Type 0 where
  pub skb_qs : List TimeslotSkbQ
  pub credit : ℕ
  pub next_id : ℕ

pub record TsqStat : Type 0 where
  pub ctrl_pkts : ℕ
  pub ntp_pkts : ℕ
  pub ptp_pkts : ℕ
  pub arp_pkts : ℕ
  pub igmp_pkts : ℕ
  pub ssh_pkts : ℕ
  pub data_pkts : ℕ
  pub classify_errors : ℕ
  pub classified_ipv6 : ℕ
  pub above_plimit : ℕ
  pub enqueued : ℕ
  pub enqueued_hi_pri : ℕ
  pub allocation_errors : ℕ
  pub pkt_too_big : ℕ
  pub added_tslots : ℕ
  pub dequeued : ℕ
  pub used_timeslots : ℕ
  pub dropped_timeslots : ℕ
  pub modified_timeslots : ℕ
  pub unwanted_alloc : ℕ
  pub dst_not_found_handle_now : ℕ
  pub unrecognized_id : ℕ
  pub unrecognized_action : ℕ

-- `struct tsq_sched_data`, with the length and the limit of its qdisc. The flow of a key, where
-- the table has one, is `dsts key`. `added` lists the calls of add_timeslot, latest last, and
-- `dropped` the packets given to qdisc_drop.
pub record TsqSchedData : Type 0 where
  pub hash_tbl_log : ℕ
  pub tslot_len_approx : ℕ
  pub hash_tbl_locked : Bool
  pub dst_hash_tbl : ℕ → Tree
  pub dsts : ℕ → TsqDst
  pub enqueue_skb_q : List SkBuff
  pub reg_prio : List SkBuff
  pub hi_prio : List SkBuff
  pub prequeue : List SkBuff
  pub dropqueue : List SkBuff
  pub flows : ℕ
  pub inactive_flows : ℕ
  pub qlen : ℕ
  pub limit : ℕ
  pub stat : TsqStat
  pub added : List ℕ
  pub dropped : List SkBuff

-- spin_lock and spin_unlock of hash_tbl_lock.
unfoldable pub lock_table : TsqSchedData → Checked TsqSchedData
lock_table q = if q.hash_tbl_locked then bug else ok (record q { hash_tbl_locked = true })

abbrev pub unlock_table : TsqSchedData → TsqSchedData
unlock_table q = record q { hash_tbl_locked = false }

-- `tail->next` of an empty `what` would be a pointer to nothing.
unfoldable pub skb_q_append : List SkBuff → List SkBuff → Checked (List SkBuff)
skb_q_append queue [] = bug
skb_q_append queue (skb ∷ skbs) = ok (queue ++ skb ∷ skbs)

unfoldable pub src_dst_key_hash : Kernel → ℕ → ℕ
src_dst_key_hash kernel src_dst_key =
    u32 (kernel.jhash_2words (u32 (src_dst_key / 2 ^ 32)) (u32 src_dst_key) 0)

-- The cell of a key in a table of 2 ^ log cells.
unfoldable pub hash_cell : Kernel → ℕ → ℕ → ℕ
hash_cell kernel log src_dst_key = src_dst_key_hash kernel src_dst_key / 2 ^ (32 - log)

abbrev pub empty_dst : TsqDst
empty_dst = record { skb_qs = []; credit = 0; next_id = 0 }

-- Whether there is a flow of the key in the end. `allocated` is false if there is no memory for
-- a new one.
unfoldable pub dst_lookup : Kernel → TsqSchedData → ℕ → Bool → Bool → Bool × TsqSchedData
dst_lookup kernel q src_dst_key create_if_missing allocated =
    let cell = hash_cell kernel q.hash_tbl_log src_dst_key in
    let root = q.dst_hash_tbl cell in
    let no_memory = record q {
      stat = record q.stat { allocation_errors = inc q.stat.allocation_errors };
    } in
    let created = record q {
      dst_hash_tbl = update q.dst_hash_tbl cell (kernel.rb_insert_color (link root src_dst_key));
      dsts = update q.dsts src_dst_key empty_dst;
      flows = add32 q.flows 1;
      inactive_flows = add32 q.inactive_flows 1;
    } in
    if find root src_dst_key
    then (true, q)
    else if not create_if_missing
    then (false, q)
    else if not allocated
    then (false, no_memory)
    else (true, created)
