-- ===== src/GraphAlgo/Seq/Demand.antt =====
-- graph-algo/admissible_traffic.c and admissible_structures.h, around the allocator: demand comes
-- in through `new_demands`, flows pass from core to core, spent flows come back. A burst from a
-- ring takes at most its given number of bins.
pub mod Conserve
pub mod Start
use flexplane.Base.{
  ℕ, zero, suc, ◌+◌, ◌-◌, ◌*◌, ◌/◌, ◌%◌, ◌^◌, bit_and, bit_or, Bool, true, false, not, ◌&&◌, ltb,
  leb, ◌==◌, if◌then◌else◌, u16, u32, u64, sub64, shl64, List, [], ◌∷◌, ◌++◌, take, drop, replicate,
}
use flexplane.Base.Bits.{ctz}
use flexplane.Base.Checked.{Checked, ok, bug, bug_on, ◌>>◌, ◌>>=◌}
use flexplane.Base.Table.{update}
use flexplane.GraphAlgo.Admitted.{AdmittedTraffic, init_admitted_traffic, max_nodes, fp_nodes_shift}
use flexplane.GraphAlgo.Backlog.{
  Backlog, backlog_init, backlog_get, backlog_non_active, backlog_reset_pair, backlog_increase,
}
use flexplane.GraphAlgo.Bin.{
  Bin, BacklogEdge, init_bin, bin_size, is_empty_bin, enqueue_bin, enqueue_bin_edge,
}
use flexplane.GraphAlgo.Batch.{batch_size, batch_state_init}
use flexplane.GraphAlgo.Seq.{
  Core, small_bin_size, num_bins, bin_index_from_timeslot, set_bin_non_empty, try_allocation_bin,
  core_enqueue_to_q_out_edge,
}

-- `struct seq_admissible_status`, without the cores.
pub record Status : Type 0 where
  pub oversubscribed : Bool
  pub out_of_boundary_capacity : ℕ
  pub inter_rack_capacity : ℕ
  pub num_nodes : ℕ
  pub last_alloc_tslot : ℕ → ℕ
  pub backlog : Backlog
  pub new_demands : Bin
  pub q_head : List Bin
  pub q_spent : List Bin

unfoldable pub seq_reset_admissible_status : Status → Bool → ℕ → ℕ → ℕ → Status
seq_reset_admissible_status status oversubscribed inter_rack_capacity out_of_boundary_capacity
      num_nodes =
    record status {
      oversubscribed = oversubscribed;
      inter_rack_capacity = inter_rack_capacity;
      out_of_boundary_capacity = out_of_boundary_capacity;
      num_nodes = num_nodes;
      last_alloc_tslot = λ i. 0;
      backlog = backlog_init;
    }

unfoldable pub get_status_index : ℕ → ℕ → ℕ
get_status_index src dst = src * 2 ^ fp_nodes_shift + dst

-- `alloc_core_reset`, with its asserts that both bins were flushed.
unfoldable pub alloc_core_reset : Core → Status → Checked Core
alloc_core_reset core status = do
  batch_state ←
      batch_state_init core.batch_state status.oversubscribed status.inter_rack_capacity
        status.out_of_boundary_capacity status.num_nodes
  bug_on (not (is_empty_bin core.out_bin))
  bug_on (not (is_empty_bin core.spent_bin))
  ok (record core {
    new_request_bins =
        λ i. if ltb i (num_bins + batch_size) then init_bin else core.new_request_bins i;
    allowed_bins = 1;
    batch_state = batch_state;
    non_empty_bins = 0;
  })

-- The start of `seq_get_admissible_traffic`: the core is reset, and the admitted traffic of each
-- timeslot of the batch is initialised.
unfoldable pub start_batch : Core → Status → Checked Core
start_batch core status = do
  reset ← alloc_core_reset core status
  ok (record reset {
    admitted = λ i. if ltb i batch_size then init_admitted_traffic else reset.admitted i;
  })

-- `_flush_backlog_now`
unfoldable pub flush_backlog_now : Status → Status
flush_backlog_now status = record status {
  q_head = status.q_head ++ (status.new_demands ∷ []);
  new_demands = init_bin;
}

unfoldable pub seq_flush_backlog : Status → Status
unfolding flush_backlog_now
seq_flush_backlog status =
    if is_empty_bin status.new_demands then status else flush_backlog_now status

unfoldable pub enqueue_new_demand : Status → ℕ → ℕ → ℕ → Status
unfolding flush_backlog_now
enqueue_new_demand status src dst amount =
    let added = record status {
      new_demands =
          enqueue_bin status.new_demands src dst amount
            (status.last_alloc_tslot (get_status_index src dst));
    } in
    if bin_size added.new_demands == small_bin_size then flush_backlog_now added else added

unfoldable pub seq_add_backlog : Status → ℕ → ℕ → ℕ → Checked Status
seq_add_backlog status src dst amount =
    backlog_increase status.backlog src dst amount >>= λ (was_idle, backlog).
    let kept = record status { backlog = backlog } in
    let queued = enqueue_new_demand kept src dst amount in ok (if was_idle then queued else kept)

-- One flow of a spent bin.
unfoldable pub handle_spent_edge : Status → BacklogEdge → Status
handle_spent_edge status edge =
    let backlog = backlog_get status.backlog edge.src edge.dst in
    if backlog == 0
    then record status {
      last_alloc_tslot =
          update status.last_alloc_tslot (get_status_index edge.src edge.dst) edge.metric;
      backlog = backlog_non_active status.backlog edge.src edge.dst;
    }
    else enqueue_new_demand
        (record status { backlog = backlog_reset_pair status.backlog edge.src edge.dst }) edge.src
        edge.dst backlog

unfoldable pub handle_spent_bin : Status → Bin → Status
handle_spent_bin status [] = status
handle_spent_bin status (e ∷ es) = handle_spent_bin (handle_spent_edge status e) es

unfoldable pub handle_spent_bins : Status → List Bin → Status
handle_spent_bins status [] = status
handle_spent_bins status (b ∷ bs) = handle_spent_bins (handle_spent_bin status b) bs

abbrev pub spent_ring_dequeue_size : ℕ
spent_ring_dequeue_size = 256

unfoldable pub seq_handle_spent : Status → Status
seq_handle_spent status =
    handle_spent_bins (record status { q_spent = drop spent_ring_dequeue_size status.q_spent })
      (take spent_ring_dequeue_size status.q_spent)

unfoldable pub incoming_bin_to_core : Core → Bin → Core
incoming_bin_to_core core [] = core
incoming_bin_to_core core (e ∷ es) =
    let bin_index = bin_index_from_timeslot e.metric core.current_timeslot in
    incoming_bin_to_core
      (set_bin_non_empty
        (record core {
          new_request_bins =
              update core.new_request_bins bin_index
                (enqueue_bin_edge (core.new_request_bins bin_index) e);
        })
        bin_index)
      es

unfoldable pub incoming_bins_to_core : Core → List Bin → Core
incoming_bins_to_core core [] = core
incoming_bins_to_core core (b ∷ bs) = incoming_bins_to_core (incoming_bin_to_core core b) bs

abbrev pub ring_dequeue_burst_size : ℕ
ring_dequeue_burst_size = 8

-- The entry count that the code returns is used for its statistics and its budget alone.
unfoldable pub process_new_requests : Status → Core → Status × Core
process_new_requests status core = (
  record status { q_head = drop ring_dequeue_burst_size status.q_head },
  incoming_bins_to_core core (take ring_dequeue_burst_size status.q_head),
)

unfoldable pub move_bin_to_q_out : Core → Bin → Core
move_bin_to_q_out core [] = core
move_bin_to_q_out core (e ∷ es) = move_bin_to_q_out (core_enqueue_to_q_out_edge core e) es

-- The `while (mask)` loop, at most 64 rounds: each clears a bit.
unfoldable pub move_mask_to_q_out : ℕ → ℕ → Core → Core
move_mask_to_q_out zero mask core = core
move_mask_to_q_out (suc rounds) mask core =
    let rest =
      move_mask_to_q_out rounds (bit_and mask (mask - 1))
        (move_bin_to_q_out core (core.new_request_bins (ctz 64 mask))) in
    if mask == 0 then core else rest

unfoldable pub move_core_to_q_out : Core → Core
unfolding move_mask_to_q_out
move_core_to_q_out core = move_mask_to_q_out 64 core.non_empty_bins core

abbrev pub q_in_q_out_burst_size : ℕ
q_in_q_out_burst_size = 16

-- The rings before and after, and how many bins were passed on.
unfoldable pub burst_q_in_to_q_out : List Bin → List Bin → List Bin × List Bin
burst_q_in_to_q_out queue_in queue_out =
    (drop q_in_q_out_burst_size queue_in, queue_out ++ take q_in_q_out_burst_size queue_in)

-- The loop over the destinations 0 .. n - 1.
unfoldable pub reset_pairs : ℕ → Backlog → ℕ → Backlog
reset_pairs zero backlog src = backlog
reset_pairs (suc dst) backlog src = backlog_reset_pair (reset_pairs dst backlog src) src dst

unfoldable pub seq_reset_sender : Status → ℕ → Status
unfolding reset_pairs
seq_reset_sender status src = record status { backlog = reset_pairs max_nodes status.backlog src }
