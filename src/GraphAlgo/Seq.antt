-- ===== src/GraphAlgo/Seq.antt =====
-- graph-algo/admissible_traffic.{h,c} and admissible_structures.h: the allocation of one batch of
-- timeslots by one core. Rings are lists of bins, oldest first; the loops that wait for room in
-- a ring or for a bin of the pool are taken at the round that succeeds.
pub mod Count
pub mod Matching
pub mod Allocate
pub mod Demand
use flexplane.Base.{
  ℕ, suc, ◌+◌, ◌-◌, ◌*◌, ◌/◌, ◌%◌, ◌^◌, bit_and, bit_or, Bool, true, false, not, ◌&&◌, ltb, leb,
  ◌==◌, if◌then◌else◌, u16, u32, u64, sub16, sub32, sub64, shl64, shr64, ones64, List, [], ◌∷◌,
  ◌++◌,
}
use flexplane.Base.Bits.{ctz}
use flexplane.Base.Checked.{Checked, ok, bug, bug_on, ◌>>◌, ◌>>=◌}
use flexplane.Base.Table.{update}
use flexplane.GraphAlgo.Admitted.{AdmittedTraffic, insert_admitted_edge, init_admitted_traffic}
use flexplane.GraphAlgo.Bin.{
  Bin, BacklogEdge, init_bin, bin_size, is_empty_bin, enqueue_bin, enqueue_bin_edge,
}
use flexplane.GraphAlgo.Batch.{
  BatchState, batch_size, batch_shift, batch_state_init, batch_state_get_avail_bitmap,
  batch_state_set_occupied_conditional,
}

abbrev pub small_bin_size : ℕ
small_bin_size = 32

abbrev pub num_bins : ℕ
num_bins = 32

-- `struct seq_admission_core_state`, with the rings that the core writes. The bin masks have one
-- word each, since NUM_BINS + BATCH_SIZE is 48.
pub record Core : Type 0 where
  pub new_request_bins : ℕ → Bin
  pub non_empty_bins : ℕ
  pub allowed_bins : ℕ
  pub batch_state : BatchState
  pub admitted : ℕ → AdmittedTraffic
  pub out_bin : Bin
  pub spent_bin : Bin
  pub current_timeslot : ℕ
  pub q_out : List Bin
  pub q_spent : List Bin

unfoldable pub core_flush_q_spent : Core → Core
core_flush_q_spent core = record core {
  q_spent = core.q_spent ++ (core.spent_bin ∷ []);
  spent_bin = init_bin;
}

unfoldable pub core_enqueue_to_q_spent : Core → ℕ → ℕ → ℕ → Core
unfolding core_flush_q_spent
core_enqueue_to_q_spent core src dst metric =
    let added = record core { spent_bin = enqueue_bin core.spent_bin src dst 0 metric } in
    if bin_size added.spent_bin == small_bin_size then core_flush_q_spent added else added

unfoldable pub core_flush_q_out : Core → Core
core_flush_q_out core = record core {
  q_out = core.q_out ++ (core.out_bin ∷ []);
  out_bin = init_bin;
}

unfoldable pub core_enqueue_to_q_out : Core → ℕ → ℕ → ℕ → ℕ → Core
unfolding core_flush_q_out
core_enqueue_to_q_out core src dst backlog metric =
    let added = record core { out_bin = enqueue_bin core.out_bin src dst backlog metric } in
    if bin_size added.out_bin == small_bin_size then core_flush_q_out added else added

unfoldable pub core_enqueue_to_q_out_edge : Core → BacklogEdge → Core
unfolding core_flush_q_out
core_enqueue_to_q_out_edge core edge =
    let added = record core { out_bin = enqueue_bin_edge core.out_bin edge } in
    if bin_size added.out_bin == small_bin_size then core_flush_q_out added else added

-- `bts` on the word of bins that are not empty.
unfoldable pub set_bin_non_empty : Core → ℕ → Core
set_bin_non_empty core bin_index = record core {
  non_empty_bins = bit_or core.non_empty_bins (shl64 1 bin_index);
}

-- A shift of a 64-bit word by 64 or more is undefined in C; the value does not matter there,
-- since the last lines then force the result.
unfoldable pub bin_index_from_timeslot : ℕ → ℕ → ℕ
bin_index_from_timeslot last_allocated current_timeslot =
    let gap = sub32 (u32 (current_timeslot + batch_size)) (u32 last_allocated) in
    let rest = sub32 gap (num_bins + 1) in
    let group_ind = u16 (rest / 2 ^ batch_shift) in
    let folded = u16 (
      shr64 (bit_or (shl64 ones64 (batch_shift + 1)) (bit_and rest (batch_size - 1)))
        (1 + group_ind)) in
    let is_large_gap = if leb batch_shift group_ind then 1 else 0 in
    let bin_gap = bit_or folded (2 ^ 15 - is_large_gap) in
    if leb gap num_bins
    then num_bins + batch_size - 1 - gap
    else batch_size - 1 - bit_and bin_gap (batch_size - 1)

unfoldable pub new_metric_after_alloc : Core → ℕ → ℕ
new_metric_after_alloc core batch_timeslot = u32 (core.current_timeslot + batch_timeslot)

abbrev pub bin_after_alloc : ℕ → ℕ
bin_after_alloc batch_timeslot = num_bins + batch_timeslot

-- What `try_allocation` does with the flow once its edge is admitted.
unfoldable pub requeue : Core → ℕ → ℕ → ℕ → ℕ → ℕ → Core
unfolding set_bin_non_empty core_enqueue_to_q_spent
requeue core src dst backlog metric batch_timeslot =
    let bin_index = bin_after_alloc batch_timeslot in
    let bin = enqueue_bin (core.new_request_bins bin_index) src dst backlog metric in
    if not (backlog == 0)
    then set_bin_non_empty
        (record core { new_request_bins = update core.new_request_bins bin_index bin }) bin_index
    else core_enqueue_to_q_spent core src dst metric

-- The first free timeslot of both ends is given to the flow, by `bsfq` and `x & -x`.
unfoldable pub allocate : Core → ℕ → ℕ → ℕ → ℕ → Checked Core
allocate core src dst backlog timeslot_bitmap =
    let batch_timeslot = bit_and (ctz 64 timeslot_bitmap) (2 ^ batch_shift - 1) in
    let set_bit = bit_and timeslot_bitmap (sub64 0 timeslot_bitmap) in
    do
      batch_state ←
          batch_state_set_occupied_conditional core.batch_state src dst batch_timeslot set_bit
      edges ← insert_admitted_edge (core.admitted batch_timeslot) src dst
      ok (
          requeue
            (record core {
              batch_state = batch_state;
              admitted = update core.admitted batch_timeslot edges;
            })
            src dst (sub16 backlog 1) (new_metric_after_alloc core batch_timeslot) batch_timeslot)

-- The result is `true` where the caller should handle the flow.
unfoldable pub try_allocation : Core → ℕ → ℕ → ℕ → Checked (Bool × Core)
try_allocation core src dst backlog = do
  timeslot_bitmap ← batch_state_get_avail_bitmap core.batch_state src dst
  let allocated = allocate core src dst backlog timeslot_bitmap
  if timeslot_bitmap == 0 then ok (true, core) else (allocated >>= λ core'. ok (false, core'))

-- The loop of `try_allocation_bin` over the flows that the bin held at its start.
unfoldable pub try_allocation_edges : Core → List BacklogEdge → Checked Core
try_allocation_edges core [] = ok core
try_allocation_edges core (e ∷ es) =
    try_allocation core e.src e.dst (u16 e.backlog) >>= λ (rc, core').
    try_allocation_edges
      (if rc then core_enqueue_to_q_out core' e.src e.dst e.backlog e.metric else core') es

unfoldable pub try_allocation_bin : Core → ℕ → Checked Core
unfolding try_allocation_edges
try_allocation_bin core bin_index = try_allocation_edges core (core.new_request_bins bin_index)
