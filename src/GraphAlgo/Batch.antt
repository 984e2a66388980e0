-- ===== src/GraphAlgo/Batch.antt =====
-- graph-algo/batch.h: which timeslots of the batch are free at each endnode and rack, one bit to
-- a timeslot. Arrays are functions of the index; the asserts keep the nodes in range.
pub mod Laws
use flexplane.Base.{
  ℕ, ◌+◌, ◌-◌, ◌*◌, ◌/◌, ◌%◌, ◌^◌, bit_and, bit_or, bit_xor, Bool, true, false, not, ◌&&◌, ltb, leb,
  ◌==◌, if◌then◌else◌, u16, shl64, shr64, not64, ones64, sub16,
}
use flexplane.Base.Checked.{Checked, ok, bug_on, ◌>>◌}
use flexplane.Base.Table.{update}
use flexplane.GraphAlgo.Admitted.{max_nodes, tor_shift, out_of_boundary_node_id}

abbrev pub batch_size : ℕ
batch_size = 16

abbrev pub batch_shift : ℕ
batch_shift = 4

abbrev pub supports_oversubscription : Bool
supports_oversubscription = false

pub record BatchState : Type 0 where
  pub oversubscribed : Bool
  pub allowed_mask : ℕ
  pub src_endnodes : ℕ → ℕ
  pub dst_endnodes : ℕ → ℕ
  pub src_rack_bitmaps : ℕ → ℕ
  pub dst_rack_bitmaps : ℕ → ℕ
  pub src_rack_counts : ℕ → ℕ
  pub dst_rack_counts : ℕ → ℕ
  pub out_of_boundary_counts : ℕ → ℕ

-- `fp_rack_from_node_id` of protocol/topology.h
abbrev pub fp_rack_from_node_id : ℕ → ℕ
fp_rack_from_node_id id = id / 2 ^ tor_shift

-- `-(b)` in 64 bits
abbrev pub minus : Bool → ℕ
minus b = if b then ones64 else 0

-- Only the first `num_nodes` words are written, and that of the boundary node; `old` is the
-- state before.
unfoldable pub batch_state_init : BatchState → Bool → ℕ → ℕ → ℕ → Checked BatchState
batch_state_init old oversubscribed inter_rack_capacity out_of_boundary_capacity num_nodes =
    bug_on (ltb max_nodes num_nodes)
    >> ok (record {
      oversubscribed = oversubscribed;
      allowed_mask = 2 ^ batch_size - 1;
      src_endnodes = λ i. if ltb i num_nodes then ones64 else old.src_endnodes i;
      dst_endnodes =
          update (λ i. if ltb i num_nodes then ones64 else old.dst_endnodes i)
            out_of_boundary_node_id ones64;
      src_rack_bitmaps = λ i.
          if oversubscribed && ltb i (num_nodes / 2 ^ tor_shift)
          then ones64
          else old.src_rack_bitmaps i;
      dst_rack_bitmaps = λ i.
          if oversubscribed && ltb i (num_nodes / 2 ^ tor_shift)
          then ones64
          else old.dst_rack_bitmaps i;
      src_rack_counts = λ i. if oversubscribed then inter_rack_capacity else old.src_rack_counts i;
      dst_rack_counts = λ i. if oversubscribed then inter_rack_capacity else old.dst_rack_counts i;
      out_of_boundary_counts = λ i. out_of_boundary_capacity;
    })

abbrev rack_bitmap : BatchState → ℕ → ℕ → ℕ
rack_bitmap state src dst =
    if dst == out_of_boundary_node_id
    then state.src_rack_bitmaps (fp_rack_from_node_id src)
    else bit_and (state.src_rack_bitmaps (fp_rack_from_node_id src))
        (state.dst_rack_bitmaps (fp_rack_from_node_id dst))

unfoldable pub batch_state_get_avail_bitmap : BatchState → ℕ → ℕ → Checked ℕ
batch_state_get_avail_bitmap state src dst =
    let endnode_bitmap =
      bit_and (bit_and state.allowed_mask (state.src_endnodes src)) (state.dst_endnodes dst) in
    do
      bug_on (not (ltb src max_nodes))
      bug_on (not (ltb dst max_nodes))
      ok (
          if supports_oversubscription && state.oversubscribed
          then bit_and endnode_bitmap (rack_bitmap state src dst)
          else endnode_bitmap)

-- One rack's count falls by one, and its bit is cleared when none is left.
abbrev take_from_rack : (ℕ → ℕ) → ℕ → ℕ → ℕ → ℕ
take_from_rack counts rack timeslot =
    update counts (batch_size * rack + timeslot) (sub16 (counts (batch_size * rack + timeslot)) 1)

abbrev clear_full_rack : (ℕ → ℕ) → (ℕ → ℕ) → ℕ → ℕ → ℕ → ℕ
clear_full_rack bitmaps counts rack timeslot =
    if counts (batch_size * rack + timeslot) == 0
    then update bitmaps rack (bit_and (bitmaps rack) (not64 (shl64 1 timeslot)))
    else bitmaps

-- The rack bookkeeping at the end of `batch_state_set_occupied_conditional`.
abbrev occupy_racks : BatchState → ℕ → ℕ → ℕ → BatchState
occupy_racks state src dst timeslot =
    let src_rack = fp_rack_from_node_id src in
    let dst_rack = fp_rack_from_node_id dst in
    let src_counts = take_from_rack state.src_rack_counts src_rack timeslot in
    let src_done = record state {
      src_rack_counts = src_counts;
      src_rack_bitmaps = clear_full_rack state.src_rack_bitmaps src_counts src_rack timeslot;
    } in
    let dst_counts = take_from_rack state.dst_rack_counts dst_rack timeslot in
    if dst == out_of_boundary_node_id then src_done else record src_done {
      dst_rack_counts = dst_counts;
      dst_rack_bitmaps = clear_full_rack state.dst_rack_bitmaps dst_counts dst_rack timeslot;
    }

unfoldable pub batch_state_set_occupied_conditional :
    BatchState → ℕ → ℕ → ℕ → ℕ → Checked BatchState
batch_state_set_occupied_conditional state src dst timeslot set_bitmask =
    let is_out_of_boundary = minus (dst == out_of_boundary_node_id) in
    let is_set = minus (not (set_bitmask == 0)) in
    let counts =
      update state.out_of_boundary_counts timeslot
        (u16 (state.out_of_boundary_counts timeslot + bit_and is_out_of_boundary is_set)) in
    let flip_mask = bit_or is_out_of_boundary (minus (counts timeslot == 0)) in
    let endnodes_done = record state {
      src_endnodes = update state.src_endnodes src (bit_xor (state.src_endnodes src) set_bitmask);
      out_of_boundary_counts = counts;
      dst_endnodes =
          update state.dst_endnodes dst
            (bit_xor (state.dst_endnodes dst) (bit_and set_bitmask flip_mask));
    } in
    do
      bug_on (not (ltb src max_nodes))
      bug_on (not (ltb dst max_nodes))
      bug_on (not (leb timeslot batch_size))
      ok (
          if (supports_oversubscription && state.oversubscribed) && not (is_set == 0)
          then occupy_racks endnodes_done src dst timeslot
          else endnodes_done)

unfoldable pub batch_state_disallow_lsb_timeslot : BatchState → BatchState
batch_state_disallow_lsb_timeslot state = record state {
  allowed_mask = bit_and (shl64 state.allowed_mask 1) (2 ^ batch_size - 1);
}
