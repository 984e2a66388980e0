-- ===== src/GraphAlgo/Seq/Demand/Start.antt =====
-- The start of a batch of timeslots in graph-algo/admissible_traffic.c: alloc_core_reset and the
-- fresh admitted traffic.
use flexplane.Base.{
  ℕ, ◌+◌, ◌^◌, ◌≤◌, ◌<◌, ◌≡◌, refl, ap, sym, ◌∙◌, true, false, ltb, if◌then◌else◌, ◌&&◌, ◌/◌, ◌-◌,
  ones64, length, [], arith,
}
use flexplane.Base.Checked.{ok}
use flexplane.Base.Count.{count_below_none}
use flexplane.Base.Table.{update}
use flexplane.GraphAlgo.Admitted.{init_admitted_traffic, tor_shift, out_of_boundary_node_id}
use flexplane.GraphAlgo.Bin.{is_empty_bin, init_bin}
use flexplane.GraphAlgo.Batch.{BatchState, batch_state_init, batch_size}
use flexplane.GraphAlgo.Seq.{Core, num_bins}
use flexplane.GraphAlgo.Seq.Count.{count_src, count_dst, count_src-nil, count_dst-nil}
use flexplane.GraphAlgo.Seq.Matching.{IsSrcMatching, IsDstMatching}
use flexplane.GraphAlgo.Seq.Demand.{Status, alloc_core_reset, start_batch}

-- For at most 256 nodes, a boundary capacity of 16 bits and both bins flushed, a batch starts
-- without an assert that fires, and each of its timeslots is a matching of its sources. Where the
-- boundary capacity is 0 it is a matching of its destinations too, with no boundary count above
-- zero.
pub start_batch-IsSrcMatching :
    (c : Core) (st : Status)
    → st.num_nodes ≤ 256
    → st.out_of_boundary_capacity < 2 ^ 16
    → is_empty_bin c.out_bin ≡ true
    → is_empty_bin c.spent_bin ≡ true
    → (c' : Core) × (start_batch c st ≡ ok c')
      × IsSrcMatching c'.batch_state c'.admitted
      × (st.out_of_boundary_capacity ≡ 0 → IsDstMatching c'.batch_state c'.admitted)
unfolding start_batch alloc_core_reset batch_state_init init_admitted_traffic
start_batch-IsSrcMatching c st nodes small out spent =
    let room : ltb 256 st.num_nodes ≡ false = ground arith in
    let b = c.batch_state in
    let fresh : BatchState = record b {
      oversubscribed = st.oversubscribed;
      allowed_mask = 2 ^ batch_size - 1;
      src_endnodes = λ i. if ltb i st.num_nodes then ones64 else b.src_endnodes i;
      dst_endnodes =
          update (λ i. if ltb i st.num_nodes then ones64 else b.dst_endnodes i)
            out_of_boundary_node_id ones64;
      src_rack_bitmaps = λ i.
          if st.oversubscribed && ltb i (st.num_nodes / 2 ^ tor_shift)
          then ones64
          else b.src_rack_bitmaps i;
      dst_rack_bitmaps = λ i.
          if st.oversubscribed && ltb i (st.num_nodes / 2 ^ tor_shift)
          then ones64
          else b.dst_rack_bitmaps i;
      src_rack_counts =
          λ i. if st.oversubscribed then st.inter_rack_capacity else b.src_rack_counts i;
      dst_rack_counts =
          λ i. if st.oversubscribed then st.inter_rack_capacity else b.dst_rack_counts i;
      out_of_boundary_counts = λ i. st.out_of_boundary_capacity;
    } in
    let started : Core = record c {
      new_request_bins =
          λ i. if ltb i (num_bins + batch_size) then init_bin else c.new_request_bins i;
      allowed_bins = 1;
      batch_state = fresh;
      non_empty_bins = 0;
      admitted = λ i. if ltb i batch_size then init_admitted_traffic else c.admitted i;
    } in
    let empty : (t : ℕ) → t < 16 → (started.admitted t).edges ≡ [] =
      λ t h. let e : ltb t 16 ≡ true = ground (arith, h) in rw e refl in
    let no_src : (s t : ℕ) → t < 16 → count_src s (started.admitted t).edges ≡ 0 =
      λ s t h. rw (empty t h) (count_src-nil s) in
    let no_dst : (d t : ℕ) → t < 16 → count_dst d (started.admitted t).edges ≡ 0 =
      λ d t h. rw (empty t h) (count_dst-nil d) in
    (
      started,
      rw (room, out, spent) refl,
      record {
        mask_small = omega arith;
        counts_small = λ t. small;
        src_free = λ s t h free. no_src s t h;
        src_once = λ s t h. omega (arith, no_src s t h);
        sized = λ t h.
            ap length (empty t h)
            ∙ sym (
                count_below_none 256 (λ s. ltb 0 (count_src s (started.admitted t).edges))
                  (λ s p. rw (no_src s t h) refl));
      },
      λ none_out. record {
        no_boundary = λ t. none_out;
        dst_free = λ d t h free. no_dst d t h;
        dst_once = λ d t h. omega (arith, no_dst d t h);
      },
    )
