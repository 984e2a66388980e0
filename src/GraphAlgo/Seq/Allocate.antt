-- ===== src/GraphAlgo/Seq/Allocate.antt =====
-- graph-algo/admissible_traffic.c: try_allocation and try_allocation_bin.
use flexplane.Base.{
  ℕ, ◌+◌, ◌^◌, ◌<◌, bit_and, ◌≡◌, refl, ap, ◌∙◌, Bool, true, false, ◌&&◌, ltb, ◌==◌, if◌then◌else◌,
  Bool-cases, inl, inr, arith, ◌≢◌, sub64, sub16, u16, List, [], ◌∷◌, length,
}
use flexplane.Base.Bits.{
  bit, ne_zero_of_bit, bit_and-mask, bit_and-lt-pow, ctz, ctz_lowest, bit_of_ne_zero,
}
use flexplane.Base.Checked.{ok}
use flexplane.Base.Count.{count_below-lt}
use flexplane.Base.Table.{update, update_lem}
use flexplane.GraphAlgo.Admitted.{AdmittedTraffic, insert_admitted_edge}
use flexplane.GraphAlgo.Bin.{BacklogEdge}
use flexplane.GraphAlgo.Batch.Laws.{
  bit-lowest64, batch_state_get_avail_bitmap_lem, IsOccupied,
  batch_state_set_occupied_conditional_lem,
}
use flexplane.GraphAlgo.Seq.{
  Core, requeue, allocate, try_allocation, try_allocation_edges, try_allocation_bin,
  new_metric_after_alloc, core_enqueue_to_q_out,
}
use flexplane.GraphAlgo.Seq.Count.{count_src, count_dst, count_dst-append}
use flexplane.GraphAlgo.Seq.Matching.{
  edge, added, IsSrcMatching, IsDstMatching, IsSrcMatching-next, IsDstMatching-next,
}

requeue_same :
    (c : Core) (src dst backlog metric t : ℕ)
    → ((requeue c src dst backlog metric t).batch_state ≡ c.batch_state)
      × ((requeue c src dst backlog metric t).admitted ≡ c.admitted)
unfolding requeue
requeue_same c src dst backlog metric t = ground arith

q_out_same :
    (c : Core) (src dst backlog metric : ℕ)
    → ((core_enqueue_to_q_out c src dst backlog metric).batch_state ≡ c.batch_state)
      × ((core_enqueue_to_q_out c src dst backlog metric).admitted ≡ c.admitted)
unfolding core_enqueue_to_q_out
q_out_same c src dst backlog metric = ground arith

-- The timeslot that `bsfq` finds in a bitmap of free timeslots.
first_free :
    (m : ℕ)
    → m < 2 ^ 16
    → m ≢ 0
    → (bit_and (ctz 64 m) 15 ≡ ctz 64 m) × (ctz 64 m < 16) × (bit m (ctz 64 m) ≡ true)
first_free m h ne =
    let (j, j_lt, set) = bit_of_ne_zero 16 m h ne in
    let low = ctz_lowest 64 m j (omega arith) set in
    (omega (arith, bit_and-mask 4 (ctz 64 m), low.0), omega (arith, low.0), low.1)

-- What a call leaves behind: the flow is left to the caller and nothing changes, or one edge is
-- added at the first timeslot that is free for both ends.
pub record Tried (c : Core) (src dst : ℕ) (rc : Bool) (c' : Core) : Type 0 where
  pub src_matching : IsSrcMatching c'.batch_state c'.admitted
  pub dst_matching :
      IsDstMatching c.batch_state c.admitted → IsDstMatching c'.batch_state c'.admitted
  pub left : rc ≡ true → c' ≡ c

insert_admitted_edge_lem :
    (a : AdmittedTraffic) (src dst : ℕ)
    → length a.edges < 256
    → src < 256
    → dst < 256
    → insert_admitted_edge a src dst ≡ ok (added a src dst)
unfolding insert_admitted_edge
insert_admitted_edge_lem a src dst h hs hd = ground arith

pub allocate_lem :
    (c : Core) (src dst backlog m : ℕ)
    → src < 256
    → dst < 255
    → IsSrcMatching c.batch_state c.admitted
    → m < 2 ^ 16
    → m ≢ 0
    → ((t : ℕ)
        → bit m t ≡ (
            (bit c.batch_state.allowed_mask t && bit (c.batch_state.src_endnodes src) t)
            && bit (c.batch_state.dst_endnodes dst) t))
    → (c' : Core) × (allocate c src dst backlog m ≡ ok c')
      × Tried c src dst false c'
      × IsOccupied c.batch_state src dst (ctz 64 m) c'.batch_state
      × (c'.admitted ≡ update c.admitted (ctz 64 m) (added (c.admitted (ctz 64 m)) src dst))
unfolding allocate
allocate_lem c src dst backlog m hs hd v small ne bits =
    let t = ctz 64 m in
    let (masked, t_lt, set) = first_free m small ne in
    let x = bit_and m (sub64 0 m) in
    let one = λ (i : ℕ). bit-lowest64 m i (omega arith) ne in
    let (b', done, o) =
      batch_state_set_occupied_conditional_lem c.batch_state src dst t x hs hd t_lt
        (bit_and-lt-pow 64 m (sub64 0 m) (omega arith)) (v.counts_small t) one in
    let src_free : bit (c.batch_state.src_endnodes src) t ≡ true = ground (arith, bits t, set) in
    let dst_free : bit (c.batch_state.dst_endnodes dst) t ≡ true = ground (arith, bits t, set) in
    let room : length (c.admitted t).edges < 256 = rw (v.sized t t_lt) (
      count_below-lt 256 src (λ s. ltb 0 (count_src s (c.admitted t).edges)) hs
        (rw (v.src_free src t t_lt src_free) refl)) in
    let inner : Core = record c {
      batch_state = b';
      admitted = update c.admitted t (added (c.admitted t) src dst);
    } in
    let after = requeue inner src dst (sub16 backlog 1) (new_metric_after_alloc c t) t in
    let same = requeue_same inner src dst (sub16 backlog 1) (new_metric_after_alloc c t) t in
    (
      after,
      rw (masked, done, insert_admitted_edge_lem (c.admitted t) src dst room hs (omega arith)) refl,
      record {
        src_matching =
            rw (same.0, same.1)
              (IsSrcMatching-next c.batch_state b' c.admitted src dst t t_lt hs o v src_free);
        dst_matching = λ d.
            rw (same.0, same.1)
              (IsDstMatching-next c.batch_state b' c.admitted src dst t t_lt hs o d dst_free);
        left = λ e. cc;
      },
      rw (same.0) o,
      same.1,
    )

pub try_allocation_lem :
    (c : Core) (src dst backlog : ℕ)
    → src < 256
    → dst < 255
    → IsSrcMatching c.batch_state c.admitted
    → (rc : Bool) × (c' : Core) × (try_allocation c src dst backlog ≡ ok (rc, c'))
      × Tried c src dst rc c'
unfolding try_allocation
try_allocation_lem c src dst backlog hs hd v =
    let (m, found, small, bits) =
      batch_state_get_avail_bitmap_lem c.batch_state src dst hs (omega arith) v.mask_small in
    elim (Bool-cases (m == 0)) [
      | inl busy ↦ (
        true,
        c,
        rw (found, busy) refl,
        record { src_matching = v; dst_matching = λ d. d; left = λ e. refl },
      )
      | inr free ↦
          let (c', done, tried, _, _) =
            allocate_lem c src dst backlog m hs hd v small (ground arith) bits in
          (false, c', rw (found, free, done) refl, tried)
    ]

-- Demands between nodes, none of them to the node that stands for the outside.
abbrev pub AreInside : List BacklogEdge → Type 0
AreInside [] = Unit
AreInside (e ∷ es) = (e.src < 256) × (e.dst < 255) × AreInside es

pub try_allocation_edges_lem :
    (es : List BacklogEdge) (c : Core)
    → AreInside es
    → IsSrcMatching c.batch_state c.admitted
    → (c' : Core) × (try_allocation_edges c es ≡ ok c')
      × IsSrcMatching c'.batch_state c'.admitted
      × (IsDstMatching c.batch_state c.admitted → IsDstMatching c'.batch_state c'.admitted)
unfolding try_allocation_edges
try_allocation_edges_lem [] c h v = (c, refl, v, λ d. d)
try_allocation_edges_lem (e ∷ es) c h v =
    let (rc, c1, done, tried) = try_allocation_lem c e.src e.dst (u16 e.backlog) h.0 h.1 v in
    let c2 = if rc then core_enqueue_to_q_out c1 e.src e.dst e.backlog e.metric else c1 in
    let same : (c2.batch_state ≡ c1.batch_state) × (c2.admitted ≡ c1.admitted) =
      ground (arith, q_out_same c1 e.src e.dst e.backlog e.metric) in
    let (c', rest, src_ok, dst_ok) =
      try_allocation_edges_lem es c2 h.2 (rw (same.0, same.1) tried.src_matching) in
    (c', rw done rest, src_ok, λ d. dst_ok (rw (same.0, same.1) (tried.dst_matching d)))

-- From timeslots that are matchings of their sources, `try_allocation_bin` on a bin of demands
-- between ordinary nodes fires no assert and leaves them so. If they are matchings of their
-- destinations too, and no boundary count is above zero, this also stays.
pub try_allocation_bin_lem :
    (c : Core) (bin_index : ℕ)
    → AreInside (c.new_request_bins bin_index)
    → IsSrcMatching c.batch_state c.admitted
    → (c' : Core) × (try_allocation_bin c bin_index ≡ ok c')
      × IsSrcMatching c'.batch_state c'.admitted
      × (IsDstMatching c.batch_state c.admitted → IsDstMatching c'.batch_state c'.admitted)
unfolding try_allocation_bin
try_allocation_bin_lem c bin_index h v =
    try_allocation_edges_lem (c.new_request_bins bin_index) c h v

-- A flow whose ends are both free at timeslot 0 is given it.
given_first :
    (c : Core) (src dst k : ℕ)
    → src < 256
    → dst < 255
    → IsSrcMatching c.batch_state c.admitted
    → bit c.batch_state.allowed_mask 0 ≡ true
    → bit (c.batch_state.src_endnodes src) 0 ≡ true
    → bit (c.batch_state.dst_endnodes dst) 0 ≡ true
    → (c' : Core) × (try_allocation c src dst k ≡ ok (false, c'))
      × IsSrcMatching c'.batch_state c'.admitted
      × IsOccupied c.batch_state src dst 0 c'.batch_state
      × (count_dst dst (c'.admitted 0).edges ≡ count_dst dst (c.admitted 0).edges + 1)
unfolding try_allocation
given_first c src dst k hs hd v allowed free_src free_dst =
    let (m, found, small, bits) =
      batch_state_get_avail_bitmap_lem c.batch_state src dst hs (omega arith) v.mask_small in
    let set : bit m 0 ≡ true = ground (arith, bits 0) in
    let ne : m ≢ 0 = ne_zero_of_bit m 0 set in
    let slot : ctz 64 m ≡ 0 = omega (arith, (ctz_lowest 64 m 0 (omega arith) set).0) in
    let (c', done, tried, o, schedule) = allocate_lem c src dst k m hs hd v small ne bits in
    let some_free : (m == 0) ≡ false = ground arith in
    let first_entry : c'.admitted 0 ≡ added (c.admitted 0) src dst =
      ap (λ (f : ℕ → AdmittedTraffic). f 0) schedule
      ∙ rw slot (update_lem c.admitted 0 0 (added (c.admitted 0) src dst)) in
    (
      c',
      rw (found, some_free, done) refl,
      tried.src_matching,
      rw slot at o,
      rw first_entry (count_dst-append dst (c.admitted 0).edges (edge src dst) ∙ ground arith),
    )

-- Where the boundary count of timeslot 0 is not zero, two different sources whose flows to one
-- ordinary destination have timeslot 0 free are both admitted to it in that timeslot.
pub overbooked :
    (c : Core) (s1 s2 dst k1 k2 : ℕ)
    → s1 < 256
    → s2 < 256
    → s1 ≢ s2
    → dst < 255
    → IsSrcMatching c.batch_state c.admitted
    → c.batch_state.out_of_boundary_counts 0 ≢ 0
    → bit c.batch_state.allowed_mask 0 ≡ true
    → bit (c.batch_state.src_endnodes s1) 0 ≡ true
    → bit (c.batch_state.src_endnodes s2) 0 ≡ true
    → bit (c.batch_state.dst_endnodes dst) 0 ≡ true
    → (c1 : Core) × (c2 : Core) × (try_allocation c s1 dst k1 ≡ ok (false, c1))
      × (try_allocation c1 s2 dst k2 ≡ ok (false, c2))
      × (count_dst dst (c2.admitted 0).edges ≡ count_dst dst (c.admitted 0).edges + 2)
overbooked c s1 s2 dst k1 k2 h1 h2 other hd v room allowed free1 free2 free =
    let (c1, try1, v1, o1, more1) = given_first c s1 dst k1 h1 hd v allowed free1 free in
    let (c2, try2, v2, o2, more2) =
      given_first c1 s2 dst k2 h2 hd v1 (rw o1.allowed allowed) (ground (arith, o1.src_bits s2 0))
        (ground (arith, o1.dst_bits dst 0)) in
    (c1, c2, try1, try2, omega (arith, more1, more2))
