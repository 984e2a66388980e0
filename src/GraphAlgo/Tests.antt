-- ===== src/GraphAlgo/Tests.antt =====
-- The laws of the allocator at a batch that starts, and at a demand.
use flexplane.Base.{
  ℕ, ◌+◌, ◌^◌, ◌<◌, ◌≡◌, refl, sym, ltb, true, false, ◌&&◌, ◌==◌, if◌then◌else◌, [], ◌∷◌, arith,
}
use flexplane.Base.Bits.{bit, bit_lowest}
use flexplane.Base.Checked.{ok}
use flexplane.Base.Count.{count_below_none}
use flexplane.GraphAlgo.Admitted.{AdmittedTraffic}
use flexplane.GraphAlgo.Backlog.{backlog_get}
use flexplane.GraphAlgo.Bin.{BacklogEdge}
use flexplane.GraphAlgo.Batch.{BatchState}
use flexplane.GraphAlgo.Seq.{Core, try_allocation, try_allocation_bin}
use flexplane.GraphAlgo.Seq.Count.{count_src, count_dst, count_src-nil}
use flexplane.GraphAlgo.Seq.Matching.{IsSrcMatching, IsDstMatching}
use flexplane.GraphAlgo.Seq.Allocate.{try_allocation_bin_lem, overbooked}
use flexplane.GraphAlgo.Seq.Demand.{Status, start_batch, seq_add_backlog}
use flexplane.GraphAlgo.Seq.Demand.Start.{start_batch-IsSrcMatching}
use flexplane.GraphAlgo.Seq.Demand.Conserve.{
  flatten, demand_in, owed, IsIdleClear, seq_add_backlog_lem,
}

abbrev pub status : ℕ → Status
status capacity = record {
  oversubscribed = false;
  out_of_boundary_capacity = capacity;
  inter_rack_capacity = 0;
  num_nodes = 64;
  last_alloc_tslot = λ i. 0;
  backlog = record { n = λ i. 0; is_active = λ i. false };
  new_demands = [];
  q_head = [];
  q_spent = [];
}

abbrev no_admitted : AdmittedTraffic
no_admitted = record { partition = 0; edges = [] }

abbrev flow : ℕ → ℕ → ℕ → BacklogEdge
flow src dst backlog = record { src = src; dst = dst; backlog = backlog; metric = 0 }

-- All is free at the 64 nodes, but for the boundary.
abbrev batch : ℕ → BatchState
batch capacity = record {
  oversubscribed = false;
  allowed_mask = 65535;
  src_endnodes = λ i. 65535;
  dst_endnodes = λ i. 65535;
  src_rack_bitmaps = λ i. 0;
  dst_rack_bitmaps = λ i. 0;
  src_rack_counts = λ i. 0;
  dst_rack_counts = λ i. 0;
  out_of_boundary_counts = λ i. capacity;
}

-- Three flows in bin 0, two of them to one destination.
abbrev core : ℕ → Core
core capacity = record {
  new_request_bins = λ i. if i == 0 then flow 1 7 3 ∷ flow 2 7 1 ∷ flow 2 9 5 ∷ [] else [];
  non_empty_bins = 1;
  allowed_bins = 1;
  batch_state = batch capacity;
  admitted = λ i. no_admitted;
  out_bin = [];
  spent_bin = [];
  current_timeslot = 1000;
  q_out = [];
  q_spent = [];
}

start_batch-IsSrcMatching_example :
    (c' : Core) × (start_batch (core 0) (status 0) ≡ ok c')
    × IsSrcMatching c'.batch_state c'.admitted
    × ((status 0).out_of_boundary_capacity ≡ 0 → IsDstMatching c'.batch_state c'.admitted)
start_batch-IsSrcMatching_example =
    start_batch-IsSrcMatching (core 0) (status 0) (omega arith) (omega arith) refl refl

core-IsSrcMatching :
    (capacity : ℕ) → capacity < 2 ^ 16 → IsSrcMatching (batch capacity) (λ i. no_admitted)
core-IsSrcMatching capacity h = record {
  mask_small = omega arith;
  counts_small = λ t. h;
  src_free = λ s t k free. count_src-nil s;
  src_once = λ s t k. omega (arith, count_src-nil s);
  sized = λ t k.
      sym (count_below_none 256 (λ s. ltb 0 (count_src s [])) (λ s p. rw (count_src-nil s) refl));
}

try_allocation_bin_lem_example :
    (c' : Core) × (try_allocation_bin (core 0) 0 ≡ ok c')
    × IsSrcMatching c'.batch_state c'.admitted
    × (IsDstMatching (batch 0) (λ i. no_admitted) → IsDstMatching c'.batch_state c'.admitted)
try_allocation_bin_lem_example =
    try_allocation_bin_lem (core 0) 0
      (omega arith, omega arith, (omega arith, omega arith, (omega arith, omega arith, tt)))
      (core-IsSrcMatching 0 (omega arith))

all_free : bit 65535 0 ≡ true
all_free = bit_lowest 65535

overbooked_example :
    (c1 : Core) × (c2 : Core) × (try_allocation (core 16) 1 7 3 ≡ ok (false, c1))
    × (try_allocation c1 2 7 1 ≡ ok (false, c2))
    × (count_dst 7 (c2.admitted 0).edges ≡ count_dst 7 [] + 2)
overbooked_example =
    overbooked (core 16) 1 2 7 3 1 (omega arith) (omega arith) (omega arith) (omega arith)
      (core-IsSrcMatching 16 (omega arith)) (omega arith) all_free all_free all_free all_free

no_backlog : (src dst : ℕ) → backlog_get (status 0).backlog src dst ≡ 0
unfolding backlog_get
no_backlog src dst = refl

pub no_owed : (s d : ℕ) → owed (status 0) s d ≡ 0
unfolding flatten demand_in backlog_get
no_owed s d = refl

seq_add_backlog_lem_example :
    (st' : Status) × (seq_add_backlog (status 0) 3 4 5 ≡ ok st')
    × IsIdleClear st'.backlog
    × ((s d : ℕ)
        → s < 256
        → d < 256
        → owed st' s d ≡ (if (3 == s) && (4 == d) then 5 else 0) + owed (status 0) s d)
seq_add_backlog_lem_example =
    seq_add_backlog_lem (status 0) 3 4 5 (omega arith) (omega arith) (omega arith) (omega arith)
      (rw (no_backlog 3 4) (omega arith)) (λ i off. refl)

-- The pair of 3 and 4 is active, and has a backlog that does not fit 16 bits.
abbrev active : Status
active = record (status 0) {
  backlog = record { n = λ i. if i == 772 then 70000 else 0; is_active = λ i. i == 772 };
}
