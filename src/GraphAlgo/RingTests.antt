-- ===== src/GraphAlgo/RingTests.antt =====
-- graph-algo/fp_ring.h: the laws of the ring at one whose counters wrap.
use flexplane.Base.{ℕ, ◌^◌, ◌-◌, refl, arith}
use flexplane.GraphAlgo.Ring.{
  FpRing, IsRing, IsBurst, fp_ring_dequeue_burst, fp_ring_dequeue_burst_lem,
}

-- Four elements, the last two after the counters wrapped to 0.
abbrev wrapped : FpRing ℕ
wrapped = record { head = 2 ^ 32 - 2; tail = 2; mask = 2 ^ 16 - 1; elem = λ i. i }

wrapped-IsRing : IsRing wrapped
wrapped-IsRing = record {
  head_small = omega arith;
  tail_small = omega arith;
  size = refl;
  used = omega arith;
}

fp_ring_dequeue_burst_lem_example : IsBurst 3 wrapped (fp_ring_dequeue_burst 3 wrapped)
fp_ring_dequeue_burst_lem_example = fp_ring_dequeue_burst_lem 3 wrapped wrapped-IsRing
