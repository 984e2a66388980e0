-- ===== src/GraphAlgo/Seq/Matching.antt =====
-- graph-algo/admissible_traffic.c: matchings of sources and destinations in the timeslots of a
-- batch.
use flexplane.Base.{
  ℕ, ◌+◌, ◌^◌, ◌≤◌, ◌<◌, ◌≡◌, refl, ap, ◌∙◌, true, ◌&&◌, ltb, ◌==◌, if◌then◌else◌, Bool-cases, inl,
  inr, arith, [], ◌∷◌, ◌++◌, length, length-append,
}
use flexplane.Base.Bits.{bit}
use flexplane.Base.Count.{count_below, count_below_insert, count_below_congr}
use flexplane.Base.Table.{update, update_lem}
use flexplane.GraphAlgo.Admitted.{AdmittedEdge, AdmittedTraffic}
use flexplane.GraphAlgo.Batch.{BatchState}
use flexplane.GraphAlgo.Batch.Laws.{IsOccupied}
use flexplane.GraphAlgo.Seq.Count.{count_src, count_dst, count_src-append, count_dst-append}

abbrev pub Schedule : Type 0
Schedule = ℕ → AdmittedTraffic

-- No source has two edges in a timeslot, and a timeslot is free for a source only if the source
-- has none in it. The size is the number of sources that have an edge.
pub record IsSrcMatching (b : BatchState) (admitted : Schedule) : Type 0 where
  pub mask_small : b.allowed_mask < 2 ^ 16
  pub counts_small : (t : ℕ) → b.out_of_boundary_counts t < 2 ^ 16
  pub src_free :
      (s t : ℕ) → t < 16 → bit (b.src_endnodes s) t ≡ true → count_src s (admitted t).edges ≡ 0
  pub src_once : (s t : ℕ) → t < 16 → count_src s (admitted t).edges ≤ 1
  pub sized :
      (t : ℕ)
      → t < 16
      → length (admitted t).edges ≡ count_below 256 (λ s. ltb 0 (count_src s (admitted t).edges))

-- The same of the destinations, where no boundary capacity is configured.
pub record IsDstMatching (b : BatchState) (admitted : Schedule) : Type 0 where
  pub no_boundary : (t : ℕ) → b.out_of_boundary_counts t ≡ 0
  pub dst_free :
      (d t : ℕ) → t < 16 → bit (b.dst_endnodes d) t ≡ true → count_dst d (admitted t).edges ≡ 0
  pub dst_once : (d t : ℕ) → t < 16 → count_dst d (admitted t).edges ≤ 1

abbrev pub edge : ℕ → ℕ → AdmittedEdge
edge s d = record { src = s; dst = d }

abbrev pub added : AdmittedTraffic → ℕ → ℕ → AdmittedTraffic
added a s d = record a { edges = a.edges ++ (edge s d ∷ []) }

-- One more edge at a timeslot that was free for its source.
module _ (b b' : BatchState) (admitted : Schedule) (src dst t : ℕ) (ht : t < 16) (hs : src < 256)
    (o : IsOccupied b src dst t b') where
  abbrev pub next : Schedule
  next = update admitted t (added (admitted t) src dst)

  edges_next :
      (i : ℕ)
      → (next i).edges
        ≡ (if t == i then (admitted t).edges ++ (edge src dst ∷ []) else (admitted i).edges)
  edges_next i = ground (arith, update_lem admitted t i (added (admitted t) src dst))

  count_src-next :
      (s i : ℕ)
      → count_src s (next i).edges
        ≡ (if (t == i) && (src == s) then 1 else 0) + count_src s (admitted i).edges
  count_src-next s i = elim (Bool-cases (t == i)) [
    | inl same ↦
        let e : t ≡ i = ground arith in
        ap (count_src s) (edges_next i)
        ∙ rw same (rw (← e) (count_src-append s (admitted t).edges (edge src dst)))
    | inr other ↦ ap (count_src s) (edges_next i) ∙ rw other (omega arith)
  ]

  count_dst-next :
      (d i : ℕ)
      → count_dst d (next i).edges
        ≡ (if (t == i) && (dst == d) then 1 else 0) + count_dst d (admitted i).edges
  count_dst-next d i = elim (Bool-cases (t == i)) [
    | inl same ↦
        let e : t ≡ i = ground arith in
        ap (count_dst d) (edges_next i)
        ∙ rw same (rw (← e) (count_dst-append d (admitted t).edges (edge src dst)))
    | inr other ↦ ap (count_dst d) (edges_next i) ∙ rw other (omega arith)
  ]

  length-next :
      (i : ℕ) → length (next i).edges ≡ (if t == i then 1 else 0) + length (admitted i).edges
  length-next i = elim (Bool-cases (t == i)) [
    | inl same ↦
        let e : t ≡ i = ground arith in
        ap length (edges_next i)
        ∙ rw same
            (rw (← e) (omega (arith, length-append {0} (admitted t).edges (edge src dst ∷ []))))
    | inr other ↦ ap length (edges_next i) ∙ rw other (omega arith)
  ]

  sized_next :
      IsSrcMatching b admitted
      → count_src src (admitted t).edges ≡ 0
      → (i : ℕ) → i < 16
      → length (next i).edges ≡ count_below 256 (λ s. ltb 0 (count_src s (next i).edges))
  sized_next m free i hi =
      let old = λ (s : ℕ). ltb 0 (count_src s (admitted i).edges) in
      let new = λ (s : ℕ). ltb 0 (count_src s (next i).edges) in
      elim (Bool-cases (t == i)) [
        | inl same ↦
            let e : t ≡ i = ground arith in
            let one_more =
              count_below_insert 256 src old new hs
                (let f : count_src src (admitted i).edges ≡ 0 = rw (← e) free in rw f refl)
                (ground (arith, count_src-next src i))
                (λ s p ne. ground (arith, count_src-next s i)) in
            ground (arith, length-next i, m.sized i hi, one_more)
        | inr other ↦
            let as_many =
              count_below_congr 256 old new (λ s p. ground (arith, count_src-next s i)) in
            ground (arith, length-next i, m.sized i hi, as_many)
      ]

  pub IsSrcMatching-next :
      IsSrcMatching b admitted → bit (b.src_endnodes src) t ≡ true → IsSrcMatching b' next
  IsSrcMatching-next m taken =
      let free = m.src_free src t ht taken in
      record {
        mask_small = rw o.allowed m.mask_small;
        counts_small = λ i. rw (o.counts i) (m.counts_small i);
        src_free = λ s i hi set.
            ground (arith, taken, free, o.src_bits s i, m.src_free s i, count_src-next s i);
        src_once = λ s i hi. ground (arith, free, m.src_once s i, count_src-next s i);
        sized = sized_next m free;
      }

  pub IsDstMatching-next :
      IsDstMatching b admitted → bit (b.dst_endnodes dst) t ≡ true → IsDstMatching b' next
  IsDstMatching-next m taken =
      let free = m.dst_free dst t ht taken in
      record {
        no_boundary = λ i. rw (o.counts i) (m.no_boundary i);
        dst_free = λ d i hi set. ground (
          arith,
          taken,
          free,
          o.dst_bits d i,
          m.no_boundary t,
          m.dst_free d i,
          count_dst-next d i,
        );
        dst_once = λ d i hi. ground (arith, free, m.dst_once d i, count_dst-next d i);
      }
