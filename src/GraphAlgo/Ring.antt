-- ===== src/GraphAlgo/Ring.antt =====
-- graph-algo/fp_ring.h, built without DPDK: a ring of pointers with free-running 32-bit counters.
use flexplane.Base.{
  ℕ, zero, suc, ◌-◌, ◌^◌, ◌<◌, ◌≡◌, ◌≢◌, refl, ap, min, Bool, true, false, ltb, ◌==◌, if◌then◌else◌,
  Option, some, none, arith, List, [], ◌∷◌, ◌++◌, length, bit_and, Bool-cases, inl, inr, add32,
  sub32,
}
use flexplane.Base.Bits.{bit_and-mask}
use flexplane.Base.Table.{update}
use flexplane.Base.Ring.{entries, entries-push, length-entries}

-- `struct fp_ring`; `elem` is read at the counters masked with `mask`.
pub record FpRing {ℓ} (A : Type ℓ) : Type ℓ where
  pub head : ℕ
  pub tail : ℕ
  pub mask : ℕ
  pub elem : ℕ → A

-- What the operations return: 0, or a negative error number.
pub data RingResult : Type 0 where
  ring_ok : RingResult
  enobufs : RingResult

-- `elem` is the memory that `malloc` gave.
unfoldable pub fp_ring_create {ℓ} : {A : Type ℓ} → ℕ → (ℕ → A) → FpRing A
fp_ring_create num_elems elem = record { head = 0; tail = 0; mask = sub32 num_elems 1; elem = elem }

unfoldable pub fp_ring_enqueue {ℓ} : {A : Type ℓ} → FpRing A → A → RingResult × FpRing A
fp_ring_enqueue ring elem = if ring.tail == add32 ring.head ring.mask then (enobufs, ring) else (
  ring_ok,
  record ring {
    elem = update ring.elem (bit_and ring.tail ring.mask) elem;
    tail = add32 ring.tail 1;
  },
)

-- The loop of `fp_ring_enqueue_bulk`, which does not look at the results.
unfoldable pub enqueue_all {ℓ} : {A : Type ℓ} → FpRing A → List A → FpRing A
enqueue_all ring [] = ring
enqueue_all ring (elem ∷ elems) = enqueue_all (fp_ring_enqueue ring elem).1 elems

unfoldable pub fp_ring_enqueue_bulk {ℓ} : {A : Type ℓ} → FpRing A → List A → RingResult × FpRing A
fp_ring_enqueue_bulk ring elems =
    if ltb (add32 ring.head ring.mask) (add32 ring.tail (length elems))
    then (enobufs, ring)
    else (ring_ok, enqueue_all ring elems)

-- The element, or none for -ENOENT.
unfoldable pub fp_ring_dequeue {ℓ} : {A : Type ℓ} → FpRing A → Option A × FpRing A
fp_ring_dequeue ring =
    if ring.head == ring.tail
    then (none, ring)
    else (some (ring.elem (bit_and ring.head ring.mask)), record ring { head = add32 ring.head 1 })

unfoldable pub fp_ring_empty {ℓ} : {A : Type ℓ} → FpRing A → Bool
fp_ring_empty ring = ring.head == ring.tail

-- One pass of the loop below, with what it dequeued and what the later passes would give.
unfoldable pub burst_next {ℓ} :
    {A : Type ℓ} → Option A × FpRing A → List A × FpRing A → List A × FpRing A
burst_next (none, r) rest = ([], r)
burst_next (some elem, r) rest = (elem ∷ rest.0, rest.1)

-- The elements dequeued into the table; their number is the result.
unfoldable pub fp_ring_dequeue_burst {ℓ} : {A : Type ℓ} → ℕ → FpRing A → List A × FpRing A
fp_ring_dequeue_burst zero r = ([], r)
fp_ring_dequeue_burst (suc n) r =
    let dequeued = fp_ring_dequeue r in burst_next dequeued (fp_ring_dequeue_burst n dequeued.1)

-- The place of a counter in a ring of 2 ^ 16 elements.
abbrev pub ring_pos : ℕ → ℕ
ring_pos counter = bit_and counter (2 ^ 16 - 1)

ring_pos_apart : (h i j : ℕ) → i < j → j < 2 ^ 16 → ring_pos (add32 h i) ≢ ring_pos (add32 h j)
ring_pos_apart h i j p q e =
    omega (arith, e, bit_and-mask 16 (add32 h i), bit_and-mask 16 (add32 h j))

-- A ring of 2 ^ 16 elements; one place stays free.
pub record IsRing {ℓ} {A : Type ℓ} (ring : FpRing A) : Type ℓ where
  pub head_small : ring.head < 2 ^ 32
  pub tail_small : ring.tail < 2 ^ 32
  pub size : ring.mask ≡ 2 ^ 16 - 1
  pub used : sub32 ring.tail ring.head < 2 ^ 16

-- The elements in the ring, oldest first.
abbrev pub contents {ℓ} : {A : Type ℓ} → FpRing A → List A
contents ring = entries ring_pos ring.elem ring.head (sub32 ring.tail ring.head)

-- A ring of 2 ^ 16 elements takes an element at its end, and if it holds 2 ^ 16 - 1 it refuses it
-- with -ENOBUFS and stays as it is.
pub fp_ring_enqueue_lem {ℓ} :
    {A : Type ℓ} (ring : FpRing A) (elem : A)
    → IsRing ring
    → IsRing (fp_ring_enqueue ring elem).1
      × ((fp_ring_enqueue ring elem).0
          ≡ (if length (contents ring) == 2 ^ 16 - 1 then enobufs else ring_ok))
      × (contents (fp_ring_enqueue ring elem).1 ≡ (
          if length (contents ring) == 2 ^ 16 - 1
          then contents ring
          else contents ring ++ elem ∷ []))
unfolding fp_ring_enqueue
fp_ring_enqueue_lem ring elem v =
    let n = sub32 ring.tail ring.head in
    let hs = v.head_small in
    let ts = v.tail_small in
    let used = v.used in
    let count = length-entries ring_pos ring.elem ring.head n in
    elim (Bool-cases (n == 2 ^ 16 - 1)) [
      | inl full ↦
          let size = v.size in
          let test : (ring.tail == add32 ring.head ring.mask) ≡ true = ground arith in
          rw (test, count, full) (v, refl, refl)
      | inr room ↦
          let test : (ring.tail == add32 ring.head (2 ^ 16 - 1)) ≡ false = ground arith in
          let few : suc n < 2 ^ 16 = ground arith in
          let at : add32 ring.head n ≡ ring.tail = omega arith in
          let longer : sub32 (add32 ring.tail 1) ring.head ≡ suc n = omega arith in
          let pushed =
            entries-push ring_pos ring.elem elem ring.head n hs
              (λ i lt. ring_pos_apart ring.head i n lt used) in
          rw (v.size, test, count, room)
            (
              record {
                head_small = hs;
                tail_small = omega arith;
                size = refl;
                used = rw longer few;
              },
              refl,
              rw longer (rw at at pushed),
            )
    ]

dequeued_none {ℓ} :
    {A : Type ℓ} (ring : FpRing A)
    → (ring.head == ring.tail) ≡ true
    → fp_ring_dequeue ring ≡ (none, ring)
unfolding fp_ring_dequeue
dequeued_none ring e = rw e refl

dequeued_some {ℓ} :
    {A : Type ℓ} (ring : FpRing A)
    → (ring.head == ring.tail) ≡ false
    → fp_ring_dequeue ring
      ≡ (some (ring.elem (bit_and ring.head ring.mask)), record ring { head = add32 ring.head 1 })
unfolding fp_ring_dequeue
dequeued_some ring e = rw e refl

burst_zero {ℓ} : {A : Type ℓ} (ring : FpRing A) → fp_ring_dequeue_burst zero ring ≡ ([], ring)
unfolding fp_ring_dequeue_burst
burst_zero ring = refl

burst_none {ℓ} :
    {A : Type ℓ} (n : ℕ) (ring : FpRing A)
    → (ring.head == ring.tail) ≡ true
    → fp_ring_dequeue_burst (suc n) ring ≡ ([], ring)
unfolding fp_ring_dequeue_burst burst_next
burst_none n ring e = ap (λ d. burst_next d (fp_ring_dequeue_burst n d.1)) (dequeued_none ring e)

burst_some {ℓ} :
    {A : Type ℓ} (n : ℕ) (ring : FpRing A)
    → (ring.head == ring.tail) ≡ false
    → fp_ring_dequeue_burst (suc n) ring ≡ (
      ring.elem (bit_and ring.head ring.mask)
          ∷ (fp_ring_dequeue_burst n (record ring { head = add32 ring.head 1 })).0,
      (fp_ring_dequeue_burst n (record ring { head = add32 ring.head 1 })).1,
    )
unfolding fp_ring_dequeue_burst burst_next
burst_some n ring e = ap (λ d. burst_next d (fp_ring_dequeue_burst n d.1)) (dequeued_some ring e)

-- The elements that a burst of at most `n` gives, and the ring that it leaves.
pub record IsBurst {ℓ} {A : Type ℓ} (n : ℕ) (ring : FpRing A) (r : List A × FpRing A) : Type ℓ where
  pub count : length r.0 ≡ min n (length (contents ring))
  pub order : contents ring ≡ r.0 ++ contents r.1
  pub ring_after : IsRing r.1

-- A burst from a ring of 2 ^ 16 elements gives its oldest elements in order, `n` of them or all if
-- there are fewer, and leaves the others in order.
pub fp_ring_dequeue_burst_lem {ℓ} :
    {A : Type ℓ} (n : ℕ) (ring : FpRing A)
    → IsRing ring
    → IsBurst n ring (fp_ring_dequeue_burst n ring)
unfolding entries
fp_ring_dequeue_burst_lem zero ring v =
    let e : fp_ring_dequeue_burst zero ring ≡ ([], ring) = burst_zero ring in
    rw e (record { count = omega arith; order = refl; ring_after = v })
fp_ring_dequeue_burst_lem (suc n) ring v =
    let hs = v.head_small in
    let ts = v.tail_small in
    let used = v.used in
    let rest = sub32 ring.tail (add32 ring.head 1) in
    elim (Bool-cases (ring.head == ring.tail)) [
      | inl empty ↦
          let none_left : sub32 ring.tail ring.head ≡ 0 = ground arith in
          rw (burst_none n ring empty)
            (record { count = rw none_left (omega arith); order = refl; ring_after = v })
      | inr some_left ↦
          let more : sub32 ring.tail ring.head ≡ suc rest = ground arith in
          let place : bit_and ring.head ring.mask ≡ ring_pos ring.head =
            ap (bit_and ring.head) v.size in
          let left : FpRing _ = record ring { head = add32 ring.head 1 } in
          let left_ok : IsRing left = record {
            head_small = omega arith;
            tail_small = ts;
            size = v.size;
            used = omega arith;
          } in
          let b = fp_ring_dequeue_burst_lem n left left_ok in
          rw (burst_some n ring some_left) (record {
            count = rw more (omega (arith, b.count));
            order = rw (more, place, b.order) refl;
            ring_after = b.ring_after;
          })
    ]
