-- ===== src/Arbiter/Pending.antt =====
-- arbiter/comm_core.c: the queue of allocations that were not sent yet, as a list.
use flexplane.Base.{
  ℕ, suc, ◌^◌, ◌<◌, ◌≡◌, ◌≢◌, refl, ap, ◌∙◌, false, ◌==◌, arith, List, [], ◌∷◌, ◌++◌, add32, sub32,
  ==-refl, sym, ◌-◌,
}
use flexplane.Base.Bits.{bit_and-mask}
use flexplane.Base.Table.{update_lem}
use flexplane.Base.Ring.{entries, entries-push}
use flexplane.Protocol.Window.{wnd_pos}
use flexplane.Arbiter.Node.{PendingAlloc, PendingAllocQueue}
use flexplane.Arbiter.Allocs.{make_room, push_alloc}

wnd_pos_apart : (h i j : ℕ) → i < j → j < 256 → wnd_pos (add32 h i) ≢ wnd_pos (add32 h j)
unfolding wnd_pos
wnd_pos_apart h i j p q e = omega (arith, e, bit_and-mask 8 (add32 h i), bit_and-mask 8 (add32 h j))

wnd_pos_again : (h : ℕ) → wnd_pos (add32 h 256) ≡ wnd_pos (add32 h 0)
unfolding wnd_pos
wnd_pos_again h = omega (arith, bit_and-mask 8 (add32 h 256), bit_and-mask 8 (add32 h 0))

-- The allocations that wait, oldest first.
abbrev pub unsent : PendingAllocQueue → List PendingAlloc
unsent q = entries wnd_pos q.allocs q.head (sub32 q.tail q.head)

-- Counters of 32 bits.
pub record IsCounted (q : PendingAllocQueue) : Type 0 where
  pub head_small : q.head < 2 ^ 32
  pub tail_small : q.tail < 2 ^ 32

-- The test for a full queue fails for fewer than 2 ^ 32 - 1 entries.
make_room_same :
    (q : PendingAllocQueue) → IsCounted q → sub32 q.tail q.head < 2 ^ 32 - 1 → make_room q ≡ q
unfolding make_room
make_room_same q v few =
    let test : (q.head == add32 q.tail 1) ≡ false = ground (arith, v.head_small, v.tail_small) in
    rw test refl

-- A queue of fewer than 256 allocations takes one more at its end.
pub push_alloc_lem :
    (q : PendingAllocQueue) (alloc : PendingAlloc)
    → IsCounted q
    → sub32 q.tail q.head < 256
    → IsCounted (push_alloc (make_room q) alloc)
      × (unsent (push_alloc (make_room q) alloc) ≡ unsent q ++ alloc ∷ [])
unfolding push_alloc
push_alloc_lem q alloc v room =
    let n = sub32 q.tail q.head in
    let hs = v.head_small in
    let ts = v.tail_small in
    let at : add32 q.head n ≡ q.tail = omega arith in
    let longer : sub32 (add32 q.tail 1) q.head ≡ suc n = omega arith in
    let pushed =
      entries-push wnd_pos q.allocs alloc q.head n hs (λ i lt. wnd_pos_apart q.head i n lt room) in
    rw (make_room_same q v (omega (arith, room)))
      (record { head_small = hs; tail_small = omega arith }, rw longer (rw at at pushed))

-- A queue of 256 allocations is full, but the next one throws none away: it is written over the
-- oldest, and 257 are counted.
pub push_alloc_overwrites :
    (q : PendingAllocQueue) (alloc : PendingAlloc)
    → IsCounted q
    → sub32 q.tail q.head ≡ 256
    → ((push_alloc (make_room q) alloc).head ≡ q.head)
      × ((push_alloc (make_room q) alloc).allocs (wnd_pos q.head) ≡ alloc)
      × (sub32 (push_alloc (make_room q) alloc).tail (push_alloc (make_room q) alloc).head ≡ 257)
unfolding push_alloc
push_alloc_overwrites q alloc v full =
    let hs = v.head_small in
    let ts = v.tail_small in
    let at : add32 q.head 256 ≡ q.tail = omega arith in
    let here : add32 q.head 0 ≡ q.head = omega arith in
    let same : wnd_pos q.tail ≡ wnd_pos q.head =
      ap wnd_pos (sym at) ∙ wnd_pos_again q.head ∙ ap wnd_pos here in
    rw (make_room_same q v (omega (arith, full))) (
      refl,
      rw
          (
            update_lem q.allocs (wnd_pos q.tail) (wnd_pos q.head) alloc,
            same,
            ==-refl (wnd_pos q.head),
          )
          refl,
      omega arith,
    )

-- The oldest allocation leaves the queue.
pub unsent-head :
    (q : PendingAllocQueue)
    → IsCounted q
    → q.head ≢ q.tail
    → unsent q ≡ q.allocs (wnd_pos q.head) ∷ unsent (record q { head = add32 q.head 1 })
unfolding entries
unsent-head q v ne =
    let hs = v.head_small in
    let ts = v.tail_small in
    let m = sub32 q.tail q.head - 1 in
    let more : sub32 q.tail q.head ≡ suc m = omega arith in
    let left : sub32 q.tail (add32 q.head 1) ≡ m = omega arith in
    rw left (ap (entries wnd_pos q.allocs q.head) more)

pub unsent-empty : (q : PendingAllocQueue) → q.head ≡ q.tail → unsent q ≡ []
unfolding entries
unsent-empty q e = let none : sub32 q.tail q.head ≡ 0 = rw e (omega arith) in rw none refl
