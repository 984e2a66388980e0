-- ===== src/GraphAlgo/Batch/Laws.antt =====
-- graph-algo/batch.h: free timeslots before and after one is occupied.
use flexplane.Base.{
  ℕ, ◌+◌, ◌-◌, ◌^◌, ◌<◌, bit_and, bit_or, bit_xor, ◌≡◌, refl, ap, ◌∙◌, false, not, ◌&&◌, ◌==◌,
  if◌then◌else◌, Bool-cases, inl, inr, arith, ◌≢◌, sub64, u16, ones64,
}
use flexplane.Base.Bits.{
  bit, bit-zero, bit-bit_and, bit-bit_xor, bit-lowest, bit-complement, ctz, ne_zero_of_bit,
  bit_and-lt-pow, bit-ge,
}
use flexplane.Base.Checked.{ok}
use flexplane.Base.Table.{update, update_lem}
use flexplane.GraphAlgo.Batch.{
  BatchState, minus, batch_state_get_avail_bitmap, batch_state_set_occupied_conditional,
}

-- `x & -x` is the one bit that `bsfq` finds.
pub bit-lowest64 : (w i : ℕ) → w < 2 ^ 64 → w ≢ 0 → bit (bit_and w (sub64 0 w)) i ≡ (i == ctz 64 w)
bit-lowest64 w i h ne =
    ap (λ v. bit (bit_and w v) i) (let e : sub64 0 w ≡ 2 ^ 64 - w = omega arith in e)
    ∙ bit-lowest 64 w i h ne

-- The bits of the bitmap of free timeslots.
pub batch_state_get_avail_bitmap_lem :
    (b : BatchState) (src dst : ℕ)
    → src < 256
    → dst < 256
    → b.allowed_mask < 2 ^ 16
    → (m : ℕ) × (batch_state_get_avail_bitmap b src dst ≡ ok m)
      × (m < 2 ^ 16)
      × ((t : ℕ)
          → bit m t
            ≡ ((bit b.allowed_mask t && bit (b.src_endnodes src) t) && bit (b.dst_endnodes dst) t))
unfolding batch_state_get_avail_bitmap
batch_state_get_avail_bitmap_lem b src dst hs hd ha = (
  bit_and (bit_and b.allowed_mask (b.src_endnodes src)) (b.dst_endnodes dst),
  ground arith,
  bit_and-lt-pow 16 (bit_and b.allowed_mask (b.src_endnodes src)) (b.dst_endnodes dst)
      (bit_and-lt-pow 16 b.allowed_mask (b.src_endnodes src) ha),
  λ t. ground (
    arith,
    bit-bit_and (bit_and b.allowed_mask (b.src_endnodes src)) (b.dst_endnodes dst) t,
    bit-bit_and b.allowed_mask (b.src_endnodes src) t,
  ),
)

-- The state after a flow to an ordinary node is given timeslot t by the one-bit mask x: the
-- source is taken, and the destination only if the boundary count of t is zero.
pub record IsOccupied (b : BatchState) (src dst t : ℕ) (b' : BatchState) : Type 0 where
  pub allowed : b'.allowed_mask ≡ b.allowed_mask
  pub counts : (i : ℕ) → b'.out_of_boundary_counts i ≡ b.out_of_boundary_counts i
  pub src_bits :
      (s i : ℕ)
      → bit (b'.src_endnodes s) i ≡ (
          if (src == s) && (i == t)
          then not (bit (b.src_endnodes s) i)
          else bit (b.src_endnodes s) i)
  pub dst_bits :
      (d i : ℕ)
      → bit (b'.dst_endnodes d) i ≡ (
          if ((dst == d) && (i == t)) && (b.out_of_boundary_counts t == 0)
          then not (bit (b.dst_endnodes d) i)
          else bit (b.dst_endnodes d) i)

bit_and-zero_right : (x i : ℕ) → bit (bit_and x 0) i ≡ false
bit_and-zero_right x i = ground (arith, bit-bit_and x 0 i, bit-zero i)

bit_and-ones : (x i : ℕ) → x < 2 ^ 64 → bit (bit_and x ones64) i ≡ bit x i
bit_and-ones x i h = ground (
  arith,
  bit-bit_and x ones64 i,
  bit-complement 64 0 i (omega arith),
  bit-zero i,
  bit-ge 64 x i h,
)

bit_and-flip_mask :
    (x c i : ℕ) → x < 2 ^ 64 → bit (bit_and x (bit_or 0 (minus (c == 0)))) i ≡ ((c == 0) && bit x i)
bit_and-flip_mask x c i h = elim (Bool-cases (c == 0)) [
  | inl none_left ↦ rw none_left (bit_and-ones x i h)
  | inr some_left ↦ rw some_left (bit_and-zero_right x i)
]

pub batch_state_set_occupied_conditional_lem :
    (b : BatchState) (src dst t x : ℕ)
    → src < 256
    → dst < 255
    → t < 16
    → x < 2 ^ 64
    → b.out_of_boundary_counts t < 2 ^ 16
    → ((i : ℕ) → bit x i ≡ (i == t))
    → (b' : BatchState) × (batch_state_set_occupied_conditional b src dst t x ≡ ok b')
      × IsOccupied b src dst t b'
unfolding batch_state_set_occupied_conditional
batch_state_set_occupied_conditional_lem b src dst t x hs hd ht hx hc one =
    let ne : x ≢ 0 = ne_zero_of_bit x t (one t ∙ ground arith) in
    let counts = update b.out_of_boundary_counts t (u16 (b.out_of_boundary_counts t + 0)) in
    let same : counts t ≡ b.out_of_boundary_counts t =
      ground
        (arith, update_lem b.out_of_boundary_counts t t (u16 (b.out_of_boundary_counts t + 0))) in
    let flip_mask = bit_or 0 (minus (counts t == 0)) in
    let after : BatchState = record b {
      src_endnodes = update b.src_endnodes src (bit_xor (b.src_endnodes src) x);
      out_of_boundary_counts = counts;
      dst_endnodes = update b.dst_endnodes dst (bit_xor (b.dst_endnodes dst) (bit_and x flip_mask));
    } in
    let is_set : (x == 0) ≡ false = ground arith in
    let ordinary : (dst == 255) ≡ false = ground arith in
    (
      after,
      rw (is_set, ordinary) (ground arith),
      record {
        allowed = refl;
        counts = λ i.
            ground (
              arith,
              update_lem b.out_of_boundary_counts t i (u16 (b.out_of_boundary_counts t + 0)),
            );
        src_bits = λ s i. ground (
          arith,
          update_lem b.src_endnodes src s (bit_xor (b.src_endnodes src) x),
          bit-bit_xor (b.src_endnodes src) x i,
          one i,
        );
        dst_bits = λ d i. ground (
          arith,
          update_lem b.dst_endnodes dst d (bit_xor (b.dst_endnodes dst) (bit_and x flip_mask)),
          bit-bit_xor (b.dst_endnodes dst) (bit_and x flip_mask) i,
          bit_and-flip_mask x (counts t) i hx,
          ap (λ (c : ℕ). c == 0) same,
          one i,
        );
      },
    )
