-- ===== src/Protocol/Conn/Receive/Numbers.antt =====
-- The numbers of a packet's header and of a reset payload, against what was sent.
use flexplane.Base.{
  ℕ, zero, suc, ◌+◌, ◌-◌, ◌*◌, ◌/◌, ◌%◌, ◌^◌, ◌≤◌, ◌<◌, ◌≡◌, ap, ◌∙◌, bit_and, bit_or, Bool, true,
  false, ◌&&◌, ◌||◌, ltb, leb, ◌==◌, Bool-cases, inl, inr, if◌then◌else◌, sub64, shl64, shr64,
  not64, ones64, arith,
}
use flexplane.Base.Bits.{
  bit, bit_and-mask, bit-bit_and, bit-bit_or, bit-div, bit-mul, bit-mod, bit-one, bit-zero,
  bit_lowest, bit_or-lt-pow, bit-complement,
}
use flexplane.Protocol.Conn.{Conn, PktDesc}
use flexplane.Protocol.Conn.Ack.{commit_desc}
use flexplane.Protocol.Conn.Receive.{extend_seqno, extend_tstamp, expand_ack_vec}

-- A 64-bit sequence number comes back from its 16 low bits, where it is fewer than 2 ^ 16 after
-- the 64-bit number that the receiver starts from.
pub extend_seqno-mod :
    (base seqno : ℕ)
    → base < 2 ^ 64
    → seqno < 2 ^ 64
    → sub64 seqno base < 2 ^ 16
    → extend_seqno base (seqno % 2 ^ 16) ≡ seqno
unfolding extend_seqno
extend_seqno-mod base seqno hb hs near =
    let masked = bit_and-mask 16 (sub64 (seqno % 2 ^ 16) base) in omega (arith, masked)

-- A 64-bit timestamp comes back from its 56 low bits, where it is at most 2 ^ 55 before and less
-- than 2 ^ 55 after the receiver's time.
pub extend_tstamp-mod :
    (now tstamp : ℕ)
    → now < 2 ^ 64
    → tstamp < 2 ^ 64
    → sub64 tstamp (sub64 now (2 ^ 55)) < 2 ^ 56
    → extend_tstamp now (tstamp % 2 ^ 56) ≡ tstamp
unfolding extend_tstamp
extend_tstamp-mod now tstamp hn ht near =
    let masked = bit_and-mask 56 (sub64 (tstamp % 2 ^ 56) (sub64 now (2 ^ 55))) in
    omega (arith, masked)

-- Whether the 48 oldest numbers of the window were all received.
abbrev all_old : ℕ → Bool
all_old inwnd = bit_and inwnd (shr64 ones64 16) == shr64 ones64 16

-- The header's 16 bits.
abbrev packed : ℕ → ℕ
packed inwnd = bit_or (bit_and (shr64 inwnd 48) 0x7FFF) (if all_old inwnd then 2 ^ 15 else 0)

flag-bit : (b : Bool) (i : ℕ) → bit (if b then 2 ^ 15 else 0) i ≡ (b && (i == 15))
flag-bit true i = ground (arith, bit-mul 15 1 i, bit-one (i - 15))
flag-bit false i = bit-zero i

bit-packed :
    (inwnd i : ℕ)
    → bit (packed inwnd) i ≡ ((ltb i 15 && bit inwnd (i + 48)) || (all_old inwnd && (i == 15)))
bit-packed inwnd i =
    let masked = bit_and-mask 15 (shr64 inwnd 48) in
    bit-bit_or (bit_and (shr64 inwnd 48) 0x7FFF) (if all_old inwnd then 2 ^ 15 else 0) i
    ∙ ground (
      arith,
      flag-bit (all_old inwnd) i,
      ap (λ x. bit x i) masked,
      bit-mod 15 (shr64 inwnd 48) i,
      bit-div 48 inwnd i,
    )

packed-lt : (inwnd : ℕ) → packed inwnd < 2 ^ 16
packed-lt inwnd =
    bit_or-lt-pow 16 (bit_and (shr64 inwnd 48) 0x7FFF) (if all_old inwnd then 2 ^ 15 else 0)
      (omega (arith, bit_and-mask 15 (shr64 inwnd 48))) (ground arith)

packed-top : (inwnd : ℕ) → (packed inwnd / 2 ^ 15 == 1) ≡ all_old inwnd
packed-top inwnd = ground (
  arith,
  packed-lt inwnd,
  bit-packed inwnd 15,
  bit-div 15 (packed inwnd) 0,
  bit_lowest (packed inwnd / 2 ^ 15),
)

bit-old :
    (top i : ℕ)
    → top < 2
    → bit (bit_and (sub64 (2 ^ 48) top) (not64 (2 ^ 48))) i ≡ ((top == 1) && ltb i 48)
bit-old zero i h = bit-zero i
bit-old (suc zero) i h = bit-complement 48 0 i (omega arith) ∙ ground (arith, bit-zero i)
bit-old (suc (suc n)) i h = absurd (omega arith)

bit-expand :
    (v i : ℕ)
    → v < 2 ^ 16
    → i < 63
    → bit (expand_ack_vec v) i ≡ ((ltb i 48 && (v / 2 ^ 15 == 1)) || (leb 48 i && bit v (i - 48)))
unfolding expand_ack_vec
bit-expand v i hv hi =
    let old = bit_and (sub64 (2 ^ 48) (v / 2 ^ 15)) (not64 (2 ^ 48)) in
    let recent = shl64 (bit_and v 0x7FFF) 48 in
    let masked = bit_and-mask 15 v in
    bit-bit_or (bit_or old recent) (shl64 1 63) i
    ∙ ground (
      arith,
      bit-bit_or old recent i,
      bit-old (v / 2 ^ 15) i (omega arith),
      bit-mod 64 (bit_and v 0x7FFF * 2 ^ 48) i,
      bit-mul 48 (bit_and v 0x7FFF) i,
      ap (λ x. bit x (i - 48)) masked,
      bit-mod 15 v (i - 48),
      bit-mod 64 (1 * 2 ^ 63) i,
      bit-mul 63 1 i,
    )

bit-of-all_old : (inwnd i : ℕ) → i < 48 → all_old inwnd ≡ true → bit inwnd i ≡ true
bit-of-all_old inwnd i h all =
    let mask = shr64 ones64 16 in
    let same : bit_and inwnd mask ≡ mask = ground (arith, all) in
    ground (
      arith,
      bit-bit_and inwnd mask i,
      ap (λ x. bit x i) same,
      bit-complement 48 0 i (omega arith),
      bit-zero i,
    )

-- What a committed packet acks with its 16 bits, read back: the bit of each of the 15 numbers
-- before the newest is that of the window, and each of the 48 older ones is set exactly if all 48
-- are set in the window. So a bit below the newest that is set is set in the window.
pub ack_vec-honest :
    (c : Conn) (pd : PktDesc) (timestamp i : ℕ)
    → i < 63
    → (bit (expand_ack_vec (commit_desc c pd timestamp).ack_vec) i
        ≡ (if ltb i 48 then bit_and c.inwnd (2 ^ 48 - 1) == 2 ^ 48 - 1 else bit c.inwnd i))
      × (bit (expand_ack_vec (commit_desc c pd timestamp).ack_vec) i ≡ true → bit c.inwnd i ≡ true)
unfolding commit_desc
ack_vec-honest c pd timestamp i h =
    let seen = bit-expand (packed c.inwnd) i (packed-lt c.inwnd) h in
    let top = packed-top c.inwnd in
    let low = bit-packed c.inwnd (i - 48) in
    let place : (48 ≤ i) → bit c.inwnd (i - 48 + 48) ≡ bit c.inwnd i =
      λ k. ap (bit c.inwnd) (omega (arith, k)) in
    let exact : bit (expand_ack_vec (packed c.inwnd)) i
        ≡ (if ltb i 48 then all_old c.inwnd else bit c.inwnd i) =
      ground (arith, seen, top, low, place) in
    (
      exact,
      λ on. elim (Bool-cases (ltb i 48)) [
        | inl old ↦ bit-of-all_old c.inwnd i (ground arith) (ground (arith, exact, on))
        | inr recent ↦ ground (arith, exact, on)
      ],
    )
