-- ===== src/Protocol/Conn/Encode/Roundtrip.antt =====
-- The header and the reset payload of an encoded packet, as the receiver reads them.
use flexplane.Base.{
  ℕ, ◌+◌, ◌-◌, ◌*◌, ◌/◌, ◌%◌, ◌^◌, ◌≤◌, ◌<◌, ◌≡◌, refl, ap, ◌∙◌, bit_and, Bool, true, false, not,
  ◌&&◌, List, ◌++◌, ltb, if◌then◌else◌, length, get_or, replicate, sub32, sub64, u16, shr64, arith,
}
use flexplane.Base.Bits.{bit_and-mask}
use flexplane.Protocol.Conn.{Config, PktDesc}
use flexplane.Protocol.Checksum.{fastpass_checksum}
use flexplane.Protocol.Conn.Payload.{net16, net32}
use flexplane.Protocol.Conn.Receive.{extend_seqno, extend_tstamp}
use flexplane.Protocol.Conn.Receive.Numbers.{extend_seqno-mod, extend_tstamp-mod}
use flexplane.Protocol.Conn.Encode.{
  encoded, encode_header, encode_reset, encode_alloc, encode_areq, with_checksum,
  fpproto_encode_packet,
}

net16-htons : (n : ℕ) → 256 * (u16 n / 256) + n % 256 ≡ n % 65536
net16-htons n = omega arith

net32-htonl :
    (n : ℕ)
    → 65536 * (256 * (u16 (n / 65536) / 256) + n / 65536 % 256) + (256 * (u16 n / 256) + n % 256)
      ≡ n % 2 ^ 32
net32-htonl n = omega arith

-- The 24 high bits and 32 low bits of a timestamp.
tstamp-parts :
    (t : ℕ)
    → bit_and ((1 * 2 ^ 28 + bit_and (shr64 t 32) 0x00FFFFFF) % 2 ^ 32) (2 ^ 24 - 1) * 2 ^ 32
        + t % 2 ^ 32
      ≡ t % 2 ^ 56
tstamp-parts t =
    let inner = bit_and-mask 24 (shr64 t 32) in
    let outer = bit_and-mask 24 ((1 * 2 ^ 28 + bit_and (shr64 t 32) 0x00FFFFFF) % 2 ^ 32) in
    omega (arith, inner, outer)

abbrev reset_size : PktDesc → ℕ
reset_size pd = if pd.send_reset then 8 else 0

abbrev alloc_size : Config → PktDesc → ℕ
alloc_size cfg pd =
    if not cfg.is_endpoint && ltb 0 pd.alloc_tslot
    then 4 + 2 * length pd.dsts + pd.alloc_tslot
    else 0

abbrev areq_size : PktDesc → ℕ
areq_size pd = if ltb 0 (length pd.areq) then 2 + 4 * length pd.areq else 0

reset_word :
    (t : ℕ)
    → bit_and
            (65536
                * (256 * (u16 ((1 * 2 ^ 28 + bit_and (shr64 t 32) 0x00FFFFFF) / 65536) / 256)
                    + (1 * 2 ^ 28 + bit_and (shr64 t 32) 0x00FFFFFF) / 65536 % 256)
              + (256 * (u16 (1 * 2 ^ 28 + bit_and (shr64 t 32) 0x00FFFFFF) / 256)
                  + (1 * 2 ^ 28 + bit_and (shr64 t 32) 0x00FFFFFF) % 256))
            (2 ^ 24 - 1)
          * 2 ^ 32
        + (65536 * (256 * (u16 (t / 65536) / 256) + t / 65536 % 256)
            + (256 * (u16 t / 256) + t % 256))
      ≡ t % 2 ^ 56
reset_word t =
    let high = net32-htonl (1 * 2 ^ 28 + bit_and (shr64 t 32) 0x00FFFFFF) in
    ap
      (λ x.
        bit_and x (2 ^ 24 - 1) * 2 ^ 32
        + (65536 * (256 * (u16 (t / 65536) / 256) + t / 65536 % 256)
            + (256 * (u16 t / 256) + t % 256)))
      high
    ∙ omega (arith, net32-htonl t, tstamp-parts t)

-- The bytes that a packet needs without padding.
abbrev encoded_len : Config → PktDesc → ℕ
encoded_len cfg pd = 8 + reset_size pd + alloc_size cfg pd + areq_size pd

-- A packet that is read as it was numbered: its sequence number, that of its ACK, its ACK
-- vector, and the timestamp of its reset.
pub record IsReadBack (pd : PktDesc) (bytes : List ℕ) : Type 0 where
  pub seqno :
      (base : ℕ)
      → base < 2 ^ 64
      → sub64 pd.seqno base < 2 ^ 16
      → extend_seqno base (net16 bytes 0) ≡ pd.seqno
  pub ack_seq :
      (base : ℕ)
      → base < 2 ^ 64
      → sub64 pd.ack_seq base < 2 ^ 16
      → extend_seqno base (net16 bytes 2) ≡ pd.ack_seq
  pub ack_vec : net16 bytes 4 ≡ pd.ack_vec
  pub reset :
      pd.send_reset ≡ true
      → (now : ℕ) → now < 2 ^ 64
      → sub64 pd.reset_timestamp (sub64 now (2 ^ 55)) < 2 ^ 56
      → (get_or bytes 8 0 / 16 ≡ 1)
        × (extend_tstamp now (bit_and (net32 bytes 8) (2 ^ 24 - 1) * 2 ^ 32 + net32 bytes 12)
            ≡ pd.reset_timestamp)

abbrev areq_bytes : ℕ → ℕ
areq_bytes n = if ltb 0 n then 2 + 4 * n else 0

abbrev reset_bytes : Bool → ℕ
reset_bytes b = if b then 8 else 0

-- The tests for room let a packet pass for which there is room.
tests_pass :
    (send_reset : Bool) (n max_len min_size alloc : ℕ)
    → 8 + reset_bytes send_reset + alloc + areq_bytes n ≤ max_len
    → min_size ≤ max_len
    → max_len < 2 ^ 32
    → (ltb max_len 8 ≡ false)
      × ((send_reset && ltb (sub32 max_len 8) 8) ≡ false)
      × ((ltb 0 n
            && ltb (sub32 (sub32 (sub32 max_len 8) (reset_bytes send_reset)) alloc) (2 + 4 * n))
          ≡ false)
      × ((ltb (8 + reset_bytes send_reset + alloc + areq_bytes n) min_size
            && ltb
                (sub32
                  (sub32 (sub32 (sub32 max_len 8) (reset_bytes send_reset)) alloc)
                  (areq_bytes n))
                (min_size - (8 + reset_bytes send_reset + alloc + areq_bytes n)))
          ≡ false)
      × (ltb max_len (
            8
            + reset_bytes send_reset
            + alloc
            + areq_bytes n
            + (min_size - (8 + reset_bytes send_reset + alloc + areq_bytes n)))
          ≡ false)
tests_pass send_reset n max_len min_size alloc fits min_fits small =
    let x1 : sub32 max_len 8 ≡ max_len - 8 = omega arith in
    let x2 : sub32 (sub32 max_len 8) (reset_bytes send_reset)
        ≡ max_len - 8 - reset_bytes send_reset =
      omega arith in
    let x3 : sub32 (sub32 (sub32 max_len 8) (reset_bytes send_reset)) alloc
        ≡ max_len - 8 - reset_bytes send_reset - alloc =
      omega arith in
    let x4 : sub32 (sub32 (sub32 (sub32 max_len 8) (reset_bytes send_reset)) alloc) (areq_bytes n)
        ≡ max_len - 8 - reset_bytes send_reset - alloc - areq_bytes n =
      omega arith in
    (ground arith, ground (arith, x1), ground (arith, x3), ground (arith, x4), ground arith)

-- The written bytes, for any checksum.
abbrev packet : Config → PktDesc → List ℕ → ℕ → List ℕ
packet cfg pd pad sum =
    with_checksum
      ((encode_header pd ++ (encode_reset pd ++ (encode_alloc cfg pd ++ encode_areq pd))) ++ pad)
      sum

packet-IsReadBack :
    (cfg : Config) (pd : PktDesc) (pad : List ℕ) (sum : ℕ)
    → pd.seqno < 2 ^ 64
    → pd.ack_seq < 2 ^ 64
    → pd.ack_vec < 2 ^ 16
    → pd.reset_timestamp < 2 ^ 64
    → IsReadBack pd (packet cfg pd pad sum)
unfolding encode_header encode_reset
packet-IsReadBack cfg pd pad sum hs ha hv ht = record {
  seqno = λ base hb near.
      ap (extend_seqno base) (net16-htons pd.seqno) ∙ extend_seqno-mod base pd.seqno hb hs near;
  ack_seq = λ base hb near.
      ap (extend_seqno base) (net16-htons pd.ack_seq) ∙ extend_seqno-mod base pd.ack_seq hb ha near;
  ack_vec = omega arith;
  reset = λ sent now hn near. rw sent (
    omega (arith, bit_and-mask 24 (shr64 pd.reset_timestamp 32)),
    ap (extend_tstamp now) (reset_word pd.reset_timestamp)
        ∙ extend_tstamp-mod now pd.reset_timestamp hn ht near,
  );
}

-- Where max_len, of 32 bits, is at least the packet's length and min_size, a packet with 64-bit
-- numbers and a 16-bit ACK vector is encoded, and read as it was numbered: the numbers by a
-- receiver that starts from fewer than 2 ^ 16 before them, the ACK vector, and the timestamp of a
-- reset by a receiver whose time is at most 2 ^ 55 after it and less than 2 ^ 55 before it.
pub fpproto_encode_packet-IsReadBack :
    (cfg : Config) (pd : PktDesc) (address max_len min_size : ℕ)
    → pd.seqno < 2 ^ 64
    → pd.ack_seq < 2 ^ 64
    → pd.ack_vec < 2 ^ 16
    → pd.reset_timestamp < 2 ^ 64
    → encoded_len cfg pd ≤ max_len
    → min_size ≤ max_len
    → max_len < 2 ^ 32
    → (bytes : List ℕ) × (fpproto_encode_packet cfg pd address max_len min_size ≡ encoded bytes)
      × IsReadBack pd bytes
unfolding fpproto_encode_packet
fpproto_encode_packet-IsReadBack cfg pd address max_len min_size hs ha hv ht fits min_fits small =
    let len = encoded_len cfg pd in
    let pad : List ℕ = replicate (min_size - len) 0 in
    let body = encode_header pd ++ (encode_reset pd ++ (encode_alloc cfg pd ++ encode_areq pd)) in
    let sum =
      fastpass_checksum address (body ++ pad) (len + (min_size - len)) pd.seqno pd.ack_seq in
    let (e1, e2, e3, e4, e5) =
      tests_pass pd.send_reset (length pd.areq) max_len min_size (alloc_size cfg pd) fits min_fits
        small in
    (
      packet cfg pd pad sum,
      rw (e1, e2, e3, e4, e5) refl,
      packet-IsReadBack cfg pd pad sum hs ha hv ht,
    )
