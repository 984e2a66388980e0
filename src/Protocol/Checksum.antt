-- ===== src/Protocol/Checksum.antt =====
-- The hash and the Internet checksum of protocol/platform/generic.h, and fastpass_checksum of
-- protocol/fpproto.c. Memory is little-endian; `bytes` is the list of the bytes at `address`.
use flexplane.Base.{
  ℕ, suc, zero, ◌+◌, ◌-◌, ◌*◌, ◌/◌, ◌%◌, ◌^◌, bit_or, bit_xor, List, ◌==◌, ltb, if◌then◌else◌,
  get_or, drop, u16, u32, sub32, add32, add64, shl64,
}

-- `fp_rot(x, k)` on a 32-bit word.
abbrev fp_rot : ℕ → ℕ → ℕ
fp_rot x k = bit_or (u32 (x * 2 ^ k)) (x / 2 ^ (32 - k))

-- The last `c` of `fp_jhash_final`.
abbrev fp_jhash_final : ℕ → ℕ → ℕ → ℕ
fp_jhash_final a b c =
    let c1 = sub32 (bit_xor c b) (fp_rot b 14) in
    let a1 = sub32 (bit_xor a c1) (fp_rot c1 11) in
    let b1 = sub32 (bit_xor b a1) (fp_rot a1 25) in
    let c2 = sub32 (bit_xor c1 b1) (fp_rot b1 16) in
    let a2 = sub32 (bit_xor a1 c2) (fp_rot c2 4) in
    let b2 = sub32 (bit_xor b1 a2) (fp_rot a2 14) in sub32 (bit_xor c2 b2) (fp_rot b2 24)

abbrev fp_jhash_3words : ℕ → ℕ → ℕ → ℕ → ℕ
fp_jhash_3words a b c initval =
    fp_jhash_final (add32 a 0xDEADBEEF) (add32 b 0xDEADBEEF) (add32 c initval)

unfoldable pub fp_jhash_1word : ℕ → ℕ → ℕ
fp_jhash_1word a initval = fp_jhash_3words a 0 0 initval

-- The little-endian 16-bit and 32-bit numbers at an offset.
abbrev pub read16 : List ℕ → ℕ → ℕ
read16 bytes i = get_or bytes i 0 + 256 * get_or bytes (i + 1) 0

abbrev read32 : List ℕ → ℕ → ℕ
read32 bytes i = read16 bytes i + 65536 * read16 bytes (i + 2)

-- The loop over n whole words.
abbrev sum_words : ℕ → List ℕ → ℕ → ℕ
sum_words zero bytes sum = sum
sum_words (suc n) bytes sum = sum_words n (drop 4 bytes) (add64 sum (read32 bytes 0))

-- The last 0 to 3 bytes.
abbrev sum_rest : ℕ → List ℕ → ℕ → ℕ
sum_rest left bytes sum =
    if left == 3
    then add64 sum (65536 * get_or bytes 2 0 + 256 * get_or bytes 1 0 + get_or bytes 0 0)
    else if left == 2
    then add64 sum (256 * get_or bytes 1 0 + get_or bytes 0 0)
    else if left == 1
    then add64 sum (get_or bytes 0 0)
    else sum

abbrev fp_csum_partial : ℕ → List ℕ → ℕ → ℕ → ℕ
fp_csum_partial address bytes len init_val =
    let short = ltb len 4 in
    let flip = if short then 0 else address % 2 in
    let sum1 = add64 init_val (flip * (256 * get_or bytes 0 0)) in
    let half = if short then 0 else (address + flip) / 2 % 2 in
    let sum2 = add64 sum1 (half * read16 bytes flip) in
    let left = len - flip - 2 * half in
    let aligned = drop (flip + 2 * half) bytes in
    let n_words = if short then 0 else left / 4 in
    let sum3 = sum_words n_words aligned sum2 in
    let sum4 = sum_rest (left % 4) (drop (4 * n_words) aligned) sum3 in
    let sum5 = if flip == 1 then shl64 sum4 8 else sum4 in
    let sum6 = u32 sum5 + sum5 / 2 ^ 32 in add32 sum6 (sum6 / 2 ^ 32)

abbrev fp_fold : ℕ → ℕ
fp_fold sum =
    let sum1 = u32 sum + sum / 2 ^ 32 in
    let sum2 = u32 (sum1 + sum1 / 2 ^ 32) in
    let sum3 = u16 sum2 + sum2 / 2 ^ 16 in 2 ^ 16 - 1 - u16 (u16 sum3 + sum3 / 2 ^ 16)

abbrev fp_csum_tcpudp_magic : ℕ → ℕ → ℕ → ℕ → ℕ → ℕ
fp_csum_tcpudp_magic saddr daddr len proto sum =
    fp_fold (add64 sum (u32 (u32 (saddr + daddr) + (len + proto) * 256)))

abbrev pub ipproto_fastpass : ℕ
ipproto_fastpass = 222

-- The addresses do not enter: the return that uses them is unreachable.
unfoldable pub fastpass_checksum : ℕ → List ℕ → ℕ → ℕ → ℕ → ℕ
fastpass_checksum address pkt len seqno ack_seq =
    let seq_hash = fp_jhash_3words (u32 seqno) (seqno / 2 ^ 32) (u32 ack_seq) (ack_seq / 2 ^ 32) in
    fp_csum_tcpudp_magic 0 0 (u16 len) ipproto_fastpass (fp_csum_partial address pkt len seq_hash)
