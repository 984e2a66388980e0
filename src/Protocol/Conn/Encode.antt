-- ===== src/Protocol/Conn/Encode.antt =====
-- fpproto_encode_packet of protocol/fpproto.c, without the parts that only emulation has. The
-- bytes are listed in the order they are written; `remaining_len` is the source's u32.
pub mod Roundtrip
use flexplane.Base.{
  ℕ, zero, suc, ◌+◌, ◌-◌, ◌*◌, ◌/◌, ◌%◌, ◌^◌, bit_and, bit_or, Bool, true, false, not, ◌&&◌, ◌||◌,
  List, [], ◌∷◌, ◌++◌, ltb, ◌==◌, if◌then◌else◌, length, set, replicate, take, u16, u32, sub32,
  shr64,
}
use flexplane.Protocol.Checksum.{fastpass_checksum}
use flexplane.Protocol.Conn.{Config, PktDesc, AreqDesc}
use flexplane.Protocol.Conn.Payload.{ptype_reset, ptype_areq, ptype_alloc}

-- The bytes of htons and htonl.
abbrev pub htons : ℕ → List ℕ
htons n = u16 n / 256 ∷ n % 256 ∷ []

abbrev pub htonl : ℕ → List ℕ
htonl n = htons (n / 2 ^ 16) ++ htons n

unfoldable pub encode_header : PktDesc → List ℕ
encode_header pd = htons pd.seqno ++ htons pd.ack_seq ++ htons pd.ack_vec ++ (0 ∷ 0 ∷ [])

unfoldable pub encode_reset : PktDesc → List ℕ
encode_reset pd =
    if pd.send_reset
    then htonl (ptype_reset * 2 ^ 28 + bit_and (shr64 pd.reset_timestamp 32) 0x00FFFFFF)
      ++ htonl pd.reset_timestamp
    else []

abbrev pub htons_all : List ℕ → List ℕ
htons_all [] = []
htons_all (n ∷ ns) = htons n ++ htons_all ns

-- The controller alone sends allocations.
unfoldable pub encode_alloc : Config → PktDesc → List ℕ
encode_alloc cfg pd =
    if not cfg.is_endpoint && ltb 0 pd.alloc_tslot
    then htons
        (bit_or (bit_or (ptype_alloc * 2 ^ 12) (length pd.dsts * 2 ^ 8)) (pd.alloc_tslot / 2))
      ++ htons pd.base_tslot
      ++ htons_all pd.dsts
      ++ take pd.alloc_tslot pd.tslot_desc
    else []

abbrev pub encode_areqs : List AreqDesc → List ℕ
encode_areqs [] = []
encode_areqs (a ∷ rest) = htons a.src_dst_key ++ htons a.tslots ++ encode_areqs rest

unfoldable pub encode_areq : PktDesc → List ℕ
encode_areq pd =
    if ltb 0 (length pd.areq)
    then htons (bit_or (ptype_areq * 2 ^ 12) (bit_and (length pd.areq) 0x3F))
      ++ encode_areqs pd.areq
    else []

-- The written bytes, or the number below zero that is returned, without its sign.
pub data Encoded : Type 0 where
  encoded : List ℕ → Encoded
  failed : ℕ → Encoded

-- The checksum goes over the packet with zeros in its place.
abbrev pub with_checksum : List ℕ → ℕ → List ℕ
with_checksum pkt sum = set (set pkt 6 (sum % 256)) 7 (sum / 256)

unfoldable pub fpproto_encode_packet : Config → PktDesc → ℕ → ℕ → ℕ → Encoded
fpproto_encode_packet cfg pd address max_len min_size =
    let remaining_len1 = sub32 max_len 8 in
    let reset_len = if pd.send_reset then 8 else 0 in
    let remaining_len2 = sub32 remaining_len1 reset_len in
    let alloc_len =
      if not cfg.is_endpoint && ltb 0 pd.alloc_tslot
      then 4 + 2 * length pd.dsts + pd.alloc_tslot
      else 0 in
    let remaining_len3 = sub32 remaining_len2 alloc_len in
    let n_areq = length pd.areq in
    let areq_len = if ltb 0 n_areq then 2 + 4 * n_areq else 0 in
    let remaining_len4 = sub32 remaining_len3 areq_len in
    let body = encode_header pd ++ (encode_reset pd ++ (encode_alloc cfg pd ++ encode_areq pd)) in
    let len = 8 + reset_len + alloc_len + areq_len in
    let pkt = body ++ replicate (min_size - len) 0 in
    let full_len = len + (min_size - len) in
    if ltb max_len 8
    then failed 1
    else if pd.send_reset && ltb remaining_len1 8
    then failed 2
    else if ltb 0 n_areq && ltb remaining_len3 (2 + 4 * n_areq)
    then failed 3
    else if ltb len min_size && ltb remaining_len4 (min_size - len)
    then failed 4
    else if ltb max_len full_len
    then failed 5
    else encoded (with_checksum pkt (fastpass_checksum address pkt full_len pd.seqno pd.ack_seq))
