-- ===== src/Protocol/Conn/Areqs.antt =====
-- The requests of a packet: how protocol/fpproto.c hands them to the other side, and the counts
-- that they stand for.
use flexplane.Base.{ℕ, ◌%◌, ◌^◌, ltb, ◌==◌, if◌then◌else◌, List, [], ◌∷◌}
use flexplane.Protocol.Conn.{AreqDesc}

-- `htons(pd->areq[i].tslots)` keeps 16 bits of a count.
abbrev pub wire : List AreqDesc → List ℕ
wire [] = []
wire (a ∷ rest) = a.src_dst_key ∷ (a.tslots % 2 ^ 16) ∷ wire rest

abbrev pub newest : ℕ → ℕ → ℕ
newest n m = if ltb n m then m else n

-- The highest count for a flow, from `n` on.
abbrev pub highest : List AreqDesc → ℕ → ℕ → ℕ
highest [] k n = n
highest (a ∷ rest) k n = highest rest k (if a.src_dst_key == k then newest n a.tslots else n)
