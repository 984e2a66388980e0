-- ===== src/GraphAlgo/Bin.antt =====
-- graph-algo/bin.h: a bin of flows with their backlogs. The list is edges[0 .. size); the memory
-- of a bin is allocated by its owner and its size is not checked.
use flexplane.Base.{ℕ, ◌==◌, Bool, List, [], ◌∷◌, ◌++◌, length, u16, u32}

pub record BacklogEdge : Type 0 where
  pub src : ℕ
  pub dst : ℕ
  pub backlog : ℕ
  pub metric : ℕ

abbrev pub Bin : Type 0
Bin = List BacklogEdge

abbrev pub init_bin : Bin
init_bin = []

abbrev pub bin_size : Bin → ℕ
bin_size bin = length bin

abbrev pub is_empty_bin : Bin → Bool
is_empty_bin bin = bin_size bin == 0

-- The parameters are of 16 bits, and the metric of 32.
unfoldable pub enqueue_bin : Bin → ℕ → ℕ → ℕ → ℕ → Bin
enqueue_bin bin src dst backlog metric =
    bin
    ++ (record { src = u16 src; dst = u16 dst; backlog = u16 backlog; metric = u32 metric } ∷ [])

unfoldable pub enqueue_bin_edge : Bin → BacklogEdge → Bin
enqueue_bin_edge bin edge = bin ++ (edge ∷ [])
