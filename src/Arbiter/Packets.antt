-- ===== src/Arbiter/Packets.antt =====
-- arbiter/comm_core.c: fill_packet_alloc, and what the receiver reads in its packet.
pub mod Fill
pub mod Deliver
pub mod Report
use flexplane.Base.{
  ℕ, zero, suc, ◌+◌, ◌-◌, ◌*◌, ◌/◌, ◌%◌, ◌^◌, ◌<◌, ◌≤◌, ◌≡◌, ◌≢◌, ◌⊎◌, refl, ap, ◌∙◌, sym, Bool,
  true, false, not, ◌&&◌, ◌==◌, ltb, leb, if◌then◌else◌, Bool-cases, inl, inr, arith, List, [], ◌∷◌,
  ◌++◌, length, length-append, get_or, add32, u8, bit_and, bit_or,
}
use mathlib.Core.List.{append_assoc, append-nil}
use flexplane.Base.Bits.{bit_and-mask, bit_or-fields}
use flexplane.Base.Table.{update, update_lem}
use flexplane.Protocol.Window.{wnd_pos}
use flexplane.Arbiter.Node.{PendingAlloc, PendingAllocQueue}
use flexplane.Arbiter.Allocs.{AllocFill, place_dst, encode_tslot, next_alloc}
use flexplane.Arbiter.Pending.{unsent, IsCounted, unsent-head, unsent-empty}

-- The place of a destination in the packet, counted from 1, or 0 if it has none.
pub index_of : ℕ → List ℕ → ℕ
index_of d [] = 0
index_of d (x ∷ xs) =
    let later = index_of d xs in if x == d then 1 else if later == 0 then 0 else later + 1

pub index_of-le : (d : ℕ) (xs : List ℕ) → index_of d xs ≤ length xs
unfolding index_of
index_of-le d [] = omega arith
index_of-le d (x ∷ xs) = ground (arith, index_of-le d xs)

pub get_or-index_of :
    (d : ℕ) (xs : List ℕ) → (index_of d xs == 0) ≡ false → get_or xs (index_of d xs - 1) 0 ≡ d
unfolding index_of
get_or-index_of d [] h = cc
get_or-index_of d (x ∷ xs) h = elim (Bool-cases (x == d)) [
  | inl same ↦ rw same (ground arith)
  | inr other ↦
      let later = index_of d xs in
      elim (Bool-cases (later == 0)) [
        | inl none ↦ absurd (ground arith)
        | inr found ↦
            let step : later + 1 - 1 ≡ suc (later - 1) = ground arith in
            rw (other, found, step) (get_or-index_of d xs found)
      ]
]

index_of-append :
    (k d : ℕ) (xs : List ℕ)
    → index_of k (xs ++ d ∷ [])
      ≡ (if index_of k xs == 0 then (if d == k then length xs + 1 else 0) else index_of k xs)
unfolding index_of
index_of-append k d [] = ground arith
index_of-append k d (x ∷ xs) = ground (arith, index_of-append k d xs)

pub get_or-append : (xs ys : List ℕ) (i : ℕ) → i < length xs → get_or (xs ++ ys) i 0 ≡ get_or xs i 0
get_or-append [] ys i h = absurd (omega arith)
get_or-append (x ∷ xs) ys zero h = refl
get_or-append (x ∷ xs) ys (suc i) h = get_or-append xs ys i (omega arith)

-- What a receiver reads in the allocation bytes: a destination and flags for each.
abbrev pub read_tslots : List ℕ → List ℕ → List (ℕ × ℕ)
read_tslots [] dsts = []
read_tslots (spec ∷ specs) dsts =
    (get_or dsts (spec / 16 - 1) 0, spec % 16) ∷ read_tslots specs dsts

abbrev pub carried : List PendingAlloc → List (ℕ × ℕ)
carried [] = []
carried (a ∷ rest) = (a.dst, a.flags % 16) ∷ carried rest

-- Each byte names a destination of the packet.
abbrev pub AreLegal : List ℕ → ℕ → Type 0
AreLegal [] n = Unit
AreLegal (spec ∷ specs) n = (0 < spec / 16) × (spec / 16 ≤ n) × AreLegal specs n

-- The state of the loop between two rounds: each destination of the packet has its place in
-- `alloc_enc_space`, and no other has one.
pub record IsFill (s : AllocFill) : Type 0 where
  pub enc : (k : ℕ) → s.alloc_enc_space k ≡ index_of k s.dsts
  pub few : length s.dsts ≤ 15
  pub counted : IsCounted s.queue

-- What the loop does: it takes allocations from the queue, and adds to the packet a byte for each
-- of them, in which the receiver reads it.
pub record IsFilled (s s' : AllocFill) : Type 0 where
  pub sent : List PendingAlloc
  pub specs : List ℕ
  pub new_dsts : List ℕ
  pub fill : IsFill s'
  pub taken : unsent s.queue ≡ sent ++ unsent s'.queue
  pub bytes : s'.tslot_desc ≡ s.tslot_desc ++ specs
  pub dsts : s'.dsts ≡ s.dsts ++ new_dsts
  pub read : read_tslots specs s'.dsts ≡ carried sent
  pub legal : AreLegal specs (length s'.dsts)
  pub fits : length s'.tslot_desc ≤ 63
  pub greedy : (unsent s'.queue ≡ []) ⊎ ((length s'.tslot_desc ≡ 63) ⊎ (length s'.dsts ≡ 15))

-- A destination gets a place, unless 15 others have one.
pub record IsPlaced (s : AllocFill) (dst : ℕ) (s' : AllocFill) : Type 0 where
  pub new_dsts : List ℕ
  pub fill : IsFill s'
  pub dsts : s'.dsts ≡ s.dsts ++ new_dsts
  pub placed : (index_of dst s'.dsts == 0) ≡ false
  pub bytes : s'.tslot_desc ≡ s.tslot_desc
  pub queue : s'.queue ≡ s.queue

new_place :
    (s : AllocFill) (dst k : ℕ)
    → IsFill s
    → length s.dsts < 15
    → (index_of dst s.dsts == 0) ≡ true
    → update s.alloc_enc_space dst (u8 (length s.dsts + 1)) k ≡ index_of k (s.dsts ++ dst ∷ [])
new_place s dst k f few unplaced =
    let place = u8 (length s.dsts + 1) in
    elim (Bool-cases (dst == k)) [
      | inl same ↦
          let eq : dst ≡ k = ground arith in
          let none : (index_of k s.dsts == 0) ≡ true =
            ap (λ j. index_of j s.dsts == 0) (sym eq) ∙ unplaced in
          rw (update_lem s.alloc_enc_space dst k place, index_of-append k dst s.dsts, same, none)
            (omega arith)
      | inr other ↦
          rw (update_lem s.alloc_enc_space dst k place, other)
            (f.enc k ∙ ground (arith, index_of-append k dst s.dsts, other))
    ]

pub place_dst-IsPlaced :
    (s : AllocFill) (dst : ℕ)
    → IsFill s
    → ((s.alloc_enc_space dst == 0) && (length s.dsts == 15)) ≡ false
    → IsPlaced s dst (place_dst s dst)
unfolding place_dst
place_dst-IsPlaced s dst f room = elim (Bool-cases (s.alloc_enc_space dst == 0)) [
  | inr placed ↦ rw placed (record {
    new_dsts = [];
    fill = f;
    dsts = sym (append-nil s.dsts);
    placed = ap (λ n. n == 0) (sym (f.enc dst)) ∙ placed;
    bytes = refl;
    queue = refl;
  })
  | inl fresh ↦
      let few : length s.dsts < 15 = ground (arith, f.few) in
      let unplaced : (index_of dst s.dsts == 0) ≡ true =
        ap (λ n. n == 0) (sym (f.enc dst)) ∙ fresh in
      rw fresh (record {
        new_dsts = dst ∷ [];
        fill = record {
          enc = λ k. new_place s dst k f few unplaced;
          few = omega (arith, length-append s.dsts (dst ∷ []));
          counted = f.counted;
        };
        dsts = refl;
        placed = ground (arith, index_of-append dst dst s.dsts);
        bytes = refl;
        queue = refl;
      })
]

pub encode_tslot-read :
    (s : AllocFill) (a : PendingAlloc)
    → IsFill s
    → (index_of a.dst s.dsts == 0) ≡ false
    → (spec : ℕ) × ((encode_tslot s a).tslot_desc ≡ s.tslot_desc ++ spec ∷ [])
      × (spec % 16 ≡ a.flags % 16)
      × (spec / 16 ≡ index_of a.dst s.dsts)
unfolding encode_tslot
encode_tslot-read s a f placed =
    let i = index_of a.dst s.dsts in
    let flags = bit_and a.flags 15 in
    let low = bit_and-mask 4 a.flags in
    let high : i ≤ 15 = omega (arith, index_of-le a.dst s.dsts, f.few) in
    let joined = bit_or-fields 4 i flags (omega (arith, low)) in
    (
      u8 (bit_or (i * 2 ^ 4) flags),
      rw (f.enc a.dst) refl,
      omega (arith, joined, low),
      omega (arith, joined, low),
    )
