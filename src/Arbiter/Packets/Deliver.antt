-- ===== src/Arbiter/Packets/Deliver.antt =====
-- arbiter/comm_core.c, fill_packet_alloc, and kernel-mod/sch_fastpass.c, handle_alloc: the
-- allocations in the packet are those that the endpoint gives to its flows.
use flexplane.Base.{
  ℕ, ◌+◌, ◌-◌, ◌/◌, ◌≤◌, ◌≡◌, ◌≢◌, ◌⊎◌, refl, ap, ◌∙◌, sym, true, false, ◌==◌, ltb, if◌then◌else◌,
  Bool-cases, inl, inr, arith, List, [], ◌∷◌, ◌++◌, length, length-append, get_or, bit_and,
}
use mathlib.Core.List.{append-nil}
use flexplane.Base.Bits.{bit_and-mask}
use flexplane.Base.Checked.{ok}
use flexplane.Base.Table.{update, update_lem}
use flexplane.Protocol.Window.{wnd_pos}
use flexplane.Protocol.Conn.{PktDesc}
use flexplane.Arbiter.Node.{PendingAlloc, EndNode}
use flexplane.Arbiter.Allocs.{
  CommCore, AllocFill, next_alloc, clear_enc_space, pad_even, fill_packet_alloc,
}
use flexplane.Arbiter.Pending.{unsent, IsCounted}
use flexplane.Arbiter.Packets.{index_of, read_tslots, carried, AreLegal, IsFill}
use flexplane.Arbiter.Packets.Fill.{next_alloc_lem, next_alloc_moves}
use flexplane.Endpoint.Inv.Allocs.{granted}

-- How many of the allocations are for a destination.
abbrev pub allocs_to : List PendingAlloc → ℕ → ℕ
allocs_to [] k = 0
allocs_to (a ∷ rest) k = (if a.dst == k then 1 else 0) + allocs_to rest k

granted-read :
    (specs : List ℕ) (sent : List PendingAlloc) (more dsts : List ℕ) (k : ℕ)
    → read_tslots specs dsts ≡ carried sent
    → AreLegal specs (length dsts)
    → granted (specs ++ more) dsts (length dsts) k
      ≡ allocs_to sent k + granted more dsts (length dsts) k
granted-read [] [] more dsts k read legal = omega arith
granted-read [] (a ∷ sent) more dsts k read legal = cc
granted-read (spec ∷ specs) [] more dsts k read legal = cc
granted-read (spec ∷ specs) (a ∷ sent) more dsts k read legal =
    let dst : get_or dsts (spec / 16 - 1) 0 ≡ a.dst = cc in
    let rest : read_tslots specs dsts ≡ carried sent = cc in
    let not_over : ltb (length dsts) (spec / 16) ≡ false = ground (arith, legal.1) in
    let not_skip : (spec / 16 == 0) ≡ false = ground (arith, legal.0) in
    rw (not_over, not_skip, dst) (omega (arith, granted-read specs sent more dsts k rest legal.2))

clear_enc_space_lem :
    (dsts : List ℕ) (space : ℕ → ℕ) (k : ℕ)
    → ((index_of k dsts == 0) ≡ true → space k ≡ 0)
    → clear_enc_space dsts space k ≡ 0
unfolding clear_enc_space index_of
clear_enc_space_lem [] space k h = h refl
clear_enc_space_lem (d ∷ dsts) space k h =
    clear_enc_space_lem dsts (update space d 0) k
      λ none. ground (arith, update_lem space d k 0, h, none)

pad_even_lem :
    (tslots : List ℕ)
    → length tslots ≤ 63
    → (pad : List ℕ) × (pad_even tslots ≡ tslots ++ pad)
      × ((pad ≡ []) ⊎ (pad ≡ 0 ∷ []))
      × (bit_and (length (pad_even tslots)) 1 ≡ 0)
      × (length (pad_even tslots) ≤ 64)
unfolding pad_even
pad_even_lem tslots short =
    let n = length tslots in
    let low = bit_and-mask 1 n in
    elim (Bool-cases (bit_and n 1 == 1)) [
      | inl odd ↦
          let longer = length-append tslots (0 ∷ []) in
          let mask = bit_and-mask 1 (length (tslots ++ 0 ∷ [])) in
          rw odd
            (0 ∷ [], refl, inr refl, ground (arith, low, mask, longer, odd), omega (arith, longer))
      | inr even ↦
          rw even ([], sym (append-nil tslots), inl refl, ground (arith, low, even), omega arith)
    ]

-- What a filled packet stands for: allocations that were taken from the head of the queue, and
-- that the endpoint reads as timeslots for the same flows.
pub record IsDelivered (en : EndNode) (core' : CommCore) (pd' : PktDesc) (en' : EndNode)
    : Type 0 where
  pub sent : List PendingAlloc
  pub some_sent : sent ≢ []
  pub taken : unsent en.pending_allocs ≡ sent ++ unsent en'.pending_allocs
  pub given : (k : ℕ) → granted pd'.tslot_desc pd'.dsts (length pd'.dsts) k ≡ allocs_to sent k
  pub few_dsts : length pd'.dsts ≤ 15
  pub counted : pd'.alloc_tslot ≡ length pd'.tslot_desc
  pub even : bit_and pd'.alloc_tslot 1 ≡ 0
  pub fits : pd'.alloc_tslot ≤ 64
  pub cleared : (k : ℕ) → core'.alloc_enc_space k ≡ 0

granted-pad :
    (pad dsts : List ℕ) (k : ℕ) → (pad ≡ []) ⊎ (pad ≡ 0 ∷ []) → granted pad dsts (length dsts) k ≡ 0
granted-pad pad dsts k (inl none) = rw none refl
granted-pad pad dsts k (inr zero_byte) = rw zero_byte (ground arith)

no_specs : (specs dsts : List ℕ) → read_tslots specs dsts ≡ carried [] → length specs ≡ 0
no_specs [] dsts e = refl
no_specs (spec ∷ specs) dsts e = cc

-- For an end node with allocations to send, and no destination with a place, `fill_packet_alloc`
-- fires no assert. It takes at least one allocation from the head of the queue, and the timeslots
-- of the packet, as the endpoint's `handle_alloc` reads them, are for each flow as many as it
-- took for it. The packet has at most 15 destinations, an even number of timeslots, at most 64,
-- and no destination keeps its place.
pub fill_packet_alloc_lem :
    (core : CommCore) (pd : PktDesc) (en : EndNode)
    → IsCounted en.pending_allocs
    → en.pending_allocs.head ≢ en.pending_allocs.tail
    → ((k : ℕ) → core.alloc_enc_space k ≡ 0)
    → (core' : CommCore) × (pd' : PktDesc) × (en' : EndNode) × (fill_packet_alloc core pd en
        ≡ ok (core', pd', en'))
      × IsDelivered en core' pd' en'
unfolding fill_packet_alloc index_of
fill_packet_alloc_lem core pd en v ne clear =
    let q = en.pending_allocs in
    let s : AllocFill = record {
      dsts = [];
      tslot_desc = [];
      alloc_enc_space = core.alloc_enc_space;
      queue = q;
    } in
    let s' = next_alloc 64 s in
    let start : IsFill s = record { enc = clear; few = omega arith; counted = v } in
    let f = next_alloc_lem 64 s start ne (omega arith) (omega arith) in
    let moves = next_alloc_moves 63 s start ne (omega arith) (omega arith) (omega arith) in
    let (pad, padded, shape, even, fits) = pad_even_lem s'.tslot_desc f.fits in
    let busy : (q.head == q.tail) ≡ false = ground arith in
    let no_bug : (bit_and (length (pad_even s'.tslot_desc)) 1 == 0) ≡ true = rw even refl in
    (
      record core { alloc_enc_space = clear_enc_space s'.dsts s'.alloc_enc_space },
      record pd {
        base_tslot = (q.allocs (wnd_pos q.head)).timeslot;
        dsts = s'.dsts;
        tslot_desc = pad_even s'.tslot_desc;
        alloc_tslot = length (pad_even s'.tslot_desc);
      },
      record en { pending_allocs = s'.queue },
      rw (busy, no_bug) refl,
      record {
        sent = f.sent;
        some_sent = λ none.
            omega (
              arith,
              moves,
              ap length f.bytes,
              no_specs f.specs s'.dsts (f.read ∙ ap carried none),
            );
        taken = f.taken;
        given = λ k.
            rw (padded, f.bytes)
              (granted-read f.specs f.sent pad s'.dsts k f.read f.legal
                ∙ omega (arith, granted-pad pad s'.dsts k shape));
        few_dsts = f.fill.few;
        counted = refl;
        even = even;
        fits = fits;
        cleared = λ k.
            clear_enc_space_lem s'.dsts s'.alloc_enc_space k λ none. f.fill.enc k ∙ ground arith;
      },
    )
