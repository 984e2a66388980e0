-- ===== src/Arbiter/Packets/Fill.antt =====
-- arbiter/comm_core.c: the loop of fill_packet_alloc.
use flexplane.Base.{
  ℕ, zero, suc, ◌+◌, ◌-◌, ◌/◌, ◌%◌, ◌<◌, ◌≤◌, ◌≡◌, ◌≢◌, ◌⊎◌, refl, ap, ◌∙◌, sym, false, not, ◌&&◌,
  ◌==◌, leb, Bool-cases, inl, inr, arith, List, [], ◌∷◌, ◌++◌, length, length-append, get_or,
}
use mathlib.Core.List.{append_assoc, append-nil}
use flexplane.Protocol.Window.{wnd_pos}
use flexplane.Arbiter.Node.{PendingAlloc}
use flexplane.Arbiter.Allocs.{AllocFill, place_dst, encode_tslot, next_alloc}
use flexplane.Arbiter.Pending.{unsent, unsent-head, unsent-empty}
use flexplane.Arbiter.Packets.{
  index_of, index_of-le, get_or-index_of, get_or-append, IsFill, IsFilled, place_dst-IsPlaced,
  encode_tslot-read,
}

-- One round: the oldest allocation leaves the queue, and its byte is added.
record IsRound (s : AllocFill) (a : PendingAlloc) (s2 : AllocFill) : Type 0 where
  pub new_dsts : List ℕ
  pub spec : ℕ
  pub fill : IsFill s2
  pub taken : unsent s.queue ≡ a ∷ unsent s2.queue
  pub bytes : s2.tslot_desc ≡ s.tslot_desc ++ spec ∷ []
  pub dsts : s2.dsts ≡ s.dsts ++ new_dsts
  pub placed : (index_of a.dst s2.dsts == 0) ≡ false
  pub spec_dst : spec / 16 ≡ index_of a.dst s2.dsts
  pub spec_flags : spec % 16 ≡ a.flags % 16

taken-IsRound :
    (s : AllocFill)
    → IsFill s
    → s.queue.head ≢ s.queue.tail
    → ((s.alloc_enc_space (s.queue.allocs (wnd_pos s.queue.head)).dst == 0)
        && (length s.dsts == 15))
      ≡ false
    → IsRound s (s.queue.allocs (wnd_pos s.queue.head)) (
        encode_tslot
          (place_dst s (s.queue.allocs (wnd_pos s.queue.head)).dst)
          (s.queue.allocs (wnd_pos s.queue.head)))
unfolding encode_tslot
taken-IsRound s f ne room =
    let a = s.queue.allocs (wnd_pos s.queue.head) in
    let p = place_dst-IsPlaced s a.dst f room in
    let s1 = place_dst s a.dst in
    let (spec, bytes, flags, place) = encode_tslot-read s1 a p.fill p.placed in
    let head_same : s1.queue ≡ s.queue = p.queue in
    record {
      new_dsts = p.new_dsts;
      spec = spec;
      fill = record {
        enc = p.fill.enc;
        few = p.fill.few;
        counted = record { head_small = omega arith; tail_small = p.fill.counted.tail_small };
      };
      taken = rw head_same (unsent-head s.queue f.counted ne);
      bytes = bytes ∙ ap (λ (t : List ℕ). t ++ spec ∷ []) p.bytes;
      dsts = p.dsts;
      placed = p.placed;
      spec_dst = place;
      spec_flags = flags;
    }

-- A round and what the rounds after it do.
cons-IsFilled :
    (s : AllocFill) (a : PendingAlloc) (s2 s' : AllocFill)
    → IsRound s a s2
    → IsFilled s2 s'
    → IsFilled s s'
cons-IsFilled s a s2 s' r f =
    let i = index_of a.dst s2.dsts in
    let within : i ≤ length s2.dsts = index_of-le a.dst s2.dsts in
    let real : 0 < i = ground (arith, r.placed) in
    let first : get_or s'.dsts (r.spec / 16 - 1) 0 ≡ a.dst =
      rw (f.dsts, r.spec_dst)
        (get_or-append s2.dsts f.new_dsts (i - 1) (omega arith)
          ∙ get_or-index_of a.dst s2.dsts r.placed) in
    let longer : length s2.dsts ≤ length s'.dsts =
      omega (arith, ap length f.dsts, length-append s2.dsts f.new_dsts) in
    record {
      sent = a ∷ f.sent;
      specs = r.spec ∷ f.specs;
      new_dsts = r.new_dsts ++ f.new_dsts;
      fill = f.fill;
      taken = r.taken ∙ ap (λ (t : List PendingAlloc). a ∷ t) f.taken;
      bytes =
          f.bytes
          ∙ ap (λ (t : List ℕ). t ++ f.specs) r.bytes
          ∙ append_assoc s.tslot_desc (r.spec ∷ []) f.specs;
      dsts =
          f.dsts
          ∙ ap (λ (t : List ℕ). t ++ f.new_dsts) r.dsts
          ∙ append_assoc s.dsts r.new_dsts f.new_dsts;
      read = rw (first, r.spec_flags, f.read) refl;
      legal = (rw r.spec_dst real, rw r.spec_dst (omega arith), f.legal);
      fits = f.fits;
      greedy = f.greedy;
    }

stop-IsFilled :
    (s : AllocFill)
    → IsFill s
    → length s.tslot_desc ≤ 63
    → ((unsent s.queue ≡ []) ⊎ ((length s.tslot_desc ≡ 63) ⊎ (length s.dsts ≡ 15)))
    → IsFilled s s
stop-IsFilled s f fits why = record {
  sent = [];
  specs = [];
  new_dsts = [];
  fill = f;
  taken = refl;
  bytes = sym (append-nil s.tslot_desc);
  dsts = sym (append-nil s.dsts);
  read = refl;
  legal = tt;
  fits = fits;
  greedy = why;
}

why_over :
    (s : AllocFill)
    → (not (s.queue.tail == s.queue.head) && leb (length s.tslot_desc) 62) ≡ false
    → length s.tslot_desc ≤ 63
    → (unsent s.queue ≡ []) ⊎ ((length s.tslot_desc ≡ 63) ⊎ (length s.dsts ≡ 15))
why_over s over le = elim (Bool-cases (s.queue.tail == s.queue.head)) [
  | inl empty ↦ inl (unsent-empty s.queue (ground arith))
  | inr more ↦ inr (inl (ground (arith, over, more)))
]

pub next_alloc_lem :
    (fuel : ℕ) (s : AllocFill)
    → IsFill s
    → s.queue.head ≢ s.queue.tail
    → length s.tslot_desc ≤ 62
    → 64 ≤ fuel + length s.tslot_desc
    → IsFilled s (next_alloc fuel s)
unfolding next_alloc
next_alloc_lem zero s f ne short enough = absurd (omega arith)
next_alloc_lem (suc fuel) s f ne short enough =
    let a = s.queue.allocs (wnd_pos s.queue.head) in
    let s2 = encode_tslot (place_dst s a.dst) a in
    elim (Bool-cases ((s.alloc_enc_space a.dst == 0) && (length s.dsts == 15))) [
      | inl full ↦ rw full (stop-IsFilled s f (omega arith) (inr (inr (ground (arith, full)))))
      | inr room ↦
          let r = taken-IsRound s f ne room in
          let longer : length s2.tslot_desc ≡ length s.tslot_desc + 1 =
            omega (arith, ap length r.bytes, length-append s.tslot_desc (r.spec ∷ [])) in
          elim (Bool-cases
            (not (s2.queue.tail == s2.queue.head) && leb (length s2.tslot_desc) 62)) [
              | inl on ↦
                  rw (room, on)
                    (cons-IsFilled s a s2 (next_alloc fuel s2) r (
                      next_alloc_lem fuel s2 r.fill (ground (arith, on)) (ground (arith, on))
                        (omega (arith, longer))))
              | inr over ↦
                  rw (room, over)
                    (cons-IsFilled s a s2 s2 r (
                      stop-IsFilled s2 r.fill (omega (arith, longer))
                        (why_over s2 over (omega (arith, longer)))))
            ]
    ]

-- The loop fills at least one timeslot, if there is a place for one more destination.
pub next_alloc_moves :
    (fuel : ℕ) (s : AllocFill)
    → IsFill s
    → s.queue.head ≢ s.queue.tail
    → length s.dsts < 15
    → length s.tslot_desc ≤ 62
    → 64 ≤ suc fuel + length s.tslot_desc
    → length s.tslot_desc < length (next_alloc (suc fuel) s).tslot_desc
unfolding next_alloc
next_alloc_moves fuel s f ne room short enough =
    let a = s.queue.allocs (wnd_pos s.queue.head) in
    let s2 = encode_tslot (place_dst s a.dst) a in
    let not_full : ((s.alloc_enc_space a.dst == 0) && (length s.dsts == 15)) ≡ false =
      ground arith in
    let r = taken-IsRound s f ne not_full in
    let longer : length s2.tslot_desc ≡ length s.tslot_desc + 1 =
      omega (arith, ap length r.bytes, length-append s.tslot_desc (r.spec ∷ [])) in
    elim (Bool-cases (not (s2.queue.tail == s2.queue.head) && leb (length s2.tslot_desc) 62)) [
      | inr over ↦ rw (not_full, over) (omega (arith, longer))
      | inl on ↦
          let rest =
            next_alloc_lem fuel s2 r.fill (ground (arith, on)) (ground (arith, on))
              (omega (arith, longer)) in
          rw (not_full, on)
            (omega (arith, longer, ap length rest.bytes, length-append s2.tslot_desc rest.specs))
    ]
