-- ===== src/Protocol/Conn/Inwnd.antt =====
-- The window of received sequence numbers of protocol/fpproto.c: update_inwnd and
-- at_most_once_may_accept.
use flexplane.Base.{
  ℕ, ◌+◌, ◌-◌, ◌*◌, ◌^◌, ◌<◌, ◌≡◌, refl, ap, ◌∙◌, Bool, true, false, not, ◌&&◌, ◌||◌, Bool-cases,
  inl, inr, bit_and, bit_or, ltb, leb, ◌==◌, if◌then◌else◌, add64, sub64, shl64, shr64, arith, ◌⊎◌,
}
use flexplane.Base.Bits.{
  bit, bit-bit_and, bit-bit_or, bit-div, bit-one, bit-mul, bit-ge, bit-mod, ne_zero_of_bit,
  bit_of_ne_zero, bit_and-lt-pow, bit_or-lt-pow,
}
use flexplane.Protocol.Platform.{time_after64, time_after_eq64, time_before_eq64}
use flexplane.Protocol.Conn.{Conn, inc}

-- The bit of a number in [head - 63, head].
abbrev inwnd_bit : ℕ → ℕ → ℕ
inwnd_bit head seqno = shl64 1 (63 - sub64 head seqno)

-- The result is true for the result 1: the caller drops the packet.
unfoldable pub update_inwnd : Conn → ℕ → Conn × Bool
update_inwnd conn seqno =
    let head = conn.in_max_seqno in
    let stat = conn.stat in
    if time_after_eq64 seqno (add64 head 64)
    then (
      record conn {
        stat = record stat { inwnd_jumped = inc stat.inwnd_jumped };
        in_max_seqno = seqno;
        inwnd = shl64 1 63;
      },
      false,
    )
    else if time_after64 seqno head
    then (
      record conn {
        inwnd = bit_or (shr64 conn.inwnd (sub64 seqno head)) (shl64 1 63);
        in_max_seqno = seqno;
      },
      false,
    )
    else if time_before_eq64 seqno (sub64 head 64)
    then (
      record conn { stat = record stat { seqno_before_inwnd = inc stat.seqno_before_inwnd } },
      true,
    )
    else if not (bit_and conn.inwnd (inwnd_bit head seqno) == 0)
    then (record conn { stat = record stat { rx_dup_pkt = inc stat.rx_dup_pkt } }, true)
    else (
      record conn {
        inwnd = bit_or conn.inwnd (inwnd_bit head seqno);
        stat = record stat { rx_out_of_order = inc stat.rx_out_of_order };
      },
      false,
    )

-- The result is true for the result 1: the caller drops the packet.
unfoldable pub at_most_once_may_accept : Conn → ℕ → Bool
at_most_once_may_accept conn seqno =
    let head = conn.in_max_seqno in
    if time_after64 seqno head
    then false
    else if time_before_eq64 seqno (sub64 head 64)
    then true
    else not (bit_and conn.inwnd (inwnd_bit head seqno) == 0)

bit-shl_one : (k i : ℕ) → k < 64 → bit (shl64 1 k) i ≡ (k == i)
bit-shl_one k i h = ground (arith, bit-mod 64 (1 * 2 ^ k) i, bit-mul k 1 i, bit-one (i - k))

test_one : (w k : ℕ) → w < 2 ^ 64 → k < 64 → not (bit_and w (shl64 1 k) == 0) ≡ bit w k
test_one w k h k_lt = elim (Bool-cases (bit w k)) [
  | inl set ↦
      let ne =
        ne_zero_of_bit (bit_and w (shl64 1 k)) k
          (ground (arith, bit-bit_and w (shl64 1 k) k, bit-shl_one k k k_lt)) in
      ground (arith, ne)
  | inr clear ↦ elim (Bool-cases (bit_and w (shl64 1 k) == 0)) [
    | inl none ↦ rw (none, clear) refl
    | inr some ↦
        let (j, _, on) =
          bit_of_ne_zero 64 (bit_and w (shl64 1 k)) (bit_and-lt-pow 64 w (shl64 1 k) h)
            (ground arith) in
        ground (arith, bit-bit_and w (shl64 1 k) j, bit-shl_one k j k_lt)
  ]
]

shr64-lt : (w k : ℕ) → w < 2 ^ 64 → shr64 w k < 2 ^ 64
shr64-lt w k h = ground arith

-- Refusal, by the distance back from the head.
abbrev refused_at : ℕ → ℕ → Bool
refused_at inwnd back = ltb back (2 ^ 63) && (leb 64 back || bit inwnd (63 - back))

may_accept-eq :
    (c : Conn) (t : ℕ)
    → c.in_max_seqno < 2 ^ 64
    → c.inwnd < 2 ^ 64
    → t < 2 ^ 64
    → at_most_once_may_accept c t ≡ refused_at c.inwnd (sub64 c.in_max_seqno t)
unfolding at_most_once_may_accept
may_accept-eq c t hm hw ht = elim (Bool-cases (ltb (sub64 c.in_max_seqno t) 64)) [
  | inl inside ↦ ground (arith, test_one c.inwnd (63 - sub64 c.in_max_seqno t) hw (omega arith))
  | inr outside ↦ ground arith
]

-- The new refusals of a step from newest number m and window w to m' and w', s received.
abbrev IsRefusedAfter : ℕ → ℕ → ℕ → ℕ → ℕ → ℕ → Type 0
IsRefusedAfter m w m' w' s t =
    refused_at w' (sub64 m' t)
    ≡ ((s == t) || refused_at w (sub64 m t) || (ltb (sub64 m' t) (2 ^ 63) && leb 64 (sub64 m' t)))

module _ (m w s t : ℕ) (hm : m < 2 ^ 64) (hw : w < 2 ^ 64) (hs : s < 2 ^ 64) (ht : t < 2 ^ 64)
    (near_s : (sub64 m s < 2 ^ 61) ⊎ (sub64 s m < 2 ^ 61))
    (near_t : (sub64 m t < 2 ^ 61) ⊎ (sub64 t m < 2 ^ 61)) where
  after_jump : time_after_eq64 s (add64 m 64) ≡ true → IsRefusedAfter m w s (shl64 1 63) s t
  after_jump jump = ground (arith, bit-shl_one 63 (63 - sub64 s t))

  after_newer :
      time_after_eq64 s (add64 m 64) ≡ false
      → time_after64 s m ≡ true
      → IsRefusedAfter m w s (bit_or (shr64 w (sub64 s m)) (shl64 1 63)) s t
  after_newer no_jump newer =
      let k = sub64 s m in
      let i = 63 - sub64 s t in
      let shifted =
        bit-bit_or (shr64 w k) (shl64 1 63) i ∙ ap (λ x. x || bit (shl64 1 63) i) (bit-div k w i) in
      let moved = bit-shl_one 63 i in
      elim (Bool-cases (leb 64 (sub64 s t))) [
        | inl fallen ↦ ground arith
        | inr kept ↦ elim (Bool-cases (leb 64 (i + k))) [
          | inl new ↦ ground (arith, shifted, moved, bit-ge 64 w (i + k) hw (ground arith))
          | inr old ↦ ground (
            arith,
            shifted,
            moved,
            ap (bit w) (let e : i + k ≡ 63 - sub64 m t = ground arith in e),
          )
        ]
      ]

  after_inside :
      time_after64 s m ≡ false
      → time_before_eq64 s (sub64 m 64) ≡ false
      → IsRefusedAfter m w m (bit_or w (inwnd_bit m s)) s t
  after_inside older inside =
      let i = 63 - sub64 m t in
      ground (arith, bit-bit_or w (inwnd_bit m s) i, bit-shl_one (63 - sub64 m s) i)

  after_refused : refused_at w (sub64 m s) ≡ true → IsRefusedAfter m w m w s t
  after_refused refused = elim (Bool-cases (s == t)) [
    | inl same ↦
        let e : s ≡ t = ground arith in ground (arith, ap (λ x. refused_at w (sub64 m x)) e)
    | inr other ↦ ground arith
  ]

-- `update_inwnd` drops exactly the numbers that `at_most_once_may_accept` refuses, and keeps the
-- window within 64 bits. Afterwards exactly the number itself, the numbers refused before, and
-- those 64 or more before the newest one are refused. The number and the one asked about are
-- 64-bit numbers fewer than 2 ^ 61 from the newest one received before.
pub update_inwnd_lem :
    (c : Conn) (s t : ℕ)
    → c.in_max_seqno < 2 ^ 64
    → c.inwnd < 2 ^ 64
    → s < 2 ^ 64
    → t < 2 ^ 64
    → (sub64 c.in_max_seqno s < 2 ^ 61) ⊎ (sub64 s c.in_max_seqno < 2 ^ 61)
    → (sub64 c.in_max_seqno t < 2 ^ 61) ⊎ (sub64 t c.in_max_seqno < 2 ^ 61)
    → ((update_inwnd c s).1 ≡ at_most_once_may_accept c s)
      × ((update_inwnd c s).0.inwnd < 2 ^ 64)
      × (at_most_once_may_accept (update_inwnd c s).0 t ≡ (
          (s == t)
          || at_most_once_may_accept c t
          || (ltb (sub64 (update_inwnd c s).0.in_max_seqno t) (2 ^ 63)
              && leb 64 (sub64 (update_inwnd c s).0.in_max_seqno t))))
unfolding update_inwnd
update_inwnd_lem c s t hm hw hs ht near_s near_t =
    let m = c.in_max_seqno in
    let w = c.inwnd in
    let z = c.stat in
    let old_s = may_accept-eq c s hm hw hs in
    let old_t = may_accept-eq c t hm hw ht in
    elim (Bool-cases (time_after_eq64 s (add64 m 64))) [
      | inl jump ↦
          let c' : Conn = record c {
            stat = record z { inwnd_jumped = inc z.inwnd_jumped };
            in_max_seqno = s;
            inwnd = shl64 1 63;
          } in
          rw jump (
            rw old_s (ground arith),
            omega arith,
            rw old_t (
                may_accept-eq c' t hs (omega arith) ht
                ∙ after_jump m w s t hm hw hs ht near_s near_t jump),
          )
      | inr no_jump ↦ elim (Bool-cases (time_after64 s m)) [
        | inl newer ↦
            let w' = bit_or (shr64 w (sub64 s m)) (shl64 1 63) in
            let c' : Conn = record c { inwnd = w'; in_max_seqno = s } in
            let small =
              bit_or-lt-pow 64 (shr64 w (sub64 s m)) (shl64 1 63) (shr64-lt w (sub64 s m) hw)
                (omega arith) in
            rw (no_jump, newer)
              (
                rw old_s (ground arith),
                small,
                rw old_t (
                    may_accept-eq c' t hs small ht
                    ∙ after_newer m w s t hm hw hs ht near_s near_t no_jump newer),
              )
        | inr older ↦ elim (Bool-cases (time_before_eq64 s (sub64 m 64))) [
          | inl early ↦
              let c' : Conn = record c {
                stat = record z { seqno_before_inwnd = inc z.seqno_before_inwnd };
              } in
              rw (no_jump, older, early)
                (
                  rw old_s (ground arith),
                  hw,
                  rw old_t (
                      may_accept-eq c' t hm hw ht
                      ∙ after_refused m w s t hm hw hs ht near_s near_t (ground arith)),
                )
          | inr inside ↦
              let tested = test_one w (63 - sub64 m s) hw (ground arith) in
              elim (Bool-cases (not (bit_and w (inwnd_bit m s) == 0))) [
                | inl dup ↦
                    let c' : Conn = record c {
                      stat = record z { rx_dup_pkt = inc z.rx_dup_pkt };
                    } in
                    let refused : refused_at w (sub64 m s) ≡ true = ground (arith, tested, dup) in
                    rw (no_jump, older, inside, dup)
                      (
                        rw (old_s, refused) refl,
                        hw,
                        rw old_t (
                            may_accept-eq c' t hm hw ht
                            ∙ after_refused m w s t hm hw hs ht near_s near_t refused),
                      )
                | inr fresh ↦
                    let w' = bit_or w (inwnd_bit m s) in
                    let c' : Conn = record c {
                      inwnd = w';
                      stat = record z { rx_out_of_order = inc z.rx_out_of_order };
                    } in
                    let small = bit_or-lt-pow 64 w (inwnd_bit m s) hw (omega arith) in
                    let accepted : refused_at w (sub64 m s) ≡ false =
                      ground (arith, tested, fresh) in
                    rw (no_jump, older, inside, fresh)
                      (
                        rw (old_s, accepted) refl,
                        small,
                        rw old_t (
                            may_accept-eq c' t hm small ht
                            ∙ after_inside m w s t hm hw hs ht near_s near_t older inside),
                      )
              ]
        ]
      ]
    ]
