-- ===== src/Protocol/Window/Before.antt =====
-- protocol/window.h: wnd_at_or_before.
use flexplane.Base.{
  ℕ, ◌+◌, ◌-◌, ◌*◌, ◌/◌, ◌%◌, ◌^◌, ◌≤◌, ◌<◌, bit_and, ◌≡◌, refl, ap, ◌∙◌, sym, true, false, not,
  ◌&&◌, ltb, leb, ◌==◌, Bool-cases, inl, inr, get_or, sub64, shl64, shr64, not64, arith, ◌≢◌,
  Option, none, some,
}
use flexplane.Base.Bits.{
  bit, bit-zero, bit-one, bit-bit_and, bit-complement, bit-mod, bit-mul, bit-div, bit_and-lt-pow,
}
use flexplane.Base.Checked.{ok}
use flexplane.Protocol.Platform.{time_after64, time_before_eq64, ffs, fls}
use flexplane.Protocol.BitArray.{bit_at, bit_above_fls, bit_below_ffs, bit-fls, bit-ffs}
use flexplane.Protocol.Window.{
  FpWindow, summary_pos, wnd_is_marked, before_in_summary, wnd_at_or_before,
}
use flexplane.Protocol.Window.Inv.{
  word_back, IsValid, wnd_is_marked-eq-bit_at, summary_pos-eq, wnd_pos-eq-mod,
}

-- What `wnd_at_or_before` should return for s: the distance to the nearest marked number of the
-- window, or `none` where there is none.
abbrev pub IsNearestBefore : FpWindow → ℕ → Option ℕ → Type 0
IsNearestBefore w s none = (k : ℕ) → sub64 w.head s + k < 192 → wnd_is_marked w (sub64 s k) ≡ false
IsNearestBefore w s (some d) =
    (sub64 w.head s + d < 192)
    × (wnd_is_marked w (sub64 s d) ≡ true)
    × ((k : ℕ) → k < d → wnd_is_marked w (sub64 s k) ≡ false)

-- The search inside the word of a place p of the bitmap.
abbrev low_part : ℕ → ℕ → ℕ
low_part word off = shl64 word (63 - off)

module _ (word off : ℕ) (off_lt : off < 64) where
  bit-low_part :
      (i : ℕ)
      → bit (low_part word off) i ≡ (ltb i 64 && leb (63 - off) i && bit word (i - (63 - off)))
  bit-low_part i = ground (arith, bit-mod 64 (word * 2 ^ (63 - off)) i, bit-mul (63 - off) word i)

  low_part_zero : low_part word off ≡ 0 → (k : ℕ) → k ≤ off → bit word (off - k) ≡ false
  low_part_zero e k h = ground (
    arith,
    bit-low_part (63 - k),
    ap (λ v. bit v (63 - k)) e,
    bit-zero (63 - k),
    ap (bit word) (let f : 63 - k - (63 - off) ≡ off - k = omega arith in f),
  )

  low_part_found :
      low_part word off ≢ 0
      → (63 - fls (low_part word off) ≤ off)
        × (bit word (off - (63 - fls (low_part word off))) ≡ true)
        × ((k : ℕ) → k < 63 - fls (low_part word off) → bit word (off - k) ≡ false)
  low_part_found ne =
      let found = bit-fls (low_part word off) (omega arith) ne in
      let at_top = bit-low_part (fls (low_part word off)) in
      let bound : 63 - fls (low_part word off) ≤ off = ground (arith, found, at_top) in
      (
        bound,
        ground (
          arith,
          found,
          at_top,
          ap (bit word) (
              let f : fls (low_part word off) - (63 - off) ≡ off - (63 - fls (low_part word off)) =
                omega arith in
              f),
        ),
        λ k h. ground (
          arith,
          found,
          bit-low_part (63 - k),
          bit_above_fls (low_part word off) (63 - k) (omega arith) (omega arith),
          ap (bit word) (let f : 63 - k - (63 - off) ≡ off - k = omega arith in f),
        ),
      )

module _ (w : FpWindow) (v : IsValid w) (s : ℕ) (small : s < 2 ^ 64)
    (near : sub64 w.head s < 192) where
  abbrev place : ℕ
  place = s % 256

  -- How many words the word of s is before the head's.
  abbrev back : ℕ
  back = (w.head_word + 4 - place / 64) % 4

  age-back : sub64 w.head s + place % 64 ≡ 64 * back + w.head % 64
  age-back = omega (arith, v.head_word_of, v.head_small)

  marked_same_word :
      (k : ℕ)
      → k ≤ place % 64
      → wnd_is_marked w (sub64 s k) ≡ bit (get_or w.marked (place / 64) 0) (place % 64 - k)
  marked_same_word k h =
      wnd_is_marked-eq-bit_at w (sub64 s k)
      ∙ ap (bit_at w.marked) (let e : sub64 s k % 256 ≡ place - k = omega arith in e)
      ∙ ap (λ i. bit (get_or w.marked i 0) ((place - k) % 64))
          (let e : (place - k) / 64 ≡ place / 64 = omega arith in e)
      ∙ ap (bit (get_or w.marked (place / 64) 0))
          (let e : (place - k) % 64 ≡ place % 64 - k = omega arith in e)

  marked_other_word :
      (k : ℕ)
      → place % 64 < k
      → sub64 w.head s + k < 256
      → wnd_is_marked w (sub64 s k)
        ≡ bit (word_back w (back + (k - place % 64 - 1) / 64 + 1)) (63 - (k - place % 64 - 1) % 64)
  marked_other_word k h lim =
      wnd_is_marked-eq-bit_at w (sub64 s k)
      ∙ ap (λ i. bit (get_or w.marked i 0) (sub64 s k % 256 % 64))
          (let e : sub64 s k % 256 / 64
                ≡ (w.head_word + 4 - (back + (k - place % 64 - 1) / 64 + 1)) % 4 =
              omega (arith, v.head_word_of, v.head_small, age-back) in
            e)
      ∙ ap (bit (word_back w (back + (k - place % 64 - 1) / 64 + 1)))
          (let e : sub64 s k % 256 % 64 ≡ 63 - (k - place % 64 - 1) % 64 = omega arith in e)

  summary_left : ℕ
  summary_left = bit_and (shr64 w.summary (summary_pos w (place / 64 * 64 + place % 64))) (not64 1)

  bit-summary_left :
      (m : ℕ)
      → bit summary_left m ≡ (ltb 0 m && ltb (back + m) 4 && not (word_back w (back + m) == 0))
  unfolding summary_left
  bit-summary_left m =
      let sp = summary_pos w (place / 64 * 64 + place % 64) in
      ground (
        arith,
        v.head_word_of,
        summary_pos-eq w (place / 64 * 64 + place % 64) (omega (arith, v.head_word_of))
            (omega arith),
        bit-bit_and (w.summary / 2 ^ sp) (not64 1) m,
        bit-div sp w.summary m,
        bit-complement 64 1 m (omega arith),
        bit-one m,
        v.summary_bits (back + m),
        ap (bit w.summary) (let e : m + back ≡ back + m = omega arith in e),
      )

  empty_word :
      (m i : ℕ)
      → 0 < m
      → back + m < 4
      → bit summary_left m ≡ false
      → bit (word_back w (back + m)) i ≡ false
  empty_word m i pos in_ring clear =
      let zero_word : word_back w (back + m) ≡ 0 = ground (arith, bit-summary_left m) in
      rw zero_word (bit-zero i)

  abbrev own_word : ℕ
  own_word = get_or w.marked (place / 64) 0

  -- A marked number fewer than 256 before the head is in the window.
  in_window_of_marked :
      (d : ℕ)
      → sub64 w.head s + d < 256
      → wnd_is_marked w (sub64 s d) ≡ true
      → sub64 w.head s + d < 192
  in_window_of_marked d lim m =
      let marked : bit_at w.marked (sub64 s d % 256) ≡ true =
        sym (wnd_is_marked-eq-bit_at w (sub64 s d)) ∙ m in
      omega (arith, v.in_window (sub64 s d % 256) (omega arith) marked, v.head_small)

  some_in_own_word :
      low_part own_word (place % 64) ≢ 0
      → IsNearestBefore w s (some (63 - fls (low_part own_word (place % 64))))
  some_in_own_word ne =
      let found = low_part_found own_word (place % 64) (omega arith) ne in
      let d = 63 - fls (low_part own_word (place % 64)) in
      let marked : wnd_is_marked w (sub64 s d) ≡ true = marked_same_word d found.0 ∙ found.1 in
      (
        in_window_of_marked d (omega (arith, near)) marked,
        marked,
        λ k h. marked_same_word k (omega (arith, h, found.0)) ∙ found.2 k h,
      )

  clear_of_low_part :
      low_part own_word (place % 64) ≡ 0
      → (k : ℕ) → k ≤ place % 64
      → wnd_is_marked w (sub64 s k) ≡ false
  clear_of_low_part e k h =
      marked_same_word k h ∙ low_part_zero own_word (place % 64) (omega arith) e k h

  none_before : low_part own_word (place % 64) ≡ 0 → summary_left ≡ 0 → IsNearestBefore w s none
  none_before e f k lim = elim (Bool-cases (leb k (place % 64))) [
    | inl same ↦ clear_of_low_part e k (ground arith)
    | inr other ↦
        let m = (k - place % 64 - 1) / 64 + 1 in
        let beyond : place % 64 < k = ground arith in
        marked_other_word k beyond (omega arith)
        ∙ ap (λ t. bit (word_back w t) (63 - (k - place % 64 - 1) % 64))
            (let g : back + (k - place % 64 - 1) / 64 + 1 ≡ back + m = omega arith in g)
        ∙ empty_word m (63 - (k - place % 64 - 1) % 64) (omega arith) (omega (arith, age-back))
            (ap (λ t. bit t m) f ∙ bit-zero m)
  ]

  -- The word that the summary leads to, j words before the word of s.
  module _ (e : low_part own_word (place % 64) ≡ 0) (f : summary_left ≢ 0) where
    abbrev steps : ℕ
    steps = ffs summary_left

    found_word : (0 < steps) × (back + steps < 4) × (word_back w (back + steps) ≢ 0)
    found_word =
        let sp = summary_pos w (place / 64 * 64 + place % 64) in
        let bound : summary_left < 2 ^ 64 =
          unfold summary_left in
          bit_and-lt-pow 64 (w.summary / 2 ^ sp) (not64 1) (omega (arith, v.summary_small)) in
        let found : (steps < 64) × (bit summary_left steps ≡ true) = bit-ffs summary_left bound f in
        ground (arith, found, bit-summary_left steps)

    abbrev gap : ℕ
    gap = 64 * steps + place % 64 - fls (word_back w (back + steps))

    top_bit :
        (fls (word_back w (back + steps)) < 64)
        × (bit (word_back w (back + steps)) (fls (word_back w (back + steps))) ≡ true)
    top_bit =
        bit-fls (word_back w (back + steps)) (v.words ((w.head_word + 4 - (back + steps)) % 4))
          found_word.2

    gap_lt : (place % 64 < gap) × (sub64 w.head s + gap < 256)
    gap_lt = omega (arith, found_word, top_bit.0, age-back)

    gap_marked : wnd_is_marked w (sub64 s gap) ≡ true
    gap_marked =
        marked_other_word gap gap_lt.0 gap_lt.1
        ∙ ap (λ t. bit (word_back w t) (63 - (gap - place % 64 - 1) % 64))
            (let g : back + (gap - place % 64 - 1) / 64 + 1 ≡ back + steps =
                omega (arith, found_word, top_bit.0) in
              g)
        ∙ ap (bit (word_back w (back + steps))) (
            let g : 63 - (gap - place % 64 - 1) % 64 ≡ fls (word_back w (back + steps)) =
              omega (arith, found_word, top_bit.0) in
            g)
        ∙ top_bit.1

    below_gap : (k : ℕ) → k < gap → wnd_is_marked w (sub64 s k) ≡ false
    below_gap k h = elim (Bool-cases (leb k (place % 64))) [
      | inl same ↦ clear_of_low_part e k (ground arith)
      | inr other ↦
          let m = (k - place % 64 - 1) / 64 + 1 in
          let i = 63 - (k - place % 64 - 1) % 64 in
          let beyond : place % 64 < k = ground arith in
          let m_le : m ≤ steps = omega (arith, top_bit.0) in
          marked_other_word k beyond (omega (arith, gap_lt))
          ∙ ap (λ t. bit (word_back w t) i)
              (let g : back + (k - place % 64 - 1) / 64 + 1 ≡ back + m = omega arith in g)
          ∙ elim (Bool-cases (m == steps)) [
            | inl last ↦
                let g : m ≡ steps = ground arith in
                rw g (
                  bit_above_fls (word_back w (back + steps)) i (omega arith)
                    (omega (arith, top_bit.0)))
            | inr between ↦
                let m_lt : m < steps = ground arith in
                empty_word m i (omega arith) (omega (arith, found_word))
                  (bit_below_ffs summary_left m (omega (arith, found_word)) m_lt)
          ]
    ]

    some_before : IsNearestBefore w s (some gap)
    some_before = (in_window_of_marked gap gap_lt.1 gap_marked, gap_marked, below_gap)

-- For a number of a valid window `wnd_at_or_before` raises no bug, and returns the distance to the
-- nearest marked number of the window at or before it, or -1 if there is none.
pub wnd_at_or_before_lem :
    (w : FpWindow) (s : ℕ)
    → IsValid w
    → s < 2 ^ 64
    → sub64 w.head s < 192
    → (r : Option ℕ) × (wnd_at_or_before w s ≡ ok r) × IsNearestBefore w s r
unfolding wnd_at_or_before before_in_summary summary_left
wnd_at_or_before_lem w s v small near =
    let part = low_part (own_word w v s small near) (s % 256 % 64) in
    let left = summary_left w v s small near in
    let not_after : time_after64 s w.head ≡ false = ground (arith, v.head_small) in
    let not_before : time_before_eq64 s (sub64 w.head 192) ≡ false = ground (arith, v.head_small) in
    elim (Bool-cases (part == 0)) [
      | inr here ↦ (
        some (63 - fls part),
        rw (wnd_pos-eq-mod s, not_after, not_before, here) refl,
        some_in_own_word w v s small near (ground arith),
      )
      | inl empty ↦ elim (Bool-cases (left == 0)) [
        | inl nothing ↦ (
          none,
          rw (wnd_pos-eq-mod s, not_after, not_before, empty, nothing) refl,
          none_before w v s small near (ground arith) (ground arith),
        )
        | inr more ↦
            let e : part ≡ 0 = ground arith in
            let f : left ≢ 0 = ground arith in
            let word = found_word w v s small near e f in
            (
              some (gap w v s small near e f),
              rw (wnd_pos-eq-mod s, not_after, not_before, empty, more)
                  (ap (λ i. ok (some (64 * ffs left + s % 256 % 64 - fls (get_or w.marked i 0))))
                    (omega (arith, word.0, word.1, v.head_word_of))),
              some_before w v s small near e f,
            )
      ]
    ]
