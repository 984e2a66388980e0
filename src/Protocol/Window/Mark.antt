-- ===== src/Protocol/Window/Mark.antt =====
-- protocol/window.h: wnd_mark and wnd_clear.
use flexplane.Base.{
  ℕ, ◌+◌, ◌-◌, ◌*◌, ◌/◌, ◌%◌, ◌^◌, ◌≤◌, ◌<◌, ◌≡◌, refl, ◌∙◌, sym, true, false, not, ◌&&◌, ◌||◌, ltb,
  ◌==◌, if◌then◌else◌, Bool-cases, inl, inr, length, get_or, sub64, add32, sub32, not64, arith, ◌≢◌,
}
use flexplane.Base.Bits.{
  bit, bit-bit_and, bit-bit_or, bit-complement, bit-ge, bit_and-lt-pow, bit_or-lt-pow,
  ne_zero_of_bit,
}
use flexplane.Base.Checked.{ok}
use flexplane.Base.Count.{count_below, count_below_insert, count_below-le}
use flexplane.Protocol.Platform.{bit_mask, set_bit, clear_bit}
use flexplane.Protocol.BitArray.{
  bit_at, bit_mask-lt, bit-bit_mask, bit_at-set_bit, bit_at-clear_bit, AreWords-set_bit,
  AreWords-clear_bit, length-set_bit, length-clear_bit, get_or-set_bit, get_or-clear_bit,
}
use flexplane.Protocol.Window.{FpWindow, summary_pos, wnd_is_marked, on_word, wnd_mark, wnd_clear}
use flexplane.Protocol.Window.Inv.{
  IsValid, wnd_is_marked-eq-bit_at, summary_pos-eq, wnd_pos-eq-mod, on_word-set_bit,
  on_word-clear_bit,
}

-- What marking one number of the window does to the bitmap and its summary.
module _ (w : FpWindow) (v : IsValid w) (p : ℕ) (small : p < 256) where
  mark_sum : ℕ
  mark_sum = on_word (set_bit (summary_pos w p)) w.summary

  pos_lt : (w.head_word < 4) × (summary_pos w p < 64)
  pos_lt =
      let h : w.head_word < 4 = omega (arith, v.head_word_of) in
      (h, omega (arith, summary_pos-eq w p h small))

  bit-mark_sum :
      (j : ℕ) → bit mark_sum j ≡ (((w.head_word + 4 - p / 64) % 4 == j) || bit w.summary j)
  unfolding mark_sum
  bit-mark_sum j = ground (
    arith,
    pos_lt,
    summary_pos-eq w p pos_lt.0 small,
    on_word-set_bit (summary_pos w p) w.summary pos_lt.1,
    bit-bit_or w.summary (bit_mask (summary_pos w p)) j,
    bit-bit_mask (summary_pos w p) j,
  )

  marked_word_ne_zero : get_or (set_bit p w.marked) (p / 64) 0 ≢ 0
  marked_word_ne_zero =
      ne_zero_of_bit _ (p % 64) (ground (arith, v.n_words, bit_at-set_bit p p w.marked))

  mark_sum_bits :
      (j : ℕ)
      → bit mark_sum j
        ≡ (ltb j 4 && not (get_or (set_bit p w.marked) ((w.head_word + 4 - j) % 4) 0 == 0))
  mark_sum_bits j = elim (Bool-cases (p / 64 == (w.head_word + 4 - j) % 4)) [
    | inl same ↦
        let e : p / 64 ≡ (w.head_word + 4 - j) % 4 = ground arith in
        ground (arith, pos_lt, bit-mark_sum j, v.summary_bits j, rw e at marked_word_ne_zero)
    | inr other ↦ ground (
      arith,
      pos_lt,
      bit-mark_sum j,
      v.summary_bits j,
      get_or-set_bit p ((w.head_word + 4 - j) % 4) w.marked,
    )
  ]

  clear_sum : ℕ
  clear_sum =
      if get_or (clear_bit p w.marked) (p / 64) 0 == 0
      then on_word (clear_bit (summary_pos w p)) w.summary
      else w.summary

  bit-clear_sum :
      (j : ℕ)
      → bit (on_word (clear_bit (summary_pos w p)) w.summary) j
        ≡ (not ((w.head_word + 4 - p / 64) % 4 == j) && bit w.summary j)
  bit-clear_sum j = ground (
    arith,
    pos_lt,
    summary_pos-eq w p pos_lt.0 small,
    on_word-clear_bit (summary_pos w p) w.summary pos_lt.1,
    bit-bit_and w.summary (not64 (bit_mask (summary_pos w p))) j,
    bit-complement 64 (bit_mask (summary_pos w p)) j (bit_mask-lt (summary_pos w p)),
    bit-bit_mask (summary_pos w p) j,
    bit-ge 64 w.summary j v.summary_small,
  )

  clear_sum_bits :
      bit_at w.marked p ≡ true
      → (j : ℕ)
      → bit clear_sum j
        ≡ (ltb j 4 && not (get_or (clear_bit p w.marked) ((w.head_word + 4 - j) % 4) 0 == 0))
  unfolding clear_sum
  clear_sum_bits was j = elim (Bool-cases (p / 64 == (w.head_word + 4 - j) % 4)) [
    | inl same ↦
        let e : p / 64 ≡ (w.head_word + 4 - j) % 4 = ground arith in
        let old : get_or w.marked ((w.head_word + 4 - j) % 4) 0 ≢ 0 =
          rw e at (ne_zero_of_bit _ (p % 64) was) in
        ground (arith, pos_lt, bit-clear_sum j, v.summary_bits j, old)
    | inr other ↦ ground (
      arith,
      pos_lt,
      bit-clear_sum j,
      v.summary_bits j,
      get_or-clear_bit p ((w.head_word + 4 - j) % 4) w.marked,
    )
  ]

-- A number of the window other than s has another place in the bitmap.
pos_of_other :
    (h s t : ℕ)
    → h < 2 ^ 64
    → s < 2 ^ 64
    → t < 2 ^ 64
    → sub64 h s < 192
    → sub64 h t < 192
    → (s % 256 == t % 256) ≡ (s == t)
pos_of_other h s t a b c d e = ground arith

-- Marking a number of a valid window that is not marked raises no bug, marks it and no other
-- number of the window, counts one more, and keeps the head and the window valid.
pub wnd_mark_lem :
    (w : FpWindow) (s : ℕ)
    → IsValid w
    → s < 2 ^ 64
    → sub64 w.head s < 192
    → wnd_is_marked w s ≡ false
    → (w' : FpWindow) × (wnd_mark w s ≡ ok w')
      × IsValid w'
      × (w'.head ≡ w.head)
      × (w'.num_marked ≡ w.num_marked + 1)
      × ((t : ℕ)
          → t < 2 ^ 64
          → sub64 w.head t < 192
          → wnd_is_marked w' t ≡ ((s == t) || wnd_is_marked w t))
unfolding wnd_mark mark_sum
wnd_mark_lem w s v small near free =
    let p = s % 256 in
    let p_lt : p < 256 = omega arith in
    let after : FpWindow = record w {
      marked = set_bit p w.marked;
      summary = mark_sum w v p p_lt;
      num_marked = add32 w.num_marked 1;
    } in
    let clear : bit_at w.marked p ≡ false = sym (wnd_is_marked-eq-bit_at w s) ∙ free in
    let in_array : p < 64 * length w.marked = rw v.n_words (omega arith) in
    let small_count : w.num_marked ≤ 256 = rw v.counted (count_below-le 256 (bit_at w.marked)) in
    let more : count_below 256 (bit_at (set_bit p w.marked)) ≡ w.num_marked + 1 = rw v.counted (
      count_below_insert 256 p (bit_at w.marked) (bit_at (set_bit p w.marked)) p_lt clear
        (ground (arith, bit_at-set_bit p p w.marked))
        (λ i h ne. ground (arith, bit_at-set_bit p i w.marked))) in
    (
      after,
      rw (free, wnd_pos-eq-mod) refl,
      record {
        n_words = length-set_bit p w.marked ∙ v.n_words;
        words = AreWords-set_bit p w.marked in_array v.words;
        head_small = v.head_small;
        head_word_of = v.head_word_of;
        summary_small =
            rw (on_word-set_bit _ _ (pos_lt w v p p_lt).1)
              (bit_or-lt-pow 64 _ _ v.summary_small (bit_mask-lt _));
        summary_bits = mark_sum_bits w v p p_lt;
        in_window = λ q h b. ground (
          arith,
          in_array,
          clear,
          near,
          v.head_small,
          small,
          b,
          bit_at-set_bit p q w.marked,
          v.in_window q h,
        );
        counted = omega (arith, more, small_count);
      },
      refl,
      omega arith,
      λ t h k. ground (
        arith,
        wnd_is_marked-eq-bit_at after t,
        wnd_is_marked-eq-bit_at w t,
        bit_at-set_bit p (t % 256) w.marked in_array,
        pos_of_other w.head s t v.head_small small h near k,
      ),
    )

-- Clearing a marked number of a valid window raises no bug, clears it and no other number of the
-- window, counts one less, and keeps the head and the window valid.
pub wnd_clear_lem :
    (w : FpWindow) (s : ℕ)
    → IsValid w
    → s < 2 ^ 64
    → sub64 w.head s < 192
    → wnd_is_marked w s ≡ true
    → (w' : FpWindow) × (wnd_clear w s ≡ ok w')
      × IsValid w'
      × (w'.head ≡ w.head)
      × (w'.num_marked + 1 ≡ w.num_marked)
      × ((t : ℕ)
          → t < 2 ^ 64
          → sub64 w.head t < 192
          → wnd_is_marked w' t ≡ (not (s == t) && wnd_is_marked w t))
unfolding wnd_clear clear_sum
wnd_clear_lem w s v small near marked =
    let p = s % 256 in
    let p_lt : p < 256 = omega arith in
    let after : FpWindow = record w {
      marked = clear_bit p w.marked;
      summary = clear_sum w v p p_lt;
      num_marked = sub32 w.num_marked 1;
    } in
    let was : bit_at w.marked p ≡ true = sym (wnd_is_marked-eq-bit_at w s) ∙ marked in
    let in_array : p < 64 * length w.marked = rw v.n_words (omega arith) in
    let small_count : w.num_marked ≤ 256 = rw v.counted (count_below-le 256 (bit_at w.marked)) in
    let fewer : w.num_marked ≡ count_below 256 (bit_at (clear_bit p w.marked)) + 1 =
      v.counted
      ∙ count_below_insert 256 p (bit_at (clear_bit p w.marked)) (bit_at w.marked) p_lt
          (ground (arith, bit_at-clear_bit p p w.marked)) was
          (λ i h ne. ground (arith, bit_at-clear_bit p i w.marked)) in
    (
      after,
      rw (marked, wnd_pos-eq-mod) refl,
      record {
        n_words = length-clear_bit p w.marked ∙ v.n_words;
        words = AreWords-clear_bit p w.marked in_array v.words;
        head_small = v.head_small;
        head_word_of = v.head_word_of;
        summary_small = ground (
          arith,
          v.summary_small,
          on_word-clear_bit (summary_pos w p) w.summary (pos_lt w v p p_lt).1,
          bit_and-lt-pow 64 w.summary (not64 (bit_mask (summary_pos w p))) v.summary_small,
        );
        summary_bits = clear_sum_bits w v p p_lt was;
        in_window =
            λ q h b. ground (arith, in_array, b, bit_at-clear_bit p q w.marked, v.in_window q h);
        counted = omega (arith, fewer, small_count);
      },
      refl,
      omega (arith, fewer, small_count),
      λ t h k. ground (
        arith,
        wnd_is_marked-eq-bit_at after t,
        wnd_is_marked-eq-bit_at w t,
        bit_at-clear_bit p (t % 256) w.marked in_array,
        pos_of_other w.head s t v.head_small small h near k,
      ),
    )
