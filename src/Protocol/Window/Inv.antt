-- ===== src/Protocol/Window/Inv.antt =====
-- protocol/window.h: the representation invariant of struct fp_window, and wnd_reset.
use flexplane.Base.{
  ℕ, ◌+◌, ◌-◌, ◌/◌, ◌%◌, ◌^◌, ◌<◌, bit_and, bit_or, ◌≡◌, refl, ap, ◌∙◌, sym, true, not, ◌&&◌, ltb,
  ◌==◌, length, get_or, replicate, get_or-replicate, not64, arith,
}
use flexplane.Base.Bits.{bit, bit-zero, bit_and-mask}
use flexplane.Base.Count.{count_below, count_below_none}
use flexplane.Protocol.Platform.{bit_mask, set_bit, clear_bit}
use flexplane.Protocol.BitArray.{bit_at, AreWords, test_bit-eq-bit_at}
use flexplane.Protocol.Window.{FpWindow, wnd_pos, summary_pos, wnd_is_marked, on_word, wnd_reset}

-- The word that is j words before the head's.
abbrev pub word_back : FpWindow → ℕ → ℕ
word_back w j = get_or w.marked ((w.head_word + 4 - j) % 4) 0

-- The words are four, the summary has a bit for each word that is not zero, counted back from
-- the head's, and only the 192 numbers up to the head are marked.
pub record IsValid (w : FpWindow) : Type 0 where
  pub n_words : length w.marked ≡ 4
  pub words : AreWords w.marked
  pub head_small : w.head < 2 ^ 64
  pub head_word_of : w.head_word ≡ w.head % 256 / 64
  pub summary_small : w.summary < 2 ^ 64
  pub summary_bits : (j : ℕ) → bit w.summary j ≡ (ltb j 4 && not (word_back w j == 0))
  pub in_window :
      (p : ℕ) → p < 256 → bit_at w.marked p ≡ true → (w.head % 256 + 256 - p) % 256 < 192
  pub counted : w.num_marked ≡ count_below 256 (bit_at w.marked)

pub wnd_pos-eq-mod : (s : ℕ) → wnd_pos s ≡ s % 256
unfolding wnd_pos
wnd_pos-eq-mod s = bit_and-mask 8 s

pub wnd_is_marked-eq-bit_at : (w : FpWindow) (s : ℕ) → wnd_is_marked w s ≡ bit_at w.marked (s % 256)
unfolding wnd_is_marked
wnd_is_marked-eq-bit_at w s =
    test_bit-eq-bit_at (wnd_pos s) w.marked ∙ ap (bit_at w.marked) (wnd_pos-eq-mod s)

pub summary_pos-eq :
    (w : FpWindow) (p : ℕ)
    → w.head_word < 4
    → p < 256
    → summary_pos w p ≡ (w.head_word + 4 - p / 64) % 4
unfolding summary_pos
summary_pos-eq w p h k = omega arith

pub on_word-set_bit : (p w : ℕ) → p < 64 → on_word (set_bit p) w ≡ bit_or w (bit_mask p)
unfolding set_bit
on_word-set_bit p w h = let e : p / 64 ≡ 0 = omega arith in rw e refl

pub on_word-clear_bit :
    (p w : ℕ) → p < 64 → on_word (clear_bit p) w ≡ bit_and w (not64 (bit_mask p))
unfolding clear_bit
on_word-clear_bit p w h = let e : p / 64 ≡ 0 = omega arith in rw e refl

zero_word : (i : ℕ) → get_or {A = ℕ} (replicate 4 0) i 0 ≡ 0
zero_word i = get_or-replicate 4 0 i

-- For a head of 64 bits `wnd_reset` gives a valid window.
pub wnd_reset-IsValid : (head : ℕ) → head < 2 ^ 64 → IsValid (wnd_reset head)
unfolding wnd_reset
wnd_reset-IsValid head h = record {
  n_words = refl;
  words = λ i. rw (zero_word i) (omega arith);
  head_small = h;
  head_word_of = ap (λ t. t / 64) (wnd_pos-eq-mod head);
  summary_small = omega arith;
  summary_bits = λ j. ground (arith, bit-zero j, zero_word ((wnd_pos head / 64 + 4 - j) % 4));
  in_window = λ p k b. cc (b, zero_word (p / 64), bit-zero (p % 64));
  counted = sym (count_below_none 256 _ (λ i p. rw (zero_word (i / 64)) (bit-zero (i % 64))));
}
