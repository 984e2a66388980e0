-- ===== src/Protocol/Window/Mask.antt =====
-- protocol/window.h: wnd_get_mask, by bits.
use flexplane.Base.{
  ℕ, ◌+◌, ◌-◌, ◌*◌, ◌/◌, ◌%◌, ◌^◌, ◌≤◌, ◌<◌, bit_or, ◌≡◌, refl, ap, ◌∙◌, sym, Bool, false, ◌&&◌,
  ltb, leb, ◌==◌, Bool-cases, inl, inr, get_or, add64, sub64, sub32, shl64, shr64, arith, ◌⊎◌, ◌≢◌,
}
use flexplane.Base.Bits.{bit, bit-zero, bit-bit_or, bit-ge, bit-mod, bit-mul, bit-div}
use flexplane.Protocol.Platform.{time_before_eq64, time_after_eq64}
use flexplane.Protocol.BitArray.{bit_at}
use flexplane.Protocol.Window.{FpWindow, wnd_is_marked, wnd_get_mask, wnd_get_mask_unsafe}
use flexplane.Protocol.Window.Inv.{IsValid, wnd_is_marked-eq-bit_at, wnd_pos-eq-mod}

-- Whether t is a marked number of the window.
abbrev pub is_marked_in_window : FpWindow → ℕ → Bool
is_marked_in_window w t = ltb (sub64 w.head t) 192 && wnd_is_marked w t

module _ (w : FpWindow) (v : IsValid w) (pos i : ℕ) (small : pos < 2 ^ 64) (i_lt : i < 64) where
  abbrev place : ℕ
  place = pos % 256

  abbrev off : ℕ
  off = place % 64

  abbrev target : ℕ
  target = (place + 256 - (63 - i)) % 256

  target_is :
      (word b : ℕ)
      → target / 64 ≡ word
      → target % 64 ≡ b
      → bit (get_or w.marked word 0) b ≡ bit_at w.marked target
  target_is word b e f = rw (← e, ← f) refl

  bit-two_words :
      off ≢ 63
      → bit
          (bit_or
            (shl64 (get_or w.marked (place / 64) 0) (63 - off))
            (shr64 (get_or w.marked (sub32 (place / 64) 1 % 4) 0) (off + 1)))
          i
        ≡ bit_at w.marked target
  bit-two_words ne =
      let hi = get_or w.marked (place / 64) 0 in
      let lo = get_or w.marked (sub32 (place / 64) 1 % 4) 0 in
      let split = bit-bit_or (shl64 hi (63 - off)) (shr64 lo (off + 1)) i in
      let upper = bit-mod 64 (hi * 2 ^ (63 - off)) i in
      let shifted = bit-mul (63 - off) hi i in
      let lower = bit-div (off + 1) lo i in
      elim (Bool-cases (leb (63 - off) i)) [
        | inl same ↦
            let le : 63 - off ≤ i = ground arith in
            ground (
              arith,
              split,
              upper,
              shifted,
              lower,
              bit-ge 64 lo (i + (off + 1)) (v.words (sub32 (place / 64) 1 % 4)) (omega arith),
              target_is (place / 64) (i - (63 - off)) (omega arith) (omega arith),
            )
        | inr other ↦
            let lt : i < 63 - off = ground arith in
            ground (
              arith,
              split,
              upper,
              shifted,
              lower,
              target_is (sub32 (place / 64) 1 % 4) (i + (off + 1)) (omega arith) (omega arith),
            )
      ]

  bit-unsafe : bit (wnd_get_mask_unsafe w pos) i ≡ bit_at w.marked target
  unfolding wnd_get_mask_unsafe
  bit-unsafe = rw (wnd_pos-eq-mod pos) (elim (Bool-cases (off == 63)) [
    | inl last ↦
        let e : off ≡ 63 = ground arith in
        rw last (target_is (place / 64) i (omega arith) (omega arith))
    | inr inner ↦ rw inner (bit-two_words (ground arith))
  ])

-- For a valid window and each 64-bit pos fewer than 2 ^ 62 before or after the head, bit i of
-- `wnd_get_mask` says whether pos - 63 + i is a marked number of the window.
pub wnd_get_mask_lem :
    (w : FpWindow) (pos i : ℕ)
    → IsValid w
    → pos < 2 ^ 64
    → i < 64
    → (sub64 w.head pos < 2 ^ 62) ⊎ (sub64 pos w.head < 2 ^ 62)
    → bit (wnd_get_mask w pos) i ≡ is_marked_in_window w (sub64 pos (63 - i))
unfolding wnd_get_mask
wnd_get_mask_lem w pos i v small i_lt near =
    let t = sub64 pos (63 - i) in
    let same_place : (pos % 256 + 256 - (63 - i)) % 256 ≡ t % 256 = omega arith in
    let seen = wnd_is_marked-eq-bit_at w t in
    elim (Bool-cases (time_before_eq64 pos (sub64 w.head 192))) [
      | inl early ↦ rw early (
          let outside : ltb (sub64 w.head t) 192 ≡ false = ground (arith, v.head_small) in
          rw outside (bit-zero i))
      | inr late ↦ elim (Bool-cases (time_after_eq64 pos (add64 w.head 64))) [
        | inl beyond ↦
            rw (late, beyond)
              (let outside : ltb (sub64 w.head t) 192 ≡ false = ground (arith, v.head_small) in
                rw outside (bit-zero i))
        | inr here ↦
            rw (late, here)
              (bit-unsafe w v pos i small i_lt
                ∙ ap (bit_at w.marked) same_place
                ∙ elim (Bool-cases (ltb (sub64 w.head t) 192)) [
                  | inl inside ↦ rw inside (sym seen)
                  | inr outside ↦ rw outside (elim (Bool-cases (bit_at w.marked (t % 256))) [
                    | inl set ↦
                        let age = v.in_window (t % 256) (omega arith) set in
                        absurd (ground (arith, age, v.head_small))
                    | inr clear ↦ clear
                  ])
                ])
      ]
    ]
