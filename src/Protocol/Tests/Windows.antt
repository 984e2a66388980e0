-- ===== src/Protocol/Tests/Windows.antt =====
-- The laws of the window at a window whose head is 1000, and that has the mark 990.
use flexplane.Base.{
  ℕ, ◌+◌, ◌^◌, ◌<◌, ◌≡◌, refl, true, false, not, ◌&&◌, ◌||◌, ◌==◌, Option, sub64, ◌⊎◌, ◌-◌, inr,
  arith,
}
use flexplane.Base.Bits.{bit}
use flexplane.Base.Checked.{ok}
use flexplane.Protocol.Platform.{test_bit}
use flexplane.Protocol.Window.{
  FpWindow, wnd_pos, wnd_is_marked, wnd_reset, wnd_mark, wnd_clear, wnd_at_or_before, wnd_get_mask,
}
use flexplane.Protocol.Window.Inv.{IsValid, wnd_reset-IsValid}
use flexplane.Protocol.Window.Mark.{wnd_mark_lem, wnd_clear_lem}
use flexplane.Protocol.Window.Before.{IsNearestBefore, wnd_at_or_before_lem}
use flexplane.Protocol.Window.Mask.{is_marked_in_window, wnd_get_mask_lem}

abbrev pub empty : FpWindow
empty = wnd_reset 1000

pub empty_990 : wnd_is_marked empty 990 ≡ false
unfolding wnd_is_marked test_bit wnd_reset wnd_pos
empty_990 = refl

pub empty_near : sub64 empty.head 990 < 192
unfolding wnd_reset
empty_near = omega arith

wnd_mark_lem_example :
    (w' : FpWindow) × (wnd_mark empty 990 ≡ ok w')
    × IsValid w'
    × (w'.head ≡ empty.head)
    × (w'.num_marked ≡ empty.num_marked + 1)
    × ((t : ℕ)
        → t < 2 ^ 64
        → sub64 empty.head t < 192
        → wnd_is_marked w' t ≡ ((990 == t) || wnd_is_marked empty t))
wnd_mark_lem_example =
    wnd_mark_lem empty 990 (wnd_reset-IsValid 1000 (omega arith)) (omega arith) empty_near empty_990

-- The window with its mark, and what is known of it.
abbrev pub Marked : Type 0
Marked =
    (w' : FpWindow) × (wnd_mark empty 990 ≡ ok w')
    × IsValid w'
    × (w'.head ≡ empty.head)
    × (w'.num_marked ≡ empty.num_marked + 1)
    × ((t : ℕ)
        → t < 2 ^ 64
        → sub64 empty.head t < 192
        → wnd_is_marked w' t ≡ ((990 == t) || wnd_is_marked empty t))

abbrev pub marked : Marked
marked =
    wnd_mark_lem empty 990 (wnd_reset-IsValid 1000 (omega arith)) (omega arith) empty_near empty_990

abbrev pub one_mark : FpWindow
one_mark = marked.0

one_mark_head : one_mark.head ≡ 1000
unfolding wnd_reset
one_mark_head = marked.3

one_mark_990 : wnd_is_marked one_mark 990 ≡ true
one_mark_990 = marked.5 990 (omega arith) empty_near

near_990 : sub64 one_mark.head 990 < 192
near_990 = rw one_mark_head (omega arith)

near_999 : sub64 one_mark.head 999 < 192
near_999 = rw one_mark_head (omega arith)

near_1010 : (sub64 one_mark.head 1010 < 2 ^ 62) ⊎ (sub64 1010 one_mark.head < 2 ^ 62)
near_1010 = inr (rw one_mark_head (omega arith))

wnd_clear_lem_example :
    (w' : FpWindow) × (wnd_clear one_mark 990 ≡ ok w')
    × IsValid w'
    × (w'.head ≡ one_mark.head)
    × (w'.num_marked + 1 ≡ one_mark.num_marked)
    × ((t : ℕ)
        → t < 2 ^ 64
        → sub64 one_mark.head t < 192
        → wnd_is_marked w' t ≡ (not (990 == t) && wnd_is_marked one_mark t))
wnd_clear_lem_example = wnd_clear_lem one_mark 990 marked.2 (omega arith) near_990 one_mark_990

wnd_at_or_before_lem_example :
    (r : Option ℕ) × (wnd_at_or_before one_mark 999 ≡ ok r) × IsNearestBefore one_mark 999 r
wnd_at_or_before_lem_example = wnd_at_or_before_lem one_mark 999 marked.2 (omega arith) near_999

wnd_get_mask_lem_example :
    bit (wnd_get_mask one_mark 1010) 43 ≡ is_marked_in_window one_mark (sub64 1010 (63 - 43))
wnd_get_mask_lem_example =
    wnd_get_mask_lem one_mark 1010 43 marked.2 (omega arith) (omega arith) near_1010
