-- ===== src/Protocol/Window.antt =====
-- protocol/window.h: the window of sequence numbers that wait for an ACK, as a circular bitmap
-- of words with a summary of the words that are not zero.
pub mod Inv
pub mod Mark
pub mod Before
pub mod Mask
use flexplane.Base.{
  ℕ, ◌+◌, ◌-◌, ◌*◌, ◌/◌, ◌%◌, ◌^◌, bit_and, bit_or, Bool, not, ◌&&◌, List, leb, ◌==◌, if◌then◌else◌,
  Option, none, some, get_or, replicate, add64, sub64, sub32, add32, shl64, shr64, not64,
}
use flexplane.Base.Checked.{Checked, ok, bug, bug_on, ◌>>◌}
use flexplane.Protocol.Platform.{
  time_after64, time_before64, time_after_eq64, time_before_eq64, bits_per_long, bit_word, set_bit,
  clear_bit, test_bit, ffs, fls,
}

abbrev pub wnd_log : ℕ
wnd_log = 8

-- FASTPASS_WND_LEN: 192
abbrev pub wnd_len : ℕ
wnd_len = 2 ^ wnd_log - bits_per_long

-- FASTPASS_WND_WORDS: 4
abbrev pub wnd_words : ℕ
wnd_words = (2 ^ wnd_log + bits_per_long - 1) / bits_per_long

pub record FpWindow : Type 0 where
  pub marked : List ℕ
  pub summary : ℕ
  pub head : ℕ
  pub head_word : ℕ
  pub num_marked : ℕ

unfoldable pub wnd_pos : ℕ → ℕ
wnd_pos tslot = bit_and tslot (2 ^ wnd_log - 1)

unfoldable pub summary_pos : FpWindow → ℕ → ℕ
summary_pos wnd pos = sub64 wnd.head_word (bit_word pos) % wnd_words

abbrev pub wnd_empty : FpWindow → Bool
wnd_empty wnd = wnd.num_marked == 0

abbrev pub wnd_head : FpWindow → ℕ
wnd_head wnd = wnd.head

abbrev pub wnd_edge : FpWindow → ℕ
wnd_edge wnd = add64 (sub64 wnd.head wnd_len) 1

abbrev pub wnd_seq_before : FpWindow → ℕ → Bool
wnd_seq_before wnd seqno = time_before64 seqno (wnd_edge wnd)

abbrev pub wnd_seq_after : FpWindow → ℕ → Bool
wnd_seq_after wnd seqno = time_after64 seqno (wnd_head wnd)

unfoldable pub wnd_is_marked : FpWindow → ℕ → Bool
wnd_is_marked wnd seqno = not (test_bit (wnd_pos seqno) wnd.marked == 0)

-- A bit operation on the address of a single word.
abbrev pub on_word : (List ℕ → List ℕ) → ℕ → ℕ
on_word f w = get_or (f (replicate 1 w)) 0 0

unfoldable pub wnd_mark : FpWindow → ℕ → Checked FpWindow
wnd_mark wnd seqno = do
  let seqno_index = wnd_pos seqno
  bug_on (wnd_is_marked wnd seqno)
  ok (record wnd {
    marked = set_bit seqno_index wnd.marked;
    summary = on_word (set_bit (summary_pos wnd seqno_index)) wnd.summary;
    num_marked = add32 wnd.num_marked 1;
  })

unfoldable pub wnd_clear : FpWindow → ℕ → Checked FpWindow
wnd_clear wnd seqno = do
  let seqno_index = wnd_pos seqno
  bug_on (not (wnd_is_marked wnd seqno))
  let marked = clear_bit seqno_index wnd.marked
  ok (record wnd {
    marked = marked;
    summary =
        if get_or marked (bit_word seqno_index) 0 == 0
        then on_word (clear_bit (summary_pos wnd seqno_index)) wnd.summary
        else wnd.summary;
    num_marked = sub32 wnd.num_marked 1;
  })

-- The search of the words strictly before that of `seqno_word`, led by the summary.
unfoldable pub before_in_summary : FpWindow → ℕ → ℕ → Option ℕ
before_in_summary wnd seqno_word seqno_offset =
    let tmp =
      bit_and (shr64 wnd.summary (summary_pos wnd (seqno_word * bits_per_long + seqno_offset)))
        (not64 1) in
    if tmp == 0
    then none
    else let result_word_offset = ffs tmp in
      let word = get_or wnd.marked (sub32 seqno_word result_word_offset % wnd_words) 0 in
      some (bits_per_long * result_word_offset + seqno_offset - fls word)

-- `none` is the result -1.
unfoldable pub wnd_at_or_before : FpWindow → ℕ → Checked (Option ℕ)
wnd_at_or_before wnd seqno =
    let seqno_index = wnd_pos seqno in
    let seqno_word = bit_word seqno_index in
    let seqno_offset = seqno_index % bits_per_long in
    let tmp = shl64 (get_or wnd.marked seqno_word 0) (bits_per_long - 1 - seqno_offset) in
    if time_after64 seqno wnd.head
    then bug
    else if time_before_eq64 seqno (sub64 wnd.head wnd_len)
    then ok none
    else if not (tmp == 0)
    then ok (some (bits_per_long - 1 - fls tmp))
    else ok (before_in_summary wnd seqno_word seqno_offset)

unfoldable pub wnd_earliest_marked : FpWindow → ℕ
wnd_earliest_marked wnd =
    let word_offset = fls wnd.summary in
    let tmp = get_or wnd.marked (sub32 wnd.head_word word_offset % wnd_words) 0 in
    add64 (sub64 (bit_and wnd.head (not64 (bits_per_long - 1))) (word_offset * bits_per_long))
      (ffs tmp)

-- The search of the words strictly after that of `seqno`, led by the summary.
unfoldable pub after_in_summary : FpWindow → ℕ → ℕ → ℕ → Option ℕ
after_in_summary wnd seqno seqno_word seqno_offset =
    let pos = summary_pos wnd (seqno_word * bits_per_long + seqno_offset) in
    let tmp = bit_and (shl64 wnd.summary (bits_per_long - 1 - pos)) (2 ^ 63 - 1) in
    if tmp == 0
    then none
    else let result_word_offset = bits_per_long - 1 - fls tmp in
      let word = get_or wnd.marked ((seqno_word + result_word_offset) % wnd_words) 0 in
      some
        (add64 (add64 (sub64 seqno seqno_offset) (bits_per_long * result_word_offset)) (ffs word))

-- `none` is the result false; `some` carries what is stored through `out_seqno`.
unfoldable pub wnd_at_or_after : FpWindow → ℕ → Option ℕ
wnd_at_or_after wnd seqno =
    let seqno_index = wnd_pos seqno in
    let seqno_word = bit_word seqno_index in
    let seqno_offset = seqno_index % bits_per_long in
    let tmp = shr64 (get_or wnd.marked seqno_word 0) seqno_offset in
    if wnd_seq_after wnd seqno
    then none
    else if wnd_seq_before wnd seqno
    then (if wnd_empty wnd then none else some (wnd_earliest_marked wnd))
    else if not (tmp == 0)
    then some (add64 seqno (ffs tmp))
    else after_in_summary wnd seqno seqno_word seqno_offset

unfoldable pub wnd_reset : ℕ → FpWindow
wnd_reset head = record {
  marked = replicate wnd_words 0;
  summary = 0;
  head = head;
  head_word = bit_word (wnd_pos head);
  num_marked = 0;
}

unfoldable pub wnd_advance : FpWindow → ℕ → Checked FpWindow
wnd_advance wnd amount =
    let head = add64 wnd.head amount in
    let word_shift = sub64 (bit_word head) (bit_word wnd.head) in
    let head_word = add64 wnd.head_word word_shift % wnd_words in
    if leb wnd_words word_shift
    then (do
      bug_on (not (wnd.num_marked == 0))
      ok (record wnd {
        marked = replicate wnd_words 0;
        summary = 0;
        head = head;
        head_word = head_word;
      }))
    else (do
      bug_on
          (not (wnd_empty wnd) && time_before_eq64 (wnd_earliest_marked wnd) (sub64 head wnd_len))
      ok (record wnd {
        summary = shl64 wnd.summary word_shift;
        head = head;
        head_word = head_word;
      }))

unfoldable pub wnd_get_mask_unsafe : FpWindow → ℕ → ℕ
wnd_get_mask_unsafe wnd pos =
    let pos_index = wnd_pos pos in
    let pos_word = bit_word pos_index in
    let pos_offset = pos_index % bits_per_long in
    if pos_offset == bits_per_long - 1
    then get_or wnd.marked pos_word 0
    else bit_or (shl64 (get_or wnd.marked pos_word 0) (bits_per_long - 1 - pos_offset))
        (shr64 (get_or wnd.marked (sub32 pos_word 1 % wnd_words) 0) (pos_offset + 1))

unfoldable pub wnd_get_mask : FpWindow → ℕ → ℕ
wnd_get_mask wnd pos =
    if time_before_eq64 pos (sub64 wnd.head wnd_len)
    then 0
    else if time_after_eq64 pos (add64 wnd.head bits_per_long)
    then 0
    else wnd_get_mask_unsafe wnd pos
