-- ===== src/Tsq/Inv/Renumbered.antt =====
-- kernel-mod/sch_timeslot.c: tsq_reset_ids.
use flexplane.Base.{
  ℕ, suc, ◌+◌, ◌≡◌, refl, sym, ap, ◌∙◌, ◌==◌, true, false, ==-refl, List, [], ◌∷◌, ◌++◌, length,
  u16,
}
use mathlib.Core.Path.{subst}
use flexplane.Base.Checked.{ok}
use flexplane.Base.Table.{update}
use flexplane.Tsq.Sched.{Kernel, TimeslotSkbQ, TsqDst, TsqSchedData, lock_table}
use flexplane.Tsq.Handle.{renumber, reset_looked, tsq_reset_ids}
use flexplane.Tsq.Inv.{AreSlots, IsCredit, slots, IsValid}
use flexplane.Tsq.Inv.Slots.{packets}
use flexplane.Tsq.Inv.Enqueued.{put-IsTable, slots_put}
use flexplane.Tsq.Inv.Handled.{there_if_slots, lookup_found}

-- Consecutive 16-bit ids.
abbrev pub AreNumbered : List TimeslotSkbQ → ℕ → Type 0
AreNumbered [] id = Unit
AreNumbered (t ∷ ts) id = (t.id ≡ id) × AreNumbered ts (u16 (id + 1))

renumber-AreSlots :
    (kernel : Kernel) (len : ℕ) (ts : List TimeslotSkbQ) (id : ℕ)
    → AreSlots kernel len ts
    → AreSlots kernel len (renumber ts id).0
unfolding renumber
renumber-AreSlots kernel len [] id v = tt
renumber-AreSlots kernel len (t ∷ ts) id v = (
  record { some_skb = v.0.some_skb; fits = v.0.fits; bounded = v.0.bounded },
  renumber-AreSlots kernel len ts (u16 (id + 1)) v.1,
)

renumber-IsCredit :
    (kernel : Kernel) (len : ℕ) (ts : List TimeslotSkbQ) (id credit : ℕ)
    → IsCredit kernel len ts credit
    → IsCredit kernel len (renumber ts id).0 credit
unfolding renumber
renumber-IsCredit kernel len [] id credit c = c
renumber-IsCredit kernel len (t ∷ []) id credit c = c
renumber-IsCredit kernel len (t ∷ t' ∷ ts) id credit c =
    renumber-IsCredit kernel len (t' ∷ ts) (u16 (id + 1)) credit c

renumber_kept :
    (ts : List TimeslotSkbQ) (id : ℕ)
    → (length (renumber ts id).0 ≡ length ts)
      × (packets (renumber ts id).0 ≡ packets ts)
      × AreNumbered (renumber ts id).0 id
unfolding renumber
renumber_kept [] id = (refl, refl, tt)
renumber_kept (t ∷ ts) id =
    let (len, same, ids) = renumber_kept ts (u16 (id + 1)) in
    (ap suc len, ap (λ l. t.skbs ++ l) same, (refl, ids))

-- The timeslots of a key have new ids.
pub record IsRenumbered (kernel : Kernel) (q : TsqSchedData) (key : ℕ) (q' : TsqSchedData)
    : Type 0 where
  pub valid : IsValid kernel q'
  pub others : (k : ℕ) → (key == k) ≡ false → slots kernel q' k ≡ slots kernel q k
  pub same_length : length (slots kernel q' key) ≡ length (slots kernel q key)
  pub same_packets : packets (slots kernel q' key) ≡ packets (slots kernel q key)
  pub ids : AreNumbered (slots kernel q' key) 0
  pub queues : (q'.prequeue ≡ q.prequeue) × (q'.added ≡ q.added)

-- For a key with timeslots in a valid state, `tsq_reset_ids` fires no bug and keeps the state
-- valid. It numbers the timeslots of the key from 0 on and leaves their packets, the timeslots of
-- other keys and the packets to send as they are.
pub tsq_reset_ids_lem :
    (kernel : Kernel) (q : TsqSchedData) (key : ℕ) (t : TimeslotSkbQ) (ts : List TimeslotSkbQ)
    → IsValid kernel q
    → slots kernel q key ≡ t ∷ ts
    → (q' : TsqSchedData) × (tsq_reset_ids kernel q key ≡ ok q') × IsRenumbered kernel q key q'
unfolding tsq_reset_ids lock_table reset_looked
tsq_reset_ids_lem kernel q key t ts v e =
    let (there, at) = there_if_slots kernel q key t ts e in
    let locked : TsqSchedData = record q { hash_tbl_locked = true } in
    let old = q.dsts key in
    let is = v.table.flows key there in
    let numbered = renumber old.skb_qs 0 in
    let kept = renumber_kept old.skb_qs 0 in
    let d : TsqDst = record old { skb_qs = numbered.0; next_id = numbered.1 } in
    let stored = put-IsTable kernel q key d v.table (record {
      slots = renumber-AreSlots kernel q.tslot_len_approx old.skb_qs 0 is.slots;
      credit = renumber-IsCredit kernel q.tslot_len_approx old.skb_qs 0 old.credit is.credit;
    }) in
    let at_k = slots_put kernel q key d there in
    let here : slots kernel (record q { dsts = update q.dsts key d }) key ≡ numbered.0 =
      at_k key ∙ rw (==-refl key) refl in
    let before = at ∙ sym e in
    (
      record q { dsts = update q.dsts key d; hash_tbl_locked = false },
      rw (v.unlocked, lookup_found kernel locked key there) refl,
      record {
        valid = record {
          unlocked = refl;
          table = record {
            len_small = v.table.len_small;
            ordered = v.table.ordered;
            flows = stored.flows;
          };
        };
        others = λ k other. at_k k ∙ rw other refl;
        same_length = ap length here ∙ kept.0 ∙ ap length before;
        same_packets = ap packets here ∙ kept.1 ∙ ap packets before;
        ids = subst (λ (l : List TimeslotSkbQ). AreNumbered l 0) (sym here) kept.2;
        queues = (refl, refl);
      },
    )
