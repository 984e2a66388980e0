-- ===== src/Tsq/Inv/Handled.antt =====
-- kernel-mod/sch_timeslot.c: tsq_handle_now and tsq_reset_ids.
use flexplane.Base.{
  ℕ, ◌<◌, ◌≡◌, inl, inr, refl, sym, ap, ◌∙◌, ◌==◌, Bool, true, false, if◌then◌else◌, Bool-cases,
  List, [], ◌∷◌, ◌++◌, length, arith,
}
use flexplane.Base.Checked.{Checked, ok, bug, ◌>>=◌}
use flexplane.Base.Table.{update}
use mathlib.Core.Path.{subst}
use flexplane.Protocol.Conn.{inc}
use flexplane.Tsq.Packet.{SkBuff}
use flexplane.Tsq.Sched.{
  Kernel, TimeslotSkbQ, TsqDst, TsqSchedData, lock_table, unlock_table, skb_q_append, dst_lookup,
}
use flexplane.Tsq.Enqueue.{enqueue_single_skb}
use flexplane.Tsq.Handle.{
  Action, admit_head, take_head, take_timeslot, count_action, perform, unlink, handle_looked,
  tsq_handle_now,
}
use flexplane.Tsq.Inv.{AreSlots, IsCredit, present, slots, IsDst, IsTable, IsValid}
use flexplane.Tsq.Inv.Enqueued.{put-IsTable, slots_put}

-- A key with timeslots has a flow.
pub there_if_slots :
    (kernel : Kernel) (q : TsqSchedData) (key : ℕ) (t : TimeslotSkbQ) (ts : List TimeslotSkbQ)
    → slots kernel q key ≡ t ∷ ts
    → (present kernel q key ≡ true) × ((q.dsts key).skb_qs ≡ t ∷ ts)
there_if_slots kernel q key t ts e = elim (Bool-cases (present kernel q key)) [
  | inl there ↦ (there, rw (← e, there) refl)
  | inr absent ↦
      absurd (some_slots ts (ap (λ b. if b then (q.dsts key).skb_qs else []) (sym absent) ∙ e))
]
  where
    some_slots : (ts : List TimeslotSkbQ) {t : TimeslotSkbQ} → [] ≡ t ∷ ts → ⊥
    some_slots ts e = cc

-- The flow without its oldest timeslot.
abbrev shorter : TsqDst → List TimeslotSkbQ → TsqDst
shorter d [] = record d { skb_qs = []; credit = 0 }
shorter d (t ∷ ts) = record d { skb_qs = t ∷ ts }

shorter-IsDst :
    (kernel : Kernel) (len : ℕ) (d : TsqDst) (t : TimeslotSkbQ) (ts : List TimeslotSkbQ)
    → d.skb_qs ≡ t ∷ ts
    → IsDst kernel len d
    → IsDst kernel len (shorter d ts)
shorter-IsDst kernel len d t ts e is =
    go kernel len d t ts (subst (AreSlots kernel len) e is.slots)
      (subst (λ (l : List TimeslotSkbQ). IsCredit kernel len l d.credit) e is.credit)
  where
    go :
        (kernel : Kernel) (len : ℕ) (d : TsqDst) (t : TimeslotSkbQ) (ts : List TimeslotSkbQ)
        → AreSlots kernel len (t ∷ ts)
        → IsCredit kernel len (t ∷ ts) d.credit
        → IsDst kernel len (shorter d ts)
    go kernel len d t [] v c = record { slots = tt; credit = refl }
    go kernel len d t (u ∷ us) v c = record { slots = v.1; credit = c }

-- The oldest timeslot of a key is ready to be sent.
pub record IsAdmitted (kernel : Kernel) (q : TsqSchedData) (key : ℕ) (t : TimeslotSkbQ)
    (ts : List TimeslotSkbQ) (q' : TsqSchedData) : Type 0 where
  pub valid : IsValid kernel q'
  pub slots_left : (k : ℕ) → slots kernel q' k ≡ (if key == k then ts else slots kernel q k)
  pub ready : q'.prequeue ≡ q.prequeue ++ t.skbs
  pub added : q'.added ≡ q.added

append_some :
    (queue skbs : List SkBuff) → 0 < length skbs → skb_q_append queue skbs ≡ ok (queue ++ skbs)
unfolding skb_q_append
append_some queue [] some = absurd (omega (arith, some))
append_some queue (skb ∷ skbs) some = refl

unlinked_dsts :
    (q : TsqSchedData) (key : ℕ) (ts : List TimeslotSkbQ)
    → (unlink q key ts).dsts ≡ update q.dsts key (shorter (q.dsts key) ts)
unfolding unlink
unlinked_dsts q key [] = refl
unlinked_dsts q key (t ∷ ts) = refl

unlink-IsTable :
    (kernel : Kernel) (q : TsqSchedData) (key : ℕ) (ts : List TimeslotSkbQ)
    → IsTable kernel (record q { dsts = update q.dsts key (shorter (q.dsts key) ts) })
    → IsTable kernel (unlink q key ts)
unfolding unlink
unlink-IsTable kernel q key [] v = record {
  len_small = v.len_small;
  ordered = v.ordered;
  flows = v.flows;
}
unlink-IsTable kernel q key (t ∷ ts) v = record {
  len_small = v.len_small;
  ordered = v.ordered;
  flows = v.flows;
}

unlink_slots :
    (kernel : Kernel) (q : TsqSchedData) (key : ℕ) (ts : List TimeslotSkbQ)
    → present kernel q key ≡ true
    → (k : ℕ) → slots kernel (unlink q key ts) k ≡ (if key == k then ts else slots kernel q k)
unfolding unlink
unlink_slots kernel q key [] there k = slots_put kernel q key (shorter (q.dsts key) []) there k
unlink_slots kernel q key (t ∷ ts) there k =
    slots_put kernel q key (shorter (q.dsts key) (t ∷ ts)) there k

unlink_queues :
    (q : TsqSchedData) (key : ℕ) (ts : List TimeslotSkbQ)
    → ((unlink q key ts).prequeue ≡ q.prequeue) × ((unlink q key ts).added ≡ q.added)
unfolding unlink
unlink_queues q key [] = (refl, refl)
unlink_queues q key (t ∷ ts) = (refl, refl)

-- The packets of a timeslot in a state where they are admitted.
abbrev admitted : TsqSchedData → List SkBuff → TsqSchedData
admitted u skbs = record u {
  stat = record u.stat { used_timeslots = inc u.stat.used_timeslots };
  hash_tbl_locked = false;
  prequeue = u.prequeue ++ skbs;
}

perform_admit :
    (prepare_to_send : SkBuff → SkBuff) (u : TsqSchedData) (skbs : List SkBuff)
    → 0 < length skbs
    → perform admit_head prepare_to_send (unlock_table (count_action admit_head u)) skbs
      ≡ ok (admitted u skbs)
unfolding perform count_action
perform_admit prepare_to_send u skbs some = rw (append_some u.prequeue skbs some) refl

pub lookup_found :
    (kernel : Kernel) (q : TsqSchedData) (key : ℕ)
    → present kernel q key ≡ true
    → dst_lookup kernel q key false true ≡ (true, q)
unfolding dst_lookup
lookup_found kernel q key there = rw there refl

lookup_absent :
    (kernel : Kernel) (q : TsqSchedData) (key : ℕ)
    → present kernel q key ≡ false
    → dst_lookup kernel q key false true ≡ (false, q)
unfolding dst_lookup
lookup_absent kernel q key absent = rw absent refl

handle_found :
    (kernel : Kernel) (prepare_to_send : SkBuff → SkBuff) (q : TsqSchedData) (key id : ℕ)
    (t : TimeslotSkbQ) (ts : List TimeslotSkbQ)
    → q.hash_tbl_locked ≡ false
    → present kernel q key ≡ true
    → (q.dsts key).skb_qs ≡ t ∷ ts
    → tsq_handle_now kernel prepare_to_send q key admit_head id ≡ (
        perform admit_head prepare_to_send
          (unlock_table
            (count_action admit_head (unlink (record q { hash_tbl_locked = true }) key ts)))
          t.skbs
        >>= λ q'. ok (1, q'))
unfolding tsq_handle_now lock_table handle_looked take_timeslot take_head
handle_found kernel prepare_to_send q key id t ts unlocked there at =
    rw (unlocked, lookup_found kernel (record q { hash_tbl_locked = true }) key there, at) refl

-- For a key with timeslots in a valid state, `tsq_handle_now` admits the oldest one: it fires no
-- bug and returns 1, appends the packets of the timeslot to those ready to be sent, leaves the
-- other timeslots in order, and keeps the state valid.
pub tsq_handle_now_lem :
    (kernel : Kernel) (prepare_to_send : SkBuff → SkBuff) (q : TsqSchedData) (key id : ℕ)
    (t : TimeslotSkbQ) (ts : List TimeslotSkbQ)
    → IsValid kernel q
    → slots kernel q key ≡ t ∷ ts
    → (q' : TsqSchedData) × (tsq_handle_now kernel prepare_to_send q key admit_head id ≡ ok (1, q'))
      × IsAdmitted kernel q key t ts q'
tsq_handle_now_lem kernel prepare_to_send q key id t ts v e =
    let (there, at) = there_if_slots kernel q key t ts e in
    let q0 : TsqSchedData = record q { hash_tbl_locked = true } in
    let is = v.table.flows key there in
    let first : AreSlots kernel q.tslot_len_approx (t ∷ ts) =
      subst (AreSlots kernel q.tslot_len_approx) at is.slots in
    let u = unlink q0 key ts in
    let stored = unlink-IsTable kernel q0 key ts (
      put-IsTable kernel q0 key (shorter (q.dsts key) ts)
        (record { len_small = v.table.len_small; ordered = v.table.ordered; flows = v.table.flows })
        (shorter-IsDst kernel q.tslot_len_approx (q.dsts key) t ts at is)) in
    let queues = unlink_queues q0 key ts in
    (
      admitted u t.skbs,
      handle_found kernel prepare_to_send q key id t ts v.unlocked there at
          ∙ ap (λ (r : Checked TsqSchedData). r >>= λ q'. ok (1, q'))
              (perform_admit prepare_to_send u t.skbs first.0.some_skb),
      record {
        valid = record {
          unlocked = refl;
          table = record {
            len_small = stored.len_small;
            ordered = stored.ordered;
            flows = stored.flows;
          };
        };
        slots_left = unlink_slots kernel q0 key ts there;
        ready = ap (λ l. l ++ t.skbs) queues.0;
        added = queues.1;
      },
    )

-- A lock that is held stops every operation on the flows.
locked_enqueue :
    (kernel : Kernel) (q : TsqSchedData) (skb : SkBuff) (dst_allocated q_allocated : Bool)
    → q.hash_tbl_locked ≡ true
    → enqueue_single_skb kernel q skb dst_allocated q_allocated ≡ bug
unfolding enqueue_single_skb lock_table
locked_enqueue kernel q skb dst_allocated q_allocated e = rw e refl

locked_handle :
    (kernel : Kernel) (prepare_to_send : SkBuff → SkBuff) (q : TsqSchedData) (key : ℕ)
    (action : Action) (id : ℕ)
    → q.hash_tbl_locked ≡ true
    → tsq_handle_now kernel prepare_to_send q key action id ≡ bug
unfolding tsq_handle_now lock_table
locked_handle kernel prepare_to_send q key action id e = rw e refl

no_slots_handled :
    (kernel : Kernel) (prepare_to_send : SkBuff → SkBuff) (q : TsqSchedData) (key : ℕ)
    (action : Action) (id : ℕ)
    → q.hash_tbl_locked ≡ false
    → slots kernel q key ≡ []
    → (q' : TsqSchedData) × (tsq_handle_now kernel prepare_to_send q key action id ≡ ok (0, q'))
      × (q'.hash_tbl_locked ≡ true)
unfolding tsq_handle_now lock_table handle_looked
no_slots_handled kernel prepare_to_send q key action id unlocked e =
    let locked : TsqSchedData = record q { hash_tbl_locked = true } in
    elim (Bool-cases (present kernel q key)) [
      | inl there ↦
          let at : (q.dsts key).skb_qs ≡ [] =
            ap (λ b. if b then (q.dsts key).skb_qs else []) (sym there) ∙ e in
          (
            record locked { stat = record q.stat { unwanted_alloc = inc q.stat.unwanted_alloc } },
            rw (unlocked, lookup_found kernel locked key there, at) refl,
            refl,
          )
      | inr absent ↦ (
        record locked {
          stat = record q.stat { dst_not_found_handle_now = inc q.stat.dst_not_found_handle_now };
        },
        rw (unlocked, lookup_absent kernel locked key absent) refl,
        refl,
      )
    ]

-- For a key without timeslots, `tsq_handle_now` returns 0 with the table locked: after it every
-- `enqueue_single_skb` and every `tsq_handle_now` waits for the lock for ever.
pub tsq_handle_now_stuck :
    (kernel : Kernel) (prepare_to_send : SkBuff → SkBuff) (q : TsqSchedData) (key : ℕ)
    (action : Action) (id : ℕ)
    → q.hash_tbl_locked ≡ false
    → slots kernel q key ≡ []
    → (q' : TsqSchedData) × (tsq_handle_now kernel prepare_to_send q key action id ≡ ok (0, q'))
      × ((skb : SkBuff) (dst_allocated q_allocated : Bool)
          → enqueue_single_skb kernel q' skb dst_allocated q_allocated ≡ bug)
      × ((key' : ℕ) (action' : Action) (id' : ℕ)
          → tsq_handle_now kernel prepare_to_send q' key' action' id' ≡ bug)
tsq_handle_now_stuck kernel prepare_to_send q key action id unlocked e =
    let (q', done, locked) = no_slots_handled kernel prepare_to_send q key action id unlocked e in
    (
      q',
      done,
      λ skb d s. locked_enqueue kernel q' skb d s locked,
      λ key' action' id'. locked_handle kernel prepare_to_send q' key' action' id' locked,
    )
