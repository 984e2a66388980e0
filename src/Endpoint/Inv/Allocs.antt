-- ===== src/Endpoint/Inv/Allocs.antt =====
-- kernel-mod/sch_fastpass.c: handle_alloc.
use flexplane.Base.{
  ℕ, ◌+◌, ◌-◌, ◌/◌, ◌<◌, ◌≡◌, refl, true, false, not, ◌&&◌, ◌==◌, ltb, if◌then◌else◌, Bool-cases,
  inl, inr, arith, sym, ap, ◌∙◌, ==-refl, add64, List, [], ◌∷◌, get_or,
}
use mathlib.Core.Path.{subst}
use flexplane.Base.Table.{update, update_lem, update-update}
use flexplane.Endpoint.Sched.{FpDst, FpSchedData, flow_inc_used}
use flexplane.Endpoint.Alloc.{handle_single_alloc, admit_timeslot}
use flexplane.Endpoint.Inv.{IsFlow, IsValid, put-IsValid}

-- The flow with `n` timeslots more, as far as it has a use for them.
unfoldable pub served : FpDst → ℕ → FpDst
served d n =
    let used =
      if ltb d.demand_tslots (d.used_tslots + n) then d.demand_tslots else d.used_tslots + n in
    record d { used_tslots = used; alloc_tslots = used }

-- The timeslots for a flow, up to the first index of no destination.
abbrev pub granted : List ℕ → List ℕ → ℕ → ℕ → ℕ
granted [] dst_ids n_dst k = 0
granted (spec ∷ tslots) dst_ids n_dst k =
    if ltb n_dst (spec / 16)
    then 0
    else (if not (spec / 16 == 0) && (get_or dst_ids (spec / 16 - 1) 0 == k) then 1 else 0)
      + granted tslots dst_ids n_dst k

served_none : (d : FpDst) → IsFlow d → served d 0 ≡ d
unfolding served
served_none d f = ground (arith, f.alloc_eq, f.used_le)

served-IsFlow : (d : FpDst) (n : ℕ) → IsFlow d → IsFlow (served d n)
unfolding served
served-IsFlow d n f = record {
  used_le = ground (arith, f.used_le);
  alloc_eq = refl;
  acked_le = f.acked_le;
  requested_le = f.requested_le;
  demand_small = f.demand_small;
  in_window = f.in_window;
  remembered = f.remembered;
}

served_full :
    (d : FpDst) (n : ℕ) → IsFlow d → (d.used_tslots == d.demand_tslots) ≡ true → d ≡ served d n
unfolding served
served_full d n f full = ground (arith, f.alloc_eq, f.used_le)

served_one :
    (d : FpDst)
    → IsFlow d
    → (d.used_tslots == d.demand_tslots) ≡ false
    → record d { used_tslots = add64 d.used_tslots 1; alloc_tslots = add64 d.alloc_tslots 1 }
      ≡ served d 1
unfolding served
served_one d f more = ground (arith, f.alloc_eq, f.used_le, f.demand_small)

-- One flow gets a timeslot, and the others stay.
served_at :
    (q : FpSchedData) (id : ℕ) (d : FpDst)
    → IsValid q
    → d ≡ served (q.dsts id) 1
    → (k : ℕ) → k < 256
    → update q.dsts id d k ≡ served (q.dsts k) (if id == k then 1 else 0)
served_at q id d v is k lt = elim (Bool-cases (id == k)) [
  | inl same ↦
      let eq : id ≡ k = ground arith in
      rw (update_lem q.dsts id k d, same) (is ∙ ap (λ (j : ℕ). served (q.dsts j) 1) eq)
  | inr other ↦ rw (update_lem q.dsts id k d, other) (sym (served_none (q.dsts k) (v.flows k lt)))
]

-- A flow that needs no timeslot gets none.
unserved :
    (q : FpSchedData) (id : ℕ)
    → IsValid q
    → ((q.dsts id).used_tslots == (q.dsts id).demand_tslots) ≡ true
    → (k : ℕ) → k < 256
    → q.dsts k ≡ served (q.dsts k) (if id == k then 1 else 0)
unserved q id v full k lt = elim (Bool-cases (id == k)) [
  | inl same ↦
      let eq : id ≡ k = ground arith in
      let full_k =
        subst (λ (j : ℕ). ((q.dsts j).used_tslots == (q.dsts j).demand_tslots) ≡ true) eq full in
      rw same (served_full (q.dsts k) 1 (v.flows k lt) full_k)
  | inr other ↦ rw other (sym (served_none (q.dsts k) (v.flows k lt)))
]

-- A step that serves flows and touches neither the queue nor other counters of a flow.
abbrev pub Serves : FpSchedData → (ℕ → ℕ) → FpSchedData → Type 0
Serves q n q' = IsValid q' × ((k : ℕ) → k < 256 → q'.dsts k ≡ served (q.dsts k) (n k))

pub admit_timeslot-Serves :
    (q : FpSchedData) (id full_tslot current_timeslot : ℕ)
    → IsValid q
    → id < 256
    → Serves q (λ k. if id == k then 1 else 0) (admit_timeslot q id full_tslot current_timeslot)
unfolding admit_timeslot flow_inc_used handle_single_alloc
admit_timeslot-Serves q id full_tslot current_timeslot v small =
    let dst = q.dsts id in
    let f = v.flows id small in
    elim (Bool-cases (dst.used_tslots == dst.demand_tslots)) [
      | inl full ↦ rw full (v, unserved q id v full)
      | inr more ↦
          let used : FpDst = record dst { used_tslots = add64 dst.used_tslots 1 } in
          let both : FpDst = record used { alloc_tslots = add64 dst.alloc_tslots 1 } in
          let one : both ≡ served dst 1 = served_one dst f more in
          let stored : update q.dsts id used id ≡ used =
            rw (update_lem q.dsts id id used, ==-refl id) refl in
          rw (more, stored, update-update q.dsts id used both)
            (
              put-IsValid q id both v refl (rw one (served-IsFlow dst 1 f)),
              served_at q id both v one,
            )
    ]

-- Whom one timeslot is for.
abbrev whom : ℕ → List ℕ → ℕ → ℕ
whom spec dst_ids k =
    if not (spec / 16 == 0) && (get_or dst_ids (spec / 16 - 1) 0 == k) then 1 else 0
