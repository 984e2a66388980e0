-- ===== src/Host/Allocs.antt =====
-- An endpoint with its packet queues: the allocations of the arbiter.
use flexplane.Base.{
  ℕ, ◌+◌, ◌-◌, ◌/◌, ◌<◌, ◌≡◌, inl, inr, refl, sym, ap, ◌∙◌, true, false, ◌==◌, ltb, if◌then◌else◌,
  Bool-cases, List, [], ◌∷◌, ◌++◌, length, length-append, append_assoc, get_or, arith,
}
use mathlib.Core.Path.{subst}
use flexplane.Base.Checked.{ok}
use flexplane.Endpoint.Sched.{FpDst, admit_head, FpSchedData, flow_inc_used, trigger_tx}
use flexplane.Endpoint.Alloc.{handle_single_alloc, admit_timeslot, admit_timeslots, handle_alloc}
use flexplane.Endpoint.Inv
use flexplane.Endpoint.Inv.Allocs.{served, admit_timeslot-Serves}
use flexplane.Tsq.Packet.{SkBuff}
use flexplane.Tsq.Sched.{Kernel, TimeslotSkbQ, TsqSchedData}
use flexplane.Tsq.Inv.{slots}
use flexplane.Tsq.Inv.Handled.{tsq_handle_now_lem}
use flexplane.Host.Step.{Host, run_call, no_calls, host_alloc}
use flexplane.Host.Calls.{IsInStep, IsRun, no-IsRun, one-IsRun, chain-IsRun, settle_runs}

-- The oldest timeslots of each flow are sent, as many as the endpoint counts as used.
pub record IsServed (kernel : Kernel) (fp : FpSchedData) (q : TsqSchedData) (fp' : FpSchedData)
    (q' : TsqSchedData) : Type 0 where
  pub in_step : IsInStep kernel fp' q'
  pub oldest :
      (k : ℕ)
      → k < 256
      → (taken : List TimeslotSkbQ) × (slots kernel q k ≡ taken ++ slots kernel q' k)
        × ((fp'.dsts k).used_tslots ≡ (fp.dsts k).used_tslots + length taken)

served_fields :
    (fp : FpSchedData) (k n : ℕ)
    → ((served (fp.dsts k) n).demand_tslots ≡ (fp.dsts k).demand_tslots)
unfolding served
served_fields fp k n = refl

-- An admitted timeslot of a flow with some pending.
served_one_used :
    (fp : FpSchedData) (k : ℕ)
    → (fp.dsts k).used_tslots < (fp.dsts k).demand_tslots
    → (served (fp.dsts k) 1).used_tslots ≡ (fp.dsts k).used_tslots + 1
unfolding served
served_one_used fp k lt = ground arith

served_none_used :
    (fp : FpSchedData) (k : ℕ)
    → Inv.IsValid fp
    → k < 256
    → (served (fp.dsts k) 0).used_tslots ≡ (fp.dsts k).used_tslots
unfolding served
served_none_used fp k v lt = ground (arith, (v.flows k lt).used_le)

pub no_service :
    (kernel : Kernel) (fp : FpSchedData) (q : TsqSchedData)
    → IsInStep kernel fp q
    → IsServed kernel fp q fp q
no_service kernel fp q s = record { in_step = s; oldest = λ k lt. ([], refl, omega arith) }

chain-IsServed :
    (kernel : Kernel) (fp fp1 fp2 : FpSchedData) (q q1 q2 : TsqSchedData)
    → IsServed kernel fp q fp1 q1
    → IsServed kernel fp1 q1 fp2 q2
    → IsServed kernel fp q fp2 q2
chain-IsServed kernel fp fp1 fp2 q q1 q2 x y = record {
  in_step = y.in_step;
  oldest = λ k lt.
      let (a, sa, ua) = x.oldest k lt in
      let (b, sb, ub) = y.oldest k lt in
      (
        a ++ b,
        sa ∙ ap (λ l. a ++ l) sb ∙ sym (append_assoc a b (slots kernel q2 k)),
        omega (arith, ua, ub, length-append a b),
      );
}

-- The call of an admitted timeslot.
admit_calls :
    (fp : FpSchedData) (id full_tslot current_timeslot : ℕ)
    → ((fp.dsts id).used_tslots == (fp.dsts id).demand_tslots) ≡ false
    → (admit_timeslot fp id full_tslot current_timeslot).calls ≡ fp.calls ++ admit_head id ∷ []
unfolding admit_timeslot flow_inc_used handle_single_alloc
admit_calls fp id full_tslot current_timeslot more = rw more refl

admit_full :
    (fp : FpSchedData) (id full_tslot current_timeslot : ℕ)
    → ((fp.dsts id).used_tslots == (fp.dsts id).demand_tslots) ≡ true
    → ((admit_timeslot fp id full_tslot current_timeslot).calls ≡ fp.calls)
      × ((admit_timeslot fp id full_tslot current_timeslot).dsts ≡ fp.dsts)
unfolding admit_timeslot
admit_full fp id full_tslot current_timeslot full = rw full (refl, refl)

pub some_waiting :
    (ts : List TimeslotSkbQ)
    → 0 < length ts
    → (t : TimeslotSkbQ) × (rest : List TimeslotSkbQ) × (ts ≡ t ∷ rest)
some_waiting [] some = absurd (omega (arith, some))
some_waiting (t ∷ rest) some = (t, rest, refl)

-- Each flow after one timeslot at the endpoint and at the queues.
one_served :
    (kernel : Kernel) (fp : FpSchedData) (q : TsqSchedData) (fp' : FpSchedData) (q' : TsqSchedData)
    (id : ℕ) (t : TimeslotSkbQ) (ts : List TimeslotSkbQ)
    → IsInStep kernel fp q
    → (fp.dsts id).used_tslots < (fp.dsts id).demand_tslots
    → slots kernel q id ≡ t ∷ ts
    → (k : ℕ) → k < 256
    → fp'.dsts k ≡ served (fp.dsts k) (if id == k then 1 else 0)
    → slots kernel q' k ≡ (if id == k then ts else slots kernel q k)
    → ((fp'.dsts k).demand_tslots ≡ (fp'.dsts k).used_tslots + length (slots kernel q' k))
      × ((taken : List TimeslotSkbQ) × (slots kernel q k ≡ taken ++ slots kernel q' k)
          × ((fp'.dsts k).used_tslots ≡ (fp.dsts k).used_tslots + length taken))
one_served kernel fp q fp' q' id t ts s less e k lt is left = elim (Bool-cases (id == k)) [
  | inl same ↦
      let eq : id ≡ k = ground arith in
      let less_k = subst (λ (j : ℕ). (fp.dsts j).used_tslots < (fp.dsts j).demand_tslots) eq less in
      let e_k : slots kernel q k ≡ t ∷ ts = ap (slots kernel q) (sym eq) ∙ e in
      let is' : fp'.dsts k ≡ served (fp.dsts k) 1 = is ∙ rw same refl in
      let left' : slots kernel q' k ≡ ts = left ∙ rw same refl in
      let used = ap (λ (d : FpDst). d.used_tslots) is' ∙ served_one_used fp k less_k in
      let demand = ap (λ (d : FpDst). d.demand_tslots) is' ∙ served_fields fp k 1 in
      (
        omega (arith, used, demand, s.pending k lt, ap length e_k, ap length left'),
        (t ∷ [], e_k ∙ ap (λ l. t ∷ l) (sym left'), used),
      )
  | inr other ↦
      let is' : fp'.dsts k ≡ served (fp.dsts k) 0 = is ∙ rw other refl in
      let left' : slots kernel q' k ≡ slots kernel q k = left ∙ rw other refl in
      let used = ap (λ (d : FpDst). d.used_tslots) is' ∙ served_none_used fp k s.endpoint lt in
      let demand = ap (λ (d : FpDst). d.demand_tslots) is' ∙ served_fields fp k 0 in
      (
        omega (arith, used, demand, s.pending k lt, ap length left'),
        ([], sym left', omega (arith, used)),
      )
]

-- One timeslot at the endpoint and at the queues.
admit_timeslot_runs :
    (kernel : Kernel) (prepare_to_send : SkBuff → SkBuff) (fp : FpSchedData) (q : TsqSchedData)
    (id full_tslot current_timeslot : ℕ)
    → IsInStep kernel fp q
    → id < 256
    → (q' : TsqSchedData) × IsRun kernel prepare_to_send fp q
        (admit_timeslot fp id full_tslot current_timeslot)
        q'
      × IsServed kernel fp q (admit_timeslot fp id full_tslot current_timeslot) q'
unfolding run_call
admit_timeslot_runs kernel prepare_to_send fp q id full_tslot current_timeslot s small =
    let fp' = admit_timeslot fp id full_tslot current_timeslot in
    let serves = admit_timeslot-Serves fp id full_tslot current_timeslot s.endpoint small in
    elim (Bool-cases ((fp.dsts id).used_tslots == (fp.dsts id).demand_tslots)) [
      | inl full ↦
          let same = admit_full fp id full_tslot current_timeslot full in
          (
            q,
            no-IsRun kernel prepare_to_send fp fp' q same.0,
            record {
              in_step = record {
                endpoint = serves.0;
                queues = s.queues;
                pending = λ k lt. rw (same.1) (s.pending k lt);
              };
              oldest = λ k lt. ([], refl, rw (same.1) (omega arith));
            },
          )
      | inr more ↦
          let less : (fp.dsts id).used_tslots < (fp.dsts id).demand_tslots =
            ground (arith, (s.endpoint.flows id small).used_le) in
          let (t, ts, e) =
            some_waiting (slots kernel q id) (omega (arith, s.pending id small, less)) in
          let (q', done, a) = tsq_handle_now_lem kernel prepare_to_send q id 0 t ts s.queues e in
          let calls = admit_calls fp id full_tslot current_timeslot more in
          (
            q',
            one-IsRun kernel prepare_to_send fp fp' q q' (admit_head id) calls (rw done refl),
            record {
              in_step = record {
                endpoint = serves.0;
                queues = a.valid;
                pending = λ k lt.
                    (one_served kernel fp q fp' q' id t ts s less e k lt (serves.1 k lt)
                      (a.slots_left k)).0;
              };
              oldest = λ k lt.
                  (one_served kernel fp q fp' q' id t ts s less e k lt (serves.1 k lt)
                    (a.slots_left k)).1;
            },
          )
    ]

admit_timeslots_runs :
    (kernel : Kernel) (prepare_to_send : SkBuff → SkBuff) (tslots : List ℕ) (fp : FpSchedData)
    (q : TsqSchedData) (dst_ids : List ℕ) (n_dst full_tslot current_timeslot : ℕ)
    → IsInStep kernel fp q
    → ((i : ℕ) → get_or dst_ids i 0 < 256)
    → (q' : TsqSchedData) × IsRun kernel prepare_to_send fp q
        (admit_timeslots tslots fp dst_ids n_dst full_tslot current_timeslot)
        q'
      × IsServed kernel fp q
          (admit_timeslots tslots fp dst_ids n_dst full_tslot current_timeslot)
          q'
unfolding admit_timeslots
admit_timeslots_runs kernel p [] fp q dst_ids n_dst full_tslot current_timeslot s known =
    (q, no-IsRun kernel p fp fp q refl, no_service kernel fp q s)
admit_timeslots_runs kernel p (spec ∷ tslots) fp q dst_ids n_dst full_tslot current_timeslot s
      known =
    elim (Bool-cases (ltb n_dst (spec / 16))) [
      | inl illegal ↦ rw illegal (q, no-IsRun kernel p fp fp q refl, no_service kernel fp q s)
      | inr legal ↦ elim (Bool-cases (spec / 16 == 0)) [
        | inl skip ↦
            rw (legal, skip)
              (admit_timeslots_runs kernel p tslots fp q dst_ids n_dst full_tslot current_timeslot s
                known)
        | inr real ↦
            let id = get_or dst_ids (spec / 16 - 1) 0 in
            let fp1 = admit_timeslot fp id full_tslot current_timeslot in
            let (q1, ran1, served1) =
              admit_timeslot_runs kernel p fp q id full_tslot current_timeslot s
                (known (spec / 16 - 1)) in
            let (q2, ran2, served2) =
              admit_timeslots_runs kernel p tslots fp1 q1 dst_ids n_dst full_tslot current_timeslot
                served1.in_step known in
            let fp2 = admit_timeslots tslots fp1 dst_ids n_dst full_tslot current_timeslot in
            rw (legal, real)
              (
                q2,
                chain-IsRun kernel p fp fp1 fp2 q q1 q2 ran1 ran2,
                chain-IsServed kernel fp fp1 fp2 q q1 q2 served1 served2,
              )
      ]
    ]

-- Where an endpoint and its queues agree on what is pending and all destinations are flows, an
-- ALLOC fires no bug: no timeslot is admitted for which no packets wait. The endpoint and its
-- queues then agree again, and the queues have given up the oldest timeslots of each flow, as many
-- as the endpoint has newly used.
pub host_alloc_lem :
    (kernel : Kernel) (prepare_to_send : SkBuff → SkBuff) (h : Host) (base_tslot : ℕ)
    (dst_ids : List ℕ) (n_dst : ℕ) (tslots : List ℕ) (now_real now : ℕ)
    → IsInStep kernel h.fp h.tsq
    → ((i : ℕ) → get_or dst_ids i 0 < 256)
    → (h' : Host) × (host_alloc kernel prepare_to_send h base_tslot dst_ids n_dst tslots now_real
          now
        ≡ ok h')
      × IsServed kernel h.fp h.tsq h'.fp h'.tsq
unfolding host_alloc handle_alloc trigger_tx
host_alloc_lem kernel p h base_tslot dst_ids n_dst tslots now_real now s known =
    let fp = (trigger_tx (no_calls h.fp) now).1 in
    let (q', ran, served) =
      admit_timeslots_runs kernel p tslots fp h.tsq dst_ids n_dst _ _
        (record { endpoint = s.endpoint; queues = s.queues; pending = s.pending }) known in
    (
      record {
        fp = handle_alloc (no_calls h.fp) base_tslot dst_ids n_dst tslots now_real now;
        tsq = q';
      },
      settle_runs kernel p fp
          (handle_alloc (no_calls h.fp) base_tslot dst_ids n_dst tslots now_real now) h.tsq q' refl
          (record { made = ran.made; calls = ran.calls; ran = ran.ran }),
      record { in_step = served.in_step; oldest = served.oldest },
    )
