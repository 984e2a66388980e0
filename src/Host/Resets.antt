-- ===== src/Host/Resets.antt =====
-- An endpoint with its packet queues: resets.
use flexplane.Base.{
  ℕ, zero, suc, ◌+◌, ◌-◌, ◌^◌, ◌<◌, ◌≡◌, inl, inr, refl, ap, ◌∙◌, true, false, ◌==◌, if◌then◌else◌,
  Bool-cases, [], ◌∷◌, ◌++◌, length, arith, bit_and, add32,
}
use mathlib.Core.Path.{subst}
use flexplane.Base.Checked.{ok}
use flexplane.Base.Bits.{bit_and-mask}
use flexplane.Endpoint.Sched.{
  reset_ids, FpSchedData, is_queued, trigger_tx, unreq_dsts_enqueue_if_not_queued,
}
use flexplane.Endpoint.Alloc.{reset_flow, reset_flows, handle_reset}
use flexplane.Endpoint.Inv.{IsFlow}
use flexplane.Endpoint.Inv.Resets.{after_reset, reset_flow_lem}
use flexplane.Endpoint.Inv.Reports.{IsKept, IsKept-after_reset, IsKept-same}
use flexplane.Tsq.Packet.{SkBuff}
use flexplane.Tsq.Sched.{Kernel, TsqSchedData}
use flexplane.Tsq.Inv.{slots}
use flexplane.Tsq.Inv.Slots.{packets}
use flexplane.Tsq.Inv.Renumbered.{IsRenumbered, tsq_reset_ids_lem}
use flexplane.Host.Step.{Host, run_call, no_calls, host_reset}
use flexplane.Host.Calls.{IsInStep, IsRun, no-IsRun, one-IsRun, chain-IsRun, settle_runs}
use flexplane.Host.Allocs.{some_waiting}

-- Nothing is sent: the packets of every flow wait as before.
pub record IsHeld (kernel : Kernel) (q : TsqSchedData) (fp' : FpSchedData) (q' : TsqSchedData)
    : Type 0 where
  pub in_step : IsInStep kernel fp' q'
  pub same_packets : (k : ℕ) → k < 256 → packets (slots kernel q' k) ≡ packets (slots kernel q k)

pub chain-IsHeld :
    (kernel : Kernel) (q q1 q2 : TsqSchedData) (fp1 fp2 : FpSchedData)
    → IsHeld kernel q fp1 q1
    → IsHeld kernel q1 fp2 q2
    → IsHeld kernel q fp2 q2
chain-IsHeld kernel q q1 q2 fp1 fp2 x y = record {
  in_step = y.in_step;
  same_packets = λ k lt. y.same_packets k lt ∙ x.same_packets k lt;
}

-- What is pending is kept where the endpoint keeps it and the queues keep their lengths.
pub kept_in_step :
    (kernel : Kernel) (fp fp' : FpSchedData) (q q' : TsqSchedData) (n k : ℕ)
    → IsInStep kernel fp q
    → k < 256
    → IsKept (fp.dsts k) (fp'.dsts k) n
    → length (slots kernel q' k) ≡ length (slots kernel q k)
    → (fp'.dsts k).demand_tslots ≡ (fp'.dsts k).used_tslots + length (slots kernel q' k)
kept_in_step kernel fp fp' q q' n k s lt kept same =
    omega (arith, kept.pending, s.pending k lt, same)

pub enqueue_calls :
    (fp : FpSchedData) (id now : ℕ) → (unreq_dsts_enqueue_if_not_queued fp id now).calls ≡ fp.calls
unfolding unreq_dsts_enqueue_if_not_queued trigger_tx
enqueue_calls fp id now = elim (Bool-cases (is_queued (fp.dsts id).state)) [
  | inl there ↦ rw there refl
  | inr free ↦ rw free refl
]

reset_calls :
    (fp : FpSchedData) (id now : ℕ)
    → ((fp.dsts id).demand_tslots == (fp.dsts id).used_tslots) ≡ false
    → (reset_flow fp id now).calls ≡ fp.calls ++ reset_ids id ∷ []
unfolding reset_flow
reset_calls fp id now pending =
    rw pending (ap (λ l. l ++ reset_ids id ∷ []) (enqueue_calls _ id now))

reset_idle :
    (fp : FpSchedData) (id now : ℕ)
    → ((fp.dsts id).demand_tslots == (fp.dsts id).used_tslots) ≡ true
    → (reset_flow fp id now).calls ≡ fp.calls
unfolding reset_flow
reset_idle fp id now idle = rw idle refl

-- The lengths of the queues after the ids of one flow are new.
renumbered_lengths :
    (kernel : Kernel) (q q' : TsqSchedData) (id k : ℕ)
    → IsRenumbered kernel q id q'
    → (length (slots kernel q' k) ≡ length (slots kernel q k))
      × (packets (slots kernel q' k) ≡ packets (slots kernel q k))
renumbered_lengths kernel q q' id k r = elim (Bool-cases (id == k)) [
  | inl same ↦
      let e : id ≡ k = ground arith in
      subst
        (λ (j : ℕ).
          (length (slots kernel q' j) ≡ length (slots kernel q j))
          × (packets (slots kernel q' j) ≡ packets (slots kernel q j)))
        e (r.same_length, r.same_packets)
  | inr other ↦ (ap length (r.others k other), ap packets (r.others k other))
]

one-IsKept :
    (fp fp' : FpSchedData) (id k : ℕ)
    → IsFlow (fp.dsts k)
    → fp'.dsts k ≡ (if id == k then after_reset (fp.dsts k) else fp.dsts k)
    → IsKept (fp.dsts k) (fp'.dsts k) (2 ^ 15)
one-IsKept fp fp' id k f is = elim (Bool-cases (id == k)) [
  | inl same ↦ rw (is, same) (IsKept-after_reset (fp.dsts k) f)
  | inr other ↦ rw (is, other) (IsKept-same (fp.dsts k) (2 ^ 15))
]

reset_flow_runs :
    (kernel : Kernel) (p : SkBuff → SkBuff) (fp : FpSchedData) (q : TsqSchedData) (id now : ℕ)
    → IsInStep kernel fp q
    → id < 256
    → (q' : TsqSchedData) × IsRun kernel p fp q (reset_flow fp id now) q'
      × IsHeld kernel q (reset_flow fp id now) q'
unfolding run_call
reset_flow_runs kernel p fp q id now s small =
    let fp' = reset_flow fp id now in
    let (valid, _, dsts) = reset_flow_lem fp id now s.endpoint small in
    let kept = λ (k : ℕ) (lt : k < 256). one-IsKept fp fp' id k (s.endpoint.flows k lt) (dsts k) in
    elim (Bool-cases ((fp.dsts id).demand_tslots == (fp.dsts id).used_tslots)) [
      | inl idle ↦ (
        q,
        no-IsRun kernel p fp fp' q (reset_idle fp id now idle),
        record {
          in_step = record {
            endpoint = valid;
            queues = s.queues;
            pending = λ k lt. kept_in_step kernel fp fp' q q (2 ^ 15) k s lt (kept k lt) refl;
          };
          same_packets = λ k lt. refl;
        },
      )
      | inr pending ↦
          let some : 0 < length (slots kernel q id) = ground (arith, s.pending id small) in
          let (t, ts, e) = some_waiting (slots kernel q id) some in
          let (q', done, r) = tsq_reset_ids_lem kernel q id t ts s.queues e in
          (
            q',
            one-IsRun kernel p fp fp' q q' (reset_ids id) (reset_calls fp id now pending) done,
            record {
              in_step = record {
                endpoint = valid;
                queues = r.valid;
                pending = λ k lt.
                    kept_in_step kernel fp fp' q q' (2 ^ 15) k s lt (kept k lt)
                      (renumbered_lengths kernel q q' id k r).0;
              };
              same_packets = λ k lt. (renumbered_lengths kernel q q' id k r).1;
            },
          )
    ]

reset_flows_runs :
    (kernel : Kernel) (p : SkBuff → SkBuff) (n : ℕ) (fp : FpSchedData) (q : TsqSchedData)
    (base_idx now : ℕ)
    → IsInStep kernel fp q
    → (q' : TsqSchedData) × IsRun kernel p fp q (reset_flows n fp base_idx now) q'
      × IsHeld kernel q (reset_flows n fp base_idx now) q'
unfolding reset_flows
reset_flows_runs kernel p zero fp q base_idx now s =
    (q, no-IsRun kernel p fp fp q refl, record { in_step = s; same_packets = λ k lt. refl })
reset_flows_runs kernel p (suc n) fp q base_idx now s =
    let id = bit_and (add32 (256 - suc n) base_idx) 255 in
    let small : id < 256 = omega (arith, bit_and-mask 8 (add32 (256 - suc n) base_idx)) in
    let fp1 = reset_flow fp id now in
    let (q1, ran1, held1) = reset_flow_runs kernel p fp q id now s small in
    let (q2, ran2, held2) = reset_flows_runs kernel p n fp1 q1 base_idx now held1.in_step in
    let fp2 = reset_flows n fp1 base_idx now in
    (
      q2,
      chain-IsRun kernel p fp fp1 fp2 q q1 q2 ran1 ran2,
      chain-IsHeld kernel q q1 q2 fp1 fp2 held1 held2,
    )

pub handle_reset_runs :
    (kernel : Kernel) (p : SkBuff → SkBuff) (fp : FpSchedData) (q : TsqSchedData) (base_idx now : ℕ)
    → IsInStep kernel fp q
    → (q' : TsqSchedData) × IsRun kernel p fp q (handle_reset fp base_idx now) q'
      × IsHeld kernel q (handle_reset fp base_idx now) q'
unfolding handle_reset
handle_reset_runs kernel p fp q base_idx now s =
    let (q', ran, held) =
      reset_flows_runs kernel p 256 _ q base_idx now
        (record { endpoint = s.endpoint; queues = s.queues; pending = s.pending }) in
    (q', record { made = ran.made; calls = ran.calls; ran = ran.ran }, held)

-- Where an endpoint and its queues agree on what is pending, a reset fires no bug: every flow whose
-- ids are renumbered is there. The two agree again, and no packet of a flow is lost or sent.
pub host_reset_lem :
    (kernel : Kernel) (p : SkBuff → SkBuff) (h : Host) (base_idx now : ℕ)
    → IsInStep kernel h.fp h.tsq
    → (h' : Host) × (host_reset kernel p h base_idx now ≡ ok h') × IsHeld kernel h.tsq h'.fp h'.tsq
unfolding host_reset
host_reset_lem kernel p h base_idx now s =
    let fp = no_calls h.fp in
    let (q', ran, held) =
      handle_reset_runs kernel p fp h.tsq base_idx now
        (record { endpoint = s.endpoint; queues = s.queues; pending = s.pending }) in
    (
      record { fp = handle_reset fp base_idx now; tsq = q' },
      settle_runs kernel p fp (handle_reset fp base_idx now) h.tsq q' refl ran,
      held,
    )
