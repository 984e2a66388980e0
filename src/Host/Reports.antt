-- ===== src/Host/Reports.antt =====
-- An endpoint with its packet queues: the reports of the arbiter.
use flexplane.Base.{
  ℕ, ◌+◌, ◌*◌, ◌^◌, ◌<◌, ◌≤◌, ◌≡◌, inl, inr, refl, sym, ◌∙◌, Bool, true, false, Bool-cases, List,
  [], ◌∷◌, length, arith, sub64,
}
use mathlib.Core.Path.{subst}
use flexplane.Base.Checked.{ok, ok-injective}
use flexplane.Protocol.Conn.{Config, inc}
use flexplane.Protocol.Window.Inv as Window
use flexplane.Protocol.Conn.Reset.Decide.{fpproto_force_reset-IsResetTo}
use flexplane.Endpoint.Sched.{FpSchedData, flow_inc_used, flow_inc_demand, trigger_tx}
use flexplane.Endpoint.Alloc.{handle_reset}
use flexplane.Endpoint.Report.{
  after64, full_count, assume_lost, report_flow, report_flows, handle_areq,
}
use flexplane.Endpoint.Inv.Reports.{
  AreReports, IsReported, IsKept-same, chain-IsReported, wider-IsReported, report_flow_lem,
}
use flexplane.Tsq.Packet.{SkBuff}
use flexplane.Tsq.Sched.{Kernel, TsqSchedData}
use flexplane.Host.Step.{Host, no_calls, host_report}
use flexplane.Host.Calls.{IsInStep, IsRun, no-IsRun, chain-IsRun, settle_runs}
use flexplane.Host.Resets.{IsHeld, chain-IsHeld, kept_in_step, enqueue_calls, handle_reset_runs}

-- What a report does at the endpoint and at the queues.
pub record IsReportRun (kernel : Kernel) (p : SkBuff → SkBuff) (fp : FpSchedData) (q : TsqSchedData)
    (n : ℕ) (fp' : FpSchedData) (q' : TsqSchedData) : Type 0 where
  pub reported : IsReported fp n fp'
  pub run : IsRun kernel p fp q fp' q'
  pub held : IsHeld kernel q fp' q'

assume_lost_calls : (fp : FpSchedData) (id n now : ℕ) → (assume_lost fp id n now).calls ≡ fp.calls
unfolding assume_lost flow_inc_used flow_inc_demand
assume_lost_calls fp id n now = enqueue_calls _ id now

-- A report that calls nothing.
quiet_report :
    (kernel : Kernel) (p : SkBuff → SkBuff) (fp fp' : FpSchedData) (q : TsqSchedData) (n : ℕ)
    → IsInStep kernel fp q
    → IsReported fp n fp'
    → fp'.calls ≡ fp.calls
    → IsReportRun kernel p fp q n fp' q
quiet_report kernel p fp fp' q n s r same = record {
  reported = r;
  run = no-IsRun kernel p fp fp' q same;
  held = record {
    in_step = record {
      endpoint = r.valid;
      queues = s.queues;
      pending = λ k lt. kept_in_step kernel fp fp' q q n k s lt (r.kept k lt) refl;
    };
    same_packets = λ k lt. refl;
  };
}

report_flow_runs :
    (kernel : Kernel) (p : SkBuff → SkBuff) (cfg : Config) (fp : FpSchedData) (q : TsqSchedData)
    (id count_low base_idx now_real now : ℕ)
    → IsInStep kernel fp q
    → Window.IsValid fp.conn.outwnd
    → base_idx < 2 ^ 32
    → id < 256
    → count_low < 2 ^ 16
    → (fp.dsts id).demand_tslots + 2 ^ 15 < 2 ^ 63
    → (r : Bool × FpSchedData) × (q' : TsqSchedData) × (report_flow cfg fp id count_low base_idx
          now_real now
        ≡ ok r)
      × IsReportRun kernel p fp q (2 ^ 15) r.1 q'
unfolding report_flow
report_flow_runs kernel p cfg fp q id count_low base_idx now_real now s w hb small low room =
    let dst = fp.dsts id in
    let count = full_count dst.alloc_tslots count_low in
    let (r0, done0, rep0) =
      report_flow_lem cfg fp id count_low base_idx now_real now s.endpoint w hb small low room in
    elim (Bool-cases (after64 count dst.alloc_tslots)) [
      | inr old ↦
          let done : report_flow cfg fp id count_low base_idx now_real now ≡ ok (false, fp) =
            rw old refl in
          let rep =
            subst (λ (r : Bool × FpSchedData). IsReported fp (2 ^ 15) r.1)
              (ok-injective (sym done0 ∙ done)) rep0 in
          ((false, fp), q, done, quiet_report kernel p fp fp q (2 ^ 15) s rep refl)
      | inl newer ↦ elim (Bool-cases (after64 count dst.requested_tslots)) [
        | inr sane ↦
            let fp' = assume_lost fp id (sub64 count dst.alloc_tslots) now in
            let done : report_flow cfg fp id count_low base_idx now_real now ≡ ok (false, fp') =
              rw (newer, sane) refl in
            let rep =
              subst (λ (r : Bool × FpSchedData). IsReported fp (2 ^ 15) r.1)
                (ok-injective (sym done0 ∙ done)) rep0 in
            (
              (false, fp'),
              q,
              done,
              quiet_report kernel p fp fp' q (2 ^ 15) s rep
                  (assume_lost_calls fp id (sub64 count dst.alloc_tslots) now),
            )
        | inl corrupt ↦
            let (conn', forced, _) = fpproto_force_reset-IsResetTo cfg fp.conn now_real w in
            let reset : FpSchedData = record fp {
              conn = conn';
              stat = record fp.stat {
                alloc_report_larger_than_requested = inc fp.stat.alloc_report_larger_than_requested;
              };
            } in
            let fp' = handle_reset reset base_idx now in
            let done : report_flow cfg fp id count_low base_idx now_real now ≡ ok (true, fp') =
              rw (newer, corrupt, forced) refl in
            let rep =
              subst (λ (r : Bool × FpSchedData). IsReported fp (2 ^ 15) r.1)
                (ok-injective (sym done0 ∙ done)) rep0 in
            let (q', ran, held) =
              handle_reset_runs kernel p reset q base_idx now
                (record { endpoint = s.endpoint; queues = s.queues; pending = s.pending }) in
            (
              (true, fp'),
              q',
              done,
              record {
                reported = rep;
                run = record { made = ran.made; calls = ran.calls; ran = ran.ran };
                held = held;
              },
            )
      ]
    ]

idle_report :
    (kernel : Kernel) (p : SkBuff → SkBuff) (fp : FpSchedData) (q : TsqSchedData) (n : ℕ)
    → IsInStep kernel fp q
    → Window.IsValid fp.conn.outwnd
    → IsReportRun kernel p fp q n fp q
idle_report kernel p fp q n s w =
    quiet_report kernel p fp fp q n s
      (record { valid = s.endpoint; window = w; kept = λ k lt. IsKept-same (fp.dsts k) n }) refl

wider_run :
    (kernel : Kernel) (p : SkBuff → SkBuff) (fp fp' : FpSchedData) (q q' : TsqSchedData) (m n : ℕ)
    → m ≤ n
    → IsReportRun kernel p fp q m fp' q'
    → IsReportRun kernel p fp q n fp' q'
wider_run kernel p fp fp' q q' m n le r = record {
  reported = wider-IsReported fp fp' m n le r.reported;
  run = r.run;
  held = r.held;
}

chain_runs :
    (kernel : Kernel) (p : SkBuff → SkBuff) (fp fp1 fp2 : FpSchedData) (q q1 q2 : TsqSchedData)
    (m n : ℕ)
    → IsReportRun kernel p fp q m fp1 q1
    → IsReportRun kernel p fp1 q1 n fp2 q2
    → IsReportRun kernel p fp q (m + n) fp2 q2
chain_runs kernel p fp fp1 fp2 q q1 q2 m n x y = record {
  reported = chain-IsReported fp fp1 fp2 m n x.reported y.reported;
  run = chain-IsRun kernel p fp fp1 fp2 q q1 q2 x.run y.run;
  held = chain-IsHeld kernel q q1 q2 fp1 fp2 x.held y.held;
}

report_flows_runs :
    (kernel : Kernel) (p : SkBuff → SkBuff) (reports : List ℕ) (cfg : Config) (fp : FpSchedData)
    (q : TsqSchedData) (base_idx now_real now : ℕ)
    → IsInStep kernel fp q
    → Window.IsValid fp.conn.outwnd
    → base_idx < 2 ^ 32
    → AreReports reports
    → ((k : ℕ) → k < 256 → (fp.dsts k).demand_tslots + length reports * 2 ^ 15 < 2 ^ 63)
    → (fp' : FpSchedData) × (q' : TsqSchedData) × (report_flows reports cfg fp base_idx now_real now
        ≡ ok fp')
      × IsReportRun kernel p fp q (length reports * 2 ^ 15) fp' q'
unfolding report_flows
report_flows_runs kernel p [] cfg fp q base_idx now_real now s w hb known room =
    (fp, q, refl, idle_report kernel p fp q _ s w)
report_flows_runs kernel p (id ∷ []) cfg fp q base_idx now_real now s w hb known room =
    (fp, q, refl, idle_report kernel p fp q _ s w)
report_flows_runs kernel p (id ∷ count_low ∷ rest) cfg fp q base_idx now_real now s w hb known
      room =
    let (r, q1, done, one) =
      report_flow_runs kernel p cfg fp q id count_low base_idx now_real now s w hb known.0 known.1
        (omega (arith, room id known.0)) in
    let (fp2, q2, done2, more) =
      report_flows_runs kernel p rest cfg r.1 q1 base_idx now_real now one.held.in_step
        one.reported.window hb known.2
        (λ k lt. omega (arith, room k lt, (one.reported.kept k lt).demand_le)) in
    elim (Bool-cases r.0) [
      | inl over ↦
          (r.1, q1, rw (done, over) refl, wider_run kernel p fp r.1 q q1 _ _ (omega arith) one)
      | inr on ↦ (
        fp2,
        q2,
        rw (done, on) done2,
        wider_run kernel p fp fp2 q q2 _ _ (omega arith)
            (chain_runs kernel p fp r.1 fp2 q q1 q2 (2 ^ 15) (length rest * 2 ^ 15) one more),
      )
    ]

-- Where an endpoint and its queues agree on what is pending, reports of the arbiter fire no bug,
-- also if they force a reset: with a valid window, for known flows and counts of 16 bits, a hash
-- `base_idx` of 32 bits, and demands far from 2 ^ 63. The two sides agree again, and no packet of
-- a flow is lost or sent.
pub host_report_lem :
    (kernel : Kernel) (p : SkBuff → SkBuff) (cfg : Config) (h : Host) (reports : List ℕ)
    (base_idx now_real now : ℕ)
    → IsInStep kernel h.fp h.tsq
    → Window.IsValid h.fp.conn.outwnd
    → base_idx < 2 ^ 32
    → AreReports reports
    → ((k : ℕ) → k < 256 → (h.fp.dsts k).demand_tslots + length reports * 2 ^ 15 < 2 ^ 63)
    → (h' : Host) × (host_report kernel p cfg h reports base_idx now_real now ≡ ok h')
      × IsHeld kernel h.tsq h'.fp h'.tsq
unfolding host_report handle_areq trigger_tx
host_report_lem kernel p cfg h reports base_idx now_real now s w hb known room =
    let fp = (trigger_tx (no_calls h.fp) now).1 in
    let (fp', q', done, r) =
      report_flows_runs kernel p reports cfg fp h.tsq base_idx now_real now
        (record { endpoint = s.endpoint; queues = s.queues; pending = s.pending }) w hb known
        room in
    (
      record { fp = fp'; tsq = q' },
      rw done (settle_runs kernel p fp fp' h.tsq q' refl r.run),
      r.held,
    )
