-- ===== src/Endpoint/Inv/Reports.antt =====
-- kernel-mod/sch_fastpass.c: handle_areq, the arbiter's reports of what it allocated.
use flexplane.Base.{
  ℕ, ◌+◌, ◌*◌, ◌%◌, ◌^◌, ◌<◌, ◌≤◌, ◌≡◌, refl, Bool, true, false, ◌==◌, if◌then◌else◌, Bool-cases,
  inl, inr, arith, ap, ◌∙◌, ==-refl, add64, sub64, List, [], ◌∷◌, length,
}
use flexplane.Base.Checked.{ok}
use flexplane.Base.Table.{update, update_lem, update-update}
use flexplane.Protocol.Window.Inv
use flexplane.Protocol.Conn.{Config, inc}
use flexplane.Protocol.Conn.Reset.Decide.{fpproto_force_reset-IsResetTo}
use flexplane.Endpoint.Sched.{
  is_queued, FpDst, FpSchedData, trigger_tx, flow_inc_used, flow_inc_demand,
  unreq_dsts_enqueue_if_not_queued,
}
use flexplane.Endpoint.Queue.{as_queued, unreq_dsts_enqueue_if_not_queued_lem}
use flexplane.Endpoint.Alloc.{handle_reset}
use flexplane.Endpoint.Report.{
  after64, full_count, assume_lost, report_flow, report_flows, handle_areq,
}
use flexplane.Endpoint.Inv.{IsFlow, IsValid, put-IsQueue, put-enqueue-IsValid, put-stored, map_at}
use flexplane.Endpoint.Inv.Resets.{after_reset, handle_reset_lem}

-- A count comes back from its 16 low bits, if it is at most 2 ^ 15 less and fewer than 2 ^ 15 more
-- than what was received, which is below 2 ^ 63.
pub full_count_lem :
    (alloc c : ℕ)
    → alloc < 2 ^ 63
    → alloc ≤ c + 2 ^ 15
    → c < alloc + 2 ^ 15
    → full_count alloc (c % 2 ^ 16) ≡ c
unfolding full_count
full_count_lem alloc c small low high = omega arith

-- Whatever is reported, less than 2 ^ 15 timeslots are assumed lost.
full_count_near :
    (alloc count_low : ℕ)
    → alloc < 2 ^ 63
    → count_low < 2 ^ 16
    → after64 (full_count alloc count_low) alloc ≡ true
    → (alloc < full_count alloc count_low) × (full_count alloc count_low < alloc + 2 ^ 15)
unfolding full_count
full_count_near alloc count_low small low after = ground arith

-- The flow with `n` timeslots assumed lost.
unfoldable pub lost : FpDst → ℕ → FpDst
lost d n = record d {
  alloc_tslots = d.alloc_tslots + n;
  used_tslots = d.used_tslots + n;
  demand_tslots = d.demand_tslots + n;
}

lost-IsFlow :
    (d : FpDst) (n : ℕ) → IsFlow d → d.demand_tslots + n < 2 ^ 63 → IsFlow (as_queued (lost d n))
unfolding lost
lost-IsFlow d n f small = record {
  used_le = omega (arith, f.used_le);
  alloc_eq = omega (arith, f.alloc_eq);
  acked_le = f.acked_le;
  requested_le = omega (arith, f.requested_le);
  demand_small = small;
  in_window = f.in_window;
  remembered = λ e lt. cc;
}

stored : (dsts : ℕ → FpDst) (id : ℕ) (d : FpDst) → update dsts id d id ≡ d
stored dsts id d = rw (update_lem dsts id id d, ==-refl id) refl

assumed :
    (q : FpSchedData) (id n now : ℕ) (d : FpDst) (q' : FpSchedData)
    → IsValid q
    → id < 256
    → (q.dsts id).demand_tslots + n < 2 ^ 63
    → d ≡ lost (q.dsts id) n
    → q'.unreq_flows ≡ q.unreq_flows
    → q'.unreq_dsts_head ≡ q.unreq_dsts_head
    → q'.unreq_dsts_tail ≡ q.unreq_dsts_tail
    → q'.dsts ≡ update q.dsts id d
    → IsValid (unreq_dsts_enqueue_if_not_queued q' id now)
      × ((unreq_dsts_enqueue_if_not_queued q' id now).conn ≡ q'.conn)
      × ((k : ℕ)
          → (unreq_dsts_enqueue_if_not_queued q' id now).dsts k
            ≡ (if id == k then as_queued (lost (q.dsts k) n) else q.dsts k))
unfolding lost
assumed q id n now d q' v small fits is cells head tail dsts =
    let same : is_queued d.state ≡ is_queued (q.dsts id).state = rw is refl in
    let e =
      unreq_dsts_enqueue_if_not_queued_lem q' id now
        (rw (cells, head, tail, dsts) (put-IsQueue q id d v.queue same)) small in
    (
      put-enqueue-IsValid q q' id now d v small cells head tail dsts same
          (rw is (lost-IsFlow (q.dsts id) n (v.flows id small) fits)),
      e.conn,
      λ k.
          e.flows k
          ∙ rw dsts (put-stored q.dsts id d k)
          ∙ map_at q.dsts id (λ x. as_queued (lost x n)) (as_queued d) (ap as_queued is) k,
    )

assume_lost_lem :
    (q : FpSchedData) (id n now : ℕ)
    → IsValid q
    → id < 256
    → (q.dsts id).demand_tslots + n < 2 ^ 63
    → IsValid (assume_lost q id n now)
      × ((assume_lost q id n now).conn ≡ q.conn)
      × ((k : ℕ)
          → (assume_lost q id n now).dsts k
            ≡ (if id == k then as_queued (lost (q.dsts k) n) else q.dsts k))
unfolding assume_lost flow_inc_used flow_inc_demand lost
assume_lost_lem q id n now v small fits =
    let dst = q.dsts id in
    let f = v.flows id small in
    let d1 : FpDst = record dst { alloc_tslots = add64 dst.alloc_tslots n } in
    let d2 : FpDst = record d1 { used_tslots = add64 dst.used_tslots n } in
    let d3 : FpDst = record d2 { demand_tslots = add64 dst.demand_tslots n } in
    let is : d3 ≡ lost dst n = ground (arith, f.alloc_eq, f.used_le) in
    rw
      (
        stored q.dsts id d1,
        update-update q.dsts id d1 d2,
        stored q.dsts id d2,
        update-update q.dsts id d2 d3,
      )
      (assumed q id n now d3 _ v small fits is refl refl refl refl)

-- As many timeslots are pending as before, and the demand is not much higher.
pub record IsKept (d d' : FpDst) (n : ℕ) : Type 0 where
  pub pending : d'.demand_tslots + d.used_tslots ≡ d.demand_tslots + d'.used_tslots
  pub demand_le : d'.demand_tslots ≤ d.demand_tslots + n

pub IsKept-same : (d : FpDst) (n : ℕ) → IsKept d d n
IsKept-same d n = record { pending = omega arith; demand_le = omega arith }

pub IsKept-after_reset : (d : FpDst) → IsFlow d → IsKept d (after_reset d) (2 ^ 15)
unfolding after_reset
IsKept-after_reset d f = elim (Bool-cases (d.demand_tslots == d.used_tslots)) [
  | inl idle ↦ rw idle (IsKept-same d (2 ^ 15))
  | inr pending ↦ rw pending (record {
    pending = omega (arith, f.used_le, f.demand_small);
    demand_le = omega (arith, f.used_le, f.demand_small);
  })
]

IsKept-lost :
    (dsts dsts' : ℕ → FpDst) (id n : ℕ)
    → n < 2 ^ 15
    → ((k : ℕ) → dsts' k ≡ (if id == k then as_queued (lost (dsts k) n) else dsts k))
    → (k : ℕ) → IsKept (dsts k) (dsts' k) (2 ^ 15)
unfolding lost
IsKept-lost dsts dsts' id n small is k = elim (Bool-cases (id == k)) [
  | inl same ↦ rw (is k, same) (record { pending = omega arith; demand_le = omega arith })
  | inr other ↦ rw (is k, other) (IsKept-same (dsts k) (2 ^ 15))
]

chain-IsKept : (d d' d'' : FpDst) (m n : ℕ) → IsKept d d' m → IsKept d' d'' n → IsKept d d'' (m + n)
chain-IsKept d d' d'' m n x y = record {
  pending = omega (arith, x.pending, y.pending);
  demand_le = omega (arith, x.demand_le, y.demand_le);
}

-- A valid state, whose connection has a valid window, and in which what was pending still is.
pub record IsReported (q : FpSchedData) (n : ℕ) (q' : FpSchedData) : Type 0 where
  pub valid : IsValid q'
  pub window : Inv.IsValid q'.conn.outwnd
  pub kept : (k : ℕ) → k < 256 → IsKept (q.dsts k) (q'.dsts k) n

pub report_flow_lem :
    (cfg : Config) (q : FpSchedData) (id count_low base_idx now_real now : ℕ)
    → IsValid q
    → Inv.IsValid q.conn.outwnd
    → base_idx < 2 ^ 32
    → id < 256
    → count_low < 2 ^ 16
    → (q.dsts id).demand_tslots + 2 ^ 15 < 2 ^ 63
    → (r : Bool × FpSchedData) × (report_flow cfg q id count_low base_idx now_real now ≡ ok r)
      × IsReported q (2 ^ 15) r.1
unfolding report_flow
report_flow_lem cfg q id count_low base_idx now_real now v w hb small low room =
    let dst = q.dsts id in
    let f = v.flows id small in
    let count = full_count dst.alloc_tslots count_low in
    elim (Bool-cases (after64 count dst.alloc_tslots)) [
      | inr old ↦ (
        (false, q),
        rw old refl,
        record { valid = v; window = w; kept = λ k lt. IsKept-same (q.dsts k) (2 ^ 15) },
      )
      | inl newer ↦
          let near =
            full_count_near dst.alloc_tslots count_low
              (omega (arith, f.alloc_eq, f.used_le, f.demand_small)) low newer in
          elim (Bool-cases (after64 count dst.requested_tslots)) [
            | inl corrupt ↦
                let (conn', done, forced) = fpproto_force_reset-IsResetTo cfg q.conn now_real w in
                let reset : FpSchedData = record q {
                  conn = conn';
                  stat = record q.stat {
                    alloc_report_larger_than_requested =
                        inc q.stat.alloc_report_larger_than_requested;
                  };
                } in
                let all = handle_reset_lem reset base_idx now hb v in
                (
                  (true, handle_reset reset base_idx now),
                  rw (newer, corrupt, done) refl,
                  record {
                    valid = all.0;
                    window = rw (all.1) forced.0;
                    kept = λ k lt. rw (all.2 k lt) (IsKept-after_reset (q.dsts k) (v.flows k lt));
                  },
                )
            | inr sane ↦
                let n = sub64 count dst.alloc_tslots in
                let few : n < 2 ^ 15 = omega (arith, near) in
                let l = assume_lost_lem q id n now v small (omega (arith, few)) in
                (
                  (false, assume_lost q id n now),
                  rw (newer, sane) refl,
                  record {
                    valid = l.0;
                    window = rw (l.1) w;
                    kept = λ k lt. IsKept-lost q.dsts _ id n few l.2 k;
                  },
                )
          ]
    ]

-- Reports of known flows, with counts of 16 bits.
abbrev pub AreReports : List ℕ → Type 0
AreReports [] = Unit
AreReports (id ∷ []) = Unit
AreReports (id ∷ count_low ∷ rest) = (id < 256) × (count_low < 2 ^ 16) × AreReports rest

pub chain-IsReported :
    (q q' q'' : FpSchedData) (m n : ℕ)
    → IsReported q m q'
    → IsReported q' n q''
    → IsReported q (m + n) q''
chain-IsReported q q' q'' m n x y = record {
  valid = y.valid;
  window = y.window;
  kept = λ k lt. chain-IsKept (q.dsts k) (q'.dsts k) (q''.dsts k) m n (x.kept k lt) (y.kept k lt);
}

pub wider-IsReported :
    (q q' : FpSchedData) (m n : ℕ) → m ≤ n → IsReported q m q' → IsReported q n q'
wider-IsReported q q' m n le x = record {
  valid = x.valid;
  window = x.window;
  kept = λ k lt. record {
    pending = (x.kept k lt).pending;
    demand_le = omega (arith, (x.kept k lt).demand_le);
  };
}

report_flows_lem :
    (reports : List ℕ) (cfg : Config) (q : FpSchedData) (base_idx now_real now : ℕ)
    → IsValid q
    → Inv.IsValid q.conn.outwnd
    → base_idx < 2 ^ 32
    → AreReports reports
    → ((k : ℕ) → k < 256 → (q.dsts k).demand_tslots + length reports * 2 ^ 15 < 2 ^ 63)
    → (q' : FpSchedData) × (report_flows reports cfg q base_idx now_real now ≡ ok q')
      × IsReported q (length reports * 2 ^ 15) q'
unfolding report_flows
report_flows_lem [] cfg q base_idx now_real now v w hb known room =
    (q, refl, record { valid = v; window = w; kept = λ k lt. IsKept-same (q.dsts k) _ })
report_flows_lem (id ∷ []) cfg q base_idx now_real now v w hb known room =
    (q, refl, record { valid = v; window = w; kept = λ k lt. IsKept-same (q.dsts k) _ })
report_flows_lem (id ∷ count_low ∷ rest) cfg q base_idx now_real now v w hb known room =
    let (r, done, one) =
      report_flow_lem cfg q id count_low base_idx now_real now v w hb known.0 known.1
        (omega (arith, room id known.0)) in
    let (q2, done2, more) =
      report_flows_lem rest cfg r.1 base_idx now_real now one.valid one.window hb known.2
        (λ k lt. omega (arith, room k lt, (one.kept k lt).demand_le)) in
    elim (Bool-cases r.0) [
      | inl over ↦ (r.1, rw (done, over) refl, wider-IsReported q r.1 _ _ (omega arith) one)
      | inr on ↦ (
        q2,
        rw (done, on) done2,
        wider-IsReported q q2 _ _ (omega arith)
            (chain-IsReported q r.1 q2 (2 ^ 15) (length rest * 2 ^ 15) one more),
      )
    ]

-- With a valid window, `handle_areq` on reports of known flows with 16-bit counts raises no bug
-- and keeps the invariant and the window valid, also where a report is of more than was requested
-- and all flows are reset. Each flow has as many timeslots pending after it as before, and its
-- demand is higher by at most 2 ^ 15 for each number of the list. The hash `base_idx` has 32
-- bits, and no demand comes near 2 ^ 63.
pub handle_areq-IsReported :
    (cfg : Config) (q : FpSchedData) (reports : List ℕ) (base_idx now_real now : ℕ)
    → IsValid q
    → Inv.IsValid q.conn.outwnd
    → base_idx < 2 ^ 32
    → AreReports reports
    → ((k : ℕ) → k < 256 → (q.dsts k).demand_tslots + length reports * 2 ^ 15 < 2 ^ 63)
    → (q' : FpSchedData) × (handle_areq cfg q reports base_idx now_real now ≡ ok q')
      × IsReported q (length reports * 2 ^ 15) q'
unfolding handle_areq trigger_tx
handle_areq-IsReported cfg q reports base_idx now_real now v w hb known room =
    let (q', done, r) =
      report_flows_lem reports cfg (trigger_tx q now).1 base_idx now_real now v w hb known room in
    (q', done, record { valid = r.valid; window = r.window; kept = r.kept })
