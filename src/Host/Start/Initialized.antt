-- ===== src/Host/Start/Initialized.antt =====
-- What the start of an endpoint and its packet queues leaves.
use flexplane.Base.{
  ℕ, ◌*◌, ◌%◌, ◌^◌, ◌<◌, ◌≤◌, ◌≡◌, ◌⊎◌, inl, inr, refl, sym, ap, ◌∙◌, Bool, true, false, not, ◌&&◌,
  ◌==◌, if◌then◌else◌, Bool-cases, [], arith,
}
use mathlib.Core.Path.{subst, fun_ext}
use flexplane.Base.Checked.{Checked, ok, ◌>>=◌}
use flexplane.Base.Ring.Once
use flexplane.Protocol.Window.Inv as Window
use flexplane.Protocol.Pacer.{pacer_init_full, pacer_is_triggered}
use flexplane.Protocol.Conn.{Config, Conn}
use flexplane.Protocol.Conn.Outwnd.Free.{free_unacked-IsFreed}
use flexplane.Protocol.Conn.Reset.Decide.{IsResetTo, do_proto_reset-IsResetTo}
use flexplane.Protocol.Conn.Receive.{fpproto_init_conn, fpproto_destroy_conn}
use flexplane.Endpoint.Sched.{flow_unqueued, is_queued, flow_pos, FpDst, FpSchedData}
use flexplane.Tsq.Tree.{leaf, find, holds}
use flexplane.Tsq.Sched.{Kernel, TsqSchedData}
use flexplane.Tsq.Resize.{tsq_tc_resize}
use flexplane.Tsq.Inv.{present}
use flexplane.Tsq.Inv.Resized.Moved.{IsPlaced}
use flexplane.Tsq.Sent.{sendable}
use flexplane.Host.Step.{Host}
use flexplane.Host.Calls.{IsInStep}
use flexplane.Host.Start.{
  SetUp, InitResult, started, enosys, enomem, new_qdisc_error, req_cost, req_bucketlen, req_min_gap,
  reset_window_us, retrans_timeout_ns, fpq_new_qdisc, tsq_defaults, start_qdisc, tsq_tc_init,
}

-- What the start of an endpoint that succeeds leaves.
pub record IsStarted (kernel : Kernel) (now_real : ℕ) (h : Host) : Type 0 where
  pub in_step : IsInStep kernel h.fp h.tsq
  pub no_flows : (k : ℕ) → present kernel h.tsq k ≡ false
  pub placed : IsPlaced kernel h.tsq.hash_tbl_log h.tsq.dst_hash_tbl
  pub size : h.tsq.hash_tbl_log ≤ 32
  pub nothing_to_send : (sendable h.tsq ≡ []) × (h.tsq.enqueue_skb_q ≡ [])
  pub nothing_to_drop : h.tsq.dropqueue ≡ []
  pub connection : IsResetTo now_real false h.fp.conn
  pub idle : pacer_is_triggered h.fp.request_pacer ≡ false

abbrev pub is_started : InitResult → Bool
is_started started = true
is_started enosys = false
is_started enomem = false
is_started (new_qdisc_error err) = false

-- Whether the kernel refuses nothing.
abbrev pub all_given : SetUp → Bool
all_given answers =
    answers.proc_made
    && answers.cleanup_made
    && answers.table_made
    && answers.fastpass_proc_err == 0
    && answers.socket_err == 0

abbrev idle_dst : FpDst
idle_dst = record {
  demand_tslots = 0;
  requested_tslots = 0;
  acked_tslots = 0;
  alloc_tslots = 0;
  used_tslots = 0;
  state = flow_unqueued;
}

-- The flows' counters are 0, as in memory that the kernel has zeroed.
abbrev pub AreIdle : (ℕ → FpDst) → Type 0
AreIdle dsts = (k : ℕ) → dsts k ≡ idle_dst

-- The state of the endpoint where fpq_new_qdisc succeeds.
record IsReady (cfg : Config) (now_real : ℕ) (q q' : FpSchedData) : Type 0 where
  flows : q'.dsts ≡ q.dsts
  head : q'.unreq_dsts_head ≡ 0
  tail : q'.unreq_dsts_tail ≡ 0
  connection : IsResetTo now_real false q'.conn
  idle : pacer_is_triggered q'.request_pacer ≡ false

fpproto_init_conn-IsResetTo :
    (cfg : Config) (c : Conn) (now rst_win_ns send_timeout : ℕ)
    → Window.IsValid c.outwnd
    → (c' : Conn) × (fpproto_init_conn cfg c now rst_win_ns send_timeout ≡ ok c')
      × IsResetTo now false c'
unfolding fpproto_init_conn
fpproto_init_conn-IsResetTo cfg c now rst_win_ns send_timeout v =
    let (reset, done, is) = do_proto_reset-IsResetTo cfg c now false v in
    (
      record reset { rst_win_ns = rst_win_ns; send_timeout = send_timeout % 2 ^ 32 },
      rw done refl,
      is,
    )

fpq_new_qdisc_lem :
    (cfg : Config) (q : FpSchedData) (mul shift : ℕ) (answers : SetUp) (now_monotonic now_real : ℕ)
    → Window.IsValid q.conn.outwnd
    → (r : ℕ × FpSchedData) × (fpq_new_qdisc cfg q mul shift answers now_monotonic now_real ≡ ok r)
      × ((r.0 == 0) ≡ (answers.fastpass_proc_err == 0 && answers.socket_err == 0))
      × (((r.0 == 0) ≡ false) ⊎ IsReady cfg now_real q r.1)
unfolding fpq_new_qdisc fpproto_destroy_conn pacer_init_full pacer_is_triggered
fpq_new_qdisc_lem cfg q mul shift answers now_monotonic now_real v =
    let paced : FpSchedData = record q {
      unreq_dsts_head = 0;
      unreq_dsts_tail = 0;
      tslot_mul = mul;
      tslot_shift = shift;
      request_pacer = pacer_init_full now_monotonic req_cost req_bucketlen req_min_gap;
    } in
    elim (Bool-cases (answers.fastpass_proc_err == 0)) [
      | inr refused ↦
          ((answers.fastpass_proc_err, paced), rw refused refl, rw refused refl, inl refused)
      | inl made ↦
          let (conn, done, is) =
            fpproto_init_conn-IsResetTo cfg q.conn now_real (reset_window_us * 1000)
              retrans_timeout_ns v in
          elim (Bool-cases (answers.socket_err == 0)) [
            | inl bound ↦ (
              (0, record paced { is_destroyed = false; conn = conn }),
              rw (made, done, bound) refl,
              rw (made, bound) refl,
              inr (record { flows = refl; head = refl; tail = refl; connection = is; idle = refl }),
            )
            | inr refused ↦
                let (destroyed, done', _) = free_unacked-IsFreed conn is.0 in
                (
                  (answers.socket_err, record paced { is_destroyed = false; conn = destroyed }),
                  rw (made, done, refused, done') refl,
                  rw (made, refused) refl,
                  inl refused,
                )
          ]
    ]

-- The tables of both sides are empty.
empty-IsInStep :
    (kernel : Kernel) (fp : FpSchedData) (q : TsqSchedData)
    → AreIdle fp.dsts
    → fp.unreq_dsts_head ≡ 0
    → fp.unreq_dsts_tail ≡ 0
    → q.hash_tbl_locked ≡ false
    → q.tslot_len_approx < 2 ^ 32
    → ((cell : ℕ) → q.dst_hash_tbl cell ≡ leaf)
    → IsInStep kernel fp q × ((k : ℕ) → present kernel q k ≡ false)
unfolding find
empty-IsInStep kernel fp q idle head tail unlocked len empty =
    let no_flow : (k : ℕ) → present kernel q k ≡ false = λ k. rw (empty _) refl in
    (
      record {
        endpoint = record {
          queue =
              rw (head, tail)
                (subst (λ (flag : ℕ → Bool). Once.IsOnce flow_pos fp.unreq_flows 0 0 flag)
                  (sym (fun_ext λ k. ap (λ (d : FpDst). is_queued d.state) (idle k)))
                  (Once.empty-IsOnce flow_pos fp.unreq_flows));
          flows = λ k lt. rw (idle k) (record {
            used_le = omega arith;
            alloc_eq = refl;
            acked_le = omega arith;
            requested_le = omega arith;
            demand_small = omega arith;
            in_window = omega arith;
            remembered = λ e less. absurd (omega (arith, less));
          });
        };
        queues = record {
          unlocked = unlocked;
          table = record {
            len_small = len;
            ordered = λ cell. rw (empty cell) tt;
            flows = λ k there. absurd (false_is_true (sym (no_flow k) ∙ there));
          };
        };
        pending = λ k lt. rw (idle k, no_flow k) refl;
      },
      no_flow,
    )
  where
    false_is_true : false ≡ true → ⊥
    false_is_true e = cc

-- What a qdisc without options ends with: all that the kernel was asked for was given, and it has
-- started, or something was refused, and it has not.
abbrev pub IsInitialized : Kernel → SetUp → ℕ → InitResult × Host → Type 0
IsInitialized kernel answers now_real r =
    ((all_given answers ≡ true) × (is_started r.0 ≡ true) × IsStarted kernel now_real r.1)
    ⊎ ((all_given answers ≡ false) × (is_started r.0 ≡ false))

start_qdisc_lem :
    (kernel : Kernel) (cfg : Config) (fp : FpSchedData) (q : TsqSchedData) (answers : SetUp)
    (now_monotonic now_real : ℕ)
    → AreIdle fp.dsts
    → Window.IsValid fp.conn.outwnd
    → q.hash_tbl_locked ≡ false
    → q.tslot_len_approx < 2 ^ 32
    → ((cell : ℕ) → q.dst_hash_tbl cell ≡ leaf)
    → q.hash_tbl_log ≤ 32
    → (sendable q ≡ []) × (q.enqueue_skb_q ≡ [])
    → q.dropqueue ≡ []
    → (r : InitResult × Host) × (start_qdisc cfg fp answers now_monotonic now_real (true, q) ≡ ok r)
      × (is_started r.0 ≡ (answers.fastpass_proc_err == 0 && answers.socket_err == 0))
      × ((is_started r.0 ≡ false) ⊎ IsStarted kernel now_real r.1)
unfolding start_qdisc holds
start_qdisc_lem kernel cfg fp q answers now_monotonic now_real idle v unlocked len empty size send
      drop =
    let (n, done, given, outcome) =
      fpq_new_qdisc_lem cfg fp 1 20 answers now_monotonic now_real v in
    let result = if n.0 == 0 then started else new_qdisc_error n.0 in
    let is : is_started result ≡ (n.0 == 0) = started_if (n.0 == 0) n.0 in
    (
      (result, record { fp = n.1; tsq = q }),
      rw done refl,
      is ∙ given,
      elim outcome [
        | inl refused ↦ inl (is ∙ refused)
        | inr ready ↦
            let idle' : AreIdle n.1.dsts = λ k. ap (λ (f : ℕ → FpDst). f k) ready.flows ∙ idle k in
            let (in_step, no_flows) =
              empty-IsInStep kernel (n.1) q idle' ready.head ready.tail unlocked len empty in
            inr (record {
              in_step = in_step;
              no_flows = no_flows;
              placed =
                  λ c k there. absurd (false_is_true (sym (ap (λ t. holds t k) (empty c)) ∙ there));
              size = size;
              nothing_to_send = send;
              nothing_to_drop = drop;
              connection = ready.connection;
              idle = ready.idle;
            })
      ],
    )
  where
    started_if : (b : Bool) (e : ℕ) → is_started (if b then started else new_qdisc_error e) ≡ b
    started_if true e = refl
    started_if false e = refl

    false_is_true : false ≡ true → ⊥
    false_is_true e = cc

-- Where memory is as the kernel gives it - the table's lock free, the flows' counters 0, and the
-- window of the connection valid - and whatever else the memory of the packet queues holds, the
-- start of a qdisc without options fires no bug. It succeeds if the kernel refuses nothing, and
-- fails otherwise. Where it succeeds, the endpoint and its packet queues are valid and agree that
-- nothing is pending; there are no flows and no packets, the table has at most 2 ^ 32 cells with
-- every flow in its own, the connection is out of sync since the time of the start, and the pacer
-- waits for no event.
pub tsq_tc_init-IsInitialized :
    (kernel : Kernel) (cfg : Config) (h : Host) (answers : SetUp) (now_monotonic now_real : ℕ)
    → h.tsq.hash_tbl_locked ≡ false
    → AreIdle h.fp.dsts
    → Window.IsValid h.fp.conn.outwnd
    → (r : InitResult × Host) × (tsq_tc_init kernel cfg h answers now_monotonic now_real ≡ ok r)
      × IsInitialized kernel answers now_real r
unfolding tsq_tc_init tsq_defaults tsq_tc_resize start_qdisc
tsq_tc_init-IsInitialized kernel cfg h answers now_monotonic now_real unlocked idle v =
    let q = tsq_defaults h.tsq in
    elim (Bool-cases answers.proc_made) [
      | inr refused ↦ ((enosys, record h { tsq = q }), rw refused refl, inr (rw refused refl, refl))
      | inl proc ↦ elim (Bool-cases answers.cleanup_made) [
        | inr refused ↦ (
          (enomem, record h { tsq = q }),
          rw (proc, refused) refl,
          inr (rw (proc, refused) refl, refl),
        )
        | inl cleanup ↦ elim (Bool-cases answers.table_made) [
          | inr refused ↦ (
            (enomem, record { fp = h.fp; tsq = q }),
            rw (proc, cleanup, refused) refl,
            inr (rw (proc, cleanup, refused) refl, refl),
          )
          | inl table ↦
              let (r, done, given, outcome) =
                start_qdisc_lem kernel cfg h.fp
                  (record q { dst_hash_tbl = λ idx. leaf; hash_tbl_log = 10 }) answers now_monotonic
                  now_real idle v unlocked (omega arith) (λ cell. refl) (omega arith) (refl, refl)
                  refl in
              let all : all_given answers ≡ is_started r.0 =
                whole answers.proc_made answers.cleanup_made answers.table_made _ _ proc cleanup
                  table
                ∙ sym given in
              (
                r,
                go_on answers.proc_made answers.cleanup_made _ _ _ proc cleanup
                    ∙ ap
                        (λ (made : Checked (Bool × TsqSchedData)). made >>= λ resized.
                          start_qdisc cfg h.fp answers now_monotonic now_real resized)
                        (ap (tsq_tc_resize kernel q false q.hash_tbl_log) table)
                    ∙ done,
                elim outcome [
                  | inl refused ↦ inr (all ∙ refused, refused)
                  | inr is ↦ elim (Bool-cases (is_started r.0)) [
                    | inl did ↦ inl (all ∙ did, did, is)
                    | inr did_not ↦ inr (all ∙ did_not, did_not)
                  ]
                ],
              )
        ]
      ]
    ]
  where
    whole : (a b c d e : Bool) → a ≡ true → b ≡ true → c ≡ true → (a && b && c && d && e) ≡ (d && e)
    whole a b c d e ea eb ec = rw (ea, eb, ec) refl

    go_on :
        (a b : Bool) (x y z : Checked (InitResult × Host))
        → a ≡ true
        → b ≡ true
        → (if not a then x else if not b then y else z) ≡ z
    go_on a b x y z ea eb = rw (ea, eb) refl
