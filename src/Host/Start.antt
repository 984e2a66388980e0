-- ===== src/Host/Start.antt =====
-- The start of an endpoint and its packet queues: fpq_new_qdisc of kernel-mod/sch_fastpass.c and
-- tsq_tc_init of kernel-mod/sch_timeslot.c, for a qdisc without options. What the kernel answers
-- to the requests for memory, files of /proc and a socket is an argument; the timers, the
-- tasklets, the set-up of locks and the release of memory on the error paths are left out.
pub mod Zeroed
pub mod Initialized
use flexplane.Base.{
  ℕ, ◌*◌, ◌%◌, ◌^◌, ◌<◌, ◌≤◌, ◌≡◌, ◌⊎◌, inl, inr, refl, sym, ap, ◌∙◌, Bool, true, false, not, ◌&&◌,
  ◌==◌, if◌then◌else◌, Bool-cases, [], arith,
}
use mathlib.Core.Path.{subst, fun_ext}
use flexplane.Base.Checked.{Checked, ok, ◌>>=◌}
use flexplane.Base.Ring.Once
use flexplane.Protocol.Window.Inv as Window
use flexplane.Protocol.Pacer.{pacer_init_full, pacer_is_triggered}
use flexplane.Protocol.Conn.{Config, Conn}
use flexplane.Protocol.Conn.Outwnd.Free.{free_unacked-IsFreed}
use flexplane.Protocol.Conn.Reset.Decide.{IsResetTo, do_proto_reset-IsResetTo}
use flexplane.Protocol.Conn.Receive.{fpproto_init_conn, fpproto_destroy_conn}
use flexplane.Endpoint.Sched.{flow_unqueued, is_queued, flow_pos, FpDst, FpSchedData}
use flexplane.Endpoint.Inv
use flexplane.Tsq.Tree.{leaf, find, holds}
use flexplane.Tsq.Sched.{Kernel, TsqSchedData}
use flexplane.Tsq.Resize.{tsq_tc_resize}
use flexplane.Tsq.Inv.{present}
use flexplane.Tsq.Inv as Queues
use flexplane.Tsq.Inv.Resized.Moved.{IsPlaced}
use flexplane.Tsq.Sent.{sendable}
use flexplane.Host.Step.{Host}
use flexplane.Host.Calls.{IsInStep}

-- The module parameters, in ns but for `reset_window_us`.
abbrev pub req_cost : ℕ
req_cost = 2 * 2 ^ 20

abbrev pub req_bucketlen : ℕ
req_bucketlen = 4 * (2 * 2 ^ 20)

abbrev pub req_min_gap : ℕ
req_min_gap = 1000

abbrev pub reset_window_us : ℕ
reset_window_us = 2000000

abbrev pub retrans_timeout_ns : ℕ
retrans_timeout_ns = 200000

-- What the kernel answers: whether the files of /proc and the memory are there, and the error
-- numbers of fastpass_proc_init and connect_ctrl_socket, 0 for none.
pub record SetUp : Type 0 where
  pub proc_made : Bool
  pub cleanup_made : Bool
  pub table_made : Bool
  pub fastpass_proc_err : ℕ
  pub socket_err : ℕ

-- The result 0, -ENOSYS, -ENOMEM, or an error of new_qdisc.
pub data InitResult : Type 0 where
  started : InitResult
  enosys : InitResult
  enomem : InitResult
  new_qdisc_error : ℕ → InitResult

-- The error number and the state.
unfoldable pub fpq_new_qdisc :
    Config → FpSchedData → ℕ → ℕ → SetUp → ℕ → ℕ → Checked (ℕ × FpSchedData)
fpq_new_qdisc cfg q tslot_mul tslot_shift answers now_monotonic now_real =
    let paced = record q {
      unreq_dsts_head = 0;
      unreq_dsts_tail = 0;
      tslot_mul = tslot_mul;
      tslot_shift = tslot_shift;
      request_pacer = pacer_init_full now_monotonic req_cost req_bucketlen req_min_gap;
    } in
    if not (answers.fastpass_proc_err == 0)
    then ok (answers.fastpass_proc_err, paced)
    else fpproto_init_conn cfg q.conn now_real (reset_window_us * 1000) retrans_timeout_ns
      >>= λ conn.
          if answers.socket_err == 0
          then ok (0, record paced { is_destroyed = false; conn = conn })
          else fpproto_destroy_conn conn >>= λ destroyed.
              ok (answers.socket_err, record paced { is_destroyed = false; conn = destroyed })

-- The defaults; the table is NULL until it is resized.
unfoldable pub tsq_defaults : TsqSchedData → TsqSchedData
tsq_defaults q = record q {
  limit = 10000;
  hash_tbl_log = 10;
  tslot_len_approx = 2 ^ 20;
  enqueue_skb_q = [];
  reg_prio = [];
  hi_prio = [];
  prequeue = [];
  dropqueue = [];
  flows = 0;
  inactive_flows = 0;
}

-- The call of new_qdisc, after the table is allocated or not.
unfoldable pub start_qdisc :
    Config → FpSchedData → SetUp → ℕ → ℕ → Bool × TsqSchedData → Checked (InitResult × Host)
start_qdisc cfg fp answers now_monotonic now_real (false, q) =
    ok (enomem, record { fp = fp; tsq = q })
start_qdisc cfg fp answers now_monotonic now_real (true, q) =
    fpq_new_qdisc cfg fp 1 20 answers now_monotonic now_real >>= λ r.
    ok (if r.0 == 0 then started else new_qdisc_error r.0, record { fp = r.1; tsq = q })

unfoldable pub tsq_tc_init : Kernel → Config → Host → SetUp → ℕ → ℕ → Checked (InitResult × Host)
tsq_tc_init kernel cfg h answers now_monotonic now_real =
    let q = tsq_defaults h.tsq in
    if not answers.proc_made
    then ok (enosys, record h { tsq = q })
    else if not answers.cleanup_made
    then ok (enomem, record h { tsq = q })
    else tsq_tc_resize kernel q false q.hash_tbl_log answers.table_made >>= λ resized.
        start_qdisc cfg h.fp answers now_monotonic now_real resized
