-- ===== src/Host/Tests.antt =====
-- The laws of an endpoint with its packet queues at a host with two timeslots that wait.
use flexplane.Base.{
  ℕ, zero, suc, ◌+◌, ◌-◌, ◌*◌, ◌^◌, ◌<◌, ◌≡◌, refl, true, false, inl, arith, List, [], ◌∷◌, length,
  get_or,
}
use flexplane.Base.Checked.{ok}
use flexplane.Protocol.Conn.{Config}
use flexplane.Protocol.Window.{wnd_pos, wnd_reset}
use flexplane.Protocol.Window.Inv as Window
use flexplane.Protocol.Window.Inv.{wnd_reset-IsValid}
use flexplane.Endpoint.Tests.{sched, sched-IsValid}
use flexplane.Tsq.Tree.{leaf, node, find}
use flexplane.Tsq.Sched.{TimeslotSkbQ, TsqSchedData}
use flexplane.Tsq.Handle.{tsq_dequeue}
use flexplane.Tsq.Inv.{slots}
use flexplane.Tsq.Tests.{plain_kernel, plain_kernel-IsKernel, some_skb, empty_tsq}
use flexplane.Host.Step.{Host, host_alloc, host_reset, host_report, host_packet}
use flexplane.Host.Calls.{IsInStep}
use flexplane.Host.Allocs.{IsServed, host_alloc_lem}
use flexplane.Host.Resets.{IsHeld, host_reset_lem}
use flexplane.Host.Packets.{IsReceived, host_packet_lem}
use flexplane.Host.Reports.{host_report_lem}
use flexplane.Host.Reach.{allocated, sent, Steps, here, then_step, Steps-IsInStep}
use flexplane.Host.Start.{SetUp, InitResult, tsq_tc_init}
use flexplane.Host.Start.Initialized.{IsInitialized, tsq_tc_init-IsInitialized}
use flexplane.Host.Start.Zeroed.{zeroed_window, zeroed_fp}

abbrev endpoint : Config
endpoint = record { is_endpoint = true; emulation = false; alloc_bytes_per_tslot = 1 }

abbrev slot_of : ℕ → TimeslotSkbQ
slot_of id = record { skbs = some_skb ∷ []; id = id }

abbrev two_waiting : TsqSchedData
two_waiting = record empty_tsq {
  dst_hash_tbl = λ cell. node leaf 7 leaf;
  dsts = λ k. record { skb_qs = slot_of 1 ∷ slot_of 2 ∷ []; credit = 2 ^ 20 - 1000; next_id = 3 };
}

abbrev host : Host
host = record { fp = sched; tsq = two_waiting }

two_waiting_pending :
    (k : ℕ)
    → (sched.dsts k).demand_tslots
      ≡ (sched.dsts k).used_tslots + length (slots plain_kernel two_waiting k)
unfolding find
two_waiting_pending k = ground arith

host-IsInStep : IsInStep plain_kernel sched two_waiting
host-IsInStep = record {
  endpoint = sched-IsValid;
  queues = record {
    unlocked = refl;
    table = record {
      len_small = omega arith;
      ordered = λ cell. (tt, tt, tt, tt);
      flows = λ k there. record {
        slots = (
          record { some_skb = omega arith; fits = inl (omega arith); bounded = omega arith },
          (record { some_skb = omega arith; fits = inl (omega arith); bounded = omega arith }, tt),
        );
        credit = refl;
      };
    };
  };
  pending = λ k lt. two_waiting_pending k;
}

only_seven : (i : ℕ) → get_or (7 ∷ []) i 0 < 256
only_seven zero = omega arith
only_seven (suc i) = omega arith

host_alloc_lem_example :
    (h' : Host) × (host_alloc plain_kernel
        (λ skb. skb)
        host
        1600
        (7 ∷ [])
        1
        (16 ∷ 0 ∷ [])
        1700000
        100
      ≡ ok h')
    × IsServed plain_kernel sched two_waiting h'.fp h'.tsq
host_alloc_lem_example =
    host_alloc_lem plain_kernel (λ skb. skb) host 1600 (7 ∷ []) 1 (16 ∷ 0 ∷ []) 1700000 100
      host-IsInStep only_seven

host_reset_lem_example :
    (h' : Host) × (host_reset plain_kernel (λ skb. skb) host 0 100 ≡ ok h')
    × IsHeld plain_kernel two_waiting h'.fp h'.tsq
host_reset_lem_example = host_reset_lem plain_kernel (λ skb. skb) host 0 100 host-IsInStep

window_of_sched : Window.IsValid sched.conn.outwnd
window_of_sched = wnd_reset-IsValid 1000 (omega arith)

abbrev one_report : List ℕ
one_report = 7 ∷ 1 ∷ []

far_from_overflow :
    (k : ℕ) → k < 256 → (sched.dsts k).demand_tslots + length one_report * 2 ^ 15 < 2 ^ 63
far_from_overflow k lt = ground arith

host_report_lem_example :
    (h' : Host) × (host_report plain_kernel (λ skb. skb) endpoint host one_report 0 1700000 100
      ≡ ok h')
    × IsHeld plain_kernel two_waiting h'.fp h'.tsq
host_report_lem_example =
    host_report_lem plain_kernel (λ skb. skb) endpoint host one_report 0 1700000 100 host-IsInStep
      window_of_sched (omega arith) (omega arith, omega arith, tt) far_from_overflow

host_packet_lem_example :
    (h' : Host) × (host_packet plain_kernel host some_skb 100 ≡ ok h')
    × IsReceived plain_kernel two_waiting some_skb h'
host_packet_lem_example =
    host_packet_lem plain_kernel host some_skb 100 plain_kernel-IsKernel host-IsInStep
      (ground arith)

-- Zeroed memory but for packets and a table of the queues' last use.
abbrev old_host : Host
old_host = record { fp = zeroed_fp; tsq = record two_waiting { prequeue = some_skb ∷ [] } }

zeroed_window-IsValid : Window.IsValid zeroed_window
unfolding wnd_reset wnd_pos
zeroed_window-IsValid = wnd_reset-IsValid 0 (omega arith)

abbrev all_made : SetUp
all_made = record {
  proc_made = true;
  cleanup_made = true;
  table_made = true;
  fastpass_proc_err = 0;
  socket_err = 0;
}

tsq_tc_init-IsInitialized_example :
    (r : InitResult × Host) × (tsq_tc_init plain_kernel endpoint old_host all_made 100 1700000
      ≡ ok r)
    × IsInitialized plain_kernel all_made 1700000 r
tsq_tc_init-IsInitialized_example =
    tsq_tc_init-IsInitialized plain_kernel endpoint old_host all_made 100 1700000 refl (λ k. refl)
      zeroed_window-IsValid

after_alloc :
    (h' : Host) × (host_alloc plain_kernel
        (λ skb. skb)
        host
        1600
        (7 ∷ [])
        1
        (16 ∷ 0 ∷ [])
        1700000
        100
      ≡ ok h')
    × IsServed plain_kernel sched two_waiting h'.fp h'.tsq
after_alloc =
    host_alloc_lem plain_kernel (λ skb. skb) host 1600 (7 ∷ []) 1 (16 ∷ 0 ∷ []) 1700000 100
      host-IsInStep only_seven

-- An ALLOC, and then the first packet that it admitted.
abbrev alloc_and_send : Host
alloc_and_send = record (after_alloc.0) { tsq = (tsq_dequeue (after_alloc.0).tsq).1 }

alloc_and_send-Steps : Steps plain_kernel (λ skb. skb) endpoint host alloc_and_send
alloc_and_send-Steps =
    then_step
      (then_step here (
        allocated (after_alloc.0) 1600 (7 ∷ []) 1 (16 ∷ 0 ∷ []) 1700000 100 only_seven
          (after_alloc.1)))
      sent

Steps-IsInStep_example : IsInStep plain_kernel alloc_and_send.fp alloc_and_send.tsq
Steps-IsInStep_example =
    Steps-IsInStep plain_kernel (λ skb. skb) endpoint host alloc_and_send plain_kernel-IsKernel
      host-IsInStep alloc_and_send-Steps
