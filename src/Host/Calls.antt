-- ===== src/Host/Calls.antt =====
-- What an endpoint and its packet queues agree on, and the runs of calls between them.
use flexplane.Base.{
  ℕ, ◌+◌, ◌<◌, ◌≡◌, refl, sym, ap, ◌∙◌, List, [], ◌∷◌, ◌++◌, length, append_assoc, append_nil,
}
use mathlib.Core.Path.{fun_ext}
use flexplane.Base.Checked.{Checked, ok, bug, ◌>>=◌}
use flexplane.Endpoint.Sched.{TsqCall, FpSchedData}
use flexplane.Endpoint.Inv
use flexplane.Tsq.Packet.{SkBuff}
use flexplane.Tsq.Sched.{Kernel, TsqSchedData}
use flexplane.Tsq.Inv.{slots}
use flexplane.Tsq.Inv as Queues
use flexplane.Host.Step.{run_call, run_calls, settle}

-- Both sides are valid, and each flow has as many timeslots pending at the endpoint as wait in
-- its queue.
pub record IsInStep (kernel : Kernel) (fp : FpSchedData) (q : TsqSchedData) : Type 0 where
  pub endpoint : Inv.IsValid fp
  pub queues : Queues.IsValid kernel q
  pub pending :
      (k : ℕ)
      → k < 256
      → (fp.dsts k).demand_tslots ≡ (fp.dsts k).used_tslots + length (slots kernel q k)

-- The calls that a step of the endpoint made take the queues from one state to another.
pub record IsRun (kernel : Kernel) (prepare_to_send : SkBuff → SkBuff) (fp : FpSchedData)
    (q : TsqSchedData) (fp' : FpSchedData) (q' : TsqSchedData) : Type 0 where
  pub made : List TsqCall
  pub calls : fp'.calls ≡ fp.calls ++ made
  pub ran : run_calls kernel prepare_to_send made q ≡ ok q'

pub no-IsRun :
    (kernel : Kernel) (prepare_to_send : SkBuff → SkBuff) (fp fp' : FpSchedData) (q : TsqSchedData)
    → fp'.calls ≡ fp.calls
    → IsRun kernel prepare_to_send fp q fp' q
unfolding run_calls
no-IsRun kernel prepare_to_send fp fp' q same = record {
  made = [];
  calls = same ∙ sym (append_nil fp.calls);
  ran = refl;
}

pub one-IsRun :
    (kernel : Kernel) (prepare_to_send : SkBuff → SkBuff) (fp fp' : FpSchedData)
    (q q' : TsqSchedData) (c : TsqCall)
    → fp'.calls ≡ fp.calls ++ c ∷ []
    → run_call kernel prepare_to_send q c ≡ ok q'
    → IsRun kernel prepare_to_send fp q fp' q'
unfolding run_calls
one-IsRun kernel prepare_to_send fp fp' q q' c calls done = record {
  made = c ∷ [];
  calls = calls;
  ran = rw done refl;
}

bind_assoc :
    (r : Checked TsqSchedData) (f g : TsqSchedData → Checked TsqSchedData)
    → (r >>= λ s. f s >>= g) ≡ ((r >>= f) >>= g)
bind_assoc (ok s) f g = refl
bind_assoc bug f g = refl

run_calls_split :
    (kernel : Kernel) (prepare_to_send : SkBuff → SkBuff) (cs ds : List TsqCall) (q : TsqSchedData)
    → run_calls kernel prepare_to_send (cs ++ ds) q
      ≡ (run_calls kernel prepare_to_send cs q >>= λ s. run_calls kernel prepare_to_send ds s)
unfolding run_calls
run_calls_split kernel prepare_to_send [] ds q = refl
run_calls_split kernel prepare_to_send (c ∷ cs) ds q =
    ap (λ (f : TsqSchedData → Checked TsqSchedData). run_call kernel prepare_to_send q c >>= f)
      (fun_ext λ s. run_calls_split kernel prepare_to_send cs ds s)
    ∙ bind_assoc (run_call kernel prepare_to_send q c) (run_calls kernel prepare_to_send cs)
        (λ s. run_calls kernel prepare_to_send ds s)

run_calls_append :
    (kernel : Kernel) (prepare_to_send : SkBuff → SkBuff) (cs ds : List TsqCall)
    (q q' : TsqSchedData)
    → run_calls kernel prepare_to_send cs q ≡ ok q'
    → run_calls kernel prepare_to_send (cs ++ ds) q ≡ run_calls kernel prepare_to_send ds q'
run_calls_append kernel prepare_to_send cs ds q q' done =
    run_calls_split kernel prepare_to_send cs ds q
    ∙ ap (λ (r : Checked TsqSchedData). r >>= λ s. run_calls kernel prepare_to_send ds s) done

pub chain-IsRun :
    (kernel : Kernel) (prepare_to_send : SkBuff → SkBuff) (fp fp1 fp2 : FpSchedData)
    (q q1 q2 : TsqSchedData)
    → IsRun kernel prepare_to_send fp q fp1 q1
    → IsRun kernel prepare_to_send fp1 q1 fp2 q2
    → IsRun kernel prepare_to_send fp q fp2 q2
chain-IsRun kernel prepare_to_send fp fp1 fp2 q q1 q2 x y = record {
  made = x.made ++ y.made;
  calls = y.calls ∙ ap (λ l. l ++ y.made) x.calls ∙ append_assoc fp.calls x.made y.made;
  ran = run_calls_append kernel prepare_to_send x.made y.made q q1 x.ran ∙ y.ran;
}

-- A state of the queues that a run of a handler's calls leads to.
pub settle_runs :
    (kernel : Kernel) (p : SkBuff → SkBuff) (fp fp' : FpSchedData) (q q' : TsqSchedData)
    → fp.calls ≡ []
    → IsRun kernel p fp q fp' q'
    → settle kernel p fp' q ≡ ok (record { fp = fp'; tsq = q' })
unfolding settle
settle_runs kernel p fp fp' q q' none_before r =
    let calls : fp'.calls ≡ r.made = r.calls ∙ ap (λ l. l ++ r.made) none_before in
    ap (λ cs. run_calls kernel p cs q >>= λ tsq'. ok (record { fp = fp'; tsq = tsq' })) calls
    ∙ rw (r.ran) refl
