-- ===== src/Protocol/Pacer.antt =====
-- protocol/pacer.h: the pacer that limits the rate of events.
use flexplane.Base.{ℕ, Bool, true, false, not, ltb, ◌==◌, if◌then◌else◌, add64, sub64, ones64}

abbrev pacer_no_next_event : ℕ
pacer_no_next_event = ones64

-- `t` is the source's `T`.
pub record FpPacer : Type 0 where
  pub t : ℕ
  pub next_event : ℕ
  pub cost : ℕ
  pub max_credit : ℕ
  pub min_gap : ℕ

-- `max_t` of protocol/platform/generic.h
abbrev max_t : ℕ → ℕ → ℕ
max_t x y = if ltb y x then x else y

unfoldable pub pacer_init_full : ℕ → ℕ → ℕ → ℕ → FpPacer
pacer_init_full now cost max_credit min_gap = record {
  t = sub64 now max_credit;
  next_event = pacer_no_next_event;
  cost = cost;
  max_credit = max_credit;
  min_gap = min_gap;
}

unfoldable pub pacer_is_triggered : FpPacer → Bool
pacer_is_triggered pa = not (pa.next_event == pacer_no_next_event)

unfoldable pub pacer_trigger : FpPacer → ℕ → Bool × FpPacer
pacer_trigger pa now =
    if pacer_is_triggered pa
    then (false, pa)
    else (true, record pa { next_event = max_t (add64 pa.t pa.cost) (add64 now pa.min_gap) })

unfoldable pub pacer_next_event : FpPacer → ℕ
pacer_next_event pa = pa.next_event

unfoldable pub pacer_reset : FpPacer → FpPacer
pacer_reset pa = record pa {
  t = add64 (max_t pa.t (sub64 pa.next_event pa.max_credit)) pa.cost;
  next_event = pacer_no_next_event;
}
