-- ===== src/Tsq/Sent.antt =====
-- kernel-mod/sch_timeslot.c: the order in which tsq_dequeue sends packets.
use flexplane.Base.{
  ℕ, zero, suc, ◌≤◌, ◌≡◌, ◌⊎◌, inl, inr, refl, sym, ap, ◌∙◌, arith, Option, none, some, List, [],
  ◌∷◌, ◌++◌, length, append_assoc,
}
use mathlib.Core.Path.{subst}
use flexplane.Tsq.Packet.{SkBuff}
use flexplane.Tsq.Sched.{TsqSchedData}
use flexplane.Tsq.Handle.{drop_skb, dequeue_from, tsq_dequeue}

-- The packets that may be sent, in order.
abbrev pub sendable : TsqSchedData → List SkBuff
sendable q = q.hi_prio ++ q.reg_prio ++ q.prequeue

-- The packet that a call returns.
abbrev sent : Option SkBuff → List SkBuff
sent none = []
sent (some skb) = skb ∷ []

-- What `n` calls of `tsq_dequeue` send.
unfoldable pub send_n : ℕ → TsqSchedData → List SkBuff × TsqSchedData
send_n zero q = ([], q)
send_n (suc n) q =
    let first = tsq_dequeue q in let rest = send_n n first.1 in (sent first.0 ++ rest.0, rest.1)

List-cases :
    (xs : List SkBuff) → (xs ≡ []) ⊎ ((skb : SkBuff) × (rest : List SkBuff) × (xs ≡ skb ∷ rest))
List-cases [] = inl refl
List-cases (skb ∷ rest) = inr (skb, rest, refl)

-- What one call does: only a call with nothing to send returns no packet, and it drops at most one
-- packet.
pub record IsSent (q : TsqSchedData) (r : Option SkBuff × TsqSchedData) : Type 0 where
  pub order : sent r.0 ++ sendable r.1 ≡ sendable q
  pub busy : r.0 ≡ none → sendable q ≡ []
  pub dropped : r.1.dropped ++ r.1.dropqueue ≡ q.dropped ++ q.dropqueue
  pub at_most_one : length q.dropqueue ≤ suc (length r.1.dropqueue)

drop_skb_kept :
    (q : TsqSchedData)
    → ((drop_skb q).dropped ++ (drop_skb q).dropqueue ≡ q.dropped ++ q.dropqueue)
      × (length q.dropqueue ≤ suc (length (drop_skb q).dropqueue))
      × (sendable (drop_skb q) ≡ sendable q)
unfolding drop_skb
drop_skb_kept q = elim (List-cases q.dropqueue) [
  | inl e ↦ rw e (refl, omega arith, refl)
  | inr (skb, rest, e) ↦ rw e (append_assoc q.dropped (skb ∷ []) rest, omega arith, refl)
]

dequeue_idle :
    (q : TsqSchedData)
    → q.hi_prio ≡ []
    → q.reg_prio ≡ []
    → q.prequeue ≡ []
    → tsq_dequeue q ≡ (none, drop_skb q)
unfolding tsq_dequeue dequeue_from
dequeue_idle q hi reg pre =
    ap (λ l. dequeue_from q l q.reg_prio q.prequeue) hi
    ∙ ap (λ l. dequeue_from q [] l q.prequeue) reg
    ∙ ap (dequeue_from q [] []) pre

pub tsq_dequeue_lem : (q : TsqSchedData) → IsSent q (tsq_dequeue q)
unfolding tsq_dequeue dequeue_from
tsq_dequeue_lem q = elim (List-cases q.hi_prio) [
  | inr (skb, rest, e) ↦
      rw e (record { order = refl; busy = λ h. cc; dropped = refl; at_most_one = omega arith })
  | inl hi ↦ elim (List-cases q.reg_prio) [
    | inr (skb, rest, e) ↦
        rw (hi, e)
          (record { order = refl; busy = λ h. cc; dropped = refl; at_most_one = omega arith })
    | inl reg ↦ elim (List-cases q.prequeue) [
      | inr (skb, rest, e) ↦
          rw (hi, reg, e)
            (record { order = refl; busy = λ h. cc; dropped = refl; at_most_one = omega arith })
      | inl pre ↦
          let kept = drop_skb_kept q in
          let empty : sendable q ≡ [] = rw (hi, reg, pre) refl in
          subst (IsSent q) (sym (dequeue_idle q hi reg pre))
            (record { order = kept.2; busy = λ h. empty; dropped = kept.0; at_most_one = kept.1 })
    ]
  ]
]

-- As many calls of `tsq_dequeue` as there are packets to send, with no packet in between that
-- comes, send all of them in order.
pub send_all : (n : ℕ) (q : TsqSchedData) → n ≡ length (sendable q) → (send_n n q).0 ≡ sendable q
unfolding send_n
send_all zero q e = sym (no_packets (sendable q) e)
  where
    no_packets : (xs : List SkBuff) → 0 ≡ length xs → xs ≡ []
    no_packets [] e = refl
    no_packets (x ∷ xs) e = absurd (omega (arith, e))
send_all (suc n) q e =
    let s = tsq_dequeue_lem q in
    elim (Option-cases (tsq_dequeue q).0) [
      | inl idle ↦ absurd (omega (arith, e, ap length (s.busy idle)))
      | inr (skb, some_skb) ↦
          let order : skb ∷ sendable (tsq_dequeue q).1 ≡ sendable q =
            ap (λ o. sent o ++ sendable (tsq_dequeue q).1) (sym some_skb) ∙ s.order in
          let rest = send_all n (tsq_dequeue q).1 (omega (arith, e, ap length order)) in
          ap (λ o. sent o ++ (send_n n (tsq_dequeue q).1).0) some_skb
          ∙ ap (λ l. skb ∷ l) rest
          ∙ order
    ]
  where
    Option-cases : (o : Option SkBuff) → (o ≡ none) ⊎ ((skb : SkBuff) × (o ≡ some skb))
    Option-cases none = inl refl
    Option-cases (some skb) = inr (skb, refl)
