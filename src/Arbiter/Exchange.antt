-- ===== src/Arbiter/Exchange.antt =====
-- kernel-mod/sch_fastpass.c, send_request, and arbiter/comm_core.c, handle_areq: the requests of
-- an endpoint as its arbiter reads them.
use flexplane.Base.{ℕ, ◌+◌, ◌^◌, ◌<◌, ◌≤◌, ◌≡◌, ◌==◌, Bool-cases, inl, inr, arith, List, [], ◌∷◌}
use mathlib.Core.Path.{subst}
use flexplane.Base.Checked.{ok}
use flexplane.GraphAlgo.Seq.Demand.{Status}
use flexplane.GraphAlgo.Seq.Demand.Conserve.{owed, IsIdleClear}
use flexplane.Protocol.Conn.{AreqDesc}
use flexplane.Protocol.Conn.Areqs.{wire, newest, highest}
use flexplane.Arbiter.Node.{EndNode, handle_areq}
use flexplane.Arbiter.Demands.{IsNear, AreNear, handle_areq-IsRequested}
use flexplane.Endpoint.Sched.{FpDst, FpSchedData}
use flexplane.Endpoint.Send.{fill_areqs, areq_fuel}
use flexplane.Endpoint.Inv.{IsFlow, IsValid}
use flexplane.Endpoint.Inv.Requests as Requested
use flexplane.Endpoint.Inv.Requests.{AreMade, AreFilled, filled-AreFilled}

-- The arbiter knows of each flow what was acked, and of nothing that was not requested; it has
-- room for what it does not know.
pub record IsBehind (dsts : ℕ → FpDst) (node_id : ℕ) (st : Status) (en : EndNode) : Type 0 where
  pub acked_le : (k : ℕ) → k < 64 → (dsts k).acked_tslots ≤ en.demands k
  pub le_requested : (k : ℕ) → k < 64 → en.demands k ≤ (dsts k).requested_tslots
  pub small : (k : ℕ) → k < 64 → (dsts k).acked_tslots + 2 ^ 15 < 2 ^ 32
  pub room :
      (k : ℕ) → k < 64 → owed st node_id k + (dsts k).acked_tslots + 2 ^ 15 < 2 ^ 32 + en.demands k
  pub idle : IsIdleClear st.backlog

-- Requests for nodes.
abbrev pub AreForNodes : List AreqDesc → Type 0
AreForNodes [] = Unit
AreForNodes (a ∷ rest) = (a.src_dst_key < 64) × AreForNodes rest

AreMade-AreNear :
    (dsts : ℕ → FpDst) (areqs : List AreqDesc)
    → ((k : ℕ) → k < 256 → IsFlow (dsts k))
    → AreMade dsts areqs
    → AreForNodes areqs
    → AreNear (λ k. (dsts k).acked_tslots) areqs
AreMade-AreNear dsts [] v made nodes = tt
AreMade-AreNear dsts (a ∷ rest) v made nodes =
    let window = (v a.src_dst_key made.0).in_window in
    (
      nodes.0,
      omega (arith, made.1),
      omega (arith, made.2, window),
      AreMade-AreNear dsts rest v made.3 nodes.1,
    )

highest-le :
    (areqs : List AreqDesc) (dsts : ℕ → FpDst) (k n : ℕ)
    → AreMade dsts areqs
    → n ≤ (dsts k).requested_tslots
    → highest areqs k n ≤ (dsts k).requested_tslots
highest-le [] dsts k n made le = le
highest-le (a ∷ rest) dsts k n made le = elim (Bool-cases (a.src_dst_key == k)) [
  | inr other ↦ rw other (highest-le rest dsts k n made.3 le)
  | inl same ↦
      let eq : a.src_dst_key ≡ k = ground arith in
      let made_k = subst (λ (j : ℕ). a.tslots ≤ (dsts j).requested_tslots) eq made.2 in
      rw same (highest-le rest dsts k (newest n a.tslots) made.3 (ground (arith, made_k)))
]

le-highest : (areqs : List AreqDesc) (k n : ℕ) → n ≤ highest areqs k n
le-highest [] k n = omega arith
le-highest (a ∷ rest) k n = elim (Bool-cases (a.src_dst_key == k)) [
  | inl same ↦ rw same (ground (arith, le-highest rest k (newest n a.tslots)))
  | inr other ↦ rw other (le-highest rest k n)
]

-- The flows before and after the packet is filled, and the arbiter between the two.
module _ (dsts dsts' : ℕ → FpDst) (node_id : ℕ)
    (changed : (k : ℕ) → Requested.IsRequested (dsts k) (dsts' k)) where
  behind-IsNear :
      (st : Status) (en : EndNode)
      → ((k : ℕ) → k < 256 → IsFlow (dsts k))
      → IsBehind dsts node_id st en
      → IsNear (λ k. (dsts' k).acked_tslots) node_id st en
  behind-IsNear st en v behind = record {
    low = λ k lt. omega (arith, behind.acked_le k lt, (changed k).acked);
    high = λ k lt.
        omega (arith, behind.le_requested k lt, (changed k).acked, (v k (omega arith)).in_window);
    small = λ k lt. omega (arith, behind.small k lt, (changed k).acked);
    room = λ k lt. omega (arith, behind.room k lt, (changed k).acked);
    idle = behind.idle;
  }

  near-IsBehind :
      (areqs : List AreqDesc) (st st' : Status) (en en' : EndNode)
      → AreMade dsts' areqs
      → IsBehind dsts node_id st en
      → IsNear (λ k. (dsts' k).acked_tslots) node_id st' en'
      → ((k : ℕ) → en'.demands k ≡ highest areqs k (en.demands k))
      → IsBehind dsts' node_id st' en'
  near-IsBehind areqs st st' en en' made behind near reached = record {
    acked_le = near.low;
    le_requested = λ k lt.
        let old : en.demands k ≤ (dsts' k).requested_tslots =
          omega (arith, behind.le_requested k lt, (changed k).grown) in
        let high = highest-le areqs dsts' k (en.demands k) made old in
        omega (arith, reached k, high);
    small = near.small;
    room = near.room;
    idle = near.idle;
  }

-- A packet of requests for nodes that a valid endpoint fills, read by an arbiter that knows of
-- each flow to a node what was acked and of nothing that was not requested, and that has room:
-- `handle_areq` fires no assert, the arbiter's demand for each flow becomes the highest of its
-- old one and the packet's requests, though only 16 bits of each are sent, and the arbiter then
-- again knows what was acked and nothing that was not requested.
pub requests-IsBehind :
    (q : FpSchedData) (r : List AreqDesc × FpSchedData) (st : Status) (en : EndNode)
    (node_id now : ℕ)
    → IsValid q
    → fill_areqs areq_fuel [] q ≡ ok r
    → AreForNodes r.0
    → node_id < 64
    → IsBehind q.dsts node_id st en
    → (st' : Status) × (en' : EndNode) × (handle_areq st en node_id (wire r.0) now ≡ ok (st', en'))
      × ((k : ℕ) → en'.demands k ≡ highest r.0 k (en.demands k))
      × IsBehind r.1.dsts node_id st' en'
requests-IsBehind q r st en node_id now v filled nodes hn behind =
    let f = filled-AreFilled q r v filled in
    let base = λ (k : ℕ). (r.1.dsts k).acked_tslots in
    let near = behind-IsNear q.dsts r.1.dsts node_id f.counters st en v.flows behind in
    let (st', en', done, near', reached) =
      handle_areq-IsRequested r.0 base st en node_id now hn near
        (AreMade-AreNear r.1.dsts r.0 f.valid.flows f.sent nodes) in
    (
      st',
      en',
      done,
      reached.demands,
      near-IsBehind q.dsts r.1.dsts node_id f.counters r.0 st st' en en' f.sent behind near'
          reached.demands,
    )
