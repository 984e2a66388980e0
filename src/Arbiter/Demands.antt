-- ===== src/Arbiter/Demands.antt =====
-- arbiter/comm_core.c: handle_areq, the requests of an end node.
use flexplane.Base.{
  ℕ, ◌+◌, ◌-◌, ◌%◌, ◌^◌, ◌<◌, ◌≤◌, ◌≡◌, refl, ap, ◌∙◌, true, false, ◌&&◌, ◌==◌, ltb, if◌then◌else◌,
  Bool-cases, inl, inr, arith, List, [], ◌∷◌, ◌++◌, sub32,
}
use mathlib.Core.Path.{subst}
use flexplane.Base.Bits.{bit_and-mask}
use flexplane.Base.Checked.{ok}
use flexplane.Base.Table.{update, update_lem}
use flexplane.GraphAlgo.Seq.Demand.{Status}
use flexplane.GraphAlgo.Seq.Demand.Conserve.{owed, IsIdleClear, seq_add_backlog_lem}
use flexplane.Protocol.Conn.{AreqDesc}
use flexplane.Protocol.Conn.Areqs.{wire, newest, highest}
use flexplane.Arbiter.Node.{
  EndNode, after32, full_demand, request_flow, request_flows, handle_areq, trigger_request,
}

-- A demand comes back from its 16 low bits, where it and the old one are in one range of 2 ^ 15.
pub full_demand_lem :
    (orig_demand t base : ℕ)
    → base ≤ orig_demand
    → orig_demand < base + 2 ^ 15
    → base ≤ t
    → t < base + 2 ^ 15
    → base + 2 ^ 15 < 2 ^ 32
    → full_demand orig_demand (t % 2 ^ 16) ≡ t
unfolding full_demand
full_demand_lem orig_demand t base a b c d small =
    let demand = sub32 orig_demand (2 ^ 15) in
    omega (arith, bit_and-mask 16 (sub32 (t % 2 ^ 16) demand))

-- The demands of a node are in the ranges from `base` on, and the allocator has room for more.
pub record IsNear (base : ℕ → ℕ) (node_id : ℕ) (st : Status) (en : EndNode) : Type 0 where
  pub low : (k : ℕ) → k < 64 → base k ≤ en.demands k
  pub high : (k : ℕ) → k < 64 → en.demands k < base k + 2 ^ 15
  pub small : (k : ℕ) → k < 64 → base k + 2 ^ 15 < 2 ^ 32
  pub room : (k : ℕ) → k < 64 → owed st node_id k + base k + 2 ^ 15 < 2 ^ 32 + en.demands k
  pub idle : IsIdleClear st.backlog

-- Requests of nodes, for demands in the same ranges.
abbrev pub AreNear : (ℕ → ℕ) → List AreqDesc → Type 0
AreNear base [] = Unit
AreNear base (a ∷ rest) =
    (a.src_dst_key < 64)
    × (base a.src_dst_key ≤ a.tslots)
    × (a.tslots < base a.src_dst_key + 2 ^ 15)
    × AreNear base rest

-- The demands become as given, and what the allocator owes grows by as much.
pub record IsRequested (node_id : ℕ) (st : Status) (en : EndNode) (st' : Status) (en' : EndNode)
    (demand : ℕ → ℕ) : Type 0 where
  pub demands : (k : ℕ) → en'.demands k ≡ demand k
  pub owes :
      (s d : ℕ)
      → s < 256
      → d < 256
      → owed st' s d + (if node_id == s then en.demands d else 0)
        ≡ owed st s d + (if node_id == s then demand d else 0)

no_newer : (n m : ℕ) → ltb n m ≡ false → newest n m ≡ n
no_newer n m old = rw old refl

kept : (demands : ℕ → ℕ) (id k : ℕ) → demands k ≡ (if id == k then demands id else demands k)
kept demands id k = elim (Bool-cases (id == k)) [
  | inl same ↦ let eq : id ≡ k = ground arith in rw (same, eq) refl
  | inr other ↦ rw other refl
]

-- What one request changes, for any flow.
one_request :
    (node_id : ℕ) (st : Status) (en : EndNode) (st' : Status) (en' : EndNode) (a : AreqDesc)
    → ((k : ℕ)
        → en'.demands k ≡ (
            if a.src_dst_key == k
            then newest (en.demands a.src_dst_key) a.tslots
            else en.demands k))
    → ((s d : ℕ)
        → s < 256
        → d < 256
        → owed st' s d
          ≡ (if (node_id == s) && (a.src_dst_key == d)
              then newest (en.demands a.src_dst_key) a.tslots - en.demands a.src_dst_key
              else 0)
            + owed st s d)
    → IsRequested node_id st en st' en' (λ k. highest (a ∷ []) k (en.demands k))
one_request node_id st en st' en' a stored grown = record {
  demands = λ k. elim (Bool-cases (a.src_dst_key == k)) [
    | inl same ↦
        let eq : a.src_dst_key ≡ k = ground arith in
        rw (stored k, same) (ap (λ (j : ℕ). newest (en.demands j) a.tslots) eq)
    | inr other ↦ rw (stored k, other) refl
  ];
  owes = λ s d hs hd. elim (Bool-cases (a.src_dst_key == d)) [
    | inl same ↦
        let eq : a.src_dst_key ≡ d = ground arith in
        let e = ap (λ (j : ℕ). newest (en.demands j) a.tslots - en.demands j) eq in
        ground (arith, grown s d hs hd, same, e)
    | inr other ↦ ground (arith, grown s d hs hd, other)
  ];
}

-- The ranges are kept by requests within them.
still-IsNear :
    (base : ℕ → ℕ) (node_id : ℕ) (st : Status) (en : EndNode) (st' : Status) (en' : EndNode)
    (a : AreqDesc)
    → node_id < 64
    → IsNear base node_id st en
    → base a.src_dst_key ≤ a.tslots
    → a.tslots < base a.src_dst_key + 2 ^ 15
    → IsIdleClear st'.backlog
    → IsRequested node_id st en st' en' (λ k. highest (a ∷ []) k (en.demands k))
    → IsNear base node_id st' en'
still-IsNear base node_id st en st' en' a hn near low high idle' r =
    let demand_range : (k : ℕ)
        → k < 64
        → (base k ≤ en'.demands k) × (en'.demands k < base k + 2 ^ 15) =
      λ k lt. elim (Bool-cases (a.src_dst_key == k)) [
        | inl same ↦
            let eq : a.src_dst_key ≡ k = ground arith in
            let low_k = subst (λ (j : ℕ). base j ≤ a.tslots) eq low in
            let high_k = subst (λ (j : ℕ). a.tslots < base j + 2 ^ 15) eq high in
            rw (r.demands k, same) (ground (arith, near.low k lt), ground (arith, near.high k lt))
        | inr other ↦ rw (r.demands k, other) (near.low k lt, near.high k lt)
      ] in
    record {
      low = λ k lt. (demand_range k lt).0;
      high = λ k lt. (demand_range k lt).1;
      small = near.small;
      room = λ k lt.
          ground (arith, near.room k lt, r.owes node_id k (omega arith) (omega arith), r.demands k);
      idle = idle';
    }

request_flow_lem :
    (base : ℕ → ℕ) (st : Status) (en : EndNode) (node_id : ℕ) (a : AreqDesc)
    → node_id < 64
    → IsNear base node_id st en
    → a.src_dst_key < 64
    → base a.src_dst_key ≤ a.tslots
    → a.tslots < base a.src_dst_key + 2 ^ 15
    → (st' : Status) × (en' : EndNode) × (request_flow st en node_id a.src_dst_key
          (a.tslots % 2 ^ 16)
        ≡ ok (st', en'))
      × IsNear base node_id st' en'
      × (en'.tx_timer ≡ en.tx_timer)
      × IsRequested node_id st en st' en' (λ k. highest (a ∷ []) k (en.demands k))
unfolding request_flow
request_flow_lem base st en node_id a hn near known low high =
    let id = a.src_dst_key in
    let t = a.tslots in
    let orig = en.demands id in
    let full =
      full_demand_lem orig t (base id) (near.low id known) (near.high id known) low high
        (near.small id known) in
    elim (Bool-cases (ltb orig t)) [
      | inr old ↦
          let test : after32 t orig ≡ false =
            ground (arith, near.high id known, near.small id known) in
          (
            st,
            en,
            rw (full, test) refl,
            near,
            refl,
            one_request node_id st en st en a (λ k. rw (no_newer orig t old) (kept en.demands id k))
                (λ s d hs hd. rw (no_newer orig t old) (ground arith)),
          )
      | inl more ↦
          let test : after32 t orig ≡ true = ground (arith, near.low id known) in
          let amount : sub32 t orig ≡ t - orig = ground (arith, near.small id known) in
          let (st', done, idle', grown) =
            seq_add_backlog_lem st node_id id (t - orig) (omega arith) (omega arith) (ground arith)
              (ground (arith, near.low id known))
              (ground (arith, near.room id known, near.small id known)) near.idle in
          let en' : EndNode = record en { demands = update en.demands id t } in
          let newer : newest orig t ≡ t = rw more refl in
          let r =
            one_request node_id st en st' en' a (λ k. rw newer (update_lem en.demands id k t))
              (λ s d hs hd. rw newer (grown s d hs hd)) in
          (
            st',
            en',
            rw (full, test, amount, done) refl,
            still-IsNear base node_id st en st' en' a hn near low high idle' r,
            refl,
            r,
          )
    ]

-- Only the demands of a node matter.
IsRequested-same :
    (node_id : ℕ) (st : Status) (en : EndNode) (st' : Status) (en' en'' : EndNode) (demand : ℕ → ℕ)
    → en''.demands ≡ en'.demands
    → IsRequested node_id st en st' en' demand
    → IsRequested node_id st en st' en'' demand
IsRequested-same node_id st en st' en' en'' demand same r = record {
  demands = λ k. ap (λ (f : ℕ → ℕ). f k) same ∙ r.demands k;
  owes = r.owes;
}

chain-IsRequested :
    (node_id : ℕ) (st st1 st2 : Status) (en en1 en2 : EndNode) (a : AreqDesc) (rest : List AreqDesc)
    → IsRequested node_id st en st1 en1 (λ k. highest (a ∷ []) k (en.demands k))
    → IsRequested node_id st1 en1 st2 en2 (λ k. highest rest k (en1.demands k))
    → IsRequested node_id st en st2 en2 (λ k. highest (a ∷ rest) k (en.demands k))
chain-IsRequested node_id st st1 st2 en en1 en2 a rest x y = record {
  demands = λ k. y.demands k ∙ ap (λ n. highest rest k n) (x.demands k);
  owes = λ s d hs hd.
      let e = ap (λ n. highest rest d n) (x.demands d) in
      ground (arith, x.owes s d hs hd, y.owes s d hs hd, e, x.demands d);
}

request_flows_lem :
    (areqs : List AreqDesc) (base : ℕ → ℕ) (st : Status) (en : EndNode) (node_id : ℕ)
    → node_id < 64
    → IsNear base node_id st en
    → AreNear base areqs
    → (st' : Status) × (en' : EndNode) × (request_flows (wire areqs) st en node_id
        ≡ ok (true, st', en'))
      × ((more : List ℕ)
          → request_flows (wire areqs ++ more) st en node_id ≡ request_flows more st' en' node_id)
      × IsNear base node_id st' en'
      × (en'.tx_timer ≡ en.tx_timer)
      × IsRequested node_id st en st' en' (λ k. highest areqs k (en.demands k))
unfolding request_flows
request_flows_lem [] base st en node_id hn near known = (
  st,
  en,
  refl,
  λ more. refl,
  near,
  refl,
  record { demands = λ k. refl; owes = λ s d hs hd. refl },
)
request_flows_lem (a ∷ rest) base st en node_id hn near known =
    let in_range : (ltb node_id 64 && ltb a.src_dst_key 64) ≡ true = ground (arith, known.0) in
    let (st1, en1, done, near1, timer, first) =
      request_flow_lem base st en node_id a hn near known.0 known.1 known.2 in
    let (st2, en2, done2, tail, near2, timer2, others) =
      request_flows_lem rest base st1 en1 node_id hn near1 known.3 in
    (
      st2,
      en2,
      rw (in_range, done) done2,
      λ more. rw (in_range, done) (tail more),
      near2,
      timer2 ∙ timer,
      chain-IsRequested node_id st st1 st2 en en1 en2 a rest first others,
    )

trigger_request_demands : (en : EndNode) (now : ℕ) → (trigger_request en now).demands ≡ en.demands
unfolding trigger_request
trigger_request_demands en now = ground arith

IsNear-same :
    (base : ℕ → ℕ) (node_id : ℕ) (st : Status) (en en' : EndNode)
    → en'.demands ≡ en.demands
    → IsNear base node_id st en
    → IsNear base node_id st en'
IsNear-same base node_id st en en' same near = record {
  low = rw same near.low;
  high = rw same near.high;
  small = near.small;
  room = rw same near.room;
  idle = near.idle;
}

-- Where a node, its old demands and the requested ones lie in ranges of 2 ^ 15 below 2 ^ 32, one
-- for each of its flows to a node, and the allocator has room, `handle_areq` reads the requests
-- from the 16 bits that are sent of each and fires no assert. The demand for each flow becomes
-- the highest of the old one and the requests, whatever their order; what the allocator owes each
-- pair of the node grows by as much, and other pairs are owed what they were. The ranges and the
-- room stay.
pub handle_areq-IsRequested :
    (areqs : List AreqDesc) (base : ℕ → ℕ) (st : Status) (en : EndNode) (node_id now : ℕ)
    → node_id < 64
    → IsNear base node_id st en
    → AreNear base areqs
    → (st' : Status) × (en' : EndNode) × (handle_areq st en node_id (wire areqs) now
        ≡ ok (st', en'))
      × IsNear base node_id st' en'
      × IsRequested node_id st en st' en' (λ k. highest areqs k (en.demands k))
unfolding handle_areq
handle_areq-IsRequested areqs base st en node_id now hn near known =
    let (st', en', done, _, near', _, r) =
      request_flows_lem areqs base st en node_id hn near known in
    (
      st',
      trigger_request en' now,
      rw done refl,
      IsNear-same base node_id st' en' (trigger_request en' now) (trigger_request_demands en' now)
          near',
      IsRequested-same node_id st en st' en' (trigger_request en' now)
          (λ k. highest areqs k (en.demands k)) (trigger_request_demands en' now) r,
    )

-- Where a node, its demands and the first requests lie in ranges of 2 ^ 15 below 2 ^ 32, and the
-- allocator has room, a request for a destination that is no node ends `handle_areq` without a
-- failed assert: the requests before it count as they would alone, whatever follows it, and no
-- packet is triggered.
pub handle_areq_stops :
    (areqs : List AreqDesc) (base : ℕ → ℕ) (st : Status) (en : EndNode) (node_id dst count : ℕ)
    (rest : List ℕ) (now : ℕ)
    → node_id < 64
    → IsNear base node_id st en
    → AreNear base areqs
    → 64 ≤ dst
    → (st' : Status) × (en' : EndNode) × (handle_areq st en node_id
          (wire areqs ++ dst ∷ count ∷ rest)
          now
        ≡ ok (st', en'))
      × (request_flows (wire areqs) st en node_id ≡ ok (true, st', en'))
      × (en'.tx_timer ≡ en.tx_timer)
unfolding handle_areq request_flows
handle_areq_stops areqs base st en node_id dst count rest now hn near known out =
    let (st', en', done, tail, _, timer, _) =
      request_flows_lem areqs base st en node_id hn near known in
    let out_of_range : (ltb node_id 64 && ltb dst 64) ≡ false = ground arith in
    let stops : request_flows (dst ∷ count ∷ rest) st' en' node_id ≡ ok (false, st', en') =
      rw out_of_range refl in
    (st', en', rw (tail (dst ∷ count ∷ rest), stops) refl, done, timer)
