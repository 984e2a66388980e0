-- ===== src/Tsq/Inv.antt =====
-- kernel-mod/sch_timeslot.c: the invariant of the flows and their timeslots.
pub mod Slots
pub mod Enqueued
pub mod Handled
pub mod Renumbered
pub mod Resized
use flexplane.Base.{
  ℕ, ◌+◌, ◌-◌, ◌^◌, ◌<◌, ◌≤◌, ◌≡◌, ◌≢◌, ◌⊎◌, inl, inr, refl, sym, ap, ◌∙◌, ◌==◌, ltb, leb, Bool,
  true, false, not, ◌&&◌, if◌then◌else◌, Bool-cases, ==-refl, List, [], ◌∷◌, ◌++◌, length, arith,
  sub64, add64, add32,
}
use flexplane.Base.Table.{update, update_lem}
use flexplane.Tsq.Packet.{SkBuff}
use flexplane.Tsq.Tree.{Tree, find, link, holds, IsOrdered, link-IsOrdered, find-holds, holds-link}
use flexplane.Tsq.Sched.{
  Kernel, TimeslotSkbQ, TsqDst, TsqSchedData, hash_cell, empty_dst, dst_lookup,
}

-- What the code relies on: rebalancing a tree keeps its order and its keys, and sending a packet
-- takes some time, but less than 2 ^ 62 ns.
pub record IsKernel (kernel : Kernel) : Type 0 where
  pub rebalanced : (t : Tree) → IsOrdered t → IsOrdered (kernel.rb_insert_color t)
  pub same_keys : (t : Tree) (k : ℕ) → holds (kernel.rb_insert_color t) k ≡ holds t k
  pub cost_positive : (len : ℕ) → 0 < kernel.psched_l2t_ns len
  pub cost_small : (len : ℕ) → kernel.psched_l2t_ns len < 2 ^ 62

-- Whether there is a flow of the key.
abbrev pub present : Kernel → TsqSchedData → ℕ → Bool
present kernel q k = find (q.dst_hash_tbl (hash_cell kernel q.hash_tbl_log k)) k

-- The timeslots that wait for a key.
abbrev pub slots : Kernel → TsqSchedData → ℕ → List TimeslotSkbQ
slots kernel q k = if present kernel q k then (q.dsts k).skb_qs else []

-- The time to send some packets.
abbrev pub cost : Kernel → List SkBuff → ℕ
cost kernel [] = 0
cost kernel (skb ∷ skbs) = kernel.psched_l2t_ns skb.pkt_len + cost kernel skbs

pub cost-append :
    (kernel : Kernel) (xs ys : List SkBuff)
    → cost kernel (xs ++ ys) ≡ cost kernel xs + cost kernel ys
cost-append kernel [] ys = omega arith
cost-append kernel (x ∷ xs) ys = omega (arith, cost-append kernel xs ys)

-- The packets of a timeslot fit in it, or it is one packet that is larger than a timeslot.
pub record IsSlot (kernel : Kernel) (len : ℕ) (t : TimeslotSkbQ) : Type 0 where
  pub some_skb : 0 < length t.skbs
  pub fits : (cost kernel t.skbs ≤ len) ⊎ (length t.skbs ≡ 1)
  pub bounded : cost kernel t.skbs < 2 ^ 62

abbrev pub AreSlots : Kernel → ℕ → List TimeslotSkbQ → Type 0
AreSlots kernel len [] = Unit
AreSlots kernel len (t ∷ ts) = IsSlot kernel len t × AreSlots kernel len ts

-- The credit is what the newest timeslot has left, as a 64-bit word.
abbrev pub IsCredit : Kernel → ℕ → List TimeslotSkbQ → ℕ → Type 0
IsCredit kernel len [] credit = credit ≡ 0
IsCredit kernel len (t ∷ []) credit = credit ≡ sub64 len (cost kernel t.skbs)
IsCredit kernel len (t ∷ t' ∷ ts) credit = IsCredit kernel len (t' ∷ ts) credit

pub record IsDst (kernel : Kernel) (len : ℕ) (d : TsqDst) : Type 0 where
  pub slots : AreSlots kernel len d.skb_qs
  pub credit : IsCredit kernel len d.skb_qs d.credit

-- The table of flows, whatever the lock is.
pub record IsTable (kernel : Kernel) (q : TsqSchedData) : Type 0 where
  pub len_small : q.tslot_len_approx < 2 ^ 32
  pub ordered : (cell : ℕ) → IsOrdered (q.dst_hash_tbl cell)
  pub flows : (k : ℕ) → present kernel q k ≡ true → IsDst kernel q.tslot_len_approx (q.dsts k)

pub record IsValid (kernel : Kernel) (q : TsqSchedData) : Type 0 where
  pub unlocked : q.hash_tbl_locked ≡ false
  pub table : IsTable kernel q

-- A tree with a new key.
pub find_after_insert :
    (kernel : Kernel) (t : Tree) (x y : ℕ)
    → IsKernel kernel
    → IsOrdered t
    → find (kernel.rb_insert_color (link t x)) y ≡ (if x == y then true else find t y)
find_after_insert kernel t x y ok_kernel v =
    find-holds _ y (ok_kernel.rebalanced _ (link-IsOrdered t x v))
    ∙ ok_kernel.same_keys (link t x) y
    ∙ holds-link t x y
    ∙ ap (λ b. if x == y then true else b) (sym (find-holds t y v))

-- The table with a new, empty flow.
abbrev pub created : Kernel → TsqSchedData → ℕ → TsqSchedData
created kernel q key =
    let cell = hash_cell kernel q.hash_tbl_log key in
    record q {
      dst_hash_tbl =
          update q.dst_hash_tbl cell (kernel.rb_insert_color (link (q.dst_hash_tbl cell) key));
      dsts = update q.dsts key empty_dst;
      flows = add32 q.flows 1;
      inactive_flows = add32 q.inactive_flows 1;
    }

present-created :
    (kernel : Kernel) (q : TsqSchedData) (key k : ℕ)
    → IsKernel kernel
    → IsTable kernel q
    → present kernel (created kernel q key) k ≡ (if key == k then true else present kernel q k)
present-created kernel q key k ok_kernel v =
    let cell = hash_cell kernel q.hash_tbl_log key in
    let at = hash_cell kernel q.hash_tbl_log k in
    let new = kernel.rb_insert_color (link (q.dst_hash_tbl cell) key) in
    let inserted =
      find_after_insert kernel (q.dst_hash_tbl cell) key k ok_kernel (v.ordered cell) in
    elim (Bool-cases (cell == at)) [
      | inl same ↦
          let e : cell ≡ at = ground arith in
          rw (update_lem q.dst_hash_tbl cell at new, same)
            (inserted ∙ ap (λ (c : ℕ). if key == k then true else find (q.dst_hash_tbl c) k) e)
      | inr other ↦ elim (Bool-cases (key == k)) [
        | inl same_key ↦
            let e : key ≡ k = ground arith in
            let e' : cell ≡ at = ap (hash_cell kernel q.hash_tbl_log) e in
            absurd (ground (arith, e', other))
        | inr other_key ↦ rw (update_lem q.dst_hash_tbl cell at new, other, other_key) refl
      ]
    ]

empty_dst-IsDst : (kernel : Kernel) (len : ℕ) → IsDst kernel len empty_dst
empty_dst-IsDst kernel len = record { slots = tt; credit = refl }

created-IsTable :
    (kernel : Kernel) (q : TsqSchedData) (key : ℕ)
    → IsKernel kernel
    → IsTable kernel q
    → IsTable kernel (created kernel q key)
created-IsTable kernel q key ok_kernel v = record {
  len_small = v.len_small;
  ordered = λ c.
      let cell = hash_cell kernel q.hash_tbl_log key in
      let new = kernel.rb_insert_color (link (q.dst_hash_tbl cell) key) in
      elim (Bool-cases (cell == c)) [
        | inl same ↦
            rw (update_lem q.dst_hash_tbl cell c new, same)
              (ok_kernel.rebalanced _ (link-IsOrdered _ key (v.ordered cell)))
        | inr other ↦ rw (update_lem q.dst_hash_tbl cell c new, other) (v.ordered c)
      ];
  flows = λ k there. elim (Bool-cases (key == k)) [
    | inl same ↦
        rw (update_lem q.dsts key k empty_dst, same) (empty_dst-IsDst kernel q.tslot_len_approx)
    | inr other ↦
        let before : present kernel q k ≡ true =
          ap (λ b. if b then true else present kernel q k) (sym other)
          ∙ sym (present-created kernel q key k ok_kernel v)
          ∙ there in
        rw (update_lem q.dsts key k empty_dst, other) (v.flows k before)
  ];
}

-- A new flow has no timeslots, and the other flows keep theirs.
slots-created :
    (kernel : Kernel) (q : TsqSchedData) (key k : ℕ)
    → IsKernel kernel
    → IsTable kernel q
    → present kernel q key ≡ false
    → slots kernel (created kernel q key) k ≡ slots kernel q k
slots-created kernel q key k ok_kernel v absent = elim (Bool-cases (key == k)) [
  | inl same ↦
      let e : key ≡ k = ground arith in
      let absent' : present kernel q k ≡ false = ap (present kernel q) (sym e) ∙ absent in
      rw
        (
          present-created kernel q key k ok_kernel v,
          same,
          update_lem q.dsts key k empty_dst,
          same,
          absent',
        )
        refl
  | inr other ↦
      rw
        (
          present-created kernel q key k ok_kernel v,
          other,
          update_lem q.dsts key k empty_dst,
          other,
        )
        refl
]

-- After a lookup that may create the flow, where there is memory, the flow is there.
pub record IsLookedUp (kernel : Kernel) (q : TsqSchedData) (key : ℕ) (q' : TsqSchedData)
    : Type 0 where
  pub table : IsTable kernel q'
  pub there : present kernel q' key ≡ true
  pub same_slots : (k : ℕ) → slots kernel q' k ≡ slots kernel q k

-- On a valid table `dst_lookup` finds or creates the flow of a key, where there is memory. The
-- table stays valid, and every flow keeps its timeslots.
pub dst_lookup_creates :
    (kernel : Kernel) (q : TsqSchedData) (key : ℕ)
    → IsKernel kernel
    → IsTable kernel q
    → (q' : TsqSchedData) × (dst_lookup kernel q key true true ≡ (true, q'))
      × IsLookedUp kernel q key q'
      × ((q' ≡ q) ⊎ (q' ≡ created kernel q key))
unfolding dst_lookup
dst_lookup_creates kernel q key ok_kernel v = elim (Bool-cases (present kernel q key)) [
  | inl there ↦
      (q, rw there refl, record { table = v; there = there; same_slots = λ k. refl }, inl refl)
  | inr absent ↦ (
    created kernel q key,
    rw absent refl,
    record {
      table = created-IsTable kernel q key ok_kernel v;
      there = present-created kernel q key key ok_kernel v ∙ rw (==-refl key) refl;
      same_slots = λ k. slots-created kernel q key k ok_kernel v absent;
    },
    inr refl,
  )
]
