-- ===== src/GraphAlgo/Seq/Demand/Conserve.antt =====
-- graph-algo/admissible_traffic.c: what the allocator owes a pair of nodes, for seq_add_backlog
-- and the flows of seq_handle_spent.
use flexplane.Base.{
  ℕ, ◌+◌, ◌*◌, ◌^◌, ◌<◌, ◌≡◌, refl, ap, ◌∙◌, sym, true, false, ◌&&◌, ◌==◌, if◌then◌else◌,
  Bool-cases, inl, inr, arith, List, [], ◌∷◌, ◌++◌, length, u16, u32,
}
use mathlib.Core.List.{append_assoc, append-nil}
use flexplane.Base.Checked.{ok}
use flexplane.Base.Table.{update, update_lem}
use flexplane.GraphAlgo.Backlog.{Backlog, backlog_index, backlog_get, backlog_increase}
use flexplane.GraphAlgo.Bin.{Bin, BacklogEdge, enqueue_bin}
use flexplane.GraphAlgo.Seq.Demand.{Status, get_status_index, enqueue_new_demand, seq_add_backlog}

unfoldable pub flatten : List Bin → Bin
flatten [] = []
flatten (b ∷ bs) = b ++ flatten bs

flatten-append : (bs : List Bin) (b : Bin) → flatten (bs ++ (b ∷ [])) ≡ flatten bs ++ b
unfolding flatten
flatten-append [] b = append-nil b
flatten-append (x ∷ bs) b =
    ap (λ r. x ++ r) (flatten-append bs b) ∙ sym (append_assoc x (flatten bs) b)

-- The flows that wait for a core, oldest first.
abbrev pub pending : Status → Bin
pending st = flatten st.q_head ++ st.new_demands

-- The backlog of a pair in a list of flows.
unfoldable pub demand_in : Bin → ℕ → ℕ → ℕ
demand_in [] src dst = 0
demand_in (e ∷ es) src dst =
    (if (e.src == src) && (e.dst == dst) then e.backlog else 0) + demand_in es src dst

demand_in-append :
    (xs ys : Bin) (src dst : ℕ)
    → demand_in (xs ++ ys) src dst ≡ demand_in xs src dst + demand_in ys src dst
unfolding demand_in
demand_in-append [] ys src dst = omega arith
demand_in-append (x ∷ xs) ys src dst = omega (arith, demand_in-append xs ys src dst)

-- What the allocator owes a pair before it reaches a core: the waiting flows, and the amounts
-- that came while the pair was active.
abbrev pub owed : Status → ℕ → ℕ → ℕ
owed st src dst = demand_in (pending st) src dst + backlog_get st.backlog src dst

-- Only active pairs have a backlog.
abbrev pub IsIdleClear : Backlog → Type 0
IsIdleClear b = (i : ℕ) → b.is_active i ≡ false → b.n i ≡ 0

pending-enqueue :
    (st : Status) (src dst amount : ℕ)
    → (e : BacklogEdge) × (e.src ≡ u16 src)
      × (e.dst ≡ u16 dst)
      × (e.backlog ≡ u16 amount)
      × (pending (enqueue_new_demand st src dst amount) ≡ pending st ++ (e ∷ []))
      × ((enqueue_new_demand st src dst amount).backlog ≡ st.backlog)
unfolding enqueue_new_demand enqueue_bin
pending-enqueue st src dst amount =
    let e : BacklogEdge = record {
      src = u16 src;
      dst = u16 dst;
      backlog = u16 amount;
      metric = u32 (st.last_alloc_tslot (get_status_index src dst));
    } in
    elim (Bool-cases (length (st.new_demands ++ (e ∷ [])) == 32)) [
      | inl full ↦ (
        e,
        refl,
        refl,
        refl,
        rw full (
            append-nil (flatten (st.q_head ++ ((st.new_demands ++ (e ∷ [])) ∷ [])))
            ∙ flatten-append st.q_head (st.new_demands ++ (e ∷ []))
            ∙ sym (append_assoc (flatten st.q_head) st.new_demands (e ∷ []))),
        rw full refl,
      )
      | inr room ↦ (
        e,
        refl,
        refl,
        refl,
        rw room (sym (append_assoc (flatten st.q_head) st.new_demands (e ∷ []))),
        rw room refl,
      )
    ]

-- One waiting flow more.
demand-enqueue :
    (st : Status) (src dst amount s d : ℕ)
    → src < 256
    → dst < 256
    → demand_in (pending (enqueue_new_demand st src dst amount)) s d
      ≡ (if (src == s) && (dst == d) then u16 amount else 0) + demand_in (pending st) s d
unfolding demand_in
demand-enqueue st src dst amount s d hs hd =
    let (e, same_src, same_dst, same_amount, more, _) = pending-enqueue st src dst amount in
    ap (λ l. demand_in l s d) more
    ∙ demand_in-append (pending st) (e ∷ []) s d
    ∙ ground (arith, same_src, same_dst, same_amount)

-- Where only active pairs have a backlog, a request for a pair of nodes fires no assert, raises
-- what the pair is owed by its amount, changes no other pair, and leaves only active pairs with a
-- backlog. The amount is positive and fits 16 bits, and the sum fits 32.
pub seq_add_backlog_lem :
    (st : Status) (src dst amount : ℕ)
    → src < 256
    → dst < 256
    → 0 < amount
    → amount < 65536
    → backlog_get st.backlog src dst + amount < 2 ^ 32
    → IsIdleClear st.backlog
    → (st' : Status) × (seq_add_backlog st src dst amount ≡ ok st')
      × IsIdleClear st'.backlog
      × ((s d : ℕ)
          → s < 256
          → d < 256
          → owed st' s d ≡ (if (src == s) && (dst == d) then amount else 0) + owed st s d)
unfolding seq_add_backlog backlog_increase backlog_get backlog_index
seq_add_backlog_lem st src dst amount hs hd pos ha fits idle =
    let i = src * 256 + dst in
    let b = st.backlog in
    let nonzero : (amount == 0) ≡ false = ground arith in
    elim (Bool-cases (b.is_active i)) [
      | inl active ↦
          let raised : Backlog = record b { n = update b.n i (u32 (b.n i + amount)) } in
          (
            record st { backlog = raised },
            rw (nonzero, active) refl,
            λ j off. ground (arith, idle j, active, update_lem b.n i j (u32 (b.n i + amount))),
            λ s d ps pd. ground (arith, update_lem b.n i (s * 256 + d) (u32 (b.n i + amount))),
          )
      | inr was_idle ↦
          let clear : b.n i ≡ 0 = idle i was_idle in
          let clear_test : (b.n i == 0) ≡ true = rw clear refl in
          let active : Backlog = record b { is_active = update b.is_active i true } in
          let kept : Status = record st { backlog = active } in
          let same = (pending-enqueue kept src dst amount).5 in
          (
            enqueue_new_demand kept src dst amount,
            rw (nonzero, was_idle, clear_test) refl,
            rw same (λ j off. ground (arith, idle j, update_lem b.is_active i j true)),
            λ s d ps pd. rw same (ground (arith, demand-enqueue kept src dst amount s d hs hd)),
          )
    ]
