-- ===== src/Tsq/Inv/Resized.antt =====
-- kernel-mod/sch_timeslot.c: a hash table of another size has the same flows.
pub mod Moved
use flexplane.Base.{
  ℕ, zero, suc, ◌+◌, ◌-◌, ◌*◌, ◌/◌, ◌^◌, ◌==◌, ◌<◌, ◌≤◌, ◌≡◌, refl, sym, ap, ◌∙◌, inl, inr, ltb,
  Bool, true, false, ◌&&◌, ◌||◌, if◌then◌else◌, Bool-cases, ==-refl, arith, u32, [],
}
use native.Mathlib.Nat.{
  one-le-pow, pow-suc, mul_assoc, add-suc, add-zero, mul-one, div-lt_iff_lt-mul,
}
use flexplane.Base.Checked.{ok}
use flexplane.Base.Table.{update, update_lem}
use flexplane.Tsq.Tree.{
  Tree, leaf, node, find, link, holds, IsOrdered, link-IsOrdered, find-holds, holds-link,
  above-holds, below-holds,
}
use flexplane.Tsq.Sched.{
  Kernel, TsqSchedData, src_dst_key_hash, hash_cell, lock_table, unlock_table,
}
use flexplane.Tsq.Inv.{IsKernel, IsValid, present, slots, created}
use flexplane.Tsq.Inv.Resized.Moved.{IsBuilt, IsPlaced, before, rehash_cells_lem}
use flexplane.Tsq.Resize.{rehash_flow, rehash_tree, rehash_cells, rehash_dst_table, tsq_tc_resize}

two_pow-add : (m n : ℕ) → 2 ^ (m + n) ≡ 2 ^ m * 2 ^ n
two_pow-add m zero = ap (λ (i : ℕ). 2 ^ i) (add-zero m) ∙ sym (mul-one (2 ^ m))
two_pow-add m (suc n) =
    ap (λ (i : ℕ). 2 ^ i) (add-suc m n)
    ∙ pow-suc 2 (m + n)
    ∙ ap (λ (x : ℕ). x * 2) (two_pow-add m n)
    ∙ mul_assoc (2 ^ m) (2 ^ n) 2
    ∙ ap (λ (x : ℕ). 2 ^ m * x) (sym (pow-suc 2 n))

-- A table has 2 ^ log cells.
hash_cell-lt : (kernel : Kernel) (log k : ℕ) → log ≤ 32 → hash_cell kernel log k < 2 ^ log
unfolding hash_cell src_dst_key_hash
hash_cell-lt kernel log k le =
    let h = kernel.jhash_2words (u32 (k / 2 ^ 32)) (u32 k) 0 in
    let whole : log + (32 - log) ≡ 32 = omega (arith, le) in
    let split : 2 ^ log * 2 ^ (32 - log) ≡ 2 ^ 32 =
      sym (two_pow-add log (32 - log)) ∙ ap (λ (n : ℕ). 2 ^ n) whole in
    let positive = one-le-pow (32 - log) 2 (omega arith) in
    let small : u32 h < 2 ^ log * 2 ^ (32 - log) = rw split (omega arith) in
    (div-lt_iff_lt-mul (omega (arith, positive))).1 small

-- Another size of the table changes no flow.
pub record IsResized (kernel : Kernel) (log : ℕ) (q q' : TsqSchedData) : Type 0 where
  pub valid : IsValid kernel q'
  pub placed : IsPlaced kernel q'.hash_tbl_log q'.dst_hash_tbl
  pub size : q'.hash_tbl_log ≡ log
  pub same_flows : (k : ℕ) → present kernel q' k ≡ present kernel q k
  pub same_slots : (k : ℕ) → slots kernel q' k ≡ slots kernel q k

resized :
    (kernel : Kernel) (log : ℕ) (q : TsqSchedData) (a : ℕ → Tree)
    → IsValid kernel q
    → IsPlaced kernel q.hash_tbl_log q.dst_hash_tbl
    → q.hash_tbl_log ≤ 32
    → IsBuilt kernel log a (before kernel q.hash_tbl_log q.dst_hash_tbl (2 ^ q.hash_tbl_log))
    → IsResized kernel log q (record (unlock_table (record q { hash_tbl_locked = true })) {
      dst_hash_tbl = a;
      hash_tbl_log = log;
    })
resized kernel log q a v placed le b =
    let flows : (k : ℕ) → find (a (hash_cell kernel log k)) k ≡ present kernel q k = λ k.
      find-holds _ k (b.ordered _)
      ∙ b.keys _ k
      ∙ ground (
        arith,
        hash_cell-lt kernel q.hash_tbl_log k le,
        find-holds (q.dst_hash_tbl (hash_cell kernel q.hash_tbl_log k)) k (v.table.ordered _),
        ==-refl (hash_cell kernel log k),
      ) in
    record {
      valid = record {
        unlocked = refl;
        table = record {
          len_small = v.table.len_small;
          ordered = b.ordered;
          flows = λ k there. v.table.flows k (sym (flows k) ∙ there);
        };
      };
      placed = λ c k h. ground (arith, h, b.keys c k);
      size = refl;
      same_flows = flows;
      same_slots = λ k. ap (λ x. if x then (q.dsts k).skb_qs else []) (flows k);
    }

-- In a valid state with every flow in its cell, with memory and with a table of at most 2 ^ 32 cells, a
-- resize fires no BUG_ON: no flow is moved twice. The table then has the new size, the state is
-- valid with every flow in its cell, and the flows and their timeslots are the same.
pub tsq_tc_resize_lem :
    (kernel : Kernel) (q : TsqSchedData) (log : ℕ)
    → IsKernel kernel
    → IsValid kernel q
    → IsPlaced kernel q.hash_tbl_log q.dst_hash_tbl
    → q.hash_tbl_log ≤ 32
    → (q' : TsqSchedData) × (tsq_tc_resize kernel q true log true ≡ ok (true, q'))
      × IsResized kernel log q q'
unfolding tsq_tc_resize rehash_dst_table lock_table holds
tsq_tc_resize_lem kernel q log ok_kernel v placed le = elim (Bool-cases (log == q.hash_tbl_log)) [
  | inl same ↦ (
    q,
    rw same refl,
    record {
      valid = v;
      placed = placed;
      size = ground (arith, same);
      same_flows = λ k. refl;
      same_slots = λ k. refl;
    },
  )
  | inr other ↦
      let (a, done, b) =
        rehash_cells_lem kernel log q.hash_tbl_log q.dst_hash_tbl (2 ^ q.hash_tbl_log) 0
          (2 ^ q.hash_tbl_log) (λ idx. leaf) ok_kernel v.table.ordered placed
          (record { ordered = λ c. tt; keys = λ c k. ground arith }) (omega arith) in
      (
        record (unlock_table (record q { hash_tbl_locked = true })) {
          dst_hash_tbl = a;
          hash_tbl_log = log;
        },
        rw (other, v.unlocked, done) refl,
        resized kernel log q a v placed le b,
      )
]

-- A new flow stands in the cell of its key.
pub created-IsPlaced :
    (kernel : Kernel) (q : TsqSchedData) (key : ℕ)
    → IsKernel kernel
    → IsPlaced kernel q.hash_tbl_log q.dst_hash_tbl
    → IsPlaced kernel q.hash_tbl_log (created kernel q key).dst_hash_tbl
created-IsPlaced kernel q key ok_kernel placed c k h =
    let cell = hash_cell kernel q.hash_tbl_log key in
    let new = kernel.rb_insert_color (link (q.dst_hash_tbl cell) key) in
    let inserted : holds new k ≡ (if key == k then true else holds (q.dst_hash_tbl cell) k) =
      ok_kernel.same_keys (link (q.dst_hash_tbl cell) key) k
      ∙ holds-link (q.dst_hash_tbl cell) key k in
    elim (Bool-cases (cell == c)) [
      | inl same ↦
          let e : cell ≡ c = ground arith in
          let at : holds new k ≡ true =
            sym (
              ap (λ t. holds t k)
                (update_lem q.dst_hash_tbl cell c new
                  ∙ ap (λ b. if b then new else q.dst_hash_tbl c) same))
            ∙ h in
          elim (Bool-cases (key == k)) [
            | inl same_key ↦
                let e' : key ≡ k = ground arith in ap (hash_cell kernel q.hash_tbl_log) (sym e') ∙ e
            | inr other_key ↦
                placed cell k (
                  sym (
                    inserted
                    ∙ ap (λ b. if b then true else holds (q.dst_hash_tbl cell) k) other_key)
                  ∙ at)
                ∙ e
          ]
      | inr other ↦ placed c k (
          sym (
            ap (λ t. holds t k)
              (update_lem q.dst_hash_tbl cell c new
                ∙ ap (λ b. if b then new else q.dst_hash_tbl c) other))
          ∙ h)
    ]
