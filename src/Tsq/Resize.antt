-- ===== src/Tsq/Resize.antt =====
-- kernel-mod/sch_timeslot.c: moving the flows to a hash table of another size. rb_first and
-- rb_erase take the flows of a tree in its order until it is empty.
use flexplane.Base.{ℕ, zero, suc, ◌^◌, ◌==◌, Bool, true, false, if◌then◌else◌, not, ◌&&◌}
use flexplane.Base.Checked.{Checked, ok, bug, ◌>>=◌}
use flexplane.Base.Table.{update}
use flexplane.Tsq.Tree.{Tree, leaf, node, find, link}
use flexplane.Tsq.Sched.{Kernel, TsqSchedData, hash_cell, lock_table, unlock_table}

-- A flow that is moved; its key may not be in the new table.
unfoldable pub rehash_flow : Kernel → ℕ → (ℕ → Tree) → ℕ → Checked (ℕ → Tree)
rehash_flow kernel new_log new_array src_dst_key =
    let cell = hash_cell kernel new_log src_dst_key in
    if find (new_array cell) src_dst_key
    then bug
    else ok (update new_array cell (kernel.rb_insert_color (link (new_array cell) src_dst_key)))

-- The flows of a tree.
unfoldable pub rehash_tree : Kernel → ℕ → Tree → (ℕ → Tree) → Checked (ℕ → Tree)
rehash_tree kernel new_log leaf new_array = ok new_array
rehash_tree kernel new_log (node l k r) new_array =
    rehash_tree kernel new_log l new_array >>= λ left.
    rehash_flow kernel new_log left k >>= λ a. rehash_tree kernel new_log r a

-- `n` cells from `idx` on.
unfoldable pub rehash_cells : Kernel → ℕ → (ℕ → Tree) → ℕ → ℕ → (ℕ → Tree) → Checked (ℕ → Tree)
rehash_cells kernel new_log old_array zero idx new_array = ok new_array
rehash_cells kernel new_log old_array (suc n) idx new_array =
    rehash_tree kernel new_log (old_array idx) new_array >>= λ a.
    rehash_cells kernel new_log old_array n (suc idx) a

-- The table with the lock taken and released.
unfoldable pub rehash_dst_table :
    Kernel → TsqSchedData → (ℕ → Tree) → ℕ → (ℕ → Tree) → ℕ → Checked ((ℕ → Tree) × TsqSchedData)
rehash_dst_table kernel q old_array old_log new_array new_log = lock_table q >>= λ locked.
    rehash_cells kernel new_log old_array (2 ^ old_log) 0 new_array >>= λ a.
    ok (a, unlock_table locked)

-- `has_table` is false while q->dst_hash_tbl is NULL, and the result is false for -ENOMEM.
unfoldable pub tsq_tc_resize :
    Kernel → TsqSchedData → Bool → ℕ → Bool → Checked (Bool × TsqSchedData)
tsq_tc_resize kernel q has_table log allocated =
    if has_table && log == q.hash_tbl_log
    then ok (true, q)
    else if not allocated
    then ok (false, q)
    else if has_table
    then (rehash_dst_table kernel q q.dst_hash_tbl q.hash_tbl_log (λ idx. leaf) log >>= λ r.
        ok (true, record (r.1) { dst_hash_tbl = r.0; hash_tbl_log = log }))
    else ok (true, record q { dst_hash_tbl = λ idx. leaf; hash_tbl_log = log })
