-- ===== src/Tsq/Inv/Resized/Moved.antt =====
-- kernel-mod/sch_timeslot.c: rehash_dst_table moves every flow to its new cell.
use flexplane.Base.{
  ℕ, zero, suc, ◌+◌, ◌==◌, ◌≡◌, refl, sym, ap, ◌∙◌, inl, inr, ltb, Bool, true, false, ◌&&◌, ◌||◌,
  if◌then◌else◌, Bool-cases, ==-refl, arith,
}
use flexplane.Base.Checked.{ok}
use flexplane.Base.Table.{update, update_lem}
use flexplane.Tsq.Tree.{
  Tree, leaf, node, find, link, holds, IsOrdered, link-IsOrdered, find-holds, holds-link,
  above-holds, below-holds,
}
use flexplane.Tsq.Sched.{Kernel, hash_cell}
use flexplane.Tsq.Inv.{IsKernel}
use flexplane.Tsq.Resize.{rehash_flow, rehash_tree, rehash_cells}

-- A table of the flows that `d` tells, each in its cell.
pub record IsBuilt (kernel : Kernel) (log : ℕ) (a : ℕ → Tree) (d : ℕ → Bool) : Type 0 where
  pub ordered : (c : ℕ) → IsOrdered (a c)
  pub keys : (c k : ℕ) → holds (a c) k ≡ (d k && hash_cell kernel log k == c)

same_flows :
    (kernel : Kernel) (log : ℕ) (a : ℕ → Tree) (d d' : ℕ → Bool)
    → IsBuilt kernel log a d
    → ((k : ℕ) → d' k ≡ d k)
    → IsBuilt kernel log a d'
same_flows kernel log a d d' b same = record {
  ordered = b.ordered;
  keys = λ c k. b.keys c k ∙ ap (λ x. x && hash_cell kernel log k == c) (sym (same k));
}

rehash_flow_lem :
    (kernel : Kernel) (log : ℕ) (a : ℕ → Tree) (d : ℕ → Bool) (key : ℕ)
    → IsKernel kernel
    → IsBuilt kernel log a d
    → d key ≡ false
    → (a' : ℕ → Tree) × (rehash_flow kernel log a key ≡ ok a')
      × IsBuilt kernel log a' (λ k. d k || key == k)
unfolding rehash_flow
rehash_flow_lem kernel log a d key ok_kernel b absent =
    let cell = hash_cell kernel log key in
    let new = kernel.rb_insert_color (link (a cell) key) in
    let not_there : find (a cell) key ≡ false =
      find-holds (a cell) key (b.ordered cell)
      ∙ b.keys cell key
      ∙ ap (λ x. x && hash_cell kernel log key == cell) absent in
    (
      update a cell new,
      rw not_there refl,
      record {
        ordered = λ c. elim (Bool-cases (cell == c)) [
          | inl same ↦
              rw (update_lem a cell c new, same)
                (ok_kernel.rebalanced _ (link-IsOrdered (a cell) key (b.ordered cell)))
          | inr other ↦ rw (update_lem a cell c new, other) (b.ordered c)
        ];
        keys = λ c k.
            let inserted : holds new k ≡ (if key == k then true else holds (a cell) k) =
              ok_kernel.same_keys (link (a cell) key) k ∙ holds-link (a cell) key k in
            let was = b.keys c k in
            elim (Bool-cases (cell == c)) [
              | inl same ↦
                  let e : cell ≡ c = ground arith in
                  let old : holds (a cell) k ≡ (d k && hash_cell kernel log k == c) =
                    ap (λ (x : ℕ). holds (a x) k) e ∙ was in
                  let now : holds (update a cell new c) k
                      ≡ (if key == k then true else d k && hash_cell kernel log k == c) =
                    rw (update_lem a cell c new, same)
                      (inserted ∙ ap (λ x. if key == k then true else x) old) in
                  in_cell log a d key k c now same
              | inr other ↦
                  let now : holds (update a cell new c) k ≡ (d k && hash_cell kernel log k == c) =
                    rw (update_lem a cell c new, other) was in
                  now ∙ not_in_cell d key k c other
            ];
      },
    )
  where
    in_cell :
        (log : ℕ) (a : ℕ → Tree) (d : ℕ → Bool) (key k c : ℕ) {x : Bool}
        → x ≡ (if key == k then true else d k && hash_cell kernel log k == c)
        → (hash_cell kernel log key == c) ≡ true
        → x ≡ ((d k || key == k) && hash_cell kernel log k == c)
    in_cell log a d key k c now same = elim (Bool-cases (key == k)) [
      | inl e ↦
          let e' : key ≡ k = ground arith in
          let h : (hash_cell kernel log k == c) ≡ true =
            ap (λ (j : ℕ). hash_cell kernel log j == c) (sym e') ∙ same in
          now ∙ rw (e, h) (ground arith)
      | inr e ↦ now ∙ rw e (ground arith)
    ]

    not_in_cell :
        (d : ℕ → Bool) (key k c : ℕ)
        → (hash_cell kernel log key == c) ≡ false
        → (d k && hash_cell kernel log k == c) ≡ ((d k || key == k) && hash_cell kernel log k == c)
    not_in_cell d key k c other = elim (Bool-cases (key == k)) [
      | inl e ↦
          let e' : key ≡ k = ground arith in
          let h : (hash_cell kernel log k == c) ≡ false =
            ap (λ (j : ℕ). hash_cell kernel log j == c) (sym e') ∙ other in
          rw (e, h) (ground arith)
      | inr e ↦ rw e (ground arith)
    ]

rehash_tree_lem :
    (kernel : Kernel) (log : ℕ) (t : Tree) (a : ℕ → Tree) (d : ℕ → Bool)
    → IsKernel kernel
    → IsBuilt kernel log a d
    → IsOrdered t
    → ((k : ℕ) → holds t k ≡ true → d k ≡ false)
    → (a' : ℕ → Tree) × (rehash_tree kernel log t a ≡ ok a')
      × IsBuilt kernel log a' (λ k. d k || holds t k)
unfolding rehash_tree holds
rehash_tree_lem kernel log leaf a d ok_kernel b v fresh =
    (a, refl, same_flows kernel log a d _ b (λ k. ground arith))
rehash_tree_lem kernel log (node l x r) a d ok_kernel b v fresh =
    let (a1, done1, b1) =
      rehash_tree_lem kernel log l a d ok_kernel b v.2 (λ k h. fresh k (ground (arith, h))) in
    let absent : (d x || holds l x) ≡ false =
      ground (arith, fresh x (ground (arith, ==-refl x)), above-holds x l x v.0 (omega arith)) in
    let (a2, done2, b2) =
      rehash_flow_lem kernel log a1 (λ k. d k || holds l k) x ok_kernel b1 absent in
    let (a3, done3, b3) =
      rehash_tree_lem kernel log r a2 (λ k. (d k || holds l k) || x == k) ok_kernel b2 v.3
        (λ k h.
          ground (
            arith,
            h,
            fresh k (ground (arith, h)),
            above-holds x l k v.0,
            below-holds x r k v.1,
          )) in
    (
      a3,
      rw (done1, done2) done3,
      same_flows kernel log a3 _ (λ k. d k || holds (node l x r) k) b3 (λ k. ground arith),
    )

-- Each flow stands in the cell of its key.
abbrev pub IsPlaced : Kernel → ℕ → (ℕ → Tree) → Type 0
IsPlaced kernel log a = (c k : ℕ) → holds (a c) k ≡ true → hash_cell kernel log k ≡ c

-- The flows of the cells before `idx`.
abbrev pub before : Kernel → ℕ → (ℕ → Tree) → ℕ → ℕ → Bool
before kernel log o idx k = ltb (hash_cell kernel log k) idx && holds (o (hash_cell kernel log k)) k

before-suc :
    (kernel : Kernel) (log : ℕ) (o : ℕ → Tree) (idx k : ℕ)
    → IsPlaced kernel log o
    → before kernel log o (suc idx) k ≡ (before kernel log o idx k || holds (o idx) k)
before-suc kernel log o idx k placed = elim (Bool-cases (hash_cell kernel log k == idx)) [
  | inl same ↦
      let e : hash_cell kernel log k ≡ idx = ground arith in
      let at : holds (o (hash_cell kernel log k)) k ≡ holds (o idx) k =
        ap (λ (c : ℕ). holds (o c) k) e in
      ground (arith, at, e)
  | inr other ↦ ground (arith, placed idx k)
]

pub rehash_cells_lem :
    (kernel : Kernel) (log old_log : ℕ) (o : ℕ → Tree) (n idx end : ℕ) (a : ℕ → Tree)
    → IsKernel kernel
    → ((c : ℕ) → IsOrdered (o c))
    → IsPlaced kernel old_log o
    → IsBuilt kernel log a (before kernel old_log o idx)
    → end ≡ idx + n
    → (a' : ℕ → Tree) × (rehash_cells kernel log o n idx a ≡ ok a')
      × IsBuilt kernel log a' (before kernel old_log o end)
unfolding rehash_cells
rehash_cells_lem kernel log old_log o zero idx end a ok_kernel ordered placed b e =
    (a, refl, same_flows kernel log a _ _ b (λ k. ground (arith, e)))
rehash_cells_lem kernel log old_log o (suc n) idx end a ok_kernel ordered placed b e =
    let (a1, done1, b1) =
      rehash_tree_lem kernel log (o idx) a (before kernel old_log o idx) ok_kernel b (ordered idx)
        (λ k h. ground (arith, placed idx k h)) in
    let (a2, done2, b2) =
      rehash_cells_lem kernel log old_log o n (suc idx) end a1 ok_kernel ordered placed
        (same_flows kernel log a1 _ (before kernel old_log o (suc idx)) b1
          (λ k. before-suc kernel old_log o idx k placed))
        (omega (arith, e)) in
    (a2, rw done1 done2, b2)
