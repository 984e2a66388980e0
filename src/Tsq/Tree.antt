-- ===== src/Tsq/Tree.antt =====
-- kernel-mod/sch_timeslot.c: the trees of flows in the hash table. The kernel's red-black trees
-- are binary trees of the keys of their flows; larger keys are on the left.
use flexplane.Base.{
  ℕ, ◌==◌, ◌<◌, ◌≤◌, ◌≡◌, refl, ltb, Bool, true, false, ◌||◌, if◌then◌else◌, arith,
}

pub data Tree : Type 0 where
  leaf : Tree
  node : Tree → ℕ → Tree → Tree

-- The walk of `dst_lookup`: whether it ends at a flow of the key.
unfoldable pub find : Tree → ℕ → Bool
find leaf src_dst_key = false
find (node l k r) src_dst_key =
    let left = find l src_dst_key in
    let right = find r src_dst_key in
    if k == src_dst_key then true else if ltb src_dst_key k then right else left

-- rb_link_node, at the place where the walk ended.
unfoldable pub link : Tree → ℕ → Tree
link leaf src_dst_key = node leaf src_dst_key leaf
link (node l k r) src_dst_key =
    let left = link l src_dst_key in
    let right = link r src_dst_key in
    if k == src_dst_key
    then node l k r
    else if ltb src_dst_key k
    then node l k right
    else node left k r

-- Whether the key stands anywhere in the tree.
unfoldable pub holds : Tree → ℕ → Bool
holds leaf src_dst_key = false
holds (node l k r) src_dst_key = k == src_dst_key || holds l src_dst_key || holds r src_dst_key

-- Bounds on the keys of a tree.
abbrev pub AllAbove : ℕ → Tree → Type 0
AllAbove b leaf = Unit
AllAbove b (node l k r) = AllAbove b l × (b < k) × AllAbove b r

abbrev pub AllBelow : ℕ → Tree → Type 0
AllBelow b leaf = Unit
AllBelow b (node l k r) = AllBelow b l × (k < b) × AllBelow b r

-- Larger keys on the left.
abbrev pub IsOrdered : Tree → Type 0
IsOrdered leaf = Unit
IsOrdered (node l k r) = AllAbove k l × AllBelow k r × IsOrdered l × IsOrdered r

link-AllAbove : (b : ℕ) (t : Tree) (x : ℕ) → b < x → AllAbove b t → AllAbove b (link t x)
unfolding link
link-AllAbove b leaf x lt a = (tt, lt, tt)
link-AllAbove b (node l k r) x lt a = ground (arith, link-AllAbove b l x lt, link-AllAbove b r x lt)

link-AllBelow : (b : ℕ) (t : Tree) (x : ℕ) → x < b → AllBelow b t → AllBelow b (link t x)
unfolding link
link-AllBelow b leaf x lt a = (tt, lt, tt)
link-AllBelow b (node l k r) x lt a = ground (arith, link-AllBelow b l x lt, link-AllBelow b r x lt)

pub link-IsOrdered : (t : Tree) (x : ℕ) → IsOrdered t → IsOrdered (link t x)
unfolding link
link-IsOrdered leaf x v = (tt, tt, tt, tt)
link-IsOrdered (node l k r) x v =
    ground (arith, link-IsOrdered l x, link-IsOrdered r x, link-AllAbove k l x, link-AllBelow k r x)

pub above-holds : (b : ℕ) (t : Tree) (x : ℕ) → AllAbove b t → x ≤ b → holds t x ≡ false
unfolding holds
above-holds b leaf x a le = refl
above-holds b (node l k r) x a le =
    ground (arith, above-holds b l x a.0 le, above-holds b r x a.2 le)

pub below-holds : (b : ℕ) (t : Tree) (x : ℕ) → AllBelow b t → b ≤ x → holds t x ≡ false
unfolding holds
below-holds b leaf x a le = refl
below-holds b (node l k r) x a le =
    ground (arith, below-holds b l x a.0 le, below-holds b r x a.2 le)

-- In an ordered tree the walk finds every key.
pub find-holds : (t : Tree) (x : ℕ) → IsOrdered t → find t x ≡ holds t x
unfolding find holds
find-holds leaf x v = refl
find-holds (node l k r) x v =
    ground
      (arith, find-holds l x v.2, find-holds r x v.3, above-holds k l x v.0, below-holds k r x v.1)

-- A tree has the new key after a link, and its other keys.
pub holds-link : (t : Tree) (x y : ℕ) → holds (link t x) y ≡ (if x == y then true else holds t y)
unfolding link holds
holds-link leaf x y = ground arith
holds-link (node l k r) x y = ground (arith, holds-link l x y, holds-link r x y)
