-- ===== src/GraphAlgo/Backlog.antt =====
-- graph-algo/backlog.h: the demand of each pair of nodes, and whether the pair is in the
-- allocator. `is_active` is the bit array, by the index of the bit.
use flexplane.Base.{ℕ, ◌+◌, ◌*◌, ◌^◌, Bool, true, false, not, ◌==◌, if◌then◌else◌, u32}
use flexplane.Base.Checked.{Checked, ok, bug_on, ◌>>◌}
use flexplane.Base.Table.{update}
use flexplane.GraphAlgo.Admitted.{fp_nodes_shift}

pub record Backlog : Type 0 where
  pub n : ℕ → ℕ
  pub is_active : ℕ → Bool

unfoldable pub backlog_init : Backlog
backlog_init = record { n = λ i. 0; is_active = λ i. false }

-- `_backlog_index`
unfoldable pub backlog_index : ℕ → ℕ → ℕ
backlog_index src dst = src * 2 ^ fp_nodes_shift + dst

unfoldable pub backlog_get : Backlog → ℕ → ℕ → ℕ
backlog_get backlog src dst = backlog.n (backlog_index src dst)

unfoldable pub backlog_non_active : Backlog → ℕ → ℕ → Backlog
backlog_non_active backlog src dst = record backlog {
  is_active = update backlog.is_active (backlog_index src dst) false;
}

unfoldable pub backlog_reset_pair : Backlog → ℕ → ℕ → Backlog
backlog_reset_pair backlog src dst = record backlog {
  n = update backlog.n (backlog_index src dst) 0;
}

-- `true` if the pair was idle, and the caller must enqueue the amount.
unfoldable pub backlog_increase : Backlog → ℕ → ℕ → ℕ → Checked (Bool × Backlog)
backlog_increase backlog src dst amount =
    let index = backlog_index src dst in
    let raised = record backlog { n = update backlog.n index (u32 (backlog.n index + amount)) } in
    let activated = record backlog { is_active = update backlog.is_active index true } in
    bug_on (amount == 0)
    >> (if backlog.is_active index
        then ok (false, raised)
        else bug_on (not (backlog.n index == 0)) >> ok (true, activated))
