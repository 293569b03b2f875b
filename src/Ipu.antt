-- ===== src/Ipu.antt =====
-- The index of journaled blocks (ccnvme/horae.h): which tree a block's entry stands in, and where.
pub mod Keys
use ccnvme.Prelude.{ℕ, ◌+◌, ◌*◌, ◌/◌, ◌%◌}
use ccnvme.Ring.{u32}

-- `GROUP_IDX`, kept in a u32
unfoldable pub group_idx : ℕ → ℕ → ℕ
group_idx lba n = u32 (lba / n)

-- `TREE_IDX`, with NR_IPU_TREE = num_online_cpus()
unfoldable pub tree_idx : ℕ → ℕ → ℕ
tree_idx group cpus = group % cpus

-- `TREE_OFF`, kept in an unsigned int
unfoldable pub tree_off : ℕ → ℕ → ℕ → ℕ → ℕ
tree_off group lba n cpus = u32 (group / cpus * n + lba % n)
