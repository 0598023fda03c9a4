-- ===== src/Log/History.antt =====
-- The states of the disk that the loops pass through, each of which a crash could leave.
use cs.Base.{update, ℕ, zero, suc, ◌+◌, ◌<◌, ◌≡◌, arith, get_or, All}
use cs.Log.{Block, Disk, Log, write_block, install_from, write_log_from}

-- `P` holds now and `Q` held before; writes that keep `P` keep this.
module _ (P Q : Disk → Type 0) (weaken : (d : Disk) → P d → Q d) where
  pub write_log_past :
      (k tail n : ℕ) (l : Log)
      → tail + k ≡ n
      → ((d : Disk) (j : ℕ) (v : Block) → j < n → P d → P (update d (l.start + j + 1) v))
      → P l.disk
      → All Q l.past
      → P (write_log_from k tail l).disk × All Q (write_log_from k tail l).past
  unfolding write_log_from write_block
  write_log_past zero tail n l e keep p q = (p, q)
  write_log_past (suc k) tail n l e keep p q =
      write_log_past k (tail + 1) n
        (write_block l (l.start + tail + 1) (l.view (get_or l.lh.block tail 0))) (omega arith) keep
        (keep l.disk tail _ (omega arith) p) (weaken l.disk p, q)

  pub install_past :
      (k tail n : ℕ) (l : Log)
      → tail + k ≡ n
      → ((d : Disk) (j : ℕ) (v : Block) → j < n → P d → P (update d (get_or l.lh.block j 0) v))
      → P l.disk
      → All Q l.past
      → P (install_from k tail l).disk × All Q (install_from k tail l).past
  unfolding install_from write_block
  install_past zero tail n l e keep p q = (p, q)
  install_past (suc k) tail n l e keep p q =
      install_past k (tail + 1) n
        (write_block l (get_or l.lh.block tail 0) (l.view (l.start + tail + 1))) (omega arith) keep
        (keep l.disk tail _ (omega arith) p) (weaken l.disk p, q)
