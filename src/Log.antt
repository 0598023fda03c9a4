-- ===== src/Log.antt =====
-- HW2/src/log.c: the redo log of the file system, over the buffer cache and the disk.
pub mod Disk
pub mod Loops
pub mod History
pub mod Recover
pub mod Stages
pub mod Crash
pub mod Absorb
pub mod Session
pub mod EndOp
mod Tests
use cs.Base.{
  update, ℕ, zero, suc, ◌+◌, ◌-◌, ◌*◌, ◌%◌, ◌^◌, Bool, true, false, ◌||◌, Option, none, some, List,
  [], ◌∷◌, ◌==◌, ltb, leb, if◌then◌else◌, get_or, set, Outcome, ok, panic, ◌>>=◌, replicate,
}

abbrev pub maxopblocks : ℕ
maxopblocks = 10

abbrev pub logsize : ℕ
logsize = 30

-- A disk block, as its words: a block is only copied, but for the header of the log.
abbrev pub Block : Type 0
Block = ℕ → ℕ

abbrev pub Disk : Type 0
Disk = ℕ → Block

pub record LogHeader : Type 0 where
  pub n : ℕ
  pub block : List ℕ

-- `struct log`, with what the buffer cache shows of each block (`view`, the data of the buffer that
-- `bread` returns), the disk, and the earlier states of the disk, latest first: a crash leaves one.
pub record Log : Type 0 where
  pub start : ℕ
  pub size : ℕ
  pub outstanding : ℕ
  pub committing : Bool
  pub lh : LogHeader
  pub view : Disk
  pub disk : Disk
  pub past : List Disk

-- `bread`, the change of the buffer's data to `v`, and `bwrite`.
pub write_block : Log → ℕ → Block → Log
write_block l b v = record l {
  view = update l.view b v;
  disk = update l.disk b v;
  past = l.disk ∷ l.past;
}

-- Copy from log block `tail` to its home, for `k` more values of `tail`.
pub install_from : ℕ → ℕ → Log → Log
install_from zero tail l = l
install_from (suc k) tail l =
    install_from k (tail + 1)
      (write_block l (get_or l.lh.block tail 0) (l.view (l.start + tail + 1)))

pub install_trans : Log → Log
install_trans l = install_from l.lh.n 0 l

-- `log.lh.block[i] = lh->block[i]` for `k` more values of `i`
pub read_entries : Block → ℕ → ℕ → List ℕ → List ℕ
read_entries hb zero i block = block
read_entries hb (suc k) i block = read_entries hb k (i + 1) (set block i (hb (i + 1)))

-- Word 0 of the header block is `n`, and word `i + 1` is `block[i]`.
pub read_head : Log → Log
read_head l =
    let hb = l.view l.start in
    record l { lh = record { n = hb 0; block = read_entries hb (hb 0) 0 l.lh.block } }

pub write_entries : List ℕ → ℕ → ℕ → Block → Block
write_entries block zero i hb = hb
write_entries block (suc k) i hb =
    write_entries block k (i + 1) (update hb (i + 1) (get_or block i 0))

pub write_head : Log → Log
write_head l =
    write_block l l.start (write_entries l.lh.block l.lh.n 0 (update (l.view l.start) 0 l.lh.n))

-- `log.lh.n = 0`
abbrev pub clear : Log → Log
clear l = record l { lh = record { n = 0; block = l.lh.block } }

pub recover_from_log : Log → Log
recover_from_log l = write_head (clear (install_trans (read_head l)))

-- `initlog` after the superblock is read. The zeroed `log` of a boot has an empty header, and
-- the buffer cache nothing but what the disk holds.
pub initlog : Disk → ℕ → ℕ → Log
initlog d logstart nlog = recover_from_log (record {
  start = logstart;
  size = nlog;
  outstanding = 0;
  committing = false;
  lh = record { n = 0; block = replicate logsize 0 };
  view = d;
  disk = d;
  past = [];
})

-- One round of the loop of `begin_op`: `none` is a sleep on `&log`.
pub begin_op : Log → Option Log
begin_op l =
    if l.committing
    then none
    else if ltb logsize (l.lh.n + (l.outstanding + 1) * maxopblocks)
    then none
    else some (record l { outstanding = l.outstanding + 1 })

-- Copy the cached block `block[tail]` to log block `tail`, for `k` more values of `tail`.
pub write_log_from : ℕ → ℕ → Log → Log
write_log_from zero tail l = l
write_log_from (suc k) tail l =
    write_log_from k (tail + 1)
      (write_block l (l.start + tail + 1) (l.view (get_or l.lh.block tail 0)))

pub write_log : Log → Log
write_log l = write_log_from l.lh.n 0 l

pub commit : Log → Log
commit l = if ltb 0 l.lh.n then write_head (clear (install_trans (write_head (write_log l)))) else l

-- The part of `end_op` under its first lock: the log, and `do_commit`.
pub end_op_enter : Log → Outcome (Log × Bool)
end_op_enter l =
    let o = (l.outstanding + 2 ^ 32 - 1) % 2 ^ 32 in
    if l.committing
    then panic
    else if o == 0
    then ok (record l { outstanding = o; committing = true }, true)
    else ok (record l { outstanding = o }, false)

abbrev pub end_op_leave : Log × Bool → Log
end_op_leave (l, true) = (let m = commit l in record m { committing = false })
end_op_leave (l, false) = l

pub end_op : Log → Outcome Log
end_op l = end_op_enter l >>= λ r. ok (end_op_leave r)

-- The least `j` from `i` on, within `k`, with `block[j] == b`; `i + k` if there is none.
pub find_entry : List ℕ → ℕ → ℕ → ℕ → ℕ
find_entry block b zero i = i
find_entry block b (suc k) i =
    let rest = find_entry block b k (i + 1) in if get_or block i 0 == b then i else rest

-- The caller has set the data of the buffer of block `b` to `v`. That the buffer is pinned
-- (`b->flags |= B_DIRTY`) is that `view` keeps `v`.
pub log_write : Log → ℕ → Block → Outcome Log
log_write l b v =
    let i = find_entry l.lh.block b l.lh.n 0 in
    if leb logsize l.lh.n || leb (l.size - 1) l.lh.n
    then panic
    else if ltb l.outstanding 1
    then panic
    else ok (record l {
      view = update l.view b v;
      lh = record { n = if i == l.lh.n then l.lh.n + 1 else l.lh.n; block = set l.lh.block i b };
    })
