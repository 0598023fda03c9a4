-- ===== src/File.antt =====
-- HW2/src/file.c: the table of open files, reading and writing.
pub mod Handles
pub mod Table
pub mod Write
pub mod Inodes
mod Tests
use cs.Base.{
  ℕ, zero, suc, ◌+◌, ◌-◌, ◌%◌, ◌^◌, ◌≡◌, ◌≤◌, ◌<◌, Bool, true, false, ◌&&◌, ◌||◌, not, Option, none,
  some, ◌==◌, leb, ltb, if◌then◌else◌, update, ℤ, pos, negsuc, Outcome, ok, panic, ◌>>=◌,
}
use cs.Content.Io.{max_bytes}

-- `NFILE`
abbrev pub nfile : ℕ
nfile = 100

pub data FdType : Type 0 where
  fd_none fd_pipe fd_inode : FdType

-- `struct file`, with pipe and inode as numbers. `ref` is an `int`, negative from 2 ^ 31 on.
pub record File : Type 0 where
  pub type : FdType
  pub ref : ℕ
  pub readable : Bool
  pub writable : Bool
  pub pipe : ℕ
  pub ip : ℕ
  pub off : ℕ

-- `ftable`
abbrev pub Files : Type 0
Files = ℕ → File

-- The loop of `filealloc` over `n` more files from `i` on.
pub alloc_from : ℕ → ℕ → Files → Option ℕ
alloc_from zero i t = none
alloc_from (suc n) i t =
    let rest = alloc_from n (i + 1) t in if (t i).ref == 0 then some i else rest

abbrev pub take_file : Files → Option ℕ → Option (Files × ℕ)
take_file t none = none
take_file t (some i) = some (update t i (record (t i) { ref = 1 }), i)

-- `none` is the pointer 0.
abbrev pub filealloc : Files → Option (Files × ℕ)
filealloc t = take_file t (alloc_from nfile 0 t)

-- `ref < 1`
abbrev pub is_unused : File → Bool
is_unused f = (f.ref == 0) || leb (2 ^ 31) f.ref

pub filedup : ℕ → Files → Outcome Files
filedup i t =
    if is_unused (t i)
    then panic
    else ok (update t i (record (t i) { ref = ((t i).ref + 1) % 2 ^ 32 }))

-- What `fileclose` calls in the end: nothing, `pipeclose` for an end of a pipe, or `iput` in a
-- transaction.
pub data Closing : Type 0 where
  no_call : Closing
  closes_pipe : ℕ → Bool → Closing
  puts_inode : ℕ → Closing

abbrev pub closing : FdType → File → Closing
closing fd_none f = no_call
closing fd_pipe f = closes_pipe f.pipe f.writable
closing fd_inode f = puts_inode f.ip

pub fileclose : ℕ → Files → Outcome (Files × Closing)
fileclose i t =
    let f = t i in
    let rc = (f.ref + 2 ^ 32 - 1) % 2 ^ 32 in
    if is_unused f
    then panic
    else if ltb 0 rc && ltb rc (2 ^ 31)
    then ok (update t i (record f { ref = rc }), no_call)
    else ok (update t i (record f { ref = 0; type = fd_none }), closing f.type f)

-- What files see of inodes in a state: contents and size of an inode, the number of free blocks of the
-- disk, and whether the inode is in order.
pub record View (S : Type 0) : Type 1 where
  pub bytes : S → ℕ → ℕ → ℕ
  pub size : S → ℕ → ℕ
  pub free : S → ℕ
  pub IsSound : S → ℕ → Type 0

-- What is seen of inode `ip` is the same in `u` as in `s`.
pub record Kept {S : Type 0} (v : View S) (s u : S) (ip : ℕ) : Type 0 where
  pub bytes : (j : ℕ) → v.bytes u ip j ≡ v.bytes s ip j
  pub size : v.size u ip ≡ v.size s ip
  pub free : v.free u ≡ v.free s
  pub sound : v.IsSound s ip → v.IsSound u ip

-- ((MAXOPBLOCKS - 1 - 1 - 2) / 2) * 512
abbrev pub max_write : ℕ
max_write = 1536

-- The calls of other parts of the kernel that files make, on a state `S`: the number that a call
-- returns comes with the state after it. `user` is the memory at `addr`. A `writei` of at most
-- `max_write` bytes that begins within a sound inode and ends within the largest file writes them
-- all if 5 blocks are free, four for the bytes and one for the addresses of blocks.
pub record Layers : Type 1 where
  pub S : Type 0
  pub view : View S
  pub begin_op : S → S
  pub end_op : S → S
  pub ilock : ℕ → S → S
  pub iunlock : ℕ → S → S
  pub writei : ℕ → ℕ → ℕ → ℕ → S → Outcome (S × ℤ)
  pub readi : ℕ → ℕ → ℕ → ℕ → S → Outcome (S × ℤ)
  pub piperead : ℕ → ℕ → ℤ → S → S × ℤ
  pub pipewrite : ℕ → ℕ → ℤ → S → S × ℤ
  pub user : ℕ → ℕ
  pub begin_op_kept : (s : S) (ip : ℕ) → Kept view s (begin_op s) ip
  pub end_op_kept : (s : S) (ip : ℕ) → Kept view s (end_op s) ip
  pub ilock_kept : (s : S) (ip k : ℕ) → Kept view s (ilock k s) ip
  pub iunlock_kept : (s : S) (ip k : ℕ) → Kept view s (iunlock k s) ip
  pub writei_all :
      (s : S) (ip addr off n : ℕ)
      → view.IsSound s ip
      → off ≤ view.size s ip
      → off + n ≤ max_bytes
      → n ≤ max_write
      → 5 ≤ view.free s
      → (u : S) × (writei ip addr off n s ≡ ok (u, pos n))
        × view.IsSound u ip
        × (off + n ≤ view.size u ip)
        × (view.free s ≤ view.free u + 5)
        × ((j : ℕ)
            → j < max_bytes
            → view.bytes u ip j ≡ (
                if leb off j && ltb j (off + n)
                then user (addr + (j - off))
                else view.bytes s ip j))

-- `if(r > 0) f->off += r`
abbrev pub advance : File → ℤ → File
advance f (pos r) = record f { off = (f.off + r) % 2 ^ 32 }
advance f (negsuc r) = f

-- `return i == n ? n : -1`
abbrev pub written : ℕ → ℕ → ℤ
written i n = if i == n then pos n else negsuc 0

module _ (ly : Layers) where
  open ly use {S, begin_op, end_op, ilock, iunlock, writei, readi, piperead, pipewrite}

  abbrev pub read_inode : File → S × ℤ → S × File × ℤ
  read_inode f (s, r) = (iunlock f.ip s, advance f r, r)

  abbrev pub read_as : FdType → File → ℕ → ℤ → S → Outcome (S × File × ℤ)
  read_as fd_none f addr n s = panic
  read_as fd_pipe f addr n s = let out = piperead f.pipe addr n s in ok (out.0, f, out.1)
  read_as fd_inode f addr (negsuc n) s =
      readi f.ip addr f.off (2 ^ 32 - n - 1) (ilock f.ip s) >>= λ r. ok (read_inode f r)
  read_as fd_inode f addr (pos n) s =
      readi f.ip addr f.off n (ilock f.ip s) >>= λ r. ok (read_inode f r)

  pub fileread : File → ℕ → ℤ → S → Outcome (S × File × ℤ)
  fileread f addr n s = if f.readable then read_as f.type f addr n s else ok (s, f, negsuc 0)

  -- One round of the loop of `filewrite`, for `n1` bytes from `addr + i` on.
  abbrev pub write_chunk : File → ℕ → ℕ → S → Outcome (S × ℤ)
  write_chunk f addr n1 s = writei f.ip addr f.off n1 (ilock f.ip (begin_op s))

  abbrev pub after_chunk :
      (ℕ → File → S → Outcome (S × File × ℤ)) → File → ℕ → ℕ → S × ℤ → Outcome (S × File × ℤ)
  after_chunk loop f i n1 (s, negsuc r) = ok (end_op (iunlock f.ip s), f, negsuc 0)
  after_chunk loop f i n1 (s, pos r) =
      let s1 = end_op (iunlock f.ip s) in
      let f1 = advance f (pos r) in let next = loop (i + r) f1 s1 in if r == n1 then next else panic

  -- The loop, on fuel; a round writes at least one byte.
  pub write_from : ℕ → ℕ → ℕ → ℕ → File → S → Outcome (S × File × ℤ)
  write_from zero addr n i f s = ok (s, f, written i n)
  write_from (suc fuel) addr n i f s =
      let n1 = if ltb max_write (n - i) then max_write else n - i in
      let next = write_chunk f (addr + i) n1 s >>= after_chunk (write_from fuel addr n) f i n1 in
      if ltb i n then next else ok (s, f, written i n)

  abbrev pub write_as : FdType → File → ℕ → ℤ → S → Outcome (S × File × ℤ)
  write_as fd_none f addr n s = panic
  write_as fd_pipe f addr n s = let out = pipewrite f.pipe addr n s in ok (out.0, f, out.1)
  write_as fd_inode f addr (negsuc n) s = ok (s, f, negsuc 0)
  write_as fd_inode f addr (pos n) s = write_from n addr n 0 f s

  pub filewrite : File → ℕ → ℤ → S → Outcome (S × File × ℤ)
  filewrite f addr n s = if f.writable then write_as f.type f addr n s else ok (s, f, negsuc 0)
