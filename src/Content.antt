-- ===== src/Content.antt =====
-- HW2/src/fs.c: the contents of inodes, `bmap`, `itrunc`, `readi` and `writei`.
pub mod Entries
pub mod Slots
pub mod Grow
pub mod Bmap
pub mod Room
pub mod Io
pub mod Blit
pub mod Write
pub mod Enough
pub mod Read
pub mod Files
pub mod Overwrite
pub mod Freed
pub mod Truncate
pub mod Tests
use cs.Base.{
  ℕ, zero, suc, ◌+◌, ◌-◌, ◌*◌, ◌/◌, ◌%◌, ◌^◌, Bool, true, false, ◌&&◌, ◌||◌, not, Option, none,
  some, ◌==◌, ltb, leb, if◌then◌else◌, update, ℤ, pos, negsuc, Outcome, ok, panic, ◌>>=◌,
}
use cs.Blocks.{Blocks, balloc, bfree}

abbrev pub bsize : ℕ
bsize = 512

abbrev pub ndirect : ℕ
ndirect = 12

-- `NINDIRECT`, as many 4-byte words as a block has
abbrev pub nindirect : ℕ
nindirect = 128

-- `struct dinode`
pub record Dinode : Type 0 where
  pub type : ℕ
  pub major : ℕ
  pub minor : ℕ
  pub nlink : ℕ
  pub size : ℕ
  pub addrs : ℕ → ℕ

-- Of `struct inode` the number and the copy of the disk inode.
pub record Inode : Type 0 where
  pub inum : ℕ
  pub copy : Dinode

-- What is on the disk: the blocks, and apart from them the inode blocks as an array of disk inodes.
pub record Fs : Type 0 where
  pub blocks : Blocks
  pub dinodes : ℕ → Dinode

pub iupdate : Inode → Fs → Fs
iupdate ip fs = record fs { dinodes = update fs.dinodes ip.inum ip.copy }

-- Word `j` of a block, `a[j]`, with the low byte first.
unfoldable pub word_at : (ℕ → ℕ) → ℕ → ℕ
word_at f j = f (j * 4) + f (j * 4 + 1) * 256 + f (j * 4 + 2) * 65536 + f (j * 4 + 3) * 16777216

abbrev pub byte_of : ℕ → ℕ → ℕ
byte_of v zero = v % 256
byte_of v (suc r) = byte_of (v / 256) r

-- `a[j] = v`
unfoldable pub put_word : (ℕ → ℕ) → ℕ → ℕ → ℕ → ℕ
put_word f j v i = if i / 4 == j then byte_of v (i % 4) else f i

-- The block at `addrs[i]`, allocated if there is none: the addresses, the disk and the block.
pub addr_at : ℕ → (ℕ → ℕ) → Blocks → Outcome ((ℕ → ℕ) × Blocks × ℕ)
addr_at i addrs s =
    if addrs i == 0
    then (balloc s >>= λ r. ok (update addrs i r.1, r.0, r.1))
    else ok (addrs, s, addrs i)

abbrev pub set_entry : ℕ → ℕ → ℕ → Blocks → Blocks
set_entry ind j v s = record s { bytes = update s.bytes ind (put_word (s.bytes ind) j v) }

-- The block at entry `j` of the indirect block `ind`, likewise.
pub entry_at : ℕ → (ℕ → ℕ) × Blocks × ℕ → Outcome ((ℕ → ℕ) × Blocks × ℕ)
entry_at j (addrs, s, ind) =
    let v = word_at (s.bytes ind) j in
    if v == 0
    then (balloc s >>= λ r. ok (addrs, set_entry ind j r.1 r.0, r.1))
    else ok (addrs, s, v)

pub bmap : ℕ → (ℕ → ℕ) → Blocks → Outcome ((ℕ → ℕ) × Blocks × ℕ)
bmap bn addrs s =
    if ltb bn ndirect
    then addr_at bn addrs s
    else if ltb (bn - ndirect) nindirect
    then addr_at ndirect addrs s >>= entry_at (bn - ndirect)
    else panic

-- The first loop of `itrunc`, for `n` more addresses from `i` on.
pub free_direct : ℕ → ℕ → (ℕ → ℕ) → Blocks → Outcome ((ℕ → ℕ) × Blocks)
free_direct zero i addrs s = ok (addrs, s)
free_direct (suc n) i addrs s =
    let next = free_direct n (i + 1) addrs s in
    let freed = bfree (addrs i) s >>= free_direct n (i + 1) (update addrs i 0) in
    if addrs i == 0 then next else freed

-- The second, for `n` more entries of the block `ind` from `j` on.
pub free_entries : ℕ → ℕ → ℕ → Blocks → Outcome Blocks
free_entries zero j ind s = ok s
free_entries (suc n) j ind s =
    let v = word_at (s.bytes ind) j in
    let next = free_entries n (j + 1) ind s in
    let freed = bfree v s >>= free_entries n (j + 1) ind in if v == 0 then next else freed

pub free_indirect : (ℕ → ℕ) × Blocks → Outcome ((ℕ → ℕ) × Blocks)
free_indirect (addrs, s) =
    let ind = addrs ndirect in
    if ind == 0
    then ok (addrs, s)
    else free_entries nindirect 0 ind s >>= bfree ind >>= λ u. ok (update addrs ndirect 0, u)

abbrev pub truncated : Inode → Fs → (ℕ → ℕ) × Blocks → Inode × Fs
truncated ip fs (addrs, s) =
    let ip' : Inode = record ip { copy = record ip.copy { addrs = addrs; size = 0 } } in
    (ip', iupdate ip' (record fs { blocks = s }))

pub itrunc : Inode → Fs → Outcome (Inode × Fs)
itrunc ip fs =
    free_direct ndirect 0 ip.copy.addrs fs.blocks >>= free_indirect >>= λ r. ok (truncated ip fs r)
